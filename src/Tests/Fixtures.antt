-- ===== src/Tests/Fixtures.antt =====
-- The states and tables that the tests start from.
use gpu_proxy.Base.{
  refl, ℕ, ◌≡◌, ◌≢◌, ◌==◌, ◌&&◌, ◌||◌, leb, ltb, ◌^◌, Option, some, none, true, false, arith,
  if◌then◌else◌,
}
use gpu_proxy.Gl.State.{Env, init}
use gpu_proxy.Names.{create}
use gpu_proxy.Attribs.{Attrib}
use gpu_proxy.Caches.{ObjectTable}
use gpu_proxy.Caches.Handlers.{Objects}

abbrev pub env : Env
env = record {
  feq = λ x y. x == y;
  of_enum = λ n. n;
  float_negative = λ w. leb (2 ^ 31) w;
  float_positive = λ w. ltb 0 w && ltb w (2 ^ 31);
  is_valid_equation = λ n. ltb 0 n;
  is_valid_src_blend_factor = λ n. true;
  is_valid_dst_blend_factor = λ n. true;
  is_valid_face_type = λ n. ltb 0 n;
  is_valid_cmp_function = λ n. ltb 0 n;
  is_valid_stencil_op = λ n. true;
  is_valid_hint_mode = λ n. ltb 0 n;
  is_valid_pixel_store_alignment = λ n. n == 1 || n == 2 || n == 4 || n == 8;
  texture_units = 8;
}

-- Tables as functions.
abbrev pub place : {A : Type 0} → ℕ → Option A → (ℕ → Option A) → ℕ → Option A
place k v t j = if j == k then v else t j

-- The key 0 is never found.
abbrev pub found : {A : Type 0} → ℕ → (ℕ → Option A) → Option A
found k t = if k == 0 then none else t k

pub found-same :
    {A : Type 0} (k : ℕ) (v : Option A) (t : ℕ → Option A) → k ≢ 0 → found k (place k v t) ≡ v
found-same k v t n = ground arith

pub found-none : {A : Type 0} (k : ℕ) (t : ℕ → Option A) → found k (place k none t) ≡ none
found-none k t = ground arith

pub found-other :
    {A : Type 0} (j k : ℕ) (v : Option A) (t : ℕ → Option A)
    → j ≢ k
    → found j (place k v t) ≡ found j t
found-other j k v t n = ground arith

abbrev pub hash : ObjectTable
hash = record {
  Table = λ A. ℕ → Option A;
  lookup = λ k t. found k t;
  insert = λ k v t. place k (some v) t;
  remove = λ k t. place k none t;
  lookup-zero = λ t. refl;
  lookup-insert = λ k v t n. found-same k (some v) t n;
  lookup-insert_other = λ j k v t n. found-other j k (some v) t n;
  lookup-remove = λ k t. found-none k t;
  lookup-remove_other = λ j k t n. found-other j k none t n;
}

abbrev pub no_attrib : Attrib
no_attrib = record {
  index = 0;
  array_buffer_binding = 0;
  array_enabled = false;
  size = 4;
  stride = 0;
  type = 0x1406;
  pointer = 0;
  array_normalized = false;
  next_enabled = 0;
  chunk = 0;
}

abbrev pub nothing : Objects hash
nothing = record {
  gl = record (init env 0 0) { active = true };
  vertex_attribs = record {
    count = 0;
    enabled_count = 0;
    attribs = λ p. no_attrib;
    enabled_attribs = 0;
  };
  textures = λ k. none;
  framebuffers = λ k. none;
  renderbuffers = λ k. none;
  texture_names = create;
  framebuffer_names = create;
  renderbuffer_names = create;
  buffer_names = create;
  color_clear_value = record { c0 = 0; c1 = 0; c2 = 0; c3 = 0 };
  depth_clear_value = 1;
  stencil_clear_value = 0;
}
