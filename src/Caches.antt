-- ===== src/Caches.antt =====
-- src/egl_state.c and src/egl_state.h: the cached textures, framebuffers and renderbuffers.
pub mod Handlers
pub mod Deletes
pub mod Unbound
pub mod Given
pub mod Storage
use gpu_proxy.Base.{
  ℕ, ap, sym, ◌∙◌, arith, ◌≡◌, ◌≢◌, Option, none, some, Bool, true, false, not, ◌==◌, if◌then◌else◌,
}
use gpu_proxy.Gl.Enums
use gpu_proxy.Image.Enums as Types

-- The parameters of a `texture_t`. The last is `none` until it is written: the memory that
-- `_create_texture` gets for it is not cleared.
pub record TexParams : Type 0 where
  pub mag_filter : ℕ
  pub min_filter : ℕ
  pub wrap_s : ℕ
  pub wrap_t : ℕ
  pub wrap_r : ℕ
  pub max_anisotropy : Option ℕ

-- `texture_t`
pub record Texture : Type 0 where
  pub framebuffer_id : ℕ
  pub id : ℕ
  pub internal_format : ℕ
  pub width : ℕ
  pub height : ℕ
  pub data_type : ℕ
  pub params : TexParams

-- `renderbuffer_t`
pub record Renderbuffer : Type 0 where
  pub id : ℕ
  pub framebuffer_id : ℕ

-- `framebuffer_status_t`
pub data FramebufferStatus : Type 0 where
  complete incomplete complete_unknown : FramebufferStatus

-- `framebuffer_t`, with `complete` as `status`.
pub record Framebuffer : Type 0 where
  pub id : ℕ
  pub attached_image : ℕ
  pub attached_color_buffer : ℕ
  pub attached_depth_buffer : ℕ
  pub attached_stencil_buffer : ℕ
  pub status : FramebufferStatus

-- `framebuffer && framebuffer->id && framebuffer->complete == FRAMEBUFFER_INCOMPLETE`
abbrev pub is_incomplete : Option Framebuffer → Bool
is_incomplete none = false
is_incomplete (some f) = elim f.status [
  | complete ↦ false
  | incomplete ↦ not (f.id == 0)
  | complete_unknown ↦ false
]

-- `hash_lookup`, `hash_insert` and `hash_remove` of src/util/hash.c, for objects of any type. The
-- key 0 is never found, and inserting under it fails an assertion.
pub record ObjectTable : Type 1 where
  pub Table : Type 0 → Type 0
  pub lookup : {A : Type 0} → ℕ → Table A → Option A
  pub insert : {A : Type 0} → ℕ → A → Table A → Table A
  pub remove : {A : Type 0} → ℕ → Table A → Table A
  pub lookup-zero : {A : Type 0} (t : Table A) → lookup 0 t ≡ none
  pub lookup-insert :
      {A : Type 0} (k : ℕ) (v : A) (t : Table A) → k ≢ 0 → lookup k (insert k v t) ≡ some v
  pub lookup-insert_other :
      {A : Type 0} (j k : ℕ) (v : A) (t : Table A) → j ≢ k → lookup j (insert k v t) ≡ lookup j t
  pub lookup-remove : {A : Type 0} (k : ℕ) (t : Table A) → lookup k (remove k t) ≡ none
  pub lookup-remove_other :
      {A : Type 0} (j k : ℕ) (t : Table A) → j ≢ k → lookup j (remove k t) ≡ lookup j t

-- `_create_texture`, `_create_framebuffer`, `_create_renderbuffer`
abbrev pub initial_params : TexParams
initial_params = record {
  mag_filter = Enums.linear;
  min_filter = Enums.nearest_mipmap_linear;
  wrap_s = Enums.repeat;
  wrap_t = Enums.repeat;
  wrap_r = Enums.repeat;
  max_anisotropy = none;
}

abbrev pub create_texture : ℕ → Texture
create_texture id = record {
  framebuffer_id = 0;
  id = id;
  internal_format = Types.rgba;
  width = 0;
  height = 0;
  data_type = Types.unsigned_byte;
  params = initial_params;
}

abbrev pub create_framebuffer : ℕ → Framebuffer
create_framebuffer id = record {
  id = id;
  attached_image = 0;
  attached_color_buffer = 0;
  attached_depth_buffer = 0;
  attached_stencil_buffer = 0;
  status = FramebufferStatus.complete;
}

abbrev pub create_renderbuffer : ℕ → Renderbuffer
create_renderbuffer id = record { id = id; framebuffer_id = 0 }

-- An object is only found under a key that is not 0.
pub found_nonzero :
    (hash : ObjectTable) {A : Type 0} (k : ℕ) (t : hash.Table A) (v : A)
    → hash.lookup k t ≡ some v
    → k ≢ 0
found_nonzero hash k t v e z =
    let none_is : none ≡ some v =
      sym (hash.lookup-zero t) ∙ ap (λ j. hash.lookup j t) (sym z) ∙ e in
    absurd (ground arith)

module _ (hash : ObjectTable) where
  -- A write through the pointer that a lookup gave, if it gave one.
  abbrev pub change : {A : Type 0} → ℕ → (A → A) → hash.Table A → hash.Table A
  change k f t = elim (hash.lookup k t) [ none ↦ t | some o ↦ hash.insert k (f o) t ]

  -- `egl_state_delete_cached_texture`
  abbrev pub delete_cached_texture : ℕ → hash.Table Texture → hash.Table Texture
  delete_cached_texture k t = if k == 0 then t else hash.remove k t
