-- ===== src/Tests/Attributes.antt =====
-- Vertex attributes and draw calls at concrete inputs.
use gpu_proxy.Base.{
  ℕ, zero, suc, ◌+◌, ◌*◌, ◌-◌, ◌≤◌, ◌<◌, ◌≡◌, ◌≢◌, ltb, refl, Option, some, none, true, false, [],
  ◌∷◌, List, arith, if◌then◌else◌,
}
use gpu_proxy.Image.Enums as Types
use gpu_proxy.Gl.State.{init}
use gpu_proxy.Tests.Fixtures.{env}
use gpu_proxy.Attribs.{Attrib, AttribList, add_to_enabled, remove_from_enabled}
use gpu_proxy.Attribs.Enabled.{edits_end}
use gpu_proxy.Attribs.Handlers.{
  Arrays, gl_enable_vertex_attrib_array, gl_vertex_attrib_pointer, set_vertex_attrib_array,
  does_index_overflow,
}
use gpu_proxy.Attribs.Indices.{HoldsOnce}
use gpu_proxy.Attribs.Sessions.{Request, session, session-HoldsOnce}
use gpu_proxy.Attribs.Elements.{
  Indices, get_elements_count, get_elements_count_neon, neon_count_agrees, element,
  elements_count_exact,
}
use gpu_proxy.Attribs.Draws.{
  CommandSizes, Pass, Setup, setup_vertex_attrib_pointer, client_has_vertex_attrib_array_set,
  stride_of, vertex_chunk_size, get_data_size,
}
use gpu_proxy.Attribs.Calls.{Draw, IndicesAt, gl_draw_arrays, gl_draw_elements}
use gpu_proxy.Attribs.Elements.{calculate_index_array_size}
use gpu_proxy.Attribs.Setup.{chunk_covers, element_size}

-- An enabled attribute of two floats at an address.
abbrev floats_at : ℕ → ℕ → ℕ → ℕ → Attrib
floats_at index at stride next = record {
  index = index;
  array_buffer_binding = 0;
  array_enabled = true;
  size = 2;
  stride = stride;
  type = Types.float;
  pointer = at;
  array_normalized = false;
  next_enabled = next;
  chunk = 1;
}

-- Attribute 5 at 1000, attribute 6 at 1008, interleaved, and attribute 7 at 990.
abbrev three : ℕ → Attrib
three zero = floats_at 5 1000 16 2
three (suc zero) = floats_at 6 1008 16 0
three (suc (suc p)) = floats_at 7 990 16 0

abbrev two_enabled : AttribList
two_enabled = record { count = 3; enabled_count = 2; attribs = three; enabled_attribs = 1 }

edits_end_example :
    (add_to_enabled 4 two_enabled 2 ≢ none) × (remove_from_enabled 4 two_enabled 2 ≢ none)
edits_end_example = edits_end 3 two_enabled 2 (0 ∷ 1 ∷ []) refl

-- Two that do not overlap.
abbrev far : ℕ → Attrib
far zero = floats_at 5 1000 16 2
far (suc p) = floats_at 6 3000 16 0

abbrev two_far : AttribList
two_far = record { count = 2; enabled_count = 2; attribs = far; enabled_attribs = 1 }

-- No attributes yet.
abbrev no_arrays : Arrays
no_arrays = record {
  gl = record (init env 0 0) { active = true };
  vertex_attribs = record {
    count = 0;
    enabled_count = 0;
    attribs = λ p. floats_at 0 0 0 0;
    enabled_attribs = 0;
  };
  vertex_array_binding = 0;
  max_vertex_attribs = 0;
  max_vertex_attribs_queried = false;
}

no_arrays-HoldsOnce : HoldsOnce no_arrays.vertex_attribs
no_arrays-HoldsOnce = record {
  room = ground arith;
  once = λ i j low high same. absurd (omega (arith, low));
}

abbrev requests : List Request
requests = Request.describe 3 4 Types.float false 0 500 ∷ Request.enable 3 ∷ []

-- The state after the calls, where there is one.
abbrev after_or : Option Arrays → Arrays → Arrays
after_or none s = s
after_or (some t) s = t

session-HoldsOnce_example :
    HoldsOnce (after_or (session 4 16 no_arrays requests) no_arrays).vertex_attribs
unfolding init does_index_overflow gl_vertex_attrib_pointer gl_enable_vertex_attrib_array
    set_vertex_attrib_array add_to_enabled
session-HoldsOnce_example =
    session-HoldsOnce 4 16 no_arrays (after_or (session 4 16 no_arrays requests) no_arrays) requests
      no_arrays-HoldsOnce refl

-- The greater one in every lane.
abbrev lane_max : (ℕ → ℕ) → (ℕ → ℕ) → ℕ → ℕ
lane_max a b lane = if ltb (b lane) (a lane) then a lane else b lane

abbrev some_indices : Indices
some_indices = record { chars = λ i. i * 3; shorts = λ i. i * 7 }

neon_count_agrees_example :
    get_elements_count_neon lane_max Types.unsigned_short some_indices 21
    ≡ get_elements_count Types.unsigned_short some_indices 21
neon_count_agrees_example =
    neon_count_agrees lane_max (λ a b lane. refl) Types.unsigned_short some_indices 21

elements_count_exact_example :
    ((k : ℕ)
      → k < 21
      → element Types.unsigned_byte some_indices k
        < get_elements_count Types.unsigned_byte some_indices 21)
    × ((u : ℕ)
        → 0 < u
        → ((k : ℕ) → k < 21 → element Types.unsigned_byte some_indices k < u)
        → get_elements_count Types.unsigned_byte some_indices 21 ≤ u)
elements_count_exact_example = elements_count_exact Types.unsigned_byte some_indices 21

abbrev sizes : CommandSizes
sizes = record { attrib_pointer = 48; draw_arrays = 32; draw_elements = 40 }

-- The two interleaved attributes go as one chunk of 56 bytes.
abbrev two_sent : Pass
two_sent = record {
  array_size = 56;
  attrib_count = 2;
  copied = record { to = 128; from = 1000; length = 56 } ∷ [];
  pointed =
      record {
        command = 0;
        index = 5;
        size = 2;
        type = Types.float;
        normalized = false;
        stride = 16;
        location = 128;
      }
      ∷ record {
        command = 48;
        index = 6;
        size = 2;
        type = Types.float;
        normalized = false;
        stride = 16;
        location = 136;
      }
      ∷ [];
}

two_set_up :
    setup_vertex_attrib_pointer sizes 4096 4 two_enabled 3 0
    ≡ some (record { command = some 96; pass = two_sent })
unfolding setup_vertex_attrib_pointer vertex_chunk_size get_data_size
two_set_up = refl

chunk_covers_example :
    (three 0).pointer - 1000 + stride_of (three 0) * 2 + element_size (three 0)
    ≤ vertex_chunk_size (three 0) (three 1) 3
unfolding get_data_size
chunk_covers_example =
    chunk_covers (three 0) (three 1) (three 0) 2 (ground arith) (ground arith) refl (ground arith)
      (ground arith) (ground arith)

-- The same by the draw calls.
abbrev arrays : Arrays
arrays = record no_arrays { vertex_attribs = two_enabled }

drawn_after_setup :
    gl_draw_arrays sizes 4096 4 (λ m. true) (λ k. none) arrays 4 0 3
    ≡ Draw.drawn arrays
        (some (record { command = some 96; pass = two_sent }))
        (record { place = some 96; size = 88; indices = IndicesAt.no_indices })
unfolding init gl_draw_arrays setup_vertex_attrib_pointer vertex_chunk_size get_data_size
    client_has_vertex_attrib_array_set
drawn_after_setup = refl

-- With unsigned int indices in the program's memory nothing is drawn.
uint_skipped :
    gl_draw_elements sizes 4096 4
      (λ m. true)
      (λ k. none)
      arrays
      true
      4
      3
      Types.unsigned_int
      5000
      some_indices
    ≡ Draw.skipped arrays
unfolding init gl_draw_elements client_has_vertex_attrib_array_set calculate_index_array_size
uint_skipped = refl
