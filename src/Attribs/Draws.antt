-- ===== src/Attribs/Draws.antt =====
-- src/client/caching_client.c: the copies of the client's arrays that stand before a draw call in the
-- buffer, and glDrawArrays and glDrawElements.
use gpu_proxy.Base.{
  ℕ, zero, suc, ◌+◌, ◌*◌, ◌-◌, ◌%◌, ◌^◌, Option, none, some, Bool, true, false, not, List, [], ◌∷◌,
  ◌++◌, ◌==◌, ◌||◌, ltb, if◌then◌else◌,
}
use gpu_proxy.Image.Enums as Types
use gpu_proxy.Gl.State.{int_negative}
use gpu_proxy.Attribs.{Attrib, AttribList}
use gpu_proxy.Attribs.Handlers.{Arrays, fixed}

-- `_get_data_size`
unfoldable pub get_data_size : ℕ → ℕ
get_data_size type =
    if type == Types.byte || type == Types.unsigned_byte
    then 1
    else if type == Types.short || type == Types.unsigned_short
    then 2
    else if type == Types.float
    then 4
    else if type == fixed
    then 4
    else 0

-- `client_has_vertex_attrib_array_set`, for the elements from `i` on, `n` of them left.
abbrev pub has_array_set : ℕ → ℕ → (ℕ → Attrib) → Bool
has_array_set zero i attribs = false
has_array_set (suc n) i attribs =
    (attribs i).array_enabled
    || not ((attribs i).array_buffer_binding == 0)
    || has_array_set n (suc i) attribs

unfoldable pub client_has_vertex_attrib_array_set : Arrays → Bool
client_has_vertex_attrib_array_set s =
    has_array_set s.vertex_attribs.count 0 s.vertex_attribs.attribs

-- The distance between two elements of an array.
abbrev pub stride_of : Attrib → ℕ
stride_of v = if v.stride == 0 then (v.size * get_data_size v.type) % 2 ^ 32 else v.stride

-- `caching_client_vertex_chunk_size`, in a size_t.
unfoldable pub vertex_chunk_size : Attrib → Attrib → ℕ → ℕ
vertex_chunk_size first last count =
    if get_data_size last.type == 0
    then 0
    else (stride_of last * count + last.pointer + 2 ^ 64 - first.pointer) % 2 ^ 64

-- An `int` where a size_t is wanted.
abbrev pub word_of_int : ℕ → ℕ
word_of_int n = if int_negative n then n + 2 ^ 64 - 2 ^ 32 else n

-- The sizes of the commands, as `command_get_size` gives them.
pub record CommandSizes : Type 0 where
  pub attrib_pointer : ℕ
  pub draw_arrays : ℕ
  pub draw_elements : ℕ

-- A memcpy into the buffer. Places in the buffer are counted from the first command of the call.
pub record Copied : Type 0 where
  pub to : ℕ
  pub from : ℕ
  pub length : ℕ

-- A glVertexAttribPointer command, with its place in the buffer and that of the data.
pub record Pointed : Type 0 where
  pub command : ℕ
  pub index : ℕ
  pub size : ℕ
  pub type : ℕ
  pub normalized : Bool
  pub stride : ℕ
  pub location : ℕ

-- The local variables of `caching_client_setup_vertex_attrib_pointer_if_necessary`, and what it did.
pub record Pass : Type 0 where
  pub array_size : ℕ
  pub attrib_count : ℕ
  pub copied : List Copied
  pub pointed : List Pointed

-- The first inner loop: the last attribute of a chunk, and the pointer behind it.
abbrev pub chunk_end : ℕ → (ℕ → Attrib) → ℕ → ℕ → ℕ → Option (ℕ × ℕ)
chunk_end zero attribs chunk last at = none
chunk_end (suc fuel) attribs chunk last zero = some (last, 0)
chunk_end (suc fuel) attribs chunk last (suc p) =
    let rest = chunk_end fuel attribs chunk p (attribs p).next_enabled in
    if (attribs p).chunk == chunk then rest else some (last, suc p)

-- How one round of the outer loop ends: the code returns, or goes on behind the chunk.
pub data Round : Type 0 where
  endless : Round
  stopped : Pass → Round
  further : ℕ → Pass → Round

-- What the setup hands back: the place for the draw command, `none` for NULL.
pub record Setup : Type 0 where
  pub command : Option ℕ
  pub pass : Pass

abbrev pub no_pass : Pass
no_pass = record { array_size = 0; attrib_count = 0; copied = []; pointed = [] }

abbrev pub set_up : ℕ → Option (Bool × Pass) → Option Setup
set_up draw_at none = none
set_up draw_at (some (done, pass)) =
    some (record { command = some (if done then draw_at else 0); pass = pass })

module _ (sizes : CommandSizes) (buffer_size : ℕ) where
  -- The command for an attribute whose chunk was copied to `location`.
  abbrev pub point_to : Attrib → Attrib → ℕ → Pass → Pass
  point_to first v location pass = record pass {
    attrib_count = pass.attrib_count + 1;
    pointed =
        pass.pointed
        ++ (record {
          command = sizes.attrib_pointer * pass.attrib_count;
          index = v.index;
          size = v.size;
          type = v.type;
          normalized = v.array_normalized;
          stride = v.stride;
          location = (location + v.pointer + 2 ^ 64 - first.pointer) % 2 ^ 64;
        }
            ∷ []);
  }

  -- The second inner loop: a command for each attribute of the chunk.
  abbrev pub send_chunk : ℕ → (ℕ → Attrib) → Attrib → ℕ → ℕ → Pass → Option Pass
  send_chunk zero attribs first location at pass = none
  send_chunk (suc fuel) attribs first location zero pass = some pass
  send_chunk (suc fuel) attribs first location (suc p) pass =
      let rest =
        send_chunk fuel attribs first location (attribs p).next_enabled
          (point_to first (attribs p) location pass) in
      if (attribs p).chunk == first.chunk then rest else some pass

  -- The copy of a chunk.
  abbrev pub copy_chunk : ℕ → Attrib → ℕ → Pass → Pass
  copy_chunk commands_size first chunk_size pass =
      let total = (pass.array_size + chunk_size) % 2 ^ 64 in
      record pass {
        array_size = total;
        copied =
            pass.copied
            ++ (record {
              to = (commands_size + total + 2 ^ 64 - chunk_size) % 2 ^ 64;
              from = first.pointer;
              length = chunk_size;
            }
                ∷ []);
      }

  abbrev pub grown : ℕ → Pass → Pass
  grown chunk_size pass = record pass { array_size = (pass.array_size + chunk_size) % 2 ^ 64 }

  -- The space that the code asks for before it copies a chunk.
  abbrev pub space_for : ℕ → ℕ → Pass → ℕ
  space_for commands_size index_array_size pass =
      (commands_size
        + pass.array_size
        + index_array_size
        + 2 ^ 64
        - (sizes.attrib_pointer * pass.attrib_count) % 2 ^ 64)
      % 2 ^ 64

  abbrev pub sent_on : ℕ → Option Pass → Round
  sent_on next none = Round.endless
  sent_on next (some pass) = Round.further next pass

  abbrev pub round_to : ℕ → (ℕ → Attrib) → ℕ → ℕ → ℕ → ℕ → Pass → Option (ℕ × ℕ) → Round
  round_to fuel attribs commands_size index_array_size count p pass none = Round.endless
  round_to fuel attribs commands_size index_array_size count p pass (some (last, next)) =
      let first = attribs p in
      let chunk_size = vertex_chunk_size first (attribs last) count in
      let copy = copy_chunk commands_size first chunk_size pass in
      let location = (commands_size + copy.array_size + 2 ^ 64 - chunk_size) % 2 ^ 64 in
      if chunk_size == 0
      then Round.stopped pass
      else if ltb buffer_size (space_for commands_size index_array_size (grown chunk_size pass))
      then Round.stopped (grown chunk_size pass)
      else sent_on next (send_chunk fuel attribs first location (suc p) copy)

  -- One round of the outer loop, from the attribute `p` on.
  abbrev pub round : ℕ → (ℕ → Attrib) → ℕ → ℕ → ℕ → ℕ → Pass → Round
  round fuel attribs commands_size index_array_size count p pass =
      round_to fuel attribs commands_size index_array_size count p pass
        (chunk_end fuel attribs (attribs p).chunk p (suc p))

  -- The outer loop, and whether it reached the end of the list.
  abbrev pub all_chunks : ℕ → (ℕ → Attrib) → ℕ → ℕ → ℕ → ℕ → Pass → Option (Bool × Pass)
  all_chunks zero attribs commands_size index_array_size count at pass = none
  all_chunks (suc fuel) attribs commands_size index_array_size count zero pass = some (true, pass)
  all_chunks (suc fuel) attribs commands_size index_array_size count (suc p) pass =
      elim (round fuel attribs commands_size index_array_size count p pass) [
        | endless ↦ none
        | stopped q ↦ some (false, q)
        | further at q ↦ all_chunks fuel attribs commands_size index_array_size count at q
      ]

  -- `caching_client_setup_vertex_attrib_pointer_if_necessary`; `none` where a loop does not end within
  -- the fuel. Where the code returns early, the place for the draw command is still the first one.
  unfoldable pub setup_vertex_attrib_pointer : ℕ → AttribList → ℕ → ℕ → Option Setup
  setup_vertex_attrib_pointer fuel l count index_array_size =
      let pointers = (sizes.attrib_pointer * word_of_int l.enabled_count) % 2 ^ 64 in
      let draw = if index_array_size == 0 then sizes.draw_arrays else sizes.draw_elements in
      let commands_size = (pointers + draw) % 2 ^ 64 in
      if ltb buffer_size ((commands_size + index_array_size) % 2 ^ 64)
      then some (record { command = none; pass = no_pass })
      else set_up pointers
          (all_chunks fuel l.attribs commands_size index_array_size count l.enabled_attribs no_pass)
