-- ===== src/Attribs/Handlers.antt =====
-- src/client/caching_client.c: glEnableVertexAttribArray, glDisableVertexAttribArray,
-- glVertexAttribPointer, and the check of indices.
use gpu_proxy.Base.{
  ℕ, zero, suc, ◌+◌, Option, none, some, Bool, true, false, not, List, [], ◌∷◌, ◌++◌, ◌==◌, ◌&&◌,
  ◌||◌, ltb, leb, if◌then◌else◌,
}
use gpu_proxy.Gl.Enums
use gpu_proxy.Image.Enums as Types
use gpu_proxy.Gl.State.{State, set_error, int_negative}
use gpu_proxy.Attribs.{Attrib, AttribList, num_embedded, put, add_to_enabled, remove_from_enabled}

-- The part of `egl_state_t` that these calls use.
pub record Arrays : Type 0 where
  pub gl : State
  pub vertex_attribs : AttribList
  pub vertex_array_binding : ℕ
  pub max_vertex_attribs : ℕ
  pub max_vertex_attribs_queried : Bool

-- `GL_FIXED`
abbrev pub fixed : ℕ
fixed = 0x140c

-- The calls sent on.
pub data ArrayCall : Type 0 where
  get_max : ArrayCall
  enable_array disable_array : ℕ → ArrayCall
  pointer : ℕ → ℕ → ℕ → Bool → ℕ → ℕ → ArrayCall
  get_vertex_attribfv get_vertex_attrib_pointerv : ℕ → ℕ → ArrayCall

-- A new state and the calls sent on; `none` where the code writes past the array, or where a loop over
-- the enabled attributes does not end within the fuel.
abbrev pub Reply : Type 0
Reply = Option (Arrays × List ArrayCall)

-- `caching_client_does_index_overflow`, with the driver's answer: the result, the state, the calls.
unfoldable pub does_index_overflow : Arrays → ℕ → ℕ → Bool × Arrays × List ArrayCall
does_index_overflow s index driver_max =
    let asked = record s {
      max_vertex_attribs =
          if s.max_vertex_attribs_queried then s.max_vertex_attribs else driver_max;
      max_vertex_attribs_queried = true;
    } in
    let calls = if s.max_vertex_attribs_queried then [] else get_max ∷ [] in
    if leb index asked.max_vertex_attribs
    then (false, asked, calls)
    else (true, record asked { gl = set_error s.gl Enums.invalid_value }, calls)

-- The loops that look for an index among the elements from `i` on, `n` of them left.
abbrev pub find_index : ℕ → ℕ → (ℕ → Attrib) → ℕ → Option ℕ
find_index zero i attribs index = none
find_index (suc n) i attribs index =
    if (attribs i).index == index then some i else find_index n (suc i) attribs index

abbrev pub find_attrib : AttribList → ℕ → Option ℕ
find_attrib l index = find_index l.count 0 l.attribs index

-- A new element at the end of the array. With 32 of them the code copies one element more than there
-- are: `none`.
abbrev pub append : AttribList → Attrib → Option AttribList
append l v =
    if ltb l.count num_embedded
    then some (record l { attribs = put l.attribs l.count v; count = l.count + 1 })
    else none

-- The fields that glSetVertexAttribArray gives a new element.
abbrev pub new_attrib : ℕ → ℕ → Bool → Attrib
new_attrib index bound_buffer enable = record {
  index = index;
  array_buffer_binding = bound_buffer;
  array_enabled = enable;
  size = 0;
  stride = 0;
  type = Types.float;
  pointer = 0;
  array_normalized = false;
  next_enabled = 0;
  chunk = 0;
}

abbrev pub with_list : Arrays → List ArrayCall → Option AttribList → Reply
with_list s calls none = none
with_list s calls (some l) = some (record s { vertex_attribs = l }, calls)

abbrev pub set_enabled : AttribList → ℕ → Bool → AttribList
set_enabled l p enable = record l {
  attribs = put l.attribs p (record (l.attribs p) { array_enabled = enable });
}

abbrev pub switch : Bool → ℕ → ArrayCall
switch enable index = if enable then ArrayCall.enable_array index else ArrayCall.disable_array index

abbrev pub same_flag : Bool → Bool → Bool
same_flag true b = b
same_flag false b = not b

module _ (fuel : ℕ) (driver_max : ℕ) where
  -- The list of enabled attributes, once the driver was told.
  abbrev pub relist : Bool → AttribList → ℕ → Option AttribList
  relist enable l p = if enable then add_to_enabled fuel l p else remove_from_enabled fuel l p

  -- After the check of the index, with the element that was found.
  abbrev pub set_found : Bool × Arrays × List ArrayCall → ℕ → ℕ → Bool → Reply
  set_found (true, s, calls) p index enable = some (s, calls)
  set_found (false, s, calls) p index enable =
      let sent = calls ++ (switch enable index ∷ []) in
      if s.gl.bindings.array_buffer == 0
      then with_list s sent (relist enable s.vertex_attribs p)
      else some (s, sent)

  abbrev pub set_new : Bool × Arrays × List ArrayCall → ℕ → Bool → Reply
  set_new (true, s, calls) index enable = some (s, calls)
  set_new (false, s, calls) index enable =
      with_list s (calls ++ (switch enable index ∷ []))
        (append s.vertex_attribs (new_attrib index s.gl.bindings.array_buffer enable))

  -- `caching_client_glSetVertexAttribArray`. The flag of an element that was found is set before the
  -- check of the index.
  unfoldable pub set_vertex_attrib_array : Arrays → ℕ → Bool → Reply
  set_vertex_attrib_array s index enable =
      if not (s.vertex_array_binding == 0)
      then some (s, switch enable index ∷ [])
      else elim (find_attrib s.vertex_attribs index) [
        | none ↦ set_new (does_index_overflow s index driver_max) index enable
        | some p ↦
            if same_flag (s.vertex_attribs.attribs p).array_enabled enable
            then some (s, [])
            else set_found
                (does_index_overflow
                  (record s { vertex_attribs = set_enabled s.vertex_attribs p enable }) index
                  driver_max)
                p index enable
      ]

  unfoldable pub gl_enable_vertex_attrib_array : Arrays → ℕ → Reply
  gl_enable_vertex_attrib_array s index = set_vertex_attrib_array s index true

  unfoldable pub gl_disable_vertex_attrib_array : Arrays → ℕ → Reply
  gl_disable_vertex_attrib_array s index = set_vertex_attrib_array s index false

  -- The element that glVertexAttribPointer writes over, with its enabled flag and links kept.
  abbrev pub described : Attrib → ℕ → ℕ → Bool → ℕ → ℕ → ℕ → Attrib
  described v size type normalized stride at bound_buffer = record v {
    size = size;
    stride = stride;
    type = type;
    array_normalized = normalized;
    array_buffer_binding = bound_buffer;
    pointer = at;
  }

  abbrev pub unchanged : Attrib → ℕ → ℕ → Bool → ℕ → ℕ → ℕ → Bool
  unchanged v size type normalized stride at bound_buffer =
      v.size == size
      && v.type == type
      && v.stride == stride
      && v.array_buffer_binding == bound_buffer
      && same_flag v.array_normalized normalized
      && v.pointer == at

  -- An enabled element is taken out of the list and put in again.
  abbrev pub relist_described : AttribList → ℕ → Option AttribList
  relist_described l p =
      if (l.attribs p).array_enabled
      then elim (remove_from_enabled fuel l p) [ none ↦ none | some l' ↦ add_to_enabled fuel l' p ]
      else some l

  -- The types that glVertexAttribPointer lets through.
  abbrev pub is_attrib_type : ℕ → Bool
  is_attrib_type type =
      type == Types.byte
      || type == Types.unsigned_byte
      || type == Types.short
      || type == Types.unsigned_short
      || type == Types.float
      || type == fixed

  abbrev pub point : Bool × Arrays × List ArrayCall → ℕ → ℕ → ℕ → Bool → ℕ → ℕ → Reply
  point (true, s, calls) index size type normalized stride at = some (s, calls)
  point (false, s, calls) index size type normalized stride at =
      let bound_buffer = s.gl.bindings.array_buffer in
      let l = s.vertex_attribs in
      let call = ArrayCall.pointer index size type normalized stride at in
      let sent = if bound_buffer == 0 then calls else calls ++ (call ∷ []) in
      if not (s.vertex_array_binding == 0)
      then some (s, calls ++ (call ∷ []))
      else elim (find_attrib l index) [
        | none ↦ with_list s sent (
            append l (
              described (new_attrib index bound_buffer false) size type normalized stride at
                bound_buffer))
        | some p ↦
            if unchanged (l.attribs p) size type normalized stride at bound_buffer
            then some (s, calls)
            else with_list s sent (
                relist_described
                  (record l {
                    attribs =
                        put l.attribs p
                          (described (l.attribs p) size type normalized stride at bound_buffer);
                  })
                  p)
      ]

  -- `caching_client_glVertexAttribPointer`
  unfoldable pub gl_vertex_attrib_pointer : Arrays → ℕ → ℕ → ℕ → Bool → ℕ → ℕ → Reply
  gl_vertex_attrib_pointer s index size type normalized stride at =
      if not (is_attrib_type type)
      then some (record s { gl = set_error s.gl Enums.invalid_enum }, [])
      else if ltb 4 size || size == 0 || int_negative stride
      then some (record s { gl = set_error s.gl Enums.invalid_value }, [])
      else point (does_index_overflow s index driver_max) index size type normalized stride at
