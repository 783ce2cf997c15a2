-- ===== src/Attribs.antt =====
-- src/client/caching_client.c: the vertex attributes that the client holds, and the linked list of
-- those that are enabled.
pub mod Alike
pub mod Calls
pub mod Draws
pub mod Enabled
pub mod Elements
pub mod Handlers
pub mod Indices
pub mod Sessions
pub mod Setup
pub mod Ends
pub mod Values
pub mod Currents
pub mod Bound
use gpu_proxy.Base.{
  ℕ, zero, suc, ◌+◌, ◌-◌, ◌%◌, ◌^◌, Option, none, some, Bool, true, false, not, ◌==◌, ◌&&◌, ◌||◌,
  ltb, leb, if◌then◌else◌,
}

-- `struct vertex_attrib`. `next_enabled` is 0 for NULL, and `suc p` for the element `p` of the array.
-- Pointers are addresses, a GLint or GLuint is its 32-bit pattern.
pub record Attrib : Type 0 where
  pub index : ℕ
  pub array_buffer_binding : ℕ
  pub array_enabled : Bool
  pub size : ℕ
  pub stride : ℕ
  pub type : ℕ
  pub pointer : ℕ
  pub array_normalized : Bool
  pub next_enabled : ℕ
  pub chunk : ℕ

-- `vertex_attrib_list_t`, with the array as a function. `enabled_attribs` points as `next_enabled` does.
pub record AttribList : Type 0 where
  pub count : ℕ
  pub enabled_count : ℕ
  pub attribs : ℕ → Attrib
  pub enabled_attribs : ℕ

-- `NUM_EMBEDDED`
abbrev pub num_embedded : ℕ
num_embedded = 32

abbrev pub put : (ℕ → Attrib) → ℕ → Attrib → ℕ → Attrib
put attribs p v q = if q == p then v else attribs q

abbrev pub set_next : (ℕ → Attrib) → ℕ → ℕ → ℕ → Attrib
set_next attribs p next = put attribs p (record (attribs p) { next_enabled = next })

-- The increments of an `int`.
abbrev pub one_more : ℕ → ℕ
one_more n = (n + 1) % 2 ^ 32

abbrev pub one_less : ℕ → ℕ
one_less n = (n + 2 ^ 32 - 1) % 2 ^ 32

-- `_attribs_memory_overlap`
unfoldable pub attribs_memory_overlap : Attrib → Attrib → Bool
attribs_memory_overlap attrib1 attrib2 =
    if ltb attrib1.pointer attrib2.pointer
    then leb attrib2.pointer (attrib1.pointer + attrib1.stride)
    else leb attrib1.pointer (attrib2.pointer + attrib2.stride)

-- The walk of `_remove_from_enabled_attrib_list` behind the first element, with fuel for a list that
-- may go in a circle.
pub remove_after : ℕ → (ℕ → Attrib) → ℕ → ℕ → ℕ → Option (ℕ → Attrib)
remove_after zero attribs new previous at = none
remove_after (suc fuel) attribs new previous zero = some attribs
remove_after (suc fuel) attribs new previous (suc p) =
    let rest = remove_after fuel attribs new p (attribs p).next_enabled in
    if p == new then some (set_next attribs previous (attribs p).next_enabled) else rest

-- `_remove_from_enabled_attrib_list`; `none` where the fuel runs out.
abbrev pub remove_from : ℕ → AttribList → ℕ → ℕ → Option AttribList
remove_from fuel l new zero = some l
remove_from fuel l new (suc p) =
    let counted = record l { enabled_count = one_less l.enabled_count } in
    if p == new
    then some (record counted {
      enabled_attribs = (l.attribs p).next_enabled;
      attribs = set_next l.attribs p 0;
    })
    else elim (remove_after fuel l.attribs new p (l.attribs p).next_enabled) [
      | none ↦ none
      | some attribs ↦ some (record counted { attribs = attribs })
    ]

unfoldable pub remove_from_enabled : ℕ → AttribList → ℕ → Option AttribList
remove_from_enabled fuel l new = remove_from fuel l new l.enabled_attribs

-- The place that `_add_to_enabled_attrib_list` finds.
pub record Place : Type 0 where
  pub attribs : ℕ → Attrib
  pub previous : ℕ
  pub chunk : ℕ

-- Its inner loop: on through the chunk, while the addresses are lower.
pub through_chunk : ℕ → (ℕ → Attrib) → ℕ → ℕ → ℕ → ℕ → Option Place
through_chunk zero attribs new chunk previous at = none
through_chunk (suc fuel) attribs new chunk previous zero =
    some (record { attribs = attribs; previous = previous; chunk = chunk })
through_chunk (suc fuel) attribs new chunk previous (suc p) =
    let rest = through_chunk fuel attribs new chunk (suc p) (attribs p).next_enabled in
    if (attribs p).chunk == chunk && ltb (attribs p).pointer (attribs new).pointer
    then rest
    else some (record { attribs = attribs; previous = previous; chunk = chunk })

-- Its outer loop. `previous_attrib->chunk++` gives the number to the new attribute, and raises that of
-- the one in the list.
pub find_place : ℕ → (ℕ → Attrib) → ℕ → ℕ → ℕ → ℕ → Option Place
find_place zero attribs new chunk previous at = none
find_place (suc fuel) attribs new chunk previous zero =
    some (record { attribs = attribs; previous = previous; chunk = chunk })
find_place (suc fuel) attribs new chunk previous (suc p) =
    let raised = put attribs p (record (attribs p) { chunk = one_more (attribs p).chunk }) in
    let rest = find_place fuel raised new (attribs p).chunk (suc p) (attribs p).next_enabled in
    let inside = through_chunk fuel attribs new (attribs p).chunk previous (suc p) in
    if attribs_memory_overlap (attribs new) (attribs p) then inside else rest

-- Its end: the new attribute stands behind the place, or first where there is none before it.
abbrev pub insert_after : AttribList → ℕ → (ℕ → Attrib) → ℕ → AttribList
insert_after l new attribs zero = record l {
  enabled_attribs = suc new;
  attribs = set_next attribs new 0;
}
insert_after l new attribs (suc p) = record l {
  attribs = set_next (set_next attribs new (attribs p).next_enabled) p (suc new);
}

abbrev pub placed : AttribList → ℕ → Option Place → Option AttribList
placed l new none = none
placed l new (some place) = some (
    insert_after l new (put place.attribs new (record (place.attribs new) { chunk = place.chunk }))
      place.previous)

abbrev pub add_to : ℕ → AttribList → ℕ → ℕ → Option AttribList
add_to fuel l new zero = some (record l {
  enabled_attribs = suc new;
  attribs = put l.attribs new (record (l.attribs new) { chunk = 1; next_enabled = 0 });
})
add_to fuel l new (suc p) = placed l new (find_place fuel l.attribs new 0 0 (suc p))

-- `_add_to_enabled_attrib_list`; `none` where the fuel runs out.
unfoldable pub add_to_enabled : ℕ → AttribList → ℕ → Option AttribList
add_to_enabled fuel l new =
    add_to fuel (record l { enabled_count = one_more l.enabled_count }) new l.enabled_attribs
