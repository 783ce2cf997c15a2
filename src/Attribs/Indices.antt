-- ===== src/Attribs/Indices.antt =====
-- The attributes that src/client/caching_client.c holds: no index is held twice, and there are at most
-- 32 of them.
use gpu_proxy.Base.{
  ℕ, zero, suc, ◌+◌, ◌≤◌, ◌<◌, ◌≡◌, ◌≢◌, refl, ap, sym, ◌∙◌, Option, none, some, Bool, true, false,
  List, [], ◌∷◌, ◌++◌, ◌==◌, ◌||◌, ltb, if◌then◌else◌, arith, inl, inr, Bool-cases, Option-cases,
}
use mathlib.Core.Path.{subst}
use mathlib.Core.Option.{some-injective}
use gpu_proxy.Attribs.{Attrib, AttribList, num_embedded, put, remove_from_enabled}
use gpu_proxy.Gl.Enums
use gpu_proxy.Gl.State.{set_error, int_negative}
use gpu_proxy.Attribs.Handlers.{
  Arrays, ArrayCall, Reply, does_index_overflow, find_index, find_attrib, append, new_attrib,
  same_flag, is_attrib_type, with_list, set_enabled, relist, set_found, set_new, switch,
  set_vertex_attrib_array, described, unchanged, relist_described, point, gl_vertex_attrib_pointer,
}
use gpu_proxy.Attribs.Alike.{
  put-Same, SameList, SameList-trans, remove_from_enabled-SameList, add_to_enabled-SameList,
}

-- At most 32 elements, and no index at two places among them.
pub record HoldsOnce (l : AttribList) : Type 0 where
  pub room : l.count ≤ num_embedded
  pub once :
      (i j : ℕ) → i < l.count → j < l.count → (l.attribs i).index ≡ (l.attribs j).index → i ≡ j

SameList-HoldsOnce : (l m : AttribList) → SameList l m → HoldsOnce l → HoldsOnce m
SameList-HoldsOnce l m s h = record {
  room = ground (arith, s.count_lem, h.room);
  once = λ i j below above e.
      h.once i j (ground (arith, s.count_lem)) (ground (arith, s.count_lem))
        (sym (s.indices i) ∙ e ∙ s.indices j);
}

find_index-none :
    (n i : ℕ) (f : ℕ → Attrib) (index : ℕ)
    → find_index n i f index ≡ none
    → (j : ℕ) → i ≤ j
    → j < i + n
    → (f j).index ≢ index
find_index-none zero i f index e j low high = absurd (omega arith)
find_index-none (suc n) i f index e j low high = elim (Bool-cases ((f i).index == index)) [
  | inl here ↦ absurd (ground arith)
  | inr other ↦ λ q. elim (Bool-cases (i == j)) [
    | inl same ↦ ground arith
    | inr apart ↦ find_index-none n (suc i) f index (ground arith) j (ground arith) (omega arith) q
  ]
]

append-HoldsOnce :
    (l m : AttribList) (v : Attrib)
    → HoldsOnce l
    → find_attrib l v.index ≡ none
    → append l v ≡ some m
    → HoldsOnce m
append-HoldsOnce l m v h absent e = elim (Bool-cases (ltb l.count num_embedded)) [
  | inr full ↦ absurd (ground arith)
  | inl below ↦
      subst HoldsOnce
        (some-injective (record l { attribs = put l.attribs l.count v; count = l.count + 1 }) m
          (ground arith))
        (record { room = ground arith; once = λ i j low high same. last_cases i j low high same })
]
  where
    absent_at : (j : ℕ) → j < l.count → (l.attribs j).index ≢ v.index
    absent_at j below =
        find_index-none l.count 0 l.attribs v.index absent j (omega arith) (omega arith)

    last_cases :
        (i j : ℕ)
        → i < l.count + 1
        → j < l.count + 1
        → (put l.attribs l.count v i).index ≡ (put l.attribs l.count v j).index
        → i ≡ j
    last_cases i j low high same = elim (Bool-cases (i == l.count)) [
      | inl p ↦ elim (Bool-cases (j == l.count)) [
        | inl q ↦ ground arith
        | inr q ↦ absurd (absent_at j (ground arith) (ground arith))
      ]
      | inr p ↦ elim (Bool-cases (j == l.count)) [
        | inl q ↦ absurd (absent_at i (ground arith) (ground arith))
        | inr q ↦ h.once i j (ground arith) (ground arith) (ground arith)
      ]
    ]

with_list-some :
    (s t : Arrays) (calls sent : List ArrayCall) (o : Option AttribList)
    → with_list s calls o ≡ some (t, sent)
    → (l : AttribList) × (o ≡ some l) × (l ≡ t.vertex_attribs)
with_list-some s t calls sent none e = absurd (ground arith)
with_list-some s t calls sent (some l) e =
    (l, refl, ap (λ (r : Arrays × List ArrayCall). r.0.vertex_attribs) (some-injective _ _ e))

-- The lists of a reply hold every index once.
Kept : Arrays → Arrays → Type 0
Kept s t = HoldsOnce s.vertex_attribs → HoldsOnce t.vertex_attribs

same_lists-Kept :
    (s t : Arrays) (calls sent : List ArrayCall) (r : Reply)
    → r ≡ some (t, sent)
    → r ≡ some (s, calls)
    → Kept s t
unfolding Kept
same_lists-Kept s t calls sent r e d h =
    subst (λ (q : Arrays × List ArrayCall). HoldsOnce q.0.vertex_attribs)
      (some-injective (s, calls) (t, sent) (sym d ∙ e)) h

with_list-Kept :
    (s t : Arrays) (calls sent : List ArrayCall) (o : Option AttribList)
    → ((l : AttribList) → HoldsOnce s.vertex_attribs → o ≡ some l → HoldsOnce l)
    → with_list s calls o ≡ some (t, sent)
    → Kept s t
unfolding Kept
with_list-Kept s t calls sent o k e h =
    let (l, found, is) = with_list-some s t calls sent o e in subst HoldsOnce is (k l h found)

relist-SameList :
    (fuel dm : ℕ) (enable : Bool) (l m : AttribList) (p : ℕ)
    → relist fuel dm enable l p ≡ some m
    → SameList l m
relist-SameList fuel dm true l m p e = add_to_enabled-SameList fuel l m p e
relist-SameList fuel dm false l m p e = remove_from_enabled-SameList fuel l m p e

set_found-Kept :
    (fuel dm : ℕ) (b : Bool) (s t : Arrays) (calls sent : List ArrayCall) (p index : ℕ)
    (enable : Bool)
    → set_found fuel dm (b, s, calls) p index enable ≡ some (t, sent)
    → Kept s t
set_found-Kept fuel dm true s t calls sent p index enable e =
    same_lists-Kept s t calls sent _ e refl
set_found-Kept fuel dm false s t calls sent p index enable e =
    elim (Bool-cases (s.gl.bindings.array_buffer == 0)) [
      | inl unbound ↦
          with_list-Kept s t (calls ++ (switch enable index ∷ [])) sent
            (relist fuel dm enable s.vertex_attribs p)
            (λ l h q.
              SameList-HoldsOnce s.vertex_attribs l
                (relist-SameList fuel dm enable s.vertex_attribs l p q) h)
            (ground arith)
      | inr bound ↦
          same_lists-Kept s t (calls ++ (switch enable index ∷ [])) sent _ e (ground arith)
    ]

set_new-Kept :
    (fuel dm : ℕ) (b : Bool) (s t : Arrays) (calls sent : List ArrayCall) (index : ℕ)
    (enable : Bool)
    → find_attrib s.vertex_attribs index ≡ none
    → set_new fuel dm (b, s, calls) index enable ≡ some (t, sent)
    → Kept s t
set_new-Kept fuel dm true s t calls sent index enable absent e =
    same_lists-Kept s t calls sent _ e refl
set_new-Kept fuel dm false s t calls sent index enable absent e =
    let v = new_attrib index s.gl.bindings.array_buffer enable in
    with_list-Kept s t (calls ++ (switch enable index ∷ [])) sent (append s.vertex_attribs v)
      (λ l h q. append-HoldsOnce s.vertex_attribs l v h absent q) e

overflow-lists :
    (s : Arrays) (index dm : ℕ)
    → (does_index_overflow s index dm).1.vertex_attribs ≡ s.vertex_attribs
unfolding does_index_overflow
overflow-lists s index dm = ground arith

set_new-HoldsOnce :
    (fuel dm : ℕ) (b : Bool) (s t : Arrays) (calls sent : List ArrayCall) (index : ℕ)
    (enable : Bool) (l : AttribList)
    → s.vertex_attribs ≡ l
    → find_attrib l index ≡ none
    → HoldsOnce l
    → set_new fuel dm (b, s, calls) index enable ≡ some (t, sent)
    → HoldsOnce t.vertex_attribs
unfolding Kept
set_new-HoldsOnce fuel dm b s t calls sent index enable l is absent h e =
    set_new-Kept fuel dm b s t calls sent index enable (ap (λ m. find_attrib m index) is ∙ absent) e
      (subst HoldsOnce (sym is) h)

set_found-HoldsOnce :
    (fuel dm : ℕ) (b : Bool) (s t : Arrays) (calls sent : List ArrayCall) (p index : ℕ)
    (enable : Bool) (l : AttribList)
    → s.vertex_attribs ≡ l
    → HoldsOnce l
    → set_found fuel dm (b, s, calls) p index enable ≡ some (t, sent)
    → HoldsOnce t.vertex_attribs
unfolding Kept
set_found-HoldsOnce fuel dm b s t calls sent p index enable l is h e =
    set_found-Kept fuel dm b s t calls sent p index enable e (subst HoldsOnce (sym is) h)

set_enabled-HoldsOnce :
    (l : AttribList) (p : ℕ) (enable : Bool) → HoldsOnce l → HoldsOnce (set_enabled l p enable)
set_enabled-HoldsOnce l p enable =
    SameList-HoldsOnce l (set_enabled l p enable)
      (record { count_lem = refl; indices = put-Same l.attribs p _ refl })

-- glEnableVertexAttribArray and glDisableVertexAttribArray keep the attributes well-formed: at most
-- 32 of them, no index twice. This is for every fuel and state, when they do not fail.
pub set_vertex_attrib_array-HoldsOnce :
    (fuel dm : ℕ) (s t : Arrays) (sent : List ArrayCall) (index : ℕ) (enable : Bool)
    → HoldsOnce s.vertex_attribs
    → set_vertex_attrib_array fuel dm s index enable ≡ some (t, sent)
    → HoldsOnce t.vertex_attribs
unfolding set_vertex_attrib_array
set_vertex_attrib_array-HoldsOnce fuel dm s t sent index enable h e =
    elim (Bool-cases (s.vertex_array_binding == 0)) [
      | inr user ↦
          subst HoldsOnce
            (ap (λ (r : Arrays × List ArrayCall). r.0.vertex_attribs)
              (some-injective (s, switch enable index ∷ []) (t, sent) (ground arith)))
            h
      | inl own ↦ elim (Option-cases (find_attrib s.vertex_attribs index)) [
        | inl absent ↦
            let r = does_index_overflow s index dm in
            set_new-HoldsOnce fuel dm r.0 r.1 t r.2 sent index enable s.vertex_attribs
              (overflow-lists s index dm) absent h (ground arith)
        | inr (p, found) ↦
            elim (Bool-cases (same_flag (s.vertex_attribs.attribs p).array_enabled enable)) [
              | inl same ↦
                  subst HoldsOnce
                    (ap (λ (r : Arrays × List ArrayCall). r.0.vertex_attribs)
                      (some-injective (s, []) (t, sent) (ground arith)))
                    h
              | inr other ↦
                  let l = set_enabled s.vertex_attribs p enable in
                  let r = does_index_overflow (record s { vertex_attribs = l }) index dm in
                  set_found-HoldsOnce fuel dm r.0 r.1 t r.2 sent p index enable l
                    (overflow-lists (record s { vertex_attribs = l }) index dm)
                    (set_enabled-HoldsOnce s.vertex_attribs p enable h) (ground arith)
            ]
      ]
    ]

with_list-HoldsOnce :
    (s t : Arrays) (calls sent : List ArrayCall) (o : Option AttribList)
    → ((l : AttribList) → o ≡ some l → HoldsOnce l)
    → with_list s calls o ≡ some (t, sent)
    → HoldsOnce t.vertex_attribs
with_list-HoldsOnce s t calls sent o k e =
    let (l, found, is) = with_list-some s t calls sent o e in subst HoldsOnce is (k l found)

abbrev replied : Arrays → List ArrayCall → Reply
replied s calls = some (s, calls)

-- A reply that changes no attribute.
same_lists-HoldsOnce :
    (s t : Arrays) (calls sent : List ArrayCall) (l : AttribList)
    → s.vertex_attribs ≡ l
    → HoldsOnce l
    → replied s calls ≡ some (t, sent)
    → HoldsOnce t.vertex_attribs
same_lists-HoldsOnce s t calls sent l is h e =
    subst (λ (r : Arrays × List ArrayCall). HoldsOnce r.0.vertex_attribs)
      (some-injective (s, calls) (t, sent) e) (subst HoldsOnce (sym is) h)

relist_described-SameList :
    (fuel dm : ℕ) (l m : AttribList) (p : ℕ) → relist_described fuel dm l p ≡ some m → SameList l m
relist_described-SameList fuel dm l m p e = elim (Bool-cases (l.attribs p).array_enabled) [
  | inr off ↦
      subst (SameList l) (some-injective l m (ground arith))
        (record { count_lem = refl; indices = λ i. refl })
  | inl on ↦ elim (Option-cases (remove_from_enabled fuel l p)) [
    | inl n ↦ absurd (ground arith)
    | inr (k, r) ↦
        SameList-trans l k m (remove_from_enabled-SameList fuel l k p r)
          (add_to_enabled-SameList fuel k m p (ground arith))
  ]
]

described_list-SameList :
    (fuel dm : ℕ) (l : AttribList) (p size type : ℕ) (normalized : Bool)
    (stride at bound_buffer : ℕ)
    → SameList l (record l {
      attribs =
          put l.attribs p
            (described fuel dm (l.attribs p) size type normalized stride at bound_buffer);
    })
described_list-SameList fuel dm l p size type normalized stride at bound_buffer = record {
  count_lem = refl;
  indices = put-Same l.attribs p _ refl;
}

-- What is left of glVertexAttribPointer after the check of the index.
point-HoldsOnce :
    (fuel dm : ℕ) (b : Bool) (s t : Arrays) (calls sent : List ArrayCall) (index size type : ℕ)
    (normalized : Bool) (stride at : ℕ) (l : AttribList)
    → s.vertex_attribs ≡ l
    → HoldsOnce l
    → point fuel dm (b, s, calls) index size type normalized stride at ≡ some (t, sent)
    → HoldsOnce t.vertex_attribs
point-HoldsOnce fuel dm true s t calls sent index size type normalized stride at l is h e =
    same_lists-HoldsOnce s t calls sent l is h e
point-HoldsOnce fuel dm false s t calls sent index size type normalized stride at l is h e =
    let call = ArrayCall.pointer index size type normalized stride at in
    elim (Bool-cases (s.vertex_array_binding == 0)) [
      | inr user ↦ same_lists-HoldsOnce s t (calls ++ (call ∷ [])) sent l is h (ground arith)
      | inl own ↦ elim (Option-cases (find_attrib s.vertex_attribs index)) [
        | inl absent ↦
            let v =
              described fuel dm (new_attrib index s.gl.bindings.array_buffer false) size type
                normalized stride at s.gl.bindings.array_buffer in
            with_list-HoldsOnce s t
              (if s.gl.bindings.array_buffer == 0 then calls else calls ++ (call ∷ [])) sent
              (append s.vertex_attribs v)
              (λ m q. append-HoldsOnce s.vertex_attribs m v (subst HoldsOnce (sym is) h) absent q)
              (ground arith)
        | inr (p, found) ↦
            elim (Bool-cases (
              unchanged fuel dm (s.vertex_attribs.attribs p) size type normalized stride at
                s.gl.bindings.array_buffer)) [
                  | inl same ↦ same_lists-HoldsOnce s t calls sent l is h (ground arith)
                  | inr other ↦
                      let l2 = record s.vertex_attribs {
                        attribs = put s.vertex_attribs.attribs p (
                            described fuel dm (s.vertex_attribs.attribs p) size type normalized
                              stride at s.gl.bindings.array_buffer);
                      } in
                      with_list-HoldsOnce s t
                        (if s.gl.bindings.array_buffer == 0 then calls else calls ++ (call ∷ []))
                        sent (relist_described fuel dm l2 p)
                        (λ m q.
                          SameList-HoldsOnce s.vertex_attribs m
                            (SameList-trans s.vertex_attribs l2 m
                              (described_list-SameList fuel dm s.vertex_attribs p size type
                                normalized stride at s.gl.bindings.array_buffer)
                              (relist_described-SameList fuel dm l2 m p q))
                            (subst HoldsOnce (sym is) h))
                        (ground arith)
                ]
      ]
    ]

-- glVertexAttribPointer keeps the attributes well-formed likewise, whatever its arguments are.
pub gl_vertex_attrib_pointer-HoldsOnce :
    (fuel dm : ℕ) (s t : Arrays) (sent : List ArrayCall) (index size type : ℕ) (normalized : Bool)
    (stride at : ℕ)
    → HoldsOnce s.vertex_attribs
    → gl_vertex_attrib_pointer fuel dm s index size type normalized stride at ≡ some (t, sent)
    → HoldsOnce t.vertex_attribs
unfolding gl_vertex_attrib_pointer
gl_vertex_attrib_pointer-HoldsOnce fuel dm s t sent index size type normalized stride at h e =
    elim (Bool-cases (is_attrib_type fuel dm type)) [
      | inr bad ↦
          same_lists-HoldsOnce (record s { gl = set_error s.gl Enums.invalid_enum }) t [] sent
            s.vertex_attribs refl h (ground arith)
      | inl fine ↦ elim (Bool-cases (ltb 4 size || size == 0 || int_negative stride)) [
        | inl wrong ↦
            same_lists-HoldsOnce (record s { gl = set_error s.gl Enums.invalid_value }) t [] sent
              s.vertex_attribs refl h (ground arith)
        | inr right ↦
            let r = does_index_overflow s index dm in
            point-HoldsOnce fuel dm r.0 r.1 t r.2 sent index size type normalized stride at
              s.vertex_attribs (overflow-lists s index dm) h (ground arith)
      ]
    ]
