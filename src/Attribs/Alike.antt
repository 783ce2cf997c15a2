-- ===== src/Attribs/Alike.antt =====
-- What the edits of the list of enabled attributes leave as it is.
use gpu_proxy.Base.{
  ℕ, zero, suc, ◌≡◌, refl, ◌∙◌, Option, none, some, Bool, true, ◌==◌, ◌&&◌, ltb, if◌then◌else◌,
  arith, inl, inr, Bool-cases, Option-cases,
}
use mathlib.Core.Path.{subst}
use mathlib.Core.Option.{some-injective}
use gpu_proxy.Attribs.{
  Attrib, AttribList, put, set_next, one_more, one_less, attribs_memory_overlap, remove_after,
  remove_from, remove_from_enabled, through_chunk, find_place, insert_after, add_to, placed,
  add_to_enabled, Place,
}

-- The same indices at the same places.
abbrev pub Same : (ℕ → Attrib) → (ℕ → Attrib) → Type 0
Same f g = (i : ℕ) → (g i).index ≡ (f i).index

pub put-Same : (f : ℕ → Attrib) (p : ℕ) (v : Attrib) → v.index ≡ (f p).index → Same f (put f p v)
put-Same f p v e i = ground arith

Same-trans : (f g h : ℕ → Attrib) → Same f g → Same g h → Same f h
Same-trans f g h p q i = q i ∙ p i

remove_after-Same :
    (fuel : ℕ) (f g : ℕ → Attrib) (new previous at : ℕ)
    → remove_after fuel f new previous at ≡ some g
    → Same f g
unfolding remove_after
remove_after-Same zero f g new previous at e = absurd (ground arith)
remove_after-Same (suc fuel) f g new previous zero e =
    subst (Same f) (some-injective _ _ e) (λ i. refl)
remove_after-Same (suc fuel) f g new previous (suc p) e = elim (Bool-cases (p == new)) [
  | inl same ↦
      subst (Same f)
        (some-injective _ _
          (let q : some (set_next f previous (f p).next_enabled) ≡ some g = ground arith in q))
        (put-Same f previous _ refl)
  | inr other ↦ remove_after-Same fuel f g new p (f p).next_enabled (ground arith)
]

through_chunk-Same :
    (fuel : ℕ) (f : ℕ → Attrib) (place : Place) (new chunk previous at : ℕ)
    → through_chunk fuel f new chunk previous at ≡ some place
    → Same f place.attribs
unfolding through_chunk
through_chunk-Same zero f place new chunk previous at e = absurd (ground arith)
through_chunk-Same (suc fuel) f place new chunk previous zero e =
    subst (λ (q : Place). Same f q.attribs) (some-injective _ _ e) (λ i. refl)
through_chunk-Same (suc fuel) f place new chunk previous (suc p) e =
    elim (Bool-cases ((f p).chunk == chunk && ltb (f p).pointer (f new).pointer)) [
      | inl on ↦ through_chunk-Same fuel f place new chunk (suc p) (f p).next_enabled (ground arith)
      | inr stop ↦
          subst (λ (q : Place). Same f q.attribs)
            (some-injective _ _ (
              let q : some (record { attribs = f; previous = previous; chunk = chunk })
                  ≡ some place =
                ground arith in
              q))
            (λ i. refl)
    ]

find_place-Same :
    (fuel : ℕ) (f : ℕ → Attrib) (place : Place) (new chunk previous at : ℕ)
    → find_place fuel f new chunk previous at ≡ some place
    → Same f place.attribs
unfolding find_place
find_place-Same zero f place new chunk previous at e = absurd (ground arith)
find_place-Same (suc fuel) f place new chunk previous zero e =
    subst (λ (q : Place). Same f q.attribs) (some-injective _ _ e) (λ i. refl)
find_place-Same (suc fuel) f place new chunk previous (suc p) e =
    elim (Bool-cases (attribs_memory_overlap (f new) (f p))) [
      | inl inside ↦ through_chunk-Same fuel f place new (f p).chunk previous (suc p) (ground arith)
      | inr apart ↦
          let raised = put f p (record (f p) { chunk = one_more (f p).chunk }) in
          Same-trans f raised place.attribs (put-Same f p _ refl) (
            find_place-Same fuel raised place new (f p).chunk (suc p) (f p).next_enabled
              (ground arith))
    ]

-- The same count, and the same indices.
pub record SameList (l m : AttribList) : Type 0 where
  pub count_lem : m.count ≡ l.count
  pub indices : Same l.attribs m.attribs

pub SameList-trans : (l m n : AttribList) → SameList l m → SameList m n → SameList l n
SameList-trans l m n p q = record {
  count_lem = q.count_lem ∙ p.count_lem;
  indices = Same-trans l.attribs m.attribs n.attribs p.indices q.indices;
}

found_first :
    (o : Option AttribList) (l m : AttribList) (b : Bool)
    → b ≡ true
    → (if b then some l else o) ≡ some m
    → l ≡ m
found_first o l m b h e = ground arith

remove_from-SameList :
    (fuel : ℕ) (l m : AttribList) (new at : ℕ) → remove_from fuel l new at ≡ some m → SameList l m
remove_from-SameList fuel l m new zero e =
    subst (SameList l) (some-injective _ _ e) (record { count_lem = refl; indices = λ i. refl })
remove_from-SameList fuel l m new (suc p) e = elim (Bool-cases (p == new)) [
  | inl same ↦
      subst (SameList l) (found_first _ first m (p == new) same e)
        (record { count_lem = refl; indices = put-Same l.attribs p _ refl })
  | inr other ↦ elim (Option-cases (remove_after fuel l.attribs new p (l.attribs p).next_enabled)) [
    | inl n ↦ absurd (ground arith)
    | inr (f, r) ↦
        subst (SameList l) (some-injective (record counted { attribs = f }) m (ground arith))
          (record {
            count_lem = refl;
            indices = remove_after-Same fuel l.attribs f new p (l.attribs p).next_enabled r;
          })
  ]
]
  where
    counted : AttribList
    counted = record l { enabled_count = one_less l.enabled_count }

    first : AttribList
    first = record counted {
      enabled_attribs = (l.attribs p).next_enabled;
      attribs = set_next l.attribs p 0;
    }

insert_after-SameList :
    (l : AttribList) (new : ℕ) (f : ℕ → Attrib) (previous : ℕ)
    → Same l.attribs f
    → SameList l (insert_after l new f previous)
insert_after-SameList l new f zero h = record {
  count_lem = refl;
  indices = λ i. ground (arith, h i);
}
insert_after-SameList l new f (suc p) h = record {
  count_lem = refl;
  indices = λ i. ground (arith, h i, h p, h new);
}

placed-SameList :
    (l m : AttribList) (new : ℕ) (o : Option Place)
    → ((place : Place) → o ≡ some place → Same l.attribs place.attribs)
    → placed l new o ≡ some m
    → SameList l m
placed-SameList l m new none h e = absurd (ground arith)
placed-SameList l m new (some place) h e = subst (SameList l) (some-injective _ _ e) (
    insert_after-SameList l new marked place.previous (
      Same-trans l.attribs place.attribs marked (h place refl)
        (put-Same place.attribs new (record (place.attribs new) { chunk = place.chunk }) refl)))
  where
    marked : ℕ → Attrib
    marked = put place.attribs new (record (place.attribs new) { chunk = place.chunk })

add_to-SameList :
    (fuel : ℕ) (l m : AttribList) (new at : ℕ) → add_to fuel l new at ≡ some m → SameList l m
add_to-SameList fuel l m new zero e =
    subst (SameList l) (some-injective _ _ e)
      (record { count_lem = refl; indices = put-Same l.attribs new _ refl })
add_to-SameList fuel l m new (suc p) e =
    placed-SameList l m new (find_place fuel l.attribs new 0 0 (suc p))
      (λ place. find_place-Same fuel l.attribs place new 0 0 (suc p)) e

pub remove_from_enabled-SameList :
    (fuel : ℕ) (l m : AttribList) (new : ℕ) → remove_from_enabled fuel l new ≡ some m → SameList l m
unfolding remove_from_enabled
remove_from_enabled-SameList fuel l m new e = remove_from-SameList fuel l m new l.enabled_attribs e

pub add_to_enabled-SameList :
    (fuel : ℕ) (l m : AttribList) (new : ℕ) → add_to_enabled fuel l new ≡ some m → SameList l m
unfolding add_to_enabled
add_to_enabled-SameList fuel l m new e =
    SameList-trans l counted m (record { count_lem = refl; indices = λ i. refl })
      (add_to-SameList fuel counted m new l.enabled_attribs e)
  where
    counted : AttribList
    counted = record l { enabled_count = one_more l.enabled_count }
