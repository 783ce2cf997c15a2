-- ===== src/Attribs/Enabled.antt =====
-- The list of enabled attributes.
use gpu_proxy.Base.{
  ℕ, zero, suc, ◌≤◌, ◌≡◌, ◌≢◌, refl, ap, ◌∙◌, Option, none, some, true, false, List, [], ◌∷◌, arith,
  inl, inr, Option-cases,
}
use mathlib.Core.Path.{subst}
use gpu_proxy.Attribs.{
  Attrib, AttribList, put, one_more, attribs_memory_overlap, remove_after, remove_from_enabled,
  through_chunk, find_place, insert_after, add_to, placed, remove_from, add_to_enabled, Place,
}

-- The elements of the list from a pointer on; `none` if there are more than the fuel allows.
abbrev pub walk : ℕ → (ℕ → Attrib) → ℕ → Option (List ℕ)
walk zero attribs at = none
walk (suc fuel) attribs zero = some []
walk (suc fuel) attribs (suc p) = elim (walk fuel attribs (attribs p).next_enabled) [
  | none ↦ none
  | some r ↦ some (p ∷ r)
]

abbrev pub enabled : ℕ → AttribList → Option (List ℕ)
enabled fuel l = walk fuel l.attribs l.enabled_attribs

find_place-front :
    (fuel : ℕ) (attribs : ℕ → Attrib) (new p : ℕ)
    → attribs_memory_overlap (attribs new) (attribs p) ≡ true
    → (attribs new).pointer ≤ (attribs p).pointer
    → find_place (suc (suc fuel)) attribs new 0 0 (suc p)
      ≡ some (record { attribs = attribs; previous = 0; chunk = (attribs p).chunk })
unfolding find_place through_chunk
find_place-front fuel attribs new p overlap below = ground arith

-- An attribute that overlaps the first of the list, and whose memory does not start after it, is put
-- first, and the rest of the list is lost: only the new attribute is enabled, whatever the list was,
-- and the count goes up by one.
pub front_drops_list :
    (fuel : ℕ) (l : AttribList) (new p : ℕ)
    → l.enabled_attribs ≡ suc p
    → attribs_memory_overlap (l.attribs new) (l.attribs p) ≡ true
    → (l.attribs new).pointer ≤ (l.attribs p).pointer
    → (l' : AttribList) × (add_to_enabled (suc (suc fuel)) l new ≡ some l')
      × (enabled 2 l' ≡ some (new ∷ []))
      × (l'.enabled_count ≡ one_more l.enabled_count)
unfolding add_to_enabled
front_drops_list fuel l new p first overlap below = (
  insert_after counted new
      (put l.attribs new (record (l.attribs new) { chunk = (l.attribs p).chunk })) 0,
  ap (add_to (suc (suc fuel)) counted new) first ∙ ap (placed counted new) place,
  ground arith,
  refl,
)
  where
    counted : AttribList
    counted = record l { enabled_count = one_more l.enabled_count }

    place :
        find_place (suc (suc fuel)) l.attribs new 0 0 (suc p)
        ≡ some (record { attribs = l.attribs; previous = 0; chunk = (l.attribs p).chunk })
    place = find_place-front fuel l.attribs new p overlap below

-- Two arrays link their elements alike.
abbrev SameLinks : (ℕ → Attrib) → (ℕ → Attrib) → Type 0
SameLinks f g = (q : ℕ) → (f q).next_enabled ≡ (g q).next_enabled

-- A list that ends, in a number of steps.
EndsIn : ℕ → (ℕ → Attrib) → ℕ → Type 0
EndsIn zero f at = ⊥
EndsIn (suc fuel) f zero = Unit
EndsIn (suc fuel) f (suc p) = EndsIn fuel f (f p).next_enabled

walk-EndsIn :
    (fuel : ℕ) (f : ℕ → Attrib) (at : ℕ) (ps : List ℕ) → walk fuel f at ≡ some ps → EndsIn fuel f at
unfolding EndsIn
walk-EndsIn zero f at ps e = ground arith
walk-EndsIn (suc fuel) f zero ps e = tt
walk-EndsIn (suc fuel) f (suc p) ps e = elim (Option-cases (walk fuel f (f p).next_enabled)) [
  | inl n ↦ ground arith
  | inr (r, s) ↦ walk-EndsIn fuel f (f p).next_enabled r s
]

EndsIn-SameLinks :
    (fuel : ℕ) (f g : ℕ → Attrib) (at : ℕ) → SameLinks f g → EndsIn fuel f at → EndsIn fuel g at
unfolding EndsIn
EndsIn-SameLinks zero f g at k h = h
EndsIn-SameLinks (suc fuel) f g zero k h = tt
EndsIn-SameLinks (suc fuel) f g (suc p) k h =
    subst (EndsIn fuel g) (k p) (EndsIn-SameLinks fuel f g (f p).next_enabled k h)

through_chunk-ends :
    (fuel : ℕ) (f : ℕ → Attrib) (new chunk previous at : ℕ)
    → EndsIn fuel f at
    → through_chunk fuel f new chunk previous at ≢ none
unfolding EndsIn through_chunk
through_chunk-ends zero f new chunk previous at h = absurd h
through_chunk-ends (suc fuel) f new chunk previous zero h = λ e. ground arith
through_chunk-ends (suc fuel) f new chunk previous (suc p) h =
    λ e. ground (arith, through_chunk-ends fuel f new chunk (suc p) (f p).next_enabled h)

abbrev raise : (ℕ → Attrib) → ℕ → ℕ → Attrib
raise f p = put f p (record (f p) { chunk = one_more (f p).chunk })

raise-SameLinks : (f : ℕ → Attrib) (p : ℕ) → SameLinks f (raise f p)
raise-SameLinks f p q = ground arith

find_place-ends :
    (fuel : ℕ) (f : ℕ → Attrib) (new chunk previous at : ℕ)
    → EndsIn fuel f at
    → find_place (suc fuel) f new chunk previous at ≢ none
unfolding EndsIn find_place
find_place-ends zero f new chunk previous at h = absurd h
find_place-ends (suc fuel) f new chunk previous zero h = λ e. ground arith
find_place-ends (suc fuel) f new chunk previous (suc p) h = λ e.
    let inside = through_chunk-ends (suc fuel) f new (f p).chunk previous (suc p) h in
    let rest =
      find_place-ends fuel (raise f p) new (f p).chunk (suc p) (f p).next_enabled
        (EndsIn-SameLinks fuel f (raise f p) (f p).next_enabled (raise-SameLinks f p) h) in
    ground (arith, inside, rest)

remove_after-ends :
    (fuel : ℕ) (f : ℕ → Attrib) (new previous at : ℕ)
    → EndsIn fuel f at
    → remove_after fuel f new previous at ≢ none
unfolding EndsIn remove_after
remove_after-ends zero f new previous at h = absurd h
remove_after-ends (suc fuel) f new previous zero h = λ e. ground arith
remove_after-ends (suc fuel) f new previous (suc p) h =
    λ e. ground (arith, remove_after-ends fuel f new p (f p).next_enabled h)

EndsIn-more : (fuel : ℕ) (f : ℕ → Attrib) (at : ℕ) → EndsIn fuel f at → EndsIn (suc fuel) f at
unfolding EndsIn
EndsIn-more zero f at h = absurd h
EndsIn-more (suc fuel) f zero h = tt
EndsIn-more (suc fuel) f (suc p) h = EndsIn-more fuel f (f p).next_enabled h

EndsIn-behind :
    (fuel : ℕ) (f : ℕ → Attrib) (p : ℕ) → EndsIn fuel f (suc p) → EndsIn fuel f (f p).next_enabled
unfolding EndsIn
EndsIn-behind zero f p h = absurd h
EndsIn-behind (suc fuel) f p h = EndsIn-more fuel f (f p).next_enabled h

placed-ends : (l : AttribList) (new : ℕ) (o : Option Place) → o ≢ none → placed l new o ≢ none
placed-ends l new none n = λ e. n refl
placed-ends l new (some place) n = λ e. ground arith

-- Where the list of enabled attributes ends within some number of steps, both the addition of an
-- attribute and the removal of one come to an end, with one step more than these.
pub edits_end :
    (fuel : ℕ) (l : AttribList) (new : ℕ) (ps : List ℕ)
    → enabled fuel l ≡ some ps
    → (add_to_enabled (suc fuel) l new ≢ none) × (remove_from_enabled (suc fuel) l new ≢ none)
unfolding add_to_enabled remove_from_enabled
edits_end fuel l new ps e = (added l.enabled_attribs ends, removed l.enabled_attribs ends)
  where
    ends : EndsIn fuel l.attribs l.enabled_attribs
    ends = walk-EndsIn fuel l.attribs l.enabled_attribs ps e

    counted : AttribList
    counted = record l { enabled_count = one_more l.enabled_count }

    added : (at : ℕ) → EndsIn fuel l.attribs at → add_to (suc fuel) counted new at ≢ none
    added zero h = λ q. ground arith
    added (suc p) h = placed-ends counted new _ (find_place-ends fuel l.attribs new 0 0 (suc p) h)

    removed : (at : ℕ) → EndsIn fuel l.attribs at → remove_from (suc fuel) l new at ≢ none
    removed zero h = λ q. ground arith
    removed (suc p) h = λ q. ground (
      arith,
      remove_after-ends (suc fuel) l.attribs new p (l.attribs p).next_enabled (
          EndsIn-more fuel l.attribs (l.attribs p).next_enabled (EndsIn-behind fuel l.attribs p h)),
    )

-- An element that links to itself.
self_link-endless :
    (n : ℕ) (f : ℕ → Attrib) (p : ℕ) → (f p).next_enabled ≡ suc p → walk n f (suc p) ≡ none
self_link-endless zero f p e = refl
self_link-endless (suc n) f p e = ground (arith, ap (walk n f) e, self_link-endless n f p e)

two-endless :
    (n : ℕ) (f : ℕ → Attrib) (q p : ℕ)
    → (f q).next_enabled ≡ suc p
    → (f p).next_enabled ≡ suc p
    → walk n f (suc q) ≡ none
two-endless zero f q p d e = refl
two-endless (suc n) f q p d e = ground (arith, ap (walk n f) d, self_link-endless n f p e)

find_place-twice :
    (fuel : ℕ) (f : ℕ → Attrib) (q p : ℕ)
    → (f q).next_enabled ≡ suc p
    → q ≢ p
    → attribs_memory_overlap (f p) (f q) ≡ false
    → find_place (suc (suc (suc fuel))) f p 0 0 (suc q)
      ≡ some (record { attribs = raise f q; previous = suc q; chunk = (f p).chunk })
unfolding find_place through_chunk attribs_memory_overlap
find_place-twice fuel f q p d n apart = ground arith

-- A list whose last element is added once more: two attributes `q` and `p`, in this order, that do
-- not overlap. After the addition of `p`, which succeeds, `p` links to itself, and the list has no end.
pub added_twice_never_ends :
    (fuel : ℕ) (l : AttribList) (q p : ℕ)
    → l.enabled_attribs ≡ suc q
    → (l.attribs q).next_enabled ≡ suc p
    → (l.attribs p).next_enabled ≡ 0
    → q ≢ p
    → attribs_memory_overlap (l.attribs p) (l.attribs q) ≡ false
    → (l' : AttribList) × (add_to_enabled (suc (suc (suc fuel))) l p ≡ some l')
      × ((n : ℕ) → enabled n l' ≡ none)
unfolding add_to_enabled
added_twice_never_ends fuel l q p first second last n apart = (
  insert_after counted p
      (put (raise l.attribs q) p (record (raise l.attribs q p) { chunk = (l.attribs p).chunk }))
      (suc q),
  ap (add_to (suc (suc (suc fuel))) counted p) first
      ∙ ap (placed counted p) (find_place-twice fuel l.attribs q p second n apart),
  λ m. ap (walk m _) first ∙ two-endless m _ q p (ground arith) (ground arith),
)
  where
    counted : AttribList
    counted = record l { enabled_count = one_more l.enabled_count }
