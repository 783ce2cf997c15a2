-- ===== src/Names/Owned.antt =====
-- No name is handed out twice: the handler and its client share the names out between them.
use gpu_proxy.Base.{
  ℕ, zero, suc, ◌+◌, ◌≤◌, ◌<◌, ◌≡◌, refl, ◌==◌, if◌then◌else◌, some, List, [], ◌∷◌, ◌++◌, arith,
  length, inl, inr, Option-cases, ap, Bool-cases,
}
use mathlib.Core.Path.{subst}
use mathlib.Core.Option.{some-injective}
use gpu_proxy.Names.{
  NameHandler, create, uint_max, alloc_from, alloc_one, alloc_names, delete_names,
}

-- How often a name stands in a list.
abbrev pub count : ℕ → List ℕ → ℕ
count x [] = 0
count x (y ∷ r) = (if y == x then 1 else 0) + count x r

pub count-append : (x : ℕ) (xs ys : List ℕ) → count x (xs ++ ys) ≡ count x xs + count x ys
count-append x [] ys = omega arith
count-append x (y ∷ xs) ys = ground (arith, count-append x xs ys)

-- The names that `name_handler_delete_names` does not skip.
abbrev pub nonzero : List ℕ → List ℕ
nonzero [] = []
nonzero (x ∷ xs) = if x == 0 then nonzero xs else x ∷ nonzero xs

-- The client holds the names `live`: each name is held once, by the client or by the handler, and
-- is positive and no later than the handler's last.
pub record Owns (h : NameHandler) (live : List ℕ) : Type 0 where
  pub once : (x : ℕ) → count x h.reusable_names + count x live ≤ 1
  pub counted : (x : ℕ) → 0 < count x h.reusable_names + count x live → (0 < x) × (x ≤ h.last_name)
  pub small : h.last_name < uint_max

pub create-Owns : Owns create []
create-Owns = record {
  once = λ x. omega arith;
  counted = λ x h. absurd (omega arith);
  small = omega arith;
}

alloc_from-Owns :
    (r : List ℕ) {h h' : NameHandler} {live : List ℕ} {x : ℕ}
    → h.reusable_names ≡ r
    → Owns h live
    → alloc_from r h ≡ some (x, h')
    → Owns h' (x ∷ live)
alloc_from-Owns [] {h} {h'} {live} {x} e o eq = record {
  once = λ y. ground (arith, o.once y, o.counted y, o.small);
  counted = λ y p. ground (arith, o.once y, o.counted y, o.small);
  small = ground (arith, o.small);
}
alloc_from-Owns (z ∷ r) {h} {h'} {live} {x} e o eq = record {
  once = λ y. ground (arith, o.once y, o.counted y, o.small);
  counted = λ y p. ground (arith, o.once y, o.counted y, o.small);
  small = ground (arith, o.small);
}

Owns-count :
    {h : NameHandler} {l m : List ℕ} → Owns h l → ((x : ℕ) → count x m ≡ count x l) → Owns h m
Owns-count o e = record {
  once = λ x. omega (arith, o.once x, e x);
  counted = λ x p. o.counted x (omega (arith, e x));
  small = o.small;
}

alloc_one-Owns :
    {h h' : NameHandler} {live : List ℕ} {x : ℕ}
    → Owns h live
    → alloc_one h ≡ some (x, h')
    → Owns h' (x ∷ live)
unfolding alloc_one
alloc_one-Owns {h} o e = alloc_from-Owns h.reusable_names refl o e

alloc_one-total :
    (h : NameHandler)
    → h.last_name + 1 < uint_max
    → (x : ℕ) × (h' : NameHandler) × (alloc_one h ≡ some (x, h')) × (h'.last_name ≤ h.last_name + 1)
unfolding alloc_one
alloc_one-total h room = go h.reusable_names
  where
    go :
        (r : List ℕ)
        → (x : ℕ) × (h' : NameHandler) × (alloc_from r h ≡ some (x, h'))
          × (h'.last_name ≤ h.last_name + 1)
    go [] = (h.last_name + 1, record h { last_name = h.last_name + 1 }, ground arith, omega arith)
    go (x ∷ r) = (x, record h { reusable_names = r }, refl, omega arith)

alloc_names_step :
    (n x : ℕ) (live xs : List ℕ) {h : NameHandler}
    → Owns h (xs ++ (x ∷ live)) × (length xs ≡ n)
    → Owns h ((x ∷ xs) ++ live) × (length (x ∷ xs) ≡ suc n)
alloc_names_step n x live xs (o, e) = (
  Owns-count o (λ y. omega (arith, count-append y xs live, count-append y xs (x ∷ live))),
  ap suc e,
)

-- What the names handed out are, from a handler that shares names with its client: as many as were
-- asked for, and now the client's, so each of them is positive, held once, and was not live before.
pub alloc_names-Owns :
    (n : ℕ) {h h' : NameHandler} {live xs : List ℕ}
    → Owns h live
    → alloc_names n h ≡ some (xs, h')
    → Owns h' (xs ++ live) × (length xs ≡ n)
unfolding alloc_names
alloc_names-Owns zero {h} {live = live} o e =
    subst (λ p. Owns p.1 (p.0 ++ live) × (length p.0 ≡ 0)) (some-injective _ _ e) (o, refl)
alloc_names-Owns (suc n) {h} {h'} {live} {xs} o e = elim (Option-cases (alloc_one h)) [
  | inl fails ↦ absurd (ground arith)
  | inr ((x, h1), one) ↦ elim (Option-cases (alloc_names n h1)) [
    | inl fails ↦ absurd (ground arith)
    | inr ((ys, h2), rest) ↦
        subst (λ (p : List ℕ × NameHandler). Owns p.1 (p.0 ++ live) × (length p.0 ≡ suc n))
          (some-injective _ _ (let same : some (x ∷ ys, h2) ≡ some (xs, h') = ground arith in same))
          (alloc_names_step n x live ys (alloc_names-Owns n (alloc_one-Owns o one) rest))
  ]
]

-- None of the names handed out is 0.
pub alloc_names-positive :
    (n : ℕ) {h h' : NameHandler} {live xs : List ℕ}
    → Owns h live
    → alloc_names n h ≡ some (xs, h')
    → count 0 xs ≡ 0
alloc_names-positive n {live = live} {xs} o e =
    let owns = (alloc_names-Owns n o e).0 in
    elim (Bool-cases (count 0 xs == 0)) [
      | inl z ↦ ground arith
      | inr z ↦
          let (bad, _) = owns.counted 0 (ground (arith, z, count-append 0 xs live)) in
          absurd (omega (arith, bad))
    ]

-- While the last name and the names asked for stay below `2 ^ 32 - 1`, the assertion does not fail:
-- names are handed out.
pub alloc_names-total :
    (n : ℕ) (h : NameHandler)
    → h.last_name + n < uint_max
    → (xs : List ℕ) × (h' : NameHandler) × (alloc_names n h ≡ some (xs, h'))
unfolding alloc_names
alloc_names-total zero h room = ([], h, refl)
alloc_names-total (suc n) h room =
    let (x, h1, one, near) = alloc_one-total h (omega arith) in
    let (xs, h2, rest) = alloc_names-total n h1 (omega arith) in (x ∷ xs, h2, ground arith)

give_back-Owns :
    (x : ℕ) {h : NameHandler} {l : List ℕ}
    → Owns h (x ∷ l)
    → Owns (record h { reusable_names = h.reusable_names ++ (x ∷ []) }) l
give_back-Owns x {h} o = record {
  once = λ y. omega (arith, o.once y, count-append y h.reusable_names (x ∷ []));
  counted = λ y p. o.counted y (omega (arith, count-append y h.reusable_names (x ∷ [])));
  small = o.small;
}

count-delete_names :
    (xs : List ℕ) (h : NameHandler) (x : ℕ)
    → count x (delete_names h xs).reusable_names ≡ count x h.reusable_names + count x (nonzero xs)
unfolding delete_names
count-delete_names [] h x = omega arith
count-delete_names (y ∷ xs) h x = elim (Bool-cases (y == 0)) [
  | inl z ↦ ground (arith, z, count-delete_names xs h x)
  | inr z ↦ ground (
    arith,
    z,
    count-delete_names xs (record h { reusable_names = h.reusable_names ++ (y ∷ []) }) x,
    count-append x h.reusable_names (y ∷ []),
  )
]

keeps-Owns :
    (xs : List ℕ) {h : NameHandler} {live : List ℕ}
    → Owns h (nonzero xs ++ live)
    → Owns (delete_names h xs) live
unfolding delete_names
keeps-Owns [] o = o
keeps-Owns (x ∷ xs) {h} {live} o = elim (Bool-cases (x == 0)) [
  | inl z ↦ rw z (keeps-Owns xs {h = h} (rw z at o))
  | inr z ↦ rw z (keeps-Owns xs (give_back-Owns x (rw z at o)))
]

-- Names that are given back belong to the handler again: each of them stands in its list of names to
-- use again, as often as it was given back beside those that stood there, a zero being skipped, and the
-- handler and its client share the names out between them as before.
pub delete_names-Owns :
    (xs : List ℕ) {h : NameHandler} {live : List ℕ}
    → Owns h (nonzero xs ++ live)
    → Owns (delete_names h xs) live
      × ((x : ℕ)
          → count x (delete_names h xs).reusable_names
            ≡ count x h.reusable_names + count x (nonzero xs))
delete_names-Owns xs {h} o = (keeps-Owns xs o, count-delete_names xs h)
