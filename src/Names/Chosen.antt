-- ===== src/Names/Chosen.antt =====
-- Names that the application chose itself, and the handler's mistake about them.
use gpu_proxy.Base.{
  ℕ, zero, suc, ◌+◌, ◌-◌, ◌≤◌, ◌<◌, ◌≡◌, refl, ◌==◌, if◌then◌else◌, some, List, [], ◌∷◌, arith, ap,
  ◌∙◌,
}
use gpu_proxy.Names.{
  NameHandler, uint_max, alloc_from, alloc_one, alloc_names, alloc_name, delete_first,
}
use gpu_proxy.Names.Owned.{count, Owns}

-- The `n` numbers after `k`.
abbrev pub after : ℕ → ℕ → List ℕ
after k zero = []
after k (suc n) = (k + 1) ∷ after (k + 1) n

-- With no name to use again, names are handed out in order.
alloc_one-next :
    (h : NameHandler)
    → h.reusable_names ≡ []
    → h.last_name + 1 < uint_max
    → alloc_one h ≡ some (h.last_name + 1, record h { last_name = h.last_name + 1 })
unfolding alloc_one
alloc_one-next h e room = ap (λ l. alloc_from l h) e ∙ ground arith

count-after_low : (k n x : ℕ) → x ≤ k → count x (after k n) ≡ 0
count-after_low k zero x h = refl
count-after_low k (suc n) x h = ground (arith, count-after_low (k + 1) n x)

count-after : (k n x : ℕ) → k < x → x ≤ k + n → count x (after k n) ≡ 1
count-after k zero x low high = absurd (omega arith)
count-after k (suc n) x low high =
    ground (arith, count-after (k + 1) n x, count-after_low (k + 1) n x)

alloc_names-after :
    (n : ℕ) (h : NameHandler)
    → h.reusable_names ≡ []
    → h.last_name + n < uint_max
    → alloc_names n h ≡ some (after h.last_name n, record h { last_name = h.last_name + n })
unfolding alloc_names
alloc_names-after zero h e room = ground arith
alloc_names-after (suc n) h e room =
    ground
      (arith, alloc_one-next h e, alloc_names-after n (record h { last_name = h.last_name + 1 }) e)

-- A name that the application chose, two or more past the last one, is handed out again by
-- `name_handler_alloc_names`: with no name to use again, after `name_handler_alloc_name` for it, the
-- names handed out next include it, once enough are asked for.
pub chosen_name_is_reused :
    (h : NameHandler) (x : ℕ)
    → h.reusable_names ≡ []
    → h.last_name + 1 < x
    → x < uint_max
    → (xs : List ℕ) × (h' : NameHandler) × (alloc_names (x - h.last_name - 1) (alloc_name h x)
        ≡ some (xs, h'))
      × (count x xs ≡ 1)
unfolding alloc_name
chosen_name_is_reused h x e far small = (
  after (h.last_name + 1) (x - h.last_name - 1),
  record h { last_name = h.last_name + 1 + (x - h.last_name - 1) },
  ap (alloc_names (x - h.last_name - 1)) bumped
      ∙ alloc_names-after (x - h.last_name - 1) (record h { last_name = h.last_name + 1 }) e
          (omega arith),
  count-after (h.last_name + 1) (x - h.last_name - 1) x (omega arith) (omega arith),
)
  where
    bumped : alloc_name h x ≡ record h { last_name = h.last_name + 1 }
    bumped = ground arith

count-delete_first :
    (x y : ℕ) (l : List ℕ)
    → 0 < count x l
    → count y (delete_first x l) + (if x == y then 1 else 0) ≡ count y l
unfolding delete_first
count-delete_first x y [] h = absurd (omega arith)
count-delete_first x y (z ∷ l) h = ground (arith, count-delete_first x y l)

-- A name that was handed out and given back, no later than the last one, is taken out of the names
-- to use again by `name_handler_alloc_name`, so that the handler does not hand it out: the client
-- then holds it, and the sharing of names is kept.
pub alloc_name-Owns :
    {h : NameHandler} {live : List ℕ} (x : ℕ)
    → Owns h live
    → x < h.last_name
    → count x h.reusable_names ≡ 1
    → Owns (alloc_name h x) (x ∷ live)
unfolding alloc_name
alloc_name-Owns {h} {live} x o low held = rw (taken) (record {
  once = λ y. ground (arith, o.once y, count-delete_first x y h.reusable_names);
  counted = λ y p. o.counted y (ground (arith, count-delete_first x y h.reusable_names));
  small = o.small;
})
  where
    taken : alloc_name h x ≡ record h { reusable_names = delete_first x h.reusable_names }
    taken = ground arith
