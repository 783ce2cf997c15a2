-- ===== src/Names/Reuse.antt =====
-- Names come back in the order in which they were given back.
use gpu_proxy.Base.{
  ℕ, ◌≡◌, ◌≢◌, refl, some, List, [], ◌∷◌, ◌++◌, arith, length, ap, All, ◌∙◌, append_assoc,
  append-nil, sym,
}
use gpu_proxy.Names.{NameHandler, alloc_from, alloc_one, alloc_names, delete_names}

delete_names-append :
    (xs : List ℕ) (h : NameHandler)
    → All (λ x. x ≢ 0) xs
    → delete_names h xs ≡ record h { reusable_names = h.reusable_names ++ xs }
unfolding delete_names
delete_names-append [] h a =
    ap (λ l. record h { reusable_names = l }) (sym (append-nil h.reusable_names))
delete_names-append (x ∷ xs) h a =
    ap (λ g. delete_names g xs) (ground arith)
    ∙ delete_names-append xs (record h { reusable_names = h.reusable_names ++ (x ∷ []) }) a.1
    ∙ ap (λ l. record h { reusable_names = l }) (append_assoc h.reusable_names (x ∷ []) xs)

alloc_one-cons :
    (x : ℕ) (r : List ℕ) (h : NameHandler)
    → h.reusable_names ≡ x ∷ r
    → alloc_one h ≡ some (x, record h { reusable_names = r })
unfolding alloc_one
alloc_one-cons x r h e = ap (λ l. alloc_from l h) e

alloc_names-queue :
    (xs rest : List ℕ) (h : NameHandler)
    → h.reusable_names ≡ xs ++ rest
    → alloc_names (length xs) h ≡ some (xs, record h { reusable_names = rest })
unfolding alloc_names
alloc_names-queue [] rest h e = ap (λ l. some ([], record h { reusable_names = l })) e
alloc_names-queue (x ∷ xs) rest h e = ground (
  arith,
  alloc_one-cons x (xs ++ rest) h e,
  alloc_names-queue xs rest (record h { reusable_names = xs ++ rest }) refl,
)

-- If a handler has names to use again, `name_handler_alloc_names` hands out the oldest of them
-- first, and names that are given back join them at the end: giving `xs`, none of them 0, back, and
-- allocating as many names as were in the queue and in `xs`, yields the queue and then `xs`, and
-- leaves no names to use again and the last name as it was.
pub delete-alloc :
    (h : NameHandler) (xs : List ℕ)
    → All (λ x. x ≢ 0) xs
    → alloc_names (length (h.reusable_names ++ xs)) (delete_names h xs)
      ≡ some (h.reusable_names ++ xs, record h { reusable_names = [] })
delete-alloc h xs a =
    rw (delete_names-append xs h a)
      (alloc_names-queue (h.reusable_names ++ xs) [] _ (sym (append-nil _)))
