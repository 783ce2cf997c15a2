-- ===== src/Names.antt =====
-- src/client/name_handler.c: the allocator of object names on the client's side. Its linked list
-- of names to use again is a list, and the pointers in it are the names that they point to.
pub mod Owned
pub mod Reuse
pub mod Chosen
use gpu_proxy.Base.{
  ℕ, zero, suc, ◌+◌, ◌-◌, ◌%◌, ◌^◌, ◌==◌, ltb, if◌then◌else◌, Option, none, some, List, [], ◌∷◌,
  ◌++◌,
}

-- `name_handler_t`; names are 32-bit.
pub record NameHandler : Type 0 where
  pub last_name : ℕ
  pub reusable_names : List ℕ

-- `UINT_MAX`
abbrev pub uint_max : ℕ
uint_max = 2 ^ 32 - 1

-- `name_handler_create`
abbrev pub create : NameHandler
create = record { last_name = 0; reusable_names = [] }

-- The else branch of the loop: the next number, unless the assertion fails (`none`).
abbrev pub fresh_name : NameHandler → Option (ℕ × NameHandler)
fresh_name h =
    let next_name = (h.last_name + 1) % 2 ^ 32 in
    if next_name == uint_max then none else some (next_name, record h { last_name = next_name })

-- One round of the loop: the oldest name to use again, if there is one.
abbrev pub alloc_from : List ℕ → NameHandler → Option (ℕ × NameHandler)
alloc_from [] h = fresh_name h
alloc_from (x ∷ r) h = some (x, record h { reusable_names = r })

unfoldable pub alloc_one : NameHandler → Option (ℕ × NameHandler)
alloc_one h = alloc_from h.reusable_names h

-- `name_handler_alloc_names`: the names written to `buffers[0 .. n)`.
unfoldable pub alloc_names : ℕ → NameHandler → Option (List ℕ × NameHandler)
alloc_names zero h = some ([], h)
alloc_names (suc n) h = elim (alloc_one h) [
  | none ↦ none
  | some (x, h') ↦ elim (alloc_names n h') [ none ↦ none | some (xs, h'') ↦ some (x ∷ xs, h'') ]
]

-- The walk that deletes the first element with the given name.
pub delete_first : ℕ → List ℕ → List ℕ
delete_first x [] = []
delete_first x (y ∷ r) = if y == x then r else y ∷ delete_first x r

-- `name_handler_alloc_name`, for a name that the application chose.
pub alloc_name : NameHandler → ℕ → NameHandler
alloc_name h buffer =
    if ltb buffer h.last_name
    then record h { reusable_names = delete_first buffer h.reusable_names }
    else record h { last_name = (h.last_name + 1) % 2 ^ 32 }

-- `name_handler_delete_names`
unfoldable pub delete_names : NameHandler → List ℕ → NameHandler
delete_names h [] = h
delete_names h (x ∷ xs) =
    delete_names (if x == 0 then h else record h { reusable_names = h.reusable_names ++ (x ∷ []) })
      xs
