-- ===== src/Tests/Objects.antt =====
-- Names, the table of names and the displays at concrete inputs.
use gpu_proxy.Base.{
  ◌+◌, ℕ, ◌≡◌, ◌≢◌, refl, some, none, Option, false, List, [], ◌∷◌, ◌==◌, if◌then◌else◌, length,
  arith,
}
use gpu_proxy.Names.{NameHandler, create, alloc_names, alloc_name, delete_names, alloc_one}
use gpu_proxy.Names.Owned.{
  count, nonzero, Owns, create-Owns, alloc_names-Owns, alloc_names-total, delete_names-Owns,
}
use gpu_proxy.Names.Reuse.{delete-alloc}
use gpu_proxy.Names.Chosen.{alloc_name-Owns}
use gpu_proxy.Mapping.{
  HashTable, Kind, Request, Server, handle_glgenbuffers, handle_gldeletebuffers,
  handle_glgenframebuffers, handle_gldeleteframebuffers, handle_glgentextures,
  handle_gldeletetextures,
}
use gpu_proxy.Mapping.Objects.{objects_deleted}
use gpu_proxy.Displays.{
  Display, cached_gl_display_new, cached_gl_display_destroy, cached_gl_display_find,
  cached_gl_find_display_context_surface_matching, link_list_append,
}
use gpu_proxy.Displays.Matching.{matching_exact, display_added_destroyed}

-- Two names from a new handler.
abbrev two_given : NameHandler
two_given = record { last_name = 2; reusable_names = [] }

two_names : alloc_names 2 create ≡ some (1 ∷ 2 ∷ [], two_given)
unfolding alloc_names alloc_one
two_names = refl

alloc_names-Owns_example : Owns two_given (1 ∷ 2 ∷ []) × (length {A = ℕ} (1 ∷ 2 ∷ []) ≡ 2)
alloc_names-Owns_example = alloc_names-Owns 2 create-Owns two_names

alloc_names-total_example :
    (xs : List ℕ) × (h' : NameHandler) × (alloc_names 2 create ≡ some (xs, h'))
alloc_names-total_example = alloc_names-total 2 create (omega arith)

-- The first of them given back.
delete_names-Owns_example :
    Owns (delete_names two_given (0 ∷ 1 ∷ [])) (2 ∷ [])
    × ((x : ℕ)
        → count x (delete_names two_given (0 ∷ 1 ∷ [])).reusable_names
          ≡ count x two_given.reusable_names + count x (nonzero (0 ∷ 1 ∷ [])))
delete_names-Owns_example =
    delete_names-Owns (0 ∷ 1 ∷ []) (alloc_names-Owns 2 create-Owns two_names).0

abbrev one_back : NameHandler
one_back = record { last_name = 2; reusable_names = 1 ∷ [] }

one_back-Owns : Owns one_back (2 ∷ [])
unfolding delete_names
one_back-Owns =
    (delete_names-Owns (1 ∷ []) {h = two_given} (alloc_names-Owns 2 create-Owns two_names).0).0

delete-alloc_example : alloc_names 2 (delete_names one_back (2 ∷ [])) ≡ some (1 ∷ 2 ∷ [], two_given)
delete-alloc_example = delete-alloc one_back (2 ∷ []) (ground arith, tt)

alloc_name-Owns_example : Owns (alloc_name one_back 1) (1 ∷ 2 ∷ [])
alloc_name-Owns_example = alloc_name-Owns 1 one_back-Owns (omega arith) refl

-- A table as a function.
abbrev Table : Type 0
Table = ℕ → Option ℕ

abbrev insert : ℕ → ℕ → Table → Table
insert k v t j = if j == k then some v else t j

abbrev remove : ℕ → Table → Table
remove k t j = if j == k then none else t j

-- The key 0 is never found.
abbrev lookup : ℕ → Table → Option ℕ
lookup k t = if k == 0 then none else t k

lookup-insert : (k v : ℕ) (t : Table) → k ≢ 0 → lookup k (insert k v t) ≡ some v
lookup-insert k v t n = ground arith

lookup-insert_other : (j k v : ℕ) (t : Table) → j ≢ k → lookup j (insert k v t) ≡ lookup j t
lookup-insert_other j k v t n = ground arith

lookup-remove : (k : ℕ) (t : Table) → lookup k (remove k t) ≡ none
lookup-remove k t = ground arith

lookup-remove_other : (j k : ℕ) (t : Table) → j ≢ k → lookup j (remove k t) ≡ lookup j t
lookup-remove_other j k t n = ground arith

abbrev table : HashTable
table = record {
  Table = Table;
  lookup = lookup;
  insert = insert;
  remove = remove;
  lookup-zero = λ t. refl;
  lookup-insert = lookup-insert;
  lookup-insert_other = lookup-insert_other;
  lookup-remove = lookup-remove;
  lookup-remove_other = lookup-remove_other;
}

abbrev server : Server table
server = record { name_mapping = λ k. none; requests = [] }

objects_deleted_example :
    ((handle_gldeletebuffers table
        (1 ∷ 2 ∷ [])
        (handle_glgenbuffers table (1 ∷ 2 ∷ []) (8 ∷ 9 ∷ []) server)).requests
      ≡ Request.gen Kind.buffers 2 ∷ Request.delete Kind.buffers (8 ∷ 9 ∷ []) ∷ [])
    × ((handle_gldeleteframebuffers table
          (1 ∷ 2 ∷ [])
          (handle_glgenframebuffers table (1 ∷ 2 ∷ []) (8 ∷ 9 ∷ []) server)).requests
        ≡ Request.gen Kind.framebuffers 2 ∷ Request.delete Kind.framebuffers (8 ∷ 9 ∷ []) ∷ [])
    × ((handle_gldeletetextures table
          (1 ∷ 2 ∷ [])
          (handle_glgentextures table (1 ∷ 2 ∷ []) (8 ∷ 9 ∷ []) server)).requests
        ≡ Request.gen Kind.textures 2 ∷ Request.delete Kind.textures (8 ∷ 9 ∷ []) ∷ [])
objects_deleted_example =
    objects_deleted table (1 ∷ 2 ∷ []) (8 ∷ 9 ∷ []) server
      (omega arith, refl, (omega arith, refl, tt)) refl

-- One display, with a context and a surface of config 7.
abbrev display : Display
display = record {
  address = 1000;
  display = 5;
  native_display = 1;
  native_display_locked = false;
  support_surfaceless = false;
  surfaces = record { address = 2000; config = 7; handle = 40 } ∷ [];
  contexts = record { address = 3000; config = 7; handle = 50 } ∷ [];
}

display_found : cached_gl_display_find (display ∷ []) 5 ≡ some display
unfolding cached_gl_display_find
display_found = refl

matching_exact_example :
    cached_gl_find_display_context_surface_matching (display ∷ []) 5 50 40 41 ≡ false
matching_exact_example = matching_exact (display ∷ []) 5 50 40 41 display display_found

display_added_destroyed_example :
    (cached_gl_display_find (link_list_append (display ∷ []) (cached_gl_display_new 1100 1 6)) 6
      ≡ some (cached_gl_display_new 1100 1 6))
    × (cached_gl_display_destroy
          (link_list_append (display ∷ []) (cached_gl_display_new 1100 1 6))
          6
        ≡ display ∷ [])
display_added_destroyed_example =
    display_added_destroyed 1100 1 6 (display ∷ []) (ground arith)
      ((ground arith, ground arith), tt)
