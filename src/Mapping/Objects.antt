-- ===== src/Mapping/Objects.antt =====
-- What the handlers of src/server/server.c ask of the driver, over the life of an object.
use gpu_proxy.Base.{
  ℕ, ◌≤◌, ◌≡◌, ◌≢◌, refl, sym, ap, ◌∙◌, none, some, List, [], ◌∷◌, ◌++◌, length, ◌==◌,
  if◌then◌else◌, arith, ap₂, inl, inr, Bool-cases,
}
use std.Path.{subst₂}
use mathlib.Core.Option.{some-injective}
use gpu_proxy.Names.{NameHandler, create, alloc_names}
use gpu_proxy.Names.Owned.{count, count-append, create-Owns, alloc_names-Owns, alloc_names-positive}
use gpu_proxy.Mapping.{
  HashTable, Kind, Request, Server, insert_all, take_all, gen_objects, delete_objects, or_else,
  handle_glgenbuffers, handle_gldeletebuffers, handle_glgenframebuffers,
  handle_gldeleteframebuffers, handle_glgentextures, handle_gldeletetextures,
  handle_glgenrenderbuffers, handle_gldeleterenderbuffers, handle_glcreateprogram,
  handle_gldeleteprogram, handle_glcreateshader, handle_gldeleteshader,
}

-- No name stands twice, and none is 0.
abbrev pub AreNames : List ℕ → Type 0
AreNames [] = Unit
AreNames (x ∷ xs) = (x ≢ 0) × (count x xs ≡ 0) × AreNames xs

module _ (H : HashTable) where
  -- Each name has its partner for an entry.
  abbrev Holds : List ℕ → List ℕ → H.Table → Type 0
  Holds [] [] t = Unit
  Holds [] (y ∷ ys) t = ⊥
  Holds (x ∷ xs) [] t = ⊥
  Holds (x ∷ xs) (y ∷ ys) t = (H.lookup x t ≡ some y) × Holds xs ys t

  lookup-insert_all_other :
      (j : ℕ) (xs ys : List ℕ) (t : H.Table)
      → count j xs ≡ 0
      → H.lookup j (insert_all H xs ys t) ≡ H.lookup j t
  lookup-insert_all_other j [] ys t h = refl
  lookup-insert_all_other j (x ∷ xs) [] t h = refl
  lookup-insert_all_other j (x ∷ xs) (y ∷ ys) t h =
      lookup-insert_all_other j xs ys (H.insert x y t) (ground arith)
      ∙ H.lookup-insert_other j x y t (ground arith)

  insert_all-Holds :
      (xs ys : List ℕ) (t : H.Table)
      → AreNames xs
      → length xs ≡ length ys
      → Holds xs ys (insert_all H xs ys t)
  insert_all-Holds [] [] t d e = tt
  insert_all-Holds [] (y ∷ ys) t d e = absurd (omega (arith, e))
  insert_all-Holds (x ∷ xs) [] t d e = absurd (omega (arith, e))
  insert_all-Holds (x ∷ xs) (y ∷ ys) t d e = (
    lookup-insert_all_other x xs ys (H.insert x y t) d.1 ∙ H.lookup-insert x y t d.0,
    insert_all-Holds xs ys (H.insert x y t) d.2 (omega (arith, e)),
  )

  Holds-remove :
      (k : ℕ) (xs ys : List ℕ) (t : H.Table)
      → count k xs ≡ 0
      → Holds xs ys t
      → Holds xs ys (H.remove k t)
  Holds-remove k [] [] t c h = tt
  Holds-remove k [] (y ∷ ys) t c h = absurd h
  Holds-remove k (x ∷ xs) [] t c h = absurd h
  Holds-remove k (x ∷ xs) (y ∷ ys) t c h =
      (H.lookup-remove_other x k t (ground arith) ∙ h.0, Holds-remove k xs ys t (ground arith) h.1)

  take_all-Holds :
      (xs ys : List ℕ) (t : H.Table) → AreNames xs → Holds xs ys t → (take_all H xs t).0 ≡ ys
  take_all-Holds [] [] t d h = refl
  take_all-Holds [] (y ∷ ys) t d h = absurd h
  take_all-Holds (x ∷ xs) [] t d h = absurd h
  take_all-Holds (x ∷ xs) (y ∷ ys) t d h =
      ap₂ (λ y r. y ∷ r) (ap (λ o. or_else H o x) h.0)
        (take_all-Holds xs ys (H.remove x t) d.2 (Holds-remove x xs ys t d.1 h.1))

  -- Of all that was mapped, the names that were taken are gone.
  lookup-take_all :
      (j : ℕ) (xs : List ℕ) (t : H.Table)
      → H.lookup j (take_all H xs t).1 ≡ (if count j xs == 0 then H.lookup j t else none)
  lookup-take_all j [] t = refl
  lookup-take_all j (x ∷ xs) t = elim (Bool-cases (x == j)) [
    | inl same ↦ lookup-take_all j xs (H.remove x t) ∙ ground (arith, H.lookup-remove x t)
    | inr other ↦
        lookup-take_all j xs (H.remove x t)
        ∙ ground (arith, H.lookup-remove_other j x t (ground arith))
  ]

  -- What the two handlers ask of the driver between them.
  delete-gen_objects :
      (k k' : Kind) (xs ys : List ℕ) (s : Server H)
      → AreNames xs
      → length xs ≡ length ys
      → (delete_objects H k' xs (gen_objects H k xs ys s)).requests
        ≡ (s.requests ++ (Request.gen k (length xs) ∷ [])) ++ (Request.delete k' ys ∷ [])
  delete-gen_objects k k' xs ys s d e =
      ap (λ zs. (s.requests ++ (Request.gen k (length xs) ∷ [])) ++ (Request.delete k' zs ∷ []))
        (take_all-Holds xs ys (insert_all H xs ys s.name_mapping) d
          (insert_all-Holds xs ys s.name_mapping d e))

  mapping-delete-gen :
      (k k' : Kind) (xs ys : List ℕ) (s : Server H)
      → (j : ℕ)
      → H.lookup j (delete_objects H k' xs (gen_objects H k xs ys s)).name_mapping
        ≡ (if count j xs == 0 then H.lookup j s.name_mapping else none)
  mapping-delete-gen k k' xs ys s j =
      lookup-take_all j xs (insert_all H xs ys s.name_mapping)
      ∙ elim (Bool-cases (count j xs == 0)) [
        | inl z ↦ rw z (lookup-insert_all_other j xs ys s.name_mapping (ground arith))
        | inr z ↦ rw z refl
      ]

  -- Objects that are made and then deleted under the client's distinct positive names, while nothing else
  -- happens: the driver is asked to delete just the objects that it made, whichever of buffers,
  -- framebuffers and textures they are.
  pub objects_deleted :
      (xs ys : List ℕ) (s : Server H)
      → AreNames xs
      → length xs ≡ length ys
      → ((handle_gldeletebuffers H xs (handle_glgenbuffers H xs ys s)).requests
          ≡ (s.requests ++ (Request.gen Kind.buffers (length xs) ∷ []))
            ++ (Request.delete Kind.buffers ys ∷ []))
        × ((handle_gldeleteframebuffers H xs (handle_glgenframebuffers H xs ys s)).requests
            ≡ (s.requests ++ (Request.gen Kind.framebuffers (length xs) ∷ []))
              ++ (Request.delete Kind.framebuffers ys ∷ []))
        × ((handle_gldeletetextures H xs (handle_glgentextures H xs ys s)).requests
            ≡ (s.requests ++ (Request.gen Kind.textures (length xs) ∷ []))
              ++ (Request.delete Kind.textures ys ∷ []))
  unfolding handle_glgenbuffers handle_gldeletebuffers handle_glgenframebuffers
      handle_gldeleteframebuffers handle_glgentextures handle_gldeletetextures
  objects_deleted xs ys s d e = (
    delete-gen_objects Kind.buffers Kind.buffers xs ys s d e,
    delete-gen_objects Kind.framebuffers Kind.framebuffers xs ys s d e,
    delete-gen_objects Kind.textures Kind.textures xs ys s d e,
  )

  -- After buffers are made and then deleted under the same names, these names have no entry, and
  -- every other name has the entry it had before.
  pub mapping_restored :
      (xs ys : List ℕ) (s : Server H) (j : ℕ)
      → H.lookup j (handle_gldeletebuffers H xs (handle_glgenbuffers H xs ys s)).name_mapping
        ≡ (if count j xs == 0 then H.lookup j s.name_mapping else none)
  unfolding handle_glgenbuffers handle_gldeletebuffers
  mapping_restored xs ys s j = mapping-delete-gen Kind.buffers Kind.buffers xs ys s j

  -- Renderbuffers that are made and then deleted under the client's distinct positive names: the driver is
  -- asked to delete buffers with the renderbuffers' names.
  pub renderbuffers_delete_buffers :
      (xs ys : List ℕ) (s : Server H)
      → AreNames xs
      → length xs ≡ length ys
      → (handle_gldeleterenderbuffers H xs (handle_glgenrenderbuffers H xs ys s)).requests
        ≡ (s.requests ++ (Request.gen Kind.renderbuffers (length xs) ∷ []))
          ++ (Request.delete Kind.buffers ys ∷ [])
  unfolding handle_glgenrenderbuffers handle_gldeleterenderbuffers
  renderbuffers_delete_buffers xs ys s d e =
      delete-gen_objects Kind.renderbuffers Kind.buffers xs ys s d e

  count-AreNames : (xs : List ℕ) → ((x : ℕ) → count x xs ≤ 1) → count 0 xs ≡ 0 → AreNames xs
  count-AreNames [] h z = tt
  count-AreNames (x ∷ xs) h z = (
    ground (arith, z),
    ground (arith, h x),
    count-AreNames xs (λ y. ground (arith, h y)) (ground (arith, z)),
  )

  -- The names that a new handler gives out are distinct and positive.
  alloc_names-AreNames :
      (n : ℕ) {h : NameHandler} {xs : List ℕ} → alloc_names n create ≡ some (xs, h) → AreNames xs
  alloc_names-AreNames n {h} {xs} e =
      let (owns, e') = alloc_names-Owns n create-Owns e in
      count-AreNames xs (λ x. omega (arith, owns.once x, count-append x xs []))
        (alloc_names-positive n create-Owns e)

  -- Textures and buffers have handlers of their own on the client's side and one table on the
  -- server's: if a new handler gives the same names `xs` to textures and then to buffers, then
  -- deleting the textures asks the driver to delete textures with the names of the buffers.
  pub kinds_collide :
      (n : ℕ) {h h' : NameHandler} {xs xs' : List ℕ} (ys zs : List ℕ) (s : Server H)
      → alloc_names n create ≡ some (xs, h)
      → alloc_names n create ≡ some (xs', h')
      → length zs ≡ n
      → (handle_gldeletetextures H xs
          (handle_glgenbuffers H xs' zs (handle_glgentextures H xs ys s))).requests
        ≡ ((s.requests ++ (Request.gen Kind.textures n ∷ [])) ++ (Request.gen Kind.buffers n ∷ []))
          ++ (Request.delete Kind.textures zs ∷ [])
  unfolding handle_glgenbuffers handle_glgentextures handle_gldeletetextures
  kinds_collide n {h} {h'} {xs} {xs'} ys zs s e e' m =
      let same : xs ≡ xs' = ap (λ p. p.0) (some-injective _ _ (sym e ∙ e')) in
      let size : length xs ≡ n = (alloc_names-Owns n create-Owns e).1 in
      subst₂
        (λ us k.
          (delete_objects H Kind.textures xs
            (gen_objects H Kind.buffers us zs (gen_objects H Kind.textures xs ys s))).requests
          ≡ ((s.requests ++ (Request.gen Kind.textures k ∷ []))
              ++ (Request.gen Kind.buffers k ∷ []))
            ++ (Request.delete Kind.textures zs ∷ []))
        same size
        (delete-gen_objects Kind.buffers Kind.textures xs zs (gen_objects H Kind.textures xs ys s)
          (alloc_names-AreNames n e) (size ∙ sym m))

  -- A shader that is deleted twice: the driver is asked to delete it, and then to delete the shader
  -- `0xffffffff`. A program that is deleted twice: the driver is asked just once. The names are not 0.
  pub second_deletion :
      (type n shader program : ℕ) (s : Server H)
      → n ≢ 0
      → ((handle_gldeleteshader H n
            (handle_gldeleteshader H n (handle_glcreateshader H type n shader s))).requests
          ≡ ((s.requests ++ (Request.create_shader type ∷ []))
              ++ (Request.delete_shader shader ∷ []))
            ++ (Request.delete_shader 0xffffffff ∷ []))
        × ((handle_gldeleteprogram H n
              (handle_gldeleteprogram H n (handle_glcreateprogram H n program s))).requests
            ≡ (s.requests ++ (Request.create_program ∷ []))
              ++ (Request.delete_program program ∷ []))
  unfolding handle_gldeleteshader handle_glcreateshader handle_gldeleteprogram
      handle_glcreateprogram
  second_deletion type n shader program s z = (
    ground (
      arith,
      H.lookup-insert n shader s.name_mapping z,
      H.lookup-remove n (H.insert n shader s.name_mapping),
    ),
    ground (
      arith,
      H.lookup-insert n program s.name_mapping z,
      H.lookup-remove n (H.insert n program s.name_mapping),
    ),
  )
