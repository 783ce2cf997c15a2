-- ===== src/Mapping.antt =====
-- src/server/server.c: the handlers that create and delete objects, and the one table from the
-- client's names to the driver's. The table is that of src/util/hash.c, a copy of Mesa's: it is a
-- parameter, with its documented behaviour.
pub mod Objects
use gpu_proxy.Base.{
  ℕ, ◌≡◌, ◌≢◌, Option, none, some, Bool, true, false, List, [], ◌∷◌, ◌++◌, length, ◌==◌,
  if◌then◌else◌,
}

-- `hash_lookup`, `hash_insert`, and the removal that `hash_take` ends with. The key 0 is never found;
-- inserting under it fails an assertion, so nothing is said of what is found there.
pub record HashTable : Type 1 where
  pub Table : Type 0
  pub lookup : ℕ → Table → Option ℕ
  pub insert : ℕ → ℕ → Table → Table
  pub remove : ℕ → Table → Table
  pub lookup-zero : (t : Table) → lookup 0 t ≡ none
  pub lookup-insert : (k v : ℕ) (t : Table) → k ≢ 0 → lookup k (insert k v t) ≡ some v
  pub lookup-insert_other : (j k v : ℕ) (t : Table) → j ≢ k → lookup j (insert k v t) ≡ lookup j t
  pub lookup-remove : (k : ℕ) (t : Table) → lookup k (remove k t) ≡ none
  pub lookup-remove_other : (j k : ℕ) (t : Table) → j ≢ k → lookup j (remove k t) ≡ lookup j t

-- The kinds of object with an array of names.
pub data Kind : Type 0 where
  buffers framebuffers textures renderbuffers : Kind

-- The calls of the driver's dispatch table.
pub data Request : Type 0 where
  gen : Kind → ℕ → Request
  delete : Kind → List ℕ → Request
  create_program : Request
  delete_program : ℕ → Request
  create_shader : ℕ → Request
  delete_shader : ℕ → Request

module _ (H : HashTable) where
  -- `name_mapping`, and the requests made of the driver so far.
  pub record Server : Type 0 where
    pub name_mapping : H.Table
    pub requests : List Request

  abbrev pub request : Request → Server → Server
  request r s = record s { requests = s.requests ++ (r ∷ []) }

  -- The loop of the gen handlers, over the client's names and what the driver wrote.
  abbrev pub insert_all : List ℕ → List ℕ → H.Table → H.Table
  insert_all [] ys t = t
  insert_all (x ∷ xs) [] t = t
  insert_all (x ∷ xs) (y ∷ ys) t = insert_all xs ys (H.insert x y t)

  -- `hash_take`
  abbrev pub hash_take : ℕ → H.Table → Option ℕ × H.Table
  hash_take x t = (H.lookup x t, H.remove x t)

  abbrev pub or_else : Option ℕ → ℕ → ℕ
  or_else none x = x
  or_else (some y) x = y

  -- The loop of the delete handlers: a name with no entry stays as it is.
  abbrev pub take_all : List ℕ → H.Table → List ℕ × H.Table
  take_all [] t = ([], t)
  take_all (x ∷ xs) t =
      let (entry, t') = hash_take x t in
      let (rest, t'') = take_all xs t' in (or_else entry x ∷ rest, t'')

  -- The frame of the gen handlers.
  abbrev pub gen_objects : Kind → List ℕ → List ℕ → Server → Server
  gen_objects k names server_names s =
      request (Request.gen k (length names))
        (record s { name_mapping = insert_all names server_names s.name_mapping })

  -- The frame of the delete handlers.
  abbrev pub delete_objects : Kind → List ℕ → Server → Server
  delete_objects k names s =
      let (server_names, t) = take_all names s.name_mapping in
      request (Request.delete k server_names) (record s { name_mapping = t })

  pub handle_glgenbuffers : List ℕ → List ℕ → Server → Server
  handle_glgenbuffers = gen_objects buffers

  pub handle_gldeletebuffers : List ℕ → Server → Server
  handle_gldeletebuffers = delete_objects buffers

  pub handle_glgenframebuffers : List ℕ → List ℕ → Server → Server
  handle_glgenframebuffers = gen_objects framebuffers

  pub handle_gldeleteframebuffers : List ℕ → Server → Server
  handle_gldeleteframebuffers = delete_objects framebuffers

  pub handle_glgentextures : List ℕ → List ℕ → Server → Server
  handle_glgentextures = gen_objects textures

  pub handle_gldeletetextures : List ℕ → Server → Server
  handle_gldeletetextures = delete_objects textures

  pub handle_glgenrenderbuffers : List ℕ → List ℕ → Server → Server
  handle_glgenrenderbuffers = gen_objects renderbuffers

  -- The handler calls `glDeleteBuffers` of the driver.
  pub handle_gldeleterenderbuffers : List ℕ → Server → Server
  handle_gldeleterenderbuffers = delete_objects buffers

  pub handle_glcreateprogram : ℕ → ℕ → Server → Server
  handle_glcreateprogram result program s =
      request Request.create_program
        (record s { name_mapping = H.insert result program s.name_mapping })

  pub handle_gldeleteprogram : ℕ → Server → Server
  handle_gldeleteprogram name s =
      let (program, t) = hash_take name s.name_mapping in
      elim program [
        | none ↦ record s { name_mapping = t }
        | some p ↦ request (Request.delete_program p) (record s { name_mapping = t })
      ]

  pub handle_glcreateshader : ℕ → ℕ → ℕ → Server → Server
  handle_glcreateshader type result shader s =
      request (Request.create_shader type)
        (record s { name_mapping = H.insert result shader s.name_mapping })

  pub handle_gldeleteshader : ℕ → Server → Server
  handle_gldeleteshader name s =
      let (shader, t) = hash_take name s.name_mapping in
      request (Request.delete_shader (or_else shader 0xffffffff)) (record s { name_mapping = t })
