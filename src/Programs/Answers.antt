-- ===== src/Programs/Answers.antt =====
-- src/client/caching_client.c: the locations that are answered from the cache, and the uniforms that are
-- let through for them.
use gpu_proxy.Base.{ℕ, ◌≡◌, ◌≢◌, refl, ap, sym, ◌∙◌, none, some, true, List, [], ◌∷◌, arith}
use gpu_proxy.Programs.{ShaderObject, Programs, lookup_object, change_object, gl_link_program}
use gpu_proxy.Programs.Lifetimes.{lookup-change}
use gpu_proxy.Programs.Locations.{
  find_location, lookup_location, insert_location, has_location, minus_one, LocationCall,
  gl_get_uniform_location,
}
use gpu_proxy.Programs.Uniforms.{UniformCall, gl_uniform1f}

find-insert : (c : List (ℕ × ℕ)) (k v : ℕ) → find_location (insert_location c k v) k ≡ some v
find-insert [] k v = ground arith
find-insert ((j, w) ∷ r) k v = ground (arith, find-insert r k v)

lookup-insert :
    (c : List (ℕ × ℕ)) (k v : ℕ) → k ≢ 0 → lookup_location (insert_location c k v) k ≡ some v
lookup-insert c k v n = ground (arith, find-insert c k v)

has_location-insert : (c : List (ℕ × ℕ)) (k v : ℕ) → has_location (insert_location c k v) v ≡ true
has_location-insert [] k v = ground arith
has_location-insert ((j, w) ∷ r) k v = ground (arith, has_location-insert r k v)

module _ {Name : Type 0} (hash_str : Name → ℕ) where
  abbrev keep : Name → ℕ → ShaderObject → ShaderObject
  keep name l p = record p {
    uniform_locations = insert_location p.uniform_locations (hash_str name) l;
  }

  abbrev learned : Programs → ℕ → Name → ℕ → Programs
  learned s p name l = record s { objects = change_object (keep name l) s.objects p }

  first_answer :
      (s : Programs) (p : ℕ) (name : Name) (l : ℕ) (o : ShaderObject)
      → lookup_object s.objects p ≡ some o
      → o.is_program ≡ true
      → lookup_location o.uniform_locations (hash_str name) ≡ none
      → l ≢ minus_one
      → hash_str name ≢ 0
      → gl_get_uniform_location hash_str s p name l
        ≡ some (l, learned s p name l, LocationCall.get_uniform_location p name ∷ [])
  unfolding gl_get_uniform_location
  first_answer s p name l o e is_program new n z = ground (arith, e, is_program, new, n, z)

  kept_answer :
      (s : Programs) (p : ℕ) (name : Name) (l answer : ℕ) (o : ShaderObject)
      → lookup_object s.objects p ≡ some o
      → o.is_program ≡ true
      → lookup_location o.uniform_locations (hash_str name) ≡ some l
      → gl_get_uniform_location hash_str s p name answer ≡ some (l, s, [])
  unfolding gl_get_uniform_location
  kept_answer s p name l answer o e is_program old = ground (arith, e, is_program, old)

  linked-learned :
      (s : Programs) (p : ℕ) (name : Name) (l : ℕ) (o : ShaderObject)
      → lookup_object s.objects p ≡ some o
      → o.is_program ≡ true
      → (gl_link_program (learned s p name l) p).0 ≡ learned s p name l
  unfolding gl_link_program
  linked-learned s p name l o e is_program =
      ground (arith, lookup-change (keep name l) (λ t. refl) s.objects p o e, is_program)

  -- A location that the driver gives for a uniform's name of a cached program is answered, and asked
  -- for once: the next call for that name gives it again whatever the driver would say, changes nothing
  -- and sends nothing, and glUniform1f for it is sent on while the program is current. The location
  -- is not -1, the hash of the name is not 0, and no location was kept for that hash.
  pub location_then_uniform :
      (s : Programs) (p : ℕ) (name : Name) (l answer v : ℕ) (o : ShaderObject)
      → lookup_object s.objects p ≡ some o
      → o.is_program ≡ true
      → s.current_program ≡ p
      → lookup_location o.uniform_locations (hash_str name) ≡ none
      → l ≢ minus_one
      → hash_str name ≢ 0
      → (s' : Programs) × (gl_get_uniform_location hash_str s p name l
          ≡ some (l, s', LocationCall.get_uniform_location p name ∷ []))
        × (gl_get_uniform_location hash_str s' p name answer ≡ some (l, s', []))
        × (gl_uniform1f s' l v ≡ (s', UniformCall.uniform1f l v ∷ []))
  unfolding gl_uniform1f
  location_then_uniform s p name l answer v o e is_program current new n z =
      let found = lookup-change (keep name l) (λ t. refl) s.objects p o e in
      (
        learned s p name l,
        first_answer s p name l o e is_program new n z,
        kept_answer (learned s p name l) p name l answer (keep name l o) found is_program
            (lookup-insert o.uniform_locations (hash_str name) l z),
        ground (
          arith,
          current,
          found,
          is_program,
          has_location-insert o.uniform_locations (hash_str name) l,
        ),
      )

  -- A location that was answered outlives glLinkProgram and stands for every name with the same hash:
  -- after the driver gave a location for one name of a cached program, and the program was linked,
  -- glGetUniformLocation for a name with the same hash gives that location, whatever the driver
  -- would say, and sends nothing. The location is not -1, the hash is not 0, and no location was kept for
  -- it.
  pub location_outlives_link :
      (s : Programs) (p : ℕ) (a b : Name) (l answer : ℕ) (o : ShaderObject)
      → lookup_object s.objects p ≡ some o
      → o.is_program ≡ true
      → lookup_location o.uniform_locations (hash_str a) ≡ none
      → l ≢ minus_one
      → hash_str a ≢ 0
      → hash_str b ≡ hash_str a
      → (s' : Programs) × (gl_get_uniform_location hash_str s p a l
          ≡ some (l, s', LocationCall.get_uniform_location p a ∷ []))
        × (gl_get_uniform_location hash_str (gl_link_program s' p).0 p b answer
            ≡ some (l, (gl_link_program s' p).0, []))
  location_outlives_link s p a b l answer o e is_program new n z same = (
    learned s p a l,
    first_answer s p a l o e is_program new n z,
    ap (λ t. gl_get_uniform_location hash_str t p b answer) linked
        ∙ kept_answer (learned s p a l) p b l answer (keep a l o)
            (lookup-change (keep a l) (λ t. refl) s.objects p o e) is_program
            (ap (lookup_location (keep a l o).uniform_locations) same
              ∙ lookup-insert o.uniform_locations (hash_str a) l z)
        ∙ ap (λ t. some (l, t, [])) (sym linked),
  )
    where
      linked : (gl_link_program (learned s p a l) p).0 ≡ learned s p a l
      linked = linked-learned s p a l o e is_program
