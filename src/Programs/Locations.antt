-- ===== src/Programs/Locations.antt =====
-- src/client/caching_client.c: the locations of attributes and uniforms, and the uniforms' values.
use gpu_proxy.Base.{
  ℕ, ◌-◌, ◌^◌, Option, none, some, Bool, true, false, List, [], ◌∷◌, ◌==◌, ◌||◌, if◌then◌else◌,
}
use gpu_proxy.Gl.Enums
use gpu_proxy.Programs.{ShaderObject, Programs, lookup_object, change_object, with_error}

-- The chain walk of `hash_lookup`.
abbrev pub find_location : List (ℕ × ℕ) → ℕ → Option ℕ
find_location [] k = none
find_location ((j, v) ∷ r) k = if j == k then some v else find_location r k

-- `hash_lookup` on a cache of locations: the key 0 is never found.
abbrev pub lookup_location : List (ℕ × ℕ) → ℕ → Option ℕ
lookup_location c k = if k == 0 then none else find_location c k

-- `hash_insert` on a cache of locations, past its assertion that the key is not 0, which `locate` makes.
abbrev pub insert_location : List (ℕ × ℕ) → ℕ → ℕ → List (ℕ × ℕ)
insert_location [] k v = (k, v) ∷ []
insert_location ((j, w) ∷ r) k v = if j == k then (k, v) ∷ r else (j, w) ∷ insert_location r k v

-- `hash_has_element` with `_check_uniform_value`
abbrev pub has_location : List (ℕ × ℕ) → ℕ → Bool
has_location [] location = false
has_location ((j, v) ∷ r) location = v == location || has_location r location

abbrev pub minus_one : ℕ
minus_one = 2 ^ 32 - 1

-- The calls for the driver, for names of a type `Name`.
pub data LocationCall (Name : Type 0) : Type 0 where
  get_attrib_location get_uniform_location : ℕ → Name → LocationCall Name
  get_active_attrib get_active_uniform : ℕ → ℕ → LocationCall Name

abbrev pub asks : Programs → Programs
asks s = record s { gl = record s.gl { need_get_error = true } }

-- The cached program of a name, or the error of `egl_state_lookup_cached_program_err`.
abbrev pub cached_program : {A : Type 0} → Programs → ℕ → ℕ → (ℕ → A) → (ShaderObject → A) → A
cached_program s program error failed found = elim (lookup_object s.objects program) [
  | none ↦ failed error
  | some o ↦ if o.is_program then found o else failed Enums.invalid_operation
]

-- The hash of a name is `hash_str`.
module _ {Name : Type 0} (hash_str : Name → ℕ) where
  abbrev pub LocationReply : Type 0
  LocationReply = ℕ × Programs × List (LocationCall Name)

  -- The lookups' ends, for a name's hash: the location that is cached, or the driver's answer, which is
  -- kept; `none` is the abort of the assertion in `hash_insert`.
  abbrev pub locate :
      Programs
      → Option ℕ
      → LocationCall Name
      → ℕ
      → ℕ
      → (ShaderObject → ShaderObject)
      → ℕ
      → Option LocationReply
  locate s (some location) call answer hash keep program = some (location, s, [])
  locate s none call answer hash keep program =
      if answer == minus_one
      then some (minus_one, asks s, call ∷ [])
      else (if hash == 0
          then none
          else some
              (answer, record s { objects = change_object keep s.objects program }, call ∷ []))

  -- `caching_client_glGetAttribLocation`, with the driver's answer.
  unfoldable pub gl_get_attrib_location : Programs → ℕ → Name → ℕ → Option LocationReply
  gl_get_attrib_location s program name answer =
      cached_program s program Enums.invalid_operation
        (λ error. some (minus_one, (with_error s error).0, []))
        (λ o.
          locate s (lookup_location o.attrib_locations (hash_str name))
            (LocationCall.get_attrib_location program name) answer (hash_str name)
            (λ p. record p {
              attrib_locations = insert_location p.attrib_locations (hash_str name) answer;
            })
            program)

  -- `caching_client_glGetUniformLocation`, with the driver's answer.
  unfoldable pub gl_get_uniform_location : Programs → ℕ → Name → ℕ → Option LocationReply
  gl_get_uniform_location s program name answer =
      cached_program s program Enums.invalid_value
        (λ error. some (minus_one, (with_error s error).0, []))
        (λ o.
          locate s (lookup_location o.uniform_locations (hash_str name))
            (LocationCall.get_uniform_location program name) answer (hash_str name)
            (λ p. record p {
              uniform_locations = insert_location p.uniform_locations (hash_str name) answer;
            })
            program)

  -- `caching_client_glGetActiveAttrib`, with the length that the driver wrote.
  unfoldable pub gl_get_active_attrib : Programs → ℕ → ℕ → ℕ → Programs × List (LocationCall Name)
  gl_get_active_attrib s program index length =
      ((if length == 0 then asks s else s), LocationCall.get_active_attrib program index ∷ [])

  -- `caching_client_glGetActiveUniform`
  unfoldable pub gl_get_active_uniform : Programs → ℕ → ℕ → ℕ → Programs × List (LocationCall Name)
  gl_get_active_uniform s program index length =
      ((if length == 0 then asks s else s), LocationCall.get_active_uniform program index ∷ [])
