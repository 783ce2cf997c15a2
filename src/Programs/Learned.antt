-- ===== src/Programs/Learned.antt =====
-- src/client/caching_client.c: the programs of a session, and the locations that its uniforms were given.
use gpu_proxy.Base.{
  ℕ, ◌≡◌, refl, Option, none, some, Bool, true, false, List, [], ◌∷◌, ◌++◌, ◌==◌, ◌||◌, ◌&&◌, arith,
  inl, inr, ◌⊎◌, Bool-cases, if◌then◌else◌,
}
use mathlib.Core.Path.{subst}
use gpu_proxy.Programs.{
  ProgramReply, ShaderObject, Programs, lookup_object, change_object, destroy_object,
  gl_create_program, gl_create_shader, gl_delete_program, gl_use_program, gl_link_program,
}
use gpu_proxy.Programs.Locations.{
  insert_location, has_location, gl_get_attrib_location, gl_get_uniform_location,
}

-- A call of a session that is about programs, with the driver's answer for a location.
pub data Action (Name : Type 0) : Type 0 where
  create_program : Action Name
  create_shader delete_program use_program link_program : ℕ → Action Name
  get_attrib_location get_uniform_location : ℕ → Name → ℕ → Action Name

-- The answers so far: the programs, and the locations that the driver gave for them.
abbrev pub Told : Type 0
Told = List (ℕ × ℕ)

abbrev pub is_told : Told → ℕ → ℕ → Bool
is_told [] p l = false
is_told ((q, m) ∷ r) p l = (q == p && m == l) || is_told r p l

-- The state after a creation, if a name was given.
abbrev pub after_creation : Programs → Option (ℕ × ProgramReply) → Programs
after_creation s none = s
after_creation s (some (name, (s', calls))) = s'

-- The state after a call for a location. A call that aborts is left out.
abbrev pub after_answer : {L : Type 0} → Programs → Option (ℕ × Programs × L) → Programs
after_answer s none = s
after_answer s (some (location, s', calls)) = s'

-- The answers after it.
abbrev pub with_answer : {L : Type 0} → Told → ℕ → Option (ℕ × Programs × L) → Told
with_answer told p none = told
with_answer told p (some (location, s, calls)) = (p, location) ∷ told

module _ {Name : Type 0} (hash_str : Name → ℕ) (is_valid_shader_type : ℕ → Bool) where
  abbrev pub perform : Programs → Action Name → Programs
  perform s Action.create_program = after_creation s (gl_create_program s)
  perform s (Action.create_shader type) =
      after_creation s (gl_create_shader is_valid_shader_type s type)
  perform s (Action.delete_program p) = (gl_delete_program s p).0
  perform s (Action.use_program p) = (gl_use_program s p).0
  perform s (Action.link_program p) = (gl_link_program s p).0
  perform s (Action.get_attrib_location p name answer) =
      after_answer s (gl_get_attrib_location hash_str s p name answer)
  perform s (Action.get_uniform_location p name answer) =
      after_answer s (gl_get_uniform_location hash_str s p name answer)

  abbrev pub perform_all : Programs → List (Action Name) → Programs
  perform_all s [] = s
  perform_all s (a ∷ r) = perform_all (perform s a) r

  -- The location that a call answers to the application, with the program that it is for.
  abbrev pub tell : Programs → Told → Action Name → Told
  tell s told (Action.get_uniform_location p name answer) =
      with_answer told p (gl_get_uniform_location hash_str s p name answer)
  tell s told _ = told

  abbrev pub tell_all : Programs → Told → List (Action Name) → Told
  tell_all s told [] = told
  tell_all s told (a ∷ r) = tell_all (perform s a) (tell s told a) r

-- Every uniform location that is cached was told for the program.
unfoldable pub IsLearned : Told → ShaderObject → Type 0
IsLearned told o = (l : ℕ) → has_location o.uniform_locations l ≡ true → is_told told o.id l ≡ true

unfoldable pub AreLearned : Told → List ShaderObject → Type 0
AreLearned told [] = Unit
AreLearned told (o ∷ r) = IsLearned told o × AreLearned told r

-- A match that is a property's subject, by its branches.
pub elim_both {ℓ} :
    {A : Type ℓ} {T : Type 0} (P : A → Type 0) (o : Option T) (x : A) (k : T → A)
    → (o ≡ none → P x)
    → ((t : T) → o ≡ some t → P (k t))
    → P (elim o [ none ↦ x | some t ↦ k t ])
elim_both P none x k h g = h refl
elim_both P (some t) x k h g = g t refl

-- An if that is a property's subject, by its branches.
pub if_both {ℓ} :
    {A : Type ℓ} (P : A → Type 0) (b : Bool) (x y : A)
    → (b ≡ true → P x)
    → (b ≡ false → P y)
    → P (if b then x else y)
if_both P true x y h k = h refl
if_both P false x y h k = k refl

pub lookup-IsLearned :
    (told : Told) (l : List ShaderObject) (p : ℕ) (o : ShaderObject)
    → AreLearned told l
    → lookup_object l p ≡ some o
    → IsLearned told o
unfolding AreLearned
lookup-IsLearned told [] p o a e = absurd (ground arith)
lookup-IsLearned told (t ∷ r) p o (a, b) e = elim (Bool-cases (t.id == p)) [
  | inl h ↦ subst (IsLearned told) (is h) a
  | inr h ↦ lookup-IsLearned told r p o b (ground arith)
]
  where
    is : t.id == p ≡ true → t ≡ o
    is h = ground arith

pub new-IsLearned :
    (told : Told) (id : ℕ) (o : ShaderObject) → o.uniform_locations ≡ [] → IsLearned told o
unfolding IsLearned
new-IsLearned told id o e l h = absurd (ground (arith, e))

pub append-AreLearned :
    (told : Told) (l : List ShaderObject) (o : ShaderObject)
    → AreLearned told l
    → IsLearned told o
    → AreLearned told (l ++ (o ∷ []))
unfolding AreLearned
append-AreLearned told [] o a b = (b, tt)
append-AreLearned told (t ∷ r) o (a, c) b = (a, append-AreLearned told r o c b)

pub destroy-AreLearned :
    (told : Told) (l : List ShaderObject) (p : ℕ)
    → AreLearned told l
    → AreLearned told (destroy_object l p)
unfolding AreLearned
destroy-AreLearned told [] p a = tt
destroy-AreLearned told (t ∷ r) p (a, b) =
    if_both (AreLearned told) (t.id == p) _ _ (λ _. b) (λ _. (a, destroy-AreLearned told r p b))

pub weaken-AreLearned :
    (told told' : Told) (l : List ShaderObject)
    → ((o : ShaderObject) → IsLearned told o → IsLearned told' o)
    → AreLearned told l
    → AreLearned told' l
unfolding AreLearned
weaken-AreLearned told told' [] g a = tt
weaken-AreLearned told told' (t ∷ r) g (a, b) = (g t a, weaken-AreLearned told told' r g b)

pub change-AreLearned :
    (f : ShaderObject → ShaderObject) (told told' : Told) (l : List ShaderObject) (p : ℕ)
    → ((o : ShaderObject) → IsLearned told o → IsLearned told' o)
    → ((o : ShaderObject) → o.id ≡ p → IsLearned told o → IsLearned told' (f o))
    → AreLearned told l
    → AreLearned told' (change_object f l p)
unfolding AreLearned
change-AreLearned f told told' [] p g h a = tt
change-AreLearned f told told' (t ∷ r) p g h (a, b) =
    if_both (AreLearned told') (t.id == p) _ _
      (λ e. (h t (ground arith) a, weaken-AreLearned told told' r g b))
      (λ _. (g t a, change-AreLearned f told told' r p g h b))

pub told_more :
    (told : Told) (x : ℕ × ℕ) (o : ShaderObject) → IsLearned told o → IsLearned (x ∷ told) o
unfolding IsLearned
told_more told x o h l e = ground (arith, h l e)

pub has_location-inserted :
    (c : List (ℕ × ℕ)) (k v l : ℕ)
    → has_location (insert_location c k v) l ≡ true
    → (l ≡ v) ⊎ (has_location c l ≡ true)
has_location-inserted [] k v l h = ground arith
has_location-inserted ((j, w) ∷ r) k v l h = ground (arith, has_location-inserted r k v l)

pub insert-IsLearned :
    (told : Told) (o : ShaderObject) (p k v : ℕ)
    → o.id ≡ p
    → IsLearned told o
    → IsLearned
        ((p, v) ∷ told)
        (record o { uniform_locations = insert_location o.uniform_locations k v })
unfolding IsLearned
insert-IsLearned told o p k v is h l e = elim (has_location-inserted o.uniform_locations k v l e) [
  | inl same ↦ ground arith
  | inr old ↦ ground (arith, h l old)
]

pub marked-IsLearned :
    (told : Told) (o : ShaderObject)
    → IsLearned told o
    → IsLearned told (record o { mark_for_deletion = true })
unfolding IsLearned
marked-IsLearned told o h = h

pub attrib-IsLearned :
    (told : Told) (o : ShaderObject) (c : List (ℕ × ℕ))
    → IsLearned told o
    → IsLearned told (record o { attrib_locations = c })
unfolding IsLearned
attrib-IsLearned told o c h = h
