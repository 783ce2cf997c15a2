-- ===== src/Programs/Told.antt =====
-- src/client/caching_client.c: a uniform is sent for a location that the application was told.
use gpu_proxy.Base.{
  ℕ, ◌≡◌, refl, ap, sym, ◌∙◌, Option, none, some, Bool, false, List, [], ◌∷◌, ◌==◌, arith, inl, inr,
  Bool-cases,
}
use mathlib.Core.Path.{subst}
use gpu_proxy.Gl.Enums
use gpu_proxy.Names.{alloc_names}
use gpu_proxy.Programs.{
  ShaderObject, Programs, lookup_object, program_new, shader_new, gl_create_program,
  gl_create_shader,
}
use gpu_proxy.Programs.Locations.{
  lookup_location, LocationReply, LocationCall, locate, insert_location, has_location, minus_one,
  gl_get_attrib_location, gl_get_uniform_location,
}
use gpu_proxy.Programs.Uniforms.{UniformCall, synthesize_uniform_error, uniform_failed}
use gpu_proxy.Programs.Lifetimes.{lookup-id}
use gpu_proxy.Programs.Learned.{
  Action, Told, is_told, after_creation, after_answer, with_answer, perform, perform_all, tell,
  tell_all, IsLearned, AreLearned, elim_both, if_both, lookup-IsLearned, weaken-AreLearned,
  change-AreLearned, told_more, insert-IsLearned, attrib-IsLearned,
}
use gpu_proxy.Programs.Kept.{created-AreLearned, IsGood, delete-IsGood, use-IsGood, link-IsGood}

module _ {Name : Type 0} (hash_str : Name → ℕ) where
  abbrev Reply : Type 0
  Reply = Option (LocationReply hash_str)

  IsKept : Told → Programs → Reply → Type 0
  IsKept told s r = AreLearned told (after_answer s r).objects

  IsAnswered : Told → Programs → ℕ → Reply → Type 0
  IsAnswered told s p r = AreLearned (with_answer told p r) (after_answer s r).objects

  kept :
      (told : Told) (s : Programs) (r : Reply)
      → AreLearned told (after_answer s r).objects
      → IsKept told s r
  unfolding IsKept
  kept told s r a = a

  answered :
      (told : Told) (s : Programs) (p : ℕ) (r : Reply)
      → AreLearned (with_answer told p r) (after_answer s r).objects
      → IsAnswered told s p r
  unfolding IsAnswered
  answered told s p r a = a

  told_more_all :
      (told : Told) (x : ℕ × ℕ) (l : List ShaderObject)
      → AreLearned told l
      → AreLearned (x ∷ told) l
  told_more_all told x l a = weaken-AreLearned told (x ∷ told) l (told_more told x) a

  locate-IsKept :
      (told : Told) (s : Programs) (p : ℕ) (name : Name) (answer : ℕ) (c : Option ℕ)
      → AreLearned told s.objects
      → IsKept told s (
          locate hash_str s c
            (LocationCall.get_attrib_location p name)
            answer
            (hash_str name)
            (λ q. record q {
              attrib_locations = insert_location q.attrib_locations (hash_str name) answer;
            })
            p)
  locate-IsKept told s p name answer none a =
      if_both (IsKept told s) (answer == minus_one) _ _ (λ _. kept told s _ a)
        (λ _.
          if_both (IsKept told s) (hash_str name == 0) _ _ (λ _. kept told s none a)
            (λ _. kept told s _ (
              change-AreLearned _ told told s.objects p (λ o h. h)
                (λ o e h.
                  attrib-IsLearned told o
                    (insert_location o.attrib_locations (hash_str name) answer) h)
                a)))
  locate-IsKept told s p name answer (some l) a = kept told s _ a

  get_attrib-IsKept :
      (told : Told) (s : Programs) (p : ℕ) (name : Name) (answer : ℕ)
      → AreLearned told s.objects
      → IsKept told s (gl_get_attrib_location hash_str s p name answer)
  unfolding gl_get_attrib_location
  get_attrib-IsKept told s p name answer a =
      elim_both (IsKept told s) (lookup_object s.objects p) _ _ (λ _. kept told s _ a)
        (λ o _.
          if_both (IsKept told s) o.is_program _ _
            (λ _.
              locate-IsKept told s p name answer
                (lookup_location o.attrib_locations (hash_str name)) a)
            (λ _. kept told s _ a))

  locate-IsAnswered :
      (told : Told) (s : Programs) (p : ℕ) (name : Name) (answer : ℕ) (c : Option ℕ)
      → AreLearned told s.objects
      → IsAnswered told s p (
          locate hash_str s c
            (LocationCall.get_uniform_location p name)
            answer
            (hash_str name)
            (λ q. record q {
              uniform_locations = insert_location q.uniform_locations (hash_str name) answer;
            })
            p)
  locate-IsAnswered told s p name answer none a =
      if_both (IsAnswered told s p) (answer == minus_one) _ _
        (λ _. answered told s p _ (told_more_all told (p, minus_one) s.objects a))
        (λ _.
          if_both (IsAnswered told s p) (hash_str name == 0) _ _ (λ _. answered told s p none a)
            (λ _. answered told s p _ (
              change-AreLearned _ told ((p, answer) ∷ told) s.objects p (told_more told (p, answer))
                (λ o e h. insert-IsLearned told o p (hash_str name) answer e h) a)))
  locate-IsAnswered told s p name answer (some l) a =
      answered told s p _ (told_more_all told (p, l) s.objects a)

  get_uniform-IsAnswered :
      (told : Told) (s : Programs) (p : ℕ) (name : Name) (answer : ℕ)
      → AreLearned told s.objects
      → IsAnswered told s p (gl_get_uniform_location hash_str s p name answer)
  unfolding gl_get_uniform_location
  get_uniform-IsAnswered told s p name answer a =
      elim_both (IsAnswered told s p) (lookup_object s.objects p) _ _
        (λ _. answered told s p _ (told_more_all told (p, minus_one) s.objects a))
        (λ o _.
          if_both (IsAnswered told s p) o.is_program _ _
            (λ _.
              locate-IsAnswered told s p name answer
                (lookup_location o.uniform_locations (hash_str name)) a)
            (λ _. answered told s p _ (told_more_all told (p, minus_one) s.objects a)))

  -- A session's calls.
  module _ (is_valid_shader_type : ℕ → Bool) where
    abbrev then_do : Programs → Action Name → Programs
    then_do s a = perform hash_str is_valid_shader_type s a

    abbrev then_told : Programs → Told → Action Name → Told
    then_told s told a = tell hash_str is_valid_shader_type s told a

    perform-AreLearned :
        (told : Told) (s : Programs) (a : Action Name)
        → AreLearned told s.objects
        → AreLearned (then_told s told a) (then_do s a).objects
    unfolding IsGood IsKept IsAnswered gl_create_program gl_create_shader
    perform-AreLearned told s Action.create_program h =
        created-AreLearned told _ s program_new (alloc_names 1 s.names) (λ id. refl) h
    perform-AreLearned told s (Action.create_shader type) h =
        if_both (λ o. AreLearned told (after_creation s o).objects) (is_valid_shader_type type) _ _
          (λ _. created-AreLearned told _ s shader_new (alloc_names 1 s.names) (λ id. refl) h)
          (λ _. h)
    perform-AreLearned told s (Action.delete_program p) h = delete-IsGood told s p h
    perform-AreLearned told s (Action.use_program p) h = use-IsGood told s p h
    perform-AreLearned told s (Action.link_program p) h = link-IsGood told s p h
    perform-AreLearned told s (Action.get_attrib_location p name answer) h =
        get_attrib-IsKept told s p name answer h
    perform-AreLearned told s (Action.get_uniform_location p name answer) h =
        get_uniform-IsAnswered told s p name answer h

    perform_all-AreLearned :
        (told : Told) (s : Programs) (l : List (Action Name))
        → AreLearned told s.objects
        → AreLearned
            (tell_all hash_str is_valid_shader_type s told l)
            (perform_all hash_str is_valid_shader_type s l).objects
    perform_all-AreLearned told s [] h = h
    perform_all-AreLearned told s (a ∷ r) h =
        perform_all-AreLearned (then_told s told a) (then_do s a) r (perform-AreLearned told s a h)

learned_only :
    (told : Told) (o : ShaderObject) (l : ℕ)
    → IsLearned told o
    → is_told told o.id l ≡ false
    → has_location o.uniform_locations l ≡ false
unfolding IsLearned
learned_only told o l h n = elim (Bool-cases (has_location o.uniform_locations l)) [
  | inl e ↦ absurd (ground (arith, h l e))
  | inr e ↦ e
]

refused_location :
    (told : Told) (s : Programs) (l : ℕ) (call : UniformCall)
    → AreLearned told s.objects
    → is_told told s.current_program l ≡ false
    → synthesize_uniform_error s l call ≡ uniform_failed s Enums.invalid_operation
refused_location told s l call a h =
    elim_both (λ r. r ≡ uniform_failed s Enums.invalid_operation)
      (lookup_object s.objects s.current_program) _ _ (λ _. refl)
      (λ o e. ground (
        arith,
        learned_only told o l (lookup-IsLearned told s.objects s.current_program o a e)
            (ap (λ p. is_told told p l) (lookup-id s.objects s.current_program o e) ∙ h),
      ))

-- A uniform is sent on only for a location that the application was told: after any calls that create,
-- delete, use and link programs and ask for locations, from a state with no program in the cache, with
-- any answers of the driver, a call for a uniform whose location was never the answer of
-- glGetUniformLocation for the name of the program that is current is an invalid operation, and
-- nothing is sent.
pub uniform_was_told :
    {Name : Type 0} (hash_str : Name → ℕ) (is_valid_shader_type : ℕ → Bool) (s : Programs)
    (session : List (Action Name)) (l : ℕ) (call : UniformCall)
    → s.objects ≡ []
    → is_told
        (tell_all hash_str is_valid_shader_type s [] session)
        (perform_all hash_str is_valid_shader_type s session).current_program
        l
      ≡ false
    → synthesize_uniform_error (perform_all hash_str is_valid_shader_type s session) l call
      ≡ uniform_failed (perform_all hash_str is_valid_shader_type s session) Enums.invalid_operation
unfolding AreLearned
uniform_was_told hash_str is_valid_shader_type s session l call empty new =
    refused_location (tell_all hash_str is_valid_shader_type s [] session)
      (perform_all hash_str is_valid_shader_type s session) l call
      (perform_all-AreLearned hash_str is_valid_shader_type [] s session
        (subst (AreLearned []) (sym empty) tt))
      new
