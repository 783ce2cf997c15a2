-- ===== src/Programs/Kept.antt =====
-- src/client/caching_client.c: creating, deleting, using and linking programs keeps that their
-- locations were told.
use gpu_proxy.Base.{ℕ, ◌≡◌, Option, none, some, true, List, [], ◌∷◌, ◌==◌, if◌then◌else◌}
use gpu_proxy.Gl.Enums
use gpu_proxy.Names.{NameHandler}
use gpu_proxy.Programs.{
  created, leave_program, program_error, ProgramCall, ProgramReply, ShaderObject, Programs,
  lookup_object, change_object, destroy_object, gl_delete_program, gl_use_program, gl_link_program,
}
use gpu_proxy.Programs.Learned.{
  Told, after_creation, AreLearned, elim_both, if_both, new-IsLearned, append-AreLearned,
  destroy-AreLearned, change-AreLearned, marked-IsLearned,
}

pub created-AreLearned :
    (told : Told) (call : ℕ → ProgramCall) (s : Programs) (make : ℕ → ShaderObject)
    (o : Option (List ℕ × NameHandler))
    → ((id : ℕ) → (make id).uniform_locations ≡ [])
    → AreLearned told s.objects
    → AreLearned told (after_creation s (created call s make o)).objects
created-AreLearned told call s make none new a = a
created-AreLearned told call s make (some ([], h)) new a = a
created-AreLearned told call s make (some (name ∷ r, h)) new a =
    if_both (λ (t : Programs). AreLearned told t.objects) (name == 0) _ _ (λ _. a)
      (λ _.
        append-AreLearned told s.objects (make name) a
          (new-IsLearned told name (make name) (new name)))

-- A reply whose objects are so.
unfoldable pub IsGood : Told → ProgramReply → Type 0
IsGood told r = AreLearned told r.0.objects

pub good : (told : Told) (r : ProgramReply) → AreLearned told r.0.objects → IsGood told r
unfolding IsGood
good told r a = a

pub delete-IsGood :
    (told : Told) (s : Programs) (p : ℕ)
    → AreLearned told s.objects
    → IsGood told (gl_delete_program s p)
unfolding gl_delete_program
delete-IsGood told s p a =
    elim_both (IsGood told) (lookup_object s.objects p) _ _ (λ _. good told _ a)
      (λ o _. good told _ (
        if_both (AreLearned told) (o.id == s.current_program)
          (change_object (λ p. record p { mark_for_deletion = true }) s.objects p)
          (destroy_object s.objects p)
          (λ _.
            change-AreLearned (λ p. record p { mark_for_deletion = true }) told told s.objects p
              (λ t h. h) (λ t _ h. marked-IsLearned told t h) a)
          (λ _. destroy-AreLearned told s.objects p a)))

pub leave-AreLearned :
    (told : Told) (o : Option ShaderObject) (l : List ShaderObject) (p : ℕ)
    → AreLearned told l
    → AreLearned told (leave_program o l p)
leave-AreLearned told none l p a = a
leave-AreLearned told (some o) l p a =
    if_both (AreLearned told) o.mark_for_deletion _ _ (λ _. destroy-AreLearned told l p a) (λ _. a)

pub use-IsGood :
    (told : Told) (s : Programs) (p : ℕ)
    → AreLearned told s.objects
    → IsGood told (gl_use_program s p)
unfolding gl_use_program
use-IsGood told s p a =
    if_both (IsGood told) (s.current_program == p) _ _ (λ _. good told _ a)
      (λ _.
        elim_both (IsGood told)
          (if p == 0 then none else program_error (lookup_object s.objects p) Enums.invalid_value) _
          _
          (λ _. good told _ (
            leave-AreLearned told (lookup_object s.objects s.current_program) s.objects
              s.current_program a))
          (λ t _. good told _ a))

pub link-IsGood :
    (told : Told) (s : Programs) (p : ℕ)
    → AreLearned told s.objects
    → IsGood told (gl_link_program s p)
unfolding gl_link_program
link-IsGood told s p a =
    elim_both (IsGood told) (program_error (lookup_object s.objects p) Enums.invalid_value) _ _
      (λ _. good told _ a) (λ t _. good told _ a)
