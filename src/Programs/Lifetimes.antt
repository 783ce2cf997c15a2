-- ===== src/Programs/Lifetimes.antt =====
-- src/client/caching_client.c: how long a deleted program stays in the cache.
use gpu_proxy.Base.{
  ℕ, ◌≡◌, ◌≢◌, refl, ap, ◌∙◌, none, some, true, List, [], ◌∷◌, ◌==◌, arith, inl, inr, Bool-cases,
}
use gpu_proxy.Programs.{
  ShaderObject, Programs, lookup_object, destroy_object, change_object, gl_delete_program,
  gl_use_program,
}

-- Every name once.
unfoldable pub NamesOnce : List ShaderObject → Type 0
NamesOnce [] = Unit
NamesOnce (o ∷ r) = (lookup_object r o.id ≡ none) × NamesOnce r

abbrev marked : ShaderObject → ShaderObject
marked o = record o { mark_for_deletion = true }

-- A change of an object that keeps its name.
module _ (f : ShaderObject → ShaderObject) (keeps : (o : ShaderObject) → (f o).id ≡ o.id) where
  pub lookup-change :
      (l : List ShaderObject) (p : ℕ) (o : ShaderObject)
      → lookup_object l p ≡ some o
      → lookup_object (change_object f l p) p ≡ some (f o)
  lookup-change [] p o e = absurd (ground arith)
  lookup-change (t ∷ r) p o e = ground (arith, lookup-change r p o, keeps t)

  lookup-change_other :
      (l : List ShaderObject) (p q : ℕ)
      → q ≢ p
      → lookup_object (change_object f l p) q ≡ lookup_object l q
  lookup-change_other [] p q n = refl
  lookup-change_other (t ∷ r) p q n = ground (arith, lookup-change_other r p q n, keeps t)

lookup-destroy_other :
    (l : List ShaderObject) (p q : ℕ)
    → q ≢ p
    → lookup_object (destroy_object l p) q ≡ lookup_object l q
lookup-destroy_other [] p q n = refl
lookup-destroy_other (t ∷ r) p q n = ground (arith, lookup-destroy_other r p q n)

-- The list with one object changed has the name once, and without it not at all.
lookup-destroyed :
    (l : List ShaderObject) (p : ℕ)
    → NamesOnce l
    → lookup_object (destroy_object (change_object marked l p) p) p ≡ none
unfolding NamesOnce
lookup-destroyed [] p u = refl
lookup-destroyed (t ∷ r) p (fresh, u) = elim (Bool-cases (t.id == p)) [
  | inl same ↦ let is : t.id ≡ p = ground arith in ground (arith, ap (lookup_object r) is, fresh)
  | inr other ↦ ground (arith, lookup-destroyed r p u)
]

pub lookup-id :
    (l : List ShaderObject) (p : ℕ) (o : ShaderObject) → lookup_object l p ≡ some o → o.id ≡ p
lookup-id [] p o e = absurd (ground arith)
lookup-id (t ∷ r) p o e = ground (arith, lookup-id r p o)

delete-current :
    (s : Programs) (p : ℕ) (o : ShaderObject)
    → s.current_program ≡ p
    → lookup_object s.objects p ≡ some o
    → (gl_delete_program s p).0 ≡ record s { objects = change_object marked s.objects p }
unfolding gl_delete_program
delete-current s p o current e = ground (arith, lookup-id s.objects p o e)

use-marked :
    (s : Programs) (p q : ℕ) (o r : ShaderObject)
    → s.current_program ≡ p
    → q ≢ p
    → lookup_object s.objects q ≡ some r
    → r.is_program ≡ true
    → lookup_object s.objects p ≡ some (marked o)
    → (gl_use_program s q).0
      ≡ record s { objects = destroy_object s.objects p; current_program = q }
unfolding gl_use_program
use-marked s p q o r current n other is_program e = ground arith

-- The current program outlives its deletion: after glDeleteProgram it is still in the cache, marked,
-- and once glUseProgram has made another cached program current it is gone, while the other one is as
-- before and current. Every name is in the cache once.
pub deleted_program_goes :
    (s : Programs) (p q : ℕ) (o r : ShaderObject)
    → NamesOnce s.objects
    → s.current_program ≡ p
    → lookup_object s.objects p ≡ some o
    → q ≢ p
    → lookup_object s.objects q ≡ some r
    → r.is_program ≡ true
    → (lookup_object (gl_delete_program s p).0.objects p
        ≡ some (record o { mark_for_deletion = true }))
      × (lookup_object (gl_use_program (gl_delete_program s p).0 q).0.objects p ≡ none)
      × (lookup_object (gl_use_program (gl_delete_program s p).0 q).0.objects q ≡ some r)
      × ((gl_use_program (gl_delete_program s p).0 q).0.current_program ≡ q)
deleted_program_goes s p q o r once current e n other is_program =
    let deleted = delete-current s p o current e in
    let left = record s { objects = change_object marked s.objects p } in
    let found = lookup-change marked (λ t. refl) s.objects p o e in
    let kept = lookup-change_other marked (λ t. refl) s.objects p q n ∙ other in
    let used =
      ap (λ t. (gl_use_program t q).0) deleted
      ∙ use-marked left p q o r current n kept is_program found in
    (
      ap (λ (t : Programs). lookup_object t.objects p) deleted ∙ found,
      ap (λ (t : Programs). lookup_object t.objects p) used ∙ lookup-destroyed s.objects p once,
      ap (λ (t : Programs). lookup_object t.objects q) used
          ∙ lookup-destroy_other left.objects p q n
          ∙ kept,
      ap (λ (t : Programs). t.current_program) used,
    )
