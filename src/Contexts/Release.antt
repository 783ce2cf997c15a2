-- ===== src/Contexts/Release.antt =====
-- `_caching_client_destroy_state` of src/client/caching_client.c: it ends, and what it leaves.
use gpu_proxy.Base.{
  ℕ, zero, suc, ◌+◌, ◌%◌, ◌^◌, ◌≤◌, ◌≡◌, ◌≢◌, refl, sym, none, some, List, [], ◌∷◌, ◌==◌,
  if◌then◌else◌, arith, inl, inr, Bool-cases, Option-cases, length,
}
use mathlib.Core.Path.{subst}
use gpu_proxy.Contexts.{
  EglState, Outcome, done, dangling, no_fuel, ◌>>=◌, state_at, at_state, delete_state, less_one,
  release, release_parent, destroy_state_within, destroy_state,
}
use gpu_proxy.Contexts.Lookups.{state_at-at_state}

-- The states with a counter that is not 0.
abbrev live : List EglState → ℕ
live [] = 0
live (s ∷ r) = (if s.contexts_sharing == 0 then 0 else 1) + live r

live-le-length : (l : List EglState) → live l ≤ length l
live-le-length [] = omega arith
live-le-length (s ∷ r) = ground (arith, live-le-length r)

live-release :
    (l : List EglState) (a : ℕ) (s : EglState)
    → state_at l a ≡ some s
    → s.contexts_sharing % 2 ^ 64 ≢ 0
    → live (at_state release l a) ≤ live l
live-release [] a s e n = omega arith
live-release (t ∷ r) a s e n = ground (arith, live-release r a s)

live-release_last :
    (l : List EglState) (a : ℕ) (s : EglState)
    → state_at l a ≡ some s
    → less_one s.contexts_sharing ≡ 0
    → live (at_state release l a) + 1 ≤ live l
live-release_last [] a s e n = absurd (ground arith)
live-release_last (t ∷ r) a s e n = ground (arith, live-release_last r a s)

-- The fuel did not run out.
abbrev Ends : {A : Type 0} → Outcome A → Type 0
Ends (done a) = Unit
Ends dangling = Unit
Ends no_fuel = ⊥

Ends-bind : {A B : Type 0} (r : Outcome A) (f : A → B) → Ends r → Ends (r >>= λ a. done (f a))
Ends-bind (done a) f h = tt
Ends-bind dangling f h = tt
Ends-bind no_fuel f h = absurd h

-- A counter at 0 wraps, and the call for its state returns at once.
wrapped-Ends :
    (fuel : ℕ) (l : List EglState) (a : ℕ) (s : EglState)
    → state_at l a ≡ some s
    → less_one s.contexts_sharing ≢ 0
    → Ends (destroy_state_within (suc fuel) l a)
unfolding destroy_state_within
wrapped-Ends fuel l a s e n = ground arith

release_parent-Ends :
    (destroy : List EglState → ℕ → Outcome (List EglState)) (l : List EglState) (parent : ℕ)
    → ((p : EglState)
        → state_at l parent ≡ some p
        → Ends (destroy (at_state release l parent) parent))
    → Ends (release_parent destroy l parent)
release_parent-Ends destroy l parent h = elim (Bool-cases (parent == 0)) [
  | inl z ↦ rw z tt
  | inr n ↦ elim (Option-cases (state_at l parent)) [
    | inl e ↦ rw n (rw e tt)
    | inr (p, e) ↦ rw n (rw e (h p e))
  ]
]

destroy_state_within-none :
    (fuel : ℕ) (l : List EglState) (a : ℕ)
    → state_at l a ≡ none
    → destroy_state_within (suc fuel) l a ≡ dangling
unfolding destroy_state_within
destroy_state_within-none fuel l a e = ground arith

-- The counter stays above 0: nothing is deleted.
pub destroy_state_within-kept :
    (fuel : ℕ) (l : List EglState) (a : ℕ) (s : EglState)
    → state_at l a ≡ some s
    → less_one s.contexts_sharing ≢ 0
    → destroy_state_within (suc fuel) l a ≡ done (at_state release l a)
unfolding destroy_state_within
destroy_state_within-kept fuel l a s e n = ground arith

-- The counter comes to 0: the parent is released, and the state deleted.
pub destroy_state_within-last :
    (fuel : ℕ) (l : List EglState) (a : ℕ) (s : EglState)
    → state_at l a ≡ some s
    → less_one s.contexts_sharing ≡ 0
    → destroy_state_within (suc fuel) l a ≡ (
        release_parent (destroy_state_within fuel) (at_state release l a) s.share_context
        >>= λ left. done (delete_state left a))
unfolding destroy_state_within
destroy_state_within-last fuel l a s e n = ground arith

-- The call for the parent: with a counter that wraps, or with less to do than there was.
parent-Ends :
    (fuel : ℕ) (l : List EglState) (parent : ℕ) (p : EglState)
    → state_at l parent ≡ some p
    → live l + 2 ≤ fuel
    → (live (at_state release l parent) + 2 ≤ fuel
        → Ends (destroy_state_within fuel (at_state release l parent) parent))
    → Ends (destroy_state_within fuel (at_state release l parent) parent)
parent-Ends zero l parent p e h again = absurd (omega arith)
parent-Ends (suc fuel) l parent p e h again = elim (Bool-cases (p.contexts_sharing % 2 ^ 64 == 0)) [
  | inl z ↦
      wrapped-Ends fuel (at_state release l parent) parent (release p)
        (state_at-at_state release l parent p (λ s. refl) e) (ground arith)
  | inr n ↦ again (omega (arith, live-release l parent p e (ground arith)))
]

destroy_state_within-Ends :
    (fuel : ℕ) (l : List EglState) (a : ℕ)
    → live l + 2 ≤ fuel
    → Ends (destroy_state_within fuel l a)
destroy_state_within-Ends zero l a h = absurd (omega arith)
destroy_state_within-Ends (suc fuel) l a h = elim (Option-cases (state_at l a)) [
  | inl e ↦ subst Ends (sym (destroy_state_within-none fuel l a e)) tt
  | inr (s, e) ↦ elim (Bool-cases (less_one s.contexts_sharing == 0)) [
    | inr more ↦ subst Ends (sym (destroy_state_within-kept fuel l a s e (ground arith))) tt
    | inl last ↦ subst Ends (sym (destroy_state_within-last fuel l a s e (ground arith))) (
        Ends-bind _ (λ left. delete_state left a)
          (release_parent-Ends (destroy_state_within fuel) (at_state release l a) s.share_context
            (λ p found.
              parent-Ends fuel (at_state release l a) s.share_context p found
                (omega (arith, live-release_last l a s e (ground arith)))
                (destroy_state_within-Ends fuel
                  (at_state release (at_state release l a) s.share_context) s.share_context))))
  ]
]

Ends-ne : {A : Type 0} (r : Outcome A) → Ends r → r ≢ no_fuel
Ends-ne (done a) h = λ e. ground arith
Ends-ne dangling h = λ e. ground arith
Ends-ne no_fuel h = absurd h

-- The recursion of `_caching_client_destroy_state` along the shared contexts ends, whichever states
-- share with which, in a circle or not, and whatever their counters: it goes no deeper than there are
-- states, and two more.
pub destroy_state-ends : (l : List EglState) (a : ℕ) → destroy_state l a ≢ no_fuel
unfolding destroy_state
destroy_state-ends l a =
    Ends-ne (destroy_state_within (length l + 2) l a)
      (destroy_state_within-Ends (length l + 2) l a (omega (arith, live-le-length l)))
