-- ===== src/Contexts/Switch.antt =====
-- `_caching_client_make_current` of src/client/caching_client.c: the state that is switched to, and the
-- one that is left.
use gpu_proxy.Base.{
  ℕ, ◌≡◌, ◌≢◌, refl, ap, sym, ◌∙◌, none, some, true, false, List, [], ◌∷◌, ◌++◌, arith, inl, inr,
  Option-cases, ◌⊎◌,
}
use mathlib.Core.Path.{subst}
use gpu_proxy.Contexts.{
  EglState, Client, done, state_at, at_state, egl_state_new, find_state, get_or_create_state,
  switch_to, deactivate, drop_surfaces, make_current,
}
use gpu_proxy.Contexts.Entries.{
  egl_get_current_context, egl_get_current_display, egl_get_current_surface,
}
use gpu_proxy.Contexts.Lookups.{
  Unique, state_at-at_state, state_at-at_state_other, at_state-Unique, state_at-append,
  state_at-append_none, append-Unique, find_state-some,
}

-- The pointers of a client are in order: the states have their own addresses, the current one is
-- among them, active, and not waiting to be destroyed.
pub record IsSettled (c : Client) : Type 0 where
  pub unique : Unique c.states
  pub current :
      (c.active_state ≡ 0)
      ⊎ ((s : EglState) × (state_at c.states c.active_state ≡ some s)
          × (s.active ≡ true)
          × (s.destroy_dpy ≡ false)
          × (s.destroy_ctx ≡ false))

-- The state is current with this display, context and surfaces.
pub record IsCurrent (c : Client) (display draw read context : ℕ) : Type 0 where
  pub display_lem : egl_get_current_display c ≡ done display
  pub context_lem : egl_get_current_context c ≡ done context
  pub draw_lem : egl_get_current_surface c true ≡ done draw
  pub read_lem : egl_get_current_surface c false ≡ done read

pub IsCurrent-at :
    (c : Client) (s : EglState)
    → c.active_state ≢ 0
    → state_at c.states c.active_state ≡ some s
    → s.display ≢ 0
    → s.context ≢ 0
    → IsCurrent c s.display s.drawable s.readable s.context
unfolding egl_get_current_context egl_get_current_display egl_get_current_surface
IsCurrent-at c s n e d x = ground arith

abbrev set_surfaces : ℕ → ℕ → EglState → EglState
set_surfaces draw read s = record s { drawable = draw; readable = read; active = true }

-- The state that is switched to.
pub record IsTarget (l : List EglState) (new_state display draw read context : ℕ) : Type 0 where
  pub unique : Unique l
  pub nonzero : new_state ≢ 0
  pub target : EglState
  pub found : state_at l new_state ≡ some target
  pub display_lem : target.display ≡ display
  pub context_lem : target.context ≡ context
  pub draw_lem : target.drawable ≡ draw
  pub read_lem : target.readable ≡ read
  pub active_lem : target.active ≡ true

module _ (a : ℕ) (l : List EglState) (u : Unique l) (a0 : a ≢ 0) (fresh : state_at l a ≡ none)
    (display draw read context : ℕ) (d0 : display ≢ 0) (x0 : context ≢ 0) where
  switch_to-some :
      (s : EglState)
      → find_state l display context ≡ some s
      → (switch_to a l display draw read context
          ≡ (s.address, at_state (set_surfaces draw read) l s.address))
        × IsTarget
            (at_state (set_surfaces draw read) l s.address)
            s.address
            display
            draw
            read
            context
  unfolding get_or_create_state
  switch_to-some s e =
      let (at, d, x, n) = find_state-some l display context s u e in
      (
        ground arith,
        record {
          unique = at_state-Unique (set_surfaces draw read) l s.address (λ t. refl) u;
          nonzero = n;
          target = set_surfaces draw read s;
          found = state_at-at_state (set_surfaces draw read) l s.address s (λ t. refl) at;
          display_lem = d;
          context_lem = x;
          draw_lem = refl;
          read_lem = refl;
          active_lem = refl;
        },
      )

  abbrev appended_states : List EglState
  appended_states = l ++ (egl_state_new a display context ∷ [])

  appended_states-at : state_at appended_states a ≡ some (egl_state_new a display context)
  appended_states-at =
      state_at-append_none l (egl_state_new a display context ∷ []) a fresh ∙ ground arith

  switch_to-none :
      find_state l display context ≡ none
      → (switch_to a l display draw read context
          ≡ (a, at_state (set_surfaces draw read) appended_states a))
        × IsTarget (at_state (set_surfaces draw read) appended_states a) a display draw read context
  unfolding get_or_create_state
  switch_to-none e = (
    ground arith,
    record {
      unique =
          at_state-Unique (set_surfaces draw read) appended_states a (λ t. refl)
            (append-Unique l (egl_state_new a display context) a0 fresh u);
      nonzero = a0;
      target = set_surfaces draw read (egl_state_new a display context);
      found =
          state_at-at_state (set_surfaces draw read) appended_states a _ (λ t. refl)
            appended_states-at;
      display_lem = refl;
      context_lem = refl;
      draw_lem = refl;
      read_lem = refl;
      active_lem = refl;
    },
  )

  abbrev switched : ℕ × List EglState
  switched = switch_to a l display draw read context

  pub switched-IsTarget : IsTarget switched.1 switched.0 display draw read context
  switched-IsTarget = elim (Option-cases (find_state l display context)) [
    | inl e ↦
        let (p, t) = switch_to-none e in
        subst (λ q. IsTarget q.1 q.0 display draw read context) (sym p) t
    | inr (s, e) ↦
        let (p, t) = switch_to-some s e in
        subst (λ q. IsTarget q.1 q.0 display draw read context) (sym p) t
  ]

  pub switched-other :
      (b : ℕ) (s : EglState)
      → state_at l b ≡ some s
      → b ≢ switched.0
      → state_at switched.1 b ≡ some s
  switched-other b s at n = elim (Option-cases (find_state l display context)) [
    | inl e ↦
        let (p, t) = switch_to-none e in
        let n' : b ≢ a = λ q. n (q ∙ sym (ap (λ (r : ℕ × List EglState). r.0) p)) in
        subst (λ (q : ℕ × List EglState). state_at q.1 b ≡ some s) (sym p)
          (state_at-at_state_other (set_surfaces draw read) appended_states a b (λ v. refl) n'
            ∙ state_at-append l (egl_state_new a display context ∷ []) b s at)
    | inr (v, e) ↦
        let (p, t) = switch_to-some v e in
        let n' : b ≢ v.address = λ q. n (q ∙ sym (ap (λ (r : ℕ × List EglState). r.0) p)) in
        subst (λ (q : ℕ × List EglState). state_at q.1 b ≡ some s) (sym p)
          (state_at-at_state_other (set_surfaces draw read) l v.address b (λ w. refl) n' ∙ at)
  ]

-- A state whose lists and pointer are these, if its current state is the one switched to.
pub IsTarget-IsCurrent :
    (c : Client) (display draw read context : ℕ)
    → display ≢ 0
    → context ≢ 0
    → IsTarget c.states c.active_state display draw read context
    → IsCurrent c display draw read context
IsTarget-IsCurrent c display draw read context d0 x0 t =
    let seen =
      IsCurrent-at c t.target t.nonzero t.found (λ e. d0 (sym t.display_lem ∙ e))
        (λ e. x0 (sym t.context_lem ∙ e)) in
    record {
      display_lem = seen.display_lem ∙ ap done t.display_lem;
      context_lem = seen.context_lem ∙ ap done t.context_lem;
      draw_lem = seen.draw_lem ∙ ap done t.draw_lem;
      read_lem = seen.read_lem ∙ ap done t.read_lem;
    }

-- The old state is left, and the new one stays where it was.
pub deactivate-IsTarget :
    (l : List EglState) (old new_state display draw read context : ℕ)
    → new_state ≢ old
    → IsTarget l new_state display draw read context
    → IsTarget (at_state deactivate l old) new_state display draw read context
deactivate-IsTarget l old new_state display draw read context n t = record {
  unique = at_state-Unique deactivate l old (λ s. refl) t.unique;
  nonzero = t.nonzero;
  target = t.target;
  found = state_at-at_state_other deactivate l old new_state (λ s. refl) n ∙ t.found;
  display_lem = t.display_lem;
  context_lem = t.context_lem;
  draw_lem = t.draw_lem;
  read_lem = t.read_lem;
  active_lem = t.active_lem;
}

-- The client after the call, without pending destruction.
abbrev pub moved : Client → List EglState → ℕ → Client
moved c states new_state = record c { states = states; active_state = new_state }

pub make_current-same :
    (a : ℕ) (c : Client) (display draw read context : ℕ)
    → c.active_state ≡ (switch_to a c.states display draw read context).0
    → make_current a c display draw read context
      ≡ done (record c { states = (switch_to a c.states display draw read context).1 })
unfolding make_current
make_current-same a c display draw read context e = ground arith

pub make_current-first :
    (a : ℕ) (c : Client) (display draw read context : ℕ)
    → c.active_state ≢ (switch_to a c.states display draw read context).0
    → c.active_state ≡ 0
    → make_current a c display draw read context
      ≡ done (
          moved c
            (switch_to a c.states display draw read context).1
            (switch_to a c.states display draw read context).0)
unfolding make_current
make_current-first a c display draw read context n e = ground arith

pub make_current-left :
    (a : ℕ) (c : Client) (display draw read context : ℕ) (s : EglState)
    → c.active_state ≢ (switch_to a c.states display draw read context).0
    → c.active_state ≢ 0
    → state_at (switch_to a c.states display draw read context).1 c.active_state ≡ some s
    → s.address ≡ c.active_state
    → s.destroy_dpy ≡ false
    → s.destroy_ctx ≡ false
    → make_current a c display draw read context
      ≡ done (record {
        states =
            at_state deactivate (switch_to a c.states display draw read context).1 c.active_state;
        displays = drop_surfaces display c.displays s;
        active_state = (switch_to a c.states display draw read context).0;
      })
unfolding make_current
make_current-left a c display draw read context s n z at e dpy ctx =
    ground
      (arith, ap (λ b. at_state deactivate (switch_to a c.states display draw read context).1 b) e)
