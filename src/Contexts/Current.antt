-- ===== src/Contexts/Current.antt =====
-- eglMakeCurrent of src/client/caching_client.c: what is current after it.
use gpu_proxy.Base.{
  ℕ, ◌≡◌, ◌≢◌, refl, ap, sym, ◌∙◌, Option, none, some, Bool, true, List, ◌==◌, arith, inl, inr,
  Bool-cases, ◌⊎◌,
}
use mathlib.Core.Path.{subst}
use gpu_proxy.Contexts.{
  EglState, Client, Outcome, done, ◌>>=◌, state_at, at_state, switch_to, deactivate, drop_surfaces,
  make_current,
}
use gpu_proxy.Contexts.Entries.{
  Sent, unsent, unanswered, answered, how_to_send, and_make_current, current_state,
  egl_make_current,
}
use gpu_proxy.Contexts.Lookups.{Unique, state_at-address, state_at-nonzero}
use gpu_proxy.Contexts.Switch.{
  switched-IsTarget, switched-other, IsSettled, IsCurrent, IsCurrent-at, IsTarget,
  IsTarget-IsCurrent, deactivate-IsTarget, moved, make_current-same, make_current-first,
  make_current-left,
}

-- A client after the call: its current state is the one asked for.
abbrev Made : Outcome Client → ℕ → ℕ → ℕ → ℕ → Type 0
Made r display draw read context =
    (c' : Client) × (r ≡ done c') × IsCurrent c' display draw read context × Unique c'.states

-- `_caching_client_make_current`, for a context, on a client whose current state is not about to be
-- destroyed: it returns, and the context is current with its display and surfaces.
make_current-Made :
    (a : ℕ) (c : Client) (display draw read context : ℕ)
    → IsSettled c
    → a ≢ 0
    → state_at c.states a ≡ none
    → display ≢ 0
    → context ≢ 0
    → Made (make_current a c display draw read context) display draw read context
make_current-Made a c display draw read context v a0 fresh d0 x0 =
    elim (Bool-cases (c.active_state == new_state)) [
      | inl e ↦
          let same : c.active_state ≡ new_state = ground arith in
          let t = subst (λ b. IsTarget states b display draw read context) (sym same) target in
          (
            record c { states = states },
            make_current-same a c display draw read context same,
            IsTarget-IsCurrent (record c { states = states }) display draw read context d0 x0 t,
            target.unique,
          )
      | inr e ↦
          let other : c.active_state ≢ new_state = ground arith in
          elim (v.current) [
            | inl none_yet ↦ (
              moved c states new_state,
              make_current-first a c display draw read context other none_yet,
              IsTarget-IsCurrent (moved c states new_state) display draw read context d0 x0 target,
              target.unique,
            )
            | inr (s, at, active, dpy, ctx) ↦
                let left =
                  deactivate-IsTarget states c.active_state new_state display draw read context
                    (λ p. other (sym p)) target in
                (
                  record {
                    states = at_state deactivate states c.active_state;
                    displays = drop_surfaces display c.displays s;
                    active_state = new_state;
                  },
                  make_current-left a c display draw read context s other
                      (state_at-nonzero c.states c.active_state s v.unique at)
                      (switched-other a c.states v.unique a0 fresh display draw read context d0 x0
                        c.active_state s at other)
                      (state_at-address c.states c.active_state s at) dpy ctx,
                  IsTarget-IsCurrent _ display draw read context d0 x0 left,
                  left.unique,
                )
          ]
    ]
  where
    new_state : ℕ
    new_state = (switch_to a c.states display draw read context).0

    states : List EglState
    states = (switch_to a c.states display draw read context).1

    target : IsTarget states new_state display draw read context
    target = switched-IsTarget a c.states v.unique a0 fresh display draw read context d0 x0

-- What eglMakeCurrent has done when it answers true.
abbrev pub Answers : Outcome (Bool × Sent × Client) → ℕ → ℕ → ℕ → ℕ → Type 0
Answers r display draw read context =
    (sent : Sent) × (c' : Client) × (r ≡ done (true, sent, c'))
    × IsCurrent c' display draw read context
    × Unique c'.states

Made-Answers :
    (sent : Sent) (r : Outcome Client) (display draw read context : ℕ)
    → Made r display draw read context
    → Answers (r >>= λ c'. done (true, sent, c')) display draw read context
Made-Answers sent r display draw read context (c', e, current, u) =
    (sent, c', ap (λ q. q >>= λ c''. done (true, sent, c'')) e, current, u)

and_make_current-Answers :
    (sent : Sent) (a : ℕ) (c : Client) (display draw read context : ℕ)
    → sent ≢ unsent
    → Made (make_current a c display draw read context) display draw read context
    → Answers (and_make_current a c display draw read context sent true) display draw read context
and_make_current-Answers unsent a c display draw read context n m = absurd (n refl)
and_make_current-Answers unanswered a c display draw read context n m =
    Made-Answers unanswered _ display draw read context m
and_make_current-Answers answered a c display draw read context n m =
    Made-Answers answered _ display draw read context m

-- Nothing is sent for a context only if all of it is current already.
how_to_send-unsent :
    (c : Client) (s : EglState) (display draw read context : ℕ)
    → how_to_send c (some s) display draw read context ≡ unsent
    → (s.display ≡ display) × (s.context ≡ context) × (s.drawable ≡ draw) × (s.readable ≡ read)
how_to_send-unsent c s display draw read context e = ground arith

Sent-cases : (s : Sent) → (s ≡ unsent) ⊎ (s ≢ unsent)
Sent-cases unsent = inl refl
Sent-cases unanswered = inr (λ e. ground arith)
Sent-cases answered = inr (λ e. ground arith)

egl_make_current-with :
    (a : ℕ) (c : Client) (display draw read context : ℕ) (o : Option EglState)
    → current_state c ≡ done o
    → egl_make_current a c display draw read context true
      ≡ and_make_current a c display draw read context
          (how_to_send c o display draw read context)
          true
unfolding egl_make_current
egl_make_current-with a c display draw read context o e =
    ap
      (λ q. q >>= λ s.
        and_make_current a c display draw read context (how_to_send c s display draw read context)
          true)
      e

-- eglMakeCurrent for a context: on a client whose pointers are in order and whose current state is
-- not about to be destroyed, and with a driver that agrees where it is asked, the call returns true,
-- by whichever of its ways, and afterwards the display, the context and both surfaces that the client
-- reports are those of the call, and the addresses of its states are in order.
pub egl_make_current-IsCurrent :
    (a : ℕ) (c : Client) (display draw read context : ℕ)
    → IsSettled c
    → a ≢ 0
    → state_at c.states a ≡ none
    → display ≢ 0
    → context ≢ 0
    → Answers (egl_make_current a c display draw read context true) display draw read context
egl_make_current-IsCurrent a c display draw read context v a0 fresh d0 x0 = elim (v.current) [
  | inl none_yet ↦
      subst (λ r. Answers r display draw read context)
        (sym (
          egl_make_current-with a c display draw read context none (ground arith)
          ∙ ap (λ w. and_make_current a c display draw read context w true) {y = answered}
              (ground arith)))
        (Made-Answers answered _ display draw read context made)
  | inr (s, at, active, dpy, ctx) ↦
      let nonzero = state_at-nonzero c.states c.active_state s v.unique at in
      let entered = egl_make_current-with a c display draw read context (some s) (ground arith) in
      elim (Sent-cases (how_to_send c (some s) display draw read context)) [
        | inl e ↦
            let (same_display, same_context, same_draw, same_read) =
              how_to_send-unsent c s display draw read context e in
            let seen =
              IsCurrent-at c s nonzero at (λ q. d0 (sym same_display ∙ q))
                (λ q. x0 (sym same_context ∙ q)) in
            (
              unsent,
              c,
              entered ∙ ap (λ w. and_make_current a c display draw read context w true) e,
              record {
                display_lem = seen.display_lem ∙ ap done same_display;
                context_lem = seen.context_lem ∙ ap done same_context;
                draw_lem = seen.draw_lem ∙ ap done same_draw;
                read_lem = seen.read_lem ∙ ap done same_read;
              },
              v.unique,
            )
        | inr n ↦
            subst (λ r. Answers r display draw read context) (sym entered)
              (and_make_current-Answers _ a c display draw read context n made)
      ]
]
  where
    made : Made (make_current a c display draw read context) display draw read context
    made = make_current-Made a c display draw read context v a0 fresh d0 x0
