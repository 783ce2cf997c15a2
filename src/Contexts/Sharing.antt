-- ===== src/Contexts/Sharing.antt =====
-- Contexts that share, in src/client/caching_client.c: which states go when a context is destroyed.
use gpu_proxy.Base.{
  ℕ, suc, ◌+◌, ◌-◌, ◌^◌, ◌≡◌, ◌≢◌, refl, ap, ◌∙◌, none, some, true, false, List, [], ◌∷◌, ◌==◌,
  arith, inl, inr, Bool-cases, ◌&&◌, length,
}
use gpu_proxy.Displays.{delete_first_entry, cached_gl_context_destroy}
use gpu_proxy.Contexts.{
  EglState, Client, done, ◌>>=◌, state_at, at_state, delete_state, less_one, release,
  release_parent, destroy_state_within, destroy_state, find_state,
}
use gpu_proxy.Contexts.Entries.{
  egl_get_display, egl_create_surface, egl_create_context, egl_destroy_surface, egl_release_thread,
  egl_destroy_context, egl_terminate,
}
use gpu_proxy.Contexts.Lookups.{Unique, state_at-at_state_other, at_state-Unique, find_state-some}
use gpu_proxy.Contexts.Release.{destroy_state_within-kept, destroy_state_within-last}

state_at-delete_other :
    (l : List EglState) (a b : ℕ) → b ≢ a → state_at (delete_state l a) b ≡ state_at l b
state_at-delete_other [] a b n = refl
state_at-delete_other (t ∷ r) a b n = ground (arith, state_at-delete_other r a b n)

state_at-delete : (l : List EglState) (a : ℕ) → Unique l → state_at (delete_state l a) a ≡ none
state_at-delete [] a u = refl
state_at-delete (t ∷ r) a u = elim (Bool-cases (t.address == a)) [
  | inl same ↦ ground arith
  | inr other ↦ rw (other, delete_first_entry) (rw other (state_at-delete r a u.2))
]

-- A change that leaves display and context alone is found in place of the state.
find_state-at_state :
    (f : EglState → EglState) (l : List EglState) (display context : ℕ) (s : EglState)
    → Unique l
    → ((t : EglState) → ((f t).display ≡ t.display) × ((f t).context ≡ t.context))
    → find_state l display context ≡ some s
    → find_state (at_state f l s.address) display context ≡ some (f s)
unfolding find_state
find_state-at_state f [] display context s u k e = absurd (ground arith)
find_state-at_state f (t ∷ r) display context s u k e =
    elim (Bool-cases (t.context == context && t.display == display)) [
      | inl same ↦ ground (arith, k t)
      | inr other ↦
          let e' : find_state r display context ≡ some s = ground arith in
          let found = find_state-some r display context s u.2 e' in
          let n : (t.address == s.address) ≡ false = ground (arith, u.1, found.0) in
          rw n (ground (arith, find_state-at_state f r display context s u.2 k e'))
    ]

destroy_state-kept :
    (l : List EglState) (a : ℕ) (s : EglState)
    → state_at l a ≡ some s
    → less_one s.contexts_sharing ≢ 0
    → destroy_state l a ≡ done (at_state release l a)
unfolding destroy_state
destroy_state-kept l a s e n =
    ap (λ fuel. destroy_state_within fuel l a) {y = suc (length l + 1)} (omega arith)
    ∙ destroy_state_within-kept (length l + 1) l a s e n

-- A state whose counter comes to 0, and that shares with no other.
destroy_state-last :
    (l : List EglState) (a : ℕ) (s : EglState)
    → state_at l a ≡ some s
    → less_one s.contexts_sharing ≡ 0
    → s.share_context ≡ 0
    → destroy_state l a ≡ done (delete_state (at_state release l a) a)
unfolding destroy_state
destroy_state-last l a s e n root =
    ap (λ fuel. destroy_state_within fuel l a) {y = suc (length l + 1)} (omega arith)
    ∙ destroy_state_within-last (length l + 1) l a s e n
    ∙ ap
        (λ parent.
          release_parent (destroy_state_within (length l + 1)) (at_state release l a) parent
          >>= λ left. done (delete_state left a))
        root

-- eglDestroyContext, once the driver agreed, for a state that is not active.
egl_destroy_context-inactive :
    (c : Client) (display context : ℕ) (s : EglState) (left : List EglState)
    → find_state c.states display context ≡ some s
    → s.active ≡ false
    → destroy_state c.states s.address ≡ done left
    → egl_destroy_context c display context true
      ≡ done (
        true,
        record c { states = left; displays = cached_gl_context_destroy c.displays display context },
      )
unfolding egl_destroy_context
egl_destroy_context-inactive c display context s left e inactive d = ground arith

-- A context that no other shares is not removed: if its state is not active and its counter is 0, as
-- a new state's is, eglDestroyContext answers true and takes the counter to `2 ^ 64 - 1`; a context
-- of the display that the driver gives the same handle later finds the old state.
pub destroyed_context_stays :
    (c : Client) (display context : ℕ) (s : EglState)
    → Unique c.states
    → find_state c.states display context ≡ some s
    → s.active ≡ false
    → s.contexts_sharing ≡ 0
    → (c' : Client) × (egl_destroy_context c display context true ≡ done (true, c'))
      × (find_state c'.states display context ≡ some (record s { contexts_sharing = 2 ^ 64 - 1 }))
destroyed_context_stays c display context s u e inactive zero_sharing =
    let at = (find_state-some c.states display context s u e).0 in
    let kept = destroy_state-kept c.states s.address s at (ground arith) in
    (
      record c {
        states = at_state release c.states s.address;
        displays = cached_gl_context_destroy c.displays display context;
      },
      egl_destroy_context-inactive c display context s _ e inactive kept,
      find_state-at_state release c.states display context s u (λ t. (refl, refl)) e
          ∙ ap (λ n. some (record s { contexts_sharing = less_one n })) zero_sharing,
    )

-- A context that one other shares is removed while the other still points to it: if a state is not
-- active, shares with none and has the counter 1, then eglDestroyContext frees it, and a second state
-- whose `share_context` is its address stays as it is.
pub shared_context_freed :
    (c : Client) (display context k : ℕ) (s child : EglState)
    → Unique c.states
    → find_state c.states display context ≡ some s
    → s.active ≡ false
    → s.contexts_sharing ≡ 1
    → s.share_context ≡ 0
    → state_at c.states k ≡ some child
    → child.share_context ≡ s.address
    → k ≢ s.address
    → (c' : Client) × (egl_destroy_context c display context true ≡ done (true, c'))
      × (state_at c'.states k ≡ some child)
      × (state_at c'.states child.share_context ≡ none)
shared_context_freed c display context k s child u e inactive one_sharing root at_child shares n =
    let at = (find_state-some c.states display context s u e).0 in
    let last = destroy_state-last c.states s.address s at (ground arith) root in
    let released = at_state release c.states s.address in
    (
      record c {
        states = delete_state released s.address;
        displays = cached_gl_context_destroy c.displays display context;
      },
      egl_destroy_context-inactive c display context s _ e inactive last,
      state_at-delete_other released s.address k n
          ∙ state_at-at_state_other release c.states s.address k (λ t. refl) n
          ∙ at_child,
      ap (state_at (delete_state released s.address)) shares
          ∙ state_at-delete released s.address
              (at_state-Unique release c.states s.address (λ t. refl) u),
    )

-- Where the driver refuses, the client stays as it is: eglTerminate, eglReleaseThread,
-- eglDestroyContext and eglDestroySurface answer false, and a display, surface or context that was
-- not made is not entered anywhere.
pub refusal_changes_nothing :
    (a b d : ℕ) (c : Client) (display config context surface native_display share_context : ℕ)
    → (egl_terminate c display false ≡ done (false, c))
      × (egl_release_thread a c false ≡ done (false, c))
      × (egl_destroy_context c display context false ≡ done (false, c))
      × (egl_destroy_surface c display surface false ≡ (false, c))
      × (egl_get_display a c native_display 0 ≡ (0, c))
      × (egl_create_surface a c display config 0 ≡ (0, c))
      × (egl_create_context a b d c display config share_context 0 ≡ (0, c))
unfolding egl_terminate egl_release_thread egl_destroy_context egl_destroy_surface egl_get_display
    egl_create_surface egl_create_context
refusal_changes_nothing a b d c display config context surface native_display share_context =
    (refl, refl, refl, ground arith, refl, refl, refl)
