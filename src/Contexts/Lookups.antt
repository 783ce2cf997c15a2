-- ===== src/Contexts/Lookups.antt =====
-- Pointers to the states of src/client/caching_client.c: each address belongs to one state.
use gpu_proxy.Base.{
  ℕ, ◌≡◌, ◌≢◌, refl, ap, sym, ◌∙◌, none, some, List, [], ◌∷◌, ◌++◌, ◌==◌, arith, inl, inr,
  Bool-cases, ◌&&◌,
}
use gpu_proxy.Contexts.{EglState, state_at, at_state, find_state}

-- The addresses are not NULL, and each belongs to one state.
abbrev pub Unique : List EglState → Type 0
Unique [] = Unit
Unique (s ∷ r) = (s.address ≢ 0) × (state_at r s.address ≡ none) × Unique r

-- A change that leaves the state where it is.
abbrev pub Stays : (EglState → EglState) → Type 0
Stays f = (s : EglState) → (f s).address ≡ s.address

pub state_at-at_state :
    (f : EglState → EglState) (l : List EglState) (a : ℕ) (s : EglState)
    → Stays f
    → state_at l a ≡ some s
    → state_at (at_state f l a) a ≡ some (f s)
state_at-at_state f [] a s k e = absurd (ground arith)
state_at-at_state f (t ∷ r) a s k e = ground (arith, k t, state_at-at_state f r a s k)

pub state_at-at_state_other :
    (f : EglState → EglState) (l : List EglState) (a b : ℕ)
    → Stays f
    → b ≢ a
    → state_at (at_state f l a) b ≡ state_at l b
state_at-at_state_other f [] a b k n = refl
state_at-at_state_other f (t ∷ r) a b k n = ground (arith, k t, state_at-at_state_other f r a b k n)

pub state_at-at_state-none :
    (f : EglState → EglState) (l : List EglState) (a b : ℕ)
    → Stays f
    → state_at l b ≡ none
    → state_at (at_state f l a) b ≡ none
state_at-at_state-none f [] a b k n = refl
state_at-at_state-none f (t ∷ r) a b k n = ground (arith, k t, state_at-at_state-none f r a b k)

pub at_state-Unique :
    (f : EglState → EglState) (l : List EglState) (a : ℕ)
    → Stays f
    → Unique l
    → Unique (at_state f l a)
at_state-Unique f [] a k u = tt
at_state-Unique f (t ∷ r) a k (n, d, u) = elim (Bool-cases (t.address == a)) [
  | inl same ↦ rw same (λ e. n (sym (k t) ∙ e), ap (state_at r) (k t) ∙ d, u)
  | inr other ↦ rw other (n, state_at-at_state-none f r a t.address k d, at_state-Unique f r a k u)
]

pub state_at-address :
    (l : List EglState) (a : ℕ) (s : EglState) → state_at l a ≡ some s → s.address ≡ a
state_at-address [] a s e = absurd (ground arith)
state_at-address (t ∷ r) a s e = ground (arith, state_at-address r a s)

pub state_at-append :
    (l m : List EglState) (a : ℕ) (s : EglState)
    → state_at l a ≡ some s
    → state_at (l ++ m) a ≡ some s
state_at-append [] m a s e = absurd (ground arith)
state_at-append (t ∷ r) m a s e = ground (arith, state_at-append r m a s)

pub state_at-append_none :
    (l m : List EglState) (a : ℕ) → state_at l a ≡ none → state_at (l ++ m) a ≡ state_at m a
state_at-append_none [] m a e = refl
state_at-append_none (t ∷ r) m a e = ground (arith, state_at-append_none r m a)

pub append-Unique :
    (l : List EglState) (s : EglState)
    → s.address ≢ 0
    → state_at l s.address ≡ none
    → Unique l
    → Unique (l ++ (s ∷ []))
append-Unique [] s n d u = (n, refl, tt)
append-Unique (t ∷ r) s n d u = (
  u.0,
  state_at-append_none r (s ∷ []) t.address u.1 ∙ ground arith,
  append-Unique r s n (ground arith) u.2,
)

-- What `find_state_with_display_and_context` finds is there, and what was asked for.
pub find_state-some :
    (l : List EglState) (display context : ℕ) (s : EglState)
    → Unique l
    → find_state l display context ≡ some s
    → (state_at l s.address ≡ some s)
      × (s.display ≡ display)
      × (s.context ≡ context)
      × (s.address ≢ 0)
unfolding find_state
find_state-some [] display context s u e = absurd (ground arith)
find_state-some (t ∷ r) display context s u e =
    elim (Bool-cases (t.context == context && t.display == display)) [
      | inl same ↦ ground arith
      | inr other ↦
          let (at, d, x, n) = find_state-some r display context s u.2 (ground arith) in
          (ground arith, d, x, n)
    ]

pub state_at-nonzero :
    (l : List EglState) (a : ℕ) (s : EglState) → Unique l → state_at l a ≡ some s → a ≢ 0
state_at-nonzero [] a s u e = absurd (ground arith)
state_at-nonzero (t ∷ r) a s u e = elim (Bool-cases (t.address == a)) [
  | inl same ↦ ground arith
  | inr other ↦ state_at-nonzero r a s u.2 (ground arith)
]
