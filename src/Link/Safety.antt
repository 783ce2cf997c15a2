-- ===== src/Link/Safety.antt =====
-- What a client may rely on: no lost wakeup, no deadlock, and a synchronous call is a barrier.
use gpu_proxy.Base.{
  ℕ, ◌^◌, ◌≤◌, ◌<◌, ◌≡◌, ◌≢◌, refl, sym, none, List, [], ◌∷◌, ◌⊎◌, inl, inr, All, arith, true, ap,
  ◌∙◌,
}
use gpu_proxy.Ring.{Buffer}
use gpu_proxy.Link.{
  Kind, no_op, shutdown, call, Command, testing, waiting, Server, looking, sleeping, handling,
  advanced, answering, stopped, Link, Step, IsIntact, wake_client, sleep, wake_server, stop, take,
  handle, unasked, answer, post_client,
}
use gpu_proxy.Link.Inv.{IsSound}
use gpu_proxy.Link.Tokens.{waits_for_some}
use gpu_proxy.Link.Waits.{
  Awaits, free, behind, at_hand, told, last_of, IsReached-Awaits, IsReached-positive,
}
use gpu_proxy.Link.Tokens.{Phase, none_waits, queued, handled, answered, IsOrdered}
use native.Mathlib.Decide.{dec_lt, ℕ_discrete}
use gpu_proxy.Ring.{read_address}
use gpu_proxy.Ring.Inv.{read_address-empty, read_address-none}
use gpu_proxy.Link.Inv.{posts, total, IsPositive}
use gpu_proxy.Link.Reach.{IsReached, IsReached-IsSound, IsReached-IsOrdered}

total-pos : (q : List Command) → All IsPositive q → q ≢ [] → 0 < total q
total-pos [] a ne = absurd (ne refl)
total-pos (c ∷ q) a ne = omega (arith, a.0)

-- In every reachable state the bytes in the buffer are those of the commands in it, and no more
-- than its length.
pub accounting :
    {g : ℕ → ℕ} {b : Buffer} {s : Link}
    → IsReached g b s
    → (s.buffer.fill_count ≡ total s.queue) × (s.buffer.fill_count ≤ s.buffer.length)
accounting r = let v = IsReached-IsSound r in (v.filled, v.valid.fill_in)

-- No wakeup of the server is lost: where it sleeps in `sem_wait` and its semaphore is 0 while the
-- buffer holds a command, the client is inside `client_run_command_async` and its next steps post.
pub server_wakeup :
    {g : ℕ → ℕ} {b : Buffer} {s : Link}
    → IsReached g b s
    → s.server ≡ sleeping
    → s.server_signal ≡ 0
    → s.queue ≢ []
    → posts s.client s.buffer.fill_count ≡ true
server_wakeup {s} r asleep unposted busy =
    let v = IsReached-IsSound r in
    ground (arith, v.wakes asleep unposted, v.filled, total-pos s.queue v.sizes busy)

is_shutdown : (k : Kind) → (k ≡ shutdown) ⊎ (k ≢ shutdown)
is_shutdown no_op = inr (λ e. cc)
is_shutdown shutdown = inl refl
is_shutdown (call n) = inr (λ e. cc)

-- A server that looks at the buffer can go on.
looking_moves :
    {g : ℕ → ℕ} {s : Link} (q : List Command)
    → s.queue ≡ q
    → IsSound s
    → s.server ≡ looking
    → (u : Link) × Step g s u
looking_moves {s} [] e v w = (_, sleep w (read_address-empty s.buffer (v.filled ∙ ap total e)))
looking_moves {s} (c ∷ r) e v w = elim (is_shutdown c.kind) [
  | inl k ↦ (_, stop w seen e k)
  | inr k ↦ (_, take w seen e k)
]
  where
    sizes : All IsPositive (c ∷ r)
    sizes = rw e at v.sizes

    seen : (read_address s.buffer).0 ≢ none
    seen h = absurd (omega (arith, read_address-none s.buffer h, v.filled ∙ ap total e, sizes.0))

-- With the server asleep over no post, what the client waits for is told, and posted.
asleep_told :
    {s : Link} {t : ℕ}
    → IsSound s
    → Awaits s
    → waits_for_some s.client ≡ true
    → s.client ≡ waiting t
    → s.server ≡ sleeping
    → s.server_signal ≡ 0
    → 0 < s.client_signal
asleep_told {s} {t} v o p e w unposted = go o (empty s.queue refl)
  where
    empty : (q : List Command) → s.queue ≡ q → s.queue ≡ []
    empty [] q = q
    empty (c ∷ r) q = absurd (
        ground (
          arith,
          v.wakes w unposted,
          v.filled ∙ ap total q,
          (let a : All IsPositive (c ∷ r) = rw q at v.sizes in a).0,
        ))

    go : Awaits s → s.queue ≡ [] → 0 < s.client_signal
    go (free a) none_left = absurd (ground arith)
    go (behind a l) none_left = absurd (a (sym l ∙ ap last_of none_left))
    go (at_hand c q i u k) none_left = absurd (ground arith)
    go (told l q r k) none_left = ground arith

-- A thread can move: in every reachable state, whatever the server read for a token that the client had
-- written over, and while the server has not left its loop, if the client waits for an answer, then
-- some step is possible.
pub no_deadlock :
    {g : ℕ → ℕ} {b : Buffer} {s : Link} {t : ℕ}
    → IsReached g b s
    → s.server ≢ stopped
    → s.client ≡ waiting t
    → (u : Link) × Step g s u
no_deadlock {g} {s} r running e = go s.server refl
  where
    v : IsSound s
    v = IsReached-IsSound r

    go : (w : Server) → s.server ≡ w → (u : Link) × Step g s u
    go looking w = looking_moves s.queue refl v w
    go sleeping w = elim (dec_lt 0 s.server_signal) [
      | yes posted ↦ (_, wake_server w posted)
      | no unposted ↦ (
        _,
        wake_client e (asleep_told v (IsReached-Awaits r) (IsReached-positive r) e w (omega arith)),
      )
    ]
    go (handling c) w = let (l, q) = v.at_head c w in (_, handle w q)
    go (advanced c) w = elim (ℕ_discrete c.token 0) [
      | yes z ↦ (_, unasked w (λ i. z))
      | no z ↦ (_, answer c.token w (λ i. refl) (λ i. z))
    ]
    go (answering c) w = (_, post_client w)
    go stopped w = absurd (running w)

-- A synchronous call is a barrier, in a run in which the client never writes over a command whose token the
-- server has still to read: in every state that such a run reaches before the counter wraps, a client
-- that leaves the loop of `client_run_command` finds every command handled, its own among them.
pub sync_barrier :
    {g : ℕ → ℕ} {b : Buffer} {s : Link} {t : ℕ} (r : IsReached g b s)
    → IsIntact r.steps
    → s.calls < 2 ^ 32
    → s.client ≡ testing t
    → t ≤ s.buffer.last_token
    → (s.queue ≡ []) × (s.buffer.fill_count ≡ 0) × (s.buffer.last_token ≡ s.token)
sync_barrier {s} r intact small e h = go (IsReached-IsOrdered r intact small).phase
  where
    o : IsOrdered s
    o = IsReached-IsOrdered r intact small

    filled : s.buffer.fill_count ≡ total s.queue
    filled = (IsReached-IsSound r).filled

    go : Phase s → (s.queue ≡ []) × (s.buffer.fill_count ≡ 0) × (s.buffer.last_token ≡ s.token)
    go (none_waits a q i) = absurd (ground (arith, o.positive))
    go (queued a q i) = absurd (ground arith)
    go (handled a q i) = absurd (ground arith)
    go (answered a q i) = (q, filled ∙ ap total q, ground (arith, o.latest, o.positive))
