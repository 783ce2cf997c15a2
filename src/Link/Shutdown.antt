-- ===== src/Link/Shutdown.antt =====
-- The end of the link: what `client_shutdown_server` waits for, and what the counter of tokens
-- does when it wraps.
use gpu_proxy.Base.{
  ℕ, ◌+◌, ◌-◌, ◌^◌, ◌≤◌, ◌<◌, ◌≡◌, ◌≢◌, refl, List, [], ◌∷◌, ◌++◌, All, arith, true, ◌==◌,
  if◌then◌else◌, ap,
}
use gpu_proxy.Ring.{Buffer, write_advance}
use gpu_proxy.Ring.Inv.{last_token-write_advance}
use gpu_proxy.Link.{
  Kind, shutdown, Command, get_size, idle, published, testing, stopped, Link, next_token,
  return_from, new_command, Step, run_async, run_sync, find_waiting, find_busy, post_server, pass,
  wait, write_over, IsIntact, wake_client, sleep, wake_server, stop, take, handle, unasked, answer,
  post_client, Steps, done, more,
}
use gpu_proxy.Link.Tokens.{
  awaited, quiet, Phase, none_waits, queued, handled, answered, IsAwaited, IsOrdered,
}
use native.Mathlib.Decide.{ℕ_discrete}
use gpu_proxy.Ring.{write_address}
use gpu_proxy.Link.Reach.{IsReached, IsReached-IsOrdered}

-- The client waits for a token that a stopped server has not answered.
record IsStuck (s : Link) : Type 0 where
  over : s.server ≡ stopped
  unanswered : s.buffer.last_token < awaited s.client

Step-IsStuck : {g : ℕ → ℕ} {s t : Link} → Step g s t → IsStuck s → IsStuck t
Step-IsStuck (run_async n e pos room) v = absurd (ground (arith, v.unanswered))
Step-IsStuck (run_sync k e pos room) v = absurd (ground (arith, v.unanswered))
Step-IsStuck (write_over e f) v = absurd (ground (arith, v.over))
Step-IsStuck (find_waiting e h) v = ground (arith, v.over, v.unanswered)
Step-IsStuck (find_busy e h) v = ground (arith, v.over, v.unanswered)
Step-IsStuck (post_server e) v = ground (arith, v.over, v.unanswered)
Step-IsStuck (pass e h) v = absurd (ground (arith, v.unanswered))
Step-IsStuck (wait e h) v = ground (arith, v.over, v.unanswered)
Step-IsStuck (wake_client e h) v = ground (arith, v.over, v.unanswered)
Step-IsStuck (sleep e h) v = absurd (ground (arith, v.over))
Step-IsStuck (wake_server e h) v = absurd (ground (arith, v.over))
Step-IsStuck (stop e h q k) v = absurd (ground (arith, v.over))
Step-IsStuck (take e h q k) v = absurd (ground (arith, v.over))
Step-IsStuck (handle e q) v = absurd (ground (arith, v.over))
Step-IsStuck (unasked e h) v = absurd (ground (arith, v.over))
Step-IsStuck (answer t e reads h) v = absurd (ground (arith, v.over))
Step-IsStuck (post_client e) v = absurd (ground (arith, v.over))

Steps-IsStuck : {g : ℕ → ℕ} {s t : Link} → Steps g s t → IsStuck s → IsStuck t
Steps-IsStuck done v = v
Steps-IsStuck (more r st) v = Step-IsStuck st (Steps-IsStuck r v)

quiet-shutdown :
    (c : Command) (r : List Command) → quiet (c ∷ r) ≡ true → IsAwaited c → c.kind ≡ shutdown → ⊥
quiet-shutdown c r q a k = ground (arith, a k)

stopped-IsStuck : {s : Link} → IsOrdered s → s.server ≡ stopped → IsStuck s
stopped-IsStuck {s} o e = record { over = e; unanswered = go o.phase }
  where
    go : Phase s → s.buffer.last_token < awaited s.client
    go (none_waits a q i) =
        let (c, r, q', k) = o.halted e in
        let all : All IsAwaited (c ∷ r) = rw q' at o.shutdowns in
        absurd (quiet-shutdown c r (rw q' at q) all.0 k)
    go (queued a q i) = a
    go (handled a q i) = a
    go (answered a q i) = let (c, r, q', k) = o.halted e in absurd (ground arith)

-- The call that shuts the server down does not return: from a state in which the server has left its loop,
-- reached before the counter of tokens has wrapped and with the client never writing over a command
-- whose token the server has still to read, no steps lead to a state in which the client is outside
-- `client_run_command`.
pub shutdown_hangs :
    {g : ℕ → ℕ} {b : Buffer} {s t : Link} (r : IsReached g b s)
    → IsIntact r.steps
    → s.calls < 2 ^ 32
    → s.server ≡ stopped
    → Steps g s t
    → t.client ≢ idle
shutdown_hangs r intact small e later returned =
    let v = Steps-IsStuck later (stopped-IsStuck (IsReached-IsOrdered r intact small) e) in
    absurd (ground (arith, v.unanswered))

-- The client's way through `client_run_command_async`, with or without the `sem_post`.
after_publish :
    {g : ℕ → ℕ} {s t : Link} {c : Command}
    → Steps g s t
    → t.client ≡ published c
    → (n : ℕ) × Steps g s (record t { client = return_from c; server_signal = n })
after_publish {t} {c} r e = elim (ℕ_discrete t.buffer.fill_count c.size) [
  | yes alone ↦ (t.server_signal + 1, more (more r (find_waiting e alone)) (post_server refl))
  | no busy ↦ (t.server_signal, more r (find_busy e busy))
]

-- At the wrap of the counter a synchronous call does not wait: if the client is idle, the counter
-- and the last token answered are both `2 ^ 32 - 1`, and the buffer has room for a command of
-- positive size, then steps of the client alone lead to a state in which the client is idle again
-- and the command, with token 1, is still in the buffer behind the commands that were there.
pub wrap_returns_early :
    {g : ℕ → ℕ} (s : Link) (k : Kind)
    → s.client ≡ idle
    → s.token ≡ 2 ^ 32 - 1
    → s.buffer.last_token ≡ 2 ^ 32 - 1
    → 0 < get_size g k
    → get_size g k ≤ (write_address s.buffer).1
    → (t : Link) × Steps g s t
      × (t.client ≡ idle)
      × (t.server ≡ s.server)
      × (t.queue ≡ s.queue ++ (record { kind = k; size = get_size g k; token = 1 } ∷ []))
wrap_returns_early {g} s k e full last pos room =
    let c : Command = record (new_command g k) { token = next_token s.token } in
    let (n, r) = after_publish {c = c} (more done (run_sync k e pos room)) refl in
    (
      _,
      more r (pass (ap (λ t. if t == 0 then idle else testing t) one) answered_already),
      refl,
      refl,
      ap (λ t. s.queue ++ (record { kind = k; size = get_size g k; token = t } ∷ [])) one,
    )
  where
    one : next_token s.token ≡ 1
    one = ap next_token full

    answered_already : 1 ≤ (write_advance s.buffer (get_size g k)).last_token
    answered_already = omega (arith, last_token-write_advance s.buffer (get_size g k))
