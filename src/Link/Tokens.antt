-- ===== src/Link/Tokens.antt =====
-- Which commands carry a token: at most the last one, and only while the client waits for it.
use gpu_proxy.Base.{
  ℕ, ◌+◌, ◌^◌, ◌≤◌, ◌<◌, ◌≡◌, List, [], ◌∷◌, ◌++◌, ◌⊎◌, All, arith, Bool, true, false, ◌==◌, ltb,
  ◌&&◌,
}
use gpu_proxy.Link.{
  shutdown, Command, Client, idle, published, signalling, testing, waiting, Server, advanced,
  answering, stopped, Link, next_token, next_counter,
}

-- The token that the client's call will wait for, 0 if it will not wait.
abbrev pub awaited : Client → ℕ
awaited idle = 0
awaited (published c) = c.token
awaited (signalling c) = c.token
awaited (testing t) = t
awaited (waiting t) = t

-- The token of a command that is handled and not yet answered.
abbrev pub in_flight : Server → ℕ
in_flight (advanced c) = c.token
in_flight _ = 0

-- No command has a token.
abbrev pub quiet : List Command → Bool
quiet [] = true
quiet (c ∷ r) = c.token == 0 && quiet r

-- The last command has token `t`, and no other has one.
abbrev pub ends_with : ℕ → List Command → Bool
ends_with t [] = false
ends_with t (c ∷ []) = c.token == t
ends_with t (c ∷ d ∷ r) = c.token == 0 && ends_with t (d ∷ r)

-- Where a synchronous call stands: none; the command is in the buffer; it is handled; answered.
pub data Phase (s : Link) : Type 0 where
  none_waits : awaited s.client ≡ 0 → quiet s.queue ≡ true → in_flight s.server ≡ 0 → Phase s
  queued :
      s.buffer.last_token < awaited s.client
      → ends_with (awaited s.client) s.queue ≡ true
      → in_flight s.server ≡ 0
      → Phase s
  handled :
      s.buffer.last_token < awaited s.client
      → s.queue ≡ []
      → in_flight s.server ≡ awaited s.client
      → Phase s
  answered :
      s.buffer.last_token ≡ awaited s.client → s.queue ≡ [] → in_flight s.server ≡ 0 → Phase s

-- `SHUTDOWN` is only sent by a synchronous call.
abbrev pub IsAwaited : Command → Type 0
IsAwaited c = c.kind ≡ shutdown → 0 < c.token

-- The loop of `client_run_command` is only entered with a token.
abbrev pub waits_for_some : Client → Bool
waits_for_some (testing t) = ltb 0 t
waits_for_some (waiting t) = ltb 0 t
waits_for_some _ = true

-- While the counter has not wrapped, tokens are numbered by the calls.
pub record IsOrdered (s : Link) : Type 0 where
  pub counted : s.token ≡ s.calls
  pub latest : (awaited s.client ≡ 0) ⊎ (awaited s.client ≡ s.token)
  pub past : s.buffer.last_token ≤ s.token
  pub phase : Phase s
  pub shutdowns : All IsAwaited s.queue
  pub halted :
      s.server ≡ stopped
      → (c : Command) × (r : List Command) × (s.queue ≡ c ∷ r) × (c.kind ≡ shutdown)
  pub answers :
      (t : ℕ)
      → s.client ≡ waiting t
      → t ≤ s.buffer.last_token
      → (0 < s.client_signal) ⊎ ((c : Command) × (s.server ≡ answering c))
  pub positive : waits_for_some s.client ≡ true

pub ends_with-append :
    (t : ℕ) (q : List Command) (c : Command)
    → quiet q ≡ true
    → c.token ≡ t
    → ends_with t (q ++ (c ∷ [])) ≡ true
ends_with-append t [] c h e = ground arith
ends_with-append t (d ∷ []) c h e = ground arith
ends_with-append t (d ∷ f ∷ q) c h e = ground (arith, ends_with-append t (f ∷ q) c)

pub quiet-append :
    (q : List Command) (c : Command) → quiet q ≡ true → c.token ≡ 0 → quiet (q ++ (c ∷ [])) ≡ true
quiet-append [] c h e = ground arith
quiet-append (d ∷ q) c h e = ground (arith, quiet-append q c)

pub next_token-small : (n : ℕ) → n + 1 < 2 ^ 32 → (next_token n ≡ n + 1) × (next_counter n ≡ n + 1)
next_token-small n h = (ground arith, omega arith)
