-- ===== src/Link/Reach.antt =====
-- The order of tokens in every state that the two threads reach, as long as the counter of
-- `client_run_command` has not wrapped.
use gpu_proxy.Base.{
  ℕ, ◌^◌, ◌≤◌, ◌<◌, ◌≡◌, ◌≢◌, refl, sym, ◌∙◌, List, [], ◌∷◌, ◌++◌, ◌⊎◌, inl, inr, All, All-append,
  arith, true, false, ap,
}
use gpu_proxy.Ring.{Buffer}
use gpu_proxy.Ring.Inv.{last_token-write_advance, last_token-read_advance}
use gpu_proxy.Link.{
  shutdown, call, Command, get_size, waiting, advanced, answering, stopped, Link, next_token,
  publish, new_command, Step, run_async, run_sync, write_over, find_waiting, find_busy, post_server,
  pass, wait, wake_client, sleep, wake_server, stop, take, handle, unasked, answer, post_client,
  Steps, done, more, start, IsIntact,
}
use gpu_proxy.Link.Inv.{IsSound, Steps-IsSound, start-IsSound}
use gpu_proxy.Ring.Inv.{IsValid}
use gpu_proxy.Link.Tokens.{
  awaited, Phase, none_waits, queued, handled, answered, IsAwaited, IsOrdered, waits_for_some,
  next_token-small,
}
use gpu_proxy.Link.Order.{Step-Phase}

Step-counted :
    {g : ℕ → ℕ} {s t : Link} → Step g s t → t.calls < 2 ^ 32 → IsOrdered s → t.token ≡ t.calls
Step-counted {s} (run_sync k e pos room) small o =
    omega (arith, next_token-small s.token, o.counted)
Step-counted st small o = o.counted

Step-latest :
    {g : ℕ → ℕ} {s t : Link}
    → Step g s t
    → t.calls < 2 ^ 32
    → IsOrdered s
    → (awaited t.client ≡ 0) ⊎ (awaited t.client ≡ t.token)
Step-latest (run_async n e pos room) small o = inl refl
Step-latest {s} (run_sync k e pos room) small o =
    inr (omega (arith, next_token-small s.token, o.counted))
Step-latest (find_waiting e h) small o = ground (arith, o.latest)
Step-latest (find_busy e h) small o = ground (arith, o.latest)
Step-latest (post_server e) small o = ground (arith, o.latest)
Step-latest (pass e h) small o = inl refl
Step-latest (wait e h) small o = ground (arith, o.latest)
Step-latest (wake_client e h) small o = ground (arith, o.latest)
Step-latest st small o = o.latest

answer-past :
    {s : Link} {c : Command} → s.server ≡ advanced c → c.token ≢ 0 → IsOrdered s → c.token ≤ s.token
answer-past {s} {c} e h o = go o.phase
  where
    go : Phase s → c.token ≤ s.token
    go (none_waits a q i) = ground arith
    go (queued a q i) = ground arith
    go (handled a q i) = ground (arith, o.latest)
    go (answered a q i) = ground arith

Step-past :
    {g : ℕ → ℕ} {s t : Link}
    → Step g s t
    → s.overwritten ≡ false
    → t.calls < 2 ^ 32
    → IsOrdered s
    → t.buffer.last_token ≤ t.token
Step-past {g} {s} (run_async n e pos room) intact small o =
    omega (arith, last_token-write_advance s.buffer (g n), o.past)
Step-past {g} {s} (run_sync k e pos room) intact small o = omega (
  arith,
  last_token-write_advance s.buffer (get_size g k),
  next_token-small s.token,
  o.past,
  o.counted,
)
Step-past {s} (handle {c} e q) intact small o =
    omega (arith, last_token-read_advance s.buffer c.size, o.past)
Step-past (answer {c} t e reads h) intact small o =
    omega (arith, reads intact, answer-past e (λ z. h intact (sym (reads intact) ∙ z)) o)
Step-past st intact small o = o.past

Step-shutdowns :
    {g : ℕ → ℕ} {s t : Link} → Step g s t → t.calls < 2 ^ 32 → IsOrdered s → All IsAwaited t.queue
Step-shutdowns {s} (run_async n e pos room) small o =
    All-append IsAwaited s.queue _ o.shutdowns ((λ k. cc), tt)
Step-shutdowns {s} (run_sync k e pos room) small o =
    All-append IsAwaited s.queue _ o.shutdowns
      ((λ _. omega (arith, next_token-small s.token, o.counted)), tt)
Step-shutdowns {s} (handle {c} {d} {r} e q) small o =
    (let all : All IsAwaited (d ∷ r) = rw q at o.shutdowns in all).1
Step-shutdowns st small o = o.shutdowns

-- A stopped server has a shutdown command before it.
abbrev pub Halted : Link → Type 0
Halted s =
    s.server ≡ stopped
    → (c : Command) × (r : List Command) × (s.queue ≡ c ∷ r) × (c.kind ≡ shutdown)

append-Halted : (s : Link) (d : Command) → Halted s → Halted (publish s d)
append-Halted s d halted h =
    let (c, r, q, k) = halted h in (c, r ++ (d ∷ []), ap (λ l. l ++ (d ∷ [])) q, k)

Step-Halted : {g : ℕ → ℕ} {s t : Link} → Step g s t → IsOrdered s → Halted t
Step-Halted {g} {s} (run_async n e pos room) o = append-Halted s (new_command g (call n)) o.halted
Step-Halted {g} {s} (run_sync k e pos room) o =
    append-Halted s (record (new_command g k) { token = next_token s.token }) o.halted
Step-Halted (sleep e h) o = λ f. cc
Step-Halted (wake_server e h) o = λ f. cc
Step-Halted (stop {c} {r} e h q k) o = λ f. (c, r, q, k)
Step-Halted (take e h q k) o = λ f. cc
Step-Halted (handle e q) o = λ f. cc
Step-Halted (unasked e h) o = λ f. cc
Step-Halted (answer t e reads h) o = λ f. cc
Step-Halted (post_client e) o = λ f. cc
Step-Halted st o = o.halted

-- A client that waits for a token that is answered has a post, or has one to come.
abbrev pub Answers : Link → Type 0
Answers s =
    (t : ℕ)
    → s.client ≡ waiting t
    → t ≤ s.buffer.last_token
    → (0 < s.client_signal) ⊎ ((c : Command) × (s.server ≡ answering c))

Step-Answers : {g : ℕ → ℕ} {s t : Link} → Step g s t → IsOrdered s → Answers t
Step-Answers (run_async n e pos room) o = λ u f h. cc
Step-Answers (run_sync k e pos room) o = λ u f h. cc
Step-Answers (write_over e n) o = λ u f h. cc
Step-Answers (find_waiting e h) o = λ u f h. cc
Step-Answers (find_busy e h) o = λ u f h. ground arith
Step-Answers (post_server e) o = λ u f h. ground arith
Step-Answers (pass e h) o = λ u f h. cc
Step-Answers (wait e below) o = λ u f h. ground arith
Step-Answers (wake_client e h) o = λ u f h. cc
Step-Answers (post_client e) o = λ u f h. inl (omega arith)
Step-Answers (answer {c} t e reads h) o = λ u f h. inr (c, refl)
Step-Answers (sleep e n) o = λ u f h. ground (arith, o.answers u f h)
Step-Answers (wake_server e n) o = λ u f h. ground (arith, o.answers u f h)
Step-Answers (stop e n q k) o = λ u f h. ground (arith, o.answers u f h)
Step-Answers (take e n q k) o = λ u f h. ground (arith, o.answers u f h)
Step-Answers {s} (handle {c} e q) o =
    λ u f h. ground (arith, o.answers u f (omega (arith, last_token-read_advance s.buffer c.size)))
Step-Answers (unasked e n) o = λ u f h. ground (arith, o.answers u f h)

pub Step-positive :
    {g : ℕ → ℕ} {s t : Link}
    → Step g s t
    → waits_for_some s.client ≡ true
    → waits_for_some t.client ≡ true
Step-positive (run_async n e pos room) o = refl
Step-positive (run_sync k e pos room) o = refl
Step-positive (find_waiting e h) o = refl
Step-positive (find_busy e h) o = ground arith
Step-positive (post_server e) o = ground arith
Step-positive (pass e h) o = refl
Step-positive (wait e h) o = ground (arith, o)
Step-positive (wake_client e h) o = ground (arith, o)
Step-positive st o = o

pub Step-IsOrdered :
    {g : ℕ → ℕ} {s t : Link}
    → Step g s t
    → s.overwritten ≡ false
    → t.calls < 2 ^ 32
    → IsSound s
    → IsOrdered s
    → IsOrdered t
Step-IsOrdered st intact small v o = record {
  counted = Step-counted st small o;
  latest = Step-latest st small o;
  past = Step-past st intact small o;
  phase = Step-Phase st intact small v o;
  shutdowns = Step-shutdowns st small o;
  halted = Step-Halted st o;
  answers = Step-Answers st o;
  positive = Step-positive st o.positive;
}

calls-le : {g : ℕ → ℕ} {s t : Link} → Step g s t → s.calls ≤ t.calls
calls-le (run_sync k e pos room) = omega arith
calls-le st = omega arith

pub start-IsOrdered : (b : Buffer) → b.last_token ≡ 0 → IsOrdered (start b)
start-IsOrdered b e = record {
  counted = refl;
  latest = inl refl;
  past = omega arith;
  phase = none_waits refl refl refl;
  shutdowns = tt;
  halted = λ h. cc;
  answers = λ t h. cc;
  positive = refl;
}

-- The states that the two threads reach from a new client over the buffer `b`.
pub record IsReached (g : ℕ → ℕ) (b : Buffer) (s : Link) : Type 0 where
  pub valid : IsValid b
  pub empty : b.fill_count ≡ 0
  pub fresh : b.last_token ≡ 0
  pub steps : Steps g (start b) s

pub IsReached-IsSound : {g : ℕ → ℕ} {b : Buffer} {s : Link} → IsReached g b s → IsSound s
IsReached-IsSound {b} r = Steps-IsSound r.steps (start-IsSound b r.valid r.empty)

pub IsReached-IsOrdered :
    {g : ℕ → ℕ} {b : Buffer} {s : Link} (r : IsReached g b s)
    → IsIntact r.steps
    → s.calls < 2 ^ 32
    → IsOrdered s
unfolding IsIntact
IsReached-IsOrdered {g} {b} r intact small = go r.steps intact small
  where
    go : {s : Link} (rs : Steps g (start b) s) → IsIntact rs → s.calls < 2 ^ 32 → IsOrdered s
    go done i small = start-IsOrdered b r.fresh
    go (more rs st) i small =
        Step-IsOrdered st i.1 small (Steps-IsSound rs (start-IsSound b r.valid r.empty))
          (go rs i.0 (omega (arith, calls-le st)))
