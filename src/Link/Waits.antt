-- ===== src/Link/Waits.antt =====
-- What a client that waits has before it, in every state that the two threads reach, whatever the server
-- read for tokens.
use gpu_proxy.Base.{
  ℕ, ◌+◌, ◌≡◌, ◌≢◌, refl, sym, ap, ◌∙◌, List, [], ◌∷◌, ◌++◌, Bool, true, false, ltb, arith,
}
use gpu_proxy.Ring.{Buffer, read_advance}
use gpu_proxy.Link.{
  Command, Client, idle, published, signalling, testing, waiting, Server, looking, sleeping,
  handling, advanced, answering, stopped, Link, return_from, next_token, set_last_token, Step,
  run_async, run_sync, write_over, find_waiting, find_busy, post_server, pass, wait, wake_client,
  sleep, wake_server, stop, take, handle, unasked, answer, post_client, Steps, done, more, start,
}
use gpu_proxy.Link.Inv.{IsSound, Steps-IsSound, start-IsSound}
use gpu_proxy.Link.Tokens.{awaited, waits_for_some}
use gpu_proxy.Link.Reach.{Step-positive, IsReached}

-- The token of the last command.
abbrev pub last_of : List Command → ℕ
last_of [] = 0
last_of (c ∷ []) = c.token
last_of (c ∷ d ∷ r) = last_of (d ∷ r)

-- Not in the middle of a command.
abbrev pub rests : Server → Bool
rests (handling c) = false
rests (advanced c) = false
rests _ = true

-- A client that is in its `sem_wait` has a post, or has one to come.
abbrev pub is_posted : Client → Server → ℕ → Bool
is_posted (waiting t) (answering c) signal = true
is_posted (waiting t) w signal = ltb 0 signal
is_posted c w signal = true

-- The client waits for nothing; its command is the last one in the buffer; it is handled; its token is told.
pub data Awaits (s : Link) : Type 0 where
  free : awaited s.client ≡ 0 → Awaits s
  behind : awaited s.client ≢ 0 → last_of s.queue ≡ awaited s.client → Awaits s
  at_hand :
      (c : Command)
      → s.queue ≡ []
      → s.overwritten ≡ false
      → s.server ≡ advanced c
      → c.token ≡ awaited s.client
      → Awaits s
  told :
      s.buffer.last_token ≡ awaited s.client
      → s.queue ≡ []
      → rests s.server ≡ true
      → is_posted s.client s.server s.client_signal ≡ true
      → Awaits s

last_of-append : (q : List Command) (c : Command) → last_of (q ++ (c ∷ [])) ≡ c.token
last_of-append [] c = refl
last_of-append (d ∷ []) c = refl
last_of-append (d ∷ f ∷ q) c = last_of-append (f ∷ q) c

return-awaited : (c : Command) → awaited (return_from c) ≡ c.token
return-awaited c = ground arith

return-posted : (c : Command) (w : Server) (n : ℕ) → is_posted (return_from c) w n ≡ true
return-posted c w n = ground arith

-- A step of the client.
client-Awaits :
    {s : Link} (c : Client) (n m : ℕ)
    → awaited c ≡ awaited s.client
    → (s.buffer.last_token ≡ awaited s.client → is_posted c s.server m ≡ true)
    → Awaits s
    → Awaits (record s { client = c; server_signal = n; client_signal = m })
client-Awaits c n m e p (free a) = free (e ∙ a)
client-Awaits c n m e p (behind a l) = behind (λ z. a (sym e ∙ z)) (l ∙ sym e)
client-Awaits c n m e p (at_hand d q o w t) = at_hand d q o w (t ∙ sym e)
client-Awaits c n m e p (told t q r k) = told (t ∙ sym e) q r (p t)

-- A step of a server that has given no command back, to a place where it has not either.
server-Awaits :
    {s : Link} (w : Server) (n m : ℕ)
    → ((c : Command) → s.server ≢ advanced c)
    → (s.queue ≡ [] → rests w ≡ true)
    → (is_posted s.client s.server s.client_signal ≡ true → is_posted s.client w m ≡ true)
    → Awaits s
    → Awaits (record s { server = w; server_signal = n; client_signal = m })
server-Awaits w n m before after p (free a) = free a
server-Awaits w n m before after p (behind a l) = behind a l
server-Awaits w n m before after p (at_hand d q o u t) = absurd (before d u)
server-Awaits w n m before after p (told t q r k) = told t q (after q) (p k)

handle-Awaits :
    {s : Link} {c d : Command} {r : List Command}
    → s.server ≡ handling c
    → s.queue ≡ d ∷ r
    → c ≡ d
    → Awaits s
    → Awaits (record s {
      buffer = read_advance s.buffer c.size;
      queue = r;
      server = advanced c;
      overwritten = false;
    })
handle-Awaits e q same (free a) = free a
handle-Awaits {s} {c} {d} {r = []} e q same (behind a l) = at_hand c refl refl refl (ground arith)
handle-Awaits {s} {c} {d} {r = f ∷ r} e q same (behind a l) = behind a (ground arith)
handle-Awaits e q same (at_hand f n o w t) = absurd (ground arith)
handle-Awaits e q same (told t n r k) = absurd (ground arith)

unasked-Awaits :
    {s : Link} {c : Command}
    → s.server ≡ advanced c
    → (s.overwritten ≡ false → c.token ≡ 0)
    → Awaits s
    → Awaits (record s { server = looking })
unasked-Awaits e h (free a) = free a
unasked-Awaits e h (behind a l) = behind a l
unasked-Awaits e h (at_hand d q o w t) = free (ground (arith, h o))
unasked-Awaits e h (told t q r k) = absurd (ground arith)

answer-Awaits :
    {s : Link} {c : Command} (u : ℕ)
    → s.server ≡ advanced c
    → (s.overwritten ≡ false → c.token ≡ u)
    → Awaits s
    → Awaits (record s { buffer = set_last_token s.buffer u; server = answering c })
answer-Awaits u e h (free a) = free a
answer-Awaits u e h (behind a l) = behind a l
answer-Awaits {s} {c} u e h (at_hand d q o w t) =
    told (ground (arith, h o)) q refl (posted s.client)
  where
    posted : (k : Client) → is_posted k (answering c) s.client_signal ≡ true
    posted (waiting v) = refl
    posted idle = refl
    posted (published v) = refl
    posted (signalling v) = refl
    posted (testing v) = refl
answer-Awaits u e h (told t q r k) = absurd (ground arith)

signal-is_posted : (k : Client) (w : Server) (n : ℕ) → ltb 0 n ≡ true → is_posted k w n ≡ true
signal-is_posted (waiting t) looking n p = p
signal-is_posted (waiting t) sleeping n p = p
signal-is_posted (waiting t) (handling c) n p = p
signal-is_posted (waiting t) (advanced c) n p = p
signal-is_posted (waiting t) (answering c) n p = refl
signal-is_posted (waiting t) stopped n p = p
signal-is_posted idle w n p = refl
signal-is_posted (published c) w n p = refl
signal-is_posted (signalling c) w n p = refl
signal-is_posted (testing t) w n p = refl

-- A server that goes from one place to another and does not answer at the first leaves the posts alone.
quiet_move :
    (k : Client) (v w : Server) (n : ℕ)
    → ((c : Command) → v ≢ answering c)
    → is_posted k v n ≡ true
    → is_posted k w n ≡ true
quiet_move (waiting t) looking w n h p = signal-is_posted (waiting t) w n p
quiet_move (waiting t) sleeping w n h p = signal-is_posted (waiting t) w n p
quiet_move (waiting t) (handling c) w n h p = signal-is_posted (waiting t) w n p
quiet_move (waiting t) (advanced c) w n h p = signal-is_posted (waiting t) w n p
quiet_move (waiting t) (answering c) w n h p = absurd (h c refl)
quiet_move (waiting t) stopped w n h p = signal-is_posted (waiting t) w n p
quiet_move idle v w n h p = refl
quiet_move (published c) v w n h p = refl
quiet_move (signalling c) v w n h p = refl
quiet_move (testing t) v w n h p = refl

next_token-positive : (n : ℕ) → next_token n ≢ 0
next_token-positive n = ground arith

-- A server that moves without a post, from a place where it does not answer.
move-Awaits :
    {s : Link} (w : Server) (n : ℕ)
    → ((c : Command) → s.server ≢ advanced c)
    → ((c : Command) → s.server ≢ answering c)
    → (s.queue ≡ [] → rests w ≡ true)
    → Awaits s
    → Awaits (record s { server = w; server_signal = n })
move-Awaits {s} w n a b r o =
    server-Awaits w n s.client_signal a r (quiet_move s.client s.server w s.client_signal b) o

same-Awaits : {s : Link} → s.client ≡ idle → Awaits s → Awaits (record s { overwritten = true })
same-Awaits e o = free (ap awaited e)

pub Step-Awaits :
    {generated : ℕ → ℕ} {s t : Link} → Step generated s t → IsSound s → Awaits s → Awaits t
Step-Awaits (run_async n e pos room) v o = free refl
Step-Awaits {s = s} (run_sync k e pos room) v o =
    behind (next_token-positive s.token) (last_of-append s.queue _)
Step-Awaits (write_over e f) v o = same-Awaits e o
Step-Awaits {s = s} (find_waiting {c} e h) v o =
    client-Awaits (signalling c) _ _ (ap awaited (sym e)) (λ t. refl) o
Step-Awaits {s = s} (find_busy {c} e h) v o =
    client-Awaits (return_from c) _ _ (return-awaited c ∙ ap awaited (sym e))
      (λ t. return-posted c s.server s.client_signal) o
Step-Awaits {s = s} (post_server {c} e) v o =
    client-Awaits (return_from c) _ _ (return-awaited c ∙ ap awaited (sym e))
      (λ t. return-posted c s.server s.client_signal) o
Step-Awaits (pass e h) v o = free refl
Step-Awaits (wait {t} e h) v o =
    client-Awaits (waiting t) _ _ (ap awaited (sym e)) (λ u. absurd (ground arith)) o
Step-Awaits (wake_client {t} e h) v o =
    client-Awaits (testing t) _ _ (ap awaited (sym e)) (λ u. refl) o
Step-Awaits (sleep e h) v o = move-Awaits sleeping _ (λ c f. cc) (λ c f. cc) (λ q. refl) o
Step-Awaits (wake_server e h) v o = move-Awaits looking _ (λ c f. cc) (λ c f. cc) (λ q. refl) o
Step-Awaits (stop e h q k) v o = move-Awaits stopped _ (λ c f. cc) (λ c f. cc) (λ l. refl) o
Step-Awaits (take {c} e h q k) v o =
    move-Awaits (handling c) _ (λ d f. cc) (λ d f. cc) (λ l. absurd (ground arith)) o
Step-Awaits (handle {c} e q) v o =
    let (r, first) = v.at_head c e in handle-Awaits e q (ground arith) o
Step-Awaits (unasked e h) v o = unasked-Awaits e h o
Step-Awaits (answer u e reads h) v o = answer-Awaits u e reads o
Step-Awaits {s = s} (post_client e) v o =
    server-Awaits looking _ _ (λ c f. cc) (λ q. refl)
      (λ p. signal-is_posted s.client looking (s.client_signal + 1) (ground arith)) o

pub IsReached-Awaits : {g : ℕ → ℕ} {b : Buffer} {s : Link} → IsReached g b s → Awaits s
IsReached-Awaits {g} {b} r = go r.steps
  where
    go : {s : Link} → Steps g (start b) s → Awaits s
    go done = free refl
    go (more rs st) = Step-Awaits st (Steps-IsSound rs (start-IsSound b r.valid r.empty)) (go rs)

pub IsReached-positive :
    {g : ℕ → ℕ} {b : Buffer} {s : Link} → IsReached g b s → waits_for_some s.client ≡ true
IsReached-positive {g} {b} r = go r.steps
  where
    go : {s : Link} → Steps g (start b) s → waits_for_some s.client ≡ true
    go done = refl
    go (more rs st) = Step-positive st (go rs)
