-- ===== src/Link/Inv.antt =====
-- What holds in every state that the two threads can reach.
use gpu_proxy.Base.{
  ℕ, ◌+◌, ◌-◌, ◌≤◌, ◌<◌, ◌≡◌, refl, List, [], ◌∷◌, ◌++◌, ◌⊎◌, inl, inr, All, All-append, arith,
  Bool, true, false, ◌==◌, ap, ◌∙◌,
}
use gpu_proxy.Ring.{Buffer, write_address, write_advance}
use gpu_proxy.Ring.Inv.{
  IsValid, writable_bytes, write_advance-IsValid, read_advance-IsValid, fill_count-write_advance,
  fill_count-read_advance, read_address-none,
}
use gpu_proxy.Link.{
  call, Command, Client, idle, published, signalling, testing, waiting, Server, looking, sleeping,
  handling, stopped, Link, next_token, return_from, publish, new_command, Step, run_async, run_sync,
  write_over, find_waiting, find_busy, post_server, pass, wait, wake_client, sleep, wake_server,
  stop, take, handle, unasked, answer, post_client, Steps, done, more, start,
}

-- The bytes of a list of commands.
abbrev pub total : List Command → ℕ
total [] = 0
total (c ∷ r) = c.size + total r

-- The client is about to post to the server, if it stands before its test at a buffer that holds
-- just the new command, or before the `sem_post`.
abbrev pub posts : Client → ℕ → Bool
posts (published c) fill = fill == c.size
posts (signalling c) fill = true
posts _ fill = false

abbrev pub IsPositive : Command → Type 0
IsPositive c = 0 < c.size

-- The bytes add up, the command at hand is the oldest, and a server that sleeps over a command
-- without a post to come has one on its way.
pub record IsSound (s : Link) : Type 0 where
  pub valid : IsValid s.buffer
  pub filled : s.buffer.fill_count ≡ total s.queue
  pub sizes : All IsPositive s.queue
  pub at_head : (c : Command) → s.server ≡ handling c → (r : List Command) × (s.queue ≡ c ∷ r)
  pub wakes :
      s.server ≡ sleeping
      → s.server_signal ≡ 0
      → (s.buffer.fill_count ≡ 0) ⊎ (posts s.client s.buffer.fill_count ≡ true)

pub start-IsSound : (b : Buffer) → IsValid b → b.fill_count ≡ 0 → IsSound (start b)
start-IsSound b v e = record {
  valid = v;
  filled = e;
  sizes = tt;
  at_head = λ c h. cc;
  wakes = λ h _. cc;
}

total-append : (p q : List Command) → total (p ++ q) ≡ total p + total q
total-append [] q = omega arith
total-append (c ∷ p) q = omega (arith, total-append p q)

publish-IsSound :
    {s : Link} (c : Command)
    → s.client ≡ idle
    → 0 < c.size
    → c.size ≤ (write_address s.buffer).1
    → IsSound s
    → IsSound (publish s c)
publish-IsSound {s} c e pos room v = record {
  valid = write_advance-IsValid c.size v.valid fits;
  filled = omega (arith, total-append s.queue (c ∷ []), filled_by, v.filled);
  sizes = All-append IsPositive s.queue (c ∷ []) v.sizes (pos, tt);
  at_head = λ d h. let (r, q) = v.at_head d h in (r ++ (c ∷ []), ap (λ l. l ++ (c ∷ [])) q);
  wakes = λ asleep none_posted. ground (arith, v.wakes asleep none_posted, filled_by);
}
  where
    fits : s.buffer.fill_count + c.size ≤ s.buffer.length
    fits = omega (arith, writable_bytes v.valid)

    filled_by : (write_advance s.buffer c.size).fill_count ≡ s.buffer.fill_count + c.size
    filled_by = fill_count-write_advance c.size v.valid fits

-- A step that leaves the buffer alone, by what it has to show.
move-IsSound :
    {s : Link} (c : Client) (w : Server) (n m : ℕ)
    → IsSound s
    → ((d : Command) → w ≡ handling d → (r : List Command) × (s.queue ≡ d ∷ r))
    → (w ≡ sleeping → n ≡ 0 → (s.buffer.fill_count ≡ 0) ⊎ (posts c s.buffer.fill_count ≡ true))
    → IsSound (record s { client = c; server = w; server_signal = n; client_signal = m })
move-IsSound c w n m v at_head wakes = record {
  valid = v.valid;
  filled = v.filled;
  sizes = v.sizes;
  at_head = at_head;
  wakes = wakes;
}

-- A step of the client that leaves no post to come, since the buffer does not need one.
return-IsSound :
    {s : Link} (c : Client) (m : ℕ)
    → IsSound s
    → posts s.client s.buffer.fill_count ≡ false
    → IsSound (record s { client = c; client_signal = m })
return-IsSound {s} c m v quiet =
    move-IsSound c s.server s.server_signal m v v.at_head
      λ asleep unposted. ground (arith, v.wakes asleep unposted)

-- Every step of either thread keeps it.
pub Step-IsSound : {generated : ℕ → ℕ} {s t : Link} → Step generated s t → IsSound s → IsSound t
Step-IsSound {generated} (run_async n e pos room) v =
    publish-IsSound (new_command generated (call n)) e pos room v
Step-IsSound {generated} {s} (run_sync k e pos room) v = record {
  valid = u.valid;
  filled = u.filled;
  sizes = u.sizes;
  at_head = u.at_head;
  wakes = u.wakes;
}
  where
    u : IsSound (publish s (record (new_command generated k) { token = next_token s.token }))
    u = publish-IsSound _ e pos room v
Step-IsSound {s} (write_over e f) v = record {
  valid = v.valid;
  filled = v.filled;
  sizes = v.sizes;
  at_head = v.at_head;
  wakes = v.wakes;
}
Step-IsSound {s} (find_waiting {c} e h) v =
    move-IsSound (signalling c) s.server s.server_signal s.client_signal v v.at_head
      λ asleep unposted. inr refl
Step-IsSound {s} (find_busy {c} e h) v =
    return-IsSound (return_from c) s.client_signal v (ground arith)
Step-IsSound {s} (post_server {c} e) v =
    move-IsSound (return_from c) s.server (s.server_signal + 1) s.client_signal v v.at_head
      λ asleep unposted. absurd (omega arith)
Step-IsSound {s} (pass e h) v = return-IsSound idle s.client_signal v (ground arith)
Step-IsSound {s} (wait {t} e h) v = return-IsSound (waiting t) s.client_signal v (ground arith)
Step-IsSound {s} (wake_client {t} e h) v =
    return-IsSound (testing t) (s.client_signal - 1) v (ground arith)
Step-IsSound {s} (sleep e h) v =
    move-IsSound s.client sleeping s.server_signal s.client_signal v (λ c f. cc)
      λ asleep unposted. inl (read_address-none s.buffer h)
Step-IsSound {s} (wake_server e h) v =
    move-IsSound s.client looking (s.server_signal - 1) s.client_signal v (λ c f. cc) (λ f _. cc)
Step-IsSound {s} (stop e h q k) v =
    move-IsSound s.client stopped s.server_signal s.client_signal v (λ c f. cc) (λ f _. cc)
Step-IsSound {s} (take {c} {r} e h q k) v =
    move-IsSound s.client (handling c) s.server_signal s.client_signal v (λ d f. (r, ground arith))
      (λ f _. cc)
Step-IsSound {s} (handle {c} {d} {r} e q) v = record {
  valid = read_advance-IsValid c.size v.valid held;
  filled = omega (arith, fill_count-read_advance c.size v.valid held, filled, same);
  sizes = sizes.1;
  at_head = λ a f. cc;
  wakes = λ f _. cc;
}
  where
    filled : s.buffer.fill_count ≡ d.size + total r
    filled = v.filled ∙ ap total q

    sizes : All IsPositive (d ∷ r)
    sizes = rw q at v.sizes

    same : c.size ≡ d.size
    same = let (l, at_head) = v.at_head c e in ground arith

    held : c.size ≤ s.buffer.fill_count
    held = omega (arith, same, filled)
Step-IsSound {s} (unasked e h) v =
    move-IsSound s.client looking s.server_signal s.client_signal v (λ c f. cc) (λ f _. cc)
Step-IsSound (answer t e reads h) v = record {
  valid = omega (arith, v.valid);
  filled = v.filled;
  sizes = v.sizes;
  at_head = λ c f. cc;
  wakes = λ f _. cc;
}
Step-IsSound {s} (post_client e) v =
    move-IsSound s.client looking s.server_signal (s.client_signal + 1) v (λ c f. cc) (λ f _. cc)

pub Steps-IsSound : {generated : ℕ → ℕ} {s t : Link} → Steps generated s t → IsSound s → IsSound t
Steps-IsSound done v = v
Steps-IsSound (more r st) v = Step-IsSound st (Steps-IsSound r v)
