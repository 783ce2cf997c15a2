-- ===== src/Link/Order.antt =====
-- Every step of the two threads keeps the order of tokens.
use gpu_proxy.Base.{
  ℕ, ◌^◌, ◌≤◌, ◌<◌, ◌≡◌, ◌≢◌, refl, sym, List, [], ◌∷◌, arith, true, false, ap, ◌∙◌,
}
use gpu_proxy.Ring.{read_advance}
use gpu_proxy.Ring.Inv.{last_token-write_advance, last_token-read_advance}
use gpu_proxy.Link.{
  Command, get_size, Client, idle, signalling, testing, waiting, Server, looking, sleeping,
  handling, advanced, answering, stopped, Link, return_from, set_last_token, Step, run_async,
  run_sync, write_over, find_waiting, find_busy, post_server, pass, wait, wake_client, sleep,
  wake_server, stop, take, handle, unasked, answer, post_client,
}
use gpu_proxy.Link.Inv.{IsSound}
use gpu_proxy.Link.Tokens.{
  awaited, in_flight, quiet, Phase, none_waits, queued, handled, answered, IsOrdered,
  ends_with-append, quiet-append, next_token-small,
}

-- A step that leaves the buffer alone and what is awaited, and handles nothing.
keep-Phase :
    {s : Link} (c : Client) (w : Server) (n m : ℕ)
    → awaited c ≡ awaited s.client
    → in_flight w ≡ in_flight s.server
    → Phase s
    → Phase (record s { client = c; server = w; server_signal = n; client_signal = m })
keep-Phase c w n m e f (none_waits a q i) = none_waits (e ∙ a) q (f ∙ i)
keep-Phase c w n m e f (queued a q i) = queued (omega arith) (rw e q) (f ∙ i)
keep-Phase c w n m e f (handled a q i) = handled (omega arith) q (omega arith)
keep-Phase c w n m e f (answered a q i) = answered (omega arith) q (f ∙ i)

idle-quiet :
    {s : Link} → s.client ≡ idle → Phase s → (quiet s.queue ≡ true) × (in_flight s.server ≡ 0)
idle-quiet e (none_waits a q i) = (q, i)
idle-quiet e (queued a q i) = ground arith
idle-quiet e (handled a q i) = ground arith
idle-quiet e (answered a q i) = ground arith

pass-Phase :
    {s : Link} {t : ℕ}
    → s.client ≡ testing t
    → t ≤ s.buffer.last_token
    → Phase s
    → Phase (record s { client = idle })
pass-Phase e h (none_waits a q i) = none_waits refl q i
pass-Phase e h (queued a q i) = absurd (ground arith)
pass-Phase e h (handled a q i) = absurd (ground arith)
pass-Phase e h (answered a q i) = none_waits refl (ground arith) i

handle-Phase :
    {s : Link} {c d : Command} {r : List Command}
    → s.server ≡ handling c
    → s.queue ≡ d ∷ r
    → c ≡ d
    → Phase s
    → Phase (record s {
      buffer = read_advance s.buffer c.size;
      queue = r;
      server = advanced c;
      overwritten = false;
    })
handle-Phase {s} {c} {d} {r} e q same (none_waits a qu i) =
    none_waits a (ground arith) (ground arith)
handle-Phase {s} {c} {d} {r = []} e q same (queued a qu i) =
    handled (omega (arith, last_token-read_advance s.buffer c.size)) refl (ground arith)
handle-Phase {s} {c} {d} {r = f ∷ r} e q same (queued a qu i) =
    queued (omega (arith, last_token-read_advance s.buffer c.size)) (ground arith) (ground arith)
handle-Phase e q same (handled a qu i) = absurd (ground arith)
handle-Phase e q same (answered a qu i) = absurd (ground arith)

unasked-Phase :
    {s : Link} {c : Command}
    → s.server ≡ advanced c
    → c.token ≡ 0
    → Phase s
    → Phase (record s { server = looking })
unasked-Phase e h (none_waits a q i) = none_waits a q refl
unasked-Phase e h (queued a q i) = queued a q refl
unasked-Phase e h (handled a q i) = absurd (ground arith)
unasked-Phase e h (answered a q i) = answered a q refl

answer-Phase :
    {s : Link} {c : Command} (t : ℕ)
    → s.server ≡ advanced c
    → c.token ≡ t
    → t ≢ 0
    → Phase s
    → Phase (record s { buffer = set_last_token s.buffer t; server = answering c })
answer-Phase t e same h (none_waits a q i) = absurd (ground arith)
answer-Phase t e same h (queued a q i) = absurd (ground arith)
answer-Phase t e same h (handled a q i) = answered (ground arith) q refl
answer-Phase t e same h (answered a q i) = absurd (ground arith)

same_phase : {s : Link} → Phase s → Phase (record s { overwritten = true })
same_phase (none_waits a q i) = none_waits a q i
same_phase (queued a q i) = queued a q i
same_phase (handled a q i) = handled a q i
same_phase (answered a q i) = answered a q i

return-awaited : (c : Command) → awaited (return_from c) ≡ c.token
return-awaited c = ground arith

pub Step-Phase :
    {generated : ℕ → ℕ} {s t : Link}
    → Step generated s t
    → s.overwritten ≡ false
    → t.calls < 2 ^ 32
    → IsSound s
    → IsOrdered s
    → Phase t
Step-Phase {s} (run_async n e pos room) intact small v o =
    let (q, i) = idle-quiet e o.phase in none_waits refl (quiet-append s.queue _ q refl) i
Step-Phase {generated} {s} (run_sync k e pos room) intact small v o =
    let (q, i) = idle-quiet e o.phase in
    queued
      (omega (
        arith,
        last_token-write_advance s.buffer (get_size generated k),
        next_token-small s.token,
        o.past,
        o.counted,
      ))
      (ends_with-append _ s.queue _ q refl) i
Step-Phase {s} (write_over e f) intact small v o = same_phase o.phase
Step-Phase {s} (find_waiting {c} e h) intact small v o =
    keep-Phase (signalling c) s.server _ _ (ap awaited (sym e)) refl o.phase
Step-Phase {s} (find_busy {c} e h) intact small v o =
    keep-Phase (return_from c) s.server _ _ (return-awaited c ∙ ap awaited (sym e)) refl o.phase
Step-Phase {s} (post_server {c} e) intact small v o =
    keep-Phase (return_from c) s.server _ _ (return-awaited c ∙ ap awaited (sym e)) refl o.phase
Step-Phase (pass e h) intact small v o = pass-Phase e h o.phase
Step-Phase {s} (wait {t} e h) intact small v o =
    keep-Phase (waiting t) s.server _ _ (ap awaited (sym e)) refl o.phase
Step-Phase {s} (wake_client {t} e h) intact small v o =
    keep-Phase (testing t) s.server _ _ (ap awaited (sym e)) refl o.phase
Step-Phase {s} (sleep e h) intact small v o =
    keep-Phase s.client sleeping _ _ refl (ap in_flight (sym e)) o.phase
Step-Phase {s} (wake_server e h) intact small v o =
    keep-Phase s.client looking _ _ refl (ap in_flight (sym e)) o.phase
Step-Phase {s} (stop e h q k) intact small v o =
    keep-Phase s.client stopped _ _ refl (ap in_flight (sym e)) o.phase
Step-Phase {s} (take {c} e h q k) intact small v o =
    keep-Phase s.client (handling c) _ _ refl (ap in_flight (sym e)) o.phase
Step-Phase {s} (handle {c} {d} e q) intact small v o =
    let (r, at_head) = v.at_head c e in handle-Phase e q (ground arith) o.phase
Step-Phase (unasked e reads) intact small v o = unasked-Phase e (reads intact) o.phase
Step-Phase (answer t e reads h) intact small v o =
    answer-Phase t e (reads intact) (h intact) o.phase
Step-Phase {s} (post_client e) intact small v o =
    keep-Phase s.client looking _ _ refl (ap in_flight (sym e)) o.phase
