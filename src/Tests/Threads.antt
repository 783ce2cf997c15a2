-- ===== src/Tests/Threads.antt =====
-- src/client/client.c and src/server/server.c at concrete inputs: one call, step by step.
use gpu_proxy.Base.{ℕ, ◌-◌, ◌^◌, ◌≤◌, ◌≡◌, ◌≢◌, refl, true, [], arith}
use gpu_proxy.Ring.{Buffer, write_address, write_advance, read_address, read_advance}
use gpu_proxy.Ring.Inv.{IsValid}
use gpu_proxy.Link.{
  Kind, Command, new_command, Client, Server, Link, publish_sync, set_last_token, Step, Steps,
  IsIntact, start,
}
use gpu_proxy.Link.Inv.{posts}
use gpu_proxy.Link.Reach.{IsReached}
use gpu_proxy.Link.Safety.{accounting, server_wakeup, no_deadlock, sync_barrier}
use gpu_proxy.Link.Shutdown.{shutdown_hangs}

-- Every generated command has 32 bytes.
abbrev sizes : ℕ → ℕ
sizes n = 32

abbrev ring : Buffer
ring = record { length = 64; tail = 0; head = 0; last_token = 0; fill_count = 0; cells = λ i. 0 }

ring-IsValid : IsValid ring
ring-IsValid = record {
  nonempty = omega arith;
  small = omega arith;
  tail_in = omega arith;
  fill_in = omega arith;
  linked = refl;
}

-- A synchronous call, handled and answered before the client looks.
abbrev command : Command
command = record { kind = Kind.call 5; size = 32; token = 1 }

abbrev called : Link
called = publish_sync (start ring) (new_command sizes (Kind.call 5))

called-Steps : Steps sizes (start ring) called
unfolding write_address
called-Steps = Steps.more Steps.done (Step.run_sync (Kind.call 5) refl (omega arith) (omega arith))

abbrev signalled : Link
signalled = record called { server_signal = 1; client = Client.testing 1 }

signalled-Steps : Steps sizes (start ring) signalled
unfolding write_advance
signalled-Steps =
    Steps.more (Steps.more called-Steps (Step.find_waiting refl refl)) (Step.post_server refl)

abbrev waiting : Link
waiting = record signalled { client = Client.waiting 1 }

waiting-IsReached : IsReached sizes ring waiting
unfolding write_advance
waiting-IsReached = record {
  valid = ring-IsValid;
  empty = refl;
  fresh = refl;
  steps = Steps.more signalled-Steps (Step.wait refl (omega arith));
}

abbrev answered : Link
answered = record signalled {
  buffer = set_last_token (read_advance called.buffer 32) 1;
  queue = [];
  client_signal = 1;
}

answered-IsReached : IsReached sizes ring answered
unfolding write_advance read_advance read_address
answered-IsReached = record {
  valid = ring-IsValid;
  empty = refl;
  fresh = refl;
  steps =
      Steps.more
        (Steps.more
          (Steps.more
            (Steps.more signalled-Steps (Step.take refl (ground arith) refl (ground arith)))
            (Step.handle refl refl))
          (Step.answer 1 refl (λ _. refl) (λ _. ground arith)))
        (Step.post_client refl);
}

accounting_example : (called.buffer.fill_count ≡ 32) × (called.buffer.fill_count ≤ 64)
unfolding write_advance
accounting_example =
    accounting (record { valid = ring-IsValid; empty = refl; fresh = refl; steps = called-Steps })

-- The server found nothing and went to sleep before the call.
abbrev asleep : Link
asleep = record called { server = Server.sleeping }

asleep-IsReached : IsReached sizes ring asleep
unfolding write_address read_address
asleep-IsReached = record {
  valid = ring-IsValid;
  empty = refl;
  fresh = refl;
  steps =
      Steps.more (Steps.more Steps.done (Step.sleep refl refl))
        (Step.run_sync (Kind.call 5) refl (omega arith) (omega arith));
}

server_wakeup_example : posts (Client.published command) asleep.buffer.fill_count ≡ true
server_wakeup_example = server_wakeup asleep-IsReached refl refl (ground arith)

no_deadlock_example : (u : Link) × Step sizes waiting u
no_deadlock_example = no_deadlock waiting-IsReached (ground arith) refl

sync_barrier_example :
    (answered.queue ≡ []) × (answered.buffer.fill_count ≡ 0) × (answered.buffer.last_token ≡ 1)
unfolding IsIntact answered-IsReached signalled-Steps called-Steps
sync_barrier_example =
    sync_barrier answered-IsReached (((((((tt, refl), refl), refl), refl), refl), refl), refl)
      (omega arith) refl (omega arith)

-- The call that shuts the server down, which then leaves its loop.
abbrev shutting : Link
shutting = publish_sync (start ring) (new_command sizes Kind.shutdown)

abbrev stopped : Link
stopped = record shutting { server_signal = 1; client = Client.testing 1; server = Server.stopped }

stopped-IsReached : IsReached sizes ring stopped
unfolding write_address write_advance read_address
stopped-IsReached = record {
  valid = ring-IsValid;
  empty = refl;
  fresh = refl;
  steps =
      Steps.more
        (Steps.more
          (Steps.more
            (Steps.more Steps.done (Step.run_sync Kind.shutdown refl (omega arith) (omega arith)))
            (Step.find_waiting refl refl))
          (Step.post_server refl))
        (Step.stop refl (ground arith) refl refl);
}

abbrev hung : Link
hung = record stopped { client = Client.waiting 1 }

hung-Steps : Steps sizes stopped hung
unfolding write_advance
hung-Steps = Steps.more Steps.done (Step.wait refl (omega arith))

shutdown_hangs_example : hung.client ≢ Client.idle
unfolding IsIntact stopped-IsReached
shutdown_hangs_example =
    shutdown_hangs stopped-IsReached ((((tt, refl), refl), refl), refl) (omega arith) refl
      hung-Steps

abbrev last_call : Link
last_call = record (start (set_last_token ring (2 ^ 32 - 1))) { token = 2 ^ 32 - 1 }
