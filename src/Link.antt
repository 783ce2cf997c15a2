-- ===== src/Link.antt =====
-- src/client/client.c, src/server/server.c and src/command.c: how the client thread hands commands
-- to the server thread, one shared access at a time. The ring buffer is that of Ring.antt; `queue`
-- is the commands whose bytes it holds.
pub mod Inv
pub mod Tokens
pub mod Order
pub mod Reach
pub mod Waits
pub mod Safety
pub mod Shutdown
use gpu_proxy.Base.{
  ℕ, ◌+◌, ◌-◌, ◌%◌, true, false, ◌||◌, ltb, ◌^◌, ◌≤◌, ◌<◌, ◌≡◌, ◌≢◌, none, some, Bool, List, [],
  ◌∷◌, ◌++◌, ◌==◌, if◌then◌else◌, refl,
}
use gpu_proxy.Ring.{Buffer, write_address, write_advance, read_address, read_advance}

-- `command_type_t`: the two fixed commands, and the generated ones by number.
pub data Kind : Type 0 where
  no_op shutdown : Kind
  call : ℕ → Kind

-- `command_t`, the header of every command.
pub record Command : Type 0 where
  pub kind : Kind
  pub size : ℕ
  pub token : ℕ

-- `sizeof (command_t)`: a 4-byte enum, padding, an 8-byte size and a 4-byte token, padded to 8.
abbrev pub sizeof_command : ℕ
sizeof_command = 24

-- `command_get_size`. The sizes of the generated commands are the generated table's.
abbrev pub get_size : (ℕ → ℕ) → Kind → ℕ
get_size generated no_op = 0
get_size generated shutdown = sizeof_command
get_size generated (call n) = generated n

-- What `client_get_space_for_command` leaves in the buffer.
abbrev pub new_command : (ℕ → ℕ) → Kind → Command
new_command generated k = record { kind = k; size = get_size generated k; token = 0 }

-- Where the client thread stands: outside every call; in `client_run_command_async`, after the
-- advance, and before the `sem_post`; in the loop of `client_run_command`, before its test, and in
-- its `sem_wait`.
pub data Client : Type 0 where
  idle : Client
  published : Command → Client
  signalling : Command → Client
  testing : ℕ → Client
  waiting : ℕ → Client

-- Where the server thread stands in `server_start_work_loop`: before `buffer_read_address`; in its
-- `sem_wait`; in the handler; after `buffer_read_advance`; before `sem_post`; out of the loop.
pub data Server : Type 0 where
  looking : Server
  sleeping : Server
  handling : Command → Server
  advanced : Command → Server
  answering : Command → Server
  stopped : Server

-- Two fields that no code reads: `calls` counts the synchronous calls so far, and `overwritten` tells
-- that the client may have written over the command that the server gave back, whose token it reads
-- after `buffer_read_advance`.
pub record Link : Type 0 where
  pub buffer : Buffer
  pub queue : List Command
  pub token : ℕ
  pub client : Client
  pub server : Server
  pub server_signal : ℕ
  pub client_signal : ℕ
  pub calls : ℕ
  pub overwritten : Bool

-- `token = ++client->token`, and 1 if that is 0: the new counter, and the token.
abbrev pub next_counter : ℕ → ℕ
next_counter counter = (counter + 1) % 2 ^ 32

abbrev pub next_token : ℕ → ℕ
next_token counter = if next_counter counter == 0 then 1 else next_counter counter

-- Where `client_run_command_async` returns to. Only `client_run_command` sets a token.
abbrev pub return_from : Command → Client
return_from c = if c.token == 0 then idle else testing c.token

-- A command of a size reaches the bytes of the command whose token the server has still to read: there is
-- no room for both beside the bytes in the buffer.
abbrev pub reaches : Link → ℕ → Bool
reaches s n = elim s.server [
  | looking ↦ false
  | sleeping ↦ false
  | handling c ↦ false
  | advanced c ↦ ltb s.buffer.length (s.buffer.fill_count + n + c.size)
  | answering c ↦ false
  | stopped ↦ false
]

-- `buffer_write_advance` over a command that was written at the write address.
abbrev pub publish : Link → Command → Link
publish s c = record s {
  buffer = write_advance s.buffer c.size;
  queue = s.queue ++ (c ∷ []);
  client = published c;
  overwritten = s.overwritten || reaches s c.size;
}

-- `client_client_run_command`: the token is drawn, and the command published with it.
abbrev pub publish_sync : Link → Command → Link
publish_sync s c = record (publish s (record c { token = next_token s.token })) {
  token = next_counter s.token;
  calls = s.calls + 1;
}

abbrev pub set_last_token : Buffer → ℕ → Buffer
set_last_token b t = record b { last_token = t }

-- One step of either thread. A command is written once the loop of `client_get_space_for_size`
-- finds room for it. The client is the only writer, the server the only reader. The server reads the
-- token of a command after it gave its bytes back, once for its test and once to store it: where the client
-- may have written over them, it reads any numbers.
pub data Step (generated : ℕ → ℕ) (s : Link) : Link → Type 0 where
  run_async :
      (n : ℕ)
      → s.client ≡ idle
      → 0 < generated n
      → generated n ≤ (write_address s.buffer).1
      → Step generated s (publish s (new_command generated (call n)))
  run_sync :
      (k : Kind)
      → s.client ≡ idle
      → 0 < get_size generated k
      → get_size generated k ≤ (write_address s.buffer).1
      → Step generated s (publish_sync s (new_command generated k))
  write_over :
      {c : Command}
      → s.client ≡ idle
      → s.server ≡ advanced c
      → Step generated s (record s { overwritten = true })
  find_waiting :
      {c : Command}
      → s.client ≡ published c
      → s.buffer.fill_count ≡ c.size
      → Step generated s (record s { client = signalling c })
  find_busy :
      {c : Command}
      → s.client ≡ published c
      → s.buffer.fill_count ≢ c.size
      → Step generated s (record s { client = return_from c })
  post_server :
      {c : Command}
      → s.client ≡ signalling c
      → Step generated s (record s { server_signal = s.server_signal + 1; client = return_from c })
  pass :
      {t : ℕ}
      → s.client ≡ testing t
      → t ≤ s.buffer.last_token
      → Step generated s (record s { client = idle })
  wait :
      {t : ℕ}
      → s.client ≡ testing t
      → s.buffer.last_token < t
      → Step generated s (record s { client = waiting t })
  wake_client :
      {t : ℕ}
      → s.client ≡ waiting t
      → 0 < s.client_signal
      → Step generated s (record s { client_signal = s.client_signal - 1; client = testing t })
  sleep :
      s.server ≡ looking
      → (read_address s.buffer).0 ≡ none
      → Step generated s (record s { server = sleeping })
  wake_server :
      s.server ≡ sleeping
      → 0 < s.server_signal
      → Step generated s (record s { server_signal = s.server_signal - 1; server = looking })
  stop :
      {c : Command} {r : List Command}
      → s.server ≡ looking
      → (read_address s.buffer).0 ≢ none
      → s.queue ≡ c ∷ r
      → c.kind ≡ shutdown
      → Step generated s (record s { server = stopped })
  take :
      {c : Command} {r : List Command}
      → s.server ≡ looking
      → (read_address s.buffer).0 ≢ none
      → s.queue ≡ c ∷ r
      → c.kind ≢ shutdown
      → Step generated s (record s { server = handling c })
  handle :
      {c d : Command} {r : List Command}
      → s.server ≡ handling c
      → s.queue ≡ d ∷ r
      → Step generated s (record s {
        buffer = read_advance s.buffer c.size;
        queue = r;
        server = advanced c;
        overwritten = false;
      })
  unasked :
      {c : Command}
      → s.server ≡ advanced c
      → (s.overwritten ≡ false → c.token ≡ 0)
      → Step generated s (record s { server = looking })
  answer :
      {c : Command}
      → (t : ℕ) → s.server ≡ advanced c
      → (s.overwritten ≡ false → c.token ≡ t)
      → (s.overwritten ≡ false → t ≢ 0)
      → Step generated s (record s { buffer = set_last_token s.buffer t; server = answering c })
  post_client :
      {c : Command}
      → s.server ≡ answering c
      → Step generated s (record s { client_signal = s.client_signal + 1; server = looking })

pub data Steps (generated : ℕ → ℕ) (s : Link) : Link → Type 0 where
  done : Steps generated s s
  more : {t u : Link} → Steps generated s t → Step generated t u → Steps generated s u

-- A run in which the client never writes over a command whose token the server has still to read: in
-- every state that a step is taken from.
unfoldable pub IsIntact : {generated : ℕ → ℕ} {s t : Link} → Steps generated s t → Type 0
IsIntact done = Unit
IsIntact (more {t} r st) = IsIntact r × (t.overwritten ≡ false)

-- `client_init` and the start of the server thread, over a buffer that `buffer_create` set up.
abbrev pub start : Buffer → Link
start b = record {
  buffer = b;
  queue = [];
  token = 0;
  client = idle;
  server = looking;
  server_signal = 0;
  client_signal = 0;
  calls = 0;
  overwritten = false;
}
