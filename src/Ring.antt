-- ===== src/Ring.antt =====
-- src/ring_buffer.c: the memory-mirrored ring buffer that carries commands from the client
-- thread to the server thread.
pub mod Mirror
pub mod Inv
pub mod Stream
use gpu_proxy.Base.{
  ℕ, zero, suc, ◌+◌, ◌-◌, ◌*◌, ◌/◌, ◌%◌, ◌^◌, Option, none, some, Bool, List, [], ◌∷◌, ltb, ◌==◌,
  if◌then◌else◌,
}

-- `buffer_t`. Offsets count from `address`. `cells` are the bytes of the file behind the mapping,
-- at 0 to `length - 1`; `size_t` has 64 bits.
pub record Buffer : Type 0 where
  pub length : ℕ
  pub tail : ℕ
  pub head : ℕ
  pub last_token : ℕ
  pub fill_count : ℕ
  pub cells : ℕ → ℕ

abbrev pub size_max : ℕ
size_max = 2 ^ 64

-- `default_buffer_size`
abbrev pub default_buffer_size : ℕ
default_buffer_size = 1024 * 512

-- `1024 * size` in an `int`, which wraps around, and then as an `unsigned long`.
abbrev pub wanted_length : ℕ → ℕ
wanted_length size =
    let product = 1024 * size % 2 ^ 32 in
    if ltb product (2 ^ 31) then product else product + (2 ^ 64 - 2 ^ 32)

-- The length that `buffer_create` asks for, rounded up to whole pages; `size` is the pattern of its `int`.
pub rounded_length : ℕ → ℕ → ℕ
rounded_length page_size size =
    let wanted = wanted_length size in
    let asked = if ltb wanted default_buffer_size then default_buffer_size else wanted in
    (asked + page_size - 1) / page_size * page_size

-- `buffer_create`: without a file descriptor it returns and leaves the structure as it was. A new
-- file reads as zeros. The mappings are taken to succeed: for a failure the code only prints.
pub create : ℕ → ℕ → Bool → Buffer → Buffer
create page_size size descriptor_ok b =
    if descriptor_ok
    then record {
      length = rounded_length page_size size;
      tail = 0;
      head = 0;
      last_token = 0;
      fill_count = 0;
      cells = λ _. 0;
    }
    else b

pub num_entries : Buffer → ℕ
num_entries b = b.fill_count

pub size : Buffer → ℕ
size b = b.length

-- The address, as an offset, or NULL; and what goes through the `size_t *`.
unfoldable pub write_address : Buffer → Option ℕ × ℕ
write_address b =
    let writable_bytes = (size_max + b.length - b.fill_count) % size_max in
    (if writable_bytes == 0 then none else some b.head, writable_bytes)

unfoldable pub write_advance : Buffer → ℕ → Buffer
write_advance b count_bytes = record b {
  head = (b.head + count_bytes) % size_max % b.length;
  fill_count = (b.fill_count + count_bytes) % size_max;
}

unfoldable pub read_address : Buffer → Option ℕ × ℕ
read_address b = (if b.fill_count == 0 then none else some b.tail, b.fill_count)

unfoldable pub read_advance : Buffer → ℕ → Buffer
read_advance b count_bytes = record b {
  tail = (b.tail + count_bytes) % size_max % b.length;
  fill_count = (size_max + b.fill_count - count_bytes) % size_max;
}

pub clear : Buffer → Buffer
clear b = record b { head = 0; tail = 0; fill_count = 0 }

-- The two adjacent mappings of one file: the byte at offset `i` of the `2 * length` mapped bytes
-- is the file's byte `i % length`.
abbrev pub peek : (ℕ → ℕ) → ℕ → ℕ → ℕ
peek cells len i = cells (i % len)

abbrev pub poke : (ℕ → ℕ) → ℕ → ℕ → ℕ → ℕ → ℕ
poke cells len i v j = if i % len == j then v else cells j

-- Reading `n` bytes, and writing a list of bytes, from an offset on through the mapping.
abbrev pub read_bytes : (ℕ → ℕ) → ℕ → ℕ → ℕ → List ℕ
read_bytes cells len i zero = []
read_bytes cells len i (suc n) = peek cells len i ∷ read_bytes cells len (suc i) n

abbrev pub write_bytes : (ℕ → ℕ) → ℕ → ℕ → List ℕ → ℕ → ℕ
write_bytes cells len i [] = cells
write_bytes cells len i (x ∷ xs) = write_bytes (poke cells len i x) len (suc i) xs
