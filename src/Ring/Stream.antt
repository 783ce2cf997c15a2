-- ===== src/Ring/Stream.antt =====
-- A valid buffer behaves as a queue of bytes: what the client writes at the write address and
-- advances over, the server finds, in order, at the read address.
use gpu_proxy.Base.{
  ℕ, ◌+◌, ◌-◌, ◌%◌, ◌≤◌, ◌≡◌, refl, ap, ◌∙◌, some, List, ◌++◌, length, take, drop, arith, sym, zero,
  suc, ◌==◌, if◌then◌else◌, none,
}
use native.Mathlib.Nat.{mod-eq_of_lt, mod-mod}
use gpu_proxy.Ring.{
  Buffer, write_address, write_advance, read_address, read_advance, read_bytes, write_bytes,
  size_max,
}
use gpu_proxy.Ring.Mirror.{
  read_bytes-mod, write_bytes-mod, read_bytes-write_bytes, read_bytes-take, read_bytes-drop,
}
use gpu_proxy.Ring.Inv.{
  IsValid, write_advance-IsValid, read_advance-IsValid, writable_bytes, head_in,
}

-- The bytes written and not yet read, oldest first.
abbrev pub contents : Buffer → List ℕ
contents b = read_bytes b.cells b.length b.tail b.fill_count

-- Write a list at an offset through the mapping, as the commands' initialisers do.
pub fill : Buffer → ℕ → List ℕ → Buffer
fill b offset xs = record b { cells = write_bytes b.cells b.length offset xs }

fill-IsValid : (b : Buffer) (xs : List ℕ) → IsValid b → IsValid (fill b b.head xs)
unfolding fill
fill-IsValid b xs v = omega arith

length-read_bytes : (cells : ℕ → ℕ) (len i n : ℕ) → length (read_bytes cells len i n) ≡ n
length-read_bytes cells len i zero = refl
length-read_bytes cells len i (suc n) = ap suc (length-read_bytes cells len (suc i) n)

-- On a valid buffer `buffer_write_address` reports the free space, which is the length less
-- the bytes of the contents, and gives NULL just when there
-- is none. Bytes written at its address, no more than it reports, and advanced over join the
-- contents at the end, and the buffer stays valid.
pub produce :
    (b : Buffer) (xs : List ℕ)
    → IsValid b
    → length xs ≤ (write_address b).1
    → IsValid (write_advance (fill b b.head xs) (length xs))
      × (contents (write_advance (fill b b.head xs) (length xs)) ≡ contents b ++ xs)
      × ((write_address b).0 ≡ (if b.fill_count == b.length then none else some b.head))
      × ((write_address b).1 + length (contents b) ≡ b.length)
unfolding write_address write_advance fill
produce b xs v h = (
  write_advance-IsValid {b = fill b b.head xs} (length xs) (fill-IsValid b xs v) room,
  ap (read_bytes (write_bytes cells len b.head xs) len b.tail)
        (mod-eq_of_lt {n = b.fill_count + length xs} {m = size_max} (omega (arith, v.small)))
      ∙ ap (λ c. read_bytes c len b.tail (b.fill_count + length xs))
          (write_bytes-mod cells len b.head (b.tail + b.fill_count) xs at_end)
      ∙ read_bytes-write_bytes cells len b.tail b.fill_count (b.tail + b.fill_count) xs room refl,
  ap (λ t. if t then none else some b.head) same,
  omega (arith, writable_bytes v, length-read_bytes cells len b.tail b.fill_count, v.fill_in),
)
  where
    open b use {cells, length as len}

    same : ((size_max + b.length - b.fill_count) % size_max == 0) ≡ (b.fill_count == b.length)
    same = ground (arith, v.small, v.fill_in, v.nonempty)

    room : b.fill_count + length xs ≤ b.length
    room = omega (arith, writable_bytes v)

    at_end : b.head % b.length ≡ (b.tail + b.fill_count) % b.length
    at_end = mod-eq_of_lt (head_in v) ∙ v.linked

-- On a valid buffer `buffer_read_address` gives NULL just when it is empty; the bytes found at its
-- address are the oldest of the contents, and advancing over them drops exactly those.
pub consume :
    (b : Buffer) (n : ℕ)
    → IsValid b
    → n ≤ (read_address b).1
    → IsValid (read_advance b n)
      × (read_bytes b.cells b.length b.tail n ≡ take n (contents b))
      × (contents (read_advance b n) ≡ drop n (contents b))
      × ((read_address b).0 ≡ (if length (contents b) == 0 then none else some b.tail))
unfolding read_address read_advance
consume b n v h = (
  read_advance-IsValid n v h,
  read_bytes-take cells len b.tail n b.fill_count h,
  read_bytes-mod cells len ((b.tail + n) % size_max % len) (b.tail + n) _ at_start
      ∙ ap (read_bytes cells len (b.tail + n)) (omega (arith, v.small))
      ∙ read_bytes-drop cells len b.tail n (b.fill_count - n)
      ∙ ap (λ k. drop n (read_bytes cells len b.tail k)) {x = n + (b.fill_count - n)} (omega arith),
  ap (λ k. if k == 0 then none else some b.tail)
      (sym (length-read_bytes cells len b.tail b.fill_count)),
)
  where
    open b use {cells, length as len}

    at_start : (b.tail + n) % size_max % b.length % b.length ≡ (b.tail + n) % b.length
    at_start =
        mod-mod _ _
        ∙ ap (λ k. k % b.length) (mod-eq_of_lt {n = b.tail + n} {m = size_max} (omega arith))
