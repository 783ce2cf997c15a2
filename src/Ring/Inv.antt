-- ===== src/Ring/Inv.antt =====
-- The representation invariant of `buffer_t`: the counters of src/ring_buffer.c stay in range.
use gpu_proxy.Base.{
  ℕ, ◌+◌, ◌-◌, ◌*◌, ◌%◌, ◌^◌, ◌≤◌, ◌<◌, ◌≡◌, refl, true, arith, ap, ap₂, sym, ◌∙◌, none,
}
use native.Mathlib.Nat.{mod-add-mod, mod-eq_of_lt, mul-mod_left}
use gpu_proxy.Ring.{
  Buffer, create, rounded_length, write_address, write_advance, read_advance, clear, size_max,
  default_buffer_size, read_address,
}

-- `head` is `fill_count` bytes ahead of `tail`, round the ring.
pub record IsValid (b : Buffer) : Type 0 where
  pub nonempty : 0 < b.length
  pub small : b.length ≤ 2 ^ 63
  pub tail_in : b.tail < b.length
  pub fill_in : b.fill_count ≤ b.length
  pub linked : b.head ≡ (b.tail + b.fill_count) % b.length

pub head_in : {b : Buffer} → IsValid b → b.head < b.length
head_in v = omega arith

pub writable_bytes : {b : Buffer} → IsValid b → (write_address b).1 ≡ b.length - b.fill_count
unfolding write_address
writable_bytes v = omega arith

pub write_advance-IsValid :
    {b : Buffer} (n : ℕ) → IsValid b → b.fill_count + n ≤ b.length → IsValid (write_advance b n)
unfolding write_advance
write_advance-IsValid {b} n v h = record {
  nonempty = v.nonempty;
  small = v.small;
  tail_in = v.tail_in;
  fill_in = omega arith;
  linked =
      ap (λ k. k % b.length) (mod-eq_of_lt {n = b.head + n} {m = size_max} (omega arith))
      ∙ ap (λ k. (k + n) % b.length) v.linked
      ∙ mod-add-mod (b.tail + b.fill_count) b.length n
      ∙ ap (λ k. k % b.length) (omega arith);
}

pub read_advance-IsValid :
    {b : Buffer} (n : ℕ) → IsValid b → n ≤ b.fill_count → IsValid (read_advance b n)
unfolding read_advance
read_advance-IsValid {b} n v h = record {
  nonempty = v.nonempty;
  small = v.small;
  tail_in = omega arith;
  fill_in = omega arith;
  linked =
      v.linked
      ∙ ap (λ k. k % b.length) (omega arith)
      ∙ sym (mod-add-mod (b.tail + n) b.length (b.fill_count - n))
      ∙ ap₂ (λ j k. (j % b.length + k) % b.length)
          (sym (mod-eq_of_lt {n = b.tail + n} {m = size_max} (omega arith))) (omega arith);
}

pub clear-IsValid : {b : Buffer} → IsValid b → IsValid (clear b)
unfolding clear
clear-IsValid v = omega arith

-- Whole pages, and no less than was asked for, nor than the default size.
pub rounded_length_bounds :
    (page_size size : ℕ)
    → 0 < page_size
    → 1024 * size < 2 ^ 31
    → (1024 * size ≤ rounded_length page_size size)
      × (default_buffer_size ≤ rounded_length page_size size)
      × (rounded_length page_size size % page_size ≡ 0)
      × (rounded_length page_size size < 1024 * size + default_buffer_size + page_size)
unfolding rounded_length
rounded_length_bounds page_size size pos small =
    (grind arith, grind arith, mul-mod_left _ _, grind arith)

-- A buffer that `buffer_create` has set up is valid and empty, whatever its fields held, if the
-- machine's page size is positive, the size asked for is no `int` that overflows, and with the page it leaves room
-- below `2 ^ 63`.
pub create-IsValid :
    (page_size size : ℕ) (b : Buffer)
    → 0 < page_size
    → 1024 * size < 2 ^ 31
    → 1024 * size + default_buffer_size + page_size ≤ 2 ^ 63
    → IsValid (create page_size size true b)
      × ((create page_size size true b).fill_count ≡ 0)
      × (1024 * size ≤ (create page_size size true b).length)
      × ((create page_size size true b).length % page_size ≡ 0)
unfolding create
create-IsValid page_size size b pos small h =
    let (asked, least, pages, most) = rounded_length_bounds page_size size pos small in
    (
      record {
        nonempty = omega arith;
        small = omega arith;
        tail_in = omega arith;
        fill_in = omega arith;
        linked = sym (mod-eq_of_lt {n = 0} (omega arith));
      },
      refl,
      asked,
      pages,
    )

-- What the operations do to the counters of a valid buffer.
pub fill_count-write_advance :
    {b : Buffer} (n : ℕ)
    → IsValid b
    → b.fill_count + n ≤ b.length
    → (write_advance b n).fill_count ≡ b.fill_count + n
unfolding write_advance
fill_count-write_advance n v h = omega (arith, v.small)

pub fill_count-read_advance :
    {b : Buffer} (n : ℕ)
    → IsValid b
    → n ≤ b.fill_count
    → (read_advance b n).fill_count ≡ b.fill_count - n
unfolding read_advance
fill_count-read_advance n v h = omega (arith, v.small)

pub last_token-write_advance : (b : Buffer) (n : ℕ) → (write_advance b n).last_token ≡ b.last_token
unfolding write_advance
last_token-write_advance b n = refl

pub last_token-read_advance : (b : Buffer) (n : ℕ) → (read_advance b n).last_token ≡ b.last_token
unfolding read_advance
last_token-read_advance b n = refl

-- NULL is read exactly at an empty buffer.
pub read_address-none : (b : Buffer) → (read_address b).0 ≡ none → b.fill_count ≡ 0
unfolding read_address
read_address-none b h = ground arith

pub read_address-empty : (b : Buffer) → b.fill_count ≡ 0 → (read_address b).0 ≡ none
unfolding read_address
read_address-empty b h = ground arith
