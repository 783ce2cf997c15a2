-- ===== src/Ring/Mirror.antt =====
-- Bytes read back through the mirrored mapping after bytes were written through it.
use gpu_proxy.Base.{
  ℕ, zero, suc, ◌+◌, ◌-◌, ◌%◌, ◌≤◌, ◌<◌, ◌≡◌, ◌≢◌, refl, sym, ap, ap₂, ◌∙◌, ◌≡⟨◌⟩◌, ◌∎, List, [],
  ◌∷◌, ◌++◌, length, take, drop, append_assoc, append-nil, arith, ◌==◌, if◌then◌else◌,
}
use native.Mathlib.Nat.{mod-add-mod, mod-eq_of_lt, mod-eq-sub-mod, add-zero}
use native.Mathlib.Decide.{dec_lt}
use gpu_proxy.Ring.{poke, peek, read_bytes, write_bytes}

-- Fewer than `len` steps from a position inside the ring do not come back to it.
add-mod-ne_inside : (len r d : ℕ) → r < len → 0 < d → d < len → (r + d) % len ≢ r
add-mod-ne_inside len r d hr pos hd = elim (dec_lt (r + d) len) [
  | yes p ↦ omega (arith, mod-eq_of_lt p)
  | no p ↦ omega (
    arith,
    mod-eq-sub-mod {n = r + d} {m = len} (omega arith),
    mod-eq_of_lt {n = r + d - len} {m = len} (omega arith),
  )
]

pub add-mod-ne : (len i d : ℕ) → 0 < d → d < len → (i + d) % len ≢ i % len
add-mod-ne len i d pos hd e =
    add-mod-ne_inside len (i % len) d (omega arith) pos hd (mod-add-mod i len d ∙ e)

suc-mod : (len i j : ℕ) → i % len ≡ j % len → suc i % len ≡ suc j % len
suc-mod len i j e =
    suc i % len
    ≡⟨ ap (λ k. k % len) (omega arith) ⟩ (i + 1) % len
    ≡⟨ sym (mod-add-mod i len 1) ⟩ (i % len + 1) % len
    ≡⟨ ap (λ k. (k + 1) % len) e ⟩ (j % len + 1) % len
    ≡⟨ mod-add-mod j len 1 ⟩ (j + 1) % len
    ≡⟨ ap (λ k. k % len) (omega arith) ⟩ suc j % len ∎

-- Reading depends only on the position in the ring.
pub read_bytes-mod :
    (cells : ℕ → ℕ) (len i j n : ℕ)
    → i % len ≡ j % len
    → read_bytes cells len i n ≡ read_bytes cells len j n
read_bytes-mod cells len i j zero e = refl
read_bytes-mod cells len i j (suc n) e =
    ap₂ ◌∷◌ (ap cells e) (read_bytes-mod cells len (suc i) (suc j) n (suc-mod len i j e))

-- So does writing.
pub write_bytes-mod :
    (cells : ℕ → ℕ) (len i j : ℕ) (xs : List ℕ)
    → i % len ≡ j % len
    → write_bytes cells len i xs ≡ write_bytes cells len j xs
write_bytes-mod cells len i j [] e = refl
write_bytes-mod cells len i j (x ∷ xs) e =
    ap (λ k. write_bytes (λ m. if k == m then x else cells m) len (suc i) xs) e
    ∙ write_bytes-mod (poke cells len j x) len (suc i) (suc j) xs (suc-mod len i j e)

-- One byte written just past a stretch of fewer than `len` bytes extends it by that byte.
read_bytes-poke :
    (cells : ℕ → ℕ) (len x i n w : ℕ)
    → n < len
    → w ≡ i + n
    → read_bytes (poke cells len w x) len i (suc n) ≡ read_bytes cells len i n ++ (x ∷ [])
read_bytes-poke cells len x i zero w hn e =
    ap (λ t. t ∷ []) (ground (arith, ap (λ k. k % len) (e ∙ add-zero i)))
read_bytes-poke cells len x i (suc n) w hn e =
    ap₂ ◌∷◌ (ground (arith, add-mod-ne len i (suc n), ap (λ k. k % len) e))
      (read_bytes-poke cells len x (suc i) n w (omega arith) (omega arith))

-- A list written just past a stretch of bytes extends it by that list, if the ring has room.
pub read_bytes-write_bytes :
    (cells : ℕ → ℕ) (len i n w : ℕ) (xs : List ℕ)
    → n + length xs ≤ len
    → w ≡ i + n
    → read_bytes (write_bytes cells len w xs) len i (n + length xs) ≡ read_bytes cells len i n ++ xs
read_bytes-write_bytes cells len i n w [] h e =
    ap (read_bytes cells len i) (add-zero n) ∙ sym (append-nil _)
read_bytes-write_bytes cells len i n w (x ∷ xs) h e =
    ap (read_bytes (write_bytes (poke cells len w x) len (suc w) xs) len i) (omega arith)
    ∙ read_bytes-write_bytes (poke cells len w x) len i (suc n) (suc w) xs (omega arith)
        (omega arith)
    ∙ ap (λ t. t ++ xs) (read_bytes-poke cells len x i n w (omega arith) e)
    ∙ append_assoc (read_bytes cells len i n) (x ∷ []) xs

pub read_bytes-take :
    (cells : ℕ → ℕ) (len i n m : ℕ)
    → n ≤ m
    → read_bytes cells len i n ≡ take n (read_bytes cells len i m)
read_bytes-take cells len i zero m h = refl
read_bytes-take cells len i (suc n) zero h = absurd (omega arith)
read_bytes-take cells len i (suc n) (suc m) h =
    ap (λ t. peek cells len i ∷ t) (read_bytes-take cells len (suc i) n m (omega arith))

pub read_bytes-drop :
    (cells : ℕ → ℕ) (len i n m : ℕ)
    → read_bytes cells len (i + n) m ≡ drop n (read_bytes cells len i (n + m))
read_bytes-drop cells len i zero m = ap₂ (read_bytes cells len) (add-zero i) (omega arith)
read_bytes-drop cells len i (suc n) m =
    ap (λ k. read_bytes cells len k m) (omega arith)
    ∙ read_bytes-drop cells len (suc i) n m
    ∙ ap (λ k. drop (suc n) (read_bytes cells len i k)) {x = suc (n + m)} (omega arith)
