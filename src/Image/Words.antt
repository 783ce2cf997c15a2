-- ===== src/Image/Words.antt =====
-- The checked sum and product of words are exact: they fail just where the true value does not fit.
use gpu_proxy.Base.{
  ℕ, ◌+◌, ◌*◌, ◌/◌, ◌≤◌, ◌<◌, ◌≡◌, ◌≢◌, refl, ltb, if◌then◌else◌, none, some, arith, ap, Option,
}
use native.Mathlib.Decide.{dec_lt}
use native.Mathlib.Nat.{div-mul-le_self, mul-div_cancel, mul-zero, mod-eq_of_lt}
use gpu_proxy.Image.{◌>>=◌, word, mul32, safe_multiply, safe_add}

mul-div : (a b : ℕ) → b ≢ 0 → a * b / b ≡ a
mul-div a b h = mul-div_cancel a (omega arith)

wrapped-div-ne : (a b : ℕ) → word ≤ a * b → mul32 a b / b ≢ a
wrapped-div-ne a b over e = absurd (omega (arith, div-mul-le_self (mul32 a b) b, ap (λ q. q * b) e))

-- `safe_multiply` of two words returns true, with their product, just if it is below `2 ^ 32`.
pub safe_multiply_exact :
    (a b : ℕ)
    → a < word
    → b < word
    → safe_multiply a b ≡ (if ltb (a * b) word then some (a * b) else none)
unfolding safe_multiply
safe_multiply_exact a b ha hb = elim (dec_lt (a * b) word) [
  | yes fits ↦ ground (arith, mul-div a b, mod-eq_of_lt fits)
  | no over ↦ ground (arith, wrapped-div-ne a b (omega arith), mul-zero a)
]

-- `safe_add` of two words returns true, with their sum, just if it is below `2 ^ 32`.
pub safe_add_exact :
    (a b : ℕ)
    → a < word
    → b < word
    → safe_add a b ≡ (if ltb (a + b) word then some (a + b) else none)
unfolding safe_add
safe_add_exact a b ha hb = ground arith

-- The parts of a chain that succeeds.
pub >>=-eq-some :
    {A B : Type 0} (m : Option A) (f : A → Option B) {b : B}
    → (m >>= f) ≡ some b
    → (a : A) × (m ≡ some a) × (f a ≡ some b)
>>=-eq-some none f e = cc
>>=-eq-some (some a) f e = (a, refl, e)
