-- ===== src/Lzip/Header/Bits.antt =====
-- `real_bits`: the number of binary digits.
use lzip_os.Base.{ℕ, zero, suc, ◌+◌, ◌*◌, ◌/◌, ◌^◌, ◌≤◌, ◌<◌, ◌≡◌, arith}
use lzip_os.Base.{◌∙◌, ◌⊎◌, inl, inr}
use native.Mathlib.Nat.{pow-suc}
use lzip_os.Lzip.Header.{real_bits_loop, real_bits}

-- `k` is the number of binary digits of `v`.
abbrev pub HasDigits : ℕ → ℕ → Type 0
HasDigits v k = (v < 2 ^ k) × (2 ^ k ≤ 2 * v + 1)

real_bits_loop_lem :
    (k rounds v bits : ℕ) → HasDigits v k → k ≤ rounds → real_bits_loop rounds v bits ≡ bits + k
unfolding real_bits_loop
real_bits_loop_lem zero zero v bits d h = omega arith
real_bits_loop_lem zero (suc rounds) v bits d h = ground arith
real_bits_loop_lem (suc k) zero v bits d h = absurd (omega arith)
real_bits_loop_lem (suc k) (suc rounds) v bits d h = ground (
  arith,
  pow-suc 2 k,
  real_bits_loop_lem k rounds (v / 2) (bits + 1)
      (omega (arith, pow-suc 2 k), omega (arith, pow-suc 2 k)) (omega arith),
)

some_digits : (n v : ℕ) → v < 2 ^ n → (k : ℕ) × (k ≤ n) × HasDigits v k
some_digits zero v h = (0, omega arith, (omega arith, omega arith))
some_digits (suc n) v h =
    let split : (v < 2 ^ n) ⊎ (2 ^ n ≤ v) = omega arith in
    elim split [
      | inl small ↦ let (k, le, d) = some_digits n v small in (k, omega arith, d)
      | inr large ↦ (suc n, omega arith, (h, omega (arith, pow-suc 2 n)))
    ]

-- For every unsigned value `real_bits` is the number of its binary digits: the value is below
-- 2 ^ bits, and half of 2 ^ bits is not above it unless both are zero.
pub real_bits_lem : (v : ℕ) → v < 2 ^ 32 → HasDigits v (real_bits v) × (real_bits v ≤ 32)
unfolding real_bits
real_bits_lem v h =
    let (k, le, d) = some_digits 32 v h in
    let e : real_bits_loop 32 v 0 ≡ k = real_bits_loop_lem k 32 v 0 d le ∙ omega arith in
    rw e (d, le)
