-- ===== src/Base/Bits.antt =====
-- Facts about `&` and `|`, by evaluation on small ranges and by digits.
use Prim.Native.Nat.{ℕ, zero, suc, ◌+◌, ◌-◌, ◌*◌, ◌/◌, ◌%◌, ◌^◌, ◌≤◌, ◌<◌}
use Prim.Native.Nat.{min, bit_and, bit_and-bitwise}
use mathlib.Core.Path.{◌≡◌, refl, sym, ap, ◌∙◌}
use native.Mathlib.Nat.{pow-suc, one-le-pow, div-add-mod, div-div-eq-div-mul}
use mathlib.Core.Bool.{Bool, true, ◌&&◌}
use native.Mathlib.Omega.{arith}
use lzip_os.Base.Digits.{same_digits}

-- A test that passes at every number below `top`.
unfoldable pub all_below : (ℕ → Bool) → ℕ → Bool
all_below test zero = true
all_below test (suc top) = all_below test top && test top

pub at_below : (test : ℕ → Bool) (top c : ℕ) → c < top → all_below test top ≡ true → test c ≡ true
unfolding all_below
at_below test zero c lt passed = absurd (omega arith)
at_below test (suc top) c lt passed = ground (arith, at_below test top c)

-- The lowest digit and the digits above it.
pub bit_and_step : (x y : ℕ) → bit_and x y ≡ bit_and (x / 2) (y / 2) * 2 + min (x % 2) (y % 2)
bit_and_step zero y = omega (arith, bit_and-bitwise 0 (y / 2), bit_and-bitwise 0 y)
bit_and_step (suc x) y =
    let fuel =
      same_digits (λ _. zero) min (suc x / 2) (y / 2) x (suc x / 2) (omega arith) (omega arith) in
    omega (arith, fuel, bit_and-bitwise (suc x / 2) (y / 2), bit_and-bitwise (suc x) y)

and_zero_fuel : (n a : ℕ) → a ≤ n → bit_and a 0 ≡ 0
and_zero_fuel rounds zero few = refl
and_zero_fuel zero (suc x) few = absurd (omega arith)
and_zero_fuel (suc rounds) (suc x) few =
    let half = and_zero_fuel rounds (suc x / 2) (omega arith) in
    omega (arith, half, bit_and_step (suc x) 0)

pub bit_and-zero : (a : ℕ) → bit_and a 0 ≡ 0
bit_and-zero a = and_zero_fuel a a (omega arith)

-- A mask of `k` low bits is the remainder by `2 ^ k`.
pub bit_and_mask : (k a : ℕ) → bit_and a (2 ^ k - 1) ≡ a % 2 ^ k
bit_and_mask zero a = omega (arith, bit_and-zero a)
bit_and_mask (suc k) a =
    let half : (2 ^ suc k - 1) / 2 ≡ 2 ^ k - 1 =
      omega (arith, pow-suc 2 k, one-le-pow k 2 (omega arith)) in
    let ih : bit_and (a / 2) ((2 ^ suc k - 1) / 2) ≡ a / 2 % 2 ^ k =
      ap (bit_and (a / 2)) half ∙ bit_and_mask k (a / 2) in
    bit_and_step a (2 ^ suc k - 1)
    ∙ omega (arith, ih, pow-suc 2 k, one-le-pow k 2 (omega arith), low_digit)
  where
    quotient : a / 2 ^ suc k ≡ a / 2 / 2 ^ k
    quotient =
        ap (λ (t : ℕ). a / t) (omega (arith, pow-suc 2 k)) ∙ sym (div-div-eq-div-mul a 2 (2 ^ k))

    low_digit : a % 2 ^ suc k ≡ a / 2 % 2 ^ k * 2 + a % 2
    low_digit = omega (
      arith,
      div-add-mod a (2 ^ suc k),
      div-add-mod (a / 2) (2 ^ k),
      ap (λ (q : ℕ). q * 2 ^ suc k) quotient,
      ap (λ (t : ℕ). a / 2 / 2 ^ k * t) (pow-suc 2 k),
    )

pub bit_and-one : (a : ℕ) → bit_and a 1 ≡ a % 2
bit_and-one a = bit_and_mask 1 a

pub bit_and_seven : (a : ℕ) → bit_and a 7 ≡ a % 8
bit_and_seven a = bit_and_mask 3 a

pub bit_and_mask5 : (a : ℕ) → bit_and a 0x1F ≡ a % 32
bit_and_mask5 a = bit_and_mask 5 a

pub bit_and_mask6 : (a : ℕ) → bit_and a 0x3F ≡ a % 64
bit_and_mask6 a = bit_and_mask 6 a

pub bit_and_byte : (a : ℕ) → bit_and a 0xFF ≡ a % 256
bit_and_byte a = bit_and_mask 8 a

and_le_fuel : (n a b : ℕ) → b ≤ n → bit_and a b ≤ b
and_le_fuel n a zero few = omega (arith, bit_and-zero a)
and_le_fuel zero a (suc b) few = absurd (omega arith)
and_le_fuel (suc n) a (suc b) few =
    omega (arith, and_le_fuel n (a / 2) (suc b / 2) (omega arith), bit_and_step a (suc b))

-- `&` is at most its second argument.
pub bit_and-le : (a b : ℕ) → bit_and a b ≤ b
bit_and-le a b = and_le_fuel b a b (omega arith)
