-- ===== src/Coder/Codes/Masks.antt =====
-- Single bits of a number: masks of one bit, and the digits of `^`.
use native.Mathlib.Nat.{div-div-eq-div-mul, pow-suc}
use lzip_os.Base.{
  ℕ, zero, suc, ◌+◌, ◌*◌, ◌/◌, ◌%◌, ◌^◌, ◌≤◌, ◌≡◌, refl, sym, ap, ap₂, ◌∙◌, arith, bit_and, bit_xor,
}
use lzip_os.Base.Bits.{bit_and_step, bit_and-one}
use lzip_os.Base.Xor.{bit_xor_half}

pub div-pow-suc : (x k : ℕ) → x / 2 ^ suc k ≡ x / 2 / 2 ^ k
div-pow-suc x k =
    ap (λ (t : ℕ). x / t) (omega (arith, pow-suc 2 k)) ∙ sym (div-div-eq-div-mul x 2 (2 ^ k))

-- One bit by a mask.
pub bit_at : (k x : ℕ) → bit_and x (2 ^ k) ≡ x / 2 ^ k % 2 * 2 ^ k
bit_at zero x = omega (arith, bit_and-one x)
bit_at (suc k) x = omega (
  arith,
  bit_and_step x (2 ^ suc k),
  ap (bit_and (x / 2)) half,
  bit_at k (x / 2),
  quotient,
  pow-suc 2 k,
  ap (λ (q : ℕ). q % 2 * 2 ^ suc k) quotient,
  ap (λ (t : ℕ). x / 2 / 2 ^ k % 2 * t) (pow-suc 2 k),
)
  where
    half : 2 ^ suc k / 2 ≡ 2 ^ k
    half = omega (arith, pow-suc 2 k)

    quotient : x / 2 ^ suc k ≡ x / 2 / 2 ^ k
    quotient = div-pow-suc x k

comm_below : (n a b : ℕ) → a ≤ n → b ≤ n → bit_and a b ≡ bit_and b a
comm_below zero zero zero p q = refl
comm_below zero zero (suc b) p q = absurd (omega arith)
comm_below zero (suc a) b p q = absurd (omega arith)
comm_below (suc n) a b p q = omega (
  arith,
  bit_and_step a b,
  bit_and_step b a,
  comm_below n (a / 2) (b / 2) (omega arith) (omega arith),
)

pub bit_and_comm : (a b : ℕ) → bit_and a b ≡ bit_and b a
bit_and_comm a b = comm_below (a + b) a b (omega arith) (omega arith)

pub bit_xor_shift : (k a b : ℕ) → bit_xor a b / 2 ^ k ≡ bit_xor (a / 2 ^ k) (b / 2 ^ k)
bit_xor_shift zero a b = one_lem (bit_xor a b) ∙ ap₂ bit_xor (sym (one_lem a)) (sym (one_lem b))
  where
    one_lem : (x : ℕ) → x / 2 ^ 0 ≡ x
    one_lem x = omega arith
bit_xor_shift (suc k) a b =
    div-pow-suc (bit_xor a b) k
    ∙ ap (λ (t : ℕ). t / 2 ^ k) (bit_xor_half a b)
    ∙ bit_xor_shift k (a / 2) (b / 2)
    ∙ ap₂ bit_xor (sym (div-pow-suc a k)) (sym (div-pow-suc b k))
