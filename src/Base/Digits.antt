-- ===== src/Base/Digits.antt =====
-- The recursion on binary digits that the bit operations stand for: more fuel changes nothing.
use Prim.Native.Nat.{ℕ, zero, suc, ◌/◌, ◌≤◌, digits}
use mathlib.Core.Path.{◌≡◌, refl}
use native.Mathlib.Omega.{arith}

module _ (alone : ℕ → ℕ) (join : ℕ → ℕ → ℕ) where
  pub same_digits :
      (x y more less : ℕ)
      → x ≤ less
      → x ≤ more
      → digits alone join more x y ≡ digits alone join less x y
  same_digits zero y zero zero h g = refl
  same_digits zero y zero (suc less) h g = refl
  same_digits zero y (suc more) zero h g = refl
  same_digits zero y (suc more) (suc less) h g = refl
  same_digits (suc x) y zero less h g = absurd (omega arith)
  same_digits (suc x) y (suc more) zero h g = absurd (omega arith)
  same_digits (suc x) y (suc more) (suc less) h g =
      rw (same_digits (suc x / 2) (y / 2) more less (omega arith) (omega arith))
