-- ===== src/Coder/Interval.antt =====
-- The specification of the coder: an interval of numbers that each bit narrows, without bounds on
-- the width of a number. `low` has `digits` digits to the base 256.
use lzip_os.Base.{
  ℕ, zero, suc, ◌+◌, ◌-◌, ◌*◌, ◌/◌, ◌^◌, ◌≤◌, ◌<◌, ◌≡◌, refl, sym, ap, ◌∙◌, subst, arith,
}
use lzip_os.Base.{
  Bool, true, false, Bool-cases, inl, inr, leb, if◌then◌else◌, if_true, if_false, leb→le, leb-false,
}
use lzip_os.Base.{List, [], ◌∷◌, ◌++◌, length, take, get_or, take-suc, IsByte, All}
use lzip_os.Lzip.Model.{BitModel, adapt}

pub record Interval : Type 0 where
  pub low : ℕ
  pub range : ℕ
  pub digits : ℕ

abbrev pub IsGood : Interval → Type 0
IsGood i = (2 ^ 24 ≤ i.range) × (i.range < 2 ^ 32)

-- The probabilities that `adapt` reaches from 1024.
abbrev pub IsModel : BitModel → Type 0
IsModel p = (31 ≤ p) × (p ≤ 2017)

abbrev pub bound : ℕ → ℕ → ℕ
bound range p = range / 2048 * p

-- The part of the interval for a bit of probability `p`, and for a direct bit.
abbrev pub narrow : BitModel → Bool → Interval → Interval
narrow p false i = record i { range = bound i.range p }
narrow p true i = record i { low = i.low + bound i.range p; range = i.range - bound i.range p }

abbrev pub halve : Bool → Interval → Interval
halve false i = record i { range = i.range / 2 }
halve true i = record i { low = i.low + i.range / 2; range = i.range / 2 }

-- One more digit, when the range has become small.
abbrev pub rescale : Interval → Interval
rescale i = record { low = i.low * 256; range = i.range * 256; digits = i.digits + 1 }

abbrev pub scale : Interval → Interval
scale i = if leb i.range 0x00FF_FFFF then rescale i else i

-- The number that a list of digits stands for.
abbrev pub number_from : ℕ → List ℕ → ℕ
number_from acc [] = acc
number_from acc (b ∷ bs) = number_from (acc * 256 + b) bs

abbrev pub number : List ℕ → ℕ
number bs = number_from 0 bs

pub number_from-append :
    (acc : ℕ) (xs ys : List ℕ) → number_from acc (xs ++ ys) ≡ number_from (number_from acc xs) ys
number_from-append acc [] ys = refl
number_from-append acc (x ∷ xs) ys = number_from-append (acc * 256 + x) xs ys

-- The stream goes on into the interval: its first `digits` bytes are a number in it.
pub record Within (B : List ℕ) (i : Interval) : Type 0 where
  pub above : i.low ≤ number (take i.digits B)
  pub below : number (take i.digits B) < i.low + i.range
  pub long : i.digits ≤ length B

pub byte_in : (B : List ℕ) (n : ℕ) → All IsByte B → get_or B n 0 < 256
byte_in [] n h = omega arith
byte_in (b ∷ B) zero h = h.0
byte_in (b ∷ B) (suc n) h = byte_in B n h.1

-- One more byte of the stream is one more digit of the number.
pub number-next :
    (B : List ℕ) (n : ℕ)
    → n < length B
    → number (take (n + 1) B) ≡ number (take n B) * 256 + get_or B n 0
number-next B n h =
    ap (λ k. number (take k B)) (suc_lem n)
    ∙ ap number (take-suc B n 0 h)
    ∙ number_from-append 0 (take n B) (get_or B n 0 ∷ [])
  where
    suc_lem : (k : ℕ) → k + 1 ≡ suc k
    suc_lem k = omega arith

-- A stream within the interval after a step was within it before.
Within-rescale : (B : List ℕ) (i : Interval) → All IsByte B → Within B (rescale i) → Within B i
Within-rescale B i bytes w =
    let next = number-next B i.digits (omega (arith, w.long)) in
    let b = byte_in B i.digits bytes in
    record {
      above = omega (arith, w.above, next, b);
      below = omega (arith, w.below, next, b);
      long = omega (arith, w.long);
    }

pub Within-scale : (B : List ℕ) (i : Interval) → All IsByte B → Within B (scale i) → Within B i
Within-scale B i bytes w = elim (Bool-cases (leb i.range 0x00FF_FFFF)) [
  | inl small ↦ Within-rescale B i bytes (subst (Within B) (if_true (rescale i) i small) w)
  | inr large ↦ subst (Within B) (if_false (rescale i) i large) w
]

bound-lt : (range p : ℕ) → IsModel p → bound range p ≤ range
bound-lt range p h = let step : range / 2048 * p ≤ range / 2048 * 2048 = grind arith in omega arith

pub Within-narrow :
    (B : List ℕ) (p : BitModel) (b : Bool) (i : Interval)
    → IsModel p
    → Within B (narrow p b i)
    → Within B i
Within-narrow B p false i h w = record {
  above = w.above;
  below = omega (arith, w.below, bound-lt i.range p h);
  long = w.long;
}
Within-narrow B p true i h w = record {
  above = omega (arith, w.above);
  below = omega (arith, w.below, bound-lt i.range p h);
  long = w.long;
}

pub Within-halve : (B : List ℕ) (b : Bool) (i : Interval) → Within B (halve b i) → Within B i
Within-halve B false i w = record { above = w.above; below = omega (arith, w.below); long = w.long }
Within-halve B true i w = record {
  above = omega (arith, w.above);
  below = omega (arith, w.below);
  long = w.long;
}

-- The parts are wide enough for one more digit to make the range good again.
pub narrow-wide :
    (p : BitModel) (b : Bool) (i : Interval)
    → IsModel p
    → IsGood i
    → (2 ^ 16 ≤ (narrow p b i).range) × ((narrow p b i).range < 2 ^ 32)
narrow-wide p false i h g =
    let wide : 8192 * 31 ≤ i.range / 2048 * p = grind arith in
    (omega arith, omega (arith, bound-lt i.range p h))
narrow-wide p true i h g =
    let thin : i.range / 2048 * p ≤ i.range / 2048 * 2017 = grind arith in
    (omega arith, omega arith)

pub halve-wide :
    (b : Bool) (i : Interval)
    → IsGood i
    → (2 ^ 16 ≤ (halve b i).range) × ((halve b i).range < 2 ^ 32)
halve-wide false i g = omega arith
halve-wide true i g = omega arith

pub scale-IsGood : (i : Interval) → 2 ^ 16 ≤ i.range → i.range < 2 ^ 32 → IsGood (scale i)
scale-IsGood i lo hi = elim (Bool-cases (leb i.range 0x00FF_FFFF)) [
  | inl small ↦ subst IsGood (sym (if_true (rescale i) i small)) (omega (arith, leb→le _ _ small))
  | inr large ↦
      subst IsGood (sym (if_false (rescale i) i large)) (omega (arith, leb-false _ _ large))
]

-- The adapted probability stays in the range from which both parts of the interval are wide.
pub adapt-IsModel : (b : Bool) (p : BitModel) → IsModel p → IsModel (adapt b p)
unfolding adapt
adapt-IsModel false p h = omega arith
adapt-IsModel true p h = omega arith
