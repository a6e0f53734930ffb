-- ===== src/Encoder/Slots/Base.antt =====
-- The slot of a distance and its direct bits.
use native.Mathlib.Nat.{div-add-mod, mod-lt, mul-le-mul_right, one-le-pow, pow-suc}
use lzip_os.Base.{
  ℕ, zero, suc, ◌+◌, ◌-◌, ◌*◌, ◌/◌, ◌^◌, ◌≤◌, ◌<◌, ◌≡◌, refl, sym, ap, ◌∙◌, subst, arith, ltb, leb,
  ◌&&◌, ◌||◌, Bool, true, ◌⊎◌, Bool-cases, inl, inr, if_true, if_false, get_or, bit_and, bit_or,
  ◌<<<◌, ◌>>>◌,
}
use lzip_os.Base.Bits.{all_below, at_below, bit_and-one}
use lzip_os.Encoder.Slots.{dis_slots, slots_from, get_slot}

-- The first distance of a slot from 2 on, and how many direct bits it has, as encode_pair computes them.
abbrev pub direct_bits : ℕ → ℕ
direct_bits slot = slot >>> 1 - 1

abbrev pub base : ℕ → ℕ
base slot = bit_or 2 (bit_and slot 1) <<< direct_bits slot

abbrev in_slot : ℕ → ℕ → Bool
in_slot slot dis = leb 2 slot && (leb (base slot) dis && ltb dis (base slot + 2 ^ direct_bits slot))

abbrev in_table : ℕ → Bool
in_table dis =
    ltb dis 2
    || (in_slot (get_or dis_slots dis 0) dis
        && (ltb (get_or dis_slots dis 0) 20 && (leb 32 dis || ltb (get_or dis_slots dis 0) 10)))

table_lem : all_below in_table 1024 ≡ true
unfolding all_below dis_slots slots_from
table_lem = refl

-- The distance is one of the slot.
abbrev pub InSlot : ℕ → ℕ → Type 0
InSlot slot dis = (2 ≤ slot) × (base slot ≤ dis) × (dis < base slot + 2 ^ direct_bits slot)

in_table_lem :
    (dis : ℕ)
    → 2 ≤ dis
    → dis < 2 ^ 10
    → InSlot (get_or dis_slots dis 0) dis
      × (get_or dis_slots dis 0 < 20)
      × (dis < 32 → get_or dis_slots dis 0 < 10)
in_table_lem dis low high =
    by_test (get_or dis_slots dis 0) (at_below in_table 1024 dis high table_lem)
  where
    by_test :
        (slot : ℕ)
        → (ltb dis 2 || (in_slot slot dis && (ltb slot 20 && (leb 32 dis || ltb slot 10)))) ≡ true
        → InSlot slot dis × (slot < 20) × (dis < 32 → slot < 10)
    by_test slot h = ground (arith, h)

pow-add : (a b : ℕ) → 2 ^ (a + b) ≡ 2 ^ a * 2 ^ b
pow-add a zero = ap (λ n. 2 ^ n) (zero_lem a) ∙ omega arith
  where
    zero_lem : (n : ℕ) → n + 0 ≡ n
    zero_lem n = omega arith
pow-add a (suc b) =
    ap (λ n. 2 ^ n) (suc_lem b)
    ∙ pow-suc 2 (a + b)
    ∙ ap (λ (t : ℕ). t * 2) (pow-add a b)
    ∙ omega (arith, ap (λ (t : ℕ). 2 ^ a * t) (pow-suc 2 b))
  where
    suc_lem : (n : ℕ) → a + suc n ≡ suc (a + n)
    suc_lem n = omega arith

-- `2 * k` slots on, the distances are `2 ^ k` times as large.
InSlot-shift : (k slot dis : ℕ) → InSlot slot (dis >>> k) → InSlot (slot + 2 * k) dis
InSlot-shift k slot dis h = (
  omega (arith, h),
  omega (arith, base_lem, mul-le-mul_right (2 ^ k) h.1, div-add-mod dis (2 ^ k)),
  omega (
    arith,
    base_lem,
    size_lem,
    mul-le-mul_right (2 ^ k) (next_lem (dis / 2 ^ k) (base slot) (2 ^ direct_bits slot) h.2),
    div-add-mod dis (2 ^ k),
    mod-lt dis (one-le-pow k 2 (omega arith)),
  ),
)
  where
    next_lem : (x b t : ℕ) → x < b + t → x + 1 ≤ b + t
    next_lem x b t h = omega arith

    bits_lem : direct_bits (slot + 2 * k) ≡ direct_bits slot + k
    bits_lem = omega (arith, h.0)

    low_lem : bit_and (slot + 2 * k) 1 ≡ bit_and slot 1
    low_lem = bit_and-one (slot + 2 * k) ∙ omega arith ∙ sym (bit_and-one slot)

    size_lem : 2 ^ direct_bits (slot + 2 * k) ≡ 2 ^ direct_bits slot * 2 ^ k
    size_lem = ap (λ n. 2 ^ n) bits_lem ∙ pow-add (direct_bits slot) k

    base_lem : base (slot + 2 * k) ≡ base slot * 2 ^ k
    base_lem =
        ap (λ n. bit_or 2 n <<< direct_bits (slot + 2 * k)) low_lem
        ∙ omega (arith, ap (λ (t : ℕ). bit_or 2 (bit_and slot 1) * t) size_lem)

-- The slot of a distance: a distance below 2 is its own slot.
abbrev pub IsSlot : ℕ → ℕ → Type 0
IsSlot slot dis = ((dis < 2) × (slot ≡ dis)) ⊎ (InSlot slot dis × (slot < 64))

two_slots : (dis : ℕ) → dis < 2 → get_or dis_slots dis 0 ≡ dis
unfolding dis_slots
two_slots zero h = refl
two_slots (suc zero) h = refl
two_slots (suc (suc dis)) h = absurd (omega arith)

small-IsSlot : (dis : ℕ) → dis < 2 ^ 10 → IsSlot (get_or dis_slots dis 0) dis
small-IsSlot dis h = elim (Bool-cases (ltb dis 2)) [
  | inl tiny ↦ inl (ground arith, two_slots dis (ground arith))
  | inr more ↦ let t = in_table_lem dis (ground arith) h in inr (t.0, omega (arith, t.1))
]

shifted-IsSlot :
    (k dis : ℕ)
    → 2 ≤ dis >>> k
    → dis >>> k < 2 ^ 10
    → (dis >>> k < 32) ⊎ (k < 20)
    → k < 28
    → IsSlot (get_or dis_slots (dis >>> k) 0 + 2 * k) dis
shifted-IsSlot k dis low high few small =
    let t = in_table_lem (dis >>> k) low high in
    inr (
      InSlot-shift k (get_or dis_slots (dis >>> k) 0) dis t.0,
      elim few [
        | inl below ↦ omega (arith, t.2 below, small)
        | inr below ↦ omega (arith, t.1, below)
      ],
    )

-- A distance below 2 is its own slot. For any other of 32 bits, get_slot answers a slot from 2 to 63 whose
-- distances begin at or below this one, with fewer than `2 ^ direct_bits` of them before it: the slot and
-- the direct bits that encode_pair computes determine the distance.
pub get_slot-IsSlot : (dis : ℕ) → dis < 2 ^ 32 → IsSlot (get_slot dis) dis
unfolding get_slot
get_slot-IsSlot dis h = elim (Bool-cases (ltb dis (2 ^ 10))) [
  | inl small ↦
      subst (λ s. IsSlot s dis) (sym (if_true _ _ small)) (small-IsSlot dis (ground arith))
  | inr big ↦
      subst (λ s. IsSlot s dis) (sym (if_false _ _ big))
        (elim (Bool-cases (ltb dis (2 ^ 19))) [
          | inl small ↦
              subst (λ s. IsSlot s dis) (sym (if_true _ _ small))
                (shifted-IsSlot 9 dis (ground arith) (ground arith) (inr (omega arith))
                  (omega arith))
          | inr bigger ↦
              subst (λ s. IsSlot s dis) (sym (if_false _ _ bigger))
                (elim (Bool-cases (ltb dis (2 ^ 28))) [
                  | inl small ↦
                      subst (λ s. IsSlot s dis) (sym (if_true _ _ small))
                        (shifted-IsSlot 18 dis (ground arith) (ground arith) (inr (omega arith))
                          (omega arith))
                  | inr rest ↦
                      subst (λ s. IsSlot s dis) (sym (if_false _ _ rest))
                        (shifted-IsSlot 27 dis (ground arith) (ground arith) (inl (ground arith))
                          (omega arith))
                ])
        ])
]
