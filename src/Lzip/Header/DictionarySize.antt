-- ===== src/Lzip/Header/DictionarySize.antt =====
-- The coding of the dictionary size in one byte: a power of two, less some sixteenths of it.
use lzip_os.Base.{ℕ, zero, suc, ◌+◌, ◌-◌, ◌*◌, ◌/◌, ◌%◌, ◌^◌, ◌≤◌, ◌<◌, ◌≡◌, refl, sym, ap₂, ◌∙◌}
use lzip_os.Base.{arith, true, some, ltb, leb, ◌==◌, if◌then◌else◌, ◌⊎◌, inl, inr, length, set}
use lzip_os.Base.{get_or-set_self, bit_or, ==_iff, ◌&&◌}
use lzip_os.Base.Bits.{all_below, at_below, bit_and_seven, bit_and_mask5}
use lzip_os.Base.{get_or, Bool-cases, leb→le, lt→ltb, leb-false, subst, false}
use native.Mathlib.Nat.{pow-suc, pow-le-pow_right}
use lzip_os.Lzip.Model.{min_dictionary_size, max_dictionary_size}
use lzip_os.Lzip.Header.{LzipHeader, header_size, isvalid_ds, real_bits, decode_size, encode_size}
use lzip_os.Lzip.Header.{fraction_loop, dictionary_size, set_dictionary_size}
use lzip_os.Lzip.Header.Bits.{HasDigits, real_bits_lem}

two_pow_mono : (i j : ℕ) → i ≤ j → 2 ^ i ≤ 2 ^ j
two_pow_mono i j h = pow-le-pow_right {n = 2} (omega arith) h

mul_mono : (a i j : ℕ) → i ≤ j → a * i ≤ a * j
mul_mono a i j h = grind arith

-- The size that exponent `k` and `i` sixteenths stand for.
abbrev size_of : ℕ → ℕ → ℕ
size_of k i = if ltb min_dictionary_size (2 ^ k) then 2 ^ k - 2 ^ k / 16 * i else 2 ^ k

decode_size_lem : (c : ℕ) → decode_size c ≡ size_of (c % 32) (c / 32 % 8)
unfolding decode_size
decode_size_lem c = rw (bit_and_mask5 c, bit_and_seven (c / 2 ^ 5), word) refl
  where
    word : 2 ^ (c % 32) % 2 ^ 32 ≡ 2 ^ (c % 32)
    word = omega (arith, two_pow_mono (c % 32) 31 (omega arith))

or_table : (c : ℕ) → c < 256 → bit_or (c % 32) ((c / 32) * 2 ^ 5) ≡ c
or_table c h =
    (==_iff _ c).0 (at_below (λ x. bit_or (x % 32) ((x / 32) * 2 ^ 5) == x) 256 c h table)
  where
    table : all_below (λ x. bit_or (x % 32) ((x / 32) * 2 ^ 5) == x) 256 ≡ true
    table = unfold all_below in refl

or_fields : (k i : ℕ) → k < 32 → i < 8 → bit_or k (i * 2 ^ 5) ≡ k + 32 * i
or_fields k i hk hi = ap₂ bit_or (omega arith) (omega arith) ∙ or_table (k + 32 * i) (omega arith)

-- The loop finds the largest number of sixteenths, up to `n`, that leaves `sz`.
abbrev Largest : ℕ → ℕ → ℕ → ℕ → Type 0
Largest n base sz i =
    (i ≤ n) × (sz ≤ base - base / 16 * i) × ((j : ℕ) → j ≤ n → sz ≤ base - base / 16 * j → j ≤ i)

fraction_loop_lem : (n base sz : ℕ) → sz ≤ base → Largest n base sz (fraction_loop n base sz)
unfolding fraction_loop
fraction_loop_lem zero base sz h = (omega arith, omega arith, λ j p q. p)
fraction_loop_lem (suc n) base sz h = elim (Bool-cases (leb sz (base - suc n * (base / 16)))) [
  | inl e ↦ rw e (omega arith, omega (arith, leb→le _ _ e), λ j p q. p)
  | inr e ↦ rw e (skip e (fraction_loop_lem n base sz h))
]
  where
    below :
        leb sz (base - suc n * (base / 16)) ≡ false
        → (j : ℕ) → j ≤ suc n
        → sz ≤ base - base / 16 * j
        → j ≤ n
    below e j p q =
        let split : (j ≤ n) ⊎ (j ≡ suc n) = omega arith in
        elim split [
          | inl le ↦ le
          | inr eq ↦
              absurd (omega (arith, leb-false _ _ e, subst (λ k. sz ≤ base - base / 16 * k) eq q))
        ]

    skip :
        leb sz (base - suc n * (base / 16)) ≡ false
        → Largest n base sz (fraction_loop n base sz)
        → Largest (suc n) base sz (fraction_loop n base sz)
    skip e (le, fits, best) = (omega arith, fits, λ j p q. best j (below e j p q) q)

-- `k` digits and the sixteenths `i` left by the loop, for `sz` in range.
module _ (sz k i : ℕ) (low : min_dictionary_size ≤ sz) (high : sz ≤ max_dictionary_size)
    (digits : HasDigits (sz - 1) k) where
  k_range : (12 ≤ k) × (k ≤ 29)
  k_range = (
    (let split : (k < 12) ⊎ (12 ≤ k) = omega arith in
        elim split [
          | inl lt ↦ absurd (omega (arith, two_pow_mono k 11 (omega arith)))
          | inr le ↦ le
        ]),
    (let split : (k ≤ 29) ⊎ (30 ≤ k) = omega arith in
        elim split [ inl le ↦ le | inr gt ↦ absurd (omega (arith, two_pow_mono 30 k gt)) ]),
  )

  sz-le-pow : sz ≤ 2 ^ k
  sz-le-pow = omega arith

  -- Sizes of a smaller exponent are too small, those of a larger one are no better.
  size_of-lt : (e j : ℕ) → e < k → size_of e j < sz
  size_of-lt e j h =
      let small : 2 ^ suc e ≤ 2 ^ k = two_pow_mono (suc e) k h in ground (arith, small, pow-suc 2 e)

  size_of-gt : (e j : ℕ) → k < e → j < 8 → size_of k i ≤ size_of e j
  size_of-gt e j h hj =
      let large : 2 ^ suc k ≤ 2 ^ e = two_pow_mono (suc k) e h in
      ground (arith, large, pow-suc 2 k, mul_mono (2 ^ e / 16) j 7 (omega arith))

  module _ (i_lt : i < 8) (largest : min_dictionary_size < sz → Largest 7 (2 ^ k) sz i)
      (smallest : sz ≡ min_dictionary_size → i ≡ 0) where
    size_of-fits : sz ≤ size_of k i
    size_of-fits =
        let split : (sz ≡ min_dictionary_size) ⊎ (min_dictionary_size < sz) = omega arith in
        elim split [
          | inl e ↦ rw (smallest e) (ground (arith, sz-le-pow))
          | inr lt ↦ ground (arith, sz-le-pow, (largest lt).1)
        ]

    size_of-best : (j : ℕ) → j < 8 → sz ≤ size_of k j → size_of k i ≤ size_of k j
    size_of-best j hj h =
        let split : (sz ≡ min_dictionary_size) ⊎ (min_dictionary_size < sz) = omega arith in
        elim split [
          | inl e ↦ rw (smallest e) (ground (arith, one_size e))
          | inr lt ↦ ground (arith, sz-le-pow, best lt)
        ]
      where
        one_size : sz ≡ min_dictionary_size → 2 ^ k ≤ min_dictionary_size
        one_size e =
            let split : (k ≤ 12) ⊎ (13 ≤ k) = omega arith in
            elim split [
              | inl le ↦ two_pow_mono k 12 le
              | inr gt ↦ absurd (omega (arith, two_pow_mono 13 k gt))
            ]

        best : min_dictionary_size < sz → 2 ^ k / 16 * j ≤ 2 ^ k / 16 * i
        best lt =
            mul_mono (2 ^ k / 16) j i ((largest lt).2 j (omega arith) (ground (arith, sz-le-pow)))

    -- Every other byte that leaves room for `sz` stands for no smaller size.
    size_of-least : (e j : ℕ) → j < 8 → sz ≤ size_of e j → size_of k i ≤ size_of e j
    size_of-least e j hj h =
        let split : (e < k) ⊎ (e ≡ k) ⊎ (k < e) = omega arith in
        elim split [
          | inl lt ↦ absurd (omega (arith, size_of-lt e j lt))
          | inr (inl eq) ↦ rw eq (size_of-best j hj (subst (λ x. sz ≤ size_of x j) eq h))
          | inr (inr gt) ↦ size_of-gt e j gt hj
        ]

    size_of-valid : size_of k i ≤ max_dictionary_size
    size_of-valid = ground (arith, two_pow_mono k 29 k_range.1)

-- The exponent and the sixteenths that `encode_size` stores.
abbrev exponent : ℕ → ℕ
exponent sz = real_bits (sz - 1)

abbrev sixteenths : ℕ → ℕ
sixteenths sz = if ltb min_dictionary_size sz then fraction_loop 7 (2 ^ exponent sz) sz else 0

module _ (sz : ℕ) (low : min_dictionary_size ≤ sz) (high : sz ≤ max_dictionary_size) where
  has_digits : HasDigits (sz - 1) (exponent sz)
  has_digits = (real_bits_lem (sz - 1) (omega arith)).0

  exponent_range : (12 ≤ exponent sz) × (exponent sz ≤ 29)
  exponent_range = k_range sz (exponent sz) 0 low high has_digits

  sixteenths-Largest : min_dictionary_size < sz → Largest 7 (2 ^ exponent sz) sz (sixteenths sz)
  sixteenths-Largest lt =
      rw (lt→ltb _ _ lt) (fraction_loop_lem 7 (2 ^ exponent sz) sz (omega (arith, has_digits.0)))

  sixteenths_smallest : sz ≡ min_dictionary_size → sixteenths sz ≡ 0
  sixteenths_smallest e = ground arith

  sixteenths-lt : sixteenths sz < 8
  sixteenths-lt =
      let split : (sz ≡ min_dictionary_size) ⊎ (min_dictionary_size < sz) = omega arith in
      elim split [
        | inl e ↦ rw (sixteenths_smallest e) (omega arith)
        | inr lt ↦ omega (arith, (sixteenths-Largest lt).0)
      ]

  encode_size_lem : encode_size sz ≡ exponent sz + 32 * sixteenths sz
  unfolding encode_size
  encode_size_lem = elim (Bool-cases (ltb min_dictionary_size sz)) [
    | inl t ↦
        rw (small, t)
          (or_fields (exponent sz) (fraction_loop 7 (2 ^ exponent sz) sz)
            (omega (arith, exponent_range)) (rw t at sixteenths-lt))
    | inr f ↦ rw (small, f) (omega arith)
  ]
    where
      small : exponent sz % 2 ^ 8 ≡ exponent sz
      small = omega (arith, exponent_range)

  decode_size-encode_size : decode_size (encode_size sz) ≡ size_of (exponent sz) (sixteenths sz)
  decode_size-encode_size = rw encode_size_lem (
      decode_size_lem (exponent sz + 32 * sixteenths sz)
      ∙ ap₂ size_of (omega (arith, exponent_range)) (omega (arith, exponent_range, sixteenths-lt)))

-- For every size `sz` from 4 KiB to 512 MiB `dictionary_size( sz )` succeeds on six bytes, and what
-- the header then says is a valid size, not below `sz`, and not above the size of any coded byte with
-- room for `sz`.
pub dictionary_size_lem :
    (sz : ℕ) (h : LzipHeader) (coded : ℕ)
    → min_dictionary_size ≤ sz
    → sz ≤ max_dictionary_size
    → length h ≡ header_size
    → sz ≤ decode_size coded
    → (h' : LzipHeader) × (set_dictionary_size sz h ≡ some h')
      × (sz ≤ dictionary_size h')
      × (isvalid_ds (dictionary_size h') ≡ true)
      × (dictionary_size h' ≤ decode_size coded)
unfolding set_dictionary_size dictionary_size isvalid_ds
dictionary_size_lem sz h coded low high len room = (
  set h 5 c,
  rw (valid sz low high),
  rw byte (rw size fits),
  rw byte (rw size (valid d (omega (arith, fits)) most)),
  rw byte (
      rw size (
        subst (λ x. d ≤ x) (sym (decode_size_lem coded))
          (least (coded % 32) (coded / 32 % 8) (omega arith)
            (subst (λ x. sz ≤ x) (decode_size_lem coded) room)))),
)
  where
    c : ℕ
    c = encode_size sz

    d : ℕ
    d = size_of (exponent sz) (sixteenths sz)

    byte : get_or (set h 5 c) 5 0 ≡ c
    byte = get_or-set_self h 5 c 0 (omega arith)

    size : decode_size c ≡ d
    size = decode_size-encode_size sz low high

    valid :
        (x : ℕ)
        → min_dictionary_size ≤ x
        → x ≤ max_dictionary_size
        → (leb min_dictionary_size x && leb x max_dictionary_size) ≡ true
    valid x p q = ground arith

    fits : sz ≤ d
    fits =
        size_of-fits sz (exponent sz) (sixteenths sz) low high (has_digits sz low high)
          (sixteenths-lt sz low high) (sixteenths-Largest sz low high)
          (sixteenths_smallest sz low high)

    most : d ≤ max_dictionary_size
    most =
        size_of-valid sz (exponent sz) (sixteenths sz) low high (has_digits sz low high)
          (sixteenths-lt sz low high) (sixteenths-Largest sz low high)
          (sixteenths_smallest sz low high)

    least : (e j : ℕ) → j < 8 → sz ≤ size_of e j → d ≤ size_of e j
    least =
        size_of-least sz (exponent sz) (sixteenths sz) low high (has_digits sz low high)
          (sixteenths-lt sz low high) (sixteenths-Largest sz low high)
          (sixteenths_smallest sz low high)
