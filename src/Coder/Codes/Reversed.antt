-- ===== src/Coder/Codes/Reversed.antt =====
-- encode_tree_reversed and decode_tree_reversed: the bits of a symbol from the lowest one on.
use native.Mathlib.Nat.{
  div-add-mod, mul-le-mul_left, mul-le-mul_right, one-le-pow, pow-le-pow_right, pow-suc,
}
use lzip_os.Base.{
  ℕ, zero, suc, ◌+◌, ◌*◌, ◌/◌, ◌%◌, ◌^◌, ◌≤◌, ◌<◌, ◌≡◌, ap, ◌∙◌, subst, arith, Bool, true, false,
  not, ◌==◌, if◌then◌else◌, List, get_or, set,
}
use lzip_os.Base.{bit, bit_and, bit_or, u32, ◌<<<◌, M, ◌>>=◌, pure}
use lzip_os.Base.Bits.{bit_and-one}
use lzip_os.Base.Or.{bit_or_fields, bit_or_comm}
use lzip_os.Lzip.Model.{BitModel, fresh_model, adapt}
use lzip_os.Encoder.Range.{encode_bit, encode_bit_at}
use lzip_os.Encoder.Symbols.{encode_reversed_loop, encode_tree_reversed}
use lzip_os.Decoder.Range.{
  RangeDecoder, normalize, take_bit, decode_bit, decode_symbol_bit_reversed, decode_reversed_loop,
  decode_tree_reversed,
}
use lzip_os.Coder.Interval.{IsModel}
use lzip_os.Coder.Stream.{Kind, AreModels, get_or-IsModel, models_after-AreModels}
use lzip_os.Coder.Codes.{Codes, pure-Codes, then-Codes, same-Codes, >>=_assoc, encode_bit-Codes}
use lzip_os.Coder.Codes.Tree.{TreeCoded, bit_or-bit, bit_small}
use lzip_os.Coder.Codes.Masks.{div-pow-suc}
use lzip_os.Coder.Codes.Tree.{then-TreeCoded}

-- What decode_symbol_bit_reversed leaves.
abbrev Reversed : Type 0
Reversed = record { model : ℕ; symbol : ℕ; bm : List BitModel }

reversed_bit :
    (bm : List BitModel) (model symbol i : ℕ) (b : Bool)
    → IsModel (get_or bm model fresh_model)
    → let after = set bm model (adapt b (get_or bm model fresh_model)) in
      Codes 1
        (encode_bit_at bm model b)
        after
        (decode_symbol_bit_reversed bm model symbol i)
        (record {
          model = bit_or (u32 (model <<< 1)) (bit b);
          symbol = if b then bit_or symbol (2 ^ i) else symbol;
          bm = after;
        })
unfolding decode_symbol_bit_reversed encode_bit_at decode_bit
reversed_bit bm model symbol i b h =
    let p = get_or bm model fresh_model in
    same-Codes (encode_bit_at bm model b) (decode_bit p >>= finish)
      (decode_symbol_bit_reversed bm model symbol i) (>>=_assoc normalize (λ _. take_bit p) finish)
      (then-Codes (encode_bit p b) (decode_bit p) (λ m. pure (set bm model m)) finish
        (encode_bit-Codes p b h) (pure-Codes _ _))
  where
    finish : Bool × BitModel → M RangeDecoder Reversed
    finish r = pure (record {
      model = bit_or (u32 (model <<< 1)) (bit r.0);
      symbol = if r.0 then bit_or symbol (2 ^ i) else symbol;
      bm = set bm model r.1;
    })

-- The lowest digit of a number.
low_digit : (a k : ℕ) → a % 2 ^ suc k ≡ a / 2 % 2 ^ k * 2 + a % 2
low_digit a k = omega (
  arith,
  div-add-mod a (2 ^ suc k),
  div-add-mod (a / 2) (2 ^ k),
  ap (λ (q : ℕ). q * 2 ^ suc k) (div-pow-suc a k),
  ap (λ (t : ℕ). a / 2 / 2 ^ k * t) (pow-suc 2 k),
)

reversed-TreeCoded :
    (n i : ℕ) (bm : List BitModel) (s model symbol : ℕ)
    → AreModels bm
    → (model + 1) * 2 ^ n ≤ 2 ^ 32
    → symbol < 2 ^ i
    → TreeCoded
        (encode_reversed_loop n bm s model)
        (decode_reversed_loop n i bm model symbol)
        n
        (symbol + s % 2 ^ n * 2 ^ i)
unfolding encode_reversed_loop decode_reversed_loop
reversed-TreeCoded zero i bm s model symbol h small below = record {
  models = bm;
  are_models = h;
  codes =
      subst (λ v. Codes {Y = ℕ × List BitModel} 0 (pure bm) bm (pure (symbol, bm)) (v, bm))
        (omega (arith, ap (λ (v : ℕ). v * 2 ^ i) (no_digits s))) (pure-Codes bm (symbol, bm));
}
  where
    no_digits : (s : ℕ) → s % 2 ^ 0 ≡ 0
    no_digits s = omega arith
reversed-TreeCoded (suc n) i bm s model symbol h small below = subst (TreeCoded _ _ (suc n)) value (
    then-TreeCoded (encode_bit_at bm model b) (decode_symbol_bit_reversed bm model symbol i) _
      (λ r. decode_reversed_loop n (suc i) r.bm r.model r.symbol) first
      (reversed-TreeCoded n (suc i) after (s / 2) next more
        (models_after-AreModels (Kind.modelled model) b bm h) next_small more_below))
  where
    b : Bool
    b = not (bit_and s 1 == 0)

    next : ℕ
    next = bit_or (model <<< 1) (bit b)

    more : ℕ
    more = if b then bit_or symbol (2 ^ i) else symbol

    after : List BitModel
    after = set bm model (adapt b (get_or bm model fresh_model))

    bit_value : bit b ≡ s % 2
    bit_value = ground (arith, bit_and-one s)

    next_lem : next ≡ model * 2 + bit b
    next_lem = bit_or-bit model b

    step : (c t : ℕ) → c < 2 → (model * 2 + c + 1) * t ≤ (model + 1) * (t * 2)
    step c t lt = omega (arith, mul-le-mul_right t (reach c lt))
      where
        reach : (c : ℕ) → c < 2 → model * 2 + c + 1 ≤ model * 2 + 2
        reach c h = omega arith

    next_small : (next + 1) * 2 ^ n ≤ 2 ^ 32
    next_small = omega (
      arith,
      small,
      ap (λ (t : ℕ). (model + 1) * t) (pow-suc 2 n),
      ap (λ (v : ℕ). (v + 1) * 2 ^ n) next_lem,
      step (bit b) (2 ^ n) (bit_small b),
    )

    fits : u32 (model <<< 1) ≡ model <<< 1
    fits = omega (arith, small, mul-le-mul_left (model + 1) two)
      where
        two : 2 ≤ 2 ^ suc n
        two = omega (arith, pow-suc 2 n, one-le-pow n 2 (omega arith))

    more_lem : more ≡ symbol + bit b * 2 ^ i
    more_lem = by_bit b
      where
        by_bit : (b : Bool) → (if b then bit_or symbol (2 ^ i) else symbol) ≡ symbol + bit b * 2 ^ i
        by_bit true =
            bit_or_comm symbol (2 ^ i)
            ∙ ap (λ t. bit_or t symbol) (one_lem (2 ^ i))
            ∙ bit_or_fields i 1 symbol below
            ∙ omega arith
          where
            one_lem : (t : ℕ) → t ≡ 1 * t
            one_lem t = omega arith
        by_bit false = omega arith

    more_below : more < 2 ^ suc i
    more_below = omega (
      arith,
      more_lem,
      below,
      pow-suc 2 i,
      mul-le-mul_right (2 ^ i) (reach (bit b) (bit_small b)),
    )
      where
        reach : (c : ℕ) → c < 2 → c ≤ 1
        reach c h = omega arith

    value : more + s / 2 % 2 ^ n * 2 ^ suc i ≡ symbol + s % 2 ^ suc n * 2 ^ i
    value = omega (
      arith,
      more_lem,
      ap (λ (v : ℕ). v * 2 ^ i) (low_digit s n),
      ap (λ (v : ℕ). v * 2 ^ i) bit_value,
      ap (λ (t : ℕ). s / 2 % 2 ^ n * t) (pow-suc 2 i),
    )

    first :
        Codes 1
          (encode_bit_at bm model b)
          after
          (decode_symbol_bit_reversed bm model symbol i)
          (record { model = next; symbol = more; bm = after })
    first =
        subst
          (λ v.
            Codes {Y = Reversed} 1 (encode_bit_at bm model b) after
              (decode_symbol_bit_reversed bm model symbol i)
              (record { model = bit_or v (bit b); symbol = more; bm = after }))
          fits (reversed_bit bm model symbol i b (get_or-IsModel bm model h))

pub tree_reversed-TreeCoded :
    (n : ℕ) (bm : List BitModel) (symbol : ℕ)
    → AreModels bm
    → n ≤ 31
    → TreeCoded (encode_tree_reversed bm symbol n) (decode_tree_reversed bm n) n (symbol % 2 ^ n)
unfolding encode_tree_reversed decode_tree_reversed
tree_reversed-TreeCoded n bm symbol h small =
    subst (TreeCoded (encode_tree_reversed bm symbol n) (decode_tree_reversed bm n) n) (omega arith)
      (reversed-TreeCoded n 0 bm symbol 1 0 h (omega (arith, most)) (omega arith))
  where
    most : 2 ^ n ≤ 2 ^ 31
    most = pow-le-pow_right (omega arith) small
