-- ===== src/Coder/Codes/Tree.antt =====
-- The trees of Range_encoder and Range_decoder: the decoder reads the symbol that the encoder codes.
use native.Mathlib.Nat.{
  div-add-mod, div-div-eq-div-mul, mul-le-mul_left, mul-le-mul_right, one-le-pow, pow-suc,
}
use lzip_os.Base.{
  ℕ, zero, suc, ◌+◌, ◌*◌, ◌/◌, ◌%◌, ◌^◌, ◌≤◌, ◌<◌, ◌≡◌, refl, sym, ap, ◌∙◌, subst, arith, Bool,
  if◌then◌else◌, true, false, List, get_or, set,
}
use lzip_os.Base.{bit, bit_and, bit_or, ◌<<<◌, M, ◌>>=◌, pure}
use lzip_os.Base.Bits.{bit_and-one, bit_and_mask6, bit_and_byte}
use lzip_os.Base.Or.{bit_or_fields}
use lzip_os.Lzip.Model.{BitModel, fresh_model, adapt}
use lzip_os.Encoder.Range.{RangeEncoder, encode_bit_at}
use lzip_os.Encoder.Symbols.{bit_of, encode_tree_loop, encode_tree6, encode_tree8}
use lzip_os.Decoder.Range.{
  RangeDecoder, decode_symbol_bit, decode_symbol_bits, decode_tree6, decode_tree8,
}
use lzip_os.Coder.Stream.{Kind, AreModels, get_or-IsModel, models_after-AreModels}
use lzip_os.Coder.Codes.{
  Codes, pure-Codes, then-Codes, read-Codes, more-Codes, decode_symbol_bit-Codes,
}

pub bit-bit_of : (symbol i : ℕ) → bit (bit_of symbol i) ≡ symbol / 2 ^ i % 2
bit-bit_of symbol i = ground (arith, bit_and-one (symbol / 2 ^ i))

pub bit_small : (b : Bool) → bit b < 2
bit_small true = omega arith
bit_small false = omega arith

-- A digit behind the others.
pub bit_or-bit : (symbol : ℕ) (b : Bool) → bit_or (symbol <<< 1) (bit b) ≡ symbol * 2 + bit b
bit_or-bit symbol b = omega (arith, bit_or_fields 1 symbol (bit b) (bit_small b))

-- The top digit of `i + 1` binary digits.
pub mod_pow-suc : (a i : ℕ) → a % 2 ^ suc i ≡ a / 2 ^ i % 2 * 2 ^ i + a % 2 ^ i
mod_pow-suc a i = omega (
  arith,
  div-add-mod a (2 ^ suc i),
  div-add-mod a (2 ^ i),
  ap (λ (q : ℕ). q * 2 ^ suc i) quotient,
  ap (λ (t : ℕ). a / 2 ^ i / 2 * t) (pow-suc 2 i),
  parts,
)
  where
    quotient : a / 2 ^ suc i ≡ a / 2 ^ i / 2
    quotient =
        ap (λ (t : ℕ). a / t) (omega (arith, pow-suc 2 i)) ∙ sym (div-div-eq-div-mul a (2 ^ i) 2)

    parts : a / 2 ^ i * 2 ^ i ≡ a / 2 ^ i / 2 * (2 * 2 ^ i) + a / 2 ^ i % 2 * 2 ^ i
    parts =
        ap (λ (q : ℕ). q * 2 ^ i) (split_lem (a / 2 ^ i))
        ∙ spread (a / 2 ^ i / 2) (a / 2 ^ i % 2) (2 ^ i)
      where
        split_lem : (q : ℕ) → q ≡ q / 2 * 2 + q % 2
        split_lem q = omega arith

        spread : (h l t : ℕ) → (h * 2 + l) * t ≡ h * (2 * t) + l * t
        spread h l t = omega arith

-- The decoder reads `symbol` where the encoder codes, and both answer the same models.
pub record TreeCoded (m : M RangeEncoder (List BitModel)) (n : M RangeDecoder (ℕ × List BitModel))
    (bits symbol : ℕ) : Type 0 where
  pub models : List BitModel
  pub are_models : AreModels models
  pub codes : Codes bits m models n (symbol, models)

pub if-TreeCoded :
    (b : Bool) {m : M RangeEncoder (List BitModel)} {n n' : M RangeDecoder (ℕ × List BitModel)}
    {bits value : ℕ}
    → (b ≡ true → TreeCoded m n bits value)
    → (b ≡ false → TreeCoded m n' bits value)
    → TreeCoded m (if b then n else n') bits value
if-TreeCoded true f g = f refl
if-TreeCoded false f g = g refl

pub then-TreeCoded :
    {X Y : Type 0} {more : ℕ} (m : M RangeEncoder X) (n : M RangeDecoder Y) {x : X} {y : Y}
    (k : X → M RangeEncoder (List BitModel)) (l : Y → M RangeDecoder (ℕ × List BitModel))
    {value : ℕ}
    → Codes 1 m x n y
    → TreeCoded (k x) (l y) more value
    → TreeCoded (m >>= k) (n >>= l) (suc more) value
then-TreeCoded {more} m n k l f t = record {
  models = t.models;
  are_models = t.are_models;
  codes = more-Codes (suc more) (omega arith) (then-Codes m n k l f t.codes);
}

pub tree-TreeCoded :
    (i : ℕ) (bm : List BitModel) (symbol model : ℕ)
    → AreModels bm
    → (model + 1) * 2 ^ i ≤ 2 ^ 32
    → TreeCoded
        (encode_tree_loop i bm symbol model)
        (decode_symbol_bits i bm model)
        i
        (model * 2 ^ i + symbol % 2 ^ i)
unfolding encode_tree_loop decode_symbol_bits
tree-TreeCoded zero bm symbol model h small = record {
  models = bm;
  are_models = h;
  codes =
      subst (λ v. Codes {Y = ℕ × List BitModel} 0 (pure bm) bm (pure (model, bm)) (v, bm))
        (omega arith) (pure-Codes bm (model, bm));
}
tree-TreeCoded (suc i) bm symbol model h small =
    let r =
      tree-TreeCoded i after symbol next (models_after-AreModels (Kind.modelled model) b bm h)
        next_small in
    record {
      models = r.models;
      are_models = r.are_models;
      codes =
          subst
            (λ v.
              Codes {Y = ℕ × List BitModel} (suc i) (encode_tree_loop (suc i) bm symbol model)
                r.models (decode_symbol_bits (suc i) bm model) (v, r.models))
            value
            (more-Codes (suc i) (omega arith) (
              then-Codes (encode_bit_at bm model b) (decode_symbol_bit bm model)
                (λ bm'. encode_tree_loop i bm' symbol next) (λ s. decode_symbol_bits i s.1 s.0)
                first r.codes));
    }
  where
    step : (c : ℕ) → c < 2 → model * 2 + c + 1 ≤ model * 2 + 2
    step c h = omega arith

    b : Bool
    b = bit_of symbol i

    next : ℕ
    next = bit_or (model <<< 1) (bit b)

    after : List BitModel
    after = set bm model (adapt b (get_or bm model fresh_model))

    next_lem : next ≡ model * 2 + bit b
    next_lem = bit_or-bit model b

    room : (model + 1) * 2 ^ suc i ≡ (model * 2 + 2) * 2 ^ i
    room = ap (λ (t : ℕ). (model + 1) * t) (pow-suc 2 i) ∙ spread (2 ^ i)
      where
        spread : (t : ℕ) → (model + 1) * (t * 2) ≡ (model * 2 + 2) * t
        spread t = omega arith

    next_small : (next + 1) * 2 ^ i ≤ 2 ^ 32
    next_small = omega (
      arith,
      room,
      small,
      ap (λ (v : ℕ). (v + 1) * 2 ^ i) next_lem,
      mul-le-mul_right (2 ^ i) (step (bit b) (bit_small b)),
    )

    two : 2 ≤ 2 ^ suc i
    two = omega (arith, pow-suc 2 i, one-le-pow i 2 (omega arith))

    first : Codes 1 (encode_bit_at bm model b) after (decode_symbol_bit bm model) (next, after)
    first =
        subst
          (λ v.
            Codes {Y = ℕ × List BitModel} 1 (encode_bit_at bm model b) after
              (decode_symbol_bit bm model) (bit_or v (bit b), after))
          (omega (arith, small, mul-le-mul_left (model + 1) two))
          (decode_symbol_bit-Codes bm model b (get_or-IsModel bm model h))

    value : next * 2 ^ i + symbol % 2 ^ i ≡ model * 2 ^ suc i + symbol % 2 ^ suc i
    value = omega (
      arith,
      mod_pow-suc symbol i,
      ap (λ (v : ℕ). v * 2 ^ i) next_lem,
      ap (λ (v : ℕ). v * 2 ^ i) (bit-bit_of symbol i),
      ap (λ (v : ℕ). model * v) (pow-suc 2 i),
    )

-- The last step of decode_tree6 and decode_tree8: only the digits of the symbol are kept.
pub kept :
    {m : M RangeEncoder (List BitModel)} {n : M RangeDecoder (ℕ × List BitModel)} (keep : ℕ → ℕ)
    {bits symbol value : ℕ}
    → TreeCoded m n bits symbol
    → keep symbol ≡ value
    → TreeCoded m (n >>= λ r. pure (keep r.0, r.1)) bits value
kept {m} {n} keep {bits} t e = record {
  models = t.models;
  are_models = t.are_models;
  codes =
      subst
        (λ v.
          Codes {Y = ℕ × List BitModel} bits m t.models (n >>= λ r. pure (keep r.0, r.1))
            (v, t.models))
        e (read-Codes m n (λ r. pure (keep r.0, r.1)) t.codes (λ d. refl));
}

pub tree8-TreeCoded :
    (bm : List BitModel) (symbol : ℕ)
    → AreModels bm
    → symbol < 256
    → TreeCoded (encode_tree8 bm symbol) (decode_tree8 bm) 8 symbol
unfolding encode_tree8 decode_tree8
tree8-TreeCoded bm symbol h small =
    kept (λ s. bit_and s 0xFF) (tree-TreeCoded 8 bm symbol 1 h (omega arith))
      (omega (arith, bit_and_byte (1 * 2 ^ 8 + symbol % 2 ^ 8)))

pub tree6-TreeCoded :
    (bm : List BitModel) (symbol : ℕ)
    → AreModels bm
    → symbol < 64
    → TreeCoded (encode_tree6 bm symbol) (decode_tree6 bm) 6 symbol
unfolding encode_tree6 decode_tree6
tree6-TreeCoded bm symbol h small =
    kept (λ s. bit_and s 0x3F) (tree-TreeCoded 6 bm symbol 1 h (omega arith))
      (omega (arith, bit_and_mask6 (1 * 2 ^ 6 + symbol % 2 ^ 6)))
