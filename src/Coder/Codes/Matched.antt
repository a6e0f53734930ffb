-- ===== src/Coder/Codes/Matched.antt =====
-- encode_matched and decode_matched: the decoder reads the byte that the encoder codes.
use native.Mathlib.Nat.{mul-le-mul_left, one-le-pow, pow-suc}
use lzip_os.Base.{
  ℕ, zero, suc, ◌+◌, ◌*◌, ◌/◌, ◌%◌, ◌^◌, ◌≤◌, ◌<◌, ◌≡◌, refl, sym, ap, ◌∙◌, subst, arith, Bool,
  true, false, if_false, leb-false_of, not, leb, ◌==◌, if◌then◌else◌, List, get_or, set,
}
use lzip_os.Base.{bit, bit_and, bit_or, bit_xor, u32, ◌<<<◌, ◌>>>◌, M, pure}
use lzip_os.Base.Bits.{bit_and-zero, bit_and_byte}
use lzip_os.Base.Or.{bit_or_fields, bit_or_comm}
use lzip_os.Base.Xor.{bit_xor_parity}
use lzip_os.Lzip.Model.{BitModel, fresh_model, adapt}
use lzip_os.Encoder.Range.{RangeEncoder, encode_bit_at}
use lzip_os.Encoder.Symbols.{clear_bits, encode_matched_loop, encode_matched}
use lzip_os.Decoder.Range.{RangeDecoder, decode_bit_at, decode_symbol_bit, decode_symbol_bits}
use lzip_os.Decoder.Symbols.{decode_matched_loop, decode_matched}
use lzip_os.Coder.Stream.{Kind, AreModels, get_or-IsModel, models_after-AreModels}
use lzip_os.Coder.Codes.{Codes, pure-Codes, encode_bit_at-Codes, decode_symbol_bit-Codes}
use lzip_os.Coder.Codes.Masks.{bit_at, bit_and_comm, bit_xor_shift}
use lzip_os.Coder.Codes.Tree.{TreeCoded, if-TreeCoded, then-TreeCoded, kept, bit_or-bit}

-- The mask is kept when the bits agree.
clear_lem :
    (byte shifted : ℕ)
    → clear_bits 0x100 (bit_xor (bit_and byte 0x100) shifted)
      ≡ (1 + (byte / 256 % 2 + shifted / 256 % 2) % 2) % 2 * 256
clear_lem byte shifted = omega (
  arith,
  bit_and_comm 256 (bit_xor 0xFFFF_FFFF v),
  bit_at 8 (bit_xor 0xFFFF_FFFF v),
  bit_xor_shift 8 0xFFFF_FFFF v,
  bit_xor_parity (0xFFFF_FFFF / 256) (v / 256),
  bit_xor_shift 8 (bit_and byte 0x100) shifted,
  bit_xor_parity (bit_and byte 0x100 / 256) (shifted / 256),
  bit_at 8 byte,
)
  where
    v : ℕ
    v = bit_xor (bit_and byte 0x100) shifted

-- The bit of the symbol that is coded next.
bit_lem : (shifted : ℕ) → bit (not (bit_and shifted 0x100 == 0)) ≡ shifted / 256 % 2
bit_lem shifted = ground (arith, bit_at 8 shifted)

-- The loop of encode_matched ends at its last round and not before.
goes_on :
    (r : ℕ) (bm : List BitModel) (symbol match_byte mask : ℕ)
    → symbol * 2 ^ r < 2 ^ 17
    → (if leb 0x10000 symbol then pure bm else encode_matched_loop r bm symbol match_byte mask)
      ≡ encode_matched_loop r bm symbol match_byte mask
unfolding encode_matched_loop
goes_on zero bm symbol match_byte mask h = by_test (leb 0x10000 symbol)
  where
    by_test :
        (b : Bool)
        → ◌≡◌ {A = M RangeEncoder (List BitModel)} (if b then pure bm else pure bm) (pure bm)
    by_test true = refl
    by_test false = refl
goes_on (suc r) bm symbol match_byte mask h =
    if_false _ _ (leb-false_of 0x10000 symbol (omega (arith, h, least)))
  where
    least : symbol * 2 ≤ symbol * 2 ^ suc r
    least = mul-le-mul_left symbol (omega (arith, pow-suc 2 r, one-le-pow r 2 (omega arith)))

-- A round of the encoder's loop, with what it leaves named.
next_round :
    (r : ℕ) (bm : List BitModel) {symbol symbol' mask mask' : ℕ} (match_byte : ℕ)
    {n : M RangeDecoder (ℕ × List BitModel)} {bits value : ℕ}
    → symbol ≡ symbol'
    → mask ≡ mask'
    → symbol' * 2 ^ r < 2 ^ 17
    → TreeCoded (encode_matched_loop r bm symbol' match_byte mask') n bits value
    → TreeCoded
        (if leb 0x10000 symbol then pure bm else encode_matched_loop r bm symbol match_byte mask)
        n
        bits
        value
next_round r bm {symbol} {symbol'} {mask} {mask'} match_byte e g h t =
    rw (e, g, goes_on r bm symbol' match_byte mask' h) t

-- The symbol of a round, and what is left of it in the next one.
module _ (r : ℕ) (symbol : ℕ) (low : 2 ^ 16 ≤ symbol * 2 ^ suc r)
    (high : symbol * 2 ^ suc r < 2 ^ 17) where
  doubled : symbol * 2 * 2 ^ r ≡ symbol * 2 ^ suc r
  doubled = omega (arith, ap (λ (t : ℕ). symbol * t) (pow-suc 2 r))

  shifted_lem : u32 (symbol <<< 1) ≡ symbol * 2
  shifted_lem =
      omega (arith, high, doubled, mul-le-mul_left (symbol * 2) (one-le-pow r 2 (omega arith)))

  -- The symbol of the decoder, when it has read the bit.
  read_lem :
      (b : Bool)
      → bit b ≡ symbol * 2 / 256 % 2
      → bit_or (u32 ((symbol / 256) <<< 1)) (bit b) ≡ symbol * 2 / 256
  read_lem b e = ap (λ t. bit_or t (bit b)) small ∙ bit_or-bit (symbol / 256) b ∙ omega (arith, e)
    where
      small : u32 ((symbol / 256) <<< 1) ≡ (symbol / 256) <<< 1
      small = omega (arith, shifted_lem)

plain-TreeCoded :
    (r : ℕ) (bm : List BitModel) (symbol match_byte : ℕ)
    → AreModels bm
    → 2 ^ 16 ≤ symbol * 2 ^ r
    → symbol * 2 ^ r < 2 ^ 17
    → TreeCoded
        (encode_matched_loop r bm symbol match_byte 0)
        (decode_symbol_bits r bm (symbol / 256))
        r
        (symbol * 2 ^ r / 256)
unfolding encode_matched_loop decode_symbol_bits
plain-TreeCoded zero bm symbol match_byte h low high = record {
  models = bm;
  are_models = h;
  codes =
      subst (λ v. Codes {Y = ℕ × List BitModel} 0 (pure bm) bm (pure (symbol / 256, bm)) (v, bm))
        (omega arith) (pure-Codes bm (symbol / 256, bm));
}
plain-TreeCoded (suc r) bm symbol match_byte h low high =
    subst (TreeCoded _ _ (suc r)) (ap (λ (t : ℕ). t / 256) (doubled r symbol low high)) (
      then-TreeCoded (encode_bit_at bm index b) (decode_symbol_bit bm (symbol / 256)) _
        (λ s. decode_symbol_bits r s.1 s.0) first
        (next_round r after byte (shifted_lem r symbol low high) none_left
          (omega (arith, doubled r symbol low high))
          (plain-TreeCoded r after (symbol * 2) byte
            (models_after-AreModels (Kind.modelled (symbol / 256)) b bm h)
            (omega (arith, doubled r symbol low high)) (omega (arith, doubled r symbol low high)))))
  where
    byte : ℕ
    byte = u32 (match_byte <<< 1)

    shifted : ℕ
    shifted = u32 (symbol <<< 1)

    b : Bool
    b = not (bit_and shifted 0x100 == 0)

    index : ℕ
    index = shifted >>> 9 + bit_and byte 0 + 0

    after : List BitModel
    after = set bm (symbol / 256) (adapt b (get_or bm (symbol / 256) fresh_model))

    none_left : clear_bits 0 (bit_xor (bit_and byte 0) shifted) ≡ 0
    none_left =
        bit_and_comm 0 (bit_xor 0xFFFF_FFFF (bit_xor (bit_and byte 0) shifted))
        ∙ bit_and-zero (bit_xor 0xFFFF_FFFF (bit_xor (bit_and byte 0) shifted))

    first :
        Codes 1
          (encode_bit_at bm index b)
          after
          (decode_symbol_bit bm (symbol / 256))
          (symbol * 2 / 256, after)
    first =
        subst
          (λ k.
            Codes {Y = ℕ × List BitModel} 1 (encode_bit_at bm k b) after
              (decode_symbol_bit bm (symbol / 256)) (symbol * 2 / 256, after))
          (omega (arith, bit_and-zero byte, shifted_lem r symbol low high))
          (subst
            (λ v.
              Codes {Y = ℕ × List BitModel} 1 (encode_bit_at bm (symbol / 256) b) after
                (decode_symbol_bit bm (symbol / 256)) (v, after))
            (read_lem r symbol low high b
              (bit_lem shifted ∙ ap (λ (t : ℕ). t / 256 % 2) (shifted_lem r symbol low high)))
            (decode_symbol_bit-Codes bm (symbol / 256) b (get_or-IsModel bm (symbol / 256) h)))

matched-TreeCoded :
    (r : ℕ) (bm : List BitModel) (symbol match_byte : ℕ)
    → AreModels bm
    → 2 ^ 16 ≤ symbol * 2 ^ r
    → symbol * 2 ^ r < 2 ^ 17
    → TreeCoded
        (encode_matched_loop r bm symbol match_byte 0x100)
        (decode_matched_loop r bm match_byte (symbol / 256))
        r
        (symbol * 2 ^ r / 256)
unfolding encode_matched_loop decode_matched_loop
matched-TreeCoded zero bm symbol match_byte h low high = record {
  models = bm;
  are_models = h;
  codes =
      subst (λ v. Codes {Y = ℕ × List BitModel} 0 (pure bm) bm (pure (symbol / 256, bm)) (v, bm))
        (omega arith) (pure-Codes bm (symbol / 256, bm));
}
matched-TreeCoded (suc r) bm symbol match_byte h low high =
    subst (TreeCoded _ _ (suc r)) (ap (λ (t : ℕ). t / 256) (doubled r symbol low high)) (
      then-TreeCoded (encode_bit_at bm index b) (decode_bit_at bm place) _ _ first (
        if-TreeCoded (not (match_bit >>> 8 == bit b))
          (λ other.
            next_round r after byte (shifted_lem r symbol low high)
              (cleared ∙ ground (arith, other, agree)) (omega (arith, doubled r symbol low high))
              (subst
                (λ v.
                  TreeCoded (encode_matched_loop r after (symbol * 2) byte 0)
                    (decode_symbol_bits r after v) r (symbol * 2 * 2 ^ r / 256))
                read
                (plain-TreeCoded r after (symbol * 2) byte models
                  (omega (arith, doubled r symbol low high))
                  (omega (arith, doubled r symbol low high)))))
          (λ same.
            next_round r after byte (shifted_lem r symbol low high)
              (cleared ∙ ground (arith, same, agree)) (omega (arith, doubled r symbol low high))
              (subst
                (λ v.
                  TreeCoded (encode_matched_loop r after (symbol * 2) byte 0x100)
                    (decode_matched_loop r after byte v) r (symbol * 2 * 2 ^ r / 256))
                read
                (matched-TreeCoded r after (symbol * 2) byte models
                  (omega (arith, doubled r symbol low high))
                  (omega (arith, doubled r symbol low high)))))))
  where
    byte : ℕ
    byte = u32 (match_byte <<< 1)

    match_bit : ℕ
    match_bit = bit_and byte 0x100

    shifted : ℕ
    shifted = u32 (symbol <<< 1)

    b : Bool
    b = not (bit_and shifted 0x100 == 0)

    index : ℕ
    index = shifted >>> 9 + match_bit + 0x100

    place : ℕ
    place = 0x100 + (symbol / 256 + match_bit)

    after : List BitModel
    after = set bm place (adapt b (get_or bm place fresh_model))

    models : AreModels after
    models = models_after-AreModels (Kind.modelled place) b bm h

    bit_value : bit b ≡ symbol * 2 / 256 % 2
    bit_value = bit_lem shifted ∙ ap (λ (t : ℕ). t / 256 % 2) (shifted_lem r symbol low high)

    read : symbol * 2 / 256 ≡ bit_or (u32 ((symbol / 256) <<< 1)) (bit b)
    read = sym (read_lem r symbol low high b bit_value)

    cleared :
        clear_bits 0x100 (bit_xor match_bit shifted)
        ≡ (1 + (byte / 256 % 2 + shifted / 256 % 2) % 2) % 2 * 256
    cleared = clear_lem byte shifted

    agree : (match_bit >>> 8 ≡ byte / 256 % 2) × (bit b ≡ shifted / 256 % 2)
    agree = (omega (arith, bit_at 8 byte), bit_lem shifted)

    first : Codes 1 (encode_bit_at bm index b) after (decode_bit_at bm place) (b, after)
    first =
        subst
          (λ k.
            Codes {Y = Bool × List BitModel} 1 (encode_bit_at bm k b) after (decode_bit_at bm place)
              (b, after))
          (omega (arith, shifted_lem r symbol low high))
          (encode_bit_at-Codes bm place b (get_or-IsModel bm place h))

pub encode_matched-TreeCoded :
    (bm : List BitModel) (symbol match_byte : ℕ)
    → AreModels bm
    → symbol < 256
    → TreeCoded (encode_matched bm symbol match_byte) (decode_matched bm match_byte) 8 symbol
unfolding encode_matched decode_matched
encode_matched-TreeCoded bm symbol match_byte h small =
    kept (λ s. bit_and s 0xFF)
      (subst
        (λ k.
          TreeCoded (encode_matched_loop 8 bm k match_byte 0x100)
            (decode_matched_loop 8 bm match_byte 1) 8 (symbol + 256))
        (sym (bit_or_comm symbol 0x100 ∙ bit_or_fields 8 1 symbol small ∙ omega arith))
        (start_lem (symbol + 256) (omega arith) (omega arith)))
      (omega (arith, bit_and_byte (symbol + 256)))
  where
    start_lem :
        (k : ℕ)
        → 256 ≤ k
        → k < 512
        → TreeCoded
            (encode_matched_loop 8 bm k match_byte 0x100)
            (decode_matched_loop 8 bm match_byte 1)
            8
            k
    start_lem k low high =
        subst
          (TreeCoded (encode_matched_loop 8 bm k match_byte 0x100)
            (decode_matched_loop 8 bm match_byte 1) 8)
          (omega arith)
          (subst
            (λ j.
              TreeCoded (encode_matched_loop 8 bm k match_byte 0x100)
                (decode_matched_loop 8 bm match_byte j) 8 (k * 2 ^ 8 / 256))
            (omega arith) (matched-TreeCoded 8 bm k match_byte h (omega arith) (omega arith)))
