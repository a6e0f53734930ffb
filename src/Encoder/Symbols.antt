-- ===== src/Encoder/Symbols.antt =====
-- The functions of `class Range_encoder` of encoder_base.h that code a symbol bit by bit.
use lzip_os.Base.{ℕ, zero, suc, ◌+◌, ◌-◌, leb, ◌==◌, if◌then◌else◌, Bool, not}
use lzip_os.Base.{
  List, [], get_or, set, bit, bit_and, bit_or, bit_xor, u32, ◌<<<◌, ◌>>>◌, M, ◌>>=◌, pure,
}
use lzip_os.Lzip.Model.{BitModel, LenModel, min_match_len, len_low_symbols, len_mid_symbols}
use lzip_os.Encoder.Range.{RangeEncoder, encode_bit, encode_bit_at}

-- `( symbol >> i ) & 1` as a bool.
abbrev pub bit_of : ℕ → ℕ → Bool
bit_of symbol i = not (bit_and (symbol >>> i) 1 == 0)

-- The bits of `symbol` from bit `count - 1` down, each with the model at `model`, as encode_tree3,
-- encode_tree6 and encode_tree8 code 3, 6 and 8 bits.
unfoldable pub encode_tree_loop : ℕ → List BitModel → ℕ → ℕ → M RangeEncoder (List BitModel)
unfolding encode_bit_at
encode_tree_loop zero bm symbol model = pure bm
encode_tree_loop (suc i) bm symbol model = do
  bm' ← encode_bit_at bm model (bit_of symbol i)
  encode_tree_loop i bm' symbol (bit_or (model <<< 1) (bit (bit_of symbol i)))

unfoldable pub encode_tree3 : List BitModel → ℕ → M RangeEncoder (List BitModel)
unfolding encode_tree_loop
encode_tree3 bm symbol = encode_tree_loop 3 bm symbol 1

unfoldable pub encode_tree6 : List BitModel → ℕ → M RangeEncoder (List BitModel)
unfolding encode_tree_loop
encode_tree6 bm symbol = encode_tree_loop 6 bm symbol 1

unfoldable pub encode_tree8 : List BitModel → ℕ → M RangeEncoder (List BitModel)
unfolding encode_tree_loop
encode_tree8 bm symbol = encode_tree_loop 8 bm symbol 1

unfoldable pub encode_reversed_loop : ℕ → List BitModel → ℕ → ℕ → M RangeEncoder (List BitModel)
unfolding encode_bit_at
encode_reversed_loop zero bm symbol model = pure bm
encode_reversed_loop (suc rounds) bm symbol model = do
  let b = not (bit_and symbol 1 == 0)
  bm' ← encode_bit_at bm model b
  encode_reversed_loop rounds bm' (symbol >>> 1) (bit_or (model <<< 1) (bit b))

unfoldable pub encode_tree_reversed : List BitModel → ℕ → ℕ → M RangeEncoder (List BitModel)
unfolding encode_reversed_loop
encode_tree_reversed bm symbol num_bits = encode_reversed_loop num_bits bm symbol 1

-- `mask &= ~x` on an unsigned.
abbrev pub clear_bits : ℕ → ℕ → ℕ
clear_bits mask x = bit_and mask (bit_xor 0xFFFF_FFFF x)

-- The loop of `encode_matched`; `symbol` begins with nine digits and the loop ends when it has 17.
unfoldable pub encode_matched_loop : ℕ → List BitModel → ℕ → ℕ → ℕ → M RangeEncoder (List BitModel)
unfolding encode_bit_at
encode_matched_loop zero bm symbol match_byte mask = pure bm
encode_matched_loop (suc rounds) bm symbol match_byte mask = do
  let byte = u32 (match_byte <<< 1)
  let match_bit = bit_and byte mask
  let shifted = u32 (symbol <<< 1)
  let b = not (bit_and shifted 0x100 == 0)
  bm' ← encode_bit_at bm (shifted >>> 9 + match_bit + mask) b
  let more =
      encode_matched_loop rounds bm' shifted byte (clear_bits mask (bit_xor match_bit shifted))
  if leb 0x10000 shifted then pure bm' else more

unfoldable pub encode_matched : List BitModel → ℕ → ℕ → M RangeEncoder (List BitModel)
unfolding encode_matched_loop
encode_matched bm symbol match_byte =
    encode_matched_loop 8 bm (bit_or symbol 0x100) match_byte 0x100

-- `len` is an int that is at least `min_match_len`.
unfoldable pub encode_len : LenModel → ℕ → ℕ → M RangeEncoder LenModel
unfolding encode_bit encode_tree3 encode_tree8
encode_len lm len pos_state = do
  let symbol = len - min_match_len
  let b1 = leb len_low_symbols symbol
  m1 ← encode_bit lm.choice1 b1
  if not b1
      then (do
        bm ← encode_tree3 (get_or lm.bm_low pos_state []) symbol
        pure (record lm { choice1 = m1; bm_low = set lm.bm_low pos_state bm }))
      else (do
        let rest = symbol - len_low_symbols
        let b2 = leb len_mid_symbols rest
        m2 ← encode_bit lm.choice2 b2
        if not b2
            then (do
              bm ← encode_tree3 (get_or lm.bm_mid pos_state []) rest
              pure (record lm { choice1 = m1; choice2 = m2; bm_mid = set lm.bm_mid pos_state bm }))
            else (do
              bm ← encode_tree8 lm.bm_high (rest - len_mid_symbols)
              pure (record lm { choice1 = m1; choice2 = m2; bm_high = bm })))
