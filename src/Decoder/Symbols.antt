-- ===== src/Decoder/Symbols.antt =====
-- The functions of `class Range_decoder` of decoder.h that decode a literal after a match and a length.
use lzip_os.Base.{ℕ, zero, suc, ◌+◌, ◌==◌, if◌then◌else◌, not}
use lzip_os.Base.{List, [], get_or, set, bit, bit_and, bit_or, u32, ◌<<<◌, ◌>>>◌, M, ◌>>=◌, pure}
use lzip_os.Lzip.Model.{BitModel, LenModel, min_match_len, len_low_symbols, len_mid_symbols}
use lzip_os.Decoder.Range.{RangeDecoder, decode_bit, decode_bit_at, decode_symbol_bits}

-- The loop of `decode_matched`, `rounds` times until `symbol` has nine digits; once the bits differ,
-- the inner loop does the rest.
unfoldable pub decode_matched_loop : ℕ → List BitModel → ℕ → ℕ → M RangeDecoder (ℕ × List BitModel)
unfolding decode_bit_at decode_symbol_bits
decode_matched_loop zero bm match_byte symbol = pure (symbol, bm)
decode_matched_loop (suc rounds) bm match_byte symbol = do
  let byte = u32 (match_byte <<< 1)
  let match_bit = bit_and byte 0x100
  (b, bm') ← decode_bit_at bm (0x100 + (symbol + match_bit))
  let symbol' = bit_or (u32 (symbol <<< 1)) (bit b)
  let plain = decode_symbol_bits rounds bm' symbol'
  let matched = decode_matched_loop rounds bm' byte symbol'
  if not (match_bit >>> 8 == bit b) then plain else matched

unfoldable pub decode_matched : List BitModel → ℕ → M RangeDecoder (ℕ × List BitModel)
unfolding decode_matched_loop
decode_matched bm match_byte = do
  (symbol, bm') ← decode_matched_loop 8 bm match_byte 1
  pure (bit_and symbol 0xFF, bm')

-- The row of a table of models, and the table with that row replaced.
abbrev pub row : List (List BitModel) → ℕ → List BitModel
row rows i = get_or rows i []

unfoldable pub decode_len : LenModel → ℕ → M RangeDecoder (ℕ × LenModel)
unfolding decode_bit decode_symbol_bits
decode_len lm pos_state = do
  (b1, m1) ← decode_bit lm.choice1
  if not b1
      then (do
        (symbol, bm) ← decode_symbol_bits 3 (row lm.bm_low pos_state) 1
        pure (
          bit_and symbol 7 + min_match_len + 0,
          record lm { choice1 = m1; bm_low = set lm.bm_low pos_state bm },
        ))
      else (do
        (b2, m2) ← decode_bit lm.choice2
        if not b2
            then (do
              (symbol, bm) ← decode_symbol_bits 3 (row lm.bm_mid pos_state) 1
              pure (
                bit_and symbol 7 + min_match_len + len_low_symbols,
                record lm { choice1 = m1; choice2 = m2; bm_mid = set lm.bm_mid pos_state bm },
              ))
            else (do
              (symbol, bm) ← decode_symbol_bits 8 lm.bm_high 1
              pure (
                bit_and symbol 0xFF + min_match_len + (len_low_symbols + len_mid_symbols),
                record lm { choice1 = m1; choice2 = m2; bm_high = bm },
              )))
