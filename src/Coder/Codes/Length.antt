-- ===== src/Coder/Codes/Length.antt =====
-- encode_len and decode_len: the decoder reads the length that the encoder codes.
use lzip_os.Base.{
  ℕ, zero, suc, ◌+◌, ◌-◌, ◌*◌, ◌%◌, ◌^◌, ◌≤◌, ◌≡◌, refl, subst, arith, Bool, true, false, not,
  if◌then◌else◌, leb, List, [], ◌∷◌, get_or, set, All,
}
use lzip_os.Base.{bit_and, M, ◌>>=◌, pure}
use lzip_os.Base.Bits.{bit_and_seven, bit_and_byte}
use lzip_os.Lzip.Model.{
  BitModel, LenModel, adapt, min_match_len, max_match_len, len_low_symbols, len_mid_symbols,
}
use lzip_os.Encoder.Range.{RangeEncoder, encode_bit}
use lzip_os.Encoder.Symbols.{encode_tree3, encode_tree8, encode_len}
use lzip_os.Decoder.Range.{RangeDecoder, decode_bit, decode_symbol_bits}
use lzip_os.Decoder.Symbols.{row, decode_len}
use lzip_os.Coder.Interval.{IsModel, adapt-IsModel}
use lzip_os.Coder.Stream.{AreModels}
use lzip_os.Coder.Codes.{Codes, pure-Codes, then-Codes, more-Codes, encode_bit-Codes}
use lzip_os.Coder.Codes.Tree.{TreeCoded, tree-TreeCoded}

pub record AreLenModels (lm : LenModel) : Type 0 where
  pub first : IsModel lm.choice1
  pub second : IsModel lm.choice2
  pub low : All AreModels lm.bm_low
  pub mid : All AreModels lm.bm_mid
  pub high : AreModels lm.bm_high

pub row-AreModels :
    (rows : List (List BitModel)) (i : ℕ) → All AreModels rows → AreModels (row rows i)
row-AreModels [] i h = tt
row-AreModels (bm ∷ rows) zero h = h.0
row-AreModels (bm ∷ rows) (suc i) h = row-AreModels rows i h.1

pub set-rows :
    (rows : List (List BitModel)) (i : ℕ) (bm : List BitModel)
    → All AreModels rows
    → AreModels bm
    → All AreModels (set rows i bm)
set-rows [] i bm h g = h
set-rows (x ∷ rows) zero bm h g = (g, h.1)
set-rows (x ∷ rows) (suc i) bm h g = (h.0, set-rows rows i bm h.1 g)

-- The decoder reads `len` where the encoder codes, and both answer the same models.
pub record LenCoded (m : M RangeEncoder LenModel) (n : M RangeDecoder (ℕ × LenModel)) (bits len : ℕ)
    : Type 0 where
  pub models : LenModel
  pub are_models : AreLenModels models
  pub codes : Codes bits m models n (len, models)

more-LenCoded :
    {bits : ℕ} (more : ℕ) {m : M RangeEncoder LenModel} {n : M RangeDecoder (ℕ × LenModel)}
    {len : ℕ}
    → bits ≤ more
    → LenCoded m n bits len
    → LenCoded m n more len
more-LenCoded more h f = record {
  models = f.models;
  are_models = f.are_models;
  codes = more-Codes more h f.codes;
}

then-LenCoded :
    {X Y : Type 0} {bits more : ℕ} (m : M RangeEncoder X) (n : M RangeDecoder Y) {x : X} {y : Y}
    (k : X → M RangeEncoder LenModel) (l : Y → M RangeDecoder (ℕ × LenModel)) {len : ℕ}
    → Codes bits m x n y
    → LenCoded (k x) (l y) more len
    → LenCoded (m >>= k) (n >>= l) (bits + more) len
then-LenCoded m n k l f g = record {
  models = g.models;
  are_models = g.are_models;
  codes = then-Codes m n k l f g.codes;
}

-- Both sides take the branch of the bit.
if-LenCoded :
    (b : Bool) {m m' : M RangeEncoder LenModel} {n n' : M RangeDecoder (ℕ × LenModel)}
    {bits len : ℕ}
    → (b ≡ false → LenCoded m n bits len)
    → (b ≡ true → LenCoded m' n' bits len)
    → LenCoded (if not b then m else m') (if not b then n else n') bits len
if-LenCoded false f g = f refl
if-LenCoded true f g = g refl

-- A tree of `count` bits, whose models `store` puts back.
tree-LenCoded :
    (bm : List BitModel) (store : List BitModel → LenModel) {m : M RangeEncoder (List BitModel)}
    {n : M RangeDecoder (ℕ × List BitModel)} (read : ℕ → ℕ) {bits symbol len : ℕ}
    (t : TreeCoded m n bits symbol)
    → AreLenModels (store t.models)
    → read symbol ≡ len
    → LenCoded (m >>= λ bm. pure (store bm)) (n >>= λ r. pure (read r.0, store r.1)) (bits + 0) len
tree-LenCoded bm store {m} {n} read {bits} t h e = record {
  models = store t.models;
  are_models = h;
  codes =
      subst
        (λ v.
          Codes {Y = ℕ × LenModel} (bits + 0) (m >>= λ bm. pure (store bm)) (store t.models)
            (n >>= λ r. pure (read r.0, store r.1)) (v, store t.models))
        e
        (then-Codes m n (λ bm. pure (store bm)) (λ r. pure (read r.0, store r.1)) t.codes
          (pure-Codes _ _));
}

pub encode_len-LenCoded :
    (lm : LenModel) (len pos_state : ℕ)
    → AreLenModels lm
    → min_match_len ≤ len
    → len ≤ max_match_len
    → LenCoded (encode_len lm len pos_state) (decode_len lm pos_state) 10 len
unfolding encode_len decode_len
encode_len-LenCoded lm len pos_state h low high =
    then-LenCoded (encode_bit lm.choice1 b1) (decode_bit lm.choice1) _ _
      (encode_bit-Codes lm.choice1 b1 h.first)
      (if-LenCoded b1 low_tree (λ large.
        then-LenCoded (encode_bit lm.choice2 b2) (decode_bit lm.choice2) _ _
          (encode_bit-Codes lm.choice2 b2 h.second)
          (if-LenCoded b2 (mid_tree large) (high_tree large))))
  where
    b1 : Bool
    b1 = leb len_low_symbols (len - min_match_len)

    b2 : Bool
    b2 = leb len_mid_symbols (len - min_match_len - len_low_symbols)

    m1 : BitModel
    m1 = adapt b1 lm.choice1

    m2 : BitModel
    m2 = adapt b2 lm.choice2

    first : IsModel m1
    first = adapt-IsModel b1 lm.choice1 h.first

    second : IsModel m2
    second = adapt-IsModel b2 lm.choice2 h.second

    symbol : ℕ
    symbol = len - min_match_len

    low_tree :
        b1 ≡ false
        → LenCoded
            (encode_tree3 (get_or lm.bm_low pos_state []) symbol >>= λ bm.
              pure (record lm { choice1 = m1; bm_low = set lm.bm_low pos_state bm }))
            (decode_symbol_bits 3 (row lm.bm_low pos_state) 1 >>= λ r. pure (
              bit_and r.0 7 + min_match_len + 0,
              record lm { choice1 = m1; bm_low = set lm.bm_low pos_state r.1 },
            ))
            9
            len
    low_tree small =
        let t =
          tree-TreeCoded 3 (row lm.bm_low pos_state) symbol 1
            (row-AreModels lm.bm_low pos_state h.low) (omega arith) in
        more-LenCoded 9 (omega arith) (
          tree-LenCoded (row lm.bm_low pos_state)
            (λ bm. record lm { choice1 = m1; bm_low = set lm.bm_low pos_state bm })
            (λ r. bit_and r 7 + min_match_len + 0) t
            (record {
              first = first;
              second = h.second;
              low = set-rows lm.bm_low pos_state t.models h.low t.are_models;
              mid = h.mid;
              high = h.high;
            })
            (ground (arith, small, bit_and_seven (1 * 2 ^ 3 + symbol % 2 ^ 3))))

    mid_tree :
        b1 ≡ true
        → b2 ≡ false
        → LenCoded
            (encode_tree3 (get_or lm.bm_mid pos_state []) (symbol - len_low_symbols) >>= λ bm.
              pure (record lm { choice1 = m1; choice2 = m2; bm_mid = set lm.bm_mid pos_state bm }))
            (decode_symbol_bits 3 (row lm.bm_mid pos_state) 1 >>= λ r. pure (
              bit_and r.0 7 + min_match_len + len_low_symbols,
              record lm { choice1 = m1; choice2 = m2; bm_mid = set lm.bm_mid pos_state r.1 },
            ))
            8
            len
    mid_tree large small =
        let t =
          tree-TreeCoded 3 (row lm.bm_mid pos_state) (symbol - len_low_symbols) 1
            (row-AreModels lm.bm_mid pos_state h.mid) (omega arith) in
        more-LenCoded 8 (omega arith) (
          tree-LenCoded (row lm.bm_mid pos_state)
            (λ bm. record lm { choice1 = m1; choice2 = m2; bm_mid = set lm.bm_mid pos_state bm })
            (λ r. bit_and r 7 + min_match_len + len_low_symbols) t
            (record {
              first = first;
              second = second;
              low = h.low;
              mid = set-rows lm.bm_mid pos_state t.models h.mid t.are_models;
              high = h.high;
            })
            (ground (
              arith,
              small,
              large,
              bit_and_seven (1 * 2 ^ 3 + (symbol - len_low_symbols) % 2 ^ 3),
            )))

    high_tree :
        b1 ≡ true
        → b2 ≡ true
        → LenCoded
            (encode_tree8 lm.bm_high (symbol - len_low_symbols - len_mid_symbols) >>= λ bm.
              pure (record lm { choice1 = m1; choice2 = m2; bm_high = bm }))
            (decode_symbol_bits 8 lm.bm_high 1 >>= λ r. pure (
              bit_and r.0 0xFF + min_match_len + (len_low_symbols + len_mid_symbols),
              record lm { choice1 = m1; choice2 = m2; bm_high = r.1 },
            ))
            8
            len
    high_tree large larger =
        let t =
          tree-TreeCoded 8 lm.bm_high (symbol - len_low_symbols - len_mid_symbols) 1 h.high
            (omega arith) in
        more-LenCoded 8 (omega arith) (
          tree-LenCoded lm.bm_high (λ bm. record lm { choice1 = m1; choice2 = m2; bm_high = bm })
            (λ r. bit_and r 0xFF + min_match_len + (len_low_symbols + len_mid_symbols)) t
            (record {
              first = first;
              second = second;
              low = h.low;
              mid = h.mid;
              high = t.are_models;
            })
            (ground (
              arith,
              large,
              larger,
              bit_and_byte (1 * 2 ^ 8 + (symbol - len_low_symbols - len_mid_symbols) % 2 ^ 8),
            )))
