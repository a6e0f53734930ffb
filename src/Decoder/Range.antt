-- ===== src/Decoder/Range.antt =====
-- `class Range_decoder` of decoder.h, but for its input buffer (Decoder/Input). A function that is
-- given an array of models returns it with the models as they are afterwards.
use lzip_os.Base.{
  ℕ, zero, suc, ◌+◌, ◌*◌, ◌^◌, ltb, leb, ◌==◌, if◌then◌else◌, Bool, true, false, not,
}
use lzip_os.Base.{List, get_or, set, bit, bit_and, bit_or, u32, sub32, ◌<<<◌, ◌>>>◌}
use lzip_os.Base.{ok, err, M, ◌>>=◌, ◌>>◌, pure, get, put}
use lzip_os.Io.{InFile}
use lzip_os.Lzip.Model.{BitModel, fresh_model, bit_model_total_bits}
use lzip_os.Lzip.Model.{adapt}
use lzip_os.Decoder.Input
use lzip_os.Decoder.Input.{Input}

pub record RangeDecoder : Type 0 where
  pub input : Input
  pub code : ℕ
  pub range : ℕ

-- Range_decoder( ifd )
unfoldable pub initial : InFile → RangeDecoder
initial f = record { input = Input.initial f; code = 0; range = 0xFFFF_FFFF }

-- A call on the input side.
abbrev pub on_input : {A : Type 0} → M Input A → M RangeDecoder A
on_input m d = elim (m d.input) [ ok (a, i) ↦ ok (a, record d { input = i }) | err e ↦ err e ]

unfoldable pub get_byte : M RangeDecoder ℕ
get_byte = on_input Input.get_byte

unfoldable pub finished : M RangeDecoder Bool
finished = on_input Input.finished

unfoldable pub read_data : ℕ → M RangeDecoder (List ℕ)
read_data size = on_input (Input.read_data size)

unfoldable pub member_position : RangeDecoder → ℕ
member_position d = Input.member_position d.input

unfoldable pub reset_member_position : RangeDecoder → RangeDecoder
reset_member_position d = record d { input = Input.reset_member_position d.input }

-- `code = ( code << 8 ) | get_byte()`
unfoldable pub shift_in : M RangeDecoder (Unit {0})
unfolding get_byte
shift_in = do b ← get_byte; d ← get; put (record d { code = bit_or (u32 (d.code <<< 8)) b })

unfoldable pub load : M RangeDecoder Bool
unfolding get_byte shift_in
load = do
  d ← get
  put (record d { code = 0; range = 0xFFFF_FFFF })
  first ← get_byte
  if not (first == 0) then pure false else do shift_in; shift_in; shift_in; shift_in; pure true

unfoldable pub normalize : M RangeDecoder (Unit {0})
unfolding shift_in
normalize d =
    if leb d.range 0x00FF_FFFF
    then shift_in (record d { range = u32 (d.range <<< 8) })
    else ok (tt, d)

-- One of the direct bits: the range is halved.
unfoldable pub take_half : M RangeDecoder Bool
take_half d =
    let range = d.range >>> 1 in
    let b = leb range d.code in
    ok (b, record d { range = range; code = sub32 d.code (bit_and range (sub32 0 (bit b))) })

-- The loop of `decode`: `num_bits` rounds on `symbol`.
unfoldable pub decode_loop : ℕ → ℕ → M RangeDecoder ℕ
unfolding normalize take_half
decode_loop zero symbol = pure symbol
decode_loop (suc num_bits) symbol = do
  normalize
  b ← take_half
  decode_loop num_bits (u32 (u32 (symbol <<< 1) + bit b))

unfoldable pub decode : ℕ → M RangeDecoder ℕ
unfolding decode_loop
decode num_bits = decode_loop num_bits 0

-- What `decode_bit` does after `normalize`: the bit by the bound, and the model adapted to it. The
-- bodies of `decode_symbol_bit` and `decode_symbol_bit_reversed` do the same.
unfoldable pub take_bit : BitModel → M RangeDecoder (Bool × BitModel)
take_bit probability d =
    let bound = u32 ((d.range >>> bit_model_total_bits) * probability) in
    if ltb d.code bound
    then ok ((false, adapt false probability), record d { range = bound })
    else ok (
      (true, adapt true probability),
      record d { code = sub32 d.code bound; range = sub32 d.range bound },
    )

unfoldable pub decode_bit : BitModel → M RangeDecoder (Bool × BitModel)
unfolding normalize take_bit
decode_bit bm = normalize >> take_bit bm

-- `decode_bit( bm[i] )`
unfoldable pub decode_bit_at : List BitModel → ℕ → M RangeDecoder (Bool × List BitModel)
unfolding decode_bit
decode_bit_at bm i = do (b, m) ← decode_bit (get_or bm i fresh_model); pure (b, set bm i m)

-- `decode_symbol_bit( bm[symbol], symbol )`
unfoldable pub decode_symbol_bit : List BitModel → ℕ → M RangeDecoder (ℕ × List BitModel)
unfolding normalize take_bit
decode_symbol_bit bm symbol = do
  normalize
  (b, m) ← take_bit (get_or bm symbol fresh_model)
  pure (bit_or (u32 (symbol <<< 1)) (bit b), set bm symbol m)

-- `decode_symbol_bit_reversed( bm[model], model, symbol, i )`
unfoldable pub decode_symbol_bit_reversed :
    List BitModel
    → ℕ
    → ℕ
    → ℕ
    → M RangeDecoder (record { model : ℕ; symbol : ℕ; bm : List BitModel })
unfolding normalize take_bit
decode_symbol_bit_reversed bm model symbol i = do
  normalize
  (b, m) ← take_bit (get_or bm model fresh_model)
  pure (record {
    model = bit_or (u32 (model <<< 1)) (bit b);
    symbol = if b then bit_or symbol (2 ^ i) else symbol;
    bm = set bm model m;
  })

-- `rounds` calls of `decode_symbol_bit` in a row.
unfoldable pub decode_symbol_bits : ℕ → List BitModel → ℕ → M RangeDecoder (ℕ × List BitModel)
unfolding decode_symbol_bit
decode_symbol_bits zero bm symbol = pure (symbol, bm)
decode_symbol_bits (suc rounds) bm symbol = do
  (symbol', bm') ← decode_symbol_bit bm symbol
  decode_symbol_bits rounds bm' symbol'

unfoldable pub decode_tree6 : List BitModel → M RangeDecoder (ℕ × List BitModel)
unfolding decode_symbol_bits
decode_tree6 bm = do (symbol, bm') ← decode_symbol_bits 6 bm 1; pure (bit_and symbol 0x3F, bm')

unfoldable pub decode_tree8 : List BitModel → M RangeDecoder (ℕ × List BitModel)
unfolding decode_symbol_bits
decode_tree8 bm = do (symbol, bm') ← decode_symbol_bits 8 bm 1; pure (bit_and symbol 0xFF, bm')

-- The rounds of `decode_tree_reversed` from bit `i` on.
unfoldable pub decode_reversed_loop :
    ℕ → ℕ → List BitModel → ℕ → ℕ → M RangeDecoder (ℕ × List BitModel)
unfolding decode_symbol_bit_reversed
decode_reversed_loop zero i bm model symbol = pure (symbol, bm)
decode_reversed_loop (suc rounds) i bm model symbol = do
  r ← decode_symbol_bit_reversed bm model symbol i
  decode_reversed_loop rounds (suc i) r.bm r.model r.symbol

unfoldable pub decode_tree_reversed : List BitModel → ℕ → M RangeDecoder (ℕ × List BitModel)
unfolding decode_reversed_loop
decode_tree_reversed bm num_bits = decode_reversed_loop num_bits 0 bm 1 0

unfoldable pub decode_tree_reversed4 : List BitModel → M RangeDecoder (ℕ × List BitModel)
unfolding decode_reversed_loop
decode_tree_reversed4 bm = decode_reversed_loop 4 0 bm 1 0
