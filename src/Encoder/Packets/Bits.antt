-- ===== src/Encoder/Packets/Bits.antt =====
-- The bits that tell the kind of a packet, as the two encoders code them with `renc.encode_bit`, and the
-- prices of literals.
use lzip_os.Base.{ℕ, Bool, List, get_or, set, [], M, ◌>>=◌, get, put}
use lzip_os.Lzip.Model.{get_lit_state}
use lzip_os.Lzip.Crc.{update_byte, update_buf}
use lzip_os.Encoder.Range.{encode_bit_at}
use lzip_os.Encoder.Symbols.{encode_len}
use lzip_os.Encoder.Packets.{LzEncoderBase, on_renc}
use lzip_os.Encoder.Prices
use lzip_os.Encoder.Prices.{price_symbol8}

-- `renc.encode_bit( bm_match[st][pos_state], b )`
unfoldable pub match_bit : ℕ → ℕ → Bool → M LzEncoderBase (Unit {0})
match_bit st pos_state b = do
  e ← get
  bm ← on_renc (encode_bit_at (get_or e.bm_match st []) pos_state b)
  e' ← get
  put (record e' { bm_match = set e'.bm_match st bm })

-- `renc.encode_bit( bm_len[st][pos_state], b )`
unfoldable pub len_bit : ℕ → ℕ → Bool → M LzEncoderBase (Unit {0})
len_bit st pos_state b = do
  e ← get
  bm ← on_renc (encode_bit_at (get_or e.bm_len st []) pos_state b)
  e' ← get
  put (record e' { bm_len = set e'.bm_len st bm })

-- `renc.encode_bit( bm_rep[st], b )`, and the same for bm_rep0, bm_rep1 and bm_rep2.
unfoldable pub rep_bit : ℕ → Bool → M LzEncoderBase (Unit {0})
rep_bit st b = do
  e ← get
  bm ← on_renc (encode_bit_at e.bm_rep st b)
  e' ← get
  put (record e' { bm_rep = bm })

unfoldable pub rep0_bit : ℕ → Bool → M LzEncoderBase (Unit {0})
rep0_bit st b = do
  e ← get
  bm ← on_renc (encode_bit_at e.bm_rep0 st b)
  e' ← get
  put (record e' { bm_rep0 = bm })

unfoldable pub rep1_bit : ℕ → Bool → M LzEncoderBase (Unit {0})
rep1_bit st b = do
  e ← get
  bm ← on_renc (encode_bit_at e.bm_rep1 st b)
  e' ← get
  put (record e' { bm_rep1 = bm })

unfoldable pub rep2_bit : ℕ → Bool → M LzEncoderBase (Unit {0})
rep2_bit st b = do
  e ← get
  bm ← on_renc (encode_bit_at e.bm_rep2 st b)
  e' ← get
  put (record e' { bm_rep2 = bm })

-- `renc.encode_len( rep_len_model, len, pos_state )`
unfoldable pub encode_rep_len : ℕ → ℕ → M LzEncoderBase (Unit {0})
encode_rep_len len pos_state = do
  e ← get
  lm ← on_renc (encode_len e.rep_len_model len pos_state)
  e' ← get
  put (record e' { rep_len_model = lm })

-- `crc32.update_byte( crc_, byte )` and `crc32.update_buf( crc_, buffer, size )`
unfoldable pub crc_byte : ℕ → M LzEncoderBase (Unit {0})
crc_byte byte = do e ← get; put (record e { crc_ = update_byte e.crc_ byte })

unfoldable pub crc_buf : List ℕ → M LzEncoderBase (Unit {0})
crc_buf buffer = do e ← get; put (record e { crc_ = update_buf e.crc_ buffer })

unfoldable pub price_literal : ℕ → ℕ → LzEncoderBase → ℕ
price_literal prev_byte symbol e =
    price_symbol8 (get_or e.bm_literal (get_lit_state prev_byte) []) symbol

unfoldable pub price_matched : ℕ → ℕ → ℕ → LzEncoderBase → ℕ
price_matched prev_byte symbol match_byte e =
    Prices.price_matched (get_or e.bm_literal (get_lit_state prev_byte) []) symbol match_byte
