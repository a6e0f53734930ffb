-- ===== src/Encoder/Packets.antt =====
-- The coding of packets in `class LZ_encoder_base` of encoder_base.h and encoder_base.cc. The position
-- of the data and the CRC of the match finder are arguments.
pub mod Bits
use lzip_os.Base.{ℕ, ◌+◌, ◌-◌, ltb, if◌then◌else◌, true, false}
use lzip_os.Base.{
  List, [], ◌++◌, take, drop, get_or, set, replicate, bit_and, bit_or, bit_xor, u64, ◌<<<◌, ◌>>>◌,
}
use lzip_os.Base.{ok, err, M, ◌>>=◌, ◌>>◌, pure, get, put, sub32}
use lzip_os.Lzip.Model.{
  BitModel, LenModel, fresh_models, fresh_len_model, get_len_state, get_lit_state, pos_state_mask,
}
use lzip_os.Lzip.Model.{
  min_match_len, start_dis_model, end_dis_model, modeled_distances, dis_align_bits, dis_align_size,
}
use lzip_os.Lzip.Model.{len_states, pos_states}
use lzip_os.Lzip.State.{State, states}
use lzip_os.Lzip.Trailer.{LzipTrailer, trailer_size, set_data_crc, set_data_size, set_member_size}
use lzip_os.Encoder.Output
use lzip_os.Encoder.Range
use lzip_os.Encoder.Range.{RangeEncoder, encode, encode_bit_at, flush, flush_data, on_output}
use lzip_os.Encoder.Symbols.{encode_tree6, encode_tree8, encode_tree_reversed, encode_len}
use lzip_os.Encoder.Symbols
use lzip_os.Encoder.Slots.{get_slot}

-- The models and the range encoder of LZ_encoder_base.
pub record LzEncoderBase : Type 0 where
  pub crc_ : ℕ
  pub bm_literal : List (List BitModel)
  pub bm_match : List (List BitModel)
  pub bm_rep : List BitModel
  pub bm_rep0 : List BitModel
  pub bm_rep1 : List BitModel
  pub bm_rep2 : List BitModel
  pub bm_len : List (List BitModel)
  pub bm_dis_slot : List (List BitModel)
  pub bm_dis : List BitModel
  pub bm_align : List BitModel
  pub match_len_model : LenModel
  pub rep_len_model : LenModel
  pub renc : RangeEncoder

unfoldable pub crc : LzEncoderBase → ℕ
crc e = bit_xor e.crc_ 0xFFFF_FFFF

-- A call on the range encoder.
abbrev pub on_renc : {A : Type 0} → M RangeEncoder A → M LzEncoderBase A
on_renc m e = elim (m e.renc) [ ok (a, r) ↦ ok (a, record e { renc = r }) | err x ↦ err x ]

unfoldable pub encode_literal : ℕ → ℕ → M LzEncoderBase (Unit {0})
encode_literal prev_byte symbol = do
  e ← get
  let i = get_lit_state prev_byte
  bm ← on_renc (encode_tree8 (get_or e.bm_literal i []) symbol)
  e' ← get
  put (record e' { bm_literal = set e'.bm_literal i bm })

unfoldable pub encode_matched : ℕ → ℕ → ℕ → M LzEncoderBase (Unit {0})
encode_matched prev_byte symbol match_byte = do
  e ← get
  let i = get_lit_state prev_byte
  bm ← on_renc (Symbols.encode_matched (get_or e.bm_literal i []) symbol match_byte)
  e' ← get
  put (record e' { bm_literal = set e'.bm_literal i bm })

-- What `encode_pair` codes after the slot.
unfoldable pub encode_direct : ℕ → ℕ → M LzEncoderBase (Unit {0})
encode_direct dis dis_slot =
    let direct_bits = dis_slot >>> 1 - 1 in
    let base = bit_or 2 (bit_and dis_slot 1) <<< direct_bits in
    let direct_dis = sub32 dis base in
    let first = base - dis_slot in
    if ltb dis_slot start_dis_model
    then pure tt
    else if ltb dis_slot end_dis_model
    then (do
      e ← get
      bm ← on_renc (encode_tree_reversed (drop first e.bm_dis) direct_dis direct_bits)
      e' ← get
      put (record e' { bm_dis = take first e'.bm_dis ++ bm }))
    else (do
      e ← get
      on_renc (encode (direct_dis >>> dis_align_bits) (direct_bits - dis_align_bits))
      bm ← on_renc (encode_tree_reversed e.bm_align direct_dis dis_align_bits)
      e' ← get
      put (record e' { bm_align = bm }))

unfoldable pub encode_pair : ℕ → ℕ → ℕ → M LzEncoderBase (Unit {0})
unfolding encode_direct
encode_pair dis len pos_state = do
  e ← get
  lm ← on_renc (encode_len e.match_len_model len pos_state)
  let i = get_len_state len
  bm ← on_renc (encode_tree6 (get_or e.bm_dis_slot i []) (get_slot dis))
  e' ← get
  put (record e' { match_len_model = lm; bm_dis_slot = set e'.bm_dis_slot i bm })
  encode_direct dis (get_slot dis)

-- The trailer of a member; the bytes not yet set are taken as zeros.
unfoldable pub trailer_of : ℕ → ℕ → ℕ → LzipTrailer
trailer_of data_crc data_size member_size =
    set_member_size member_size
      (set_data_size data_size (set_data_crc data_crc (replicate trailer_size 0)))

unfoldable pub full_flush : ℕ → State → M LzEncoderBase (Unit {0})
unfolding encode_pair crc trailer_of
full_flush data_position state = do
  let pos_state = bit_and data_position pos_state_mask
  e ← get
  bm ← on_renc (encode_bit_at (get_or e.bm_match state.st []) pos_state true)
  rep ← on_renc (encode_bit_at e.bm_rep state.st false)
  e1 ← get
  put (record e1 { bm_match = set e1.bm_match state.st bm; bm_rep = rep })
  encode_pair 0xFFFF_FFFF min_match_len pos_state
  on_renc flush
  e2 ← get
  let size = u64 (Range.member_position e2.renc + trailer_size)
  on_renc (on_output (Output.put_bytes (trailer_of (crc e2) data_position size)))
  on_renc flush_data

-- LZ_encoder_base::reset, behind that of the match finder, which gives the dictionary size.
unfoldable pub reset : ℕ → M LzEncoderBase (Unit {0})
unfolding fresh_models fresh_len_model
reset dictionary_size = do
  e ← get
  put (record {
    crc_ = 0xFFFF_FFFF;
    bm_literal = replicate 8 (fresh_models 0x300);
    bm_match = replicate states (fresh_models pos_states);
    bm_rep = fresh_models states;
    bm_rep0 = fresh_models states;
    bm_rep1 = fresh_models states;
    bm_rep2 = fresh_models states;
    bm_len = replicate states (fresh_models pos_states);
    bm_dis_slot = replicate len_states (fresh_models 64);
    bm_dis = fresh_models (modeled_distances - end_dis_model + 1);
    bm_align = fresh_models dis_align_size;
    match_len_model = fresh_len_model;
    rep_len_model = fresh_len_model;
    renc = e.renc;
  })
  on_renc (Range.reset dictionary_size)
