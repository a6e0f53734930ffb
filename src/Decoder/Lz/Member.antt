-- ===== src/Decoder/Lz/Member.antt =====
-- LZ_decoder::decode_member of decoder.cc: one function for the body of its loop, which either goes on
-- or ends with a return value, and the loop on fuel.
use lzip_os.Base.{ℕ, zero, suc, ◌+◌, ◌-◌, ltb, leb, ◌==◌, if◌then◌else◌, Bool, not, ◌&&◌, ◌||◌}
use lzip_os.Base.{List, ◌++◌, take, drop, set, replicate, bit_and, bit_or, u32, ◌<<<◌, ◌>>>◌}
use lzip_os.Base.{Option, none, some, M, ◌>>=◌, ◌>>◌, pure, get}
use lzip_os.Lzip.Model.{
  BitModel, LenModel, fresh_models, fresh_len_model, get_len_state, get_lit_state, pos_state_mask,
}
use lzip_os.Lzip.Model.{
  min_match_len, start_dis_model, end_dis_model, modeled_distances, dis_align_bits, dis_align_size,
}
use lzip_os.Lzip.Model.{len_states, pos_states}
use lzip_os.Lzip.State
use lzip_os.Lzip.State.{State, states, is_char_set_char, set_match, set_rep, set_shortrep}
use lzip_os.Decoder.Range
use lzip_os.Decoder.Range.{
  RangeDecoder, decode, decode_bit_at, decode_tree6, decode_tree8, decode_tree_reversed,
  decode_tree_reversed4, normalize,
}
use lzip_os.Decoder.Symbols.{decode_matched, decode_len, row}
use lzip_os.Decoder.Lz.{
  LzDecoder, data_position, peek_prev, peek, put_byte, copy_block, flush_data, check_trailer,
  on_rdec,
}

-- The local variables of `decode_member`.
pub record Member : Type 0 where
  pub bm_literal : List (List BitModel)
  pub bm_match : List (List BitModel)
  pub bm_rep : List BitModel
  pub bm_rep0 : List BitModel
  pub bm_rep1 : List BitModel
  pub bm_rep2 : List BitModel
  pub bm_len : List (List BitModel)
  pub bm_dis_slot : List (List BitModel)
  pub bm_dis : List BitModel
  pub bm_align : List BitModel
  pub match_len_model : LenModel
  pub rep_len_model : LenModel
  pub rep0 : ℕ
  pub rep1 : ℕ
  pub rep2 : ℕ
  pub rep3 : ℕ
  pub state : State

unfoldable pub fresh_member : Member
unfolding fresh_models fresh_len_model
fresh_member = record {
  bm_literal = replicate 8 (fresh_models 0x300);
  bm_match = replicate states (fresh_models pos_states);
  bm_rep = fresh_models states;
  bm_rep0 = fresh_models states;
  bm_rep1 = fresh_models states;
  bm_rep2 = fresh_models states;
  bm_len = replicate states (fresh_models pos_states);
  bm_dis_slot = replicate len_states (fresh_models 64);
  bm_dis = fresh_models (modeled_distances - end_dis_model + 1);
  bm_align = fresh_models dis_align_size;
  match_len_model = fresh_len_model;
  rep_len_model = fresh_len_model;
  rep0 = 0;
  rep1 = 0;
  rep2 = 0;
  rep3 = 0;
  state = State.initial;
}

-- How a round of the loop ends: it goes on, or `decode_member` returns a number.
pub data Outcome : Type 0 where
  goes_on : Member → Outcome
  returns : ℕ → Outcome

-- A bit with a model of a table of rows.
abbrev pub bit_in_row : List (List BitModel) → ℕ → ℕ → M LzDecoder (Bool × List (List BitModel))
bit_in_row rows i j = do (b, bm) ← on_rdec (decode_bit_at (row rows i) j); pure (b, set rows i bm)

unfoldable pub decode_literal : Member → M LzDecoder Member
unfolding peek_prev peek is_char_set_char
decode_literal m = do
  d ← get
  let lit_state = get_lit_state (peek_prev d)
  let s = is_char_set_char m.state
  (b, bm) ←
      (if s.result
        then on_rdec (decode_tree8 (row m.bm_literal lit_state))
        else on_rdec (decode_matched (row m.bm_literal lit_state) (peek m.rep0 d)))
  put_byte b
  pure (record m { state = s.after; bm_literal = set m.bm_literal lit_state bm })

-- The distance of a repeated match that is not rep0, and the four distances afterwards.
unfoldable pub decode_older_rep : Member → M LzDecoder Member
decode_older_rep m = do
  (b1, bm1) ← on_rdec (decode_bit_at m.bm_rep1 m.state.st)
  if not b1 then pure (record m { bm_rep1 = bm1; rep0 = m.rep1; rep1 = m.rep0 }) else (do
    (b2, bm2) ← on_rdec (decode_bit_at m.bm_rep2 m.state.st)
    pure (record m {
      bm_rep1 = bm1;
      bm_rep2 = bm2;
      rep0 = if b2 then m.rep3 else m.rep2;
      rep1 = m.rep0;
      rep2 = m.rep1;
      rep3 = if b2 then m.rep2 else m.rep3;
    }))

-- The length of a repeated match, and its copy.
unfoldable pub decode_rep_match : ℕ → Member → M LzDecoder Outcome
unfolding set_rep
decode_rep_match pos_state m = do
  (len, lm) ← on_rdec (decode_len m.rep_len_model pos_state)
  copy_block m.rep0 len
  pure (goes_on (record m { state = set_rep m.state; rep_len_model = lm }))

-- After the 2nd bit: a repeated match.
unfoldable pub decode_rep : ℕ → Member → M LzDecoder Outcome
unfolding decode_older_rep decode_rep_match set_shortrep peek
decode_rep pos_state m = do
  (b0, bm0) ← on_rdec (decode_bit_at m.bm_rep0 m.state.st)
  let m0 = record m { bm_rep0 = bm0 }
  if not b0
      then (do
        (b, rows) ← bit_in_row m.bm_len m.state.st pos_state
        let m1 = record m0 { bm_len = rows }
        if not b
            then (do
              d ← get
              put_byte (peek m.rep0 d)
              pure (goes_on (record m1 { state = set_shortrep m.state })))
            else decode_rep_match pos_state m1)
      else (do m1 ← decode_older_rep m0; decode_rep_match pos_state m1)

-- The distance for a slot, and the models of it afterwards.
unfoldable pub decode_distance : ℕ → Member → M LzDecoder (ℕ × Member)
decode_distance dis_slot m =
    let direct_bits = dis_slot >>> 1 - 1 in
    let base = bit_or 2 (bit_and dis_slot 1) <<< direct_bits in
    if ltb dis_slot start_dis_model
    then pure (dis_slot, m)
    else if ltb dis_slot end_dis_model
    then (do
      let first = base - dis_slot
      (symbol, bm) ← on_rdec (decode_tree_reversed (drop first m.bm_dis) direct_bits)
      pure (u32 (base + symbol), record m { bm_dis = take first m.bm_dis ++ bm }))
    else (do
      symbol ← on_rdec (decode (direct_bits - dis_align_bits))
      (low, bm) ← on_rdec (decode_tree_reversed4 m.bm_align)
      pure (u32 (u32 (base + u32 (symbol <<< dis_align_bits)) + low), record m { bm_align = bm }))

-- A marker: the distance 0xFFFFFFFF of a slot with direct bits.
unfoldable pub decode_marker : ℕ → M LzDecoder Outcome
unfolding flush_data check_trailer
decode_marker len = do
  on_rdec normalize
  flush_data
  if len == min_match_len
      then (do good ← check_trailer; pure (returns (if good then 0 else 3)))
      else pure (returns 4)

-- `rep0 >= dictionary_size || ( rep0 >= pos && !pos_wrapped )`
unfoldable pub is_bad_distance : ℕ → LzDecoder → Bool
is_bad_distance rep0 d = leb d.dictionary_size rep0 || (leb d.pos rep0 && not d.pos_wrapped)

-- After the 2nd bit: a match.
unfoldable pub decode_match : ℕ → Member → M LzDecoder Outcome
unfolding decode_distance decode_marker is_bad_distance set_match
decode_match pos_state m = do
  (len, lm) ← on_rdec (decode_len m.match_len_model pos_state)
  (dis_slot, bm) ← on_rdec (decode_tree6 (row m.bm_dis_slot (get_len_state len)))
  let slots = set m.bm_dis_slot (get_len_state len) bm
  (rep0, m1) ← decode_distance dis_slot (record m {
    match_len_model = lm;
    bm_dis_slot = slots;
    rep1 = m.rep0;
    rep2 = m.rep1;
    rep3 = m.rep2;
  })
  if leb end_dis_model dis_slot && (rep0 == 0xFFFF_FFFF) then decode_marker len else (do
    d ← get
    if is_bad_distance rep0 d then (do flush_data; pure (returns 1)) else (do
      copy_block rep0 len
      pure (goes_on (record m1 { rep0 = rep0; state = set_match m.state }))))

-- The body of the loop.
unfoldable pub decode_packet : Member → M LzDecoder Outcome
unfolding decode_literal decode_rep decode_match data_position
decode_packet m = do
  d ← get
  let pos_state = bit_and (data_position d) pos_state_mask
  (b, rows) ← bit_in_row m.bm_match m.state.st pos_state
  let m1 = record m { bm_match = rows }
  if not b then (do m2 ← decode_literal m1; pure (goes_on m2)) else (do
    (r, bm) ← on_rdec (decode_bit_at m1.bm_rep m1.state.st)
    let m2 = record m1 { bm_rep = bm }
    if r then decode_rep pos_state m2 else decode_match pos_state m2)

-- The loop, for at most `rounds` packets; `none` if it has not returned by then.
unfoldable pub decode_packets : ℕ → Member → M LzDecoder (Option ℕ)
unfolding decode_packet flush_data
decode_packets zero m = pure none
decode_packets (suc rounds) m = do
  end ← on_rdec Range.finished
  if end then (do flush_data; pure (some 2)) else (do
    outcome ← decode_packet m
    elim outcome [ goes_on m' ↦ decode_packets rounds m' | returns n ↦ pure (some n) ])

unfoldable pub decode_member : ℕ → M LzDecoder (Option ℕ)
unfolding decode_packets
decode_member rounds = do
  loaded ← on_rdec Range.load
  if not loaded then pure (some 5) else decode_packets rounds fresh_member
