-- ===== src/Coder/Objects/Match.antt =====
-- Matches: encode_pair of Encoder/Packets and decode_match.
use lzip_os.Base.{
  ℕ, ◌≤◌, ◌<◌, ◌≡◌, refl, ap, ◌∙◌, arith, leb, ◌==◌, ◌&&◌, if◌then◌else◌, false, List, set,
}
use lzip_os.Base.{M, Result, ok, ◌>>=◌, ◌>>◌, >>=-ok, pure, get, put, if_false}
use lzip_os.Lzip.Model.{
  BitModel, LenModel, min_match_len, max_match_len, end_dis_model, get_len_state,
}
use lzip_os.Lzip.State.{set_match}
use lzip_os.Encoder.Symbols.{encode_len, encode_tree6}
use lzip_os.Encoder.Slots.{get_slot}
use lzip_os.Encoder.Slots.Base.{IsSlot, get_slot-IsSlot}
use lzip_os.Encoder.Packets.{LzEncoderBase, on_renc, encode_pair, encode_direct}
use lzip_os.Encoder.Fast.Member.{code_match}
use lzip_os.Decoder.Range.{RangeDecoder, decode_tree6}
use lzip_os.Decoder.Symbols.{row, decode_len}
use lzip_os.Decoder.Lz.{LzDecoder, on_rdec, copy_block, flush_data}
use lzip_os.Decoder.Lz.Member.{
  Member, Outcome, goes_on, returns, decode_match, decode_distance, decode_marker, decode_packet,
  is_bad_distance,
}
use lzip_os.Coder.Codes.{>>=_assoc}
use lzip_os.Coder.Codes.Tree.{TreeCoded, tree6-TreeCoded}
use lzip_os.Coder.Codes.Length.{LenCoded, encode_len-LenCoded, row-AreModels, set-rows}
use lzip_os.Coder.Objects.{
  Joins, base_of, with_rdec, lift-Joins, then-Joins, encoder_then, decoder_then, models-Joins,
  same-Joins,
}
use lzip_os.Coder.Objects.Bits.{AreMember}
use lzip_os.Coder.Objects.Packet.{PacketJoined, Distances}
use lzip_os.Coder.Objects.Kind.{pos_state_of, with_kind, with_kind-AreMember, kind-Joins}
use lzip_os.Coder.Objects.Distance.{DistanceJoined, encode_direct-DistanceJoined}

slot_small : (slot dis : ℕ) → IsSlot slot dis → slot < 64
slot_small slot dis h = ground (arith, h)

-- The last distances after a match.
abbrev pub pushed_reps : ℕ → Member → Distances
pushed_reps dis m = record { rep0 = dis; rep1 = m.rep0; rep2 = m.rep1; rep3 = m.rep2 }

-- A match that the decoder takes: not the distance of the marker, within the window, and copied.
pub record Copies (d : LzDecoder) (dis len : ℕ) (d' : LzDecoder) : Type 0 where
  pub no_marker : dis < 0xFFFF_FFFF
  pub in_window : is_bad_distance dis d ≡ false
  pub copies : (r : RangeDecoder) → copy_block dis len (with_rdec d r) ≡ ok (tt, with_rdec d' r)

module _ (m : Member) (crc : ℕ) (d d' : LzDecoder) (h : AreMember m) (pos_state dis len : ℕ)
    (low : min_match_len ≤ len) (high : len ≤ max_match_len) (c : Copies d dis len d') where
  l :
      LenCoded
        (encode_len m.match_len_model len pos_state)
        (decode_len m.match_len_model pos_state)
        10
        len
  l = encode_len-LenCoded m.match_len_model len pos_state h.match_len low high

  abbrev slot : ℕ
  slot = get_slot dis

  abbrev slot_row : List BitModel
  slot_row = row m.bm_dis_slot (get_len_state len)

  t : TreeCoded (encode_tree6 slot_row slot) (decode_tree6 slot_row) 6 slot
  t =
      tree6-TreeCoded slot_row slot (row-AreModels m.bm_dis_slot (get_len_state len) h.dis_slot)
        (slot_small slot dis (get_slot-IsSlot dis (omega (arith, c.no_marker))))

  -- The variables of decode_member before the distance is read.
  abbrev before_distance : LenModel → List BitModel → Member
  before_distance lm bm = record m {
    match_len_model = lm;
    bm_dis_slot = set m.bm_dis_slot (get_len_state len) bm;
    rep1 = m.rep0;
    rep2 = m.rep1;
    rep3 = m.rep2;
  }

  abbrev m1 : Member
  m1 = before_distance l.models t.models

  m1-AreMember : AreMember m1
  m1-AreMember = record {
    literal = h.literal;
    match = h.match;
    rep = h.rep;
    rep0 = h.rep0;
    rep1 = h.rep1;
    rep2 = h.rep2;
    len = h.len;
    dis_slot = set-rows m.bm_dis_slot (get_len_state len) t.models h.dis_slot t.are_models;
    dis = h.dis;
    align = h.align;
    match_len = l.are_models;
    rep_len = h.rep_len;
  }

  g : DistanceJoined (encode_direct dis slot) m1 crc (decode_distance slot m1) d dis
  g = encode_direct-DistanceJoined m1 crc d dis m1-AreMember (omega (arith, c.no_marker))

  abbrev after : Member
  after = record m1 {
    bm_dis = g.bm_dis;
    bm_align = g.bm_align;
    rep0 = dis;
    state = set_match m.state;
  }

  len_part : M LzEncoderBase LenModel
  len_part = on_renc (encode_len m.match_len_model len pos_state)

  -- What the two sides do after the length, and after the slot.
  slot_part : M LzEncoderBase (List BitModel)
  slot_part = on_renc (encode_tree6 slot_row slot)

  store : LenModel → List BitModel → M LzEncoderBase (Unit {0})
  store lm bm = do
    e ← get
    put (record e { match_len_model = lm; bm_dis_slot = set e.bm_dis_slot (get_len_state len) bm })

  copy_it : ℕ → ℕ → ℕ × Member → M LzDecoder Outcome
  copy_it len dis_slot r =
      if leb end_dis_model dis_slot && (r.0 == 0xFFFF_FFFF) then decode_marker len else (do
        d ← get
        if is_bad_distance r.0 d then (do flush_data; pure (returns 1)) else (do
          copy_block r.0 len
          pure (goes_on (record (r.1) { rep0 = r.0; state = set_match m.state }))))

  read_distance : ℕ → LenModel → ℕ × List BitModel → M LzDecoder Outcome
  read_distance len lm r =
      decode_distance r.0 (record m {
        match_len_model = lm;
        bm_dis_slot = set m.bm_dis_slot (get_len_state len) r.1;
        rep1 = m.rep0;
        rep2 = m.rep1;
        rep3 = m.rep2;
      })
      >>= copy_it len r.0

  read_slot : ℕ × LenModel → M LzDecoder Outcome
  read_slot r =
      on_rdec (decode_tree6 (row m.bm_dis_slot (get_len_state r.0))) >>= read_distance r.0 r.1

  copied :
      (r : RangeDecoder)
      → copy_it len slot
          (dis, record m1 { bm_dis = g.bm_dis; bm_align = g.bm_align })
          (with_rdec d r)
        ≡ ok (goes_on after, with_rdec d' r)
  unfolding copy_it is_bad_distance
  copied r =
      ap at_state (
        if_false {b = leb end_dis_model slot && (dis == 0xFFFF_FFFF)} _ _
          (ground (arith, c.no_marker)))
      ∙ ap at_state (if_false {b = is_bad_distance dis d} _ _ c.in_window)
      ∙ >>=-ok (copy_block dis len) (λ _. pure (goes_on after)) (with_rdec d r) (c.copies r)
    where
      at_state : M LzDecoder Outcome → Result (Outcome × LzDecoder)
      at_state n = n (with_rdec d r)

  pair-Joins :
      Joins 46
        (encode_pair dis len pos_state)
        m
        crc
        tt
        after
        (decode_match pos_state m)
        d
        (goes_on after)
        d'
  unfolding encode_pair decode_match len_part slot_part store copy_it read_distance read_slot
  pair-Joins =
      models-Joins {m1 = record m1 { bm_dis = g.bm_dis; bm_align = g.bm_align }} (λ r. refl)
        (same-Joins
          (len_part >>= λ lm. slot_part >>= λ bm. store lm bm >>= λ _. encode_direct dis slot)
          (encode_pair dis len pos_state)
          (on_rdec (decode_len m.match_len_model pos_state) >>= read_slot)
          (decode_match pos_state m) (omega arith) (λ r. refl) (λ r. refl)
          (then-Joins {more = 36} len_part
            (λ lm. slot_part >>= λ bm. store lm bm >>= λ _. encode_direct dis slot)
            (on_rdec (decode_len m.match_len_model pos_state)) read_slot
            (lift-Joins m crc d l.codes)
            (same-Joins ((slot_part >>= store l.models) >>= λ _. encode_direct dis slot) _
              (on_rdec (decode_tree6 slot_row) >>= read_distance len l.models)
              (read_slot (len, l.models)) (omega arith)
              (λ r.
                >>=_assoc slot_part (store l.models) (λ _. encode_direct dis slot)
                  (base_of m crc r))
              (λ r. refl)
              (then-Joins {more = 30} (slot_part >>= store l.models) (λ _. encode_direct dis slot)
                (on_rdec (decode_tree6 slot_row)) (read_distance len l.models)
                (encoder_then slot_part (store l.models) (lift-Joins m crc d t.codes) (λ r. refl))
                (decoder_then (decode_distance slot m1) (copy_it len slot) g.joins copied)))))

  after-AreMember : AreMember after
  after-AreMember = record {
    literal = h.literal;
    match = h.match;
    rep = h.rep;
    rep0 = h.rep0;
    rep1 = h.rep1;
    rep2 = h.rep2;
    len = h.len;
    dis_slot = m1-AreMember.dis_slot;
    dis = g.are_dis;
    align = g.are_align;
    match_len = l.are_models;
    rep_len = h.rep_len;
  }

-- The packet of a match that the decoder takes, with a length from 2 to 273: decode_packet reads the
-- distance and the length and copies so many bytes.
pub match-PacketJoined :
    (m : Member) (crc : ℕ) (d d' : LzDecoder) (dis len : ℕ)
    → AreMember m
    → min_match_len ≤ len
    → len ≤ max_match_len
    → Copies d dis len d'
    → PacketJoined
        (code_match m.state.st (pos_state_of d) dis len)
        m
        crc
        (decode_packet m)
        d
        (set_match m.state)
        (pushed_reps dis m)
        d'
unfolding code_match
match-PacketJoined m crc d d' dis len h low high c =
    let ps = pos_state_of d in
    let m2 = with_kind m ps false in
    let a = with_kind-AreMember m ps false h in
    record {
      after = after m2 crc d d' a ps dis len low high c;
      are_models = after-AreMember m2 crc d d' a ps dis len low high c;
      same_state = refl;
      same_reps = refl;
      joins =
          kind-Joins m crc d d' h false (encode_pair dis len ps) (omega arith)
            (pair-Joins m2 crc d d' a ps dis len low high c);
    }
