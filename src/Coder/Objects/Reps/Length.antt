-- ===== src/Coder/Objects/Reps/Length.antt =====
-- The length of a repeated match: encode_rep_len and decode_rep_match.
use lzip_os.Base.{ℕ, ◌≤◌, ◌≡◌, refl}
use lzip_os.Base.{M, ok, ◌>>=◌, >>=-ok, pure}
use lzip_os.Lzip.Model.{LenModel, min_match_len, max_match_len}
use lzip_os.Lzip.State.{set_rep}
use lzip_os.Encoder.Symbols.{encode_len}
use lzip_os.Encoder.Packets.Bits.{encode_rep_len}
use lzip_os.Decoder.Range.{RangeDecoder}
use lzip_os.Decoder.Symbols.{decode_len}
use lzip_os.Decoder.Lz.{LzDecoder, on_rdec, copy_block}
use lzip_os.Decoder.Lz.Member.{Member, Outcome, goes_on, decode_rep_match}
use lzip_os.Coder.Codes.Length.{LenCoded, encode_len-LenCoded}
use lzip_os.Coder.Objects.{Joins, with_rdec, decoder_then, models-Joins, stored-Joins}
use lzip_os.Coder.Objects.Bits.{AreMember}
use lzip_os.Coder.Objects.Reps.{}

-- The length of a repeated match, behind the bits of its distance.
module _ (m : Member) (crc : ℕ) (d d' : LzDecoder) (h : AreMember m) (pos_state len : ℕ)
    (low : min_match_len ≤ len) (high : len ≤ max_match_len)
    (copies : (r : RangeDecoder)
      → copy_block m.rep0 len (with_rdec d r) ≡ ok (tt, with_rdec d' r)) where
  pub len_coded :
      LenCoded
        (encode_len m.rep_len_model len pos_state)
        (decode_len m.rep_len_model pos_state)
        10
        len
  len_coded = encode_len-LenCoded m.rep_len_model len pos_state h.rep_len low high

  abbrev pub after_len : Member
  after_len = record m { rep_len_model = len_coded.models; state = set_rep m.state }

  pub after_len-AreMember : AreMember after_len
  after_len-AreMember = record {
    literal = h.literal;
    match = h.match;
    rep = h.rep;
    rep0 = h.rep0;
    rep1 = h.rep1;
    rep2 = h.rep2;
    len = h.len;
    dis_slot = h.dis_slot;
    dis = h.dis;
    align = h.align;
    match_len = h.match_len;
    rep_len = len_coded.are_models;
  }

  pub rep_len-Joins :
      Joins 10
        (encode_rep_len len pos_state)
        m
        crc
        tt
        after_len
        (decode_rep_match pos_state m)
        d
        (goes_on after_len)
        d'
  unfolding encode_rep_len decode_rep_match
  rep_len-Joins =
      models-Joins {m1 = record m { rep_len_model = len_coded.models }} (λ r. refl)
        (decoder_then (on_rdec (decode_len m.rep_len_model pos_state)) copy_it
          (stored-Joins (λ e. encode_len e.rep_len_model len pos_state)
            (λ e lm. record e { rep_len_model = lm }) (encode_len m.rep_len_model len pos_state) m _
            crc d (λ r. refl) (λ r. refl) len_coded.codes)
          (λ r.
            >>=-ok (copy_block m.rep0 len) (λ _. pure (goes_on after_len)) (with_rdec d r)
              (copies r)))
    where
      copy_it : ℕ × LenModel → M LzDecoder Outcome
      copy_it r = copy_block m.rep0 r.0 >>= λ _.
          pure (goes_on (record m { state = set_rep m.state; rep_len_model = r.1 }))
