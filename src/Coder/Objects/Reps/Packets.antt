-- ===== src/Coder/Objects/Reps/Packets.antt =====
-- Repeated matches: code_rep_match and code_shortrep of Encoder/Fast/Member, and decode_rep.
use lzip_os.Base.{
  ℕ, zero, suc, ◌≤◌, ◌≡◌, refl, sym, ap, ◌∙◌, arith, ◌==◌, if◌then◌else◌, not, Bool, true, false,
  List,
}
use lzip_os.Base.{M, ok, ◌>>=◌, ◌>>◌, >>=-ok, pure, get}
use lzip_os.Lzip.Model.{BitModel, min_match_len, max_match_len}
use lzip_os.Lzip.State.{set_rep, set_shortrep}
use lzip_os.Encoder.Packets.Bits.{rep0_bit, len_bit, encode_rep_len}
use lzip_os.Encoder.Fast.Member.{code_rep, code_rep_match, code_shortrep}
use lzip_os.Decoder.Range.{RangeDecoder, decode_bit_at}
use lzip_os.Decoder.Lz.{LzDecoder, on_rdec, put_byte, peek, copy_block}
use lzip_os.Decoder.Lz.Member.{
  Member, Outcome, goes_on, decode_packet, decode_rep, decode_older_rep, decode_rep_match,
  bit_in_row,
}
use lzip_os.Coder.Codes.{>>=_assoc}
use lzip_os.Coder.Objects.{
  Joins, base_of, with_rdec, then-Joins, decoder_then, models-Joins, same-Joins,
}
use lzip_os.Coder.Objects.Bits.{
  AreMember, len_bit-Joins, rep0_bit-Joins, rows_after, rows_after-AreModels, after_bit,
  after_bit-AreModels,
}
use lzip_os.Coder.Objects.Packet.{PacketJoined, Distances, distances_of}
use lzip_os.Coder.Objects.Kind.{pos_state_of, with_kind, with_kind-AreMember, kind-Joins}
use lzip_os.Coder.Objects.Reps.{
  with_reps-AreMember, with_state, chosen, chosen-AreMember, rep_moved, chosen-reps, chosen-state,
}
use lzip_os.Coder.Objects.Reps.Length.{after_len, after_len-AreMember, rep_len-Joins}
use lzip_os.Coder.Objects.Reps.Bits.{older_bits, at_older, older-Joins}

eq_suc : (n : ℕ) → (suc n == 0) ≡ false
eq_suc n = ground arith

-- What decode_rep does after its first bit, and after the bit of the length.
abbrev at_len : ℕ → Member → Bool × List (List BitModel) → M LzDecoder Outcome
at_len pos_state m0 r =
    let m1 = record m0 { bm_len = r.1 } in
    if not r.0
    then (do
      d ← get
      put_byte (peek m0.rep0 d)
      pure (goes_on (record m1 { state = set_shortrep m0.state })))
    else decode_rep_match pos_state m1

abbrev at_rep0 : ℕ → Member → Bool × List BitModel → M LzDecoder Outcome
at_rep0 pos_state m r =
    let m0 = record m { bm_rep0 = r.1 } in
    if not r.0
    then bit_in_row m.bm_len m.state.st pos_state >>= at_len pos_state m0
    else (do m1 ← decode_older_rep m0; decode_rep_match pos_state m1)

-- The bits of a distance and then the length, and decode_rep.
rep-Joins :
    (m : Member) (crc : ℕ) (d d' : LzDecoder) (h : AreMember m) (pos_state rep len : ℕ)
    (low : min_match_len ≤ len) (high : len ≤ max_match_len)
    (copies : (r : RangeDecoder)
      → copy_block (chosen m pos_state rep).rep0 len (with_rdec d r) ≡ ok (tt, with_rdec d' r))
    → let after =
        after_len
          (chosen m pos_state rep)
          crc
          d
          d'
          (chosen-AreMember m pos_state rep h)
          pos_state
          len
          low
          high
          copies in
      Joins 60
        (code_rep m.state.st pos_state rep >>= λ _. encode_rep_len len pos_state)
        m
        crc
        tt
        after
        (decode_rep pos_state m)
        d
        (goes_on after)
        d'
unfolding code_rep decode_rep chosen
rep-Joins m crc d d' h pos_state zero len low high copies =
    let bits = after_bit m.bm_rep0 m.state.st false in
    let m1 : Member = record m { bm_rep0 = bits } in
    let h1 =
      with_reps-AreMember m (distances_of m) bits m.bm_rep1 m.bm_rep2 m.bm_len h
        (after_bit-AreModels m.bm_rep0 m.state.st false h.rep0) h.rep1 h.rep2 h.len in
    let length = λ (x : Unit {0}). encode_rep_len len pos_state in
    same-Joins (rep0_bit m.state.st false >>= λ _. (len_bit m.state.st pos_state true >>= length))
      (code_rep m.state.st pos_state 0 >>= length)
      (on_rdec (decode_bit_at m.bm_rep0 m.state.st) >>= at_rep0 pos_state m)
      (decode_rep pos_state m) (omega arith)
      (λ r. sym (
        >>=_assoc (rep0_bit m.state.st false) (λ _. len_bit m.state.st pos_state true) length
          (base_of m crc r)))
      (λ r. refl)
      (then-Joins {more = 11} (rep0_bit m.state.st false)
        (λ _. (len_bit m.state.st pos_state true >>= length))
        (on_rdec (decode_bit_at m.bm_rep0 m.state.st)) (at_rep0 pos_state m)
        (rep0_bit-Joins m crc d h m.state.st false)
        (then-Joins {more = 10} (len_bit m.state.st pos_state true) length
          (bit_in_row m.bm_len m.state.st pos_state) (at_len pos_state m1)
          (len_bit-Joins m1 crc d h1 m.state.st pos_state true)
          (rep_len-Joins (chosen m pos_state 0) crc d d' (chosen-AreMember m pos_state 0 h)
            pos_state len low high copies)))
rep-Joins m crc d d' h pos_state (suc n) len low high copies =
    let length = λ (x : Unit {0}). encode_rep_len len pos_state in
    same-Joins (rep0_bit m.state.st true >>= λ _. (older_bits m.state.st (suc n) >>= length))
      (code_rep m.state.st pos_state (suc n) >>= length)
      (on_rdec (decode_bit_at m.bm_rep0 m.state.st) >>= at_rep0 pos_state m)
      (decode_rep pos_state m) (omega arith)
      (λ r.
        ap
          (λ (b : Bool).
            ((rep0_bit m.state.st (not b) >>= λ _.
            if b then len_bit m.state.st pos_state true else older_bits m.state.st (suc n))
                >>= length)
              (base_of m crc r))
          (eq_suc n)
        ∙ sym (
            >>=_assoc (rep0_bit m.state.st true) (λ _. older_bits m.state.st (suc n)) length
              (base_of m crc r)))
      (λ r. refl)
      (then-Joins {more = 12} (rep0_bit m.state.st true)
        (λ _. (older_bits m.state.st (suc n) >>= length))
        (on_rdec (decode_bit_at m.bm_rep0 m.state.st)) (at_rep0 pos_state m)
        (rep0_bit-Joins m crc d h m.state.st true)
        (then-Joins {more = 10} (older_bits m.state.st (suc n)) length
          (decode_older_rep (at_older m)) (decode_rep_match pos_state)
          (older-Joins m crc d h pos_state n)
          (rep_len-Joins (chosen m pos_state (suc n)) crc d d'
            (chosen-AreMember m pos_state (suc n) h) pos_state len low high copies)))

-- The packet of a repeated match with a length from 2 to 273: decode_packet reads the index of the
-- distance and the length, and copies so many bytes from the distance at that index.
pub rep-PacketJoined :
    (m : Member) (crc : ℕ) (d d' : LzDecoder) (rep len : ℕ)
    → AreMember m
    → min_match_len ≤ len
    → len ≤ max_match_len
    → ((r : RangeDecoder)
        → copy_block (rep_moved rep (distances_of m)).rep0 len (with_rdec d r)
          ≡ ok (tt, with_rdec d' r))
    → PacketJoined
        (code_rep_match m.state.st (pos_state_of d) rep len)
        m
        crc
        (decode_packet m)
        d
        (set_rep m.state)
        (rep_moved rep (distances_of m))
        d'
unfolding code_rep_match set_rep
rep-PacketJoined m crc d d' rep len h low high copies =
    let ps = pos_state_of d in
    let m2 = with_kind m ps true in
    let a = with_kind-AreMember m ps true h in
    let b = chosen-AreMember m2 ps rep a in
    let c = λ (r : RangeDecoder).
      ap (λ (x : Distances). copy_block x.rep0 len (with_rdec d r)) (chosen-reps m2 ps rep)
      ∙ copies r in
    record {
      after = after_len (chosen m2 ps rep) crc d d' b ps len low high c;
      are_models = after_len-AreMember (chosen m2 ps rep) crc d d' b ps len low high c;
      same_state = ap set_rep (chosen-state m2 ps rep);
      same_reps = chosen-reps m2 ps rep;
      joins =
          kind-Joins m crc d d' h true (code_rep m.state.st ps rep >>= λ _. encode_rep_len len ps)
            (omega arith) (rep-Joins m2 crc d d' a ps rep len low high c);
    }

-- The packet of one byte that is the one at the last distance.
pub shortrep-PacketJoined :
    (m : Member) (crc : ℕ) (d d' : LzDecoder)
    → AreMember m
    → ((r : RangeDecoder) → put_byte (peek m.rep0 d) (with_rdec d r) ≡ ok (tt, with_rdec d' r))
    → PacketJoined
        (code_shortrep m.state.st (pos_state_of d))
        m
        crc
        (decode_packet m)
        d
        (set_shortrep m.state)
        (distances_of m)
        d'
unfolding code_shortrep decode_rep peek
shortrep-PacketJoined m crc d d' h puts =
    let ps = pos_state_of d in
    let m2 = with_kind m ps true in
    let a = with_kind-AreMember m ps true h in
    let bits = after_bit m.bm_rep0 m.state.st false in
    let m3 : Member = record m2 { bm_rep0 = bits } in
    let b =
      with_reps-AreMember m2 (distances_of m) bits m.bm_rep1 m.bm_rep2 m.bm_len a
        (after_bit-AreModels m.bm_rep0 m.state.st false h.rep0) h.rep1 h.rep2 h.len in
    let rows = rows_after m.bm_len m.state.st ps false in
    let m4 : Member = record m3 { bm_len = rows } in
    let after : Member = record m4 { state = set_shortrep m.state } in
    record {
      after = after;
      are_models = with_state m4 (set_shortrep m.state) (
          with_reps-AreMember m3 (distances_of m) bits m.bm_rep1 m.bm_rep2 rows b b.rep0 h.rep1
            h.rep2 (rows_after-AreModels m.bm_len m.state.st ps false h.len));
      same_state = refl;
      same_reps = refl;
      joins =
          kind-Joins m crc d d' h true
            (rep0_bit m.state.st false >>= λ _. len_bit m.state.st ps false) (omega arith)
            (models-Joins {m1 = m4} (λ r. refl)
              (then-Joins {more = 1} (rep0_bit m.state.st false) (λ _. len_bit m.state.st ps false)
                (on_rdec (decode_bit_at m.bm_rep0 m.state.st)) (at_rep0 ps m2)
                (rep0_bit-Joins m2 crc d a m.state.st false)
                (decoder_then (bit_in_row m.bm_len m.state.st ps) (at_len ps m3)
                  (len_bit-Joins m3 crc d b m.state.st ps false)
                  (λ r.
                    >>=-ok (put_byte (peek m.rep0 d)) (λ _. pure (goes_on after)) (with_rdec d r)
                      (puts r)))));
    }
