-- ===== src/Coder/Objects/Kind.antt =====
-- The first two bits of a packet that is no literal.
use lzip_os.Base.{ℕ, ◌≤◌, refl, arith, if◌then◌else◌, Bool, true, List, bit_and}
use lzip_os.Base.{M, ◌>>=◌, ◌>>◌}
use lzip_os.Lzip.Model.{BitModel, pos_state_mask}
use lzip_os.Encoder.Packets.{LzEncoderBase}
use lzip_os.Encoder.Packets.Bits.{match_bit, rep_bit}
use lzip_os.Decoder.Range.{decode_bit_at}
use lzip_os.Decoder.Lz.{LzDecoder, on_rdec, data_position}
use lzip_os.Decoder.Lz.Member.{Member, Outcome, decode_rep, decode_match, decode_packet, bit_in_row}
use lzip_os.Coder.Objects.{Joins, then-Joins, same-Joins}
use lzip_os.Coder.Objects.Bits.{
  AreMember, with_match, with_rep, match_bit-Joins, rep_bit-Joins, rows_after, rows_after-AreModels,
  after_bit, after_bit-AreModels,
}
use lzip_os.Coder.Objects.Packet.{packet_body}

abbrev pub pos_state_of : LzDecoder → ℕ
pos_state_of d = bit_and (data_position d) pos_state_mask

-- The models after the two bits.
abbrev pub with_kind : Member → ℕ → Bool → Member
with_kind m pos_state rep = record m {
  bm_match = rows_after m.bm_match m.state.st pos_state true;
  bm_rep = after_bit m.bm_rep m.state.st rep;
}

pub with_kind-AreMember :
    (m : Member) (pos_state : ℕ) (rep : Bool) → AreMember m → AreMember (with_kind m pos_state rep)
with_kind-AreMember m pos_state rep h =
    let rows = rows_after m.bm_match m.state.st pos_state true in
    with_rep (record m { bm_match = rows })
      (with_match m h rows (rows_after-AreModels m.bm_match m.state.st pos_state true h.match))
      (after_bit m.bm_rep m.state.st rep) (after_bit-AreModels m.bm_rep m.state.st rep h.rep)

-- The packet on the two sides.
abbrev coded : Member → ℕ → Bool → M LzEncoderBase (Unit {0}) → M LzEncoderBase (Unit {0})
coded m pos_state rep p = do match_bit m.state.st pos_state true; rep_bit m.state.st rep; p

abbrev rest : Member → ℕ → Bool × List BitModel → M LzDecoder Outcome
rest m pos_state r =
    let m2 = record m {
      bm_match = rows_after m.bm_match m.state.st pos_state true;
      bm_rep = r.1;
    } in
    if r.0 then decode_rep pos_state m2 else decode_match pos_state m2

module _ (m : Member) (crc : ℕ) (d d' : LzDecoder) (h : AreMember m) (rep : Bool)
    (p : M LzEncoderBase (Unit {0})) {bits : ℕ} {after : Member} {y : Outcome} where
  -- After the two bits, what is left of the packet is read by decode_rep or decode_match.
  pub kind-Joins :
      bits ≤ 60
      → Joins bits p
          (with_kind m (pos_state_of d) rep)
          crc
          tt
          after
          (if rep
            then decode_rep (pos_state_of d) (with_kind m (pos_state_of d) rep)
            else decode_match (pos_state_of d) (with_kind m (pos_state_of d) rep))
          d
          y
          d'
      → Joins 64 (coded m (pos_state_of d) rep p) m crc tt after (decode_packet m) d y d'
  unfolding decode_packet data_position
  kind-Joins few f =
      let m1 : Member = record m {
        bm_match = rows_after m.bm_match m.state.st (pos_state_of d) true;
      } in
      let m1-AreMember =
        with_match m h m1.bm_match
          (rows_after-AreModels m.bm_match m.state.st (pos_state_of d) true h.match) in
      same-Joins (coded m (pos_state_of d) rep p) (coded m (pos_state_of d) rep p)
        (bit_in_row m.bm_match m.state.st (pos_state_of d) >>= packet_body m (pos_state_of d))
        (decode_packet m) (omega arith) (λ r. refl) (λ r. refl)
        (then-Joins {more = 63} (match_bit m.state.st (pos_state_of d) true)
          (λ _. rep_bit m.state.st rep >>= λ _. p)
          (bit_in_row m.bm_match m.state.st (pos_state_of d)) (packet_body m (pos_state_of d))
          (match_bit-Joins m crc d h m.state.st (pos_state_of d) true)
          (same-Joins (rep_bit m.state.st rep >>= λ _. p) (rep_bit m.state.st rep >>= λ _. p)
            (on_rdec (decode_bit_at m.bm_rep m.state.st) >>= rest m (pos_state_of d))
            (packet_body m (pos_state_of d) (true, m1.bm_match)) (omega (arith, few)) (λ r. refl)
            (λ r. refl)
            (then-Joins (rep_bit m.state.st rep) (λ _. p)
              (on_rdec (decode_bit_at m.bm_rep m.state.st)) (rest m (pos_state_of d))
              (rep_bit-Joins m1 crc d m1-AreMember m.state.st rep) f)))
