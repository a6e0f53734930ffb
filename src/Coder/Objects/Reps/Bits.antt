-- ===== src/Coder/Objects/Reps/Bits.antt =====
-- The bits of a distance that is not the last: code_rep of Encoder/Fast/Member and decode_older_rep.
use lzip_os.Base.{
  ℕ, zero, suc, ◌<◌, ◌≡◌, refl, ap, ◌∙◌, arith, ltb, if◌then◌else◌, not, Bool, true, false, List,
}
use lzip_os.Base.{M, ok, ◌>>=◌, ◌>>◌, pure}
use lzip_os.Lzip.Model.{BitModel}
use lzip_os.Encoder.Packets.{LzEncoderBase}
use lzip_os.Encoder.Packets.Bits.{rep1_bit, rep2_bit}
use lzip_os.Encoder.Range.{RangeEncoder}
use lzip_os.Decoder.Range.{RangeDecoder, decode_bit_at}
use lzip_os.Decoder.Lz.{LzDecoder, on_rdec}
use lzip_os.Decoder.Lz.Member.{Member, decode_older_rep}
use lzip_os.Coder.Objects.{
  Joins, base_of, with_rdec, then-Joins, encoder_then, decoder_then, models-Joins, same-Joins,
}
use lzip_os.Coder.Objects.Bits.{
  AreMember, rep1_bit-Joins, rep2_bit-Joins, after_bit, after_bit-AreModels,
}
use lzip_os.Coder.Objects.Packet.{distances_of}
use lzip_os.Coder.Objects.Reps.{with_reps-AreMember, chosen}

-- The bits after the first one of a distance that is not the last, and decode_older_rep.
abbrev pub older_bits : ℕ → ℕ → M LzEncoderBase (Unit {0})
older_bits st rep = do
  rep1_bit st (ltb 1 rep)
  if ltb 1 rep then rep2_bit st (ltb 2 rep) else pure tt

abbrev at_rep1 : Member → Bool × List BitModel → M LzDecoder Member
at_rep1 m r =
    if not r.0 then pure (record m { bm_rep1 = r.1; rep0 = m.rep1; rep1 = m.rep0 }) else (do
      (b2, bm2) ← on_rdec (decode_bit_at m.bm_rep2 m.state.st)
      pure (record m {
        bm_rep1 = r.1;
        bm_rep2 = bm2;
        rep0 = if b2 then m.rep3 else m.rep2;
        rep1 = m.rep0;
        rep2 = m.rep1;
        rep3 = if b2 then m.rep2 else m.rep3;
      }))

abbrev at_rep2 : Member → Bool × List BitModel → M LzDecoder Member
at_rep2 m r = pure (record m {
  bm_rep1 = after_bit m.bm_rep1 m.state.st true;
  bm_rep2 = r.1;
  rep0 = if r.0 then m.rep3 else m.rep2;
  rep1 = m.rep0;
  rep2 = m.rep1;
  rep3 = if r.0 then m.rep2 else m.rep3;
})

-- The member after the first bit of a distance that is not the last.
abbrev pub at_older : Member → Member
at_older m = record m { bm_rep0 = after_bit m.bm_rep0 m.state.st true }

at_older-AreMember : (m : Member) → AreMember m → AreMember (at_older m)
at_older-AreMember m h =
    with_reps-AreMember m (distances_of m) _ m.bm_rep1 m.bm_rep2 m.bm_len h
      (after_bit-AreModels m.bm_rep0 m.state.st true h.rep0) h.rep1 h.rep2 h.len

module _ (m : Member) (crc : ℕ) (d : LzDecoder) (h : AreMember m) where
  last_two :
      (b : Bool) (after : Member)
      → ((r : RangeEncoder)
          → base_of
              (record m {
                bm_rep1 = after_bit m.bm_rep1 m.state.st true;
                bm_rep2 = after_bit m.bm_rep2 m.state.st b;
              })
              crc
              r
            ≡ base_of after crc r)
      → ((r : RangeDecoder)
          → at_rep2 m (b, after_bit m.bm_rep2 m.state.st b) (with_rdec d r)
            ≡ ok (after, with_rdec d r))
      → Joins 2
          (rep1_bit m.state.st true >>= λ _. rep2_bit m.state.st b)
          m
          crc
          tt
          after
          (decode_older_rep m)
          d
          after
          d
  unfolding decode_older_rep
  last_two b after same_models same =
      let m1 : Member = record m { bm_rep1 = after_bit m.bm_rep1 m.state.st true } in
      let h1 =
        with_reps-AreMember m (distances_of m) m.bm_rep0 m1.bm_rep1 m.bm_rep2 m.bm_len h h.rep0
          (after_bit-AreModels m.bm_rep1 m.state.st true h.rep1) h.rep2 h.len in
      models-Joins same_models (
        then-Joins {more = 1} (rep1_bit m.state.st true) (λ _. rep2_bit m.state.st b)
          (on_rdec (decode_bit_at m.bm_rep1 m.state.st)) (at_rep1 m)
          (rep1_bit-Joins m crc d h m.state.st true)
          (decoder_then (on_rdec (decode_bit_at m.bm_rep2 m.state.st)) (at_rep2 m)
            (rep2_bit-Joins m1 crc d h1 m.state.st b) same))

ltb-true : (a b : ℕ) → a < b → ltb a b ≡ true
ltb-true a b h = ground (arith, h)

-- The bits of an older distance.
pub older-Joins :
    (m : Member) (crc : ℕ) (d : LzDecoder)
    → AreMember m
    → (pos_state n : ℕ)
    → Joins 2
        (older_bits m.state.st (suc n))
        (at_older m)
        crc
        tt
        (chosen m pos_state (suc n))
        (decode_older_rep (at_older m))
        d
        (chosen m pos_state (suc n))
        d
unfolding chosen decode_older_rep
older-Joins m crc d h pos_state zero =
    let h1 = at_older-AreMember m h in
    same-Joins (rep1_bit m.state.st false >>= λ _. pure tt) (older_bits m.state.st 1)
      (on_rdec (decode_bit_at m.bm_rep1 m.state.st) >>= at_rep1 (at_older m))
      (decode_older_rep (at_older m)) (omega arith) (λ r. refl) (λ r. refl)
      (models-Joins {m1 = record (at_older m) { bm_rep1 = after_bit m.bm_rep1 m.state.st false }}
        (λ r. refl)
        (decoder_then (on_rdec (decode_bit_at m.bm_rep1 m.state.st)) (at_rep1 (at_older m))
          (encoder_then (rep1_bit m.state.st false) (λ _. pure tt)
            (rep1_bit-Joins (at_older m) crc d h1 m.state.st false) (λ r. refl))
          (λ r. refl)))
older-Joins m crc d h pos_state (suc zero) =
    last_two (at_older m) crc d (at_older-AreMember m h) false (chosen m pos_state 2) (λ r. refl)
      (λ r. refl)
older-Joins m crc d h pos_state (suc (suc n)) =
    same-Joins (rep1_bit m.state.st true >>= λ _. rep2_bit m.state.st true)
      (older_bits m.state.st (suc (suc (suc n)))) (decode_older_rep (at_older m))
      (decode_older_rep (at_older m)) (omega arith)
      (λ r.
        ap
          (λ (b : Bool).
            (rep1_bit m.state.st b >>= λ _.
            if b then rep2_bit m.state.st (ltb 2 (suc (suc (suc n)))) else pure tt)
              (base_of (at_older m) crc r))
          (ltb-true 1 (suc (suc (suc n))) (omega arith))
        ∙ ap
            (λ (b : Bool).
              (rep1_bit m.state.st true >>= λ _. rep2_bit m.state.st b)
                (base_of (at_older m) crc r))
            (ltb-true 2 (suc (suc (suc n))) (omega arith)))
      (λ r. refl)
      (last_two (at_older m) crc d (at_older-AreMember m h) true (chosen m pos_state 3) (λ r. refl)
        (λ r. refl))
