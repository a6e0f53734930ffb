-- ===== src/Coder/Objects/Packet.antt =====
-- What a packet leaves on the two sides.
use lzip_os.Base.{ℕ, ◌≡◌, M, ◌>>=◌, pure, Bool, not, if◌then◌else◌, List}
use lzip_os.Lzip.Model.{BitModel}
use lzip_os.Lzip.State.{State}
use lzip_os.Encoder.Packets.{LzEncoderBase}
use lzip_os.Decoder.Range.{decode_bit_at}
use lzip_os.Decoder.Lz.{LzDecoder, on_rdec}
use lzip_os.Decoder.Lz.Member.{Member, Outcome, goes_on, decode_literal, decode_rep, decode_match}
use lzip_os.Coder.Objects.{Joins}
use lzip_os.Coder.Objects.Bits.{AreMember}

-- The four last distances.
pub record Distances : Type 0 where
  pub rep0 : ℕ
  pub rep1 : ℕ
  pub rep2 : ℕ
  pub rep3 : ℕ

abbrev pub distances_of : Member → Distances
distances_of m = record { rep0 = m.rep0; rep1 = m.rep1; rep2 = m.rep2; rep3 = m.rep3 }

-- `p` codes what `n` decodes; both leave the same models, which are from 31 to 2017, and the decoder has
-- that state, those distances and that window.
pub record PacketJoined (p : M LzEncoderBase (Unit {0})) (m : Member) (crc : ℕ)
    (n : M LzDecoder Outcome) (d : LzDecoder) (state : State) (reps : Distances) (d' : LzDecoder)
    : Type 0 where
  pub after : Member
  pub are_models : AreMember after
  pub same_state : after.state ≡ state
  pub same_reps : distances_of after ≡ reps
  pub joins : Joins 64 p m crc tt after n d (goes_on after) d'

-- What decode_packet does after its first bit.
abbrev pub packet_body : Member → ℕ → Bool × List (List BitModel) → M LzDecoder Outcome
packet_body m pos_state (b, rows) =
    let m1 = record m { bm_match = rows } in
    if not b then (do m2 ← decode_literal m1; pure (goes_on m2)) else (do
      (r, bm) ← on_rdec (decode_bit_at m1.bm_rep m1.state.st)
      let m2 = record m1 { bm_rep = bm }
      if r then decode_rep pos_state m2 else decode_match pos_state m2)
