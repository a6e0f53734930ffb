-- ===== src/Coder/Objects/Reps.antt =====
-- Repeated matches: the variables of decode_member that they change.
pub mod Length
pub mod Bits
pub mod Packets
use lzip_os.Base.{
  ℕ, zero, suc, ◌≤◌, ◌<◌, ◌≡◌, refl, sym, ap, ◌∙◌, arith, ltb, ◌==◌, if◌then◌else◌, not, Bool, true,
  false, List, All,
}
use lzip_os.Base.{M, ok, ◌>>=◌, ◌>>◌, >>=-ok, pure, get}
use lzip_os.Lzip.Model.{BitModel, LenModel, min_match_len, max_match_len}
use lzip_os.Lzip.State.{State, set_rep, set_shortrep}
use lzip_os.Encoder.Symbols.{encode_len}
use lzip_os.Encoder.Packets.{LzEncoderBase}
use lzip_os.Encoder.Packets.Bits.{rep0_bit, rep1_bit, rep2_bit, len_bit, encode_rep_len}
use lzip_os.Encoder.Fast.Member.{code_rep, code_rep_match, code_shortrep}
use lzip_os.Encoder.Range.{RangeEncoder}
use lzip_os.Decoder.Range.{RangeDecoder, decode_bit_at}
use lzip_os.Decoder.Symbols.{decode_len}
use lzip_os.Decoder.Lz.{LzDecoder, on_rdec, put_byte, peek, copy_block}
use lzip_os.Decoder.Lz.Member.{
  Member, Outcome, goes_on, decode_packet, decode_rep, decode_older_rep, decode_rep_match,
  bit_in_row,
}
use lzip_os.Coder.Stream.{AreModels}
use lzip_os.Coder.Codes.{>>=_assoc}
use lzip_os.Coder.Codes.Length.{LenCoded, encode_len-LenCoded}
use lzip_os.Coder.Objects.{
  Joins, base_of, with_rdec, then-Joins, encoder_then, decoder_then, models-Joins, same-Joins,
  stored-Joins,
}
use lzip_os.Coder.Objects.Bits.{
  AreMember, len_bit-Joins, rep0_bit-Joins, rep1_bit-Joins, rep2_bit-Joins, rows_after,
  rows_after-AreModels, after_bit, after_bit-AreModels,
}
use lzip_os.Coder.Objects.Packet.{PacketJoined, Distances, distances_of}
use lzip_os.Coder.Objects.Kind.{pos_state_of, with_kind, with_kind-AreMember, kind-Joins}

-- The variables that repeated matches change.
abbrev pub with_reps :
    Member
    → Distances
    → List BitModel
    → List BitModel
    → List BitModel
    → List (List BitModel)
    → Member
with_reps m reps bm0 bm1 bm2 rows = record m {
  bm_rep0 = bm0;
  bm_rep1 = bm1;
  bm_rep2 = bm2;
  bm_len = rows;
  rep0 = reps.rep0;
  rep1 = reps.rep1;
  rep2 = reps.rep2;
  rep3 = reps.rep3;
}

pub with_reps-AreMember :
    (m : Member) (reps : Distances) (bm0 bm1 bm2 : List BitModel) (rows : List (List BitModel))
    → AreMember m
    → AreModels bm0
    → AreModels bm1
    → AreModels bm2
    → All AreModels rows
    → AreMember (with_reps m reps bm0 bm1 bm2 rows)
with_reps-AreMember m reps bm0 bm1 bm2 rows h h0 h1 h2 hr = record {
  literal = h.literal;
  match = h.match;
  rep = h.rep;
  rep0 = h0;
  rep1 = h1;
  rep2 = h2;
  len = hr;
  dis_slot = h.dis_slot;
  dis = h.dis;
  align = h.align;
  match_len = h.match_len;
  rep_len = h.rep_len;
}

pub with_state : (m : Member) (state : State) → AreMember m → AreMember (record m { state = state })
with_state m state h = record {
  literal = h.literal;
  match = h.match;
  rep = h.rep;
  rep0 = h.rep0;
  rep1 = h.rep1;
  rep2 = h.rep2;
  len = h.len;
  dis_slot = h.dis_slot;
  dis = h.dis;
  align = h.align;
  match_len = h.match_len;
  rep_len = h.rep_len;
}

-- The member after the bits that tell which distance is repeated.
unfoldable pub chosen : Member → ℕ → ℕ → Member
chosen m pos_state zero = record m {
  bm_rep0 = after_bit m.bm_rep0 m.state.st false;
  bm_len = rows_after m.bm_len m.state.st pos_state true;
}
chosen m pos_state (suc zero) = record m {
  bm_rep0 = after_bit m.bm_rep0 m.state.st true;
  bm_rep1 = after_bit m.bm_rep1 m.state.st false;
  rep0 = m.rep1;
  rep1 = m.rep0;
}
chosen m pos_state (suc (suc zero)) = record m {
  bm_rep0 = after_bit m.bm_rep0 m.state.st true;
  bm_rep1 = after_bit m.bm_rep1 m.state.st true;
  bm_rep2 = after_bit m.bm_rep2 m.state.st false;
  rep0 = m.rep2;
  rep1 = m.rep0;
  rep2 = m.rep1;
}
chosen m pos_state (suc (suc (suc n))) = record m {
  bm_rep0 = after_bit m.bm_rep0 m.state.st true;
  bm_rep1 = after_bit m.bm_rep1 m.state.st true;
  bm_rep2 = after_bit m.bm_rep2 m.state.st true;
  rep0 = m.rep3;
  rep1 = m.rep0;
  rep2 = m.rep1;
  rep3 = m.rep2;
}

pub chosen-AreMember :
    (m : Member) (pos_state rep : ℕ) → AreMember m → AreMember (chosen m pos_state rep)
unfolding chosen
chosen-AreMember m pos_state zero h =
    with_reps-AreMember m (distances_of m) _ m.bm_rep1 m.bm_rep2 _ h
      (after_bit-AreModels m.bm_rep0 m.state.st false h.rep0) h.rep1 h.rep2
      (rows_after-AreModels m.bm_len m.state.st pos_state true h.len)
chosen-AreMember m pos_state (suc zero) h =
    with_reps-AreMember m (distances_of (chosen m pos_state 1)) _ _ m.bm_rep2 m.bm_len h
      (after_bit-AreModels m.bm_rep0 m.state.st true h.rep0)
      (after_bit-AreModels m.bm_rep1 m.state.st false h.rep1) h.rep2 h.len
chosen-AreMember m pos_state (suc (suc zero)) h =
    with_reps-AreMember m (distances_of (chosen m pos_state 2)) _ _ _ m.bm_len h
      (after_bit-AreModels m.bm_rep0 m.state.st true h.rep0)
      (after_bit-AreModels m.bm_rep1 m.state.st true h.rep1)
      (after_bit-AreModels m.bm_rep2 m.state.st false h.rep2) h.len
chosen-AreMember m pos_state (suc (suc (suc n))) h =
    with_reps-AreMember m (distances_of (chosen m pos_state 3)) _ _ _ m.bm_len h
      (after_bit-AreModels m.bm_rep0 m.state.st true h.rep0)
      (after_bit-AreModels m.bm_rep1 m.state.st true h.rep1)
      (after_bit-AreModels m.bm_rep2 m.state.st true h.rep2) h.len

-- The last distances after the one at index `rep` is repeated.
unfoldable pub rep_moved : ℕ → Distances → Distances
rep_moved zero reps = reps
rep_moved (suc zero) reps = record reps { rep0 = reps.rep1; rep1 = reps.rep0 }
rep_moved (suc (suc zero)) reps = record reps {
  rep0 = reps.rep2;
  rep1 = reps.rep0;
  rep2 = reps.rep1;
}
rep_moved (suc (suc (suc n))) reps = record {
  rep0 = reps.rep3;
  rep1 = reps.rep0;
  rep2 = reps.rep1;
  rep3 = reps.rep2;
}

pub chosen-reps :
    (m : Member) (pos_state rep : ℕ)
    → distances_of (chosen m pos_state rep) ≡ rep_moved rep (distances_of m)
unfolding chosen rep_moved
chosen-reps m pos_state zero = refl
chosen-reps m pos_state (suc zero) = refl
chosen-reps m pos_state (suc (suc zero)) = refl
chosen-reps m pos_state (suc (suc (suc n))) = refl

pub chosen-state : (m : Member) (pos_state rep : ℕ) → (chosen m pos_state rep).state ≡ m.state
unfolding chosen
chosen-state m pos_state zero = refl
chosen-state m pos_state (suc zero) = refl
chosen-state m pos_state (suc (suc zero)) = refl
chosen-state m pos_state (suc (suc (suc n))) = refl
