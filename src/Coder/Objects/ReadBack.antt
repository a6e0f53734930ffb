-- ===== src/Coder/Objects/ReadBack.antt =====
-- What the packets of LZ_encoder_base write, the loop of LZ_decoder::decode_member reads back.
use lzip_os.Base.{ℕ, ◌+◌, ◌*◌, ◌^◌, ◌<◌, ◌≡◌, refl, ap, List, ◌++◌, length, IsByte, All}
use lzip_os.Base.{M, Result, ok, err}
use lzip_os.Io.{OutFile}
use lzip_os.Io.Blocks.{NoWriteFailure}
use lzip_os.Encoder.Range.{RangeEncoder}
use lzip_os.Encoder.Packets.{LzEncoderBase}
use lzip_os.Decoder.Input.Unread.{IsValid, remaining}
use lzip_os.Decoder.Range.{RangeDecoder}
use lzip_os.Decoder.Lz.{LzDecoder}
use lzip_os.Decoder.Lz.Member.{Member, goes_on}
use lzip_os.Coder.Codes.{Codes}
use lzip_os.Coder.Codes.File.{ReadBack, coded, loaded, Codes-ReadBack}
use lzip_os.Coder.Objects.{Joins, base_of, with_rdec}
use lzip_os.Coder.Objects.Bits.{AreMember}
use lzip_os.Coder.Objects.Packet.{distances_of}
use lzip_os.Coder.Objects.Script.{
  Step, AllTaken, code_packets, decode_times, last_state, last_reps, last_window, packets-Joined,
}

-- A call on LZ_encoder_base, with the models of `m`, as one on its range encoder.
abbrev pub base_run : {X : Type 0} → M LzEncoderBase X → Member → ℕ → M RangeEncoder X
base_run p m crc r = elim (p (base_of m crc r)) [ ok (x, e) ↦ ok (x, e.renc) | err z ↦ err z ]

-- A call on LZ_decoder as one on its range decoder; it answers `d` too, with its range decoder as it was.
abbrev pub lz_run : {Y : Type 0} → M LzDecoder Y → LzDecoder → M RangeDecoder (Y × LzDecoder)
lz_run n d r = elim (n (with_rdec d r)) [
  | ok (y, d') ↦ ok ((y, with_rdec d' d.rdec), d'.rdec)
  | err z ↦ err z
]

Joins-Codes :
    {X Y : Type 0} {bits : ℕ} (p : M LzEncoderBase X) (m : Member) (crc : ℕ) {x : X} {m' : Member}
    (n : M LzDecoder Y) (d : LzDecoder) {y : Y} {d' : LzDecoder}
    → Joins bits p m crc x m' n d y d'
    → Codes bits (base_run p m crc) x (lz_run n d) (y, with_rdec d' d.rdec)
Joins-Codes {X} {Y} p m crc n d f i good =
    let a = f i good in
    record {
      next = a.next;
      good = a.good;
      few = a.few;
      nested = a.nested;
      encodes = λ pre r h.
          let q = a.encodes pre r h in
          record {
            after = q.after;
            returns =
                ap
                  (λ (z : Result (X × LzEncoderBase)). elim z as (λ _. Result (X × RangeEncoder)) [
                    | ok (x, e) ↦ ok (x, e.renc)
                    | err z ↦ err z
                  ])
                  q.returns;
            emits = q.emits;
          };
      decodes = λ B bytes r t w.
          let q = a.decodes B bytes r t w in
          record {
            after = q.after;
            returns =
                ap
                  (λ (z : Result (Y × LzDecoder)).
                    elim z as (λ _. Result ((Y × LzDecoder) × RangeDecoder)) [
                      | ok (y, d') ↦ ok ((y, with_rdec d' d.rdec), d'.rdec)
                      | err z ↦ err z
                    ])
                  q.returns;
            holds = q.holds;
          };
    }

-- The packets were written, and the loop goes on with their state, distances and window.
pub record PacketsReadBack (dictionary_size : ℕ) (f : OutFile) (m : Member) (crc : ℕ)
    (d : LzDecoder) (steps : List Step) (rdec : RangeDecoder) : Type 0 where
  pub after : Member
  pub are_models : AreMember after
  pub same_state : after.state ≡ last_state m.state steps
  pub same_reps : distances_of after ≡ last_reps (distances_of m) steps
  pub read_back :
      ReadBack dictionary_size f
        (base_run (code_packets m.state (distances_of m) d steps) m crc)
        tt
        (goes_on after, with_rdec (last_window d steps) d.rdec)
        (loaded (lz_run (decode_times (length steps) m) d) rdec)

-- For any literals, matches, repeated matches and short repeated ones whose bytes the decoder's window
-- takes one after the other, models from 31 to 2017 and an output file whose writes do not fail: the
-- constructor, the coding of the packets and flush succeed, and decode_packet, once for each packet
-- behind load, on a valid input that goes on with what was written, whatever bytes follow, leaves that
-- window, and the state and the last distances that the packets make.
pub decode_times-code_packets :
    (dictionary_size : ℕ) (f : OutFile) (more : List ℕ) (rdec : RangeDecoder) (m : Member) (crc : ℕ)
    (d : LzDecoder) (steps : List Step)
    → NoWriteFailure f.answers
    → All IsByte more
    → IsValid rdec.input
    → AreMember m
    → AllTaken (distances_of m) d steps
    → 64 * length steps + 10 < 2 ^ 32
    → remaining rdec.input
      ≡ coded dictionary_size f (base_run (code_packets m.state (distances_of m) d steps) m crc)
        ++ more
    → PacketsReadBack dictionary_size f m crc d steps rdec
decode_times-code_packets dictionary_size f more rdec m crc d steps fine bytes v h t few e =
    let a = packets-Joined m crc d m.state (distances_of m) steps h refl refl t in
    let p = code_packets m.state (distances_of m) d steps in
    let n = decode_times (length steps) m in
    record {
      after = a.after;
      are_models = a.are_models;
      same_state = a.same_state;
      same_reps = a.same_reps;
      read_back =
          Codes-ReadBack dictionary_size f (base_run p m crc) (lz_run n d) fine
            (Joins-Codes p m crc n d a.joins) few more rdec bytes v e;
    }
