-- ===== src/Tests/Packets.antt =====
-- Concrete packets, written and read back.
use lzip_os.Base.{ℕ, refl, arith, true, false, List, [], ◌∷◌, ◌++◌, replicate}
use lzip_os.Decoder.Lz.{LzDecoder, put_byte, copy_block, peek}
use lzip_os.Decoder.Lz.Member.{fresh_member, is_bad_distance}
use lzip_os.Coder.Codes.File.{coded}
use lzip_os.Coder.Objects.Packet.{distances_of}
use lzip_os.Coder.Objects.Script.{
  Step, literal, matched, repeated, shortrep, AllTaken, code_packets,
}
use lzip_os.Coder.Objects.Reps.{rep_moved}
use lzip_os.Coder.Objects.Fresh.{fresh_member-AreMember}
use lzip_os.Coder.Objects.ReadBack.{PacketsReadBack, base_run, decode_times-code_packets}
use lzip_os.Tests.Coders.{fresh_input, out_file, fresh_decoder}

-- A window of eight bytes that holds these, with so many of them in use.
abbrev window : List ℕ → ℕ → LzDecoder
window buffer pos = record {
  partial_data_pos = 0;
  rdec = fresh_decoder [];
  dictionary_size = 8;
  buffer = buffer;
  pos = pos;
  stream_pos = 0;
  crc_ = 0xFFFF_FFFF;
  connected = true;
  outfd = out_file;
  pos_wrapped = false;
}

abbrev at_start : LzDecoder
at_start = window (replicate 8 0) 0

-- A byte, a match of two bytes, a short repeated match and a repeated match of two bytes.
abbrev four_steps : List Step
four_steps =
    record { packet = literal 65; window = window (65 ∷ replicate 7 0) 1 }
    ∷ record { packet = matched 0 2; window = window (65 ∷ 65 ∷ 65 ∷ replicate 5 0) 3 }
    ∷ record { packet = shortrep; window = window (65 ∷ 65 ∷ 65 ∷ 65 ∷ replicate 4 0) 4 }
    ∷ record {
      packet = repeated 0 2;
      window = window (65 ∷ 65 ∷ 65 ∷ 65 ∷ 65 ∷ 65 ∷ replicate 2 0) 6;
    }
    ∷ []

four_steps-AllTaken : AllTaken (distances_of fresh_member) at_start four_steps
unfolding fresh_member put_byte copy_block peek is_bad_distance rep_moved
four_steps-AllTaken = (
  (omega arith, refl),
  (
    (omega arith, omega arith, omega arith, refl, refl),
    (refl, ((omega arith, omega arith, refl), tt)),
  ),
)

abbrev four_coded : List ℕ
four_coded = coded 4096 out_file (
    base_run (code_packets fresh_member.state (distances_of fresh_member) at_start four_steps)
      fresh_member 0xFFFF_FFFF)

decode_times-code_packets_example :
    PacketsReadBack 4096 out_file fresh_member 0xFFFF_FFFF at_start four_steps
      (fresh_decoder (four_coded ++ 7 ∷ []))
decode_times-code_packets_example =
    decode_times-code_packets 4096 out_file (7 ∷ []) (fresh_decoder (four_coded ++ 7 ∷ []))
      fresh_member 0xFFFF_FFFF at_start four_steps tt (omega arith, tt)
      (fresh_input (four_coded ++ 7 ∷ [])).0 fresh_member-AreMember four_steps-AllTaken
      (omega arith) (fresh_input (four_coded ++ 7 ∷ [])).1
