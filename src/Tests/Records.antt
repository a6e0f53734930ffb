-- ===== src/Tests/Records.antt =====
-- Concrete headers, trailers, states, buffers and files.
use lzip_os.Base.{ℕ, ◌+◌, ◌^◌, ◌≤◌, ◌<◌, min, ◌≡◌, ◌↔◌, refl, arith, true, false}
use lzip_os.Base.{List, [], ◌∷◌, ◌++◌, length, set, some}
use lzip_os.Io.{InFile, ReadAnswer, OutFile, WriteAnswer, readblock, writeblock}
use lzip_os.Io.Blocks.{
  HasRead, readblock-HasRead, HasWritten, writeblock-HasWritten, NoWriteFailure, writeblock_whole,
}
use lzip_os.Lzip.Crc.{update_buf}
use lzip_os.Lzip.Crc.Reference.{registers, update_buf_lem}
use lzip_os.Lzip.Header.{
  LzipHeader, real_bits, check_prefix, check_magic, check_version, check_corrupt, set_magic,
  byte_at, header_size,
}
use lzip_os.Lzip.Header.{set_dictionary_size, dictionary_size, isvalid_ds, decode_size}
use lzip_os.Lzip.Header.Bits.{HasDigits, real_bits_lem}
use lzip_os.Lzip.Header.Magic.{Agrees, check_prefix_lem, set_magic_lem, check_corrupt_lem}
use lzip_os.Lzip.Header.DictionarySize.{dictionary_size_lem}
use lzip_os.Lzip.State.{State, states, is_char, set_char, is_char_set_char}
use lzip_os.Lzip.State.History.{
  Packet, literal, match, shortrep, run, number, ends_in_literal, run-number, run_bounds,
  is_char_set_char_lem,
}
use lzip_os.Lzip.Trailer.{
  LzipTrailer, trailer_size, data_crc, set_data_crc, data_size, set_data_size, member_size,
  set_member_size, check_consistency,
}
use lzip_os.Lzip.Trailer.Fields.{fields_round_trip}
use lzip_os.Lzip.Trailer.Consistency.{IsConsistent, check_consistency_lem}

abbrev packets : List Packet
packets = literal ∷ match ∷ shortrep ∷ literal ∷ []

run-number_example : (run packets).st ≡ number packets
run-number_example = run-number packets

run_bounds_example : ((run packets).st < states) × (is_char (run packets) ≡ ends_in_literal packets)
run_bounds_example = run_bounds packets

abbrev after_rep : State
after_rep = record { st = 8 }

is_char_set_char_example :
    is_char_set_char after_rep ≡ record { result = is_char after_rep; after = set_char after_rep }
is_char_set_char_example = is_char_set_char_lem after_rep (omega arith)

update_buf_example :
    (update_buf 0xFFFF_FFFF (0x6C ∷ 0x7A ∷ 0x69 ∷ [])
      ≡ registers 0xFFFF_FFFF (0x6C ∷ 0x7A ∷ 0x69 ∷ []))
    × (update_buf (update_buf 0xFFFF_FFFF (0x6C ∷ 0x7A ∷ [])) (0x69 ∷ [])
        ≡ registers 0xFFFF_FFFF (0x6C ∷ 0x7A ∷ 0x69 ∷ []))
update_buf_example =
    update_buf_lem 0xFFFF_FFFF (0x6C ∷ 0x7A ∷ []) (0x69 ∷ [])
      (omega arith, (omega arith, (omega arith, tt)))

real_bits_example : HasDigits 4097 (real_bits 4097) × (real_bits 4097 ≤ 32)
real_bits_example = real_bits_lem 4097 (omega arith)

abbrev good_header : LzipHeader
good_header = 0x4C ∷ 0x5A ∷ 0x49 ∷ 0x50 ∷ 1 ∷ 0x0C ∷ []

check_prefix_example :
    ((check_prefix good_header 3 ≡ true) ↔ ((0 < 3) × Agrees 0 (min 3 4) good_header))
    × (check_prefix good_header (4 + 2) ≡ check_magic good_header)
check_prefix_example = check_prefix_lem good_header 3 2

set_magic_example :
    (check_magic (set_magic (9 ∷ 8 ∷ 7 ∷ 6 ∷ 5 ∷ 4 ∷ [])) ≡ true)
    × (check_version (set_magic (9 ∷ 8 ∷ 7 ∷ 6 ∷ 5 ∷ 4 ∷ [])) ≡ true)
    × (byte_at (set_magic (9 ∷ 8 ∷ 7 ∷ 6 ∷ 5 ∷ 4 ∷ [])) 5 ≡ byte_at (9 ∷ 8 ∷ 7 ∷ 6 ∷ 5 ∷ 4 ∷ []) 5)
    × (length (set_magic (9 ∷ 8 ∷ 7 ∷ 6 ∷ 5 ∷ 4 ∷ [])) ≡ header_size)
set_magic_example = set_magic_lem (9 ∷ 8 ∷ 7 ∷ 6 ∷ 5 ∷ 4 ∷ []) refl

good_magic : check_magic good_header ≡ true
unfolding check_magic
good_magic = refl

check_corrupt_example :
    (check_magic (set good_header 2 0x48) ≡ false)
    × (check_corrupt (set good_header 2 0x48) ≡ true)
    × (check_corrupt good_header ≡ false)
check_corrupt_example =
    check_corrupt_lem good_header 2 0x48 refl good_magic (omega arith) (omega arith)

room : 5000 ≤ decode_size 0x0D
unfolding decode_size
room = omega arith

dictionary_size_example :
    (h' : LzipHeader) × (set_dictionary_size 5000 good_header ≡ some h')
    × (5000 ≤ dictionary_size h')
    × (isvalid_ds (dictionary_size h') ≡ true)
    × (dictionary_size h' ≤ decode_size 0x0D)
dictionary_size_example =
    dictionary_size_lem 5000 good_header 0x0D (omega arith) (omega arith) refl room

abbrev blank_trailer : LzipTrailer
blank_trailer = 0 ∷ 0 ∷ 0 ∷ 0 ∷ 0 ∷ 0 ∷ 0 ∷ 0 ∷ 0 ∷ 0 ∷ 0 ∷ 0 ∷ 0 ∷ 0 ∷ 0 ∷ 0 ∷ 0 ∷ 0 ∷ 0 ∷ 0 ∷ []

abbrev stored : LzipTrailer
stored = set_member_size 44 (set_data_size 7 (set_data_crc 0xDEAD_BEEF blank_trailer))

fields_round_trip_example :
    (data_crc stored ≡ 0xDEAD_BEEF)
    × (data_size stored ≡ 7)
    × (member_size stored ≡ 44)
    × (length stored ≡ trailer_size)
fields_round_trip_example =
    fields_round_trip blank_trailer 0xDEAD_BEEF 7 44 refl (omega arith) (omega arith) (omega arith)

stored_size : member_size stored ≤ 2 ^ 51
stored_size = omega (arith, fields_round_trip_example)

check_consistency_example :
    (check_consistency stored ≡ true)
    ↔ IsConsistent (data_crc stored) (data_size stored) (member_size stored)
check_consistency_example = check_consistency_lem stored stored_size

abbrev some_file : InFile
some_file = record {
  rest = 1 ∷ 2 ∷ 3 ∷ [];
  answers = ReadAnswer.short 0 ∷ ReadAnswer.interrupted ∷ ReadAnswer.failed ∷ [];
}

readblock_example : HasRead 4 (1 ∷ 2 ∷ 3 ∷ []) (readblock 4 some_file)
readblock_example = readblock-HasRead 4 some_file

abbrev full_disk : OutFile
full_disk = record { written = 9 ∷ []; answers = WriteAnswer.wrote 2 ∷ WriteAnswer.failed ∷ [] }

writeblock_example : HasWritten (1 ∷ 2 ∷ 3 ∷ []) (9 ∷ []) (writeblock (1 ∷ 2 ∷ 3 ∷ []) full_disk)
writeblock_example = writeblock-HasWritten (1 ∷ 2 ∷ 3 ∷ []) full_disk

abbrev slow_disk : OutFile
slow_disk = record {
  written = 9 ∷ [];
  answers = WriteAnswer.wrote 2 ∷ WriteAnswer.interrupted ∷ [];
}

writeblock_whole_example :
    ((writeblock (1 ∷ 2 ∷ 3 ∷ []) slow_disk).count ≡ length {A = ℕ} (1 ∷ 2 ∷ 3 ∷ []))
    × ((writeblock (1 ∷ 2 ∷ 3 ∷ []) slow_disk).file.written ≡ (9 ∷ []) ++ (1 ∷ 2 ∷ 3 ∷ []))
    × NoWriteFailure (writeblock (1 ∷ 2 ∷ 3 ∷ []) slow_disk).file.answers
writeblock_whole_example = writeblock_whole (1 ∷ 2 ∷ 3 ∷ []) slow_disk tt
