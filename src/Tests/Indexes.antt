-- ===== src/Tests/Indexes.antt =====
-- Concrete members of a file.
use lzip_os.Base.{refl, ◌+◌, ◌^◌, ◌<◌, ◌≡◌, ◌↔◌, arith, true, false, ◌++◌, replicate, List, [], ◌∷◌}
use lzip_os.Index.{IndexMember, SeekFile, ClOptions}
use lzip_os.Index.{read_header}
use lzip_os.Io.{readblock}
use lzip_os.Lzip.Header.{
  check_magic, check_version, isvalid_ds, dictionary_size, decode_size, check,
}
use lzip_os.Lzip.Trailer.{member_size, check_consistency, consistent, data_crc, data_size}
use lzip_os.Index.Scan.{chain_blocks, lzip_index}
use lzip_os.Index.Members.Built.{IsBuilt, lzip_index-IsBuilt}
use lzip_os.Index.Blocks.{IsChain, total_size, chain_blocks-IsChain}

abbrev found : List IndexMember
found =
    record {
      dblock = record { pos_ = 0; size_ = 7 };
      mblock = record { pos_ = 0; size_ = 44 };
      dict_size = 4096;
    }
    ∷ record {
      dblock = record { pos_ = 0; size_ = 5 };
      mblock = record { pos_ = 44; size_ = 40 };
      dict_size = 8192;
    }
    ∷ []

chain_blocks_example :
    (((chain_blocks 0 found).0 ≡ true) ↔ (0 + total_size found < 2 ^ 63))
    × ((chain_blocks 0 found).0 ≡ true → IsChain 0 found (chain_blocks 0 found).1)
chain_blocks_example = chain_blocks-IsChain 0 found (omega arith) (omega arith, (omega arith, tt))

-- The smallest member: a header, ten bytes, and a trailer of no data.
abbrev one_member : SeekFile
one_member = record {
  bytes = 76 ∷ 90 ∷ 73 ∷ 80 ∷ 1 ∷ 12 ∷ (replicate 22 0 ++ 36 ∷ replicate 7 0);
  seekable = true;
  seeks = [];
  answers = [];
}

abbrev usual : ClOptions
usual = record { ignore_trailing = true; loose_trailing = false }

lzip_index_example : IsBuilt 36 (lzip_index usual one_member)
lzip_index_example = lzip_index-IsBuilt usual one_member (omega arith)

one_member_found : (lzip_index usual one_member).retval_ ≡ 0
unfolding lzip_index read_header readblock check_magic check_version isvalid_ds dictionary_size
    decode_size member_size check_consistency consistent data_crc data_size check
one_member_found = refl
