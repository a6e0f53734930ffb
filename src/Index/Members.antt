-- ===== src/Index/Members.antt =====
-- The members that the scans of lzip_index.cc push.
pub mod Scanned
pub mod Built
use lzip_os.Base.{
  ℕ, zero, suc, ◌+◌, ◌-◌, ◌*◌, ◌%◌, ◌/◌, ◌^◌, ◌≤◌, ◌<◌, ◌≡◌, refl, sym, ap, ◌∙◌, subst, arith, Bool,
  true, false, ltb, leb, ◌==◌, ◌&&◌, ◌||◌, not, if◌then◌else◌, List, [], ◌∷◌, ◌++◌, length, take,
  drop, get_or, sub64, u8, u64, ◌>>>◌, ◌≢◌, replicate,
}
use Prim.Native.String.{String}
use lzip_os.Lzip.Header.{LzipHeader, check, header_size, check_prefix, check_corrupt}
use lzip_os.Lzip.Trailer.{
  LzipTrailer, trailer_size, data_crc, data_size, member_size, check_consistency, consistent,
}
use lzip_os.Index.{
  Block, Message, SeekFile, IndexMember, LzipIndex, ClOptions, seek_read, read_header, check_header,
  set_errno_error, set_num_error, fail,
}
use lzip_os.Index.Blocks.{IsChain, HasSizes, chain_blocks-IsChain}
use lzip_os.Index.Scan.{
  Search, ScanEnd, is_empty, empty_index, chain_blocks, finish_index, scan_file, lzip_index,
  push_member, accept_member, skip_zeros, search_block, search_blocks, skip_trailing_data,
  bad_member, scan_loop, buffer_size, block_size,
}

-- The files of the theorems: up to a pebibyte. Longer members could have data of 2 ^ 63 bytes or more.
abbrev pub max_file : ℕ
max_file = 2 ^ 50

-- The member blocks of `ms` are laid end to end from `pos` and none ends beyond `limit`; each has the 36
-- bytes of a member at least, and data of less than 2 ^ 63 bytes.
abbrev pub AreLaid : ℕ → ℕ → List IndexMember → Type 0
AreLaid limit pos [] = Unit
AreLaid limit pos (m ∷ ms) =
    (m.mblock.pos_ ≡ pos)
    × (36 ≤ m.mblock.size_)
    × (pos + m.mblock.size_ ≤ limit)
    × (m.dblock.size_ < 2 ^ 63)
    × AreLaid limit (pos + m.mblock.size_) ms

pub if-either :
    {A : Type 0} (P : A → Type 0) (b : Bool) {x y : A}
    → (b ≡ true → P x)
    → (b ≡ false → P y)
    → P (if b then x else y)
if-either P true f g = f refl
if-either P false f g = g refl

good_sizes : (c d m : ℕ) → m ≤ max_file → consistent c d m ≡ true → (36 ≤ m) × (d < 2 ^ 63)
unfolding consistent
good_sizes c d m h e = ground arith

pub member_vector-seek_read :
    (size pos : ℕ) (x : LzipIndex) → (seek_read size pos x).1.member_vector ≡ x.member_vector
unfolding seek_read
member_vector-seek_read size pos x = by_seeks x.infd.seeks
  where
    by_seeks :
        (seeks : List Bool)
        → (seek_read size pos
            (record x { infd = record (x.infd) { seeks = seeks } })).1.member_vector
          ≡ x.member_vector
    by_seeks [] = refl
    by_seeks (true ∷ seeks) = refl
    by_seeks (false ∷ seeks) = refl

pub member_vector-read_header :
    (pos : ℕ) (x : LzipIndex) → (read_header pos x).1.member_vector ≡ x.member_vector
unfolding read_header set_errno_error
member_vector-read_header pos x =
    if-either (λ (r : (Bool × LzipHeader) × LzipIndex). r.1.member_vector ≡ x.member_vector)
      (length (seek_read header_size pos x).0 == header_size)
      (λ e. member_vector-seek_read header_size pos x)
      (λ e. member_vector-seek_read header_size pos x)

pub retval_-read_header :
    (pos : ℕ) (x : LzipIndex) → (read_header pos x).0.0 ≡ false → 0 < (read_header pos x).1.retval_
unfolding read_header set_errno_error
retval_-read_header pos x h = ground (arith, h)

pub push_member-AreLaid :
    (limit pos : ℕ) (t : LzipTrailer) (header : LzipHeader) (x : LzipIndex)
    → limit ≤ max_file
    → pos ≤ limit
    → member_size t ≤ pos
    → check_consistency t ≡ true
    → AreLaid limit pos x.member_vector
    → AreLaid limit
        (pos - member_size t)
        (push_member (pos - member_size t) t header x).member_vector
unfolding push_member check_consistency
push_member-AreLaid limit pos t header x low high size good laid =
    let sizes =
      good_sizes (data_crc t) (data_size t) (member_size t) (omega (arith, low, high, size)) good in
    (
      refl,
      sizes.0,
      omega (arith, high, size),
      sizes.1,
      subst (λ p. AreLaid limit p x.member_vector) (omega (arith, size)) laid,
    )

pub skip_zeros_le : (i : ℕ) (buffer : List ℕ) → skip_zeros i buffer ≤ i
unfolding skip_zeros
skip_zeros_le zero buffer = omega arith
skip_zeros_le (suc i) buffer = ground (arith, skip_zeros_le i buffer)
