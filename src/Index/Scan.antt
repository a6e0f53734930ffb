-- ===== src/Index/Scan.antt =====
-- The scans of lzip_index.cc: `skip_trailing_data` and the constructor. `member_vector` is kept from
-- its back to its front, so that push_back is a cons and the vector that std::reverse makes is the list
-- read in order.
use lzip_os.Base.{
  ℕ, zero, suc, ◌+◌, ◌-◌, ◌/◌, ◌%◌, ◌^◌, ltb, leb, ◌==◌, if◌then◌else◌, Bool, true, false, not,
  ◌&&◌, ◌||◌,
}
use lzip_os.Base.{List, [], ◌∷◌, ◌++◌, length, take, drop, get_or, replicate, u8, u64, sub64, ◌>>>◌}
use lzip_os.Lzip.Model.{min_member_size}
use lzip_os.Lzip.Header.{
  LzipHeader, header_size, check, check_prefix, check_corrupt, dictionary_size,
}
use lzip_os.Lzip.Trailer.{LzipTrailer, trailer_size, data_size, member_size, check_consistency}
use lzip_os.Index.{IndexMember, Message, SeekFile, ClOptions, LzipIndex, block_end, fail}
use lzip_os.Index.{seek_read, check_header, set_errno_error, set_num_error, read_header}
use Prim.Native.String.{String}

abbrev pub block_size : ℕ
block_size = 16384

abbrev pub buffer_size : ℕ
buffer_size = block_size + trailer_size - 1 + header_size

-- The largest dictionary size so far, and the member pushed.
unfoldable pub push_member : ℕ → LzipTrailer → LzipHeader → LzipIndex → LzipIndex
push_member pos trailer header x = record x {
  dictionary_size_ =
      if ltb x.dictionary_size_ (dictionary_size header)
      then dictionary_size header
      else x.dictionary_size_;
  member_vector =
      record {
        dblock = record { pos_ = 0; size_ = data_size trailer };
        mblock = record { pos_ = pos; size_ = member_size trailer };
        dict_size = dictionary_size header;
      }
      ∷ x.member_vector;
}

-- How a search in a block ends: without a member, or with the answer and the position.
pub data Search : Type 0 where
  nothing_here : Search
  ends : Bool → ℕ → Search

-- `while( i > trailer.size && buffer[i-9] == 0 ) --i;`
unfoldable pub skip_zeros : ℕ → List ℕ → ℕ
skip_zeros zero buffer = zero
skip_zeros (suc i) buffer =
    let rest = skip_zeros i buffer in
    if ltb trailer_size (suc i) && (get_or buffer (suc i - 9) 0 == 0) then rest else suc i

-- What follows the trailer of a good member, in `left` bytes of the buffer, decides.
unfoldable pub accept_member :
    ClOptions → ℕ → LzipTrailer → LzipHeader → LzipHeader → ℕ → ℕ → LzipIndex → Search × LzipIndex
unfolding push_member check_header
accept_member opts pos trailer header header2 left old_pos x =
    let full_h2 = leb header_size left in
    let checked = check_header header2 x in
    if check_prefix header2 left
    then (
      ends false old_pos,
      (if not full_h2
          then fail (Message.text "Last member in input file is truncated.") x
          else if checked.0
          then fail (Message.text "Last member in input file is truncated or corrupt.") checked.1
          else record (checked.1) { retval_ = 2 }),
    )
    else if not opts.loose_trailing && (full_h2 && check_corrupt header2)
    then (ends false old_pos, fail (Message.text "Corrupt header in multimember file.") x)
    else if not opts.ignore_trailing
    then (ends false old_pos, fail (Message.text "Trailing data not allowed.") x)
    else (ends true pos, push_member pos trailer header x)

-- The search of a block from index `i` down; `rounds` is `i` at the start, and each round lowers `i`.
unfoldable pub search_block :
    ℕ → ClOptions → ℕ → ℕ → ℕ → ℕ → List ℕ → ℕ → LzipIndex → Search × LzipIndex
unfolding skip_zeros accept_member
search_block zero opts max_msb ipos bsize i buffer pos x = (nothing_here, x)
search_block (suc rounds) opts max_msb ipos bsize i buffer pos x =
    let trailer = take trailer_size (drop (i - trailer_size) buffer) in
    let size = member_size trailer in
    let r = read_header (ipos + i - size) x in
    if ltb i trailer_size
    then (nothing_here, x)
    else if ltb max_msb (get_or buffer (i - 1) 0)
    then search_block rounds opts max_msb ipos bsize (i - 1) buffer pos x
    else if size == 0
    then search_block rounds opts max_msb ipos bsize (skip_zeros i buffer - 1) buffer pos x
    else if ltb (ipos + i) size || not (check_consistency trailer)
    then search_block rounds opts max_msb ipos bsize (i - 1) buffer pos x
    else if not r.0.0
    then (ends false pos, r.1)
    else if not (check r.0.1)
    then search_block rounds opts max_msb ipos bsize (i - 1) buffer pos r.1
    else accept_member opts (ipos + i - size) trailer r.0.1 (drop i buffer) (bsize - i) pos r.1

-- The blocks from `ipos` down; each round that goes on lowers `ipos` by a block, so `ipos / block_size
-- + 1` rounds are enough.
unfoldable pub search_blocks :
    ℕ → ClOptions → ℕ → ℕ → ℕ → ℕ → List ℕ → ℕ → LzipIndex → (Bool × ℕ) × LzipIndex
unfolding search_block
search_blocks zero opts ipos bsize search_size rd_size buffer pos x = ((false, pos), x)
search_blocks (suc rounds) opts ipos bsize search_size rd_size buffer pos x =
    let r = seek_read rd_size ipos x in
    let read = r.0 ++ drop (length r.0) buffer in
    let max_msb = u8 (u64 (ipos + search_size) >>> 56) in
    let s = search_block search_size opts max_msb ipos bsize search_size read pos r.1 in
    let moved = take block_size read ++ take (buffer_size - block_size) read in
    let below =
      search_blocks rounds opts (sub64 ipos block_size) buffer_size (buffer_size - header_size)
        block_size moved pos s.1 in
    if not (length r.0 == rd_size)
    then ((false, pos), set_errno_error "Error seeking member trailer: " r.1)
    else elim s.0 [
      | ends good pos' ↦ ((good, pos'), s.1)
      | nothing_here ↦
          if ipos == 0
          then ((false, pos), set_num_error "Bad trailer at pos " (sub64 pos trailer_size) s.1)
          else below
    ]

-- The answer, the position, and the index; the memory of the buffer is taken as zeros.
unfoldable pub skip_trailing_data : ClOptions → ℕ → LzipIndex → (Bool × ℕ) × LzipIndex
unfolding search_blocks
skip_trailing_data opts pos x =
    let part = pos % block_size in
    let bsize = if leb part (buffer_size - block_size) then part + block_size else part in
    if ltb pos min_member_size
    then ((false, pos), x)
    else search_blocks (pos / block_size + 1) opts (sub64 pos bsize) bsize bsize bsize
        (replicate buffer_size 0) pos x

-- How the loop of the constructor ends: by its test or a break, at a position, or by a return.
pub data ScanEnd : Type 0 where
  stops : ℕ → ScanEnd
  leaves : ScanEnd

abbrev pub is_empty : List IndexMember → Bool
is_empty [] = true
is_empty (m ∷ ms) = false

-- A bad trailer or header: at the end of the file it may be trailing data, and the loop goes on below
-- it; `again` is the rest of the loop.
unfoldable pub bad_member :
    (ℕ → LzipIndex → ScanEnd × LzipIndex)
    → ClOptions
    → ℕ
    → String
    → ℕ
    → LzipIndex
    → ScanEnd × LzipIndex
unfolding skip_trailing_data
bad_member again opts pos message num x =
    let s = skip_trailing_data opts pos x in
    if is_empty x.member_vector
    then (if s.0.0 then again s.0.1 s.1 else (leaves, s.1))
    else (stops pos, set_num_error message num x)

-- The loop of the constructor. Each round that goes on lowers `pos`, by the 36 bytes of a member at
-- least, so `pos` rounds are enough.
unfoldable pub scan_loop : ℕ → ClOptions → ℕ → LzipIndex → ScanEnd × LzipIndex
unfolding bad_member push_member
scan_loop zero opts pos x = (stops pos, x)
scan_loop (suc rounds) opts pos x =
    let r = seek_read trailer_size (pos - trailer_size) x in
    let size = member_size r.0 in
    let h = read_header (pos - size) r.1 in
    if ltb pos min_member_size
    then (stops pos, x)
    else if not (length r.0 == trailer_size)
    then (stops pos, set_errno_error "Error reading member trailer: " r.1)
    else if ltb pos size || not (check_consistency r.0)
    then bad_member (scan_loop rounds opts) opts pos "Bad trailer at pos " (pos - trailer_size) r.1
    else if not h.0.0
    then (stops pos, h.1)
    else if not (check h.0.1)
    then bad_member (scan_loop rounds opts) opts pos "Bad header at pos " (pos - size) h.1
    else scan_loop rounds opts (pos - size) (push_member (pos - size) r.0 h.0.1 h.1)

-- The last loop of the constructor: each data block begins where the one before ends; `none` is the
-- error of a size of 2 ^ 63 or more.
unfoldable pub chain_blocks : ℕ → List IndexMember → Bool × List IndexMember
unfolding block_end
chain_blocks start [] = (true, [])
chain_blocks start (m ∷ ms) =
    let here = record m { dblock = record { pos_ = start; size_ = m.dblock.size_ } } in
    let rest = chain_blocks (block_end here.dblock) ms in
    if leb (2 ^ 63) (block_end here.dblock) then (false, []) else (rest.0, here ∷ rest.1)

-- The end of the constructor.
unfoldable pub finish_index : ℕ → LzipIndex → LzipIndex
unfolding chain_blocks
finish_index pos x =
    let c = chain_blocks 0 x.member_vector in
    if not (pos == 0) || (is_empty x.member_vector || not (x.retval_ == 0))
    then (if x.retval_ == 0
        then record x {
          member_vector = [];
          error_ = Message.text "Can't create file index.";
          retval_ = 2;
        }
        else record x { member_vector = [] })
    else if c.0
    then record x { member_vector = c.1 }
    else record x {
      member_vector = [];
      error_ = Message.text "Data in input file is too long (2^63 bytes or more).";
      retval_ = 2;
    }

abbrev pub empty_index : ℕ → SeekFile → LzipIndex
empty_index insize f = record {
  member_vector = [];
  error_ = Message.no_message;
  insize = insize;
  retval_ = 0;
  dictionary_size_ = 0;
  infd = f;
}

-- The scan from the end of the file, when its size is one that fits.
unfoldable pub scan_file : ClOptions → LzipIndex → LzipIndex
unfolding scan_loop finish_index
scan_file opts x =
    let s = scan_loop x.insize opts x.insize x in
    if ltb x.insize min_member_size
    then fail (Message.text "Input file is truncated.") x
    else if leb (2 ^ 63) x.insize
    then fail (Message.text "Input file is too long (2^63 bytes or more).") x
    else elim s.0 [ stops pos ↦ finish_index pos s.1 | leaves ↦ s.1 ]

-- Lzip_index( infd, cl_opts ). `insize` of a file that is not seekable is taken as 0, as `file_size`
-- answers for it.
unfoldable pub lzip_index : ClOptions → SeekFile → LzipIndex
unfolding scan_file
lzip_index opts f =
    let x = empty_index (length f.bytes) f in
    let h = read_header 0 x in
    let c = check_header h.0.1 h.1 in
    if not f.seekable
    then set_errno_error "Input file is not seekable: " (empty_index 0 f)
    else if ltb x.insize header_size
    then scan_file opts x
    else if not h.0.0
    then h.1
    else if not c.0
    then c.1
    else scan_file opts c.1
