-- ===== src/Decoder/Lz.antt =====
-- `class LZ_decoder` of decoder.h and decoder.cc: its output buffer. The messages on stderr are left
-- out; the file is `connected` when `outfd` is not negative.
pub mod Member
use lzip_os.Base.{
  ℕ, zero, suc, ◌+◌, ◌-◌, ◌*◌, ◌/◌, ◌%◌, ◌^◌, ltb, leb, ◌==◌, if◌then◌else◌, Bool, true, false, not,
  ◌&&◌,
}
use lzip_os.Base.{
  List, [], ◌∷◌, ◌++◌, length, take, drop, get_or, set, replicate, bit_xor, u8, u32, u64, sub32,
}
use lzip_os.Base.{Result, ok, err, M, ◌>>=◌, ◌>>◌, pure, get, put}
use lzip_os.Io.{OutFile, writeblock}
use lzip_os.Lzip.Crc.{update_buf}
use lzip_os.Lzip.Trailer.{LzipTrailer, trailer_size, data_crc, data_size, member_size}
use lzip_os.Decoder.Range
use lzip_os.Decoder.Range.{RangeDecoder}

pub record LzDecoder : Type 0 where
  pub partial_data_pos : ℕ
  pub rdec : RangeDecoder
  pub dictionary_size : ℕ
  pub buffer : List ℕ
  pub pos : ℕ
  pub stream_pos : ℕ
  pub crc_ : ℕ
  pub connected : Bool
  pub outfd : OutFile
  pub pos_wrapped : Bool

-- The constructor; the memory that `new` brings is taken as zeros.
unfoldable pub initial : RangeDecoder → ℕ → Bool → OutFile → LzDecoder
initial rde dict_size connected ofd = record {
  partial_data_pos = 0;
  rdec = rde;
  dictionary_size = dict_size;
  buffer = set (replicate dict_size 0) (dict_size - 1) 0;
  pos = 0;
  stream_pos = 0;
  crc_ = 0xFFFF_FFFF;
  connected = connected;
  outfd = ofd;
  pos_wrapped = false;
}

unfoldable pub crc : LzDecoder → ℕ
crc d = bit_xor d.crc_ 0xFFFF_FFFF

unfoldable pub data_position : LzDecoder → ℕ
data_position d = u64 (d.partial_data_pos + d.pos)

-- The end of `flush_data`, when the bytes are written.
abbrev pub flushed : OutFile → LzDecoder → LzDecoder
flushed f d =
    let size = d.pos - d.stream_pos in
    let crc = update_buf d.crc_ (take size (drop d.stream_pos d.buffer)) in
    if leb d.dictionary_size d.pos
    then record d {
      crc_ = crc;
      outfd = f;
      partial_data_pos = u64 (d.partial_data_pos + d.pos);
      pos = 0;
      pos_wrapped = true;
      stream_pos = 0;
    }
    else record d { crc_ = crc; outfd = f; stream_pos = d.pos }

unfoldable pub flush_data : M LzDecoder (Unit {0})
flush_data d =
    let size = d.pos - d.stream_pos in
    let r = writeblock (take size (drop d.stream_pos d.buffer)) d.outfd in
    if ltb d.stream_pos d.pos
    then (if d.connected
        then (if r.count == size then ok (tt, flushed r.file d) else err "Write error")
        else ok (tt, flushed d.outfd d))
    else ok (tt, d)

unfoldable pub peek_prev : LzDecoder → ℕ
peek_prev d = get_or d.buffer ((if ltb 0 d.pos then d.pos else d.dictionary_size) - 1) 0

-- The place of the byte `distance + 1` back, on an unsigned.
unfoldable pub peek_index : ℕ → LzDecoder → ℕ
peek_index distance d =
    sub32 (sub32 (u32 ((if ltb distance d.pos then 0 else d.dictionary_size) + d.pos)) distance) 1

unfoldable pub peek : ℕ → LzDecoder → ℕ
unfolding peek_index
peek distance d = get_or d.buffer (peek_index distance d) 0

unfoldable pub put_byte : ℕ → M LzDecoder (Unit {0})
unfolding flush_data
put_byte b d =
    let stored = record d { buffer = set d.buffer d.pos (u8 b); pos = u32 (d.pos + 1) } in
    if leb d.dictionary_size stored.pos then flush_data stored else ok (tt, stored)

-- `for( ; len > 0; --len ) buffer[lpos++] = buffer[i++];`
unfoldable pub copy_forward : ℕ → ℕ → ℕ → List ℕ → List ℕ
copy_forward zero lpos i buffer = buffer
copy_forward (suc len) lpos i buffer =
    copy_forward len (lpos + 1) (i + 1) (set buffer lpos (get_or buffer i 0))

-- The bytes of a list stored from `lpos` on.
unfoldable pub store_bytes : ℕ → List ℕ → List ℕ → List ℕ
store_bytes lpos [] buffer = buffer
store_bytes lpos (b ∷ bytes) buffer = store_bytes (lpos + 1) bytes (set buffer lpos b)

-- memcpy inside the buffer.
unfoldable pub copy_bytes : ℕ → ℕ → ℕ → List ℕ → List ℕ
unfolding store_bytes
copy_bytes len lpos i buffer = store_bytes lpos (take len (drop i buffer)) buffer

-- The last loop of `copy_block`, byte by byte with wraps.
unfoldable pub copy_wrapped : ℕ → ℕ → M LzDecoder (Unit {0})
unfolding flush_data
copy_wrapped zero i = pure tt
copy_wrapped (suc len) i = do
  d ← get
  let stored = record d { buffer = set d.buffer d.pos (get_or d.buffer i 0); pos = u32 (d.pos + 1) }
  put stored
  if leb d.dictionary_size stored.pos then flush_data else pure tt
  copy_wrapped len (if leb d.dictionary_size (i + 1) then 0 else i + 1)

unfoldable pub copy_block : ℕ → ℕ → M LzDecoder (Unit {0})
unfolding copy_forward copy_bytes copy_wrapped
copy_block distance len d =
    let back = ltb distance d.pos in
    let below = sub32 (sub32 d.pos distance) 1 in
    let i = if back then below else u32 (below + d.dictionary_size) in
    let fast = ltb len (sub32 d.dictionary_size (if back then d.pos else i)) in
    let fast2 = fast && leb len (if back then sub32 d.pos i else sub32 i d.pos) in
    if fast
    then ok (
      tt,
      record d {
        pos = u32 (d.pos + len);
        buffer =
            if fast2 then copy_bytes len d.pos i d.buffer else copy_forward len d.pos i d.buffer;
      },
    )
    else copy_wrapped len i d

-- A call on the range decoder.
abbrev pub on_rdec : {A : Type 0} → M RangeDecoder A → M LzDecoder A
on_rdec m d = elim (m d.rdec) [ ok (a, r) ↦ ok (a, record d { rdec = r }) | err e ↦ err e ]

-- What `check_trailer` compares: false if the trailer is truncated or any number of it is wrong.
unfoldable pub trailer_matches : List ℕ → LzDecoder → Bool
unfolding crc data_position
trailer_matches bytes d =
    let trailer = bytes ++ replicate (trailer_size - length bytes) 0 in
    not (ltb (length bytes) trailer_size)
    && (data_crc trailer == crc d)
    && (data_size trailer == data_position d)
    && (member_size trailer == Range.member_position d.rdec)

unfoldable pub check_trailer : M LzDecoder Bool
unfolding trailer_matches
check_trailer = do
  bytes ← on_rdec (Range.read_data trailer_size)
  d ← get
  pure (trailer_matches bytes d)
