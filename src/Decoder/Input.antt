-- ===== src/Decoder/Input.antt =====
-- The input side of `class Range_decoder` (decoder.h): the buffer that `read_block` fills from the
-- file, and the member position.
pub mod Unread
use lzip_os.Base.{
  ℕ, zero, suc, ◌+◌, ◌-◌, min, ltb, leb, ◌==◌, if◌then◌else◌, Bool, true, false, not, ◌&&◌,
}
use lzip_os.Base.{List, [], ◌∷◌, ◌++◌, length, take, drop, get_or, replicate, u64, sub64}
use lzip_os.Base.{Result, ok, err, M, ◌>>=◌, ◌>>◌, pure, get, put}
use lzip_os.Io.{InFile, readblock}

abbrev pub buffer_size : ℕ
buffer_size = 16384

-- The bytes of `buffer` from `stream_pos` on are stale.
pub record Input : Type 0 where
  pub partial_member_pos : ℕ
  pub buffer : List ℕ
  pub pos : ℕ
  pub stream_pos : ℕ
  pub infd : InFile
  pub at_stream_end : Bool

-- The members that the constructor sets. `new uint8_t[]` leaves the buffer as it comes; here zeros.
unfoldable pub initial : InFile → Input
initial f = record {
  partial_member_pos = 0;
  buffer = replicate buffer_size 0;
  pos = 0;
  stream_pos = 0;
  infd = f;
  at_stream_end = false;
}

-- The part of `read_block` under `if( !at_stream_end )`.
unfoldable pub refill : Input → Result (Bool × Input)
refill i =
    let r = readblock buffer_size i.infd in
    let n = length r.bytes in
    if not (n == buffer_size) && r.error
    then err "Read error"
    else ok (
      ltb 0 n,
      record {
        partial_member_pos = u64 (i.partial_member_pos + i.pos);
        buffer = r.bytes ++ drop n i.buffer;
        pos = 0;
        stream_pos = n;
        infd = r.file;
        at_stream_end = ltb n buffer_size;
      },
    )

-- bool Range_decoder::read_block(). The display of the progress is left out.
unfoldable pub read_block : M Input Bool
unfolding refill
read_block i = if i.at_stream_end then ok (ltb i.pos i.stream_pos, i) else refill i

-- `pos >= stream_pos && !read_block()`
unfoldable pub finished : M Input Bool
unfolding read_block
finished i =
    if leb i.stream_pos i.pos then (read_block >>= λ more. pure (not more)) i else ok (false, i)

unfoldable pub member_position : Input → ℕ
member_position i = u64 (i.partial_member_pos + i.pos)

unfoldable pub reset_member_position : Input → Input
reset_member_position i = record i { partial_member_pos = sub64 0 i.pos }

-- What `get_byte` does with the answer of `finished`: 0xFF avoids an error if the member is
-- truncated at the marker.
unfoldable pub next_byte : Bool → M Input ℕ
next_byte true i = ok (0xFF, i)
next_byte false i = ok (get_or i.buffer i.pos 0, record i { pos = i.pos + 1 })

unfoldable pub get_byte : M Input ℕ
unfolding finished next_byte
get_byte = finished >>= next_byte

-- The bytes that `read_data` copies in one round, with `left` still wanted.
unfoldable pub copy_out : ℕ → M Input (List ℕ)
copy_out left i =
    let rd = min left (i.stream_pos - i.pos) in
    ok (take rd (drop i.pos i.buffer), record i { pos = i.pos + rd })

-- A round of the loop of `read_data`; `again` is the rest of the loop.
unfoldable pub read_round : (ℕ → M Input (List ℕ)) → ℕ → M Input (List ℕ)
unfolding finished copy_out
read_round again left = do
  stop ← finished
  if stop
      then pure []
      else do got ← copy_out left; more ← again (left - length got); pure (got ++ more)

-- Each round brings a byte at least, so as many rounds as bytes are wanted are enough. The result
-- holds the bytes stored in `outbuf`; its length is the number returned.
unfoldable pub read_data_loop : ℕ → ℕ → M Input (List ℕ)
unfolding read_round
read_data_loop zero left i = ok ([], i)
read_data_loop (suc rounds) left i =
    if left == 0 then ok ([], i) else read_round (read_data_loop rounds) left i

unfoldable pub read_data : ℕ → M Input (List ℕ)
unfolding read_data_loop
read_data size = read_data_loop size size
