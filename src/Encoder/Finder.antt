-- ===== src/Encoder/Finder.antt =====
-- `class Matchfinder_base` of encoder_base.h and encoder_base.cc: the window on the input and the
-- positions of the match finder.
pub mod Matches
pub mod Bytes
pub mod Ready
use lzip_os.Base.{
  ℕ, zero, suc, ◌+◌, ◌-◌, ◌*◌, ◌/◌, min, max, ltb, leb, ◌==◌, if◌then◌else◌, Bool, false, not, ◌&&◌,
}
use lzip_os.Base.{List, [], ◌∷◌, ◌++◌, length, take, drop, get_or, replicate, u64, ◌<<<◌}
use lzip_os.Base.{Result, ok, err, M, ◌>>=◌, pure}
use lzip_os.Io.{InFile, readblock}
use lzip_os.Lzip.Model.{min_dictionary_size, max_match_len}
use lzip_os.Lzip.Header.{real_bits}

-- `positions` is the array at `prev_positions`; `pos_array` is what follows its first
-- `num_prev_positions` entries. The bytes of `buffer` from `stream_pos` on are stale.
pub record Finder : Type 0 where
  pub partial_data_pos : ℕ
  pub buffer : List ℕ
  pub positions : List ℕ
  pub before_size : ℕ
  pub buffer_size : ℕ
  pub dictionary_size : ℕ
  pub pos : ℕ
  pub cyclic_pos : ℕ
  pub stream_pos : ℕ
  pub pos_limit : ℕ
  pub key4_mask : ℕ
  pub num_prev_positions23 : ℕ
  pub num_prev_positions : ℕ
  pub pos_array_size : ℕ
  pub infd : InFile
  pub at_stream_end : Bool

unfoldable pub peek : ℕ → Finder → ℕ
peek distance f = get_or f.buffer (f.pos - distance) 0

unfoldable pub available_bytes : Finder → ℕ
available_bytes f = f.stream_pos - f.pos

unfoldable pub data_position : Finder → ℕ
data_position f = u64 (f.partial_data_pos + f.pos)

unfoldable pub data_finished : Finder → Bool
data_finished f = f.at_stream_end && leb f.stream_pos f.pos

-- The loop of true_match_len, on the bytes from `here` on and on those `distance` before it.
unfoldable pub match_loop : ℕ → List ℕ → ℕ → ℕ → ℕ → ℕ
match_loop zero buffer from here i = i
match_loop (suc left) buffer from here i =
    let rest = match_loop left buffer from here (i + 1) in
    if get_or buffer (from + i) 0 == get_or buffer (here + i) 0 then rest else i

unfoldable pub true_match_len : ℕ → ℕ → Finder → ℕ
unfolding match_loop available_bytes
true_match_len index distance f =
    let len_limit = min (available_bytes f) max_match_len in
    match_loop (len_limit - index) f.buffer (f.pos - distance) f.pos index

-- The part of `read_block` under `if( !at_stream_end && stream_pos < buffer_size )`.
unfoldable pub fill_buffer : Finder → Result (Finder)
fill_buffer f =
    let size = f.buffer_size - f.stream_pos in
    let r = readblock size f.infd in
    let rd = length r.bytes in
    let stream_pos = f.stream_pos + rd in
    if not (rd == size) && r.error
    then err "Read error"
    else ok (record f {
      buffer = take f.stream_pos f.buffer ++ (r.bytes ++ drop stream_pos f.buffer);
      stream_pos = stream_pos;
      infd = r.file;
      at_stream_end = ltb rd size;
      pos_limit = if ltb rd size then f.buffer_size else f.pos_limit;
    })

unfoldable pub read_block : M Finder Bool
unfolding fill_buffer
read_block f =
    if not f.at_stream_end && ltb f.stream_pos f.buffer_size
    then elim (fill_buffer f) [ ok f' ↦ ok (ltb f'.pos f'.stream_pos, f') | err e ↦ err e ]
    else ok (ltb f.pos f.stream_pos, f)

-- The loops that take `offset` from each position, at most down to zero.
unfoldable pub shift_positions : ℕ → ℕ → List ℕ → List ℕ
shift_positions zero offset positions = positions
shift_positions (suc n) offset [] = []
shift_positions (suc n) offset (p ∷ positions) =
    (p - min p offset) ∷ shift_positions n offset positions

-- What normalize_pos does before it reads; the offset is not negative where it is called.
unfoldable pub slide : Finder → Finder
unfolding shift_positions
slide f =
    let offset = f.pos - f.before_size - f.dictionary_size in
    let size = f.stream_pos - offset in
    record f {
      buffer = take size (drop offset f.buffer) ++ drop size f.buffer;
      partial_data_pos = u64 (f.partial_data_pos + offset);
      pos = f.pos - offset;
      stream_pos = f.stream_pos - offset;
      positions = shift_positions (f.num_prev_positions + f.pos_array_size) offset f.positions;
    }

-- internal_error ends the process; here it is an error.
unfoldable pub normalize_pos : M Finder (Unit {0})
unfolding slide read_block
normalize_pos f =
    if ltb f.stream_pos f.pos
    then err "pos > stream_pos in normalize_pos."
    else if f.at_stream_end
    then ok (tt, f)
    else (read_block >>= λ more. pure tt) (slide f)

unfoldable pub move_pos : M Finder (Unit {0})
unfolding normalize_pos
move_pos f =
    let cyclic_pos = if ltb f.dictionary_size (f.cyclic_pos + 1) then 0 else f.cyclic_pos + 1 in
    let moved = record f { pos = f.pos + 1; cyclic_pos = cyclic_pos } in
    if leb f.pos_limit (f.pos + 1) then normalize_pos moved else ok (tt, moved)

-- The number of keys of four bytes for a dictionary size.
abbrev pub keys4 : ℕ → ℕ
keys4 dictionary_size =
    let size = 1 <<< max 16 (real_bits (dictionary_size - 1) - 2) in
    if ltb (1 <<< 26) dictionary_size then size / 2 else size

-- The dictionary size for a short file.
abbrev pub shrunk : Finder → ℕ → ℕ
shrunk f dict_size =
    if f.at_stream_end && ltb f.stream_pos dict_size
    then max min_dictionary_size f.stream_pos
    else dict_size

-- The parameters of the constructor.
pub record Sizes : Type 0 where
  pub before_size : ℕ
  pub dict_size : ℕ
  pub after_size : ℕ
  pub dict_factor : ℕ
  pub num_prev_positions23 : ℕ
  pub pos_array_factor : ℕ

-- The members before the first read; the memory that malloc brings is taken as zeros.
unfoldable pub blank : Sizes → InFile → Finder
blank s ifd =
    let buffer_size = max 65536 s.dict_size in
    record {
      partial_data_pos = 0;
      buffer = replicate buffer_size 0;
      positions = [];
      before_size = s.before_size;
      buffer_size = buffer_size;
      dictionary_size = s.dict_size;
      pos = 0;
      cyclic_pos = 0;
      stream_pos = 0;
      pos_limit = buffer_size;
      key4_mask = 0;
      num_prev_positions23 = s.num_prev_positions23;
      num_prev_positions = 0;
      pos_array_size = 0;
      infd = ifd;
      at_stream_end = false;
    }

-- The two calls of `read_block` of the constructor, the second on a larger buffer.
unfoldable pub first_blocks : Sizes → M Finder (Unit {0})
unfolding read_block
first_blocks s = do
  more ← read_block
  f ← (λ f. ok (f, f))
  let buffer_size_limit = s.dict_factor * s.dict_size + s.before_size + s.after_size
  let grown = record f {
    buffer = f.buffer ++ replicate (buffer_size_limit - f.buffer_size) 0;
    buffer_size = buffer_size_limit;
  }
  if more && (not f.at_stream_end && ltb f.buffer_size buffer_size_limit)
      then (λ g. (read_block >>= λ more'. pure tt) grown)
      else pure tt

-- The rest of the constructor; the test of the multiplication and std::bad_alloc are left out.
unfoldable pub with_arrays : Sizes → Finder → Finder
unfolding real_bits
with_arrays s f =
    let dictionary_size = shrunk f s.dict_size in
    let size = keys4 dictionary_size in
    let pos_array_size = s.pos_array_factor * (dictionary_size + 1) in
    record f {
      dictionary_size = dictionary_size;
      pos_limit = if f.at_stream_end then f.buffer_size else f.buffer_size - s.after_size;
      key4_mask = size - 1;
      num_prev_positions = size + s.num_prev_positions23;
      pos_array_size = pos_array_size;
      positions = replicate (size + s.num_prev_positions23 + pos_array_size) 0;
    }

unfoldable pub construct : Sizes → InFile → Result Finder
unfolding blank first_blocks with_arrays
construct s ifd = elim (first_blocks s (blank s ifd)) [
  | ok (u, f) ↦ ok (with_arrays s f)
  | err e ↦ err e
]

-- The memmove and the numbers of `reset`, before it reads.
unfoldable pub rewound : Finder → Finder
rewound f =
    let size = f.stream_pos - f.pos in
    record f {
      buffer =
          if ltb f.pos f.stream_pos
          then take size (drop f.pos f.buffer) ++ drop size f.buffer
          else f.buffer;
      partial_data_pos = 0;
      stream_pos = size;
      pos = 0;
      cyclic_pos = 0;
    }

-- The part of `reset` after the read.
unfoldable pub with_keys : Finder → Finder
unfolding real_bits
with_keys f =
    let dictionary_size = shrunk f f.dictionary_size in
    let size = keys4 dictionary_size in
    let short = f.at_stream_end && ltb f.stream_pos f.dictionary_size in
    let num = if short then size + f.num_prev_positions23 else f.num_prev_positions in
    record f {
      dictionary_size = dictionary_size;
      key4_mask = if short then size - 1 else f.key4_mask;
      num_prev_positions = num;
      positions = replicate (min num (length f.positions)) 0 ++ drop num f.positions;
    }

unfoldable pub reset : M Finder (Unit {0})
unfolding rewound read_block with_keys
reset f = elim (read_block (rewound f)) [ ok (more, f') ↦ ok (tt, with_keys f') | err e ↦ err e ]
