-- ===== src/Encoder/Fast/Member.antt =====
-- FLZ_encoder::encode_member of fast_encoder.cc: one function for each kind of packet that its loop
-- codes, and the loop on fuel.
use lzip_os.Base.{
  ℕ, zero, suc, ◌+◌, ◌-◌, ltb, ◌==◌, if◌then◌else◌, Bool, true, false, not, ◌&&◌, ◌||◌,
}
use lzip_os.Base.{
  List, [], ◌∷◌, ◌++◌, take, drop, get_or, replicate, bit_and, sub64, Option, none, some,
}
use lzip_os.Base.{M, ◌>>=◌, ◌>>◌, pure, get, put}
use lzip_os.Lzip.Model.{fresh_model, min_match_len, pos_state_mask}
use lzip_os.Lzip.Header.{header_size}
use lzip_os.Lzip.Trailer.{trailer_size}
use lzip_os.Lzip.State
use lzip_os.Lzip.State.{State, is_char, is_char_set_char, set_match, set_rep, set_shortrep}
use lzip_os.Encoder.Range
use lzip_os.Encoder.Packets.{LzEncoderBase, encode_literal, encode_matched, encode_pair, full_flush}
use lzip_os.Encoder.Packets.Bits.{
  match_bit, rep_bit, rep0_bit, rep1_bit, rep2_bit, len_bit, encode_rep_len, crc_byte, crc_buf,
  price_literal, price_matched,
}
use lzip_os.Encoder.Prices.{price0, price1}
use lzip_os.Encoder.Finder.{Finder, peek, data_position, data_finished, true_match_len, move_pos}
use lzip_os.Encoder.Fast.{
  FlzEncoder, on_finder, on_base, longest_match_len, update_and_move, reset_key4,
}

abbrev pub max_marker_size : ℕ
max_marker_size = 16

abbrev pub num_rep_distances : ℕ
num_rep_distances = 4

-- The local variables of `encode_member`.
pub record Locals : Type 0 where
  pub rep : ℕ
  pub reps : List ℕ
  pub state : State

abbrev pub fresh_locals : Locals
fresh_locals = record { rep = 0; reps = replicate num_rep_distances 0; state = State.initial }

-- The loop that looks for the longest repeated match, from index `i` on: `rep` and `len` after it.
unfoldable pub best_rep : ℕ → List ℕ → Finder → ℕ → ℕ → ℕ × ℕ
unfolding true_match_len
best_rep i [] g rep len = (rep, len)
best_rep i (distance ∷ reps) g rep len =
    let tlen = true_match_len 0 (distance + 1) g in
    best_rep (i + 1) reps g (if ltb len tlen then i else rep) (if ltb len tlen then tlen else len)

-- `reps` with the distance at index `rep` moved to the front.
unfoldable pub moved_front : ℕ → List ℕ → List ℕ
moved_front rep reps = get_or reps rep 0 ∷ (take rep reps ++ drop (rep + 1) reps)

-- `reps` with a new distance before them.
unfoldable pub pushed : ℕ → List ℕ → List ℕ
pushed distance reps = distance ∷ take (num_rep_distances - 1) reps

-- The bits that tell which distance is repeated.
unfoldable pub code_rep : ℕ → ℕ → ℕ → M LzEncoderBase (Unit {0})
unfolding rep0_bit rep1_bit rep2_bit len_bit
code_rep st pos_state rep = do
  rep0_bit st (not (rep == 0))
  if rep == 0
      then len_bit st pos_state true
      else (do rep1_bit st (ltb 1 rep); if ltb 1 rep then rep2_bit st (ltb 2 rep) else pure tt)

-- A repeated match.
unfoldable pub code_rep_match : ℕ → ℕ → ℕ → ℕ → M LzEncoderBase (Unit {0})
unfolding match_bit rep_bit code_rep encode_rep_len
code_rep_match st pos_state rep len = do
  match_bit st pos_state true
  rep_bit st true
  code_rep st pos_state rep
  encode_rep_len len pos_state

-- A match.
unfoldable pub code_match : ℕ → ℕ → ℕ → ℕ → M LzEncoderBase (Unit {0})
unfolding match_bit rep_bit encode_pair
code_match st pos_state distance len = do
  match_bit st pos_state true
  rep_bit st false
  encode_pair distance len pos_state

-- A byte that is the one at the last distance.
unfoldable pub code_shortrep : ℕ → ℕ → M LzEncoderBase (Unit {0})
unfolding match_bit rep_bit rep0_bit len_bit
code_shortrep st pos_state = do
  match_bit st pos_state true
  rep_bit st true
  rep0_bit st false
  len_bit st pos_state false

-- A literal; `is_char` is what is_char_set_char answers.
unfoldable pub code_literal : ℕ → ℕ → Bool → ℕ → ℕ → ℕ → M LzEncoderBase (Unit {0})
unfolding match_bit encode_literal encode_matched
code_literal st pos_state is_char prev_byte cur_byte match_byte = do
  match_bit st pos_state false
  if is_char
      then encode_literal prev_byte cur_byte
      else encode_matched prev_byte cur_byte match_byte

-- Whether a short repeated match is cheaper than the literal.
unfoldable pub is_shortrep : State → ℕ → ℕ → ℕ → ℕ → LzEncoderBase → Bool
unfolding price0 price1 price_literal price_matched is_char
is_shortrep state pos_state prev_byte cur_byte match_byte e =
    let match_model = get_or (get_or e.bm_match state.st []) pos_state fresh_model in
    let shortrep_price =
      price1 match_model
      + price1 (get_or e.bm_rep state.st fresh_model)
      + price0 (get_or e.bm_rep0 state.st fresh_model)
      + price0 (get_or (get_or e.bm_len state.st []) pos_state fresh_model) in
    let price =
      price0 match_model
      + (if is_char state
          then price_literal prev_byte cur_byte e
          else price_matched prev_byte cur_byte match_byte e) in
    match_byte == cur_byte && ltb shortrep_price price

-- The bytes of a match, for the CRC.
abbrev pub bytes_here : ℕ → Finder → List ℕ
bytes_here len g = take len (drop g.pos g.buffer)

unfoldable pub rep_round : ℕ → ℕ → ℕ → Locals → M FlzEncoder Locals
unfolding code_rep_match crc_buf set_rep moved_front update_and_move move_pos
rep_round pos_state rep len v = do
  f ← get
  on_base (crc_buf (bytes_here len f.finder))
  on_base (code_rep_match v.state.st pos_state rep len)
  on_finder move_pos
  update_and_move (len - 1)
  pure (record {
    rep = rep;
    reps = if rep == 0 then v.reps else moved_front rep v.reps;
    state = set_rep v.state;
  })

unfoldable pub match_round : ℕ → ℕ → ℕ → ℕ → Locals → M FlzEncoder Locals
unfolding code_match crc_buf set_match pushed update_and_move move_pos
match_round pos_state rep distance len v = do
  f ← get
  on_base (crc_buf (bytes_here len f.finder))
  on_base (code_match v.state.st pos_state distance len)
  on_finder move_pos
  update_and_move (len - 1)
  pure (record { rep = rep; reps = pushed distance v.reps; state = set_match v.state })

unfoldable pub byte_round : ℕ → ℕ → Locals → M FlzEncoder Locals
unfolding code_shortrep code_literal crc_byte is_shortrep is_char_set_char set_shortrep peek
    move_pos
byte_round pos_state rep v = do
  f ← get
  let prev_byte = peek 1 f.finder
  let cur_byte = peek 0 f.finder
  let match_byte = peek (get_or v.reps 0 0 + 1) f.finder
  let s = is_char_set_char v.state
  on_finder move_pos
  on_base (crc_byte cur_byte)
  f' ← get
  if is_shortrep v.state pos_state prev_byte cur_byte match_byte f'.base
      then (do
        on_base (code_shortrep v.state.st pos_state)
        pure (record v { rep = rep; state = set_shortrep v.state }))
      else (do
        on_base (code_literal v.state.st pos_state s.result prev_byte cur_byte match_byte)
        pure (record v { rep = rep; state = s.after }))

-- The body of the loop.
unfoldable pub encode_round : Locals → M FlzEncoder Locals
unfolding longest_match_len best_rep rep_round match_round byte_round data_position
encode_round v = do
  (main_len, match_distance) ← longest_match_len
  f ← get
  let pos_state = bit_and (data_position f.finder) pos_state_mask
  let best = best_rep 0 v.reps f.finder v.rep 0
  if ltb min_match_len best.1 && ltb main_len (best.1 + 3)
      then rep_round pos_state best.0 best.1 v
      else if ltb min_match_len main_len
      then match_round pos_state best.0 match_distance main_len v
      else byte_round pos_state best.0 v

-- The first byte.
unfoldable pub first_byte : Locals → M FlzEncoder (Unit {0})
unfolding code_literal crc_byte reset_key4 update_and_move peek
first_byte v = do
  f ← get
  let cur_byte = peek 0 f.finder
  on_base (code_literal v.state.st 0 true 0 cur_byte 0)
  on_base (crc_byte cur_byte)
  f' ← get
  put (reset_key4 f')
  update_and_move 1

-- The loop, for at most `rounds` packets; `none` if it has not ended by then.
unfoldable pub encode_rounds : ℕ → ℕ → Locals → M FlzEncoder (Option Locals)
unfolding encode_round data_finished
encode_rounds zero member_size_limit v = pure none
encode_rounds (suc rounds) member_size_limit v = do
  f ← get
  if not (data_finished f.finder) && ltb (Range.member_position f.base.renc) member_size_limit
      then (do v' ← encode_round v; encode_rounds rounds member_size_limit v')
      else pure (some v)

unfoldable pub encode_member : ℕ → ℕ → M FlzEncoder (Option Bool)
unfolding first_byte encode_rounds full_flush data_position data_finished
encode_member rounds member_size = do
  f ← get
  let member_size_limit = sub64 (sub64 member_size trailer_size) max_marker_size
  if not (data_position f.finder == 0) || not (Range.member_position f.base.renc == header_size)
      then pure (some false)
      else (do
        if data_finished f.finder then pure tt else first_byte fresh_locals
        r ← encode_rounds rounds member_size_limit fresh_locals
        f' ← get
        elim r [
          | none ↦ pure none
          | some v ↦
              (on_base (full_flush (data_position f'.finder) v.state) >>= λ u. pure (some true))
        ])
