-- ===== src/Encoder/Fast.antt =====
-- `class FLZ_encoder` of fast_encoder.h and fast_encoder.cc: its match finder and its packets.
pub mod Member
pub mod Found
pub mod Moves
use lzip_os.Base.{
  ℕ, zero, suc, ◌+◌, ◌-◌, min, ltb, leb, ◌==◌, if◌then◌else◌, Bool, true, false, not, ◌&&◌, ◌||◌,
}
use lzip_os.Base.{List, [], ◌∷◌, get_or, set, bit_and, bit_xor, u32, ◌<<<◌}
use lzip_os.Base.{Result, ok, err, M, ◌>>=◌, ◌>>◌, pure, get, put}
use lzip_os.Lzip.Model.{max_match_len}
use lzip_os.Encoder.Packets.{LzEncoderBase}
use lzip_os.Encoder.Finder
use lzip_os.Encoder.Finder.{Finder, Sizes, available_bytes, match_loop, move_pos}

pub record FlzEncoder : Type 0 where
  pub finder : Finder
  pub base : LzEncoderBase
  pub key4 : ℕ

-- The parameters that the class gives to its base.
abbrev pub sizes : Sizes
sizes = record {
  before_size = 0;
  dict_size = 65536;
  after_size = max_match_len;
  dict_factor = 16;
  num_prev_positions23 = 0;
  pos_array_factor = 1;
}

abbrev pub on_finder : {A : Type 0} → M Finder A → M FlzEncoder A
on_finder m f = elim (m f.finder) [ ok (a, g) ↦ ok (a, record f { finder = g }) | err x ↦ err x ]

abbrev pub on_base : {A : Type 0} → M LzEncoderBase A → M FlzEncoder A
on_base m f = elim (m f.base) [ ok (a, e) ↦ ok (a, record f { base = e }) | err x ↦ err x ]

-- The next key, and `key4` after it has taken in a byte.
unfoldable pub shift_key : ℕ → ℕ → ℕ
shift_key key4 byte = bit_xor (u32 (key4 <<< 4)) byte

-- The rounds of `reset_key4` from index `i` on.
unfoldable pub reset_key_loop : ℕ → ℕ → Finder → ℕ → ℕ
unfolding shift_key available_bytes
reset_key_loop zero i g key4 = key4
reset_key_loop (suc rounds) i g key4 =
    let rest = reset_key_loop rounds (i + 1) g (shift_key key4 (get_or g.buffer i 0)) in
    if ltb i (available_bytes g) then rest else key4

unfoldable pub reset_key4 : FlzEncoder → FlzEncoder
unfolding reset_key_loop
reset_key4 f = record f { key4 = reset_key_loop 3 0 f.finder 0 }

-- The entry of `pos_array` with that index in `positions`.
abbrev pub in_pos_array : Finder → ℕ → ℕ
in_pos_array g i = g.num_prev_positions + i

abbrev pub position : Finder → ℕ → ℕ
position g i = get_or g.positions i 0

abbrev pub put_position : Finder → ℕ → ℕ → Finder
put_position g i p = record g { positions = set g.positions i p }

-- What the loop of longest_match_len leaves; `distance` is the pointer's target, 0 if it is not set.
pub record Longest : Type 0 where
  pub maxlen : ℕ
  pub distance : ℕ
  pub finder : Finder

-- The index of `newptr`.
unfoldable pub new_pointer : Finder → ℕ → ℕ
new_pointer g delta = in_pos_array g (
    if leb delta g.cyclic_pos
    then g.cyclic_pos - delta
    else g.cyclic_pos + (g.dictionary_size + 1) - delta)

-- The loop of longest_match_len; `count` is how many more positions it tries, and `ptr0` and `newpos1`
-- are as in the source.
unfoldable pub chain : ℕ → ℕ → ℕ → ℕ → ℕ → ℕ → Finder → Longest
unfolding new_pointer match_loop
chain zero ptr0 newpos1 available maxlen distance g = record {
  maxlen = maxlen;
  distance = distance;
  finder = put_position g ptr0 0;
}
chain (suc count) ptr0 newpos1 available maxlen distance g =
    let delta = g.pos + 1 - newpos1 in
    let newptr = new_pointer g delta in
    let here = get_or g.buffer (g.pos - delta + maxlen) 0 == get_or g.buffer (g.pos + maxlen) 0 in
    let len = match_loop available g.buffer (g.pos - delta) g.pos 0 in
    let better = here && ltb maxlen len in
    let g' = put_position g ptr0 newpos1 in
    let rest =
      chain count newptr (position g' newptr) available (if better then len else maxlen)
        (if better then delta - 1 else distance) g' in
    if newpos1 == 0 || ltb g.dictionary_size delta
    then record { maxlen = maxlen; distance = distance; finder = put_position g ptr0 0 }
    else if better && leb 16 len
    then record {
      maxlen = len;
      distance = delta - 1;
      finder = put_position g ptr0 (position g newptr);
    }
    else rest

-- The length, and the distance that it stores.
unfoldable pub longest_match_len : M FlzEncoder (ℕ × ℕ)
unfolding chain available_bytes shift_key
longest_match_len f =
    let g = f.finder in
    let available = min (available_bytes g) max_match_len in
    let key4 = bit_and (shift_key f.key4 (get_or g.buffer (g.pos + 3) 0)) g.key4_mask in
    let r =
      chain 4 (in_pos_array g g.cyclic_pos) (position g key4) available 0 0
        (put_position g key4 (g.pos + 1)) in
    if ltb available 16
    then ok ((0, 0), f)
    else ok ((r.maxlen, r.distance), record f { finder = r.finder; key4 = key4 })

-- One round of `update_and_move`, up to `move_pos`.
unfoldable pub update_key : FlzEncoder → FlzEncoder
unfolding available_bytes shift_key
update_key f =
    let g = f.finder in
    let key4 = bit_and (shift_key f.key4 (get_or g.buffer (g.pos + 3) 0)) g.key4_mask in
    let stored = put_position g (in_pos_array g g.cyclic_pos) (position g key4) in
    if leb 4 (available_bytes g)
    then record f { key4 = key4; finder = put_position stored key4 (g.pos + 1) }
    else f

unfoldable pub update_and_move : ℕ → M FlzEncoder (Unit {0})
unfolding update_key move_pos
update_and_move zero = pure tt
update_and_move (suc n) = do f ← get; put (update_key f); on_finder move_pos; update_and_move n
