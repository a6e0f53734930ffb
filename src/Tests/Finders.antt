-- ===== src/Tests/Finders.antt =====
-- Concrete windows of the match finder.
use lzip_os.Base.{
  All, refl, false, ℕ, zero, suc, ◌≤◌, arith, List, [], ◌∷◌, replicate, get_or, true,
}
use lzip_os.Encoder.Range.{blank}
use lzip_os.Decoder.Lz.Member.{fresh_member}
use lzip_os.Encoder.Finder.{Finder, true_match_len, available_bytes, move_pos}
use lzip_os.Encoder.Finder.Matches.{IsLongest, true_match_len-IsLongest}
use lzip_os.Encoder.Finder.Ready.{IsWindow, IsPlaced, Moved, move_pos-Moved}
use lzip_os.Encoder.Fast.Moves.{MovedOn, update_and_move-MovedOn}
use lzip_os.Encoder.Fast.{update_and_move, FlzEncoder, longest_match_len}
use lzip_os.Encoder.Fast.Found.{Found, IsBehind, longest_match_len-Found}
use lzip_os.Coder.Objects.{base_of}
use lzip_os.Tests.Coders.{in_file, out_file}

-- Twenty equal bytes; the first one is behind the current position, and its key is known.
abbrev equal_bytes : Finder
equal_bytes = record {
  partial_data_pos = 0;
  buffer = replicate 20 65;
  positions = 0 ∷ 1 ∷ replicate 24 0;
  before_size = 0;
  buffer_size = 20;
  dictionary_size = 8;
  pos = 1;
  cyclic_pos = 1;
  stream_pos = 20;
  pos_limit = 20;
  key4_mask = 15;
  num_prev_positions23 = 0;
  num_prev_positions = 16;
  pos_array_size = 9;
  infd = in_file [];
  at_stream_end = true;
}

equal_bytes-IsBehind : IsBehind equal_bytes
equal_bytes-IsBehind zero = omega arith
equal_bytes-IsBehind (suc zero) = omega arith
equal_bytes-IsBehind (suc (suc j)) = zeros 24 j
  where
    zeros : (n j : ℕ) → get_or (replicate n 0) j 0 ≤ 1
    zeros zero j = omega arith
    zeros (suc n) zero = omega arith
    zeros (suc n) (suc j) = zeros n j

abbrev fast_encoder : FlzEncoder
fast_encoder = record {
  finder = equal_bytes;
  base = base_of fresh_member 0xFFFF_FFFF (blank true out_file);
  key4 = 0;
}

longest_match_len_example : Found fast_encoder (longest_match_len fast_encoder)
longest_match_len_example = longest_match_len-Found fast_encoder equal_bytes-IsBehind (omega arith)

true_match_len_example : IsLongest (replicate 20 65) 0 1 0 (true_match_len 0 1 equal_bytes) 19
unfolding available_bytes
true_match_len_example = true_match_len-IsLongest 0 1 equal_bytes (omega arith)

-- A window of eight bytes that move_pos has to move, with two more bytes in the file.
abbrev full_window : Finder
full_window = record {
  partial_data_pos = 100;
  buffer = 1 ∷ 2 ∷ 3 ∷ 4 ∷ 5 ∷ 6 ∷ 7 ∷ 8 ∷ [];
  positions = 6 ∷ 4 ∷ 3 ∷ 2 ∷ 1 ∷ 0 ∷ 5 ∷ [];
  before_size = 0;
  buffer_size = 8;
  dictionary_size = 4;
  pos = 5;
  cyclic_pos = 4;
  stream_pos = 8;
  pos_limit = 6;
  key4_mask = 1;
  num_prev_positions23 = 0;
  num_prev_positions = 2;
  pos_array_size = 5;
  infd = in_file (9 ∷ 10 ∷ []);
  at_stream_end = false;
}

full_window-IsWindow : IsWindow full_window
full_window-IsWindow = record {
  in_stream = omega arith;
  in_buffer = omega arith;
  whole_buffer = refl;
  room = λ e. omega arith;
  no_failure = tt;
}

at_most : (ps : List ℕ) (n : ℕ) → All (λ p. p ≤ n) ps → (j : ℕ) → get_or ps j 0 ≤ n
at_most [] n h j = omega arith
at_most (p ∷ ps) n h zero = h.0
at_most (p ∷ ps) n h (suc j) = at_most ps n h.1 j

full_window-IsPlaced : IsPlaced 6 full_window
full_window-IsPlaced = record {
  cyclic = omega arith;
  whole_arrays = refl;
  mask = omega arith;
  behind = at_most full_window.positions 6 (
    omega arith,
    (omega arith, (omega arith, (omega arith, (omega arith, (omega arith, (omega arith, tt)))))),
  );
}

move_pos_example : Moved 6 4 106 8 (1 ∷ 2 ∷ 3 ∷ 4 ∷ 5 ∷ 6 ∷ 7 ∷ 8 ∷ []) (move_pos full_window)
move_pos_example =
    move_pos-Moved full_window full_window-IsWindow full_window-IsPlaced (omega arith)

-- The same window with positions before the current one, and three bytes to move over.
abbrev moving_encoder : FlzEncoder
moving_encoder = record fast_encoder {
  finder = record full_window { positions = 5 ∷ 4 ∷ 3 ∷ 2 ∷ 1 ∷ 0 ∷ 5 ∷ [] };
}

moving_encoder-IsWindow : IsWindow moving_encoder.finder
moving_encoder-IsWindow = record {
  in_stream = omega arith;
  in_buffer = omega arith;
  whole_buffer = refl;
  room = λ e. omega arith;
  no_failure = tt;
}

moving_encoder-IsPlaced : IsPlaced 5 moving_encoder.finder
moving_encoder-IsPlaced = record {
  cyclic = omega arith;
  whole_arrays = refl;
  mask = omega arith;
  behind = at_most moving_encoder.finder.positions 5 (
    omega arith,
    (omega arith, (omega arith, (omega arith, (omega arith, (omega arith, (omega arith, tt)))))),
  );
}

update_and_move_example : MovedOn fast_encoder.base 108 0 (update_and_move 3 moving_encoder)
update_and_move_example =
    update_and_move-MovedOn 3 moving_encoder moving_encoder-IsWindow moving_encoder-IsPlaced
      (omega arith)
