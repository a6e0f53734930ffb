-- ===== src/Lzip/Model.antt =====
-- The constants of lzip.h, `Bit_model` and `Len_model`.
use lzip_os.Base.{ℕ, ◌+◌, ◌-◌, ◌^◌, min, List, replicate, ◌>>>◌, Bool, true, false}

abbrev pub min_dictionary_bits : ℕ
min_dictionary_bits = 12

abbrev pub min_dictionary_size : ℕ
min_dictionary_size = 2 ^ 12

abbrev pub max_dictionary_bits : ℕ
max_dictionary_bits = 29

abbrev pub max_dictionary_size : ℕ
max_dictionary_size = 2 ^ 29

abbrev pub min_member_size : ℕ
min_member_size = 36

abbrev pub literal_context_bits : ℕ
literal_context_bits = 3

abbrev pub pos_state_bits : ℕ
pos_state_bits = 2

abbrev pub pos_states : ℕ
pos_states = 4

abbrev pub pos_state_mask : ℕ
pos_state_mask = 3

abbrev pub len_states : ℕ
len_states = 4

abbrev pub dis_slot_bits : ℕ
dis_slot_bits = 6

abbrev pub start_dis_model : ℕ
start_dis_model = 4

abbrev pub end_dis_model : ℕ
end_dis_model = 14

abbrev pub modeled_distances : ℕ
modeled_distances = 128

abbrev pub dis_align_bits : ℕ
dis_align_bits = 4

abbrev pub dis_align_size : ℕ
dis_align_size = 16

abbrev pub len_low_symbols : ℕ
len_low_symbols = 8

abbrev pub len_mid_symbols : ℕ
len_mid_symbols = 8

abbrev pub len_high_symbols : ℕ
len_high_symbols = 256

abbrev pub max_len_symbols : ℕ
max_len_symbols = len_low_symbols + len_mid_symbols + len_high_symbols

abbrev pub min_match_len : ℕ
min_match_len = 2

abbrev pub max_match_len : ℕ
max_match_len = min_match_len + max_len_symbols - 1

abbrev pub min_match_len_limit : ℕ
min_match_len_limit = 5

-- `len` is an int that is at least `min_match_len`.
unfoldable pub get_len_state : ℕ → ℕ
get_len_state len = min (len - min_match_len) (len_states - 1)

unfoldable pub get_lit_state : ℕ → ℕ
get_lit_state prev_byte = prev_byte >>> (8 - literal_context_bits)

abbrev pub bit_model_move_bits : ℕ
bit_model_move_bits = 5

abbrev pub bit_model_total_bits : ℕ
bit_model_total_bits = 11

abbrev pub bit_model_total : ℕ
bit_model_total = 2 ^ 11

-- `struct Bit_model`, by its one field `probability`.
abbrev pub BitModel : Type 0
BitModel = ℕ

-- Bit_model(), and reset()
abbrev pub fresh_model : BitModel
fresh_model = 1024

-- An array of `size` models after reset( size ).
unfoldable pub fresh_models : ℕ → List BitModel
fresh_models size = replicate size fresh_model

-- The rows of bm_low and bm_mid are indexed by the position state.
pub record LenModel : Type 0 where
  pub choice1 : BitModel
  pub choice2 : BitModel
  pub bm_low : List (List BitModel)
  pub bm_mid : List (List BitModel)
  pub bm_high : List BitModel

-- Len_model::reset, which is also what its constructor leaves.
unfoldable pub fresh_len_model : LenModel
unfolding fresh_models
fresh_len_model = record {
  choice1 = fresh_model;
  choice2 = fresh_model;
  bm_low = replicate pos_states (fresh_models len_low_symbols);
  bm_mid = replicate pos_states (fresh_models len_mid_symbols);
  bm_high = fresh_models len_high_symbols;
}

-- The update of a model by the bit that was coded, as `decode_bit` and `encode_bit` write it.
unfoldable pub adapt : Bool → BitModel → BitModel
adapt false probability = probability + (bit_model_total - probability) >>> bit_model_move_bits
adapt true probability = probability - probability >>> bit_model_move_bits
