-- ===== src/Coder/Objects/Fresh.antt =====
-- The models as reset leaves them.
use lzip_os.Base.{ℕ, zero, suc, ◌+◌, ◌-◌, arith, replicate, All}
use lzip_os.Lzip.Model.{
  fresh_models, fresh_len_model, fresh_model, pos_states, len_states, len_low_symbols,
  len_mid_symbols, len_high_symbols, modeled_distances, end_dis_model, dis_align_size,
}
use lzip_os.Lzip.State.{states}
use lzip_os.Decoder.Lz.Member.{fresh_member}
use lzip_os.Coder.Interval.{IsModel}
use lzip_os.Coder.Stream.{AreModels}
use lzip_os.Coder.Codes.Length.{AreLenModels}
use lzip_os.Coder.Objects.Bits.{AreMember}

replicate-All : {A : Type 0} (P : A → Type 0) (n : ℕ) (x : A) → P x → All P (replicate n x)
replicate-All P zero x h = tt
replicate-All P (suc n) x h = (h, replicate-All P n x h)

fresh_models-AreModels : (n : ℕ) → AreModels (fresh_models n)
unfolding fresh_models
fresh_models-AreModels n = replicate-All IsModel n fresh_model (omega arith, omega arith)

-- A table of models as they are at first.
fresh_rows : (n size : ℕ) → All AreModels (replicate n (fresh_models size))
fresh_rows n size = replicate-All AreModels n (fresh_models size) (fresh_models-AreModels size)

fresh_len_model-AreLenModels : AreLenModels fresh_len_model
unfolding fresh_len_model
fresh_len_model-AreLenModels = record {
  first = (omega arith, omega arith);
  second = (omega arith, omega arith);
  low = fresh_rows pos_states len_low_symbols;
  mid = fresh_rows pos_states len_mid_symbols;
  high = fresh_models-AreModels len_high_symbols;
}

-- The models of a member are from 31 to 2017 when decode_member begins.
pub fresh_member-AreMember : AreMember fresh_member
unfolding fresh_member
fresh_member-AreMember = record {
  literal = fresh_rows 8 0x300;
  match = fresh_rows states pos_states;
  rep = fresh_models-AreModels states;
  rep0 = fresh_models-AreModels states;
  rep1 = fresh_models-AreModels states;
  rep2 = fresh_models-AreModels states;
  len = fresh_rows states pos_states;
  dis_slot = fresh_rows len_states 64;
  dis = fresh_models-AreModels (modeled_distances - end_dis_model + 1);
  align = fresh_models-AreModels dis_align_size;
  match_len = fresh_len_model-AreLenModels;
  rep_len = fresh_len_model-AreLenModels;
}
