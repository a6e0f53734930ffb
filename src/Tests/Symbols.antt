-- ===== src/Tests/Symbols.antt =====
-- Concrete symbols, written and read back.
use lzip_os.Base.{ℕ, ◌%◌, ◌^◌, arith, List, [], ◌∷◌, ◌++◌}
use lzip_os.Lzip.Model.{BitModel, LenModel}
use lzip_os.Encoder.Range.{encode}
use lzip_os.Encoder.Symbols.{encode_tree8, encode_tree_reversed, encode_matched, encode_len}
use lzip_os.Encoder.Slots.{get_slot}
use lzip_os.Encoder.Slots.Base.{IsSlot, get_slot-IsSlot}
use lzip_os.Decoder.Range.{RangeDecoder, decode_tree8, decode_tree_reversed, decode}
use lzip_os.Decoder.Symbols.{decode_matched, decode_len}
use lzip_os.Coder.Stream.{AreModels}
use lzip_os.Coder.Codes.File.{ReadBack, coded, loaded}
use lzip_os.Coder.Codes.Length.{AreLenModels}
use lzip_os.Coder.Codes.ReadBack.{
  decode_tree8-encode_tree8, decode_matched-encode_matched,
  decode_tree_reversed-encode_tree_reversed, decode-encode, decode_len-encode_len,
}
use lzip_os.Tests.Coders.{fresh_input, out_file, fresh_decoder}

abbrev two_models : List BitModel
two_models = 1024 ∷ 31 ∷ []

two_models-AreModels : AreModels two_models
two_models-AreModels = ((omega arith, omega arith), ((omega arith, omega arith), tt))

-- A decoder on these bytes and a byte behind them.
abbrev decoder_on : List ℕ → RangeDecoder
decoder_on bs = fresh_decoder (bs ++ 7 ∷ [])

decode_tree8_example :
    (bm' : List BitModel) × ReadBack 4096 out_file
      (encode_tree8 two_models 65)
      bm'
      (65, bm')
      (loaded
        (decode_tree8 two_models)
        (decoder_on (coded 4096 out_file (encode_tree8 two_models 65))))
decode_tree8_example =
    decode_tree8-encode_tree8 4096 out_file (7 ∷ [])
      (decoder_on (coded 4096 out_file (encode_tree8 two_models 65))) tt (omega arith, tt)
      (fresh_input (coded 4096 out_file (encode_tree8 two_models 65) ++ 7 ∷ [])).0 two_models 65
      two_models-AreModels (omega arith)
      (fresh_input (coded 4096 out_file (encode_tree8 two_models 65) ++ 7 ∷ [])).1

decode_matched_example :
    (bm' : List BitModel) × ReadBack 4096 out_file
      (encode_matched two_models 65 66)
      bm'
      (65, bm')
      (loaded
        (decode_matched two_models 66)
        (decoder_on (coded 4096 out_file (encode_matched two_models 65 66))))
decode_matched_example =
    decode_matched-encode_matched 4096 out_file (7 ∷ [])
      (decoder_on (coded 4096 out_file (encode_matched two_models 65 66))) tt (omega arith, tt)
      (fresh_input (coded 4096 out_file (encode_matched two_models 65 66) ++ 7 ∷ [])).0 two_models
      65 66 two_models-AreModels (omega arith)
      (fresh_input (coded 4096 out_file (encode_matched two_models 65 66) ++ 7 ∷ [])).1

decode_tree_reversed_example :
    (bm' : List BitModel) × ReadBack 4096 out_file
      (encode_tree_reversed two_models 21 4)
      bm'
      (21 % 2 ^ 4, bm')
      (loaded
        (decode_tree_reversed two_models 4)
        (decoder_on (coded 4096 out_file (encode_tree_reversed two_models 21 4))))
decode_tree_reversed_example =
    decode_tree_reversed-encode_tree_reversed 4096 out_file (7 ∷ [])
      (decoder_on (coded 4096 out_file (encode_tree_reversed two_models 21 4))) tt (omega arith, tt)
      (fresh_input (coded 4096 out_file (encode_tree_reversed two_models 21 4) ++ 7 ∷ [])).0
      two_models 21 4 two_models-AreModels (omega arith)
      (fresh_input (coded 4096 out_file (encode_tree_reversed two_models 21 4) ++ 7 ∷ [])).1

decode-encode_example :
    ReadBack 4096 out_file
      (encode 77 6)
      tt
      (77 % 2 ^ 6)
      (loaded (decode 6) (decoder_on (coded 4096 out_file (encode 77 6))))
decode-encode_example =
    decode-encode 4096 out_file (7 ∷ []) (decoder_on (coded 4096 out_file (encode 77 6))) tt
      (omega arith, tt) (fresh_input (coded 4096 out_file (encode 77 6) ++ 7 ∷ [])).0 77 6
      (omega arith) (fresh_input (coded 4096 out_file (encode 77 6) ++ 7 ∷ [])).1

abbrev lens : LenModel
lens = record {
  choice1 = 1024;
  choice2 = 31;
  bm_low = two_models ∷ [];
  bm_mid = two_models ∷ [];
  bm_high = two_models;
}

lens-AreLenModels : AreLenModels lens
lens-AreLenModels = record {
  first = (omega arith, omega arith);
  second = (omega arith, omega arith);
  low = (two_models-AreModels, tt);
  mid = (two_models-AreModels, tt);
  high = two_models-AreModels;
}

decode_len_example :
    (lm' : LenModel) × ReadBack 4096 out_file
      (encode_len lens 100 0)
      lm'
      (100, lm')
      (loaded (decode_len lens 0) (decoder_on (coded 4096 out_file (encode_len lens 100 0))))
decode_len_example =
    decode_len-encode_len 4096 out_file (7 ∷ [])
      (decoder_on (coded 4096 out_file (encode_len lens 100 0))) tt (omega arith, tt)
      (fresh_input (coded 4096 out_file (encode_len lens 100 0) ++ 7 ∷ [])).0 lens 100 0
      lens-AreLenModels (omega arith) (omega arith)
      (fresh_input (coded 4096 out_file (encode_len lens 100 0) ++ 7 ∷ [])).1

get_slot_example : IsSlot (get_slot 70000) 70000
get_slot_example = get_slot-IsSlot 70000 (omega arith)
