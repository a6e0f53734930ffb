-- ===== src/Coder/Codes/ReadBack.antt =====
-- What the functions of Range_encoder write for a symbol, those of Range_decoder read back.
use lzip_os.Base.{ℕ, ◌%◌, ◌^◌, ◌≤◌, ◌<◌, ◌≡◌, arith, List, ◌++◌, IsByte, All}
use lzip_os.Io.{OutFile}
use lzip_os.Io.Blocks.{NoWriteFailure}
use lzip_os.Lzip.Model.{BitModel, LenModel, min_match_len, max_match_len}
use lzip_os.Encoder.Range.{encode}
use lzip_os.Encoder.Symbols.{encode_tree8, encode_tree_reversed, encode_matched, encode_len}
use lzip_os.Decoder.Input.Unread.{IsValid, remaining}
use lzip_os.Decoder.Range.{RangeDecoder, decode_tree8, decode_tree_reversed, decode}
use lzip_os.Decoder.Symbols.{decode_matched, decode_len}
use lzip_os.Coder.Stream.{AreModels}
use lzip_os.Coder.Codes.File.{ReadBack, coded, loaded, Codes-ReadBack}
use lzip_os.Coder.Codes.Tree.{tree8-TreeCoded}
use lzip_os.Coder.Codes.Matched.{encode_matched-TreeCoded}
use lzip_os.Coder.Codes.Reversed.{tree_reversed-TreeCoded}
use lzip_os.Coder.Codes.Direct.{encode-Codes}
use lzip_os.Coder.Codes.Length.{AreLenModels, encode_len-LenCoded}

module _ (dictionary_size : ℕ) (f : OutFile) (more : List ℕ) (d : RangeDecoder)
    (fine : NoWriteFailure f.answers) (bytes : All IsByte more) (v : IsValid d.input) where
  -- For models from 31 to 2017, a byte and an output file whose writes do not fail: the constructor,
  -- encode_tree8 and flush succeed, and decode_tree8, behind load, on a valid input that goes on with what
  -- was written, whatever bytes follow, answers the byte, with the models that encode_tree8 leaves.
  pub decode_tree8-encode_tree8 :
      (bm : List BitModel) (symbol : ℕ)
      → AreModels bm
      → symbol < 256
      → remaining d.input ≡ coded dictionary_size f (encode_tree8 bm symbol) ++ more
      → (bm' : List BitModel) × ReadBack dictionary_size f
          (encode_tree8 bm symbol)
          bm'
          (symbol, bm')
          (loaded (decode_tree8 bm) d)
  decode_tree8-encode_tree8 bm symbol h small e =
      let c = tree8-TreeCoded bm symbol h small in
      (
        c.models,
        Codes-ReadBack dictionary_size f (encode_tree8 bm symbol) (decode_tree8 bm) fine c.codes
            (omega arith) more d bytes v e,
      )

  -- For models from 31 to 2017, a byte, any byte of a match and an output file whose writes do not fail:
  -- the constructor, encode_matched and flush succeed, and decode_matched with the same byte of a match,
  -- behind load, on a valid input that goes on with what was written, whatever bytes follow, answers the
  -- byte, with the models that encode_matched leaves.
  pub decode_matched-encode_matched :
      (bm : List BitModel) (symbol match_byte : ℕ)
      → AreModels bm
      → symbol < 256
      → remaining d.input ≡ coded dictionary_size f (encode_matched bm symbol match_byte) ++ more
      → (bm' : List BitModel) × ReadBack dictionary_size f
          (encode_matched bm symbol match_byte)
          bm'
          (symbol, bm')
          (loaded (decode_matched bm match_byte) d)
  decode_matched-encode_matched bm symbol match_byte h small e =
      let c = encode_matched-TreeCoded bm symbol match_byte h small in
      (
        c.models,
        Codes-ReadBack dictionary_size f (encode_matched bm symbol match_byte)
            (decode_matched bm match_byte) fine c.codes (omega arith) more d bytes v e,
      )

  -- For models from 31 to 2017, at most 31 bits and an output file whose writes do not fail: the
  -- constructor, encode_tree_reversed and flush succeed, and decode_tree_reversed, behind load, on a valid
  -- input that goes on with what was written, whatever bytes follow, answers so many low bits of the
  -- symbol, with the models that encode_tree_reversed leaves.
  pub decode_tree_reversed-encode_tree_reversed :
      (bm : List BitModel) (symbol num_bits : ℕ)
      → AreModels bm
      → num_bits ≤ 31
      → remaining d.input
        ≡ coded dictionary_size f (encode_tree_reversed bm symbol num_bits) ++ more
      → (bm' : List BitModel) × ReadBack dictionary_size f
          (encode_tree_reversed bm symbol num_bits)
          bm'
          (symbol % 2 ^ num_bits, bm')
          (loaded (decode_tree_reversed bm num_bits) d)
  decode_tree_reversed-encode_tree_reversed bm symbol num_bits h small e =
      let c = tree_reversed-TreeCoded num_bits bm symbol h small in
      (
        c.models,
        Codes-ReadBack dictionary_size f (encode_tree_reversed bm symbol num_bits)
            (decode_tree_reversed bm num_bits) fine c.codes (omega arith) more d bytes v e,
      )

  -- For at most 32 bits and an output file whose writes do not fail: the constructor, encode and flush
  -- succeed, and decode, behind load, on a valid input that goes on with what was written, whatever bytes
  -- follow, answers so many low bits of the symbol.
  pub decode-encode :
      (symbol num_bits : ℕ)
      → num_bits ≤ 32
      → remaining d.input ≡ coded dictionary_size f (encode symbol num_bits) ++ more
      → ReadBack dictionary_size f
          (encode symbol num_bits)
          tt
          (symbol % 2 ^ num_bits)
          (loaded (decode num_bits) d)
  decode-encode symbol num_bits small e =
      Codes-ReadBack dictionary_size f (encode symbol num_bits) (decode num_bits) fine
        (encode-Codes num_bits symbol small) (omega arith) more d bytes v e

  -- For models from 31 to 2017, a length from 2 to 273, any pos_state and an output file whose writes do
  -- not fail: the constructor, encode_len and flush succeed, and decode_len, behind load, on a valid input
  -- that goes on with what was written, whatever bytes follow, answers the length, with the models that
  -- encode_len leaves.
  pub decode_len-encode_len :
      (lm : LenModel) (len pos_state : ℕ)
      → AreLenModels lm
      → min_match_len ≤ len
      → len ≤ max_match_len
      → remaining d.input ≡ coded dictionary_size f (encode_len lm len pos_state) ++ more
      → (lm' : LenModel) × ReadBack dictionary_size f
          (encode_len lm len pos_state)
          lm'
          (len, lm')
          (loaded (decode_len lm pos_state) d)
  decode_len-encode_len lm len pos_state h low high e =
      let c = encode_len-LenCoded lm len pos_state h low high in
      (
        c.models,
        Codes-ReadBack dictionary_size f (encode_len lm len pos_state) (decode_len lm pos_state)
            fine c.codes (omega arith) more d bytes v e,
      )
