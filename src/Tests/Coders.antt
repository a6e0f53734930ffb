-- ===== src/Tests/Coders.antt =====
-- Concrete encoders and decoders.
use lzip_os.Base.{ℕ, ◌≡◌, refl, arith, true, false, Bool, length-replicate}
use lzip_os.Base.{List, [], ◌∷◌, ◌++◌, u8}
use lzip_os.Io.{InFile, OutFile}
use lzip_os.Encoder.Output.{put_byte}
use lzip_os.Encoder.Output.Sent.{HasPut, put_byte-HasPut}
use lzip_os.Encoder.Range.{construct, encode_bit}
use lzip_os.Decoder.Input
use lzip_os.Decoder.Input.{Input}
use lzip_os.Decoder.Input.Unread.{IsValid, remaining, Got, get_byte-Got}
use lzip_os.Decoder.Range
use lzip_os.Decoder.Range.{RangeDecoder, decode_bit}
use lzip_os.Lzip.Model.{BitModel, adapt}
use lzip_os.Coder.Interval.{narrow, scale, Within}
use lzip_os.Coder.Emit.Bits.{Emitted, encode_bit-Emitted}
use lzip_os.Coder.Follow.{InSync, Tracks, Followed, decode_bit-Tracks}
use lzip_os.Coder.Stream.{Kind, kinds, bits, models_at_end}
use lzip_os.Coder.Stream.Load.{start, load-InSync}
use lzip_os.Coder.Stream.RoundTrip.{
  Started, construct-Started, header_of, before, stream, Written, read_stream, write_stream-Written,
  read_stream-write_stream,
}

abbrev pub in_file : List ℕ → InFile
in_file bs = record { rest = bs; answers = [] }

pub fresh_input :
    (bs : List ℕ)
    → IsValid (Input.initial (in_file bs)) × (remaining (Input.initial (in_file bs)) ≡ bs)
unfolding Input.initial
fresh_input bs = (
  record {
    in_stream = omega arith;
    in_buffer = omega arith;
    whole_buffer = length-replicate {A = ℕ} Input.buffer_size 0;
    at_end = λ p. cc;
    no_failure = tt;
  },
  refl,
)

get_byte_example :
    Got
      (Input.initial (in_file (7 ∷ 8 ∷ [])))
      7
      (8 ∷ [])
      (Input.get_byte (Input.initial (in_file (7 ∷ 8 ∷ []))))
get_byte_example =
    get_byte-Got (Input.initial (in_file (7 ∷ 8 ∷ []))) 7 (8 ∷ []) (fresh_input (7 ∷ 8 ∷ [])).0
      (fresh_input (7 ∷ 8 ∷ [])).1

abbrev pub out_file : OutFile
out_file = record { written = []; answers = [] }

started : Started (header_of 4096 out_file) out_file (construct 4096 true out_file)
started = construct-Started 4096 out_file tt

put_byte_example : HasPut started.after.out (u8 300 ∷ []) (put_byte 300 started.after.out)
put_byte_example = put_byte-HasPut 300 started.after.out started.emits.fits.ready

encode_bit_example :
    Emitted
      (before 4096 out_file)
      (scale (narrow 1024 true start))
      (adapt true 1024)
      (encode_bit 1024 true started.after)
encode_bit_example =
    encode_bit-Emitted (before 4096 out_file) 1024 started.after start (omega arith) (omega arith)
      started.emits true

-- Five bytes of a stream that begins with the bit 0.
abbrev zeros : List ℕ
zeros = 0 ∷ 0 ∷ 0 ∷ 0 ∷ 5 ∷ []

zeros-Within : Within zeros start
zeros-Within = record { above = omega arith; below = omega arith; long = omega arith }

narrow-Within : Within zeros (narrow 1024 false start)
narrow-Within = record { above = omega arith; below = omega arith; long = omega arith }

abbrev pub fresh_decoder : List ℕ → RangeDecoder
fresh_decoder bs = record { input = Input.initial (in_file bs); code = 0; range = 0xFFFF_FFFF }

loaded : Followed (InSync zeros start) true (Range.load (fresh_decoder zeros))
loaded =
    load-InSync zeros (fresh_decoder zeros)
      (omega arith, (omega arith, (omega arith, (omega arith, (omega arith, tt)))))
      (fresh_input zeros).0 (fresh_input zeros).1 zeros-Within

tracks : Tracks zeros start loaded.after
tracks = record {
  base = start;
  sync = loaded.holds;
  wide = (omega arith, omega arith);
  ahead = refl;
}

decode_bit_example :
    Followed
      (Tracks zeros (scale (narrow 1024 false start)))
      (false, adapt false 1024)
      (decode_bit 1024 loaded.after)
decode_bit_example =
    decode_bit-Tracks zeros
      (omega arith, (omega arith, (omega arith, (omega arith, (omega arith, tt))))) 1024 false start
      loaded.after (omega arith) (omega arith) tracks narrow-Within

abbrev some_bits : List (Kind × Bool)
some_bits =
    (Kind.modelled 0, true)
    ∷ (Kind.direct, false)
    ∷ (Kind.modelled 1, true)
    ∷ (Kind.modelled 0, true)
    ∷ []

abbrev some_models : List BitModel
some_models = 1024 ∷ 31 ∷ []

write_stream_example : Written 4096 out_file some_bits some_models
write_stream_example =
    write_stream-Written 4096 out_file some_bits some_models tt
      ((omega arith, omega arith), ((omega arith, omega arith), tt)) (omega arith)

-- The stream, with a byte behind it.
abbrev a_stream : List ℕ
a_stream = stream 4096 out_file some_bits some_models ++ (77 ∷ [])

read_stream_example :
    Followed
      (λ d'. IsValid d'.input)
      (true, (bits some_bits, models_at_end some_bits some_models))
      (read_stream (kinds some_bits) some_models (fresh_decoder a_stream))
read_stream_example =
    read_stream-write_stream 4096 out_file some_bits some_models tt
      ((omega arith, omega arith), ((omega arith, omega arith), tt)) (omega arith) (77 ∷ [])
      (fresh_decoder a_stream) (omega arith, tt) (fresh_input a_stream).0 (fresh_input a_stream).1
