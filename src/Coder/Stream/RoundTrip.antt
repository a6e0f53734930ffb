-- ===== src/Coder/Stream/RoundTrip.antt =====
-- What the encoder writes, the decoder reads back.
use lzip_os.Base.{ℕ, ◌+◌, ◌^◌, ◌≤◌, ◌<◌, ◌≡◌, refl, sym, ap, ◌∙◌, subst, arith}
use lzip_os.Base.{
  Bool, true, false, Bool-cases, inl, inr, leb, List, [], ◌∷◌, ◌++◌, length, take, drop,
  drop-length-append, length-replicate, IsByte, All,
}
use lzip_os.Base.{none, some, ok, err, M, Result, ◌>>=◌, ◌>>◌, >>=-ok, pure}
use mathlib.Core.List.{append-nil}
use lzip_os.Io.{OutFile}
use lzip_os.Io.Blocks.{NoWriteFailure}
use lzip_os.Lzip.Header.{header_size, LzipHeader, set_dictionary_size}
use lzip_os.Lzip.Model.{BitModel}
use lzip_os.Encoder.Output
use lzip_os.Encoder.Output.{Output}
use lzip_os.Encoder.Output.Sent.{sent, HasPut, out_bytes, put_bytes-HasPut}
use lzip_os.Encoder.Range.{RangeEncoder, blank, reset, construct, flush}
use lzip_os.Decoder.Input.Unread.{IsValid, remaining}
use lzip_os.Decoder.Range.{RangeDecoder, load}
use lzip_os.Coder.Interval.{Interval, IsGood, scale, Within}
use lzip_os.Coder.Emit.{on_output-ok}
use lzip_os.Coder.Emit.Bits.{Emits, Emitted}
use lzip_os.Coder.Follow.{Tracks, Followed, Followed-then}
use lzip_os.Coder.Stream.{
  Kind, AreModels, encode_all, decode_all, kinds, bits, models_at_end, path, part, models_after,
}
use lzip_os.Coder.Stream.{path-IsGood, Within-path, encode_all-Emitted, decode_all-Tracks}
use lzip_os.Coder.Stream.Flush.{Flushed, flush-Flushed, Flushed-Within}
use lzip_os.Coder.Stream.Load.{start, load-InSync}

-- Each bit adds a digit at most.
pub scale-digits : (i : Interval) → (scale i).digits ≤ i.digits + 1
scale-digits i = elim (Bool-cases (leb i.range 0x00FF_FFFF)) [
  | inl small ↦ rw small (omega arith)
  | inr large ↦ rw large (omega arith)
]

pub part-digits :
    (k : Kind) (b : Bool) (ms : List BitModel) (i : Interval) → (part k b ms i).digits ≡ i.digits
part-digits (Kind.modelled k) false ms i = refl
part-digits (Kind.modelled k) true ms i = refl
part-digits Kind.direct false ms i = refl
part-digits Kind.direct true ms i = refl

path-digits :
    (ds : List (Kind × Bool)) (ms : List BitModel) (i : Interval)
    → (path ds ms i).digits ≤ i.digits + length ds
path-digits [] ms i = omega arith
path-digits ((k, b) ∷ ds) ms i = omega (
  arith,
  path-digits ds (models_after k b ms) (scale (part k b ms i)),
  scale-digits (part k b ms i),
  part-digits k b ms i,
)

-- The encoder after its constructor: the header is sent, and nothing else.
pub record Started (header : LzipHeader) (f : OutFile) (r : Result (Unit {0} × RangeEncoder))
    : Type 0 where
  pub after : RangeEncoder
  pub returns : r ≡ ok (tt, after)
  pub emits : Emits (f.written ++ out_bytes (take header_size header)) after start

-- The header that the constructor writes.
abbrev pub header_of : ℕ → OutFile → LzipHeader
header_of dictionary_size f = elim (set_dictionary_size dictionary_size (blank true f).header) [
  | some h ↦ h
  | none ↦ (blank true f).header
]

blank_out : OutFile → Output
blank_out f = record {
  partial_member_pos = 0;
  buffer = (blank true f).out.buffer;
  pos = 0;
  connected = true;
  outfd = f;
}

blank_whole : (f : OutFile) → length (blank true f).out.buffer ≡ Output.buffer_size
unfolding blank
blank_whole f = length-replicate {A = ℕ} Output.buffer_size 0

pub construct-Started :
    (dictionary_size : ℕ) (f : OutFile)
    → NoWriteFailure f.answers
    → Started (header_of dictionary_size f) f (construct dictionary_size true f)
unfolding construct reset blank_out
construct-Started dictionary_size f fine = record {
  after = ended g.after;
  returns = on_output-ok (Output.put_bytes bytes) (ended (blank_out f)) g.returns;
  emits = record {
    same_range = refl;
    fits = record {
      below = omega arith;
      top_le = omega arith;
      cache_byte = omega arith;
      cache_full = λ full. omega arith;
      ready = g.ready;
    };
    is_sent = λ small. record {
      body = [];
      sent_body =
          g.now_sent
          ∙ ap (λ s. s ++ out_bytes bytes) (append-nil f.written)
          ∙ sym (append-nil (f.written ++ out_bytes bytes));
      bytes = tt;
      value_lem = refl;
      count = refl;
    };
  };
}
  where
    bytes : List ℕ
    bytes = take header_size (header_of dictionary_size f)

    ended : Output → RangeEncoder
    ended o = record {
      out = o;
      low = 0;
      range = 0xFFFF_FFFF;
      ff_count = 0;
      cache = 0;
      header = header_of dictionary_size f;
    }

    g : HasPut (blank_out f) (out_bytes bytes) (Output.put_bytes bytes (blank_out f))
    g = put_bytes-HasPut bytes (blank_out f) (record {
      has_room = omega arith;
      whole_buffer = blank_whole f;
      is_connected = refl;
      no_failure = fine;
    })

-- A decoder on the stream: what `load` answers, the bits and the models.
abbrev pub read_stream :
    List Kind → List BitModel → M RangeDecoder (Bool × (List Bool × List BitModel))
read_stream ks ms = load >>= λ loaded. decode_all ks ms >>= λ r. pure (loaded, r)

pub append-All : (xs ys : List ℕ) → All IsByte xs → All IsByte ys → All IsByte (xs ++ ys)
append-All [] ys h g = g
append-All (x ∷ xs) ys h g = (h.0, append-All xs ys h.1 g)

-- The constructor, the bits, and flush.
abbrev pub write_stream :
    ℕ → OutFile → List (Kind × Bool) → List BitModel → Result (List BitModel × RangeEncoder)
write_stream dictionary_size f ds ms = elim (construct dictionary_size true f) [
  | ok (u, e) ↦ (encode_all ds ms >>= λ ms'. flush >> pure ms') e
  | err x ↦ err x
]

pub start-IsGood : IsGood start
start-IsGood = omega arith

-- Reading what was flushed at the end of the path of the bits.
read_lem :
    (ds : List (Kind × Bool)) (ms : List BitModel) (B : List ℕ) (d : RangeDecoder)
    → AreModels ms
    → All IsByte B
    → IsValid d.input
    → remaining d.input ≡ B
    → Within B (path ds ms start)
    → Followed
        (λ d'. IsValid d'.input)
        (true, (bits ds, models_at_end ds ms))
        (read_stream (kinds ds) ms d)
read_lem ds ms B d h bytes v e w =
    let f = load-InSync B d bytes v e (Within-path B ds ms start bytes h w) in
    let t : Tracks B start f.after = record {
      base = start;
      sync = f.holds;
      wide = (omega arith, omega arith);
      ahead = refl;
    } in
    let r = decode_all-Tracks B bytes ds ms f.after start h start-IsGood t w in
    Followed-then load (λ loaded. decode_all (kinds ds) ms >>= λ r. pure (loaded, r)) d f
      (Followed-then (decode_all (kinds ds) ms) (λ r. pure (true, r)) f.after r
        (record { after = r.after; returns = refl; holds = r.holds.sync.valid }))

-- What comes before the stream: what the file had, and the header.
abbrev pub before : ℕ → OutFile → List ℕ
before dictionary_size f = f.written ++ out_bytes (take header_size (header_of dictionary_size f))

-- The bytes that a run of the encoder puts behind the header.
abbrev pub stream : ℕ → OutFile → List (Kind × Bool) → List BitModel → List ℕ
stream dictionary_size f ds ms = elim (write_stream dictionary_size f ds ms) [
  | ok (m, e) ↦ drop (length (before dictionary_size f)) (sent e.out)
  | err x ↦ []
]

-- A run of the encoder went well: the stream is behind the header, and its digits are the low end of
-- the interval of the bits.
pub record Written (dictionary_size : ℕ) (f : OutFile) (ds : List (Kind × Bool))
    (ms : List BitModel) : Type 0 where
  pub after : RangeEncoder
  pub returns : write_stream dictionary_size f ds ms ≡ ok (models_at_end ds ms, after)
  pub sent_lem : sent after.out ≡ before dictionary_size f ++ stream dictionary_size f ds ms
  pub bytes : All IsByte (stream dictionary_size f ds ms)
  pub within : Within (stream dictionary_size f ds ms) (path ds ms start)

module _ (dictionary_size : ℕ) (f : OutFile) (ds : List (Kind × Bool)) (ms : List BitModel)
    (fine : NoWriteFailure f.answers) (h : AreModels ms) (few : length ds + 10 < 2 ^ 32) where
  good : IsGood (path ds ms start)
  good = path-IsGood ds ms start h start-IsGood

  started : Started (header_of dictionary_size f) f (construct dictionary_size true f)
  started = construct-Started dictionary_size f fine

  coded :
      Emitted
        (before dictionary_size f)
        (path ds ms start)
        (models_at_end ds ms)
        (encode_all ds ms started.after)
  coded =
      encode_all-Emitted (before dictionary_size f) ds ms started.after start h start-IsGood
        started.emits

  flushed : Flushed (before dictionary_size f) (path ds ms start) (flush coded.after)
  flushed =
      flush-Flushed (before dictionary_size f) coded.after (path ds ms start) good coded.emits
        (omega (arith, path-digits ds ms start))

  write_stream-ok : write_stream dictionary_size f ds ms ≡ ok (models_at_end ds ms, flushed.after)
  write_stream-ok =
      ap
        (λ (r : Result (Unit {0} × RangeEncoder)).
          elim r as (λ _. Result (List BitModel × RangeEncoder)) [
            | ok (u, e) ↦ (encode_all ds ms >>= λ ms'. flush >> pure ms') e
            | err x ↦ err x
          ])
        started.returns
      ∙ >>=-ok (encode_all ds ms) (λ ms'. flush >> pure ms') started.after coded.returns
      ∙ >>=-ok flush (λ _. pure (models_at_end ds ms)) coded.after flushed.returns

  stream_lem : stream dictionary_size f ds ms ≡ flushed.body
  stream_lem =
      ap
        (λ (r : Result (List BitModel × RangeEncoder)). elim r as (λ _. List ℕ) [
          | ok (m, e) ↦ drop (length (before dictionary_size f)) (sent e.out)
          | err x ↦ []
        ])
        write_stream-ok
      ∙ ap (drop (length (before dictionary_size f))) flushed.sent_body
      ∙ drop-length-append (before dictionary_size f) flushed.body

  -- For any bits, each with an adaptive model of an array whose models are from 31 to 2017 or direct,
  -- fewer than 2 ^ 32 - 10 of them, and an output file whose writes do not fail: the constructor, the
  -- coding of the bits and flush succeed and answer the adapted models; what the encoder then has put
  -- is the header and behind it the stream, which is bytes and lies in the interval of the bits.
  pub write_stream-Written : Written dictionary_size f ds ms
  write_stream-Written = record {
    after = flushed.after;
    returns = write_stream-ok;
    sent_lem = flushed.sent_body ∙ ap (λ s. before dictionary_size f ++ s) (sym stream_lem);
    bytes = subst (All IsByte) (sym stream_lem) flushed.bytes;
    within =
        subst (λ s. Within s (path ds ms start)) (append-nil _ ∙ sym stream_lem)
          (Flushed-Within flushed [] good);
  }

  -- For the same bits, models and output file: a decoder whose input is valid and goes on with the
  -- stream that the encoder made, whatever bytes follow it, loads it (`load` answers true) and decodes
  -- the same bits, with the same adapted models at the end.
  pub read_stream-write_stream :
      (more : List ℕ) (d : RangeDecoder)
      → All IsByte more
      → IsValid d.input
      → remaining d.input ≡ stream dictionary_size f ds ms ++ more
      → Followed
          (λ d'. IsValid d'.input)
          (true, (bits ds, models_at_end ds ms))
          (read_stream (kinds ds) ms d)
  read_stream-write_stream more d bytes v e =
      read_lem ds ms (flushed.body ++ more) d h (append-All flushed.body more flushed.bytes bytes) v
        (e ∙ ap (λ s. s ++ more) stream_lem) (Flushed-Within flushed more good)
