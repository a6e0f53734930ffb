-- ===== src/Encoder/Range.antt =====
-- `class Range_encoder` of encoder_base.h, but for its output buffer (Encoder/Output). A function that
-- is given an array of models returns it as it is afterwards.
use lzip_os.Base.{
  ℕ, zero, suc, ◌+◌, ◌*◌, ◌^◌, ltb, leb, ◌==◌, if◌then◌else◌, Bool, true, false, not,
}
use lzip_os.Base.{List, get_or, set, take, replicate, bit, bit_and, none, some}
use lzip_os.Base.{
  u8, u32, u64, sub32, ◌<<<◌, ◌>>>◌, Result, ok, err, M, ◌>>=◌, ◌>>◌, pure, get, put,
}
use lzip_os.Io.{OutFile}
use lzip_os.Lzip.Header.{LzipHeader, header_size, set_magic, set_dictionary_size}
use lzip_os.Lzip.Model.{BitModel, fresh_model, bit_model_total_bits, adapt}
use lzip_os.Encoder.Output
use lzip_os.Encoder.Output.{Output}

pub record RangeEncoder : Type 0 where
  pub out : Output
  pub low : ℕ
  pub range : ℕ
  pub ff_count : ℕ
  pub cache : ℕ
  pub header : LzipHeader

-- A call on the output side.
abbrev pub on_output : {A : Type 0} → M Output A → M RangeEncoder A
on_output m e = elim (m e.out) [ ok (a, o) ↦ ok (a, record e { out = o }) | err x ↦ err x ]

unfoldable pub put_byte : ℕ → M RangeEncoder (Unit {0})
put_byte b = on_output (Output.put_byte b)

unfoldable pub flush_data : M RangeEncoder (Unit {0})
flush_data = on_output Output.flush_data

-- What `shift_low` does when the top digit of `low` is settled: the cached byte and the bytes 0xFF
-- that waited go out, with the carry added.
unfoldable pub release : M RangeEncoder (Unit {0})
unfolding put_byte
release e =
    let carry = bit (ltb 0xFFFF_FFFF e.low) in
    (do
      put_byte (e.cache + carry)
      on_output (Output.put_run e.ff_count (0xFF + carry))
      e' ← get
      put (record e' { ff_count = 0; cache = u8 (e.low >>> 24) }))
      e

unfoldable pub shift_low : M RangeEncoder (Unit {0})
unfolding release
shift_low e =
    (do
      if not (e.low >>> 24 == 0xFF)
          then release
          else put (record e { ff_count = u32 (e.ff_count + 1) })
      e' ← get
      put (record e' { low = bit_and e'.low 0x00FF_FFFF <<< 8 }))
      e

unfoldable pub member_position : RangeEncoder → ℕ
member_position e = u64 (e.out.partial_member_pos + e.out.pos + e.ff_count)

-- A refused dictionary size leaves the header as it is: the answer is not looked at.
unfoldable pub reset : ℕ → M RangeEncoder (Unit {0})
reset dictionary_size = do
  e ← get
  put (record e {
    low = 0;
    out = record (e.out) { partial_member_pos = 0; pos = 0 };
    range = 0xFFFF_FFFF;
    ff_count = 0;
    cache = 0;
    header = elim (set_dictionary_size dictionary_size e.header) [ some h ↦ h | none ↦ e.header ];
  })
  e' ← get
  on_output (Output.put_bytes (take header_size e'.header))

-- The members before Range_encoder( dictionary_size, ofd ) calls `reset`; the memory that `new`
-- brings and the members not yet set are taken as zeros.
unfoldable pub blank : Bool → OutFile → RangeEncoder
blank connected f = record {
  out = record {
    partial_member_pos = 0;
    buffer = replicate Output.buffer_size 0;
    pos = 0;
    connected = connected;
    outfd = f;
  };
  low = 0;
  range = 0;
  ff_count = 0;
  cache = 0;
  header = set_magic (replicate header_size 0);
}

unfoldable pub construct : ℕ → Bool → OutFile → Result (Unit {0} × RangeEncoder)
unfolding reset blank
construct dictionary_size connected f = reset dictionary_size (blank connected f)

-- `for( i = 0; i < n; ++i ) shift_low();`
unfoldable pub shift_lows : ℕ → M RangeEncoder (Unit {0})
unfolding shift_low
shift_lows zero = pure tt
shift_lows (suc n) = shift_low >> shift_lows n

unfoldable pub flush : M RangeEncoder (Unit {0})
unfolding shift_lows
flush = shift_lows 5

-- `if( range <= 0x00FFFFFFU ) { range <<= 8; shift_low(); }`
unfoldable pub renormalize : M RangeEncoder (Unit {0})
unfolding shift_low
renormalize e =
    if leb e.range 0x00FF_FFFF
    then shift_low (record e { range = u32 (e.range <<< 8) })
    else ok (tt, e)

-- One direct bit: the range is halved, and a one takes the upper half.
unfoldable pub put_half : Bool → M RangeEncoder (Unit {0})
put_half b e =
    let range = e.range >>> 1 in
    ok (tt, record e { range = range; low = if b then u64 (e.low + range) else e.low })

-- The loop of `encode` from the mask `1 << ( num_bits - 1 )` down; with no bits it does nothing.
unfoldable pub encode : ℕ → ℕ → M RangeEncoder (Unit {0})
unfolding put_half renormalize
encode symbol zero = pure tt
encode symbol (suc k) = do
  put_half (not (bit_and symbol (2 ^ k) == 0))
  renormalize
  encode symbol k

-- The part of the range for the bit, and the model adapted to it.
unfoldable pub put_bit : BitModel → Bool → M RangeEncoder BitModel
put_bit probability b e =
    let bound = u32 ((e.range >>> bit_model_total_bits) * probability) in
    if b
    then ok (
      adapt true probability,
      record e { low = u64 (e.low + bound); range = sub32 e.range bound },
    )
    else ok (adapt false probability, record e { range = bound })

unfoldable pub encode_bit : BitModel → Bool → M RangeEncoder BitModel
unfolding put_bit renormalize
encode_bit bm b = do m ← put_bit bm b; renormalize; pure m

-- `encode_bit( bm[i], b )`
unfoldable pub encode_bit_at : List BitModel → ℕ → Bool → M RangeEncoder (List BitModel)
unfolding encode_bit
encode_bit_at bm i b = do m ← encode_bit (get_or bm i fresh_model) b; pure (set bm i m)
