-- ===== src/Coder/Stream/Flush.antt =====
-- Range_encoder::flush of encoder_base.h: five calls of shift_low send all digits of `low`, and what
-- was sent is a stream of the interval.
use lzip_os.Base.{ℕ, zero, suc, ◌+◌, ◌*◌, ◌%◌, ◌^◌, ◌<◌, ◌≡◌, refl, sym, ap, ◌∙◌, subst, arith}
use lzip_os.Base.{List, ◌++◌, length, take, take-length-append, length-append, IsByte, All}
use lzip_os.Base.{ok, Result, >>=-ok}
use lzip_os.Encoder.Output.Sent.{sent}
use lzip_os.Encoder.Range.{RangeEncoder, shift_low, shift_lows, flush}
use lzip_os.Coder.Interval.{Interval, IsGood, number, Within}
use lzip_os.Coder.Emit.{IsSent, Fits, shift_low-Shifted, fill, fill-suc}
use lzip_os.Coder.Emit.Bits.{Emits}

-- The low end after `n` more digits.
abbrev pub shifted_low : ℕ → ℕ → ℕ
shifted_low zero low = low
shifted_low (suc n) low = shifted_low n (low % 2 ^ 24 * 256)

abbrev pub scaled : ℕ → ℕ → ℕ
scaled zero v = v
scaled (suc n) v = scaled n (v * 256)

record Lowered (pre : List ℕ) (n : ℕ) (e : RangeEncoder) (v digits : ℕ)
    (r : Result (Unit {0} × RangeEncoder)) : Type 0 where
  after : RangeEncoder
  returns : r ≡ ok (tt, after)
  low_lem : after.low ≡ shifted_low n e.low
  cache_byte : after.cache < 256
  is_sent : IsSent pre after (scaled n v) (digits + n)

shift_lows-Lowered :
    (pre : List ℕ) (n : ℕ) (e : RangeEncoder) (v digits : ℕ)
    → Fits e (e.low + 1)
    → IsSent pre e v digits
    → Lowered pre n e v digits (shift_lows n e)
unfolding shift_lows
shift_lows-Lowered pre zero e v digits f s = record {
  after = e;
  returns = refl;
  low_lem = refl;
  cache_byte = f.cache_byte;
  is_sent = subst (IsSent pre e v) (omega arith) s;
}
shift_lows-Lowered pre (suc n) e v digits f s =
    let g = shift_low-Shifted pre e (e.low + 1) f in
    let fits = g.fits 1 (omega arith) (omega arith) (omega arith) in
    let r =
      shift_lows-Lowered pre n g.after (v * 256) (digits + 1) (shrink g.after fits)
        (g.sent_lem v digits s) in
    record {
      after = r.after;
      returns = >>=-ok shift_low (λ _. shift_lows n) e g.returns ∙ r.returns;
      low_lem = r.low_lem ∙ ap (shifted_low n) g.low_lem;
      cache_byte = r.cache_byte;
      is_sent = subst (IsSent pre r.after (scaled n (v * 256))) (omega arith) r.is_sent;
    }
  where
    shrink : (e : RangeEncoder) → Fits e (e.low + 1 * 256) → Fits e (e.low + 1)
    shrink e f = record {
      below = omega arith;
      top_le = omega (arith, f.top_le);
      cache_byte = f.cache_byte;
      cache_full = λ full. omega (arith, f.cache_full full);
      ready = f.ready;
    }

-- The stream is out: `body` went out behind `pre`, and any file that starts with it is a stream of
-- the interval.
pub record Flushed (pre : List ℕ) (i : Interval) (r : Result (Unit {0} × RangeEncoder))
    : Type 0 where
  pub after : RangeEncoder
  pub body : List ℕ
  pub returns : r ≡ ok (tt, after)
  pub sent_body : sent after.out ≡ pre ++ body
  pub bytes : All IsByte body
  pub count : length body ≡ i.digits
  pub value_lem : number body ≡ i.low

fill-end : (acc n : ℕ) → fill acc (suc n) % 256 ≡ 255
fill-end acc n = omega (arith, fill-suc n acc)

-- After five digits more, no byte is held back: `low` is zero, and digits 0xFF that waited would be
-- digits of a number that has only zeros there.
all_out :
    (acc ff cache v : ℕ)
    → fill (acc * 256 + cache) ff * 2 ^ 32 ≡ scaled 5 v
    → cache < 256
    → (ff ≡ 0) × (acc ≡ v)
all_out acc zero cache v e c = omega arith
all_out acc (suc ff) cache v e c = absurd (omega (arith, e, fill-end (acc * 256 + cache) ff))

low_out : (low : ℕ) → shifted_low 5 low ≡ 0
low_out low = omega arith

pub flush-Flushed :
    (pre : List ℕ) (e : RangeEncoder) (i : Interval)
    → IsGood i
    → Emits pre e i
    → i.digits + 5 < 2 ^ 32
    → Flushed pre i (flush e)
unfolding flush
flush-Flushed pre e i g h few =
    let r = shift_lows-Lowered pre 5 e i.low i.digits shrunk h.is_sent in
    let t = r.is_sent few in
    let low_lem : r.after.low ≡ 0 = r.low_lem ∙ low_out e.low in
    let out =
      all_out (number t.body) r.after.ff_count r.after.cache i.low
        (omega (arith, t.value_lem, low_lem)) r.cache_byte in
    record {
      after = r.after;
      body = t.body;
      returns = r.returns;
      sent_body = t.sent_body;
      bytes = t.bytes;
      count = omega (arith, t.count, out.0);
      value_lem = out.1;
    }
  where
    shrunk : Fits e (e.low + 1)
    shrunk = record {
      below = omega arith;
      top_le = omega (arith, h.fits.top_le, h.same_range);
      cache_byte = h.fits.cache_byte;
      cache_full = λ full. omega (arith, h.fits.cache_full full, h.same_range);
      ready = h.fits.ready;
    }

-- A file that begins with what was flushed goes into the interval, whatever follows.
pub Flushed-Within :
    {pre : List ℕ} {i : Interval} {r : Result (Unit {0} × RangeEncoder)} (f : Flushed pre i r)
    (more : List ℕ)
    → IsGood i
    → Within (f.body ++ more) i
Flushed-Within {pre} {i} f more g =
    let whole : take i.digits (f.body ++ more) ≡ f.body =
      ap (λ n. take n (f.body ++ more)) (sym f.count) ∙ take-length-append f.body more in
    let value : number (take i.digits (f.body ++ more)) ≡ i.low = ap number whole ∙ f.value_lem in
    record {
      above = omega (arith, value);
      below = omega (arith, value);
      long = omega (arith, f.count, length-append f.body more);
    }
