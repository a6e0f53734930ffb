-- ===== src/Coder/Emit/Bits.antt =====
-- Coding a bit in the encoder narrows the interval as the specification does.
use lzip_os.Base.{ℕ, ◌+◌, ◌-◌, ◌*◌, ◌/◌, ◌^◌, ◌≤◌, ◌<◌, ◌≡◌, refl, sym, ap, ◌∙◌, subst, arith}
use lzip_os.Base.{Bool, true, false, Bool-cases, inl, inr, leb, if_true, if_false}
use lzip_os.Base.{leb→le, List, u32, u64, sub32, ok, M, Result, ◌>>=◌, ◌>>◌, >>=-ok, pure}
use lzip_os.Lzip.Model.{BitModel, adapt}
use lzip_os.Encoder.Range.{RangeEncoder, shift_low, renormalize, put_bit, put_half, encode_bit}
use lzip_os.Coder.Interval.{
  Interval, IsGood, IsModel, bound, narrow, halve, rescale, scale, narrow-wide, halve-wide,
}
use lzip_os.Coder.Emit.{IsSent, Fits, shift_low-Shifted}

-- The encoder stands at the interval `i`, behind the bytes `pre`.
pub record Emits (pre : List ℕ) (e : RangeEncoder) (i : Interval) : Type 0 where
  pub same_range : e.range ≡ i.range
  pub fits : Fits e (e.low + e.range)
  pub is_sent : IsSent pre e i.low i.digits

-- A call of the encoder that answers `a` and moves to the interval `i`.
pub record Emitted {A : Type 0} (pre : List ℕ) (i : Interval) (a : A)
    (r : Result (A × RangeEncoder)) : Type 0 where
  pub after : RangeEncoder
  pub returns : r ≡ ok (a, after)
  pub emits : Emits pre after i

-- The same digits are sent when only the range changes and `low` goes up by `k`.
raise_low :
    {pre : List ℕ} {e : RangeEncoder} {v n : ℕ} (k low range : ℕ)
    → low ≡ e.low + k
    → IsSent pre e v n
    → IsSent pre (record e { low = low; range = range }) (v + k) n
raise_low k low range eq s small =
    let t = s small in
    record {
      body = t.body;
      sent_body = t.sent_body;
      bytes = t.bytes;
      value_lem = omega (arith, t.value_lem, eq);
      count = t.count;
    }

change_range :
    {pre : List ℕ} {e : RangeEncoder} {v n : ℕ} (range : ℕ)
    → IsSent pre e v n
    → IsSent pre (record e { range = range }) v n
change_range range s small =
    let t = s small in
    record {
      body = t.body;
      sent_body = t.sent_body;
      bytes = t.bytes;
      value_lem = t.value_lem;
      count = t.count;
    }

-- A smaller interval inside fits too.
shrink-Fits :
    {e : RangeEncoder} {top : ℕ} (low range : ℕ)
    → low + range ≤ top
    → 0 < range
    → Fits e top
    → Fits (record e { low = low; range = range }) (low + range)
shrink-Fits low range h pos f = record {
  below = omega arith;
  top_le = omega (arith, f.top_le);
  cache_byte = f.cache_byte;
  cache_full = λ full. omega (arith, f.cache_full full);
  ready = f.ready;
}

module _ (pre : List ℕ) (e : RangeEncoder) (i : Interval) (h : Emits pre e i)
    (pos : 0 < i.range) where
  widened : RangeEncoder
  widened = record e { range = u32 (e.range * 2 ^ 8) }

  widened-Fits : Fits widened (e.low + e.range)
  unfolding widened
  widened-Fits = record {
    below = h.fits.below;
    top_le = h.fits.top_le;
    cache_byte = h.fits.cache_byte;
    cache_full = h.fits.cache_full;
    ready = h.fits.ready;
  }

  rescaled-Emitted : e.range ≤ 0x00FF_FFFF → Emitted pre (rescale i) tt (shift_low widened)
  unfolding widened
  rescaled-Emitted small =
      let s = shift_low-Shifted pre widened (e.low + e.range) widened-Fits in
      let wide : u32 (e.range * 2 ^ 8) ≡ e.range * 256 = omega arith in
      record {
        after = s.after;
        returns = s.returns;
        emits = record {
          same_range = s.same_range ∙ wide ∙ ap (λ (t : ℕ). t * 256) h.same_range;
          fits =
              subst (λ r. Fits s.after (s.after.low + r)) (sym (s.same_range ∙ wide))
                (s.fits e.range (omega arith) (omega (arith, h.same_range)) (omega arith));
          is_sent = s.sent_lem i.low i.digits (change_range (u32 (e.range * 2 ^ 8)) h.is_sent);
        };
      }

  -- `renormalize` adds a digit exactly when the specification does.
  pub renormalize-Emitted : Emitted pre (scale i) tt (renormalize e)
  unfolding renormalize widened
  renormalize-Emitted = elim (Bool-cases (leb e.range 0x00FF_FFFF)) [
    | inl small ↦
        let r = rescaled-Emitted (leb→le _ _ small) in
        subst (λ j. Emitted pre j tt (renormalize e))
          (sym (if_true (rescale i) i (subst (λ x. leb x 0x00FF_FFFF ≡ true) h.same_range small)))
          (record {
            after = r.after;
            returns = if_true _ (ok (tt, e)) small ∙ r.returns;
            emits = r.emits;
          })
    | inr large ↦
        subst (λ j. Emitted pre j tt (renormalize e))
          (sym (if_false (rescale i) i (subst (λ x. leb x 0x00FF_FFFF ≡ false) h.same_range large)))
          (record { after = e; returns = if_false (shift_low widened) _ large; emits = h })
  ]

pub Emitted-then :
    {A C : Type 0} {pre : List ℕ} {i j : Interval} {a : A} {c : C} (m : M RangeEncoder A)
    (k : A → M RangeEncoder C) (e : RangeEncoder) (f : Emitted pre i a (m e))
    → Emitted pre j c (k a f.after)
    → Emitted pre j c ((m >>= k) e)
Emitted-then m k e f g = record {
  after = g.after;
  returns = >>=-ok m k e f.returns ∙ g.returns;
  emits = g.emits;
}

bound-bounds : (r p : ℕ) → IsModel p → 2 ^ 24 ≤ r → r < 2 ^ 32 → (0 < bound r p) × (bound r p < r)
bound-bounds r p h lo hi =
    let more : r / 2048 * 31 ≤ r / 2048 * p = grind arith in
    let less : r / 2048 * p ≤ r / 2048 * 2017 = grind arith in (omega arith, omega arith)

module _ (pre : List ℕ) (p : BitModel) (e : RangeEncoder) (i : Interval) (hp : IsModel p)
    (g : IsGood i) (h : Emits pre e i) where
  part : (0 < bound e.range p) × (bound e.range p < e.range)
  part = bound-bounds e.range p hp (omega arith) (omega arith)

  word : u32 (e.range / 2 ^ 11 * p) ≡ bound e.range p
  word = omega (arith, part)

  same_bound : bound e.range p ≡ bound i.range p
  same_bound = ap (λ r. bound r p) h.same_range

  -- `put_bit` takes the part of the interval for the bit.
  put_bit-Emitted : (b : Bool) → Emitted pre (narrow p b i) (adapt b p) (put_bit p b e)
  unfolding put_bit
  put_bit-Emitted false = record {
    after = record e { range = u32 (e.range / 2 ^ 11 * p) };
    returns = refl;
    emits = record {
      same_range = word ∙ same_bound;
      fits =
          shrink-Fits e.low (u32 (e.range / 2 ^ 11 * p)) (omega (arith, word, part))
            (omega (arith, word, part)) h.fits;
      is_sent = change_range (u32 (e.range / 2 ^ 11 * p)) h.is_sent;
    };
  }
  put_bit-Emitted true = record {
    after = record e { low = up; range = down };
    returns = refl;
    emits = record {
      same_range = omega (arith, down_lem, same_bound);
      fits =
          shrink-Fits up down (omega (arith, up_lem, down_lem, part))
            (omega (arith, down_lem, part)) h.fits;
      is_sent = raise_low (bound i.range p) up down (omega (arith, up_lem, same_bound)) h.is_sent;
    };
  }
    where
      up : ℕ
      up = u64 (e.low + u32 (e.range / 2 ^ 11 * p))

      down : ℕ
      down = sub32 e.range (u32 (e.range / 2 ^ 11 * p))

      up_lem : up ≡ e.low + bound e.range p
      up_lem = omega (arith, word, part, h.fits.top_le)

      down_lem : down ≡ e.range - bound e.range p
      down_lem = omega (arith, word, part)

  put_half-Emitted : (b : Bool) → Emitted pre (halve b i) tt (put_half b e)
  unfolding put_half
  put_half-Emitted false = record {
    after = record e { range = e.range / 2 };
    returns = refl;
    emits = record {
      same_range = ap (λ (r : ℕ). r / 2) h.same_range;
      fits = shrink-Fits e.low (e.range / 2) (omega arith) (omega arith) h.fits;
      is_sent = change_range (e.range / 2) h.is_sent;
    };
  }
  put_half-Emitted true = record {
    after = record e { low = u64 (e.low + e.range / 2); range = e.range / 2 };
    returns = refl;
    emits = record {
      same_range = ap (λ (r : ℕ). r / 2) h.same_range;
      fits =
          shrink-Fits (u64 (e.low + e.range / 2)) (e.range / 2) (omega (arith, up_lem))
            (omega arith) h.fits;
      is_sent =
          raise_low (i.range / 2) (u64 (e.low + e.range / 2)) (e.range / 2) (omega (arith, up_lem))
            h.is_sent;
    };
  }
    where
      up_lem : u64 (e.low + e.range / 2) ≡ e.low + e.range / 2
      up_lem = omega (arith, h.fits.top_le)

  -- When an encoder has sent `pre` and stands at a good interval, and the model is from 31 to 2017,
  -- `encode_bit` succeeds, answers the adapted model, and stands at the part of the interval for the
  -- bit, with one more digit if that part is small.
  pub encode_bit-Emitted :
      (b : Bool) → Emitted pre (scale (narrow p b i)) (adapt b p) (encode_bit p b e)
  unfolding encode_bit
  encode_bit-Emitted b =
      let f = put_bit-Emitted b in
      let r =
        renormalize-Emitted pre f.after (narrow p b i) f.emits
          (omega (arith, (narrow-wide p b i hp g).0)) in
      Emitted-then (put_bit p b) (λ m. renormalize >>= λ _. pure m) e f
        (Emitted-then renormalize (λ _. pure (adapt b p)) f.after r
          (record { after = r.after; returns = refl; emits = r.emits }))

-- One direct bit.
abbrev pub encode_half : Bool → M RangeEncoder (Unit {0})
encode_half b = put_half b >> renormalize

pub encode_half-Emitted :
    (pre : List ℕ) (b : Bool) (e : RangeEncoder) (i : Interval)
    → IsGood i
    → Emits pre e i
    → Emitted pre (scale (halve b i)) tt (encode_half b e)
encode_half-Emitted pre b e i g h =
    let f = put_half-Emitted pre 1024 e i (omega arith) g h b in
    Emitted-then (put_half b) (λ _. renormalize) e f
      (renormalize-Emitted pre f.after (halve b i) f.emits (omega (arith, (halve-wide b i g).0)))
