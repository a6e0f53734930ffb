-- ===== src/Coder/Follow.antt =====
-- The decoder follows the interval: its `code` is how far the number of the stream lies above the
-- low end.
use lzip_os.Base.{leb_of, leb-false_of, ltb-false_of}
use lzip_os.Base.{
  ℕ, suc, ◌+◌, ◌-◌, ◌*◌, ◌/◌, ◌%◌, ◌^◌, ◌≤◌, ◌<◌, ◌≡◌, refl, sym, ap, ◌∙◌, subst, arith, lt→ltb,
}
use lzip_os.Base.{Bool, true, false, Bool-cases, leb, if_true, if_false, leb→le, inl, inr}
use lzip_os.Base.{
  List, ◌∷◌, length, take, drop, get_or, drop-cons, IsByte, All, u32, sub32, bit_or, bit_and,
}
use lzip_os.Base.{ok, err, M, Result, ◌>>=◌, ◌>>◌, >>=-ok}
use lzip_os.Base.Or.{bit_or_fields}
use lzip_os.Base.Bits.{bit_and-zero, bit_and_mask}
use lzip_os.Lzip.Model.{BitModel, adapt}
use lzip_os.Decoder.Input
use lzip_os.Decoder.Input.{Input}
use lzip_os.Decoder.Input.Unread.{IsValid, remaining, get_byte-Got}
use lzip_os.Decoder.Range.{
  RangeDecoder, on_input, get_byte, shift_in, normalize, take_half, take_bit, decode_bit,
}
use lzip_os.Coder.Interval.{
  Interval, IsGood, IsModel, bound, narrow, halve, rescale, scale, number, Within, byte_in,
  number-next,
}
use lzip_os.Coder.Interval.{Within-narrow, Within-halve, narrow-wide, halve-wide}

-- The decoder stands at the interval `i` of the stream `B`.
pub record InSync (B : List ℕ) (i : Interval) (d : RangeDecoder) : Type 0 where
  pub valid : IsValid d.input
  pub rest : remaining d.input ≡ drop i.digits B
  pub code_lem : d.code + i.low ≡ number (take i.digits B)
  pub same_range : d.range ≡ i.range

-- The same, but for a digit that the decoder has still to take in.
pub record Tracks (B : List ℕ) (i : Interval) (d : RangeDecoder) : Type 0 where
  pub base : Interval
  pub sync : InSync B base d
  pub wide : (2 ^ 16 ≤ base.range) × (base.range < 2 ^ 32)
  pub ahead : scale base ≡ i

-- A call of the decoder that answers `x` and follows to the interval `i`.
pub record Followed {X : Type 0} (P : RangeDecoder → Type 0) (x : X) (r : Result (X × RangeDecoder))
    : Type 0 where
  pub after : RangeDecoder
  pub returns : r ≡ ok (x, after)
  pub holds : P after

pub Followed-then :
    {X Y : Type 0} {P Q : RangeDecoder → Type 0} {x : X} {y : Y} (m : M RangeDecoder X)
    (k : X → M RangeDecoder Y) (d : RangeDecoder) (f : Followed P x (m d))
    → Followed Q y (k x f.after)
    → Followed Q y ((m >>= k) d)
Followed-then m k d f g = record {
  after = g.after;
  returns = >>=-ok m k d f.returns ∙ g.returns;
  holds = g.holds;
}

pub on_input-ok :
    {A : Type 0} (m : M Input A) (d : RangeDecoder) {a : A} {i : Input}
    → m d.input ≡ ok (a, i)
    → on_input m d ≡ ok (a, record d { input = i })
on_input-ok {A} m d h =
    ap
      (λ (r : Result (A × Input)). elim r as (λ _. Result (A × RangeDecoder)) [
        | ok (a, i) ↦ ok (a, record d { input = i })
        | err x ↦ err x
      ])
      h

-- `shift_in` brings the next byte behind the digits of `code`.
pub record ShiftedIn (d : RangeDecoder) (b : ℕ) (rest : List ℕ)
    (r : Result (Unit {0} × RangeDecoder)) : Type 0 where
  pub input : Input
  pub returns : r ≡ ok (tt, record d { input = input; code = d.code * 256 + b })
  pub valid : IsValid input
  pub left : remaining input ≡ rest

pub shift_in-ShiftedIn :
    (d : RangeDecoder) (b : ℕ) (rest : List ℕ)
    → IsValid d.input
    → remaining d.input ≡ b ∷ rest
    → b < 256
    → d.code < 2 ^ 24
    → ShiftedIn d b rest (shift_in d)
unfolding shift_in get_byte
shift_in-ShiftedIn d b rest v e hb hc =
    let g = get_byte-Got d.input b rest v e in
    record {
      input = g.after;
      returns =
          >>=-ok (on_input Input.get_byte)
            (λ c d'. ok (tt, record d' { code = bit_or (u32 (d'.code * 2 ^ 8)) c })) d
            (on_input-ok Input.get_byte d g.returns)
          ∙ ap (λ c. ok (tt, record d { input = g.after; code = c })) shifted;
      valid = g.valid;
      left = g.left;
    }
  where
    shifted : bit_or (u32 (d.code * 2 ^ 8)) b ≡ d.code * 256 + b
    shifted = ap (λ c. bit_or c b) (omega arith) ∙ bit_or_fields 8 d.code b hb

module _ (B : List ℕ) (bytes : All IsByte B) where
  -- The digit of `rescale` taken in.
  rescale_lem :
      (i : Interval) (d : RangeDecoder)
      → InSync B i d
      → i.range ≤ 0x00FF_FFFF
      → Within B (rescale i)
      → Followed (InSync B (rescale i)) tt (shift_in (record d { range = u32 (d.range * 2 ^ 8) }))
  rescale_lem i d s small w =
      let b = get_or B i.digits 0 in
      let next = number-next B i.digits (omega (arith, w.long)) in
      let digit = byte_in B i.digits bytes in
      let g =
        shift_in-ShiftedIn (record d { range = u32 (d.range * 2 ^ 8) }) b (drop (i.digits + 1) B)
          s.valid (s.rest ∙ drop_lem i.digits (omega (arith, w.long))) digit
          (omega (arith, w.below, w.above, s.code_lem, next, digit)) in
      record {
        after = record { input = g.input; code = d.code * 256 + b; range = u32 (d.range * 2 ^ 8) };
        returns = g.returns;
        holds = record {
          valid = g.valid;
          rest = g.left;
          code_lem = omega (arith, s.code_lem, next);
          same_range = omega (arith, s.same_range);
        };
      }
    where
      suc_lem : (k : ℕ) → suc k ≡ k + 1
      suc_lem k = omega arith

      drop_lem : (n : ℕ) → n < length B → drop n B ≡ get_or B n 0 ∷ drop (n + 1) B
      drop_lem n h = drop-cons B n 0 h ∙ ap (λ k. get_or B n 0 ∷ drop k B) (suc_lem n)

  -- `normalize` brings the decoder level with the encoder.
  pub normalize-InSync :
      (i : Interval) (d : RangeDecoder)
      → Tracks B i d
      → Within B i
      → Followed (InSync B i) tt (normalize d)
  unfolding normalize
  normalize-InSync i d t w = elim (Bool-cases (leb d.range 0x00FF_FFFF)) [
    | inl small ↦
        let here = ap (λ r. leb r 0x00FF_FFFF) (sym t.sync.same_range) ∙ small in
        let to = sym (if_true (rescale t.base) t.base here) ∙ t.ahead in
        subst (λ j. Followed (InSync B j) tt (normalize d)) to
          (subst (Followed (InSync B (rescale t.base)) tt) (sym (if_true _ _ small))
            (rescale_lem t.base d t.sync (leb→le _ _ here) (subst (Within B) (sym to) w)))
    | inr large ↦
        let here = ap (λ r. leb r 0x00FF_FFFF) (sym t.sync.same_range) ∙ large in
        let to = sym (if_false (rescale t.base) t.base here) ∙ t.ahead in
        subst (λ j. Followed (InSync B j) tt (normalize d)) to
          (record { after = d; returns = if_false _ _ large; holds = t.sync })
  ]

  bound_lem :
      (p : BitModel) (i : Interval) (d : RangeDecoder)
      → IsModel p
      → IsGood i
      → InSync B i d
      → (d.range / 2048 * p % 4294967296 ≡ bound i.range p) × (bound i.range p ≤ i.range)
  bound_lem p i d hp good s =
      let step : i.range / 2048 * p ≤ i.range / 2048 * 2017 = grind arith in
      let same = ap (λ r. r / 2048 * p) s.same_range in
      (omega (arith, step, same), omega (arith, step))

  -- The bit that `take_bit` reads is the one that narrowed the interval.
  pub take_bit-Tracks :
      (p : BitModel) (b : Bool) (i : Interval) (d : RangeDecoder)
      → IsModel p
      → IsGood i
      → InSync B i d
      → Within B (narrow p b i)
      → Followed (Tracks B (scale (narrow p b i))) (b, adapt b p) (take_bit p d)
  unfolding take_bit
  take_bit-Tracks p false i d hp good s w =
      let k = bound_lem p i d hp good s in
      record {
        after = record d { range = d.range / 2048 * p % 4294967296 };
        returns = if_true _ _ (
            lt→ltb d.code (d.range / 2048 * p % 4294967296)
              (omega (arith, k.0, s.code_lem, w.below)));
        holds = record {
          base = narrow p false i;
          sync = record { valid = s.valid; rest = s.rest; code_lem = s.code_lem; same_range = k.0 };
          wide = narrow-wide p false i hp good;
          ahead = refl;
        };
      }
  take_bit-Tracks p true i d hp good s w =
      let k = bound_lem p i d hp good s in
      record {
        after = record d {
          code = sub32 d.code (d.range / 2048 * p % 4294967296);
          range = sub32 d.range (d.range / 2048 * p % 4294967296);
        };
        returns = if_false _ _ (
            ltb-false_of d.code (d.range / 2048 * p % 4294967296)
              (omega (arith, k.0, s.code_lem, w.above)));
        holds = record {
          base = narrow p true i;
          sync = record {
            valid = s.valid;
            rest = s.rest;
            code_lem = omega (arith, k, s.code_lem, w.above, w.below);
            same_range = omega (arith, k, s.same_range);
          };
          wide = narrow-wide p true i hp good;
          ahead = refl;
        };
      }

  -- When a decoder follows a stream of bytes to a good interval, up to a digit that it has still to
  -- take in, the model is from 31 to 2017, and the stream goes on into the part of the interval for the
  -- bit `b`, `decode_bit` succeeds, answers `b` and the adapted model, and follows to that part.
  pub decode_bit-Tracks :
      (p : BitModel) (b : Bool) (i : Interval) (d : RangeDecoder)
      → IsModel p
      → IsGood i
      → Tracks B i d
      → Within B (narrow p b i)
      → Followed (Tracks B (scale (narrow p b i))) (b, adapt b p) (decode_bit p d)
  unfolding decode_bit
  decode_bit-Tracks p b i d hp good t w =
      let f = normalize-InSync i d t (Within-narrow B p b i hp w) in
      Followed-then normalize (λ u. take_bit p) d f
        (take_bit-Tracks p b i f.after hp good f.holds w)

  -- The same for a direct bit.
  take_half-Tracks :
      (b : Bool) (i : Interval) (d : RangeDecoder)
      → IsGood i
      → InSync B i d
      → Within B (halve b i)
      → Followed (Tracks B (scale (halve b i))) b (take_half d)
  unfolding take_half
  take_half-Tracks false i d good s w =
      let b_lem =
        leb-false_of (d.range / 2) d.code (omega (arith, s.code_lem, s.same_range, w.below)) in
      let masked = bit_and-zero (d.range / 2) in
      let code_lem : sub32 d.code (bit_and (d.range / 2) 0) ≡ d.code =
        omega (arith, masked, s.code_lem, w.below, w.above, good) in
      record {
        after = record d { range = d.range / 2; code = sub32 d.code (bit_and (d.range / 2) 0) };
        returns = rw b_lem refl;
        holds = record {
          base = halve false i;
          sync = record {
            valid = s.valid;
            rest = s.rest;
            code_lem = omega (arith, code_lem, s.code_lem);
            same_range = omega (arith, s.same_range);
          };
          wide = halve-wide false i good;
          ahead = refl;
        };
      }
  take_half-Tracks true i d good s w =
      let b_lem = leb_of (d.range / 2) d.code (omega (arith, s.code_lem, s.same_range, w.above)) in
      let masked = bit_and_mask 32 (d.range / 2) in
      let code_lem : sub32 d.code (bit_and (d.range / 2) 4294967295) ≡ d.code - d.range / 2 =
        omega (arith, masked, s.code_lem, s.same_range, w.below, w.above, good) in
      record {
        after = record d {
          range = d.range / 2;
          code = sub32 d.code (bit_and (d.range / 2) 4294967295);
        };
        returns = rw b_lem refl;
        holds = record {
          base = halve true i;
          sync = record {
            valid = s.valid;
            rest = s.rest;
            code_lem = omega (arith, code_lem, s.code_lem, s.same_range, w.above);
            same_range = omega (arith, s.same_range);
          };
          wide = halve-wide true i good;
          ahead = refl;
        };
      }

  pub decode_half-Tracks :
      (b : Bool) (i : Interval) (d : RangeDecoder)
      → IsGood i
      → Tracks B i d
      → Within B (halve b i)
      → Followed (Tracks B (scale (halve b i))) b ((normalize >> take_half) d)
  decode_half-Tracks b i d good t w =
      let f = normalize-InSync i d t (Within-halve B b i w) in
      Followed-then normalize (λ u. take_half) d f (take_half-Tracks b i f.after good f.holds w)
