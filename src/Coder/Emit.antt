-- ===== src/Coder/Emit.antt =====
-- The encoder keeps the interval: what it has sent, with the digits that it holds back in `cache`,
-- `ff_count` and `low`, is the low end.
pub mod Bits
use lzip_os.Base.{
  ℕ, zero, suc, ◌+◌, ◌-◌, ◌*◌, ◌/◌, ◌%◌, ◌^◌, ◌≤◌, ◌<◌, ◌≡◌, refl, sym, ap, ◌∙◌, subst, arith,
}
use lzip_os.Base.{
  Bool, true, false, not, Bool-cases, ◌⊎◌, inl, inr, ◌≢◌, ltb, leb, ◌==◌, ==_iff, bit,
  if◌then◌else◌, if_true, if_false,
}
use lzip_os.Base.{
  leb→le, leb-false, ltb→lt, List, [], ◌∷◌, ◌++◌, length, replicate, length-append,
  length-replicate, IsByte, All,
}
use lzip_os.Base.{u8, u32, u64, sub32, ok, err, M, Result, ◌>>=◌, ◌>>◌, >>=-ok, get, put, bit_and}
use lzip_os.Base.Bits.{bit_and_mask}
use mathlib.Core.List.{append_assoc}
use lzip_os.Lzip.Model.{BitModel, adapt}
use lzip_os.Encoder.Output
use lzip_os.Encoder.Output.{Output}
use lzip_os.Encoder.Output.Sent.{sent, IsReady, HasPut, put_byte-HasPut, put_run-HasPut}
use lzip_os.Encoder.Range.{
  RangeEncoder, on_output, put_byte, release, shift_low, renormalize, put_bit, put_half, encode_bit,
}
use lzip_os.Coder.Interval.{
  Interval, IsGood, IsModel, bound, narrow, halve, rescale, scale, number, number_from,
  number_from-append,
}
use lzip_os.Coder.Interval.{narrow-wide, halve-wide}

-- `acc` with `n` digits 255, which a carry turns into zeros.
abbrev pub fill : ℕ → ℕ → ℕ
fill acc n = number_from acc (replicate n 255)

pub fill-suc : (n acc : ℕ) → fill acc (suc n) ≡ fill acc n * 256 + 255
fill-suc zero acc = refl
fill-suc (suc n) acc = fill-suc n (acc * 256 + 255)

fill_carry : (n acc : ℕ) → number_from (acc + 1) (replicate n 0) ≡ fill acc n + 1
fill_carry zero acc = refl
fill_carry (suc n) acc =
    ap (λ a. number_from a (replicate n 0)) (omega arith) ∙ fill_carry n (acc * 256 + 255)

-- What was sent after `pre`, and the digits held back: the number `value` of `digits` digits.
pub record Sent (pre : List ℕ) (e : RangeEncoder) (value digits : ℕ) : Type 0 where
  pub body : List ℕ
  pub sent_body : sent e.out ≡ pre ++ body
  pub bytes : All IsByte body
  pub value_lem : fill (number body * 256 + e.cache) e.ff_count * 2 ^ 32 + e.low ≡ value
  pub count : length body + e.ff_count + 5 ≡ digits

-- The digits are counted in an unsigned, which is enough up to 2 ^ 32 of them.
abbrev pub IsSent : List ℕ → RangeEncoder → ℕ → ℕ → Type 0
IsSent pre e value digits = digits < 2 ^ 32 → Sent pre e value digits

-- `top` is the end of the interval relative to the digits already held back: no carry goes further
-- than the cached byte.
pub record Fits (e : RangeEncoder) (top : ℕ) : Type 0 where
  pub below : e.low < top
  pub top_le : top ≤ 2 ^ 33
  pub cache_byte : e.cache < 256
  pub cache_full : e.cache ≡ 255 → top ≤ 2 ^ 32
  pub ready : IsReady e.out

pub on_output-ok :
    {A : Type 0} (m : M Output A) (e : RangeEncoder) {a : A} {o : Output}
    → m e.out ≡ ok (a, o)
    → on_output m e ≡ ok (a, record e { out = o })
on_output-ok {A} m e h =
    ap
      (λ (r : Result (A × Output)). elim r as (λ _. Result (A × RangeEncoder)) [
        | ok (a, o) ↦ ok (a, record e { out = o })
        | err x ↦ err x
      ])
      h

-- A call of `shift_low` went well: one digit more.
pub record Shifted (pre : List ℕ) (e : RangeEncoder) (top : ℕ)
    (r : Result (Unit {0} × RangeEncoder)) : Type 0 where
  pub after : RangeEncoder
  pub returns : r ≡ ok (tt, after)
  pub same_range : after.range ≡ e.range
  pub low_lem : after.low ≡ e.low % 2 ^ 24 * 256
  pub fits :
      (rest : ℕ)
      → e.low + rest ≤ top
      → 0 < rest
      → rest < 2 ^ 24
      → Fits after (after.low + rest * 256)
  pub sent_lem :
      (value digits : ℕ) → IsSent pre e value digits → IsSent pre after (value * 256) (digits + 1)

-- The bytes that `release` puts.
abbrev released : RangeEncoder → List ℕ
released e =
    let carry = bit (ltb 0xFFFF_FFFF e.low) in
    u8 (e.cache + carry) ∷ replicate e.ff_count (u8 (0xFF + carry))

-- The encoder after `release`, with the output `o`.
abbrev freed : RangeEncoder → Output → RangeEncoder
freed e o = record e { out = o; ff_count = 0; cache = u8 (e.low / 2 ^ 24) }

record Released (e : RangeEncoder) : Type 0 where
  out : Output
  returns : release e ≡ ok (tt, freed e out)
  ready : IsReady out
  now_sent : sent out ≡ sent e.out ++ released e

release-Released : (e : RangeEncoder) → IsReady e.out → Released e
unfolding release put_byte
release-Released e v =
    let c = bit (ltb 0xFFFF_FFFF e.low) in
    let f = put_byte-HasPut (e.cache + c) e.out v in
    let g = put_run-HasPut e.ff_count (0xFF + c) f.after f.ready in
    record {
      out = g.after;
      returns =
          >>=-ok (put_byte (e.cache + c))
            (λ _. on_output (Output.put_run e.ff_count (0xFF + c)) >>= last) e
            (on_output-ok (Output.put_byte (e.cache + c)) e f.returns)
          ∙ >>=-ok (on_output (Output.put_run e.ff_count (0xFF + c))) last
              (record e { out = f.after })
              (on_output-ok (Output.put_run e.ff_count (0xFF + c)) (record e { out = f.after })
                g.returns);
      ready = g.ready;
      now_sent =
          g.now_sent
          ∙ ap (λ s. s ++ replicate e.ff_count (u8 (0xFF + c))) f.now_sent
          ∙ append_assoc (sent e.out) (u8 (e.cache + c) ∷ [])
              (replicate e.ff_count (u8 (0xFF + c)));
    }
  where
    last : Unit {0} → M RangeEncoder (Unit {0})
    last _ e' = ok (tt, record e' { ff_count = 0; cache = u8 (e.low / 2 ^ 24) })

-- The number of the bytes that `release` puts, behind those of `body`.
number-released :
    (e : RangeEncoder) (body : List ℕ) (top : ℕ)
    → Fits e top
    → number (body ++ released e) ≡ fill (number body * 256 + e.cache) e.ff_count + e.low / 2 ^ 32
number-released e body top f = elim (Bool-cases (ltb 0xFFFF_FFFF e.low)) [
  | inl carry ↦ rw carry (
      number_from-append 0 body (u8 (e.cache + 1) ∷ replicate e.ff_count 0)
      ∙ ap (λ a. number_from a (replicate e.ff_count 0)) (carried carry)
      ∙ fill_carry e.ff_count (number body * 256 + e.cache)
      ∙ ap (λ c. fill (number body * 256 + e.cache) e.ff_count + c) (one carry))
  | inr none ↦ rw none (
      number_from-append 0 body (u8 (e.cache + 0) ∷ replicate e.ff_count 255)
      ∙ ap (λ a. number_from a (replicate e.ff_count 255)) kept
      ∙ nothing none (fill (number body * 256 + e.cache) e.ff_count))
]
  where
    carried :
        ltb 0xFFFF_FFFF e.low ≡ true
        → number body * 256 + u8 (e.cache + 1) ≡ number body * 256 + e.cache + 1
    carried carry =
        let high : 2 ^ 32 ≤ e.low = omega (arith, ltb→lt _ _ carry) in
        let not_full : e.cache ≢ 255 = λ p. omega (arith, f.below, f.cache_full p) in
        omega (arith, f.cache_byte)

    one : ltb 0xFFFF_FFFF e.low ≡ true → 1 ≡ e.low / 2 ^ 32
    one carry = omega (arith, ltb→lt _ _ carry, f.below, f.top_le)

    kept : number body * 256 + u8 (e.cache + 0) ≡ number body * 256 + e.cache
    kept = omega (arith, f.cache_byte)

    nothing : ltb 0xFFFF_FFFF e.low ≡ false → (n : ℕ) → n ≡ n + e.low / 2 ^ 32
    nothing none n = ground arith

All-replicate : (n b : ℕ) → b < 256 → All IsByte (replicate n b)
All-replicate zero b h = tt
All-replicate (suc n) b h = (h, All-replicate n b h)

All-append : (xs ys : List ℕ) → All IsByte xs → All IsByte ys → All IsByte (xs ++ ys)
All-append [] ys h k = k
All-append (x ∷ xs) ys h k = (h.0, All-append xs ys h.1 k)

released-bytes : (e : RangeEncoder) → All IsByte (released e)
released-bytes e = (omega arith, All-replicate e.ff_count _ (omega arith))

-- What `shift_low` does last.
abbrev drop_digit : Unit {0} → M RangeEncoder (Unit {0})
drop_digit _ e' = ok (tt, record e' { low = bit_and e'.low 0x00FF_FFFF * 2 ^ 8 })

-- The top digit of `low` is 0xFF: it is counted, and waits.
module _ (pre : List ℕ) (e : RangeEncoder) (top : ℕ) (f : Fits e top)
    (is_ff : e.low / 2 ^ 24 ≡ 0xFF) where
  held : RangeEncoder
  held = record e { ff_count = u32 (e.ff_count + 1); low = bit_and e.low 0x00FF_FFFF * 2 ^ 8 }

  held_low : bit_and e.low 0x00FF_FFFF * 2 ^ 8 ≡ e.low % 2 ^ 24 * 256
  held_low = ap (λ (t : ℕ). t * 2 ^ 8) (bit_and_mask 24 e.low)

  held-Sent :
      (value digits : ℕ) → IsSent pre e value digits → IsSent pre held (value * 256) (digits + 1)
  unfolding held
  held-Sent value digits s small =
      let t = s (omega arith) in
      let no_wrap : u32 (e.ff_count + 1) ≡ suc e.ff_count = omega (arith, t.count) in
      record {
        body = t.body;
        sent_body = t.sent_body;
        bytes = t.bytes;
        value_lem =
            rw (no_wrap, fill-suc e.ff_count (number t.body * 256 + e.cache), held_low)
              (omega (arith, t.value_lem, is_ff));
        count = rw no_wrap (omega (arith, t.count));
      }

  held-Shifted : Shifted pre e top (shift_low e)
  unfolding shift_low held
  held-Shifted = record {
    after = held;
    returns =
        ap (λ (m : M RangeEncoder (Unit {0})). (m >>= drop_digit) e)
          (if_false release (put (record e { ff_count = u32 (e.ff_count + 1) })) (ground arith));
    same_range = refl;
    low_lem = held_low;
    fits = λ rest h p q. record {
      below = omega arith;
      top_le = omega (arith, held_low, f.top_le);
      cache_byte = f.cache_byte;
      cache_full = λ full. omega (arith, held_low, f.cache_full full, is_ff);
      ready = f.ready;
    };
    sent_lem = held-Sent;
  }

-- The top digit is settled: what waited goes out.
module _ (pre : List ℕ) (e : RangeEncoder) (top : ℕ) (f : Fits e top)
    (not_ff : e.low / 2 ^ 24 ≢ 0xFF) where
  settled : RangeEncoder
  settled = record (freed e (release-Released e f.ready).out) {
    low = bit_and e.low 0x00FF_FFFF * 2 ^ 8;
  }

  settled-Sent :
      (value digits : ℕ) → IsSent pre e value digits → IsSent pre settled (value * 256) (digits + 1)
  unfolding settled
  settled-Sent value digits s small =
      let t = s (omega arith) in
      record {
        body = t.body ++ released e;
        sent_body =
            (release-Released e f.ready).now_sent
            ∙ ap (λ b. b ++ released e) t.sent_body
            ∙ append_assoc pre t.body (released e);
        bytes = All-append t.body (released e) t.bytes (released-bytes e);
        value_lem =
            rw (number-released e t.body top f, bit_and_mask 24 e.low)
              (omega (arith, t.value_lem, f.below, f.top_le));
        count = omega (
          arith,
          t.count,
          length-append t.body (released e),
          length-replicate e.ff_count (u8 (0xFF + bit (ltb 0xFFFF_FFFF e.low))),
        );
      }

  settled-Shifted : Shifted pre e top (shift_low e)
  unfolding shift_low settled
  settled-Shifted = record {
    after = settled;
    returns =
        ap (λ (m : M RangeEncoder (Unit {0})). (m >>= drop_digit) e)
          (if_true release (put (record e { ff_count = u32 (e.ff_count + 1) })) (ground arith))
        ∙ >>=-ok release drop_digit e (release-Released e f.ready).returns;
    same_range = refl;
    low_lem = ap (λ (t : ℕ). t * 2 ^ 8) (bit_and_mask 24 e.low);
    fits = λ rest h p q. record {
      below = omega arith;
      top_le = omega (arith, bit_and_mask 24 e.low, f.top_le);
      cache_byte = omega arith;
      cache_full = λ full. omega (arith, bit_and_mask 24 e.low, f.top_le);
      ready = (release-Released e f.ready).ready;
    };
    sent_lem = settled-Sent;
  }

-- One call of `shift_low` moves the top digit of `low` out.
pub shift_low-Shifted :
    (pre : List ℕ) (e : RangeEncoder) (top : ℕ) → Fits e top → Shifted pre e top (shift_low e)
shift_low-Shifted pre e top f = elim (Bool-cases (e.low / 2 ^ 24 == 0xFF)) [
  | inl is_ff ↦ held-Shifted pre e top f ((==_iff _ 0xFF).0 is_ff)
  | inr not_ff ↦ settled-Shifted pre e top f (λ p. ground arith)
]
