-- ===== src/Coder/Codes.antt =====
-- Computations of Range_encoder and of Range_decoder that belong together: the decoder's one reads what
-- the encoder's one codes. The rules build such pairs the way the two sides are written.
pub mod Tree
pub mod Length
pub mod Masks
pub mod Matched
pub mod Reversed
pub mod Direct
pub mod File
pub mod ReadBack
use lzip_os.Base.{
  ℕ, ◌+◌, ◌*◌, ◌^◌, ◌≤◌, ◌<◌, ◌≡◌, refl, ◌∙◌, arith, Bool, List, [], ◌∷◌, get_or, set, IsByte, All,
}
use lzip_os.Base.{bit, bit_or, u32, ◌<<<◌, M, Result, ok, err, ◌>>=◌, ◌>>◌, pure}
use lzip_os.Lzip.Model.{BitModel, fresh_model, adapt}
use lzip_os.Encoder.Range.{RangeEncoder, encode_bit, encode_bit_at}
use lzip_os.Decoder.Range.{
  RangeDecoder, normalize, take_half, take_bit, decode_bit, decode_bit_at, decode_symbol_bit,
}
use lzip_os.Coder.Interval.{
  Interval, IsGood, IsModel, narrow, halve, scale, Within, Within-scale, Within-narrow,
  Within-halve, narrow-wide, halve-wide, scale-IsGood,
}
use lzip_os.Coder.Emit.Bits.{
  Emits, Emitted, Emitted-then, encode_bit-Emitted, encode_half, encode_half-Emitted,
}
use lzip_os.Coder.Stream.{Kind}
use lzip_os.Coder.Stream.RoundTrip.{scale-digits, part-digits}
use lzip_os.Coder.Follow.{
  Tracks, Followed, Followed-then, normalize-InSync, take_bit-Tracks, decode_bit-Tracks,
  decode_half-Tracks,
}

-- From the interval `i`, `m` codes and answers `x`, `n` decodes and answers `y`, and both end at the
-- same good interval, which has at most `bits` digits more.
pub record Meets {X Y : Type 0} (bits : ℕ) (i : Interval) (m : M RangeEncoder X) (x : X)
    (n : M RangeDecoder Y) (y : Y) : Type 0 where
  pub next : Interval
  pub good : IsGood next
  pub few : next.digits ≤ i.digits + bits
  pub nested : (B : List ℕ) → All IsByte B → Within B next → Within B i
  pub encodes : (pre : List ℕ) (e : RangeEncoder) → Emits pre e i → Emitted pre next x (m e)
  pub decodes :
      (B : List ℕ)
      → All IsByte B
      → (d : RangeDecoder) → Tracks B i d
      → Within B next
      → Followed (Tracks B next) y (n d)

abbrev pub Codes : {X Y : Type 0} → ℕ → M RangeEncoder X → X → M RangeDecoder Y → Y → Type 0
Codes bits m x n y = (i : Interval) → IsGood i → Meets bits i m x n y

pub pure-Codes : {X Y : Type 0} (x : X) (y : Y) → Codes 0 (pure x) x (pure y) y
pure-Codes x y i g = record {
  next = i;
  good = g;
  few = omega arith;
  nested = λ B bytes w. w;
  encodes = λ pre e h. record { after = e; returns = refl; emits = h };
  decodes = λ B bytes d t w. record { after = d; returns = refl; holds = t };
}

pub then-Codes :
    {X Y X' Y' : Type 0} {bits more : ℕ} (m : M RangeEncoder X) (n : M RangeDecoder Y) {x : X}
    {y : Y} (k : X → M RangeEncoder X') (l : Y → M RangeDecoder Y') {x' : X'} {y' : Y'}
    → Codes bits m x n y
    → Codes more (k x) x' (l y) y'
    → Codes (bits + more) (m >>= k) x' (n >>= l) y'
then-Codes m n k l f g i good =
    let a = f i good in
    let b = g a.next a.good in
    record {
      next = b.next;
      good = b.good;
      few = omega (arith, a.few, b.few);
      nested = λ B bytes w. a.nested B bytes (b.nested B bytes w);
      encodes = λ pre e h.
          let r = a.encodes pre e h in Emitted-then m k e r (b.encodes pre r.after r.emits);
      decodes = λ B bytes d t w.
          let r = a.decodes B bytes d t (b.nested B bytes w) in
          Followed-then n l d r (b.decodes B bytes r.after r.holds w);
    }

pub more-Codes :
    {X Y : Type 0} {bits : ℕ} (more : ℕ) {m : M RangeEncoder X} {n : M RangeDecoder Y} {x : X}
    {y : Y}
    → bits ≤ more
    → Codes bits m x n y
    → Codes more m x n y
more-Codes more h f i good =
    let a = f i good in
    record {
      next = a.next;
      good = a.good;
      few = omega (arith, a.few);
      nested = a.nested;
      encodes = a.encodes;
      decodes = a.decodes;
    }

pub encode_bit-Codes :
    (p : BitModel) (b : Bool)
    → IsModel p
    → Codes 1 (encode_bit p b) (adapt b p) (decode_bit p) (b, adapt b p)
encode_bit-Codes p b h i good =
    let wide = narrow-wide p b i h good in
    record {
      next = scale (narrow p b i);
      good = scale-IsGood (narrow p b i) wide.0 wide.1;
      few = omega (arith, scale-digits (narrow p b i), part-digits (Kind.modelled 0) b (p ∷ []) i);
      nested = λ B bytes w. Within-narrow B p b i h (Within-scale B (narrow p b i) bytes w);
      encodes = λ pre e s. encode_bit-Emitted pre p e i h good s b;
      decodes = λ B bytes d t w.
          decode_bit-Tracks B bytes p b i d h good t (Within-scale B (narrow p b i) bytes w);
    }

pub encode_half-Codes : (b : Bool) → Codes 1 (encode_half b) tt (normalize >> take_half) b
encode_half-Codes b i good =
    let wide = halve-wide b i good in
    record {
      next = scale (halve b i);
      good = scale-IsGood (halve b i) wide.0 wide.1;
      few = omega (arith, scale-digits (halve b i), part-digits Kind.direct b [] i);
      nested = λ B bytes w. Within-halve B b i (Within-scale B (halve b i) bytes w);
      encodes = λ pre e s. encode_half-Emitted pre b e i good s;
      decodes = λ B bytes d t w.
          decode_half-Tracks B bytes b i d good t (Within-scale B (halve b i) bytes w);
    }

-- A bit with a model of an array.
pub encode_bit_at-Codes :
    (bm : List BitModel) (k : ℕ) (b : Bool)
    → IsModel (get_or bm k fresh_model)
    → let after = set bm k (adapt b (get_or bm k fresh_model)) in
      Codes 1 (encode_bit_at bm k b) after (decode_bit_at bm k) (b, after)
unfolding encode_bit_at decode_bit_at
encode_bit_at-Codes bm k b h =
    let p = get_or bm k fresh_model in
    then-Codes (encode_bit p b) (decode_bit p) (λ m. pure (set bm k m))
      (λ r. pure (r.0, set bm k r.1)) (encode_bit-Codes p b h) (pure-Codes _ _)

-- The decoder alone goes on with a pure function.
pub read-Codes :
    {X Y Y' : Type 0} {bits : ℕ} (m : M RangeEncoder X) (n : M RangeDecoder Y) {x : X} {y : Y}
    (l : Y → M RangeDecoder Y') {y' : Y'}
    → Codes bits m x n y
    → ((d : RangeDecoder) → l y d ≡ ok (y', d))
    → Codes bits m x (n >>= l) y'
read-Codes m n l f same i good =
    let a = f i good in
    record {
      next = a.next;
      good = a.good;
      few = a.few;
      nested = a.nested;
      encodes = a.encodes;
      decodes = λ B bytes d t w.
          let r = a.decodes B bytes d t w in
          Followed-then n l d r
            (record { after = r.after; returns = same r.after; holds = r.holds });
    }

-- Decoders that agree on every state.
pub same-Codes :
    {X Y : Type 0} {bits : ℕ} (m : M RangeEncoder X) {x : X} (n n' : M RangeDecoder Y) {y : Y}
    → ((d : RangeDecoder) → n' d ≡ n d)
    → Codes bits m x n y
    → Codes bits m x n' y
same-Codes m n n' same f i good =
    let a = f i good in
    record {
      next = a.next;
      good = a.good;
      few = a.few;
      nested = a.nested;
      encodes = a.encodes;
      decodes = λ B bytes d t w.
          let r = a.decodes B bytes d t w in
          record { after = r.after; returns = same d ∙ r.returns; holds = r.holds };
    }

-- Encoders that agree on every state.
pub same_encoders :
    {X Y : Type 0} {bits : ℕ} (m m' : M RangeEncoder X) {x : X} (n : M RangeDecoder Y) {y : Y}
    → ((e : RangeEncoder) → m' e ≡ m e)
    → Codes bits m x n y
    → Codes bits m' x n y
same_encoders m m' n same f i good =
    let a = f i good in
    record {
      next = a.next;
      good = a.good;
      few = a.few;
      nested = a.nested;
      encodes = λ pre e h.
          let r = a.encodes pre e h in
          record { after = r.after; returns = same e ∙ r.returns; emits = r.emits };
      decodes = a.decodes;
    }

pub >>=_assoc :
    {S A C D : Type 0} (m : M S A) (k : A → M S C) (l : C → M S D) (s : S)
    → ((m >>= λ a. k a >>= l) s) ≡ (((m >>= k) >>= l) s)
>>=_assoc {S} {A} {C} {D} m k l s = by_result (m s)
  where
    by_result :
        (r : Result (A × S))
        → (elim r as (λ _. Result (D × S)) [ ok (a, s') ↦ (k a >>= l) s' | err e ↦ err e ])
          ≡ (elim (elim r as (λ _. Result (C × S)) [ ok (a, s') ↦ k a s' | err e ↦ err e ])
              as (λ _. Result (D × S)) [ ok (c, s') ↦ l c s' | err e ↦ err e ])
    by_result (ok (a, s')) = refl
    by_result (err e) = refl

-- `decode_symbol_bit` reads a bit and makes it the last one of the symbol.
pub decode_symbol_bit-Codes :
    (bm : List BitModel) (symbol : ℕ) (b : Bool)
    → IsModel (get_or bm symbol fresh_model)
    → let after = set bm symbol (adapt b (get_or bm symbol fresh_model)) in
      Codes 1
        (encode_bit_at bm symbol b)
        after
        (decode_symbol_bit bm symbol)
        (bit_or (u32 (symbol <<< 1)) (bit b), after)
unfolding decode_symbol_bit encode_bit_at decode_bit
decode_symbol_bit-Codes bm symbol b h =
    let p = get_or bm symbol fresh_model in
    same-Codes (encode_bit_at bm symbol b)
      (decode_bit p >>= λ r. pure (bit_or (u32 (symbol <<< 1)) (bit r.0), set bm symbol r.1))
      (decode_symbol_bit bm symbol)
      (>>=_assoc normalize (λ _. take_bit p)
        (λ r. pure (bit_or (u32 (symbol <<< 1)) (bit r.0), set bm symbol r.1)))
      (then-Codes (encode_bit p b) (decode_bit p) (λ m. pure (set bm symbol m))
        (λ r. pure (bit_or (u32 (symbol <<< 1)) (bit r.0), set bm symbol r.1))
        (encode_bit-Codes p b h) (pure-Codes _ _))
