-- ===== src/Coder/Stream.antt =====
-- Whole runs of the coder: a sequence of bits, each with a model of an array or direct, as the bodies
-- of Encoder::encode_bit, encode and the trees code them one after the other.
pub mod RoundTrip
pub mod Flush
pub mod Load
use lzip_os.Base.{ℕ, zero, suc, ◌^◌, ◌≤◌, ◌<◌, ◌≡◌, refl, ap, ◌∙◌, arith}
use lzip_os.Base.{Bool, List, [], ◌∷◌, get_or, set, IsByte, All}
use lzip_os.Base.{ok, err, M, Result, ◌>>=◌, ◌>>◌, >>=-ok, pure}
use lzip_os.Lzip.Model.{BitModel, fresh_model, adapt}
use lzip_os.Encoder.Range.{RangeEncoder, encode_bit, encode_bit_at}
use lzip_os.Decoder.Range.{RangeDecoder, decode_bit, decode_bit_at, normalize, take_half}
use lzip_os.Coder.Interval.{
  Interval, IsGood, IsModel, narrow, halve, scale, Within, Within-scale, Within-narrow,
  Within-halve,
}
use lzip_os.Coder.Interval.{narrow-wide, halve-wide, scale-IsGood, adapt-IsModel}
use lzip_os.Coder.Emit.Bits.{
  Emits, Emitted, Emitted-then, encode_bit-Emitted, encode_half, encode_half-Emitted,
}
use lzip_os.Coder.Follow.{Tracks, Followed, Followed-then, decode_bit-Tracks, decode_half-Tracks}

-- How a bit is coded: with the model of that index, or directly.
pub data Kind : Type 0 where
  modelled : ℕ → Kind
  direct : Kind

abbrev pub encode_one : Kind → Bool → List BitModel → M RangeEncoder (List BitModel)
encode_one (modelled k) b ms = encode_bit_at ms k b
encode_one direct b ms = encode_half b >>= λ _. pure ms

abbrev pub decode_one : Kind → List BitModel → M RangeDecoder (Bool × List BitModel)
decode_one (modelled k) ms = decode_bit_at ms k
decode_one direct ms = (normalize >> take_half) >>= λ b. pure (b, ms)

-- The models and the interval after a bit.
abbrev pub models_after : Kind → Bool → List BitModel → List BitModel
models_after (modelled k) b ms = set ms k (adapt b (get_or ms k fresh_model))
models_after direct b ms = ms

abbrev pub part : Kind → Bool → List BitModel → Interval → Interval
part (modelled k) b ms i = narrow (get_or ms k fresh_model) b i
part direct b ms i = halve b i

abbrev pub AreModels : List BitModel → Type 0
AreModels ms = All IsModel ms

pub get_or-IsModel : (ms : List BitModel) (k : ℕ) → AreModels ms → IsModel (get_or ms k fresh_model)
get_or-IsModel [] k h = omega arith
get_or-IsModel (m ∷ ms) zero h = h.0
get_or-IsModel (m ∷ ms) (suc k) h = get_or-IsModel ms k h.1

set-AreModels :
    (ms : List BitModel) (k : ℕ) (m : BitModel) → AreModels ms → IsModel m → AreModels (set ms k m)
set-AreModels [] k m h g = h
set-AreModels (x ∷ ms) zero m h g = (g, h.1)
set-AreModels (x ∷ ms) (suc k) m h g = (h.0, set-AreModels ms k m h.1 g)

pub models_after-AreModels :
    (k : Kind) (b : Bool) (ms : List BitModel) → AreModels ms → AreModels (models_after k b ms)
models_after-AreModels (modelled k) b ms h =
    set-AreModels ms k _ h (adapt-IsModel b _ (get_or-IsModel ms k h))
models_after-AreModels direct b ms h = h

pub part-wide :
    (k : Kind) (b : Bool) (ms : List BitModel) (i : Interval)
    → AreModels ms
    → IsGood i
    → (2 ^ 16 ≤ (part k b ms i).range) × ((part k b ms i).range < 2 ^ 32)
part-wide (modelled k) b ms i h g = narrow-wide _ b i (get_or-IsModel ms k h) g
part-wide direct b ms i h g = halve-wide b i g

pub Within-part :
    (B : List ℕ) (k : Kind) (b : Bool) (ms : List BitModel) (i : Interval)
    → AreModels ms
    → Within B (part k b ms i)
    → Within B i
Within-part B (modelled k) b ms i h w = Within-narrow B _ b i (get_or-IsModel ms k h) w
Within-part B direct b ms i h w = Within-halve B b i w

pub part-IsGood :
    (k : Kind) (b : Bool) (ms : List BitModel) (i : Interval)
    → AreModels ms
    → IsGood i
    → IsGood (scale (part k b ms i))
part-IsGood k b ms i h g = let w = part-wide k b ms i h g in scale-IsGood (part k b ms i) w.0 w.1

-- Coding one bit narrows the interval.
pub encode_one-Emitted :
    (pre : List ℕ) (k : Kind) (b : Bool) (ms : List BitModel) (e : RangeEncoder) (i : Interval)
    → AreModels ms
    → IsGood i
    → Emits pre e i
    → Emitted pre (scale (part k b ms i)) (models_after k b ms) (encode_one k b ms e)
unfolding encode_bit_at
encode_one-Emitted pre (modelled k) b ms e i h g s =
    let p = get_or ms k fresh_model in
    let f = encode_bit-Emitted pre p e i (get_or-IsModel ms k h) g s b in
    Emitted-then (encode_bit p b) (λ m. pure (set ms k m)) e f
      (record { after = f.after; returns = refl; emits = f.emits })
encode_one-Emitted pre direct b ms e i h g s =
    let f = encode_half-Emitted pre b e i g s in
    Emitted-then (encode_half b) (λ _. pure ms) e f
      (record { after = f.after; returns = refl; emits = f.emits })

-- Decoding one bit follows the interval.
pub decode_one-Tracks :
    (B : List ℕ) (bytes : All IsByte B) (k : Kind) (b : Bool) (ms : List BitModel)
    (d : RangeDecoder) (i : Interval)
    → AreModels ms
    → IsGood i
    → Tracks B i d
    → Within B (part k b ms i)
    → Followed (Tracks B (scale (part k b ms i))) (b, models_after k b ms) (decode_one k ms d)
unfolding decode_bit_at
decode_one-Tracks B bytes (modelled k) b ms d i h g t w =
    let p = get_or ms k fresh_model in
    let f = decode_bit-Tracks B bytes p b i d (get_or-IsModel ms k h) g t w in
    Followed-then (decode_bit p) (λ r. pure (r.0, set ms k r.1)) d f
      (record { after = f.after; returns = refl; holds = f.holds })
decode_one-Tracks B bytes direct b ms d i h g t w =
    let f = decode_half-Tracks B bytes b i d g t w in
    Followed-then (normalize >> take_half) (λ b'. pure (b', ms)) d f
      (record { after = f.after; returns = refl; holds = f.holds })

-- A run of bits.
unfoldable pub encode_all : List (Kind × Bool) → List BitModel → M RangeEncoder (List BitModel)
encode_all [] ms = pure ms
encode_all ((k, b) ∷ ds) ms = encode_one k b ms >>= λ ms'. encode_all ds ms'

unfoldable pub decode_all : List Kind → List BitModel → M RangeDecoder (List Bool × List BitModel)
decode_all [] ms = pure ([], ms)
decode_all (k ∷ ks) ms = decode_one k ms >>= λ r. decode_all ks r.1 >>= λ q. pure (r.0 ∷ q.0, q.1)

abbrev pub kinds : List (Kind × Bool) → List Kind
kinds [] = []
kinds (d ∷ ds) = d.0 ∷ kinds ds

abbrev pub bits : List (Kind × Bool) → List Bool
bits [] = []
bits (d ∷ ds) = d.1 ∷ bits ds

-- The models and the interval after a run.
abbrev pub models_at_end : List (Kind × Bool) → List BitModel → List BitModel
models_at_end [] ms = ms
models_at_end (d ∷ ds) ms = models_at_end ds (models_after d.0 d.1 ms)

abbrev pub path : List (Kind × Bool) → List BitModel → Interval → Interval
path [] ms i = i
path (d ∷ ds) ms i = path ds (models_after d.0 d.1 ms) (scale (part d.0 d.1 ms i))

pub path-IsGood :
    (ds : List (Kind × Bool)) (ms : List BitModel) (i : Interval)
    → AreModels ms
    → IsGood i
    → IsGood (path ds ms i)
path-IsGood [] ms i h g = g
path-IsGood ((k, b) ∷ ds) ms i h g =
    path-IsGood ds (models_after k b ms) (scale (part k b ms i)) (models_after-AreModels k b ms h)
      (part-IsGood k b ms i h g)

-- A stream in the interval at the end of a run is in the interval at its start.
pub Within-path :
    (B : List ℕ) (ds : List (Kind × Bool)) (ms : List BitModel) (i : Interval)
    → All IsByte B
    → AreModels ms
    → Within B (path ds ms i)
    → Within B i
Within-path B [] ms i bytes h w = w
Within-path B ((k, b) ∷ ds) ms i bytes h w = Within-part B k b ms i h (
    Within-scale B (part k b ms i) bytes (
      Within-path B ds (models_after k b ms) (scale (part k b ms i)) bytes
        (models_after-AreModels k b ms h) w))

pub encode_all-Emitted :
    (pre : List ℕ) (ds : List (Kind × Bool)) (ms : List BitModel) (e : RangeEncoder) (i : Interval)
    → AreModels ms
    → IsGood i
    → Emits pre e i
    → Emitted pre (path ds ms i) (models_at_end ds ms) (encode_all ds ms e)
unfolding encode_all
encode_all-Emitted pre [] ms e i h g s = record { after = e; returns = refl; emits = s }
encode_all-Emitted pre ((k, b) ∷ ds) ms e i h g s =
    let f = encode_one-Emitted pre k b ms e i h g s in
    Emitted-then (encode_one k b ms) (λ ms'. encode_all ds ms') e f
      (encode_all-Emitted pre ds (models_after k b ms) f.after (scale (part k b ms i))
        (models_after-AreModels k b ms h) (part-IsGood k b ms i h g) f.emits)

pub decode_all-Tracks :
    (B : List ℕ) (bytes : All IsByte B) (ds : List (Kind × Bool)) (ms : List BitModel)
    (d : RangeDecoder) (i : Interval)
    → AreModels ms
    → IsGood i
    → Tracks B i d
    → Within B (path ds ms i)
    → Followed (Tracks B (path ds ms i)) (bits ds, models_at_end ds ms) (decode_all (kinds ds) ms d)
unfolding decode_all
decode_all-Tracks B bytes [] ms d i h g t w = record { after = d; returns = refl; holds = t }
decode_all-Tracks B bytes ((k, b) ∷ ds) ms d i h g t w =
    let ms' = models_after k b ms in
    let h' = models_after-AreModels k b ms h in
    let inner =
      Within-scale B (part k b ms i) bytes
        (Within-path B ds ms' (scale (part k b ms i)) bytes h' w) in
    let f = decode_one-Tracks B bytes k b ms d i h g t inner in
    let r =
      decode_all-Tracks B bytes ds ms' f.after (scale (part k b ms i)) h' (part-IsGood k b ms i h g)
        f.holds w in
    Followed-then (decode_one k ms) (λ r. decode_all (kinds ds) r.1 >>= λ q. pure (r.0 ∷ q.0, q.1))
      d f
      (Followed-then (decode_all (kinds ds) ms') (λ q. pure (b ∷ q.0, q.1)) f.after r
        (record { after = r.after; returns = refl; holds = r.holds }))
