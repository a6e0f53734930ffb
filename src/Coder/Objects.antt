-- ===== src/Coder/Objects.antt =====
-- Computations of LZ_encoder_base and of LZ_decoder that belong together: the rules of Coder/Codes, with
-- the models of the one object those of the other.
pub mod Bits
pub mod Packet
pub mod Literal
pub mod Kind
pub mod Distance
pub mod Match
pub mod Reps
pub mod Relay
pub mod Script
pub mod ReadBack
pub mod Fresh
use lzip_os.Base.{ℕ, ◌+◌, ◌≤◌, ◌≡◌, refl, ap, ◌∙◌, arith, List, IsByte, All}
use lzip_os.Base.{M, Result, ok, err, ◌>>=◌, ◌>>◌, >>=-ok, pure, get, put}
use lzip_os.Encoder.Range.{RangeEncoder}
use lzip_os.Encoder.Packets.{LzEncoderBase, on_renc}
use lzip_os.Decoder.Range.{RangeDecoder}
use lzip_os.Decoder.Lz.{LzDecoder, on_rdec}
use lzip_os.Decoder.Lz.Member.{Member}
use lzip_os.Coder.Interval.{Interval, IsGood, Within}
use lzip_os.Coder.Emit.Bits.{Emits, Emitted}
use lzip_os.Coder.Follow.{Tracks, Followed}
use lzip_os.Coder.Codes.{Codes}

-- An encoder with the models of `m`.
abbrev pub base_of : Member → ℕ → RangeEncoder → LzEncoderBase
base_of m crc renc = record {
  crc_ = crc;
  bm_literal = m.bm_literal;
  bm_match = m.bm_match;
  bm_rep = m.bm_rep;
  bm_rep0 = m.bm_rep0;
  bm_rep1 = m.bm_rep1;
  bm_rep2 = m.bm_rep2;
  bm_len = m.bm_len;
  bm_dis_slot = m.bm_dis_slot;
  bm_dis = m.bm_dis;
  bm_align = m.bm_align;
  match_len_model = m.match_len_model;
  rep_len_model = m.rep_len_model;
  renc = renc;
}

abbrev pub with_rdec : LzDecoder → RangeDecoder → LzDecoder
with_rdec d rdec = record d { rdec = rdec }

-- The encoder answers `x` and has the models of `m` and an encoder that stands at `i`.
pub record BaseEmitted {X : Type 0} (pre : List ℕ) (i : Interval) (m : Member) (crc : ℕ) (x : X)
    (r : Result (X × LzEncoderBase)) : Type 0 where
  pub after : RangeEncoder
  pub returns : r ≡ ok (x, base_of m crc after)
  pub emits : Emits pre after i

-- The decoder answers `y` and is `d` with a decoder that follows to `i`.
pub record LzFollowed {Y : Type 0} (B : List ℕ) (i : Interval) (d : LzDecoder) (y : Y)
    (r : Result (Y × LzDecoder)) : Type 0 where
  pub after : RangeDecoder
  pub returns : r ≡ ok (y, with_rdec d after)
  pub holds : Tracks B i after

-- `p` codes from the models of `m` and leaves those of `m'`, `n` decodes from `d` and leaves `d'`.
pub record JoinsAt {X Y : Type 0} (bits : ℕ) (i : Interval) (p : M LzEncoderBase X) (m : Member)
    (crc : ℕ) (x : X) (m' : Member) (n : M LzDecoder Y) (d : LzDecoder) (y : Y) (d' : LzDecoder)
    : Type 0 where
  pub next : Interval
  pub good : IsGood next
  pub few : next.digits ≤ i.digits + bits
  pub nested : (B : List ℕ) → All IsByte B → Within B next → Within B i
  pub encodes :
      (pre : List ℕ) (r : RangeEncoder)
      → Emits pre r i
      → BaseEmitted pre next m' crc x (p (base_of m crc r))
  pub decodes :
      (B : List ℕ)
      → All IsByte B
      → (r : RangeDecoder) → Tracks B i r
      → Within B next
      → LzFollowed B next d' y (n (with_rdec d r))

abbrev pub Joins :
    {X Y : Type 0}
    → ℕ
    → M LzEncoderBase X
    → Member
    → ℕ
    → X
    → Member
    → M LzDecoder Y
    → LzDecoder
    → Y
    → LzDecoder
    → Type 0
Joins bits p m crc x m' n d y d' = (i : Interval) → IsGood i → JoinsAt bits i p m crc x m' n d y d'

on_renc-ok :
    {A : Type 0} (p : M RangeEncoder A) (e : LzEncoderBase) {a : A} {r : RangeEncoder}
    → p e.renc ≡ ok (a, r)
    → on_renc p e ≡ ok (a, record e { renc = r })
on_renc-ok {A} p e h =
    ap
      (λ (q : Result (A × RangeEncoder)). elim q as (λ _. Result (A × LzEncoderBase)) [
        | ok (a, r) ↦ ok (a, record e { renc = r })
        | err x ↦ err x
      ])
      h

on_rdec-ok :
    {A : Type 0} (n : M RangeDecoder A) (d : LzDecoder) {a : A} {r : RangeDecoder}
    → n d.rdec ≡ ok (a, r)
    → on_rdec n d ≡ ok (a, record d { rdec = r })
on_rdec-ok {A} n d h =
    ap
      (λ (q : Result (A × RangeDecoder)). elim q as (λ _. Result (A × LzDecoder)) [
        | ok (a, r) ↦ ok (a, record d { rdec = r })
        | err x ↦ err x
      ])
      h

pub lift-Joins :
    {X Y : Type 0} {bits : ℕ} {p : M RangeEncoder X} {n : M RangeDecoder Y} {x : X} {y : Y}
    (m : Member) (crc : ℕ) (d : LzDecoder)
    → Codes bits p x n y
    → Joins bits (on_renc p) m crc x m (on_rdec n) d y d
lift-Joins {p = p} {n = n} m crc d f i good =
    let a = f i good in
    record {
      next = a.next;
      good = a.good;
      few = a.few;
      nested = a.nested;
      encodes = λ pre r h.
          let q = a.encodes pre r h in
          record {
            after = q.after;
            returns = on_renc-ok p (base_of m crc r) q.returns;
            emits = q.emits;
          };
      decodes = λ B bytes r t w.
          let q = a.decodes B bytes r t w in
          record {
            after = q.after;
            returns = on_rdec-ok n (with_rdec d r) q.returns;
            holds = q.holds;
          };
    }

pub then-Joins :
    {X X' Y Y' : Type 0} {bits more crc : ℕ} (p : M LzEncoderBase X) (k : X → M LzEncoderBase X')
    (n : M LzDecoder Y) (l : Y → M LzDecoder Y') {m m1 m2 : Member} {d d1 d2 : LzDecoder} {x : X}
    {x' : X'} {y : Y} {y' : Y'}
    → Joins bits p m crc x m1 n d y d1
    → Joins more (k x) m1 crc x' m2 (l y) d1 y' d2
    → Joins (bits + more) (p >>= k) m crc x' m2 (n >>= l) d y' d2
then-Joins {crc = crc} p k n l {m = m} {d = d} f g i good =
    let a = f i good in
    let b = g a.next a.good in
    record {
      next = b.next;
      good = b.good;
      few = omega (arith, a.few, b.few);
      nested = λ B bytes w. a.nested B bytes (b.nested B bytes w);
      encodes = λ pre r h.
          let q = a.encodes pre r h in
          let s = b.encodes pre q.after q.emits in
          record {
            after = s.after;
            returns = >>=-ok p k (base_of m crc r) q.returns ∙ s.returns;
            emits = s.emits;
          };
      decodes = λ B bytes r t w.
          let q = a.decodes B bytes r t (b.nested B bytes w) in
          let s = b.decodes B bytes q.after q.holds w in
          record {
            after = s.after;
            returns = >>=-ok n l (with_rdec d r) q.returns ∙ s.returns;
            holds = s.holds;
          };
    }

-- The encoder alone goes on.
pub encoder_then :
    {X X' Y : Type 0} {bits crc : ℕ} (p : M LzEncoderBase X) (k : X → M LzEncoderBase X')
    {n : M LzDecoder Y} {m m1 m2 : Member} {d d1 : LzDecoder} {x : X} {x' : X'} {y : Y}
    → Joins bits p m crc x m1 n d y d1
    → ((r : RangeEncoder) → k x (base_of m1 crc r) ≡ ok (x', base_of m2 crc r))
    → Joins bits (p >>= k) m crc x' m2 n d y d1
encoder_then {crc = crc} p k {m = m} f same i good =
    let a = f i good in
    record {
      next = a.next;
      good = a.good;
      few = a.few;
      nested = a.nested;
      encodes = λ pre r h.
          let q = a.encodes pre r h in
          record {
            after = q.after;
            returns = >>=-ok p k (base_of m crc r) q.returns ∙ same q.after;
            emits = q.emits;
          };
      decodes = a.decodes;
    }

-- The decoder alone goes on.
pub decoder_then :
    {X Y Y' : Type 0} {bits crc : ℕ} {p : M LzEncoderBase X} (n : M LzDecoder Y)
    (l : Y → M LzDecoder Y') {m m1 : Member} {d d1 d2 : LzDecoder} {x : X} {y : Y} {y' : Y'}
    → Joins bits p m crc x m1 n d y d1
    → ((r : RangeDecoder) → l y (with_rdec d1 r) ≡ ok (y', with_rdec d2 r))
    → Joins bits p m crc x m1 (n >>= l) d y' d2
decoder_then n l {d = d} f same i good =
    let a = f i good in
    record {
      next = a.next;
      good = a.good;
      few = a.few;
      nested = a.nested;
      encodes = a.encodes;
      decodes = λ B bytes r t w.
          let q = a.decodes B bytes r t w in
          record {
            after = q.after;
            returns = >>=-ok n l (with_rdec d r) q.returns ∙ same q.after;
            holds = q.holds;
          };
    }

-- Programs that agree on these objects.
pub same-Joins :
    {X Y : Type 0} {bits more crc : ℕ} (p p' : M LzEncoderBase X) (n n' : M LzDecoder Y)
    {m m1 : Member} {d d1 : LzDecoder} {x : X} {y : Y}
    → bits ≤ more
    → ((r : RangeEncoder) → p' (base_of m crc r) ≡ p (base_of m crc r))
    → ((r : RangeDecoder) → n' (with_rdec d r) ≡ n (with_rdec d r))
    → Joins bits p m crc x m1 n d y d1
    → Joins more p' m crc x m1 n' d y d1
same-Joins p p' n n' le same_p same_n f i good =
    let a = f i good in
    record {
      next = a.next;
      good = a.good;
      few = omega (arith, a.few);
      nested = a.nested;
      encodes = λ pre r h.
          let q = a.encodes pre r h in
          record { after = q.after; returns = same_p r ∙ q.returns; emits = q.emits };
      decodes = λ B bytes r t w.
          let q = a.decodes B bytes r t w in
          record { after = q.after; returns = same_n r ∙ q.returns; holds = q.holds };
    }

pub pure-Joins :
    {X Y : Type 0} (m : Member) (crc : ℕ) (d : LzDecoder) (x : X) (y : Y)
    → Joins 0 (pure x) m crc x m (pure y) d y d
pure-Joins m crc d x y i good = record {
  next = i;
  good = good;
  few = omega arith;
  nested = λ B bytes w. w;
  encodes = λ pre r h. record { after = r; returns = refl; emits = h };
  decodes = λ B bytes r t w. record { after = r; returns = refl; holds = t };
}

-- A call on the range encoder whose answer goes into the models.
abbrev pub stored :
    {A : Type 0}
    → (LzEncoderBase → M RangeEncoder A)
    → (LzEncoderBase → A → LzEncoderBase)
    → M LzEncoderBase (Unit {0})
stored F G = do e ← get; a ← on_renc (F e); e' ← get; put (G e' a)

pub stored-Joins :
    {A Y : Type 0} {bits : ℕ} (F : LzEncoderBase → M RangeEncoder A)
    (G : LzEncoderBase → A → LzEncoderBase) (c : M RangeEncoder A) {a : A} {n : M RangeDecoder Y}
    {y : Y} (m m' : Member) (crc : ℕ) (d : LzDecoder)
    → ((r : RangeEncoder) → F (base_of m crc r) ≡ c)
    → ((r : RangeEncoder) → G (base_of m crc r) a ≡ base_of m' crc r)
    → Codes bits c a n y
    → Joins bits (stored F G) m crc tt m' (on_rdec n) d y d
stored-Joins F G c {n = n} m m' crc d same same_after f =
    same-Joins (on_renc c >>= λ a. get >>= λ e. put (G e a)) (stored F G) (on_rdec n) (on_rdec n)
      (omega arith)
      (λ r.
        ap
          (λ (q : M RangeEncoder _).
            (on_renc q >>= λ a. get >>= λ e. put (G e a)) (base_of m crc r))
          (same r))
      (λ r. refl)
      (encoder_then (on_renc c) (λ a. get >>= λ e. put (G e a)) (lift-Joins m crc d f)
        (λ r. ap (λ (e : LzEncoderBase). ok (tt, e)) (same_after r)))

-- Only the models of a member are the encoder's.
pub models-Joins :
    {X Y : Type 0} {bits crc : ℕ} {p : M LzEncoderBase X} {n : M LzDecoder Y} {m m1 m2 : Member}
    {d d1 : LzDecoder} {x : X} {y : Y}
    → ((r : RangeEncoder) → base_of m1 crc r ≡ base_of m2 crc r)
    → Joins bits p m crc x m1 n d y d1
    → Joins bits p m crc x m2 n d y d1
models-Joins {x = x} same f i good =
    let a = f i good in
    record {
      next = a.next;
      good = a.good;
      few = a.few;
      nested = a.nested;
      encodes = λ pre r h.
          let q = a.encodes pre r h in
          record {
            after = q.after;
            returns = q.returns ∙ ap (λ (e : LzEncoderBase). ok (x, e)) (same q.after);
            emits = q.emits;
          };
      decodes = a.decodes;
    }
