-- ===== src/Coder/Objects/Relay.antt =====
-- put_byte, copy_block and flush_data of LZ_decoder leave its range decoder alone.
use lzip_os.Base.{
  ℕ, zero, suc, ◌+◌, ◌-◌, ◌≡◌, refl, ap, ◌∙◌, Bool, true, false, if◌then◌else◌, ltb, leb, ◌==◌,
  take, drop, get_or, set, u32, sub32, u8,
}
use lzip_os.Base.{M, Result, ok, err, ◌>>=◌, pure}
use lzip_os.Io.{OutFile, writeblock}
use lzip_os.Decoder.Range.{RangeDecoder}
use lzip_os.Decoder.Lz.{LzDecoder, flush_data, flushed, put_byte, copy_block, copy_wrapped}
use lzip_os.Coder.Objects.{with_rdec}

-- The same result with another range decoder.
abbrev relayed : RangeDecoder → Result (Unit {0} × LzDecoder) → Result (Unit {0} × LzDecoder)
relayed r q = elim q as (λ _. Result (Unit {0} × LzDecoder)) [
  | ok (u, d) ↦ ok (u, with_rdec d r)
  | err e ↦ err e
]

if-relayed :
    (r : RangeDecoder) (b : Bool) (x y : Result (Unit {0} × LzDecoder))
    {x' y' : Result (Unit {0} × LzDecoder)}
    → x' ≡ relayed r x
    → y' ≡ relayed r y
    → (if b then x' else y') ≡ relayed r (if b then x else y)
if-relayed r true x y e f = e
if-relayed r false x y e f = f

flushed-relayed :
    (r : RangeDecoder) (d : LzDecoder) (f : OutFile)
    → flushed f (with_rdec d r) ≡ with_rdec (flushed f d) r
flushed-relayed r d f = either _ _ (leb d.dictionary_size d.pos)
  where
    either :
        (x y : LzDecoder) (b : Bool)
        → (if b then with_rdec x r else with_rdec y r) ≡ with_rdec (if b then x else y) r
    either x y true = refl
    either x y false = refl

flush_data-relayed :
    (r : RangeDecoder) (d : LzDecoder) → flush_data (with_rdec d r) ≡ relayed r (flush_data d)
unfolding flush_data
flush_data-relayed r d =
    let size = d.pos - d.stream_pos in
    let w = writeblock (take size (drop d.stream_pos d.buffer)) d.outfd in
    if-relayed r (ltb d.stream_pos d.pos) _ _
      (if-relayed r d.connected _ _
        (if-relayed r (w.count == size) _ _
          (ap (λ (x : LzDecoder). ok (tt, x)) (flushed-relayed r d w.file)) refl)
        (ap (λ (x : LzDecoder). ok (tt, x)) (flushed-relayed r d d.outfd)))
      refl

put_byte-relayed :
    (r : RangeDecoder) (b : ℕ) (d : LzDecoder)
    → put_byte b (with_rdec d r) ≡ relayed r (put_byte b d)
unfolding put_byte
put_byte-relayed r b d =
    let stored : LzDecoder = record d {
      buffer = set d.buffer d.pos (u8 b);
      pos = u32 (d.pos + 1);
    } in
    if-relayed r (leb d.dictionary_size stored.pos) _ _ (flush_data-relayed r stored) refl

-- A computation and then another.
then-relayed :
    (r : RangeDecoder) (p : M LzDecoder (Unit {0})) (k : Unit {0} → M LzDecoder (Unit {0}))
    (d : LzDecoder)
    → p (with_rdec d r) ≡ relayed r (p d)
    → ((d' : LzDecoder) → k tt (with_rdec d' r) ≡ relayed r (k tt d'))
    → (p >>= k) (with_rdec d r) ≡ relayed r ((p >>= k) d)
then-relayed r p k d e f = ap then_k e ∙ by_result (p d)
  where
    then_k : Result (Unit {0} × LzDecoder) → Result (Unit {0} × LzDecoder)
    then_k q = elim q as (λ _. Result (Unit {0} × LzDecoder)) [
      | ok (u, d') ↦ k u d'
      | err x ↦ err x
    ]

    by_result : (q : Result (Unit {0} × LzDecoder)) → then_k (relayed r q) ≡ relayed r (then_k q)
    by_result (ok (u, d')) = f d'
    by_result (err x) = refl

copy_wrapped-relayed :
    (r : RangeDecoder) (len i : ℕ) (d : LzDecoder)
    → copy_wrapped len i (with_rdec d r) ≡ relayed r (copy_wrapped len i d)
unfolding copy_wrapped
copy_wrapped-relayed r zero i d = refl
copy_wrapped-relayed r (suc len) i d =
    let stored : LzDecoder = record d {
      buffer = set d.buffer d.pos (get_or d.buffer i 0);
      pos = u32 (d.pos + 1);
    } in
    then-relayed r (if leb d.dictionary_size stored.pos then flush_data else pure tt)
      (λ _. copy_wrapped len (if leb d.dictionary_size (i + 1) then 0 else i + 1)) stored
      (maybe_flush (leb d.dictionary_size stored.pos) stored)
      (λ d'. copy_wrapped-relayed r len (if leb d.dictionary_size (i + 1) then 0 else i + 1) d')
  where
    maybe_flush :
        (b : Bool) (d : LzDecoder)
        → (if b then flush_data else pure tt) (with_rdec d r)
          ≡ relayed r ((if b then flush_data else pure tt) d)
    maybe_flush true d = flush_data-relayed r d
    maybe_flush false d = refl

copy_block-relayed :
    (r : RangeDecoder) (distance len : ℕ) (d : LzDecoder)
    → copy_block distance len (with_rdec d r) ≡ relayed r (copy_block distance len d)
unfolding copy_block
copy_block-relayed r distance len d =
    let back = ltb distance d.pos in
    let below = sub32 (sub32 d.pos distance) 1 in
    let i = if back then below else u32 (below + d.dictionary_size) in
    if-relayed r (ltb len (sub32 d.dictionary_size (if back then d.pos else i))) _ _ refl
      (copy_wrapped-relayed r len i d)

-- What one range decoder beside does, any other does.
pub put_byte-with_rdec :
    (b : ℕ) (d d' : LzDecoder)
    → put_byte b d ≡ ok (tt, d')
    → (r : RangeDecoder) → put_byte b (with_rdec d r) ≡ ok (tt, with_rdec d' r)
put_byte-with_rdec b d d' e r = put_byte-relayed r b d ∙ ap (relayed r) e

pub copy_block-with_rdec :
    (distance len : ℕ) (d d' : LzDecoder)
    → copy_block distance len d ≡ ok (tt, d')
    → (r : RangeDecoder) → copy_block distance len (with_rdec d r) ≡ ok (tt, with_rdec d' r)
copy_block-with_rdec distance len d d' e r = copy_block-relayed r distance len d ∙ ap (relayed r) e
