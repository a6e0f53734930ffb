-- ===== src/Coder/Codes/File.antt =====
-- A computation of the encoder between its constructor and flush, and the decoder's one behind `load`,
-- on the stream that was written.
use lzip_os.Base.{
  ℕ, ◌+◌, ◌^◌, ◌<◌, ◌≡◌, refl, ap, ◌∙◌, arith, true, List, [], ◌++◌, length, drop,
  drop-length-append, IsByte, All,
}
use lzip_os.Base.{ok, err, M, Result, ◌>>=◌, ◌>>◌, >>=-ok, pure}
use lzip_os.Io.{OutFile}
use lzip_os.Io.Blocks.{NoWriteFailure}
use lzip_os.Encoder.Output.Sent.{sent}
use lzip_os.Encoder.Range.{RangeEncoder, construct, flush}
use lzip_os.Decoder.Input.Unread.{IsValid, remaining}
use lzip_os.Decoder.Range.{RangeDecoder, load}
use lzip_os.Coder.Emit.Bits.{Emitted}
use lzip_os.Coder.Follow.{Tracks, Followed, Followed-then}
use lzip_os.Coder.Stream.Flush.{Flushed, flush-Flushed, Flushed-Within}
use lzip_os.Coder.Stream.Load.{start, load-InSync}
use lzip_os.Coder.Stream.RoundTrip.{
  Started, header_of, construct-Started, start-IsGood, before, append-All,
}
use lzip_os.Coder.Codes.{Meets, Codes}

-- The constructor, the computation, and flush.
abbrev pub write : {X : Type 0} → ℕ → OutFile → M RangeEncoder X → Result (X × RangeEncoder)
write {X} dictionary_size f m = elim (construct dictionary_size true f) [
  | ok (u, e) ↦ (m >>= λ x. flush >> pure x) e
  | err x ↦ err x
]

-- The bytes behind the header.
abbrev pub coded : {X : Type 0} → ℕ → OutFile → M RangeEncoder X → List ℕ
coded dictionary_size f m = elim (write dictionary_size f m) [
  | ok (x, e) ↦ drop (length (before dictionary_size f)) (sent e.out)
  | err x ↦ []
]

-- `load`, and then the computation.
abbrev pub loaded : {Y : Type 0} → M RangeDecoder Y → M RangeDecoder Y
loaded n = load >> n

-- The computation was written and its answer is `x`; a reading one answers `y`.
pub record ReadBack {X Y : Type 0} (dictionary_size : ℕ) (f : OutFile) (m : M RangeEncoder X)
    (x : X) (y : Y) (r : Result (Y × RangeDecoder)) : Type 0 where
  pub after : RangeEncoder
  pub writes : write dictionary_size f m ≡ ok (x, after)
  pub reads : Followed (λ d. IsValid d.input) y r

module _ {X Y : Type 0} {bits : ℕ} (dictionary_size : ℕ) (f : OutFile) (m : M RangeEncoder X)
    {x : X} (n : M RangeDecoder Y) {y : Y} (fine : NoWriteFailure f.answers)
    (codes : Codes bits m x n y) (few : bits + 10 < 2 ^ 32) where
  both : Meets bits start m x n y
  both = codes start start-IsGood

  started : Started (header_of dictionary_size f) f (construct dictionary_size true f)
  started = construct-Started dictionary_size f fine

  moved : Emitted (before dictionary_size f) both.next x (m started.after)
  moved = both.encodes (before dictionary_size f) started.after started.emits

  flushed : Flushed (before dictionary_size f) both.next (flush moved.after)
  flushed =
      flush-Flushed (before dictionary_size f) moved.after both.next both.good moved.emits
        (omega (arith, both.few))

  write-ok : write dictionary_size f m ≡ ok (x, flushed.after)
  write-ok =
      ap
        (λ (r : Result (Unit {0} × RangeEncoder)). elim r as (λ _. Result (X × RangeEncoder)) [
          | ok (u, e) ↦ (m >>= λ x. flush >> pure x) e
          | err x ↦ err x
        ])
        started.returns
      ∙ >>=-ok m (λ x. flush >> pure x) started.after moved.returns
      ∙ >>=-ok flush (λ _. pure x) moved.after flushed.returns

  coded_lem : coded dictionary_size f m ≡ flushed.body
  coded_lem =
      ap
        (λ (r : Result (X × RangeEncoder)). elim r as (λ _. List ℕ) [
          | ok (x, e) ↦ drop (length (before dictionary_size f)) (sent e.out)
          | err x ↦ []
        ])
        write-ok
      ∙ ap (drop (length (before dictionary_size f))) flushed.sent_body
      ∙ drop-length-append (before dictionary_size f) flushed.body

  -- What pairs of the rules write is read back, whatever bytes follow.
  pub Codes-ReadBack :
      (more : List ℕ) (d : RangeDecoder)
      → All IsByte more
      → IsValid d.input
      → remaining d.input ≡ coded dictionary_size f m ++ more
      → ReadBack dictionary_size f m x y (loaded n d)
  Codes-ReadBack more d bytes v e =
      let B = flushed.body ++ more in
      let all = append-All flushed.body more flushed.bytes bytes in
      let w = Flushed-Within flushed more both.good in
      let l = load-InSync B d all v (e ∙ ap (λ s. s ++ more) coded_lem) (both.nested B all w) in
      let t : Tracks B start l.after = record {
        base = start;
        sync = l.holds;
        wide = (omega arith, omega arith);
        ahead = refl;
      } in
      let r = both.decodes B all l.after t w in
      record {
        after = flushed.after;
        writes = write-ok;
        reads =
            Followed-then load (λ _. n) d l
              (record { after = r.after; returns = r.returns; holds = r.holds.sync.valid });
      }
