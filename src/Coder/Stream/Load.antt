-- ===== src/Coder/Stream/Load.antt =====
-- Range_decoder::load of decoder.h: it takes in the first five bytes of the stream.
use lzip_os.Base.{ℕ, ◌+◌, ◌*◌, ◌<◌, ◌≡◌, refl, ap, ◌∙◌, arith, ◌==◌, not, if◌then◌else◌}
use lzip_os.Base.{true, List, [], ◌∷◌, IsByte, All, pure, false}
use lzip_os.Base.{ok, M, Result, ◌>>◌, >>=-ok, Bool}
use lzip_os.Decoder.Input
use lzip_os.Decoder.Input.Unread.{IsValid, remaining, get_byte-Got}
use lzip_os.Decoder.Range.{RangeDecoder, on_input, get_byte, shift_in, load}
use lzip_os.Coder.Interval.{Interval, Within}
use lzip_os.Coder.Follow.{InSync, Followed, on_input-ok, shift_in-ShiftedIn}

-- The interval of a coder that has coded nothing: all streams whose first byte is zero, but for
-- those that go on with four bytes 0xFF.
abbrev pub start : Interval
start = record { low = 0; range = 0xFFFF_FFFF; digits = 5 }

-- What `load` makes of five bytes.
pub record Loaded (b1 b2 b3 b4 : ℕ) (rest : List ℕ) (r : Result (Bool × RangeDecoder))
    : Type 0 where
  pub after : RangeDecoder
  pub returns : r ≡ ok (true, after)
  pub valid : IsValid after.input
  pub left : remaining after.input ≡ rest
  pub code_lem : after.code ≡ ((b1 * 256 + b2) * 256 + b3) * 256 + b4
  pub range_lem : after.range ≡ 0xFFFF_FFFF

abbrev four : M RangeDecoder Bool
four = do shift_in; shift_in; shift_in; shift_in; pure true

load-Loaded :
    (d : RangeDecoder) (b1 b2 b3 b4 : ℕ) (rest : List ℕ)
    → IsValid d.input
    → remaining d.input ≡ 0 ∷ b1 ∷ b2 ∷ b3 ∷ b4 ∷ rest
    → (b1 < 256) × (b2 < 256) × (b3 < 256) × (b4 < 256)
    → Loaded b1 b2 b3 b4 rest (load d)
unfolding load get_byte
load-Loaded d b1 b2 b3 b4 rest v e h =
    let z = get_byte-Got d.input 0 (b1 ∷ b2 ∷ b3 ∷ b4 ∷ rest) v e in
    let d0 : RangeDecoder = record { input = z.after; code = 0; range = 0xFFFF_FFFF } in
    let s1 = shift_in-ShiftedIn d0 b1 (b2 ∷ b3 ∷ b4 ∷ rest) z.valid z.left h.0 (omega arith) in
    let d1 : RangeDecoder = record { input = s1.input; code = 0 * 256 + b1; range = 0xFFFF_FFFF } in
    let s2 = shift_in-ShiftedIn d1 b2 (b3 ∷ b4 ∷ rest) s1.valid s1.left h.1 (omega (arith, h)) in
    let d2 : RangeDecoder = record {
      input = s2.input;
      code = (0 * 256 + b1) * 256 + b2;
      range = 0xFFFF_FFFF;
    } in
    let s3 = shift_in-ShiftedIn d2 b3 (b4 ∷ rest) s2.valid s2.left h.2 (omega (arith, h)) in
    let d3 : RangeDecoder = record {
      input = s3.input;
      code = ((0 * 256 + b1) * 256 + b2) * 256 + b3;
      range = 0xFFFF_FFFF;
    } in
    let s4 = shift_in-ShiftedIn d3 b4 rest s3.valid s3.left h.3 (omega (arith, h)) in
    record {
      after = record {
        input = s4.input;
        code = (((0 * 256 + b1) * 256 + b2) * 256 + b3) * 256 + b4;
        range = 0xFFFF_FFFF;
      };
      returns =
          >>=-ok (on_input Input.get_byte) (λ first. if not (first == 0) then pure false else four)
            (record d { code = 0; range = 0xFFFF_FFFF })
            (on_input-ok Input.get_byte (record d { code = 0; range = 0xFFFF_FFFF }) z.returns)
          ∙ >>=-ok shift_in (λ _. shift_in >> (shift_in >> (shift_in >> pure true))) d0 s1.returns
          ∙ >>=-ok shift_in (λ _. shift_in >> (shift_in >> pure true)) d1 s2.returns
          ∙ >>=-ok shift_in (λ _. shift_in >> pure true) d2 s3.returns
          ∙ >>=-ok shift_in (λ _. pure true) d3 s4.returns;
      valid = s4.valid;
      left = s4.left;
      code_lem = omega arith;
      range_lem = refl;
    }

-- `load` on a stream of the coder.
pub load-InSync :
    (B : List ℕ) (d : RangeDecoder)
    → All IsByte B
    → IsValid d.input
    → remaining d.input ≡ B
    → Within B start
    → Followed (InSync B start) true (load d)
load-InSync [] d bytes v e w = absurd (omega (arith, w.long))
load-InSync (b0 ∷ []) d bytes v e w = absurd (omega (arith, w.long))
load-InSync (b0 ∷ b1 ∷ []) d bytes v e w = absurd (omega (arith, w.long))
load-InSync (b0 ∷ b1 ∷ b2 ∷ []) d bytes v e w = absurd (omega (arith, w.long))
load-InSync (b0 ∷ b1 ∷ b2 ∷ b3 ∷ []) d bytes v e w = absurd (omega (arith, w.long))
load-InSync (b0 ∷ b1 ∷ b2 ∷ b3 ∷ b4 ∷ rest) d bytes v e w =
    let zero_first : b0 ≡ 0 = omega (arith, w.below) in
    let r =
      load-Loaded d b1 b2 b3 b4 rest v (e ∙ ap (λ b. b ∷ b1 ∷ b2 ∷ b3 ∷ b4 ∷ rest) zero_first)
        (bytes.1.0, bytes.1.1.0, bytes.1.1.1.0, bytes.1.1.1.1.0) in
    record {
      after = r.after;
      returns = r.returns;
      holds = record {
        valid = r.valid;
        rest = r.left;
        code_lem = omega (arith, r.code_lem, zero_first);
        same_range = r.range_lem;
      };
    }
