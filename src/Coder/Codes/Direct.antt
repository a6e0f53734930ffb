-- ===== src/Coder/Codes/Direct.antt =====
-- Range_encoder::encode and Range_decoder::decode: bits without a model.
use native.Mathlib.Nat.{mul-le-mul_left, mul-le-mul_right, one-le-pow, pow-le-pow_right, pow-suc}
use lzip_os.Base.{
  ℕ, zero, suc, ◌+◌, ◌*◌, ◌/◌, ◌%◌, ◌^◌, ◌≤◌, ◌<◌, ◌≡◌, ap, subst, arith, Bool, not, ◌==◌,
}
use lzip_os.Base.{bit, bit_and, u32, ◌<<<◌, M, ◌>>=◌, ◌>>◌, pure}
use lzip_os.Encoder.Range.{put_half, renormalize, encode}
use lzip_os.Decoder.Range.{RangeDecoder, normalize, take_half, decode_loop, decode}
use lzip_os.Coder.Emit.Bits.{encode_half}
use lzip_os.Coder.Codes.{
  Codes, pure-Codes, then-Codes, more-Codes, same-Codes, same_encoders, >>=_assoc,
  encode_half-Codes,
}
use lzip_os.Coder.Codes.Tree.{bit_small, mod_pow-suc}
use lzip_os.Coder.Codes.Masks.{bit_at}

digit_by_mask : (c v t : ℕ) → c < 2 → 0 < t → v ≡ c * t → bit (not (v == 0)) ≡ c
digit_by_mask zero v t h g e = ground (arith, e)
digit_by_mask (suc zero) v t h g e = ground (arith, e)
digit_by_mask (suc (suc c)) v t h g e = absurd (omega arith)

direct-Codes :
    (k s acc : ℕ)
    → (acc + 1) * 2 ^ k ≤ 2 ^ 32
    → Codes k (encode s k) tt (decode_loop k acc) (acc * 2 ^ k + s % 2 ^ k)
unfolding encode decode_loop
direct-Codes zero s acc small =
    subst (λ v. Codes {Y = ℕ} 0 (pure tt) tt (pure acc) v) (omega arith) (pure-Codes tt acc)
direct-Codes (suc k) s acc small =
    subst (λ v. Codes {Y = ℕ} (suc k) (encode s (suc k)) tt (decode_loop (suc k) acc) v) value
      (same_encoders (encode_half b >>= λ _. encode s k) (encode s (suc k))
        (decode_loop (suc k) acc) (>>=_assoc (put_half b) (λ _. renormalize) (λ _. encode s k))
        (same-Codes (encode_half b >>= λ _. encode s k) ((normalize >> take_half) >>= go_on)
          (decode_loop (suc k) acc) (>>=_assoc normalize (λ _. take_half) go_on)
          (more-Codes (suc k) (omega arith) (
            then-Codes (encode_half b) (normalize >> take_half) (λ _. encode s k) go_on
              (encode_half-Codes b) (direct-Codes k s next next_small)))))
  where
    b : Bool
    b = not (bit_and s (2 ^ k) == 0)

    go_on : Bool → M RangeDecoder ℕ
    go_on b' = decode_loop k (u32 (u32 (acc <<< 1) + bit b'))

    next : ℕ
    next = u32 (u32 (acc <<< 1) + bit b)

    two : 2 ≤ 2 ^ suc k
    two = omega (arith, pow-suc 2 k, one-le-pow k 2 (omega arith))

    next_lem : next ≡ acc * 2 + bit b
    next_lem = omega (arith, small, mul-le-mul_left (acc + 1) two, bit_small b)

    step : (c t : ℕ) → c < 2 → (acc * 2 + c + 1) * t ≤ (acc + 1) * (t * 2)
    step c t lt = omega (arith, mul-le-mul_right t (reach c lt))
      where
        reach : (c : ℕ) → c < 2 → acc * 2 + c + 1 ≤ acc * 2 + 2
        reach c h = omega arith

    next_small : (next + 1) * 2 ^ k ≤ 2 ^ 32
    next_small = omega (
      arith,
      small,
      ap (λ (t : ℕ). (acc + 1) * t) (pow-suc 2 k),
      ap (λ (v : ℕ). (v + 1) * 2 ^ k) next_lem,
      step (bit b) (2 ^ k) (bit_small b),
    )

    bit_value : bit b ≡ s / 2 ^ k % 2
    bit_value =
        digit_by_mask (s / 2 ^ k % 2) (bit_and s (2 ^ k)) (2 ^ k) (omega arith)
          (one-le-pow k 2 (omega arith)) (bit_at k s)

    value : next * 2 ^ k + s % 2 ^ k ≡ acc * 2 ^ suc k + s % 2 ^ suc k
    value = omega (
      arith,
      mod_pow-suc s k,
      ap (λ (v : ℕ). v * 2 ^ k) next_lem,
      ap (λ (v : ℕ). v * 2 ^ k) bit_value,
      ap (λ (v : ℕ). acc * v) (pow-suc 2 k),
    )

pub encode-Codes : (k s : ℕ) → k ≤ 32 → Codes k (encode s k) tt (decode k) (s % 2 ^ k)
unfolding decode
encode-Codes k s small =
    subst (λ v. Codes {Y = ℕ} k (encode s k) tt (decode k) v) (omega arith)
      (direct-Codes k s 0 (omega (arith, most)))
  where
    most : 2 ^ k ≤ 2 ^ 32
    most = pow-le-pow_right (omega arith) small
