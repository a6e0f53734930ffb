-- ===== src/Lzip/Crc/Reference.antt =====
-- The table-driven update against the shift register that it stands for.
use lzip_os.Base.{ℕ, zero, suc, ◌+◌, ◌*◌, ◌/◌, ◌%◌, ◌^◌, ◌<◌, ◌≡◌, refl, sym, ap, ap₂, ◌∙◌, arith}
use lzip_os.Base.{List, [], ◌∷◌, ◌++◌, bit_xor, get_or, IsByte, All, ◌⊎◌, inl, inr}
use lzip_os.Base.Bits.{bit_and-one, bit_and_byte}
use lzip_os.Base.Xor.{bit_xor_half, bit_xor_parity, bit_xor_masks, bit_xor_assoc}
use lzip_os.Base.Xor.{bit_xor_left_comm, bit_xor_fields, bit_xor-lt, bit_xor_comm}
use mathlib.Core.Path.{◌≡⟨◌⟩◌, ◌∎}
use lzip_os.Lzip.Crc.{polynomial, shift_bit, shift_bits, table_from, table, update_byte, update_buf}

-- The register: the byte enters at the low end, and eight bits are shifted out.
unfoldable pub register : ℕ → ℕ → ℕ
register crc byte = shift_bits 8 (bit_xor crc byte)

shift_even : (c : ℕ) → c % 2 ≡ 0 → shift_bit c ≡ c / 2
unfolding shift_bit
shift_even c h = ground (arith, bit_and-one c)

shift_odd : (c : ℕ) → c % 2 ≡ 1 → shift_bit c ≡ bit_xor polynomial (c / 2)
unfolding shift_bit
shift_odd c h = ground (arith, bit_and-one c)

parity : (c : ℕ) → (c % 2 ≡ 0) ⊎ (c % 2 ≡ 1)
parity c = omega arith

-- Shifting is linear.
shift_bit-xor : (a b : ℕ) → shift_bit (bit_xor a b) ≡ bit_xor (shift_bit a) (shift_bit b)
shift_bit-xor a b = elim (parity a) [
  | inl p ↦ elim (parity b) [
    | inl q ↦
        rw
          (
            shift_even a p,
            shift_even b q,
            shift_even (bit_xor a b) (omega (arith, bit_xor_parity a b)),
          )
          (bit_xor_half a b)
    | inr q ↦ rw (
      shift_even a p,
      shift_odd b q,
      shift_odd (bit_xor a b) (omega (arith, bit_xor_parity a b)),
      bit_xor_half a b,
      bit_xor_left_comm polynomial (a / 2) (b / 2),
    )
  ]
  | inr p ↦ elim (parity b) [
    | inl q ↦ rw (
      shift_odd a p,
      shift_even b q,
      shift_odd (bit_xor a b) (omega (arith, bit_xor_parity a b)),
      bit_xor_half a b,
      bit_xor_assoc polynomial (a / 2) (b / 2),
    )
    | inr q ↦
        rw
          (
            shift_odd a p,
            shift_odd b q,
            shift_even (bit_xor a b) (omega (arith, bit_xor_parity a b)),
            bit_xor_masks polynomial (a / 2) (b / 2),
          )
          (bit_xor_half a b)
  ]
]

shift_bits-xor :
    (k a b : ℕ) → shift_bits k (bit_xor a b) ≡ bit_xor (shift_bits k a) (shift_bits k b)
unfolding shift_bits
shift_bits-xor zero a b = refl
shift_bits-xor (suc k) a b = rw (shift_bit-xor a b) (shift_bits-xor k (shift_bit a) (shift_bit b))

shift_double : (c : ℕ) → shift_bit (c * 2) ≡ c
shift_double c = shift_even (c * 2) (omega arith) ∙ omega arith

-- A whole number of bytes is shifted down as it is.
shift_bits_high : (h : ℕ) → shift_bits 8 (h * 2 ^ 8) ≡ h
unfolding shift_bits
shift_bits_high h =
    let e : h * 2 ^ 8 ≡ h * 2 * 2 * 2 * 2 * 2 * 2 * 2 * 2 = omega arith in
    rw (
      e,
      shift_double (h * 2 * 2 * 2 * 2 * 2 * 2 * 2),
      shift_double (h * 2 * 2 * 2 * 2 * 2 * 2),
      shift_double (h * 2 * 2 * 2 * 2 * 2),
      shift_double (h * 2 * 2 * 2 * 2),
      shift_double (h * 2 * 2 * 2),
      shift_double (h * 2 * 2),
      shift_double (h * 2),
      shift_double h,
    )

table_from-get : (left n i : ℕ) → i < left → get_or (table_from n left) i 0 ≡ shift_bits 8 (n + i)
unfolding table_from
table_from-get zero n i h = absurd (omega arith)
table_from-get (suc left) n zero h = ap (shift_bits 8) (omega arith)
table_from-get (suc left) n (suc i) h =
    table_from-get left (suc n) i (omega arith) ∙ ap (shift_bits 8) (omega arith)

table_row : (i : ℕ) → i < 256 → get_or table i 0 ≡ shift_bits 8 i
table_row i h = rows ∙ ap (shift_bits 8) (omega arith)
  where
    rows : get_or table i 0 ≡ shift_bits 8 (0 + i)
    rows = unfold table in table_from-get 256 0 i h

-- `crc ^ byte`, by its high part and its low byte.
xor_byte : (crc b : ℕ) → b < 256 → bit_xor crc b ≡ crc / 256 * 2 ^ 8 + bit_xor b (crc % 256)
xor_byte crc b h =
    bit_xor crc b
    ≡⟨ bit_xor_comm crc b ⟩ bit_xor b crc
    ≡⟨ ap (bit_xor b) split ⟩ bit_xor b (bit_xor (crc % 256) (crc / 256 * 2 ^ 8))
    ≡⟨ sym (bit_xor_assoc b (crc % 256) (crc / 256 * 2 ^ 8)) ⟩
      bit_xor (bit_xor b (crc % 256)) (crc / 256 * 2 ^ 8)
    ≡⟨ bit_xor_fields 8 (crc / 256) (bit_xor b (crc % 256))
        (bit_xor-lt 8 b (crc % 256) h (omega arith)) ⟩
      crc / 256 * 2 ^ 8 + bit_xor b (crc % 256) ∎
  where
    split : crc ≡ bit_xor (crc % 256) (crc / 256 * 2 ^ 8)
    split = omega (arith, bit_xor_fields 8 (crc / 256) (crc % 256) (omega arith))

-- Eight rounds on any number: the row of its low byte, and the rest shifted down.
shift_bits_split : (x : ℕ) → shift_bits 8 x ≡ bit_xor (get_or table (x % 256) 0) (x / 256)
shift_bits_split x =
    shift_bits 8 x
    ≡⟨ ap (shift_bits 8) split ⟩ shift_bits 8 (bit_xor (x % 256) (x / 256 * 2 ^ 8))
    ≡⟨ shift_bits-xor 8 (x % 256) (x / 256 * 2 ^ 8) ⟩
      bit_xor (shift_bits 8 (x % 256)) (shift_bits 8 (x / 256 * 2 ^ 8))
    ≡⟨ ap₂ bit_xor (sym (table_row (x % 256) (omega arith))) (shift_bits_high (x / 256)) ⟩
      bit_xor (get_or table (x % 256) 0) (x / 256) ∎
  where
    split : x ≡ bit_xor (x % 256) (x / 256 * 2 ^ 8)
    split = omega (arith, bit_xor_fields 8 (x / 256) (x % 256) (omega arith))

-- For a byte, one look-up does the work of eight rounds of the shift register.
pub update_byte_lem : (crc byte : ℕ) → IsByte byte → update_byte crc byte ≡ register crc byte
unfolding update_byte register
update_byte_lem crc byte h =
    rw (shift_bits_split (bit_xor crc byte), bit_and_byte (bit_xor crc byte))
      (ap (λ (t : ℕ). bit_xor (get_or table (bit_xor crc byte % 256) 0) t) high)
  where
    high : crc / 2 ^ 8 ≡ bit_xor crc byte / 256
    high = omega (arith, xor_byte crc byte h, bit_xor-lt 8 byte (crc % 256) h (omega arith))

-- The register fed byte by byte.
unfoldable pub registers : ℕ → List ℕ → ℕ
registers crc [] = crc
registers crc (b ∷ bs) = registers (register crc b) bs

update_buf-registers :
    (crc : ℕ) (bs : List ℕ) → All IsByte bs → update_buf crc bs ≡ registers crc bs
unfolding update_buf registers
update_buf-registers crc [] h = refl
update_buf-registers crc (b ∷ bs) (hb, hs) =
    rw (update_byte_lem crc b hb) (update_buf-registers (register crc b) bs hs)

pub update_buf-append :
    (crc : ℕ) (front back : List ℕ)
    → update_buf crc (front ++ back) ≡ update_buf (update_buf crc front) back
unfolding update_buf
update_buf-append crc [] back = refl
update_buf-append crc (b ∷ front) back = update_buf-append (update_byte crc b) front back

-- For bytes, `update_buf` is the shift register fed with them in order, and a buffer that comes in
-- two parts gives the same as the whole.
pub update_buf_lem :
    (crc : ℕ) (front back : List ℕ)
    → All IsByte (front ++ back)
    → (update_buf crc (front ++ back) ≡ registers crc (front ++ back))
      × (update_buf (update_buf crc front) back ≡ registers crc (front ++ back))
update_buf_lem crc front back h =
    let whole = update_buf-registers crc (front ++ back) h in
    (whole, sym (update_buf-append crc front back) ∙ whole)
