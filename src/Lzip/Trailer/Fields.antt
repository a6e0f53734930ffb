-- ===== src/Lzip/Trailer/Fields.antt =====
-- Reading back what was stored in the fields of a trailer.
use lzip_os.Base.{ℕ, zero, suc, ◌+◌, ◌*◌, ◌/◌, ◌%◌, ◌^◌, ◌≤◌, ◌<◌, ◌≡◌, ◌⊎◌, inl, refl, ap, ◌∙◌}
use lzip_os.Base.{arith, get_or, set, length, length-set, get_or-set_self, get_or-set_ne}
use native.Mathlib.Nat.{mod-eq_of_lt}
use lzip_os.Lzip.Trailer.{LzipTrailer, trailer_size, get_field, put_field, data_crc, set_data_crc}
use lzip_os.Lzip.Trailer.{data_size, set_data_size, member_size, set_member_size}

-- `t * 256 ^ n`, by steps.
abbrev shift : ℕ → ℕ → ℕ
shift t zero = t
shift t (suc n) = shift (t * 256) n

-- The little-endian value of `n` bytes from index `i` on.
abbrev value : LzipTrailer → ℕ → ℕ → ℕ
value t i zero = 0
value t i (suc n) = get_or t i 0 + 256 * value t (suc i) n

shift-add : (n a b : ℕ) → shift (a + b) n ≡ shift a n + shift b n
shift-add zero a b = refl
shift-add (suc n) a b = ap (λ (t : ℕ). shift t n) (omega arith) ∙ shift-add n (a * 256) (b * 256)

shift-mul : (n a : ℕ) → shift (a * 256) n ≡ 256 * shift a n
shift-mul zero a = omega arith
shift-mul (suc n) a = shift-mul n (a * 256)

shift-le : (n a : ℕ) → a ≤ shift a n
shift-le zero a = omega arith
shift-le (suc n) a = omega (arith, shift-le n (a * 256))

-- The last byte of a field is its highest.
value-last :
    (n i : ℕ) (t : LzipTrailer) → value t i (suc n) ≡ value t i n + shift (get_or t (i + n) 0) n
value-last zero i t = let e : i + 0 ≡ i = omega arith in rw e (omega arith)
value-last (suc n) i t =
    let e : suc i + n ≡ i + suc n = omega arith in
    omega (
      arith,
      value-last n (suc i) t,
      ap (λ (j : ℕ). shift (get_or t j 0) n) e,
      shift-mul n (get_or t (i + suc n) 0),
    )

get_field-value :
    (modulus i n tmp : ℕ) (t : LzipTrailer)
    → shift tmp n + value t i n < modulus
    → get_field modulus i n tmp t ≡ shift tmp n + value t i n
unfolding get_field
get_field-value modulus i zero tmp t h = omega arith
get_field-value modulus i (suc n) tmp t h =
    let b : ℕ = get_or t (i + n) 0 in
    let sum : shift (tmp * 256 + b) n + value t i n ≡ shift (tmp * 256) n + value t i (suc n) =
      omega (arith, value-last n i t, shift-add n (tmp * 256) b) in
    let no_wrap : (tmp * 256 % modulus + b) % modulus ≡ tmp * 256 + b =
      grind (arith, mod-eq_of_lt, shift-le n (tmp * 256 + b)) in
    rw no_wrap (get_field-value modulus i n (tmp * 256 + b) t (omega (arith, sum)) ∙ sum)

pub length-put_field : (i n v : ℕ) (t : LzipTrailer) → length (put_field i n v t) ≡ length t
unfolding put_field
length-put_field i zero v t = refl
length-put_field i (suc n) v t =
    length-put_field (suc i) n (v / 256) (set t i (v % 256)) ∙ length-set t i (v % 256)

-- A field is written without touching the bytes outside it.
pub put_field-frame :
    (i n v j : ℕ) (t : LzipTrailer)
    → (j < i) ⊎ (i + n ≤ j)
    → get_or (put_field i n v t) j 0 ≡ get_or t j 0
unfolding put_field
put_field-frame i zero v j t h = refl
put_field-frame i (suc n) v j t h =
    put_field-frame (suc i) n (v / 256) j (set t i (v % 256)) (omega arith)
    ∙ get_or-set_ne t i j (v % 256) 0 (omega arith)

value-put_field :
    (i n v : ℕ) (t : LzipTrailer)
    → v < shift 1 n
    → i + n ≤ length t
    → value (put_field i n v t) i n ≡ v
value-put_field i zero v t h fits = omega arith
value-put_field i (suc n) v t h fits =
    join
      (put_field-frame (suc i) n (v / 256) i (set t i (v % 256)) (inl (omega arith))
        ∙ get_or-set_self t i (v % 256) 0 (omega arith))
      (value-put_field (suc i) n (v / 256) (set t i (v % 256)) (omega (arith, shift-mul n 1))
        (omega (arith, length-set t i (v % 256))))
  where
    join :
        get_or (put_field (suc i) n (v / 256) (set t i (v % 256))) i 0 ≡ v % 256
        → value (put_field (suc i) n (v / 256) (set t i (v % 256))) (suc i) n ≡ v / 256
        → value (put_field i (suc n) v t) i (suc n) ≡ v
    join low high = unfold put_field in omega arith

value_ext :
    (i n : ℕ) (s t : LzipTrailer)
    → ((j : ℕ) → i ≤ j → j < i + n → get_or s j 0 ≡ get_or t j 0)
    → value s i n ≡ value t i n
value_ext i zero s t h = refl
value_ext i (suc n) s t h = omega (
  arith,
  h i (omega arith) (omega arith),
  value_ext (suc i) n s t (λ j p q. h j (omega arith) (omega arith)),
)

value-put_other :
    (i n k m v : ℕ) (t : LzipTrailer)
    → (i + n ≤ k) ⊎ (k + m ≤ i)
    → value (put_field k m v t) i n ≡ value t i n
value-put_other i n k m v t h =
    value_ext i n (put_field k m v t) t (λ j p q. put_field-frame k m v j t (omega arith))

-- A field whose value fits its type is read as that value.
get_field-small :
    (modulus i n : ℕ) (t : LzipTrailer) (v : ℕ)
    → value t i n ≡ v
    → v < modulus
    → get_field modulus i n 0 t ≡ v
get_field-small modulus i n t v e h =
    get_field-value modulus i n 0 t (omega (arith, zeros n)) ∙ omega (arith, zeros n, e)
  where
    zeros : (k : ℕ) → shift 0 k ≡ 0
    zeros zero = refl
    zeros (suc k) = zeros k

-- The three fields stored in any twenty bytes, as `full_flush` does, are read back as they were, for
-- a CRC below 2 ^ 32 and sizes below 2 ^ 64, and twenty bytes they remain.
pub fields_round_trip :
    (t : LzipTrailer) (crc dsize msize : ℕ)
    → length t ≡ trailer_size
    → crc < 2 ^ 32
    → dsize < 2 ^ 64
    → msize < 2 ^ 64
    → let t' = set_member_size msize (set_data_size dsize (set_data_crc crc t)) in
      (data_crc t' ≡ crc)
      × (data_size t' ≡ dsize)
      × (member_size t' ≡ msize)
      × (length t' ≡ trailer_size)
unfolding data_crc set_data_crc data_size set_data_size member_size set_member_size
fields_round_trip t crc dsize msize len hc hd hm = (
  get_field-small (2 ^ 32) 0 4 t₃ crc
      (value-put_other 0 4 12 8 msize t₂ (inl (omega arith))
        ∙ value-put_other 0 4 4 8 dsize t₁ (inl (omega arith))
        ∙ value-put_field 0 4 crc t hc (omega arith))
      hc,
  get_field-small (2 ^ 64) 4 8 t₃ dsize
      (value-put_other 4 8 12 8 msize t₂ (inl (omega arith))
        ∙ value-put_field 4 8 dsize t₁ hd (omega (arith, length-put_field 0 4 crc t)))
      hd,
  get_field-small (2 ^ 64) 12 8 t₃ msize
      (value-put_field 12 8 msize t₂ hm
        (omega (arith, length-put_field 0 4 crc t, length-put_field 4 8 dsize t₁)))
      hm,
  length-put_field 12 8 msize t₂ ∙ length-put_field 4 8 dsize t₁ ∙ length-put_field 0 4 crc t ∙ len,
)
  where
    t₁ : LzipTrailer
    t₁ = put_field 0 4 crc t

    t₂ : LzipTrailer
    t₂ = put_field 4 8 dsize t₁

    t₃ : LzipTrailer
    t₃ = put_field 12 8 msize t₂
