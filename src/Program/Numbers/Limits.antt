-- ===== src/Program/Numbers/Limits.antt =====
-- What getnum and get_dict_size accept, and what they answer.
use lzip_os.Base.{
  ℕ, zero, suc, ◌+◌, ◌*◌, ◌/◌, ◌^◌, ◌≤◌, ◌<◌, ◌≡◌, ◌≢◌, ◌↔◌, ◌⊎◌, inl, inr, refl, sym, ap, ◌∙◌,
  arith, leb, ◌==◌, if◌then◌else◌, if_true, if_false, leb_of, leb-false_of, leb→le, leb-false,
  Bool-cases, true, false, ◌&&◌,
}
use lzip_os.Base.{[], ◌∷◌, none, some, get_or, Bytes, codes, u64, ok, err, subst}
use native.Mathlib.Nat.{pow-suc, pow-zero, one-le-pow, pow-le-pow_right}
use lzip_os.Base.{Bool, ==_iff}
use lzip_os.Base.Bits.{all_below, at_below}
use lzip_os.Lzip.Header.{isvalid_ds}
use lzip_os.Program.Numbers.{
  Number, factor_of, exponent_of, multiply, in_limits, is_nil, scaled, getnum, get_dict_size,
}

-- One multiplication.
module _ (factor ulimit r : ℕ) (f : (factor ≡ 1000) ⊎ (factor ≡ 1024)) where
  fits : r ≤ ulimit / factor → r * factor ≤ ulimit
  fits = elim f [ inl e ↦ rw e (λ h. omega arith) | inr e ↦ rw e (λ h. omega arith) ]

  over : ulimit / factor < r → ulimit < r * factor
  over = elim f [ inl e ↦ rw e (λ h. omega arith) | inr e ↦ rw e (λ h. omega arith) ]

  less : ulimit < r → ulimit / factor < r
  less = elim f [ inl e ↦ rw e (λ h. omega arith) | inr e ↦ rw e (λ h. omega arith) ]

  again : (e : ℕ) → r * factor * factor ^ e ≡ r * factor ^ suc e
  again e = omega (arith, ap (λ (t : ℕ). r * t) (pow-suc factor e))

  grows : (e : ℕ) → r * factor ≤ r * factor ^ suc e
  grows e =
      let one : 1 ≤ factor ^ e = one-le-pow e factor (omega arith) in
      let more : r * factor * 1 ≤ r * factor * factor ^ e = grind arith in
      omega (arith, more, again e)

-- The multiplications are exact, and stop exactly when the product is above the limit.
multiply_lem :
    (e factor ulimit r : ℕ)
    → (factor ≡ 1000) ⊎ (factor ≡ 1024)
    → ulimit < 2 ^ 64
    → r ≤ ulimit
    → multiply e factor ulimit r
      ≡ (if leb (r * factor ^ e) ulimit then some (r * factor ^ e) else none)
unfolding multiply
multiply_lem zero factor ulimit r f u h =
    let same : r * factor ^ 0 ≡ r = ap (λ (t : ℕ). r * t) (pow-zero factor) ∙ omega arith in
    rw same (sym (if_true (some r) none (leb_of r ulimit h)))
multiply_lem (suc e) factor ulimit r f u h = elim (Bool-cases (leb r (ulimit / factor))) [
  | inl small ↦
      let room = fits factor ulimit r f (leb→le _ _ small) in
      let word : u64 (r * factor) ≡ r * factor = omega arith in
      if_true _ _ small
      ∙ ap (multiply e factor ulimit) word
      ∙ multiply_lem e factor ulimit (r * factor) f u room
      ∙ ap (λ (k : ℕ). if leb k ulimit then some k else none) (again factor ulimit r f e)
  | inr more ↦
      let beyond = over factor ulimit r f (leb-false _ _ more) in
      if_false _ _ more
      ∙ sym (
          if_false _ _ (
            leb-false_of (r * factor ^ suc e) ulimit
              (omega (arith, beyond, grows factor ulimit r f e))))
]

other : (c d : ℕ) → c ≢ d → (c == d) ≡ false
other c d h = ground (arith, h)

nonzero : (k : ℕ) → 1 ≤ k → (k == 0) ≡ false
nonzero k h = ground arith

-- The place of a letter in a list of prefixes, from 1 on; 0 if it is none of them.
unfoldable pub place_in : Bytes → ℕ → ℕ
place_in [] c = 0
place_in (prefix ∷ prefixes) c =
    let rest = place_in prefixes c in if prefix == c then 1 else if rest == 0 then 0 else rest + 1

abbrev pub power_of : ℕ → ℕ → ℕ
power_of base zero = 0
power_of base (suc n) = base ^ suc n

-- The multiplier of the text behind the digits, as the formats are documented: 1 if there is none, a power
-- of 1024 for the prefixes from Ki to Qi, a power of 1000 for those from k to Q, and 0 if it is bad.
unfoldable pub multiplier : Bytes → ℕ
unfolding place_in
multiplier [] = 1
multiplier (c ∷ tail) =
    if get_or tail 0 0 == b'i'
    then power_of 1024 (place_in (codes "KMGTPEZYRQ") c)
    else power_of 1000 (place_in (codes "kMGTPEZYRQ") c)

-- Letters above k are none of the prefixes.
no_place :
    (c : ℕ)
    → 108 ≤ c
    → (exponent_of (c ∷ codes "i") ≡ 0)
      × (exponent_of (c ∷ []) ≡ 0)
      × (place_in (codes "KMGTPEZYRQ") c ≡ 0)
      × (place_in (codes "kMGTPEZYRQ") c ≡ 0)
unfolding exponent_of factor_of place_in
no_place c h =
    rw
      (
        other c b'Q' (omega arith),
        other c b'R' (omega arith),
        other c b'Y' (omega arith),
        other c b'Z' (omega arith),
        other c b'E' (omega arith),
        other c b'P' (omega arith),
        other c b'T' (omega arith),
        other c b'G' (omega arith),
        other c b'M' (omega arith),
        other c b'K' (omega arith),
        other c b'k' (omega arith),
        other b'Q' c (omega arith),
        other b'R' c (omega arith),
        other b'Y' c (omega arith),
        other b'Z' c (omega arith),
        other b'E' c (omega arith),
        other b'P' c (omega arith),
        other b'T' c (omega arith),
        other b'G' c (omega arith),
        other b'M' c (omega arith),
        other b'K' c (omega arith),
        other b'k' c (omega arith),
      )
      (refl, refl, refl, refl)

binary_places : (c : ℕ) → exponent_of (c ∷ codes "i") ≡ place_in (codes "KMGTPEZYRQ") c
binary_places c = elim (Bool-cases (leb 108 c)) [
  | inl large ↦ (no_place c (leb→le _ _ large)).0 ∙ sym (no_place c (leb→le _ _ large)).2
  | inr small ↦ (==_iff _ _).0 (at_below binary_test 108 c (leb-false _ _ small) binary_tests)
]
  where
    binary_test : ℕ → Bool
    binary_test c = exponent_of (c ∷ codes "i") == place_in (codes "KMGTPEZYRQ") c

    binary_tests : all_below binary_test 108 ≡ true
    binary_tests = unfold all_below exponent_of factor_of place_in in refl

decimal_places : (c : ℕ) → exponent_of (c ∷ []) ≡ place_in (codes "kMGTPEZYRQ") c
decimal_places c = elim (Bool-cases (leb 108 c)) [
  | inl large ↦ (no_place c (leb→le _ _ large)).1 ∙ sym (no_place c (leb→le _ _ large)).3
  | inr small ↦ (==_iff _ _).0 (at_below decimal_test 108 c (leb-false _ _ small) decimal_tests)
]
  where
    decimal_test : ℕ → Bool
    decimal_test c = exponent_of (c ∷ []) == place_in (codes "kMGTPEZYRQ") c

    decimal_tests : all_below decimal_test 108 ≡ true
    decimal_tests = unfold all_below exponent_of factor_of place_in in refl

-- The switch looks no further than at the letter `i`.
binary_switch :
    (c : ℕ) (tail : Bytes)
    → (get_or tail 0 0 == b'i') ≡ true
    → exponent_of (c ∷ tail) ≡ exponent_of (c ∷ codes "i")
unfolding exponent_of factor_of
binary_switch c tail e = rw e refl

decimal_switch :
    (c : ℕ) (tail : Bytes)
    → (get_or tail 0 0 == b'i') ≡ false
    → exponent_of (c ∷ tail) ≡ exponent_of (c ∷ [])
unfolding exponent_of factor_of
decimal_switch c tail e = rw e refl

-- What the switch and the loop compute.
abbrev switched : Bytes → ℕ
switched [] = 1
switched (c ∷ tail) =
    if exponent_of (c ∷ tail) == 0 then 0 else factor_of (c ∷ tail) ^ exponent_of (c ∷ tail)

power_of_lem : (base n : ℕ) → (if n == 0 then 0 else base ^ n) ≡ power_of base n
power_of_lem base zero = refl
power_of_lem base (suc n) = if_false _ _ (nonzero (suc n) (omega arith))

switched-multiplier : (tail : Bytes) → switched tail ≡ multiplier tail
unfolding multiplier factor_of
switched-multiplier [] = refl
switched-multiplier (c ∷ tail) = elim (Bool-cases (get_or tail 0 0 == b'i')) [
  | inl binary ↦
      rw (binary, binary_switch c tail binary, binary_places c)
        (power_of_lem 1024 (place_in (codes "KMGTPEZYRQ") c))
  | inr decimal ↦
      rw (decimal, decimal_switch c tail decimal, decimal_places c)
        (power_of_lem 1000 (place_in (codes "kMGTPEZYRQ") c))
]

-- The limits decide as if there were no bound on the way.
in_limits-multiply :
    (e factor llimit ulimit r : ℕ)
    → (factor ≡ 1000) ⊎ (factor ≡ 1024)
    → ulimit < 2 ^ 64
    → in_limits llimit ulimit (multiply (suc e) factor ulimit r)
      ≡ in_limits llimit ulimit (some (r * factor ^ suc e))
in_limits-multiply e factor llimit ulimit r f u = elim (Bool-cases (leb r ulimit)) [
  | inl small ↦
      ap (in_limits llimit ulimit) (multiply_lem (suc e) factor ulimit r f u (leb→le _ _ small))
      ∙ by_limit (r * factor ^ suc e)
  | inr more ↦
      ap (in_limits llimit ulimit) (stopped (leb-false _ _ more))
      ∙ beyond_limit (r * factor ^ suc e) (
          omega (
            arith,
            over factor ulimit r f (less factor ulimit r f (leb-false _ _ more)),
            grows factor ulimit r f e,
          ))
]
  where
    by_limit :
        (k : ℕ)
        → in_limits llimit ulimit (if leb k ulimit then some k else none)
          ≡ in_limits llimit ulimit (some k)
    by_limit k = ground arith

    beyond_limit :
        (k : ℕ) → ulimit < k → in_limits llimit ulimit none ≡ in_limits llimit ulimit (some k)
    beyond_limit k h = ground arith

    stopped : ulimit < r → multiply (suc e) factor ulimit r ≡ none
    stopped h =
        unfold multiply in
        if_false _ _ (leb-false_of r (ulimit / factor) (less factor ulimit r f h))

factor_of_cases : (tail : Bytes) → (factor_of tail ≡ 1000) ⊎ (factor_of tail ≡ 1024)
unfolding factor_of
factor_of_cases tail = elim (Bool-cases (get_or tail 1 0 == b'i')) [
  | inl binary ↦ inr (if_true _ _ binary)
  | inr decimal ↦ inl (if_false _ _ decimal)
]

-- `scaled` without the loop, and then without the switch.
scaled-switched :
    (tail : Bytes) (value llimit ulimit : ℕ)
    → ulimit < 2 ^ 64
    → scaled tail value llimit ulimit ≡ (
        if switched tail == 0
        then err "Bad multiplier in numerical argument"
        else in_limits llimit ulimit (some (value * switched tail)))
unfolding scaled
scaled-switched [] value llimit ulimit u =
    let same : value ≡ value * 1 = omega arith in ap (λ k. in_limits llimit ulimit (some k)) same
scaled-switched (c ∷ tail) value llimit ulimit u =
    by_exponent (exponent_of (c ∷ tail)) (factor_of (c ∷ tail)) (factor_of_cases (c ∷ tail))
  where
    by_exponent :
        (e f : ℕ)
        → (f ≡ 1000) ⊎ (f ≡ 1024)
        → (if e == 0
            then err "Bad multiplier in numerical argument"
            else in_limits llimit ulimit (multiply e f ulimit value))
          ≡ (if (if e == 0 then 0 else f ^ e) == 0
              then err "Bad multiplier in numerical argument"
              else in_limits llimit ulimit (some (value * (if e == 0 then 0 else f ^ e))))
    by_exponent zero f h = refl
    by_exponent (suc e) f h =
        let some_factor : 1 ≤ f ^ suc e = one-le-pow (suc e) f (omega arith) in
        rw (nonzero (suc e) (omega arith), nonzero (f ^ suc e) some_factor)
          (in_limits-multiply e f llimit ulimit value h u)

scaled_lem :
    (tail : Bytes) (value llimit ulimit : ℕ)
    → ulimit < 2 ^ 64
    → scaled tail value llimit ulimit ≡ (
        if multiplier tail == 0
        then err "Bad multiplier in numerical argument"
        else in_limits llimit ulimit (some (value * multiplier tail)))
scaled_lem tail value llimit ulimit u =
    scaled-switched tail value llimit ulimit u
    ∙ ap
        (λ (k : ℕ).
          if k == 0
          then err "Bad multiplier in numerical argument"
          else in_limits llimit ulimit (some (value * k)))
        (switched-multiplier tail)

-- `getnum` answers a number exactly when strtoull has read one without an error, the text behind it is empty
-- or begins with a prefix from k to Q or from Ki to Qi, and the product with 1, or with the power of 1000 or
-- of 1024 of the prefix, without bounds on its width, is in the limits; the answer is the product. The upper
-- limit is one of 64 bits.
pub getnum_iff :
    (strtoull : Bytes → Number) (arg : Bytes) (llimit ulimit n : ℕ)
    → ulimit < 2 ^ 64
    → let s = strtoull arg in
      (getnum strtoull arg llimit ulimit ≡ ok n) ↔ (
        (s.any ≡ true)
        × (s.range_error ≡ false)
        × (multiplier s.tail ≢ 0)
        × (n ≡ s.value * multiplier s.tail)
        × (llimit ≤ n)
        × (n ≤ ulimit))
getnum_iff strtoull arg llimit ulimit n u =
    unfold getnum in
    ground (arith, scaled_lem (strtoull arg).tail (strtoull arg).value llimit ulimit u)

power_fits : (bits : ℕ) → 12 ≤ bits → bits ≤ 29 → isvalid_ds (2 ^ bits) ≡ true
unfolding isvalid_ds
power_fits bits low high =
    let least : 2 ^ 12 ≤ 2 ^ bits = pow-le-pow_right (omega arith) low in
    let most : 2 ^ bits ≤ 2 ^ 29 = pow-le-pow_right (omega arith) high in
    valid_of (2 ^ bits) least most
  where
    valid_of : (k : ℕ) → 4096 ≤ k → k ≤ 536870912 → isvalid_ds k ≡ true
    valid_of k h g = ground arith

-- A dictionary size that `get_dict_size` answers is a valid one, whatever strtol and strtoull answer.
pub get_dict_size-valid :
    (strtol strtoull : Bytes → Number) (arg : Bytes) (n : ℕ)
    → get_dict_size strtol strtoull arg ≡ ok n
    → isvalid_ds n ≡ true
unfolding get_dict_size
get_dict_size-valid strtol strtoull arg n h =
    elim (Bool-cases
      (leb 12 (strtol arg).value && (leb (strtol arg).value 29 && is_nil (strtol arg).tail))) [
        | inl power ↦
            let same : ok (2 ^ (strtol arg).value) ≡ ok n = sym (if_true _ _ power) ∙ h in
            subst (λ k. isvalid_ds k ≡ true) (ok_inj same)
              (power_fits (strtol arg).value (ground arith) (ground arith))
        | inr other ↦
            let limits =
              (getnum_iff strtoull arg 4096 536870912 n (omega arith)).0
                (sym (if_false _ _ other) ∙ h) in
            unfold isvalid_ds in ground (arith, limits)
      ]
  where
    ok_inj : {a b : ℕ} → ok a ≡ ok b → a ≡ b
    ok_inj e = cc
