-- ===== src/Program/Names/Volumes.antt =====
-- Names of compressed files and of volumes.
use lzip_os.Base.{
  ℕ, zero, suc, ◌+◌, ◌-◌, ◌/◌, ◌%◌, ◌≤◌, ◌<◌, ◌≡◌, ◌≢◌, refl, ap, ◌∙◌, arith, if_true, lt→ltb,
  leb_of, ltb, if◌then◌else◌, Bool, true, false, ◌&&◌, ◌||◌, not,
}
use lzip_os.Base.{
  [], ◌∷◌, ◌++◌, some, length, length-append, take, drop, take-length-append, drop-length-append,
  get_or, set, Bytes, codes, same_bytes,
}
use mathlib.Core.List.{append-nil}
use lzip_os.Program.Names.{
  is_none, extension_from, extension_index, set_c_outname, set_d_outname, count_up, next_filename,
}

-- A compressed name is recognised, and what is left of it is the name before.
module _ (name : Bytes) where
  front : take (length (name ++ codes ".lz") - 3) (name ++ codes ".lz") ≡ name
  front =
      ap (λ n. take n (name ++ codes ".lz")) (omega (arith, length-append name (codes ".lz")))
      ∙ take-length-append name (codes ".lz")

  back : drop (length (name ++ codes ".lz") - 3) (name ++ codes ".lz") ≡ codes ".lz"
  back =
      ap (λ n. drop n (name ++ codes ".lz")) (omega (arith, length-append name (codes ".lz")))
      ∙ drop-length-append name (codes ".lz")

-- The name of the first volume, or of the only file, without its extension.
abbrev pub first_name : Bytes → Bool → Bytes
first_name name multifile = if multifile then name ++ codes "00001" else name

longer : (name : Bytes) → name ≢ [] → 3 < length (name ++ codes ".lz")
longer [] h = absurd (h refl)
longer (c ∷ name) h = omega (arith, length-append (c ∷ name) (codes ".lz"))

-- A compressed name: its extension is found and taken off.
lz_name :
    (name : Bytes)
    → name ≢ []
    → (extension_index (name ++ codes ".lz") ≡ some 0)
      × (set_d_outname (name ++ codes ".lz") (extension_index (name ++ codes ".lz")) ≡ name)
lz_name name h = (found, rw found again)
  where
    found : extension_index (name ++ codes ".lz") ≡ some 0
    found =
        unfold extension_index extension_from in
        if_true
          {b = ltb 3 (length (name ++ codes ".lz"))
            && same_bytes (drop (length (name ++ codes ".lz") - 3) (name ++ codes ".lz"))
                (codes ".lz")}
          _ _ (rw (back name) (ground (arith, longer name h)))

    again : set_d_outname (name ++ codes ".lz") (some 0) ≡ name
    again =
        unfold set_d_outname in
        if_true _ _ (lt→ltb 3 (length (name ++ codes ".lz")) (longer name h))
        ∙ ap (λ s. s ++ []) (front name)
        ∙ append-nil name

not_empty : (name : Bytes) (multifile : Bool) → name ≢ [] → first_name name multifile ≢ []
not_empty [] multifile h = absurd (h refl)
not_empty (c ∷ name) true h = cc
not_empty (c ∷ name) false h = cc

-- Decompressing gives back the name: for a name that is not empty, whenever set_c_outname gives an
-- extension (it is forced, or there are volumes, or the name is not of a file of the command line and has no
-- extension that lzip knows), the extension of the name that it gives is found, and the name that
-- decompressing gives is `name`, behind which "00001" stands if there are volumes.
pub set_d_outname-set_c_outname :
    (name : Bytes) (filenames_given force_ext multifile : Bool)
    → name ≢ []
    → (force_ext
        || (multifile
            || (not filenames_given && is_none (extension_index (first_name name multifile)))))
      ≡ true
    → (extension_index (set_c_outname name filenames_given force_ext multifile) ≡ some 0)
      × (set_d_outname
            (set_c_outname name filenames_given force_ext multifile)
            (extension_index (set_c_outname name filenames_given force_ext multifile))
          ≡ first_name name multifile)
unfolding set_c_outname
set_d_outname-set_c_outname name filenames_given force_ext multifile h e =
    let given : set_c_outname name filenames_given force_ext multifile
        ≡ first_name name multifile ++ codes ".lz" =
      if_true _ _ e in
    rw given (lz_name (first_name name multifile) (not_empty name multifile h))

get_or-append : (base xs : Bytes) (k : ℕ) → get_or (base ++ xs) (length base + k) 0 ≡ get_or xs k 0
get_or-append [] xs k = ap (λ i. get_or xs i 0) (omega arith)
get_or-append (c ∷ base) xs k =
    ap (λ i. get_or (c ∷ (base ++ xs)) i 0) (next_lem (length base)) ∙ get_or-append base xs k
  where
    next_lem : (n : ℕ) → suc n + k ≡ suc (n + k)
    next_lem n = omega arith

set-append : (base xs : Bytes) (k v : ℕ) → set (base ++ xs) (length base + k) v ≡ base ++ set xs k v
set-append [] xs k v = ap (λ i. set xs i v) (omega arith)
set-append (c ∷ base) xs k v =
    ap (λ i. set (c ∷ (base ++ xs)) i v) (next_lem (length base))
    ∙ ap (λ s. c ∷ s) (set-append base xs k v)
  where
    next_lem : (n : ℕ) → suc n + k ≡ suc (n + k)
    next_lem n = omega arith

abbrev behind : Bytes → Bool × Bytes → Bool × Bytes
behind base r = (r.0, base ++ r.1)

behind_if :
    (b : Bool) (base : Bytes) (p q : Bool × Bytes) (xs : Bytes)
    → p ≡ behind base q
    → (if b then (true, base ++ xs) else p) ≡ behind base (if b then (true, xs) else q)
behind_if true base p q xs e = refl
behind_if false base p q xs e = e

-- The loop does not look in front of its digits.
count_up-append :
    (j k : ℕ) (base xs : Bytes)
    → j ≤ k + 1
    → count_up j (length base + k) (base ++ xs) ≡ behind base (count_up j k xs)
unfolding count_up
count_up-append zero k base xs h = refl
count_up-append (suc zero) k base xs h =
    rw
      (get_or-append base xs k, set-append base xs k b'0', set-append base xs k (get_or xs k 0 + 1))
      (behind_if (ltb (get_or xs k 0) b'9') base _ _ _ refl)
count_up-append (suc (suc j)) k base xs h =
    let down : length base + k - 1 ≡ length base + (k - 1) = omega arith in
    let ih = count_up-append (suc j) (k - 1) base (set xs k b'0') (omega arith) in
    rw
      (get_or-append base xs k, set-append base xs k b'0', set-append base xs k (get_or xs k 0 + 1))
      (behind_if (ltb (get_or xs k 0) b'9') base _ (count_up (suc j) (k - 1) (set xs k b'0')) _
        (ap (λ i. count_up (suc j) i (base ++ set xs k b'0')) down ∙ ih))

-- A number of five digits.
abbrev pub five_digits : ℕ → Bytes
five_digits n =
    (n / 10000 % 10 + b'0')
    ∷ (n / 1000 % 10 + b'0')
    ∷ (n / 100 % 10 + b'0')
    ∷ (n / 10 % 10 + b'0')
    ∷ (n % 10 + b'0')
    ∷ []

digits_up :
    (n : ℕ)
    → n < 100000
    → count_up 5 4 (five_digits n ++ codes ".lz")
      ≡ (ltb n 99999, five_digits (n + 1) ++ codes ".lz")
unfolding count_up
digits_up n h = ground arith

-- For a name that ends in five digits and ".lz", whatever stands before them: next_filename counts the
-- digits up by one, and below 99999 answers true and leaves the rest of the name as it is; at 99999 it
-- answers false.
pub next_filename_lem :
    (base : Bytes) (n : ℕ)
    → n < 100000
    → let r = next_filename (base ++ (five_digits n ++ codes ".lz")) in
      (r.0 ≡ ltb n 99999) × (r.1 ≡ base ++ (five_digits (n + 1) ++ codes ".lz"))
unfolding next_filename
next_filename_lem base n h = (ap (λ r. r.0) whole, ap (λ r. r.1) whole)
  where
    name : Bytes
    name = base ++ (five_digits n ++ codes ".lz")

    size : length name ≡ length base + 8
    size = length-append base (five_digits n ++ codes ".lz")

    last : length name - 3 - 1 ≡ length base + 4
    last = omega (arith, size)

    whole : next_filename name ≡ (ltb n 99999, base ++ (five_digits (n + 1) ++ codes ".lz"))
    whole =
        if_true (count_up 5 (length name - 3 - 1) name) (false, name)
          (leb_of 8 (length name) (omega (arith, size)))
        ∙ ap (λ i. count_up 5 i name) last
        ∙ count_up-append 5 4 base (five_digits n ++ codes ".lz") (omega arith)
        ∙ ap (behind base) (digits_up n h)
