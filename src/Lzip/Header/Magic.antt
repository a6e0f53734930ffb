-- ===== src/Lzip/Header/Magic.antt =====
-- The tests of a header's magic bytes.
use lzip_os.Base.{ℕ, zero, suc, ◌+◌, ◌≤◌, ◌<◌, ◌≡◌, ◌≢◌, ◌↔◌, refl, true, false, [], ◌∷◌}
use lzip_os.Base.{arith, min, length, set, ◌⊎◌, inl, inr}
use lzip_os.Lzip.Header.{LzipHeader, header_size, byte_at, lzip_magic, same_magic, check_magic}
use lzip_os.Lzip.Header.{check_prefix, check_corrupt, set_magic, check_version}

-- The `n` bytes from index `i` on are those of the magic string.
abbrev pub Agrees : ℕ → ℕ → LzipHeader → Type 0
Agrees i n h = (j : ℕ) → i ≤ j → j < i + n → byte_at h j ≡ byte_at lzip_magic j

same_magic_sound : (n i : ℕ) (h : LzipHeader) → same_magic n i h ≡ true → Agrees i n h
unfolding same_magic
same_magic_sound zero i h e j p q = absurd (omega arith)
same_magic_sound (suc n) i h e j p q =
    let split : (j ≡ i) ⊎ (suc i ≤ j) = omega arith in
    elim split [
      | inl eq ↦ rw eq (ground arith)
      | inr lt ↦ same_magic_sound n (suc i) h (ground arith) j lt (omega arith)
    ]

same_magic_complete : (n i : ℕ) (h : LzipHeader) → Agrees i n h → same_magic n i h ≡ true
unfolding same_magic
same_magic_complete zero i h a = refl
same_magic_complete (suc n) i h a = ground (
  arith,
  a i (omega arith) (omega arith),
  same_magic_complete n (suc i) h (λ j p q. a j (omega arith) (omega arith)),
)

-- `check_prefix` holds exactly when there is at least one byte, and the bytes there are, up to four,
-- begin the magic string; on four bytes or more it answers what `check_magic` answers.
pub check_prefix_lem :
    (h : LzipHeader) (sz more : ℕ)
    → ((check_prefix h sz ≡ true) ↔ ((0 < sz) × Agrees 0 (min sz 4) h))
      × (check_prefix h (4 + more) ≡ check_magic h)
unfolding check_prefix check_magic
check_prefix_lem h sz more = (
  (
    (λ e. (ground arith, same_magic_sound (min sz 4) 0 h (ground arith))),
    (λ p. ground (arith, same_magic_complete (min sz 4) 0 h p.1)),
  ),
  let e : min (4 + more) 4 ≡ 4 = omega arith in rw e (ground arith),
)

-- `set_magic` makes six bytes pass the tests of the magic string and of the version, and touches no
-- other byte.
pub set_magic_lem :
    (h : LzipHeader)
    → length h ≡ header_size
    → (check_magic (set_magic h) ≡ true)
      × (check_version (set_magic h) ≡ true)
      × (byte_at (set_magic h) 5 ≡ byte_at h 5)
      × (length (set_magic h) ≡ header_size)
unfolding check_magic set_magic check_version
set_magic_lem (a ∷ b ∷ c ∷ d ∷ e ∷ f ∷ []) len = (refl, refl, refl, refl)
set_magic_lem [] len = absurd (omega arith)
set_magic_lem (a ∷ []) len = absurd (omega arith)
set_magic_lem (a ∷ b ∷ []) len = absurd (omega arith)
set_magic_lem (a ∷ b ∷ c ∷ []) len = absurd (omega arith)
set_magic_lem (a ∷ b ∷ c ∷ d ∷ []) len = absurd (omega arith)
set_magic_lem (a ∷ b ∷ c ∷ d ∷ e ∷ []) len = absurd (omega arith)
set_magic_lem (a ∷ b ∷ c ∷ d ∷ e ∷ f ∷ g ∷ r) len = absurd (omega arith)

-- Six bytes that pass `check_magic`, with one of the four magic bytes changed, fail `check_magic` and
-- are found by `check_corrupt`, which does not fire on the bytes before the change.
pub check_corrupt_lem :
    (h : LzipHeader) (i x : ℕ)
    → length h ≡ header_size
    → check_magic h ≡ true
    → i < 4
    → x ≢ byte_at lzip_magic i
    → (check_magic (set h i x) ≡ false)
      × (check_corrupt (set h i x) ≡ true)
      × (check_corrupt h ≡ false)
unfolding check_magic check_corrupt
check_corrupt_lem [] i x len good lt ne = absurd (omega arith)
check_corrupt_lem (a ∷ []) i x len good lt ne = absurd (omega arith)
check_corrupt_lem (a ∷ b ∷ []) i x len good lt ne = absurd (omega arith)
check_corrupt_lem (a ∷ b ∷ c ∷ []) i x len good lt ne = absurd (omega arith)
check_corrupt_lem (a ∷ b ∷ c ∷ d ∷ r) zero x len good lt ne = ground arith
check_corrupt_lem (a ∷ b ∷ c ∷ d ∷ r) (suc zero) x len good lt ne = ground arith
check_corrupt_lem (a ∷ b ∷ c ∷ d ∷ r) (suc (suc zero)) x len good lt ne = ground arith
check_corrupt_lem (a ∷ b ∷ c ∷ d ∷ r) (suc (suc (suc zero))) x len good lt ne = ground arith
check_corrupt_lem (a ∷ b ∷ c ∷ d ∷ r) (suc (suc (suc (suc i)))) x len good lt ne =
    absurd (omega arith)
