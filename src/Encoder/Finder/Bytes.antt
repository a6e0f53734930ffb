-- ===== src/Encoder/Finder/Bytes.antt =====
-- The bytes of the buffer of Matchfinder_base, one by one, where read_block and normalize_pos change it.
use lzip_os.Base.{
  ℕ, zero, suc, ◌+◌, ◌≤◌, ◌<◌, ◌≡◌, refl, ap, ◌∙◌, arith, List, [], ◌∷◌, ◌++◌, length, take, drop,
  get_or,
}

-- What is in front of the end of a part that is kept.
pub get_or-take_append :
    (n : ℕ) (xs ys : List ℕ) (j : ℕ)
    → j < n
    → n ≤ length xs
    → get_or (take n xs ++ ys) j 0 ≡ get_or xs j 0
get_or-take_append zero xs ys j h k = absurd (omega (arith, h))
get_or-take_append (suc n) [] ys j h k = absurd (omega (arith, k))
get_or-take_append (suc n) (x ∷ xs) ys zero h k = refl
get_or-take_append (suc n) (x ∷ xs) ys (suc j) h k =
    get_or-take_append n xs ys j (omega (arith, h)) (omega (arith, k))

pub get_or-drop : (n : ℕ) (xs : List ℕ) (j : ℕ) → get_or (drop n xs) j 0 ≡ get_or xs (n + j) 0
get_or-drop zero xs j = ap (λ k. get_or xs k 0) (omega arith)
get_or-drop (suc n) [] j = refl
get_or-drop (suc n) (x ∷ xs) j =
    let step : suc (n + j) ≡ suc n + j = omega arith in
    get_or-drop n xs j ∙ ap (λ k. get_or (x ∷ xs) k 0) step
