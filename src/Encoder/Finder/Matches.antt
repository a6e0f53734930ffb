-- ===== src/Encoder/Finder/Matches.antt =====
-- The loop of Matchfinder_base::true_match_len.
use lzip_os.Base.{
  ℕ, zero, suc, ◌+◌, ◌-◌, ◌≤◌, ◌<◌, ◌≡◌, ◌≢◌, refl, subst, arith, Bool, true, false, ◌==◌, ==_iff,
  Bool-cases, if◌then◌else◌, inl, inr, List, get_or, min,
}
use lzip_os.Lzip.Model.{max_match_len}
use lzip_os.Encoder.Finder.{Finder, match_loop, true_match_len, available_bytes}

-- The bytes from `here` on equal those from `from` on up to index `n`, and not at `n` if it is below `limit`.
pub record IsLongest (buffer : List ℕ) (from here first n limit : ℕ) : Type 0 where
  pub low : first ≤ n
  pub high : n ≤ limit
  pub equal : (k : ℕ) → first ≤ k → k < n → get_or buffer (from + k) 0 ≡ get_or buffer (here + k) 0
  pub differs : n < limit → get_or buffer (from + n) 0 ≢ get_or buffer (here + n) 0

==-false : (a b : ℕ) → (a == b) ≡ false → a ≢ b
==-false a b h = ground (arith, h)

if-IsLongest :
    (buffer : List ℕ) (from here i left rest : ℕ) (b : Bool)
    → (get_or buffer (from + i) 0 == get_or buffer (here + i) 0) ≡ b
    → IsLongest buffer from here (i + 1) rest (i + 1 + left)
    → IsLongest buffer from here i (if b then rest else i) (i + suc left)
if-IsLongest buffer from here i left rest true e h = record {
  low = omega (arith, h.low);
  high = omega (arith, h.high);
  equal = λ k a b. at k a b;
  differs = λ p. h.differs (omega (arith, p));
}
  where
    at : (k : ℕ) → i ≤ k → k < rest → get_or buffer (from + k) 0 ≡ get_or buffer (here + k) 0
    at k a b = elim (Bool-cases (i == k)) [
      | inl p ↦
          subst (λ x. get_or buffer (from + x) 0 ≡ get_or buffer (here + x) 0) ((==_iff i k).0 p)
            ((==_iff (get_or buffer (from + i) 0) (get_or buffer (here + i) 0)).0 e)
      | inr q ↦ h.equal k (ground (arith, q, a)) b
    ]
if-IsLongest buffer from here i left rest false e h = record {
  low = omega arith;
  high = omega arith;
  equal = λ k a b. absurd (omega (arith, a, b));
  differs = λ p. ==-false _ _ e;
}

pub match_loop-IsLongest :
    (left : ℕ) (buffer : List ℕ) (from here i : ℕ)
    → IsLongest buffer from here i (match_loop left buffer from here i) (i + left)
unfolding match_loop
match_loop-IsLongest zero buffer from here i = record {
  low = omega arith;
  high = omega arith;
  equal = λ k a b. absurd (omega (arith, a, b));
  differs = λ p. absurd (omega (arith, p));
}
match_loop-IsLongest (suc left) buffer from here i =
    if-IsLongest buffer from here i left (match_loop left buffer from here (i + 1))
      (get_or buffer (from + i) 0 == get_or buffer (here + i) 0) refl
      (match_loop-IsLongest left buffer from here (i + 1))

-- For an index up to the limit, true_match_len answers the longest length up to it, at most 273 and at most
-- the available bytes, at which the bytes from the index on equal those at the distance before them.
pub true_match_len-IsLongest :
    (index distance : ℕ) (g : Finder)
    → index ≤ min (available_bytes g) max_match_len
    → IsLongest g.buffer
        (g.pos - distance)
        g.pos
        index
        (true_match_len index distance g)
        (min (available_bytes g) max_match_len)
unfolding true_match_len available_bytes
true_match_len-IsLongest index distance g h =
    let limit = min (available_bytes g) max_match_len in
    let whole : index + (limit - index) ≡ limit = omega arith in
    subst
      (λ x. IsLongest g.buffer (g.pos - distance) g.pos index (true_match_len index distance g) x)
      whole (match_loop-IsLongest (limit - index) g.buffer (g.pos - distance) g.pos index)
