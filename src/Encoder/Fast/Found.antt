-- ===== src/Encoder/Fast/Found.antt =====
-- What longest_match_len finds: matches of the window, from positions before the current one.
use lzip_os.Base.{
  ℕ, zero, suc, ◌+◌, ◌-◌, ◌≤◌, ◌<◌, ◌≡◌, refl, sym, ap, ◌∙◌, subst, arith, Bool, true, false, ltb,
  leb, ◌==◌, ◌&&◌, ◌||◌, if◌then◌else◌, List, [], ◌∷◌, get_or, get_or-set_ne, set, min, bit_and,
}
use lzip_os.Base.{Result, ok}
use lzip_os.Base.Bits.{bit_and-le}
use lzip_os.Lzip.Model.{max_match_len}
use lzip_os.Encoder.Finder.{Finder, available_bytes, match_loop}
use lzip_os.Encoder.Finder.Matches.{match_loop-IsLongest}
use lzip_os.Encoder.Fast.{
  FlzEncoder, Longest, in_pos_array, position, new_pointer, chain, longest_match_len, shift_key,
}

-- A match of the bytes at `pos`: its bytes lie in the dictionary and before `pos`, and are the same.
pub record IsMatch (g : Finder) (len distance : ℕ) : Type 0 where
  pub in_dictionary : distance < g.dictionary_size
  pub before : distance < g.pos
  pub in_input : len ≤ min (available_bytes g) max_match_len
  pub same :
      (k : ℕ)
      → k < len
      → get_or g.buffer (g.pos - (distance + 1) + k) 0 ≡ get_or g.buffer (g.pos + k) 0

-- Positions are 1 + those of bytes before the current one.
abbrev pub IsBehind : Finder → Type 0
IsBehind g = (j : ℕ) → position g j ≤ g.pos

-- What is changed are the positions: none is beyond the next byte.
pub record Updated (g g' : Finder) : Type 0 where
  pub others : (record g' { positions = g.positions }) ≡ g
  pub next : (j : ℕ) → position g' j ≤ g.pos + 1

pub get_or-set_le :
    (xs : List ℕ) (i j p n : ℕ) → p ≤ n → get_or xs j 0 ≤ n → get_or (set xs i p) j 0 ≤ n
get_or-set_le [] i j p n h e = e
get_or-set_le (x ∷ xs) zero zero p n h e = h
get_or-set_le (x ∷ xs) zero (suc j) p n h e = e
get_or-set_le (x ∷ xs) (suc i) zero p n h e = e
get_or-set_le (x ∷ xs) (suc i) (suc j) p n h e = get_or-set_le xs i j p n h e

if-either :
    {A : Type 0} (P : A → Type 0) (b : Bool) {x y : A}
    → (b ≡ true → P x)
    → (b ≡ false → P y)
    → P (if b then x else y)
if-either P true f g = f refl
if-either P false f g = g refl

-- What the loop leaves.
record Ended (g : Finder) (r : Longest) : Type 0 where
  found : 0 < r.maxlen → IsMatch g r.maxlen r.distance
  updated : Updated g r.finder

found_next :
    (g : Finder) (b : Bool) (len distance maxlen old : ℕ)
    → (b ≡ true → IsMatch g len distance)
    → (0 < maxlen → IsMatch g maxlen old)
    → 0 < (if b then len else maxlen)
    → IsMatch g (if b then len else maxlen) (if b then distance else old)
found_next g true len distance maxlen old new found p = new refl
found_next g false len distance maxlen old new found p = found p

-- The match at `newpos1`.
module _ (g : Finder) (newpos1 : ℕ) (behind : newpos1 ≤ g.pos) (some_pos : 0 < newpos1)
    (near : g.pos + 1 - newpos1 ≤ g.dictionary_size) where
  abbrev len_at : ℕ
  len_at =
      match_loop (min (available_bytes g) max_match_len) g.buffer (g.pos - (g.pos + 1 - newpos1))
        g.pos 0

  len_at-IsMatch : IsMatch g len_at (g.pos + 1 - newpos1 - 1)
  len_at-IsMatch =
      let h =
        match_loop-IsLongest (min (available_bytes g) max_match_len) g.buffer
          (g.pos - (g.pos + 1 - newpos1)) g.pos 0 in
      let place : g.pos - (g.pos + 1 - newpos1 - 1 + 1) ≡ g.pos - (g.pos + 1 - newpos1) =
        omega arith in
      record {
        in_dictionary = omega arith;
        before = omega arith;
        in_input = omega (arith, h.high);
        same = λ k p. ap (λ (x : ℕ). get_or g.buffer (x + k) 0) place ∙ h.equal k (omega arith) p;
      }

with_positions-Updated :
    (g : Finder) (ps : List ℕ) (i p : ℕ)
    → ((j : ℕ) → get_or ps j 0 ≤ g.pos + 1)
    → p ≤ g.pos + 1
    → Updated g (record g { positions = set ps i p })
with_positions-Updated g ps i p all h = record {
  others = refl;
  next = λ j. get_or-set_le ps i j p (g.pos + 1) h (all j);
}

chain-Ended :
    (count ptr0 newpos1 maxlen distance : ℕ) (g : Finder) (ps : List ℕ)
    → (0 < maxlen → IsMatch g maxlen distance)
    → ((j : ℕ) → get_or ps j 0 ≤ g.pos + 1)
    → ((j : ℕ) → g.num_prev_positions ≤ j → get_or ps j 0 ≤ g.pos)
    → newpos1 ≤ g.pos
    → Ended g (
        chain count ptr0 newpos1
          (min (available_bytes g) max_match_len)
          maxlen
          distance
          (record g { positions = ps }))
unfolding chain new_pointer available_bytes
chain-Ended zero ptr0 newpos1 maxlen distance g ps found all arr behind = record {
  found = found;
  updated = with_positions-Updated g ps ptr0 0 all (omega arith);
}
chain-Ended (suc count) ptr0 newpos1 maxlen distance g ps found all arr behind =
    let delta = g.pos + 1 - newpos1 in
    let newptr = new_pointer g delta in
    let len = match_loop (min (available_bytes g) max_match_len) g.buffer (g.pos - delta) g.pos 0 in
    let here = get_or g.buffer (g.pos - delta + maxlen) 0 == get_or g.buffer (g.pos + maxlen) 0 in
    let better = here && ltb maxlen len in
    if-either (Ended g) (newpos1 == 0 || ltb g.dictionary_size delta)
      (λ p. record {
        found = found;
        updated = with_positions-Updated g ps ptr0 0 all (omega arith);
      })
      (λ q.
        let m = len_at-IsMatch g newpos1 behind (ground (arith, q)) (ground (arith, q)) in
        if-either (Ended g) (better && leb 16 len)
          (λ p. record {
            found = λ z. m;
            updated = with_positions-Updated g ps ptr0 (get_or ps newptr 0) all (all newptr);
          })
          (λ p.
            chain-Ended count newptr (get_or (set ps ptr0 newpos1) newptr 0)
              (if better then len else maxlen) (if better then delta - 1 else distance) g
              (set ps ptr0 newpos1)
              (found_next g better len (delta - 1) maxlen distance (λ x. m) found)
              (λ j. get_or-set_le ps ptr0 j newpos1 (g.pos + 1) (omega (arith, behind)) (all j))
              (λ j k. get_or-set_le ps ptr0 j newpos1 g.pos behind (arr j k))
              (get_or-set_le ps ptr0 newptr newpos1 g.pos behind (arr newptr (omega arith)))))

-- The length that was found, and the encoder with the new positions and `key4`.
pub record Found (f : FlzEncoder) (r : Result ((ℕ × ℕ) × FlzEncoder)) : Type 0 where
  pub len : ℕ
  pub distance : ℕ
  pub after : FlzEncoder
  pub returns : r ≡ ok ((len, distance), after)
  pub found : 0 < len → IsMatch f.finder len distance
  pub updated : Updated f.finder after.finder
  pub same_base : after.base ≡ f.base

-- When the positions are those of bytes before the current one and the mask is below the number of keys,
-- longest_match_len returns; a length other than zero is that of a match, at a distance less than the
-- dictionary size and not before the first byte of the buffer, of at most 273 bytes of the input, which
-- are equal at both places; of the match finder it changes only the positions, none of which is then beyond
-- the next byte, and of the rest of the encoder only `key4`: the models, the CRC and the range encoder stay.
pub longest_match_len-Found :
    (f : FlzEncoder)
    → IsBehind f.finder
    → f.finder.key4_mask < f.finder.num_prev_positions
    → Found f (longest_match_len f)
unfolding longest_match_len available_bytes
longest_match_len-Found f behind mask =
    let g = f.finder in
    let key4 = bit_and (shift_key f.key4 (get_or g.buffer (g.pos + 3) 0)) g.key4_mask in
    let small = bit_and-le (shift_key f.key4 (get_or g.buffer (g.pos + 3) 0)) g.key4_mask in
    let r =
      chain-Ended 4 (in_pos_array g g.cyclic_pos) (position g key4) 0 0 g
        (set g.positions key4 (g.pos + 1)) (λ p. absurd (omega (arith, p)))
        (λ j.
          get_or-set_le g.positions key4 j (g.pos + 1) (g.pos + 1) (omega arith)
            (omega (arith, behind j)))
        (λ j k.
          subst (λ x. x ≤ g.pos)
            (sym (
              get_or-set_ne g.positions key4 j (g.pos + 1) 0
                (λ e. omega (arith, e, k, small, mask))))
            (behind j))
        (behind key4) in
    if-either (Found f) (ltb (min (available_bytes g) max_match_len) 16)
      (λ p. record {
        len = 0;
        distance = 0;
        after = f;
        returns = refl;
        found = λ q. absurd (omega (arith, q));
        updated = record { others = refl; next = λ j. omega (arith, behind j) };
        same_base = refl;
      })
      (λ p. record {
        len = _;
        distance = _;
        after = _;
        returns = refl;
        found = r.found;
        updated = r.updated;
        same_base = refl;
      })
