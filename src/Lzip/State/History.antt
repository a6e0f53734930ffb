-- ===== src/Lzip/State/History.antt =====
-- `class State` against the sequence of packets that it summarises.
use lzip_os.Base.{
  ℕ, ◌+◌, ◌<◌, ◌≡◌, refl, ltb, Bool, true, false, if◌then◌else◌, List, [], ◌∷◌, get_or,
}
use lzip_os.Base.{arith}
use lzip_os.Lzip.State.{State, initial, states, next, is_char, set_char, is_char_set_char}
use lzip_os.Lzip.State.{set_match, set_rep, set_shortrep}

pub data Packet : Type 0 where
  literal match rep shortrep : Packet

-- The call that each packet makes.
unfoldable pub step : Packet → State → State
step literal s = set_char s
step match s = set_match s
step rep s = set_rep s
step shortrep s = set_shortrep s

-- The state after a history, its newest packet first.
unfoldable pub run : List Packet → State
run [] = initial
run (p ∷ h) = step p (run h)

-- A history that is empty counts as one of literals.
unfoldable pub ends_in_literal : List Packet → Bool
ends_in_literal [] = true
ends_in_literal (literal ∷ h) = true
ends_in_literal (match ∷ h) = false
ends_in_literal (rep ∷ h) = false
ends_in_literal (shortrep ∷ h) = false

-- match, repeated match, short repeated match after a literal
abbrev class : Packet → List Packet → ℕ
class literal h = 0
class match h = 0
class rep h = 1
class shortrep h = if ends_in_literal h then 2 else 1

-- The state number by the newest packets alone.
unfoldable pub number : List Packet → ℕ
unfolding ends_in_literal
number [] = 0
number (literal ∷ []) = 0
number (literal ∷ literal ∷ []) = 0
number (literal ∷ literal ∷ literal ∷ h) = 0
number (literal ∷ literal ∷ p ∷ h) = 1 + class p h
number (literal ∷ p ∷ h) = 4 + class p h
number (p ∷ h) = (if ends_in_literal h then 7 else 10) + class p h

number-char : (h : List Packet) → ltb (number h) 7 ≡ ends_in_literal h
unfolding number ends_in_literal
number-char [] = refl
number-char (literal ∷ []) = refl
number-char (literal ∷ literal ∷ []) = refl
number-char (literal ∷ literal ∷ literal ∷ h) = refl
number-char (literal ∷ literal ∷ match ∷ h) = ground arith
number-char (literal ∷ literal ∷ rep ∷ h) = ground arith
number-char (literal ∷ literal ∷ shortrep ∷ h) = ground arith
number-char (literal ∷ match ∷ h) = ground arith
number-char (literal ∷ rep ∷ h) = ground arith
number-char (literal ∷ shortrep ∷ h) = ground arith
number-char (match ∷ h) = ground arith
number-char (rep ∷ h) = ground arith
number-char (shortrep ∷ h) = ground arith

number-literal : (h : List Packet) → get_or next (number h) 0 ≡ number (literal ∷ h)
unfolding number ends_in_literal
number-literal [] = refl
number-literal (literal ∷ []) = refl
number-literal (literal ∷ literal ∷ []) = refl
number-literal (literal ∷ literal ∷ literal ∷ h) = refl
number-literal (literal ∷ literal ∷ match ∷ h) = refl
number-literal (literal ∷ literal ∷ rep ∷ h) = refl
number-literal (literal ∷ literal ∷ shortrep ∷ h) = by_class (ends_in_literal h)
  where
    by_class : (b : Bool) → get_or next (1 + (if b then 2 else 1)) 0 ≡ 0
    by_class true = refl
    by_class false = refl
number-literal (literal ∷ match ∷ h) = refl
number-literal (literal ∷ rep ∷ h) = refl
number-literal (literal ∷ shortrep ∷ h) = by_class (ends_in_literal h)
  where
    by_class : (b : Bool) → get_or next (4 + (if b then 2 else 1)) 0 ≡ 1 + (if b then 2 else 1)
    by_class true = refl
    by_class false = refl
number-literal (match ∷ h) = by_class (ends_in_literal h)
  where
    by_class : (b : Bool) → get_or next ((if b then 7 else 10) + 0) 0 ≡ 4 + 0
    by_class true = refl
    by_class false = refl
number-literal (rep ∷ h) = by_class (ends_in_literal h)
  where
    by_class : (b : Bool) → get_or next ((if b then 7 else 10) + 1) 0 ≡ 4 + 1
    by_class true = refl
    by_class false = refl
number-literal (shortrep ∷ h) = by_class (ends_in_literal h)
  where
    by_class :
        (b : Bool)
        → get_or next ((if b then 7 else 10) + (if b then 2 else 1)) 0 ≡ 4 + (if b then 2 else 1)
    by_class true = refl
    by_class false = refl

-- After any sequence of packets the state number is the one that `number` reads off the newest
-- packets: three literals or the start give 0, and so on.
pub run-number : (h : List Packet) → (run h).st ≡ number h
unfolding run step set_char set_match set_rep set_shortrep
run-number [] = unfold number in refl
run-number (literal ∷ h) = rw (run-number h) (number-literal h)
run-number (match ∷ h) =
    rw (run-number h, number-char h) (unfold number ends_in_literal in ground arith)
run-number (rep ∷ h) =
    rw (run-number h, number-char h) (unfold number ends_in_literal in ground arith)
run-number (shortrep ∷ h) =
    rw (run-number h, number-char h) (unfold number ends_in_literal in ground arith)

number-lt : (h : List Packet) → number h < states
unfolding number ends_in_literal
number-lt [] = ground arith
number-lt (literal ∷ []) = ground arith
number-lt (literal ∷ literal ∷ []) = ground arith
number-lt (literal ∷ literal ∷ literal ∷ h) = ground arith
number-lt (literal ∷ literal ∷ match ∷ h) = ground arith
number-lt (literal ∷ literal ∷ rep ∷ h) = ground arith
number-lt (literal ∷ literal ∷ shortrep ∷ h) = ground arith
number-lt (literal ∷ match ∷ h) = ground arith
number-lt (literal ∷ rep ∷ h) = ground arith
number-lt (literal ∷ shortrep ∷ h) = ground arith
number-lt (match ∷ h) = ground arith
number-lt (rep ∷ h) = ground arith
number-lt (shortrep ∷ h) = ground arith

-- The state never leaves the twelve rows of the model tables, and `is_char` says whether the newest
-- packet is a literal (or there is none yet).
pub run_bounds : (h : List Packet) → ((run h).st < states) × (is_char (run h) ≡ ends_in_literal h)
unfolding is_char
run_bounds h = rw (run-number h) (number-lt h, number-char h)

set_char_table : (n : ℕ) → n < 12 → ltb (get_or next n 0) 4 ≡ ltb n 7
set_char_table n h = ground arith

-- On each of the twelve states `is_char_set_char` sets the same state as `set_char`, and its test of
-- the new state answers whether the old state was that of a literal.
pub is_char_set_char_lem :
    (s : State)
    → s.st < states
    → is_char_set_char s ≡ record { result = is_char s; after = set_char s }
unfolding is_char_set_char is_char set_char
is_char_set_char_lem s h = λ i. record { result = set_char_table s.st h i; after = set_char s }
