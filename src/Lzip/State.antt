-- ===== src/Lzip/State.antt =====
-- `class State` of lzip.h: what kinds of packet came last, as one of twelve numbers.
pub mod History
use lzip_os.Base.{ℕ, ltb, Bool, true, false, if◌then◌else◌, List, [], ◌∷◌, get_or}

pub record State : Type 0 where
  pub st : ℕ

abbrev pub states : ℕ
states = 12

-- State()
abbrev pub initial : State
initial = record { st = 0 }

unfoldable pub is_char : State → Bool
is_char s = ltb s.st 7

-- The table of set_char().
abbrev pub next : List ℕ
next = 0 ∷ 0 ∷ 0 ∷ 0 ∷ 1 ∷ 2 ∷ 3 ∷ 4 ∷ 5 ∷ 6 ∷ 4 ∷ 5 ∷ []

unfoldable pub set_char : State → State
set_char s = record { st = get_or next s.st 0 }

-- The result, and the state after the call.
unfoldable pub is_char_set_char : State → record { result : Bool; after : State }
unfolding set_char
is_char_set_char s = let s' = set_char s in record { result = ltb s'.st 4; after = s' }

unfoldable pub set_char_rep : State → State
set_char_rep s = record { st = 8 }

unfoldable pub set_match : State → State
set_match s = record { st = if ltb s.st 7 then 7 else 10 }

unfoldable pub set_rep : State → State
set_rep s = record { st = if ltb s.st 7 then 8 else 11 }

unfoldable pub set_shortrep : State → State
set_shortrep s = record { st = if ltb s.st 7 then 9 else 11 }
