-- ===== src/Encoder/Slots.antt =====
-- `class Dis_slots` and `get_slot` of encoder_base.h.
pub mod Base
use lzip_os.Base.{ℕ, zero, suc, ◌+◌, ◌*◌, ◌^◌, ltb, if◌then◌else◌}
use lzip_os.Base.{List, [], ◌∷◌, ◌++◌, get_or, replicate, ◌>>>◌}

-- `rounds` rounds of the second loop of `init`: two runs of `size` slots each, then `size` doubles.
unfoldable pub slots_from : ℕ → ℕ → ℕ → List ℕ
slots_from zero size slot = []
slots_from (suc rounds) size slot =
    replicate size slot ++ (replicate size (slot + 1) ++ slots_from rounds (size * 2) (slot + 2))

-- The array `data` after `init`: four slots, and eight rounds up to slot 19.
unfoldable pub dis_slots : List ℕ
unfolding slots_from
dis_slots = 0 ∷ 1 ∷ 2 ∷ 3 ∷ slots_from 8 2 4

unfoldable pub get_slot : ℕ → ℕ
get_slot dis =
    if ltb dis (2 ^ 10)
    then get_or dis_slots dis 0
    else if ltb dis (2 ^ 19)
    then get_or dis_slots (dis >>> 9) 0 + 18
    else if ltb dis (2 ^ 28)
    then get_or dis_slots (dis >>> 18) 0 + 36
    else get_or dis_slots (dis >>> 27) 0 + 54
