-- ===== src/Lzip/Trailer/Consistency.antt =====
-- `check_consistency` against the three rules that it means to test.
use lzip_os.Base.{ℕ, ◌+◌, ◌-◌, ◌*◌, ◌/◌, ◌^◌, ◌≤◌, ◌<◌, ◌≡◌, ◌↔◌, true, arith}
use lzip_os.Lzip.Trailer.{LzipTrailer, data_crc, data_size, member_size}
use lzip_os.Lzip.Trailer.{consistent, check_consistency}
use lzip_os.Lzip.Model.{min_member_size}

-- The rules, over unbounded numbers: a CRC of zero goes with no data, a member has at least 36 bytes,
-- and is at most an eighth longer than the data, and at most 7090 times shorter.
pub record IsConsistent (crc dsize msize : ℕ) : Type 0 where
  pub empty_crc : crc ≡ 0 → dsize ≡ 0
  pub empty_data : dsize ≡ 0 → crc ≡ 0
  pub long_enough : min_member_size ≤ msize
  pub not_expanded : 9 * dsize + 7 < 2 ^ 64 → msize ≤ (9 * dsize + 7) / 8 + min_member_size
  pub not_squeezed : dsize ≤ 7090 * (msize - 26) - 1

-- The largest size of a member, 2 PiB.
abbrev pub max_member_size : ℕ
max_member_size = 2 ^ 51

consistent_sound :
    (c d m : ℕ) → d < 2 ^ 64 → m ≤ max_member_size → consistent c d m ≡ true → IsConsistent c d m
unfolding consistent
consistent_sound c d m hd hm e = ground arith

consistent_complete :
    (c d m : ℕ) → d < 2 ^ 64 → m ≤ max_member_size → IsConsistent c d m → consistent c d m ≡ true
unfolding consistent
consistent_complete c d m hd hm k = ground arith

data_size-lt : (t : LzipTrailer) → data_size t < 2 ^ 64
unfolding data_size
data_size-lt t = omega arith

-- For a member of at most 2 PiB the test passes exactly when the rules hold: no wrap of its 64-bit
-- arithmetic accepts or refuses a trailer wrongly.
pub check_consistency_lem :
    (t : LzipTrailer)
    → member_size t ≤ max_member_size
    → (check_consistency t ≡ true) ↔ IsConsistent (data_crc t) (data_size t) (member_size t)
unfolding check_consistency
check_consistency_lem t h = (
  consistent_sound (data_crc t) (data_size t) (member_size t) (data_size-lt t) h,
  consistent_complete (data_crc t) (data_size t) (member_size t) (data_size-lt t) h,
)
