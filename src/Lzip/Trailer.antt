-- ===== src/Lzip/Trailer.antt =====
-- `struct Lzip_trailer` of lzip.h. The twenty bytes of `data` are a list: 0 to 3 the CRC32 of the
-- data, 4 to 11 the size of the data, 12 to 19 the member size.
pub mod Fields
pub mod Consistency
use lzip_os.Base.{ℕ, zero, suc, ◌+◌, ◌-◌, ◌*◌, ◌/◌, ◌%◌, ◌^◌, ltb, ◌==◌, if◌then◌else◌, bool_ne}
use lzip_os.Base.{Bool, true, false, not, ◌&&◌, List, get_or, set, u8, u64, sub64, ◌<<<◌, ◌>>>◌}
use lzip_os.Lzip.Model.{min_member_size}

abbrev pub LzipTrailer : Type 0
LzipTrailer = List ℕ

abbrev pub trailer_size : ℕ
trailer_size = 20

-- `for( i = first + count - 1; i >= first; --i ) { tmp <<= 8; tmp += data[i]; }` on a type of
-- `modulus` values.
unfoldable pub get_field : ℕ → ℕ → ℕ → ℕ → LzipTrailer → ℕ
get_field modulus first zero tmp t = tmp
get_field modulus first (suc count) tmp t =
    get_field modulus first count (((tmp <<< 8) % modulus + get_or t (first + count) 0) % modulus) t

-- `for( i = first; i < first + count; ++i ) { data[i] = (uint8_t)value; value >>= 8; }`
unfoldable pub put_field : ℕ → ℕ → ℕ → LzipTrailer → LzipTrailer
put_field first zero value t = t
put_field first (suc count) value t =
    put_field (suc first) count (value >>> 8) (set t first (u8 value))

unfoldable pub data_crc : LzipTrailer → ℕ
unfolding get_field
data_crc t = get_field (2 ^ 32) 0 4 0 t

unfoldable pub set_data_crc : ℕ → LzipTrailer → LzipTrailer
unfolding put_field
set_data_crc crc t = put_field 0 4 crc t

unfoldable pub data_size : LzipTrailer → ℕ
unfolding get_field
data_size t = get_field (2 ^ 64) 4 8 0 t

unfoldable pub set_data_size : ℕ → LzipTrailer → LzipTrailer
unfolding put_field
set_data_size sz t = put_field 4 8 sz t

unfoldable pub member_size : LzipTrailer → ℕ
unfolding get_field
member_size t = get_field (2 ^ 64) 12 8 0 t

unfoldable pub set_member_size : ℕ → LzipTrailer → LzipTrailer
unfolding put_field
set_member_size sz t = put_field 12 8 sz t

-- The tests of `check_consistency` on the three numbers, in their order.
unfoldable pub consistent : ℕ → ℕ → ℕ → Bool
consistent crc dsize msize =
    let mlimit = u64 (u64 (9 * dsize + 7) / 8 + min_member_size) in
    let dlimit = sub64 (u64 (7090 * (msize - 26))) 1 in
    if bool_ne (crc == 0) (dsize == 0)
    then false
    else if ltb msize min_member_size
    then false
    else if ltb dsize mlimit && ltb mlimit msize
    then false
    else if ltb msize dlimit && ltb dlimit dsize
    then false
    else true

unfoldable pub check_consistency : LzipTrailer → Bool
check_consistency t = consistent (data_crc t) (data_size t) (member_size t)
