-- ===== src/Lzip/Header.antt =====
-- `struct Lzip_header` of lzip.h, with `isvalid_ds` and `real_bits`. The six bytes of `data` are a
-- list: 0 to 3 the magic bytes, 4 the version, 5 the coded dictionary size.
pub mod Bits
pub mod DictionarySize
pub mod Magic
use lzip_os.Base.{ℕ, zero, suc, ◌+◌, ◌-◌, ◌*◌, ◌/◌, ◌%◌, ◌^◌, min, ltb, leb, ◌==◌, if◌then◌else◌}
use lzip_os.Base.{Bool, true, false, ◌&&◌, List, [], ◌∷◌, ◌++◌, Option, none, some}
use lzip_os.Base.{get_or, set, drop, bit_and, bit_or, u8, u32, ◌<<<◌, ◌>>>◌, bit}
use lzip_os.Lzip.Model.{min_dictionary_size, max_dictionary_size}

unfoldable pub isvalid_ds : ℕ → Bool
isvalid_ds dictionary_size =
    leb min_dictionary_size dictionary_size && leb dictionary_size max_dictionary_size

-- `while( value > 0 ) { value >>= 1; ++bits; }`, at most 32 rounds on an unsigned.
unfoldable pub real_bits_loop : ℕ → ℕ → ℕ → ℕ
real_bits_loop zero value bits = bits
real_bits_loop (suc rounds) value bits =
    let rest = real_bits_loop rounds (value >>> 1) (bits + 1) in if value == 0 then bits else rest

unfoldable pub real_bits : ℕ → ℕ
unfolding real_bits_loop
real_bits value = real_bits_loop 32 value 0

abbrev pub LzipHeader : Type 0
LzipHeader = List ℕ

abbrev pub header_size : ℕ
header_size = 6

-- "LZIP"
abbrev pub lzip_magic : List ℕ
lzip_magic = 0x4C ∷ 0x5A ∷ 0x49 ∷ 0x50 ∷ []

abbrev pub byte_at : List ℕ → ℕ → ℕ
byte_at bytes i = get_or bytes i 0

unfoldable pub set_magic : LzipHeader → LzipHeader
set_magic h = set (lzip_magic ++ drop 4 h) 4 1

-- memcmp of four bytes, and the tests of `check_prefix`: `rounds` bytes from index `i` on.
unfoldable pub same_magic : ℕ → ℕ → LzipHeader → Bool
same_magic zero i h = true
same_magic (suc rounds) i h = (byte_at h i == byte_at lzip_magic i) && same_magic rounds (suc i) h

unfoldable pub check_magic : LzipHeader → Bool
unfolding same_magic
check_magic h = same_magic 4 0 h

-- detect (truncated) header
unfoldable pub check_prefix : LzipHeader → ℕ → Bool
unfolding same_magic
check_prefix h sz = same_magic (min sz 4) 0 h && ltb 0 sz

unfoldable pub count_matches : ℕ → ℕ → LzipHeader → ℕ
count_matches zero i h = 0
count_matches (suc rounds) i h =
    bit (byte_at h i == byte_at lzip_magic i) + count_matches rounds (suc i) h

-- detect corrupt header
unfoldable pub check_corrupt : LzipHeader → Bool
unfolding count_matches
check_corrupt h = let matches = count_matches 4 0 h in ltb 1 matches && ltb matches 4

unfoldable pub version : LzipHeader → ℕ
version h = byte_at h 4

unfoldable pub check_version : LzipHeader → Bool
check_version h = byte_at h 4 == 1

-- The size that byte 5 stands for.
unfoldable pub decode_size : ℕ → ℕ
decode_size coded =
    let sz = u32 (2 ^ bit_and coded 0x1F) in
    if ltb min_dictionary_size sz then sz - sz / 16 * bit_and (coded >>> 5) 7 else sz

-- unsigned dictionary_size() const
unfoldable pub dictionary_size : LzipHeader → ℕ
dictionary_size h = decode_size (byte_at h 5)

-- The number of sixteenths taken off: the first `i`, counting down from 7, that leaves `sz`; else 0.
unfoldable pub fraction_loop : ℕ → ℕ → ℕ → ℕ
fraction_loop zero base_size sz = 0
fraction_loop (suc i) base_size sz =
    let rest = fraction_loop i base_size sz in
    if leb sz (base_size - suc i * (base_size / 16)) then suc i else rest

-- What `dictionary_size( sz )` leaves in byte 5.
unfoldable pub encode_size : ℕ → ℕ
encode_size sz =
    let bits = u8 (real_bits (sz - 1)) in
    if ltb min_dictionary_size sz then bit_or bits (fraction_loop 7 (2 ^ bits) sz <<< 5) else bits

-- bool dictionary_size( sz ): `none` is the answer false, after which nothing has changed.
unfoldable pub set_dictionary_size : ℕ → LzipHeader → Option LzipHeader
unfolding isvalid_ds
set_dictionary_size sz h = if isvalid_ds sz then some (set h 5 (encode_size sz)) else none

unfoldable pub check : LzipHeader → Bool
check h = check_magic h && (check_version h && isvalid_ds (dictionary_size h))
