-- ===== src/Lzip/Crc.antt =====
-- `class CRC32` of lzip.h: the table of all 8-bit messages, and the updates that use it.
pub mod Reference
use lzip_os.Base.{
  ℕ, zero, suc, ◌/◌, ◌==◌, List, [], ◌∷◌, if◌then◌else◌, bit_and, bit_xor, get_or, ◌>>>◌,
}
use mathlib.Core.Bool.{cond}

abbrev pub polynomial : ℕ
polynomial = 0xEDB88320

-- One round of the constructor's inner loop.
unfoldable pub shift_bit : ℕ → ℕ
shift_bit c = if bit_and c 1 == 0 then c >>> 1 else bit_xor polynomial (c >>> 1)

unfoldable pub shift_bits : ℕ → ℕ → ℕ
shift_bits zero c = c
shift_bits (suc k) c = shift_bits k (shift_bit c)

-- The rows from `n` on, `left` of them.
unfoldable pub table_from : ℕ → ℕ → List ℕ
table_from n zero = []
table_from n (suc left) = shift_bits 8 n ∷ table_from (suc n) left

-- CRC32(): the array `data`.
unfoldable pub table : List ℕ
unfolding table_from shift_bits shift_bit
table = table_from 0 256

unfoldable pub update_byte : ℕ → ℕ → ℕ
update_byte crc byte = bit_xor (get_or table (bit_and (bit_xor crc byte) 0xFF) 0) (crc >>> 8)

-- The list holds the `size` bytes from `buffer` on.
unfoldable pub update_buf : ℕ → List ℕ → ℕ
update_buf crc [] = crc
update_buf crc (b ∷ buffer) = update_buf (update_byte crc b) buffer
