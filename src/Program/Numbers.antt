-- ===== src/Program/Numbers.antt =====
-- The numbers of main.cc: getnum, get_dict_size, format_ds, format_num3 and xdigit. strtoull and strtol
-- are not code of the program: a function of the text stands for each.
pub mod Limits
use lzip_os.Base.{
  ℕ, zero, suc, ◌+◌, ◌-◌, ◌*◌, ◌/◌, ◌%◌, ◌^◌, ltb, leb, ◌==◌, if◌then◌else◌, Bool, true, false, not,
  ◌&&◌, ◌||◌,
}
use lzip_os.Base.{
  List, [], ◌∷◌, ◌++◌, Option, none, some, get_or, Bytes, codes, u64, Result, ok, err,
}
use lzip_os.Lzip.Model.{
  min_dictionary_size, max_dictionary_size, min_dictionary_bits, max_dictionary_bits,
}

-- What strtoull leaves: the value, the text from `tail` on, whether it read any digit, and whether errno
-- is set.
pub record Number : Type 0 where
  pub value : ℕ
  pub tail : Bytes
  pub any : Bool
  pub range_error : Bool

-- `factor`, by the byte tail[1].
unfoldable pub factor_of : Bytes → ℕ
factor_of tail = if get_or tail 1 0 == b'i' then 1024 else 1000

-- The switch on tail[0]; 0 is a bad multiplier.
unfoldable pub exponent_of : Bytes → ℕ
unfolding factor_of
exponent_of tail =
    let c = get_or tail 0 0 in
    if c == b'Q'
    then 10
    else if c == b'R'
    then 9
    else if c == b'Y'
    then 8
    else if c == b'Z'
    then 7
    else if c == b'E'
    then 6
    else if c == b'P'
    then 5
    else if c == b'T'
    then 4
    else if c == b'G'
    then 3
    else if c == b'M'
    then 2
    else if c == b'K'
    then (if factor_of tail == 1024 then 1 else 0)
    else if c == b'k'
    then (if factor_of tail == 1000 then 1 else 0)
    else 0

-- The loop that multiplies; `none` is ERANGE.
unfoldable pub multiply : ℕ → ℕ → ℕ → ℕ → Option ℕ
multiply zero factor ulimit result = some result
multiply (suc exponent) factor ulimit result =
    let rest = multiply exponent factor ulimit (u64 (result * factor)) in
    if leb result (ulimit / factor) then rest else none

-- The last test of `getnum`.
abbrev pub in_limits : ℕ → ℕ → Option ℕ → Result ℕ
in_limits llimit ulimit none = err "Value out of limits"
in_limits llimit ulimit (some result) =
    if ltb result llimit || ltb ulimit result then err "Value out of limits" else ok result

-- What `getnum` makes of the value, by the text behind it.
unfoldable pub scaled : Bytes → ℕ → ℕ → ℕ → Result ℕ
unfolding multiply exponent_of factor_of
scaled [] value llimit ulimit = in_limits llimit ulimit (some value)
scaled (c ∷ tail) value llimit ulimit =
    if exponent_of (c ∷ tail) == 0
    then err "Bad multiplier in numerical argument"
    else in_limits llimit ulimit
        (multiply (exponent_of (c ∷ tail)) (factor_of (c ∷ tail)) ulimit value)

abbrev pub is_nil : Bytes → Bool
is_nil [] = true
is_nil (c ∷ text) = false

-- An error stands for its message and the exit with status 1.
unfoldable pub getnum : (Bytes → Number) → Bytes → ℕ → ℕ → Result ℕ
unfolding scaled
getnum strtoull arg llimit ulimit =
    let n = strtoull arg in
    if not n.any
    then err "Bad or missing numerical argument"
    else if n.range_error
    then err "Value out of limits"
    else scaled n.tail n.value llimit ulimit

-- A negative answer of strtol stands here as 0.
unfoldable pub get_dict_size : (Bytes → Number) → (Bytes → Number) → Bytes → Result ℕ
unfolding getnum
get_dict_size strtol strtoull arg =
    let n = strtol arg in
    if leb min_dictionary_bits n.value && (leb n.value max_dictionary_bits && is_nil n.tail)
    then ok (2 ^ n.value)
    else getnum strtoull arg min_dictionary_size max_dictionary_size

-- The loop of `format_ds`: the number and the prefix; `np` is two blanks if there is none.
unfoldable pub format_ds_loop : List Bytes → ℕ → Bool → Bytes → ℕ × Bytes
format_ds_loop [] num exact p = (num, p)
format_ds_loop (prefix ∷ prefixes) num exact p =
    let more = ltb 9999 num || (exact && leb 1024 num) in
    let rest = format_ds_loop prefixes (num / 1024) (exact && ((num / 1024) % 1024 == 0)) prefix in
    if more then rest else (num, p)

-- The number and the prefix that `format_ds` prints.
unfoldable pub format_ds : ℕ → ℕ × Bytes
unfolding format_ds_loop
format_ds dictionary_size =
    format_ds_loop (codes "Ki" ∷ codes "Mi" ∷ codes "Gi" ∷ []) dictionary_size
      (dictionary_size % 1024 == 0) []

-- The loops of `format_num3` that take a prefix; 0 is no prefix.
unfoldable pub take_prefix : Bytes → ℕ → ℕ → ℕ → ℕ × ℕ
take_prefix [] base num prefix = (num, prefix)
take_prefix (c ∷ prefixes) base num prefix =
    let rest = take_prefix prefixes base (num / base) c in
    if not (num == 0) && (num % base == 0) then rest else (num, prefix)

-- The digits, filled from the end; `i` counts those of a group. 64-bit numbers have 20 at most.
unfoldable pub put_digits : ℕ → Bool → ℕ → ℕ → Bytes → Bytes
put_digits zero split i num p = p
put_digits (suc rounds) split i num p =
    let digit = (num % 10 + b'0') ∷ p in
    let grouped = split && leb 3 (i + 1) in
    let rest =
      put_digits rounds split (if grouped then 0 else if split then i + 1 else i) (num / 10)
        (if grouped then b'_' ∷ digit else digit) in
    if num / 10 == 0 then digit else rest

unfoldable pub format_num3 : ℕ → Bytes
unfolding take_prefix put_digits
format_num3 num =
    let binary = take_prefix (codes "KMGTPEZYRQ") 1024 num 0 in
    let si = take_prefix (codes "kMGTPEZYRQ") 1000 num 0 in
    let plain = put_digits 20 (leb 10000 num) 0 num [] in
    let with_binary = put_digits 20 (leb 10000 binary.0) 0 binary.0 (binary.1 ∷ b'i' ∷ []) in
    let with_si = put_digits 20 (leb 10000 si.0) 0 si.0 (si.1 ∷ []) in
    if leb num 9999
    then plain
    else if not (binary.1 == 0)
    then with_binary
    else if not (si.1 == 0)
    then with_si
    else plain

-- hex digit for 'value'
unfoldable pub xdigit : ℕ → ℕ
xdigit value = if leb value 9 then b'0' + value else if leb value 15 then b'A' + value - 10 else 0
