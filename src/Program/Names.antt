-- ===== src/Program/Names.antt =====
-- The names of the output files in main.cc. A name is the list of its bytes.
pub mod Volumes
use lzip_os.Base.{
  ℕ, zero, suc, ◌+◌, ◌-◌, ltb, leb, ◌==◌, if◌then◌else◌, Bool, true, false, not, ◌&&◌, ◌||◌,
}
use lzip_os.Base.{
  List, [], ◌∷◌, ◌++◌, Option, none, some, length, take, drop, get_or, set, Bytes, codes,
  same_bytes,
}

-- An entry of `known_extensions`.
pub record Extension : Type 0 where
  pub from : Bytes
  pub to : Bytes

abbrev pub known_extensions : List Extension
known_extensions =
    record { from = codes ".lz"; to = [] } ∷ record { from = codes ".tlz"; to = codes ".tar" } ∷ []

-- The first entry of a table whose `from` is the end of the name, but not all of it; the index counts
-- from `eindex`, and `none` is -1.
unfoldable pub extension_from : ℕ → List Extension → Bytes → Option ℕ
extension_from eindex [] name = none
extension_from eindex (e ∷ table) name =
    let rest = extension_from (eindex + 1) table name in
    if ltb (length e.from) (length name)
      && same_bytes (drop (length name - length e.from) name) e.from
    then some eindex
    else rest

unfoldable pub extension_index : Bytes → Option ℕ
unfolding extension_from
extension_index name = extension_from 0 known_extensions name

abbrev pub is_none : Option ℕ → Bool
is_none none = true
is_none (some i) = false

-- The `output_filename` that set_c_outname leaves.
unfoldable pub set_c_outname : Bytes → Bool → Bool → Bool → Bytes
set_c_outname name filenames_given force_ext multifile =
    let first = if multifile then name ++ codes "00001" else name in
    if force_ext || (multifile || (not filenames_given && is_none (extension_index first)))
    then first ++ codes ".lz"
    else first

abbrev out_name : Bytes → Bytes
out_name name = name ++ codes ".out"

abbrev pub no_extension : Extension
no_extension = record { from = []; to = [] }

-- The `output_filename` that set_d_outname leaves.
unfoldable pub set_d_outname : Bytes → Option ℕ → Bytes
set_d_outname name none = out_name name
set_d_outname name (some eindex) =
    let e = get_or known_extensions eindex no_extension in
    if ltb (length e.from) (length name)
    then take (length name - length e.from) name ++ e.to
    else out_name name

-- The loop of next_filename, on the digit at index `i` and those before it. The bytes are below 128.
unfoldable pub count_up : ℕ → ℕ → Bytes → Bool × Bytes
count_up zero i name = (false, name)
count_up (suc j) i name =
    let rest = count_up j (i - 1) (set name i b'0') in
    if ltb (get_or name i 0) b'9' then (true, set name i (get_or name i 0 + 1)) else rest

-- The answer, and the `output_filename` afterwards.
unfoldable pub next_filename : Bytes → Bool × Bytes
unfolding count_up
next_filename name =
    if leb 8 (length name) then count_up 5 (length name - 3 - 1) name else (false, name)
