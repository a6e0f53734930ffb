-- ===== src/Tests/CommandLines.antt =====
-- Concrete command lines, numbers and names.
use lzip_os.Base.{
  ◌*◌, ◌≤◌, ◌≡◌, ◌≢◌, ◌↔◌, refl, arith, true, false, List, [], ◌∷◌, ◌++◌, none, some, All, Bytes,
  codes, ok,
}
use lzip_os.Lzip.Header.{isvalid_ds}
use lzip_os.Args.{
  ParserOption, ParserRecord, no_arg, yes_arg, token_of, find_short, arg_parser, operands,
}
use lzip_os.Args.Spelling.{
  Item, IsFlags, short, short_joined, short_with, long_joined, word, IsItem, first_exact,
}
use lzip_os.Args.RoundTrip.{
  render_all, records_of, words_of, arg_parser-render_all, arg_parser-bad_letter,
}
use lzip_os.Program.Numbers.{Number, getnum, get_dict_size}
use lzip_os.Program.Numbers.Limits.{multiplier, getnum_iff, get_dict_size-valid}
use lzip_os.Program.Names.{extension_index, set_c_outname, set_d_outname, next_filename}
use lzip_os.Program.Names.Volumes.{five_digits, set_d_outname-set_c_outname, next_filename_lem}
use lzip_os.Program.Options.{default_settings, apply_options}
use lzip_os.Program.Options.Bounds.{Keeps, default_settings-InBounds, apply_options-InBounds}

abbrev keep : ParserOption
keep = record { code = b'k'; long_name = some (codes "keep"); has_arg = no_arg }

abbrev output : ParserOption
output = record { code = b'o'; long_name = some (codes "output"); has_arg = yes_arg }

abbrev known : List ParserOption
known = keep ∷ output ∷ []

-- -k file -kkoout -o out --output=out
abbrev pieces : List Item
pieces =
    short [] keep
    ∷ word (codes "file")
    ∷ short_joined (keep ∷ keep ∷ []) output (codes "out")
    ∷ short_with [] output (codes "out")
    ∷ long_joined output (codes "output") (codes "out")
    ∷ []

abbrev two_keeps : List ParserOption
two_keeps = keep ∷ keep ∷ []

two_keeps-IsFlags : IsFlags known two_keeps
unfolding find_short
two_keeps-IsFlags = (((refl, omega arith), refl), (((refl, omega arith), refl), tt))

pieces_fit : All (IsItem known) pieces
unfolding find_short token_of first_exact
pieces_fit = (
  (tt, (refl, omega arith), refl),
  (
    refl,
    (
      (two_keeps-IsFlags, (refl, omega arith), cc, cc),
      (
        (tt, (refl, omega arith), refl, cc),
        (
          (
            (
              refl,
              cc,
              (
                omega arith,
                (omega arith, (omega arith, (omega arith, (omega arith, (omega arith, tt))))),
              ),
            ),
            cc,
            cc,
          ),
          tt,
        ),
      ),
    ),
  ),
)

arg_parser-render_all_example :
    (arg_parser known false (render_all pieces)
      ≡ record { error_ = []; data_ = records_of pieces ++ (operands (words_of pieces) ++ []) })
    × (arg_parser known false (render_all pieces ++ (b'-' ∷ b'-' ∷ []) ∷ codes "-x" ∷ []) ≡ record {
      error_ = [];
      data_ = records_of pieces ++ (operands (words_of pieces) ++ operands (codes "-x" ∷ []));
    })
arg_parser-render_all_example = arg_parser-render_all known pieces (codes "-x" ∷ []) pieces_fit

no_letter : find_short b'x' known ≡ none
unfolding find_short
no_letter = refl

arg_parser-bad_letter_example :
    arg_parser known false (render_all pieces ++ codes "-kkxk" ∷ codes "-k" ∷ [])
    ≡ record { error_ = codes "invalid option -- '" ++ b'x' ∷ codes "'"; data_ = [] }
arg_parser-bad_letter_example =
    arg_parser-bad_letter known pieces (keep ∷ keep ∷ []) b'x' (codes "k") (codes "-k" ∷ [])
      pieces_fit two_keeps-IsFlags no_letter (omega arith)

-- What strtoull reads of "100KiB", and strtol of "20".
abbrev read_kib : Bytes → Number
read_kib text = record { value = 100; tail = codes "KiB"; any = true; range_error = false }

abbrev read_twenty : Bytes → Number
read_twenty text = record { value = 20; tail = []; any = true; range_error = false }

getnum_iff_example : (getnum read_kib (codes "100KiB") 4096 200000 ≡ ok 102400) ↔ (
    (true ≡ true)
    × (false ≡ false)
    × (multiplier (codes "KiB") ≢ 0)
    × (102400 ≡ 100 * multiplier (codes "KiB"))
    × (4096 ≤ 102400)
    × (102400 ≤ 200000))
getnum_iff_example = getnum_iff read_kib (codes "100KiB") 4096 200000 102400 (omega arith)

power_of_two : get_dict_size read_twenty read_kib (codes "20") ≡ ok (1024 * 1024)
unfolding get_dict_size
power_of_two = refl

get_dict_size-valid_example : isvalid_ds (1024 * 1024) ≡ true
get_dict_size-valid_example =
    get_dict_size-valid read_twenty read_kib (codes "20") (1024 * 1024) power_of_two

set_d_outname-set_c_outname_example :
    (extension_index (set_c_outname (codes "a.txt") true false true) ≡ some 0)
    × (set_d_outname
          (set_c_outname (codes "a.txt") true false true)
          (extension_index (set_c_outname (codes "a.txt") true false true))
        ≡ codes "a.txt00001")
set_d_outname-set_c_outname_example =
    set_d_outname-set_c_outname (codes "a.txt") true false true (cc) (refl {a = true})

next_filename_example :
    let r = next_filename (codes "a" ++ (five_digits 199 ++ codes ".lz")) in
    (r.0 ≡ true) × (r.1 ≡ codes "a" ++ (five_digits 200 ++ codes ".lz"))
next_filename_example = next_filename_lem (codes "a") 199 (omega arith)

-- -s 20 -9 file
abbrev given : List ParserRecord
given =
    record { code = b's'; parsed_name = codes "-s"; argument = codes "20" }
    ∷ record { code = b'9'; parsed_name = codes "-9"; argument = [] }
    ∷ record { code = 0; parsed_name = []; argument = codes "file" }
    ∷ []

apply_options-InBounds_example : Keeps (apply_options read_twenty read_kib given default_settings).0
apply_options-InBounds_example =
    apply_options-InBounds read_twenty read_kib given default_settings default_settings-InBounds
