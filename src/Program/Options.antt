-- ===== src/Program/Options.antt =====
-- The options of main in main.cc. strtol and strtoull are functions of the text, as in Program/Numbers;
-- an exit of the process stands for its status.
pub mod Bounds
use lzip_os.Base.{
  ℕ, zero, suc, ◌+◌, ◌-◌, ◌*◌, ◌^◌, ltb, leb, ◌==◌, if◌then◌else◌, Bool, true, false, not, ◌&&◌,
  ◌||◌,
}
use lzip_os.Base.{
  List, [], ◌∷◌, Option, none, some, get_or, Bytes, codes, same_bytes, Result, ok, err,
}
use lzip_os.Lzip.Model.{min_match_len_limit, max_match_len}
use lzip_os.Index.{ClOptions}
use lzip_os.Args.{HasArg, no_arg, yes_arg, ParserOption, ParserRecord}
use lzip_os.Program.Numbers.{Number, getnum, get_dict_size}

-- `struct Lzma_options`
pub record LzmaOptions : Type 0 where
  pub dictionary_size : ℕ
  pub match_len_limit : ℕ

pub data Mode : Type 0 where
  m_compress m_decompress m_list m_test : Mode

abbrev pub same_mode : Mode → Mode → Bool
same_mode m_compress m_compress = true
same_mode m_decompress m_decompress = true
same_mode m_list m_list = true
same_mode m_test m_test = true
same_mode _ _ = false

abbrev pub level : ℕ → ℕ → LzmaOptions
level dictionary_size match_len_limit = record {
  dictionary_size = dictionary_size;
  match_len_limit = match_len_limit;
}

abbrev pub option_mapping : List LzmaOptions
option_mapping =
    level (2 ^ 16) 16
    ∷ level (2 ^ 20) 5
    ∷ level (3 * 2 ^ 19) 6
    ∷ level (2 ^ 21) 8
    ∷ level (3 * 2 ^ 20) 12
    ∷ level (2 ^ 22) 20
    ∷ level (2 ^ 23) 36
    ∷ level (2 ^ 24) 68
    ∷ level (3 * 2 ^ 23) 132
    ∷ level (2 ^ 25) 273
    ∷ []

abbrev pub max_member_size : ℕ
max_member_size = 0x0008_0000_0000_0000

abbrev pub max_volume_size : ℕ
max_volume_size = 0x4000_0000_0000_0000

-- The variables that the options set; `loudness` is verbosity + 1.
pub record Settings : Type 0 where
  pub encoder_options : LzmaOptions
  pub member_size : ℕ
  pub volume_size : ℕ
  pub default_output_filename : Bytes
  pub program_mode : Mode
  pub cl_opts : ClOptions
  pub force : Bool
  pub keep_input_files : Bool
  pub recompress : Bool
  pub to_stdout : Bool
  pub zero_level : Bool
  pub loudness : ℕ

unfoldable pub default_settings : Settings
default_settings = record {
  encoder_options = level (2 ^ 23) 36;
  member_size = max_member_size;
  volume_size = 0;
  default_output_filename = [];
  program_mode = m_compress;
  cl_opts = record { ignore_trailing = true; loose_trailing = false };
  force = false;
  keep_input_files = false;
  recompress = false;
  to_stdout = false;
  zero_level = false;
  loudness = 1;
}

abbrev pub opt_lt : ℕ
opt_lt = 256

abbrev entry : ℕ → Bytes → HasArg → ParserOption
entry c name has_arg = record { code = c; long_name = some name; has_arg = has_arg }

abbrev entry_short : ℕ → ParserOption
entry_short c = record { code = c; long_name = none; has_arg = no_arg }

-- The table `options`.
unfoldable pub options : List ParserOption
options =
    entry b'0' (codes "fast") no_arg
    ∷ entry_short b'1'
    ∷ entry_short b'2'
    ∷ entry_short b'3'
    ∷ entry_short b'4'
    ∷ entry_short b'5'
    ∷ entry_short b'6'
    ∷ entry_short b'7'
    ∷ entry_short b'8'
    ∷ entry b'9' (codes "best") no_arg
    ∷ entry b'a' (codes "trailing-error") no_arg
    ∷ entry b'b' (codes "member-size") yes_arg
    ∷ entry b'c' (codes "stdout") no_arg
    ∷ entry b'd' (codes "decompress") no_arg
    ∷ entry b'f' (codes "force") no_arg
    ∷ entry b'F' (codes "recompress") no_arg
    ∷ entry b'h' (codes "help") no_arg
    ∷ entry b'k' (codes "keep") no_arg
    ∷ entry b'l' (codes "list") no_arg
    ∷ entry b'm' (codes "match-length") yes_arg
    ∷ entry b'n' (codes "threads") yes_arg
    ∷ entry b'o' (codes "output") yes_arg
    ∷ entry b'q' (codes "quiet") no_arg
    ∷ entry b's' (codes "dictionary-size") yes_arg
    ∷ entry b'S' (codes "volume-size") yes_arg
    ∷ entry b't' (codes "test") no_arg
    ∷ entry b'v' (codes "verbose") no_arg
    ∷ entry b'V' (codes "version") no_arg
    ∷ entry opt_lt (codes "loose-trailing") no_arg
    ∷ []

-- What an option does: the settings after it, or the end of the process with a status.
pub data Applied : Type 0 where
  settings : Settings → Applied
  exits : ℕ → Applied

unfoldable pub set_mode : Mode → Settings → Applied
set_mode new_mode s =
    if not (same_mode s.program_mode m_compress) && not (same_mode s.program_mode new_mode)
    then exits 1
    else settings (record s { program_mode = new_mode })

abbrev pub with_number : Result ℕ → (ℕ → Settings) → Applied
with_number (ok n) k = settings (k n)
with_number (err message) k = exits 1

-- The digits '0' to '9'.
unfoldable pub set_level : ℕ → Settings → Settings
set_level digit s = record s {
  zero_level = digit == 0;
  encoder_options = get_or option_mapping digit (level 0 0);
}

abbrev pub with_member_size : Settings → ℕ → Settings
with_member_size s n = record s { member_size = n }

abbrev pub with_match_len : Settings → ℕ → Settings
with_match_len s n = record s {
  encoder_options = record (s.encoder_options) { match_len_limit = n };
  zero_level = false;
}

abbrev pub with_dictionary : Settings → ℕ → Settings
with_dictionary s n = record s {
  encoder_options = record (s.encoder_options) { dictionary_size = n };
  zero_level = false;
}

abbrev pub with_volume_size : Settings → ℕ → Settings
with_volume_size s n = record s { volume_size = n }

-- The switch on an option's code.
unfoldable pub apply_option : (Bytes → Number) → (Bytes → Number) → ℕ → Bytes → Settings → Applied
unfolding getnum get_dict_size set_mode set_level
apply_option strtol strtoull code arg s =
    if leb b'0' code && leb code b'9'
    then settings (set_level (code - b'0') s)
    else if code == b'a'
    then settings (record s { cl_opts = record (s.cl_opts) { ignore_trailing = false } })
    else if code == b'b'
    then with_number (getnum strtoull arg 100000 max_member_size) (with_member_size s)
    else if code == b'c'
    then settings (record s { to_stdout = true })
    else if code == b'd'
    then set_mode m_decompress s
    else if code == b'f'
    then settings (record s { force = true })
    else if code == b'F'
    then settings (record s { recompress = true })
    else if code == b'h'
    then exits 0
    else if code == b'k'
    then settings (record s { keep_input_files = true })
    else if code == b'l'
    then set_mode m_list s
    else if code == b'm'
    then with_number (getnum strtoull arg min_match_len_limit max_match_len) (with_match_len s)
    else if code == b'n'
    then settings s
    else if code == b'o'
    then settings (
        if same_bytes arg (codes "-")
        then record s { to_stdout = true }
        else record s { default_output_filename = arg })
    else if code == b'q'
    then settings (record s { loudness = 0 })
    else if code == b's'
    then with_number (get_dict_size strtol strtoull arg) (with_dictionary s)
    else if code == b'S'
    then with_number (getnum strtoull arg 100000 max_volume_size) (with_volume_size s)
    else if code == b't'
    then set_mode m_test s
    else if code == b'v'
    then settings (if ltb s.loudness 5 then record s { loudness = s.loudness + 1 } else s)
    else if code == b'V'
    then exits 0
    else if code == opt_lt
    then settings (record s { cl_opts = record (s.cl_opts) { loose_trailing = true } })
    else exits 3

-- process options: the settings and the records from the first operand on.
unfoldable pub apply_options :
    (Bytes → Number) → (Bytes → Number) → List ParserRecord → Settings → Applied × List ParserRecord
unfolding apply_option
apply_options strtol strtoull [] s = (settings s, [])
apply_options strtol strtoull (r ∷ records) s =
    if r.code == 0
    then (settings s, r ∷ records)
    else elim (apply_option strtol strtoull r.code r.argument s) [
      | settings s' ↦ apply_options strtol strtoull records s'
      | exits status ↦ (exits status, records)
    ]

-- The names of the files, and whether any but "-" is given.
unfoldable pub filenames_of : List ParserRecord → List Bytes
filenames_of [] = []
filenames_of (r ∷ records) = r.argument ∷ filenames_of records

unfoldable pub filenames_given : List Bytes → Bool
filenames_given [] = false
filenames_given (name ∷ names) = not (same_bytes name (codes "-")) || filenames_given names

unfoldable pub set_retval : ℕ → ℕ → ℕ
set_retval retval new_val = if ltb retval new_val then new_val else retval
