-- ===== src/Args/Spelling.antt =====
-- The ways to spell options and operands on a command line, and how the texts of `class Arg_parser` find
-- them.
use lzip_os.Base.{
  ℕ, ◌≡◌, ◌≢◌, refl, sym, ap, ◌∙◌, arith, ◌==◌, if◌then◌else◌, Bool, true, false, not, ◌&&◌,
}
use lzip_os.Base.{
  List, [], ◌∷◌, ◌++◌, Option, none, some, length, drop, All, Bytes, is_prefix, same_bytes,
  same_bytes_sound,
}
use lzip_os.Base.{Bool-cases, inl, inr, if_true, if_false}
use lzip_os.Args.{HasArg, ParserOption, ParserRecord, ArgParser, short_record, long_record}
use lzip_os.Args.{
  LongMatch, find_long, find_short, take_long, name_or_nil, found_long, long_name_of, value_of,
  parse_long_option,
}
use lzip_os.Args.{Token, operand, token_of, matches, is_exact}

-- A piece of a command line: a short option, in one word with any number of short options without an
-- argument before it, alone, with its argument after it, or with it in the same word; a long option, alone, with its argument after it, or behind `=`; or an operand.
pub data Item : Type 0 where
  short : List ParserOption → ParserOption → Item
  short_with short_joined : List ParserOption → ParserOption → Bytes → Item
  long : ParserOption → Bytes → Item
  long_with long_joined : ParserOption → Bytes → Bytes → Item
  word : Bytes → Item

-- The letters of short options in a word, and their records.
abbrev pub letters : List ParserOption → Bytes
letters [] = []
letters (f ∷ flags) = f.code ∷ letters flags

abbrev pub flag_records : List ParserOption → List ParserRecord
flag_records [] = []
flag_records (f ∷ flags) = short_record f.code [] ∷ flag_records flags

abbrev pub render : Item → List Bytes
render (short flags o) = (b'-' ∷ (letters flags ++ o.code ∷ [])) ∷ []
render (short_with flags o text) = (b'-' ∷ (letters flags ++ o.code ∷ [])) ∷ text ∷ []
render (short_joined flags o text) = (b'-' ∷ (letters flags ++ o.code ∷ text)) ∷ []
render (long o name) = (b'-' ∷ b'-' ∷ name) ∷ []
render (long_with o name text) = (b'-' ∷ b'-' ∷ name) ∷ text ∷ []
render (long_joined o name text) = (b'-' ∷ b'-' ∷ (name ++ b'=' ∷ text)) ∷ []
render (word text) = text ∷ []

abbrev pub option_records : Item → List ParserRecord
option_records (short flags o) = flag_records flags ++ short_record o.code [] ∷ []
option_records (short_with flags o text) = flag_records flags ++ short_record o.code text ∷ []
option_records (short_joined flags o text) = flag_records flags ++ short_record o.code text ∷ []
option_records (long o name) = long_record o.code name [] ∷ []
option_records (long_with o name text) = long_record o.code name text ∷ []
option_records (long_joined o name text) = long_record o.code name text ∷ []
option_records (word text) = []

abbrev pub words : Item → List Bytes
words (word text) = text ∷ []
words _ = []

abbrev is_named : Bytes → Option Bytes → Bool
is_named name none = false
is_named name (some text) = same_bytes name text

-- The first option whose long name is `name`.
unfoldable pub first_exact : Bytes → List ParserOption → Option ParserOption
first_exact name [] = none
first_exact name (o ∷ options) =
    let rest = first_exact name options in if is_named name o.long_name then some o else rest

abbrev pub IsShort : List ParserOption → ParserOption → Type 0
IsShort options o = (find_short o.code options ≡ some o) × (o.code ≢ b'-')

abbrev pub IsLong : List ParserOption → ParserOption → Bytes → Type 0
IsLong options o name =
    (first_exact name options ≡ some o) × (name ≢ []) × All (λ (c : ℕ). c ≢ b'=') name

-- Short options that take no argument.
abbrev pub IsFlags : List ParserOption → List ParserOption → Type 0
IsFlags options flags =
    All (λ (f : ParserOption). IsShort options f × (f.has_arg ≡ HasArg.no_arg)) flags

-- The pieces that are spelled as the options want them.
abbrev pub IsItem : List ParserOption → Item → Type 0
IsItem options (short flags o) =
    IsFlags options flags × IsShort options o × (o.has_arg ≡ HasArg.no_arg)
IsItem options (short_with flags o text) =
    IsFlags options flags × IsShort options o × (o.has_arg ≡ HasArg.yes_arg) × (text ≢ [])
IsItem options (short_joined flags o text) =
    IsFlags options flags × IsShort options o × (o.has_arg ≢ HasArg.no_arg) × (text ≢ [])
IsItem options (long o name) = IsLong options o name × (o.has_arg ≡ HasArg.no_arg)
IsItem options (long_with o name text) =
    IsLong options o name × (o.has_arg ≡ HasArg.yes_arg) × (text ≢ [])
IsItem options (long_joined o name text) =
    IsLong options o name × (o.has_arg ≢ HasArg.no_arg) × (text ≢ [])
IsItem options (word text) = token_of text ≡ operand

pub long_token_lem : (c : ℕ) (text : Bytes) → token_of (b'-' ∷ b'-' ∷ c ∷ text) ≡ Token.long_token
unfolding token_of
long_token_lem c text = refl

pub short_token_lem :
    (c : ℕ) (text : Bytes) → c ≢ b'-' → token_of (b'-' ∷ c ∷ text) ≡ Token.short_token
unfolding token_of
short_token_lem c [] h = ground arith
short_token_lem c (d ∷ text) h = ground arith

-- The name of an option that is spelled exactly is found, whatever else it abbreviates.
is_exact-same_bytes : (s t : Bytes) → is_prefix s t && (length t == length s) ≡ same_bytes s t
is_exact-same_bytes [] [] = refl
is_exact-same_bytes [] (d ∷ t) = ground arith
is_exact-same_bytes (c ∷ s) [] = refl
is_exact-same_bytes (c ∷ s) (d ∷ t) = ground (arith, is_exact-same_bytes s t)

named_lem :
    (name : Bytes) (o : ParserOption)
    → (matches name o && is_exact name o) ≡ is_named name o.long_name
named_lem name o = by_name o.long_name
  where
    by_name :
        (long_name : Option Bytes)
        → (elim long_name as (λ _. Bool) [ none ↦ false | some text ↦ is_prefix name text ]
            && elim long_name as (λ _. Bool) [
              | none ↦ false
              | some text ↦ length text == length name
            ])
          ≡ is_named name long_name
    by_name none = refl
    by_name (some text) = is_exact-same_bytes name text

is_named_sound : (name : Bytes) (n : Option Bytes) → is_named name n ≡ true → n ≡ some name
is_named_sound name none h = cc
is_named_sound name (some text) h = ap some (sym (same_bytes_sound name text h))

find_long-first_exact :
    (name : Bytes) (options : List ParserOption) (m : LongMatch) (o : ParserOption)
    → first_exact name options ≡ some o
    → ((find_long name options m).index ≡ some o)
      × ((find_long name options m).exact ≡ true)
      × (o.long_name ≡ some name)
unfolding first_exact find_long
find_long-first_exact name [] m o h = cc
find_long-first_exact name (q ∷ options) m o h = elim (Bool-cases (is_named name q.long_name)) [
  | inl yes_named ↦
      let same : some q ≡ some o = sym (if_true _ _ yes_named) ∙ h in
      rw (named_lem name q, yes_named)
        (same, refl, ap long_name_or (sym same) ∙ is_named_sound name q.long_name yes_named)
  | inr other ↦
      rw (named_lem name q, other)
        (find_long-first_exact name options _ o (sym (if_false _ _ other) ∙ h))
]
  where
    long_name_or : Option ParserOption → Option Bytes
    long_name_or none = none
    long_name_or (some o) = o.long_name

-- The name and the value around `=`.
pub long_name_of_lem :
    (name text : Bytes)
    → All (λ (c : ℕ). c ≢ b'=') name
    → (long_name_of name ≡ name) × (long_name_of (name ++ b'=' ∷ text) ≡ name)
unfolding long_name_of
long_name_of_lem [] text h = (refl, refl)
long_name_of_lem (c ∷ name) text h =
    let ih = long_name_of_lem name text h.1 in (ground (arith, ih.0), ground (arith, ih.1))

pub value_of_lem :
    (name text : Bytes)
    → All (λ (c : ℕ). c ≢ b'=') name
    → (value_of name ≡ none) × (value_of (name ++ b'=' ∷ text) ≡ some text)
unfolding value_of
value_of_lem [] text h = (refl, refl)
value_of_lem (c ∷ name) text h =
    let ih = value_of_lem name text h.1 in (ground (arith, ih.0), ground (arith, ih.1))

-- `parse_long_option` takes the option that its name spells exactly.
pub parse_long_option-exact :
    (options : List ParserOption) (o : ParserOption) (opt name : Bytes) (value arg : Option Bytes)
    (p : ArgParser)
    → first_exact name options ≡ some o
    → long_name_of (drop 2 opt) ≡ name
    → value_of (drop 2 opt) ≡ value
    → parse_long_option options opt arg p ≡ take_long o name value arg p
unfolding parse_long_option
parse_long_option-exact options o opt name value arg p found spelled valued =
    let f =
      find_long-first_exact name options (record { index = none; exact = false; ambig = false }) o
        found in
    rw (spelled, valued, f.0, f.1)
      (if_false _ _ (and_false _)
        ∙ unfold found_long in ap (λ n. take_long o (name_or_nil n) value arg p) f.2)
  where
    and_false : (b : Bool) → (b && not true) ≡ false
    and_false true = refl
    and_false false = refl
