-- ===== src/Args.antt =====
-- `class Arg_parser` of arg_parser.h and arg_parser.cc. A text is the list of its bytes, without the zero
-- at its end; `options` is the array up to the entry with code 0.
pub mod Spelling
pub mod RoundTrip
use lzip_os.Base.{ℕ, zero, suc, ◌+◌, ◌==◌, if◌then◌else◌, Bool, true, false, not, ◌&&◌, ◌||◌}
use lzip_os.Base.{
  List, [], ◌∷◌, ◌++◌, Option, none, some, length, get_or, take, drop, Bytes, codes, is_prefix,
}

pub data HasArg : Type 0 where
  no_arg yes_arg maybe_arg yme_arg : HasArg

abbrev pub same_has_arg : HasArg → HasArg → Bool
same_has_arg no_arg no_arg = true
same_has_arg yes_arg yes_arg = true
same_has_arg maybe_arg maybe_arg = true
same_has_arg yme_arg yme_arg = true
same_has_arg _ _ = false

-- `struct Option`
pub record ParserOption : Type 0 where
  pub code : ℕ
  pub long_name : Option Bytes
  pub has_arg : HasArg

-- `struct Record`
pub record ParserRecord : Type 0 where
  pub code : ℕ
  pub parsed_name : Bytes
  pub argument : Bytes

abbrev pub short_record : ℕ → Bytes → ParserRecord
short_record c argument = record { code = c; parsed_name = b'-' ∷ c ∷ []; argument = argument }

abbrev pub long_record : ℕ → Bytes → Bytes → ParserRecord
long_record c name argument = record {
  code = c;
  parsed_name = b'-' ∷ b'-' ∷ name;
  argument = argument;
}

abbrev pub operand_record : Bytes → ParserRecord
operand_record argument = record { code = 0; parsed_name = []; argument = argument }

pub record ArgParser : Type 0 where
  pub error_ : Bytes
  pub data_ : List ParserRecord

-- What a parse function does to `argind`: it fails, or it goes on behind the option, or behind the
-- option and the argument after it.
pub data Used : Type 0 where
  failed used_one used_two : Used

abbrev pub fail : Bytes → ArgParser → Used × ArgParser
fail message p = (failed, record p { error_ = message })

abbrev pub push : ParserRecord → ArgParser → ArgParser
push r p = record p { data_ = p.data_ ++ r ∷ [] }

-- The loop that finds `len`: the name up to `=`, which begins at `opt[2]`.
unfoldable pub long_name_of : Bytes → Bytes
long_name_of [] = []
long_name_of (c ∷ text) = if c == b'=' then [] else c ∷ long_name_of text

-- The option at `index`, and the two flags.
pub record LongMatch : Type 0 where
  pub index : Option ParserOption
  pub exact : Bool
  pub ambig : Bool

-- The flag `ambig` after a nonexact match of `o`.
abbrev pub differs : Option ParserOption → ParserOption → Bool
differs none o = false
differs (some first) o = not (first.code == o.code) || not (same_has_arg first.has_arg o.has_arg)

abbrev pub or_first : Option ParserOption → ParserOption → Option ParserOption
or_first none o = some o
or_first (some first) o = some first

abbrev pub matches : Bytes → ParserOption → Bool
matches name o = elim o.long_name [ none ↦ false | some long ↦ is_prefix name long ]

abbrev pub is_exact : Bytes → ParserOption → Bool
is_exact name o = elim o.long_name [ none ↦ false | some long ↦ length long == length name ]

-- Test all long options for either exact match or abbreviated matches.
unfoldable pub find_long : Bytes → List ParserOption → LongMatch → LongMatch
find_long name [] m = m
find_long name (o ∷ options) m =
    let next =
      (if matches name o
        then record m { index = or_first m.index o; ambig = m.ambig || differs m.index o }
        else m) in
    let rest = find_long name options next in
    if matches name o && is_exact name o then record m { index = some o; exact = true } else rest

abbrev no_match : LongMatch
no_match = record { index = none; exact = false; ambig = false }

abbrev long_error : Bytes → Bytes → Bytes
long_error long_name message = codes "option '--" ++ (long_name ++ message)

-- What `parse_long_option` does with the option that it found; `value` is what follows `=`, if there
-- is one. The record is pushed before the tests.
unfoldable pub take_long :
    ParserOption → Bytes → Option Bytes → Option Bytes → ArgParser → Used × ArgParser
take_long o name (some value) arg p = elim o.has_arg [
  | no_arg ↦
      fail (long_error name (codes "' doesn't allow an argument"))
        (push (long_record o.code name []) p)
  | yes_arg ↦ elim value [
    | [] ↦
        fail (long_error name (codes "' requires an argument"))
          (push (long_record o.code name []) p)
    | c ∷ text ↦ (used_one, push (long_record o.code name (c ∷ text)) p)
  ]
  | maybe_arg ↦ (used_one, push (long_record o.code name value) p)
  | yme_arg ↦ (used_one, push (long_record o.code name value) p)
]
take_long o name none arg p = elim o.has_arg [
  | no_arg ↦ (used_one, push (long_record o.code name []) p)
  | maybe_arg ↦ (used_one, push (long_record o.code name []) p)
  | yes_arg ↦ elim arg [
    | none ↦
        fail (long_error name (codes "' requires an argument"))
          (push (long_record o.code name []) p)
    | some text ↦ elim text [
      | [] ↦
          fail (long_error name (codes "' requires an argument"))
            (push (long_record o.code name []) p)
      | c ∷ more ↦ (used_two, push (long_record o.code name (c ∷ more)) p)
    ]
  ]
  | yme_arg ↦ elim arg [
    | none ↦
        fail (long_error name (codes "' requires an argument"))
          (push (long_record o.code name []) p)
    | some text ↦ (used_two, push (long_record o.code name text) p)
  ]
]

-- `&opt[len+3]`, if there is a byte at `opt[len+2]`.
unfoldable pub value_of : Bytes → Option Bytes
value_of [] = none
value_of (c ∷ text) = if c == b'=' then some text else value_of text

abbrev pub name_or_nil : Option Bytes → Bytes
name_or_nil none = []
name_or_nil (some name) = name

-- The end of `parse_long_option`, with the option at `index`.
unfoldable pub found_long :
    Option ParserOption → Bytes → Option Bytes → Option Bytes → ArgParser → Used × ArgParser
unfolding take_long
found_long none opt value arg p = fail (codes "unrecognized option '" ++ (opt ++ codes "'")) p
found_long (some o) opt value arg p = take_long o (name_or_nil o.long_name) value arg p

unfoldable pub parse_long_option :
    List ParserOption → Bytes → Option Bytes → ArgParser → Used × ArgParser
unfolding long_name_of find_long value_of found_long
parse_long_option options opt arg p =
    let m = find_long (long_name_of (drop 2 opt)) options no_match in
    if m.ambig && not m.exact
    then fail (codes "option '" ++ (opt ++ codes "' is ambiguous")) p
    else found_long m.index opt (value_of (drop 2 opt)) arg p

unfoldable pub find_short : ℕ → List ParserOption → Option ParserOption
find_short c [] = none
find_short c (o ∷ options) = let rest = find_short c options in if c == o.code then some o else rest

-- What `parse_short_option` does with the option `c` that is the last byte of its argument.
unfoldable pub take_short : HasArg → ℕ → Option Bytes → ArgParser → Used × ArgParser
take_short no_arg c arg p = (used_one, push (short_record c []) p)
take_short maybe_arg c arg p = (used_one, push (short_record c []) p)
take_short yes_arg c (some (d ∷ text)) p = (used_two, push (short_record c (d ∷ text)) p)
take_short yes_arg c _ p =
    fail (codes "option requires an argument -- '" ++ c ∷ codes "'") (push (short_record c []) p)
take_short yme_arg c (some text) p = (used_two, push (short_record c text) p)
take_short yme_arg c none p =
    fail (codes "option requires an argument -- '" ++ c ∷ codes "'") (push (short_record c []) p)

-- The loop of `parse_short_option` on the bytes of `opt` from `cind` on.
unfoldable pub short_loop : List ParserOption → Bytes → Option Bytes → ArgParser → Used × ArgParser
unfolding find_short take_short
short_loop options [] arg p = (used_one, p)
short_loop options (c ∷ text) arg p =
    let rest = short_loop options text arg (push (short_record c []) p) in
    elim (find_short c options) [
      | none ↦ fail (codes "invalid option -- '" ++ c ∷ codes "'") p
      | some o ↦ elim text [
        | [] ↦ take_short o.has_arg c arg p
        | d ∷ more ↦ elim o.has_arg [
          | no_arg ↦ rest
          | yes_arg ↦ (used_one, push (short_record c (d ∷ more)) p)
          | maybe_arg ↦ (used_one, push (short_record c (d ∷ more)) p)
          | yme_arg ↦ (used_one, push (short_record c (d ∷ more)) p)
        ]
      ]
    ]

unfoldable pub parse_short_option :
    List ParserOption → Bytes → Option Bytes → ArgParser → Used × ArgParser
unfolding short_loop
parse_short_option options opt arg p = short_loop options (drop 1 opt) arg p

-- What the tests on `ch1`, `ch2` and the byte behind them tell about an argument.
pub data Token : Type 0 where
  operand terminator long_token short_token : Token

unfoldable pub token_of : Bytes → Token
token_of [] = operand
token_of (c ∷ []) = operand
token_of (c ∷ d ∷ []) =
    if not (c == b'-') then operand else if d == b'-' then terminator else short_token
token_of (c ∷ d ∷ e ∷ text) =
    if not (c == b'-') then operand else if d == b'-' then long_token else short_token

abbrev pub first_of : List Bytes → Option Bytes
first_of [] = none
first_of (a ∷ args) = some a

-- The loop of the constructor, on the arguments from `argind` on: the parser, the non-options, and the
-- arguments that are left when the loop ends. `skip` says that the option before has used the first.
unfoldable pub parse_loop :
    List ParserOption
    → Bool
    → Bool
    → List Bytes
    → ArgParser
    → List Bytes
    → ArgParser × List Bytes × List Bytes
unfolding token_of parse_long_option parse_short_option
parse_loop options in_order skip [] p non_options = (p, non_options, [])
parse_loop options in_order true (opt ∷ args) p non_options =
    parse_loop options in_order false args p non_options
parse_loop options in_order false (opt ∷ args) p non_options = elim (token_of opt) [
  | operand ↦
      parse_loop options in_order false args (if in_order then push (operand_record opt) p else p)
        (if in_order then non_options else non_options ++ opt ∷ [])
  | terminator ↦ (p, non_options, args)
  | long_token ↦
      let r = parse_long_option options opt (first_of args) p in
      elim r.0 [
        | failed ↦ (r.1, non_options, args)
        | used_one ↦ parse_loop options in_order false args r.1 non_options
        | used_two ↦ parse_loop options in_order true args r.1 non_options
      ]
  | short_token ↦
      let r = parse_short_option options opt (first_of args) p in
      elim r.0 [
        | failed ↦ (r.1, non_options, args)
        | used_one ↦ parse_loop options in_order false args r.1 non_options
        | used_two ↦ parse_loop options in_order true args r.1 non_options
      ]
]

abbrev pub blank_parser : ArgParser
blank_parser = record { error_ = []; data_ = [] }

unfoldable pub operands : List Bytes → List ParserRecord
operands [] = []
operands (a ∷ args) = operand_record a ∷ operands args

-- The end of the constructor.
unfoldable pub finish_parser : ArgParser → List Bytes → List Bytes → ArgParser
unfolding operands
finish_parser p non_options args = elim p.error_ [
  | [] ↦ record p { data_ = p.data_ ++ (operands non_options ++ operands args) }
  | c ∷ message ↦ record p { data_ = [] }
]

-- Arg_parser( argc, argv, options, in_order ), on the arguments behind argv[0].
unfoldable pub arg_parser : List ParserOption → Bool → List Bytes → ArgParser
unfolding parse_loop finish_parser
arg_parser options in_order args =
    let r = parse_loop options in_order false args blank_parser [] in finish_parser r.0 r.1 r.2

-- The restricted constructor.
unfoldable pub arg_parser_one : List ParserOption → Bytes → Option Bytes → ArgParser
unfolding parse_long_option parse_short_option finish_parser
arg_parser_one options opt arg = if opt_is_empty opt then blank_parser else elim (token_of opt) [
  | operand ↦ push (operand_record opt) blank_parser
  | terminator ↦ blank_parser
  | long_token ↦ finish_parser (parse_long_option options opt arg blank_parser).1 [] []
  | short_token ↦ finish_parser (parse_short_option options opt arg blank_parser).1 [] []
]
  where
    opt_is_empty : Bytes → Bool
    opt_is_empty [] = true
    opt_is_empty (c ∷ text) = false

-- code( i ) and argument( i ), for an index that is not negative.
unfoldable pub code_at : ℕ → ArgParser → ℕ
code_at i p = (get_or p.data_ i (operand_record [])).code

unfoldable pub argument_at : ℕ → ArgParser → Bytes
argument_at i p = (get_or p.data_ i (operand_record [])).argument

unfoldable pub parsed_name_at : ℕ → ArgParser → Bytes
parsed_name_at i p = (get_or p.data_ i (operand_record [])).parsed_name
