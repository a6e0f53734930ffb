-- ===== src/Args/RoundTrip.antt =====
-- What a command line spells, the parser reads.
use lzip_os.Base.{ℕ, ◌≡◌, ◌≢◌, refl, sym, ap, ◌∙◌, arith, false}
use lzip_os.Base.{List, [], ◌∷◌, ◌++◌, Option, none, some, All, Bytes, codes}
use mathlib.Core.List.{append_assoc, append-nil}
use lzip_os.Args.{
  HasArg, ParserOption, ParserRecord, ArgParser, Used, fail, used_one, used_two, short_record,
  long_record, push,
}
use lzip_os.Args.{
  find_short, take_long, take_short, parse_long_option, parse_short_option, short_loop,
}
use lzip_os.Args.{
  Token, operand, token_of, parse_loop, operands, finish_parser, arg_parser, blank_parser, first_of,
}
use lzip_os.Args.Spelling.{
  Item, letters, flag_records, IsFlags, short, short_with, short_joined, long, long_with,
  long_joined, word, render, option_records, words, IsShort, IsLong, IsItem, long_token_lem,
  short_token_lem, long_name_of_lem, value_of_lem, parse_long_option-exact,
}

-- The step of the loop over a piece.
module _ (options : List ParserOption) (p : ArgParser) (args non : List Bytes) where
  long_one :
      (opt : Bytes) (q : ArgParser)
      → token_of opt ≡ Token.long_token
      → parse_long_option options opt (first_of args) p ≡ (used_one, q)
      → parse_loop options false false (opt ∷ args) p non
        ≡ parse_loop options false false args q non
  unfolding parse_loop
  long_one opt q tok e = ground (arith, tok, e)

  long_two :
      (opt text : Bytes) (q : ArgParser)
      → token_of opt ≡ Token.long_token
      → parse_long_option options opt (some text) p ≡ (used_two, q)
      → parse_loop options false false (opt ∷ text ∷ args) p non
        ≡ parse_loop options false false args q non
  unfolding parse_loop
  long_two opt text q tok e = ground (arith, tok, e)

  short_one :
      (opt : Bytes) (q : ArgParser)
      → token_of opt ≡ Token.short_token
      → parse_short_option options opt (first_of args) p ≡ (used_one, q)
      → parse_loop options false false (opt ∷ args) p non
        ≡ parse_loop options false false args q non
  unfolding parse_loop
  short_one opt q tok e = ground (arith, tok, e)

  short_two :
      (opt text : Bytes) (q : ArgParser)
      → token_of opt ≡ Token.short_token
      → parse_short_option options opt (some text) p ≡ (used_two, q)
      → parse_loop options false false (opt ∷ text ∷ args) p non
        ≡ parse_loop options false false args q non
  unfolding parse_loop
  short_two opt text q tok e = ground (arith, tok, e)

  word_step :
      (opt : Bytes)
      → token_of opt ≡ operand
      → parse_loop options false false (opt ∷ args) p non
        ≡ parse_loop options false false args p (non ++ opt ∷ [])
  unfolding parse_loop
  word_step opt tok = ground (arith, tok)

-- The words of short options.
word_token :
    (options flags : List ParserOption) (c : ℕ) (text : Bytes)
    → IsFlags options flags
    → c ≢ b'-'
    → token_of (b'-' ∷ (letters flags ++ c ∷ text)) ≡ Token.short_token
word_token options [] c text h k = short_token_lem c text k
word_token options (f ∷ flags) c text h k =
    short_token_lem f.code (letters flags ++ c ∷ text) h.0.0.1

flag_step :
    (options : List ParserOption) (f : ParserOption) (d : ℕ) (more : Bytes) (arg : Option Bytes)
    (p : ArgParser)
    → find_short f.code options ≡ some f
    → f.has_arg ≡ HasArg.no_arg
    → short_loop options (f.code ∷ d ∷ more) arg p
      ≡ short_loop options (d ∷ more) arg (push (short_record f.code []) p)
flag_step options f d more arg p found h = unfold short_loop in ground (arith, found, h)

-- The loop goes over the options without an argument to the next letter.
flags_step :
    (options flags : List ParserOption) (c : ℕ) (text : Bytes) (arg : Option Bytes) (p : ArgParser)
    → IsFlags options flags
    → short_loop options (letters flags ++ c ∷ text) arg p
      ≡ short_loop options (c ∷ text) arg (record p { data_ = p.data_ ++ flag_records flags })
flags_step options [] c text arg p h = rw (append-nil p.data_) refl
flags_step options (f ∷ []) c text arg p h = flag_step options f c text arg p h.0.0.0 h.0.1
flags_step options (f ∷ g ∷ flags) c text arg p h =
    flag_step options f g.code (letters flags ++ c ∷ text) arg p h.0.0.0 h.0.1
    ∙ flags_step options (g ∷ flags) c text arg (push (short_record f.code []) p) h.1
    ∙ ap (λ (s : List ParserRecord). short_loop options (c ∷ text) arg (record p { data_ = s }))
        (append_assoc p.data_ (short_record f.code [] ∷ []) (flag_records (g ∷ flags)))

-- What the parse functions do with the pieces.
module _ (options flags : List ParserOption) (o : ParserOption) (p : ArgParser)
    (fs : IsFlags options flags) where
  last_letter :
      (text : Bytes) (arg : Option Bytes) (used : Used) (r : ParserRecord)
      → short_loop options (o.code ∷ text) arg (record p { data_ = p.data_ ++ flag_records flags })
        ≡ (used, push r (record p { data_ = p.data_ ++ flag_records flags }))
      → parse_short_option options (b'-' ∷ (letters flags ++ o.code ∷ text)) arg p
        ≡ (used, record p { data_ = p.data_ ++ (flag_records flags ++ r ∷ []) })
  unfolding parse_short_option
  last_letter text arg used r e =
      flags_step options flags o.code text arg p fs
      ∙ e
      ∙ ap (λ (s : List ParserRecord). (used, record p { data_ = s }))
          (append_assoc p.data_ (flag_records flags) (r ∷ []))

  parse_short :
      (arg : Option Bytes)
      → IsShort options o
      → o.has_arg ≡ HasArg.no_arg
      → parse_short_option options (b'-' ∷ (letters flags ++ o.code ∷ [])) arg p ≡ (
        used_one,
        record p { data_ = p.data_ ++ (flag_records flags ++ short_record o.code [] ∷ []) },
      )
  parse_short arg s h =
      last_letter [] arg used_one (short_record o.code [])
        (unfold short_loop take_short in ground (arith, s.0, h))

  parse_short_with :
      (c : ℕ) (text : Bytes)
      → IsShort options o
      → o.has_arg ≡ HasArg.yes_arg
      → parse_short_option options (b'-' ∷ (letters flags ++ o.code ∷ [])) (some (c ∷ text)) p ≡ (
        used_two,
        record p { data_ = p.data_ ++ (flag_records flags ++ short_record o.code (c ∷ text) ∷ []) },
      )
  parse_short_with c text s h =
      last_letter [] (some (c ∷ text)) used_two (short_record o.code (c ∷ text))
        (unfold short_loop take_short in ground (arith, s.0, h))

  parse_short_joined :
      (c : ℕ) (text : Bytes) (arg : Option Bytes)
      → IsShort options o
      → o.has_arg ≢ HasArg.no_arg
      → parse_short_option options (b'-' ∷ (letters flags ++ o.code ∷ c ∷ text)) arg p ≡ (
        used_one,
        record p { data_ = p.data_ ++ (flag_records flags ++ short_record o.code (c ∷ text) ∷ []) },
      )
  parse_short_joined c text arg s h =
      last_letter (c ∷ text) arg used_one (short_record o.code (c ∷ text))
        (unfold short_loop in ground (arith, s.0, h))

module _ (options : List ParserOption) (o : ParserOption) (p : ArgParser) where
  parse_long :
      (name : Bytes) (arg : Option Bytes)
      → IsLong options o name
      → o.has_arg ≡ HasArg.no_arg
      → parse_long_option options (b'-' ∷ b'-' ∷ name) arg p
        ≡ (used_one, push (long_record o.code name []) p)
  parse_long name arg l h =
      parse_long_option-exact options o (b'-' ∷ b'-' ∷ name) name none arg p l.0
        (long_name_of_lem name [] l.2).0 (value_of_lem name [] l.2).0
      ∙ unfold take_long in rw h refl

  parse_long_with :
      (name : Bytes) (c : ℕ) (text : Bytes)
      → IsLong options o name
      → o.has_arg ≡ HasArg.yes_arg
      → parse_long_option options (b'-' ∷ b'-' ∷ name) (some (c ∷ text)) p
        ≡ (used_two, push (long_record o.code name (c ∷ text)) p)
  parse_long_with name c text l h =
      parse_long_option-exact options o (b'-' ∷ b'-' ∷ name) name none (some (c ∷ text)) p l.0
        (long_name_of_lem name [] l.2).0 (value_of_lem name [] l.2).0
      ∙ unfold take_long in rw h refl

  parse_long_joined :
      (name : Bytes) (c : ℕ) (text : Bytes) (arg : Option Bytes)
      → IsLong options o name
      → o.has_arg ≢ HasArg.no_arg
      → parse_long_option options (b'-' ∷ b'-' ∷ (name ++ b'=' ∷ c ∷ text)) arg p
        ≡ (used_one, push (long_record o.code name (c ∷ text)) p)
  parse_long_joined name c text arg l h =
      parse_long_option-exact options o (b'-' ∷ b'-' ∷ (name ++ b'=' ∷ c ∷ text)) name
        (some (c ∷ text)) arg p l.0 (long_name_of_lem name (c ∷ text) l.2).1
        (value_of_lem name (c ∷ text) l.2).1
      ∙ unfold take_long in ground (arith, h)

-- A command line.
abbrev pub render_all : List Item → List Bytes
render_all [] = []
render_all (i ∷ items) = render i ++ render_all items

abbrev pub records_of : List Item → List ParserRecord
records_of [] = []
records_of (i ∷ items) = option_records i ++ records_of items

abbrev pub words_of : List Item → List Bytes
words_of [] = []
words_of (i ∷ items) = words i ++ words_of items

-- The loop over a piece that is spelled as the options want it.
item_step :
    (options : List ParserOption) (i : Item) (p : ArgParser) (args non : List Bytes)
    → IsItem options i
    → parse_loop options false false (render i ++ args) p non
      ≡ parse_loop options false false args
          (record p { data_ = p.data_ ++ option_records i })
          (non ++ words i)
item_step options (short flags o) p args non (fs, s, a) = rw (append-nil non) (
    short_one options p args non _ _ (word_token options flags o.code [] fs s.1)
      (parse_short options flags o p fs (first_of args) s a))
item_step options (short_with flags o []) p args non (fs, s, a, some_text) = absurd (some_text refl)
item_step options (short_with flags o (c ∷ text)) p args non (fs, s, a, some_text) =
    rw (append-nil non) (
      short_two options p args non _ (c ∷ text) _ (word_token options flags o.code [] fs s.1)
        (parse_short_with options flags o p fs c text s a))
item_step options (short_joined flags o []) p args non (fs, s, a, some_text) =
    absurd (some_text refl)
item_step options (short_joined flags o (c ∷ text)) p args non (fs, s, a, some_text) =
    rw (append-nil non) (
      short_one options p args non _ _ (word_token options flags o.code (c ∷ text) fs s.1)
        (parse_short_joined options flags o p fs c text (first_of args) s a))
item_step options (long o []) p args non (l, a) = absurd (l.1 refl)
item_step options (long o (c ∷ name)) p args non (l, a) = rw (append-nil non) (
    long_one options p args non _ _ (long_token_lem c name)
      (parse_long options o p (c ∷ name) (first_of args) l a))
item_step options (long_with o [] text) p args non (l, a, some_text) = absurd (l.1 refl)
item_step options (long_with o (c ∷ name) []) p args non (l, a, some_text) = absurd (some_text refl)
item_step options (long_with o (c ∷ name) (d ∷ text)) p args non (l, a, some_text) =
    rw (append-nil non) (
      long_two options p args non _ (d ∷ text) _ (long_token_lem c name)
        (parse_long_with options o p (c ∷ name) d text l a))
item_step options (long_joined o [] text) p args non (l, a, some_text) = absurd (l.1 refl)
item_step options (long_joined o (c ∷ name) []) p args non (l, a, some_text) =
    absurd (some_text refl)
item_step options (long_joined o (c ∷ name) (d ∷ text)) p args non (l, a, some_text) =
    rw (append-nil non) (
      long_one options p args non _ _ (long_token_lem c (name ++ b'=' ∷ d ∷ text))
        (parse_long_joined options o p (c ∷ name) d text (first_of args) l a))
item_step options (word text) p args non tok =
    rw (append-nil p.data_) (word_step options p args non text tok)

items_step :
    (options : List ParserOption) (items : List Item) (p : ArgParser) (args non : List Bytes)
    → All (IsItem options) items
    → parse_loop options false false (render_all items ++ args) p non
      ≡ parse_loop options false false args
          (record p { data_ = p.data_ ++ records_of items })
          (non ++ words_of items)
items_step options [] p args non h = rw (append-nil p.data_, append-nil non) refl
items_step options (i ∷ items) p args non h =
    ap (λ s. parse_loop options false false s p non)
      (append_assoc (render i) (render_all items) args)
    ∙ item_step options i p (render_all items ++ args) non h.0
    ∙ items_step options items (record p { data_ = p.data_ ++ option_records i }) args
        (non ++ words i) h.1
    ∙ ap (λ s. parse_loop options false false args s ((non ++ words i) ++ words_of items)) assoc
    ∙ ap
        (parse_loop options false false args
          (record p { data_ = p.data_ ++ records_of (i ∷ items) }))
        (append_assoc non (words i) (words_of items))
  where
    assoc :
        ◌≡◌ {A = ArgParser}
          (record p { data_ = (p.data_ ++ option_records i) ++ records_of items })
          (record p { data_ = p.data_ ++ (option_records i ++ records_of items) })
    assoc =
        ap (λ (s : List ParserRecord). record p { data_ = s })
          (append_assoc p.data_ (option_records i) (records_of items))

terminator_step :
    (options : List ParserOption) (p : ArgParser) (rest non : List Bytes)
    → parse_loop options false false ((b'-' ∷ b'-' ∷ []) ∷ rest) p non ≡ (p, non, rest)
unfolding parse_loop token_of
terminator_step options p rest non = refl

end_step :
    (options : List ParserOption) (p : ArgParser) (non : List Bytes)
    → parse_loop options false false [] p non ≡ (p, non, [])
unfolding parse_loop
end_step options p non = refl

-- For any pieces that are spelled as the options want them, in any order, the parser has no error, and its
-- data are a record for each option, in order, and then one for each operand, in order; the arguments behind
-- `--`, whatever they are, follow as operands. The pieces are: short options, of which any number that take
-- no argument may stand before another one in a word, which takes no argument, has one that is not empty
-- behind it in the word, or needs one and has one that is not empty as the next word; long options, spelled
-- exactly, that take no argument, have one that is not empty behind `=`, or need one and have one that is not
-- empty as the next word; and operands.
pub arg_parser-render_all :
    (options : List ParserOption) (items : List Item) (rest : List Bytes)
    → All (IsItem options) items
    → (arg_parser options false (render_all items)
        ≡ record { error_ = []; data_ = records_of items ++ (operands (words_of items) ++ []) })
      × (arg_parser options false (render_all items ++ (b'-' ∷ b'-' ∷ []) ∷ rest) ≡ record {
        error_ = [];
        data_ = records_of items ++ (operands (words_of items) ++ operands rest);
      })
unfolding arg_parser finish_parser
arg_parser-render_all options items rest h = (
  ap finish (
        sym (
          ap (λ s. parse_loop options false false s blank_parser [])
            (append-nil (render_all items)))
        ∙ items_step options items blank_parser [] [] h
        ∙ end_step options _ (words_of items))
      ∙ refl,
  ap finish (
      items_step options items blank_parser ((b'-' ∷ b'-' ∷ []) ∷ rest) [] h
      ∙ terminator_step options _ rest (words_of items)),
)
  where
    finish : ArgParser × List Bytes × List Bytes → ArgParser
    finish r = finish_parser r.0 r.1 r.2

-- Behind any such pieces, a word of short options in which a letter that is no option's, nor `-`, follows any number
-- of options that take no argument makes the parser fail: its error names the letter, and its data are empty,
-- whatever follows.
pub arg_parser-bad_letter :
    (options : List ParserOption) (items : List Item) (flags : List ParserOption) (c : ℕ)
    (text : Bytes) (rest : List Bytes)
    → All (IsItem options) items
    → IsFlags options flags
    → find_short c options ≡ none
    → c ≢ b'-'
    → arg_parser options false (render_all items ++ (b'-' ∷ (letters flags ++ c ∷ text)) ∷ rest)
      ≡ record { error_ = codes "invalid option -- '" ++ c ∷ codes "'"; data_ = [] }
unfolding arg_parser finish_parser
arg_parser-bad_letter options items flags c text rest h fs missing not_dash =
    ap finish (items_step options items blank_parser (bad ∷ rest) [] h ∙ fails)
  where
    finish : ArgParser × List Bytes × List Bytes → ArgParser
    finish r = finish_parser r.0 r.1 r.2

    bad : Bytes
    bad = b'-' ∷ (letters flags ++ c ∷ text)

    message : Bytes
    message = codes "invalid option -- '" ++ c ∷ codes "'"

    before : ArgParser
    before = record blank_parser { data_ = records_of items }

    stops :
        parse_short_option options bad (first_of rest) before
        ≡ fail message (record before { data_ = before.data_ ++ flag_records flags })
    stops =
        unfold parse_short_option in
        flags_step options flags c text (first_of rest) before fs
        ∙ unfold short_loop in ground (arith, missing)

    fails : parse_loop options false false (bad ∷ rest) before (words_of items) ≡ (
      record before { error_ = message; data_ = before.data_ ++ flag_records flags },
      words_of items,
      rest,
    )
    fails = unfold parse_loop in ground (arith, word_token options flags c text fs not_dash, stops)
