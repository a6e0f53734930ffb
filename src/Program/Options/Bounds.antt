-- ===== src/Program/Options/Bounds.antt =====
-- The settings that the options leave are in the bounds of the encoders.
use lzip_os.Base.{
  ℕ, ◌+◌, ◌-◌, ◌≤◌, ◌<◌, ◌≡◌, ◌⊎◌, inl, inr, refl, sym, if_true, if_false, ◌&&◌, arith, ltb, leb,
  ◌==◌, if◌then◌else◌, Bool, true, false, not, Bool-cases,
}
use lzip_os.Base.{get_or, subst, List, [], ◌∷◌, Bytes, codes, same_bytes, Result, ok, err}
use lzip_os.Lzip.Header.{isvalid_ds}
use lzip_os.Lzip.Model.{min_match_len_limit, max_match_len}
use lzip_os.Args.{ParserRecord}
use lzip_os.Program.Numbers.{Number, getnum, get_dict_size}
use lzip_os.Program.Numbers.Limits.{getnum_iff, get_dict_size-valid}
use lzip_os.Program.Options.{
  Settings, Applied, settings, exits, Mode, m_compress, m_decompress, m_list, m_test, same_mode,
  opt_lt, level, set_mode, set_level, with_member_size, with_match_len, with_dictionary,
  with_volume_size, with_number, apply_option, apply_options, max_member_size, max_volume_size,
  default_settings, option_mapping,
}

-- What compress asks of the options of the encoder, and the limits of the sizes.
pub record InBounds (s : Settings) : Type 0 where
  pub dictionary : isvalid_ds s.encoder_options.dictionary_size ≡ true
  pub match_low : min_match_len_limit ≤ s.encoder_options.match_len_limit
  pub match_high : s.encoder_options.match_len_limit ≤ max_match_len
  pub member_low : 100000 ≤ s.member_size
  pub member_high : s.member_size ≤ max_member_size
  pub volume : (s.volume_size ≡ 0) ⊎ ((100000 ≤ s.volume_size) × (s.volume_size ≤ max_volume_size))
  pub loud : s.loudness ≤ 5

-- What is left after an option: settings in their bounds, or the end of the process.
pub data Keeps : Applied → Type 0 where
  kept : {s : Settings} → InBounds s → Keeps (settings s)
  ended : {status : ℕ} → Keeps (exits status)

Keeps-if : (b : Bool) {x y : Applied} → Keeps x → Keeps y → Keeps (if b then x else y)
Keeps-if true h g = h
Keeps-if false h g = g

InBounds-if : (b : Bool) {x y : Settings} → InBounds x → InBounds y → InBounds (if b then x else y)
InBounds-if true h g = h
InBounds-if false h g = g

-- A number in its limits may replace a field.
with_number-Keeps :
    (r : Result ℕ) (k : ℕ → Settings)
    → ((n : ℕ) → r ≡ ok n → InBounds (k n))
    → Keeps (with_number r k)
with_number-Keeps (ok n) k h = kept (h n refl)
with_number-Keeps (err message) k h = ended

level_bounds :
    (digit : ℕ)
    → digit < 10
    → let o = get_or option_mapping digit (level 0 0) in
      (isvalid_ds o.dictionary_size ≡ true) × (5 ≤ o.match_len_limit) × (o.match_len_limit ≤ 273)
unfolding isvalid_ds
level_bounds digit small = ground arith

module _ (strtol strtoull : Bytes → Number) (arg : Bytes) (s : Settings) (h : InBounds s) where
  -- Other fields do not matter.
  other_fields :
      (t : Settings)
      → t.encoder_options ≡ s.encoder_options
      → t.member_size ≡ s.member_size
      → t.volume_size ≡ s.volume_size
      → t.loudness ≤ 5
      → InBounds t
  other_fields t a b c d = record {
    dictionary = rw a h.dictionary;
    match_low = rw a h.match_low;
    match_high = rw a h.match_high;
    member_low = omega (arith, b, h.member_low);
    member_high = omega (arith, b, h.member_high);
    volume = rw c h.volume;
    loud = d;
  }

  set_mode-Keeps : (m : Mode) → Keeps (set_mode m s)
  unfolding set_mode
  set_mode-Keeps m =
      Keeps-if (not (same_mode s.program_mode m_compress) && not (same_mode s.program_mode m)) ended
        (kept (other_fields (record s { program_mode = m }) refl refl refl h.loud))

  level-InBounds : (digit : ℕ) → digit < 10 → InBounds (set_level digit s)
  unfolding set_level
  level-InBounds digit small =
      let l = level_bounds digit small in
      record {
        dictionary = l.0;
        match_low = l.1;
        match_high = l.2;
        member_low = h.member_low;
        member_high = h.member_high;
        volume = h.volume;
        loud = h.loud;
      }

  member_size-Keeps :
      Keeps (with_number (getnum strtoull arg 100000 max_member_size) (with_member_size s))
  member_size-Keeps = with_number-Keeps _ (with_member_size s) (λ n e.
      let g = (getnum_iff strtoull arg 100000 max_member_size n (omega arith)).0 e in
      record {
        dictionary = h.dictionary;
        match_low = h.match_low;
        match_high = h.match_high;
        member_low = g.4;
        member_high = g.5;
        volume = h.volume;
        loud = h.loud;
      })

  match_len-Keeps :
      Keeps (with_number (getnum strtoull arg min_match_len_limit max_match_len) (with_match_len s))
  match_len-Keeps = with_number-Keeps _ (with_match_len s) (λ n e.
      let g = (getnum_iff strtoull arg min_match_len_limit max_match_len n (omega arith)).0 e in
      record {
        dictionary = h.dictionary;
        match_low = g.4;
        match_high = g.5;
        member_low = h.member_low;
        member_high = h.member_high;
        volume = h.volume;
        loud = h.loud;
      })

  dictionary-Keeps : Keeps (with_number (get_dict_size strtol strtoull arg) (with_dictionary s))
  dictionary-Keeps = with_number-Keeps _ (with_dictionary s) (λ n e. record {
    dictionary = get_dict_size-valid strtol strtoull arg n e;
    match_low = h.match_low;
    match_high = h.match_high;
    member_low = h.member_low;
    member_high = h.member_high;
    volume = h.volume;
    loud = h.loud;
  })

  volume_size-Keeps :
      Keeps (with_number (getnum strtoull arg 100000 max_volume_size) (with_volume_size s))
  volume_size-Keeps = with_number-Keeps _ (with_volume_size s) (λ n e.
      let g = (getnum_iff strtoull arg 100000 max_volume_size n (omega arith)).0 e in
      record {
        dictionary = h.dictionary;
        match_low = h.match_low;
        match_high = h.match_high;
        member_low = h.member_low;
        member_high = h.member_high;
        volume = inr (g.4, g.5);
        loud = h.loud;
      })

  output-InBounds : InBounds (
      if same_bytes arg (codes "-")
      then record s { to_stdout = true }
      else record s { default_output_filename = arg })
  output-InBounds =
      InBounds-if (same_bytes arg (codes "-"))
        (other_fields (record s { to_stdout = true }) refl refl refl h.loud)
        (other_fields (record s { default_output_filename = arg }) refl refl refl h.loud)

  louder-InBounds :
      InBounds (if ltb s.loudness 5 then record s { loudness = s.loudness + 1 } else s)
  louder-InBounds = elim (Bool-cases (ltb s.loudness 5)) [
    | inl quiet ↦
        subst InBounds (sym (if_true _ _ quiet))
          (other_fields (record s { loudness = s.loudness + 1 }) refl refl refl (ground arith))
    | inr full ↦ subst InBounds (sym (if_false _ _ full)) h
  ]

  apply_option-Keeps : (code : ℕ) → Keeps (apply_option strtol strtoull code arg s)
  unfolding apply_option
  apply_option-Keeps code = elim (Bool-cases (leb b'0' code && leb code b'9')) [
    | inl digit ↦
        subst Keeps (sym (if_true _ _ digit)) (kept (level-InBounds (code - b'0') (ground arith)))
    | inr other ↦ subst Keeps (sym (if_false _ _ other)) (
        Keeps-if (code == b'a')
          (kept (
            other_fields (record s { cl_opts = record (s.cl_opts) { ignore_trailing = false } })
              refl refl refl h.loud))
          (Keeps-if (code == b'b') member_size-Keeps (
            Keeps-if (code == b'c')
              (kept (other_fields (record s { to_stdout = true }) refl refl refl h.loud))
              (Keeps-if (code == b'd') (set_mode-Keeps m_decompress) (
                Keeps-if (code == b'f')
                  (kept (other_fields (record s { force = true }) refl refl refl h.loud))
                  (Keeps-if (code == b'F')
                    (kept (other_fields (record s { recompress = true }) refl refl refl h.loud))
                    (Keeps-if (code == b'h') ended (
                      Keeps-if (code == b'k')
                        (kept (
                          other_fields (record s { keep_input_files = true }) refl refl refl
                            h.loud))
                        (Keeps-if (code == b'l') (set_mode-Keeps m_list) (
                          Keeps-if (code == b'm') match_len-Keeps (
                            Keeps-if (code == b'n') (kept h) (
                              Keeps-if (code == b'o') (kept output-InBounds) (
                                Keeps-if (code == b'q')
                                  (kept (
                                    other_fields (record s { loudness = 0 }) refl refl refl
                                      (omega arith)))
                                  (Keeps-if (code == b's') dictionary-Keeps (
                                    Keeps-if (code == b'S') volume_size-Keeps (
                                      Keeps-if (code == b't') (set_mode-Keeps m_test) (
                                        Keeps-if (code == b'v') (kept louder-InBounds) (
                                          Keeps-if (code == b'V') ended (
                                            Keeps-if (code == opt_lt)
                                              (kept (
                                                other_fields
                                                  (record s {
                                                    cl_opts = record (s.cl_opts) {
                                                      loose_trailing = true;
                                                    };
                                                  })
                                                  refl refl refl h.loud))
                                              (ended))))))))))))))))))))
  ]

after_option :
    (strtol strtoull : Bytes → Number) (records : List ParserRecord) (a : Applied)
    → Keeps a
    → ((s : Settings) → InBounds s → Keeps (apply_options strtol strtoull records s).0)
    → Keeps
        (elim a as (λ _. Applied × List ParserRecord) [
          | settings s' ↦ apply_options strtol strtoull records s'
          | exits status ↦ (exits status, records)
        ]).0
after_option strtol strtoull records (settings s') (kept h) k = k s' h
after_option strtol strtoull records (exits status) ended k = ended

-- When the settings before it are in the bounds of the encoders, the loop over the options leaves them in
-- these bounds or ends the process, whatever the C library reads.
pub apply_options-InBounds :
    (strtol strtoull : Bytes → Number) (records : List ParserRecord) (s : Settings)
    → InBounds s
    → Keeps (apply_options strtol strtoull records s).0
unfolding apply_options
apply_options-InBounds strtol strtoull [] s h = kept h
apply_options-InBounds strtol strtoull (r ∷ records) s h = elim (Bool-cases (r.code == 0)) [
  | inl operand ↦
      subst (λ (a : Applied × List ParserRecord). Keeps a.0) (sym (if_true _ _ operand)) (kept h)
  | inr given ↦
      subst (λ (a : Applied × List ParserRecord). Keeps a.0) (sym (if_false _ _ given))
        (after_option strtol strtoull records (apply_option strtol strtoull r.code r.argument s)
          (apply_option-Keeps strtol strtoull r.argument s h r.code)
          (λ s' h'. apply_options-InBounds strtol strtoull records s' h'))
]

-- The settings before the first option are in their bounds.
pub default_settings-InBounds : InBounds default_settings
unfolding default_settings isvalid_ds
default_settings-InBounds = record {
  dictionary = refl;
  match_low = omega arith;
  match_high = omega arith;
  member_low = omega arith;
  member_high = omega arith;
  volume = inl refl;
  loud = omega arith;
}
