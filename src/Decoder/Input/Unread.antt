-- ===== src/Decoder/Input/Unread.antt =====
-- The input as the list of the bytes that are still to come.
use lzip_os.Base.{ℕ, suc, ◌+◌, ◌≤◌, ◌<◌, ◌≡◌, refl, sym, ap, ◌∙◌, inl, inr, arith}
use lzip_os.Base.{
  if_true, if_false, >>=-ok, pure, ◌>>=◌, ltb→lt, ap₂, Bool, true, false, not, ltb, leb, Bool-cases,
  List, [], ◌∷◌, ◌++◌, leb→le, leb-false,
}
use lzip_os.Base.{
  length, take, drop, get_or, length-append, length-take, length-drop, take-length-append,
}
use lzip_os.Base.{drop-cons, drop_of_length_le, get_or-take, Result, ok, u64}
use lzip_os.Io.{readblock}
use lzip_os.Io.Blocks.{HasRead, readblock-HasRead, NoFailure, NoFailure-readblock_loop}
use lzip_os.Decoder.Input.{Input, buffer_size, refill, read_block, finished, member_position}
use lzip_os.Decoder.Input.{next_byte, get_byte}

abbrev pub unread : Input → List ℕ
unread i = drop i.pos (take i.stream_pos i.buffer)

-- What the buffer holds and what the file still has.
abbrev pub remaining : Input → List ℕ
remaining i = unread i ++ i.infd.rest

pub record IsValid (i : Input) : Type 0 where
  pub in_stream : i.pos ≤ i.stream_pos
  pub in_buffer : i.stream_pos ≤ buffer_size
  pub whole_buffer : length i.buffer ≡ buffer_size
  pub at_end : i.at_stream_end ≡ true → i.infd.rest ≡ []
  pub no_failure : NoFailure i.infd.answers

unread-nil : (i : Input) → i.stream_pos ≤ i.pos → unread i ≡ []
unread-nil i h =
    drop_of_length_le i.pos (take i.stream_pos i.buffer)
      (omega (arith, length-take i.stream_pos i.buffer))

-- The answer of `finished`, with the input after the call: nothing is lost or read twice.
pub record Looked (i : Input) (r : Result (Bool × Input)) : Type 0 where
  pub stop : Bool
  pub after : Input
  pub returns : r ≡ ok (stop, after)
  pub valid : IsValid after
  pub same : remaining after ≡ remaining i
  pub position : member_position after ≡ member_position i
  pub stopped : stop ≡ true → remaining i ≡ []
  pub going : stop ≡ false → after.pos < after.stream_pos

abbrev refilled : Input → Input
refilled i =
    let r = readblock buffer_size i.infd in
    record {
      partial_member_pos = u64 (i.partial_member_pos + i.pos);
      buffer = r.bytes ++ drop (length r.bytes) i.buffer;
      pos = 0;
      stream_pos = length r.bytes;
      infd = r.file;
      at_stream_end = ltb (length r.bytes) buffer_size;
    }

module _ (i : Input) (v : IsValid i) where
  block : HasRead buffer_size i.infd.rest (readblock buffer_size i.infd)
  block = readblock-HasRead buffer_size i.infd

  no_error :
      ((readblock buffer_size i.infd).error ≡ false)
      × NoFailure (readblock buffer_size i.infd).file.answers
  no_error =
      unfold readblock in
      NoFailure-readblock_loop i.infd.answers buffer_size i.infd.rest v.no_failure

  refilled-IsValid : IsValid (refilled i)
  refilled-IsValid = record {
    in_stream = omega arith;
    in_buffer = block.bounded;
    whole_buffer = omega (
      arith,
      length-append (readblock buffer_size i.infd).bytes
          (drop (length (readblock buffer_size i.infd).bytes) i.buffer),
      length-drop (length (readblock buffer_size i.infd).bytes) i.buffer,
      block.bounded,
      v.whole_buffer,
    );
    at_end = λ e. block.short_at_end (ltb→lt _ _ e) no_error.0;
    no_failure = no_error.1;
  }

  remaining-refilled : i.stream_pos ≤ i.pos → remaining (refilled i) ≡ remaining i
  remaining-refilled used_up =
      rw
        (
          take-length-append (readblock buffer_size i.infd).bytes
              (drop (length (readblock buffer_size i.infd).bytes) i.buffer),
          unread-nil i used_up,
        )
        block.prefix

  refill-returns : refill i ≡ ok (ltb 0 (length (readblock buffer_size i.infd).bytes), refilled i)
  unfolding refill
  refill-returns = rw no_error.0 (ground arith)

  -- No bytes came: the file is at its end.
  remaining-refilled_nil :
      length (readblock buffer_size i.infd).bytes ≤ 0 → remaining (refilled i) ≡ []
  remaining-refilled_nil h =
      rw (unread-nil (refilled i) h) (block.short_at_end (omega arith) no_error.0)

-- `finished` loses no byte and reads none twice; it answers true only if no byte is left.
pub finished-Looked : (i : Input) → IsValid i → Looked i (finished i)
unfolding finished read_block
finished-Looked i v = elim (Bool-cases (leb i.stream_pos i.pos)) [
  | inl used ↦ elim (Bool-cases i.at_stream_end) [
    | inl end ↦ record {
      stop = true;
      after = i;
      returns =
          if_true _ (ok (false, i)) used
          ∙ >>=-ok read_block (λ more. pure (not more)) i (if_true _ (refill i) end)
          ∙ ap (λ m. ok (not m, i)) (at_end used);
      valid = v;
      same = refl;
      position = refl;
      stopped = λ _. rw (unread-nil i (leb→le _ _ used)) (v.at_end end);
      going = λ e. cc;
    }
    | inr more ↦ record {
      stop = not (ltb 0 (length (readblock buffer_size i.infd).bytes));
      after = refilled i;
      returns =
          if_true _ (ok (false, i)) used
          ∙ >>=-ok read_block (λ more. pure (not more)) i
              (if_false (ok (ltb i.pos i.stream_pos, i)) _ more ∙ refill-returns i v);
      valid = refilled-IsValid i v;
      same = remaining-refilled i v (leb→le _ _ used);
      position = unfold member_position in omega arith;
      stopped = λ e.
          sym (remaining-refilled i v (leb→le _ _ used))
          ∙ remaining-refilled_nil i v (ground arith);
      going = λ e. ground arith;
    }
  ]
  | inr fresh ↦ record {
    stop = false;
    after = i;
    returns = if_false ((read_block >>= λ more. pure (not more)) i) _ fresh;
    valid = v;
    same = refl;
    position = refl;
    stopped = λ e. cc;
    going = λ e. leb-false _ _ fresh;
  }
]
  where
    at_end : leb i.stream_pos i.pos ≡ true → ltb i.pos i.stream_pos ≡ false
    at_end used = ground arith

-- The next byte in the buffer, and the input behind it.
abbrev step : Input → Input
step i = record i { pos = i.pos + 1 }

remaining-step :
    (i : Input)
    → IsValid i
    → i.pos < i.stream_pos
    → remaining i ≡ get_or i.buffer i.pos 0 ∷ remaining (step i)
remaining-step i v h =
    ap (λ s. s ++ i.infd.rest)
      (drop-cons (take i.stream_pos i.buffer) i.pos 0
          (omega (arith, length-take i.stream_pos i.buffer, v.in_buffer, v.whole_buffer))
        ∙ ap₂ (λ (b : ℕ) (n : ℕ). b ∷ drop n (take i.stream_pos i.buffer))
            (get_or-take i.stream_pos i.pos 0 i.buffer h) next)
  where
    next : suc i.pos ≡ i.pos + 1
    next = omega arith

step-IsValid : (i : Input) → IsValid i → i.pos < i.stream_pos → IsValid (step i)
step-IsValid i v h = record {
  in_stream = omega arith;
  in_buffer = v.in_buffer;
  whole_buffer = v.whole_buffer;
  at_end = v.at_end;
  no_failure = v.no_failure;
}

-- What `get_byte` answers: the next byte, which then is gone, or 0xFF at the end.
pub record Got (i : Input) (b : ℕ) (rest : List ℕ) (r : Result (ℕ × Input)) : Type 0 where
  pub after : Input
  pub returns : r ≡ ok (b, after)
  pub valid : IsValid after
  pub left : remaining after ≡ rest

-- On a valid input whose remaining bytes, in the buffer and the file, are `b` and then `rest`,
-- `get_byte` answers `b`, and leaves a valid input whose remaining bytes are `rest`, also when it has
-- to read a new block first.
pub get_byte-Got :
    (i : Input) (b : ℕ) (rest : List ℕ)
    → IsValid i
    → remaining i ≡ b ∷ rest
    → Got i b rest (get_byte i)
unfolding get_byte
get_byte-Got i b rest v e = elim (Bool-cases look.stop) [
  | inl end ↦ absurd (nil-ne (sym (look.stopped end) ∙ e))
  | inr more ↦
      let there = remaining-step look.after look.valid (look.going more) in
      let same : get_or look.after.buffer look.after.pos 0 ∷ remaining (step look.after)
          ≡ b ∷ rest =
        sym there ∙ look.same ∙ e in
      record {
        after = step look.after;
        returns =
            >>=-ok finished next_byte i look.returns
            ∙ ap (λ s. next_byte s look.after) more
            ∙ ap (λ x. ok (x, step look.after)) (cc);
        valid = step-IsValid look.after look.valid (look.going more);
        left = cc;
      }
]
  where
    look : Looked i (finished i)
    look = finished-Looked i v

    nil-ne : {b : ℕ} {rest : List ℕ} → [] ≡ b ∷ rest → ⊥
    nil-ne p = cc

-- At the end of the file `get_byte` answers 0xFF.
pub get_byte_at_end : (i : Input) → IsValid i → remaining i ≡ [] → Got i 0xFF [] (get_byte i)
unfolding get_byte
get_byte_at_end i v e = elim (Bool-cases look.stop) [
  | inl end ↦ record {
    after = look.after;
    returns = >>=-ok finished next_byte i look.returns ∙ ap (λ s. next_byte s look.after) end;
    valid = look.valid;
    left = look.same ∙ e;
  }
  | inr more ↦
      absurd
        (cons-ne (sym (remaining-step look.after look.valid (look.going more)) ∙ look.same ∙ e))
]
  where
    look : Looked i (finished i)
    look = finished-Looked i v

    cons-ne : {b : ℕ} {rest : List ℕ} → b ∷ rest ≡ [] → ⊥
    cons-ne p = cc
