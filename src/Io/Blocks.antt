-- ===== src/Io/Blocks.antt =====
-- What `readblock` and `writeblock` promise whatever the system answers.
use lzip_os.Base.{ℕ, zero, suc, ◌+◌, ◌-◌, ◌≤◌, ◌<◌, min, ◌≡◌, refl, sym, ap, ◌∙◌, arith}
use lzip_os.Base.{
  false, List, [], ◌∷◌, ◌++◌, length, take, drop, length-take, length-drop, length-append,
}
use lzip_os.Base.{take-append-drop, take-append_rest, take-add, take_all, drop_of_length_le}
use mathlib.Core.List.{append_assoc, append-nil}
use lzip_os.Io.{ReadAnswer, InFile, ReadResult, readblock_loop, readblock, add_bytes, add_count}
use lzip_os.Io.{WriteAnswer, OutFile, WriteResult, writeblock_loop, writeblock}

-- `r` read a prefix of `rest` of at most `size` bytes, and the file goes on behind it; a short count
-- without an error means the end of the file.
pub record HasRead (size : ℕ) (rest : List ℕ) (r : ReadResult) : Type 0 where
  pub prefix : r.bytes ++ r.file.rest ≡ rest
  pub bounded : length r.bytes ≤ size
  pub short_at_end : length r.bytes < size → r.error ≡ false → r.file.rest ≡ []

add_bytes-HasRead :
    (got : List ℕ) (size : ℕ) (rest : List ℕ) (r : ReadResult)
    → length got ≤ size
    → got ++ drop (length got) rest ≡ rest
    → HasRead (size - length got) (drop (length got) rest) r
    → HasRead size rest (add_bytes got r)
add_bytes-HasRead got size rest r len whole h = record {
  prefix = rw (append_assoc got r.bytes r.file.rest, h.prefix) whole;
  bounded = omega (arith, length-append got r.bytes, h.bounded);
  short_at_end = λ p q. h.short_at_end (omega (arith, length-append got r.bytes)) q;
}

readblock_loop-HasRead :
    (answers : List ReadAnswer) (left : ℕ) (rest : List ℕ)
    → HasRead left rest (readblock_loop answers left rest)
unfolding readblock_loop
readblock_loop-HasRead [] zero rest = record {
  prefix = refl;
  bounded = omega arith;
  short_at_end = λ p q. absurd (omega arith);
}
readblock_loop-HasRead (a ∷ answers) zero rest = record {
  prefix = refl;
  bounded = omega arith;
  short_at_end = λ p q. absurd (omega arith);
}
readblock_loop-HasRead [] (suc left) rest = record {
  prefix = take-append-drop (suc left) rest;
  bounded = omega (arith, length-take (suc left) rest);
  short_at_end =
      λ p q. drop_of_length_le (suc left) rest (omega (arith, length-take (suc left) rest));
}
readblock_loop-HasRead (ReadAnswer.short n ∷ answers) (suc left) [] = record {
  prefix = refl;
  bounded = omega arith;
  short_at_end = λ p q. refl;
}
readblock_loop-HasRead (ReadAnswer.short n ∷ answers) (suc left) (b ∷ rest) =
    let got = take (min (suc n) (suc left)) (b ∷ rest) in
    let len : length got ≤ suc left =
      omega (arith, length-take (min (suc n) (suc left)) (b ∷ rest)) in
    add_bytes-HasRead got (suc left) (b ∷ rest) _ len
      (take-append_rest (min (suc n) (suc left)) (b ∷ rest))
      (readblock_loop-HasRead answers (suc left - length got) (drop (length got) (b ∷ rest)))
readblock_loop-HasRead (ReadAnswer.interrupted ∷ answers) (suc left) rest =
    readblock_loop-HasRead answers (suc left) rest
readblock_loop-HasRead (ReadAnswer.failed ∷ answers) (suc left) rest = record {
  prefix = refl;
  bounded = omega arith;
  short_at_end = λ p q. cc;
}

-- Whatever `read` answers, `readblock` stores at most `size` bytes, which are the next ones of the
-- file, in order and none left out; fewer bytes with no error mean that the end of the file is there.
pub readblock-HasRead : (size : ℕ) (f : InFile) → HasRead size f.rest (readblock size f)
unfolding readblock
readblock-HasRead size f = readblock_loop-HasRead f.answers size f.rest

-- No answer is an error.
abbrev pub NoFailure : List ReadAnswer → Type 0
NoFailure [] = Unit
NoFailure (ReadAnswer.short n ∷ answers) = NoFailure answers
NoFailure (ReadAnswer.interrupted ∷ answers) = NoFailure answers
NoFailure (ReadAnswer.failed ∷ answers) = ⊥

pub NoFailure-readblock_loop :
    (answers : List ReadAnswer) (left : ℕ) (rest : List ℕ)
    → NoFailure answers
    → ((readblock_loop answers left rest).error ≡ false)
      × NoFailure (readblock_loop answers left rest).file.answers
unfolding readblock_loop
NoFailure-readblock_loop [] zero rest h = (refl, tt)
NoFailure-readblock_loop [] (suc left) rest h = (refl, tt)
NoFailure-readblock_loop (a ∷ answers) zero rest h = (refl, h)
NoFailure-readblock_loop (ReadAnswer.short n ∷ answers) (suc left) [] h = (refl, h)
NoFailure-readblock_loop (ReadAnswer.short n ∷ answers) (suc left) (b ∷ rest) h =
    NoFailure-readblock_loop answers _ _ h
NoFailure-readblock_loop (ReadAnswer.interrupted ∷ answers) (suc left) rest h =
    NoFailure-readblock_loop answers (suc left) rest h
NoFailure-readblock_loop (ReadAnswer.failed ∷ answers) (suc left) rest h = absurd h

-- A prefix of `buf` was appended to `written`, all of it unless the count is short.
pub record HasWritten (buf written : List ℕ) (r : WriteResult) : Type 0 where
  pub appended : r.file.written ≡ written ++ take r.count buf
  pub bounded : r.count ≤ length buf

add_count-HasWritten :
    (n : ℕ) (buf written : List ℕ) (r : WriteResult)
    → HasWritten (drop n buf) (written ++ take n buf) r
    → HasWritten buf written (add_count (length (take n buf)) r)
add_count-HasWritten n buf written r h = record {
  appended =
      h.appended
      ∙ append_assoc written (take n buf) (take r.count (drop n buf))
      ∙ ap (λ s. written ++ s) (take-add n r.count (length (take n buf) + r.count) buf refl);
  bounded = omega (arith, length-drop n buf, length-take n buf, h.bounded);
}

writeblock_loop-HasWritten :
    (answers : List WriteAnswer) (buf written : List ℕ)
    → HasWritten buf written (writeblock_loop answers buf written)
unfolding writeblock_loop
writeblock_loop-HasWritten [] [] written = record {
  appended = sym (append-nil written);
  bounded = omega arith;
}
writeblock_loop-HasWritten (a ∷ answers) [] written = record {
  appended = sym (append-nil written);
  bounded = omega arith;
}
writeblock_loop-HasWritten [] (b ∷ buf) written = record {
  appended = ap (λ s. written ++ s) (sym (take_all (length (b ∷ buf)) (b ∷ buf) (omega arith)));
  bounded = omega arith;
}
writeblock_loop-HasWritten (WriteAnswer.wrote n ∷ answers) (b ∷ buf) written =
    add_count-HasWritten n (b ∷ buf) written _
      (writeblock_loop-HasWritten answers (drop n (b ∷ buf)) (written ++ take n (b ∷ buf)))
writeblock_loop-HasWritten (WriteAnswer.interrupted ∷ answers) (b ∷ buf) written =
    writeblock_loop-HasWritten answers (b ∷ buf) written
writeblock_loop-HasWritten (WriteAnswer.failed ∷ answers) (b ∷ buf) written = record {
  appended = sym (append-nil written);
  bounded = omega arith;
}

-- Whatever `write` answers, `writeblock` appends to the file the first `count` bytes of the buffer,
-- in order, and no others, and `count` is at most the size of the buffer.
pub writeblock-HasWritten :
    (buf : List ℕ) (f : OutFile) → HasWritten buf f.written (writeblock buf f)
unfolding writeblock
writeblock-HasWritten buf f = writeblock_loop-HasWritten f.answers buf f.written

-- No answer is an error.
abbrev pub NoWriteFailure : List WriteAnswer → Type 0
NoWriteFailure [] = Unit
NoWriteFailure (WriteAnswer.wrote n ∷ answers) = NoWriteFailure answers
NoWriteFailure (WriteAnswer.interrupted ∷ answers) = NoWriteFailure answers
NoWriteFailure (WriteAnswer.failed ∷ answers) = ⊥

pub NoWriteFailure-writeblock_loop :
    (answers : List WriteAnswer) (buf written : List ℕ)
    → NoWriteFailure answers
    → ((writeblock_loop answers buf written).count ≡ length buf)
      × NoWriteFailure (writeblock_loop answers buf written).file.answers
unfolding writeblock_loop
NoWriteFailure-writeblock_loop [] [] written h = (refl, tt)
NoWriteFailure-writeblock_loop (a ∷ answers) [] written h = (refl, h)
NoWriteFailure-writeblock_loop [] (b ∷ buf) written h = (refl, tt)
NoWriteFailure-writeblock_loop (WriteAnswer.wrote n ∷ answers) (b ∷ buf) written h =
    let ih =
      NoWriteFailure-writeblock_loop answers (drop n (b ∷ buf)) (written ++ take n (b ∷ buf)) h in
    (omega (arith, ih.0, length-drop n (b ∷ buf), length-take n (b ∷ buf)), ih.1)
NoWriteFailure-writeblock_loop (WriteAnswer.interrupted ∷ answers) (b ∷ buf) written h =
    NoWriteFailure-writeblock_loop answers (b ∷ buf) written h
NoWriteFailure-writeblock_loop (WriteAnswer.failed ∷ answers) (b ∷ buf) written h = absurd h

-- If no call of `write` fails, `writeblock` writes the whole buffer.
pub writeblock_whole :
    (buf : List ℕ) (f : OutFile)
    → NoWriteFailure f.answers
    → ((writeblock buf f).count ≡ length buf)
      × ((writeblock buf f).file.written ≡ f.written ++ buf)
      × NoWriteFailure (writeblock buf f).file.answers
writeblock_whole buf f h =
    (all.0, put.appended ∙ ap (λ s. f.written ++ s) (take_all _ buf (omega (arith, all.0))), all.1)
  where
    all : ((writeblock buf f).count ≡ length buf) × NoWriteFailure (writeblock buf f).file.answers
    all = unfold writeblock in NoWriteFailure-writeblock_loop f.answers buf f.written h

    put : HasWritten buf f.written (writeblock buf f)
    put = writeblock-HasWritten buf f
