-- ===== src/Io.antt =====
-- `readblock` and `writeblock` of decoder.cc. The operating system is a parameter: a file is the
-- bytes that are left to read, or that were written, with the answers that the next calls of `read`
-- or `write` on it give. When the answers run out each call moves all that it is asked for.
pub mod Blocks
use lzip_os.Base.{ℕ, zero, suc, ◌+◌, ◌-◌, min, ◌==◌, if◌then◌else◌, Bool, true, false}
use lzip_os.Base.{List, [], ◌∷◌, ◌++◌, length, take, drop}

-- short n: at most n + 1 bytes; interrupted: -1 with EINTR; failed: -1 with another error.
pub data ReadAnswer : Type 0 where
  short : ℕ → ReadAnswer
  interrupted failed : ReadAnswer

pub record InFile : Type 0 where
  pub rest : List ℕ
  pub answers : List ReadAnswer

-- The bytes that were stored, whether the loop ended with errno set, and the file afterwards.
pub record ReadResult : Type 0 where
  pub bytes : List ℕ
  pub error : Bool
  pub file : InFile

abbrev pub add_bytes : List ℕ → ReadResult → ReadResult
add_bytes bs r = record r { bytes = bs ++ r.bytes }

-- The loop of `readblock`, one round for each answer, with `left` bytes still to read; the last
-- clause is the round that gets all that is there, and the end of file after it if that is less.
unfoldable pub readblock_loop : List ReadAnswer → ℕ → List ℕ → ReadResult
readblock_loop answers zero rest = record {
  bytes = [];
  error = false;
  file = record { rest = rest; answers = answers };
}
readblock_loop [] (suc left) rest = record {
  bytes = take (suc left) rest;
  error = false;
  file = record { rest = drop (suc left) rest; answers = [] };
}
readblock_loop (short n ∷ answers) (suc left) [] = record {
  bytes = [];
  error = false;
  file = record { rest = []; answers = answers };
}
readblock_loop (short n ∷ answers) (suc left) (b ∷ rest) =
    let got = take (min (suc n) (suc left)) (b ∷ rest) in
    add_bytes got (readblock_loop answers (suc left - length got) (drop (length got) (b ∷ rest)))
readblock_loop (interrupted ∷ answers) (suc left) rest = readblock_loop answers (suc left) rest
readblock_loop (failed ∷ answers) (suc left) rest = record {
  bytes = [];
  error = true;
  file = record { rest = rest; answers = answers };
}

unfoldable pub readblock : ℕ → InFile → ReadResult
unfolding readblock_loop
readblock size f = readblock_loop f.answers size f.rest

-- wrote n: at most n bytes are taken; 0 is no error and the loop tries again.
pub data WriteAnswer : Type 0 where
  wrote : ℕ → WriteAnswer
  interrupted failed : WriteAnswer

pub record OutFile : Type 0 where
  pub written : List ℕ
  pub answers : List WriteAnswer

-- The number of bytes written, and the file afterwards.
pub record WriteResult : Type 0 where
  pub count : ℕ
  pub file : OutFile

abbrev add_count : ℕ → WriteResult → WriteResult
add_count n r = record r { count = n + r.count }

unfoldable pub writeblock_loop : List WriteAnswer → List ℕ → List ℕ → WriteResult
writeblock_loop answers [] written = record {
  count = 0;
  file = record { written = written; answers = answers };
}
writeblock_loop [] (b ∷ buf) written = record {
  count = length (b ∷ buf);
  file = record { written = written ++ (b ∷ buf); answers = [] };
}
writeblock_loop (wrote n ∷ answers) (b ∷ buf) written =
    let sent = take n (b ∷ buf) in
    add_count (length sent) (writeblock_loop answers (drop n (b ∷ buf)) (written ++ sent))
writeblock_loop (interrupted ∷ answers) (b ∷ buf) written =
    writeblock_loop answers (b ∷ buf) written
writeblock_loop (failed ∷ answers) (b ∷ buf) written = record {
  count = 0;
  file = record { written = written; answers = answers };
}

unfoldable pub writeblock : List ℕ → OutFile → WriteResult
unfolding writeblock_loop
writeblock buf f = writeblock_loop f.answers buf f.written
