-- ===== src/Index.antt =====
-- `class Lzip_index` of lzip_index.h and lzip_index.cc: the members of a file, found from its end.
pub mod Scan
pub mod Blocks
pub mod Members
use lzip_os.Base.{
  ℕ, zero, suc, ◌+◌, ◌-◌, ◌*◌, ◌/◌, ◌%◌, ◌^◌, min, ltb, leb, ◌==◌, if◌then◌else◌, Bool, true, false,
  not, ◌&&◌, ◌||◌,
}
use lzip_os.Base.{List, [], ◌∷◌, length, take, drop, u64}
use lzip_os.Io.{ReadAnswer, InFile, readblock}
use lzip_os.Lzip.Header.{
  LzipHeader, header_size, check_magic, check_version, version, isvalid_ds, dictionary_size,
}
use Prim.Native.String.{String}

pub record Block : Type 0 where
  pub pos_ : ℕ
  pub size_ : ℕ

-- The numbers are of type long long; one that is negative stands here as its value plus 2 ^ 64.
unfoldable pub block_end : Block → ℕ
block_end b = u64 (b.pos_ + b.size_)

-- `struct Member`
pub record IndexMember : Type 0 where
  pub dblock : Block
  pub mblock : Block
  pub dict_size : ℕ

-- The text of `error_`, but for what strerror, bad_version and printf add to it.
pub data Message : Type 0 where
  no_message : Message
  text : String → Message
  text_errno : String → Message
  text_number : String → ℕ → Message
  bad_version : ℕ → Message

-- A file that can be read at any position. The next calls of lseek work or not, and the next calls of
-- read give the answers, as the lists say; when they run out every call works.
pub record SeekFile : Type 0 where
  pub bytes : List ℕ
  pub seekable : Bool
  pub seeks : List Bool
  pub answers : List ReadAnswer

-- The options of `struct Cl_options`.
pub record ClOptions : Type 0 where
  pub ignore_trailing : Bool
  pub loose_trailing : Bool

pub record LzipIndex : Type 0 where
  pub member_vector : List IndexMember
  pub error_ : Message
  pub insize : ℕ
  pub retval_ : ℕ
  pub dictionary_size_ : ℕ
  pub infd : SeekFile

-- The bytes that `seek_read` stores, and the index with the file as it is afterwards.
unfoldable pub seek_read : ℕ → ℕ → LzipIndex → List ℕ × LzipIndex
seek_read size pos x = elim x.infd.seeks [
  | [] ↦ read_at x.infd
  | works ∷ seeks ↦
      let f = record (x.infd) { seeks = seeks } in
      if works then read_at f else ([], record x { infd = f })
]
  where
    read_at : SeekFile → List ℕ × LzipIndex
    read_at f =
        let r = readblock size (record { rest = drop pos f.bytes; answers = f.answers }) in
        (r.bytes, record x { infd = record f { answers = r.file.answers } })

abbrev pub fail : Message → LzipIndex → LzipIndex
fail message x = record x { error_ = message; retval_ = 2 }

unfoldable pub check_header : LzipHeader → LzipIndex → Bool × LzipIndex
check_header h x =
    if not (check_magic h)
    then (false, fail (text "Bad magic number (file not in lzip format).") x)
    else if not (check_version h)
    then (false, fail (bad_version (version h)) x)
    else if not (isvalid_ds (dictionary_size h))
    then (false, fail (text "Invalid dictionary size in member header.") x)
    else (true, x)

unfoldable pub set_errno_error : String → LzipIndex → LzipIndex
set_errno_error message x = record x { error_ = text_errno message; retval_ = 1 }

unfoldable pub set_num_error : String → ℕ → LzipIndex → LzipIndex
set_num_error message num x = record x { error_ = text_number message (u64 num); retval_ = 2 }

-- The header if it was read whole.
unfoldable pub read_header : ℕ → LzipIndex → (Bool × LzipHeader) × LzipIndex
unfolding seek_read set_errno_error
read_header pos x =
    let r = seek_read header_size pos x in
    if length r.0 == header_size
    then ((true, r.0), r.1)
    else ((false, r.0), set_errno_error "Error reading member header: " r.1)

-- Members

unfoldable pub multi_empty : List IndexMember → Bool
multi_empty [] = false
multi_empty (m ∷ []) = false
multi_empty (m ∷ n ∷ ms) = any_empty (m ∷ n ∷ ms)
  where
    any_empty : List IndexMember → Bool
    any_empty [] = false
    any_empty (m ∷ ms) = (m.dblock.size_ == 0) || any_empty ms

-- The end of the last block that `get` picks; zero without members.
unfoldable pub last_end : (IndexMember → Block) → List IndexMember → ℕ
unfolding block_end
last_end get [] = 0
last_end get (m ∷ []) = block_end (get m)
last_end get (m ∷ n ∷ ms) = last_end get (n ∷ ms)

unfoldable pub udata_size : List IndexMember → ℕ
unfolding last_end
udata_size ms = last_end (λ m. m.dblock) ms

unfoldable pub cdata_size : List IndexMember → ℕ
unfolding last_end
cdata_size ms = last_end (λ m. m.mblock) ms
