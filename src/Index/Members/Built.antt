-- ===== src/Index/Members/Built.antt =====
-- The index that the constructor of Lzip_index leaves.
use lzip_os.Base.{
  ℕ, ◌+◌, ◌^◌, ◌≤◌, ◌<◌, ◌≡◌, refl, sym, ◌∙◌, subst, arith, Bool, true, false, ltb, leb, ◌==◌, ◌||◌,
  not, List, [], ◌∷◌, length, ◌≢◌,
}
use lzip_os.Lzip.Header.{LzipHeader, header_size}
use lzip_os.Index.{
  Block, Message, SeekFile, IndexMember, LzipIndex, ClOptions, seek_read, read_header, check_header,
  set_errno_error, fail,
}
use lzip_os.Index.Blocks.{IsChain, HasSizes, chain_blocks-IsChain}
use lzip_os.Index.Scan.{
  ScanEnd, is_empty, empty_index, chain_blocks, finish_index, scan_file, lzip_index, scan_loop,
}
use lzip_os.Index.Members.{
  max_file, AreLaid, if-either, member_vector-read_header, retval_-read_header,
}
use lzip_os.Index.Members.Scanned.{Failed, Scanned, scan_loop-Scanned, member_vector-check_header}

-- The members of an index: the member blocks are laid end to end from the start of the file, none ends
-- beyond its end, and the data blocks are laid end to end, all below 2 ^ 63; the numbers are unbounded.
abbrev pub IsIndex : ℕ → ℕ → ℕ → List IndexMember → Type 0
IsIndex size pos data_pos [] = Unit
IsIndex size pos data_pos (m ∷ ms) =
    (m.mblock.pos_ ≡ pos)
    × (36 ≤ m.mblock.size_)
    × (pos + m.mblock.size_ ≤ size)
    × (m.dblock.pos_ ≡ data_pos)
    × (data_pos + m.dblock.size_ < 2 ^ 63)
    × IsIndex size (pos + m.mblock.size_) (data_pos + m.dblock.size_) ms

-- What the constructor leaves: members as above, and some unless `retval_` is an error.
abbrev pub IsBuilt : ℕ → LzipIndex → Type 0
IsBuilt size x = IsIndex size 0 0 x.member_vector × (x.retval_ ≡ 0 → x.member_vector ≢ [])

Failed-IsBuilt : (size : ℕ) (x : LzipIndex) → Failed x → IsBuilt size x
Failed-IsBuilt size x h =
    (subst (IsIndex size 0 0) (sym h.0) tt, (λ e. absurd (omega (arith, h.1, e))))

AreLaid-HasSizes : (limit pos : ℕ) (ms : List IndexMember) → AreLaid limit pos ms → HasSizes ms
AreLaid-HasSizes limit pos [] h = tt
AreLaid-HasSizes limit pos (m ∷ ms) h = (h.3, AreLaid-HasSizes limit (pos + m.mblock.size_) ms h.4)

IsChain-IsIndex :
    (limit pos start : ℕ) (ms out : List IndexMember)
    → AreLaid limit pos ms
    → IsChain start ms out
    → IsIndex limit pos start out
IsChain-IsIndex limit pos start [] [] h c = tt
IsChain-IsIndex limit pos start [] (n ∷ out) h c = absurd c
IsChain-IsIndex limit pos start (m ∷ ms) [] h c = absurd c
IsChain-IsIndex limit pos start (m ∷ ms) (n ∷ out) h c =
    let rest =
      IsChain-IsIndex limit (pos + m.mblock.size_) (start + m.dblock.size_) ms out h.4 c.4 in
    let Laid : Block → Block → Type 0 = λ mb db.
      (mb.pos_ ≡ pos)
      × (36 ≤ mb.size_)
      × (pos + mb.size_ ≤ limit)
      × (db.pos_ ≡ start)
      × (start + db.size_ < 2 ^ 63)
      × IsIndex limit (pos + mb.size_) (start + db.size_) out in
    subst (λ mb. Laid mb n.dblock) (sym c.1)
      (subst (λ db. Laid m.mblock db) (sym c.0) (h.0, h.1, h.2, refl, c.3, rest))

some_left : (ms out : List IndexMember) → is_empty ms ≡ false → IsChain 0 ms out → out ≢ []
some_left [] out e c = cc
some_left (m ∷ ms) [] e c = absurd c
some_left (m ∷ ms) (n ∷ out) e c = cc

finish_index-IsBuilt :
    (limit pos : ℕ) (x : LzipIndex)
    → AreLaid limit pos x.member_vector
    → IsBuilt limit (finish_index pos x)
unfolding finish_index
finish_index-IsBuilt limit pos x laid =
    let ms = x.member_vector in
    let c = chain_blocks 0 ms in
    let Good : LzipIndex → Type 0 = λ y. IsBuilt limit y in
    if-either Good (not (pos == 0) || (is_empty ms || not (x.retval_ == 0)))
      (λ e.
        if-either Good (x.retval_ == 0) (λ a. (tt, (λ z. absurd (omega (arith, z)))))
          (λ a. (tt, (λ z. absurd (ground (arith, a, z))))))
      (λ e.
        let start : pos ≡ 0 = ground (arith, e) in
        let at_start = subst (λ p. AreLaid limit p ms) start laid in
        if-either Good c.0
          (λ a.
            let chain =
              (chain_blocks-IsChain 0 ms (omega arith) (AreLaid-HasSizes limit 0 ms at_start)).1
                a in
            (
              IsChain-IsIndex limit 0 0 ms c.1 at_start chain,
              (λ z. some_left ms c.1 (ground (arith, e)) chain),
            ))
          (λ a. (tt, (λ z. absurd (omega (arith, z))))))

scan_file-IsBuilt :
    (opts : ClOptions) (x : LzipIndex)
    → x.insize ≤ max_file
    → x.member_vector ≡ []
    → IsBuilt x.insize (scan_file opts x)
unfolding scan_file
scan_file-IsBuilt opts x low none =
    if-either Good (ltb x.insize 36)
      (λ e.
        Failed-IsBuilt x.insize (fail (Message.text "Input file is truncated.") x)
          (none, omega arith))
      (λ e.
        if-either Good (leb (2 ^ 63) x.insize)
          (λ a.
            Failed-IsBuilt x.insize
              (fail (Message.text "Input file is too long (2^63 bytes or more).") x)
              (none, omega arith))
          (λ a. by_end (scan_loop x.insize opts x.insize x) (
            scan_loop-Scanned x.insize low x.insize opts x.insize x (omega arith)
              (subst (AreLaid x.insize x.insize) (sym none) tt))))
  where
    Good : LzipIndex → Type 0
    Good y = IsBuilt x.insize y

    by_end :
        (s : ScanEnd × LzipIndex)
        → Scanned x.insize low s
        → Good (elim s.0 [ ScanEnd.stops pos ↦ finish_index pos s.1 | ScanEnd.leaves ↦ s.1 ])
    by_end (ScanEnd.stops pos, y) h = finish_index-IsBuilt x.insize pos y h
    by_end (ScanEnd.leaves, y) h = Failed-IsBuilt x.insize y h

insize-seek_read : (size pos : ℕ) (x : LzipIndex) → (seek_read size pos x).1.insize ≡ x.insize
unfolding seek_read
insize-seek_read size pos x = by_seeks x.infd.seeks
  where
    by_seeks :
        (seeks : List Bool)
        → (seek_read size pos (record x { infd = record (x.infd) { seeks = seeks } })).1.insize
          ≡ x.insize
    by_seeks [] = refl
    by_seeks (true ∷ seeks) = refl
    by_seeks (false ∷ seeks) = refl

insize-read_header : (pos : ℕ) (x : LzipIndex) → (read_header pos x).1.insize ≡ x.insize
unfolding read_header set_errno_error
insize-read_header pos x =
    if-either (λ (r : (Bool × LzipHeader) × LzipIndex). r.1.insize ≡ x.insize)
      (length (seek_read header_size pos x).0 == header_size)
      (λ e. insize-seek_read header_size pos x) (λ e. insize-seek_read header_size pos x)

insize-check_header : (h : LzipHeader) (x : LzipIndex) → (check_header h x).1.insize ≡ x.insize
unfolding check_header
insize-check_header h x = ground arith

retval_-check_header :
    (h : LzipHeader) (x : LzipIndex)
    → (check_header h x).0 ≡ false
    → 0 < (check_header h x).1.retval_
unfolding check_header
retval_-check_header h x e = ground (arith, e)

-- For a file of at most 2 ^ 50 bytes, whatever the answers of lseek and read: the members of the index that
-- the constructor leaves have member blocks that are laid end to end from the start of the file, each of at
-- least 36 bytes and none ending beyond the file, and data blocks that are laid end to end from 0 and all end
-- below 2 ^ 63, so that no end wraps; and there is a member unless `retval_` tells of an error.
pub lzip_index-IsBuilt :
    (opts : ClOptions) (f : SeekFile)
    → length f.bytes ≤ max_file
    → IsBuilt (length f.bytes) (lzip_index opts f)
unfolding lzip_index set_errno_error
lzip_index-IsBuilt opts f low =
    let x = empty_index (length f.bytes) f in
    let h = read_header 0 x in
    let c = check_header h.0.1 h.1 in
    let h_none = member_vector-read_header 0 x in
    let c_none = member_vector-check_header h.0.1 h.1 ∙ h_none in
    let size : c.1.insize ≡ length f.bytes =
      insize-check_header h.0.1 h.1 ∙ insize-read_header 0 x in
    let Good : LzipIndex → Type 0 = λ y. IsBuilt (length f.bytes) y in
    let nothing = Failed-IsBuilt (length f.bytes) in
    if-either Good (not f.seekable)
      {x = set_errno_error "Input file is not seekable: " (empty_index 0 f)}
      (λ e.
        nothing (set_errno_error "Input file is not seekable: " (empty_index 0 f))
          (refl, omega arith))
      (λ e.
        if-either Good (ltb (length f.bytes) header_size) (λ a. scan_file-IsBuilt opts x low refl)
          (λ a.
            if-either Good (not h.0.0) {x = h.1}
              (λ b. nothing h.1 (h_none, retval_-read_header 0 x (ground (arith, b))))
              (λ b.
                if-either Good (not c.0) {x = c.1}
                  (λ d. nothing c.1 (c_none, retval_-check_header h.0.1 h.1 (ground (arith, d))))
                  (λ d.
                    subst (λ n. IsBuilt n (scan_file opts c.1)) size
                      (scan_file-IsBuilt opts c.1 (omega (arith, size, low)) c_none)))))
