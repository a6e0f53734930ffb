-- ===== src/Index/Members/Scanned.antt =====
-- skip_trailing_data and the loop of the constructor of Lzip_index: the members that they find.
use lzip_os.Base.{
  ℕ, zero, suc, ◌+◌, ◌-◌, ◌*◌, ◌%◌, ◌/◌, ◌≤◌, ◌<◌, ◌≡◌, refl, sym, ◌∙◌, subst, arith, Bool, true,
  false, ltb, leb, ◌==◌, ◌&&◌, ◌||◌, not, if◌then◌else◌, List, [], ◌∷◌, ◌++◌, length, take, drop,
  get_or, sub64, u8, u64, ◌>>>◌, ◌≢◌, replicate,
}
use Prim.Native.String.{String}
use lzip_os.Lzip.Header.{LzipHeader, check, header_size, check_prefix, check_corrupt}
use lzip_os.Lzip.Trailer.{LzipTrailer, trailer_size, member_size, check_consistency}
use lzip_os.Index.{
  IndexMember, LzipIndex, ClOptions, seek_read, read_header, check_header, set_errno_error,
  set_num_error,
}
use lzip_os.Index.Scan.{
  Search, ScanEnd, is_empty, push_member, accept_member, skip_zeros, search_block, search_blocks,
  skip_trailing_data, bad_member, scan_loop, buffer_size, block_size,
}
use lzip_os.Index.Members.{
  max_file, AreLaid, if-either, member_vector-seek_read, member_vector-read_header,
  retval_-read_header, push_member-AreLaid, skip_zeros_le,
}

-- An index without members whose `retval_` says so.
abbrev pub Failed : LzipIndex → Type 0
Failed x = (x.member_vector ≡ []) × (0 < x.retval_)

-- What the search for the last member leaves, when there was none before: no member, or one that ends at
-- most at `limit`.
abbrev Searched : ℕ → Search × LzipIndex → Type 0
Searched limit (Search.nothing_here, x) = x.member_vector ≡ []
Searched limit (Search.ends true pos, x) = AreLaid limit pos x.member_vector × (pos ≤ limit)
Searched limit (Search.ends false pos, x) = Failed x

pub member_vector-check_header :
    (h : LzipHeader) (x : LzipIndex) → (check_header h x).1.member_vector ≡ x.member_vector
unfolding check_header
member_vector-check_header h x = ground arith

pub no_members : (ms : List IndexMember) → is_empty ms ≡ true → ms ≡ []
no_members [] e = refl
no_members (m ∷ ms) e = cc

module _ (limit : ℕ) (low : limit ≤ max_file) where
  accept_member-Searched :
      (opts : ClOptions) (pos : ℕ) (t : LzipTrailer) (header header2 : LzipHeader)
      (left old_pos : ℕ) (x : LzipIndex)
      → pos ≤ limit
      → member_size t ≤ pos
      → check_consistency t ≡ true
      → x.member_vector ≡ []
      → Searched limit (accept_member opts (pos - member_size t) t header header2 left old_pos x)
  unfolding accept_member
  accept_member-Searched opts pos t header header2 left old_pos x high size good none =
      if-either (Searched limit) (check_prefix header2 left)
        (λ a.
          if-either Failed (not (leb header_size left)) (λ b. (none, omega arith))
            (λ b.
              if-either Failed (check_header header2 x).0
                (λ c. (member_vector-check_header header2 x ∙ none, omega arith))
                (λ c. (member_vector-check_header header2 x ∙ none, omega arith))))
        (λ a.
          if-either (Searched limit)
            (not opts.loose_trailing && (leb header_size left && check_corrupt header2))
            (λ b. (none, omega arith))
            (λ b.
              if-either (Searched limit) (not opts.ignore_trailing) (λ c. (none, omega arith))
                (λ c. (
                  push_member-AreLaid limit pos t header x low high size good
                      (subst (AreLaid limit pos) (sym none) tt),
                  omega (arith, high),
                ))))

  search_block-Searched :
      (rounds : ℕ) (opts : ClOptions) (max_msb ipos bsize i : ℕ) (buffer : List ℕ) (pos : ℕ)
      (x : LzipIndex)
      → ipos + i ≤ limit
      → x.member_vector ≡ []
      → Searched limit (search_block rounds opts max_msb ipos bsize i buffer pos x)
  unfolding search_block
  search_block-Searched zero opts max_msb ipos bsize i buffer pos x high none = none
  search_block-Searched (suc rounds) opts max_msb ipos bsize i buffer pos x high none =
      let trailer = take trailer_size (drop (i - trailer_size) buffer) in
      let size = member_size trailer in
      let r = read_header (ipos + i - size) x in
      let read : r.1.member_vector ≡ [] = member_vector-read_header (ipos + i - size) x ∙ none in
      let down = search_block-Searched rounds opts max_msb ipos bsize (i - 1) buffer pos in
      if-either (Searched limit) (ltb i trailer_size) (λ e. none)
        (λ e.
          if-either (Searched limit) (ltb max_msb (get_or buffer (i - 1) 0))
            (λ a. down x (omega (arith, high)) none)
            (λ a.
              if-either (Searched limit) (size == 0)
                (λ b.
                  search_block-Searched rounds opts max_msb ipos bsize (skip_zeros i buffer - 1)
                    buffer pos x (omega (arith, high, skip_zeros_le i buffer)) none)
                (λ b.
                  if-either (Searched limit)
                    (ltb (ipos + i) size || not (check_consistency trailer))
                    (λ c. down x (omega (arith, high)) none)
                    (λ c.
                      if-either (Searched limit) (not r.0.0)
                        (λ f. (read, retval_-read_header (ipos + i - size) x (ground (arith, f))))
                        (λ f.
                          if-either (Searched limit) (not (check r.0.1))
                            (λ g. down r.1 (omega (arith, high)) read)
                            (λ g.
                              accept_member-Searched opts (ipos + i) trailer r.0.1 (drop i buffer)
                                (bsize - i) pos r.1 high (ground (arith, c)) (ground (arith, c))
                                read))))))

  -- The same for the answer and the position.
  abbrev Skipped : (Bool × ℕ) × LzipIndex → Type 0
  Skipped ((true, pos), x) = AreLaid limit pos x.member_vector × (pos ≤ limit)
  Skipped ((false, pos), x) = Failed x

  -- What a round of search_blocks makes of the search in its block.
  abbrev after_block : ℕ → ℕ → (Bool × ℕ) × LzipIndex → Search × LzipIndex → (Bool × ℕ) × LzipIndex
  after_block ipos pos below s = elim s.0 [
    | Search.ends good pos' ↦ ((good, pos'), s.1)
    | Search.nothing_here ↦
        if ipos == 0
        then ((false, pos), set_num_error "Bad trailer at pos " (sub64 pos trailer_size) s.1)
        else below
  ]

  after_block-Skipped :
      (ipos pos : ℕ) (below : (Bool × ℕ) × LzipIndex) (s : Search × LzipIndex)
      → Searched limit s
      → (ipos ≢ 0 → s.0 ≡ Search.nothing_here → Skipped below)
      → Skipped (after_block ipos pos below s)
  unfolding set_num_error
  after_block-Skipped ipos pos below (Search.nothing_here, x) found go =
      if-either Skipped (ipos == 0) (λ e. (found, omega arith)) (λ e. go (ground (arith, e)) refl)
  after_block-Skipped ipos pos below (Search.ends true p, x) found go = found
  after_block-Skipped ipos pos below (Search.ends false p, x) found go = found

  nothing_found :
      (s : Search × LzipIndex)
      → Searched limit s
      → s.0 ≡ Search.nothing_here
      → s.1.member_vector ≡ []
  nothing_found (Search.nothing_here, x) found e = found
  nothing_found (Search.ends b p, x) found e = cc

  search_blocks-Skipped :
      (rounds : ℕ) (opts : ClOptions) (ipos bsize search_size rd_size : ℕ) (buffer : List ℕ)
      (pos : ℕ) (x : LzipIndex)
      → ipos + search_size ≤ limit
      → ipos + 19 ≤ limit
      → ipos % 16384 ≡ 0
      → ipos < rounds * 16384
      → x.member_vector ≡ []
      → Skipped (search_blocks rounds opts ipos bsize search_size rd_size buffer pos x)
  unfolding search_blocks set_errno_error
  search_blocks-Skipped zero opts ipos bsize search_size rd_size buffer pos x high room whole fuel
        none =
      absurd (omega (arith, fuel))
  search_blocks-Skipped (suc rounds) opts ipos bsize search_size rd_size buffer pos x high room
        whole fuel none =
      let r = seek_read rd_size ipos x in
      let read = r.0 ++ drop (length r.0) buffer in
      let max_msb = u8 (u64 (ipos + search_size) >>> 56) in
      let s = search_block search_size opts max_msb ipos bsize search_size read pos r.1 in
      let kept = member_vector-seek_read rd_size ipos x ∙ none in
      let found =
        search_block-Searched search_size opts max_msb ipos bsize search_size read pos r.1 high
          kept in
      let moved = take block_size read ++ take (buffer_size - block_size) read in
      if-either Skipped (not (length r.0 == rd_size))
        {x = ((false, pos), set_errno_error "Error seeking member trailer: " r.1)}
        (λ e. (kept, omega arith))
        (λ e.
          after_block-Skipped ipos pos
            (search_blocks rounds opts (sub64 ipos block_size) buffer_size
              (buffer_size - header_size) block_size moved pos s.1)
            s found
            (λ a b.
              let below : sub64 ipos block_size ≡ ipos - 16384 =
                omega (arith, room, low, whole, a) in
              search_blocks-Skipped rounds opts (sub64 ipos block_size) buffer_size
                (buffer_size - header_size) block_size moved pos s.1
                (omega (arith, room, below, whole, a)) (omega (arith, room, below))
                (omega (arith, below, whole, a)) (omega (arith, below, fuel, a, whole))
                (nothing_found s found b)))

  skip_trailing_data-Skipped :
      (opts : ClOptions) (pos : ℕ) (x : LzipIndex)
      → pos ≤ limit
      → 36 ≤ pos
      → x.member_vector ≡ []
      → Skipped (skip_trailing_data opts pos x)
  unfolding skip_trailing_data
  skip_trailing_data-Skipped opts pos x high least none =
      let part = pos % block_size in
      let bsize = if leb part (buffer_size - block_size) then part + block_size else part in
      if-either Skipped (ltb pos 36) (λ e. absurd (ground (arith, e, least)))
        (λ e.
          let some_bytes : (26 ≤ bsize) × (bsize ≤ pos) × ((pos - bsize) % 16384 ≡ 0) =
            ground (arith, least) in
          let start : sub64 pos bsize ≡ pos - bsize = omega (arith, some_bytes, high, low) in
          search_blocks-Skipped (pos / block_size + 1) opts (sub64 pos bsize) bsize bsize bsize
            (replicate buffer_size 0) pos x (omega (arith, start, some_bytes, high))
            (omega (arith, start, some_bytes, high)) (omega (arith, start, some_bytes))
            (omega (arith, start, some_bytes)) none)

  -- What the loop of the constructor leaves.
  abbrev pub Scanned : ScanEnd × LzipIndex → Type 0
  Scanned (ScanEnd.stops pos, x) = AreLaid limit pos x.member_vector
  Scanned (ScanEnd.leaves, x) = Failed x

  bad_member-Scanned :
      (again : ℕ → LzipIndex → ScanEnd × LzipIndex) (opts : ClOptions) (pos : ℕ) (message : String)
      (num : ℕ) (x : LzipIndex)
      → ((p : ℕ) (y : LzipIndex)
          → p ≤ limit
          → AreLaid limit p y.member_vector
          → Scanned (again p y))
      → pos ≤ limit
      → 36 ≤ pos
      → AreLaid limit pos x.member_vector
      → Scanned (bad_member again opts pos message num x)
  unfolding bad_member set_num_error
  bad_member-Scanned again opts pos message num x go high least laid =
      if-either Scanned (is_empty x.member_vector)
        {x = if (skip_trailing_data opts pos x).0.0
          then again (skip_trailing_data opts pos x).0.1 (skip_trailing_data opts pos x).1
          else (ScanEnd.leaves, (skip_trailing_data opts pos x).1)}
        {y = (ScanEnd.stops pos, set_num_error message num x)}
        (λ e.
          by_answer (skip_trailing_data opts pos x)
            (skip_trailing_data-Skipped opts pos x high least (no_members x.member_vector e)))
        (λ e. laid)
    where
      by_answer :
          (s : (Bool × ℕ) × LzipIndex)
          → Skipped s
          → Scanned (if s.0.0 then again s.0.1 s.1 else (ScanEnd.leaves, s.1))
      by_answer ((true, p), y) k = go p y k.1 k.0
      by_answer ((false, p), y) k = k

  pub scan_loop-Scanned :
      (rounds : ℕ) (opts : ClOptions) (pos : ℕ) (x : LzipIndex)
      → pos ≤ limit
      → AreLaid limit pos x.member_vector
      → Scanned (scan_loop rounds opts pos x)
  unfolding scan_loop set_errno_error
  scan_loop-Scanned zero opts pos x high laid = laid
  scan_loop-Scanned (suc rounds) opts pos x high laid =
      let r = seek_read trailer_size (pos - trailer_size) x in
      let size = member_size r.0 in
      let h = read_header (pos - size) r.1 in
      let read =
        subst (AreLaid limit pos)
          (sym (member_vector-seek_read trailer_size (pos - trailer_size) x)) laid in
      let again =
        subst (AreLaid limit pos) (sym (member_vector-read_header (pos - size) r.1)) read in
      let down = λ (p : ℕ) (y : LzipIndex) (a : p ≤ limit) (b : AreLaid limit p y.member_vector).
        scan_loop-Scanned rounds opts p y a b in
      if-either Scanned (ltb pos 36) {x = (ScanEnd.stops pos, x)} (λ e. laid)
        (λ e.
          if-either Scanned (not (length r.0 == trailer_size))
            {x = (ScanEnd.stops pos, set_errno_error "Error reading member trailer: " r.1)}
            (λ a. read)
            (λ a.
              if-either Scanned (ltb pos size || not (check_consistency r.0))
                (λ b.
                  bad_member-Scanned (scan_loop rounds opts) opts pos "Bad trailer at pos "
                    (pos - trailer_size) r.1 down high (ground (arith, e)) read)
                (λ b.
                  if-either Scanned (not h.0.0) {x = (ScanEnd.stops pos, h.1)} (λ c. again)
                    (λ c.
                      if-either Scanned (not (check h.0.1))
                        (λ f.
                          bad_member-Scanned (scan_loop rounds opts) opts pos "Bad header at pos "
                            (pos - size) h.1 down high (ground (arith, e)) again)
                        (λ f.
                          scan_loop-Scanned rounds opts (pos - size)
                            (push_member (pos - size) r.0 h.0.1 h.1) (omega (arith, high))
                            (push_member-AreLaid limit pos r.0 h.0.1 h.1 low high
                              (ground (arith, b)) (ground (arith, b)) again))))))
