-- ===== src/Encoder/Finder/Ready.antt =====
-- The window of Matchfinder_base and its positions stay good when the current position moves on.
use lzip_os.Base.{
  ℕ, zero, suc, ◌+◌, ◌-◌, ◌≤◌, ◌<◌, ◌≡◌, refl, sym, ap, ◌∙◌, subst, arith, Bool, true, false, ltb,
  leb, ◌==◌, ◌&&◌, not, if◌then◌else◌, if_false, inl, inr, ◌⊎◌, ap₂, leb→le, List, [], ◌∷◌, ◌++◌,
  length, length-take, length-drop, length-append, take, drop, get_or, u64,
}
use lzip_os.Base.{Result, ok, err, ◌>>=◌, >>=-ok, pure}
use lzip_os.Io.{readblock}
use lzip_os.Io.Blocks.{NoFailure, HasRead, readblock-HasRead, NoFailure-readblock_loop}
use lzip_os.Encoder.Finder.Bytes.{get_or-take_append, get_or-drop}
use lzip_os.Encoder.Finder.{
  Finder, fill_buffer, read_block, shift_positions, slide, normalize_pos, move_pos,
}

-- The positions in the buffer, which is large enough, and no answer of read is an error.
pub record IsWindow (g : Finder) : Type 0 where
  pub in_stream : g.pos ≤ g.stream_pos
  pub in_buffer : g.stream_pos ≤ g.buffer_size
  pub whole_buffer : length g.buffer ≡ g.buffer_size
  pub room : g.at_stream_end ≡ false → g.before_size + g.dictionary_size ≤ g.pos_limit
  pub no_failure : NoFailure g.infd.answers

-- The entries of the two arrays are positions up to `last`, or zero.
pub record IsPlaced (last : ℕ) (g : Finder) : Type 0 where
  pub cyclic : g.cyclic_pos ≤ g.dictionary_size
  pub whole_arrays : length g.positions ≡ g.num_prev_positions + g.pos_array_size
  pub mask : g.key4_mask < g.num_prev_positions
  pub behind : (j : ℕ) → get_or g.positions j 0 ≤ last

-- What read_block leaves.
record ReadOn (g : Finder) (r : Result (Bool × Finder)) : Type 0 where
  more : Bool
  after : Finder
  returns : r ≡ ok (more, after)
  window : IsWindow after
  same_pos : after.pos ≡ g.pos
  same_partial : after.partial_data_pos ≡ g.partial_data_pos
  grown : g.stream_pos ≤ after.stream_pos
  same_bytes : (j : ℕ) → j < g.stream_pos → get_or after.buffer j 0 ≡ get_or g.buffer j 0
  placed : (last : ℕ) → IsPlaced last g → IsPlaced last after

module _ (g : Finder) (h : IsWindow g) where
  size : ℕ
  size = g.buffer_size - g.stream_pos

  rd : ℕ
  rd = length (readblock size g.infd).bytes

  has_read : HasRead size g.infd.rest (readblock size g.infd)
  has_read = readblock-HasRead size g.infd

  fine : ((readblock size g.infd).error ≡ false) × NoFailure (readblock size g.infd).file.answers
  unfolding readblock
  fine = NoFailure-readblock_loop g.infd.answers size g.infd.rest h.no_failure

  abbrev filled : Finder
  filled = record g {
    buffer =
        take g.stream_pos g.buffer
        ++ ((readblock size g.infd).bytes ++ drop (g.stream_pos + rd) g.buffer);
    stream_pos = g.stream_pos + rd;
    infd = (readblock size g.infd).file;
    at_stream_end = ltb rd size;
    pos_limit = if ltb rd size then g.buffer_size else g.pos_limit;
  }

  fill_buffer-ok : fill_buffer g ≡ ok filled
  unfolding fill_buffer size rd
  fill_buffer-ok =
      if_false {b = not (rd == size) && (readblock size g.infd).error} _ _ (ground (arith, fine.0))

  filled-IsWindow : g.at_stream_end ≡ false → IsWindow filled
  unfolding size rd
  filled-IsWindow e = record {
    in_stream = omega (arith, h.in_stream);
    in_buffer = omega (arith, has_read.bounded, h.in_buffer);
    whole_buffer = omega (
      arith,
      length-append (take g.stream_pos g.buffer)
          ((readblock size g.infd).bytes ++ drop (g.stream_pos + rd) g.buffer),
      length-append (readblock size g.infd).bytes (drop (g.stream_pos + rd) g.buffer),
      length-take g.stream_pos g.buffer,
      length-drop (g.stream_pos + rd) g.buffer,
      has_read.bounded,
      h.in_buffer,
      h.whole_buffer,
    );
    room = λ q.
        subst (λ x. g.before_size + g.dictionary_size ≤ x) (sym (if_false {b = ltb rd size} _ _ q))
          (h.room e);
    no_failure = fine.1;
  }

  read_block-either :
      (b : Bool)
      → (not g.at_stream_end && ltb g.stream_pos g.buffer_size) ≡ b
      → ReadOn g (
          if b
          then (elim (fill_buffer g) as (λ _. Result (Bool × Finder)) [
            | ok f' ↦ ok (ltb f'.pos f'.stream_pos, f')
            | err e ↦ err e
          ])
          else ok (ltb g.pos g.stream_pos, g))
  read_block-either true e = record {
    more = _;
    after = filled;
    returns =
        ap
          (λ (x : Result Finder). elim x as (λ _. Result (Bool × Finder)) [
            | ok f' ↦ ok (ltb f'.pos f'.stream_pos, f')
            | err e ↦ err e
          ])
          fill_buffer-ok;
    window = filled-IsWindow (ground (arith, e));
    same_pos = refl;
    same_partial = refl;
    grown = omega arith;
    same_bytes = λ j k.
        get_or-take_append g.stream_pos g.buffer _ j k (omega (arith, h.in_buffer, h.whole_buffer));
    placed = λ last p. record {
      cyclic = p.cyclic;
      whole_arrays = p.whole_arrays;
      mask = p.mask;
      behind = p.behind;
    };
  }
  read_block-either false e = record {
    more = _;
    after = g;
    returns = refl;
    window = h;
    same_pos = refl;
    same_partial = refl;
    grown = omega arith;
    same_bytes = λ j k. refl;
    placed = λ last p. p;
  }

  read_block-ReadOn : ReadOn g (read_block g)
  unfolding read_block
  read_block-ReadOn = read_block-either (not g.at_stream_end && ltb g.stream_pos g.buffer_size) refl

-- The loops of normalize_pos.
length-shift_positions :
    (n offset : ℕ) (ps : List ℕ) → length (shift_positions n offset ps) ≡ length ps
unfolding shift_positions
length-shift_positions zero offset ps = refl
length-shift_positions (suc n) offset [] = refl
length-shift_positions (suc n) offset (p ∷ ps) = omega (arith, length-shift_positions n offset ps)

shift_positions_le :
    (n offset last : ℕ) (ps : List ℕ) (j : ℕ)
    → length ps ≤ n
    → get_or ps j 0 ≤ last
    → get_or (shift_positions n offset ps) j 0 ≤ last - offset
unfolding shift_positions
shift_positions_le zero offset last [] j few h = omega arith
shift_positions_le zero offset last (p ∷ ps) j few h = absurd (omega (arith, few))
shift_positions_le (suc n) offset last [] j few h = omega arith
shift_positions_le (suc n) offset last (p ∷ ps) zero few h = omega (arith, h)
shift_positions_le (suc n) offset last (p ∷ ps) (suc j) few h =
    shift_positions_le n offset last ps j (omega (arith, few)) h

slide-IsWindow : (g : Finder) → IsWindow g → IsWindow (slide g)
unfolding slide
slide-IsWindow g h =
    let offset = g.pos - g.before_size - g.dictionary_size in
    let size = g.stream_pos - offset in
    record {
      in_stream = omega (arith, h.in_stream);
      in_buffer = omega (arith, h.in_buffer);
      whole_buffer = omega (
        arith,
        length-append (take size (drop offset g.buffer)) (drop size g.buffer),
        length-take size (drop offset g.buffer),
        length-drop offset g.buffer,
        length-drop size g.buffer,
        h.in_stream,
        h.in_buffer,
        h.whole_buffer,
      );
      room = h.room;
      no_failure = h.no_failure;
    }

slide-IsPlaced : (g : Finder) → IsPlaced g.pos g → IsPlaced (slide g).pos (slide g)
unfolding slide
slide-IsPlaced g p =
    let offset = g.pos - g.before_size - g.dictionary_size in
    let n = g.num_prev_positions + g.pos_array_size in
    record {
      cyclic = p.cyclic;
      whole_arrays = length-shift_positions n offset g.positions ∙ p.whole_arrays;
      mask = p.mask;
      behind = λ j.
          shift_positions_le n offset g.pos g.positions j (omega (arith, p.whole_arrays))
            (p.behind j);
    }

-- What move_pos leaves: the position is `place`, or `kept` where the window was moved, and the position in
-- the data is `total`; the bytes of `buffer` up to `stream` are at the same distance from the position.
pub record Moved (place kept total stream : ℕ) (buffer : List ℕ) (r : Result (Unit {0} × Finder))
    : Type 0 where
  pub after : Finder
  pub returns : r ≡ ok (tt, after)
  pub window : IsWindow after
  pub placed : IsPlaced after.pos after
  pub at_place : (after.pos ≡ place) ⊎ (after.pos ≡ kept)
  pub not_beyond : after.pos ≤ place
  pub at_total : u64 (after.partial_data_pos + after.pos) ≡ u64 total
  pub enough : stream - place ≤ after.stream_pos - after.pos
  pub same_bytes :
      (j : ℕ)
      → place - after.pos + j < stream
      → get_or after.buffer j 0 ≡ get_or buffer (place - after.pos + j) 0

back : (pos j : ℕ) → j ≡ pos - pos + j
back pos j = omega arith

u64-add_u64 : (a b : ℕ) → u64 (u64 a + b) ≡ u64 (a + b)
u64-add_u64 a b = omega arith

module _ (g : Finder) (h : IsWindow g) (p : IsPlaced g.pos g) (full : g.pos_limit ≤ g.pos) where
  abbrev NormalizedTo : Result (Unit {0} × Finder) → Type 0
  NormalizedTo =
      Moved g.pos (g.before_size + g.dictionary_size) (g.partial_data_pos + g.pos) g.stream_pos
        g.buffer

  slide_lem :
      g.before_size + g.dictionary_size ≤ g.pos_limit
      → ((slide g).pos ≡ g.before_size + g.dictionary_size)
        × (u64 ((slide g).partial_data_pos + (slide g).pos) ≡ u64 (g.partial_data_pos + g.pos))
        × (g.stream_pos - g.pos ≤ (slide g).stream_pos - (slide g).pos)
        × ((slide g).pos ≤ g.pos)
  unfolding slide
  slide_lem room =
      let offset = g.pos - g.before_size - g.dictionary_size in
      let sum : g.partial_data_pos + offset + (g.pos - offset) ≡ g.partial_data_pos + g.pos =
        omega arith in
      (
        omega (arith, full, room),
        u64-add_u64 (g.partial_data_pos + offset) (g.pos - offset) ∙ ap u64 sum,
        omega arith,
        omega arith,
      )

  -- The memmove.
  slide_bytes :
      (j : ℕ)
      → g.pos - (slide g).pos + j < g.stream_pos
      → get_or (slide g).buffer j 0 ≡ get_or g.buffer (g.pos - (slide g).pos + j) 0
  unfolding slide
  slide_bytes j k =
      let offset = g.pos - g.before_size - g.dictionary_size in
      let size = g.stream_pos - offset in
      let place : offset + j ≡ g.pos - (g.pos - offset) + j = omega arith in
      get_or-take_append size (drop offset g.buffer) (drop size g.buffer) j (omega (arith, k))
        (omega (arith, length-drop offset g.buffer, h.in_buffer, h.whole_buffer))
      ∙ get_or-drop offset g.buffer j
      ∙ ap (λ i. get_or g.buffer i 0) place

  slide_stream : (j : ℕ) → g.pos - (slide g).pos + j < g.stream_pos → j < (slide g).stream_pos
  unfolding slide
  slide_stream j k = omega (arith, k)

  normalized :
      (b : Bool)
      → g.at_stream_end ≡ b
      → NormalizedTo (if b then ok (tt, g) else (read_block >>= λ more. pure tt) (slide g))
  normalized true e = record {
    after = g;
    returns = refl;
    window = h;
    placed = p;
    at_place = inl refl;
    at_total = refl;
    enough = omega arith;
    not_beyond = omega arith;
    same_bytes = λ j k. ap (λ i. get_or g.buffer i 0) (back g.pos j);
  }
  normalized false e =
      let slid = slide_lem (h.room e) in
      let r = read_block-ReadOn (slide g) (slide-IsWindow g h) in
      record {
        after = r.after;
        returns = >>=-ok read_block (λ more. pure tt) (slide g) r.returns;
        window = r.window;
        placed =
            subst (λ x. IsPlaced x r.after) (sym r.same_pos)
              (r.placed (slide g).pos (slide-IsPlaced g p));
        at_place = inr (r.same_pos ∙ slid.0);
        at_total = ap₂ (λ a b. u64 (a + b)) r.same_partial r.same_pos ∙ slid.1;
        enough = omega (arith, r.grown, r.same_pos, slid.2);
        not_beyond = omega (arith, r.same_pos, slid.3);
        same_bytes =
            subst
              (λ x.
                (j : ℕ)
                → g.pos - x + j < g.stream_pos
                → get_or r.after.buffer j 0 ≡ get_or g.buffer (g.pos - x + j) 0)
              (sym r.same_pos) (λ j k. r.same_bytes j (slide_stream j k) ∙ slide_bytes j k);
      }

  normalize_pos-Moved : NormalizedTo (normalize_pos g)
  unfolding normalize_pos
  normalize_pos-Moved =
      subst NormalizedTo
        (sym (
          if_false {b = ltb g.stream_pos g.pos} (err "pos > stream_pos in normalize_pos.") _
            (ground (arith, h.in_stream))))
        (normalized g.at_stream_end refl)

-- For a good window with a byte at the current position, positions up to the next byte and no failing read,
-- move_pos returns, also where it moves the window and reads on; the window is good again, no position of
-- the two arrays is beyond the new current one, which is the next one or, in a window that was moved, has
-- just the bytes that are kept before it; the bytes of the window, from those kept up to the last one that
-- was read, are at the same distance from the position as before, at least those that followed can still be
-- taken, and the position in the data has gone up by one.
pub move_pos-Moved :
    (g : Finder)
    → IsWindow g
    → IsPlaced (g.pos + 1) g
    → g.pos < g.stream_pos
    → Moved
        (g.pos + 1)
        (g.before_size + g.dictionary_size)
        (g.partial_data_pos + (g.pos + 1))
        g.stream_pos
        g.buffer
        (move_pos g)
unfolding move_pos
move_pos-Moved g h p some_byte = by_limit (leb g.pos_limit (g.pos + 1)) refl
  where
    moved : Finder
    moved = record g {
      pos = g.pos + 1;
      cyclic_pos = if ltb g.dictionary_size (g.cyclic_pos + 1) then 0 else g.cyclic_pos + 1;
    }

    window : IsWindow moved
    window = record {
      in_stream = omega (arith, some_byte);
      in_buffer = h.in_buffer;
      whole_buffer = h.whole_buffer;
      room = h.room;
      no_failure = h.no_failure;
    }

    placed : IsPlaced (g.pos + 1) moved
    placed = record {
      cyclic = ground (arith, p.cyclic);
      whole_arrays = p.whole_arrays;
      mask = p.mask;
      behind = p.behind;
    }

    by_limit :
        (b : Bool)
        → leb g.pos_limit (g.pos + 1) ≡ b
        → Moved
            (g.pos + 1)
            (g.before_size + g.dictionary_size)
            (g.partial_data_pos + (g.pos + 1))
            g.stream_pos
            g.buffer
            (if b then normalize_pos moved else ok (tt, moved))
    by_limit true e = normalize_pos-Moved moved window placed (leb→le g.pos_limit (g.pos + 1) e)
    by_limit false e = record {
      after = moved;
      returns = refl;
      window = window;
      placed = placed;
      at_place = inl refl;
      at_total = refl;
      enough = omega arith;
      not_beyond = omega arith;
      same_bytes = λ j k. ap (λ i. get_or g.buffer i 0) (back (g.pos + 1) j);
    }
