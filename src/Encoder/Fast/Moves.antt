-- ===== src/Encoder/Fast/Moves.antt =====
-- FLZ_encoder::update_and_move: the match finder over all the bytes of a match.
use lzip_os.Base.{
  ℕ, zero, suc, ◌+◌, ◌-◌, ◌≤◌, ◌≡◌, refl, sym, ap, ◌∙◌, subst, arith, Bool, true, false, leb,
  if◌then◌else◌, length-set, get_or, set, bit_and, u64,
}
use lzip_os.Base.{Result, ok, err, M, >>=-ok}
use lzip_os.Encoder.Packets.{LzEncoderBase}
use lzip_os.Encoder.Finder.{Finder, available_bytes, move_pos}
use lzip_os.Encoder.Finder.Ready.{IsWindow, IsPlaced, move_pos-Moved}
use lzip_os.Encoder.Fast.{
  FlzEncoder, on_finder, in_pos_array, position, shift_key, update_key, update_and_move,
}
use lzip_os.Encoder.Fast.Found.{get_or-set_le}

-- After so many moves: the window and the positions are good, the packets' part is as it was, the position
-- in the data is `total`, and at least `left` bytes follow.
pub record MovedOn (base : LzEncoderBase) (total left : ℕ) (r : Result (Unit {0} × FlzEncoder))
    : Type 0 where
  pub after : FlzEncoder
  pub returns : r ≡ ok (tt, after)
  pub window : IsWindow after.finder
  pub placed : IsPlaced after.finder.pos after.finder
  pub same_base : after.base ≡ base
  pub at_total : u64 (after.finder.partial_data_pos + after.finder.pos) ≡ u64 total
  pub enough : left ≤ after.finder.stream_pos - after.finder.pos

-- update_key changes only the positions, and none is then beyond the next byte.
record KeyUpdated (f f' : FlzEncoder) : Type 0 where
  window : IsWindow f'.finder
  placed : IsPlaced (f.finder.pos + 1) f'.finder
  same_pos : f'.finder.pos ≡ f.finder.pos
  same_partial : f'.finder.partial_data_pos ≡ f.finder.partial_data_pos
  same_stream : f'.finder.stream_pos ≡ f.finder.stream_pos
  same_base : f'.base ≡ f.base

update_key-KeyUpdated :
    (f : FlzEncoder)
    → IsWindow f.finder
    → IsPlaced f.finder.pos f.finder
    → KeyUpdated f (update_key f)
unfolding update_key
update_key-KeyUpdated f h p = either (leb 4 (available_bytes f.finder))
  where
    key : ℕ
    key =
        bit_and (shift_key f.key4 (get_or f.finder.buffer (f.finder.pos + 3) 0)) f.finder.key4_mask

    place : ℕ
    place = in_pos_array f.finder f.finder.cyclic_pos

    stored : FlzEncoder
    stored = record f {
      key4 = key;
      finder = record f.finder {
        positions =
            set (set f.finder.positions place (position f.finder key)) key (f.finder.pos + 1);
      };
    }

    either : (b : Bool) → KeyUpdated f (if b then stored else f)
    either true = record {
      window = record {
        in_stream = h.in_stream;
        in_buffer = h.in_buffer;
        whole_buffer = h.whole_buffer;
        room = h.room;
        no_failure = h.no_failure;
      };
      placed = record {
        cyclic = p.cyclic;
        whole_arrays =
            length-set (set f.finder.positions place (position f.finder key)) key (f.finder.pos + 1)
            ∙ length-set f.finder.positions place (position f.finder key)
            ∙ p.whole_arrays;
        mask = p.mask;
        behind = λ j.
            get_or-set_le (set f.finder.positions place (position f.finder key)) key j
              (f.finder.pos + 1) (f.finder.pos + 1) (omega arith)
              (get_or-set_le f.finder.positions place j (position f.finder key) (f.finder.pos + 1)
                (omega (arith, p.behind key)) (omega (arith, p.behind j)));
      };
      same_pos = refl;
      same_partial = refl;
      same_stream = refl;
      same_base = refl;
    }
    either false = record {
      window = h;
      placed = record {
        cyclic = p.cyclic;
        whole_arrays = p.whole_arrays;
        mask = p.mask;
        behind = λ j. omega (arith, p.behind j);
      };
      same_pos = refl;
      same_partial = refl;
      same_stream = refl;
      same_base = refl;
    }

on_finder-ok :
    (m : M Finder (Unit {0})) (f : FlzEncoder) {g : Finder}
    → m f.finder ≡ ok (tt, g)
    → on_finder m f ≡ ok (tt, record f { finder = g })
on_finder-ok m f h =
    ap
      (λ (q : Result (Unit {0} × Finder)). elim q as (λ _. Result (Unit {0} × FlzEncoder)) [
        | ok (a, g) ↦ ok (a, record f { finder = g })
        | err x ↦ err x
      ])
      h

-- The sum of two numbers where one of them is only known by its remainder.
u64-add : (a b c : ℕ) → u64 a ≡ u64 b → u64 (a + c) ≡ u64 (b + c)
u64-add a b c h = omega (arith, h)

-- For a good window, positions that lie before the current one, so many bytes of the input and no failing
-- read, update_and_move returns, also where it moves the window and reads on; the window is good again, no
-- position is beyond the new current one, the models and the CRC are as they were, and the position in the
-- data has gone up by the number of bytes.
pub update_and_move-MovedOn :
    (n : ℕ) (f : FlzEncoder)
    → IsWindow f.finder
    → IsPlaced f.finder.pos f.finder
    → n ≤ f.finder.stream_pos - f.finder.pos
    → MovedOn f.base
        (f.finder.partial_data_pos + f.finder.pos + n)
        (f.finder.stream_pos - f.finder.pos - n)
        (update_and_move n f)
unfolding update_and_move
update_and_move-MovedOn zero f h p room = record {
  after = f;
  returns = refl;
  window = h;
  placed = p;
  same_base = refl;
  at_total = ap u64 (omega arith);
  enough = omega arith;
}
update_and_move-MovedOn (suc n) f h p room =
    let k = update_key-KeyUpdated f h p in
    let f1 = update_key f in
    let m =
      move_pos-Moved f1.finder k.window
        (subst (λ x. IsPlaced (x + 1) f1.finder) (sym k.same_pos) k.placed)
        (omega (arith, room, k.same_pos, k.same_stream)) in
    let f2 : FlzEncoder = record f1 { finder = m.after } in
    let r =
      update_and_move-MovedOn n f2 m.window m.placed
        (omega (arith, room, m.enough, k.same_pos, k.same_stream)) in
    let sum : f1.finder.partial_data_pos + (f1.finder.pos + 1) + n
        ≡ f.finder.partial_data_pos + f.finder.pos + suc n =
      omega (arith, k.same_pos, k.same_partial) in
    record {
      after = r.after;
      returns =
          >>=-ok (on_finder move_pos) (λ _. update_and_move n) f1
            (on_finder-ok move_pos f1 m.returns)
          ∙ r.returns;
      window = r.window;
      placed = r.placed;
      same_base = r.same_base ∙ k.same_base;
      at_total =
          r.at_total
          ∙ u64-add (m.after.partial_data_pos + m.after.pos)
              (f1.finder.partial_data_pos + (f1.finder.pos + 1)) n m.at_total
          ∙ ap u64 sum;
      enough = omega (arith, r.enough, m.enough, k.same_pos, k.same_stream);
    }
