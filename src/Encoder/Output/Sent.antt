-- ===== src/Encoder/Output/Sent.antt =====
-- The output as the list of the bytes that were put.
use lzip_os.Base.{ℕ, zero, suc, ◌+◌, ◌≤◌, ◌<◌, ◌≡◌, refl, sym, ap, ◌∙◌, arith, Bool-cases, inl, inr}
use lzip_os.Base.{true, leb, ◌==◌, if_true, if_false, List, [], ◌∷◌, ◌++◌, length}
use lzip_os.Base.{
  take, set, length-set, length-take, take-set, replicate, u8, ok, err, Result, >>=-ok, leb-false,
}
use lzip_os.Base.{==_iff, lt→ltb}
use mathlib.Core.List.{append_assoc, append-nil}
use lzip_os.Io.{writeblock}
use lzip_os.Io.Blocks.{NoWriteFailure, writeblock_whole}
use lzip_os.Encoder.Output.{
  Output, buffer_size, emptied, flush_data, store, put_byte, put_run, put_bytes,
}

-- What went to the file, and what waits in the buffer.
abbrev pub sent : Output → List ℕ
sent o = o.outfd.written ++ take o.pos o.buffer

pub record IsReady (o : Output) : Type 0 where
  pub has_room : o.pos < buffer_size
  pub whole_buffer : length o.buffer ≡ buffer_size
  pub is_connected : o.connected ≡ true
  pub no_failure : NoWriteFailure o.outfd.answers

-- A call went well: `bytes` were put, and the output is ready again.
pub record HasPut (o : Output) (bytes : List ℕ) (r : Result (Unit {0} × Output)) : Type 0 where
  pub after : Output
  pub returns : r ≡ ok (tt, after)
  pub ready : IsReady after
  pub now_sent : sent after ≡ sent o ++ bytes

-- `flush_data` writes all that waits.
pub flush_data-HasPut :
    (o : Output)
    → 0 < o.pos
    → o.pos ≤ buffer_size
    → length o.buffer ≡ buffer_size
    → o.connected ≡ true
    → NoWriteFailure o.outfd.answers
    → HasPut o [] (flush_data o)
unfolding flush_data
flush_data-HasPut o some_bytes fits whole conn fine = record {
  after = record (emptied o) { outfd = (writeblock (take o.pos o.buffer) o.outfd).file };
  returns =
      if_true _ (ok (tt, o)) (lt→ltb _ _ some_bytes)
      ∙ if_true _ (ok (tt, emptied o)) conn
      ∙ if_true _ (err "Write error") counted;
  ready = record {
    has_room = omega arith;
    whole_buffer = whole;
    is_connected = conn;
    no_failure = all.2;
  };
  now_sent = append-nil _ ∙ all.1 ∙ sym (append-nil _);
}
  where
    all :
        ((writeblock (take o.pos o.buffer) o.outfd).count ≡ length (take o.pos o.buffer))
        × ((writeblock (take o.pos o.buffer) o.outfd).file.written
            ≡ o.outfd.written ++ take o.pos o.buffer)
        × NoWriteFailure (writeblock (take o.pos o.buffer) o.outfd).file.answers
    all = writeblock_whole (take o.pos o.buffer) o.outfd fine

    counted : ((writeblock (take o.pos o.buffer) o.outfd).count == o.pos) ≡ true
    counted = (==_iff _ o.pos).1 (omega (arith, all.0, length-take o.pos o.buffer))

-- On an output that is ready, `put_byte` succeeds and leaves it ready, and what was sent, to the file
-- and to the buffer, is one byte longer: the byte given, also when the buffer is then full and is
-- written to the file.
pub put_byte-HasPut : (b : ℕ) (o : Output) → IsReady o → HasPut o (u8 b ∷ []) (put_byte b o)
unfolding put_byte
put_byte-HasPut b o v = elim (Bool-cases (leb buffer_size (o.pos + 1))) [
  | inl full ↦
      let f =
        flush_data-HasPut (store b o) (omega arith) (omega (arith, v.has_room))
          (length-set o.buffer o.pos (u8 b) ∙ v.whole_buffer) v.is_connected v.no_failure in
      record {
        after = f.after;
        returns = if_true _ (ok (tt, store b o)) full ∙ f.returns;
        ready = f.ready;
        now_sent = f.now_sent ∙ append-nil _ ∙ stored;
      }
  | inr room ↦ record {
    after = store b o;
    returns = if_false (flush_data (store b o)) _ room;
    ready = record {
      has_room = leb-false _ _ room;
      whole_buffer = length-set o.buffer o.pos (u8 b) ∙ v.whole_buffer;
      is_connected = v.is_connected;
      no_failure = v.no_failure;
    };
    now_sent = stored;
  }
]
  where
    next : o.pos + 1 ≡ suc o.pos
    next = omega arith

    stored : sent (store b o) ≡ sent o ++ (u8 b ∷ [])
    stored =
        ap (λ n. o.outfd.written ++ take n (set o.buffer o.pos (u8 b))) next
        ∙ ap (λ s. o.outfd.written ++ s)
            (take-set o.buffer o.pos (u8 b) (omega (arith, v.has_room, v.whole_buffer)))
        ∙ sym (append_assoc o.outfd.written (take o.pos o.buffer) (u8 b ∷ []))

-- The bytes of two calls in a row.
HasPut-then :
    {o : Output} {xs ys : List ℕ} {r : Result (Unit {0} × Output)} (f : HasPut o xs r)
    {q : Result (Unit {0} × Output)}
    → HasPut f.after ys q
    → HasPut o (xs ++ ys) q
HasPut-then {o} {xs} {ys} f g = record {
  after = g.after;
  returns = g.returns;
  ready = g.ready;
  now_sent = g.now_sent ∙ ap (λ s. s ++ ys) f.now_sent ∙ append_assoc (sent o) xs ys;
}

HasPut-from :
    {o : Output} {xs : List ℕ} {r q : Result (Unit {0} × Output)}
    → q ≡ r
    → HasPut o xs r
    → HasPut o xs q
HasPut-from e f = record {
  after = f.after;
  returns = e ∙ f.returns;
  ready = f.ready;
  now_sent = f.now_sent;
}

pub put_run-HasPut :
    (n b : ℕ) (o : Output) → IsReady o → HasPut o (replicate n (u8 b)) (put_run n b o)
unfolding put_run
put_run-HasPut zero b o v = record {
  after = o;
  returns = refl;
  ready = v;
  now_sent = sym (append-nil (sent o));
}
put_run-HasPut (suc n) b o v =
    let f = put_byte-HasPut b o v in
    let g = put_run-HasPut n b f.after f.ready in
    HasPut-from (>>=-ok (put_byte b) (λ _. put_run n b) o f.returns) (HasPut-then f g)

-- The bytes of an array as they go out.
abbrev pub out_bytes : List ℕ → List ℕ
out_bytes [] = []
out_bytes (b ∷ bs) = u8 b ∷ out_bytes bs

pub put_bytes-HasPut :
    (bs : List ℕ) (o : Output) → IsReady o → HasPut o (out_bytes bs) (put_bytes bs o)
unfolding put_bytes
put_bytes-HasPut [] o v = record {
  after = o;
  returns = refl;
  ready = v;
  now_sent = sym (append-nil (sent o));
}
put_bytes-HasPut (b ∷ bs) o v =
    let f = put_byte-HasPut b o v in
    let g = put_bytes-HasPut bs f.after f.ready in
    HasPut-from (>>=-ok (put_byte b) (λ _. put_bytes bs) o f.returns) (HasPut-then f g)
