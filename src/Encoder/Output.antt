-- ===== src/Encoder/Output.antt =====
-- The output side of `class Range_encoder` (encoder_base.h): the buffer that `flush_data`
-- (encoder_base.cc) writes to the file, and the member position.
pub mod Sent
use lzip_os.Base.{ℕ, zero, suc, ◌+◌, ltb, leb, ◌==◌, if◌then◌else◌, Bool, true, false}
use lzip_os.Base.{
  List, [], ◌∷◌, set, take, replicate, u8, u64, Result, ok, err, M, ◌>>=◌, ◌>>◌, pure,
}
use lzip_os.Io.{OutFile, writeblock}

abbrev pub buffer_size : ℕ
buffer_size = 65536

-- `connected` is the test `outfd >= 0`.
pub record Output : Type 0 where
  pub partial_member_pos : ℕ
  pub buffer : List ℕ
  pub pos : ℕ
  pub connected : Bool
  pub outfd : OutFile

-- The state after the bytes of the buffer went out.
abbrev pub emptied : Output → Output
emptied o = record o { partial_member_pos = u64 (o.partial_member_pos + o.pos); pos = 0 }

-- The display of the progress is left out.
unfoldable pub flush_data : M Output (Unit {0})
flush_data o =
    let r = writeblock (take o.pos o.buffer) o.outfd in
    if ltb 0 o.pos
    then (if o.connected
        then (if r.count == o.pos
            then ok (tt, record (emptied o) { outfd = r.file })
            else err "Write error")
        else ok (tt, emptied o))
    else ok (tt, o)

-- The byte stored at `pos`, and `pos` one further.
abbrev pub store : ℕ → Output → Output
store b o = record o { buffer = set o.buffer o.pos (u8 b); pos = o.pos + 1 }

unfoldable pub put_byte : ℕ → M Output (Unit {0})
unfolding flush_data
put_byte b o = if leb buffer_size (o.pos + 1) then flush_data (store b o) else ok (tt, store b o)

-- `for( ; n > 0; --n ) put_byte( b );`
unfoldable pub put_run : ℕ → ℕ → M Output (Unit {0})
unfolding put_byte
put_run zero b = pure tt
put_run (suc n) b = put_byte b >> put_run n b

-- The bytes of an array in order.
unfoldable pub put_bytes : List ℕ → M Output (Unit {0})
unfolding put_byte
put_bytes [] = pure tt
put_bytes (b ∷ bs) = put_byte b >> put_bytes bs
