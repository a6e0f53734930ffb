-- ===== src/Coder/Objects/Script.antt =====
-- Sequences of packets, coded one behind the other as the loops of encode_member code them, and the body
-- of the loop of decode_member run so many times.
use lzip_os.Base.{
  ℕ, zero, suc, ◌*◌, ◌≤◌, ◌<◌, ◌≡◌, refl, sym, ap, ◌∙◌, subst, arith, false, List, [], ◌∷◌, length,
}
use lzip_os.Base.{M, ok, ◌>>=◌, ◌>>◌, pure}
use lzip_os.Lzip.Model.{min_match_len, max_match_len}
use lzip_os.Lzip.State.{State, is_char_set_char, set_match, set_rep, set_shortrep}
use lzip_os.Encoder.Packets.{LzEncoderBase}
use lzip_os.Encoder.Fast.Member.{code_literal, code_match, code_rep_match, code_shortrep}
use lzip_os.Decoder.Lz.{LzDecoder, put_byte, peek_prev, peek, copy_block}
use lzip_os.Decoder.Lz.Member.{Member, Outcome, goes_on, returns, decode_packet, is_bad_distance}
use lzip_os.Coder.Objects.{Joins, base_of, then-Joins, same-Joins, pure-Joins}
use lzip_os.Coder.Objects.Bits.{AreMember}
use lzip_os.Coder.Objects.Packet.{PacketJoined, Distances, distances_of}
use lzip_os.Coder.Objects.Kind.{pos_state_of}
use lzip_os.Coder.Objects.Literal.{literal-PacketJoined}
use lzip_os.Coder.Objects.Match.{match-PacketJoined}
use lzip_os.Coder.Objects.Reps.{rep_moved}
use lzip_os.Coder.Objects.Reps.Packets.{rep-PacketJoined, shortrep-PacketJoined}
use lzip_os.Coder.Objects.Relay.{put_byte-with_rdec, copy_block-with_rdec}

-- A byte; a distance and a length; the index of a last distance and a length; the byte at the last distance.
pub data Packet : Type 0 where
  literal : ℕ → Packet
  matched : ℕ → ℕ → Packet
  repeated : ℕ → ℕ → Packet
  shortrep : Packet

abbrev pub next_state : State → Packet → State
next_state state (literal b) = (is_char_set_char state).after
next_state state (matched dis len) = set_match state
next_state state (repeated rep len) = set_rep state
next_state state shortrep = set_shortrep state

abbrev pub next_reps : Distances → Packet → Distances
next_reps reps (literal b) = reps
next_reps reps (matched dis len) = record {
  rep0 = dis;
  rep1 = reps.rep0;
  rep2 = reps.rep1;
  rep3 = reps.rep2;
}
next_reps reps (repeated rep len) = rep_moved rep reps
next_reps reps shortrep = reps

-- The packet for a window, with the arguments that the encoder takes from its own.
abbrev pub code_packet : State → Distances → LzDecoder → Packet → M LzEncoderBase (Unit {0})
code_packet state reps d (literal b) =
    code_literal state.st (pos_state_of d) (is_char_set_char state).result (peek_prev d) b
      (peek reps.rep0 d)
code_packet state reps d (matched dis len) = code_match state.st (pos_state_of d) dis len
code_packet state reps d (repeated rep len) = code_rep_match state.st (pos_state_of d) rep len
code_packet state reps d shortrep = code_shortrep state.st (pos_state_of d)

-- The bytes of a packet go into the window of `d`, which is then that of `d'`.
abbrev pub Taken : Distances → LzDecoder → Packet → LzDecoder → Type 0
Taken reps d (literal b) d' = (b < 256) × (put_byte b d ≡ ok (tt, d'))
Taken reps d (matched dis len) d' =
    (min_match_len ≤ len)
    × (len ≤ max_match_len)
    × (dis < 0xFFFF_FFFF)
    × (is_bad_distance dis d ≡ false)
    × (copy_block dis len d ≡ ok (tt, d'))
Taken reps d (repeated rep len) d' =
    (min_match_len ≤ len)
    × (len ≤ max_match_len)
    × (copy_block (rep_moved rep reps).rep0 len d ≡ ok (tt, d'))
Taken reps d shortrep d' = put_byte (peek reps.rep0 d) d ≡ ok (tt, d')

packet-Joined :
    (m : Member) (crc : ℕ) (d d' : LzDecoder) (p : Packet)
    → AreMember m
    → Taken (distances_of m) d p d'
    → PacketJoined
        (code_packet m.state (distances_of m) d p)
        m
        crc
        (decode_packet m)
        d
        (next_state m.state p)
        (next_reps (distances_of m) p)
        d'
packet-Joined m crc d d' (literal b) h t =
    literal-PacketJoined m crc d d' h b t.0 (put_byte-with_rdec b d d' t.1)
packet-Joined m crc d d' (matched dis len) h t =
    match-PacketJoined m crc d d' dis len h t.0 t.1
      (record { no_marker = t.2; in_window = t.3; copies = copy_block-with_rdec dis len d d' t.4 })
packet-Joined m crc d d' (repeated rep len) h t =
    rep-PacketJoined m crc d d' rep len h t.0 t.1
      (copy_block-with_rdec (rep_moved rep (distances_of m)).rep0 len d d' t.2)
packet-Joined m crc d d' shortrep h t =
    shortrep-PacketJoined m crc d d' h (put_byte-with_rdec (peek m.rep0 d) d d' t)

-- A packet, and the decoder whose window has taken it.
pub record Step : Type 0 where
  pub packet : Packet
  pub window : LzDecoder

abbrev pub AllTaken : Distances → LzDecoder → List Step → Type 0
AllTaken reps d [] = Unit {0}
AllTaken reps d (s ∷ steps) =
    Taken reps d s.packet s.window × AllTaken (next_reps reps s.packet) s.window steps

abbrev pub code_packets : State → Distances → LzDecoder → List Step → M LzEncoderBase (Unit {0})
code_packets state reps d [] = pure tt
code_packets state reps d (s ∷ steps) = do
  code_packet state reps d s.packet
  code_packets (next_state state s.packet) (next_reps reps s.packet) s.window steps

abbrev pub last_state : State → List Step → State
last_state state [] = state
last_state state (s ∷ steps) = last_state (next_state state s.packet) steps

abbrev pub last_reps : Distances → List Step → Distances
last_reps reps [] = reps
last_reps reps (s ∷ steps) = last_reps (next_reps reps s.packet) steps

abbrev pub last_window : LzDecoder → List Step → LzDecoder
last_window d [] = d
last_window d (s ∷ steps) = last_window s.window steps

-- The body of the loop of decode_member, so many times unless it returns.
unfoldable pub decode_times : ℕ → Member → M LzDecoder Outcome
decode_times zero m = pure (goes_on m)
decode_times (suc n) m = do
  outcome ← decode_packet m
  elim outcome [ goes_on m' ↦ decode_times n m' | returns c ↦ pure (returns c) ]

-- What a sequence of packets leaves on the two sides.
pub record PacketsJoined (m : Member) (crc : ℕ) (d : LzDecoder) (state : State) (reps : Distances)
    (steps : List Step) : Type 0 where
  pub after : Member
  pub are_models : AreMember after
  pub same_state : after.state ≡ last_state state steps
  pub same_reps : distances_of after ≡ last_reps reps steps
  pub joins :
      Joins
        (64 * length steps)
        (code_packets state reps d steps)
        m
        crc
        tt
        after
        (decode_times (length steps) m)
        d
        (goes_on after)
        (last_window d steps)

pub packets-Joined :
    (m : Member) (crc : ℕ) (d : LzDecoder) (state : State) (reps : Distances) (steps : List Step)
    → AreMember m
    → m.state ≡ state
    → distances_of m ≡ reps
    → AllTaken reps d steps
    → PacketsJoined m crc d state reps steps
unfolding decode_times
packets-Joined m crc d state reps [] h e f t = record {
  after = m;
  are_models = h;
  same_state = e;
  same_reps = f;
  joins = pure-Joins m crc d tt (goes_on m);
}
packets-Joined m crc d state reps (s ∷ steps) h e f t =
    let a =
      packet-Joined m crc d s.window s.packet h
        (subst (λ x. Taken x d s.packet s.window) (sym f) t.0) in
    let r =
      packets-Joined a.after crc s.window (next_state state s.packet) (next_reps reps s.packet)
        steps a.are_models (a.same_state ∙ ap (λ x. next_state x s.packet) e)
        (a.same_reps ∙ ap (λ x. next_reps x s.packet) f) t.1 in
    let others = λ (x : Unit {0}).
      code_packets (next_state state s.packet) (next_reps reps s.packet) s.window steps in
    let goes = λ (o : Outcome). elim o as (λ _. M LzDecoder Outcome) [
      | goes_on m' ↦ decode_times (length steps) m'
      | returns c ↦ pure (returns c)
    ] in
    record {
      after = r.after;
      are_models = r.are_models;
      same_state = r.same_state;
      same_reps = r.same_reps;
      joins =
          same-Joins (code_packet m.state (distances_of m) d s.packet >>= others)
            (code_packets state reps d (s ∷ steps)) (decode_packet m >>= goes)
            (decode_times (suc (length steps)) m) (omega arith)
            (λ c.
              ap (λ (x : State). (code_packet x reps d s.packet >>= others) (base_of m crc c))
                (sym e)
              ∙ ap
                  (λ (x : Distances).
                    (code_packet m.state x d s.packet >>= others) (base_of m crc c))
                  (sym f))
            (λ c. refl)
            (then-Joins (code_packet m.state (distances_of m) d s.packet) others (decode_packet m)
              goes a.joins r.joins);
    }
