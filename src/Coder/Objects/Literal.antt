-- ===== src/Coder/Objects/Literal.antt =====
-- Literals.
use lzip_os.Base.{
  ℕ, ◌<◌, ◌≡◌, refl, sym, arith, if◌then◌else◌, Bool, true, false, List, [], get_or, set, bit_and,
}
use lzip_os.Base.{M, ok, ◌>>=◌, >>=-ok, pure}
use lzip_os.Lzip.Model.{BitModel, get_lit_state, pos_state_mask}
use lzip_os.Lzip.State.{State, is_char_set_char}
use lzip_os.Encoder.Symbols.{encode_tree8}
use lzip_os.Encoder.Symbols
use lzip_os.Encoder.Packets.{LzEncoderBase, encode_literal, encode_matched}
use lzip_os.Encoder.Packets.Bits.{match_bit}
use lzip_os.Encoder.Fast.Member.{code_literal}
use lzip_os.Decoder.Range.{RangeDecoder, decode_tree8}
use lzip_os.Decoder.Symbols.{row, decode_matched}
use lzip_os.Decoder.Lz.{LzDecoder, on_rdec, put_byte, peek_prev, peek, data_position}
use lzip_os.Decoder.Lz.Member.{Member, Outcome, goes_on, decode_literal, decode_packet, bit_in_row}
use lzip_os.Coder.Stream.{AreModels}
use lzip_os.Coder.Codes.{>>=_assoc}
use lzip_os.Coder.Codes.Tree.{tree8-TreeCoded}
use lzip_os.Coder.Codes.Matched.{encode_matched-TreeCoded}
use lzip_os.Coder.Codes.Length.{row-AreModels, set-rows}
use lzip_os.Coder.Objects.{
  Joins, with_rdec, then-Joins, decoder_then, models-Joins, same-Joins, stored-Joins,
}
use lzip_os.Coder.Objects.Bits.{
  AreMember, with_match, match_bit-Joins, rows_after, rows_after-AreModels,
}
use lzip_os.Coder.Objects.Packet.{PacketJoined, distances_of, packet_body}

module _ (m : Member) (crc : ℕ) (d : LzDecoder) (h : AreMember m) where
  -- A literal's symbol, plain or against the byte of a match.
  record LiteralJoined (c : Bool) (prev_byte cur_byte match_byte : ℕ) : Type 0 where
    bm : List BitModel
    are_models : AreModels bm
    joins :
        Joins 8
          (if c
            then encode_literal prev_byte cur_byte
            else encode_matched prev_byte cur_byte match_byte)
          m
          crc
          tt
          (record m { bm_literal = set m.bm_literal (get_lit_state prev_byte) bm })
          (if c
            then on_rdec (decode_tree8 (row m.bm_literal (get_lit_state prev_byte)))
            else on_rdec (decode_matched (row m.bm_literal (get_lit_state prev_byte)) match_byte))
          d
          (cur_byte, bm)
          d

  literal-LiteralJoined :
      (c : Bool) (prev_byte cur_byte match_byte : ℕ)
      → cur_byte < 256
      → LiteralJoined c prev_byte cur_byte match_byte
  unfolding encode_literal encode_matched
  literal-LiteralJoined true prev_byte cur_byte match_byte small =
      let i = get_lit_state prev_byte in
      let t =
        tree8-TreeCoded (row m.bm_literal i) cur_byte (row-AreModels m.bm_literal i h.literal)
          small in
      record {
        bm = t.models;
        are_models = t.are_models;
        joins =
            stored-Joins (λ e. encode_tree8 (get_or e.bm_literal i []) cur_byte)
              (λ e bm. record e { bm_literal = set e.bm_literal i bm })
              (encode_tree8 (row m.bm_literal i) cur_byte) m _ crc d (λ r. refl) (λ r. refl)
              t.codes;
      }
  literal-LiteralJoined false prev_byte cur_byte match_byte small =
      let i = get_lit_state prev_byte in
      let t =
        encode_matched-TreeCoded (row m.bm_literal i) cur_byte match_byte
          (row-AreModels m.bm_literal i h.literal) small in
      record {
        bm = t.models;
        are_models = t.are_models;
        joins =
            stored-Joins
              (λ e. Symbols.encode_matched (get_or e.bm_literal i []) cur_byte match_byte)
              (λ e bm. record e { bm_literal = set e.bm_literal i bm })
              (Symbols.encode_matched (row m.bm_literal i) cur_byte match_byte) m _ crc d
              (λ r. refl) (λ r. refl) t.codes;
      }

-- The packet of a literal: with the byte before it, the byte at the last distance and the position of
-- the decoder, decode_packet reads the byte and puts it.
module _ (m : Member) (crc : ℕ) (d d' : LzDecoder) (h : AreMember m) where
  pub literal-PacketJoined :
      (cur_byte : ℕ)
      → cur_byte < 256
      → ((r : RangeDecoder) → put_byte cur_byte (with_rdec d r) ≡ ok (tt, with_rdec d' r))
      → let s = is_char_set_char m.state in
        PacketJoined
          (code_literal m.state.st
            (bit_and (data_position d) pos_state_mask)
            s.result
            (peek_prev d)
            cur_byte
            (peek m.rep0 d))
          m
          crc
          (decode_packet m)
          d
          s.after
          (distances_of m)
          d'
  unfolding code_literal decode_packet decode_literal data_position peek_prev peek
  literal-PacketJoined cur_byte small puts = record {
    after = record m1 { state = s.after; bm_literal = literals };
    are_models = record {
      literal = set-rows m.bm_literal lit_state t.bm h.literal t.are_models;
      match = rows_after-AreModels m.bm_match m.state.st pos_state false h.match;
      rep = h.rep;
      rep0 = h.rep0;
      rep1 = h.rep1;
      rep2 = h.rep2;
      len = h.len;
      dis_slot = h.dis_slot;
      dis = h.dis;
      align = h.align;
      match_len = h.match_len;
      rep_len = h.rep_len;
    };
    same_state = refl;
    same_reps = refl;
    joins =
        models-Joins {m1 = record m1 { bm_literal = literals }} (λ r. refl)
          (same-Joins (match_bit m.state.st pos_state false >>= λ _. coded)
            (code_literal m.state.st pos_state s.result (peek_prev d) cur_byte (peek m.rep0 d))
            (bit_in_row m.bm_match m.state.st pos_state >>= packet_body m pos_state)
            (decode_packet m) (omega arith) (λ r. refl) (λ r. refl)
            (then-Joins {more = 8} (match_bit m.state.st pos_state false) (λ _. coded)
              (bit_in_row m.bm_match m.state.st pos_state) (packet_body m pos_state)
              (match_bit-Joins m crc d h m.state.st pos_state false)
              (same-Joins coded coded (symbol >>= finish) (packet_body m pos_state (false, rows))
                (omega arith) (λ r. refl) shape (decoder_then symbol finish t.joins puts_lem))));
  }
    where
      s : record { result : Bool; after : State }
      s = is_char_set_char m.state

      pos_state : ℕ
      pos_state = bit_and (data_position d) pos_state_mask

      lit_state : ℕ
      lit_state = get_lit_state (peek_prev d)

      rows : List (List BitModel)
      rows = rows_after m.bm_match m.state.st pos_state false

      m1 : Member
      m1 = record m { bm_match = rows }

      m1-AreMember : AreMember m1
      m1-AreMember =
          with_match m h rows (rows_after-AreModels m.bm_match m.state.st pos_state false h.match)

      t : LiteralJoined m1 crc d m1-AreMember s.result (peek_prev d) cur_byte (peek m.rep0 d)
      t =
          literal-LiteralJoined m1 crc d m1-AreMember s.result (peek_prev d) cur_byte
            (peek m.rep0 d) small

      literals : List (List BitModel)
      literals = set m.bm_literal lit_state t.bm

      coded : M LzEncoderBase (Unit {0})
      coded =
          if s.result
          then encode_literal (peek_prev d) cur_byte
          else encode_matched (peek_prev d) cur_byte (peek m.rep0 d)

      symbol : M LzDecoder (ℕ × List BitModel)
      symbol =
          if s.result
          then on_rdec (decode_tree8 (row m.bm_literal lit_state))
          else on_rdec (decode_matched (row m.bm_literal lit_state) (peek m.rep0 d))

      put_it : ℕ × List BitModel → M LzDecoder Member
      put_it r = put_byte r.0 >>= λ _.
          pure (record m1 { state = s.after; bm_literal = set m.bm_literal lit_state r.1 })

      finish : ℕ × List BitModel → M LzDecoder Outcome
      finish r = put_it r >>= λ m2. pure (goes_on m2)

      shape :
          (r : RangeDecoder)
          → packet_body m pos_state (false, rows) (with_rdec d r)
            ≡ (symbol >>= finish) (with_rdec d r)
      shape r = sym (>>=_assoc symbol put_it (λ m2. pure (goes_on m2)) (with_rdec d r))

      puts_lem :
          (r : RangeDecoder)
          → finish (cur_byte, t.bm) (with_rdec d r)
            ≡ ok (goes_on (record m1 { state = s.after; bm_literal = literals }), with_rdec d' r)
      puts_lem r =
          >>=-ok (put_it (cur_byte, t.bm)) (λ m2. pure (goes_on m2)) (with_rdec d r)
            (>>=-ok (put_byte cur_byte)
              (λ _. pure (record m1 { state = s.after; bm_literal = literals })) (with_rdec d r)
              (puts r))
