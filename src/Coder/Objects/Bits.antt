-- ===== src/Coder/Objects/Bits.antt =====
-- The bits of Encoder/Packets/Bits, and the calls of the decoder that read them.
use lzip_os.Base.{ℕ, refl, Bool, List, [], get_or, set, All}
use lzip_os.Base.{pure}
use lzip_os.Lzip.Model.{BitModel, fresh_model, adapt}
use lzip_os.Encoder.Range.{encode_bit_at}
use lzip_os.Encoder.Packets.Bits.{match_bit, len_bit, rep_bit, rep0_bit, rep1_bit, rep2_bit}
use lzip_os.Decoder.Range.{decode_bit_at}
use lzip_os.Decoder.Symbols.{row}
use lzip_os.Decoder.Lz.{LzDecoder, on_rdec}
use lzip_os.Decoder.Lz.Member.{Member, bit_in_row}
use lzip_os.Coder.Stream.{Kind, AreModels, get_or-IsModel, models_after-AreModels}
use lzip_os.Coder.Codes.{encode_bit_at-Codes}
use lzip_os.Coder.Codes.Length.{AreLenModels, row-AreModels, set-rows}
use lzip_os.Coder.Objects.{Joins, decoder_then, stored-Joins}

-- All models of a member are from 31 to 2017.
pub record AreMember (m : Member) : Type 0 where
  pub literal : All AreModels m.bm_literal
  pub match : All AreModels m.bm_match
  pub rep : AreModels m.bm_rep
  pub rep0 : AreModels m.bm_rep0
  pub rep1 : AreModels m.bm_rep1
  pub rep2 : AreModels m.bm_rep2
  pub len : All AreModels m.bm_len
  pub dis_slot : All AreModels m.bm_dis_slot
  pub dis : AreModels m.bm_dis
  pub align : AreModels m.bm_align
  pub match_len : AreLenModels m.match_len_model
  pub rep_len : AreLenModels m.rep_len_model

pub with_match :
    (m : Member)
    → AreMember m
    → (rows : List (List BitModel)) → All AreModels rows
    → AreMember (record m { bm_match = rows })
with_match m h rows g = record {
  literal = h.literal;
  match = g;
  rep = h.rep;
  rep0 = h.rep0;
  rep1 = h.rep1;
  rep2 = h.rep2;
  len = h.len;
  dis_slot = h.dis_slot;
  dis = h.dis;
  align = h.align;
  match_len = h.match_len;
  rep_len = h.rep_len;
}

pub with_rep :
    (m : Member)
    → AreMember m
    → (bm : List BitModel) → AreModels bm
    → AreMember (record m { bm_rep = bm })
with_rep m h bm g = record {
  literal = h.literal;
  match = h.match;
  rep = g;
  rep0 = h.rep0;
  rep1 = h.rep1;
  rep2 = h.rep2;
  len = h.len;
  dis_slot = h.dis_slot;
  dis = h.dis;
  align = h.align;
  match_len = h.match_len;
  rep_len = h.rep_len;
}

-- An array of models after a bit.
abbrev pub after_bit : List BitModel → ℕ → Bool → List BitModel
after_bit bm k b = set bm k (adapt b (get_or bm k fresh_model))

pub after_bit-AreModels :
    (bm : List BitModel) (k : ℕ) (b : Bool) → AreModels bm → AreModels (after_bit bm k b)
after_bit-AreModels bm k b h = models_after-AreModels (Kind.modelled k) b bm h

-- A table of models after a bit.
abbrev pub rows_after : List (List BitModel) → ℕ → ℕ → Bool → List (List BitModel)
rows_after rows i k b = set rows i (after_bit (row rows i) k b)

pub rows_after-AreModels :
    (rows : List (List BitModel)) (i k : ℕ) (b : Bool)
    → All AreModels rows
    → All AreModels (rows_after rows i k b)
rows_after-AreModels rows i k b h =
    set-rows rows i (after_bit (row rows i) k b) h
      (after_bit-AreModels (row rows i) k b (row-AreModels rows i h))

module _ (m : Member) (crc : ℕ) (d : LzDecoder) (h : AreMember m) where
  pub match_bit-Joins :
      (st k : ℕ) (b : Bool)
      → let rows = rows_after m.bm_match st k b in
        Joins 1
          (match_bit st k b)
          m
          crc
          tt
          (record m { bm_match = rows })
          (bit_in_row m.bm_match st k)
          d
          (b, rows)
          d
  unfolding match_bit
  match_bit-Joins st k b =
      decoder_then (on_rdec (decode_bit_at (row m.bm_match st) k))
        (λ r. pure (r.0, set m.bm_match st r.1))
        (stored-Joins (λ e. encode_bit_at (get_or e.bm_match st []) k b)
          (λ e bm. record e { bm_match = set e.bm_match st bm })
          (encode_bit_at (row m.bm_match st) k b) m _ crc d (λ r. refl) (λ r. refl)
          (encode_bit_at-Codes (row m.bm_match st) k b
            (get_or-IsModel (row m.bm_match st) k (row-AreModels m.bm_match st h.match))))
        (λ r. refl)

  pub len_bit-Joins :
      (st k : ℕ) (b : Bool)
      → let rows = rows_after m.bm_len st k b in
        Joins 1
          (len_bit st k b)
          m
          crc
          tt
          (record m { bm_len = rows })
          (bit_in_row m.bm_len st k)
          d
          (b, rows)
          d
  unfolding len_bit
  len_bit-Joins st k b =
      decoder_then (on_rdec (decode_bit_at (row m.bm_len st) k))
        (λ r. pure (r.0, set m.bm_len st r.1))
        (stored-Joins (λ e. encode_bit_at (get_or e.bm_len st []) k b)
          (λ e bm. record e { bm_len = set e.bm_len st bm }) (encode_bit_at (row m.bm_len st) k b) m
          _ crc d (λ r. refl) (λ r. refl)
          (encode_bit_at-Codes (row m.bm_len st) k b
            (get_or-IsModel (row m.bm_len st) k (row-AreModels m.bm_len st h.len))))
        (λ r. refl)

  pub rep_bit-Joins :
      (st : ℕ) (b : Bool)
      → let bm = after_bit m.bm_rep st b in
        Joins 1
          (rep_bit st b)
          m
          crc
          tt
          (record m { bm_rep = bm })
          (on_rdec (decode_bit_at m.bm_rep st))
          d
          (b, bm)
          d
  unfolding rep_bit
  rep_bit-Joins st b =
      stored-Joins (λ e. encode_bit_at e.bm_rep st b) (λ e bm. record e { bm_rep = bm })
        (encode_bit_at m.bm_rep st b) m _ crc d (λ r. refl) (λ r. refl)
        (encode_bit_at-Codes m.bm_rep st b (get_or-IsModel m.bm_rep st h.rep))

  pub rep0_bit-Joins :
      (st : ℕ) (b : Bool)
      → let bm = after_bit m.bm_rep0 st b in
        Joins 1
          (rep0_bit st b)
          m
          crc
          tt
          (record m { bm_rep0 = bm })
          (on_rdec (decode_bit_at m.bm_rep0 st))
          d
          (b, bm)
          d
  unfolding rep0_bit
  rep0_bit-Joins st b =
      stored-Joins (λ e. encode_bit_at e.bm_rep0 st b) (λ e bm. record e { bm_rep0 = bm })
        (encode_bit_at m.bm_rep0 st b) m _ crc d (λ r. refl) (λ r. refl)
        (encode_bit_at-Codes m.bm_rep0 st b (get_or-IsModel m.bm_rep0 st h.rep0))

  pub rep1_bit-Joins :
      (st : ℕ) (b : Bool)
      → let bm = after_bit m.bm_rep1 st b in
        Joins 1
          (rep1_bit st b)
          m
          crc
          tt
          (record m { bm_rep1 = bm })
          (on_rdec (decode_bit_at m.bm_rep1 st))
          d
          (b, bm)
          d
  unfolding rep1_bit
  rep1_bit-Joins st b =
      stored-Joins (λ e. encode_bit_at e.bm_rep1 st b) (λ e bm. record e { bm_rep1 = bm })
        (encode_bit_at m.bm_rep1 st b) m _ crc d (λ r. refl) (λ r. refl)
        (encode_bit_at-Codes m.bm_rep1 st b (get_or-IsModel m.bm_rep1 st h.rep1))

  pub rep2_bit-Joins :
      (st : ℕ) (b : Bool)
      → let bm = after_bit m.bm_rep2 st b in
        Joins 1
          (rep2_bit st b)
          m
          crc
          tt
          (record m { bm_rep2 = bm })
          (on_rdec (decode_bit_at m.bm_rep2 st))
          d
          (b, bm)
          d
  unfolding rep2_bit
  rep2_bit-Joins st b =
      stored-Joins (λ e. encode_bit_at e.bm_rep2 st b) (λ e bm. record e { bm_rep2 = bm })
        (encode_bit_at m.bm_rep2 st b) m _ crc d (λ r. refl) (λ r. refl)
        (encode_bit_at-Codes m.bm_rep2 st b (get_or-IsModel m.bm_rep2 st h.rep2))
