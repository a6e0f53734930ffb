-- ===== src/Coder/Objects/Distance.antt =====
-- The part of a distance behind its slot: encode_direct of Encoder/Packets and decode_distance.
use native.Mathlib.Nat.{div-lt_iff_lt-mul, mod-eq_of_lt, pow-suc}
use lzip_os.Base.{
  ℕ, zero, suc, ◌+◌, ◌-◌, ◌*◌, ◌/◌, ◌%◌, ◌^◌, ◌≤◌, ◌<◌, ◌≡◌, refl, ap, ◌∙◌, arith, inl, inr, ltb,
  Bool, true, false, if◌then◌else◌, List, [], ◌∷◌, ◌++◌, take, drop,
}
use lzip_os.Base.{u32, sub32, ◌<<<◌, ◌>>>◌, M, ok, ◌>>=◌, ◌>>◌, pure, get, put}
use lzip_os.Lzip.Model.{BitModel, start_dis_model, end_dis_model, dis_align_bits}
use lzip_os.Encoder.Range.{RangeEncoder, encode}
use lzip_os.Encoder.Symbols.{encode_tree_reversed}
use lzip_os.Encoder.Slots.{get_slot}
use lzip_os.Encoder.Slots.Base.{direct_bits, base, InSlot, IsSlot, get_slot-IsSlot}
use lzip_os.Encoder.Packets.{LzEncoderBase, on_renc, encode_direct}
use lzip_os.Decoder.Range.{decode, decode_tree_reversed, decode_tree_reversed4}
use lzip_os.Decoder.Lz.{LzDecoder, on_rdec}
use lzip_os.Decoder.Lz.Member.{Member, decode_distance}
use lzip_os.Coder.Stream.{AreModels}
use lzip_os.Coder.Codes.Tree.{TreeCoded}
use lzip_os.Coder.Codes.Direct.{encode-Codes}
use lzip_os.Coder.Codes.Reversed.{tree_reversed-TreeCoded}
use lzip_os.Coder.Objects.{
  Joins, with_rdec, lift-Joins, then-Joins, encoder_then, decoder_then, same-Joins, stored,
  stored-Joins, pure-Joins,
}
use lzip_os.Coder.Objects.Bits.{AreMember}

-- The models of distances put back.
abbrev with_dis : Member → List BitModel → List BitModel → Member
with_dis m dis align = record m { bm_dis = dis; bm_align = align }

-- The decoder reads `dis`, and both sides change the models of distances only.
pub record DistanceJoined (p : M LzEncoderBase (Unit {0})) (m : Member) (crc : ℕ)
    (n : M LzDecoder (ℕ × Member)) (d : LzDecoder) (dis : ℕ) : Type 0 where
  pub bm_dis : List BitModel
  pub bm_align : List BitModel
  pub are_dis : AreModels bm_dis
  pub are_align : AreModels bm_align
  pub joins :
      Joins 30 p m crc tt
        (record m { bm_dis = bm_dis; bm_align = bm_align })
        n
        d
        (dis, record m { bm_dis = bm_dis; bm_align = bm_align })
        d

if-DistanceJoined :
    (b : Bool) {p p' : M LzEncoderBase (Unit {0})} {m : Member} {crc : ℕ}
    {n n' : M LzDecoder (ℕ × Member)} {d : LzDecoder} {dis : ℕ}
    → (b ≡ true → DistanceJoined p m crc n d dis)
    → (b ≡ false → DistanceJoined p' m crc n' d dis)
    → DistanceJoined (if b then p else p') m crc (if b then n else n') d dis
if-DistanceJoined true f g = f refl
if-DistanceJoined false f g = g refl

take-AreModels : (n : ℕ) (bm : List BitModel) → AreModels bm → AreModels (take n bm)
take-AreModels zero bm h = tt
take-AreModels (suc n) [] h = tt
take-AreModels (suc n) (p ∷ bm) h = (h.0, take-AreModels n bm h.1)

drop-AreModels : (n : ℕ) (bm : List BitModel) → AreModels bm → AreModels (drop n bm)
drop-AreModels zero bm h = h
drop-AreModels (suc n) [] h = tt
drop-AreModels (suc n) (p ∷ bm) h = drop-AreModels n bm h.1

append-AreModels : (bm bm' : List BitModel) → AreModels bm → AreModels bm' → AreModels (bm ++ bm')
append-AreModels [] bm' h g = g
append-AreModels (p ∷ bm) bm' h g = (h.0, append-AreModels bm bm' h.1 g)

-- A slot below start_dis_model is its distance.
first_slots : (slot dis : ℕ) → IsSlot slot dis → slot < 4 → slot ≡ dis
first_slots slot dis (inl (small, e)) lt = e
first_slots zero dis (inr (h, g)) lt = absurd (omega (arith, h.0))
first_slots (suc zero) dis (inr (h, g)) lt = absurd (omega (arith, h.0))
first_slots (suc (suc zero)) dis (inr (h, g)) lt = omega (arith, h.1, h.2)
first_slots (suc (suc (suc zero))) dis (inr (h, g)) lt = omega (arith, h.1, h.2)
first_slots (suc (suc (suc (suc slot)))) dis h lt = absurd (omega arith)

in_slot : (slot dis : ℕ) → IsSlot slot dis → 4 ≤ slot → InSlot slot dis × (slot < 64)
in_slot slot dis (inl (small, e)) h = absurd (omega arith)
in_slot slot dis (inr g) h = g

tree4 :
    (bm : List BitModel) (symbol : ℕ)
    → AreModels bm
    → TreeCoded (encode_tree_reversed bm symbol 4) (decode_tree_reversed4 bm) 4 (symbol % 2 ^ 4)
unfolding decode_tree_reversed decode_tree_reversed4
tree4 bm symbol h = tree_reversed-TreeCoded 4 bm symbol h (omega arith)

module _ (m : Member) (crc : ℕ) (d : LzDecoder) (h : AreMember m) (slot dis : ℕ)
    (small : dis < 2 ^ 32) (is_slot : InSlot slot dis) (few : slot < 64) where
  abbrev rest : ℕ
  rest = sub32 dis (base slot)

  rest_lem : base slot + rest ≡ dis
  rest_lem = omega (arith, is_slot)

  rest_small : rest < 2 ^ direct_bits slot
  rest_small = omega (arith, is_slot)

  tree_distance :
      direct_bits slot ≤ 31
      → DistanceJoined
          (do
            e ← get
            bm ←
                on_renc
                  (encode_tree_reversed (drop (base slot - slot) e.bm_dis) rest (direct_bits slot))
            e' ← get
            put (record e' { bm_dis = take (base slot - slot) e'.bm_dis ++ bm }))
          m
          crc
          (do
            (symbol, bm) ←
                on_rdec (decode_tree_reversed (drop (base slot - slot) m.bm_dis) (direct_bits slot))
            pure (
              u32 (base slot + symbol),
              record m { bm_dis = take (base slot - slot) m.bm_dis ++ bm },
            ))
          d
          dis
  tree_distance le =
      let first = base slot - slot in
      let t =
        tree_reversed-TreeCoded (direct_bits slot) (drop first m.bm_dis) rest
          (drop-AreModels first m.bm_dis h.dis) le in
      record {
        bm_dis = take first m.bm_dis ++ t.models;
        bm_align = m.bm_align;
        are_dis =
            append-AreModels (take first m.bm_dis) t.models (take-AreModels first m.bm_dis h.dis)
              t.are_models;
        are_align = h.align;
        joins =
            same-Joins (stored F G) (stored F G) (read >>= kept) (read >>= kept)
              (omega (arith, le, few)) (λ r. refl) (λ r. refl)
              (decoder_then read kept
                (stored-Joins F G
                  (encode_tree_reversed (drop first m.bm_dis) rest (direct_bits slot)) m _ crc d
                  (λ r. refl) (λ r. refl) t.codes)
                (λ r.
                  ap
                    (λ v.
                      ok
                        ((v, record m { bm_dis = take first m.bm_dis ++ t.models }), with_rdec d r))
                    value));
      }
    where
      F : LzEncoderBase → M RangeEncoder (List BitModel)
      F e = encode_tree_reversed (drop (base slot - slot) e.bm_dis) rest (direct_bits slot)

      G : LzEncoderBase → List BitModel → LzEncoderBase
      G e bm = record e { bm_dis = take (base slot - slot) e.bm_dis ++ bm }

      read : M LzDecoder (ℕ × List BitModel)
      read = on_rdec (decode_tree_reversed (drop (base slot - slot) m.bm_dis) (direct_bits slot))

      kept : ℕ × List BitModel → M LzDecoder (ℕ × Member)
      kept r =
          pure
            (u32 (base slot + r.0), record m { bm_dis = take (base slot - slot) m.bm_dis ++ r.1 })

      value : u32 (base slot + rest % 2 ^ direct_bits slot) ≡ dis
      value = omega (arith, rest_lem, mod-eq_of_lt rest_small)

  align_distance :
      14 ≤ slot
      → DistanceJoined
          (do
            e ← get
            on_renc (encode (rest >>> dis_align_bits) (direct_bits slot - dis_align_bits))
            bm ← on_renc (encode_tree_reversed e.bm_align rest dis_align_bits)
            e' ← get
            put (record e' { bm_align = bm }))
          m
          crc
          (do
            symbol ← on_rdec (decode (direct_bits slot - dis_align_bits))
            (low, bm) ← on_rdec (decode_tree_reversed4 m.bm_align)
            pure (
              u32 (u32 (base slot + u32 (symbol <<< dis_align_bits)) + low),
              record m { bm_align = bm },
            ))
          d
          dis
  align_distance le =
      let t = tree4 m.bm_align rest h.align in
      record {
        bm_dis = m.bm_dis;
        bm_align = t.models;
        are_dis = h.dis;
        are_align = t.are_models;
        joins =
            same-Joins (on_renc high >>= λ _. on_renc low >>= put_low) _
              (read_high >>= λ symbol. read_low >>= kept symbol) _ (omega (arith, le, few))
              (λ r. refl) (λ r. refl)
              (then-Joins {more = 4} (on_renc high) (λ _. on_renc low >>= put_low) read_high
                (λ symbol. read_low >>= kept symbol)
                (lift-Joins m crc d (
                  encode-Codes (direct_bits slot - 4) (rest >>> dis_align_bits)
                    (omega (arith, few))))
                (decoder_then read_low (kept (rest / 2 ^ 4 % 2 ^ (direct_bits slot - 4)))
                  (encoder_then (on_renc low) put_low (lift-Joins m crc d t.codes) (λ r. refl))
                  (λ r.
                    ap (λ v. ok ((v, record m { bm_align = t.models }), with_rdec d r)) value)));
      }
    where
      high : M RangeEncoder (Unit {0})
      high = encode (rest >>> dis_align_bits) (direct_bits slot - dis_align_bits)

      low : M RangeEncoder (List BitModel)
      low = encode_tree_reversed m.bm_align rest dis_align_bits

      put_low : List BitModel → M LzEncoderBase (Unit {0})
      put_low bm = do e ← get; put (record e { bm_align = bm })

      read_high : M LzDecoder ℕ
      read_high = on_rdec (decode (direct_bits slot - dis_align_bits))

      read_low : M LzDecoder (ℕ × List BitModel)
      read_low = on_rdec (decode_tree_reversed4 m.bm_align)

      kept : ℕ → ℕ × List BitModel → M LzDecoder (ℕ × Member)
      kept symbol r = pure (
        u32 (u32 (base slot + u32 (symbol <<< dis_align_bits)) + r.0),
        record m { bm_align = r.1 },
      )

      top : rest / 2 ^ 4 < 2 ^ (direct_bits slot - 4)
      top = (div-lt_iff_lt-mul (omega arith)).1 (omega (arith, rest_small, size))
        where
          suc_lem : (n : ℕ) → 4 ≤ n → n ≡ suc (suc (suc (suc (n - 4))))
          suc_lem n h = omega arith

          size : 2 ^ direct_bits slot ≡ 2 ^ (direct_bits slot - 4) * 2 ^ 4
          size =
              ap (λ n. 2 ^ n) (suc_lem (direct_bits slot) (omega arith))
              ∙ omega (
                arith,
                pow-suc 2 (direct_bits slot - 4),
                pow-suc 2 (suc (direct_bits slot - 4)),
                pow-suc 2 (suc (suc (direct_bits slot - 4))),
                pow-suc 2 (suc (suc (suc (direct_bits slot - 4)))),
              )

      value :
          u32 (
            u32 (base slot + u32 ((rest / 2 ^ 4 % 2 ^ (direct_bits slot - 4)) <<< dis_align_bits))
            + rest % 2 ^ 4)
          ≡ dis
      value = omega (arith, rest_lem, mod-eq_of_lt top)

-- For a distance of 32 bits, decode_distance reads the distance whose direct part encode_direct codes.
pub encode_direct-DistanceJoined :
    (m : Member) (crc : ℕ) (d : LzDecoder) (dis : ℕ)
    → AreMember m
    → dis < 2 ^ 32
    → DistanceJoined
        (encode_direct dis (get_slot dis))
        m
        crc
        (decode_distance (get_slot dis) m)
        d
        dis
unfolding encode_direct decode_distance
encode_direct-DistanceJoined m crc d dis h small =
    by_slot (get_slot dis) (get_slot-IsSlot dis small)
  where
    by_slot :
        (slot : ℕ)
        → IsSlot slot dis
        → DistanceJoined (encode_direct dis slot) m crc (decode_distance slot m) d dis
    by_slot slot g =
        if-DistanceJoined (ltb slot start_dis_model)
          (λ low. record {
            bm_dis = m.bm_dis;
            bm_align = m.bm_align;
            are_dis = h.dis;
            are_align = h.align;
            joins =
                same-Joins (pure tt) (pure tt) (pure (dis, m)) (pure (slot, m)) (omega arith)
                  (λ r. refl)
                  (λ r.
                    ap (λ v. ok ((v, m), with_rdec d r))
                      (first_slots slot dis g (ground (arith, low))))
                  (pure-Joins m crc d tt (dis, m));
          })
          (λ more.
            let s = in_slot slot dis g (ground (arith, more)) in
            if-DistanceJoined (ltb slot end_dis_model)
              (λ low. tree_distance m crc d h slot dis small s.0 s.1 (ground (arith, low)))
              (λ high. align_distance m crc d h slot dis small s.0 s.1 (ground (arith, high))))
