-- ===== src/Index/Blocks.antt =====
-- The data blocks that the constructor of Lzip_index sets.
use lzip_os.Base.{
  ℕ, ◌+◌, ◌^◌, ◌<◌, ◌≡◌, ◌↔◌, refl, arith, true, false, Bool-cases, inl, inr, leb, leb-false,
  leb→le, if_false, if_true, List, [], ◌∷◌, ap, ◌∙◌, All,
}
use lzip_os.Index.{IndexMember, block_end}
use lzip_os.Index.Scan.{chain_blocks}

-- `out` is `ms` with data blocks laid end to end from `start`, in unbounded numbers, all below 2 ^ 63.
abbrev pub IsChain : ℕ → List IndexMember → List IndexMember → Type 0
IsChain start [] [] = Unit
IsChain start (m ∷ ms) (n ∷ out) =
    (n.dblock ≡ record { pos_ = start; size_ = m.dblock.size_ })
    × (n.mblock ≡ m.mblock)
    × (n.dict_size ≡ m.dict_size)
    × (start + m.dblock.size_ < 2 ^ 63)
    × IsChain (start + m.dblock.size_) ms out
IsChain start [] (n ∷ out) = ⊥
IsChain start (m ∷ ms) [] = ⊥

-- The size of all the data, unbounded.
abbrev pub total_size : List IndexMember → ℕ
total_size [] = 0
total_size (m ∷ ms) = m.dblock.size_ + total_size ms

-- No size is negative as a long long.
abbrev pub HasSizes : List IndexMember → Type 0
HasSizes ms = All (λ (m : IndexMember). m.dblock.size_ < 2 ^ 63) ms

-- For data sizes that are not negative as a long long: the last loop of the constructor succeeds on members
-- `ms` from `start` on exactly when all their data end below 2 ^ 63, and then the data blocks that it leaves
-- begin at `start`, each begins where the one before ends and has the size of its member, and the member
-- blocks and dictionary sizes are those of `ms`.
pub chain_blocks-IsChain :
    (start : ℕ) (ms : List IndexMember)
    → start < 2 ^ 63
    → HasSizes ms
    → (((chain_blocks start ms).0 ≡ true) ↔ (start + total_size ms < 2 ^ 63))
      × ((chain_blocks start ms).0 ≡ true → IsChain start ms (chain_blocks start ms).1)
unfolding chain_blocks block_end
chain_blocks-IsChain start [] low sizes = (((λ h. omega (arith, low)), (λ h. refl)), (λ h. tt))
chain_blocks-IsChain start (m ∷ ms) low sizes =
    let here : IndexMember = record {
      dblock = record { pos_ = start; size_ = m.dblock.size_ };
      mblock = m.mblock;
      dict_size = m.dict_size;
    } in
    let exact : block_end here.dblock ≡ start + m.dblock.size_ = omega (arith, low, sizes.0) in
    elim (Bool-cases (leb (2 ^ 63) (block_end here.dblock))) [
      | inl long ↦
          let stops : chain_blocks start (m ∷ ms) ≡ (false, []) = if_true _ _ long in
          let beyond = leb→le _ _ long in
          rw stops (((λ h. cc), (λ h. absurd (omega (arith, h, beyond, exact)))), (λ h. cc))
      | inr fits ↦
          let below : start + m.dblock.size_ < 2 ^ 63 = omega (arith, leb-false _ _ fits, exact) in
          let rest = chain_blocks (start + m.dblock.size_) ms in
          let r = chain_blocks-IsChain (start + m.dblock.size_) ms below sizes.1 in
          let whole : chain_blocks start (m ∷ ms) ≡ (rest.0, here ∷ rest.1) =
            if_false _ _ fits
            ∙ ap (λ (e : ℕ). ((chain_blocks e ms).0, here ∷ (chain_blocks e ms).1)) exact in
          rw whole (
            ((λ h. omega (arith, r.0.0 h)), (λ h. r.0.1 (omega (arith, h)))),
            (λ h. (refl, refl, refl, below, r.1 h)),
          )
    ]
