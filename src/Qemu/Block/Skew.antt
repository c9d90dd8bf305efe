-- ===== src/Qemu/Block/Skew.antt =====
-- `SkewIndicies`: the indices by which `tbExec` finds the instruction of a memory access.
use llvm_mca_daemon.Prelude.{
  ℕ, zero, suc, ◌+◌, ◌-◌, ◌<◌, ◌≤◌, ◌≡◌, refl, sym, ◌∙◌, ap, none, some, List, [], ◌∷◌, ltb, ◌==◌,
  u32, u64, arith, if◌then◌else◌, length, Bool-cases, inl, inr,
}
use llvm_mca_daemon.Prelude.Assoc.{Assoc, lookup, lookup-insert}
use llvm_mca_daemon.Qemu.{TranslationBlock}
use llvm_mca_daemon.Qemu.Block.{
  Decoder, new_block, decode_raw, add_decoded, note_skew, disassemble_loop, disassemble_with,
}
use llvm_mca_daemon.Qemu.Exec.{mapped_index}

module _ {Inst : Type 0} (decode : Decoder Inst) where
  -- How many instructions the disassembler makes of each raw one.
  abbrev pub yields : ℕ → List (List ℕ) → List ℕ
  yields vaddr [] = []
  yields vaddr (raw ∷ raws) =
      length (decode_raw decode vaddr 0 0 raw) ∷ yields (u64 (vaddr + length raw)) raws

-- The sum of the first numbers, and how many of them are zero.
abbrev pub sum_before : ℕ → List ℕ → ℕ
sum_before zero ns = 0
sum_before (suc j) [] = 0
sum_before (suc j) (n ∷ ns) = n + sum_before j ns

abbrev pub zeros_before : ℕ → List ℕ → ℕ
zeros_before zero ns = 0
zeros_before (suc j) [] = 0
zeros_before (suc j) (n ∷ ns) = (if n == 0 then 1 else 0) + zeros_before j ns

abbrev pub sum : List ℕ → ℕ
sum [] = 0
sum (n ∷ ns) = n + sum ns

mapped_of : (m : Assoc ℕ) (k v : ℕ) → lookup k m ≡ some v → mapped_index m k ≡ v
unfolding mapped_index
mapped_of m k v e = rw (e, mapped_index) refl

mapped_of_none : (m : Assoc ℕ) (k : ℕ) → lookup k m ≡ none → mapped_index m k ≡ k
unfolding mapped_index
mapped_of_none m k e = rw (e, mapped_index) refl

module _ {Inst : Type 0} where
  lookup-note_skew :
      (k idx skew : ℕ) (tb : TranslationBlock Inst)
      → lookup k (note_skew idx skew tb).skew_indices ≡ (
          if idx == k
          then (if ltb 0 skew then some (u32 (idx + skew)) else lookup k tb.skew_indices)
          else lookup k tb.skew_indices)
  unfolding note_skew
  lookup-note_skew k idx skew tb =
      ground (arith, lookup-insert idx k (u32 (idx + skew)) tb.skew_indices)

  -- The rounds change no entry of an index before theirs.
  skews_below :
      (decode : Decoder Inst) (start vaddr idx skew : ℕ) (raws : List (List ℕ))
      (tb : TranslationBlock Inst) (k : ℕ)
      → k < idx
      → idx + length raws < 4294967296
      → lookup k (disassemble_loop decode start vaddr idx skew raws tb).skew_indices
        ≡ lookup k tb.skew_indices
  unfolding disassemble_loop add_decoded
  skews_below decode start vaddr idx skew [] tb k h fit = refl
  skews_below decode start vaddr idx skew (raw ∷ raws) tb k h fit =
      let ds = decode_raw decode vaddr 0 0 raw in
      let next : u32 (idx + 1) ≡ idx + 1 = omega arith in
      skews_below decode start (u64 (vaddr + length raw)) (u32 (idx + 1))
        (u32 (skew + (length ds - 1))) raws (add_decoded start ds (note_skew idx skew tb)) k
        (omega arith) (omega arith)
      ∙ lookup-note_skew k idx skew tb
      ∙ (ground arith)

  loop_skew :
      (decode : Decoder Inst) (start vaddr idx skew : ℕ) (raws : List (List ℕ))
      (tb : TranslationBlock Inst) (j : ℕ)
      → j < length raws
      → idx + length raws + skew + sum (yields decode vaddr raws) < 4294967296
      → ((k : ℕ) → idx ≤ k → lookup k tb.skew_indices ≡ none)
      → mapped_index (disassemble_loop decode start vaddr idx skew raws tb).skew_indices (idx + j)
        ≡ idx
          + skew
          + sum_before j (yields decode vaddr raws)
          + zeros_before j (yields decode vaddr raws)
  unfolding disassemble_loop add_decoded
  loop_skew decode start vaddr idx skew [] tb j h fit fresh = elim h [ ]
  loop_skew decode start vaddr idx skew (raw ∷ raws) tb zero h fit fresh =
      let ds = decode_raw decode vaddr 0 0 raw in
      let here : idx + 0 ≡ idx = omega arith in
      let next : u32 (idx + 1) ≡ idx + 1 = omega arith in
      let kept =
        skews_below decode start (u64 (vaddr + length raw)) (u32 (idx + 1))
          (u32 (skew + (length ds - 1))) raws (add_decoded start ds (note_skew idx skew tb)) idx
          (omega arith) (omega arith)
        ∙ lookup-note_skew idx idx skew tb in
      rw here (elim (Bool-cases (ltb 0 skew)) [
        | inl e ↦ mapped_of _ idx (idx + skew) (kept ∙ (ground (arith, e))) ∙ (omega arith)
        | inr e ↦
            let zero_skew : skew ≡ 0 = ground (arith, e) in
            mapped_of_none _ idx (kept ∙ (ground (arith, e, fresh idx)))
            ∙ (omega (arith, zero_skew))
      ])
  loop_skew decode start vaddr idx skew (raw ∷ raws) tb (suc j) h fit fresh =
      let ds = decode_raw decode vaddr 0 0 raw in
      let next : u32 (idx + 1) ≡ idx + 1 = omega arith in
      let grown : u32 (skew + (length ds - 1)) ≡ skew + (length ds - 1) = omega arith in
      let place : u32 (idx + 1) + j ≡ idx + suc j = omega arith in
      let rest =
        loop_skew decode start (u64 (vaddr + length raw)) (u32 (idx + 1))
          (u32 (skew + (length ds - 1))) raws (add_decoded start ds (note_skew idx skew tb)) j
          (omega arith) (omega (arith, next, grown))
          (λ k le. lookup-note_skew k idx skew tb ∙ (ground (arith, fresh k))) in
      ap (mapped_index _) (sym place) ∙ rest ∙ (ground (arith, next, grown))

  -- With fewer than 2 ^ 32 instructions, the index that the map of a disassembled block gives to a
  -- raw instruction is the number of machine instructions of the raw instructions before it, plus
  -- the number of those that did not disassemble.
  pub skew_lem :
      (decode : Decoder Inst) (start : ℕ) (raws : List (List ℕ)) (r : ℕ)
      → r < length raws
      → length raws + sum (yields decode start raws) < 4294967296
      → mapped_index (disassemble_with decode start (new_block raws)).skew_indices r
        ≡ sum_before r (yields decode start raws) + zeros_before r (yields decode start raws)
  unfolding disassemble_with new_block lookup
  skew_lem decode start raws r h fit =
      let place : 0 + r ≡ r = omega arith in
      ap (mapped_index _) (sym place)
      ∙ loop_skew decode start start 0 0 raws (new_block raws) r h (omega arith) (λ k le. refl)
      ∙ (omega arith)
