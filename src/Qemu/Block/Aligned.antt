-- ===== src/Qemu/Block/Aligned.antt =====
-- A translated block has an address, a size, an offset and two marks for each instruction.
use llvm_mca_daemon.Prelude.{
  ℕ, zero, suc, ◌+◌, ◌-◌, ◌≡◌, refl, ap, Bool, List, [], ◌∷◌, ◌++◌, map, ltb, u32, u64, arith,
  length, length-append, length-map, Bool-cases, inl, inr,
}
use llvm_mca_daemon.Qemu.{TranslationBlock}
use llvm_mca_daemon.Qemu.Block.{
  Decoder, Decoded, resize_bits, new_block, decode_raw, add_decoded, note_skew, disassemble_loop,
  disassemble_with,
}

-- Every instruction of a block has its address, its size, its offset and its two marks.
pub record IsAligned {Inst : Type 0} (tb : TranslationBlock Inst) : Type 0 where
  pub addrs : length tb.mc_inst_addrs ≡ length tb.mc_insts
  pub sizes : length tb.mc_inst_sizes ≡ length tb.mc_insts
  pub offsets : length tb.vaddr_offsets ≡ length tb.mc_insts
  pub begins : length tb.begin_marks ≡ length tb.mc_insts
  pub ends : length tb.end_marks ≡ length tb.mc_insts

length-resize_bits : (n : ℕ) (bits : List Bool) → length (resize_bits n bits) ≡ n
unfolding resize_bits
length-resize_bits zero bits = refl
length-resize_bits (suc n) [] = ap suc (length-resize_bits n [])
length-resize_bits (suc n) (b ∷ bits) = ap suc (length-resize_bits n bits)

module _ {Inst : Type 0} where
  -- The same without the marks, which are resized at the end.
  record HasPlaces (tb : TranslationBlock Inst) : Type 0 where
    addrs : length tb.mc_inst_addrs ≡ length tb.mc_insts
    sizes : length tb.mc_inst_sizes ≡ length tb.mc_insts
    offsets : length tb.vaddr_offsets ≡ length tb.mc_insts

  note_skew-HasPlaces :
      (idx skew : ℕ) (tb : TranslationBlock Inst) → HasPlaces tb → HasPlaces (note_skew idx skew tb)
  unfolding note_skew
  note_skew-HasPlaces idx skew tb h = elim (Bool-cases (ltb 0 skew)) [
    | inl e ↦ rw e (record { addrs = h.addrs; sizes = h.sizes; offsets = h.offsets })
    | inr e ↦ rw e h
  ]

  add_decoded-HasPlaces :
      (start : ℕ) (ds : List (Decoded Inst)) (tb : TranslationBlock Inst)
      → HasPlaces tb
      → HasPlaces (add_decoded start ds tb)
  unfolding add_decoded
  add_decoded-HasPlaces start ds tb h = record {
    addrs = joined tb.mc_inst_addrs h.addrs (λ d. d.addr);
    sizes = joined tb.mc_inst_sizes h.sizes (λ d. u32 d.size);
    offsets = joined tb.vaddr_offsets h.offsets _;
  }
    where
      joined :
          (xs : List ℕ)
          → length xs ≡ length tb.mc_insts
          → (f : Decoded Inst → ℕ)
          → length (xs ++ map f ds) ≡ length (tb.mc_insts ++ map (λ d. d.inst) ds)
      joined xs e f = omega (
        arith,
        length-append xs (map f ds),
        length-append tb.mc_insts (map (λ d. d.inst) ds),
        length-map f ds,
        length-map (λ (d : Decoded Inst). d.inst) ds,
        e,
      )

  disassemble_loop-HasPlaces :
      (decode : Decoder Inst) (start vaddr idx skew : ℕ) (raws : List (List ℕ))
      (tb : TranslationBlock Inst)
      → HasPlaces tb
      → HasPlaces (disassemble_loop decode start vaddr idx skew raws tb)
  unfolding disassemble_loop
  disassemble_loop-HasPlaces decode start vaddr idx skew [] tb h = h
  disassemble_loop-HasPlaces decode start vaddr idx skew (raw ∷ raws) tb h =
      let ds = decode_raw decode vaddr 0 0 raw in
      disassemble_loop-HasPlaces decode start (u64 (vaddr + length raw)) (u32 (idx + 1))
        (u32 (skew + (length ds - 1))) raws _
        (add_decoded-HasPlaces start ds _ (note_skew-HasPlaces idx skew tb h))

  pub disassemble_with-IsAligned :
      (decode : Decoder Inst) (start : ℕ) (tb : TranslationBlock Inst)
      → IsAligned tb
      → IsAligned (disassemble_with decode start tb)
  unfolding disassemble_with
  disassemble_with-IsAligned decode start tb al =
      let tb' = disassemble_loop decode start start 0 0 tb.raw_insts tb in
      let h =
        disassemble_loop-HasPlaces decode start start 0 0 tb.raw_insts tb
          (record { addrs = al.addrs; sizes = al.sizes; offsets = al.offsets }) in
      record {
        addrs = h.addrs;
        sizes = h.sizes;
        offsets = h.offsets;
        begins = length-resize_bits (length tb'.mc_insts) tb'.begin_marks;
        ends = length-resize_bits (length tb'.mc_insts) tb'.end_marks;
      }

  pub new_block-IsAligned : (raws : List (List ℕ)) → IsAligned (new_block {Inst = Inst} raws)
  unfolding new_block
  new_block-IsAligned raws = record {
    addrs = refl;
    sizes = refl;
    offsets = refl;
    begins = refl;
    ends = refl;
  }
