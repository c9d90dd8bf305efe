-- ===== src/Qemu/Block/Offsets.antt =====
-- `VAddrOffsets`: what `handleBinaryRegions` knows of the addresses of a block.
use llvm_mca_daemon.Prelude.{
  ℕ, ◌+◌, ◌-◌, ◌≡◌, refl, sym, ◌∙◌, ap, ap₂, List, [], ◌∷◌, ◌++◌, map, ltb, u32, u64, length,
  Bool-cases, inl, inr,
}
use mathlib.Core.List.{map-append}
use llvm_mca_daemon.Qemu.{TranslationBlock}
use llvm_mca_daemon.Qemu.Block.{
  Decoder, Decoded, u8, new_block, decode_raw, add_decoded, note_skew, disassemble_loop,
  disassemble_with,
}

-- The offset of an address, in eight bits.
abbrev pub offset_of : ℕ → ℕ → ℕ
offset_of start a = u8 (a + (18446744073709551616 - start))

module _ {Inst : Type 0} where
  HasOffsets : ℕ → TranslationBlock Inst → Type 0
  HasOffsets start tb = tb.vaddr_offsets ≡ map (offset_of start) tb.mc_inst_addrs

  map_offsets :
      (start : ℕ) (ds : List (Decoded Inst))
      → map (λ d. u8 (d.addr + (18446744073709551616 - start))) ds
        ≡ map (offset_of start) (map (λ d. d.addr) ds)
  map_offsets start [] = refl
  map_offsets start (d ∷ ds) = ap (λ l. offset_of start d.addr ∷ l) (map_offsets start ds)

  note_offsets :
      (start idx skew : ℕ) (tb : TranslationBlock Inst)
      → HasOffsets start tb
      → HasOffsets start (note_skew idx skew tb)
  unfolding HasOffsets note_skew
  note_offsets start idx skew tb h = elim (Bool-cases (ltb 0 skew)) [
    | inl e ↦ rw e h
    | inr e ↦ rw e h
  ]

  add_offsets :
      (start : ℕ) (ds : List (Decoded Inst)) (tb : TranslationBlock Inst)
      → HasOffsets start tb
      → HasOffsets start (add_decoded start ds tb)
  unfolding HasOffsets add_decoded
  add_offsets start ds tb h =
      ap₂ ◌++◌ h (map_offsets start ds)
      ∙ sym (map-append (offset_of start) tb.mc_inst_addrs (map (λ (d : Decoded Inst). d.addr) ds))

  loop_offsets :
      (decode : Decoder Inst) (start vaddr idx skew : ℕ) (raws : List (List ℕ))
      (tb : TranslationBlock Inst)
      → HasOffsets start tb
      → HasOffsets start (disassemble_loop decode start vaddr idx skew raws tb)
  unfolding disassemble_loop
  loop_offsets decode start vaddr idx skew [] tb h = h
  loop_offsets decode start vaddr idx skew (raw ∷ raws) tb h =
      let ds = decode_raw decode vaddr 0 0 raw in
      loop_offsets decode start (u64 (vaddr + length raw)) (u32 (idx + 1))
        (u32 (skew + (length ds - 1))) raws _
        (add_offsets start ds _ (note_offsets start idx skew tb h))

  -- The offset that `disassemble` stores for each instruction is the distance of its address from
  -- the start of the block, cut down to 8 bits.
  pub offsets_lem :
      (decode : Decoder Inst) (start : ℕ) (raws : List (List ℕ))
      → (disassemble_with decode start (new_block raws)).vaddr_offsets
        ≡ map (offset_of start) (disassemble_with decode start (new_block raws)).mc_inst_addrs
  unfolding HasOffsets disassemble_with new_block
  offsets_lem decode start raws = loop_offsets decode start start 0 0 raws (new_block raws) refl
