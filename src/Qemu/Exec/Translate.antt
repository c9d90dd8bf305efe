-- ===== src/Qemu/Exec/Translate.antt =====
-- The part of `tbExec` that translates a block.
use llvm_mca_daemon.Prelude.{
  ℕ, ◌≡◌, refl, ◌∙◌, Bool, true, false, ◌||◌, Option, none, some, List, if◌then◌else◌, length,
  length-set, Bool-cases, inl, inr,
}
use llvm_mca_daemon.Qemu.Regions.{BinaryRegions, mark}
use llvm_mca_daemon.Qemu.{returns, TranslationBlock, QemuBroker}
use llvm_mca_daemon.Qemu.Block.{
  Decoder, Target, clear_lsb, is_translated, use_disassembler, start_vaddr, disassemble_with,
}
use llvm_mca_daemon.Qemu.Block.Aligned.{IsAligned, disassemble_with-IsAligned}
use llvm_mca_daemon.Qemu.Exec.{set_mark, index_of, regions_in, mark_block, scan_regions, translate}

length-set_mark : (i : Option ℕ) (bits : List Bool) → length (set_mark i bits) ≡ length bits
length-set_mark none bits = refl
length-set_mark (some i) bits = length-set bits i true

-- The instructions and indices of a block after `tbExec`: those that it has, or those that the
-- disassembler makes of its bytes.
abbrev pub translated :
    {Inst : Type 0} → Target Inst → Decoder Inst → ℕ → TranslationBlock Inst → TranslationBlock Inst
translated t d pc tb =
    if is_translated tb
    then tb
    else disassemble_with d (start_vaddr t pc) (record tb { vaddr = pc })

module _ {Inst Text : Type 0} where
  -- What the translation leaves alone.
  pub record SameQueue (s s' : QemuBroker Inst Text) : Type 0 where
    pub bin_regions : s'.bin_regions ≡ s.bin_regions
    pub code_start : s'.code_start_address ≡ s.code_start_address
    pub tbs : s'.tbs ≡ s.tbs
    pub tb_queue : s'.tb_queue ≡ s.tb_queue
    pub enabled : s'.enable_mem_access_md ≡ s.enable_mem_access_md
    pub traces : s'.total_num_traces ≡ s.total_num_traces

  mark_block_lem :
      (b : Option (BinaryRegions Text)) (tb : TranslationBlock Inst) (s : QemuBroker Inst Text)
      → IsAligned tb
      → IsAligned (mark_block b tb s).0
        × ((mark_block b tb s).0.mc_insts ≡ tb.mc_insts)
        × ((mark_block b tb s).0.skew_indices ≡ tb.skew_indices)
        × SameQueue s (mark_block b tb s).1
  mark_block_lem none tb s al = (
    al,
    refl,
    refl,
    record {
      bin_regions = refl;
      code_start = refl;
      tbs = refl;
      tb_queue = refl;
      enabled = refl;
      traces = refl;
    },
  )
  mark_block_lem (some b) tb s al =
      let h = scan_regions b s.code_start_address s.cur_bin_region tb.vaddr tb.vaddr_offsets in
      (
        record {
          addrs = al.addrs;
          sizes = al.sizes;
          offsets = al.offsets;
          begins = length-set_mark h.begin_at tb.begin_marks ∙ al.begins;
          ends = length-set_mark (index_of h.end_at) tb.end_marks ∙ al.ends;
        },
        refl,
        refl,
        record {
          bin_regions = refl;
          code_start = refl;
          tbs = refl;
          tb_queue = refl;
          enabled = refl;
          traces = refl;
        },
      )

  pub translate_lem :
      (t : Target Inst) (d : Decoder Inst) (pc : ℕ) (tb : TranslationBlock Inst)
      (s : QemuBroker Inst Text)
      → IsAligned tb
      → use_disassembler t pc ≡ some d
      → (tb' : TranslationBlock Inst) × (s' : QemuBroker Inst Text) × (translate t pc tb s
          ≡ returns (tb', s'))
        × IsAligned tb'
        × (tb'.mc_insts ≡ (translated t d pc tb).mc_insts)
        × (tb'.skew_indices ≡ (translated t d pc tb).skew_indices)
        × ((is_translated tb ≡ true) → tb' ≡ tb)
        × SameQueue s s'
  unfolding translate
  translate_lem t d pc tb s al chosen = elim (Bool-cases (is_translated tb)) [
    | inl e ↦ (
      tb,
      s,
      rw e refl,
      al,
      rw e refl,
      rw e refl,
      λ h. refl,
      record {
        bin_regions = refl;
        code_start = refl;
        tbs = refl;
        tb_queue = refl;
        enabled = refl;
        traces = refl;
      },
    )
    | inr e ↦
        let tb1 = disassemble_with d (start_vaddr t pc) (record tb { vaddr = pc }) in
        let al1 =
          disassemble_with-IsAligned d (start_vaddr t pc) (record tb { vaddr = pc })
            (record {
              addrs = al.addrs;
              sizes = al.sizes;
              offsets = al.offsets;
              begins = al.begins;
              ends = al.ends;
            }) in
        let tb2 : TranslationBlock Inst = record tb1 {
          vaddr = if t.is_arm || t.is_thumb then clear_lsb tb1.vaddr else tb1.vaddr;
        } in
        let (al2, insts, skews, same) =
          mark_block_lem (regions_in mark s.bin_regions) tb2 s (record {
            addrs = al1.addrs;
            sizes = al1.sizes;
            offsets = al1.offsets;
            begins = al1.begins;
            ends = al1.ends;
          }) in
        (
          (mark_block (regions_in mark s.bin_regions) tb2 s).0,
          (mark_block (regions_in mark s.bin_regions) tb2 s).1,
          rw (e, chosen) refl,
          al2,
          rw e insts,
          rw e skews,
          λ h. absurd_of e h,
          same,
        )
  ]
    where
      absurd_of : {A : Type 0} {b : Bool} → b ≡ false → b ≡ true → A
      absurd_of e h = cc
