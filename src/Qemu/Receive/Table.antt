-- ===== src/Qemu/Receive/Table.antt =====
-- The table of blocks under the messages: the bytes of each block stay as they were announced.
use llvm_mca_daemon.Prelude.{
  ℕ, zero, suc, ◌+◌, ◌-◌, ◌<◌, ◌≡◌, refl, sym, ◌∙◌, ap, false, ◌||◌, Option, none, some, List, [],
  ◌∷◌, ◌++◌, map, ltb, leb, u32, u64, arith, if◌then◌else◌, length, set, Bool-cases, inl, inr,
}
use llvm_mca_daemon.Qemu.Regions.{BinaryRegions, mark}
use llvm_mca_daemon.Qemu.{returns, TranslationBlock, QemuBroker}
use llvm_mca_daemon.Qemu.Block.{
  Decoder, Target, clear_lsb, is_translated, use_disassembler, start_vaddr, resize_tbs, new_block,
  decode_raw, add_decoded, note_skew, disassemble_loop, disassemble_with,
}
use llvm_mca_daemon.Qemu.Exec.{block_at, regions_in, mark_block, translate}

-- The bytes of each block.
abbrev pub table :
    {Inst : Type 0} → List (Option (TranslationBlock Inst)) → List (Option (List (List ℕ)))
table [] = []
table (none ∷ tbs) = none ∷ table tbs
table (some tb ∷ tbs) = some tb.raw_insts ∷ table tbs

module _ {Inst : Type 0} where
  pub table-set :
      (tbs : List (Option (TranslationBlock Inst))) (i : ℕ) (tb tb' : TranslationBlock Inst)
      → block_at i tbs ≡ some tb
      → tb'.raw_insts ≡ tb.raw_insts
      → table (set tbs i (some tb')) ≡ table tbs
  table-set [] i tb tb' e same = refl
  table-set (none ∷ tbs) zero tb tb' e same = let never = e in cc
  table-set (some x ∷ tbs) zero tb tb' e same =
      let at : x ≡ tb = some_inj e in
      ap (λ r. some r ∷ table tbs) (same ∙ sym (ap (λ b. b.raw_insts) at))
    where
      some_inj : {a b : TranslationBlock Inst} → some a ≡ some b → a ≡ b
      some_inj e = cc
  table-set (none ∷ tbs) (suc i) tb tb' e same = ap (λ l. none ∷ l) (table-set tbs i tb tb' e same)
  table-set (some x ∷ tbs) (suc i) tb tb' e same =
      ap (λ l. some x.raw_insts ∷ l) (table-set tbs i tb tb' e same)

  pub table-block_at :
      (tbs : List (Option (TranslationBlock Inst))) (rs : List (List (List ℕ))) (i : ℕ)
      → table tbs ≡ map some rs
      → i < length rs
      → (tb : TranslationBlock Inst) × (block_at i tbs ≡ some tb)
  table-block_at [] [] i e lt = absurd (omega arith)
  table-block_at [] (r ∷ rs) i e lt = let never = e in cc
  table-block_at (none ∷ tbs) [] i e lt = let never = e in cc
  table-block_at (none ∷ tbs) (r ∷ rs) i e lt = let never = e in cc
  table-block_at (some x ∷ tbs) [] i e lt = let never = e in cc
  table-block_at (some x ∷ tbs) (r ∷ rs) zero e lt = (x, refl)
  table-block_at (some x ∷ tbs) (r ∷ rs) (suc i) e lt =
      table-block_at tbs rs i (tail_eq e) (omega arith)
    where
      tail_eq :
          {a b : Option (List (List ℕ))} {l m : List (Option (List (List ℕ)))}
          → (a ∷ l) ≡ (b ∷ m)
          → l ≡ m
      tail_eq e = cc

  pub length-table : (tbs : List (Option (TranslationBlock Inst))) → length (table tbs) ≡ length tbs
  length-table [] = refl
  length-table (none ∷ tbs) = ap suc (length-table tbs)
  length-table (some tb ∷ tbs) = ap suc (length-table tbs)

  put_last :
      (tbs : List (Option (TranslationBlock Inst))) (o v : Option (TranslationBlock Inst))
      → set (tbs ++ (o ∷ [])) (length tbs) v ≡ tbs ++ (v ∷ [])
  put_last [] o v = refl
  put_last (x ∷ tbs) o v = ap (λ l. x ∷ l) (put_last tbs o v)

  table-append :
      (xs ys : List (Option (TranslationBlock Inst))) → table (xs ++ ys) ≡ table xs ++ table ys
  table-append [] ys = refl
  table-append (none ∷ xs) ys = ap (λ l. none ∷ l) (table-append xs ys)
  table-append (some x ∷ xs) ys = ap (λ l. some x.raw_insts ∷ l) (table-append xs ys)

  pub table-resize_tbs :
      (raws : List (List ℕ)) (tbs : List (Option (TranslationBlock Inst)))
      → table (set (resize_tbs (length tbs + 1) tbs) (length tbs) (some (new_block raws)))
        ≡ table tbs ++ (some raws ∷ [])
  unfolding new_block
  table-resize_tbs raws tbs =
      let longer : leb (length tbs + 1) (length tbs) ≡ false = ground arith in
      let one : length tbs + 1 - length tbs ≡ 1 = omega arith in
      rw (longer, one) (ap table (put_last tbs none (some (new_block raws))) ∙ table-append tbs _)

  loop_raws :
      (decode : Decoder Inst) (start vaddr idx skew : ℕ) (raws : List (List ℕ))
      (tb : TranslationBlock Inst)
      → (disassemble_loop decode start vaddr idx skew raws tb).raw_insts ≡ tb.raw_insts
  unfolding disassemble_loop add_decoded note_skew
  loop_raws decode start vaddr idx skew [] tb = refl
  loop_raws decode start vaddr idx skew (raw ∷ raws) tb =
      let ds = decode_raw decode vaddr 0 0 raw in
      loop_raws decode start (u64 (vaddr + length raw)) (u32 (idx + 1))
        (u32 (skew + (length ds - 1))) raws _
      ∙ noted idx skew tb
    where
      noted :
          (idx skew : ℕ) (tb : TranslationBlock Inst)
          → (note_skew idx skew tb).raw_insts ≡ tb.raw_insts
      noted idx skew tb = elim (Bool-cases (ltb 0 skew)) [ inl e ↦ rw e refl | inr e ↦ rw e refl ]

module _ {Inst Text : Type 0} where
  -- What a translation leaves alone, with the bytes of the block.
  pub record Keeps (tb tb' : TranslationBlock Inst) (s s' : QemuBroker Inst Text) : Type 0 where
    pub raws : tb'.raw_insts ≡ tb.raw_insts
    pub bin_regions : s'.bin_regions ≡ s.bin_regions
    pub tbs : s'.tbs ≡ s.tbs
    pub tb_queue : s'.tb_queue ≡ s.tb_queue
    pub ended : s'.is_end_of_stream ≡ s.is_end_of_stream

  mark_block-Keeps :
      (b : Option (BinaryRegions Text)) (tb : TranslationBlock Inst) (s : QemuBroker Inst Text)
      → Keeps tb (mark_block b tb s).0 s (mark_block b tb s).1
  mark_block-Keeps none tb s = record {
    raws = refl;
    bin_regions = refl;
    tbs = refl;
    tb_queue = refl;
    ended = refl;
  }
  mark_block-Keeps (some b) tb s = record {
    raws = refl;
    bin_regions = refl;
    tbs = refl;
    tb_queue = refl;
    ended = refl;
  }

  pub translate-Keeps :
      (t : Target Inst) (d : Decoder Inst) (pc : ℕ) (tb : TranslationBlock Inst)
      (s : QemuBroker Inst Text)
      → use_disassembler t pc ≡ some d
      → (tb' : TranslationBlock Inst) × (s' : QemuBroker Inst Text) × (translate t pc tb s
          ≡ returns (tb', s'))
        × Keeps tb tb' s s'
  unfolding translate disassemble_with
  translate-Keeps t d pc tb s chosen = elim (Bool-cases (is_translated tb)) [
    | inl e ↦ (
      tb,
      s,
      rw e refl,
      record { raws = refl; bin_regions = refl; tbs = refl; tb_queue = refl; ended = refl },
    )
    | inr e ↦
        let tb1 = disassemble_with d (start_vaddr t pc) (record tb { vaddr = pc }) in
        let tb2 : TranslationBlock Inst = record tb1 {
          vaddr = if t.is_arm || t.is_thumb then clear_lsb tb1.vaddr else tb1.vaddr;
        } in
        let k = mark_block-Keeps (regions_in mark s.bin_regions) tb2 s in
        (
          (mark_block (regions_in mark s.bin_regions) tb2 s).0,
          (mark_block (regions_in mark s.bin_regions) tb2 s).1,
          rw (e, chosen) refl,
          record {
            raws = k.raws ∙ kept d (start_vaddr t pc) (record tb { vaddr = pc });
            bin_regions = k.bin_regions;
            tbs = k.tbs;
            tb_queue = k.tb_queue;
            ended = k.ended;
          },
        )
  ]
    where
      kept :
          (d : Decoder Inst) (start : ℕ) (tb : TranslationBlock Inst)
          → (disassemble_with d start tb).raw_insts ≡ tb.raw_insts
      kept d start tb = loop_raws d start start 0 0 tb.raw_insts tb
