-- ===== src/Qemu/Exec/Queue.antt =====
-- An executed block joins the program in the queue.
use llvm_mca_daemon.Prelude.{
  ℕ, zero, suc, ◌<◌, ◌≤◌, ◌≡◌, ◌≢◌, refl, sym, ◌∙◌, ap, ap₂, subst, ◌⊎◌, inl, inr, Bool, true,
  false, ◌&&◌, Option, none, some, List, [], ◌∷◌, ◌++◌, append-nil, append_assoc, ◌==◌, arith,
  length, get_elem?, set, get_elem?-set_self, get_elem?-set_ne, lt-of_get_elem?, between, All,
  Bool-cases, Option-cases,
}
use llvm_mca_daemon.Prelude.Assoc.{Assoc}
use llvm_mca_daemon.Qemu.Regions.{trim}
use llvm_mca_daemon.Qemu.{returns, TranslationBlock, TbSlice, QemuBroker}
use llvm_mca_daemon.Qemu.Block.{Decoder, Target, is_translated, use_disassembler}
use llvm_mca_daemon.Qemu.Block.Aligned.{IsAligned}
use llvm_mca_daemon.Qemu.Exec.{
  FbAccess, ExecTb, block_at, put_block, regions_in, chain_of, enqueue_slice, tb_exec,
}
use llvm_mca_daemon.Qemu.Exec.Chain.{IsOrdered, take_accesses_lem}
use llvm_mca_daemon.Qemu.Exec.Translate.{translated, translate_lem}
use llvm_mca_daemon.Qemu.Fetch.{chain_or_empty}
use llvm_mca_daemon.Qemu.Fetch.Emit.{IsChain}
use llvm_mca_daemon.Qemu.Fetch.Pending.{
  insts_of, steps, finished, program, Fits, IsExact, AllExact, IsReady,
}

between_all : {A : Type 0} (e : ℕ) (xs : List A) → length xs ≤ e → between 0 e xs ≡ xs
between_all zero [] h = refl
between_all zero (x ∷ xs) h = absurd (omega arith)
between_all (suc e) [] h = refl
between_all (suc e) (x ∷ xs) h = ap (λ l. x ∷ l) (between_all e xs (omega arith))

module _ {Inst : Type 0} where
  block_at-some :
      (i : ℕ) (tbs : List (Option (TranslationBlock Inst))) (tb : TranslationBlock Inst)
      → block_at i tbs ≡ some tb
      → get_elem? tbs i ≡ some (some tb)
  block_at-some i tbs tb h = elim (Option-cases (get_elem? tbs i)) [
    | inl e ↦ ground (arith, h, e)
    | inr (o, e) ↦ elim (Option-cases o) [
      | inl n ↦ ground (arith, h, e, n)
      | inr (tb', n) ↦ ground (arith, h, e, n)
    ]
  ]

  block_at-set_self :
      (i : ℕ) (tbs : List (Option (TranslationBlock Inst))) (tb tb' : TranslationBlock Inst)
      → block_at i tbs ≡ some tb
      → block_at i (set tbs i (some tb')) ≡ some tb'
  block_at-set_self i tbs tb tb' h =
      rw
        (
          get_elem?-set_self tbs i (some tb')
              (lt-of_get_elem? tbs i (some tb) (block_at-some i tbs tb h)),
          block_at,
        )
        refl

  block_at-set_ne :
      (i j : ℕ) (tbs : List (Option (TranslationBlock Inst))) (tb' : TranslationBlock Inst)
      → i ≢ j
      → block_at j (set tbs i (some tb')) ≡ block_at j tbs
  block_at-set_ne i j tbs tb' ne = rw (get_elem?-set_ne tbs i j (some tb') ne, block_at) refl

module _ {Inst Text : Type 0} where
  -- The slices of the queue are of other blocks, or the block is as it was.
  abbrev pub Keeps :
      ℕ → TranslationBlock Inst → TranslationBlock Inst → List (TbSlice Text) → Type 0
  Keeps i tb tb' q = (tb' ≡ tb) ⊎ All (λ c. i ≢ c.index) q

  module _ (tbs : List (Option (TranslationBlock Inst))) (i : ℕ) (tb tb' : TranslationBlock Inst)
      (found : block_at i tbs ≡ some tb) where
    kept_block :
        (c : TbSlice Text)
        → ((tb' ≡ tb) ⊎ (i ≢ c.index))
        → block_at c.index (set tbs i (some tb')) ≡ block_at c.index tbs
    kept_block c (inr ne) = block_at-set_ne i c.index tbs tb' ne
    kept_block c (inl same) = elim (Bool-cases (i == c.index)) [
      | inl e ↦
          let at : c.index ≡ i = ground (arith, e) in
          rw at (block_at-set_self i tbs tb tb' found ∙ ap some same ∙ sym found)
      | inr e ↦ block_at-set_ne i c.index tbs tb' (ground (arith, e))
    ]

    kept_insts :
        (c : TbSlice Text)
        → ((tb' ≡ tb) ⊎ (i ≢ c.index))
        → insts_of (set tbs i (some tb')) c ≡ insts_of tbs c
    kept_insts c k = rw (kept_block c k, insts_of) refl

    kept-Fits :
        (size : ℕ) (c : TbSlice Text)
        → ((tb' ≡ tb) ⊎ (i ≢ c.index))
        → (f : Fits tbs size c)
        → (f' : Fits (set tbs i (some tb')) size c) × (IsExact tbs f
            → IsExact (set tbs i (some tb')) f')
    kept-Fits size c k f = (
      record {
        block = f.block;
        at_index = kept_block c k ∙ f.at_index;
        aligned = f.aligned;
        ordered = f.ordered;
        in_block = f.in_block;
        word = f.word;
        chain = f.chain;
        short = f.short;
      },
      λ e. e,
    )

    one_kept :
        (c : TbSlice Text) (q : List (TbSlice Text))
        → Keeps i tb tb' (c ∷ q)
        → (tb' ≡ tb) ⊎ (i ≢ c.index)
    one_kept c q (inl e) = inl e
    one_kept c q (inr h) = inr h.0

    others_kept :
        (c : TbSlice Text) (q : List (TbSlice Text)) → Keeps i tb tb' (c ∷ q) → Keeps i tb tb' q
    others_kept c q (inl e) = inl e
    others_kept c q (inr h) = inr h.1

    kept_program :
        (q : List (TbSlice Text))
        → Keeps i tb tb' q
        → program (set tbs i (some tb')) q ≡ program tbs q
    kept_program [] k = refl
    kept_program (c ∷ q) k =
        ap₂ (λ is p. (steps tbs is ++ finished tbs c.region) ++ p) (kept_insts c (one_kept c q k))
          (kept_program q (others_kept c q k))

    kept-AllExact :
        (size : ℕ) (q : List (TbSlice Text))
        → Keeps i tb tb' q
        → AllExact tbs size q
        → AllExact (set tbs i (some tb')) size q
    kept-AllExact size [] k h = tt
    kept-AllExact size (c ∷ q) k h =
        let (f, exact) = kept-Fits size c (one_kept c q k) h.0.0 in
        ((f, exact h.0.1), kept-AllExact size q (others_kept c q k) h.1)

    kept-IsReady :
        (size : ℕ) (q : List (TbSlice Text))
        → Keeps i tb tb' q
        → IsReady tbs size q
        → IsReady (set tbs i (some tb')) size q
    kept-IsReady size [] k h = tt
    kept-IsReady size (c ∷ q) k h =
        ((kept-Fits size c (one_kept c q k) h.0).0, kept-AllExact size q (others_kept c q k) h.1)

module _ {Inst Text : Type 0} (tbs : List (Option (TranslationBlock Inst))) where
  program-append :
      (q : List (TbSlice Text)) (c : TbSlice Text)
      → program tbs (q ++ (c ∷ []))
        ≡ program tbs q ++ (steps tbs (insts_of tbs c) ++ finished tbs c.region)
  program-append [] c = append-nil _
  program-append (d ∷ q) c =
      ap (λ p. (steps tbs (insts_of tbs d) ++ finished tbs d.region) ++ p) (program-append q c)
      ∙ sym (append_assoc (steps tbs (insts_of tbs d) ++ finished tbs d.region) _ _)

  AllExact-append :
      (size : ℕ) (q : List (TbSlice Text)) (c : TbSlice Text) (f : Fits tbs size c)
      → IsExact tbs f
      → AllExact tbs size q
      → AllExact tbs size (q ++ (c ∷ []))
  AllExact-append size [] c f e h = ((f, e), tt)
  AllExact-append size (d ∷ q) c f e h = (h.0, AllExact-append size q c f e h.1)

  IsReady-append :
      (size : ℕ) (q : List (TbSlice Text)) (c : TbSlice Text) (f : Fits tbs size c)
      → IsExact tbs f
      → IsReady tbs size q
      → IsReady tbs size (q ++ (c ∷ []))
  IsReady-append size [] c f e h = (f, tt)
  IsReady-append size (d ∷ q) c f e h = (h.0, AllExact-append size q c f e h.1)

chain_of-IsChain :
    (enabled : Bool) (skews : Assoc ℕ) (as' : List FbAccess)
    → IsOrdered skews 0 as'
    → IsChain 0 (chain_or_empty (chain_of enabled skews 0 65535 as'))
chain_of-IsChain enabled skews [] h = tt
chain_of-IsChain true skews (a ∷ as') h =
    (take_accesses_lem skews 0 65535 0 (a ∷ as') [] h tt tt tt).0
chain_of-IsChain false skews (a ∷ as') h = tt

module _ {Inst Text : Type 0} where
  -- The broker after the block was executed: the program with its instructions.
  pub record Executed (size : ℕ) (insts : List Inst) (s s' : QemuBroker Inst Text) : Type 0 where
    pub program_grows : program s'.tbs s'.tb_queue ≡ program s.tbs s.tb_queue ++ steps s'.tbs insts
    pub ready : IsReady s'.tbs size s'.tb_queue
    pub traces : s'.total_num_traces ≡ s.total_num_traces

  -- For an executed block that is no end signal, whose index is in the table, whose disassembler is
  -- there, whose accesses come in order and that is no longer than a batch nor 2 ^ 16 instructions,
  -- outside of the trimming mode, and where no slice is queued of a block that is translated only
  -- now: `tbExec` returns, the program that the queue stands for grows by the instructions of the
  -- translated block, and the queue stays one that `fetchRegion` reads in full.
  pub tb_exec_lem :
      (t : Target Inst) (d : Decoder Inst) (e : ExecTb) (size : ℕ) (tb : TranslationBlock Inst)
      (s : QemuBroker Inst Text)
      → (e.index == 4294967295 && e.pc == 18446744073709551615) ≡ false
      → block_at e.index s.tbs ≡ some tb
      → IsAligned tb
      → use_disassembler t e.pc ≡ some d
      → regions_in trim s.bin_regions ≡ none
      → IsOrdered (translated t d e.pc tb).skew_indices 0 e.mem_accesses
      → length (translated t d e.pc tb).mc_insts ≤ size
      → length (translated t d e.pc tb).mc_insts < 65536
      → (is_translated tb ≡ true) ⊎ All (λ c. e.index ≢ c.index) s.tb_queue
      → IsReady s.tbs size s.tb_queue
      → (s' : QemuBroker Inst Text) × (tb_exec t e s ≡ returns s')
        × Executed size (translated t d e.pc tb).mc_insts s s'
  unfolding tb_exec enqueue_slice
  tb_exec_lem t d e size tb s go found al chosen untrimmed ordered short word fresh ready =
      let (tb', s1, trans, al', insts, skews, same_block, same) =
        translate_lem t d e.pc tb s al chosen in
      let tbs' = set s.tbs e.index (some tb') in
      let c : TbSlice Text = record {
        index = e.index;
        begin_idx = 0;
        end_idx = 65535;
        region = none;
        memory_accesses = chain_of s1.enable_mem_access_md tb'.skew_indices 0 65535 e.mem_accesses;
      } in
      let keeps : Keeps e.index tb tb' s.tb_queue = elim fresh [
        | inl h ↦ inl (same_block h)
        | inr h ↦ inr h
      ] in
      let at = block_at-set_self e.index s.tbs tb tb' found in
      let f : Fits tbs' size c = record {
        block = tb';
        at_index = at;
        aligned = al';
        ordered = omega arith;
        in_block = omega arith;
        word = omega arith;
        chain =
            chain_of-IsChain s1.enable_mem_access_md tb'.skew_indices e.mem_accesses
              (subst (λ m. IsOrdered m 0 e.mem_accesses) (sym skews) ordered);
        short = omega (arith, ap length insts, short);
      } in
      let whole : insts_of tbs' c ≡ (translated t d e.pc tb).mc_insts =
        (rw (at, insts_of) (between_all 65535 tb'.mc_insts (omega (arith, ap length insts, word))))
        ∙ insts in
      let kept = kept_program s.tbs e.index tb tb' found s.tb_queue keeps in
      let s' = enqueue_slice e.index e.mem_accesses tb' (put_block e.index tb' s1) in
      let untrimmed1 : regions_in trim s1.bin_regions ≡ none =
        ap (regions_in trim) same.bin_regions ∙ untrimmed in
      let tbs_at : s'.tbs ≡ tbs' = rw untrimmed1 (ap (λ m. set m e.index (some tb')) same.tbs) in
      let queue_at : s'.tb_queue ≡ s.tb_queue ++ (c ∷ []) =
        rw untrimmed1 (ap (λ q. q ++ (c ∷ [])) same.tb_queue) in
      let ready' =
        IsReady-append tbs' size s.tb_queue c f (inl refl)
          (kept-IsReady s.tbs e.index tb tb' found size s.tb_queue keeps ready) in
      (
        s',
        rw (go, found, trans) refl,
        record {
          program_grows =
              ap₂ (λ (m : List (Option (TranslationBlock Inst))) q. program m q) tbs_at queue_at
              ∙ program-append tbs' s.tb_queue c
              ∙ ap₂ (λ p is. p ++ (steps tbs' is ++ [])) kept whole
              ∙ ap (λ l. program s.tbs s.tb_queue ++ l) (append-nil _);
          ready =
              subst (λ m. IsReady m size s'.tb_queue) (sym tbs_at)
                (subst (IsReady tbs' size) (sym queue_at) ready');
          traces = rw untrimmed1 same.traces;
        },
      )
