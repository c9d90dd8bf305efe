-- ===== src/FetchDelay/Order.antt =====
-- The order in which `MCADFetchDelayStage` hands instructions on.
use llvm_mca_daemon.Prelude.{
  ℕ, zero, suc, ◌<◌, ◌≡◌, ◌⊎◌, inl, inr, refl, sym, ap, subst, ◌∙◌, Bool, true, false, ◌&&◌, Option,
  none, some, List, [], ◌∷◌, ◌++◌, arith, ◌==◌, Bool-cases, Option-cases,
}
use llvm_mca_daemon.Metadata.{InstrAddr}
use llvm_mca_daemon.Branch.{BranchPredictor}
use llvm_mca_daemon.Metadata.Registry.{get_md_instr_addr}
use llvm_mca_daemon.FetchDelay.Parts.{load_latency}
use llvm_mca_daemon.FetchDelay.Delay.{enqueue_lem}
use llvm_mca_daemon.FetchDelay.{
  found_addr, NextStage, DelayedInstr, FetchStage, forward, forward_due_instrs, execute, count_down,
  cycle_start,
}

held : (n : ℕ) (b : Bool) → (n == 0 && b) ≡ false → (0 < n) ⊎ (b ≡ false)
held zero b h = inr h
held (suc n) b h = inl (omega arith)

ready_of : (n : ℕ) (b : Bool) → (n == 0 && b) ≡ true → (n ≡ 0) × (b ≡ true)
ready_of n b h = ground arith

module _ (next : NextStage) (bpu : BranchPredictor) where
  open next use {Ir, Error, check, move}

  -- The stage behind takes the instructions of a list one after the other, each of them due, and
  -- reports no error: from which state, the list, and the state after.
  abbrev pub Moved : next.State → List (DelayedInstr next bpu) → next.State → Type 0
  Moved b [] b' = b ≡ b'
  Moved b (d ∷ ds) b' =
      (d.delay_cycles_left ≡ 0)
      × (check b d.ir ≡ true)
      × ((move b d.ir).1 ≡ none)
      × Moved (move b d.ir).0 ds b'

  -- Why the loop ends with a queue left: the queue is empty, its front is not due or not accepted, or
  -- the stage behind reported an error for it.
  abbrev pub Halted : next.State → List (DelayedInstr next bpu) → next.State → Option Error → Type 0
  Halted b [] b' e = (b ≡ b') × (e ≡ none)
  Halted b (d ∷ q) b' none = (b ≡ b') × ((0 < d.delay_cycles_left) ⊎ (check b d.ir ≡ false))
  Halted b (d ∷ q) b' (some e) =
      (d.delay_cycles_left ≡ 0) × (check b d.ir ≡ true) × (move b d.ir ≡ (b', some e))

  forward_lem :
      (b : next.State) (q : List (DelayedInstr next bpu))
      → (sent : List (DelayedInstr next bpu)) × (mid : next.State) × (q
          ≡ sent ++ (forward next bpu b q).1)
        × Moved b sent mid
        × Halted mid (forward next bpu b q).1 (forward next bpu b q).0 (forward next bpu b q).2
  unfolding forward
  forward_lem b [] = ([], b, refl, refl, (refl, refl))
  forward_lem b (d ∷ q) = elim (Bool-cases (d.delay_cycles_left == 0 && check b d.ir)) [
    | inr stop ↦
        rw (stop, forward) ([], b, refl, refl, (refl, held d.delay_cycles_left (check b d.ir) stop))
    | inl go ↦
        let (due, ready) = ready_of d.delay_cycles_left (check b d.ir) go in
        elim (Option-cases (move b d.ir).1) [
          | inr (e, failed) ↦
              rw (go, failed, forward) ([], b, refl, refl, (due, ready, rw failed refl))
          | inl ok ↦
              let (sent, mid, eq, moved, halted) = forward_lem (move b d.ir).0 q in
              rw (go, ok, forward)
                (d ∷ sent, mid, ap (λ l. d ∷ l) eq, (due, ready, ok, moved), halted)
        ]
  ]

  forward_due_lem :
      (s : FetchStage next bpu)
      → (sent : List (DelayedInstr next bpu)) × (mid : next.State) × (s.instr_queue
          ≡ sent ++ (forward_due_instrs next bpu s).0.instr_queue)
        × Moved s.behind sent mid
        × Halted mid
            (forward_due_instrs next bpu s).0.instr_queue
            (forward_due_instrs next bpu s).0.behind
            (forward_due_instrs next bpu s).1
  unfolding forward_due_instrs
  forward_due_lem s = forward_lem s.behind s.instr_queue

  -- `execute` returns for an instruction whose address is found in the registry, or absent there,
  -- and whose load from the instruction cache returns. Of the queue with the instruction at its end
  -- it hands a front part to the stage behind, in order, each instruction due and accepted and
  -- without an error, and keeps the rest. It stops at the end of the queue, at the first
  -- instruction that is not due or not accepted, or at an error, whose instruction it keeps.
  pub execute_in_order :
      (s : FetchStage next bpu) (ir : Ir) (addr : Option InstrAddr) (n : ℕ)
      → found_addr (get_md_instr_addr (next.identifier ir) s.registry).1 ≡ some addr
      → load_latency s.cache addr ≡ some n
      → (s' : FetchStage next bpu) × (e : Option Error) × (d : DelayedInstr next bpu) × (sent : List
          (DelayedInstr next bpu))
        × (mid : next.State) × (execute next bpu s ir ≡ some (s', e))
        × (d.ir ≡ ir)
        × (s.instr_queue ++ (d ∷ []) ≡ sent ++ s'.instr_queue)
        × Moved s.behind sent mid
        × Halted mid s'.instr_queue s'.behind e
  unfolding execute
  execute_in_order s ir addr n a l =
      let (s1, made, enq) = enqueue_lem next bpu s ir addr n a l in
      let (sent, mid, eq, moved, halted) = forward_due_lem s1 in
      (
        (forward_due_instrs next bpu s1).0,
        (forward_due_instrs next bpu s1).1,
        _,
        sent,
        mid,
        rw made refl,
        refl,
        sym enq.queue ∙ eq,
        subst (λ b. Moved b sent mid) enq.back moved,
        halted,
      )

  -- `cycleStart` takes a cycle off the front of the queue, if it has one left, hands a front part
  -- of the queue on in order, each instruction due and accepted and without an error, and keeps the
  -- rest. It stops at the end of the queue, at the first instruction that is not due or not
  -- accepted, or at an error, whose instruction it keeps.
  pub cycle_start_in_order :
      (s : FetchStage next bpu)
      → (sent : List (DelayedInstr next bpu)) × (mid : next.State) × (count_down next bpu
            s.instr_queue
          ≡ sent ++ (cycle_start next bpu s).0.instr_queue)
        × Moved s.behind sent mid
        × Halted mid
            (cycle_start next bpu s).0.instr_queue
            (cycle_start next bpu s).0.behind
            (cycle_start next bpu s).1
  unfolding cycle_start
  cycle_start_in_order s =
      forward_due_lem (record s { instr_queue = count_down next bpu s.instr_queue })
