-- ===== src/FetchDelay/Drain.antt =====
-- How many cycles `MCADFetchDelayStage` takes to hand on what its queue holds.
use llvm_mca_daemon.Prelude.{
  ℕ, zero, suc, ◌+◌, ◌-◌, ◌<◌, ◌≡◌, refl, sym, ◌∙◌, true, none, List, [], ◌∷◌, arith, ltb, lt→ltb,
  inl, inr, Bool-cases, ==_iff, ◌==◌,
}
use llvm_mca_daemon.Branch.{BranchPredictor}
use llvm_mca_daemon.FetchDelay.{
  NextStage, DelayedInstr, FetchStage, has_work_to_complete, forward, forward_due_instrs,
  count_down, cycle_start,
}

module _ (next : NextStage) (bpu : BranchPredictor) where
  open next use {Ir, check, move}

  abbrev pub total_delay : List (DelayedInstr next bpu) → ℕ
  total_delay [] = 0
  total_delay (d ∷ q) = d.delay_cycles_left + total_delay q

  -- The front of the queue, if there is one, is not due.
  abbrev pub Settled : List (DelayedInstr next bpu) → Type 0
  Settled [] = Unit {0}
  Settled (d ∷ q) = 0 < d.delay_cycles_left

  -- A number of calls of `cycleStart`.
  abbrev pub cycles : ℕ → FetchStage next bpu → FetchStage next bpu
  cycles zero s = s
  cycles (suc n) s = cycles n (cycle_start next bpu s).0

  counted :
      (q : List (DelayedInstr next bpu))
      → Settled q
      → total_delay (count_down next bpu q) ≡ total_delay q - 1
  unfolding count_down
  counted [] h = refl
  counted (d ∷ q) h = ground arith

  module _ (accepts : (b : next.State) (ir : Ir) → check b ir ≡ true)
      (no_error : (b : next.State) (ir : Ir) → (move b ir).1 ≡ none) where
    forward_settles :
        (b : next.State) (q : List (DelayedInstr next bpu))
        → Settled (forward next bpu b q).1 × (total_delay (forward next bpu b q).1 ≡ total_delay q)
    unfolding forward
    forward_settles b [] = (tt, refl)
    forward_settles b (d ∷ q) = elim (Bool-cases (d.delay_cycles_left == 0)) [
      | inl due ↦
          let (settled, total) = forward_settles (move b d.ir).0 q in
          rw (due, accepts b d.ir, no_error b d.ir, forward)
            (settled, omega (arith, total, (==_iff d.delay_cycles_left 0).0 due))
      | inr not_due ↦ rw (not_due, forward) (ground arith, refl)
    ]

    cycle_step :
        (s : FetchStage next bpu)
        → Settled s.instr_queue
        → Settled (cycle_start next bpu s).0.instr_queue
          × (total_delay (cycle_start next bpu s).0.instr_queue ≡ total_delay s.instr_queue - 1)
    unfolding cycle_start forward_due_instrs
    cycle_step s h =
        let (settled, total) = forward_settles s.behind (count_down next bpu s.instr_queue) in
        (settled, total ∙ counted s.instr_queue h)

    work_of_Settled :
        (q : List (DelayedInstr next bpu)) (s : FetchStage next bpu)
        → s.instr_queue ≡ q
        → Settled q
        → has_work_to_complete next bpu s ≡ ltb 0 (total_delay q)
    unfolding has_work_to_complete
    work_of_Settled [] s e h = rw e refl
    work_of_Settled (d ∷ q) s e h = rw e (sym (lt→ltb 0 _ (omega arith)))

    -- Before a stage that accepts every instruction without an error, and with a front of the queue
    -- that is not due yet: after `n` calls of `cycleStart` there is work left exactly if `n` is
    -- less than the sum of the delays in the queue.
    pub cycles_drain :
        (n : ℕ) (s : FetchStage next bpu)
        → Settled s.instr_queue
        → has_work_to_complete next bpu (cycles n s) ≡ ltb n (total_delay s.instr_queue)
    cycles_drain zero s h = work_of_Settled s.instr_queue s refl h
    cycles_drain (suc n) s h =
        let (settled, total) = cycle_step s h in
        cycles_drain n (cycle_start next bpu s).0 settled ∙ (rw total (ground arith))
