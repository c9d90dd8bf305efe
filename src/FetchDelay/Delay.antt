-- ===== src/FetchDelay/Delay.antt =====
-- The delay that `MCADFetchDelayStage::execute` gives an instruction, and what it counts.
use llvm_mca_daemon.Prelude.{ap, ℕ, ◌≡◌, refl, ◌∙◌, Bool, Option, some, [], ◌∷◌, ◌++◌, ltb}
use llvm_mca_daemon.Metadata.{InstrAddr}
use llvm_mca_daemon.Metadata.Registry.{get_md_instr_addr}
use llvm_mca_daemon.Branch.{BranchPredictor}
use llvm_mca_daemon.FetchDelay.{
  NextStage, FetchStage, found_addr, fetch_addr, model_branch, cap_delay, push_delayed, enqueue,
}
use llvm_mca_daemon.FetchDelay.Parts.{
  load_latency, limit, excess, inc_if, verdict, penalty_of, full_delay, branches_after,
  mispredictions_after, branches_after_same, mispredictions_after_same, model_branch_lem,
  fetch_load_lem, cap_delay_lem,
}
use llvm_mca_daemon.FetchDelay.Foresight.{foresight, foresight_lem}

module _ (next : NextStage) (bpu : BranchPredictor) where
  open next use {Ir, identifier}

  -- The instruction behind the others, with its delay, and the counts, for a load of `n` cycles and
  -- the verdict next bpu `v` on the last branch.
  pub record Enqueued (s : FetchStage next bpu) (ir : Ir) (addr : Option InstrAddr) (n : ℕ)
      (v : Option Bool) (s' : FetchStage next bpu) : Type 0 where
    pub queue :
        s'.instr_queue
        ≡ s.instr_queue
          ++ (record {
            delay_cycles_left =
                limit s.max_stall (full_delay next bpu v n (penalty_of next bpu s.predictor));
            ir = ir;
          }
              ∷ [])
    pub back : s'.behind ≡ s.behind
    pub previous : s'.previous_addr ≡ addr
    pub skipped :
        s'.stats.num_skipped_delay_cycles
        ≡ inc_if
            (ltb 0 (excess s.max_stall (full_delay next bpu v n (penalty_of next bpu s.predictor))))
            s.stats.num_skipped_delay_cycles
            (excess s.max_stall (full_delay next bpu v n (penalty_of next bpu s.predictor)))
    pub branches : s'.stats.num_branches ≡ branches_after next bpu v s.stats
    pub wrongs : s'.stats.num_mispredictions ≡ mispredictions_after next bpu v s.stats
    pub predictor :
        s'.predictor
        ≡ (foresight next bpu s.predictor s.enable_branch_predictor s.predicted_direction addr
            s.previous_addr
            (next.is_branch ir)).0
    pub predicted :
        s'.predicted_direction
        ≡ (foresight next bpu s.predictor s.enable_branch_predictor s.predicted_direction addr
            s.previous_addr
            (next.is_branch ir)).1

  -- For an instruction whose address is found in the registry, or absent there, and whose load from
  -- the instruction cache returns, `execute` puts the instruction at the end of the queue before it
  -- hands anything on. Its delay is the latency of the load and, where a branch before it was
  -- mispredicted, the penalty of the predictor, cut down to the limit of simulated stall cycles.
  -- The cycles above the limit, the branch and the misprediction are counted, the predictor is told
  -- of the branch, and the direction that is remembered is the prediction for this instruction, or
  -- none if it is no branch with an address. Without a predictor, or with its modelling off, there
  -- is no penalty, nothing is counted for branches, and the predictor and the direction stay as
  -- they are.
  pub enqueue_lem :
      (s : FetchStage next bpu) (ir : Ir) (addr : Option InstrAddr) (n : ℕ)
      → found_addr (get_md_instr_addr (identifier ir) s.registry).1 ≡ some addr
      → load_latency s.cache addr ≡ some n
      → (s' : FetchStage next bpu) × (enqueue next bpu s ir ≡ some s')
        × (Enqueued s ir addr n
            (verdict next bpu s.predictor s.enable_branch_predictor s.predicted_direction addr
              s.previous_addr)
            s')
  unfolding enqueue fetch_addr push_delayed
  enqueue_lem s ir addr n a e =
      let r = get_md_instr_addr (identifier ir) s.registry in
      let (s2, loaded, l) =
        fetch_load_lem next bpu s.cache addr n (record s { registry = r.0 }) e in
      let j = model_branch_lem next bpu s2.predictor s2.enable_branch_predictor addr ir n s2 in
      let m = model_branch next bpu s2.predictor s2.enable_branch_predictor addr ir n s2 in
      let (d, k, q, b, br, wr, pd, dir) = cap_delay_lem next bpu m.1.max_stall m.0 m.1 in
      let c = cap_delay next bpu m.1.max_stall m.0 m.1 in
      let v_eq : verdict next bpu s2.predictor s2.enable_branch_predictor s2.predicted_direction
            addr s2.previous_addr
          ≡ verdict next bpu s.predictor s.enable_branch_predictor s.predicted_direction addr
              s.previous_addr =
        rw (l.predictor, l.enabled, l.predicted, l.previous) refl in
      let full : m.0
          ≡ full_delay next bpu
              (verdict next bpu s.predictor s.enable_branch_predictor s.predicted_direction addr
                s.previous_addr)
              n (penalty_of next bpu s.predictor) =
        j.delay ∙ (rw (v_eq, l.predictor) refl) in
      let (told, seen) =
        foresight_lem next bpu s2.predictor s2.enable_branch_predictor addr ir n s2 refl in
      let f_eq : foresight next bpu s2.predictor s2.enable_branch_predictor s2.predicted_direction
            addr s2.previous_addr (next.is_branch ir)
          ≡ foresight next bpu s.predictor s.enable_branch_predictor s.predicted_direction addr
              s.previous_addr (next.is_branch ir) =
        rw (l.predictor, l.enabled, l.predicted, l.previous) refl in
      let stall : m.1.max_stall ≡ s.max_stall = j.same.stall ∙ l.same.stall in
      (
        push_delayed next bpu addr ir c.0 c.1,
        rw (a, loaded) refl,
        record {
          queue = rw (q, j.same.queue, l.same.queue, d, stall, full) refl;
          back = b ∙ j.same.back ∙ l.same.back;
          previous = refl;
          skipped = k ∙ (rw (stall, full, j.same.skipped, l.same.skipped) refl);
          branches =
              br
              ∙ j.branches
              ∙ (rw v_eq (branches_after_same next bpu _ s.stats s2.stats l.branches));
          wrongs =
              wr
              ∙ j.wrongs
              ∙ (rw v_eq (mispredictions_after_same next bpu _ s.stats s2.stats l.wrongs));
          predictor = pd ∙ told ∙ ap (λ f. f.0) f_eq;
          predicted = dir ∙ seen ∙ ap (λ f. f.1) f_eq;
        },
      )
