-- ===== src/FetchDelay/Parts.antt =====
-- The parts of `MCADFetchDelayStage::execute`: what each adds to the delay, counts, and keeps.
use llvm_mca_daemon.Prelude.{
  >>=-eq-some, subst, ℕ, ◌+◌, ◌-◌, ◌≡◌, refl, ap, ◌∙◌, min, Bool, true, false, not, Option, none,
  some, arith, ltb, u32, u64, ◌==◌, if◌then◌else◌, ◌>>=◌,
}
use llvm_mca_daemon.Statistics.{OverflowableCount, inc}
use llvm_mca_daemon.Metadata.{InstrAddr}
use llvm_mca_daemon.Cache.{Level, load}
use llvm_mca_daemon.Branch.{BranchDirection, taken, not_taken, direction_eq, BranchPredictor}
use llvm_mca_daemon.FetchDelay.{
  NextStage, FetchStats, FetchStage, fetch_load, actual_direction, resolve, resolve_branch,
  predict_next, model_branch, cap_delay,
}

abbrev pub limit : Option ℕ → ℕ → ℕ
limit none n = n
limit (some m) n = min m n

-- The cycles above the limit.
abbrev pub excess : Option ℕ → ℕ → ℕ
excess none n = 0
excess (some m) n = n - m

abbrev pub inc_if : Bool → OverflowableCount → ℕ → OverflowableCount
inc_if b c n = if b then inc c n else c

-- The cycles of the fetch: those of the cache, for an instruction with an address.
abbrev pub load_latency : Option Level → Option InstrAddr → Option ℕ
load_latency (some c) (some ia) = load c ia >>= λ r. some (u32 r.0)
load_latency (some c) none = some 0
load_latency none addr = some 0

zero_of : {n : ℕ} → some 0 ≡ some n → 0 ≡ n
zero_of e = cc e

module _ (next : NextStage) (bpu : BranchPredictor) where
  open next use {Ir, identifier}

  -- Whether a branch is resolved at an instruction, and whether its prediction was wrong: there is a
  -- predictor and modelling is on, the instruction before was predicted and had an address, and this
  -- one has one.
  abbrev pub verdict :
      Option bpu.State
      → Bool
      → Option BranchDirection
      → Option InstrAddr
      → Option InstrAddr
      → Option Bool
  verdict (some p) true (some predicted) (some ia) (some previous) = some (
      not (
        direction_eq (if ia.addr == u64 (previous.addr + previous.size) then not_taken else taken)
          predicted))
  verdict _ _ _ _ _ = none

  abbrev pub penalty_of : Option bpu.State → ℕ
  penalty_of none = 0
  penalty_of (some p) = bpu.misprediction_penalty p

  -- The delay before the limit: the load, and the penalty of a wrong prediction.
  abbrev pub full_delay : Option Bool → ℕ → ℕ → ℕ
  full_delay none n penalty = n
  full_delay (some wrong) n penalty = if wrong then u32 (n + penalty) else n

  abbrev pub branches_after : Option Bool → FetchStats → OverflowableCount
  branches_after none t = t.num_branches
  branches_after (some wrong) t = inc t.num_branches 1

  abbrev pub mispredictions_after : Option Bool → FetchStats → OverflowableCount
  mispredictions_after none t = t.num_mispredictions
  mispredictions_after (some wrong) t =
      if wrong then inc t.num_mispredictions 1 else t.num_mispredictions

  pub branches_after_same :
      (v : Option Bool) (t t' : FetchStats)
      → t'.num_branches ≡ t.num_branches
      → branches_after v t' ≡ branches_after v t
  branches_after_same none t t' e = e
  branches_after_same (some wrong) t t' e = ap (λ c. inc c 1) e

  pub mispredictions_after_same :
      (v : Option Bool) (t t' : FetchStats)
      → t'.num_mispredictions ≡ t.num_mispredictions
      → mispredictions_after v t' ≡ mispredictions_after v t
  mispredictions_after_same none t t' e = e
  mispredictions_after_same (some true) t t' e = ap (λ c. inc c 1) e
  mispredictions_after_same (some false) t t' e = e

  -- What a step of `enqueue` keeps.
  pub record Same (s s' : FetchStage next bpu) : Type 0 where
    pub queue : s'.instr_queue ≡ s.instr_queue
    pub back : s'.behind ≡ s.behind
    pub stall : s'.max_stall ≡ s.max_stall
    pub skipped : s'.stats.num_skipped_delay_cycles ≡ s.stats.num_skipped_delay_cycles

  -- What the branch model adds and counts.
  pub record Judged (v : Option Bool) (n penalty : ℕ) (s s' : FetchStage next bpu) (n' : ℕ)
      : Type 0 where
    pub same : Same s s'
    pub delay : n' ≡ full_delay v n penalty
    pub branches : s'.stats.num_branches ≡ branches_after v s.stats
    pub wrongs : s'.stats.num_mispredictions ≡ mispredictions_after v s.stats

  Same-refl : (s : FetchStage next bpu) → Same s s
  Same-refl s = record { queue = refl; back = refl; stall = refl; skipped = refl }

  resolve_branch_lem :
      (predicted : Option BranchDirection) (addr previous : Option InstrAddr) (p : bpu.State)
      (n : ℕ) (s : FetchStage next bpu)
      → (let r = resolve_branch next bpu predicted addr previous p n s in
          Judged
            (verdict (some p) true predicted addr previous)
            n
            (bpu.misprediction_penalty p)
            s
            r.1
            r.0)
  unfolding resolve_branch resolve
  resolve_branch_lem (some predicted) (some ia) (some previous) p n s = record {
    same = record { queue = refl; back = refl; stall = refl; skipped = refl };
    delay =
        rw (bpu.misprediction_penalty-record p previous (actual_direction next bpu previous ia))
          refl;
    branches = refl;
    wrongs = refl;
  }
  resolve_branch_lem (some predicted) (some ia) none p n s = record {
    same = Same-refl s;
    delay = refl;
    branches = refl;
    wrongs = refl;
  }
  resolve_branch_lem (some predicted) none previous p n s = record {
    same = Same-refl s;
    delay = refl;
    branches = refl;
    wrongs = refl;
  }
  resolve_branch_lem none addr previous p n s = record {
    same = Same-refl s;
    delay = refl;
    branches = refl;
    wrongs = refl;
  }

  -- A prediction changes the predictor and the remembered direction only.
  predict_next_lem :
      (p : Option bpu.State) (addr : Option InstrAddr) (branch : Bool) (s : FetchStage next bpu)
      → Same s (predict_next next bpu p addr branch s)
        × ((predict_next next bpu p addr branch s).stats ≡ s.stats)
  unfolding predict_next
  predict_next_lem (some p) (some ia) true s =
      (record { queue = refl; back = refl; stall = refl; skipped = refl }, refl)
  predict_next_lem (some p) (some ia) false s =
      (record { queue = refl; back = refl; stall = refl; skipped = refl }, refl)
  predict_next_lem (some p) none branch s =
      (record { queue = refl; back = refl; stall = refl; skipped = refl }, refl)
  predict_next_lem none addr branch s =
      (record { queue = refl; back = refl; stall = refl; skipped = refl }, refl)

  Same-trans : {s t u : FetchStage next bpu} → Same s t → Same t u → Same s u
  Same-trans a b = record {
    queue = b.queue ∙ a.queue;
    back = b.back ∙ a.back;
    stall = b.stall ∙ a.stall;
    skipped = b.skipped ∙ a.skipped;
  }

  pub model_branch_lem :
      (p : Option bpu.State) (enabled : Bool) (addr : Option InstrAddr) (ir : Ir) (n : ℕ)
      (s : FetchStage next bpu)
      → (let r = model_branch next bpu p enabled addr ir n s in
          Judged
            (verdict p enabled s.predicted_direction addr s.previous_addr)
            n
            (penalty_of p)
            s
            r.1
            r.0)
  unfolding model_branch
  model_branch_lem (some p) true addr ir n s =
      let j = resolve_branch_lem s.predicted_direction addr s.previous_addr p n s in
      let r = resolve_branch next bpu s.predicted_direction addr s.previous_addr p n s in
      let (k, stats) = predict_next_lem r.1.predictor addr (next.is_branch ir) r.1 in
      record {
        same = Same-trans j.same k;
        delay = j.delay;
        branches = ap (λ t. t.num_branches) stats ∙ j.branches;
        wrongs = ap (λ t. t.num_mispredictions) stats ∙ j.wrongs;
      }
  model_branch_lem (some p) false addr ir n s = record {
    same = Same-refl s;
    delay = refl;
    branches = refl;
    wrongs = refl;
  }
  model_branch_lem none enabled addr ir n s = record {
    same = Same-refl s;
    delay = refl;
    branches = refl;
    wrongs = refl;
  }

  -- What the look-up and the load keep: all that the branch model reads.
  pub record Loaded (s s' : FetchStage next bpu) : Type 0 where
    pub same : Same s s'
    pub predictor : s'.predictor ≡ s.predictor
    pub enabled : s'.enable_branch_predictor ≡ s.enable_branch_predictor
    pub predicted : s'.predicted_direction ≡ s.predicted_direction
    pub previous : s'.previous_addr ≡ s.previous_addr
    pub branches : s'.stats.num_branches ≡ s.stats.num_branches
    pub wrongs : s'.stats.num_mispredictions ≡ s.stats.num_mispredictions

  Loaded-refl : (s : FetchStage next bpu) → Loaded s s
  Loaded-refl s = record {
    same = Same-refl s;
    predictor = refl;
    enabled = refl;
    predicted = refl;
    previous = refl;
    branches = refl;
    wrongs = refl;
  }

  pub fetch_load_lem :
      (cache : Option Level) (addr : Option InstrAddr) (n : ℕ) (s : FetchStage next bpu)
      → load_latency cache addr ≡ some n
      → (s2 : FetchStage next bpu) × (fetch_load next bpu cache addr s ≡ some (n, s2)) × Loaded s s2
  unfolding fetch_load
  fetch_load_lem (some c) (some ia) n s e =
      let (r, got, same) = >>=-eq-some (load c ia) (λ r. some (u32 r.0)) e in
      let n_eq : u32 r.0 ≡ n = cc same in
      subst
        (λ m.
          (s2 : FetchStage next bpu) × (fetch_load next bpu (some c) (some ia) s ≡ some (m, s2))
          × Loaded s s2)
        n_eq
        (
          record s {
            cache = some r.1;
            stats = record s.stats {
              num_instr_load_cycles = inc s.stats.num_instr_load_cycles (u32 r.0);
            };
          },
          rw got refl,
          record {
            same = record { queue = refl; back = refl; stall = refl; skipped = refl };
            predictor = refl;
            enabled = refl;
            predicted = refl;
            previous = refl;
            branches = refl;
            wrongs = refl;
          },
        )
  fetch_load_lem (some c) none n s e = (s, ap (λ m. some (m, s)) (zero_of e), Loaded-refl s)
  fetch_load_lem none addr n s e = (s, ap (λ m. some (m, s)) (zero_of e), Loaded-refl s)

  -- The limit cuts a delay down and counts what it cuts off.
  pub cap_delay_lem :
      (m : Option ℕ) (n : ℕ) (s : FetchStage next bpu)
      → (let r = cap_delay next bpu m n s in
          (r.0 ≡ limit m n)
          × (r.1.stats.num_skipped_delay_cycles
              ≡ inc_if (ltb 0 (excess m n)) s.stats.num_skipped_delay_cycles (excess m n))
          × (r.1.instr_queue ≡ s.instr_queue)
          × (r.1.behind ≡ s.behind)
          × (r.1.stats.num_branches ≡ s.stats.num_branches)
          × (r.1.stats.num_mispredictions ≡ s.stats.num_mispredictions)
          × (r.1.predictor ≡ s.predictor)
          × (r.1.predicted_direction ≡ s.predicted_direction))
  unfolding cap_delay
  cap_delay_lem none n s = (refl, refl, refl, refl, refl, refl, refl, refl)
  cap_delay_lem (some m) n s = ground arith
