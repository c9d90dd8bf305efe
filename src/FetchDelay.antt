-- ===== src/FetchDelay.antt =====
-- CustomStages/MCADFetchDelayStage.h and .cpp: the stage that holds an instruction back for the
-- cycles that its fetch and a misprediction cost. LLVM's instructions and the stage behind this one
-- are the parameters.
pub mod Order
pub mod Parts
pub mod Foresight
pub mod Delay
pub mod Drain
mod Tests
use llvm_mca_daemon.Prelude.{
  ℕ, ◌+◌, ◌-◌, ◌≤◌, ◌<◌, ◌≡◌, Bool, true, false, not, ◌&&◌, Option, none, some, List, [], ◌∷◌, ◌++◌,
  ltb, u32, u64, ◌==◌, if◌then◌else◌, ◌>>=◌,
}
use llvm_mca_daemon.Statistics.{OverflowableCount, zero_count, inc}
use llvm_mca_daemon.Metadata.{InstrAddr}
use llvm_mca_daemon.Metadata.Registry.{Registry, Get, missing, bad_cast, found, get_md_instr_addr}
use llvm_mca_daemon.Cache.{Level, load}
use llvm_mca_daemon.Branch.{BranchDirection, taken, not_taken, direction_eq, BranchPredictor}

-- The stage behind: `checkNextStage` and `moveToTheNextStage`, which may return an error.
pub record NextStage : Type 1 where
  pub State : Type 0
  pub Ir : Type 0
  pub Error : Type 0
  -- `getIdentifier` and `isBranch` of the instruction behind a reference.
  pub identifier : Ir → Option ℕ
  pub is_branch : Ir → Bool
  pub check : State → Ir → Bool
  pub move : State → Ir → State × Option Error

-- `MCADFetchDelayStage::Statistics`
pub record FetchStats : Type 0 where
  pub num_skipped_delay_cycles : OverflowableCount
  pub num_branches : OverflowableCount
  pub num_mispredictions : OverflowableCount
  pub num_instr_load_cycles : OverflowableCount

-- What the look-up of an address gives: a failed cast faults.
abbrev pub found_addr : Get InstrAddr → Option (Option InstrAddr)
found_addr missing = some none
found_addr bad_cast = none
found_addr (found ia) = some (some ia)

module _ (next : NextStage) (bpu : BranchPredictor) where
  open next use {Ir, Error, identifier, is_branch, check, move}

  -- `DelayedInstr`
  pub record DelayedInstr : Type 0 where
    pub delay_cycles_left : ℕ
    pub ir : Ir

  -- `MCADFetchDelayStage`, with the registry it refers to and the stage behind it. `max_stall` is
  -- `maxNumberSimulatedStallCycles`, with `none` for a negative value, and `predictor` is `none` for
  -- a null `BPU`. `cache` is the instruction cache with the levels behind it.
  pub record FetchStage : Type 0 where
    pub instr_queue : List DelayedInstr
    pub predictor : Option bpu.State
    pub registry : Registry
    pub predicted_direction : Option BranchDirection
    pub previous_addr : Option InstrAddr
    pub max_stall : Option ℕ
    pub cache : Option Level
    pub stats : FetchStats
    pub enable_branch_predictor : Bool
    pub behind : next.State

  -- `hasWorkToComplete`
  unfoldable pub has_work_to_complete : FetchStage → Bool
  has_work_to_complete s = elim s.instr_queue [ [] ↦ false | d ∷ q ↦ true ]

  -- `isAvailable`
  unfoldable pub is_available : FetchStage → Ir → Bool
  is_available s ir = check s.behind ir

  -- The loop of `forwardDueInstrs`: the stage behind, the queue and the error, if one ended it.
  unfoldable pub forward :
      next.State → List DelayedInstr → next.State × List DelayedInstr × Option Error
  forward b [] = (b, [], none)
  forward b (d ∷ q) =
      let rest = forward (move b d.ir).0 q in
      if d.delay_cycles_left == 0 && check b d.ir
      then elim (move b d.ir).1 [ none ↦ rest | some e ↦ ((move b d.ir).0, d ∷ q, some e) ]
      else (b, d ∷ q, none)

  -- `forwardDueInstrs`
  unfoldable pub forward_due_instrs : FetchStage → FetchStage × Option Error
  forward_due_instrs s =
      let (b, q, e) = forward s.behind s.instr_queue in
      (record s { instr_queue = q; behind = b }, e)

  -- The look-up of the address.
  unfoldable pub fetch_addr : FetchStage → Ir → Option (Option InstrAddr × FetchStage)
  fetch_addr s ir =
      let r = get_md_instr_addr (identifier ir) s.registry in
      found_addr r.1 >>= λ addr. some (addr, record s { registry = r.0 })

  -- The load of the instruction from the cache: the delay so far.
  unfoldable pub fetch_load : Option Level → Option InstrAddr → FetchStage → Option (ℕ × FetchStage)
  fetch_load (some c) (some ia) s = load c ia >>= λ r. some (
    u32 r.0,
    record s {
      cache = some r.1;
      stats = record s.stats {
        num_instr_load_cycles = inc s.stats.num_instr_load_cycles (u32 r.0);
      };
    },
  )
  fetch_load (some c) none s = some (0, s)
  fetch_load none addr s = some (0, s)

  -- `actualBranchDirection`
  abbrev pub actual_direction : InstrAddr → InstrAddr → BranchDirection
  actual_direction previous ia =
      if ia.addr == u64 (previous.addr + previous.size) then not_taken else taken

  -- The comparison of the last prediction with where the execution went.
  unfoldable pub resolve :
      bpu.State → ℕ → FetchStage → BranchDirection → InstrAddr → InstrAddr → ℕ × FetchStage
  resolve p delay s predicted ia previous =
      let actual = actual_direction previous ia in
      let p' = bpu.record_taken_branch p previous actual in
      let wrong = not (direction_eq actual predicted) in
      (
        (if wrong then u32 (delay + bpu.misprediction_penalty p') else delay),
        record s {
          predictor = some p';
          stats = record s.stats {
            num_branches = inc s.stats.num_branches 1;
            num_mispredictions =
                if wrong then inc s.stats.num_mispredictions 1 else s.stats.num_mispredictions;
          };
        },
      )

  -- Its guard: a prediction, this address and the one before.
  unfoldable pub resolve_branch :
      Option BranchDirection
      → Option InstrAddr
      → Option InstrAddr
      → bpu.State
      → ℕ
      → FetchStage
      → ℕ × FetchStage
  resolve_branch (some predicted) (some ia) (some previous) p delay s =
      resolve p delay s predicted ia previous
  resolve_branch (some predicted) (some ia) none p delay s = (delay, s)
  resolve_branch (some predicted) none previous p delay s = (delay, s)
  resolve_branch none ia previous p delay s = (delay, s)

  -- The prediction for this instruction, if it is a branch with an address.
  unfoldable pub predict_next : Option bpu.State → Option InstrAddr → Bool → FetchStage → FetchStage
  predict_next (some p) (some ia) true s =
      let (p', d) = bpu.predict_branch p ia in
      record s { predictor = some p'; predicted_direction = some d }
  predict_next p ia b s = record s { predicted_direction = none }

  -- The part of `execute` under `BPU && enableBranchPredictorModeling`.
  unfoldable pub model_branch :
      Option bpu.State → Bool → Option InstrAddr → Ir → ℕ → FetchStage → ℕ × FetchStage
  model_branch (some p) true addr ir delay s =
      let r = resolve_branch s.predicted_direction addr s.previous_addr p delay s in
      (r.0, predict_next r.1.predictor addr (is_branch ir) r.1)
  model_branch (some p) false addr ir delay s = (delay, s)
  model_branch none enabled addr ir delay s = (delay, s)

  -- The limit on the stall cycles that are simulated.
  unfoldable pub cap_delay : Option ℕ → ℕ → FetchStage → ℕ × FetchStage
  cap_delay none delay s = (delay, s)
  cap_delay (some m) delay s =
      if ltb m delay
      then (
        m,
        record s {
          stats = record s.stats {
            num_skipped_delay_cycles = inc s.stats.num_skipped_delay_cycles (delay - m);
          };
        },
      )
      else (delay, s)

  -- `instrQueue.emplace_back`, and the address for the next instruction.
  unfoldable pub push_delayed : Option InstrAddr → Ir → ℕ → FetchStage → FetchStage
  push_delayed addr ir delay s = record s {
    instr_queue = s.instr_queue ++ (record { delay_cycles_left = delay; ir = ir } ∷ []);
    previous_addr = addr;
  }

  -- `execute` up to its call of `forwardDueInstrs`.
  unfoldable pub enqueue : FetchStage → Ir → Option FetchStage
  enqueue s ir = fetch_addr s ir >>= λ (addr, s1). fetch_load s1.cache addr s1 >>= λ (delay, s2).
      let branched = model_branch s2.predictor s2.enable_branch_predictor addr ir delay s2 in
      let capped = cap_delay branched.1.max_stall branched.0 branched.1 in
      some (push_delayed addr ir capped.0 capped.1)

  -- `execute`
  unfoldable pub execute : FetchStage → Ir → Option (FetchStage × Option Error)
  execute s ir = enqueue s ir >>= λ s'. some (forward_due_instrs s')

  -- The decrement of `cycleStart`.
  unfoldable pub count_down : List DelayedInstr → List DelayedInstr
  count_down [] = []
  count_down (d ∷ q) =
      if ltb 0 d.delay_cycles_left
      then record d { delay_cycles_left = d.delay_cycles_left - 1 } ∷ q
      else d ∷ q

  -- `cycleStart`
  unfoldable pub cycle_start : FetchStage → FetchStage × Option Error
  cycle_start s = forward_due_instrs (record s { instr_queue = count_down s.instr_queue })
