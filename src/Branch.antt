-- ===== src/Branch.antt =====
-- CustomHWUnits/AbstractBranchPredictorUnit.h: the interface between the fetch stage and a branch
-- predictor. The children model the units that implement it.
pub mod Naive
pub mod Local
pub mod Indirect
pub mod Skylake
pub mod Build
mod Tests
use llvm_mca_daemon.Prelude.{ℕ, ◌≡◌, Bool, true, false}
use llvm_mca_daemon.Metadata.{InstrAddr}

pub data BranchDirection : Type 0 where
  taken not_taken : BranchDirection

abbrev pub is_taken : BranchDirection → Bool
is_taken taken = true
is_taken not_taken = false

-- `actualBranchDirection != predictedBranchDirection`
abbrev pub direction_eq : BranchDirection → BranchDirection → Bool
direction_eq taken taken = true
direction_eq not_taken not_taken = true
direction_eq _ _ = false

-- `AbstractBranchPredictorUnit`: the virtual methods over the state of the unit behind them.
pub record BranchPredictor : Type 1 where
  pub State : Type 0
  pub record_taken_branch : State → InstrAddr → BranchDirection → State
  pub predict_branch : State → InstrAddr → State × BranchDirection
  pub misprediction_penalty : State → ℕ
  pub misprediction_penalty-record :
      (u : State) (ia : InstrAddr) (d : BranchDirection)
      → misprediction_penalty (record_taken_branch u ia d) ≡ misprediction_penalty u
