-- ===== src/Branch/Build.antt =====
-- `buildBranchPredictor` of MCAWorker.cpp.
use llvm_mca_daemon.Prelude.{ℕ, Option, none, some}
use llvm_mca_daemon.Branch.Naive.{NaiveUnit, new_naive}
use llvm_mca_daemon.Branch.Skylake.{SkylakeUnit, new_skylake}

-- The values of the option for branch prediction.
pub data PredictorChoice : Type 0 where
  no_predictor naive_choice skylake_choice indirect_choice local_choice : PredictorChoice

-- The unit that the worker owns.
pub data PredictorUnit : Type 0 where
  naive_unit : NaiveUnit → PredictorUnit
  skylake_unit : SkylakeUnit → PredictorUnit

-- The arguments: what the uninitialised counter of the naive unit holds, the misprediction delay and
-- the size of the history.
unfoldable pub build_branch_predictor : ℕ → ℕ → ℕ → PredictorChoice → Option PredictorUnit
build_branch_predictor n_accesses delay size naive_choice =
    some (naive_unit (new_naive n_accesses delay size))
build_branch_predictor n_accesses delay size skylake_choice =
    some (skylake_unit (new_skylake delay))
build_branch_predictor n_accesses delay size _ = none
