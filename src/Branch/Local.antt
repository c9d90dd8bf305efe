-- ===== src/Branch/Local.antt =====
-- LocalBPU.h and .cpp: a table of saturating counters. The counters are gem5's, a library that the
-- sources include: they are the parameter `SatCounter` here, with the laws of its documentation.
pub mod Counters
use llvm_mca_daemon.Prelude.{
  ℕ, ◌+◌, ◌-◌, ◌/◌, ◌%◌, ◌^◌, ◌≤◌, ◌<◌, ◌≡◌, min, Bool, true, false, Option, none, some, List, [],
  ◌∷◌, ltb, u32, if◌then◌else◌, ◌>>=◌, get_elem?, set, replicate,
}
use llvm_mca_daemon.Metadata.{InstrAddr}
use llvm_mca_daemon.Branch.{BranchDirection, taken, not_taken}

-- `gem5::SatCounter8`: an n bit saturating counter, with increments and the reading of its value.
pub record SatCounter : Type 1 where
  pub Counter : Type 0
  pub counter : ℕ → Counter
  pub add : Counter → ℕ → Counter
  pub value : Counter → ℕ
  pub max_value : Counter → ℕ
  pub value-le : (c : Counter) → value c ≤ max_value c
  pub value-counter : (bits : ℕ) → value (counter bits) ≡ 0
  pub max_value-counter : (bits : ℕ) → bits ≤ 8 → max_value (counter bits) ≡ 2 ^ bits - 1
  pub value-add : (c : Counter) (n : ℕ) → value (add c n) ≡ min (max_value c) (value c + n)
  pub max_value-add : (c : Counter) (n : ℕ) → max_value (add c n) ≡ max_value c

-- `isTaken`, as the amount that is added.
abbrev pub amount : BranchDirection → ℕ
amount taken = 1
amount not_taken = 0

module _ (sat : SatCounter) where
  open sat use {Counter, counter, add, value}

  -- `LocalBPU`
  pub record LocalUnit : Type 0 where
    pub penalty : ℕ
    pub ctrl_bits : ℕ
    pub predictor_size : ℕ
    pub predictor_sets : ℕ
    pub table : List Counter

  unfoldable pub new_local : ℕ → ℕ → ℕ → LocalUnit
  new_local penalty ctrl_bits predictor_size =
      let sets : ℕ = predictor_size / ctrl_bits in
      record {
        penalty = penalty;
        ctrl_bits = ctrl_bits;
        predictor_size = predictor_size;
        predictor_sets = sets;
        table = replicate sets (counter ctrl_bits);
      }

  -- `getPredictorIndex`
  unfoldable pub predictor_index : LocalUnit → InstrAddr → ℕ
  predictor_index u ia = u32 (ia.addr % u.predictor_sets)

  -- `recordTakenBranch`: `predictorTable[idx] += isTaken`. `none` is an index out of range.
  unfoldable pub record_taken_branch : LocalUnit → InstrAddr → BranchDirection → Option LocalUnit
  record_taken_branch u ia d = get_elem? u.table (predictor_index u ia) >>= λ c.
      some (record u { table = set u.table (predictor_index u ia) (add c (amount d)) })

  -- `getPrediction`: the counter shifted right by `numCtrlBits - 1`, as a truth value.
  unfoldable pub get_prediction : LocalUnit → InstrAddr → Option Bool
  get_prediction u ia = get_elem? u.table (predictor_index u ia) >>= λ c.
      some (ltb 0 (value c / 2 ^ (u.ctrl_bits - 1)))

  -- `predictBranch`
  unfoldable pub predict_branch : LocalUnit → InstrAddr → Option BranchDirection
  predict_branch u ia = get_prediction u ia >>= λ t. some (if t then taken else not_taken)

  -- A sequence of calls of `recordTakenBranch`.
  unfoldable pub record_all : LocalUnit → List (InstrAddr × BranchDirection) → Option LocalUnit
  record_all u [] = some u
  record_all u ((ia, d) ∷ bs) = record_taken_branch u ia d >>= λ u'. record_all u' bs
