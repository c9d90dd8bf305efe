-- ===== src/Branch/Naive.antt =====
-- NaiveBranchPredictorUnit.h and .cpp: a bounded history of the last direction of each branch.
-- The `std::map` is the list of its nodes in key order. Its comparison is that of the source; on
-- keys in order it splits the list into a front and a back, so every tree shape finds the same node.
pub mod Order
pub mod History
use llvm_mca_daemon.Prelude.{
  ℕ, zero, suc, ◌+◌, ◌≡◌, refl, Bool, true, false, Option, none, some, List, [], ◌∷◌, ltb, leb, u32,
  if◌then◌else◌, length,
}
use llvm_mca_daemon.Metadata.{InstrAddr, instr_lt}
use llvm_mca_daemon.Branch.{BranchDirection, taken, not_taken, BranchPredictor}

pub record HistoryEntry : Type 0 where
  pub last_direction : BranchDirection
  pub last_use : ℕ

-- `HistoryEntry{}`: the first enumerator and zero.
abbrev pub fresh_entry : HistoryEntry
fresh_entry = record { last_direction = taken; last_use = 0 }

abbrev pub History : Type 0
History = List (InstrAddr × HistoryEntry)

-- `NaiveBranchPredictorUnit`
pub record NaiveUnit : Type 0 where
  pub penalty : ℕ
  pub capacity : ℕ
  pub n_accesses : ℕ
  pub history : History

-- The constructor. It leaves `nAccesses` uninitialised, so its value is an argument here.
unfoldable pub new_naive : ℕ → ℕ → ℕ → NaiveUnit
new_naive n_accesses penalty capacity = record {
  penalty = penalty;
  capacity = capacity;
  n_accesses = n_accesses;
  history = [];
}

-- `branchHistory.find`: the first node that is not below the key, if the key is not below it.
unfoldable pub find : InstrAddr → History → Option HistoryEntry
find k [] = none
find k ((a, e) ∷ m) =
    let rest = find k m in if instr_lt a k then rest else if instr_lt k a then none else some e

-- A change through `branchHistory[k]`, which inserts a fresh entry if there is none. A node that is
-- there keeps its key.
unfoldable pub modify : InstrAddr → (HistoryEntry → HistoryEntry) → History → History
modify k f [] = (k, f fresh_entry) ∷ []
modify k f ((a, e) ∷ m) =
    let rest = modify k f m in
    if instr_lt a k
    then (a, e) ∷ rest
    else if instr_lt k a
    then (k, f fresh_entry) ∷ (a, e) ∷ m
    else (a, f e) ∷ m

-- The search for the least recently used entry: index, best index so far, its use, nodes left.
unfoldable pub oldest_index : ℕ → ℕ → ℕ → History → ℕ
oldest_index i best t [] = best
oldest_index i best t ((a, e) ∷ m) =
    let older = ltb e.last_use t in
    oldest_index (i + 1) (if older then i else best) (if older then e.last_use else t) m

unfoldable pub remove_at : ℕ → History → History
remove_at i [] = []
remove_at zero (x ∷ m) = m
remove_at (suc i) (x ∷ m) = x ∷ remove_at i m

-- `min_it` starts at the first node, which the loop visits too.
unfoldable pub evict_oldest : History → History
evict_oldest [] = []
evict_oldest ((a, e) ∷ m) = remove_at (oldest_index 0 0 e.last_use ((a, e) ∷ m)) ((a, e) ∷ m)

abbrev pub absent : Option HistoryEntry → Bool
absent none = true
absent (some e) = false

-- The part of `recordTakenBranch` before the eviction.
unfoldable pub record_entry : NaiveUnit → InstrAddr → BranchDirection → History
record_entry u k d =
    let m = if absent (find k u.history) then modify k (λ e. e) u.history else u.history in
    modify k (λ e. record e { last_use = u.n_accesses })
      (modify k (λ e. record e { last_direction = d }) m)

-- `recordTakenBranch`
unfoldable pub record_taken_branch : NaiveUnit → InstrAddr → BranchDirection → NaiveUnit
record_taken_branch u k d =
    let m = record_entry u k d in
    record u { history = if leb u.capacity (length m) then evict_oldest m else m }

-- `predictBranch`
unfoldable pub predict_branch : NaiveUnit → InstrAddr → NaiveUnit × BranchDirection
predict_branch u k =
    let n = u32 (u.n_accesses + 1) in
    elim (find k u.history) [
      | none ↦ (record u { n_accesses = n }, not_taken)
      | some e ↦ (
        record u { n_accesses = n; history = modify k (λ x. record x { last_use = n }) u.history },
        e.last_direction,
      )
    ]

pub misprediction_penalty-record_lem :
    (u : NaiveUnit) (ia : InstrAddr) (d : BranchDirection)
    → (record_taken_branch u ia d).penalty ≡ u.penalty
unfolding record_taken_branch
misprediction_penalty-record_lem u ia d = refl

-- The unit behind the interface of the fetch stage.
abbrev pub naive_predictor : BranchPredictor
naive_predictor = record {
  State = NaiveUnit;
  record_taken_branch = record_taken_branch;
  predict_branch = predict_branch;
  misprediction_penalty = λ u. u.penalty;
  misprediction_penalty-record = misprediction_penalty-record_lem;
}
