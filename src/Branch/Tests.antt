-- ===== src/Branch/Tests.antt =====
-- The predictors on short sequences of branches.
use llvm_mca_daemon.Prelude.{
  ℕ, ◌+◌, ◌-◌, ◌^◌, ◌≤◌, ◌≡◌, refl, min, some, List, [], ◌∷◌, arith, get_elem?,
}
use llvm_mca_daemon.Metadata.{InstrAddr}
use llvm_mca_daemon.Branch.{BranchDirection, taken, not_taken}
use llvm_mca_daemon.Branch.Naive.{
  HistoryEntry, History, NaiveUnit, new_naive, find, remove_at, evict_oldest,
}
use llvm_mca_daemon.Branch.Naive as Naive
use llvm_mca_daemon.Branch.Naive.History.{record_then_predict}
use llvm_mca_daemon.Branch.Local.{SatCounter, LocalUnit, new_local, predictor_index, record_all}
use llvm_mca_daemon.Branch.Local as Local
use llvm_mca_daemon.Branch.Local.Counters.{
  taken_at, new_local-IsValid, record_all_counts, taken_forever,
}
use llvm_mca_daemon.Branch.Skylake.{new_skylake}
use llvm_mca_daemon.Branch.Skylake as Skylake
use llvm_mca_daemon.Branch.Skylake.Silent.{
  IsSilent, Call, recorded, predicted, run_calls, never_predicts_taken, new_skylake-IsSilent,
}
use llvm_mca_daemon.Branch.Skylake.Sizes.{IsBounded, run_calls-IsBounded, new_skylake-IsBounded}
use llvm_mca_daemon.Branch.Indirect.{IndirectUnit, new_indirect, record_target, predict_target}
use llvm_mca_daemon.Branch.Indirect.Targets.{
  IsValid, new_indirect-IsValid, record_then_predict_target,
}

abbrev jump : InstrAddr
jump = record { addr = 100; size = 4 }

abbrev after : InstrAddr
after = record { addr = 104; size = 4 }

abbrev naive : NaiveUnit
naive = new_naive 0 20 8

record_then_predict_example :
    (Naive.predict_branch (Naive.record_taken_branch naive jump not_taken) jump).1 ≡ not_taken
unfolding new_naive
record_then_predict_example = record_then_predict naive jump not_taken (omega arith) (omega arith)

min_le : (a b : ℕ) → min a b ≤ b
min_le a b = omega arith

min_zero : (a : ℕ) → min 0 a ≡ 0
min_zero a = omega arith

min_again : (a b : ℕ) → min (min a b) a ≡ min a b
min_again a b = omega arith

-- A counter as a value with its largest value.
abbrev counters : SatCounter
counters = record {
  Counter = ℕ × ℕ;
  counter = λ bits. (0, 2 ^ bits - 1);
  add = λ c n. (min c.1 (min c.0 c.1 + n), c.1);
  value = λ c. min c.0 c.1;
  max_value = λ c. c.1;
  value-le = λ c. min_le c.0 c.1;
  value-counter = λ bits. min_zero (2 ^ bits - 1);
  max_value-counter = λ bits h. refl;
  value-add = λ c n. min_again c.1 (min c.0 c.1 + n);
  max_value-add = λ c n. refl;
}

abbrev loop : List (InstrAddr × BranchDirection)
loop = (jump, taken) ∷ (jump, taken) ∷ (jump, not_taken) ∷ []

record_all_counts_example :
    (u' : LocalUnit counters) × (c' : ℕ × ℕ) × (record_all counters
        (new_local counters 20 2 16)
        loop
      ≡ some u')
    × (get_elem? u'.table 4 ≡ some c')
    × (min c'.0 c'.1 ≡ min 3 (0 + taken_at 8 4 loop))
    × (u'.predictor_sets ≡ 8)
    × (u'.ctrl_bits ≡ 2)
unfolding new_local
record_all_counts_example =
    record_all_counts counters (new_local counters 20 2 16) loop 4 (0, 3)
      (new_local-IsValid counters 20 2 16 (omega arith) (omega arith)) refl

-- The counters of a unit that has seen two taken branches at each index.
abbrev trained : LocalUnit counters
trained = record {
  penalty = 20;
  ctrl_bits = 2;
  predictor_size = 4;
  predictor_sets = 2;
  table = (2, 3) ∷ (2, 3) ∷ [];
}

taken_forever_example :
    (u' : LocalUnit counters) × (record_all counters trained loop ≡ some u')
    × (Local.predict_branch counters u' jump ≡ some taken)
unfolding Local.predict_branch Local.get_prediction predictor_index
taken_forever_example =
    taken_forever counters trained jump loop
      (record { sets_pos = omega arith; sets_fit = omega arith; sets = refl }) refl

abbrev table : IndirectUnit
table = new_indirect 256 2

table-IsValid : IsValid table
table-IsValid = new_indirect-IsValid 256 2 (omega arith) (omega arith) (omega arith)

record_then_predict_target_example :
    (u' : IndirectUnit) × (record_target 7 table jump after ≡ some u')
    × IsValid u'
    × (predict_target u' jump ≡ some after)
record_then_predict_target_example = record_then_predict_target 7 table jump after table-IsValid

abbrev small : IndirectUnit
small = new_indirect 2 1

abbrev trace : List Call
trace = recorded jump taken ∷ predicted jump ∷ recorded jump taken ∷ []

run_calls-IsBounded_example : IsBounded (run_calls (λ m. m) trace (new_skylake 20))
run_calls-IsBounded_example =
    run_calls-IsBounded (λ m. m) trace (new_skylake 20) (λ k m. refl) (new_skylake-IsBounded 20)

never_predicts_taken_example :
    IsSilent (run_calls (λ m. m) trace (new_skylake 20))
    × ((Skylake.predict_branch (run_calls (λ m. m) trace (new_skylake 20)) jump).1 ≡ not_taken)
never_predicts_taken_example =
    never_predicts_taken (λ m. m) trace (new_skylake 20) jump (new_skylake-IsSilent 20)
