-- ===== src/Statistics/Tests.antt =====
-- The counter on concrete amounts.
use llvm_mca_daemon.Prelude.{ℕ, ◌+◌, ◌≡◌, List, [], ◌∷◌, arith, u64, length}
use llvm_mca_daemon.Statistics.{zero_count, inc_all, count-inc_all}

abbrev three_loads : List ℕ
three_loads = 4 ∷ 100 ∷ 4 ∷ []

-- Three loads of 108 cycles in all are counted as 3.
count-inc_all_example : (inc_all zero_count three_loads).count ≡ u64 (0 + length three_loads)
count-inc_all_example = count-inc_all zero_count three_loads (omega arith)
