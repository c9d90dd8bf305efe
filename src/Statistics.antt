-- ===== src/Statistics.antt =====
-- `OverflowableCount` of Statistics.h, the counter behind every printed statistic.
mod Tests
use llvm_mca_daemon.Prelude.{
  ℕ, ◌+◌, ◌<◌, ◌≡◌, refl, Bool, true, false, ◌||◌, List, [], ◌∷◌, arith, ltb, leb, u64,
  if◌then◌else◌, length,
}

pub record OverflowableCount : Type 0 where
  pub count : ℕ
  pub overflowed : Bool

abbrev pub zero_count : OverflowableCount
zero_count = record { count = 0; overflowed = false }

-- `inc(by)`: the test adds `by`, the update adds one.
unfoldable pub inc : OverflowableCount → ℕ → OverflowableCount
inc c by = record {
  count = u64 (c.count + 1);
  overflowed = if ltb (u64 (c.count + by)) c.count then true else c.overflowed;
}

-- A sequence of `inc` calls on one counter.
pub inc_all : OverflowableCount → List ℕ → OverflowableCount
inc_all c [] = c
inc_all c (by ∷ bys) = inc_all (inc c by) bys

-- A counter below 2 ^ 64 holds, after any `inc` calls, what it held plus the number of calls modulo
-- 2 ^ 64, whatever amounts they were given.
pub count-inc_all :
    (c : OverflowableCount) (bys : List ℕ)
    → c.count < 18446744073709551616
    → (inc_all c bys).count ≡ u64 (c.count + length bys)
unfolding inc_all inc
count-inc_all c [] h = omega arith
count-inc_all c (by ∷ bys) h = omega (arith, count-inc_all (inc c by) bys (omega arith))

-- For a counter below 2 ^ 64 and an amount below 2 ^ 32, the flag after one call is up exactly if
-- it was or if the sum of both reaches 2 ^ 64.
overflowed-inc :
    (c : OverflowableCount) (by : ℕ)
    → c.count < 18446744073709551616
    → by < 4294967296
    → (inc c by).overflowed ≡ (leb 18446744073709551616 (c.count + by) || c.overflowed)
unfolding inc
overflowed-inc c by h k = ground arith
