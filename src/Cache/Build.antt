-- ===== src/Cache/Build.antt =====
-- The validity of the units that `buildCache` of MCAWorker.cpp builds.
use llvm_mca_daemon.Prelude.{ℕ, ◌/◌, ◌<◌, Bool, true, false, Option, none, some, if◌then◌else◌}
use llvm_mca_daemon.Cache.{
  CacheUnit, Level, memory, cached, new_cache, CacheOptions, build_shared, build_cache,
}
use llvm_mca_daemon.Cache.Valid.{IsValid, AllValid, new_cache-IsValid}

-- A size and a number of ways that give every set its ways.
abbrev pub IsSize : ℕ → ℕ → Type 0
IsSize size ways = (0 < ways) × (ways < 4294967296) × (0 < size / 64 / ways)

pub record IsSized (o : CacheOptions) : Type 0 where
  pub l1i_sized : IsSize o.l1i_size o.num_ways_l1i
  pub l1d_sized : IsSize o.l1d_size o.num_ways_l1d
  pub l2_sized : IsSize o.l2_size o.num_ways_l2
  pub l3_sized : IsSize o.l3_size o.num_ways_l3

abbrev pub AllOf : Option CacheUnit → Type 0
AllOf none = Unit {0}
AllOf (some c) = IsValid c

valid_level :
    (b : Bool) (size ways latency : ℕ) (next : Level)
    → IsSize size ways
    → AllValid next
    → AllValid (if b then cached (new_cache size ways latency) next else next)
valid_level true size ways latency next (p, f, q) va =
    (new_cache-IsValid size ways latency p f q, va)
valid_level false size ways latency next h va = va

valid_unit :
    (b : Bool) (size ways latency : ℕ)
    → IsSize size ways
    → AllOf (if b then some (new_cache size ways latency) else none)
valid_unit true size ways latency (p, f, q) = new_cache-IsValid size ways latency p f q
valid_unit false size ways latency h = tt

-- With sizes that give every set its ways, every unit that the enabled options build is valid: the
-- two first-level units and all the levels behind them.
build_cache-AllValid :
    (o : CacheOptions)
    → IsSized o
    → AllOf (build_cache o).l1i × AllOf (build_cache o).l1d × AllValid (build_cache o).shared
unfolding build_cache build_shared
build_cache-AllValid o h = (
  valid_unit o.l1i_enabled o.l1i_size o.num_ways_l1i o.l1_latency h.l1i_sized,
  valid_unit o.l1d_enabled o.l1d_size o.num_ways_l1d o.l1_latency h.l1d_sized,
  valid_level o.l2_enabled o.l2_size o.num_ways_l2 o.l2_latency _ h.l2_sized (
      valid_level o.l3_enabled o.l3_size o.num_ways_l3 o.l3_latency (memory o.memory_latency)
        h.l3_sized tt),
)
