-- ===== src/Cache/Tests.antt =====
-- Small caches: two sets of two ways before a memory.
use llvm_mca_daemon.Prelude.{ℕ, ◌≤◌, ◌<◌, ◌≡◌, ◌⊎◌, refl, some, List, [], ◌∷◌, arith, get_elem?}
use llvm_mca_daemon.Metadata.{InstrAddr}
use llvm_mca_daemon.Cache.{
  CacheEntry, CacheUnit, Level, memory, cached, empty_entry, new_cache, cacheline_address,
  set_index, evict_entry, load, store,
}
use llvm_mca_daemon.Cache.Valid.{IsValid, new_cache-IsValid}
use llvm_mca_daemon.Cache.Latency.{Kept, load_bounds, store_total}
use llvm_mca_daemon.Cache.Hits.{load_unaligned_misses, load_then_load}
use llvm_mca_daemon.Cache.Lru.{IsVictim, evict_entry_choice}

abbrev unit : CacheUnit
unit = new_cache 256 2 3

abbrev levels : Level
levels = cached unit (memory 100)

-- A line's address, and one inside of that line.
abbrev line_start : InstrAddr
line_start = record { addr = 128; size = 4 }

abbrev inside : InstrAddr
inside = record { addr = 130; size = 4 }

unit-IsValid : IsValid unit
unit-IsValid = new_cache-IsValid 256 2 3 (omega arith) (omega arith) (omega arith)

load_then_load_example :
    (r : ℕ × Level) × (v' : Level) × (load levels inside ≡ some r)
    × (load r.1 line_start ≡ some (3, v'))
unfolding new_cache cacheline_address
load_then_load_example =
    load_then_load unit (memory 100) inside line_start unit-IsValid tt (omega arith) refl

load_bounds_example :
    (r : ℕ × Level) × (load levels inside ≡ some r) × Kept levels r.1 × (3 ≤ r.0) × (r.0 ≤ 103)
unfolding new_cache
load_bounds_example = load_bounds levels inside (unit-IsValid, tt) (omega arith)

store_total_example : (v' : Level) × (store levels inside ≡ some (103, v')) × Kept levels v'
unfolding new_cache
store_total_example = store_total levels inside (unit-IsValid, tt) (omega arith)

load_unaligned_misses_example :
    (v' : Level) × (load levels inside ≡ some (103, v')) × Kept levels v'
unfolding new_cache
load_unaligned_misses_example =
    load_unaligned_misses levels inside (unit-IsValid, tt) (omega arith) (omega arith)

-- A set that is full, with its older entry second.
abbrev full_ways : List CacheEntry
full_ways =
    record { cached_address = record { addr = 0; size = 4 }; last_access = 7 }
    ∷ record { cached_address = record { addr = 128; size = 4 }; last_access = 5 }
    ∷ []

abbrev full_unit : CacheUnit
full_unit = record unit {
  table = full_ways ∷ (empty_entry ∷ empty_entry ∷ []) ∷ [];
  next_free = 2 ∷ 0 ∷ [];
}

full_unit-IsValid : IsValid full_unit
unfolding new_cache
full_unit-IsValid = record {
  line = refl;
  ways_pos = omega arith;
  ways_fit = omega arith;
  sets_pos = omega arith;
  sets = refl;
  ways = omega arith;
  frees = refl;
  frees_bounded = omega arith;
  clock_fits = omega arith;
}

evict_entry_choice_example :
    (w : ℕ) × (c' : CacheUnit) × (evict_entry full_unit line_start ≡ some (w, c'))
    × (((2 < 2) × (w ≡ 2) × (get_elem? c'.next_free 0 ≡ some 3) × (c'.table ≡ full_unit.table))
        ⊎ ((◌≡◌ {A = ℕ} 2 2) × (c' ≡ full_unit) × IsVictim full_ways w))
unfolding new_cache set_index cacheline_address
evict_entry_choice_example =
    evict_entry_choice full_unit line_start full_ways 2 full_unit-IsValid refl refl
