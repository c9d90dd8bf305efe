-- ===== src/Cache.antt =====
-- `CacheUnit` and `MemoryUnit` of CustomHWUnits/Cache.h, and `buildCache` of MCAWorker.cpp.
-- A unit with the levels behind it is a `Level`; `none` is an access through a null pointer or past
-- the end of a vector.
pub mod Valid
pub mod Access
pub mod Touched
pub mod Step
pub mod Latency
pub mod Hits
pub mod Lru
pub mod Build
mod Tests
use llvm_mca_daemon.Prelude.{
  ℕ, suc, ◌+◌, ◌-◌, ◌/◌, ◌%◌, Bool, true, false, Option, none, some, List, [], ◌∷◌, ltb, leb, ◌==◌,
  u32, u64, if◌then◌else◌, ◌>>=◌, get_elem?, set, replicate,
}
use llvm_mca_daemon.Statistics.{OverflowableCount, zero_count, inc}
use llvm_mca_daemon.Metadata.{InstrAddr}

pub record CacheEntry : Type 0 where
  pub cached_address : InstrAddr
  pub last_access : ℕ

-- The value-initialised entry of a new table.
abbrev pub empty_entry : CacheEntry
empty_entry = record { cached_address = record { addr = 0; size = 0 }; last_access = 0 }

-- `CacheUnit::Statistics`
pub record CacheStats : Type 0 where
  pub num_load_misses : OverflowableCount
  pub num_load_cycles : OverflowableCount
  pub num_store_cycles : OverflowableCount

-- The members of `CacheUnit`, less the pointer to the next level.
pub record CacheUnit : Type 0 where
  pub size : ℕ
  pub line_size : ℕ
  pub num_lines : ℕ
  pub num_ways : ℕ
  pub num_sets : ℕ
  pub latency : ℕ
  pub table : List (List CacheEntry)
  pub next_free : List ℕ
  pub local_clock : ℕ
  pub stats : CacheStats

-- A unit and what its `nextLevelCache` leads to; the last level is a `MemoryUnit`.
pub data Level : Type 0 where
  memory : ℕ → Level
  cached : CacheUnit → Level → Level

-- The constructor; the members are initialised in the order of their declarations.
unfoldable pub new_cache : ℕ → ℕ → ℕ → CacheUnit
new_cache size num_ways latency =
    let num_lines : ℕ = size / 64 in
    let num_sets : ℕ = num_lines / num_ways in
    record {
      size = size;
      line_size = 64;
      num_lines = num_lines;
      num_ways = num_ways;
      num_sets = num_sets;
      latency = latency;
      table = replicate num_sets (replicate num_ways empty_entry);
      next_free = replicate num_sets 0;
      local_clock = 0;
      stats = record {
        num_load_misses = zero_count;
        num_load_cycles = zero_count;
        num_store_cycles = zero_count;
      };
    }

-- `getCachelineAddress`
unfoldable pub cacheline_address : CacheUnit → InstrAddr → InstrAddr
cacheline_address c ia = record ia { addr = ia.addr - ia.addr % c.line_size }

-- `getSetIndex`
unfoldable pub set_index : CacheUnit → InstrAddr → ℕ
set_index c ia = (cacheline_address c ia).addr / c.line_size % c.num_sets

-- The loop of `getEntry` over the ways of one set, with the index in place of the pointer.
unfoldable pub find_way : ℕ → List CacheEntry → Option ℕ
find_way a [] = none
find_way a (w ∷ ws) =
    let rest = find_way a ws in
    if w.cached_address.addr == a then some 0 else (rest >>= λ i. some (suc i))

-- `getEntry`: the inner `none` is the null pointer.
unfoldable pub get_entry : CacheUnit → InstrAddr → Option (Option ℕ)
get_entry c ia = get_elem? c.table (set_index c ia) >>= λ ways. some (find_way ia.addr ways)

-- The second loop of `evictEntry`: index, entry so far, its time, ways left.
unfoldable pub lru_scan : ℕ → Option ℕ → ℕ → List CacheEntry → Option ℕ
lru_scan i best time [] = best
lru_scan i best time (w ∷ ws) =
    let older = leb w.last_access time in
    lru_scan (i + 1) (if older then some i else best) (if older then w.last_access else time) ws

-- `(unsigned long long)-1`
abbrev pub max_time : ℕ
max_time = 18446744073709551615

-- `evictEntry`: the way, and the unit after `nextFree[setIndex]++`.
unfoldable pub evict_entry : CacheUnit → InstrAddr → Option (ℕ × CacheUnit)
evict_entry c ia =
    let s = set_index c ia in
    get_elem? c.next_free s >>= λ free.
    if ltb free c.num_ways
    then some (free, record c { next_free = set c.next_free s (u32 (free + 1)) })
    else (get_elem? c.table s >>= λ ways. lru_scan 0 none max_time ways >>= λ w. some (w, c))

-- A write through the pointer to `table[s][w]`.
unfoldable pub update_way : CacheUnit → ℕ → ℕ → (CacheEntry → CacheEntry) → Option CacheUnit
update_way c s w f = get_elem? c.table s >>= λ ways.
    get_elem? ways w >>= λ e. some (record c { table = set c.table s (set ways w (f e)) })

-- `localClock++`
unfoldable pub tick : CacheUnit → CacheUnit
tick c = record c { local_clock = u64 (c.local_clock + 1) }

-- The entry for an address: found, or evicted and given the address of the line. With it, whether
-- it was found.
unfoldable pub claim : CacheUnit → InstrAddr → Option (Bool × ℕ × CacheUnit)
claim c ia = get_entry c ia >>= λ found. elim found [
  | some w ↦ some (true, w, c)
  | none ↦ evict_entry c ia >>= λ evicted.
      update_way evicted.1 (set_index c ia) evicted.0
        (λ e. record e { cached_address = cacheline_address c ia })
      >>= λ c'. some (false, evicted.0, c')
]

-- `entry->lastAccess = localClock`
unfoldable pub stamp : CacheUnit → InstrAddr → ℕ → Option CacheUnit
stamp c ia w = update_way c (set_index c ia) w (λ e. record e { last_access = u32 c.local_clock })

abbrev pub count_miss : CacheUnit → CacheUnit
count_miss c = record c {
  stats = record c.stats { num_load_misses = inc c.stats.num_load_misses 1 };
}

abbrev pub count_load : ℕ → CacheUnit → CacheUnit
count_load rtn c = record c {
  stats = record c.stats { num_load_cycles = inc c.stats.num_load_cycles rtn };
}

abbrev pub count_store : ℕ → CacheUnit → CacheUnit
count_store rtn c = record c {
  stats = record c.stats { num_store_cycles = inc c.stats.num_store_cycles rtn };
}

-- The end of `load`: the time stamp and the cycle count.
unfoldable pub finish_load : CacheUnit → InstrAddr → ℕ → ℕ → Level → Option (ℕ × Level)
finish_load c ia w rtn next = stamp c ia w >>= λ c'. some (rtn, cached (count_load rtn c') next)

-- `load`, of `MemoryUnit` and of `CacheUnit`: the latency and the levels after it.
unfoldable pub load : Level → InstrAddr → Option (ℕ × Level)
load (memory latency) ia = some (latency, memory latency)
load (cached c next) ia = claim (tick c) ia >>= λ claimed.
    if claimed.0
    then finish_load claimed.2 ia claimed.1 c.latency next
    else (load next ia >>= λ behind.
        finish_load (count_miss claimed.2) ia claimed.1 (u32 (c.latency + behind.0)) behind.1)

-- `store`: write-through, so the next level is always asked.
unfoldable pub store : Level → InstrAddr → Option (ℕ × Level)
store (memory latency) ia = some (latency, memory latency)
store (cached c next) ia = claim (tick c) ia >>= λ claimed. stamp claimed.2 ia claimed.1 >>= λ c'.
    store next ia >>= λ behind.
    let rtn = u32 (c.latency + behind.0) in some (rtn, cached (count_store rtn c') behind.1)

-- The cache options of the command line.
pub record CacheOptions : Type 0 where
  pub l1i_enabled : Bool
  pub l1d_enabled : Bool
  pub l2_enabled : Bool
  pub l3_enabled : Bool
  pub l1i_size : ℕ
  pub l1d_size : ℕ
  pub l2_size : ℕ
  pub l3_size : ℕ
  pub num_ways_l1i : ℕ
  pub num_ways_l1d : ℕ
  pub num_ways_l2 : ℕ
  pub num_ways_l3 : ℕ
  pub l1_latency : ℕ
  pub l2_latency : ℕ
  pub l3_latency : ℕ
  pub memory_latency : ℕ

-- What `buildCache` returns: the two first-level units, which are copied into their owners, and the
-- levels that both share.
pub record Hierarchy : Type 0 where
  pub l1i : Option CacheUnit
  pub l1d : Option CacheUnit
  pub shared : Level

unfoldable pub build_shared : CacheOptions → Level
build_shared o =
    let l3 =
      if o.l3_enabled
      then cached (new_cache o.l3_size o.num_ways_l3 o.l3_latency) (memory o.memory_latency)
      else memory o.memory_latency in
    if o.l2_enabled then cached (new_cache o.l2_size o.num_ways_l2 o.l2_latency) l3 else l3

unfoldable pub build_cache : CacheOptions → Hierarchy
build_cache o = record {
  l1i = if o.l1i_enabled then some (new_cache o.l1i_size o.num_ways_l1i o.l1_latency) else none;
  l1d = if o.l1d_enabled then some (new_cache o.l1d_size o.num_ways_l1d o.l1_latency) else none;
  shared = build_shared o;
}
