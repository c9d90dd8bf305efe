-- ===== src/Cache/Valid.antt =====
-- The well-formedness of `CacheUnit`: the shape of its tables, aligned line addresses, and times
-- that fit `unsigned long long`.
use llvm_mca_daemon.Prelude.{
  ℕ, ◌/◌, ◌%◌, ◌≤◌, ◌<◌, ◌≡◌, refl, some, List, arith, length, get_elem?, set, replicate, All,
  length-set, length-replicate, get_elem?-in_range, All-get_elem?, All-set, All-replicate,
}
use llvm_mca_daemon.Metadata.{InstrAddr}
use llvm_mca_daemon.Cache.{
  CacheEntry, CacheStats, empty_entry, CacheUnit, Level, memory, cached, new_cache,
  cacheline_address, set_index, update_way, tick,
}

-- A line address is a multiple of 64.
abbrev pub IsEntry : CacheEntry → Type 0
IsEntry e = (e.cached_address.addr % 64 ≡ 0) × (e.last_access < 18446744073709551616)

abbrev pub IsWays : ℕ → List CacheEntry → Type 0
IsWays n ws = (length ws ≡ n) × All IsEntry ws

pub record IsValid (c : CacheUnit) : Type 0 where
  pub line : c.line_size ≡ 64
  pub ways_pos : 0 < c.num_ways
  pub ways_fit : c.num_ways < 4294967296
  pub sets_pos : 0 < c.num_sets
  pub sets : length c.table ≡ c.num_sets
  pub ways : All (IsWays c.num_ways) c.table
  pub frees : length c.next_free ≡ c.num_sets
  pub frees_bounded : All (λ f. f ≤ c.num_ways) c.next_free
  pub clock_fits : c.local_clock < 18446744073709551616

abbrev pub AllValid : Level → Type 0
AllValid (memory latency) = Unit {0}
AllValid (cached c next) = IsValid c × AllValid next

-- A new unit is valid if it has a way and at least one line for each way.
pub new_cache-IsValid :
    (size num_ways latency : ℕ)
    → 0 < num_ways
    → num_ways < 4294967296
    → 0 < size / 64 / num_ways
    → IsValid (new_cache size num_ways latency)
unfolding new_cache
new_cache-IsValid size num_ways latency h k l = record {
  line = refl;
  ways_pos = h;
  ways_fit = k;
  sets_pos = l;
  sets = length-replicate (size / 64 / num_ways) (replicate num_ways empty_entry);
  ways = All-replicate (IsWays num_ways) (size / 64 / num_ways) (replicate num_ways empty_entry) (
    length-replicate num_ways empty_entry,
    All-replicate IsEntry num_ways empty_entry (omega arith),
  );
  frees = length-replicate {A = ℕ} (size / 64 / num_ways) 0;
  frees_bounded = All-replicate (λ f. f ≤ num_ways) (size / 64 / num_ways) 0 (omega arith);
  clock_fits = omega arith;
}

pub set_index-lt : {c : CacheUnit} (ia : InstrAddr) → IsValid c → set_index c ia < c.num_sets
unfolding set_index cacheline_address
set_index-lt ia v = omega arith

-- The ways of a set.
pub IsWays-at :
    {c : CacheUnit} (s : ℕ)
    → IsValid c
    → s < c.num_sets
    → (ws : List CacheEntry) × (get_elem? c.table s ≡ some ws) × IsWays c.num_ways ws
IsWays-at {c} s v h =
    let (ws, e) = get_elem?-in_range c.table s (omega (arith, v.sets)) in
    (ws, e, All-get_elem? (IsWays c.num_ways) c.table s ws v.ways e)

-- A time stamp or an address put into a way keeps the unit valid.
pub table-IsValid :
    {c : CacheUnit} (s : ℕ) (ws : List CacheEntry)
    → IsValid c
    → IsWays c.num_ways ws
    → IsValid (record c { table = set c.table s ws })
table-IsValid {c} s ws v p = record {
  line = v.line;
  ways_pos = v.ways_pos;
  ways_fit = v.ways_fit;
  sets_pos = v.sets_pos;
  sets = omega (arith, length-set c.table s ws, v.sets);
  ways = All-set (IsWays c.num_ways) c.table s ws v.ways p;
  frees = v.frees;
  frees_bounded = v.frees_bounded;
  clock_fits = v.clock_fits;
}

pub next_free-IsValid :
    {c : CacheUnit} (s free : ℕ)
    → IsValid c
    → free ≤ c.num_ways
    → IsValid (record c { next_free = set c.next_free s free })
next_free-IsValid {c} s free v h = record {
  line = v.line;
  ways_pos = v.ways_pos;
  ways_fit = v.ways_fit;
  sets_pos = v.sets_pos;
  sets = v.sets;
  ways = v.ways;
  frees = omega (arith, length-set c.next_free s free, v.frees);
  frees_bounded = All-set (λ f. f ≤ c.num_ways) c.next_free s free v.frees_bounded h;
  clock_fits = v.clock_fits;
}

pub stats-IsValid :
    {c : CacheUnit} (st : CacheStats) → IsValid c → IsValid (record c { stats = st })
stats-IsValid st v = record {
  line = v.line;
  ways_pos = v.ways_pos;
  ways_fit = v.ways_fit;
  sets_pos = v.sets_pos;
  sets = v.sets;
  ways = v.ways;
  frees = v.frees;
  frees_bounded = v.frees_bounded;
  clock_fits = v.clock_fits;
}

pub tick-IsValid : {c : CacheUnit} → IsValid c → IsValid (tick c)
unfolding tick
tick-IsValid v = ground arith

-- `update_way` at an existing way: the very entry that it writes, and the unit after it.
pub update_way_lem :
    {c : CacheUnit} (s w : ℕ) (f : CacheEntry → CacheEntry)
    → IsValid c
    → s < c.num_sets
    → w < c.num_ways
    → ((e : CacheEntry) → IsEntry e → IsEntry (f e))
    → (ws : List CacheEntry) × (e : CacheEntry) × (get_elem? c.table s ≡ some ws)
      × (get_elem? ws w ≡ some e)
      × (update_way c s w f ≡ some (record c { table = set c.table s (set ws w (f e)) }))
      × IsValid (record c { table = set c.table s (set ws w (f e)) })
unfolding update_way
update_way_lem {c} s w f v hs hw keep =
    let (ws, at_s, is_ways) = IsWays-at s v hs in
    let (e, at_w) = get_elem?-in_range ws w (omega (arith, is_ways.0)) in
    (
      ws,
      e,
      at_s,
      at_w,
      rw (at_s, at_w) refl,
      table-IsValid s (set ws w (f e)) v (
        omega (arith, length-set ws w (f e), is_ways.0),
        All-set IsEntry ws w (f e) is_ways.1 (keep e (All-get_elem? IsEntry ws w e is_ways.1 at_w)),
      ),
    )
