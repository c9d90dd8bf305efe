-- ===== src/Cache/Touched.antt =====
-- The state of `CacheUnit` after an access to one of its ways: which parts of it are kept.
use llvm_mca_daemon.Prelude.{
  ℕ, ◌<◌, ◌≡◌, refl, ap, ◌∙◌, ◌≢◌, some, List, arith, length, get_elem?, set, get_elem?-set_self,
  get_elem?-set_ne,
}
use llvm_mca_daemon.Metadata.{InstrAddr}
use llvm_mca_daemon.Cache.{
  CacheEntry, CacheStats, CacheUnit, cacheline_address, set_index, update_way,
}
use llvm_mca_daemon.Cache.Valid.{IsEntry, IsValid, IsWays-at, stats-IsValid, update_way_lem}

-- `c'` is `c` after an access to way `w` of set `s`, which now holds the line address `a`: still
-- valid, of the same shape, and the same in every other set.
pub record Touched (c c' : CacheUnit) (s w a : ℕ) : Type 0 where
  pub valid : IsValid c'
  pub same_line : c'.line_size ≡ c.line_size
  pub same_ways : c'.num_ways ≡ c.num_ways
  pub same_sets : c'.num_sets ≡ c.num_sets
  pub same_latency : c'.latency ≡ c.latency
  pub in_ways : w < c.num_ways
  pub way_set : List CacheEntry
  pub way_entry : CacheEntry
  pub at_set : get_elem? c'.table s ≡ some way_set
  pub at_way : get_elem? way_set w ≡ some way_entry
  pub has_addr : way_entry.cached_address.addr ≡ a
  pub others : (j : ℕ) → s ≢ j → get_elem? c'.table j ≡ get_elem? c.table j

pub Touched-trans :
    {c c' c'' : CacheUnit} {s w a : ℕ}
    → Touched c c' s w a
    → Touched c' c'' s w a
    → Touched c c'' s w a
Touched-trans t u = record {
  valid = u.valid;
  same_line = u.same_line ∙ t.same_line;
  same_ways = u.same_ways ∙ t.same_ways;
  same_sets = u.same_sets ∙ t.same_sets;
  same_latency = u.same_latency ∙ t.same_latency;
  in_ways = t.in_ways;
  way_set = u.way_set;
  way_entry = u.way_entry;
  at_set = u.at_set;
  at_way = u.at_way;
  has_addr = u.has_addr;
  others = λ j ne. u.others j ne ∙ t.others j ne;
}

-- The unit before may differ in all that `Touched` does not speak of.
pub before-Touched :
    {b c c' : CacheUnit} {s w a : ℕ}
    → b.line_size ≡ c.line_size
    → b.num_ways ≡ c.num_ways
    → b.num_sets ≡ c.num_sets
    → b.latency ≡ c.latency
    → b.table ≡ c.table
    → Touched b c' s w a
    → Touched c c' s w a
before-Touched line ways sets latency table t = record {
  valid = t.valid;
  same_line = t.same_line ∙ line;
  same_ways = t.same_ways ∙ ways;
  same_sets = t.same_sets ∙ sets;
  same_latency = t.same_latency ∙ latency;
  in_ways = omega (arith, t.in_ways, ways);
  way_set = t.way_set;
  way_entry = t.way_entry;
  at_set = t.at_set;
  at_way = t.at_way;
  has_addr = t.has_addr;
  others = λ j ne. t.others j ne ∙ ap (λ x. get_elem? x j) table;
}

-- Nor does it speak of the statistics of the unit after.
pub stats-Touched :
    {c c' : CacheUnit} {s w a : ℕ} (st : CacheStats)
    → Touched c c' s w a
    → Touched c (record c' { stats = st }) s w a
stats-Touched {c} {c'} st t = record {
  valid = stats-IsValid st t.valid;
  same_line = t.same_line;
  same_ways = t.same_ways;
  same_sets = t.same_sets;
  same_latency = t.same_latency;
  in_ways = t.in_ways;
  way_set = t.way_set;
  way_entry = t.way_entry;
  at_set = t.at_set;
  at_way = t.at_way;
  has_addr = t.has_addr;
  others = t.others;
}

-- The address that an entry holds decides what `update_way` leaves in its place.
pub update_way-Touched :
    {c : CacheUnit} (s w a : ℕ) (f : CacheEntry → CacheEntry)
    → IsValid c
    → s < c.num_sets
    → w < c.num_ways
    → ((e : CacheEntry) → IsEntry e → IsEntry (f e))
    → ((ws : List CacheEntry) (e : CacheEntry)
        → get_elem? c.table s ≡ some ws
        → get_elem? ws w ≡ some e
        → (f e).cached_address.addr ≡ a)
    → (c' : CacheUnit) × (update_way c s w f ≡ some c') × Touched c c' s w a
update_way-Touched {c} s w a f v hs hw keep addr =
    let (ws, e, at_s, at_w, eq, valid) = update_way_lem s w f v hs hw keep in
    let (ws', at_s', is_ways) = IsWays-at s v hs in
    let same : ws ≡ ws' = cc in
    (
      record c { table = set c.table s (set ws w (f e)) },
      eq,
      record {
        valid = valid;
        same_line = refl;
        same_ways = refl;
        same_sets = refl;
        same_latency = refl;
        in_ways = hw;
        way_set = set ws w (f e);
        way_entry = f e;
        at_set = get_elem?-set_self c.table s (set ws w (f e)) (omega (arith, v.sets));
        at_way = get_elem?-set_self ws w (f e) (omega (arith, is_ways.0, ap length same));
        has_addr = addr ws e at_s at_w;
        others = λ j ne. get_elem?-set_ne c.table s j (set ws w (f e)) ne;
      },
    )

pub set_index-Touched :
    {c c' : CacheUnit} {s w a : ℕ} (ia : InstrAddr)
    → Touched c c' s w a
    → set_index c' ia ≡ set_index c ia
unfolding set_index cacheline_address
set_index-Touched ia t = rw (t.same_line, t.same_sets) refl
