-- ===== src/Cache/Step.antt =====
-- What `load` and `store` do to the unit they are called on.
use llvm_mca_daemon.Prelude.{
  ℕ, ◌+◌, ◌%◌, ◌≡◌, refl, sym, ap, ◌∙◌, Bool, true, false, Option, none, some, List, arith, u32,
  if◌then◌else◌, get_elem?, All-get_elem?, lt-of_get_elem?,
}
use llvm_mca_daemon.Metadata.{InstrAddr}
use llvm_mca_daemon.Cache.{
  CacheEntry, CacheUnit, Level, cached, cacheline_address, set_index, find_way, get_entry, tick,
  claim, stamp, finish_load, load, store, count_miss, count_load, count_store,
}
use llvm_mca_daemon.Cache.Valid.{IsEntry, IsWays, IsValid, set_index-lt, IsWays-at, tick-IsValid}
use llvm_mca_daemon.Cache.Access.{FoundAt, find_way-FoundAt, evict_entry_lem}
use llvm_mca_daemon.Cache.Touched.{
  Touched, Touched-trans, before-Touched, stats-Touched, update_way-Touched, set_index-Touched,
}

line_of_aligned :
    {c : CacheUnit} (ia : InstrAddr)
    → IsValid c
    → ia.addr % 64 ≡ 0
    → (cacheline_address c ia).addr ≡ ia.addr
unfolding cacheline_address
line_of_aligned ia v h = ground (arith, v.line)

line-IsEntry : {c : CacheUnit} (ia : InstrAddr) → IsValid c → (cacheline_address c ia).addr % 64 ≡ 0
unfolding cacheline_address
line-IsEntry ia v = ground (arith, v.line)

-- What `claim` yields: a way of the address's set that holds its line.
abbrev Claimed : CacheUnit → InstrAddr → Bool × ℕ × CacheUnit → Type 0
Claimed c ia r =
    (claim c ia ≡ some r)
    × Touched c r.2 (set_index c ia) r.1 (cacheline_address c ia).addr
    × (get_entry c ia ≡ some (if r.0 then some r.1 else none))

claim_of_found :
    {c : CacheUnit} (ia : InstrAddr) (ws : List CacheEntry) (found : Option ℕ)
    → IsValid c
    → get_elem? c.table (set_index c ia) ≡ some ws
    → IsWays c.num_ways ws
    → FoundAt ia.addr ws found
    → get_entry c ia ≡ some found
    → (r : Bool × ℕ × CacheUnit) × Claimed c ia r
unfolding claim
claim_of_found {c} ia ws (some w) v at_s is_ways (e, at_w, addr) g =
    let aligned = All-get_elem? IsEntry ws w e is_ways.1 at_w in
    (
      (true, w, c),
      (
        rw g refl,
        record {
          valid = v;
          same_line = refl;
          same_ways = refl;
          same_sets = refl;
          same_latency = refl;
          in_ways = omega (arith, lt-of_get_elem? ws w e at_w, is_ways.0);
          way_set = ws;
          way_entry = e;
          at_set = at_s;
          at_way = at_w;
          has_addr = addr ∙ sym (line_of_aligned ia v (omega (arith, aligned.0)));
          others = λ j ne. refl;
        },
        g,
      ),
    )
claim_of_found {c} ia ws none v at_s is_ways f g =
    let (w, frees, evicted, hw, valid) = evict_entry_lem ia v in
    let (c', updated, t) =
      update_way-Touched (set_index c ia) w (cacheline_address c ia).addr
        (λ e. record e { cached_address = cacheline_address c ia }) valid (set_index-lt ia v) hw
        (λ e p. (line-IsEntry ia v, p.1)) (λ ws e at_s at_w. refl) in
    ((false, w, c'), (rw (g, evicted, updated) refl, before-Touched refl refl refl refl refl t, g))

-- On a valid unit `claim` never goes through a null pointer, and `getEntry` tells whether the
-- address was there before.
pub claim_lem :
    {c : CacheUnit} (ia : InstrAddr) → IsValid c → (r : Bool × ℕ × CacheUnit) × Claimed c ia r
unfolding get_entry
claim_lem {c} ia v =
    let (ws, at_s, is_ways) = IsWays-at (set_index c ia) v (set_index-lt ia v) in
    claim_of_found ia ws (find_way ia.addr ws) v at_s is_ways (find_way-FoundAt ia.addr ws)
      (rw at_s refl)

-- The time stamp leaves the address in place.
stamp-Touched :
    {c c' : CacheUnit} (ia : InstrAddr) {w a : ℕ}
    → Touched c c' (set_index c ia) w a
    → (c'' : CacheUnit) × (stamp c' ia w ≡ some c'') × Touched c c'' (set_index c ia) w a
unfolding stamp
stamp-Touched {c} {c'} ia {w} {a} t =
    let (c'', eq, u) =
      update_way-Touched (set_index c ia) w a (λ x. record x { last_access = u32 c'.local_clock })
        t.valid (omega (arith, set_index-Touched ia t, set_index-lt ia t.valid))
        (omega (arith, t.in_ways, t.same_ways)) (λ x p. (p.0, omega arith))
        λ ws e at_s at_w.
          let same : ws ≡ t.way_set = cc (at_s, t.at_set) in
          let same_entry : e ≡ t.way_entry = cc (same, at_w, t.at_way) in
          ap (λ x. x.cached_address.addr) same_entry ∙ t.has_addr in
    (c'', rw (set_index-Touched ia t) eq, Touched-trans t u)

claim-tick :
    {c : CacheUnit} (ia : InstrAddr)
    → IsValid c
    → (r : Bool × ℕ × CacheUnit) × (claim (tick c) ia ≡ some r)
      × Touched c r.2 (set_index c ia) r.1 (cacheline_address c ia).addr
      × (get_entry c ia ≡ some (if r.0 then some r.1 else none))
unfolding tick set_index cacheline_address get_entry
claim-tick {c} ia v =
    let (r, claimed) = claim_lem ia (tick-IsValid v) in
    (r, claimed.0, before-Touched refl refl refl refl refl claimed.1, claimed.2)

module _ (c : CacheUnit) (next : Level) (ia : InstrAddr) (behind : ℕ × Level) where
  abbrev pub Loaded : CacheUnit × ℕ × Bool → Type 0
  Loaded (c', w, hit) =
      Touched c c' (set_index c ia) w (cacheline_address c ia).addr
      × (get_entry c ia ≡ some (if hit then some w else none))
      × (load (cached c next) ia
          ≡ some (
              if hit
              then (c.latency, cached c' next)
              else (u32 (c.latency + behind.0), cached c' behind.1)))

  load_of_claim :
      (hit : Bool) (w : ℕ) (c1 : CacheUnit)
      → claim (tick c) ia ≡ some (hit, w, c1)
      → Touched c c1 (set_index c ia) w (cacheline_address c ia).addr
      → get_entry c ia ≡ some (if hit then some w else none)
      → load next ia ≡ some behind
      → (r : CacheUnit × ℕ × Bool) × Loaded r
  unfolding load finish_load
  load_of_claim true w c1 claimed t g e =
      let (c2, stamped, u) = stamp-Touched ia t in
      ((count_load c.latency c2, w, true), (stats-Touched _ u, g, rw (claimed, stamped) refl))
  load_of_claim false w c1 claimed t g e =
      let (c2, stamped, u) = stamp-Touched ia (stats-Touched (count_miss c1).stats t) in
      (
        (count_load (u32 (c.latency + behind.0)) c2, w, false),
        (stats-Touched _ u, g, rw (claimed, e, stamped) refl),
      )

  -- `load` on a valid unit: on a hit its own latency and the next level untouched, else both.
  pub load_step : IsValid c → load next ia ≡ some behind → (r : CacheUnit × ℕ × Bool) × Loaded r
  load_step v e =
      let (r, claimed, t, g) = claim-tick ia v in load_of_claim r.0 r.1 r.2 claimed t g e

  abbrev pub Stored : CacheUnit × ℕ → Type 0
  Stored (c', w) =
      Touched c c' (set_index c ia) w (cacheline_address c ia).addr
      × (store (cached c next) ia ≡ some (u32 (c.latency + behind.0), cached c' behind.1))

  -- `store` on a valid unit: always both.
  pub store_step : IsValid c → store next ia ≡ some behind → (r : CacheUnit × ℕ) × Stored r
  unfolding store
  store_step v e =
      let (r, claimed, t, g) = claim-tick ia v in
      let (c'', stamped, u) = stamp-Touched ia t in
      (
        (count_store (u32 (c.latency + behind.0)) c'', r.1),
        (stats-Touched _ u, rw (claimed, stamped, e) refl),
      )
