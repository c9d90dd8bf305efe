-- ===== src/Cache/Hits.antt =====
-- Which loads hit.
use llvm_mca_daemon.Prelude.{
  ℕ, ◌+◌, ◌-◌, ◌/◌, ◌%◌, ◌<◌, ◌≡◌, refl, sym, ap, ◌∙◌, ◌≢◌, Bool, true, false, Option, none, some,
  List, arith, u32, if◌then◌else◌, All, All-get_elem?,
}
use llvm_mca_daemon.Metadata.{InstrAddr}
use llvm_mca_daemon.Cache.{
  CacheEntry, CacheUnit, Level, memory, cached, cacheline_address, set_index, find_way, get_entry,
  load, store,
}
use llvm_mca_daemon.Cache.Valid.{IsEntry, IsValid, AllValid, set_index-lt, IsWays-at}
use llvm_mca_daemon.Cache.Access.{FoundAt, find_way-FoundAt, find_way_held}
use llvm_mca_daemon.Cache.Step.{load_step, store_step}
use llvm_mca_daemon.Cache.Touched.{Touched, set_index-Touched}
use llvm_mca_daemon.Cache.Latency.{total_latency, Kept, load_bounds, store_total}

-- An address that is no multiple of the line size is found in no valid unit.
unaligned_not_found :
    {c : CacheUnit} (ia : InstrAddr) → IsValid c → ia.addr % 64 ≢ 0 → get_entry c ia ≡ some none
unfolding get_entry
unaligned_not_found {c} ia v ne =
    let (ws, at_s, is_ways) = IsWays-at (set_index c ia) v (set_index-lt ia v) in
    rw at_s (ap some (go ws is_ways.1 (find_way ia.addr ws) (find_way-FoundAt ia.addr ws)))
  where
    go :
        (ws : List CacheEntry)
        → All IsEntry ws
        → (found : Option ℕ) → FoundAt ia.addr ws found
        → found ≡ none
    go ws p none f = refl
    go ws p (some i) (e, at, addr) =
        absurd (ne (omega (arith, addr, (All-get_elem? IsEntry ws i e p at).0)))

miss_of_not_found :
    (w : ℕ) (hit : Bool)
    → ◌≡◌ {A = Option (Option ℕ)} (some (if hit then some w else none)) (some none)
    → hit ≡ false
miss_of_not_found w true e = cc
miss_of_not_found w false e = refl

hit_of_found :
    (w j : ℕ) (hit : Bool)
    → ◌≡◌ {A = Option (Option ℕ)} (some (if hit then some w else none)) (some (some j))
    → hit ≡ true
hit_of_found w j true e = refl
hit_of_found w j false e = cc

-- On valid levels whose latencies add up to less than 2 ^ 32, a load from an address that is no
-- multiple of 64, the size of a line, misses in every level, whatever was loaded or stored before:
-- it takes the sum of all the latencies. The levels after it are valid and of the same latencies.
pub load_unaligned_misses :
    (v : Level) (ia : InstrAddr)
    → AllValid v
    → total_latency v < 4294967296
    → ia.addr % 64 ≢ 0
    → (v' : Level) × (load v ia ≡ some (total_latency v, v')) × Kept v v'
unfolding load
load_unaligned_misses (memory latency) ia va fit ne = (memory latency, refl, (tt, refl, refl))
load_unaligned_misses (cached c next) ia va fit ne =
    let (next', e, k) = load_unaligned_misses next ia va.1 (omega arith) ne in
    let (r, loaded) = load_step c next ia (total_latency next, next') va.0 e in
    let (t, g, eq) = loaded in
    let miss = miss_of_not_found r.1 r.2 (sym g ∙ unaligned_not_found ia va.0 ne) in
    (
      cached r.0 next',
      (rw miss at eq) ∙ ap (λ n. some (n, cached r.0 next')) (omega arith),
      ((t.valid, k.0), omega (arith, t.same_latency, k.1), t.same_latency),
    )

line_again : (a b l : ℕ) → l ≡ 64 → b ≡ a - a % l → b - b % l ≡ a - a % l
line_again a b l h e = let e' : b ≡ a - a % 64 = rw h at e in rw h (omega arith)

-- The set of an address is that of its line.
set_index-line :
    {c : CacheUnit} (ia ja : InstrAddr)
    → IsValid c
    → ja.addr ≡ (cacheline_address c ia).addr
    → set_index c ja ≡ set_index c ia
unfolding set_index cacheline_address
set_index-line {c} ia ja v e =
    ap (λ n. n / c.line_size % c.num_sets) (line_again ia.addr ja.addr c.line_size v.line e)

-- A unit that an access has touched finds the line address of that access.
found-Touched :
    {c c' : CacheUnit} {w : ℕ} (ia ja : InstrAddr)
    → IsValid c
    → Touched c c' (set_index c ia) w (cacheline_address c ia).addr
    → ja.addr ≡ (cacheline_address c ia).addr
    → (j : ℕ) × (get_entry c' ja ≡ some (some j))
unfolding get_entry
found-Touched {c} {c'} {w} ia ja v t e =
    let same : set_index c' ja ≡ set_index c ia =
      set_index-Touched ja t ∙ set_index-line ia ja v e in
    let (j, found) = find_way_held ja.addr t.way_set w t.way_entry t.at_way (t.has_addr ∙ sym e) in
    (j, rw (same, t.at_set, found) refl)

-- A load of an address that the first level finds takes the latency of that level alone.
load_found :
    (c : CacheUnit) (next : Level) (ja : InstrAddr) (j : ℕ)
    → IsValid c
    → AllValid next
    → total_latency next < 4294967296
    → get_entry c ja ≡ some (some j)
    → (v' : Level) × (load (cached c next) ja ≡ some (c.latency, v'))
load_found c next ja j v va fit g =
    let (behind, e, k, lo, hi) = load_bounds next ja va fit in
    let (r, loaded) = load_step c next ja behind v e in
    let hit = hit_of_found r.1 j r.2 (sym loaded.1 ∙ g) in (cached r.0 next, rw hit at loaded.2)

module _ (c : CacheUnit) (next : Level) (ia ja : InstrAddr) (v : IsValid c) (va : AllValid next)
    (fit : c.latency + total_latency next < 4294967296)
    (line : ja.addr ≡ (cacheline_address c ia).addr) where
  reload :
      (c' : CacheUnit) (next' : Level) (w : ℕ)
      → Touched c c' (set_index c ia) w (cacheline_address c ia).addr
      → AllValid next'
      → total_latency next' ≡ total_latency next
      → (v' : Level) × (load (cached c' next') ja ≡ some (c.latency, v'))
  reload c' next' w t va' same =
      let (j, found) = found-Touched ia ja v t line in
      let (v', e) = load_found c' next' ja j t.valid va' (omega arith) found in
      (v', e ∙ ap (λ n. some (n, v')) t.same_latency)

  load_reload :
      (behind : ℕ × Level) (c' : CacheUnit) (w : ℕ) (hit : Bool)
      → Touched c c' (set_index c ia) w (cacheline_address c ia).addr
      → load (cached c next) ia
        ≡ some (
            if hit
            then (c.latency, cached c' next)
            else (u32 (c.latency + behind.0), cached c' behind.1))
      → Kept next behind.1
      → (r : ℕ × Level) × (v' : Level) × (load (cached c next) ia ≡ some r)
        × (load r.1 ja ≡ some (c.latency, v'))
  load_reload behind c' w true t e k =
      let (v', again) = reload c' next w t va refl in ((c.latency, cached c' next), v', e, again)
  load_reload behind c' w false t e k =
      let (v', again) = reload c' behind.1 w t k.0 k.1 in
      ((u32 (c.latency + behind.0), cached c' behind.1), v', e, again)

  -- On a valid unit before valid levels, all of their latencies adding up to less than 2 ^ 32:
  -- after a load, a load of the address of its line takes the latency of the first unit alone.
  pub load_then_load :
      (r : ℕ × Level) × (v' : Level) × (load (cached c next) ia ≡ some r)
      × (load r.1 ja ≡ some (c.latency, v'))
  load_then_load =
      let (behind, e, k, lo, hi) = load_bounds next ia va (omega arith) in
      let (r, loaded) = load_step c next ia behind v e in
      load_reload behind r.0 r.1 r.2 loaded.0 loaded.2 k

  -- On a valid unit before valid levels, all of their latencies adding up to less than 2 ^ 32:
  -- after a store, a load of the address of its line takes the latency of the first unit alone.
  store_then_load :
      (r : ℕ × Level) × (v' : Level) × (store (cached c next) ia ≡ some r)
      × (load r.1 ja ≡ some (c.latency, v'))
  store_then_load =
      let (next', e, k) = store_total next ia va (omega arith) in
      let (r, stored) = store_step c next ia (total_latency next, next') v e in
      let (v', again) = reload r.0 next' r.1 stored.0 k.0 k.1 in
      ((u32 (c.latency + total_latency next), cached r.0 next'), v', stored.1, again)
