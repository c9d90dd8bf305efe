-- ===== src/Cache/Latency.antt =====
-- The latencies that `load` and `store` return, over the whole hierarchy.
use llvm_mca_daemon.Prelude.{
  ℕ, ◌+◌, ◌≤◌, ◌<◌, ◌≡◌, refl, ap, ◌∙◌, Bool, true, false, some, arith, u32, if◌then◌else◌,
}
use llvm_mca_daemon.Metadata.{InstrAddr}
use llvm_mca_daemon.Cache.{
  CacheUnit, Level, memory, cached, cacheline_address, set_index, load, store,
}
use llvm_mca_daemon.Cache.Valid.{AllValid}
use llvm_mca_daemon.Cache.Step.{load_step, store_step}
use llvm_mca_daemon.Cache.Touched.{Touched}

-- The latency of the first level alone.
abbrev pub own_latency : Level → ℕ
own_latency (memory latency) = latency
own_latency (cached c next) = c.latency

-- The sum over all levels.
abbrev pub total_latency : Level → ℕ
total_latency (memory latency) = latency
total_latency (cached c next) = c.latency + total_latency next

-- What an access leaves of the levels behind it: valid, and as slow as before.
abbrev pub Kept : Level → Level → Type 0
Kept v v' = AllValid v' × (total_latency v' ≡ total_latency v) × (own_latency v' ≡ own_latency v)

load_cases :
    (c : CacheUnit) (next : Level) (ia : InstrAddr) (behind : ℕ × Level) (c' : CacheUnit) (w : ℕ)
    (hit : Bool)
    → Touched c c' (set_index c ia) w (cacheline_address c ia).addr
    → load (cached c next) ia
      ≡ some (
          if hit
          then (c.latency, cached c' next)
          else (u32 (c.latency + behind.0), cached c' behind.1))
    → AllValid next
    → Kept next behind.1
    → own_latency next ≤ behind.0
    → behind.0 ≤ total_latency next
    → c.latency + total_latency next < 4294967296
    → (r : ℕ × Level) × (load (cached c next) ia ≡ some r)
      × Kept (cached c next) r.1
      × (c.latency ≤ r.0)
      × (r.0 ≤ c.latency + total_latency next)
load_cases c next ia behind c' w true t e va k lo hi fit = (
  (c.latency, cached c' next),
  e,
  ((t.valid, va), omega (arith, t.same_latency), t.same_latency),
  omega arith,
  omega arith,
)
load_cases c next ia behind c' w false t e va k lo hi fit = (
  (u32 (c.latency + behind.0), cached c' behind.1),
  e,
  ((t.valid, k.0), omega (arith, t.same_latency, k.1), t.same_latency),
  omega arith,
  omega arith,
)

-- On valid levels whose latencies add up to less than 2 ^ 32 a load returns. Its latency lies
-- between that of the first level and the sum over all levels, and the levels after it are valid
-- and of the same latencies.
pub load_bounds :
    (v : Level) (ia : InstrAddr)
    → AllValid v
    → total_latency v < 4294967296
    → (r : ℕ × Level) × (load v ia ≡ some r)
      × Kept v r.1
      × (own_latency v ≤ r.0)
      × (r.0 ≤ total_latency v)
unfolding load
load_bounds (memory latency) ia va fit =
    ((latency, memory latency), refl, (tt, refl, refl), omega arith, omega arith)
load_bounds (cached c next) ia va fit =
    let (behind, e, k, lo, hi) = load_bounds next ia va.1 (omega arith) in
    let (r, loaded) = load_step c next ia behind va.0 e in
    let (t, g, eq) = loaded in load_cases c next ia behind r.0 r.1 r.2 t eq va.1 k lo hi fit

-- On valid levels whose latencies add up to less than 2 ^ 32 a store returns. It is written through
-- every level: whatever the tables hold, it takes the sum of all the latencies, and the levels
-- after it are valid and of the same latencies.
pub store_total :
    (v : Level) (ia : InstrAddr)
    → AllValid v
    → total_latency v < 4294967296
    → (v' : Level) × (store v ia ≡ some (total_latency v, v')) × Kept v v'
unfolding store
store_total (memory latency) ia va fit = (memory latency, refl, (tt, refl, refl))
store_total (cached c next) ia va fit =
    let (next', e, k) = store_total next ia va.1 (omega arith) in
    let (r, stored) = store_step c next ia (total_latency next, next') va.0 e in
    let (t, eq) = stored in
    (
      cached r.0 next',
      eq ∙ ap (λ n. some (n, cached r.0 next')) (omega arith),
      ((t.valid, k.0), omega (arith, t.same_latency, k.1), t.same_latency),
    )
