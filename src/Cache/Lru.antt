-- ===== src/Cache/Lru.antt =====
-- Which entry `evictEntry` gives up.
use llvm_mca_daemon.Prelude.{
  ℕ, zero, suc, ◌+◌, ◌≤◌, ◌<◌, ◌≡◌, refl, ap, ◌∙◌, ◌⊎◌, inl, inr, true, none, some, List, [], ◌∷◌,
  arith, ltb, leb, u32, length, get_elem?, set, All, All-mono, All-get_elem?, get_elem?-set_self,
  lt-of_get_elem?, Bool-cases,
}
use llvm_mca_daemon.Metadata.{InstrAddr}
use llvm_mca_daemon.Cache.{CacheEntry, CacheUnit, set_index, lru_scan, max_time, evict_entry}
use llvm_mca_daemon.Cache.Valid.{IsEntry, IsWays, IsValid}

-- Where the scan ends: with the candidate it started from, if all later entries are newer, or with
-- an entry that is at least as old as all of them and as the candidate.
abbrev Oldest : ℕ → ℕ → ℕ → List CacheEntry → ℕ → Type 0
Oldest i b t ws w =
    ((w ≡ b) × All (λ x. t < x.last_access) ws)
    ⊎ ((k : ℕ) × (e : CacheEntry) × (w ≡ i + k)
        × (get_elem? ws k ≡ some e)
        × (e.last_access ≤ t)
        × All (λ x. e.last_access ≤ x.last_access) ws)

older_step :
    (i b t : ℕ) (x : CacheEntry) (ws : List CacheEntry) (w : ℕ)
    → x.last_access ≤ t
    → Oldest (i + 1) i x.last_access ws w
    → Oldest i b t (x ∷ ws) w
older_step i b t x ws w h (inl (e, newer)) =
    inr (zero, x, omega arith, refl, h, (omega arith, All-mono _ ws (λ y p. omega arith) newer))
older_step i b t x ws w h (inr (k, e, at, found, le, least)) =
    inr (suc k, e, omega arith, found, omega arith, (le, least))

newer_step :
    (i b t : ℕ) (x : CacheEntry) (ws : List CacheEntry) (w : ℕ)
    → t < x.last_access
    → Oldest (i + 1) b t ws w
    → Oldest i b t (x ∷ ws) w
newer_step i b t x ws w h (inl (e, newer)) = inl (e, (h, newer))
newer_step i b t x ws w h (inr (k, e, at, found, le, least)) =
    inr (suc k, e, omega arith, found, le, (omega arith, least))

lru_scan-Oldest :
    (i b t : ℕ) (ws : List CacheEntry)
    → (w : ℕ) × (lru_scan i (some b) t ws ≡ some w) × Oldest i b t ws w
unfolding lru_scan
lru_scan-Oldest i b t [] = (b, refl, inl (refl, tt))
lru_scan-Oldest i b t (x ∷ ws) = elim (Bool-cases (leb x.last_access t)) [
  | inl e ↦
      let (w, eq, o) = lru_scan-Oldest (i + 1) i x.last_access ws in
      (w, rw e eq, older_step i b t x ws w (ground arith) o)
  | inr e ↦
      let (w, eq, o) = lru_scan-Oldest (i + 1) b t ws in
      (w, rw e eq, newer_step i b t x ws w (ground arith) o)
]

-- The victim of a set: an entry of it whose time stamp no other entry of the set undercuts.
abbrev pub IsVictim : List CacheEntry → ℕ → Type 0
IsVictim ws w =
    (e : CacheEntry) × (get_elem? ws w ≡ some e) × All (λ x. e.last_access ≤ x.last_access) ws

IsVictim-of :
    (x : CacheEntry) (ws : List CacheEntry) (w : ℕ)
    → Oldest 1 0 x.last_access ws w
    → IsVictim (x ∷ ws) w
IsVictim-of x ws w (inl (e, newer)) =
    (x, rw e refl, (omega arith, All-mono _ ws (λ y p. omega arith) newer))
IsVictim-of x ws w (inr (k, e, at, found, le, least)) =
    let next : w ≡ suc k = omega arith in (e, rw next found, (le, least))

leb_max : (t : ℕ) → t < 18446744073709551616 → leb t max_time ≡ true
leb_max t h = ground arith

lru_scan-IsVictim :
    (ws : List CacheEntry)
    → 0 < length ws
    → All IsEntry ws
    → (w : ℕ) × (lru_scan 0 none max_time ws ≡ some w) × IsVictim ws w
unfolding lru_scan
lru_scan-IsVictim [] h p = elim h [ ]
lru_scan-IsVictim (x ∷ ws) h p =
    let (w, eq, o) = lru_scan-Oldest 1 0 x.last_access ws in
    (w, rw (leb_max x.last_access p.0.1) eq, IsVictim-of x ws w o)

-- On a valid unit, while a set has a way that was never used, `evictEntry` takes the next such way
-- and counts it; after that it takes an entry of the least recent time stamp and changes nothing in
-- the unit.
pub evict_entry_choice :
    (c : CacheUnit) (ia : InstrAddr) (ws : List CacheEntry) (free : ℕ)
    → IsValid c
    → get_elem? c.table (set_index c ia) ≡ some ws
    → get_elem? c.next_free (set_index c ia) ≡ some free
    → (w : ℕ) × (c' : CacheUnit) × (evict_entry c ia ≡ some (w, c'))
      × (((free < c.num_ways)
            × (w ≡ free)
            × (get_elem? c'.next_free (set_index c ia) ≡ some (free + 1))
            × (c'.table ≡ c.table))
          ⊎ ((free ≡ c.num_ways) × (c' ≡ c) × IsVictim ws w))
unfolding evict_entry
evict_entry_choice c ia ws free v at_table at_free =
    let s = set_index c ia in
    let is_ways = All-get_elem? (IsWays c.num_ways) c.table s ws v.ways at_table in
    let bounded = All-get_elem? (λ f. f ≤ c.num_ways) c.next_free s free v.frees_bounded at_free in
    let (w, scan, victim) = lru_scan-IsVictim ws (omega (arith, v.ways_pos, is_ways.0)) is_ways.1 in
    elim (Bool-cases (ltb free c.num_ways)) [
      | inl e ↦ (
        free,
        record c { next_free = set c.next_free s (u32 (free + 1)) },
        rw (at_free, e) refl,
        inl (
          ground arith,
          refl,
          get_elem?-set_self c.next_free s (u32 (free + 1))
                (lt-of_get_elem? c.next_free s free at_free)
              ∙ ap some (ground (arith, v.ways_fit)),
          refl,
        ),
      )
      | inr e ↦ (w, c, rw (at_free, e, at_table, scan) refl, inr (ground arith, refl, victim))
    ]
