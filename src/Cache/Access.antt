-- ===== src/Cache/Access.antt =====
-- One access to a unit: the entry that `getEntry` or `evictEntry` yields, and the unit after the
-- writes through it.
use llvm_mca_daemon.Prelude.{
  ℕ, zero, suc, ◌+◌, ◌≤◌, ◌<◌, ◌≡◌, refl, ◌≢◌, ◌⊎◌, inl, inr, Bool, true, false, Option, none, some,
  List, [], ◌∷◌, arith, ltb, leb, ◌==◌, ==_iff, u32, if◌then◌else◌, ◌>>=◌, length, get_elem?, set,
  All, get_elem?-in_range, Bool-cases,
}
use llvm_mca_daemon.Metadata.{InstrAddr}
use llvm_mca_daemon.Cache.{
  CacheEntry, CacheUnit, set_index, find_way, lru_scan, max_time, evict_entry,
}
use llvm_mca_daemon.Cache.Valid.{IsEntry, IsValid, set_index-lt, IsWays-at, next_free-IsValid}

-- What `getEntry` returns on a set: a way with the address, or nothing where no way has it.
abbrev pub FoundAt : ℕ → List CacheEntry → Option ℕ → Type 0
FoundAt a ws none = All (λ e. e.cached_address.addr ≢ a) ws
FoundAt a ws (some i) = (e : CacheEntry) × (get_elem? ws i ≡ some e) × (e.cached_address.addr ≡ a)

find_way_step :
    (a : ℕ) (w : CacheEntry) (ws : List CacheEntry) (rest : Option ℕ) (t : Bool)
    → FoundAt a ws rest
    → (w.cached_address.addr == a) ≡ t
    → FoundAt a (w ∷ ws) (if t then some 0 else (rest >>= λ i. some (suc i)))
find_way_step a w ws rest true f e = (w, refl, (==_iff _ a).0 e)
find_way_step a w ws none false f e = (λ p. ground (arith, p), f)
find_way_step a w ws (some i) false f e = f

pub find_way-FoundAt : (a : ℕ) (ws : List CacheEntry) → FoundAt a ws (find_way a ws)
unfolding find_way
find_way-FoundAt a [] = tt
find_way-FoundAt a (w ∷ ws) = find_way_step a w ws _ _ (find_way-FoundAt a ws) refl

-- A set that holds an address yields some way for it.
pub find_way_held :
    (a : ℕ) (ws : List CacheEntry) (i : ℕ) (e : CacheEntry)
    → get_elem? ws i ≡ some e
    → e.cached_address.addr ≡ a
    → (j : ℕ) × (find_way a ws ≡ some j)
unfolding find_way
find_way_held a [] i e h p = cc
find_way_held a (w ∷ ws) zero e h p = (0, ground arith)
find_way_held a (w ∷ ws) (suc i) e h p = elim (Bool-cases (w.cached_address.addr == a)) [
  | inl q ↦ (0, rw q)
  | inr q ↦ let (j, f) = find_way_held a ws i e h p in (suc j, rw (q, f))
]

-- The scan for the least recent entry, once it has a candidate, ends with that one or a later one.
lru_scan-some :
    (i b t : ℕ) (ws : List CacheEntry)
    → (w : ℕ) × (lru_scan i (some b) t ws ≡ some w) × ((w ≡ b) ⊎ ((i ≤ w) × (w < i + length ws)))
unfolding lru_scan
lru_scan-some i b t [] = (b, refl, inl refl)
lru_scan-some i b t (x ∷ ws) = elim (Bool-cases (leb x.last_access t)) [
  | inl e ↦ let (w, eq, at) = lru_scan-some (i + 1) i x.last_access ws in (w, rw e eq, ground arith)
  | inr e ↦ let (w, eq, at) = lru_scan-some (i + 1) b t ws in (w, rw e eq, ground arith)
]

-- So it never ends with the null pointer on a set of times that fit.
leb_max :
    (x : CacheEntry) → x.last_access < 18446744073709551616 → leb x.last_access max_time ≡ true
leb_max x h = ground arith

lru_scan_lt :
    (ws : List CacheEntry)
    → 0 < length ws
    → All IsEntry ws
    → (w : ℕ) × (lru_scan 0 none max_time ws ≡ some w) × (w < length ws)
unfolding lru_scan
lru_scan_lt [] h p = elim h [ ]
lru_scan_lt (x ∷ ws) h p =
    let (w, eq, at) = lru_scan-some 1 0 x.last_access ws in
    (w, rw (leb_max x p.0.1) eq, ground arith)

-- `evictEntry`: a way of the set, and the unit with `nextFree` moved on or as it was.
pub evict_entry_lem :
    {c : CacheUnit} (ia : InstrAddr)
    → IsValid c
    → (w : ℕ) × (frees : List ℕ) × (evict_entry c ia ≡ some (w, record c { next_free = frees }))
      × (w < c.num_ways)
      × IsValid (record c { next_free = frees })
unfolding evict_entry
evict_entry_lem {c} ia v =
    let s = set_index c ia in
    let hs = set_index-lt ia v in
    let (free, at_s) = get_elem?-in_range c.next_free s (omega (arith, v.frees)) in
    let (ws, ways_s, is_ways) = IsWays-at s v hs in
    let (w, scan, lt) = lru_scan_lt ws (omega (arith, v.ways_pos, is_ways.0)) is_ways.1 in
    elim (Bool-cases (ltb free c.num_ways)) [
      | inl e ↦ (
        free,
        set c.next_free s (u32 (free + 1)),
        rw (at_s, e) refl,
        ground arith,
        next_free-IsValid s (u32 (free + 1)) v (ground (arith, v.ways_fit)),
      )
      | inr e ↦ (w, c.next_free, rw (at_s, e, ways_s, scan) refl, omega (arith, is_ways.0), v)
    ]
