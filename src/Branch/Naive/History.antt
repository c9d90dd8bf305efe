-- ===== src/Branch/Naive/History.antt =====
-- What the history remembers, how large it gets, and what it gives up.
use llvm_mca_daemon.Prelude.{
  ℕ, zero, suc, ◌+◌, ◌≤◌, ◌<◌, ◌≡◌, refl, ap, ◌∙◌, ◌≢◌, ◌⊎◌, false, none, some, [], ◌∷◌, arith, ltb,
  length, get_elem?, All, Bool-cases, inl, inr,
}
use llvm_mca_daemon.Metadata.{InstrAddr, instr_lt}
use llvm_mca_daemon.Branch.{BranchDirection, not_taken}
use llvm_mca_daemon.Branch.Naive.{
  HistoryEntry, fresh_entry, History, NaiveUnit, find, modify, remove_at, oldest_index,
  evict_oldest, absent, record_entry, record_taken_branch, predict_branch,
}
use llvm_mca_daemon.Branch.Naive.Order.{Fits}

abbrev Change : Type 0
Change = HistoryEntry → HistoryEntry

lt_irrefl : (k : InstrAddr) → Fits k → instr_lt k k ≡ false
unfolding instr_lt
lt_irrefl k fk = ground arith

module _ (k : InstrAddr) (fk : Fits k) where
  -- Two changes through `operator[]` are one change.
  modify-modify :
      (f g : Change) (m : History) → modify k f (modify k g m) ≡ modify k (λ e. f (g e)) m
  unfolding modify
  modify-modify f g [] = rw (lt_irrefl k fk) refl
  modify-modify f g ((a, e) ∷ m) = elim (Bool-cases (instr_lt a k)) [
    | inl p ↦ rw p (rw (p, modify-modify f g m) refl)
    | inr p ↦ elim (Bool-cases (instr_lt k a)) [
      | inl q ↦ rw (p, q) (rw (lt_irrefl k fk) refl)
      | inr q ↦ rw (p, q) (rw (p, q) refl)
    ]
  ]

  -- After a change the key is found, with the changed entry.
  find-modify :
      (f : Change) (m : History) → (e : HistoryEntry) × (find k (modify k f m) ≡ some (f e))
  unfolding find modify
  find-modify f [] = (fresh_entry, rw (lt_irrefl k fk) refl)
  find-modify f ((a, e) ∷ m) = elim (Bool-cases (instr_lt a k)) [
    | inl p ↦ let (x, h) = find-modify f m in (x, rw p (rw (p, h) refl))
    | inr p ↦ elim (Bool-cases (instr_lt k a)) [
      | inl q ↦ (fresh_entry, rw (p, q) (rw (lt_irrefl k fk) refl))
      | inr q ↦ (e, rw (p, q) (rw (p, q) refl))
    ]
  ]

length-modify : (k : InstrAddr) (f : Change) (m : History) → length (modify k f m) ≤ suc (length m)
unfolding modify
length-modify k f [] = omega arith
length-modify k f ((a, e) ∷ m) = ground (arith, length-modify k f m)

-- What `recordTakenBranch` writes, in one change.
abbrev written : NaiveUnit → BranchDirection → Change
written u d e = record { last_direction = d; last_use = u.n_accesses }

record_entry_lem :
    (u : NaiveUnit) (k : InstrAddr) (d : BranchDirection)
    → Fits k
    → record_entry u k d ≡ modify k (written u d) u.history
unfolding record_entry
record_entry_lem u k d fk = elim (Bool-cases (absent (find k u.history))) [
  | inl e ↦ rw e (simp (modify-modify k fk))
  | inr e ↦ rw e (simp (modify-modify k fk))
]

-- Where the search ends: with the index it started from, if no node was used before its time, or
-- with a node that was used before that time and that no other node undercuts.
abbrev Least : ℕ → ℕ → ℕ → History → ℕ → Type 0
Least i best t m w =
    ((w ≡ best) × All (λ x. t ≤ x.1.last_use) m)
    ⊎ ((j : ℕ) × (x : InstrAddr × HistoryEntry) × (w ≡ i + j)
        × (get_elem? m j ≡ some x)
        × (x.1.last_use < t)
        × All (λ y. x.1.last_use ≤ y.1.last_use) m)

older_step :
    (i best t : ℕ) (a : InstrAddr) (e : HistoryEntry) (m : History) (w : ℕ)
    → e.last_use < t
    → Least (i + 1) i e.last_use m w
    → Least i best t ((a, e) ∷ m) w
older_step i best t a e m w h (inl (eq, newer)) =
    inr (zero, (a, e), omega arith, refl, h, (omega arith, newer))
older_step i best t a e m w h (inr (j, x, at, found, lt, least)) =
    inr (suc j, x, omega arith, found, omega arith, (omega arith, least))

newer_step :
    (i best t : ℕ) (a : InstrAddr) (e : HistoryEntry) (m : History) (w : ℕ)
    → t ≤ e.last_use
    → Least (i + 1) best t m w
    → Least i best t ((a, e) ∷ m) w
newer_step i best t a e m w h (inl (eq, newer)) = inl (eq, (h, newer))
newer_step i best t a e m w h (inr (j, x, at, found, lt, least)) =
    inr (suc j, x, omega arith, found, lt, (omega arith, least))

oldest_index-Least : (i best t : ℕ) (m : History) → Least i best t m (oldest_index i best t m)
unfolding oldest_index
oldest_index-Least i best t [] = inl (refl, tt)
oldest_index-Least i best t ((a, e) ∷ m) = elim (Bool-cases (ltb e.last_use t)) [
  | inl p ↦
      rw p (older_step i best t a e m _ (ground arith) (oldest_index-Least (i + 1) i e.last_use m))
  | inr p ↦ rw p (newer_step i best t a e m _ (ground arith) (oldest_index-Least (i + 1) best t m))
]

-- A node of the history whose last use no other node undercuts.
abbrev pub IsOldest : History → ℕ → Type 0
IsOldest m i =
    (x : InstrAddr × HistoryEntry) × (get_elem? m i ≡ some x)
    × All (λ y. x.1.last_use ≤ y.1.last_use) m

IsOldest-of :
    (a : InstrAddr) (e : HistoryEntry) (m : History) (w : ℕ)
    → Least 0 0 e.last_use ((a, e) ∷ m) w
    → IsOldest ((a, e) ∷ m) w
IsOldest-of a e m w (inl (eq, newer)) = ((a, e), rw eq refl, newer)
IsOldest-of a e m w (inr (j, x, at, found, lt, least)) =
    let same : w ≡ j = omega arith in (x, rw same found, least)

length-remove_at :
    (i : ℕ) (m : History) (x : InstrAddr × HistoryEntry)
    → get_elem? m i ≡ some x
    → suc (length (remove_at i m)) ≡ length m
unfolding remove_at
length-remove_at i [] x h = cc
length-remove_at zero (y ∷ m) x h = refl
length-remove_at (suc i) (y ∷ m) x h = ap suc (length-remove_at i m x h)

-- On a history that is not empty the eviction removes one node, and no node that stays was used
-- before it.
evict_oldest_lem :
    (m : History)
    → m ≢ []
    → (i : ℕ) × (evict_oldest m ≡ remove_at i m)
      × IsOldest m i
      × (suc (length (evict_oldest m)) ≡ length m)
unfolding evict_oldest
evict_oldest_lem [] ne = absurd (ne refl)
evict_oldest_lem ((a, e) ∷ m) ne =
    let w = oldest_index 0 0 e.last_use ((a, e) ∷ m) in
    let old = IsOldest-of a e m w (oldest_index-Least 0 0 e.last_use ((a, e) ∷ m)) in
    (w, refl, old, length-remove_at w ((a, e) ∷ m) old.0 old.1)

length-evict_oldest : (m : History) → 0 < length m → suc (length (evict_oldest m)) ≡ length m
length-evict_oldest [] h = elim h [ ]
length-evict_oldest (x ∷ m) h = (evict_oldest_lem (x ∷ m) (λ e. cc)).3

length-record_entry :
    (u : NaiveUnit) (k : InstrAddr) (d : BranchDirection)
    → Fits k
    → length (record_entry u k d) ≤ suc (length u.history)
length-record_entry u k d fk =
    rw (record_entry_lem u k d fk) (length-modify k (written u d) u.history)

-- Recording a branch at an address whose end does not wrap keeps a history that is below its
-- capacity below it: a unit of capacity `n` remembers at most `n - 1` branches.
record_taken_branch_bounded :
    (u : NaiveUnit) (k : InstrAddr) (d : BranchDirection)
    → Fits k
    → length u.history < u.capacity
    → length (record_taken_branch u k d).history < u.capacity
unfolding record_taken_branch
record_taken_branch_bounded u k d fk h =
    ground (arith, length-record_entry u k d fk, length-evict_oldest (record_entry u k d))

-- For an address whose end does not wrap, and a history with room for one more branch below its
-- capacity, the direction recorded last for the address is the one predicted for it.
pub record_then_predict :
    (u : NaiveUnit) (k : InstrAddr) (d : BranchDirection)
    → Fits k
    → suc (length u.history) < u.capacity
    → (predict_branch (record_taken_branch u k d) k).1 ≡ d
unfolding record_taken_branch predict_branch
record_then_predict u k d fk h = ground (
  arith,
  length-record_entry u k d fk,
  record_entry_lem u k d fk,
  find-modify k fk (written u d) u.history,
)

-- A prediction for an address that the history does not have is `NOT_TAKEN`, and leaves the history
-- alone.
predict_unknown :
    (u : NaiveUnit) (k : InstrAddr)
    → find k u.history ≡ none
    → ((predict_branch u k).1 ≡ not_taken) × ((predict_branch u k).0.history ≡ u.history)
unfolding predict_branch
predict_unknown u k e = (ground arith, ground arith)

single_entry :
    (u : NaiveUnit) (k : InstrAddr) (d : BranchDirection)
    → Fits k
    → u.history ≡ []
    → record_entry u k d ≡ (k, written u d fresh_entry) ∷ []
unfolding modify
single_entry u k d fk e = record_entry_lem u k d fk ∙ ap (modify k (written u d)) e

evict_single : (k : InstrAddr) (e : HistoryEntry) → evict_oldest ((k, e) ∷ []) ≡ []
unfolding evict_oldest oldest_index remove_at
evict_single k e = ground arith

-- A unit of a capacity of at most one and an empty history has an empty history after recording a
-- branch at an address whose end does not wrap.
capacity_one_forgets :
    (u : NaiveUnit) (k : InstrAddr) (d : BranchDirection)
    → Fits k
    → u.history ≡ []
    → u.capacity ≤ 1
    → (record_taken_branch u k d).history ≡ []
unfolding record_taken_branch
capacity_one_forgets u k d fk e h =
    ground (arith, single_entry u k d fk, evict_single k (written u d fresh_entry))

find_touching :
    (a b : InstrAddr) (e : HistoryEntry)
    → Fits a
    → Fits b
    → b.addr ≡ a.addr + a.size
    → find b ((a, e) ∷ []) ≡ some e
unfolding find instr_lt
find_touching a b e fa fb adj = ground arith

-- With an empty history of a capacity above one, and two instructions whose ends do not wrap, the
-- second beginning right where the first ends: what is recorded for the first is predicted for the
-- second.
adjacent_share_entry :
    (u : NaiveUnit) (a b : InstrAddr) (d : BranchDirection)
    → Fits a
    → Fits b
    → b.addr ≡ a.addr + a.size
    → u.history ≡ []
    → 1 < u.capacity
    → (predict_branch (record_taken_branch u a d) b).1 ≡ d
unfolding record_taken_branch predict_branch
adjacent_share_entry u a b d fa fb adj e h =
    ground (arith, single_entry u a d fa, find_touching a b (written u d fresh_entry) fa fb adj)
