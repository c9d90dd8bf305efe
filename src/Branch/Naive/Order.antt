-- ===== src/Branch/Naive/Order.antt =====
-- The order of the keys of the branch history.
use llvm_mca_daemon.Prelude.{
  ℕ, zero, suc, ◌+◌, ◌≤◌, ◌<◌, ◌≡◌, ◌↔◌, false, [], ◌∷◌, arith, u32, Bool-cases, inl, inr,
}
use llvm_mca_daemon.Metadata.{InstrAddr, instr_lt}
use llvm_mca_daemon.Branch.{BranchDirection}
use llvm_mca_daemon.Branch.Naive.{
  HistoryEntry, History, NaiveUnit, find, modify, remove_at, oldest_index, evict_oldest, absent,
  record_entry, record_taken_branch, predict_branch,
}

-- An address whose end does not wrap.
abbrev pub Fits : InstrAddr → Type 0
Fits a = a.addr + a.size < 18446744073709551616

-- Two addresses whose ends do not wrap are one key to the map exactly when their closed ranges
-- touch: also where one instruction ends right where the other begins.
same_key_iff :
    (a b : InstrAddr)
    → Fits a
    → Fits b
    → ((instr_lt a b ≡ false) × (instr_lt b a ≡ false))
      ↔ ((b.addr ≤ a.addr + a.size) × (a.addr ≤ b.addr + b.size))
unfolding instr_lt
same_key_iff a b fa fb = (λ h. (ground arith, ground arith), λ h. (ground arith, ground arith))

-- `k` lies below every key, in order.
abbrev pub Above : ℕ → History → Type 0
Above n [] = Unit {0}
Above n ((a, e) ∷ m) = (n < a.addr) × Fits a × Above (a.addr + a.size) m

-- Every key fits and lies below the next one.
abbrev pub IsSorted : History → Type 0
IsSorted [] = Unit {0}
IsSorted ((a, e) ∷ m) = Fits a × Above (a.addr + a.size) m

Above-mono : (n k : ℕ) (m : History) → k ≤ n → Above n m → Above k m
Above-mono n k [] h p = tt
Above-mono n k ((a, e) ∷ m) h p = (omega arith, p.1, p.2)

Above-modify :
    (n : ℕ) (k : InstrAddr) (f : HistoryEntry → HistoryEntry) (m : History)
    → Fits k
    → n < k.addr
    → Above n m
    → Above n (modify k f m)
unfolding modify instr_lt
Above-modify n k f [] fk h p = (h, fk, tt)
Above-modify n k f ((a, e) ∷ m) fk h p = ground (arith, Above-modify (a.addr + a.size) k f m fk)

modify-IsSorted :
    (k : InstrAddr) (f : HistoryEntry → HistoryEntry) (m : History)
    → Fits k
    → IsSorted m
    → IsSorted (modify k f m)
unfolding modify instr_lt
modify-IsSorted k f [] fk p = (fk, tt)
modify-IsSorted k f ((a, e) ∷ m) fk p = ground (arith, Above-modify (a.addr + a.size) k f m fk)

Above-remove_at : (n i : ℕ) (m : History) → Above n m → Above n (remove_at i m)
unfolding remove_at
Above-remove_at n i [] p = tt
Above-remove_at n zero ((a, e) ∷ m) p = Above-mono (a.addr + a.size) n m (omega arith) p.2
Above-remove_at n (suc i) ((a, e) ∷ m) p = (p.0, p.1, Above-remove_at (a.addr + a.size) i m p.2)

Above-IsSorted : (n : ℕ) (m : History) → Above n m → IsSorted m
Above-IsSorted n [] p = tt
Above-IsSorted n ((a, e) ∷ m) p = (p.1, p.2)

remove_at-IsSorted : (i : ℕ) (m : History) → IsSorted m → IsSorted (remove_at i m)
unfolding remove_at
remove_at-IsSorted i [] p = tt
remove_at-IsSorted zero ((a, e) ∷ m) p = Above-IsSorted (a.addr + a.size) m p.1
remove_at-IsSorted (suc i) ((a, e) ∷ m) p = (p.0, Above-remove_at (a.addr + a.size) i m p.1)

evict_oldest-IsSorted : (m : History) → IsSorted m → IsSorted (evict_oldest m)
unfolding evict_oldest
evict_oldest-IsSorted [] p = tt
evict_oldest-IsSorted ((a, e) ∷ m) p =
    remove_at-IsSorted (oldest_index 0 0 e.last_use ((a, e) ∷ m)) ((a, e) ∷ m) p

record_entry-IsSorted :
    (u : NaiveUnit) (k : InstrAddr) (d : BranchDirection)
    → Fits k
    → IsSorted u.history
    → IsSorted (record_entry u k d)
unfolding record_entry
record_entry-IsSorted u k d fk p = elim (Bool-cases (absent (find k u.history))) [
  | inl e ↦ rw e (modify-IsSorted k _ _ fk (modify-IsSorted k _ _ fk (modify-IsSorted k _ _ fk p)))
  | inr e ↦ rw e (modify-IsSorted k _ _ fk (modify-IsSorted k _ _ fk p))
]

-- Recording a branch at an address whose end does not wrap keeps the keys of the history in order
-- and apart.
record_taken_branch-IsSorted :
    (u : NaiveUnit) (k : InstrAddr) (d : BranchDirection)
    → Fits k
    → IsSorted u.history
    → IsSorted (record_taken_branch u k d).history
unfolding record_taken_branch
record_taken_branch-IsSorted u k d fk p =
    ground (arith, record_entry-IsSorted u k d fk p, evict_oldest-IsSorted (record_entry u k d))

-- Predicting a branch keeps the keys of the history in order and apart.
pub predict_branch-IsSorted :
    (u : NaiveUnit) (k : InstrAddr)
    → Fits k
    → IsSorted u.history
    → IsSorted (predict_branch u k).0.history
unfolding predict_branch
predict_branch-IsSorted u k fk p = ground (
  arith,
  modify-IsSorted k (λ (x : HistoryEntry). record x { last_use = u32 (u.n_accesses + 1) }) u.history
      fk p,
)
