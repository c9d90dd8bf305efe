-- ===== src/Branch/Skylake/Silent.antt =====
-- What `SkylakeBranchUnit` predicts.
use Prim.Native.Nat.{bit_and}
use llvm_mca_daemon.Prelude.{
  ℕ, zero, suc, ◌≡◌, refl, ap, Bool, true, false, none, List, [], ◌∷◌, arith, ltb, leb, ◌==◌,
  if◌then◌else◌, All, All-append, Bool-cases, Option-cases, inl, inr, length,
}
use llvm_mca_daemon.Prelude.Assoc.{lookup, insert, erase}
use llvm_mca_daemon.Metadata.{InstrAddr}
use llvm_mca_daemon.Branch.{BranchDirection, taken, not_taken}
use llvm_mca_daemon.Branch.Skylake.{
  SkylakeEntry, SkylakeTable, SkylakeUnit, new_skylake, update_phr, get_pht_index, find_useful,
  set_of, get_table, predict_branch_to, predict_branch, least_useful, remove_entry, remove_least,
  pht_set_push, insert_table, record_branch_to, record_taken_branch,
}

-- No entry was ever used.
abbrev pub IsUnused : SkylakeEntry → Type 0
IsUnused e = e.useful ≡ 0

abbrev pub AllUnused : SkylakeTable → Type 0
AllUnused pht = All (λ (r : ℕ × List SkylakeEntry). All IsUnused r.1) pht

pub record IsSilent (u : SkylakeUnit) : Type 0 where
  pub base_unused : AllUnused u.base
  pub pht1_unused : AllUnused u.pht1
  pub pht2_unused : AllUnused u.pht2
  pub pht3_unused : AllUnused u.pht3

lookup-AllUnused :
    (k : ℕ) (pht : SkylakeTable) → AllUnused pht → All IsUnused (set_of (lookup k pht))
unfolding lookup
lookup-AllUnused k [] h = tt
lookup-AllUnused k ((j, es) ∷ m) h = elim (Bool-cases (j == k)) [
  | inl e ↦ rw e h.0
  | inr e ↦ rw e (lookup-AllUnused k m h.1)
]

erase-AllUnused : (k : ℕ) (pht : SkylakeTable) → AllUnused pht → AllUnused (erase k pht)
unfolding erase
erase-AllUnused k [] h = tt
erase-AllUnused k ((j, es) ∷ m) h = elim (Bool-cases (j == k)) [
  | inl e ↦ rw e (erase-AllUnused k m h.1)
  | inr e ↦ rw e (h.0, erase-AllUnused k m h.1)
]

insert-AllUnused :
    (k : ℕ) (es : List SkylakeEntry) (pht : SkylakeTable)
    → All IsUnused es
    → AllUnused pht
    → AllUnused (insert k es pht)
unfolding insert
insert-AllUnused k es pht h p = (h, erase-AllUnused k pht p)

find_useful-unused : (pc : ℕ) (es : List SkylakeEntry) → All IsUnused es → find_useful pc es ≡ none
unfolding find_useful
find_useful-unused pc [] h = refl
find_useful-unused pc (e ∷ es) h = rw (find_useful-unused pc es h.1, h.0) (ground arith)

get_table-AllUnused :
    (pht : SkylakeTable) (index pc : ℕ) → AllUnused pht → get_table pht index pc ≡ none
unfolding get_table
get_table-AllUnused pht index pc h = find_useful-unused pc _ (lookup-AllUnused index pht h)

predict_of_IsSilent :
    (u : SkylakeUnit) (pc : InstrAddr) → IsSilent u → predict_branch u pc ≡ (u, not_taken)
unfolding predict_branch predict_branch_to
predict_of_IsSilent u pc h =
    let history = update_phr u.phr pc (record { addr = 0; size = 0 }) in
    rw
      (
        get_table-AllUnused u.pht1 (get_pht_index history 1 6) pc.addr h.pht1_unused,
        get_table-AllUnused u.pht2 (get_pht_index history 10 3) pc.addr h.pht2_unused,
        get_table-AllUnused u.pht3 (get_pht_index history 10 3) pc.addr h.pht3_unused,
        get_table-AllUnused u.base (bit_and pc.addr 8191) pc.addr h.base_unused,
        predict_branch,
        predict_branch_to,
      )
      refl

remove_entry-IsUnused :
    (i : ℕ) (es : List SkylakeEntry) → All IsUnused es → All IsUnused (remove_entry i es)
unfolding remove_entry
remove_entry-IsUnused i [] h = tt
remove_entry-IsUnused zero (e ∷ es) h = h.1
remove_entry-IsUnused (suc i) (e ∷ es) h = (h.0, remove_entry-IsUnused i es h.1)

remove_least-IsUnused : (es : List SkylakeEntry) → All IsUnused es → All IsUnused (remove_least es)
unfolding remove_least
remove_least-IsUnused [] h = tt
remove_least-IsUnused (e ∷ es) h = remove_entry-IsUnused (least_useful 1 0 e.useful es) (e ∷ es) h

pht_set_push-AllUnused :
    (pht : SkylakeTable) (pc : InstrAddr) (index : ℕ)
    → AllUnused pht
    → AllUnused (pht_set_push pht pc index)
unfolding pht_set_push
pht_set_push-AllUnused pht pc index h =
    let es = set_of (lookup index pht) in
    let unused = lookup-AllUnused index pht h in
    insert-AllUnused index _ pht
      (All-append IsUnused (if leb 4 (length es) then remove_least es else es) _
        (kept_unused (leb 4 (length es)) es unused) (refl, tt))
      h
  where
    kept_unused :
        (b : Bool) (es : List SkylakeEntry)
        → All IsUnused es
        → All IsUnused (if b then remove_least es else es)
    kept_unused true es h = remove_least-IsUnused es h
    kept_unused false es h = h

insert_table-AllUnused :
    (walk : SkylakeTable → SkylakeTable) (pht : SkylakeTable) (pc : InstrAddr) (index : ℕ)
    → AllUnused pht
    → AllUnused (insert_table walk pht pc index)
unfolding insert_table
insert_table-AllUnused walk pht pc index h = elim (Option-cases (lookup index pht)) [
  | inr (es, e) ↦ rw (e, insert_table) (pht_set_push-AllUnused pht pc index h)
  | inl e ↦ elim (Bool-cases (ltb (length pht) 2048)) [
    | inl room ↦
        rw (e, room, insert_table)
          (pht_set_push-AllUnused _ pc index (insert-AllUnused index [] pht tt h))
    | inr full ↦
        rw (e, full, insert_table)
          (pht_set_push-AllUnused _ pc index
            (insert-AllUnused index [] _ tt (erase-AllUnused _ pht h)))
  ]
]

record-IsSilent :
    (walk : SkylakeTable → SkylakeTable) (u : SkylakeUnit) (pc : InstrAddr) (d : BranchDirection)
    → IsSilent u
    → IsSilent (record_taken_branch walk u pc d)
unfolding record_taken_branch record_branch_to
record-IsSilent walk u pc not_taken h = h
record-IsSilent walk u pc taken h = record {
  base_unused = pht_set_push-AllUnused u.base pc _ h.base_unused;
  pht1_unused = insert_table-AllUnused walk u.pht1 pc _ h.pht1_unused;
  pht2_unused = insert_table-AllUnused walk u.pht2 pc _ h.pht2_unused;
  pht3_unused = insert_table-AllUnused walk u.pht3 pc _ h.pht3_unused;
}

-- The calls of the fetch stage.
pub data Call : Type 0 where
  recorded : InstrAddr → BranchDirection → Call
  predicted : InstrAddr → Call

unfoldable pub run_calls : (SkylakeTable → SkylakeTable) → List Call → SkylakeUnit → SkylakeUnit
run_calls walk [] u = u
run_calls walk (recorded pc d ∷ cs) u = run_calls walk cs (record_taken_branch walk u pc d)
run_calls walk (predicted pc ∷ cs) u = run_calls walk cs (predict_branch u pc).0

-- An entry starts with no use, is found only with some, and is used only when found: on a unit with
-- unused entries only, such as a new one, every sequence of calls leaves that so, and the
-- prediction after it is `NOT_TAKEN`.
pub never_predicts_taken :
    (walk : SkylakeTable → SkylakeTable) (cs : List Call) (u : SkylakeUnit) (pc : InstrAddr)
    → IsSilent u
    → IsSilent (run_calls walk cs u) × ((predict_branch (run_calls walk cs u) pc).1 ≡ not_taken)
unfolding run_calls
never_predicts_taken walk [] u pc h = (h, ap (λ r. r.1) (predict_of_IsSilent u pc h))
never_predicts_taken walk (recorded a d ∷ cs) u pc h =
    never_predicts_taken walk cs (record_taken_branch walk u a d) pc (record-IsSilent walk u a d h)
never_predicts_taken walk (predicted a ∷ cs) u pc h =
    rw (predict_of_IsSilent u a h) (never_predicts_taken walk cs u pc h)

pub new_skylake-IsSilent : (penalty : ℕ) → IsSilent (new_skylake penalty)
unfolding new_skylake
new_skylake-IsSilent penalty = record {
  base_unused = tt;
  pht1_unused = tt;
  pht2_unused = tt;
  pht3_unused = tt;
}
