-- ===== src/Branch/Skylake/Sizes.antt =====
-- How large the tables of `SkylakeBranchUnit` grow.
use Prim.Native.Nat.{bit_and}
use llvm_mca_daemon.Prelude.{
  ℕ, ◌≤◌, ◌<◌, ◌≡◌, refl, sym, ◌∙◌, some, List, [], ◌∷◌, arith, ltb, Bool-cases, Option-cases, inl,
  inr, length,
}
use llvm_mca_daemon.Prelude.Assoc.{lookup, insert, erase}
use llvm_mca_daemon.Metadata.{InstrAddr}
use llvm_mca_daemon.Branch.{BranchDirection, taken, not_taken}
use llvm_mca_daemon.Branch.Skylake.{
  SkylakeEntry, SkylakeTable, SkylakeUnit, new_skylake, update_phr, get_pht_index, set_of,
  get_table, count_use, use_entry, predict_branch_to, predict_branch, least_set, insert_table,
  record_branch_to, record_taken_branch,
}
use llvm_mca_daemon.Branch.Skylake.Silent.{Call, recorded, predicted, run_calls}
use llvm_mca_daemon.Branch.Skylake.Sets.{
  AllFit, HasKey, erase-AllFit, length-erase_present, insert-AllFit, length-insert,
  length-insert_present, lookup-insert_self, pht_set_push-AllFit, length-pht_set_push, HasKey-head,
  least_set-HasKey, use_entry-AllFit, get_table-HasKey,
}

-- A table with at most 2048 sets.
abbrev pub IsSmall : SkylakeTable → Type 0
IsSmall pht = AllFit pht × (length pht ≤ 2048)

pub record IsBounded (u : SkylakeUnit) : Type 0 where
  pub base_fits : AllFit u.base
  pub pht1_small : IsSmall u.pht1
  pub pht2_small : IsSmall u.pht2
  pub pht3_small : IsSmall u.pht3

module _ (walk : SkylakeTable → SkylakeTable)
    (same_map : (k : ℕ) (m : SkylakeTable) → lookup k (walk m) ≡ lookup k m) where
  walk-HasKey : (m : SkylakeTable) → 0 < length m → HasKey (least_set 0 4294967295 (walk m)) m
  unfolding lookup
  walk-HasKey [] h = ground (arith, h)
  walk-HasKey ((k, es) ∷ m) h =
      let (fs, found) = HasKey-head k k es m refl in
      go (walk ((k, es) ∷ m)) (λ j. same_map j ((k, es) ∷ m)) found
    where
      go :
          (w : SkylakeTable)
          → ((j : ℕ) → lookup j w ≡ lookup j ((k, es) ∷ m))
          → {fs : List SkylakeEntry} → lookup k ((k, es) ∷ m) ≡ some fs
          → HasKey (least_set 0 4294967295 w) ((k, es) ∷ m)
      go [] same found = ground (arith, same k, found)
      go ((j, gs) ∷ w) same found =
          let (hs, e) = least_set-HasKey j gs w in
          (hs, sym (same (least_set 0 4294967295 ((j, gs) ∷ w))) ∙ e)

  insert_table-IsSmall :
      (pht : SkylakeTable) (pc : InstrAddr) (index : ℕ)
      → IsSmall pht
      → IsSmall (insert_table walk pht pc index)
  unfolding insert_table
  insert_table-IsSmall pht pc index (fits, small) = elim (Option-cases (lookup index pht)) [
    | inr (es, e) ↦
        let size = length-pht_set_push pht pc index es e in
        rw (e, insert_table) (pht_set_push-AllFit pht pc index fits, omega (arith, size, small))
    | inl e ↦ elim (Bool-cases (ltb (length pht) 2048)) [
      | inl room ↦
          let grown = insert index [] pht in
          let size = length-pht_set_push grown pc index [] (lookup-insert_self index [] pht) in
          rw (e, room, insert_table)
            (
              pht_set_push-AllFit grown pc index (insert-AllFit index [] pht (omega arith) fits),
              ground (arith, size, length-insert index [] pht, room),
            )
      | inr full ↦
          let (es, gone) = walk-HasKey pht (ground (arith, full)) in
          let left = erase (least_set 0 4294967295 (walk pht)) pht in
          let grown = insert index [] left in
          let size = length-pht_set_push grown pc index [] (lookup-insert_self index [] left) in
          rw (e, full, insert_table)
            (
              pht_set_push-AllFit grown pc index
                  (insert-AllFit index [] left (omega arith) (erase-AllFit _ pht fits)),
              omega (
                arith,
                size,
                length-insert index [] left,
                length-erase_present _ pht es gone,
                small,
              ),
            )
    ]
  ]

  record-IsBounded :
      (u : SkylakeUnit) (pc : InstrAddr) (d : BranchDirection)
      → IsBounded u
      → IsBounded (record_taken_branch walk u pc d)
  unfolding record_taken_branch record_branch_to
  record-IsBounded u pc not_taken h = h
  record-IsBounded u pc taken h = record {
    base_fits = pht_set_push-AllFit u.base pc _ h.base_fits;
    pht1_small = insert_table-IsSmall u.pht1 pc _ h.pht1_small;
    pht2_small = insert_table-IsSmall u.pht2 pc _ h.pht2_small;
    pht3_small = insert_table-IsSmall u.pht3 pc _ h.pht3_small;
  }

use_entry-IsSmall :
    (pht : SkylakeTable) (index pc i : ℕ)
    → get_table pht index pc ≡ some i
    → IsSmall pht
    → IsSmall (use_entry pht index i)
unfolding use_entry
use_entry-IsSmall pht index pc i found (fits, small) =
    let (es, e) = get_table-HasKey pht index pc i found in
    let size = length-insert_present index (count_use i (set_of (lookup index pht))) es pht e in
    (use_entry-AllFit pht index i fits, omega (arith, size, small))

predict-IsBounded :
    (u : SkylakeUnit) (pc : InstrAddr) → IsBounded u → IsBounded (predict_branch u pc).0
unfolding predict_branch predict_branch_to
predict-IsBounded u pc h =
    let history = update_phr u.phr pc (record { addr = 0; size = 0 }) in
    let index1 = get_pht_index history 1 6 in
    let index2 = get_pht_index history 10 3 in
    elim (Option-cases (get_table u.pht1 index1 pc.addr)) [
      | inr (i, e1) ↦
          rw (e1, predict_branch, predict_branch_to)
            (record {
              base_fits = h.base_fits;
              pht1_small = use_entry-IsSmall u.pht1 index1 pc.addr i e1 h.pht1_small;
              pht2_small = h.pht2_small;
              pht3_small = h.pht3_small;
            })
      | inl e1 ↦ elim (Option-cases (get_table u.pht2 index2 pc.addr)) [
        | inr (i, e2) ↦
            rw (e1, e2, predict_branch, predict_branch_to)
              (record {
                base_fits = h.base_fits;
                pht1_small = h.pht1_small;
                pht2_small = use_entry-IsSmall u.pht2 index2 pc.addr i e2 h.pht2_small;
                pht3_small = h.pht3_small;
              })
        | inl e2 ↦ elim (Option-cases (get_table u.pht3 index2 pc.addr)) [
          | inr (i, e3) ↦
              rw (e1, e2, e3, predict_branch, predict_branch_to)
                (record {
                  base_fits = h.base_fits;
                  pht1_small = h.pht1_small;
                  pht2_small = h.pht2_small;
                  pht3_small = use_entry-IsSmall u.pht3 index2 pc.addr i e3 h.pht3_small;
                })
          | inl e3 ↦ elim (Option-cases (get_table u.base (bit_and pc.addr 8191) pc.addr)) [
            | inr (i, e4) ↦
                rw (e1, e2, e3, e4, predict_branch, predict_branch_to)
                  (record {
                    base_fits = use_entry-AllFit u.base _ i h.base_fits;
                    pht1_small = h.pht1_small;
                    pht2_small = h.pht2_small;
                    pht3_small = h.pht3_small;
                  })
            | inl e4 ↦ rw (e1, e2, e3, e4, predict_branch, predict_branch_to) h
          ]
        ]
      ]
    ]

-- Where a walk over a table meets the sets of the table, no more and no others: every sequence of
-- calls keeps the unit bounded. A set holds at most four entries, and each of the three tables of
-- the history at most 2048 sets, since an eviction takes a set that is there.
pub run_calls-IsBounded :
    (walk : SkylakeTable → SkylakeTable) (cs : List Call) (u : SkylakeUnit)
    → ((k : ℕ) (m : SkylakeTable) → lookup k (walk m) ≡ lookup k m)
    → IsBounded u
    → IsBounded (run_calls walk cs u)
unfolding run_calls
run_calls-IsBounded walk [] u same h = h
run_calls-IsBounded walk (recorded pc d ∷ cs) u same h =
    run_calls-IsBounded walk cs _ same (record-IsBounded walk same u pc d h)
run_calls-IsBounded walk (predicted pc ∷ cs) u same h =
    run_calls-IsBounded walk cs _ same (predict-IsBounded u pc h)

pub new_skylake-IsBounded : (penalty : ℕ) → IsBounded (new_skylake penalty)
unfolding new_skylake
new_skylake-IsBounded penalty = record {
  base_fits = tt;
  pht1_small = (tt, omega arith);
  pht2_small = (tt, omega arith);
  pht3_small = (tt, omega arith);
}
