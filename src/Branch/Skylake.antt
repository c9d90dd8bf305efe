-- ===== src/Branch/Skylake.antt =====
-- SkylakeBranchUnit.h and .cpp: a base table and three tables indexed by the path history. A
-- `std::bitset<93>` is a number below 2 ^ 93.
pub mod Silent
pub mod Sets
pub mod Sizes
use Prim.Native.Nat.{bit_and, bit_or, bit_xor}
use llvm_mca_daemon.Prelude.{
  ℕ, zero, suc, ◌+◌, ◌-◌, ◌*◌, ◌/◌, ◌%◌, ◌^◌, ◌≡◌, refl, Bool, true, false, ◌&&◌, Option, none,
  some, List, [], ◌∷◌, ◌++◌, ltb, leb, ◌==◌, u32, u64, if◌then◌else◌, length,
}
use llvm_mca_daemon.Prelude.Assoc.{Assoc, lookup, insert, erase}
use llvm_mca_daemon.Metadata.{InstrAddr}
use llvm_mca_daemon.Branch.{BranchDirection, taken, not_taken, BranchPredictor}

-- `SkylakeBranchEntry`
pub record SkylakeEntry : Type 0 where
  pub pc : ℕ
  pub useful : ℕ

-- `SkylakeBranchTable`
abbrev pub SkylakeTable : Type 0
SkylakeTable = Assoc (List SkylakeEntry)

-- `SkylakeBranchUnit`
pub record SkylakeUnit : Type 0 where
  pub base : SkylakeTable
  pub pht1 : SkylakeTable
  pub pht2 : SkylakeTable
  pub pht3 : SkylakeTable
  pub phr : ℕ
  pub penalty : ℕ

unfoldable pub new_skylake : ℕ → SkylakeUnit
new_skylake penalty = record {
  base = [];
  pht1 = [];
  pht2 = [];
  pht3 = [];
  phr = 0;
  penalty = penalty;
}

-- `<<` of a bitset of 93 bits.
abbrev pub shift_left : ℕ → ℕ → ℕ
shift_left n k = n * 2 ^ k % 2 ^ 93

-- The constant of `getPHTIndex`: every other bit of 93, the lowest one set.
abbrev pub pattern_bits : ℕ
pattern_bits = 6602346876188694799461995861

-- `getPHTIndex`
unfoldable pub get_pht_index : ℕ → ℕ → ℕ → ℕ
get_pht_index phr start1 start2 =
    let index =
      bit_and (shift_left pattern_bits (93 - (start1 + 14)) / 2 ^ (93 - 14 - start1)) phr in
    let index2 =
      bit_and (shift_left pattern_bits (93 - (start2 + 14)) / 2 ^ (93 - 14 - start2)) phr in
    bit_xor index index2

-- `getFootprint`; the masks of the source, in decimal.
unfoldable pub get_footprint : InstrAddr → InstrAddr → ℕ
get_footprint branch target =
    let branch_addr = u32 branch.addr in
    let target_addr = bit_and (u32 target.addr) 31 in
    let branch_right =
      bit_or (bit_or (bit_and branch_addr 24 / 2 ^ 3) (bit_and branch_addr 384 / 2 ^ 5))
        (bit_and branch_addr 6144 / 2 ^ 7) in
    let branch_left =
      bit_or (bit_or (bit_and branch_addr 96 / 2 ^ 5) (bit_and branch_addr 1536 / 2 ^ 7))
        (bit_and branch_addr 516096 / 2 ^ 9) in
    bit_or (bit_xor branch_right target_addr) (u32 (branch_left * 2 ^ 6))

-- `updatePHR`, which returns the new history.
unfoldable pub update_phr : ℕ → InstrAddr → InstrAddr → ℕ
update_phr phr current target = bit_xor (shift_left phr 2) (get_footprint current target)

-- The loop of `getTable` over one set: the index of the entry that it points to.
unfoldable pub find_useful : ℕ → List SkylakeEntry → Option ℕ
find_useful pc [] = none
find_useful pc (e ∷ es) =
    let rest = find_useful pc es in
    if e.pc == pc && ltb 0 e.useful
    then some 0
    else elim rest [ none ↦ none | some i ↦ some (suc i) ]

abbrev pub set_of : Option (List SkylakeEntry) → List SkylakeEntry
set_of none = []
set_of (some es) = es

-- `getTable`, with no entry found before.
unfoldable pub get_table : SkylakeTable → ℕ → ℕ → Option ℕ
get_table pht index pc = find_useful pc (set_of (lookup index pht))

-- `entry->useful++` at an index of a set.
unfoldable pub count_use : ℕ → List SkylakeEntry → List SkylakeEntry
count_use i [] = []
count_use zero (e ∷ es) = record e { useful = u64 (e.useful + 1) } ∷ es
count_use (suc i) (e ∷ es) = e ∷ count_use i es

unfoldable pub use_entry : SkylakeTable → ℕ → ℕ → SkylakeTable
use_entry pht index i = insert index (count_use i (set_of (lookup index pht))) pht

-- `predictBranch(pc, target)`: the first table that has the address decides.
unfoldable pub predict_branch_to :
    SkylakeUnit → InstrAddr → InstrAddr → SkylakeUnit × BranchDirection
predict_branch_to u pc target =
    let history = update_phr u.phr pc target in
    let index1 = get_pht_index history 1 6 in
    let index2 = get_pht_index history 10 3 in
    let index3 = get_pht_index history 10 3 in
    let index0 = bit_and pc.addr 8191 in
    elim (get_table u.pht1 index1 pc.addr) [
      | some i ↦ (record u { pht1 = use_entry u.pht1 index1 i }, taken)
      | none ↦ elim (get_table u.pht2 index2 pc.addr) [
        | some i ↦ (record u { pht2 = use_entry u.pht2 index2 i }, taken)
        | none ↦ elim (get_table u.pht3 index3 pc.addr) [
          | some i ↦ (record u { pht3 = use_entry u.pht3 index3 i }, taken)
          | none ↦ elim (get_table u.base index0 pc.addr) [
            | some i ↦ (record u { base = use_entry u.base index0 i }, taken)
            | none ↦ (u, not_taken)
          ]
        ]
      ]
    ]

-- `predictBranch(pc)`
unfoldable pub predict_branch : SkylakeUnit → InstrAddr → SkylakeUnit × BranchDirection
predict_branch u pc = predict_branch_to u pc (record { addr = 0; size = 0 })

-- `std::min_element` of a set and its erasure: the first entry of the least use goes.
unfoldable pub least_useful : ℕ → ℕ → ℕ → List SkylakeEntry → ℕ
least_useful i best least [] = best
least_useful i best least (e ∷ es) =
    let better = ltb e.useful least in
    least_useful (i + 1) (if better then i else best) (if better then e.useful else least) es

unfoldable pub remove_entry : ℕ → List SkylakeEntry → List SkylakeEntry
remove_entry i [] = []
remove_entry zero (e ∷ es) = es
remove_entry (suc i) (e ∷ es) = e ∷ remove_entry i es

unfoldable pub remove_least : List SkylakeEntry → List SkylakeEntry
remove_least [] = []
remove_least (e ∷ es) = remove_entry (least_useful 1 0 e.useful es) (e ∷ es)

-- `phtSetPush`; `pht[index]` makes an empty set if there is none.
unfoldable pub pht_set_push : SkylakeTable → InstrAddr → ℕ → SkylakeTable
pht_set_push pht pc index =
    let es = set_of (lookup index pht) in
    let kept = if leb 4 (length es) then remove_least es else es in
    insert index (kept ++ (record { pc = pc.addr; useful = 0 } ∷ [])) pht

-- The sum of a set, and the key of the last set of the least sum, in the order of a walk.
unfoldable pub score : List SkylakeEntry → ℕ → ℕ
score [] current = current
score (e ∷ es) current = score es (u32 (current + e.useful))

unfoldable pub least_set : ℕ → ℕ → SkylakeTable → ℕ
unfolding score
least_set remove check [] = remove
least_set remove check ((k, es) ∷ m) =
    let current = score es 0 in
    let keep = ltb check current in
    least_set (if keep then remove else k) (if keep then check else current) m

-- `insertTable`. The order in which an `std::unordered_map` is walked is the argument `walk`.
unfoldable pub insert_table :
    (SkylakeTable → SkylakeTable) → SkylakeTable → InstrAddr → ℕ → SkylakeTable
insert_table walk pht pc index = elim (lookup index pht) [
  | some es ↦ pht_set_push pht pc index
  | none ↦
      if ltb (length pht) 2048
      then pht_set_push (insert index [] pht) pc index
      else pht_set_push (insert index [] (erase (least_set 0 4294967295 (walk pht)) pht)) pc index
]

-- `recordTakenBranch(pc, target)`
unfoldable pub record_branch_to :
    (SkylakeTable → SkylakeTable) → SkylakeUnit → InstrAddr → InstrAddr → SkylakeUnit
record_branch_to walk u pc target =
    let history = update_phr u.phr pc target in
    record u {
      base = pht_set_push u.base pc (bit_and pc.addr 8191);
      phr = history;
      pht1 = insert_table walk u.pht1 pc (get_pht_index history 1 6);
      pht2 = insert_table walk u.pht2 pc (get_pht_index history 10 3);
      pht3 = insert_table walk u.pht3 pc (get_pht_index history 10 3);
    }

-- `recordTakenBranch(pc, nextInstrDirection)`
unfoldable pub record_taken_branch :
    (SkylakeTable → SkylakeTable) → SkylakeUnit → InstrAddr → BranchDirection → SkylakeUnit
record_taken_branch walk u pc taken = record_branch_to walk u pc (record { addr = 0; size = 0 })
record_taken_branch walk u pc not_taken = u

pub record_taken_branch-penalty :
    (walk : SkylakeTable → SkylakeTable) (u : SkylakeUnit) (pc : InstrAddr) (d : BranchDirection)
    → (record_taken_branch walk u pc d).penalty ≡ u.penalty
unfolding record_taken_branch record_branch_to
record_taken_branch-penalty walk u pc taken = refl
record_taken_branch-penalty walk u pc not_taken = refl

-- The unit behind the interface of the fetch stage.
abbrev pub skylake_predictor : (SkylakeTable → SkylakeTable) → BranchPredictor
skylake_predictor walk = record {
  State = SkylakeUnit;
  record_taken_branch = record_taken_branch walk;
  predict_branch = predict_branch;
  misprediction_penalty = λ u. u.penalty;
  misprediction_penalty-record = record_taken_branch-penalty walk;
}
