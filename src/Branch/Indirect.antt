-- ===== src/Branch/Indirect.antt =====
-- IndirectBPU.h and .cpp: a set-associative table of the targets of indirect branches. What `rand`
-- returns is an argument.
pub mod Targets
use llvm_mca_daemon.Prelude.{
  ℕ, ◌+◌, ◌%◌, Bool, true, false, Option, none, some, List, [], ◌∷◌, u32, u64, if◌then◌else◌, ◌>>=◌,
  get_elem?, set, replicate,
}
use llvm_mca_daemon.Metadata.{InstrAddr, instr_eq}

-- `IndirectBranchEntry`
pub record IndirectBranchEntry : Type 0 where
  pub tag : InstrAddr
  pub target : InstrAddr

-- `IndirectBPU`
pub record IndirectUnit : Type 0 where
  pub num_sets : ℕ
  pub num_ways : ℕ
  pub table : List (List IndirectBranchEntry)

-- Both fields of an entry start as `{0}`.
abbrev pub empty_branch : IndirectBranchEntry
empty_branch = record {
  tag = record { addr = 0; size = 0 };
  target = record { addr = 0; size = 0 };
}

unfoldable pub new_indirect : ℕ → ℕ → IndirectUnit
new_indirect num_sets num_ways = record {
  num_sets = num_sets;
  num_ways = num_ways;
  table = replicate num_sets (replicate num_ways empty_branch);
}

-- `getSetIndex`
unfoldable pub target_set : IndirectUnit → InstrAddr → ℕ
target_set u ia = u32 (ia.addr % u.num_sets)

-- The loop of `recordTakenBranch`: the target goes to the first way with the tag.
unfoldable pub retarget :
    InstrAddr → InstrAddr → List IndirectBranchEntry → Option (List IndirectBranchEntry)
retarget ia dest [] = none
retarget ia dest (way ∷ ways) =
    let rest = retarget ia dest ways in
    if instr_eq way.tag ia
    then some (record way { target = dest } ∷ ways)
    else (rest >>= λ ws. some (way ∷ ws))

-- The set after `recordTakenBranch`: without a way of that tag, the random one is taken.
unfoldable pub record_in_set :
    ℕ → ℕ → InstrAddr → InstrAddr → List IndirectBranchEntry → List IndirectBranchEntry
record_in_set num_ways random ia dest ways = elim (retarget ia dest ways) [
  | some ws ↦ ws
  | none ↦ set ways (random % num_ways) (record { tag = ia; target = dest })
]

-- `recordTakenBranch`
unfoldable pub record_target : ℕ → IndirectUnit → InstrAddr → InstrAddr → Option IndirectUnit
record_target random u ia dest = get_elem? u.table (target_set u ia) >>= λ ways. some (record u {
  table = set u.table (target_set u ia) (record_in_set u.num_ways random ia dest ways);
})

-- The loop of `predictBranch`
unfoldable pub find_target : InstrAddr → List IndirectBranchEntry → Option InstrAddr
find_target ia [] = none
find_target ia (way ∷ ways) =
    let rest = find_target ia ways in if instr_eq way.tag ia then some way.target else rest

-- `predictBranch`: without an entry, the next byte.
unfoldable pub predict_target : IndirectUnit → InstrAddr → Option InstrAddr
predict_target u ia = get_elem? u.table (target_set u ia) >>= λ ways.
    some (elim (find_target ia ways) [
      | some target ↦ target
      | none ↦ record { addr = u64 (ia.addr + 1); size = 0 }
    ])
