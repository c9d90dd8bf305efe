-- ===== src/Metadata/Registry.antt =====
-- `MetadataCategory` and `MetadataRegistry` of MetadataRegistry.h, and the look-ups by instruction
-- (`getMDInstrAddrForInstr` of MetadataCategories.cpp, `getMemoryAccessMD` of MCADLSUnit.cpp).
pub mod Laws
use llvm_mca_daemon.Prelude.{
  ℕ, ◌+◌, ◌-◌, Bool, true, false, ◌||◌, Option, none, some, List, [], ◌∷◌, ◌++◌, leb, if◌then◌else◌,
  length, get_elem?, set, replicate,
}
use llvm_mca_daemon.Prelude.Assoc.{Assoc, lookup, insert, erase}
use llvm_mca_daemon.Metadata.{
  Any, mem_access, instr_addr, branch_flow, region_marker, InstrAddr, MemoryAccess, RegionMarker,
}

-- `InstEntries`
abbrev pub Category : Type 0
Category = Assoc Any

-- `Categories`: a null pointer is `none`.
abbrev pub Registry : Type 0
Registry = List (Option Category)

-- The enumerators of `MetadataCategories`.
abbrev pub md_ls_unit_mem_access : ℕ
md_ls_unit_mem_access = 0

abbrev pub md_front_end_branch_flow : ℕ
md_front_end_branch_flow = 1

abbrev pub md_instr_addr : ℕ
md_instr_addr = 2

abbrev pub md_binary_region_markers : ℕ
md_binary_region_markers = 4

-- `get<T>`: no entry, an entry of another type (a failed `any_cast`), or the value.
pub data Get (A : Type 0) : Type 0 where
  missing : Get A
  bad_cast : Get A
  found : A → Get A

abbrev pub cast_entry : {B : Type 0} → (Any → Option B) → Option Any → Get B
cast_entry cast none = missing
cast_entry cast (some a) = elim (cast a) [ none ↦ bad_cast | some b ↦ found b ]

abbrev pub as_instr_addr : Any → Option InstrAddr
as_instr_addr (instr_addr a) = some a
as_instr_addr _ = none

abbrev pub as_mem_access : Any → Option MemoryAccess
as_mem_access (mem_access a) = some a
as_mem_access _ = none

abbrev pub as_region_marker : Any → Option RegionMarker
as_region_marker (region_marker m) = some m
as_region_marker _ = none

-- The resize of `operator[](Kind)`: null pointers up to `Kind`.
unfoldable pub grow : ℕ → Registry → Registry
grow k r = if leb (length r) k then r ++ replicate (k - length r + 1) none else r

-- Its second half: a null slot gets an empty category.
unfoldable pub create : ℕ → Registry → Registry
create k r = elim (get_elem? r k) [
  | none ↦ r
  | some slot ↦ elim slot [ none ↦ set r k (some []) | some c ↦ r ]
]

-- `MetadataRegistry::operator[]`, which a look-up calls too.
unfoldable pub touch : ℕ → Registry → Registry
unfolding grow create
touch k r = create k (grow k r)

abbrev pub slot_entries : Option (Option Category) → Category
slot_entries none = []
slot_entries (some none) = []
slot_entries (some (some c)) = c

-- The entries of a category; one that does not exist has none.
unfoldable pub entries : ℕ → Registry → Category
entries k r = slot_entries (get_elem? r k)

-- What a category holds for an index, with no effect.
unfoldable pub peek : ℕ → ℕ → Registry → Option Any
unfolding entries
peek k i r = lookup i (entries k r)

-- `Registry[Kind].get<T>(Idx)`
unfoldable pub get_entry : {B : Type 0} → (Any → Option B) → ℕ → ℕ → Registry → Registry × Get B
unfolding touch peek
get_entry cast k i r = let r' = touch k r in (r', cast_entry cast (peek k i r'))

-- `Registry[Kind][Idx] = v`
unfoldable pub assign : ℕ → ℕ → Any → Registry → Registry
unfolding touch entries
assign k i v r = let r' = touch k r in set r' k (some (insert i v (entries k r')))

abbrev pub is_some {ℓ} : {A : Type ℓ} → Option A → Bool
is_some none = false
is_some (some a) = true

-- `MetadataCategory::erase`: whether there was an entry.
unfoldable pub erase_entry : ℕ → Category → Category × Bool
erase_entry i c = (erase i c, is_some (lookup i c))

-- `MetadataRegistry::erase`: the loop over all the categories, null ones skipped.
unfoldable pub erase_all : ℕ → Registry → Registry × Bool
unfolding erase_entry
erase_all i [] = ([], false)
erase_all i (none ∷ r) = let (rest, ok) = erase_all i r in (none ∷ rest, ok)
erase_all i (some c ∷ r) =
    let (c', hit) = erase_entry i c in let (rest, ok) = erase_all i r in (some c' ∷ rest, hit || ok)

-- `getMDInstrAddrForInstr`; the argument is the instruction's identifier.
unfoldable pub get_md_instr_addr : Option ℕ → Registry → Registry × Get InstrAddr
unfolding get_entry
get_md_instr_addr none r = (r, missing)
get_md_instr_addr (some id) r = get_entry as_instr_addr md_instr_addr id r

-- `getMemoryAccessMD`; the registry pointer may be null.
unfoldable pub get_memory_access_md :
    Option ℕ → Option Registry → Option Registry × Get MemoryAccess
unfolding get_entry
get_memory_access_md id none = (none, missing)
get_memory_access_md none (some r) = (some r, missing)
get_memory_access_md (some id) (some r) =
    let (r', a) = get_entry as_mem_access md_ls_unit_mem_access id r in (some r', a)
