-- ===== src/Metadata.antt =====
-- MetadataCategories.h, the metadata types of MCADLSUnit.h and RegionMarker.h, and the `Any` that
-- a category of MetadataRegistry.h stores.
pub mod Ranges
pub mod Registry
mod Tests
use Prim.Native.Nat.{bit_and, bit_or}
use llvm_mca_daemon.Prelude.{
  ℕ, ◌+◌, ◌-◌, ◌%◌, Bool, true, false, not, ◌&&◌, ◌||◌, Option, none, some, List, [], ◌∷◌, ◌++◌,
  ltb, leb, ◌==◌, u32, u64, if◌then◌else◌,
}

-- `MDInstrAddr`
pub record InstrAddr : Type 0 where
  pub addr : ℕ
  pub size : ℕ

-- `operator<`: the end of the left one lies strictly below the start of the right one.
unfoldable pub instr_lt : InstrAddr → InstrAddr → Bool
instr_lt a b = ltb (u64 (a.addr + a.size)) b.addr

-- `operator==`
unfoldable pub instr_eq : InstrAddr → InstrAddr → Bool
instr_eq a b = a.addr == b.addr && a.size == b.size

-- One access of a bundle: `MDMemoryAccess` without a bundle of its own.
pub record Access : Type 0 where
  pub is_store : Bool
  pub addr : ℕ
  pub size : ℕ

-- `BundledMemoryAccesses`
pub record Bundle : Type 0 where
  pub extended_addr : ℕ
  pub extended_size : ℕ
  pub accesses : List Access

-- `MDMemoryAccess`; the bundle is null until the first `append`.
pub record MemoryAccess : Type 0 where
  pub is_store : Bool
  pub addr : ℕ
  pub size : ℕ
  pub bundled : Option Bundle

unfoldable pub start_addr : MemoryAccess → ℕ
start_addr a = elim a.bundled [ none ↦ a.addr | some b ↦ b.extended_addr ]

unfoldable pub end_addr : MemoryAccess → ℕ
end_addr a = elim a.bundled [
  | none ↦ u64 (a.addr + a.size)
  | some b ↦ u64 (b.extended_addr + b.extended_size)
]

-- The bundle that `append` works on: a new one over the access itself if there is none.
abbrev pub bundle_of : MemoryAccess → Bundle
bundle_of a = elim a.bundled [
  | none ↦ record { extended_addr = a.addr; extended_size = a.size; accesses = [] }
  | some b ↦ b
]

-- The two updates of the extended range in `append`, in their order. `ExtendedSize` is `unsigned`.
unfoldable pub extend : Bundle → Access → Bundle
extend b m =
    let low : ℕ = if ltb m.addr b.extended_addr then m.addr else b.extended_addr in
    let new_end = u64 (m.addr + m.size) in
    record {
      extended_addr = low;
      extended_size =
          if ltb (u64 (low + b.extended_size)) new_end
          then u32 (new_end - low)
          else b.extended_size;
      accesses = b.accesses ++ (m ∷ []);
    }

unfoldable pub append : MemoryAccess → Access → MemoryAccess
unfolding extend
append a m = record a { bundled = some (extend (bundle_of a) m) }

-- `operator<` on memory accesses
unfoldable pub access_lt : MemoryAccess → MemoryAccess → Bool
access_lt a b = leb (end_addr a) (start_addr b)

-- Equivalent keys of the `std::multiset` of a memory group.
unfoldable pub access_equiv : MemoryAccess → MemoryAccess → Bool
unfolding access_lt
access_equiv a b = not (access_lt a b) && not (access_lt b a)

-- `RegionMarker`: two bits.
abbrev pub RegionMarker : Type 0
RegionMarker = ℕ

abbrev pub begin_mark : RegionMarker
begin_mark = 1

abbrev pub end_mark : RegionMarker
end_mark = 2

unfoldable pub is_begin : RegionMarker → Bool
is_begin m = not (bit_and m begin_mark == 0)

unfoldable pub is_end : RegionMarker → Bool
is_end m = not (bit_and m end_mark == 0)

unfoldable pub marker_or : RegionMarker → RegionMarker → RegionMarker
marker_or m n = bit_or m n % 4

-- What a category stores: one constructor for each type that a broker puts into an `Any`.
pub data Any : Type 0 where
  mem_access : MemoryAccess → Any
  instr_addr : InstrAddr → Any
  branch_flow : Bool → Any
  region_marker : RegionMarker → Any
