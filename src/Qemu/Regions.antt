-- ===== src/Qemu/Regions.antt =====
-- plugins/qemu-broker/BinaryRegions.h and .cpp: the regions of a program to analyse, by their start
-- address, and the manifests that name them. The JSON reader and the object file are parameters.
pub mod Symbols
pub mod Manifest
use llvm_mca_daemon.Prelude.{
  ℕ, zero, suc, ◌+◌, ◌-◌, Bool, true, false, not, ◌||◌, Option, none, some, List, [], ◌∷◌, ltb, leb,
  ◌==◌, u64, if◌then◌else◌, length,
}
use llvm_mca_daemon.Prelude.Assoc.{Assoc, lookup, insert}
use llvm_mca_daemon.Prelude.Int.{ℤ, pos, negsuc, word64, is_negative}

-- `BinaryRegion`
pub record BinaryRegion (Text : Type 0) : Type 0 where
  pub description : Text
  pub start_addr : ℕ
  pub end_addr : ℕ

-- `BinaryRegions::Mode`
pub data Mode : Type 0 where
  trim mark : Mode

-- `BinaryRegions`
pub record BinaryRegions (Text : Type 0) : Type 0 where
  pub regions : Assoc (BinaryRegion Text)
  pub operation_mode : Mode

-- What `json::Value` answers to `getAsInteger` and `getAsString`; of a text, its value by
-- `StringRef::getAsInteger`.
pub data JsonValue : Type 0 where
  integer : ℤ → JsonValue
  text : Option ℤ → JsonValue
  other : JsonValue

-- `parseInteger`
unfoldable pub parse_integer : Option JsonValue → Option ℤ
parse_integer none = none
parse_integer (some (integer n)) = some n
parse_integer (some (text n)) = n
parse_integer (some other) = none

module _ {Text : Type 0} where
  unfoldable pub region_at : BinaryRegions Text → ℕ → Option (BinaryRegion Text)
  region_at b start = lookup start b.regions

  -- `Regions.emplace`: an entry that is there stays.
  unfoldable pub emplace : BinaryRegion Text → Assoc (BinaryRegion Text) → Assoc (BinaryRegion Text)
  emplace r m = elim (lookup r.start_addr m) [ none ↦ insert r.start_addr r m | some old ↦ m ]

  -- `!empty()` for `size()` as a test.
  unfoldable pub has_regions : BinaryRegions Text → Bool
  has_regions b = ltb 0 (length b.regions)

-- An object of an address-based manifest: the values of its keys, an absent one as `none`.
pub record RawRegion (Text : Type 0) : Type 0 where
  pub start : Option JsonValue
  pub end_of : Option JsonValue
  pub description : Option Text

module _ {Text : Type 0} (empty : Text) where
  abbrev pub or_empty : Option Text → Text
  or_empty none = empty
  or_empty (some t) = t

  -- One round of `parseAddressBasedRegions`; a value that is no object is `none`.
  unfoldable pub address_region : Option (RawRegion Text) → Option (BinaryRegion Text)
  address_region none = none
  address_region (some raw) = elim (parse_integer raw.start) [
    | none ↦ none
    | some s ↦ elim (parse_integer raw.end_of) [
      | none ↦ none
      | some e ↦
          if is_negative s || is_negative e
          then none
          else some (record {
            description = or_empty raw.description;
            start_addr = word64 s;
            end_addr = word64 e;
          })
    ]
  ]

  -- `parseAddressBasedRegions`
  unfoldable pub parse_address_based_regions :
      List (Option (RawRegion Text)) → Assoc (BinaryRegion Text) → Assoc (BinaryRegion Text)
  parse_address_based_regions [] m = m
  parse_address_based_regions (raw ∷ raws) m =
      parse_address_based_regions raws
        (elim (address_region raw) [ none ↦ m | some r ↦ emplace r m ])
