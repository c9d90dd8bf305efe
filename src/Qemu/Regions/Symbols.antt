-- ===== src/Qemu/Regions/Symbols.antt =====
-- `BinaryRegions::parseSymbolBasedRegions`, with the symbols that `readDWARF` and `readSymTable` read.
-- What LLVM finds in the object file and in the manifest is the argument.
use llvm_mca_daemon.Prelude.{
  ℕ, ◌+◌, ◌-◌, ◌≡◌, ◌↔◌, Bool, true, Option, none, some, List, [], ◌∷◌, u64, if◌then◌else◌,
}
use llvm_mca_daemon.Prelude.Assoc.{Assoc}
use llvm_mca_daemon.Prelude.Int.{ℤ, word64, is_negative}
use llvm_mca_daemon.Qemu.Regions.{BinaryRegion, emplace}

-- The names of a `StringMap`, with their comparison.
pub record Names : Type 1 where
  pub Text : Type 0
  pub same : Text → Text → Bool
  pub same_iff : (a b : Text) → (same a b ≡ true) ↔ (a ≡ b)

-- `BRSymbol`
pub record BrSymbol : Type 0 where
  pub start_addr : ℕ
  pub size : ℕ

module _ (names : Names) where
  open names use {Text, same, same_iff}

  -- `StringMap<BRSymbol>`: what was stored last comes first.
  abbrev pub Symbols : Type 0
  Symbols = List (Text × BrSymbol)

  unfoldable pub find_symbol : Text → Symbols → Option BrSymbol
  find_symbol name [] = none
  find_symbol name ((n, s) ∷ m) = if same n name then some s else find_symbol name m

  -- A child of a unit: whether it is a subprogram, its linkage name, and its low and high address.
  pub record Die : Type 0 where
    pub is_subprogram : Bool
    pub name : Option Text
    pub range : Option (ℕ × ℕ)

  unfoldable pub read_die : Die → Symbols → Symbols
  read_die d m =
      if d.is_subprogram
      then elim d.name [
        | none ↦ m
        | some n ↦ elim d.range [
          | none ↦ m
          | some (low, high) ↦ (n, record { start_addr = low; size = high - low }) ∷ m
        ]
      ]
      else m

  -- `readDWARF`
  unfoldable pub read_dwarf : List Die → Symbols → Symbols
  unfolding read_die
  read_dwarf [] m = m
  read_dwarf (d ∷ ds) m = read_dwarf ds (read_die d m)

  -- A symbol of the table: its name and address, each of which may not be readable.
  pub record ElfSymbol : Type 0 where
    pub name : Option Text
    pub addr : Option ℕ
    pub size : ℕ

  unfoldable pub read_symbol : ElfSymbol → Symbols → Symbols
  unfolding find_symbol
  read_symbol e m = elim e.name [
    | none ↦ m
    | some n ↦ elim e.addr [
      | none ↦ m
      | some a ↦ elim (find_symbol n m) [
        | some old ↦ m
        | none ↦ (n, record { start_addr = a; size = e.size }) ∷ m
      ]
    ]
  ]

  -- `readSymTable`
  unfoldable pub read_sym_table : List ElfSymbol → Symbols → Symbols
  unfolding read_symbol
  read_sym_table [] m = m
  read_sym_table (e ∷ es) m = read_sym_table es (read_symbol e m)

  -- An object of the manifest's `regions`: its values, `offsets` by what `getAsInteger` answers.
  pub record RawSymbolRegion : Type 0 where
    pub symbol : Option Text
    pub description : Option Text
    pub offsets : Option (List (Option ℤ))

  -- A start offset that is negative or no integer counts as zero.
  abbrev pub start_offset : Option (List (Option ℤ)) → ℕ
  start_offset none = 0
  start_offset (some []) = 0
  start_offset (some (none ∷ os)) = 0
  start_offset (some (some o ∷ os)) = if is_negative o then 0 else word64 o

  abbrev pub end_offset : Option (List (Option ℤ)) → ℕ
  end_offset none = 0
  end_offset (some []) = 0
  end_offset (some (o ∷ [])) = 0
  end_offset (some (o ∷ none ∷ os)) = 0
  end_offset (some (o ∷ some e ∷ os)) = word64 e

  abbrev pub described : Text → Option Text → Text
  described name none = name
  described name (some d) = d

  -- One round of the loop; a value that is no object is `none`. The sums are those of `int64_t`.
  unfoldable pub symbol_region : Symbols → Option RawSymbolRegion → Option (BinaryRegion Text)
  symbol_region symbols none = none
  symbol_region symbols (some raw) = elim raw.symbol [
    | none ↦ none
    | some name ↦ elim (find_symbol name symbols) [
      | none ↦ none
      | some s ↦ some (record {
        description = described name raw.description;
        start_addr = u64 (s.start_addr + start_offset raw.offsets);
        end_addr = u64 (s.start_addr + s.size + end_offset raw.offsets);
      })
    ]
  ]

  -- The loop over the manifest's regions.
  unfoldable pub symbol_regions :
      Symbols
      → List (Option RawSymbolRegion)
      → Assoc (BinaryRegion Text)
      → Assoc (BinaryRegion Text)
  symbol_regions symbols [] m = m
  symbol_regions symbols (raw ∷ raws) m =
      symbol_regions symbols raws
        (elim (symbol_region symbols raw) [ none ↦ m | some r ↦ emplace r m ])

  -- `parseSymbolBasedRegions`
  unfoldable pub parse_symbol_based_regions :
      List Die
      → List ElfSymbol
      → List (Option RawSymbolRegion)
      → Assoc (BinaryRegion Text)
      → Assoc (BinaryRegion Text)
  unfolding read_dwarf read_sym_table symbol_regions
  parse_symbol_based_regions dies elf raws m =
      symbol_regions (read_sym_table elf (read_dwarf dies [])) raws m
