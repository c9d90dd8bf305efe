-- ===== src/Qemu/Regions/Manifest.antt =====
-- Which region of a manifest counts for a start address, and which symbol for a name.
use llvm_mca_daemon.Prelude.{
  ℕ, ◌≡◌, refl, sym, ◌∙◌, ap, Bool, true, false, Option, none, some, List, [], ◌∷◌, ◌==◌, arith,
  if◌then◌else◌, Bool-cases, Option-cases, inl, inr,
}
use llvm_mca_daemon.Prelude.Assoc.{Assoc, lookup, lookup-insert}
use llvm_mca_daemon.Qemu.Regions.{
  BinaryRegion, RawRegion, emplace, address_region, parse_address_based_regions,
}
use llvm_mca_daemon.Qemu.Regions.Symbols.{
  Names, BrSymbol, Symbols, ElfSymbol, RawSymbolRegion, Die, find_symbol, read_symbol,
  read_sym_table, read_dwarf, symbol_region, symbol_regions, parse_symbol_based_regions,
}

-- The first region of a list with a start address.
abbrev pub first_at {ℓ} :
    {A : Type ℓ} {Text : Type 0}
    → (A → Option (BinaryRegion Text))
    → ℕ
    → List A
    → Option (BinaryRegion Text)
first_at region k [] = none
first_at region k (raw ∷ raws) = elim (region raw) [
  | none ↦ first_at region k raws
  | some r ↦ if r.start_addr == k then some r else first_at region k raws
]

abbrev pub or_else {ℓ} : {A : Type ℓ} → Option A → Option A → Option A
or_else none b = b
or_else (some a) b = some a

lookup-emplace :
    {Text : Type 0} (k : ℕ) (r : BinaryRegion Text) (m : Assoc (BinaryRegion Text))
    → lookup k (emplace r m) ≡ or_else (lookup k m) (if r.start_addr == k then some r else none)
unfolding emplace
lookup-emplace k r m = elim (Option-cases (lookup r.start_addr m)) [
  | inl e ↦ rw (e, emplace) (lookup-insert r.start_addr k r m ∙ (ground (arith, e)))
  | inr (old, e) ↦ rw (e, emplace) (ground (arith, e))
]

or_else_assoc {ℓ} :
    {A : Type ℓ} (a b c : Option A) → or_else (or_else a b) c ≡ or_else a (or_else b c)
or_else_assoc none b c = refl
or_else_assoc (some a) b c = refl

or_else-none {ℓ} : {A : Type ℓ} (a : Option A) → or_else a none ≡ a
or_else-none none = refl
or_else-none (some a) = refl

-- The round of a loop over a manifest: what it stores, before the rest of the list.
round_lem :
    {Text : Type 0} (k : ℕ) (r : BinaryRegion Text) (m : Assoc (BinaryRegion Text))
    (rest : Option (BinaryRegion Text))
    → or_else (lookup k (emplace r m)) rest
      ≡ or_else (lookup k m) (if r.start_addr == k then some r else rest)
round_lem k r m rest =
    ap (λ o. or_else o rest) (lookup-emplace k r m)
    ∙ or_else_assoc (lookup k m) (if r.start_addr == k then some r else none) rest
    ∙ ap (or_else (lookup k m)) (chosen (r.start_addr == k))
  where
    chosen : (b : Bool) → or_else (if b then some r else none) rest ≡ (if b then some r else rest)
    chosen true = refl
    chosen false = refl

-- After a manifest by addresses was read, the region at an address is the one that was there, else
-- the first entry of the manifest with that start, of those with both numbers and neither negative.
pub parse_address_based_regions_lem :
    {Text : Type 0} (empty : Text) (k : ℕ) (raws : List (Option (RawRegion Text)))
    (m : Assoc (BinaryRegion Text))
    → lookup k (parse_address_based_regions empty raws m)
      ≡ or_else (lookup k m) (first_at (address_region empty) k raws)
unfolding parse_address_based_regions
parse_address_based_regions_lem empty k [] m = sym (or_else-none (lookup k m))
parse_address_based_regions_lem empty k (raw ∷ raws) m =
    elim (Option-cases (address_region empty raw)) [
      | inl e ↦
          rw (e, parse_address_based_regions, first_at)
            (parse_address_based_regions_lem empty k raws m)
      | inr (r, e) ↦
          rw (e, parse_address_based_regions, first_at)
            (parse_address_based_regions_lem empty k raws (emplace r m)
              ∙ round_lem k r m (first_at (address_region empty) k raws))
    ]

module _ (names : Names) where
  open names use {Text, same, same_iff}

  symbol_regions_lem :
      (symbols : Symbols names) (k : ℕ) (raws : List (Option (RawSymbolRegion names)))
      (m : Assoc (BinaryRegion Text))
      → lookup k (symbol_regions names symbols raws m)
        ≡ or_else (lookup k m) (first_at (symbol_region names symbols) k raws)
  unfolding symbol_regions
  symbol_regions_lem symbols k [] m = sym (or_else-none (lookup k m))
  symbol_regions_lem symbols k (raw ∷ raws) m =
      elim (Option-cases (symbol_region names symbols raw)) [
        | inl e ↦ rw (e, symbol_regions, first_at) (symbol_regions_lem symbols k raws m)
        | inr (r, e) ↦
            rw (e, symbol_regions, first_at)
              (symbol_regions_lem symbols k raws (emplace r m)
                ∙ round_lem k r m (first_at (symbol_region names symbols) k raws))
      ]

  -- The first entry of the symbol table with a name and an address.
  abbrev pub symbol_of : Text → ElfSymbol names → Option BrSymbol
  symbol_of name e = elim e.name [
    | none ↦ none
    | some n ↦ elim e.addr [
      | none ↦ none
      | some a ↦ if same n name then some (record { start_addr = a; size = e.size }) else none
    ]
  ]

  abbrev pub first_symbol : Text → List (ElfSymbol names) → Option BrSymbol
  first_symbol name [] = none
  first_symbol name (e ∷ es) = or_else (symbol_of name e) (first_symbol name es)

  same_find :
      (name n : Text) (m : Symbols names)
      → same n name ≡ true
      → find_symbol names name m ≡ find_symbol names n m
  same_find name n m h = ap (λ k. find_symbol names k m) (sym ((same_iff n name).0 h))

  -- A symbol that is stored where its name is not there.
  stored :
      (name n : Text) (m : Symbols names) (s : BrSymbol)
      → find_symbol names name (elim (find_symbol names n m) [ some old ↦ m | none ↦ (n, s) ∷ m ])
        ≡ or_else (find_symbol names name m) (if same n name then some s else none)
  unfolding find_symbol
  stored name n m s = elim (Bool-cases (same n name)) [
    | inl t ↦ elim (Option-cases (find_symbol names n m)) [
      | inl e ↦ rw (e, t, same_find name n m t, find_symbol, e) refl
      | inr (old, e) ↦ rw (e, t, same_find name n m t, e) refl
    ]
    | inr t ↦ elim (Option-cases (find_symbol names n m)) [
      | inl e ↦ rw (e, t, find_symbol) (sym (or_else-none (find_symbol names name m)))
      | inr (old, e) ↦ rw (e, t) (sym (or_else-none (find_symbol names name m)))
    ]
  ]

  find-read_symbol :
      (name : Text) (e : ElfSymbol names) (m : Symbols names)
      → find_symbol names name (read_symbol names e m)
        ≡ or_else (find_symbol names name m) (symbol_of name e)
  unfolding read_symbol
  find-read_symbol name e m = elim (Option-cases e.name) [
    | inl x ↦ rw (x, read_symbol, symbol_of) (sym (or_else-none (find_symbol names name m)))
    | inr (n, x) ↦ elim (Option-cases e.addr) [
      | inl y ↦ rw (x, y, read_symbol, symbol_of) (sym (or_else-none (find_symbol names name m)))
      | inr (a, y) ↦
          rw (x, y, read_symbol, symbol_of)
            (stored name n m (record { start_addr = a; size = e.size }))
    ]
  ]

  -- Where a name comes first in the table.
  pub read_sym_table_lem :
      (name : Text) (es : List (ElfSymbol names)) (m : Symbols names)
      → find_symbol names name (read_sym_table names es m)
        ≡ or_else (find_symbol names name m) (first_symbol name es)
  unfolding read_sym_table
  read_sym_table_lem name [] m = sym (or_else-none (find_symbol names name m))
  read_sym_table_lem name (e ∷ es) m =
      read_sym_table_lem name es (read_symbol names e m)
      ∙ ap (λ o. or_else o (first_symbol name es)) (find-read_symbol name e m)
      ∙ or_else_assoc (find_symbol names name m) (symbol_of name e) (first_symbol name es)

  -- The same for the entries by symbols, whose names are looked up in the debug information first and
  -- in the symbol table then.
  pub parse_symbol_based_regions_lem :
      (dies : List (Die names)) (elf : List (ElfSymbol names)) (k : ℕ)
      (raws : List (Option (RawSymbolRegion names))) (m : Assoc (BinaryRegion Text))
      → (lookup k (parse_symbol_based_regions names dies elf raws m)
          ≡ or_else (lookup k m) (
              first_at
                (symbol_region names (read_sym_table names elf (read_dwarf names dies [])))
                k
                raws))
        × ((name : Text)
            → find_symbol names name (read_sym_table names elf (read_dwarf names dies []))
              ≡ or_else (find_symbol names name (read_dwarf names dies [])) (first_symbol name elf))
  unfolding parse_symbol_based_regions
  parse_symbol_based_regions_lem dies elf k raws m = (
    symbol_regions_lem (read_sym_table names elf (read_dwarf names dies [])) k raws m,
    λ name. read_sym_table_lem name elf (read_dwarf names dies []),
  )
