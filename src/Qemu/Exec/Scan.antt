-- ===== src/Qemu/Exec/Scan.antt =====
-- `handleBinaryRegions`: the instructions at which a region begins and ends.
use llvm_mca_daemon.Prelude.{
  ℕ, zero, suc, ◌+◌, ◌-◌, ◌<◌, ◌≤◌, ◌≡◌, refl, ◌∙◌, ap, ◌⊎◌, inl, inr, Bool, true, false, Option,
  none, some, List, [], ◌∷◌, leb, ◌==◌, u64, arith, get_elem?, drop, Bool-cases, Option-cases,
}
use llvm_mca_daemon.Qemu.Regions.{BinaryRegion, BinaryRegions, region_at}
use llvm_mca_daemon.Qemu.Exec.{Hits, find_begin, find_end, close_region, no_hits, scan_regions}

-- The first instruction that passes a test on its offset, and that there is none.
pub record IsFirst (test : ℕ → Bool) (os : List ℕ) (k offset : ℕ) : Type 0 where
  pub at_index : get_elem? os k ≡ some offset
  pub passes : test offset ≡ true
  pub none_before : (j o : ℕ) → j < k → get_elem? os j ≡ some o → test o ≡ false

abbrev pub NonePasses : (ℕ → Bool) → List ℕ → Type 0
NonePasses test os = (j o : ℕ) → get_elem? os j ≡ some o → test o ≡ false

IsFirst-here : (test : ℕ → Bool) (o : ℕ) (os : List ℕ) → test o ≡ true → IsFirst test (o ∷ os) 0 o
IsFirst-here test o os h = record {
  at_index = refl;
  passes = h;
  none_before = λ j p lt at. elim lt [ ];
}

IsFirst-later :
    (test : ℕ → Bool) (o : ℕ) (os : List ℕ) (k p : ℕ)
    → test o ≡ false
    → IsFirst test os k p
    → IsFirst test (o ∷ os) (suc k) p
IsFirst-later test o os k q no_pass f = record {
  at_index = f.at_index;
  passes = f.passes;
  none_before = before;
}
  where
    before : (j p : ℕ) → j < suc k → get_elem? (o ∷ os) j ≡ some p → test p ≡ false
    before zero p lt at = ground (arith, at, no_pass)
    before (suc j) p lt at = f.none_before j p (omega arith) at

NonePasses-cons :
    (test : ℕ → Bool) (o : ℕ) (os : List ℕ)
    → test o ≡ false
    → NonePasses test os
    → NonePasses test (o ∷ os)
NonePasses-cons test o os no_pass h zero p at = ground (arith, at, no_pass)
NonePasses-cons test o os no_pass h (suc j) p at = h j p at

abbrev pub ends_at : ℕ → ℕ → ℕ → Bool
ends_at end_addr va o = end_addr == u64 (va + o)

find_end_lem :
    (end_addr va i : ℕ) (os : List ℕ)
    → ((k : ℕ) × (p : ℕ) × (find_end end_addr va i os ≡ some (i + k))
        × IsFirst (ends_at end_addr va) os k p)
      ⊎ ((find_end end_addr va i os ≡ none) × NonePasses (ends_at end_addr va) os)
unfolding find_end
find_end_lem end_addr va i [] = inr (refl, λ j o at. cc)
find_end_lem end_addr va i (o ∷ os) = elim (Bool-cases (ends_at end_addr va o)) [
  | inl e ↦ inl (0, o, rw e (ap some (omega arith)), IsFirst-here (ends_at end_addr va) o os e)
  | inr e ↦ elim (find_end_lem end_addr va (i + 1) os) [
    | inl (k, p, found, f) ↦ inl (
      suc k,
      p,
      rw e (found ∙ ap some (omega arith)),
      IsFirst-later (ends_at end_addr va) o os k p e f,
    )
    | inr (found, h) ↦ inr (rw e found, NonePasses-cons (ends_at end_addr va) o os e h)
  ]
]

module _ {Text : Type 0} where
  abbrev is_some : Option (BinaryRegion Text) → Bool
  is_some none = false
  is_some (some r) = true

  abbrev pub begins_at : BinaryRegions Text → ℕ → ℕ → Bool
  begins_at regions va o = is_some (region_at regions (u64 (va + o)))

  find_begin_lem :
      (regions : BinaryRegions Text) (va i : ℕ) (os : List ℕ)
      → ((k : ℕ) × (p : ℕ) × (r : BinaryRegion Text) × (find_begin regions va i os
            ≡ some (i + k, r, drop k os))
          × IsFirst (begins_at regions va) os k p
          × (region_at regions (u64 (va + p)) ≡ some r))
        ⊎ ((find_begin regions va i os ≡ none) × NonePasses (begins_at regions va) os)
  unfolding find_begin
  find_begin_lem regions va i [] = inr (refl, λ j o at. cc)
  find_begin_lem regions va i (o ∷ os) = elim (Option-cases (region_at regions (u64 (va + o)))) [
    | inr (r, e) ↦
        let here : begins_at regions va o ≡ true = ap is_some e in
        let place : i + 0 ≡ i = omega arith in
        inl (
          0,
          o,
          r,
          rw (e, place, find_begin) refl,
          IsFirst-here (begins_at regions va) o os here,
          e,
        )
    | inl e ↦
        let absent : begins_at regions va o ≡ false = ap is_some e in
        elim (find_begin_lem regions va (i + 1) os) [
          | inl (k, p, r, found, f, at) ↦
              let place : i + 1 + k ≡ i + suc k = omega arith in
              inl (
                suc k,
                p,
                r,
                rw (e, find_begin) (found ∙ ap (λ n. some (n, r, drop k os)) place),
                IsFirst-later (begins_at regions va) o os k p absent f,
                at,
              )
          | inr (found, h) ↦
              inr (rw (e, find_begin) found, NonePasses-cons (begins_at regions va) o os absent h)
        ]
  ]

  -- What `handleBinaryRegions` reports in an open region, from the instruction `i` on, of which `os`
  -- are the offsets.
  pub data Closes (va i : ℕ) (begin : Option ℕ) (r : BinaryRegion Text) (os : List ℕ)
      (h : Hits Text) : Type 0 where
    closes :
        (k p : ℕ)
        → IsFirst (ends_at r.end_addr va) os k p
        → h ≡ record { begin_at = begin; end_at = some (i + k, r); open_region = none }
        → Closes va i begin r os h
    stays_open :
        NonePasses (ends_at r.end_addr va) os
        → h ≡ record { begin_at = begin; end_at = none; open_region = some r }
        → Closes va i begin r os h

  close_region_lem :
      (begin : Option ℕ) (r : BinaryRegion Text) (va i : ℕ) (os : List ℕ)
      → Closes va i begin r os (close_region begin r va i os)
  unfolding close_region
  close_region_lem begin r va i os = elim (find_end_lem r.end_addr va i os) [
    | inl (k, p, found, f) ↦ closes k p f (rw (found, close_region) refl)
    | inr (found, none_ends) ↦ stays_open none_ends (rw (found, close_region) refl)
  ]

  -- What `handleBinaryRegions` reports of a block at `va`, of which `os` are the offsets.
  pub data Scanned (regions : BinaryRegions Text) (va : ℕ) (os : List ℕ)
      : Option (BinaryRegion Text) → Hits Text → Type 0 where
    in_region :
        (r : BinaryRegion Text) (h : Hits Text)
        → Closes va 0 none r os h
        → Scanned regions va os (some r) h
    begins :
        (k p : ℕ) (r : BinaryRegion Text) (h : Hits Text)
        → IsFirst (begins_at regions va) os k p
        → region_at regions (u64 (va + p)) ≡ some r
        → Closes va k (some k) r (drop k os) h
        → Scanned regions va os none h
    outside :
        (h : Hits Text)
        → NonePasses (begins_at regions va) os
        → h ≡ no_hits none
        → Scanned regions va os none h

  -- For a block at or above the load address: outside of a region `handleBinaryRegions` opens the
  -- region that starts at the first instruction where one starts, or reports nothing. In a region,
  -- one opened there included, it reports the first instruction from there on at which the region
  -- ends and closes it, or leaves it open.
  pub scan_regions_lem :
      (regions : BinaryRegions Text) (start : ℕ) (cur : Option (BinaryRegion Text)) (vaddr : ℕ)
      (os : List ℕ)
      → start ≤ vaddr
      → Scanned regions (vaddr - start) os cur (scan_regions regions start cur vaddr os)
  unfolding scan_regions
  scan_regions_lem regions start (some r) vaddr os le =
      let above : leb start vaddr ≡ true = ground arith in
      in_region r _ (rw (above, scan_regions) (close_region_lem none r (vaddr - start) 0 os))
  scan_regions_lem regions start none vaddr os le =
      let above : leb start vaddr ≡ true = ground arith in
      elim (find_begin_lem regions (vaddr - start) 0 os) [
        | inl (k, p, r, found, f, at) ↦
            let place : 0 + k ≡ k = omega arith in
            begins k p r _ f at (
              rw (above, found, place, scan_regions)
                (close_region_lem (some k) r (vaddr - start) k (drop k os)))
        | inr (found, h) ↦ outside _ h (rw (above, found, scan_regions) refl)
      ]
