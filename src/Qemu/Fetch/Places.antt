-- ===== src/Qemu/Fetch/Places.antt =====
-- The batch that `fetchRegion` makes of all selected slices.
use llvm_mca_daemon.Prelude.{
  ℕ, ◌+◌, ◌-◌, ◌<◌, ◌≤◌, ◌≡◌, refl, sym, ◌∙◌, ap, subst, inl, inr, Option, none, some, List, [],
  ◌∷◌, ltb, arith, if◌then◌else◌, length, get_elem?, min, between, between-min, length-append, All,
  Bool-cases,
}
use llvm_mca_daemon.Prelude.Assoc.{lookup}
use llvm_mca_daemon.Metadata.{Any}
use llvm_mca_daemon.Metadata.Registry.{
  md_ls_unit_mem_access, md_instr_addr, md_binary_region_markers, peek,
}
use llvm_mca_daemon.Qemu.{returns, TranslationBlock, AccessChain, TbSlice}
use llvm_mca_daemon.Qemu.Exec.{block_at}
use llvm_mca_daemon.Qemu.Fetch.{Exchange, emit_slice, emit, chain_or_empty}
use llvm_mca_daemon.Qemu.Fetch.Metadata.{IsSound, or_else}
use llvm_mca_daemon.Qemu.Fetch.Emit.{access_at, addr_of, marks_of, Emitted, emit_slice_lem}
use llvm_mca_daemon.Qemu.Fetch.Pending.{insts_of, all_insts, Fits, length-insts_of, insts_of_block}

-- The metadata of an instruction, and what each is for an instruction of a block.
pub data Field : Type 0 where
  address access marks : Field

abbrev pub md_of : Field → ℕ
md_of address = md_instr_addr
md_of access = md_ls_unit_mem_access
md_of marks = md_binary_region_markers

abbrev pub stamp :
    {Inst : Type 0} → Field → TranslationBlock Inst → AccessChain → ℕ → Option Any → Option Any
stamp address tb chain i old = addr_of (get_elem? tb.mc_inst_addrs i) (get_elem? tb.mc_inst_sizes i)
stamp access tb chain i old = or_else (access_at i chain) old
stamp marks tb chain i old = marks_of (get_elem? tb.begin_marks i) (get_elem? tb.end_marks i) old

-- A batch of `n` instructions from the place `at` on: the places are numbered by the traces, and
-- each has its metadata under its number.
pub record Placed (at n : ℕ) (want : Field → ℕ → Option Any → Option Any) (x x' : Exchange)
    : Type 0 where
  pub traces : x'.traces ≡ x.traces + n
  pub sound : IsSound x'.exchanger.registry
  pub index : (j : ℕ) → j < n → lookup (at + j) x'.exchanger.index_map ≡ some (x.traces + j)
  pub index_below :
      (j : ℕ) → j < at → lookup j x'.exchanger.index_map ≡ lookup j x.exchanger.index_map
  pub old :
      (kind l : ℕ)
      → l < x.traces
      → peek kind l x'.exchanger.registry ≡ peek kind l x.exchanger.registry
  pub later :
      (kind l : ℕ)
      → x.traces + n ≤ l
      → peek kind l x'.exchanger.registry ≡ peek kind l x.exchanger.registry
  pub places :
      (f : Field) (j : ℕ)
      → j < n
      → peek (md_of f) (x.traces + j) x'.exchanger.registry
        ≡ want f j (peek (md_of f) (x.traces + j) x.exchanger.registry)

slice-Placed :
    {Inst : Type 0} (tb : TranslationBlock Inst) (i at n : ℕ) (chain : AccessChain)
    (x x' : Exchange)
    → Emitted tb i at n chain x x'
    → Placed at n (λ f j. stamp f tb chain (i + j)) x x'
slice-Placed tb i at n chain x x' e = record {
  traces = e.traces;
  sound = e.sound;
  index = e.index;
  index_below = e.index_below;
  old = e.old;
  later = e.later;
  places = each;
}
  where
    each :
        (f : Field) (j : ℕ)
        → j < n
        → peek (md_of f) (x.traces + j) x'.exchanger.registry
          ≡ stamp f tb chain (i + j) (peek (md_of f) (x.traces + j) x.exchanger.registry)
    each address = e.addresses
    each access = e.accesses
    each marks = e.marks

-- The first `n` places by one rule, the others by another.
abbrev pub then_by :
    ℕ
    → (Field → ℕ → Option Any → Option Any)
    → (Field → ℕ → Option Any → Option Any)
    → Field
    → ℕ
    → Option Any
    → Option Any
then_by n first later f j old = if ltb j n then first f j old else later f (j - n) old

Placed-append :
    (at n m : ℕ) (first later : Field → ℕ → Option Any → Option Any) (x y z : Exchange)
    → Placed at n first x y
    → Placed (at + n) m later y z
    → Placed at (n + m) (then_by n first later) x z
Placed-append at n m first later x y z a b = record {
  traces = omega (arith, a.traces, b.traces);
  sound = b.sound;
  index = λ j lt. elim (Bool-cases (ltb j n)) [
    | inl e ↦ b.index_below (at + j) (ground (arith, e)) ∙ a.index j (ground (arith, e))
    | inr e ↦
        let less : n ≤ j = ground (arith, e) in
        let moved : at + n + (j - n) ≡ at + j = omega arith in
        ap (λ k. lookup k z.exchanger.index_map) (sym moved)
        ∙ b.index (j - n) (omega arith)
        ∙ ap some (omega (arith, a.traces))
  ];
  index_below = λ j lt. b.index_below j (omega arith) ∙ a.index_below j lt;
  old = λ kind l lt. b.old kind l (omega (arith, a.traces)) ∙ a.old kind l lt;
  later = λ kind l le. b.later kind l (omega (arith, a.traces)) ∙ a.later kind l (omega arith);
  places = λ f j lt. elim (Bool-cases (ltb j n)) [
    | inl e ↦
        let less : j < n = ground (arith, e) in
        rw e (b.old (md_of f) (x.traces + j) (omega (arith, a.traces)) ∙ a.places f j less)
    | inr e ↦
        let less : n ≤ j = ground (arith, e) in
        let moved : y.traces + (j - n) ≡ x.traces + j = omega (arith, a.traces) in
        rw e (
          ap (λ k. peek (md_of f) k z.exchanger.registry) (sym moved)
          ∙ b.places f (j - n) (omega arith)
          ∙ ap (later f (j - n)) (
              ap (λ k. peek (md_of f) k y.exchanger.registry) moved
              ∙ a.later (md_of f) (x.traces + j) (omega arith)))
  ];
}

module _ {Inst Text : Type 0} (tbs : List (Option (TranslationBlock Inst))) where
  -- What each place of the batch gets: the metadata of its instruction in the block.
  abbrev pub stamp_of :
      TbSlice Text → Option (TranslationBlock Inst) → Field → ℕ → Option Any → Option Any
  stamp_of c none f j old = old
  stamp_of c (some tb) f j old = stamp f tb (chain_or_empty c.memory_accesses) (c.begin_idx + j) old

  abbrev pub place_of : List (TbSlice Text) → Field → ℕ → Option Any → Option Any
  place_of [] f j old = old
  place_of (c ∷ cs) f j old =
      then_by (length (insts_of tbs c)) (stamp_of c (block_at c.index tbs)) (place_of cs) f j old

  slice_lem :
      (size : ℕ) (c : TbSlice Text) (fits : Fits tbs size c) (room at : ℕ) (x : Exchange)
      → IsSound x.exchanger.registry
      → length (insts_of tbs c) ≤ room
      → x.traces + length (insts_of tbs c) < 4294967296
      → (x' : Exchange) × (emit_slice fits.block
            (min (length fits.block.mc_insts) c.end_idx)
            room
            c.begin_idx
            at
            (chain_or_empty c.memory_accesses)
            (some x)
          ≡ returns (insts_of tbs c, some x'))
        × Placed at (length (insts_of tbs c)) (stamp_of c (block_at c.index tbs)) x x'
  slice_lem size c fits room at x sound enough small =
      let tb = fits.block in
      let n = length (insts_of tbs c) in
      let len = length-insts_of tbs size c fits in
      let last = min (length tb.mc_insts) c.end_idx in
      let count : min room (last - c.begin_idx) ≡ n = omega (arith, len, enough) in
      let (x', emitted, e) =
        emit_slice_lem tb last room c.begin_idx at (chain_or_empty c.memory_accesses) x fits.aligned
          fits.chain sound (omega (arith, fits.ordered, fits.in_block)) (omega arith)
          (omega (arith, count, small)) in
      let stop : min last (c.begin_idx + room) ≡ last = omega (arith, len, enough) in
      let whole : between c.begin_idx (min last (c.begin_idx + room)) tb.mc_insts ≡ insts_of tbs c =
        ap (λ k. between c.begin_idx k tb.mc_insts) stop
        ∙ between-min c.begin_idx c.end_idx tb.mc_insts
        ∙ sym (insts_of_block tbs size c fits) in
      let placed = slice-Placed tb c.begin_idx at _ (chain_or_empty c.memory_accesses) x x' e in
      (
        x',
        emitted ∙ ap (λ l. returns (l, some x')) whole,
        subst (λ k. Placed at k (stamp_of c (block_at c.index tbs)) x x') count
            (subst (λ o. Placed at (min room (last - c.begin_idx)) (stamp_of c o) x x')
              (sym fits.at_index) placed),
      )

  -- All selected slices, where there is room for them.
  pub emit_lem :
      (size : ℕ) (cs : List (TbSlice Text)) (room at : ℕ) (x : Exchange)
      → All (Fits tbs size) cs
      → IsSound x.exchanger.registry
      → length (all_insts tbs cs) ≤ room
      → x.traces + length (all_insts tbs cs) < 4294967296
      → (x' : Exchange) × (emit tbs room at cs (some x) ≡ returns (all_insts tbs cs, some x'))
        × Placed at (length (all_insts tbs cs)) (place_of cs) x x'
  unfolding emit
  emit_lem size [] room at x fits sound enough small = (
    x,
    refl,
    record {
      traces = omega arith;
      sound = sound;
      index = λ j lt. elim lt [ ];
      index_below = λ j lt. refl;
      old = λ kind l lt. refl;
      later = λ kind l le. refl;
      places = λ f j lt. elim lt [ ];
    },
  )
  emit_lem size (c ∷ cs) room at x (f, fs) sound enough small =
      let n = length (insts_of tbs c) in
      let total = length-append (insts_of tbs c) (all_insts tbs cs) in
      let (x1, first, a) =
        slice_lem size c f room at x sound (omega (arith, total, enough))
          (omega (arith, total, small)) in
      let (x', rest, b) =
        emit_lem size cs (room - n) (at + n) x1 fs a.sound (omega (arith, total, enough))
          (omega (arith, total, small, a.traces)) in
      (
        x',
        rw (f.at_index, first, rest) refl,
        subst (λ k. Placed at k (place_of (c ∷ cs)) x x') (sym total)
            (Placed-append at n (length (all_insts tbs cs)) (stamp_of c (block_at c.index tbs))
              (place_of cs) x x1 x' a b),
      )
