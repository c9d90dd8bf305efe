-- ===== src/Qemu/Fetch/Emit.antt =====
-- The batch that `fetchRegion` makes of the selected slices, with its metadata.
use llvm_mca_daemon.Prelude.{
  ℕ, zero, suc, ◌+◌, ◌-◌, ◌<◌, ◌≤◌, ◌≡◌, ◌≢◌, refl, sym, ◌∙◌, ap, ap₂, subst, Bool, false, Option,
  none, some, [], ◌∷◌, ◌==◌, arith, if◌then◌else◌, length, get_elem?, min, between, between-empty,
  between-step, Bool-cases, inl, inr,
}
use llvm_mca_daemon.Prelude.Assoc.{insert, lookup, lookup-insert}
use llvm_mca_daemon.Metadata.{Any, mem_access, instr_addr, begin_mark, end_mark}
use llvm_mca_daemon.Metadata.Registry.{
  md_ls_unit_mem_access, md_instr_addr, md_binary_region_markers, peek,
}
use llvm_mca_daemon.Qemu.{returns, TranslationBlock, AccessChain}
use llvm_mca_daemon.Qemu.Block.Aligned.{IsAligned}
use llvm_mca_daemon.Qemu.Fetch.{Exchange, emit_slice}
use llvm_mca_daemon.Qemu.Fetch.Metadata.{
  IsSound, head_access, rest_after, or_else, mark_with, Stamped, emit_one_lem,
}

-- A chain in order, of instructions from an index on.
abbrev pub IsChain : ℕ → AccessChain → Type 0
IsChain i [] = Unit
IsChain i ((j, a) ∷ chain) = (i ≤ j) × IsChain (suc j) chain

-- The access of an instruction, its address and its marks.
abbrev pub access_at : ℕ → AccessChain → Option Any
access_at k [] = none
access_at k ((j, a) ∷ chain) = if j == k then some (mem_access a) else access_at k chain

abbrev pub addr_of : Option ℕ → Option ℕ → Option Any
addr_of none size = none
addr_of (some a) none = none
addr_of (some a) (some n) = some (instr_addr (record { addr = a; size = n }))

abbrev pub marks_of : Option Bool → Option Bool → Option Any → Option Any
marks_of none e old = old
marks_of (some b) none old = old
marks_of (some b) (some e) old = mark_with e end_mark (mark_with b begin_mark old)

IsChain-mono : (i j : ℕ) (chain : AccessChain) → j ≤ i → IsChain i chain → IsChain j chain
IsChain-mono i j [] le h = tt
IsChain-mono i j ((k, a) ∷ chain) le h = (omega arith, h.1)

access_below : (k i : ℕ) (chain : AccessChain) → k < i → IsChain i chain → access_at k chain ≡ none
access_below k i [] lt h = refl
access_below k i ((j, a) ∷ chain) lt h =
    ground (arith, access_below k (suc j) chain (omega arith) h.1)

head-access_at :
    (i : ℕ) (chain : AccessChain) → IsChain i chain → head_access i chain ≡ access_at i chain
head-access_at i [] h = refl
head-access_at i ((j, a) ∷ chain) h = elim (Bool-cases (j == i)) [
  | inl e ↦ rw e refl
  | inr e ↦ rw e (sym (access_below i (suc j) chain (ground (arith, e, h)) h.1))
]

rest-IsChain :
    (i : ℕ) (chain : AccessChain) → IsChain i chain → IsChain (suc i) (rest_after i chain)
rest-IsChain i [] h = tt
rest-IsChain i ((j, a) ∷ chain) h = elim (Bool-cases (j == i)) [
  | inl e ↦ rw e (IsChain-mono (suc j) (suc i) chain (ground (arith, e)) h.1)
  | inr e ↦ rw e (ground (arith, e, h), h.1)
]

rest-access_at :
    (k i : ℕ) (chain : AccessChain) → i < k → access_at k (rest_after i chain) ≡ access_at k chain
rest-access_at k i [] h = refl
rest-access_at k i ((j, a) ∷ chain) h = ground arith

-- What the loop over `n` instructions of a block, from `i` on, leaves for the places of the batch
-- from `at` on.
pub record Emitted {Inst : Type 0} (tb : TranslationBlock Inst) (i at n : ℕ) (chain : AccessChain)
    (x x' : Exchange) : Type 0 where
  pub traces : x'.traces ≡ x.traces + n
  pub sound : IsSound x'.exchanger.registry
  pub index : (j : ℕ) → j < n → lookup (at + j) x'.exchanger.index_map ≡ some (x.traces + j)
  pub index_below :
      (j : ℕ) → j < at → lookup j x'.exchanger.index_map ≡ lookup j x.exchanger.index_map
  pub old :
      (kind l : ℕ)
      → l < x.traces
      → peek kind l x'.exchanger.registry ≡ peek kind l x.exchanger.registry
  pub later :
      (kind l : ℕ)
      → x.traces + n ≤ l
      → peek kind l x'.exchanger.registry ≡ peek kind l x.exchanger.registry
  pub addresses :
      (j : ℕ)
      → j < n
      → peek md_instr_addr (x.traces + j) x'.exchanger.registry
        ≡ addr_of (get_elem? tb.mc_inst_addrs (i + j)) (get_elem? tb.mc_inst_sizes (i + j))
  pub accesses :
      (j : ℕ)
      → j < n
      → peek md_ls_unit_mem_access (x.traces + j) x'.exchanger.registry
        ≡ or_else
            (access_at (i + j) chain)
            (peek md_ls_unit_mem_access (x.traces + j) x.exchanger.registry)
  pub marks :
      (j : ℕ)
      → j < n
      → peek md_binary_region_markers (x.traces + j) x'.exchanger.registry
        ≡ marks_of
            (get_elem? tb.begin_marks (i + j))
            (get_elem? tb.end_marks (i + j))
            (peek md_binary_region_markers (x.traces + j) x.exchanger.registry)

Emitted-zero :
    {Inst : Type 0} (tb : TranslationBlock Inst) (i at : ℕ) (chain : AccessChain) (x : Exchange)
    → IsSound x.exchanger.registry
    → Emitted tb i at 0 chain x x
Emitted-zero tb i at chain x h = record {
  traces = omega arith;
  sound = h;
  index = λ j lt. elim lt [ ];
  index_below = λ j lt. refl;
  old = λ kind l lt. refl;
  later = λ kind l le. refl;
  addresses = λ j lt. elim lt [ ];
  accesses = λ j lt. elim lt [ ];
  marks = λ j lt. elim lt [ ];
}

-- A category after one round and after the others.
each_place :
    (kind i n : ℕ) (f : ℕ → Option Any → Option Any) (x x1 x' : Exchange)
    → x1.traces ≡ x.traces + 1
    → peek kind x.traces x1.exchanger.registry ≡ f i (peek kind x.traces x.exchanger.registry)
    → ((l : ℕ)
        → x.traces ≢ l
        → peek kind l x1.exchanger.registry ≡ peek kind l x.exchanger.registry)
    → peek kind x.traces x'.exchanger.registry ≡ peek kind x.traces x1.exchanger.registry
    → ((k : ℕ)
        → k < n
        → peek kind (x1.traces + k) x'.exchanger.registry
          ≡ f (i + 1 + k) (peek kind (x1.traces + k) x1.exchanger.registry))
    → (j : ℕ) → j < suc n
    → peek kind (x.traces + j) x'.exchanger.registry
      ≡ f (i + j) (peek kind (x.traces + j) x.exchanger.registry)
each_place kind i n f x x1 x' t first others older rest zero lt =
    let same : x.traces + 0 ≡ x.traces = omega arith in
    let place : i + 0 ≡ i = omega arith in rw (same, place) (older ∙ first)
each_place kind i n f x x1 x' t first others older rest (suc j) lt =
    let same : x1.traces + j ≡ x.traces + suc j = omega arith in
    let place : i + 1 + j ≡ i + suc j = omega arith in
    ap (λ k. peek kind k x'.exchanger.registry) (sym same)
    ∙ rest j (omega arith)
    ∙ ap₂ f place
        (ap (λ k. peek kind k x1.exchanger.registry) same ∙ others (x.traces + suc j) (omega arith))

-- One round before the others.
Emitted-suc :
    {Inst : Type 0} (tb : TranslationBlock Inst) (i at n : ℕ) (chain : AccessChain)
    (x x1 x' : Exchange)
    → IsChain i chain
    → x.traces + suc n < 4294967296
    → Stamped tb i at chain x x1
    → Emitted tb (i + 1) (at + 1) n (rest_after i chain) x1 x'
    → Emitted tb i at (suc n) chain x x'
Emitted-suc tb i at n chain x x1 x' ordered room s e =
    let t : x1.traces ≡ x.traces + 1 = omega (arith, s.traces) in
    let past = λ (kind l : ℕ) (ne : x.traces ≢ l). s.others kind l ne in
    record {
      traces = omega (arith, e.traces, t);
      sound = e.sound;
      index = λ j lt. index_at j lt t s.index e.index e.index_below;
      index_below = λ j lt.
          e.index_below j (omega arith)
          ∙ ap (lookup j) s.index
          ∙ lookup-insert at j x.traces x.exchanger.index_map
          ∙ (rw (apart at j lt) refl);
      old = λ kind l lt. e.old kind l (omega (arith, t)) ∙ past kind l (omega arith);
      later = λ kind l le. e.later kind l (omega (arith, t)) ∙ past kind l (omega arith);
      addresses =
          each_place md_instr_addr i n
            (λ k p. addr_of (get_elem? tb.mc_inst_addrs k) (get_elem? tb.mc_inst_sizes k)) x x1 x' t
            (s.address ∙ (rw (s.at_addr, s.at_size) refl)) (s.others md_instr_addr)
            (e.old md_instr_addr x.traces (omega (arith, t))) e.addresses;
      accesses =
          each_place md_ls_unit_mem_access i n (λ k p. or_else (access_at k chain) p) x x1 x' t
            (s.access
              ∙ ap (λ a. or_else a (peek md_ls_unit_mem_access x.traces x.exchanger.registry))
                  (head-access_at i chain ordered))
            (s.others md_ls_unit_mem_access)
            (e.old md_ls_unit_mem_access x.traces (omega (arith, t)))
            λ k lt.
              e.accesses k lt
              ∙ ap
                  (λ a.
                    or_else a (peek md_ls_unit_mem_access (x1.traces + k) x1.exchanger.registry))
                  (rest-access_at (i + 1 + k) i chain (omega arith));
      marks =
          each_place md_binary_region_markers i n
            (λ k p. marks_of (get_elem? tb.begin_marks k) (get_elem? tb.end_marks k) p) x x1 x' t
            (s.marks ∙ (rw (s.at_begin, s.at_end) refl)) (s.others md_binary_region_markers)
            (e.old md_binary_region_markers x.traces (omega (arith, t))) e.marks;
    }
  where
    apart : (a j : ℕ) → j < a → (a == j) ≡ false
    apart a j h = ground arith

    index_at :
        (j : ℕ)
        → j < suc n
        → x1.traces ≡ x.traces + 1
        → x1.exchanger.index_map ≡ insert at x.traces x.exchanger.index_map
        → ((k : ℕ) → k < n → lookup (at + 1 + k) x'.exchanger.index_map ≡ some (x1.traces + k))
        → ((k : ℕ) → k < at + 1 → lookup k x'.exchanger.index_map ≡ lookup k x1.exchanger.index_map)
        → lookup (at + j) x'.exchanger.index_map ≡ some (x.traces + j)
    index_at zero lt t now then_ below =
        let same : at + 0 ≡ at = omega arith in
        rw same (
          below at (omega arith)
          ∙ ap (lookup at) now
          ∙ (ground (arith, lookup-insert at at x.traces x.exchanger.index_map)))
    index_at (suc j) lt t now then_ below =
        let same : at + suc j ≡ at + 1 + j = omega arith in
        rw same (then_ j (omega arith) ∙ ap some (omega (arith, t)))

-- The loop over a slice, from an instruction of the block up to `last`: it returns as many
-- instructions as there is room for.
pub emit_slice_lem :
    {Inst : Type 0} (tb : TranslationBlock Inst) (last room i at : ℕ) (chain : AccessChain)
    (x : Exchange)
    → IsAligned tb
    → IsChain i chain
    → IsSound x.exchanger.registry
    → i ≤ last
    → last ≤ length tb.mc_insts
    → x.traces + min room (last - i) < 4294967296
    → (x' : Exchange) × (emit_slice tb last room i at chain (some x)
        ≡ returns (between i (min last (i + room)) tb.mc_insts, some x'))
      × Emitted tb i at (min room (last - i)) chain x x'
unfolding emit_slice
emit_slice_lem tb last zero i at chain x al ordered sound low high fits =
    let none_left : min last (i + 0) ≤ i = omega arith in
    let count : min 0 (last - i) ≡ 0 = omega arith in
    (
      x,
      rw (between-empty i _ tb.mc_insts none_left) refl,
      rw count (Emitted-zero tb i at chain x sound),
    )
emit_slice_lem tb last (suc room) i at chain x al ordered sound low high fits =
    elim (Bool-cases (i == last)) [
      | inl e ↦
          let at_end : i ≡ last = ground (arith, e) in
          let none_left : min last (i + suc room) ≤ i = omega arith in
          let count : min (suc room) (last - i) ≡ 0 = omega arith in
          (
            x,
            rw (e, between-empty i _ tb.mc_insts none_left) refl,
            rw count (Emitted-zero tb i at chain x sound),
          )
      | inr e ↦
          let below : i < last = ground (arith, e, low) in
          let (inst, x1, one, at_inst, s) = emit_one_lem tb i at chain x al sound (omega arith) in
          let count : min (suc room) (last - i) ≡ suc (min room (last - (i + 1))) = omega arith in
          let (x', rest, emitted) =
            emit_slice_lem tb last room (i + 1) (at + 1) (rest_after i chain) x1 al
              (next_chain i chain ordered) s.sound (omega arith) high (omega (arith, s.traces)) in
          let stop : min last (i + 1 + room) ≡ min last (i + suc room) = omega arith in
          let step =
            between-step i (min last (i + suc room)) tb.mc_insts inst (omega arith) at_inst in
          (
            x',
            rw (e, one, rest, stop, step) (ground arith),
            subst (λ n. Emitted tb i at n chain x x') (sym count)
                (Emitted-suc tb i at (min room (last - (i + 1))) chain x x1 x' ordered (omega arith)
                  s emitted),
          )
    ]
  where
    next_chain :
        (i : ℕ) (chain : AccessChain) → IsChain i chain → IsChain (i + 1) (rest_after i chain)
    next_chain i chain h =
        let one : suc i ≡ i + 1 = omega arith in
        subst (λ k. IsChain k (rest_after i chain)) one (rest-IsChain i chain h)
