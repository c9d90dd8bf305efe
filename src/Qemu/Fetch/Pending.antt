-- ===== src/Qemu/Fetch/Pending.antt =====
-- What the queue of `QemuBroker` stands for, and the slices that `fetchRegion` selects.
use llvm_mca_daemon.Prelude.{
  ℕ, suc, ◌+◌, ◌-◌, ◌<◌, ◌≤◌, ◌≡◌, refl, ap, ◌⊎◌, inl, inr, Option, none, some, List, [], ◌∷◌, ◌++◌,
  ltb, arith, length, min, between, length-between, All, Bool-cases,
}
use llvm_mca_daemon.Qemu.Regions.{BinaryRegion}
use llvm_mca_daemon.Qemu.{TranslationBlock, AccessChain, TbSlice}
use llvm_mca_daemon.Qemu.Exec.{block_at}
use llvm_mca_daemon.Qemu.Block.Aligned.{IsAligned}
use llvm_mca_daemon.Qemu.Fetch.{
  chain_below, chain_from, map_chain, split, slice_size, last_region, chain_or_empty,
}
use llvm_mca_daemon.Qemu.Fetch.Emit.{IsChain}

-- The executed program: instructions, and the ends of regions between them.
pub data Event (Inst Text : Type 0) : Type 0 where
  step : Inst → Event Inst Text
  finish : BinaryRegion Text → Event Inst Text

pub chain_below-IsChain :
    (k i : ℕ) (chain : AccessChain) → IsChain i chain → IsChain i (chain_below k chain)
unfolding chain_below
chain_below-IsChain k i [] h = tt
chain_below-IsChain k i ((j, a) ∷ chain) h = elim (Bool-cases (ltb j k)) [
  | inl e ↦ rw e (h.0, chain_below-IsChain k (suc j) chain h.1)
  | inr e ↦ rw e tt
]

chain_from-IsChain :
    (k i : ℕ) (chain : AccessChain) → IsChain i chain → IsChain k (chain_from k chain)
unfolding chain_from
chain_from-IsChain k i [] h = tt
chain_from-IsChain k i ((j, a) ∷ chain) h = elim (Bool-cases (ltb j k)) [
  | inl e ↦ rw e (chain_from-IsChain k (suc j) chain h.1)
  | inr e ↦ rw e (ground (arith, e), h.1)
]

pub map_chain-IsChain :
    (i j : ℕ) (g : AccessChain → AccessChain) (chain : Option AccessChain)
    → ((m : AccessChain) → IsChain i m → IsChain j (g m))
    → IsChain i (chain_or_empty chain)
    → IsChain j (chain_or_empty (map_chain g chain))
map_chain-IsChain i j g none keep h = tt
map_chain-IsChain i j g (some chain) keep h = keep chain h

module _ {Inst Text : Type 0} (tbs : List (Option (TranslationBlock Inst))) where
  -- The instructions of a slice.
  abbrev pub insts_of : TbSlice Text → List Inst
  insts_of c = elim (block_at c.index tbs) [
    | none ↦ []
    | some tb ↦ between c.begin_idx c.end_idx tb.mc_insts
  ]

  abbrev pub all_insts : List (TbSlice Text) → List Inst
  all_insts [] = []
  all_insts (c ∷ cs) = insts_of c ++ all_insts cs

  abbrev pub steps : List Inst → List (Event Inst Text)
  steps [] = []
  steps (i ∷ is) = step i ∷ steps is

  abbrev pub finished : Option (BinaryRegion Text) → List (Event Inst Text)
  finished none = []
  finished (some r) = finish r ∷ []

  -- The part of the program that is in the queue.
  abbrev pub program : List (TbSlice Text) → List (Event Inst Text)
  program [] = []
  program (c ∷ cs) = (steps (insts_of c) ++ finished c.region) ++ program cs

  -- A slice of a block that is there, for batches of a size that no block is longer than.
  pub record Fits (size : ℕ) (c : TbSlice Text) : Type 0 where
    pub block : TranslationBlock Inst
    pub at_index : block_at c.index tbs ≡ some block
    pub aligned : IsAligned block
    pub ordered : c.begin_idx ≤ c.end_idx
    pub in_block : c.begin_idx ≤ length block.mc_insts
    pub word : c.end_idx < 65536
    pub chain : IsChain c.begin_idx (chain_or_empty c.memory_accesses)
    pub short : length block.mc_insts ≤ size

  -- A slice whose length `fetchRegion` counts as it is.
  abbrev pub IsExact : {size : ℕ} {c : TbSlice Text} → Fits size c → Type 0
  IsExact {c = c} f = (c.begin_idx ≡ 0) ⊎ (c.end_idx ≤ length f.block.mc_insts)

  abbrev pub AllExact : ℕ → List (TbSlice Text) → Type 0
  AllExact size cs = All (λ c. (f : Fits size c) × IsExact f) cs

  -- The queue: only the slice in front may begin inside of its block and be open to its end.
  abbrev pub IsReady : ℕ → List (TbSlice Text) → Type 0
  IsReady size [] = Unit
  IsReady size (c ∷ cs) = Fits size c × AllExact size cs

  -- What a selection of slices for `room` instructions takes off a queue, `short` of which are not
  -- made use of.
  pub record Selected (size room short : ℕ) (queue cs rest : List (TbSlice Text)) : Type 0 where
    pub all_fit : All (Fits size) cs
    pub ready : IsReady size rest
    pub bounded : length (all_insts cs) ≤ room
    pub prefix : program queue ≡ (steps (all_insts cs) ++ finished (last_region cs)) ++ program rest
    pub full :
        (room ≤ length (all_insts cs) + short)
        ⊎ (((r : BinaryRegion Text) × (last_region cs ≡ some r)) ⊎ (rest ≡ []))

  pub steps-append : (is js : List Inst) → steps (is ++ js) ≡ steps is ++ steps js
  steps-append [] js = refl
  steps-append (i ∷ is) js = ap (λ l. step i ∷ l) (steps-append is js)

  pub last_region-cons :
      (c : TbSlice Text) (cs : List (TbSlice Text))
      → c.region ≡ none
      → last_region (c ∷ cs) ≡ last_region cs
  unfolding last_region
  last_region-cons c [] h = h
  last_region-cons c (d ∷ cs) h = refl

  module _ (size : ℕ) where
    pub insts_of_block :
        (c : TbSlice Text) (f : Fits size c)
        → insts_of c ≡ between c.begin_idx c.end_idx f.block.mc_insts
    insts_of_block c f = rw (f.at_index, insts_of) refl

    pub length-insts_of :
        (c : TbSlice Text) (f : Fits size c)
        → length (insts_of c) + c.begin_idx ≡ min c.end_idx (length f.block.mc_insts)
    length-insts_of c f =
        let at = insts_of_block c f in
        let len = length-between c.begin_idx c.end_idx f.block.mc_insts in
        omega (arith, ap length at, len, f.ordered, f.in_block)

    -- `SliceLen`
    abbrev pub counted : (c : TbSlice Text) → Fits size c → ℕ
    counted c f = min (length f.block.mc_insts) (slice_size c)

    pub counted_bounds :
        (c : TbSlice Text) (f : Fits size c)
        → (length (insts_of c) ≤ counted c f) × (counted c f ≤ length (insts_of c) + c.begin_idx)
    counted_bounds c f =
        let n = length-insts_of c f in
        let m : slice_size c ≡ c.end_idx - c.begin_idx = ground (arith, f.ordered) in
        (omega (arith, n, m, f.ordered, f.in_block), omega (arith, n, m))

    pub counted_exact :
        (c : TbSlice Text) (f : Fits size c) → IsExact f → counted c f ≡ length (insts_of c)
    counted_exact c f (inl e) =
        let n = length-insts_of c f in
        let m : slice_size c ≡ c.end_idx - c.begin_idx = ground (arith, f.ordered) in
        omega (arith, n, m, e)
    counted_exact c f (inr e) =
        let n = length-insts_of c f in
        let m : slice_size c ≡ c.end_idx - c.begin_idx = ground (arith, f.ordered) in
        omega (arith, n, m, e, f.ordered, f.in_block)

    -- The two parts of a slice that is split inside of its block.
    pub split-Fits :
        (c : TbSlice Text) (f : Fits size c) (k : ℕ)
        → c.begin_idx ≤ k
        → k ≤ c.end_idx
        → k ≤ length f.block.mc_insts
        → Fits size (record (split k c).0 { region = none }) × Fits size (split k c).1
    unfolding split
    split-Fits c f k low high inside = (
      record {
        block = f.block;
        at_index = f.at_index;
        aligned = f.aligned;
        ordered = low;
        in_block = f.in_block;
        word = omega (arith, f.word);
        chain =
            map_chain-IsChain c.begin_idx c.begin_idx (chain_below k) c.memory_accesses
              (λ m h. chain_below-IsChain k c.begin_idx m h) f.chain;
        short = f.short;
      },
      record {
        block = f.block;
        at_index = f.at_index;
        aligned = f.aligned;
        ordered = high;
        in_block = inside;
        word = f.word;
        chain =
            map_chain-IsChain c.begin_idx k (chain_from k) c.memory_accesses
              (λ m h. chain_from-IsChain k c.begin_idx m h) f.chain;
        short = f.short;
      },
    )
