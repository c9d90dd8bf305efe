-- ===== src/Qemu/Fetch/Overrun.antt =====
-- A slice that begins inside of its block and is open to its end: `SliceLen` counts the whole block,
-- and a split may lie behind it.
use llvm_mca_daemon.Prelude.{
  ℕ, zero, suc, ◌+◌, ◌-◌, ◌<◌, ◌≤◌, ◌≡◌, refl, sym, ◌∙◌, ap, ap₂, true, false, Option, none, some,
  List, [], ◌∷◌, append-nil, arith, ltb, ◌==◌, length, get_elem?, min, between, between-min,
  length-between, Option-cases, Bool-cases, inl, inr,
}
use llvm_mca_daemon.Brokers.{Exchanger}
use llvm_mca_daemon.Qemu.{
  returns, faults, ◌>>=◌, TranslationBlock, AccessChain, TbSlice, QemuBroker,
}
use llvm_mca_daemon.Qemu.Block.{u16}
use llvm_mca_daemon.Qemu.Exec.{block_at}
use llvm_mca_daemon.Qemu.Block.Aligned.{IsAligned}
use llvm_mca_daemon.Qemu.Fetch.{
  Exchange, Batch, split, slice_size, chain_below, chain_from, map_chain, chain_or_empty, go_on,
  select, emit_one, emit_slice, emit, exchange_of, fetch_queued, last_region, describe,
}
use llvm_mca_daemon.Qemu.Fetch.Metadata.{IsSound}
use llvm_mca_daemon.Qemu.Fetch.Emit.{IsChain}
use llvm_mca_daemon.Qemu.Fetch.Pending.{
  insts_of, all_insts, Fits, chain_below-IsChain, map_chain-IsChain,
}
use llvm_mca_daemon.Qemu.Fetch.Places.{emit_lem}

get_elem?-past : {A : Type 0} (xs : List A) (i : ℕ) → length xs ≤ i → get_elem? xs i ≡ none
get_elem?-past [] i h = refl
get_elem?-past (x ∷ xs) zero h = absurd (omega arith)
get_elem?-past (x ∷ xs) (suc i) h = get_elem?-past xs i (omega arith)

emit_one_faults :
    {Inst : Type 0} (tb : TranslationBlock Inst) (i at : ℕ) (x : Option Exchange)
    (chain : AccessChain)
    → length tb.mc_insts ≤ i
    → emit_one tb i at chain x ≡ faults
unfolding emit_one
emit_one_faults tb i at none chain h = refl
emit_one_faults tb i at (some x) chain h = rw (get_elem?-past tb.mc_insts i h) refl

module _ {Inst Text : Type 0} (tbs : List (Option (TranslationBlock Inst)))
    (tb : TranslationBlock Inst) where
  emit_faults :
      (c : TbSlice Text) (cs : List (TbSlice Text)) (room at : ℕ) (x : Option Exchange)
      → block_at c.index tbs ≡ some tb
      → length tb.mc_insts < c.begin_idx
      → emit tbs (suc room) at (c ∷ cs) x ≡ faults
  unfolding emit emit_slice
  emit_faults c cs room at x found past =
      let apart : (c.begin_idx == min (length tb.mc_insts) c.end_idx) ≡ false =
        ground (arith, past) in
      rw
        (
          found,
          apart,
          emit_one_faults tb c.begin_idx at x (chain_or_empty c.memory_accesses)
              (omega (arith, past)),
        )
        refl

  -- The selection of a lone slice takes a part of it.
  select_lone :
      (c : TbSlice Text) (t : ℕ)
      → block_at c.index tbs ≡ some tb
      → (d : TbSlice Text) × (rest : List (TbSlice Text)) × (select tbs (suc t) (c ∷ [])
          ≡ returns (d ∷ [], rest))
        × (d.index ≡ c.index)
        × (d.begin_idx ≡ c.begin_idx)
  unfolding select split
  select_lone c t found =
      let len = min (length tb.mc_insts) (slice_size c) in
      elim (Bool-cases (ltb (suc t) len)) [
        | inl e ↦ (
          record (split (u16 (c.begin_idx + suc t)) c).0 { region = none },
          (split (u16 (c.begin_idx + suc t)) c).1 ∷ [],
          rw (found, e, select) refl,
          refl,
          refl,
        )
        | inr e ↦
            let (r, whole) = ended c (suc t - len) in
            (c, r, rw (found, e, select) whole, refl, refl)
      ]
    where
      none_after : (n : ℕ) → select {Text = Text} tbs n [] ≡ returns ([], [])
      none_after zero = refl
      none_after (suc n) = refl

      ended :
          (c : TbSlice Text) (n : ℕ)
          → (r : List (TbSlice Text)) × (go_on c c.region [] (select tbs n [])
              ≡ returns (c ∷ [], r))
      ended c n = elim (Option-cases c.region) [
        | inl e ↦ (
          [],
          ap (λ o. go_on c o [] (select tbs n [])) e
              ∙ ap (λ m. m >>= λ r. returns (c ∷ r.0, r.1)) (none_after n),
        )
        | inr (r, e) ↦ ([], ap (λ o. go_on c o [] (select tbs n [])) e)
      ]

  fetch_faults :
      (c : TbSlice Text) (t : ℕ) (m : Option Exchanger) (s : QemuBroker Inst Text)
      → s.tbs ≡ tbs
      → s.tb_queue ≡ c ∷ []
      → block_at c.index tbs ≡ some tb
      → length tb.mc_insts < c.begin_idx
      → fetch_queued (suc t) m s ≡ faults
  unfolding fetch_queued
  fetch_faults c t m s same queued found past =
      let (d, rest, sel, idx, begin) = select_lone c t found in
      let selected : select s.tbs (suc t) s.tb_queue ≡ returns (d ∷ [], rest) =
        ap₂ (λ m q. select m (suc t) q) same queued ∙ sel in
      let bad : emit s.tbs (suc t) 0 (d ∷ []) (exchange_of m s.total_num_traces) ≡ faults =
        ap (λ b. emit b (suc t) 0 (d ∷ []) (exchange_of m s.total_num_traces)) same
        ∙ emit_faults d [] t 0 (exchange_of m s.total_num_traces)
            (ap (λ k. block_at k tbs) idx ∙ found) (omega (arith, begin, past)) in
      rw (selected, bad) refl

  -- The slice from `b` to the end of its block, as `tbExec` queues it for a region that begins there.
  abbrev pub tail_slice : ℕ → ℕ → Option AccessChain → TbSlice Text
  tail_slice index b chain = record {
    index = index;
    begin_idx = b;
    end_idx = 65535;
    region = none;
    memory_accesses = chain;
  }

  tail-Fits :
      (index b : ℕ) (chain : Option AccessChain)
      → block_at index tbs ≡ some tb
      → IsAligned tb
      → b ≤ length tb.mc_insts
      → b ≤ 65535
      → IsChain b (chain_or_empty chain)
      → Fits tbs (length tb.mc_insts) (tail_slice index b chain)
  tail-Fits index b chain found al inside word ordered = record {
    block = tb;
    at_index = found;
    aligned = al;
    ordered = word;
    in_block = inside;
    word = omega arith;
    chain = ordered;
    short = omega arith;
  }

  -- Let one slice be queued, that begins at `b` in its block of `n` instructions and is open to the
  -- end of it, and let a batch of fewer than `n` instructions be asked for that reaches past the
  -- end of the block. Then the batch holds the `n - b` instructions from `b` on, and every later
  -- fetch of at least one instruction reads past the end of the block: `fetchRegion` takes the
  -- length of the slice for `n`, splits it past the end of the block, and the rest that it leaves
  -- begins there.
  pub overruns :
      (index b k : ℕ) (chain : Option AccessChain) (m : Exchanger) (s : QemuBroker Inst Text)
      → s.tbs ≡ tbs
      → s.tb_queue ≡ tail_slice index b chain ∷ []
      → block_at index tbs ≡ some tb
      → IsAligned tb
      → IsChain b (chain_or_empty chain)
      → IsSound m.registry
      → b ≤ length tb.mc_insts
      → b + length tb.mc_insts ≤ 65535
      → suc k < length tb.mc_insts
      → length tb.mc_insts < b + suc k
      → s.total_num_traces + suc k < 4294967296
      → (batch : Batch Inst Text) × (fetch_queued (suc k) (some m) s ≡ returns batch)
        × (batch.insts ≡ between b (length tb.mc_insts) tb.mc_insts)
        × ((t : ℕ) (m' : Option Exchanger) → fetch_queued (suc t) m' batch.broker ≡ faults)
  unfolding fetch_queued select split last_region
  overruns index b k chain m s same queued found al ordered sound inside word small past traces =
      let n = length tb.mc_insts in
      let c = tail_slice index b chain in
      let f = tail-Fits index b chain found al inside (omega arith) ordered in
      let stop = b + suc k in
      let taken : TbSlice Text = record {
        index = index;
        begin_idx = b;
        end_idx = stop;
        region = none;
        memory_accesses = map_chain (chain_below stop) chain;
      } in
      let left : TbSlice Text = record {
        index = index;
        begin_idx = stop;
        end_idx = 65535;
        region = none;
        memory_accesses = map_chain (chain_from stop) chain;
      } in
      let counted : ltb (suc k) (min n (slice_size c)) ≡ true = ground (arith, small, word) in
      let fits16 : u16 stop ≡ stop = omega arith in
      let sel : select tbs (suc k) (c ∷ []) ≡ returns (taken ∷ [], left ∷ []) =
        rw (found, counted, fits16, select) refl in
      let g : Fits tbs n taken = record {
        block = tb;
        at_index = found;
        aligned = al;
        ordered = omega arith;
        in_block = inside;
        word = omega arith;
        chain =
            map_chain-IsChain b b (chain_below stop) chain (λ p h. chain_below-IsChain stop b p h)
              ordered;
        short = omega arith;
      } in
      let end_at : min n stop ≡ n = omega arith in
      let insts : all_insts tbs (taken ∷ []) ≡ between b n tb.mc_insts =
        rw (found, insts_of)
          (append-nil (between b stop tb.mc_insts)
            ∙ sym (between-min b stop tb.mc_insts)
            ∙ ap (λ e. between b e tb.mc_insts) end_at) in
      let count : length (all_insts tbs (taken ∷ [])) ≤ suc k =
        omega (arith, ap length insts, length-between b n tb.mc_insts) in
      let x : Exchange = record { exchanger = m; traces = s.total_num_traces } in
      let (x', emitted, placed) =
        emit_lem tbs n (taken ∷ []) (suc k) 0 x (g, tt) sound count
          (omega (arith, count, traces)) in
      let selected : select s.tbs (suc k) s.tb_queue ≡ returns (taken ∷ [], left ∷ []) =
        ap₂ (λ b q. select b (suc k) q) same queued ∙ sel in
      let emitted' : emit s.tbs (suc k) 0 (taken ∷ []) (some x)
          ≡ returns (all_insts tbs (taken ∷ []), some x') =
        ap (λ b. emit b (suc k) 0 (taken ∷ []) (some x)) same ∙ emitted in
      (
        record {
          count = some (length (all_insts tbs (taken ∷ [])));
          region = describe none;
          insts = all_insts tbs (taken ∷ []);
          exchanger = some x'.exchanger;
          broker = record s { tb_queue = left ∷ []; total_num_traces = x'.traces };
        },
        rw (selected, emitted') refl,
        insts,
        λ t m'. fetch_faults left t m' _ same refl found past,
      )
