-- ===== src/Qemu/Fetch.antt =====
-- `QemuBroker::fetchRegion`: blocks from the queue for a batch, and the batch with its metadata. The
-- call is modelled from where the lock is held; `lower_bound` is modelled on chains in order.
pub mod Metadata
pub mod Emit
pub mod Pending
pub mod Select
pub mod Places
pub mod Stream
pub mod Overrun
use llvm_mca_daemon.Prelude.{
  ℕ, zero, suc, ◌+◌, ◌-◌, min, Bool, true, false, not, ◌&&◌, ◌||◌, Option, none, some, List, [],
  ◌∷◌, ◌++◌, ltb, leb, ◌==◌, u32, if◌then◌else◌, length, get_elem?,
}
use llvm_mca_daemon.Prelude.Assoc.{Assoc, insert}
use llvm_mca_daemon.Metadata.{
  RegionMarker, begin_mark, end_mark, marker_or, mem_access, instr_addr, region_marker,
}
use llvm_mca_daemon.Metadata.Registry.{
  Registry, Get, missing, bad_cast, found, md_ls_unit_mem_access, md_instr_addr,
  md_binary_region_markers, as_region_marker, get_entry, assign,
}
use llvm_mca_daemon.Brokers.{RegionDescriptor, Exchanger}
use llvm_mca_daemon.Qemu.Regions.{BinaryRegion}
use llvm_mca_daemon.Qemu.{
  Run, returns, waits, spins, faults, ◌>>=◌, deref, TranslationBlock, AccessChain, TbSlice,
  QemuBroker,
}
use llvm_mca_daemon.Qemu.Block.{u16}
use llvm_mca_daemon.Qemu.Exec.{block_at}

-- The chain before and from `SplitPoint`.
unfoldable pub chain_below : ℕ → AccessChain → AccessChain
chain_below k [] = []
chain_below k ((i, a) ∷ chain) =
    let rest = chain_below k chain in if ltb i k then (i, a) ∷ rest else []

unfoldable pub chain_from : ℕ → AccessChain → AccessChain
chain_from k [] = []
chain_from k ((i, a) ∷ chain) =
    let rest = chain_from k chain in if ltb i k then rest else (i, a) ∷ chain

abbrev pub map_chain : (AccessChain → AccessChain) → Option AccessChain → Option AccessChain
map_chain f none = none
map_chain f (some chain) = some (f chain)

module _ {Text : Type 0} where
  -- `split`: the slice up to the point, and the current slice after it.
  unfoldable pub split : ℕ → TbSlice Text → TbSlice Text × TbSlice Text
  unfolding chain_below chain_from
  split k c = (
    record c { end_idx = k; memory_accesses = map_chain (chain_below k) c.memory_accesses },
    record c { begin_idx = k; memory_accesses = map_chain (chain_from k) c.memory_accesses },
  )

  -- `size()`; the difference of two `uint16_t` is an `int`.
  abbrev pub slice_size : TbSlice Text → ℕ
  slice_size c =
      if leb c.begin_idx c.end_idx
      then c.end_idx - c.begin_idx
      else 18446744073709551616 - (c.begin_idx - c.end_idx)

  -- `SelectedSlices.back().Region`
  unfoldable pub last_region : List (TbSlice Text) → Option (BinaryRegion Text)
  last_region [] = none
  last_region (c ∷ []) = c.region
  last_region (c ∷ d ∷ cs) = last_region (d ∷ cs)

module _ {Text : Type 0} where
  -- The end of a round: `EndOfRegion`, or the rounds after it.
  abbrev pub go_on :
      TbSlice Text
      → Option (BinaryRegion Text)
      → List (TbSlice Text)
      → Run (List (TbSlice Text) × List (TbSlice Text))
      → Run (List (TbSlice Text) × List (TbSlice Text))
  go_on c (some r) queue rest = returns (c ∷ [], queue)
  go_on c none queue rest = rest >>= λ r. returns (c ∷ r.0, r.1)

module _ {Inst Text : Type 0} where
  -- The loop that fills `SelectedSlices`, with what is left of the queue. Where a block is not
  -- there, it goes round for ever.
  unfoldable pub select :
      List (Option (TranslationBlock Inst))
      → ℕ
      → List (TbSlice Text)
      → Run (List (TbSlice Text) × List (TbSlice Text))
  unfolding split
  select tbs zero queue = returns ([], queue)
  select tbs (suc s) [] = returns ([], [])
  select tbs (suc s) (c ∷ queue) = elim (block_at c.index tbs) [
    | none ↦ spins
    | some tb ↦
        (let len = min (length tb.mc_insts) (slice_size c) in
          let parts = split (u16 (c.begin_idx + suc s)) c in
          let rest = select tbs (suc s - len) queue in
          if ltb (suc s) len
          then returns (record (parts.0) { region = none } ∷ [], parts.1 ∷ queue)
          else go_on c c.region queue rest)
  ]

-- The exchanger and `TotalNumTraces`.
pub record Exchange : Type 0 where
  pub exchanger : Exchanger
  pub traces : ℕ

abbrev pub change_registry : (Registry → Registry) → Exchange → Exchange
change_registry f x = record x {
  exchanger = record x.exchanger { registry = f x.exchanger.registry };
}

-- `IndexMap[InstIdx] = MetadataIdx` and the address of the instruction.
unfoldable pub set_address : ℕ → ℕ → ℕ → Exchange → Exchange
set_address i addr size x = record x {
  exchanger = record {
    registry =
        assign md_instr_addr x.traces (instr_addr (record { addr = addr; size = size }))
          x.exchanger.registry;
    index_map = insert i x.traces x.exchanger.index_map;
  };
}

-- `setMemoryAccessMD` for the next access of the chain, if it is the instruction's; `IndexMap` holds
-- the metadata index by then.
unfoldable pub set_access : ℕ → AccessChain → Exchange → AccessChain × Exchange
set_access i [] x = ([], x)
set_access i ((j, a) ∷ chain) x =
    if j == i
    then (chain, change_registry (assign md_ls_unit_mem_access x.traces (mem_access a)) x)
    else ((j, a) ∷ chain, x)

-- The value that `setRegionMarkerMD` stores.
abbrev pub joined_marker : RegionMarker → Get RegionMarker → Run RegionMarker
joined_marker m missing = returns m
joined_marker m bad_cast = faults
joined_marker m (found old) = returns (marker_or m old)

-- `setRegionMarkerMD`, under the test of the mark.
unfoldable pub set_marker : Bool → RegionMarker → Exchange → Run Exchange
set_marker false m x = returns x
set_marker true m x =
    let r = get_entry as_region_marker md_binary_region_markers x.traces x.exchanger.registry in
    joined_marker m r.1 >>= λ value.
    returns (
      change_registry (λ reg. assign md_binary_region_markers x.traces (region_marker value) r.0) x)

abbrev pub next_trace : Exchange → Exchange
next_trace x = record x { traces = u32 (x.traces + 1) }

abbrev pub chain_or_empty : Option AccessChain → AccessChain
chain_or_empty none = []
chain_or_empty (some chain) = chain

-- What `fetchRegion` leaves: the number (`none` for -1) with the descriptor, `MCIS`, the exchanger
-- and the broker.
pub record Batch (Inst Text : Type 0) : Type 0 where
  pub count : Option ℕ
  pub region : RegionDescriptor Text
  pub insts : List Inst
  pub exchanger : Option Exchanger
  pub broker : QemuBroker Inst Text

abbrev pub exchange_of : Option Exchanger → ℕ → Option Exchange
exchange_of none traces = none
exchange_of (some m) traces = some (record { exchanger = m; traces = traces })

abbrev pub exchanger_of : Option Exchange → Option Exchanger
exchanger_of none = none
exchanger_of (some x) = some x.exchanger

abbrev pub traces_of : Option Exchange → ℕ → ℕ
traces_of none n = n
traces_of (some x) n = x.traces

abbrev pub describe : {Text : Type 0} → Option (BinaryRegion Text) → RegionDescriptor Text
describe none = record { is_end = false; description = none }
describe (some r) = record { is_end = true; description = some r.description }

-- `Size` after its test; `none` stands for a negative one.
abbrev pub clamp_size : Option ℕ → ℕ → ℕ
clamp_size none room = room
clamp_size (some n) room = min n room

abbrev pub is_zero : Option ℕ → Bool
is_zero none = false
is_zero (some n) = n == 0

module _ {Inst : Type 0} where
  -- The body of the loop over the instructions of a slice, for the instruction `i` of the block and
  -- the place `at` of the batch. Without an exchanger it goes through an empty `optional`.
  unfoldable pub emit_one :
      TranslationBlock Inst
      → ℕ
      → ℕ
      → AccessChain
      → Option Exchange
      → Run (Inst × AccessChain × Exchange)
  unfolding set_address set_access set_marker
  emit_one tb i at chain none = faults
  emit_one tb i at chain (some x) = deref (get_elem? tb.mc_insts i) >>= λ inst.
      deref (get_elem? tb.mc_inst_addrs i) >>= λ addr.
      deref (get_elem? tb.mc_inst_sizes i) >>= λ size.
      let r = set_access i chain (set_address at addr size x) in
      deref (get_elem? tb.begin_marks i) >>= λ b. set_marker b begin_mark r.1 >>= λ x1.
      deref (get_elem? tb.end_marks i) >>= λ e.
      set_marker e end_mark x1 >>= λ x2. returns (inst, r.0, next_trace x2)

  -- The loop, for the places left: the instructions and the exchanger after it.
  unfoldable pub emit_slice :
      TranslationBlock Inst
      → ℕ
      → ℕ
      → ℕ
      → ℕ
      → AccessChain
      → Option Exchange
      → Run (List Inst × Option Exchange)
  emit_slice tb last zero i at chain x = returns ([], x)
  emit_slice tb last (suc room) i at chain x =
      let body = emit_one tb i at chain x >>= λ r.
      emit_slice tb last room (i + 1) (at + 1) r.1 (some r.2) >>= λ rest.
      returns (r.0 ∷ rest.0, rest.1) in
      if i == last then returns ([], x) else body

module _ {Inst Text : Type 0} where
  -- The loop over the selected slices: `TotalSize - Size` and `Size` are the place and the room.
  unfoldable pub emit :
      List (Option (TranslationBlock Inst))
      → ℕ
      → ℕ
      → List (TbSlice Text)
      → Option Exchange
      → Run (List Inst × Option Exchange)
  unfolding emit_slice
  emit tbs room at [] x = returns ([], x)
  emit tbs room at (c ∷ cs) x = deref (block_at c.index tbs) >>= λ tb.
      emit_slice tb (min (length tb.mc_insts) c.end_idx) room c.begin_idx at
        (chain_or_empty c.memory_accesses) x
      >>= λ r. emit tbs (room - length r.0) (at + length r.0) cs r.1 >>= λ rest.
          returns (r.0 ++ rest.0, rest.1)

  -- The part after the wait, with something in the queue.
  unfoldable pub fetch_queued : ℕ → Option Exchanger → QemuBroker Inst Text → Run (Batch Inst Text)
  unfolding select emit last_region
  fetch_queued size m s = select s.tbs size s.tb_queue >>= λ q.
      emit s.tbs size 0 q.0 (exchange_of m s.total_num_traces) >>= λ r. returns (record {
        count = some (length r.0);
        region = describe (last_region q.0);
        insts = r.0;
        exchanger = exchanger_of r.1;
        broker = record s { tb_queue = q.1; total_num_traces = traces_of r.1 s.total_num_traces };
      })

  -- `fetchRegion`
  unfoldable pub fetch_region :
      Option ℕ → ℕ → Option Exchanger → QemuBroker Inst Text → Run (Batch Inst Text)
  unfolding fetch_queued
  fetch_region size room m s =
      if is_zero size
      then returns (record {
        count = some 0;
        region = record { is_end = false; description = none };
        insts = [];
        exchanger = m;
        broker = s;
      })
      else if length s.tb_queue == 0
      then (if s.is_end_of_stream
          then returns (record {
            count = none;
            region = record { is_end = true; description = none };
            insts = [];
            exchanger = m;
            broker = s;
          })
          else waits)
      else fetch_queued (clamp_size size room) m s
