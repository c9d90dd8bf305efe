-- ===== src/Qemu/Exec.antt =====
-- `QemuBroker::tbExec`: what an executed block adds to the queue.
pub mod Chain
pub mod Translate
pub mod Queue
pub mod Scan
use llvm_mca_daemon.Prelude.{
  ℕ, zero, suc, ◌+◌, ◌-◌, Bool, true, false, not, ◌&&◌, ◌||◌, Option, none, some, List, [], ◌∷◌,
  ◌++◌, ltb, leb, ◌==◌, u64, if◌then◌else◌, length, get_elem?, set,
}
use llvm_mca_daemon.Prelude.Assoc.{Assoc, lookup}
use llvm_mca_daemon.Metadata.{MemoryAccess, append}
use llvm_mca_daemon.Qemu.Regions.{
  BinaryRegion, BinaryRegions, Mode, trim, mark, region_at, has_regions,
}
use llvm_mca_daemon.Qemu.{
  Run, returns, faults, ◌>>=◌, TranslationBlock, AccessChain, TbSlice, QemuBroker,
}
use llvm_mca_daemon.Qemu.Block.{Target, u16, clear_lsb, is_translated, disassemble}

-- `fbs::MemoryAccess`
pub record FbAccess : Type 0 where
  pub index : ℕ
  pub is_store : Bool
  pub vaddr : ℕ
  pub size : ℕ

-- `fbs::ExecTB`; no accesses and no vector of them are the same to the code.
pub record ExecTb : Type 0 where
  pub index : ℕ
  pub pc : ℕ
  pub mem_accesses : List FbAccess

-- What `handleBinaryRegions` found in a block: the instruction at which a region begins, the one at
-- which it ends with that region, and the region that is open after it.
pub record Hits (Text : Type 0) : Type 0 where
  pub begin_at : Option ℕ
  pub end_at : Option (ℕ × BinaryRegion Text)
  pub open_region : Option (BinaryRegion Text)

-- The loop that looks for the ending address.
unfoldable pub find_end : ℕ → ℕ → ℕ → List ℕ → Option ℕ
find_end end_addr va i [] = none
find_end end_addr va i (o ∷ os) =
    if end_addr == u64 (va + o) then some i else find_end end_addr va (i + 1) os

module _ {Text : Type 0} where
  -- The loop that looks for a starting address: the index, the region, and the offsets from there.
  unfoldable pub find_begin :
      BinaryRegions Text → ℕ → ℕ → List ℕ → Option (ℕ × BinaryRegion Text × List ℕ)
  find_begin regions va i [] = none
  find_begin regions va i (o ∷ os) = elim (region_at regions (u64 (va + o))) [
    | some r ↦ some (i, r, o ∷ os)
    | none ↦ find_begin regions va (i + 1) os
  ]

  -- The second half of `handleBinaryRegions`, in an open region, from an index on.
  unfoldable pub close_region : Option ℕ → BinaryRegion Text → ℕ → ℕ → List ℕ → Hits Text
  unfolding find_end
  close_region begin r va i os = elim (find_end r.end_addr va i os) [
    | none ↦ record { begin_at = begin; end_at = none; open_region = some r }
    | some j ↦ record { begin_at = begin; end_at = some (j, r); open_region = none }
  ]

  abbrev pub no_hits : Option (BinaryRegion Text) → Hits Text
  no_hits r = record { begin_at = none; end_at = none; open_region = r }

  -- `handleBinaryRegions`, for a code start, the open region, and a block's address and offsets.
  unfoldable pub scan_regions :
      BinaryRegions Text → ℕ → Option (BinaryRegion Text) → ℕ → List ℕ → Hits Text
  unfolding find_begin close_region
  scan_regions regions start (some r) vaddr os =
      if leb start vaddr then close_region none r (vaddr - start) 0 os else no_hits (some r)
  scan_regions regions start none vaddr os =
      if leb start vaddr
      then elim (find_begin regions (vaddr - start) 0 os) [
        | none ↦ no_hits none
        | some (i, r, rest) ↦ close_region (some i) r (vaddr - start) i rest
      ]
      else no_hits none

  -- The indices and the region of the slice in trimming mode.
  abbrev pub first_idx : Option (BinaryRegion Text) → Hits Text → ℕ
  first_idx none h = elim h.begin_at [ none ↦ 65535 | some i ↦ u16 i ]
  first_idx (some r) h = elim h.begin_at [ none ↦ 0 | some i ↦ u16 i ]

  abbrev pub last_idx : Hits Text → ℕ
  last_idx h = elim h.end_at [ none ↦ 65535 | some (j, r) ↦ u16 (j + 1) ]

  abbrev pub ended_region : Hits Text → Option (BinaryRegion Text)
  ended_region h = elim h.end_at [ none ↦ none | some (j, r) ↦ some r ]

-- `InstIdx` after `SkewIndicies`.
unfoldable pub mapped_index : Assoc ℕ → ℕ → ℕ
mapped_index skews i = elim (lookup i skews) [ none ↦ i | some k ↦ k ]

-- An access at the end of the chain, merged with one of the same instruction.
unfoldable pub push_access : ℕ → FbAccess → AccessChain → AccessChain
push_access i a [] =
    (i, record { is_store = a.is_store; addr = a.vaddr; size = a.size; bundled = none }) ∷ []
push_access i a ((j, m) ∷ []) =
    if j == i
    then (j, append m (record { is_store = a.is_store; addr = a.vaddr; size = a.size })) ∷ []
    else (j, m)
      ∷ (i, record { is_store = a.is_store; addr = a.vaddr; size = a.size; bundled = none })
      ∷ []
push_access i a (x ∷ y ∷ chain) = x ∷ push_access i a (y ∷ chain)

-- One round of the loop over the accesses.
unfoldable pub take_access : Assoc ℕ → ℕ → ℕ → FbAccess → AccessChain → AccessChain
unfolding push_access mapped_index
take_access skews begin_idx end_idx a chain =
    let i = mapped_index skews a.index in
    if ltb i begin_idx || leb end_idx i then chain else push_access i a chain

unfoldable pub take_accesses : Assoc ℕ → ℕ → ℕ → List FbAccess → AccessChain → AccessChain
unfolding take_access
take_accesses skews begin_idx end_idx [] chain = chain
take_accesses skews begin_idx end_idx (a ∷ as') chain =
    take_accesses skews begin_idx end_idx as' (take_access skews begin_idx end_idx a chain)

abbrev pub chain_of : Bool → Assoc ℕ → ℕ → ℕ → List FbAccess → Option AccessChain
chain_of enabled skews b e [] = none
chain_of enabled skews b e (a ∷ as') =
    if enabled then some (take_accesses skews b e (a ∷ as') []) else none

-- `BitVector::set` where there is an index.
abbrev pub set_mark : Option ℕ → List Bool → List Bool
set_mark none bits = bits
set_mark (some i) bits = set bits i true

abbrev pub index_of : {A : Type 0} → Option (ℕ × A) → Option ℕ
index_of none = none
index_of (some (i, a)) = some i

abbrev pub same_mode : Mode → Mode → Bool
same_mode trim trim = true
same_mode mark mark = true
same_mode m n = false

-- The test before `handleBinaryRegions` for a mode: the regions, where there are some.
abbrev pub regions_in :
    {Text : Type 0} → Mode → Option (BinaryRegions Text) → Option (BinaryRegions Text)
regions_in mode none = none
regions_in mode (some b) = if has_regions b && same_mode mode b.operation_mode then some b else none

-- `TBs[Idx]` behind the test of the index; an entry may be empty.
abbrev pub block_at :
    {Inst : Type 0} → ℕ → List (Option (TranslationBlock Inst)) → Option (TranslationBlock Inst)
block_at i tbs = elim (get_elem? tbs i) [ none ↦ none | some b ↦ b ]

module _ {Inst Text : Type 0} where
  abbrev pub put_block : ℕ → TranslationBlock Inst → QemuBroker Inst Text → QemuBroker Inst Text
  put_block i tb s = record s { tbs = set s.tbs i (some tb) }

  -- The part of `tbExec` for a block that is not translated yet: its address, its instructions and,
  -- in marking mode, its marks.
  abbrev pub mark_block :
      Option (BinaryRegions Text)
      → TranslationBlock Inst
      → QemuBroker Inst Text
      → TranslationBlock Inst × QemuBroker Inst Text
  mark_block none tb s = (tb, s)
  mark_block (some b) tb s =
      let h = scan_regions b s.code_start_address s.cur_bin_region tb.vaddr tb.vaddr_offsets in
      (
        record tb {
          begin_marks = set_mark h.begin_at tb.begin_marks;
          end_marks = set_mark (index_of h.end_at) tb.end_marks;
        },
        record s { cur_bin_region = h.open_region },
      )

  unfoldable pub translate :
      Target Inst
      → ℕ
      → TranslationBlock Inst
      → QemuBroker Inst Text
      → Run (TranslationBlock Inst × QemuBroker Inst Text)
  unfolding disassemble
  translate t pc tb s =
      if is_translated tb
      then returns (tb, s)
      else (disassemble t (record tb { vaddr = pc }) >>= λ tb1.
          let tb2 = record tb1 {
            vaddr = if t.is_arm || t.is_thumb then clear_lsb tb1.vaddr else tb1.vaddr;
          } in
          returns (mark_block (regions_in mark s.bin_regions) tb2 s))

  -- The slice of the block that was executed, with the region that is open after it.
  abbrev pub slice_of :
      Option (BinaryRegions Text)
      → TranslationBlock Inst
      → QemuBroker Inst Text
      → ℕ × ℕ × Option (BinaryRegion Text) × Option (BinaryRegion Text)
  slice_of none tb s = (0, 65535, none, s.cur_bin_region)
  slice_of (some b) tb s =
      let h = scan_regions b s.code_start_address s.cur_bin_region tb.vaddr tb.vaddr_offsets in
      (first_idx s.cur_bin_region h, last_idx h, ended_region h, h.open_region)

  -- The last part of `tbExec`: nothing for an empty slice.
  unfoldable pub enqueue_slice :
      ℕ → List FbAccess → TranslationBlock Inst → QemuBroker Inst Text → QemuBroker Inst Text
  enqueue_slice idx accesses tb s =
      let (begin_idx, end_idx, region, now_open) = slice_of (regions_in trim s.bin_regions) tb s in
      let s' : QemuBroker Inst Text = record s { cur_bin_region = now_open } in
      if begin_idx == end_idx then s' else record s' {
        tb_queue =
            s'.tb_queue
            ++ (record {
              index = idx;
              begin_idx = begin_idx;
              end_idx = end_idx;
              region = region;
              memory_accesses =
                  chain_of s.enable_mem_access_md tb.skew_indices begin_idx end_idx accesses;
            }
                ∷ []);
      }

  -- `tbExec`; the end signal is the largest index with the largest address.
  unfoldable pub tb_exec : Target Inst → ExecTb → QemuBroker Inst Text → Run (QemuBroker Inst Text)
  unfolding translate enqueue_slice
  tb_exec t e s =
      if e.index == 4294967295 && e.pc == 18446744073709551615
      then returns (record s { is_end_of_stream = true })
      else elim (block_at e.index s.tbs) [
        | none ↦ returns s
        | some tb ↦ translate t e.pc tb s >>= λ r.
            returns (enqueue_slice e.index e.mem_accesses r.0 (put_block e.index r.0 r.1))
      ]

  -- `handleMetadata`
  abbrev pub handle_metadata : ℕ → QemuBroker Inst Text → QemuBroker Inst Text
  handle_metadata load_addr s = record s { code_start_address = load_addr }
