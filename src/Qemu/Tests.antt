-- ===== src/Qemu/Tests.antt =====
-- Witnesses for the theorems on the QEMU broker.
use llvm_mca_daemon.Prelude.{
  ℕ, suc, ◌+◌, ◌≡◌, refl, inl, true, false, Option, none, some, List, [], ◌∷◌, map, arith, ◌<◌, ◌≤◌,
  All, ◌==◌, between, if◌then◌else◌,
}
use llvm_mca_daemon.Prelude.Assoc.{lookup}
use llvm_mca_daemon.Prelude.Int.{pos}
use llvm_mca_daemon.Metadata.{MemoryAccess}
use llvm_mca_daemon.Metadata.Registry.{peek, entries}
use llvm_mca_daemon.Brokers.{Exchanger}
use llvm_mca_daemon.Qemu.Regions.{
  BinaryRegion, BinaryRegions, trim, RawRegion, integer, address_region,
  parse_address_based_regions,
}
use llvm_mca_daemon.Qemu.Regions.Manifest.{first_at, or_else, parse_address_based_regions_lem}
use llvm_mca_daemon.Qemu.{returns, faults, TranslationBlock, TbSlice, QemuBroker}
use llvm_mca_daemon.Qemu.Block.{
  Decoder, Target, new_block, decode_raw, use_disassembler, disassemble_with,
}
use llvm_mca_daemon.Qemu.Block.Aligned.{IsAligned}
use llvm_mca_daemon.Qemu.Block.Skew.{yields, sum_before, zeros_before, skew_lem}
use llvm_mca_daemon.Qemu.Block.Offsets.{offset_of, offsets_lem}
use llvm_mca_daemon.Qemu.Exec.{FbAccess, ExecTb, mapped_index, take_accesses, scan_regions, tb_exec}
use llvm_mca_daemon.Qemu.Exec.Chain.{find_access, joined, take_accesses_lem}
use llvm_mca_daemon.Qemu.Exec.Queue.{Executed, tb_exec_lem}
use llvm_mca_daemon.Qemu.Exec.Scan.{Scanned, scan_regions_lem}
use llvm_mca_daemon.Qemu.Fetch.{Batch, fetch_queued}
use llvm_mca_daemon.Qemu.Fetch.Emit.{IsChain}
use llvm_mca_daemon.Qemu.Fetch.Metadata.{IsSound}
use llvm_mca_daemon.Qemu.Fetch.Overrun.{tail_slice, overruns}

-- A byte 0 is no instruction, any other byte one of as many bytes.
abbrev decode : Decoder ℕ
decode [] a = none
decode (b ∷ bs) a = if b == 0 then none else some (b, b)

abbrev raws : List (List ℕ)
raws = (1 ∷ 1 ∷ []) ∷ (0 ∷ []) ∷ (2 ∷ 9 ∷ []) ∷ []

skew_lem_example :
    mapped_index (disassemble_with decode 64 (new_block raws)).skew_indices 2
    ≡ sum_before 2 (yields decode 64 raws) + zeros_before 2 (yields decode 64 raws)
unfolding decode_raw
skew_lem_example = skew_lem decode 64 raws 2 (omega arith) (omega arith)

offsets_lem_example :
    (disassemble_with decode 64 (new_block raws)).vaddr_offsets
    ≡ map (offset_of 64) (disassemble_with decode 64 (new_block raws)).mc_inst_addrs
offsets_lem_example = offsets_lem decode 64 raws

abbrev load_8 : FbAccess
load_8 = record { index = 1; is_store = false; vaddr = 256; size = 8 }

abbrev accesses : List FbAccess
accesses = load_8 ∷ record load_8 { vaddr = 264 } ∷ record load_8 { index = 2 } ∷ []

abbrev target : Target ℕ
target = record { is_arm = false; is_thumb = false; primary = decode; secondary = none }

-- A block of three instructions.
abbrev block : TranslationBlock ℕ
block = record {
  raw_insts = (1 ∷ []) ∷ (1 ∷ []) ∷ (1 ∷ []) ∷ [];
  mc_insts = 1 ∷ 2 ∷ 3 ∷ [];
  skew_indices = [];
  mc_inst_addrs = 64 ∷ 65 ∷ 66 ∷ [];
  mc_inst_sizes = 1 ∷ 1 ∷ 1 ∷ [];
  vaddr = 64;
  vaddr_offsets = 0 ∷ 1 ∷ 2 ∷ [];
  begin_marks = true ∷ false ∷ false ∷ [];
  end_marks = false ∷ false ∷ true ∷ [];
}

block-IsAligned : IsAligned block
block-IsAligned = record { addrs = refl; sizes = refl; offsets = refl; begins = refl; ends = refl }

abbrev broker : List (TbSlice ℕ) → QemuBroker ℕ ℕ
broker queue = record {
  bin_regions = none;
  cur_bin_region = none;
  code_start_address = 0;
  tbs = some block ∷ [];
  tb_queue = queue;
  is_end_of_stream = false;
  enable_mem_access_md = true;
  total_num_traces = 7;
}

abbrev exchanger : Exchanger
exchanger = record { registry = []; index_map = [] }

abbrev region : BinaryRegion ℕ
region = record { description = 5; start_addr = 65; end_addr = 66 }

abbrev regions : BinaryRegions ℕ
regions = record { regions = (65, region) ∷ []; operation_mode = trim }

scan_regions_lem_example :
    Scanned regions 64 block.vaddr_offsets none (scan_regions regions 0 none 64 block.vaddr_offsets)
scan_regions_lem_example = scan_regions_lem regions 0 none 64 block.vaddr_offsets (omega arith)

abbrev exec : ExecTb
exec = record { index = 0; pc = 64; mem_accesses = accesses }

tb_exec_lem_example :
    (s' : QemuBroker ℕ ℕ) × (tb_exec target exec (broker []) ≡ returns s')
    × Executed 3 (1 ∷ 2 ∷ 3 ∷ []) (broker []) s'
unfolding use_disassembler mapped_index lookup
tb_exec_lem_example =
    tb_exec_lem target decode exec 3 block (broker []) refl refl block-IsAligned refl refl
      (omega arith) (omega arith) (omega arith) (inl refl) tt

abbrev slice : ℕ → TbSlice ℕ
slice b = tail_slice [] block 0 b none

empty-IsSound : IsSound []
unfolding peek entries lookup
empty-IsSound k = tt

overruns_example :
    (batch : Batch ℕ ℕ) × (fetch_queued 2 (some exchanger) (broker (slice 2 ∷ [])) ≡ returns batch)
    × (batch.insts ≡ between 2 3 (1 ∷ 2 ∷ 3 ∷ []))
    × ((t : ℕ) (m : Option Exchanger) → fetch_queued (suc t) m batch.broker ≡ faults)
overruns_example =
    overruns (some block ∷ []) block 0 2 1 none exchanger (broker (slice 2 ∷ [])) refl refl refl
      block-IsAligned tt empty-IsSound (omega arith) (omega arith) (omega arith) (omega arith)
      (omega arith)

take_accesses_lem_example :
    IsChain 1 (take_accesses [] 1 3 accesses [])
    × All (λ (x : ℕ × MemoryAccess). x.0 < 3) (take_accesses [] 1 3 accesses [])
    × ((k : ℕ)
        → 1 ≤ k
        → k < 3
        → find_access k (take_accesses [] 1 3 accesses []) ≡ joined [] k none accesses)
unfolding mapped_index lookup
take_accesses_lem_example = take_accesses_lem [] 1 3 0 accesses [] (omega arith) tt tt tt

abbrev manifest : List (Option (RawRegion ℕ))
manifest =
    some (record {
      start = some (integer (pos 64));
      end_of = some (integer (pos 80));
      description = none;
    })
    ∷ none
    ∷ []

parse_address_based_regions_lem_example :
    lookup 64 (parse_address_based_regions 0 manifest [])
    ≡ or_else (lookup 64 []) (first_at (address_region 0) 64 manifest)
parse_address_based_regions_lem_example = parse_address_based_regions_lem 0 64 manifest []
