-- ===== src/Brokers/Tests.antt =====
-- A file of two regions with an empty one between them, and a queue of three instructions.
use llvm_mca_daemon.Prelude.{
  Option, ℕ, ◌+◌, ◌≡◌, refl, min, true, ◌&&◌, none, some, List, [], ◌∷◌, arith, ltb, ◌==◌, length,
  take, drop, if◌then◌else◌,
}
use llvm_mca_daemon.Brokers.{RegionDescriptor}
use llvm_mca_daemon.Brokers.AsmFile.{
  CodeRegion, AsmFileBroker, new_broker, parse_regions, parse_if_needed, fetch_batch, fetch_region,
}
use llvm_mca_daemon.Brokers.AsmFile.Stream.{stream}
use llvm_mca_daemon.Brokers.Vivisect.{EmulatedInstr, VivisectBroker}
use llvm_mca_daemon.Brokers.Vivisect as Vivisect
use llvm_mca_daemon.Brokers.AsmFile.Batches.{flat, fetch_batch_lem}
use llvm_mca_daemon.Brokers.AsmFile.Regions.{Batch, fetch_region_lem}

abbrev first : CodeRegion ℕ ℕ
first = record { instructions = 10 ∷ 11 ∷ 12 ∷ []; description = none }

abbrev last : CodeRegion ℕ ℕ
last = record { instructions = 20 ∷ []; description = some 3 }

abbrev file : List (CodeRegion ℕ ℕ)
file = first ∷ record { instructions = []; description = some 2 } ∷ last ∷ []

abbrev broker : AsmFileBroker ℕ ℕ
broker = new_broker ℕ ℕ (some file)

fetch_batch_lem_example :
    (let left = flat ℕ ℕ (stream ℕ ℕ broker) in
      (r : Option ℕ × List ℕ × AsmFileBroker ℕ ℕ) × (fetch_batch ℕ ℕ (some 4) 16 broker ≡ some r)
      × (r.1 ≡ take 4 left)
      × (r.0 ≡ (if ltb 0 4 && (length left == 0) then none else some (min 4 (length left))))
      × (flat ℕ ℕ (stream ℕ ℕ r.2) ≡ drop 4 left))
fetch_batch_lem_example = fetch_batch_lem ℕ ℕ (some 4) 16 broker refl

fetch_region_lem_example :
    (r : Option ℕ × List ℕ × RegionDescriptor ℕ × AsmFileBroker ℕ ℕ) × (fetch_region ℕ ℕ none 16
        broker
      ≡ some r)
    × Batch ℕ ℕ 16 none (10 ∷ 11 ∷ 12 ∷ []) (last ∷ []) (r.1, r.2, r.3)
    × (r.0 ≡ some (min 16 3))
unfolding new_broker parse_if_needed parse_regions
fetch_region_lem_example =
    fetch_region_lem ℕ ℕ none 16 broker first (last ∷ []) refl (omega arith) refl

abbrev insn : ℕ → EmulatedInstr
insn a = record {
  opcode = 1 ∷ a ∷ [];
  addr = a;
  size = 2;
  memory_access = none;
  branch_flow_of = none;
}

abbrev decode_last : List ℕ → Option ℕ
decode_last [] = none
decode_last (b ∷ bs) = some b

-- An allocation is followed by one of more than twice its size.
abbrev doubled : ℕ → ℕ
doubled c = c + c + 1

abbrev queued : VivisectBroker ℕ decode_last true doubled
queued = record {
  running = true;
  insn_queue = insn 10 ∷ insn 20 ∷ insn 30 ∷ [];
  total_num_traces = 0;
  mci_pool = record { block = 0; capacity = 0; slots = [] };
}
