-- ===== src/Brokers/Vivisect.antt =====
-- plugins/vivisect-broker/Broker.cpp: the queue that the emulator's service fills and the worker
-- empties, each under its lock. The disassembler is the parameter.
pub mod Moves
pub mod Repeats
use llvm_mca_daemon.Prelude.{
  ℕ, zero, suc, ◌+◌, ◌≡◌, min, Bool, true, false, not, ◌||◌, Option, none, some, List, [], ◌∷◌,
  ◌++◌, ltb, u32, u64, ◌==◌, if◌then◌else◌, ◌>>=◌, length, get_elem?,
}
use llvm_mca_daemon.Prelude.Assoc.{Assoc, insert}
use llvm_mca_daemon.Metadata.{InstrAddr, MemoryAccess, Any, instr_addr, mem_access, branch_flow}
use llvm_mca_daemon.Metadata.Registry.{
  Registry, md_ls_unit_mem_access, md_front_end_branch_flow, md_instr_addr, assign,
}
use llvm_mca_daemon.Brokers.{RegionDescriptor, Exchanger}

-- `EmulatorActions::Instruction`; an absent field is `none`.
pub record EmulatedInstr : Type 0 where
  pub opcode : List ℕ
  pub addr : ℕ
  pub size : ℕ
  pub memory_access : Option MemoryAccess
  pub branch_flow_of : Option Bool

abbrev pub reverse_onto : List ℕ → List ℕ → List ℕ
reverse_onto [] out = out
reverse_onto (b ∷ bs) out = reverse_onto bs (b ∷ out)

-- `back()` and `pop()` of `std::queue`: the last element, and all but the first.
unfoldable pub back {ℓ} : {A : Type ℓ} → List A → Option A
back [] = none
back (a ∷ []) = some a
back (a ∷ b ∷ as') = back (b ∷ as')

unfoldable pub pop {ℓ} : {A : Type ℓ} → List A → List A
pop [] = []
pop (a ∷ rest) = rest

-- `MCI_Pool`, a `std::vector`: the number of the allocation that its elements stand in, how many fit
-- into it, and the elements.
pub record Pool (Inst : Type 0) : Type 0 where
  pub block : ℕ
  pub capacity : ℕ
  pub slots : List Inst

-- A pointer to an element, by the allocation that it points into.
pub record Place : Type 0 where
  pub block : ℕ
  pub index : ℕ

module _ {Inst : Type 0} (grow : ℕ → ℕ) where
  -- `emplace_back`: a full vector moves its elements into a new allocation, whose size the library
  -- chooses.
  unfoldable pub emplace_back : Inst → Pool Inst → Pool Inst
  emplace_back inst p =
      if ltb (length p.slots) p.capacity
      then record p { slots = p.slots ++ (inst ∷ []) }
      else record {
        block = p.block + 1;
        capacity = grow p.capacity;
        slots = p.slots ++ (inst ∷ []);
      }

-- A read through a pointer; there is nothing to read in an allocation that was given up.
unfoldable pub read : {Inst : Type 0} → Pool Inst → Place → Option Inst
read p a = if a.block == p.block then get_elem? p.slots a.index else none

-- The disassembler and the byte order of the target, where `none` is a failed assertion, and the size
-- of the allocation that follows one of some size.
module _ (Inst : Type 0) (decode : List ℕ → Option Inst) (is_little_endian : Bool)
    (grow : ℕ → ℕ) where
  -- `EmulatorService` and `VivisectBroker`
  pub record VivisectBroker : Type 0 where
    pub running : Bool
    pub insn_queue : List EmulatedInstr
    pub total_num_traces : ℕ
    pub mci_pool : Pool Inst

  -- `RecordEmulatorActions`; a request without actions is `none`.
  unfoldable pub record_actions : Option (List EmulatedInstr) → VivisectBroker → VivisectBroker
  record_actions none s = s
  record_actions (some []) s = if s.running then record s { running = false } else s
  record_actions (some (i ∷ is)) s =
      if s.running then record s { insn_queue = s.insn_queue ++ (i ∷ is) } else s

  unfoldable pub disassemble : EmulatedInstr → Option Inst
  disassemble i = decode (if is_little_endian then reverse_onto i.opcode [] else i.opcode)

  abbrev pub add_access : ℕ → Option MemoryAccess → Registry → Registry
  add_access id none r = r
  add_access id (some a) r = assign md_ls_unit_mem_access id (mem_access a) r

  abbrev pub add_flow : ℕ → Option Bool → Registry → Registry
  add_flow id none r = r
  add_flow id (some b) r = assign md_front_end_branch_flow id (branch_flow b) r

  -- The metadata of the instruction at an index of the batch.
  unfoldable pub exchange : ℕ → ℕ → EmulatedInstr → Option Exchanger → Option Exchanger
  exchange i id insn none = none
  exchange i id insn (some x) = some (record {
    registry = add_flow id insn.branch_flow_of (
        add_access id insn.memory_access (
          assign md_instr_addr id (instr_addr (record { addr = insn.addr; size = insn.size }))
            x.registry));
    index_map = insert i (u32 id) x.index_map;
  })

  -- The loop of `fetchRegion`: rounds left, index, broker and exchanger. It writes pointers into the
  -- pool.
  unfoldable pub fetch_rounds :
      ℕ
      → ℕ
      → VivisectBroker
      → Option Exchanger
      → Option (List Place × VivisectBroker × Option Exchanger)
  fetch_rounds zero i s mde = some ([], s, mde)
  fetch_rounds (suc n) i s mde = back s.insn_queue >>= λ insn. disassemble insn >>= λ inst.
      let pool = emplace_back grow inst s.mci_pool in
      let place : Place = record { block = pool.block; index = length s.mci_pool.slots } in
      let s' : VivisectBroker = record s {
        insn_queue = pop s.insn_queue;
        total_num_traces = u64 (s.total_num_traces + 1);
        mci_pool = pool;
      } in
      fetch_rounds n (suc i) s' (exchange i s.total_num_traces insn mde) >>= λ r.
      some (place ∷ r.0, r.1, r.2)

  -- `Size` after the two tests on it, `none` for a negative one.
  abbrev pub clip : Option ℕ → ℕ → ℕ → ℕ
  clip none room queued = if ltb queued room then queued else room
  clip (some size) room queued =
      let n = if ltb room size then room else size in if ltb queued n then queued else n

  -- `fetchRegion`: the number that it returns (`none` for -1) and what was written to `MCIS`.
  unfoldable pub fetch_region :
      Option ℕ
      → ℕ
      → VivisectBroker
      → Option Exchanger
      → Option (Option ℕ × List Place × VivisectBroker × Option Exchanger)
  fetch_region size room s mde =
      if s.running
      then (fetch_rounds (clip size room (length s.insn_queue)) 0 s mde >>= λ r.
          some (some (length s.insn_queue), r.0, r.1, r.2))
      else some (none, [], s, mde)

  -- `signalWorkerComplete`
  unfoldable pub signal_worker_complete : VivisectBroker → VivisectBroker
  signal_worker_complete s = record s { mci_pool = record (s.mci_pool) { slots = [] } }
