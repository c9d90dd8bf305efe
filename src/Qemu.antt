-- ===== src/Qemu.antt =====
-- plugins/qemu-broker: the broker that QEMU's plugin feeds with translation blocks, by their bytes,
-- and with the order in which they are executed.
pub mod Regions
pub mod Block
pub mod Exec
pub mod Fetch
pub mod Receive
pub mod Plugin
mod Tests
use llvm_mca_daemon.Prelude.{ℕ, Bool, Option, none, some, List, [], ◌∷◌}
use llvm_mca_daemon.Prelude.Assoc.{Assoc}
use llvm_mca_daemon.Metadata.{MemoryAccess}
use llvm_mca_daemon.Qemu.Regions.{BinaryRegion, BinaryRegions}

-- What a call comes to: a result, a wait for the receiving thread, a loop that never ends, or a read
-- of what is not there.
pub data Run (A : Type 0) : Type 0 where
  returns : A → Run A
  waits spins faults : Run A

infixl 5 ◌>>=◌
abbrev pub ◌>>=◌ : {A B : Type 0} → Run A → (A → Run B) → Run B
returns a >>= f = f a
waits >>= f = waits
spins >>= f = spins
faults >>= f = faults

-- A read that must not fail.
abbrev pub deref : {A : Type 0} → Option A → Run A
deref none = faults
deref (some a) = returns a

-- `TranslationBlock`; a `BitVector` is the list of its bits.
pub record TranslationBlock (Inst : Type 0) : Type 0 where
  pub raw_insts : List (List ℕ)
  pub mc_insts : List Inst
  pub skew_indices : Assoc ℕ
  pub mc_inst_addrs : List ℕ
  pub mc_inst_sizes : List ℕ
  pub vaddr : ℕ
  pub vaddr_offsets : List ℕ
  pub begin_marks : List Bool
  pub end_marks : List Bool

-- `MemoryAccessChain`
abbrev pub AccessChain : Type 0
AccessChain = List (ℕ × MemoryAccess)

-- `TBSlice`, with the region that ends with it, if one does.
pub record TbSlice (Text : Type 0) : Type 0 where
  pub index : ℕ
  pub begin_idx : ℕ
  pub end_idx : ℕ
  pub region : Option (BinaryRegion Text)
  pub memory_accesses : Option AccessChain

-- `QemuBroker`, without its sockets, locks and timers.
pub record QemuBroker (Inst Text : Type 0) : Type 0 where
  pub bin_regions : Option (BinaryRegions Text)
  pub cur_bin_region : Option (BinaryRegion Text)
  pub code_start_address : ℕ
  pub tbs : List (Option (TranslationBlock Inst))
  pub tb_queue : List (TbSlice Text)
  pub is_end_of_stream : Bool
  pub enable_mem_access_md : Bool
  pub total_num_traces : ℕ
