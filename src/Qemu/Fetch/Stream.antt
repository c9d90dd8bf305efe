-- ===== src/Qemu/Fetch/Stream.antt =====
-- `QemuBroker::fetchRegion` reads the executed program in order.
use llvm_mca_daemon.Prelude.{ℕ, ◌+◌, ◌≤◌, ◌≡◌, ◌⊎◌, Option, some, List, [], ◌++◌, length}
use llvm_mca_daemon.Brokers.{Exchanger}
use llvm_mca_daemon.Qemu.Regions.{BinaryRegion}
use llvm_mca_daemon.Qemu.{TbSlice, QemuBroker}
use llvm_mca_daemon.Qemu.Fetch.{Batch, describe}
use llvm_mca_daemon.Qemu.Fetch.Pending.{all_insts, steps, finished, program, IsReady}
use llvm_mca_daemon.Qemu.Fetch.Places.{Placed, place_of}

module _ {Inst Text : Type 0} where
  -- A batch of at most `size` instructions, of a queue whose first slice begins at `short`.
  pub record Fetched (size short : ℕ) (m : Exchanger) (s : QemuBroker Inst Text)
      (b : Batch Inst Text) : Type 0 where
    pub slices : List (TbSlice Text)
    pub region : Option (BinaryRegion Text)
    pub exchanger : Exchanger
    pub count : b.count ≡ some (length b.insts)
    pub descriptor : b.region ≡ describe region
    pub bounded : length b.insts ≤ size
    pub prefix :
        program s.tbs s.tb_queue
        ≡ (steps s.tbs b.insts ++ finished s.tbs region) ++ program s.tbs b.broker.tb_queue
    pub full :
        (size ≤ length b.insts + short)
        ⊎ (((r : BinaryRegion Text) × (region ≡ some r)) ⊎ (b.broker.tb_queue ≡ []))
    pub ready : IsReady s.tbs size b.broker.tb_queue
    pub same_tbs : b.broker.tbs ≡ s.tbs
    pub taken : b.insts ≡ all_insts s.tbs slices
    pub exchanged : b.exchanger ≡ some exchanger
    pub placed :
        Placed 0
          (length b.insts)
          (place_of s.tbs slices)
          (record { exchanger = m; traces = s.total_num_traces })
          (record { exchanger = exchanger; traces = b.broker.total_num_traces })
