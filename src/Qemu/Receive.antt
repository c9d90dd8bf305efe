-- ===== src/Qemu/Receive.antt =====
-- The messages between QEMU's plugin and the broker, and the `switch` of `recvWorker` over them.
pub mod Table
pub mod Session
mod Tests
use llvm_mca_daemon.Prelude.{ℕ, Bool, List, [], ◌∷◌}
use llvm_mca_daemon.Qemu.{Run, returns, ◌>>=◌, QemuBroker}
use llvm_mca_daemon.Qemu.Block.{Target, add_tb}
use llvm_mca_daemon.Qemu.Exec.{ExecTb, tb_exec, handle_metadata}

-- `fbs::Msg`
pub data Message : Type 0 where
  metadata : ℕ → Message
  translated_block : ℕ → List (List ℕ) → Message
  executed_tb : ExecTb → Message

module _ {Inst Text : Type 0} (t : Target Inst) where
  unfoldable pub handle_message : Message → QemuBroker Inst Text → Run (QemuBroker Inst Text)
  handle_message (metadata load_addr) s = returns (handle_metadata load_addr s)
  handle_message (translated_block index raws) s = returns (add_tb index raws s)
  handle_message (executed_tb e) s = tb_exec t e s

  -- The messages one after the other.
  unfoldable pub receive_all : List Message → QemuBroker Inst Text → Run (QemuBroker Inst Text)
  unfolding handle_message
  receive_all [] s = returns s
  receive_all (m ∷ ms) s = handle_message m s >>= λ s'. receive_all ms s'
