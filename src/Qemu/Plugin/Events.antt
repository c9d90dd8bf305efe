-- ===== src/Qemu/Plugin/Events.antt =====
-- What QEMU tells the plugin of a running guest, as a list of events.
use llvm_mca_daemon.Prelude.{ℕ, ◌≡◌, refl, ap, Bool, List, [], ◌∷◌, ◌++◌, u32}
use llvm_mca_daemon.Qemu.{Run, returns, ◌>>=◌}
use llvm_mca_daemon.Qemu.Exec.{FbAccess, ExecTb}
use llvm_mca_daemon.Qemu.Receive.{Message, metadata, translated_block, executed_tb}
use llvm_mca_daemon.Qemu.Plugin.{
  Relay, Guest, Registers, exec_pc, GuestInsn, noted_access, tb_translate_callback,
  tb_exec_callback, on_memory_ops,
}

-- What QEMU tells the plugin while the guest runs.
pub data GuestEvent : Type 0 where
  translates : List GuestInsn → GuestEvent
  executes : ℕ → Registers → GuestEvent
  accesses : ℕ → ℕ → Bool → ℕ → GuestEvent

-- The accesses before the next block is executed.
abbrev pub accesses_until : List GuestEvent → List FbAccess
accesses_until [] = []
accesses_until (translates insns ∷ es) = accesses_until es
accesses_until (executes k r ∷ es) = []
accesses_until (accesses insn shift is_store vaddr ∷ es) =
    noted_access insn shift is_store vaddr ∷ accesses_until es

-- The executed blocks in their order, each with the accesses up to the next one.
abbrev pub executions : Guest → List GuestEvent → List ExecTb
executions guest [] = []
executions guest (translates insns ∷ es) = executions guest es
executions guest (executes k r ∷ es) =
    record { index = u32 k; pc = exec_pc guest r k; mem_accesses = accesses_until es }
    ∷ executions guest es
executions guest (accesses insn shift is_store vaddr ∷ es) = executions guest es

-- The executed blocks among the messages.
abbrev pub executed : List Message → List ExecTb
executed [] = []
executed (metadata a ∷ ms) = executed ms
executed (translated_block i raws ∷ ms) = executed ms
executed (executed_tb e ∷ ms) = e ∷ executed ms

pub executed-append : (xs ys : List Message) → executed (xs ++ ys) ≡ executed xs ++ executed ys
executed-append [] ys = refl
executed-append (metadata a ∷ xs) ys = executed-append xs ys
executed-append (translated_block i raws ∷ xs) ys = executed-append xs ys
executed-append (executed_tb e ∷ xs) ys = ap (λ l. e ∷ l) (executed-append xs ys)

-- The signal that no block comes any more.
abbrev pub end_signal : ExecTb
end_signal = record { index = 4294967295; pc = 18446744073709551615; mem_accesses = [] }

module _ (accepted : ℕ → Bool) (guest : Guest) (only : Bool) (start stop : ℕ) where
  abbrev pub handle_event : GuestEvent → Relay → Run Relay
  handle_event (translates insns) s =
      returns (tb_translate_callback accepted only start stop insns s).2
  handle_event (executes k r) s = returns (tb_exec_callback accepted guest r k s)
  handle_event (accesses insn shift is_store vaddr) s = on_memory_ops insn shift is_store vaddr s

  unfoldable pub run_events : List GuestEvent → Relay → Run Relay
  run_events [] s = returns s
  run_events (e ∷ es) s = handle_event e s >>= λ s'. run_events es s'
