-- ===== src/Qemu/Plugin/Steps.antt =====
-- The plugin's callbacks as steps, in any order.
use llvm_mca_daemon.Prelude.{ℕ, ◌<◌, ◌≡◌, Bool, List}
use llvm_mca_daemon.Qemu.{returns}
use llvm_mca_daemon.Qemu.Plugin.{
  Relay, new_relay, Guest, Registers, GuestInsn, tb_translate_callback, tb_exec_callback,
  on_memory_ops,
}

module _ (accepted : ℕ → Bool) where
  -- A callback: fewer than 2 ^ 32 - 1 blocks are announced, and a block is executed by the number
  -- with which its callback was registered.
  pub data Step : Relay → Relay → Type 0 where
    translates :
        {s : Relay} (only : Bool) (start stop : ℕ) (insns : List GuestInsn)
        → s.num_translation_block < 4294967295
        → Step s (tb_translate_callback accepted only start stop insns s).2
    executes :
        {s : Relay} (guest : Guest) (r : Registers) (k : ℕ)
        → k < s.num_translation_block
        → Step s (tb_exec_callback accepted guest r k s)
    accesses :
        {s s' : Relay} (insn shift : ℕ) (is_store : Bool) (vaddr : ℕ)
        → on_memory_ops insn shift is_store vaddr s ≡ returns s'
        → Step s s'

  pub data Reaches : Relay → Type 0 where
    installed : Reaches new_relay
    later : {s s' : Relay} → Reaches s → Step s s' → Reaches s'
