-- ===== src/Qemu/Plugin.antt =====
-- plugins/qemu-broker/Qemu/Plugin.cpp: the plugin that QEMU calls for each translated block, each
-- execution of one and each memory access, and that sends messages to the broker. The socket is the
-- list of the messages that went through; what QEMU tells the plugin is the argument of each call.
pub mod Events
pub mod Announce
pub mod Order
pub mod Steps
pub mod Wire
pub mod Numbers
pub mod Filter
use llvm_mca_daemon.Prelude.{
  ℕ, zero, suc, ◌+◌, ◌*◌, ◌/◌, ◌%◌, ◌^◌, Bool, true, false, not, ◌&&◌, ◌||◌, Option, none, some,
  List, [], ◌∷◌, ◌++◌, map, ltb, ◌==◌, u32, u64, if◌then◌else◌,
}
use llvm_mca_daemon.Qemu.{Run, returns, faults, ◌>>=◌}
use llvm_mca_daemon.Qemu.Block.{u8}
use llvm_mca_daemon.Qemu.Exec.{FbAccess, ExecTb}
use llvm_mca_daemon.Qemu.Receive.{Message, metadata, translated_block, executed_tb}

-- `ExecTransBlock`, with its accesses in the form that is sent.
pub record ExecTransBlock : Type 0 where
  pub tb_idx : ℕ
  pub pc : ℕ
  pub mem_accesses : List FbAccess

abbrev pub reset_block : ExecTransBlock
reset_block = record { tb_idx = 0; pc = 0; mem_accesses = [] }

-- The state of the plugin; `num_writes` counts the calls of `write`.
pub record Relay : Type 0 where
  pub remote_open : Bool
  pub num_translation_block : ℕ
  pub current_exec_tb : Option ExecTransBlock
  pub code_start_addr : Option ℕ
  pub code_end_addr : Option ℕ
  pub num_writes : ℕ
  pub wire : List Message

abbrev pub new_relay : Relay
new_relay = record {
  remote_open = true;
  num_translation_block = 0;
  current_exec_tb = none;
  code_start_addr = none;
  code_end_addr = none;
  num_writes = 0;
  wire = [];
}

-- `CurrentQemuTarget`, as far as its prefixes are looked at.
pub data Guest : Type 0 where
  arm x86_64 ppc other_guest : Guest

-- What reading a register gives: nothing where it is not known or the call fails.
pub record Registers : Type 0 where
  pub pc : Option ℕ
  pub cpsr : Option ℕ
  pub rip : Option ℕ
  pub nip : Option ℕ

abbrev pub or_index : Option ℕ → ℕ → ℕ
or_index none idx = idx
or_index (some a) idx = a

-- The program counter with its lowest bit set in Thumb mode, bit 5 of the status register.
abbrev pub arm_pc : Option ℕ → Option ℕ → ℕ → ℕ
arm_pc (some pc) (some cpsr) idx = if cpsr / 32 % 2 == 1 && pc % 2 == 0 then u32 pc + 1 else u32 pc
arm_pc _ _ idx = idx

abbrev pub exec_pc : Guest → Registers → ℕ → ℕ
exec_pc arm r idx = arm_pc r.pc r.cpsr idx
exec_pc x86_64 r idx = or_index r.rip idx
exec_pc ppc r idx = or_index r.nip idx
exec_pc other_guest r idx = idx

-- An instruction of a block as QEMU shows it.
pub record GuestInsn : Type 0 where
  pub bytes : List ℕ
  pub vaddr : ℕ

-- Whether the bounds of the main executable let an instruction through.
abbrev pub is_ignored : Bool → ℕ → ℕ → GuestInsn → Bool
is_ignored only_main_code start stop i = only_main_code && (ltb i.vaddr start || ltb stop i.vaddr)

-- The loop over the instructions of a block, from an index on: what is sent of each, with the number
-- that its memory callback is registered with.
unfoldable pub register_insns : Bool → ℕ → ℕ → ℕ → List GuestInsn → List (ℕ × List ℕ)
register_insns only start stop k [] = []
register_insns only start stop k (i ∷ is) =
    let rest = register_insns only start stop (k + 1) is in
    if is_ignored only start stop i then rest else (k, i.bytes) ∷ rest

abbrev pub exec_message : ExecTransBlock → Message
exec_message t = executed_tb (record { index = t.tb_idx; pc = t.pc; mem_accesses = t.mem_accesses })

abbrev pub accesses_of : Option ExecTransBlock → List FbAccess
accesses_of none = []
accesses_of (some t) = t.mem_accesses

-- The access that `onMemoryOps` notes, of a size that QEMU gives by its logarithm.
abbrev pub noted_access : ℕ → ℕ → Bool → ℕ → FbAccess
noted_access insn shift is_store vaddr = record {
  index = u32 insn;
  is_store = is_store;
  vaddr = vaddr;
  size = u8 (2 * 2 ^ shift);
}

abbrev pub push_noted : FbAccess → ExecTransBlock → ExecTransBlock
push_noted a t = record t { mem_accesses = t.mem_accesses ++ (a ∷ []) }

-- `onMemoryOps`, which asserts that there is a current block.
abbrev pub push_on : Option ExecTransBlock → FbAccess → Relay → Run Relay
push_on none a s = faults
push_on (some t) a s = returns (record s { current_exec_tb = some (push_noted a t) })

unfoldable pub on_memory_ops : ℕ → ℕ → Bool → ℕ → Relay → Run Relay
on_memory_ops insn shift is_store vaddr s =
    push_on s.current_exec_tb (noted_access insn shift is_store vaddr) s

abbrev pub note_end : Option ℕ → ℕ → Relay → Relay
note_end none stop s = record s { code_end_addr = some stop }
note_end (some _) stop s = s

-- Whether the calls of `write` succeed.
module _ (accepted : ℕ → Bool) where
  unfoldable pub send : Message → Relay → Bool × Relay
  send m s = (
    accepted s.num_writes,
    record s {
      num_writes = s.num_writes + 1;
      wire = if accepted s.num_writes then s.wire ++ (m ∷ []) else s.wire;
    },
  )

  -- `flushPreviousTBExec`, on the current block.
  unfoldable pub flush_current : Option ExecTransBlock → Relay → Relay
  unfolding send
  flush_current none s = s
  flush_current (some t) s = record ((send (exec_message t) s).1) {
    current_exec_tb = some reset_block;
  }

  abbrev pub flush_previous_tb_exec : Relay → Relay
  flush_previous_tb_exec s = flush_current s.current_exec_tb s

  unfoldable pub tb_exec_callback : Guest → Registers → ℕ → Relay → Relay
  unfolding flush_current
  tb_exec_callback guest r idx s =
      let s1 = flush_previous_tb_exec s in
      record s1 {
        current_exec_tb = some (record {
          tb_idx = u32 idx;
          pc = exec_pc guest r idx;
          mem_accesses = accesses_of s1.current_exec_tb;
        });
      }

  -- The first lines of `tbTranslateCallback`; each bound is asked for once.
  abbrev pub note_start : Option ℕ → ℕ → Relay → Relay
  note_start none start s = (send (metadata start) (record s { code_start_addr = some start })).1
  note_start (some _) start s = s

  -- The last part, for the instructions to send: the number that the execution callback gets.
  unfoldable pub announce : List (ℕ × List ℕ) → Relay → Option ℕ × Relay
  unfolding send
  announce [] s = (none, s)
  announce (r ∷ rs) s =
      let n = s.num_translation_block in
      let sent = send (translated_block (u32 n) (map (λ (p : ℕ × List ℕ). p.1) (r ∷ rs))) s in
      if sent.0
      then (some n, record (sent.1) { num_translation_block = u64 (n + 1) })
      else (none, sent.1)

  -- `tbTranslateCallback`, with the bounds that QEMU would give: the number of the block, and the
  -- memory callbacks.
  unfoldable pub tb_translate_callback :
      Bool → ℕ → ℕ → List GuestInsn → Relay → Option ℕ × List (ℕ × List ℕ) × Relay
  unfolding send announce register_insns
  tb_translate_callback only start stop insns s =
      let s1 = note_start s.code_start_addr start s in
      let s2 = note_end s1.code_end_addr stop s1 in
      let regs =
        register_insns only (or_index s2.code_start_addr 0) (or_index s2.code_end_addr 0) 0 insns in
      let r = announce regs s2 in (r.0, regs, r.1)

  -- `onPluginExit`
  unfoldable pub on_plugin_exit : Relay → Relay
  unfolding flush_current send
  on_plugin_exit s =
      if s.remote_open
      then (send
          (executed_tb
            (record { index = 4294967295; pc = 18446744073709551615; mem_accesses = [] }))
          (flush_previous_tb_exec s)).1
      else s
