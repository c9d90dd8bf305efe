-- ===== src/Qemu/Receive/Tests.antt =====
-- Witnesses for the theorems on QEMU's plugin and its sessions with the broker.
use llvm_mca_daemon.Prelude.{
  ℕ, ◌≤◌, ◌≡◌, refl, Bool, true, false, none, some, List, [], ◌∷◌, ◌++◌, map, ◌==◌, arith,
  if◌then◌else◌,
}
use llvm_mca_daemon.Qemu.{returns, QemuBroker}
use llvm_mca_daemon.Qemu.Block.{Decoder, Target, use_disassembler}
use llvm_mca_daemon.Qemu.Exec.{ExecTb}
use llvm_mca_daemon.Qemu.Receive.{receive_all}
use llvm_mca_daemon.Qemu.Receive.Session.{announced, Holds, receive_session}
use llvm_mca_daemon.Qemu.Plugin.{
  Relay, new_relay, x86_64, Registers, GuestInsn, register_insns, send, announce,
  flush_previous_tb_exec, tb_translate_callback, tb_exec_callback, on_plugin_exit,
}
use llvm_mca_daemon.Qemu.Plugin.Events.{
  GuestEvent, translates, executes, accesses, executions, executed, end_signal, run_events,
}
use llvm_mca_daemon.Qemu.Plugin.Order.{session_lem}
use llvm_mca_daemon.Qemu.Plugin.Steps.{Reaches, installed, later, Step}
use llvm_mca_daemon.Qemu.Plugin.Wire.{IsNumbered, count_blocks}
use llvm_mca_daemon.Qemu.Plugin.Numbers.{numbers_lem}
use llvm_mca_daemon.Qemu.Plugin.Filter.{Sent, register_insns_lem}

abbrev insns : List GuestInsn
insns =
    record { bytes = 1 ∷ []; vaddr = 4096 }
    ∷ record { bytes = 2 ∷ 9 ∷ []; vaddr = 64 }
    ∷ record { bytes = 1 ∷ []; vaddr = 4098 }
    ∷ []

abbrev registers : Registers
registers = record { pc = none; cpsr = none; rip = some 4096; nip = none }

abbrev all_accepted : ℕ → Bool
all_accepted n = true

abbrev events : List GuestEvent
events = translates insns ∷ executes 0 registers ∷ accesses 2 2 true 512 ∷ executes 0 registers ∷ []

session_lem_example :
    (s : Relay) × (run_events all_accepted x86_64 true 4096 8192 events new_relay ≡ returns s)
    × (executed (on_plugin_exit all_accepted s).wire
        ≡ executions x86_64 events ++ (end_signal ∷ []))
session_lem_example = session_lem all_accepted (λ n. refl) x86_64 true 4096 8192 events refl

register_insns_lem_example : Sent true 4096 8192 insns 1 2 (1 ∷ [])
unfolding register_insns
register_insns_lem_example = register_insns_lem true 4096 8192 insns 1 2 (1 ∷ []) refl

-- The second write fails: the first block is lost, and the next one gets its number.
abbrev second_fails : ℕ → Bool
second_fails n = if n == 1 then false else true

abbrev translated_twice : Relay
translated_twice =
    (tb_translate_callback second_fails true 4096 8192 insns
      (tb_translate_callback second_fails true 4096 8192 insns new_relay).2).2

abbrev executed_once : Relay
executed_once = tb_exec_callback second_fails x86_64 registers 0 translated_twice

executed_once-Reaches : Reaches second_fails executed_once
unfolding tb_translate_callback register_insns send announce
executed_once-Reaches =
    later
      (later (later installed (Step.translates true 4096 8192 insns (omega arith)))
        (Step.translates true 4096 8192 insns (omega arith)))
      (Step.executes x86_64 registers 0 (omega arith))

numbers_lem_example :
    IsNumbered 0 (flush_previous_tb_exec second_fails executed_once).wire
    × (count_blocks (flush_previous_tb_exec second_fails executed_once).wire
        ≡ executed_once.num_translation_block)
    × (executed_once.num_translation_block ≤ 4294967295)
    × (executed_once.remote_open ≡ true)
numbers_lem_example = numbers_lem second_fails executed_once executed_once-Reaches

abbrev decode : Decoder ℕ
decode [] a = none
decode (b ∷ bs) a = some (b, b)

abbrev target : Target ℕ
target = record { is_arm = false; is_thumb = false; primary = decode; secondary = none }

target_decoders : (a : ℕ) → (d : Decoder ℕ) × (use_disassembler target a ≡ some d)
unfolding use_disassembler
target_decoders a = (decode, refl)

abbrev fresh : QemuBroker ℕ ℕ
fresh = record {
  bin_regions = none;
  cur_bin_region = none;
  code_start_address = 0;
  tbs = [];
  tb_queue = [];
  is_end_of_stream = false;
  enable_mem_access_md = true;
  total_num_traces = 0;
}

receive_session_example :
    let sent = flush_previous_tb_exec second_fails executed_once in
    (s : QemuBroker ℕ ℕ) × (receive_all target
        (on_plugin_exit second_fails executed_once).wire
        fresh
      ≡ returns s)
    × Holds (announced sent.wire) (map (λ (e : ExecTb). e.index) (executed sent.wire)) s
    × (s.is_end_of_stream ≡ second_fails sent.num_writes)
receive_session_example =
    receive_session target target_decoders second_fails executed_once fresh executed_once-Reaches
      (record { blocks = refl; queue = refl; untrimmed = refl }) refl
