-- ===== src/Qemu/Plugin/Numbers.antt =====
-- The numbers of the blocks that the plugin announces, over any order of the callbacks and whatever
-- calls of `write` fail.
use llvm_mca_daemon.Prelude.{
  ℕ, ◌+◌, ◌<◌, ◌≤◌, ◌≡◌, refl, sym, ◌∙◌, subst, Bool, true, false, Option, none, some, List, [],
  ◌∷◌, ◌++◌, append-nil, u32, u64, arith, if◌then◌else◌, map, Bool-cases, inl, inr,
}
use llvm_mca_daemon.Qemu.{returns, faults}
use llvm_mca_daemon.Qemu.Exec.{FbAccess}
use llvm_mca_daemon.Qemu.Receive.{Message, metadata, translated_block, executed_tb}
use llvm_mca_daemon.Qemu.Plugin.Events.{end_signal}
use llvm_mca_daemon.Qemu.Plugin.Steps.{
  Step, translates, executes, accesses, Reaches, installed, later,
}
use llvm_mca_daemon.Qemu.Plugin.Wire.{IsNumbered, count_blocks, PendingBelow, Counts, Counts-append}
use llvm_mca_daemon.Qemu.Plugin.{
  ExecTransBlock, Relay, push_on, exec_message, send, flush_current, flush_previous_tb_exec,
  note_start, note_end, announce, tb_translate_callback, tb_exec_callback, on_memory_ops,
  on_plugin_exit,
}

record IsSession (s : Relay) : Type 0 where
  on_wire : Counts s.num_translation_block s.wire
  small : s.num_translation_block ≤ 4294967295
  pending_below : PendingBelow s.num_translation_block s.current_exec_tb
  opened : s.remote_open ≡ true

module _ (accepted : ℕ → Bool) where
  -- A message that is no block, whether it goes through or not.
  send-Counts :
      (n : ℕ) (m : Message) (s : Relay)
      → Counts n s.wire
      → IsNumbered n (m ∷ [])
      → count_blocks (m ∷ []) ≡ 0
      → Counts n (send accepted m s).1.wire
  unfolding send
  send-Counts n m s c h e = elim (Bool-cases (accepted s.num_writes)) [
    | inl t ↦ rw t (Counts-append n n s.wire m c h (omega (arith, e)))
    | inr t ↦ rw t c
  ]

  note_start-IsSession :
      (o : Option ℕ) (start : ℕ) (s : Relay)
      → IsSession s
      → IsSession (note_start accepted o start s)
  unfolding send
  note_start-IsSession none start s h = record {
    on_wire =
        send-Counts s.num_translation_block (metadata start)
          (record s { code_start_addr = some start }) h.on_wire tt refl;
    small = h.small;
    pending_below = h.pending_below;
    opened = h.opened;
  }
  note_start-IsSession (some a) start s h = h

  announce-IsSession :
      (regs : List (ℕ × List ℕ)) (s : Relay)
      → IsSession s
      → s.num_translation_block < 4294967295
      → IsSession (announce accepted regs s).1
  unfolding announce send
  announce-IsSession [] s h lt = h
  announce-IsSession (r ∷ rs) s h lt =
      outcome (accepted s.num_writes) (map (λ p. p.1) (r ∷ rs)) s h lt
    where
      outcome :
          (b : Bool) (raws : List (List ℕ)) (s : Relay)
          → IsSession s
          → s.num_translation_block < 4294967295
          → let m = translated_block (u32 s.num_translation_block) raws in
            let s1 : Relay = record s {
              num_writes = s.num_writes + 1;
              wire = if b then s.wire ++ (m ∷ []) else s.wire;
            } in
            IsSession
              (if◌then◌else◌ {A = Option ℕ × Relay} b
                (
                  some s.num_translation_block,
                  record s1 { num_translation_block = u64 (s.num_translation_block + 1) },
                )
                (none, s1)).1
      outcome true raws s h lt = record {
        on_wire =
            Counts-append s.num_translation_block (u64 (s.num_translation_block + 1)) s.wire
              (translated_block (u32 s.num_translation_block) raws) h.on_wire (omega arith, tt)
              (omega arith);
        small = omega arith;
        pending_below = grown s.current_exec_tb h.pending_below;
        opened = h.opened;
      }
        where
          grown :
              (o : Option ExecTransBlock)
              → PendingBelow s.num_translation_block o
              → PendingBelow (u64 (s.num_translation_block + 1)) o
          grown none p = tt
          grown (some t) p = omega arith
      outcome false raws s h lt = record {
        on_wire = h.on_wire;
        small = h.small;
        pending_below = h.pending_below;
        opened = h.opened;
      }

  note_end-IsSession :
      (o : Option ℕ) (stop : ℕ) (s : Relay) → IsSession s → IsSession (note_end o stop s)
  note_end-IsSession none stop s h = record {
    on_wire = h.on_wire;
    small = h.small;
    pending_below = h.pending_below;
    opened = h.opened;
  }
  note_end-IsSession (some a) stop s h = h

  flush-Counts :
      (o : Option ExecTransBlock) (n : ℕ) (s : Relay)
      → PendingBelow n o
      → Counts n s.wire
      → Counts n (flush_current accepted o s).wire
  unfolding flush_current
  flush-Counts none n s p c = c
  flush-Counts (some t) n s p c = send-Counts n (exec_message t) s c (p, tt) refl

  flush_number :
      (o : Option ExecTransBlock) (s : Relay)
      → (flush_current accepted o s).num_translation_block ≡ s.num_translation_block
  unfolding flush_current send
  flush_number none s = refl
  flush_number (some t) s = refl

  flush_open :
      (o : Option ExecTransBlock) (s : Relay)
      → (flush_current accepted o s).remote_open ≡ s.remote_open
  unfolding flush_current send
  flush_open none s = refl
  flush_open (some t) s = refl

  push-IsSession :
      (o : Option ExecTransBlock) (a : FbAccess) (s s' : Relay)
      → PendingBelow s.num_translation_block o
      → IsSession s
      → push_on o a s ≡ returns s'
      → IsSession s'
  push-IsSession none a s s' p h e = let never : faults ≡ returns s' = e in cc
  push-IsSession (some t) a s s' p h e =
      subst IsSession (returned e)
        (record { on_wire = h.on_wire; small = h.small; pending_below = p; opened = h.opened })
    where
      returned : {x y : Relay} → returns x ≡ returns y → x ≡ y
      returned e = cc

  note_number :
      (o p : Option ℕ) (start stop : ℕ) (s : Relay)
      → (note_end p stop (note_start accepted o start s)).num_translation_block
        ≡ s.num_translation_block
  unfolding send
  note_number none none start stop s = refl
  note_number none (some b) start stop s = refl
  note_number (some a) none start stop s = refl
  note_number (some a) (some b) start stop s = refl

  step-IsSession : {s s' : Relay} → IsSession s → Step accepted s s' → IsSession s'
  unfolding tb_translate_callback tb_exec_callback on_memory_ops
  step-IsSession {s} h (translates only start stop insns lt) =
      let s1 = note_start accepted s.code_start_addr start s in
      let same = note_number s.code_start_addr s1.code_end_addr start stop s in
      announce-IsSession _ (note_end s1.code_end_addr stop s1)
        (note_end-IsSession s1.code_end_addr stop s1
          (note_start-IsSession s.code_start_addr start s h))
        (omega (arith, same, lt))
  step-IsSession {s} h (executes guest r k lt) =
      let same = flush_number s.current_exec_tb s in
      record {
        on_wire =
            subst (λ n. Counts n (flush_current accepted s.current_exec_tb s).wire) (sym same)
              (flush-Counts s.current_exec_tb s.num_translation_block s h.pending_below h.on_wire);
        small = omega (arith, same, h.small);
        pending_below = omega (arith, same, h.small, lt);
        opened = flush_open s.current_exec_tb s ∙ h.opened;
      }
  step-IsSession {s} {s'} h (accesses insn shift is_store vaddr e) =
      push-IsSession s.current_exec_tb _ s s' h.pending_below h e

  reaches-IsSession : {s : Relay} → Reaches accepted s → IsSession s
  reaches-IsSession installed = record {
    on_wire = record { numbered = tt; count = refl };
    small = omega arith;
    pending_below = tt;
    opened = refl;
  }
  reaches-IsSession (later r step) = step-IsSession (reaches-IsSession r) step

  -- In every state that the callbacks reach, whichever writes fail, with fewer than 2 ^ 32 - 1
  -- blocks announced and each executed by the number of its callback: once the pending block is
  -- sent, the blocks on the wire are numbered in their order from 0 up to the counter, each
  -- executed block has a number announced before it, and the socket is open.
  pub numbers_lem :
      (s : Relay)
      → Reaches accepted s
      → IsNumbered 0 (flush_previous_tb_exec accepted s).wire
        × (count_blocks (flush_previous_tb_exec accepted s).wire ≡ s.num_translation_block)
        × (s.num_translation_block ≤ 4294967295)
        × (s.remote_open ≡ true)
  numbers_lem s r =
      let h = reaches-IsSession r in
      let c = flush-Counts s.current_exec_tb s.num_translation_block s h.pending_below h.on_wire in
      (c.numbered, c.count, h.small, h.opened)

  -- What is on the wire at the end.
  pub exit_wire :
      (s : Relay)
      → s.remote_open ≡ true
      → let sent = flush_previous_tb_exec accepted s in
        (on_plugin_exit accepted s).wire
        ≡ sent.wire ++ (if accepted sent.num_writes then executed_tb end_signal ∷ [] else [])
  unfolding on_plugin_exit send
  exit_wire s open' =
      let sent = flush_previous_tb_exec accepted s in
      chosen s.remote_open _ s open' ∙ went (accepted sent.num_writes) sent.wire _
    where
      chosen : (b : Bool) (x y : Relay) → b ≡ true → (if◌then◌else◌ {A = Relay} b x y).wire ≡ x.wire
      chosen true x y e = refl
      chosen false x y e = let never = e in cc

      went :
          (b : Bool) (ms ns : List Message)
          → (if b then ms ++ ns else ms) ≡ ms ++ (if b then ns else [])
      went true ms ns = refl
      went false ms ns = sym (append-nil ms)
