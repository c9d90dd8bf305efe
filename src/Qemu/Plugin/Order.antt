-- ===== src/Qemu/Plugin/Order.antt =====
-- The executed blocks on the wire are those of the guest, in their order.
use llvm_mca_daemon.Prelude.{
  ℕ, ◌≡◌, refl, sym, ◌∙◌, ap, ap₂, Bool, true, Option, none, some, List, [], ◌∷◌, ◌++◌, append-nil,
  append_assoc, u32, Option-cases, inl, inr,
}
use llvm_mca_daemon.Qemu.{returns, ◌>>=◌}
use llvm_mca_daemon.Qemu.Exec.{FbAccess, ExecTb}
use llvm_mca_daemon.Qemu.Plugin.{
  ExecTransBlock, Relay, new_relay, Guest, Registers, exec_pc, noted_access, push_noted,
  accesses_of, push_on, send, flush_current, tb_exec_callback, on_memory_ops, on_plugin_exit,
}
use llvm_mca_daemon.Qemu.Plugin.Events.{
  GuestEvent, translates, executes, accesses, accesses_until, executions, executed, executed-append,
  end_signal, run_events,
}
use llvm_mca_daemon.Qemu.Plugin.Announce.{translate-SameBlock}

-- The block that is not sent yet, with more accesses.
abbrev pending : Option ExecTransBlock → List FbAccess → List ExecTb
pending none as' = []
pending (some t) as' =
    record { index = t.tb_idx; pc = t.pc; mem_accesses = t.mem_accesses ++ as' } ∷ []

module _ (accepted : ℕ → Bool) (all : (n : ℕ) → accepted n ≡ true) where
  flush_lem :
      (o : Option ExecTransBlock) (s : Relay)
      → (executed (flush_current accepted o s).wire ≡ executed s.wire ++ pending o [])
        × ((flush_current accepted o s).remote_open ≡ s.remote_open)
  unfolding flush_current send
  flush_lem none s = (sym (append-nil _), refl)
  flush_lem (some t) s = (
    rw (all s.num_writes) (
        executed-append s.wire _
        ∙ ap
            (λ as'.
              executed s.wire ++ (record { index = t.tb_idx; pc = t.pc; mem_accesses = as' } ∷ []))
            (sym (append-nil t.mem_accesses))),
    refl,
  )

  -- The messages on the wire with what is not sent yet.
  abbrev so_far : Relay → List FbAccess → List ExecTb
  so_far s as' = executed s.wire ++ pending s.current_exec_tb as'

  accesses_flushed :
      (o : Option ExecTransBlock) (s : Relay)
      → s.current_exec_tb ≡ o
      → accesses_of (flush_current accepted o s).current_exec_tb ≡ []
  unfolding flush_current
  accesses_flushed none s e = ap accesses_of e
  accesses_flushed (some t) s e = refl

  exec_lem :
      (guest : Guest) (r : Registers) (k : ℕ) (s : Relay) (as' : List FbAccess)
      → (so_far (tb_exec_callback accepted guest r k s) as'
          ≡ so_far s []
            ++ (record { index = u32 k; pc = exec_pc guest r k; mem_accesses = as' } ∷ []))
        × ((tb_exec_callback accepted guest r k s).remote_open ≡ s.remote_open)
  unfolding tb_exec_callback
  exec_lem guest r k s as' =
      let f = flush_lem s.current_exec_tb s in
      (
        ap₂
            (λ l m.
              l ++ (record { index = u32 k; pc = exec_pc guest r k; mem_accesses = m ++ as' } ∷ []))
            f.0 (accesses_flushed s.current_exec_tb s refl),
        f.1,
      )

  access_lem :
      (a : FbAccess) (t : ExecTransBlock) (as' : List FbAccess)
      → pending (some (push_noted a t)) as' ≡ pending (some t) (a ∷ as')
  access_lem a t as' =
      ap (λ l. record { index = t.tb_idx; pc = t.pc; mem_accesses = l } ∷ [])
        (append_assoc t.mem_accesses (a ∷ []) as')

  module _ (guest : Guest) (only : Bool) (start stop : ℕ) where
    run_lem :
        (es : List GuestEvent) (s : Relay)
        → (s.current_exec_tb ≡ none → accesses_until es ≡ [])
        → (s' : Relay) × (run_events accepted guest only start stop es s ≡ returns s')
          × (so_far s' [] ≡ so_far s (accesses_until es) ++ executions guest es)
          × (s'.remote_open ≡ s.remote_open)
    unfolding run_events tb_exec_callback on_memory_ops
    run_lem [] s begins = (s, refl, sym (append-nil _), refl)
    run_lem (translates insns ∷ es) s begins =
        let t = translate-SameBlock accepted only start stop insns s in
        let (s', runs, sent, opened) = run_lem es _ (λ e. begins (sym t.current ∙ e)) in
        (
          s',
          runs,
          sent
              ∙ ap₂ (λ l o. (l ++ pending o (accesses_until es)) ++ executions guest es) t.sent
                  t.current,
          opened ∙ t.still_open,
        )
    run_lem (executes k r ∷ es) s begins =
        let x = exec_lem guest r k s (accesses_until es) in
        let (s', runs, sent, opened) =
          run_lem es (tb_exec_callback accepted guest r k s) (λ e. cc) in
        (
          s',
          runs,
          sent
              ∙ ap (λ l. l ++ executions guest es) x.0
              ∙ append_assoc (so_far s []) _ (executions guest es),
          opened ∙ x.1,
        )
    run_lem (accesses insn shift is_store vaddr ∷ es) s begins =
        elim (Option-cases s.current_exec_tb) [
          | inl e ↦ let never = begins e in cc
          | inr (t, e) ↦
              let a = noted_access insn shift is_store vaddr in
              let (s', runs, sent, opened) =
                run_lem es (record s { current_exec_tb = some (push_noted a t) }) (λ h. cc) in
              (
                s',
                ap (λ o. push_on o a s >>= λ s1. run_events accepted guest only start stop es s1) e
                    ∙ runs,
                sent
                    ∙ ap (λ l. (executed s.wire ++ l) ++ executions guest es)
                        (access_lem a t (accesses_until es))
                    ∙ ap
                        (λ o.
                          (executed s.wire ++ pending o (a ∷ accesses_until es))
                          ++ executions guest es)
                        (sym e),
                opened,
              )
        ]

    -- While all writes succeed and no memory access comes before the first block is executed, the
    -- callbacks return, and the executed blocks on the wire after the exit are those of the guest
    -- in their order, each with its program counter and the accesses up to the next execution, and
    -- then the end signal.
    pub session_lem :
        (es : List GuestEvent)
        → accesses_until es ≡ []
        → (s : Relay) × (run_events accepted guest only start stop es new_relay ≡ returns s)
          × (executed (on_plugin_exit accepted s).wire ≡ executions guest es ++ (end_signal ∷ []))
    unfolding on_plugin_exit send
    session_lem es begins =
        let (s, runs, sent, opened) = run_lem es new_relay (λ e. begins) in
        let f = flush_lem s.current_exec_tb s in
        (
          s,
          runs,
          rw (opened, all)
              (executed-append (flush_current accepted s.current_exec_tb s).wire _
                ∙ ap (λ l. l ++ (end_signal ∷ [])) (f.0 ∙ sent)),
        )
