-- ===== src/LoadStore/Executed.antt =====
-- `MCADLSUnit::onInstructionExecuted` on valid units.
use llvm_mca_daemon.Prelude.{
  ℕ, ◌≡◌, inl, inr, refl, ◌∙◌, Bool, true, false, Option, none, some, ◌==◌, if◌then◌else◌,
  Bool-cases,
}
use llvm_mca_daemon.Prelude.Assoc.{Assoc, insert, erase, lookup-erase}
use llvm_mca_daemon.LoadStore.{LlvmUnit, MemInst, CustomGroup, LsUnit}
use llvm_mca_daemon.LoadStore.Progress.{reset, on_instruction_executed}
use llvm_mca_daemon.LoadStore.Groups.{Held, IsCurrent, IsValid, Same-insert}
use llvm_mca_daemon.LoadStore.Validity.{Same-IsValid}

module _ (llvm : LlvmUnit) where
  reset-IsCurrent :
      (id k : ℕ) (m : Assoc (CustomGroup llvm))
      → IsCurrent llvm k m
      → IsCurrent llvm (reset llvm id k) (erase id m)
  reset-IsCurrent id k m c = elim (Bool-cases (id == k)) [
    | inl e ↦ rw e (inl refl)
    | inr e ↦ rw e (kept c e)
  ]
    where
      kept : IsCurrent llvm k m → (id == k) ≡ false → IsCurrent llvm k (erase id m)
      kept (inl z) e = inl z
      kept (inr (g, at)) e = inr (g, lookup-erase id k m ∙ (rw e at))

  -- On a valid unit, for an instruction whose group is there, `onInstructionExecuted` returns and
  -- leaves the unit valid: where it removes a group, no current group is left that refers to it.
  pub on_instruction_executed-IsValid :
      (inst : MemInst) (u : LsUnit llvm)
      → IsValid llvm u
      → Held llvm inst.token u.custom_groups
      → (u' : LsUnit llvm) × (on_instruction_executed llvm inst u ≡ some u') × IsValid llvm u'
  unfolding on_instruction_executed
  on_instruction_executed-IsValid inst u v (g, at) = elim (Bool-cases inst.is_mem_op) [
    | inr skip ↦ (u, rw skip refl, v)
    | inl op ↦
        let g' : CustomGroup llvm = record g { group = llvm.on_executed g.group } in
        elim (Bool-cases (llvm.is_executed (llvm.on_executed g.group))) [
          | inr runs ↦ (
            record u { custom_groups = insert inst.token g' u.custom_groups },
            rw (op, at, runs) refl,
            Same-IsValid llvm u _ v (Same-insert llvm u inst.token g' g at),
          )
          | inl done ↦ (
            record u {
              custom_groups = erase inst.token u.custom_groups;
              current_load = reset llvm inst.token u.current_load;
              current_store = reset llvm inst.token u.current_store;
              current_load_barrier = reset llvm inst.token u.current_load_barrier;
              current_store_barrier = reset llvm inst.token u.current_store_barrier;
            },
            rw (op, at, done) refl,
            record {
              load_current = reset-IsCurrent inst.token _ _ v.load_current;
              load_barrier_current = reset-IsCurrent inst.token _ _ v.load_barrier_current;
              store_current = reset-IsCurrent inst.token _ _ v.store_current;
              store_barrier_current = reset-IsCurrent inst.token _ _ v.store_barrier_current;
              next_pos = v.next_pos;
              fresh = λ k h.
                  lookup-erase inst.token k u.custom_groups ∙ both (inst.token == k) (v.fresh k h);
            },
          )
        ]
  ]
    where
      both : {A : Type 0} (b : Bool) {o : Option A} → o ≡ none → (if b then none else o) ≡ none
      both true e = refl
      both false e = e
