-- ===== src/LoadStore/Validity.antt =====
-- How `MCADLSUnit::dispatch` keeps the unit valid: after a new group, and after a change of the
-- contents of groups alone.
use llvm_mca_daemon.Prelude.{
  ℕ, ◌+◌, ◌≤◌, ◌≡◌, inr, sym, subst, ◌∙◌, Bool, true, false, none, arith, if◌then◌else◌,
}
use llvm_mca_daemon.Prelude.Assoc.{Assoc, lookup}
use llvm_mca_daemon.LoadStore.{LlvmUnit, CustomGroup, LsUnit}
use llvm_mca_daemon.LoadStore.Groups.{Held, IsCurrent, IsValid, Same, Created, IsCurrent-kept}

module _ (llvm : LlvmUnit) where
  -- What `dispatch` leaves of a unit that got a new group.
  pub record Renewed (u u' : LsUnit llvm) (id : ℕ) : Type 0 where
    pub load : IsCurrent llvm u'.current_load u'.custom_groups
    pub load_barrier : IsCurrent llvm u'.current_load_barrier u'.custom_groups
    pub store : IsCurrent llvm u'.current_store u'.custom_groups
    pub store_barrier : IsCurrent llvm u'.current_store_barrier u'.custom_groups
    pub next_id : u'.next_custom_group ≡ id + 1
    pub made : Held llvm id u'.custom_groups
    pub absent : (k : ℕ) → id + 1 ≤ k → lookup k u'.custom_groups ≡ none

  pub renewed :
      (u u0 u' : LsUnit llvm) (id : ℕ)
      → IsValid llvm u
      → Created llvm u u0 id
      → Same llvm u0 u'
      → Renewed u u' id
  renewed u u0 u' id v c s =
      let kept : (k : ℕ) → Held llvm k u.custom_groups → Held llvm k u'.custom_groups =
        λ k h. s.kept k (c.kept k h) in
      record {
        load =
            subst (λ k. IsCurrent llvm k u'.custom_groups) (sym (s.load ∙ c.load))
              (IsCurrent-kept llvm _ _ _ kept v.load_current);
        load_barrier =
            subst (λ k. IsCurrent llvm k u'.custom_groups) (sym (s.load_barrier ∙ c.load_barrier))
              (IsCurrent-kept llvm _ _ _ kept v.load_barrier_current);
        store =
            subst (λ k. IsCurrent llvm k u'.custom_groups) (sym (s.store ∙ c.store))
              (IsCurrent-kept llvm _ _ _ kept v.store_current);
        store_barrier =
            subst (λ k. IsCurrent llvm k u'.custom_groups) (sym (s.store_barrier ∙ c.store_barrier))
              (IsCurrent-kept llvm _ _ _ kept v.store_barrier_current);
        next_id = s.next_id ∙ c.next_id;
        made = s.kept id c.made;
        absent = λ k h. s.absent k (c.absent k h);
      }

  pub pick :
      (b : Bool) (id k : ℕ) (m : Assoc (CustomGroup llvm))
      → Held llvm id m
      → IsCurrent llvm k m
      → IsCurrent llvm (if b then id else k) m
  pick true id k m h c = inr h
  pick false id k m h c = c

  -- A step that changes the contents of groups only keeps the unit valid.
  pub Same-IsValid : (u u' : LsUnit llvm) → IsValid llvm u → Same llvm u u' → IsValid llvm u'
  Same-IsValid u u' v s = record {
    load_current =
        subst (λ k. IsCurrent llvm k u'.custom_groups) (sym s.load)
          (IsCurrent-kept llvm _ _ _ s.kept v.load_current);
    load_barrier_current =
        subst (λ k. IsCurrent llvm k u'.custom_groups) (sym s.load_barrier)
          (IsCurrent-kept llvm _ _ _ s.kept v.load_barrier_current);
    store_current =
        subst (λ k. IsCurrent llvm k u'.custom_groups) (sym s.store)
          (IsCurrent-kept llvm _ _ _ s.kept v.store_current);
    store_barrier_current =
        subst (λ k. IsCurrent llvm k u'.custom_groups) (sym s.store_barrier)
          (IsCurrent-kept llvm _ _ _ s.kept v.store_barrier_current);
    next_pos = omega (arith, s.next_id, v.next_pos);
    fresh = λ k h. s.absent k (v.fresh k (omega (arith, s.next_id, h)));
  }
