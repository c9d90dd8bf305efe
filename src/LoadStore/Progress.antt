-- ===== src/LoadStore/Progress.antt =====
-- The operations of `MCADLSUnit` after `dispatch`: what it tells of an instruction, and the events by
-- which the instruction leaves the unit.
use llvm_mca_daemon.Prelude.{
  ℕ, ◌+◌, ◌-◌, Bool, false, not, ◌&&◌, ◌||◌, Option, none, some, [], ◌∷◌, ltb, ◌==◌, u32, u64,
  if◌then◌else◌, ◌>>=◌,
}
use llvm_mca_daemon.Prelude.Assoc.{Assoc, lookup, insert, erase}
use llvm_mca_daemon.Metadata.{MemoryAccess}
use llvm_mca_daemon.Cache.{Level}
use llvm_mca_daemon.LoadStore.{LlvmUnit, MemInst, CustomGroup, LsUnit, is_store}

-- `MCADLSUnit::Status`, those that `isAvailable` returns.
pub data Status : Type 0 where
  available lqueue_full squeue_full : Status

module _ (llvm : LlvmUnit) where
  -- `isAvailable`
  unfoldable pub is_available : MemInst → Option MemoryAccess → LsUnit llvm → Status
  is_available inst mda u =
      if inst.may_load && llvm.is_lq_full u.slots
      then lqueue_full
      else if is_store llvm inst mda && llvm.is_sq_full u.slots
      then squeue_full
      else available

  -- `isInstOperandWaitingForCache`: `cyclesLeft > 0`, where the difference is an `int`.
  abbrev pub int_pos : ℕ → Bool
  int_pos n = ltb 0 (u32 n) && ltb (u32 n) 2147483648

  unfoldable pub is_waiting_for_cache : Option Level → Option MemoryAccess → LsUnit llvm → Bool
  is_waiting_for_cache (some c) (some a) u = elim (lookup a.addr u.ongoing_requests) [
    | none ↦ false
    | some due ↦ int_pos (due + (18446744073709551616 - u.clock))
  ]
  is_waiting_for_cache (some c) none u = false
  is_waiting_for_cache none mda u = false

  -- `isReady`
  unfoldable pub is_ready_inst : MemInst → Option MemoryAccess → LsUnit llvm → Option Bool
  is_ready_inst inst mda u = lookup inst.token u.custom_groups >>= λ g.
      some (llvm.is_ready g.group && not (is_waiting_for_cache u.cache mda u))

  -- `onInstructionRetired`
  unfoldable pub on_instruction_retired : MemInst → Option MemoryAccess → LsUnit llvm → LsUnit llvm
  on_instruction_retired inst mda u =
      let s = if inst.may_load then llvm.release_lq u.slots else u.slots in
      let requests : Assoc ℕ = elim u.cache [
        | none ↦ u.ongoing_requests
        | some c ↦ elim mda [ none ↦ u.ongoing_requests | some a ↦ erase a.addr u.ongoing_requests ]
      ] in
      record u {
        slots = if is_store llvm inst mda then llvm.release_sq s else s;
        ongoing_requests = requests;
      }

  -- The identifier of a group that is gone, set to zero.
  abbrev pub reset : ℕ → ℕ → ℕ
  reset id current = if id == current then 0 else current

  -- `onInstructionExecuted`
  unfoldable pub on_instruction_executed : MemInst → LsUnit llvm → Option (LsUnit llvm)
  on_instruction_executed inst u =
      if inst.is_mem_op
      then (lookup inst.token u.custom_groups >>= λ g.
          let g' : CustomGroup llvm = record g { group = llvm.on_executed g.group } in
          some (
            if llvm.is_executed g'.group
            then record u {
              custom_groups = erase inst.token u.custom_groups;
              current_load = reset inst.token u.current_load;
              current_store = reset inst.token u.current_store;
              current_load_barrier = reset inst.token u.current_load_barrier;
              current_store_barrier = reset inst.token u.current_store_barrier;
            }
            else record u { custom_groups = insert inst.token g' u.custom_groups }))
      else some u

  -- `cycleEvent`
  abbrev pub cycle_groups : Assoc (CustomGroup llvm) → Assoc (CustomGroup llvm)
  cycle_groups [] = []
  cycle_groups ((k, g) ∷ m) = (k, record g { group = llvm.cycle_event g.group }) ∷ cycle_groups m

  unfoldable pub cycle_event : LsUnit llvm → LsUnit llvm
  cycle_event u = record u {
    custom_groups = cycle_groups u.custom_groups;
    clock = u64 (u.clock + 1);
  }

  -- `isPending`, `isWaiting`, `hasDependentUsers` and `onInstructionIssued`, by the group of the
  -- instruction; `none` is a group that does not exist.
  unfoldable pub is_pending_inst : MemInst → LsUnit llvm → Option Bool
  is_pending_inst inst u = lookup inst.token u.custom_groups >>= λ g. some (llvm.is_pending g.group)

  unfoldable pub is_waiting_inst : MemInst → Option MemoryAccess → LsUnit llvm → Option Bool
  is_waiting_inst inst mda u = lookup inst.token u.custom_groups >>= λ g.
      some (llvm.is_waiting g.group || is_waiting_for_cache u.cache mda u)

  unfoldable pub has_dependent_users : MemInst → LsUnit llvm → Option Bool
  has_dependent_users inst u = lookup inst.token u.custom_groups >>= λ g.
      some (not (llvm.is_executed g.group) && ltb 0 (llvm.num_successors g.group))

  unfoldable pub on_instruction_issued : MemInst → LsUnit llvm → Option (LsUnit llvm)
  on_instruction_issued inst u = lookup inst.token u.custom_groups >>= λ g. some (record u {
    custom_groups = insert inst.token (record g { group = llvm.on_issued g.group }) u.custom_groups;
  })
