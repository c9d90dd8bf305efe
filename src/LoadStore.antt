-- ===== src/LoadStore.antt =====
-- `MCADLSUnit` of CustomHWUnits/MCADLSUnit.h and .cpp: the memory groups by which loads and stores
-- wait for one another, and the cache requests under way. LLVM's memory group and queue slots, and
-- `std::multiset::count` under a comparison that is no strict weak order, are the parameters.
pub mod Progress
pub mod Groups
pub mod Validity
pub mod Dispatch
pub mod Executed
pub mod Requests
mod Tests
use llvm_mca_daemon.Prelude.{
  ℕ, zero, suc, ◌+◌, ◌-◌, ◌≡◌, max, Bool, true, false, not, ◌&&◌, ◌||◌, Option, none, some, List,
  [], ◌∷◌, ltb, leb, ◌==◌, u32, u64, if◌then◌else◌, ◌>>=◌, asserted, map,
}
use llvm_mca_daemon.Prelude.Assoc.{Assoc, lookup, insert, erase}
use llvm_mca_daemon.Metadata.{InstrAddr, MemoryAccess}
use llvm_mca_daemon.Metadata.Registry.{
  Registry, Get, missing, bad_cast, found, get_memory_access_md,
}
use llvm_mca_daemon.Cache.{Level, load, store}

-- `LSUnit::MemoryGroup`, the slots of `LSUnitBase`, and the count of a multiset.
pub record LlvmUnit : Type 1 where
  pub MemoryGroup : Type 0
  pub new_group : MemoryGroup
  pub add_instruction : MemoryGroup → MemoryGroup
  -- `addSuccessor`: the group itself and the successor after it.
  pub add_successor : MemoryGroup → MemoryGroup → Bool → MemoryGroup × MemoryGroup
  pub on_executed : MemoryGroup → MemoryGroup
  pub on_issued : MemoryGroup → MemoryGroup
  pub is_pending : MemoryGroup → Bool
  pub num_successors : MemoryGroup → ℕ
  pub cycle_event : MemoryGroup → MemoryGroup
  pub is_ready : MemoryGroup → Bool
  pub is_waiting : MemoryGroup → Bool
  pub is_executing : MemoryGroup → Bool
  pub is_executed : MemoryGroup → Bool
  pub Slots : Type 0
  pub acquire_lq : Slots → Slots
  pub acquire_sq : Slots → Slots
  pub release_lq : Slots → Slots
  pub release_sq : Slots → Slots
  pub is_lq_full : Slots → Bool
  pub is_sq_full : Slots → Bool
  pub count : List MemoryAccess → MemoryAccess → Bool

-- What the unit reads of an instruction.
pub record MemInst : Type 0 where
  pub identifier : Option ℕ
  pub may_load : Bool
  pub may_store : Bool
  pub is_load_barrier : Bool
  pub is_store_barrier : Bool
  pub is_mem_op : Bool
  pub token : ℕ

module _ (llvm : LlvmUnit) where
  open llvm use {MemoryGroup, Slots, new_group, add_instruction, add_successor, is_executing}

  -- `CustomMemoryGroup`
  pub record CustomGroup : Type 0 where
    pub group : MemoryGroup
    pub accesses : List MemoryAccess

  -- `MCADLSUnit`
  pub record LsUnit : Type 0 where
    pub current_load : ℕ
    pub current_load_barrier : ℕ
    pub current_store : ℕ
    pub current_store_barrier : ℕ
    pub custom_groups : Assoc CustomGroup
    pub next_custom_group : ℕ
    pub registry : Option Registry
    pub clock : ℕ
    pub ongoing_requests : Assoc ℕ
    pub cache : Option Level
    pub assume_no_alias : Bool
    pub slots : Slots

  -- The metadata of an instruction; a failed cast faults.
  unfoldable pub found_access : Get MemoryAccess → Option (Option MemoryAccess)
  found_access missing = some none
  found_access bad_cast = none
  found_access (found a) = some (some a)

  unfoldable pub access_md : LsUnit → MemInst → Option (Option MemoryAccess × LsUnit)
  access_md u inst =
      let r = get_memory_access_md inst.identifier u.registry in
      found_access r.1 >>= λ mda. some (mda, record u { registry = r.0 })

  -- `isStore`
  abbrev pub is_store : MemInst → Option MemoryAccess → Bool
  is_store inst none = inst.may_store
  is_store inst (some a) = a.is_store || inst.may_store

  -- The access to the cache at the start of `dispatch`.
  unfoldable pub time_access : Option Level → Option MemoryAccess → MemInst → LsUnit → Option LsUnit
  time_access (some c) (some a) inst u =
      let ia : InstrAddr = record { addr = a.addr; size = 0 } in
      (if is_store inst (some a) then store c ia else load c ia) >>= λ r. some (record u {
        cache = some r.1;
        ongoing_requests = insert a.addr (u64 (u.clock + u32 r.0)) u.ongoing_requests;
      })
  time_access (some c) none inst u = some u
  time_access none mda inst u = some u

  unfoldable pub acquire_slots : MemInst → Option MemoryAccess → LsUnit → LsUnit
  acquire_slots inst mda u =
      let s = if inst.may_load then llvm.acquire_lq u.slots else u.slots in
      record u { slots = if is_store inst mda then llvm.acquire_sq s else s }

  -- `createCustomMemoryGroup`; `DenseMap::insert` leaves a key that is there alone.
  unfoldable pub create_group : LsUnit → ℕ × LsUnit
  create_group u =
      let id = u.next_custom_group in
      let groups : Assoc CustomGroup = elim (lookup id u.custom_groups) [
        | none ↦ insert id (record { group = new_group; accesses = [] }) u.custom_groups
        | some g ↦ u.custom_groups
      ] in
      (id, record u { custom_groups = groups; next_custom_group = u32 (id + 1) })

  -- `addMemAccess`
  abbrev pub add_access : Option MemoryAccess → List MemoryAccess → List MemoryAccess
  add_access none accesses = accesses
  add_access (some a) accesses = a ∷ accesses

  -- `addInstruction` and `addMemAccess` on a group; `none` is a group that does not exist.
  unfoldable pub join_group : ℕ → Option MemoryAccess → LsUnit → Option LsUnit
  join_group id mda u = lookup id u.custom_groups >>= λ g. some (record u {
    custom_groups =
        insert id (record { group = add_instruction g.group; accesses = add_access mda g.accesses })
          u.custom_groups;
  })

  -- `addSuccessor` between two groups that are looked up.
  unfoldable pub link : ℕ → ℕ → Bool → LsUnit → Option LsUnit
  link id succ is_data u = lookup id u.custom_groups >>= λ p. lookup succ u.custom_groups >>= λ s.
      let r = add_successor p.group s.group is_data in
      some (record u {
        custom_groups =
            insert succ (record s { group = r.1 })
              (insert id (record p { group = r.0 }) u.custom_groups);
      })

  -- `noAlias`
  unfoldable pub no_alias : ℕ → Option MemoryAccess → LsUnit → Option Bool
  no_alias id none u = some u.assume_no_alias
  no_alias id (some a) u = lookup id u.custom_groups >>= λ g. some (not (llvm.count g.accesses a))

  -- A dependence on a group that is there: a data dependence unless the accesses do not alias.
  unfoldable pub depend : ℕ → ℕ → Option MemoryAccess → LsUnit → Option LsUnit
  depend id succ mda u = no_alias id mda u >>= λ free. link id succ (not free) u

  -- The dependence of a load on the current store group: none at all where they do not alias.
  unfoldable pub depend_on_alias : ℕ → ℕ → Option MemoryAccess → LsUnit → Option LsUnit
  depend_on_alias id succ mda u =
      no_alias id mda u >>= λ free. if free then some u else link id succ true u

  -- The store's part of `dispatch`.
  unfoldable pub dispatch_store : MemInst → Option MemoryAccess → LsUnit → Option (ℕ × LsUnit)
  dispatch_store inst mda u =
      let r = create_group u in
      let id = r.0 in
      let dominator = max u.current_load u.current_load_barrier in
      join_group id mda r.1 >>= λ u1.
      (if dominator == 0 then some u1 else depend dominator id mda u1) >>= λ u2.
      (if u.current_store_barrier == 0 then some u2 else link u.current_store_barrier id true u2)
      >>= λ u3.
          (if u.current_store == 0 || u.current_store == u.current_store_barrier
            then some u3
            else depend u.current_store id mda u3)
          >>= λ u4. some (
            id,
            record u4 {
              current_store = id;
              current_store_barrier =
                  if inst.is_store_barrier then id else u4.current_store_barrier;
              current_load = if inst.may_load then id else u4.current_load;
              current_load_barrier =
                  if inst.may_load && inst.is_load_barrier then id else u4.current_load_barrier;
            },
          )

  -- `ShouldCreateANewGroup`
  unfoldable pub should_create : MemInst → LsUnit → Option Bool
  should_create inst u =
      let dominator = max u.current_load u.current_load_barrier in
      if inst.is_load_barrier
        || dominator == 0
        || u.current_load_barrier == dominator
        || leb dominator u.current_store
      then some true
      else (lookup dominator u.custom_groups >>= λ g. some (is_executing g.group))

  -- The load's part of `dispatch` for a new group.
  unfoldable pub dispatch_new_load : MemInst → Option MemoryAccess → LsUnit → Option (ℕ × LsUnit)
  dispatch_new_load inst mda u =
      let r = create_group u in
      let id = r.0 in
      let dominator = max u.current_load u.current_load_barrier in
      let older = if inst.is_load_barrier then dominator else u.current_load_barrier in
      join_group id mda r.1 >>= λ u1.
      (if u.current_store == 0 then some u1 else depend_on_alias u.current_store id mda u1)
      >>= λ u2. (if older == 0 then some u2 else link older id true u2) >>= λ u3. some (
        id,
        record u3 {
          current_load = id;
          current_load_barrier = if inst.is_load_barrier then id else u3.current_load_barrier;
        },
      )

  -- The load's part of `dispatch`, which asserts that the instruction loads.
  unfoldable pub dispatch_load : MemInst → Option MemoryAccess → LsUnit → Option (ℕ × LsUnit)
  dispatch_load inst mda u = asserted inst.may_load (
      should_create inst u >>= λ new.
      if new
      then dispatch_new_load inst mda u
      else (join_group u.current_load mda u >>= λ u'. some (u.current_load, u')))

  -- `dispatch`: the group of the instruction, which is asserted to load or to store.
  unfoldable pub dispatch : MemInst → LsUnit → Option (ℕ × LsUnit)
  dispatch inst u = access_md u inst >>= λ r. time_access r.1.cache r.0 inst r.1 >>= λ timed.
      let u' = acquire_slots inst r.0 timed in
      asserted (inst.may_load || inst.may_store)
        (if is_store inst r.0 then dispatch_store inst r.0 u' else dispatch_load inst r.0 u')
