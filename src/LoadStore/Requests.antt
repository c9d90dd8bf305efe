-- ===== src/LoadStore/Requests.antt =====
-- The whole of `MCADLSUnit::dispatch`, and how long an instruction waits for its cache request.
use llvm_mca_daemon.Prelude.{
  asserted-true, ℕ, zero, suc, ◌+◌, ◌-◌, ◌≤◌, ◌<◌, ◌≡◌, refl, ap, ◌∙◌, Bool, true, ◌||◌, false,
  Option, none, some, arith, ltb, u32, u64, if◌then◌else◌, Bool-cases, inl, inr,
}
use llvm_mca_daemon.Prelude.Assoc.{lookup, insert}
use llvm_mca_daemon.Metadata.{InstrAddr, MemoryAccess}
use llvm_mca_daemon.Metadata.Registry.{get_memory_access_md}
use llvm_mca_daemon.Cache.{Level, load, store}
use llvm_mca_daemon.Cache.Valid.{AllValid}
use llvm_mca_daemon.Cache.Latency.{total_latency, load_bounds, store_total}
use llvm_mca_daemon.LoadStore.{
  LlvmUnit, MemInst, LsUnit, is_store, found_access, access_md, time_access, acquire_slots,
  dispatch,
}
use llvm_mca_daemon.LoadStore.Progress.{is_waiting_for_cache, cycle_event}
use llvm_mca_daemon.LoadStore.Groups.{Held, IsValid}
use llvm_mca_daemon.LoadStore.Dispatch.{dispatch_store_lem, dispatch_load_lem}

-- A cache that answers: none at all, or valid levels whose latencies fit.
abbrev pub Answers : Option Level → Type 0
Answers none = Unit {0}
Answers (some c) = AllValid c × (total_latency c < 4294967296)

module _ (llvm : LlvmUnit) where
  access_returns :
      (b : Bool) (c : Level) (ia : InstrAddr)
      → Answers (some c)
      → (r : ℕ × Level) × ((if b then store c ia else load c ia) ≡ some r)
  access_returns true c ia (v, f) =
      let (c', e, k) = store_total c ia v f in ((total_latency c, c'), e)
  access_returns false c ia (v, f) = let (r, e, k, lo, hi) = load_bounds c ia v f in (r, e)

  -- The step with the cache changes no group.
  time_access_lem :
      (cache : Option Level) (mda : Option MemoryAccess) (inst : MemInst) (u : LsUnit llvm)
      → Answers cache
      → IsValid llvm u
      → (u' : LsUnit llvm) × (time_access llvm cache mda inst u ≡ some u')
        × IsValid llvm u'
        × (u'.next_custom_group ≡ u.next_custom_group)
  unfolding time_access
  time_access_lem (some c) (some a) inst u h v =
      let (r, e) =
        access_returns (is_store llvm inst (some a)) c (record { addr = a.addr; size = 0 }) h in
      (
        record u {
          cache = some r.1;
          ongoing_requests = insert a.addr (u64 (u.clock + u32 r.0)) u.ongoing_requests;
        },
        rw e refl,
        record {
          load_current = v.load_current;
          load_barrier_current = v.load_barrier_current;
          store_current = v.store_current;
          store_barrier_current = v.store_barrier_current;
          next_pos = v.next_pos;
          fresh = v.fresh;
        },
        refl,
      )
  time_access_lem (some c) none inst u h v = (u, refl, v, refl)
  time_access_lem none mda inst u h v = (u, refl, v, refl)

  acquire_slots_lem :
      (inst : MemInst) (mda : Option MemoryAccess) (u : LsUnit llvm)
      → IsValid llvm u
      → IsValid llvm (acquire_slots llvm inst mda u)
        × ((acquire_slots llvm inst mda u).next_custom_group ≡ u.next_custom_group)
  unfolding acquire_slots
  acquire_slots_lem inst mda u v = (
    record {
      load_current = v.load_current;
      load_barrier_current = v.load_barrier_current;
      store_current = v.store_current;
      store_barrier_current = v.store_barrier_current;
      next_pos = v.next_pos;
      fresh = v.fresh;
    },
    refl,
  )

  -- `dispatch` returns on a valid unit whose next identifier does not wrap and whose cache, if any,
  -- is valid with latencies below 2 ^ 32, for an instruction that loads or stores and whose
  -- metadata, if any, is of the right type: no assertion fails and no group that it looks up is
  -- missing. The group that it returns is there, and the unit is valid after it.
  pub dispatch_lem :
      (inst : MemInst) (u : LsUnit llvm) (mda : Option MemoryAccess)
      → (inst.may_load || inst.may_store) ≡ true
      → IsValid llvm u
      → u.next_custom_group + 1 < 4294967296
      → Answers u.cache
      → found_access llvm (get_memory_access_md inst.identifier u.registry).1 ≡ some mda
      → (id : ℕ) × (u' : LsUnit llvm) × (dispatch llvm inst u ≡ some (id, u'))
        × IsValid llvm u'
        × Held llvm id u'.custom_groups
  unfolding dispatch access_md
  dispatch_lem inst u mda memory v room answers found =
      let r = get_memory_access_md inst.identifier u.registry in
      let u1 : LsUnit llvm = record u { registry = r.0 } in
      let v1 : IsValid llvm u1 = record {
        load_current = v.load_current;
        load_barrier_current = v.load_barrier_current;
        store_current = v.store_current;
        store_barrier_current = v.store_barrier_current;
        next_pos = v.next_pos;
        fresh = v.fresh;
      } in
      let (u2, timed, v2, next2) = time_access_lem u.cache mda inst u1 answers v1 in
      let u3 = acquire_slots llvm inst mda u2 in
      let (v3, next3) = acquire_slots_lem inst mda u2 v2 in
      elim (Bool-cases (is_store llvm inst mda)) [
        | inl s ↦
            let (u4, e, v4, h, cur, nxt) =
              dispatch_store_lem llvm inst mda u3 v3 (omega (arith, next2, next3)) in
            (
              u3.next_custom_group,
              u4,
              rw (found, timed, s) (asserted-true (inst.may_load || inst.may_store) memory e),
              v4,
              h,
            )
        | inr l ↦
            let (id, u4, e, v4, h, cur) =
              dispatch_load_lem llvm inst mda u3 (only_load mda memory l) v3
                (omega (arith, next2, next3)) in
            (
              id,
              u4,
              rw (found, timed, l) (asserted-true (inst.may_load || inst.may_store) memory e),
              v4,
              h,
            )
      ]
    where
      only_load :
          (m : Option MemoryAccess)
          → (inst.may_load || inst.may_store) ≡ true
          → is_store llvm inst m ≡ false
          → inst.may_load ≡ true
      only_load none h n = ground (arith, h, n)
      only_load (some a) h n = ground (arith, h, n)

  -- A number of calls of `cycleEvent`.
  abbrev pub cycle_all : ℕ → LsUnit llvm → LsUnit llvm
  cycle_all zero u = u
  cycle_all (suc k) u = cycle_all k (cycle_event llvm u)

  waiting_lem :
      (u : LsUnit llvm) (a : MemoryAccess) (c : Level) (n : ℕ)
      → u.clock + n < 18446744073709551616
      → n < 2147483648
      → lookup a.addr u.ongoing_requests ≡ some (u.clock + n)
      → is_waiting_for_cache llvm (some c) (some a) u ≡ ltb 0 n
  unfolding is_waiting_for_cache
  waiting_lem u a c n fit small at = rw (at, is_waiting_for_cache) (ground arith)

  -- An instruction whose request is due in `n` cycles, `n` below 2 ^ 31 and the clock not wrapping
  -- until then, waits for the cache after `k` of these cycles exactly if `k` is less than `n`.
  pub waits_for_latency :
      (k : ℕ) (u : LsUnit llvm) (a : MemoryAccess) (c : Level) (n : ℕ)
      → u.clock + n < 18446744073709551616
      → n < 2147483648
      → k ≤ n
      → lookup a.addr u.ongoing_requests ≡ some (u.clock + n)
      → is_waiting_for_cache llvm (some c) (some a) (cycle_all k u) ≡ ltb k n
  unfolding cycle_event
  waits_for_latency zero u a c n fit small le at = waiting_lem u a c n fit small at
  waits_for_latency (suc k) u a c n fit small le at =
      waits_for_latency k (cycle_event llvm u) a c (n - 1) (omega arith) (omega arith) (omega arith)
        (at ∙ ap some (omega arith))
      ∙ (ground arith)
