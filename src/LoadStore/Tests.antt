-- ===== src/LoadStore/Tests.antt =====
-- The unit over groups that count their instructions and those executed.
use llvm_mca_daemon.Prelude.{
  ℕ, ◌+◌, ◌-◌, ◌≤◌, ◌≡◌, inl, inr, refl, Bool, true, false, ◌||◌, none, some, List, [], ◌∷◌, arith,
  ltb, ◌==◌,
}
use llvm_mca_daemon.Prelude.Assoc.{lookup}
use llvm_mca_daemon.Metadata.{MemoryAccess, mem_access, access_equiv}
use llvm_mca_daemon.Metadata.Registry.{
  touch, grow, create, entries, peek, get_entry, get_memory_access_md,
}
use llvm_mca_daemon.Cache.{memory}
use llvm_mca_daemon.LoadStore.{LlvmUnit, MemInst, LsUnit, found_access, dispatch}
use llvm_mca_daemon.LoadStore.Progress.{is_waiting_for_cache, on_instruction_executed}
use llvm_mca_daemon.LoadStore.Groups.{Held, IsValid}
use llvm_mca_daemon.LoadStore.Executed.{on_instruction_executed-IsValid}
use llvm_mca_daemon.LoadStore.Requests.{dispatch_lem, cycle_all, waits_for_latency}

abbrev any_equiv : List MemoryAccess → MemoryAccess → Bool
any_equiv [] a = false
any_equiv (b ∷ bs) a = access_equiv a b || any_equiv bs a

abbrev counting : LlvmUnit
counting = record {
  MemoryGroup = ℕ × ℕ;
  new_group = (0, 0);
  add_instruction = λ g. (g.0 + 1, g.1);
  add_successor = λ p s b. (p, s);
  on_executed = λ g. (g.0, g.1 + 1);
  on_issued = λ g. g;
  is_pending = λ g. false;
  num_successors = λ g. 0;
  cycle_event = λ g. g;
  is_ready = λ g. true;
  is_waiting = λ g. false;
  is_executing = λ g. ltb 0 g.1;
  is_executed = λ g. g.0 == g.1;
  Slots = ℕ × ℕ;
  acquire_lq = λ s. (s.0 + 1, s.1);
  acquire_sq = λ s. (s.0, s.1 + 1);
  release_lq = λ s. (s.0 - 1, s.1);
  release_sq = λ s. (s.0, s.1 - 1);
  is_lq_full = λ s. false;
  is_sq_full = λ s. false;
  count = any_equiv;
}

abbrev word : MemoryAccess
word = record { is_store = true; addr = 64; size = 8; bundled = none }

-- A unit with one load group, the metadata of one access, and a request for it.
abbrev unit : LsUnit counting
unit = record {
  current_load = 1;
  current_load_barrier = 0;
  current_store = 0;
  current_store_barrier = 0;
  custom_groups = (1, record { group = (1, 0); accesses = word ∷ [] }) ∷ [];
  next_custom_group = 2;
  registry = some (some ((7, mem_access word) ∷ []) ∷ []);
  clock = 10;
  ongoing_requests = (64, 110) ∷ [];
  cache = some (memory 100);
  assume_no_alias = false;
  slots = (1, 0);
}

absent_above : (id : ℕ) → 2 ≤ id → (1 == id) ≡ false
absent_above id h = ground arith

unit-IsValid : IsValid counting unit
unfolding lookup
unit-IsValid = record {
  load_current = inr (record { group = (1, 0); accesses = word ∷ [] }, refl);
  load_barrier_current = inl refl;
  store_current = inl refl;
  store_barrier_current = inl refl;
  next_pos = omega arith;
  fresh = λ id h. rw (absent_above id h) refl;
}

abbrev store_inst : MemInst
store_inst = record {
  identifier = some 7;
  may_load = false;
  may_store = true;
  is_load_barrier = false;
  is_store_barrier = true;
  is_mem_op = true;
  token = 1;
}

dispatch_lem_example :
    (id : ℕ) × (u' : LsUnit counting) × (dispatch counting store_inst unit ≡ some (id, u'))
    × IsValid counting u'
    × Held counting id u'.custom_groups
unfolding get_memory_access_md get_entry touch grow create peek entries lookup found_access
dispatch_lem_example =
    dispatch_lem counting store_inst unit (some word) refl unit-IsValid (omega arith)
      (tt, omega arith) refl

on_instruction_executed-IsValid_example :
    (u' : LsUnit counting) × (on_instruction_executed counting store_inst unit ≡ some u')
    × IsValid counting u'
unfolding lookup
on_instruction_executed-IsValid_example =
    on_instruction_executed-IsValid counting store_inst unit unit-IsValid
      (record { group = (1, 0); accesses = word ∷ [] }, refl)

waits_for_latency_example :
    is_waiting_for_cache counting (some (memory 100)) (some word) (cycle_all counting 3 unit)
    ≡ ltb 3 100
unfolding lookup
waits_for_latency_example =
    waits_for_latency counting 3 unit word (memory 100) 100 (omega arith) (omega arith)
      (omega arith) refl
