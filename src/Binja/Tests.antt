-- ===== src/Binja/Tests.antt =====
-- A request with an instruction that does not disassemble, and one more behind it.
use llvm_mca_daemon.Prelude.{
  ℕ, ◌≡◌, refl, true, false, Option, none, some, List, [], ◌∷◌, arith, ◌==◌, if◌then◌else◌,
}
use llvm_mca_daemon.Prelude.Assoc.{lookup, insert}
use llvm_mca_daemon.Binja.{BinjaBroker, RawListener, fetched, on_instruction_event, on_cycle_end}
use llvm_mca_daemon.Binja.Jam.{AllRefused, bad_request_jams}

-- A byte 0 is no instruction.
abbrev decode : List ℕ → Option ℕ
decode [] = none
decode (b ∷ bs) = if b == 0 then none else some b

abbrev listener : RawListener
listener = record { current_cycle = 0; count_store = [] }

abbrev idle : BinjaBroker ℕ ℕ decode 7
idle = record {
  running = true;
  insn_queue = [];
  is_waiting_for_worker = false;
  done_handling_input = true;
  listener = listener;
  instruction_errors = [];
  local_mcis = [];
}

abbrev requests : List (List (List ℕ))
requests = ((1 ∷ []) ∷ (0 ∷ []) ∷ (2 ∷ []) ∷ []) ∷ ((3 ∷ []) ∷ []) ∷ []

bad_request_jams_example : AllRefused ℕ ℕ decode 7 4 requests idle
bad_request_jams_example =
    bad_request_jams ℕ ℕ decode 7 4 ((1 ∷ []) ∷ []) (0 ∷ []) ((2 ∷ []) ∷ []) (((3 ∷ []) ∷ []) ∷ [])
      idle (record { runs = refl; no_errors = refl }) refl ((1, refl), tt) refl (omega arith)
      (omega arith) ((omega arith), tt)

-- The event of a fetch sets the cycle of the execution too.
fetched-listener :
    lookup 3 (on_instruction_event 3 fetched (on_cycle_end listener)).count_store
    ≡ some (record { cycle_ready = 1; cycle_executed = 1; is_under_pressure = false })
unfolding on_instruction_event lookup insert
fetched-listener = refl
