-- ===== src/Binja.antt =====
-- plugins/binja-broker/Broker.cpp: the service that takes requests of a plugin of Binary Ninja, the
-- queue between it and the worker, and the listener that collects the cycles of each instruction.

pub mod Jam
mod Tests
use llvm_mca_daemon.Prelude.{
  ℕ, zero, suc, ◌+◌, Bool, true, false, not, Option, none, some, List, [], ◌∷◌, ◌++◌, ltb, u32,
  ◌==◌, if◌then◌else◌, length,
}
use llvm_mca_daemon.Prelude.Assoc.{Assoc, lookup, insert}
use llvm_mca_daemon.Qemu.{Run, returns, waits, faults, ◌>>=◌}

-- `InstructionEntry`
pub record InstructionEntry : Type 0 where
  pub cycle_ready : ℕ
  pub cycle_executed : ℕ
  pub is_under_pressure : Bool

abbrev pub empty_count : InstructionEntry
empty_count = record { cycle_ready = 0; cycle_executed = 0; is_under_pressure = false }

-- The status that a request is answered with.
pub data Status : Type 0 where
  ok unavailable invalid_argument : Status

-- The events of the pipeline that the listener looks at; `fetched` is `LastGenericEventType`.
pub data HwEvent : Type 0 where
  fetched executed other : HwEvent

-- `RawListener`, with the table of the bridge that it writes to.
pub record RawListener : Type 0 where
  pub current_cycle : ℕ
  pub count_store : Assoc InstructionEntry

abbrev pub entry_at : ℕ → Assoc InstructionEntry → InstructionEntry
entry_at i store = elim (lookup i store) [ none ↦ empty_count | some e ↦ e ]

-- The event on an instruction. The first case has no `break`.
unfoldable pub on_instruction_event : ℕ → HwEvent → RawListener → RawListener
on_instruction_event i fetched l = record l {
  count_store =
      insert i
        (record {
          cycle_ready = l.current_cycle;
          cycle_executed = l.current_cycle;
          is_under_pressure = (entry_at i l.count_store).is_under_pressure;
        })
        l.count_store;
}
on_instruction_event i executed l = record l {
  count_store =
      insert i
        (record {
          cycle_ready = (entry_at i l.count_store).cycle_ready;
          cycle_executed = l.current_cycle;
          is_under_pressure = (entry_at i l.count_store).is_under_pressure;
        })
        l.count_store;
}
on_instruction_event i other l = record l {
  count_store = insert i (entry_at i l.count_store) l.count_store;
}

unfoldable pub on_pressure_event : List ℕ → RawListener → RawListener
on_pressure_event [] l = l
on_pressure_event (i ∷ is) l = on_pressure_event is (record l {
  count_store =
      insert i
        (record {
          cycle_ready = (entry_at i l.count_store).cycle_ready;
          cycle_executed = (entry_at i l.count_store).cycle_executed;
          is_under_pressure = true;
        })
        l.count_store;
})

abbrev pub on_cycle_end : RawListener → RawListener
on_cycle_end l = record l { current_cycle = u32 (l.current_cycle + 1) }

-- The counts of the reply, for `n` instructions from an index on.
unfoldable pub counts_from : ℕ → ℕ → Assoc InstructionEntry → List InstructionEntry
counts_from i zero store = []
counts_from i (suc n) store = entry_at i store ∷ counts_from (i + 1) n store

-- The disassembler, which fails by `none`, and the error that the broker makes of that.
module _ (Inst Error : Type 0) (decode : List ℕ → Option Inst) (reported_fail : Error) where
  -- `BinjaBridge` and `BinjaBroker`; a queued instruction is its bytes.
  pub record BinjaBroker : Type 0 where
    pub running : Bool
    pub insn_queue : List (List ℕ)
    pub is_waiting_for_worker : Bool
    pub done_handling_input : Bool
    pub listener : RawListener
    pub instruction_errors : Assoc Error
    pub local_mcis : List Inst

  abbrev pub shutdown : BinjaBroker → BinjaBroker
  shutdown s = record s { running = false; done_handling_input = false }

  -- `RequestCycleCounts` up to its wait for the worker: a status that it returns at once, or `none`.
  unfoldable pub accept_request : Option (List (List ℕ)) → BinjaBroker → Option Status × BinjaBroker
  accept_request none s =
      if s.running then (some invalid_argument, shutdown s) else (some unavailable, s)
  accept_request (some []) s = if s.running then (some ok, shutdown s) else (some unavailable, s)
  accept_request (some (i ∷ is)) s =
      if s.running
      then (
        none,
        record s {
          insn_queue = s.insn_queue ++ (i ∷ is);
          done_handling_input = false;
          is_waiting_for_worker = true;
        },
      )
      else (some unavailable, s)

  -- The part after the wait, for a request of `n` instructions.
  unfoldable pub reply : ℕ → BinjaBroker → Status × List InstructionEntry × BinjaBroker
  unfolding counts_from
  reply n s =
      if length s.instruction_errors == 0
      then (ok, counts_from 0 n s.listener.count_store, record s { done_handling_input = true })
      else (invalid_argument, [], record s { instruction_errors = []; done_handling_input = true })

  abbrev pub signal_worker_complete : BinjaBroker → BinjaBroker
  signal_worker_complete s = record s { is_waiting_for_worker = false }

  -- `insert` of a `DenseMap`, which keeps an entry that is there.
  unfoldable pub signal_instruction_error : ℕ → Error → BinjaBroker → BinjaBroker
  signal_instruction_error i e s = elim (lookup i s.instruction_errors) [
    | none ↦ record s { instruction_errors = (i, e) ∷ s.instruction_errors }
    | some _ ↦ s
  ]

  -- The loop of `fetchRegion`: what was written to `MCIS`, what stays in the queue, and the index at
  -- which the disassembler failed. A write past the end of `MCIS` is a fault.
  unfoldable pub fetch_loop : ℕ → ℕ → List (List ℕ) → Run (List Inst × List (List ℕ) × Option ℕ)
  fetch_loop room i [] = returns ([], [], none)
  fetch_loop room i (insn ∷ queue) =
      let rest = fetch_loop room (u32 (i + 1)) queue in
      elim (decode insn) [
        | none ↦ returns ([], insn ∷ queue, some i)
        | some inst ↦
            (if ltb i room then (rest >>= λ r. returns (inst ∷ r.0, r.1, r.2)) else faults)
      ]

  abbrev pub signal_failure : Option ℕ → BinjaBroker → BinjaBroker
  signal_failure none s = s
  signal_failure (some i) s = signal_instruction_error i reported_fail s

  abbrev pub returned_count : ℕ → Option ℕ → ℕ
  returned_count queued none = queued
  returned_count queued (some i) = i

  -- `fetchRegion`: the number that it returns (`none` for -1), what was written to `MCIS` and the
  -- broker; the descriptor is an end of a region always. It computes a size that nothing reads.
  unfoldable pub fetch_region : ℕ → BinjaBroker → Run (Option ℕ × List Inst × BinjaBroker)
  unfolding fetch_loop signal_instruction_error
  fetch_region room s =
      if s.done_handling_input
      then waits
      else if not s.running
      then returns (none, [], s)
      else fetch_loop room 0 s.insn_queue >>= λ r. returns (
        some (returned_count (length s.insn_queue) r.2),
        r.0,
        signal_failure r.2 (record s { insn_queue = r.1; local_mcis = s.local_mcis ++ r.0 }),
      )
