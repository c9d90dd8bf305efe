-- ===== src/FetchDelay/Tests.antt =====
-- The stage before a stage that takes every instruction, with the naive predictor.
use llvm_mca_daemon.Prelude.{
  ℕ, ◌≡◌, refl, true, Option, none, some, List, [], ◌∷◌, ◌++◌, arith, ltb, ◌==◌,
}
use llvm_mca_daemon.Prelude.Assoc.{lookup}
use llvm_mca_daemon.Statistics.{zero_count}
use llvm_mca_daemon.Metadata.{InstrAddr, instr_addr}
use llvm_mca_daemon.Metadata.Registry.{
  touch, grow, create, entries, peek, get_entry, get_md_instr_addr,
}
use llvm_mca_daemon.Branch.{not_taken}
use llvm_mca_daemon.Branch.Naive.{new_naive, naive_predictor}
use llvm_mca_daemon.FetchDelay.{
  NextStage, DelayedInstr, FetchStage, has_work_to_complete, enqueue, execute, count_down,
  cycle_start,
}
use llvm_mca_daemon.FetchDelay.Delay.{Enqueued, enqueue_lem}
use llvm_mca_daemon.FetchDelay.Order.{Moved, Halted, execute_in_order, cycle_start_in_order}
use llvm_mca_daemon.FetchDelay.Drain.{total_delay, cycles, cycles_drain}

-- An instruction is its identifier, and the next stage collects what it takes.
abbrev sink : NextStage
sink = record {
  State = List ℕ;
  Ir = ℕ;
  Error = ℕ;
  identifier = λ i. some i;
  is_branch = λ i. i == 1;
  check = λ b i. true;
  move = λ b i. (i ∷ b, none);
}

-- The instruction before was at 96 and was predicted as not taken; the instruction 7 is at 200.
abbrev stage : FetchStage sink naive_predictor
stage = record {
  instr_queue = record { delay_cycles_left = 2; ir = 5 } ∷ [];
  predictor = some (new_naive 0 20 8);
  registry = none ∷ none ∷ some ((7, instr_addr (record { addr = 200; size = 4 })) ∷ []) ∷ [];
  predicted_direction = some not_taken;
  previous_addr = some (record { addr = 96; size = 4 });
  max_stall = some 15;
  cache = none;
  stats = record {
    num_skipped_delay_cycles = zero_count;
    num_branches = zero_count;
    num_mispredictions = zero_count;
    num_instr_load_cycles = zero_count;
  };
  enable_branch_predictor = true;
  behind = [];
}

abbrev address : Option InstrAddr
address = some (record { addr = 200; size = 4 })

-- A misprediction: a penalty of 20 cycles, of which 15 are simulated.
enqueue_lem_example :
    (s' : FetchStage sink naive_predictor) × (enqueue sink naive_predictor stage 7 ≡ some s')
    × Enqueued sink naive_predictor stage 7 address 0 (some true) s'
unfolding get_md_instr_addr get_entry touch grow create peek entries lookup
enqueue_lem_example = enqueue_lem sink naive_predictor stage 7 address 0 refl refl

execute_in_order_example :
    (s' : FetchStage sink naive_predictor) × (e : Option ℕ) × (d : DelayedInstr sink
      naive_predictor)
    × (sent : List (DelayedInstr sink naive_predictor)) × (mid : List ℕ) × (execute sink
          naive_predictor stage 7
        ≡ some (s', e))
    × (d.ir ≡ 7)
    × (stage.instr_queue ++ (d ∷ []) ≡ sent ++ s'.instr_queue)
    × Moved sink naive_predictor [] sent mid
    × Halted sink naive_predictor mid s'.instr_queue s'.behind e
unfolding get_md_instr_addr get_entry touch grow create peek entries lookup
execute_in_order_example = execute_in_order sink naive_predictor stage 7 address 0 refl refl

cycle_start_in_order_example :
    (sent : List (DelayedInstr sink naive_predictor)) × (mid : List ℕ) × (count_down sink
        naive_predictor stage.instr_queue
      ≡ sent ++ (cycle_start sink naive_predictor stage).0.instr_queue)
    × Moved sink naive_predictor [] sent mid
    × Halted sink naive_predictor mid
        (cycle_start sink naive_predictor stage).0.instr_queue
        (cycle_start sink naive_predictor stage).0.behind
        (cycle_start sink naive_predictor stage).1
cycle_start_in_order_example = cycle_start_in_order sink naive_predictor stage

cycles_drain_example :
    has_work_to_complete sink naive_predictor (cycles sink naive_predictor 2 stage)
    ≡ ltb 2 (total_delay sink naive_predictor stage.instr_queue)
cycles_drain_example =
    cycles_drain sink naive_predictor (λ b ir. refl) (λ b ir. refl) 2 stage (omega arith)
