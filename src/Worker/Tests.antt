-- ===== src/Worker/Tests.antt =====
-- A worker on two regions that come in three batches.
use llvm_mca_daemon.Prelude.{
  ℕ, zero, suc, ◌≡◌, refl, true, false, Option, none, some, List, [], ◌∷◌, ◌++◌, arith, ◌==◌,
  if◌then◌else◌, inl, inr, ◌⊎◌,
}
use llvm_mca_daemon.Prelude.Assoc.{Assoc, lookup}
use llvm_mca_daemon.Worker.{
  Created, new_inst, recycled_inst, create_error, paused, run_error, Engine, WorkerOptions, Answer,
  finished, described, numbered, WorkerState, run,
}
use llvm_mca_daemon.Worker.Stream.{Traced, reported, failed_at, completed, expected, flat}
use llvm_mca_daemon.Worker.Batch.{log}
use llvm_mca_daemon.Brokers.AsmFile.{AsmFileBroker, new_broker, parse_regions, parse_if_needed}
use llvm_mca_daemon.Brokers.AsmFile.Stream.{stream}
use llvm_mca_daemon.Worker.File.{file_answers, file_options, file_log}
use llvm_mca_daemon.Worker.File.Reports.{file_reports}
use llvm_mca_daemon.Worker.Recycle.{
  IsPool, Recycled, add_recycled_inst, get_recycled_inst, add_recycled_inst_lem,
  get_recycled_inst_lem,
}
use llvm_mca_daemon.Worker.Reports.{run_lem}

-- An engine that keeps a list. The instruction 0 cannot be created, 5 was used before.
abbrev build : ℕ → Created (ℕ × Option ℕ) ℕ
build zero = create_error 7
build (suc m) = if m == 4 then recycled_inst (suc m, none) else new_inst (suc m, none)

abbrev engine : Engine ℕ ℕ
engine = record {
  State = List (ℕ × Option ℕ);
  Instr = ℕ × Option ℕ;
  is_return = λ m. m == 8;
  is_call = λ m. m == 9;
  create_instruction = λ m s. (build m, s);
  set_identifier = λ t x. (x.0, some t);
  add_inst = λ x s. s ++ (x ∷ []);
  add_recycled_inst = λ x s. s ++ (x ∷ []);
  end_of_stream = λ s. s;
  run_engine = λ s. (paused, s);
  clear = λ s. [];
}

abbrev error_of : ℕ → Option ℕ
error_of zero = some 7
error_of (suc m) = none

build-made :
    (m : ℕ) (x : ℕ × Option ℕ)
    → ((build m ≡ new_inst x) ⊎ (build m ≡ recycled_inst x))
    → (x.0 ≡ m) × (error_of m ≡ none)
build-made zero x (inl e) = cc
build-made zero x (inr e) = cc
build-made (suc m) x (inl e) = ground (arith, e)
build-made (suc m) x (inr e) = ground (arith, e)

build-error : (m e : ℕ) → build m ≡ create_error e → error_of m ≡ some e
build-error zero e h = cc
build-error (suc m) e h = ground (arith, h)

paused-fine : (e : ℕ) → ¬ (paused ≡ run_error e)
paused-fine e h = cc

abbrev traced : Traced engine
traced = record {
  seen = λ s. s;
  source = λ x. x.0;
  identifier = λ x. x.1;
  failure = error_of;
  source-set_identifier = λ t x. refl;
  identifier-set_identifier = λ t x. refl;
  seen-create = λ m s. refl;
  creates = λ m s x h. build-made m x h;
  fails = λ m s e h. build-error m e h;
  seen-add = λ x s. refl;
  seen-add_recycled = λ x s. refl;
  seen-end = λ s. refl;
  seen-run = λ s. refl;
  seen-clear = λ s. refl;
  runs = λ s e. paused-fine e;
}

abbrev options : WorkerOptions
options = record {
  preserve_return_inst = false;
  preserve_call_inst = true;
  use_region = true;
  use_signal_instruction_error = true;
  support_metadata = true;
}

abbrev answers : List (Answer ℕ ℕ)
answers =
    record {
      count = some 3;
      insts = 3 ∷ 0 ∷ 8 ∷ [];
      region = record { is_end = false; description = none };
      index_map = (0, 10) ∷ (1, 11) ∷ (2, 12) ∷ [];
    }
    ∷ record {
      count = some 1;
      insts = 5 ∷ [];
      region = record { is_end = true; description = some 20 };
      index_map = (0, 13) ∷ [];
    }
    ∷ record {
      count = none;
      insts = [];
      region = record { is_end = true; description = none };
      index_map = [];
    }
    ∷ []

abbrev start : WorkerState engine ℕ
start = record { num_trace_mis = 0; region_idx = 0; engine = []; events = [] }

run_lem_example :
    (w' : WorkerState engine ℕ) × (run engine ℕ options answers start ≡ (finished, w'))
    × (log engine traced ℕ options w'
        ≡ expected engine traced ℕ options 0 [] (flat options answers))
unfolding lookup
run_lem_example =
    run_lem engine traced ℕ options answers start (inr (inr (inl refl)))
      (
        ((λ h. (10, refl)), ((λ h. (11, refl)), ((λ h. (12, refl)), tt))),
        (((λ h. (13, refl)), tt), (tt, tt)),
      )
      refl (omega arith)

expected-answers :
    expected engine traced ℕ options 0 [] (flat options answers)
    ≡ failed_at 1 7
      ∷ reported (described 20) ((3, some 10) ∷ (5, some 13) ∷ [])
      ∷ completed
      ∷ completed
      ∷ []
unfolding lookup
expected-answers = refl

abbrev file : AsmFileBroker ℕ ℕ
file = new_broker ℕ ℕ (
    some (
      record { instructions = 3 ∷ 0 ∷ 8 ∷ []; description = none }
      ∷ record { instructions = []; description = some 21 }
      ∷ record { instructions = 5 ∷ []; description = some 22 }
      ∷ []))

file_reports_example :
    (w' : WorkerState engine ℕ) × (run engine ℕ
        (file_options ℕ ℕ false true)
        (file_answers 2 5 file)
        start
      ≡ (finished, w'))
    × (log engine traced ℕ (file_options ℕ ℕ false true) w'
        ≡ file_log engine traced ℕ false true 0 [] (stream ℕ ℕ file))
unfolding new_broker parse_if_needed parse_regions
file_reports_example =
    file_reports engine traced ℕ false true 1 5 file start (omega arith) refl refl (omega arith)
      (omega arith)

file_log-file :
    file_log engine traced ℕ false true 0 [] (stream ℕ ℕ file)
    ≡ reported (numbered 0) ((3, none) ∷ [])
      ∷ completed
      ∷ reported (described 22) ((5, none) ∷ [])
      ∷ completed
      ∷ completed
      ∷ []
unfolding new_broker parse_if_needed parse_regions
file_log-file = refl

abbrev pool : Assoc (List ℕ)
pool = add_recycled_inst 4 1 (add_recycled_inst 4 3 (add_recycled_inst 7 2 []))

nothing-IsPool : IsPool []
unfolding lookup
nothing-IsPool d = tt

get_recycled_inst_lem_example : Recycled 4 pool (get_recycled_inst 4 pool)
get_recycled_inst_lem_example =
    get_recycled_inst_lem 4 pool
      (add_recycled_inst_lem 4 1 _
        (add_recycled_inst_lem 4 3 _ (add_recycled_inst_lem 7 2 [] nothing-IsPool).0).0).0
