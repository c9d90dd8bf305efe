-- ===== src/Worker.antt =====
-- MCAWorker.cpp: `MCAWorker::run`, which takes batches of instructions from the broker, hands them
-- to the source manager, runs the pipeline and prints a report at the end of each region.
pub mod Stream
pub mod Batch
pub mod Reports
pub mod Rounds
pub mod Ends
pub mod File
mod Tests
pub mod Recycle
use llvm_mca_daemon.Prelude.{
  ℕ, ◌+◌, ◌/◌, ◌%◌, ◌≡◌, Bool, true, false, not, ◌&&◌, ◌||◌, Option, none, some, List, [], ◌∷◌,
  ◌++◌, take, u64, ◌==◌, if◌then◌else◌,
}
use llvm_mca_daemon.Prelude.Assoc.{Assoc, lookup}
use llvm_mca_daemon.Brokers.{RegionDescriptor}

-- `createInstruction`: an instruction, one that was used before, or an error.
pub data Created (Instr Error : Type 0) : Type 0 where
  new_inst : Instr → Created Instr Error
  recycled_inst : Instr → Created Instr Error
  create_error : Error → Created Instr Error

-- `Pipeline::run`: to the end, until the source manager has no more instructions for now, or an
-- error.
pub data Ran (Error : Type 0) : Type 0 where
  ran : Ran Error
  paused : Ran Error
  run_error : Error → Ran Error

-- The objects of LLVM that the worker works with: the instruction builder, the source manager and
-- the pipeline, of one state.
pub record Engine (Mc Error : Type 0) : Type 1 where
  pub State : Type 0
  pub Instr : Type 0
  pub is_return : Mc → Bool
  pub is_call : Mc → Bool
  pub create_instruction : Mc → State → Created Instr Error × State
  pub set_identifier : ℕ → Instr → Instr
  pub add_inst : Instr → State → State
  pub add_recycled_inst : Instr → State → State
  pub end_of_stream : State → State
  pub run_engine : State → Ran Error × State
  pub clear : State → State

-- The options of the command line and the features of the broker.
pub record WorkerOptions : Type 0 where
  pub preserve_return_inst : Bool
  pub preserve_call_inst : Bool
  pub use_region : Bool
  pub use_signal_instruction_error : Bool
  pub support_metadata : Bool

-- `hasFeature` for the three features, the bits 0, 1 and 2.
abbrev pub options_for : Bool → Bool → ℕ → WorkerOptions
options_for preserve_return preserve_call features = record {
  preserve_return_inst = preserve_return;
  preserve_call_inst = preserve_call;
  use_region = features % 2 == 1;
  use_signal_instruction_error = features / 4 % 2 == 1;
  support_metadata = features / 2 % 2 == 1;
}

-- What a call of `fetch` or `fetchRegion` gives: the count, `none` for -1, the instructions in the
-- buffer, the descriptor and the index map of the metadata.
pub record Answer (Mc Text : Type 0) : Type 0 where
  pub count : Option ℕ
  pub insts : List Mc
  pub region : RegionDescriptor Text
  pub index_map : Assoc ℕ

-- The text above a report: none, that of the region, or its number.
pub data Title (Text : Type 0) : Type 0 where
  untitled : Title Text
  described : Text → Title Text
  numbered : ℕ → Title Text

-- How `run` ends. Where the broker has no answer, it waits.
pub data Outcome (Error : Type 0) : Type 0 where
  finished : Outcome Error
  stopped : Error → Outcome Error
  waits : Outcome Error

-- `description.empty()`
abbrev pub title_of : {Text : Type 0} → Bool → RegionDescriptor Text → ℕ → Title Text
title_of false region idx = untitled
title_of true region idx = elim (region.description) [ none ↦ numbered idx | some t ↦ described t ]

abbrev pub next_region : {Text : Type 0} → Bool → RegionDescriptor Text → ℕ → ℕ
next_region false region idx = idx
next_region true region idx = elim (region.description) [ none ↦ u64 (idx + 1) | some t ↦ idx ]

-- The instructions of an answer: `take_front(Len)`, with 0 for a negative count.
abbrev pub batch_insts : {Mc Text : Type 0} → Answer Mc Text → List Mc
batch_insts a = elim (a.count) [ none ↦ [] | some n ↦ take n a.insts ]

abbrev pub is_last : {Mc Text : Type 0} → Answer Mc Text → Bool
is_last a = elim (a.count) [ none ↦ true | some n ↦ false ]

-- `Len < 0 || RD`; a broker without regions leaves the descriptor as it is.
abbrev pub ends_region : {Mc Text : Type 0} → WorkerOptions → Answer Mc Text → Bool
ends_region o a = is_last a || (o.use_region && a.region.is_end)

module _ {Mc Error : Type 0} (E : Engine Mc Error) (Text : Type 0) where
  -- What the worker sends out: a report on the state of the pipeline, and the signals to the broker.
  pub data Event : Type 0 where
    report : Title Text → E.State → Event
    instruction_error : ℕ → Error → Event
    worker_complete : Event

  pub record WorkerState : Type 0 where
    pub num_trace_mis : ℕ
    pub region_idx : ℕ
    pub engine : E.State
    pub events : List Event

  abbrev pub is_skipped : WorkerOptions → Mc → Bool
  is_skipped o m =
      (not o.preserve_return_inst && E.is_return m) || (not o.preserve_call_inst && E.is_call m)

  abbrev pub identified : WorkerOptions → Assoc ℕ → ℕ → E.Instr → E.Instr
  identified o index_map i x =
      if o.support_metadata
      then (elim (lookup i index_map) [ none ↦ x | some t ↦ E.set_identifier t x ])
      else x

  abbrev pub add_created :
      WorkerOptions → Assoc ℕ → ℕ → Created E.Instr Error × E.State → WorkerState → WorkerState
  add_created o index_map i (new_inst x, s) w = record w {
    num_trace_mis = u64 (w.num_trace_mis + 1);
    engine = E.add_inst (identified o index_map i x) s;
  }
  add_created o index_map i (recycled_inst x, s) w = record w {
    num_trace_mis = u64 (w.num_trace_mis + 1);
    engine = E.add_recycled_inst (identified o index_map i x) s;
  }
  add_created o index_map i (create_error e, s) w = record w {
    engine = s;
    events =
        if o.use_signal_instruction_error
        then w.events ++ (instruction_error i e ∷ [])
        else w.events;
  }

  -- The loop that converts a batch, from the index `i` on.
  unfoldable pub add_batch : WorkerOptions → Assoc ℕ → ℕ → List Mc → WorkerState → WorkerState
  add_batch o index_map i [] w = w
  add_batch o index_map i (m ∷ ms) w =
      add_batch o index_map (i + 1) ms (
        if is_skipped o m then w else add_created o index_map i (E.create_instruction m w.engine) w)

  -- `runPipeline`: a pause is no error.
  abbrev pub run_pipeline : WorkerState → Option Error × WorkerState
  run_pipeline w =
      let r = E.run_engine w.engine in
      (elim (r.0) [ ran ↦ none | paused ↦ none | run_error e ↦ some e ], record w { engine = r.1 })

  -- A round of the inner loop, after the broker's answer.
  unfoldable pub take_answer :
      WorkerOptions → Answer Mc Text → WorkerState → Option Error × WorkerState
  unfolding add_batch
  take_answer o a w =
      let w1 : WorkerState =
        if ends_region o a then record w { engine = E.end_of_stream w.engine } else w in
      let w2 = add_batch o a.index_map 0 (batch_insts a) w1 in
      if w2.num_trace_mis == 0 then (none, w2) else run_pipeline w2

  -- `printMCA`, which prints nothing where there was no instruction.
  abbrev pub print_mca : Title Text → WorkerState → WorkerState
  print_mca title w =
      if w.num_trace_mis == 0
      then w
      else record w { events = w.events ++ (report title w.engine ∷ []) }

  abbrev pub reset_pipeline : WorkerState → WorkerState
  reset_pipeline w = record w { num_trace_mis = 0; engine = E.clear w.engine }

  -- The end of a region. After the last one the pipeline stays as it is.
  unfoldable pub finish_region : WorkerOptions → Answer Mc Text → WorkerState → WorkerState
  finish_region o a w =
      let w1 = print_mca (title_of o.use_region a.region w.region_idx) w in
      let w2 : WorkerState = record w1 {
        region_idx = next_region o.use_region a.region w.region_idx;
        events = w1.events ++ (worker_complete ∷ []);
      } in
      if not (is_last a) && o.use_region then reset_pipeline w2 else w2

  unfoldable pub run :
      WorkerOptions → List (Answer Mc Text) → WorkerState → Outcome Error × WorkerState
  unfolding take_answer finish_region
  run o [] w = (waits, w)
  run o (a ∷ answers) w =
      let r = take_answer o a w in
      let w' = if ends_region o a then finish_region o a r.1 else r.1 in
      elim (r.0) [
        | some e ↦ (stopped e, r.1)
        | none ↦ elim (is_last a) [ true ↦ (finished, w') | false ↦ run o answers w' ]
      ]
