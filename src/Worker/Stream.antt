-- ===== src/Worker/Stream.antt =====
-- What `MCAWorker::run` is to do: a report on each region of the stream of instructions that the
-- answers of the broker add up to.
use llvm_mca_daemon.Prelude.{
  ℕ, suc, ◌+◌, ◌≡◌, ◌⊎◌, true, false, Option, none, some, List, [], ◌∷◌, ◌++◌, map, length,
  if◌then◌else◌,
}
use llvm_mca_daemon.Prelude.Assoc.{Assoc, lookup}
use llvm_mca_daemon.Brokers.{RegionDescriptor}
use llvm_mca_daemon.Worker.{
  new_inst, recycled_inst, create_error, run_error, Engine, WorkerOptions, Answer, Title, title_of,
  next_region, batch_insts, is_last, ends_region, Event, report, instruction_error, worker_complete,
  is_skipped,
}

-- What is relied on: an engine keeps what it was given since it was cleared, in order; whether an
-- instruction can be created depends on the instruction alone; the pipeline runs without an error.
pub record Traced {Mc Error : Type 0} (E : Engine Mc Error) : Type 0 where
  pub seen : E.State → List E.Instr
  pub source : E.Instr → Mc
  pub identifier : E.Instr → Option ℕ
  pub failure : Mc → Option Error
  pub source-set_identifier : (t : ℕ) (x : E.Instr) → source (E.set_identifier t x) ≡ source x
  pub identifier-set_identifier : (t : ℕ) (x : E.Instr) → identifier (E.set_identifier t x) ≡ some t
  pub seen-create : (m : Mc) (s : E.State) → seen (E.create_instruction m s).1 ≡ seen s
  pub creates :
      (m : Mc) (s : E.State) (x : E.Instr)
      → (((E.create_instruction m s).0 ≡ new_inst x)
          ⊎ ((E.create_instruction m s).0 ≡ recycled_inst x))
      → (source x ≡ m) × (failure m ≡ none)
  pub fails :
      (m : Mc) (s : E.State) (e : Error)
      → (E.create_instruction m s).0 ≡ create_error e
      → failure m ≡ some e
  pub seen-add : (x : E.Instr) (s : E.State) → seen (E.add_inst x s) ≡ seen s ++ (x ∷ [])
  pub seen-add_recycled :
      (x : E.Instr) (s : E.State) → seen (E.add_recycled_inst x s) ≡ seen s ++ (x ∷ [])
  pub seen-end : (s : E.State) → seen (E.end_of_stream s) ≡ seen s
  pub seen-run : (s : E.State) → seen (E.run_engine s).1 ≡ seen s
  pub seen-clear : (s : E.State) → seen (E.clear s) ≡ []
  pub runs : (s : E.State) (e : Error) → ¬ ((E.run_engine s).0 ≡ run_error e)

-- The stream: instructions with their places in their batches and their identifiers, and ends of
-- regions.
pub data Item (Mc Text : Type 0) : Type 0 where
  instr : ℕ → Mc → Option ℕ → Item Mc Text
  region_end : RegionDescriptor Text → Item Mc Text

abbrev pub instr_count : {Mc Text : Type 0} → List (Item Mc Text) → ℕ
instr_count [] = 0
instr_count (instr i m t ∷ items) = suc (instr_count items)
instr_count (region_end region ∷ items) = instr_count items

-- What is to be seen of the worker: the reports with the instructions that they are on, and the
-- signals.
pub data Observed (Mc Error Text : Type 0) : Type 0 where
  reported : Title Text → List (Mc × Option ℕ) → Observed Mc Error Text
  failed_at : ℕ → Error → Observed Mc Error Text
  completed : Observed Mc Error Text

module _ (o : WorkerOptions) where
  abbrev pub token_of : Assoc ℕ → ℕ → Option ℕ
  token_of index_map i = if o.support_metadata then lookup i index_map else none

module _ {Mc : Type 0} (o : WorkerOptions) where
  -- With metadata, the index map knows each instruction of a batch.
  abbrev pub Covers : Assoc ℕ → ℕ → List Mc → Type 0
  Covers index_map i [] = Unit
  Covers index_map i (m ∷ ms) =
      ((o.support_metadata ≡ true) → (t : ℕ) × (lookup i index_map ≡ some t))
      × Covers index_map (i + 1) ms

module _ {Mc Text : Type 0} (o : WorkerOptions) where
  abbrev pub items_of : Assoc ℕ → ℕ → List Mc → List (Item Mc Text)
  items_of index_map i [] = []
  items_of index_map i (m ∷ ms) = instr i m (token_of o index_map i) ∷ items_of index_map (i + 1) ms

  abbrev pub end_items : Answer Mc Text → List (Item Mc Text)
  end_items a = if ends_region o a then region_end (a.region) ∷ [] else []

  -- All answers up to the last one.
  abbrev pub flat : List (Answer Mc Text) → List (Item Mc Text)
  flat [] = []
  flat (a ∷ answers) =
      items_of a.index_map 0 (batch_insts a)
      ++ (end_items a ++ elim (is_last a) [ true ↦ [] | false ↦ flat answers ])

  abbrev pub HasLast : List (Answer Mc Text) → Type 0
  HasLast [] = ⊥
  HasLast (a ∷ answers) = (is_last a ≡ true) ⊎ HasLast answers

  abbrev pub AllCover : List (Answer Mc Text) → Type 0
  AllCover [] = Unit
  AllCover (a ∷ answers) = Covers o a.index_map 0 (batch_insts a) × AllCover answers

  abbrev pub total : List (Answer Mc Text) → ℕ
  total [] = 0
  total (a ∷ answers) = length (batch_insts a) + total answers

module _ {Mc Error : Type 0} (E : Engine Mc Error) (T : Traced E) (Text : Type 0)
    (o : WorkerOptions) where
  -- A report on no instruction is left out.
  abbrev pub report_of : Title Text → List (Mc × Option ℕ) → List (Observed Mc Error Text)
  report_of title [] = []
  report_of title (x ∷ xs) = reported title (x ∷ xs) ∷ []

  abbrev pub errors_of : ℕ → Error → List (Observed Mc Error Text)
  errors_of i e = if o.use_signal_instruction_error then failed_at i e ∷ [] else []

  -- What is to be seen of a stream, with the instructions of the region before it and the number of
  -- regions without a name.
  abbrev pub expected :
      ℕ → List (Mc × Option ℕ) → List (Item Mc Text) → List (Observed Mc Error Text)
  expected idx before [] = []
  expected idx before (instr i m t ∷ items) = elim (is_skipped E Text o m) [
    | true ↦ expected idx before items
    | false ↦ elim (T.failure m) [
      | none ↦ expected idx (before ++ ((m, t) ∷ [])) items
      | some e ↦ errors_of i e ++ expected idx before items
    ]
  ]
  expected idx before (region_end region ∷ items) =
      report_of (title_of o.use_region region idx) before
      ++ (completed ∷ expected (next_region o.use_region region idx) [] items)

  abbrev pub named : E.Instr → Mc × Option ℕ
  named x = (T.source x, if o.support_metadata then T.identifier x else none)

  abbrev pub names : E.State → List (Mc × Option ℕ)
  names s = map named (T.seen s)

  abbrev pub observe : Event E Text → Observed Mc Error Text
  observe (report title s) = reported title (names s)
  observe (instruction_error i e) = failed_at i e
  observe worker_complete = completed
