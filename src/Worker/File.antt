-- ===== src/Worker/File.antt =====
-- The worker on the broker for assembly files: the answers that it gets, and what it is to report.
pub mod Answers
pub mod Reports
use llvm_mca_daemon.Prelude.{
  ℕ, asserted-true, zero, suc, ◌+◌, ◌<◌, ◌≤◌, ◌≡◌, refl, sym, ap, ap₂, subst, ◌∙◌, ◌⊎◌, inl, inr,
  Bool, true, false, min, Option, none, some, List, [], ◌∷◌, ◌++◌, map, Bool-cases, Option-cases,
  append_assoc, append-nil, arith, u64, length, take, drop, take-take, take-all, drop-all,
  take-append-drop, length-take, length-take-drop, leb, leb→le, if◌then◌else◌,
}
use llvm_mca_daemon.Prelude.Assoc.{Assoc, lookup}
use llvm_mca_daemon.Brokers.{RegionDescriptor, fits}
use llvm_mca_daemon.Brokers.AsmFile.{
  CodeRegion, AsmFileBroker, get_features, take_region, fetch_region,
}
use llvm_mca_daemon.Brokers.AsmFile.Stream.{put, stream, fetch-Step}
use llvm_mca_daemon.Worker.{
  Engine, WorkerOptions, options_for, Answer, Outcome, finished, Title, described, numbered,
  title_of, batch_insts, WorkerState, is_skipped, run,
}
use llvm_mca_daemon.Worker.Stream.{
  Traced, Item, region_end, Observed, completed, items_of, flat, HasLast, Covers, AllCover, total,
  report_of, expected, named, names,
}
use llvm_mca_daemon.Worker.Batch.{log}
use llvm_mca_daemon.Worker.Reports.{run_lem}

-- The title of the report on a region, and the next number: a region without a description is
-- titled by a number.
abbrev pub region_title : {Text : Type 0} → Option Text → ℕ → Title Text
region_title description idx = elim description [ none ↦ numbered idx | some t ↦ described t ]

abbrev pub number_after : {Text : Type 0} → Option Text → ℕ → ℕ
number_after description idx = elim description [ none ↦ u64 (idx + 1) | some t ↦ idx ]

module _ {Mc Text : Type 0} where
  abbrev pub answer_of : Option ℕ → List Mc → RegionDescriptor Text → Answer Mc Text
  answer_of count insts region = record {
    count = count;
    insts = insts;
    region = region;
    index_map = [];
  }

  -- The answers that the worker gets in its first calls of `fetchRegion`, for a buffer of some room.
  abbrev pub file_answers : ℕ → ℕ → AsmFileBroker Mc Text → List (Answer Mc Text)
  file_answers room zero s = []
  file_answers room (suc n) s = elim (fetch_region Mc Text none room s) [
    | none ↦ []
    | some (count, insts, region, s') ↦ answer_of count insts region ∷ file_answers room n s'
  ]

  pub file_answers-suc :
      (room n : ℕ) (s : AsmFileBroker Mc Text)
      → fits none room ≡ true
      → (let f = take_region Mc Text room s in
          file_answers room (suc n) s ≡ answer_of f.0 f.1 f.2 ∷ file_answers room n f.3)
  file_answers-suc room n s fit =
      ap
        (λ (r : Option (Option ℕ × List Mc × RegionDescriptor Text × AsmFileBroker Mc Text)).
          elim r as (λ r. List (Answer Mc Text)) [
            | none ↦ []
            | some (count, insts, region, s') ↦
                answer_of count insts region ∷ file_answers room n s'
          ])
        (asserted-true (fits none room) {m = some (take_region Mc Text room s)} fit refl)

  abbrev pub size_of : List (CodeRegion Mc Text) → ℕ
  size_of [] = 0
  size_of (r ∷ rs) = length r.instructions + size_of rs

-- The options with which the worker works on the broker.
abbrev pub file_options : (Mc Text : Type 0) → Bool → Bool → WorkerOptions
file_options Mc Text ret call = options_for ret call (get_features Mc Text)

module _ {Mc Error : Type 0} (E : Engine Mc Error) (T : Traced E) (Text : Type 0)
    (ret call : Bool) where
  -- The options, with the features of the broker.
  abbrev o : WorkerOptions
  o = file_options Mc Text ret call

  -- The instructions that reach the pipeline.
  abbrev pub kept : List Mc → List (Mc × Option ℕ)
  kept [] = []
  kept (m ∷ ms) = elim (is_skipped E Text o m) [
    | true ↦ kept ms
    | false ↦ elim (T.failure m) [ none ↦ (m, none) ∷ kept ms | some e ↦ kept ms ]
  ]

  -- A report on each region, from a number on and with what comes before the first one.
  abbrev pub file_log :
      ℕ → List (Mc × Option ℕ) → List (CodeRegion Mc Text) → List (Observed Mc Error Text)
  file_log idx before [] = completed ∷ []
  file_log idx before (r ∷ rs) =
      report_of E T Text o (region_title r.description idx) (before ++ kept r.instructions)
      ++ (completed ∷ file_log (number_after r.description idx) [] rs)

  pub expected-items_of :
      (i : ℕ) (ms : List Mc) (idx : ℕ) (before : List (Mc × Option ℕ)) (rest : List (Item Mc Text))
      → expected E T Text o idx before (items_of o [] i ms ++ rest)
        ≡ expected E T Text o idx (before ++ kept ms) rest
  expected-items_of i [] idx before rest =
      ap (λ l. expected E T Text o idx l rest) (sym (append-nil before))
  expected-items_of i (m ∷ ms) idx before rest = elim (Bool-cases (is_skipped E Text o m)) [
    | inl h ↦ rw (h, expected, kept) (expected-items_of (i + 1) ms idx before rest)
    | inr h ↦ elim (Option-cases (T.failure m)) [
      | inl f ↦
          rw (h, f, expected, kept)
            (expected-items_of (i + 1) ms idx (before ++ ((m, none) ∷ [])) rest
              ∙ ap (λ l. expected E T Text o idx l rest)
                  (append_assoc before ((m, none) ∷ []) (kept ms)))
      | inr (e, f) ↦ rw (h, f, expected, kept) (expected-items_of (i + 1) ms idx before rest)
    ]
  ]

  pub kept-append : (ms ns : List Mc) → kept (ms ++ ns) ≡ kept ms ++ kept ns
  kept-append [] ns = refl
  kept-append (m ∷ ms) ns = elim (Bool-cases (is_skipped E Text o m)) [
    | inl h ↦ rw (h, kept) (kept-append ms ns)
    | inr h ↦ elim (Option-cases (T.failure m)) [
      | inl f ↦ rw (h, f, kept) (ap (λ l. (m, none) ∷ l) (kept-append ms ns))
      | inr (e, f) ↦ rw (h, f, kept) (kept-append ms ns)
    ]
  ]
