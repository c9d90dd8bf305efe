-- ===== src/Worker/Rounds.antt =====
-- A round of `MCAWorker::run`: the answer of the broker, the pipeline, and the end of a region.
use llvm_mca_daemon.Prelude.{
  ℕ, suc, ◌+◌, ◌<◌, ◌≡◌, refl, sym, ap, subst, ◌∙◌, inl, inr, Bool, true, false, not, ◌&&◌, none,
  List, [], ◌∷◌, ◌++◌, map, map-append, Bool-cases, append_assoc, append-nil, arith, length, ◌==◌,
  if◌then◌else◌,
}
use llvm_mca_daemon.Prelude.Assoc.{Assoc}
use llvm_mca_daemon.Worker.{
  Ran, ran, paused, run_error, Engine, WorkerOptions, Answer, Title, title_of, batch_insts, is_last,
  ends_region, report, worker_complete, WorkerState, add_batch, run_pipeline, take_answer,
  print_mca, reset_pipeline, finish_region,
}
use llvm_mca_daemon.Worker.Stream.{
  Traced, instr_count, Observed, reported, completed, items_of, Covers, report_of, expected, named,
  names, observe,
}
use llvm_mca_daemon.Worker.Batch.{log, Accounts, Accounts-append, add_batch_lem}

pub instr_count-items_of :
    {Mc : Type 0} (Text : Type 0) (o : WorkerOptions) (index_map : Assoc ℕ) (i : ℕ) (ms : List Mc)
    → instr_count (items_of {Text = Text} o index_map i ms) ≡ length ms
instr_count-items_of Text o index_map i [] = refl
instr_count-items_of Text o index_map i (m ∷ ms) =
    ap suc (instr_count-items_of Text o index_map (i + 1) ms)

module _ {Mc Error : Type 0} (E : Engine Mc Error) (T : Traced E) (Text : Type 0)
    (o : WorkerOptions) where
  -- A step that changes the engine alone and keeps what it was given.
  quiet_lem :
      (w : WorkerState E Text) (s : E.State)
      → T.seen s ≡ T.seen w.engine
      → w.num_trace_mis ≡ length (T.seen w.engine)
      → Accounts E T Text o [] w (record w { engine = s })
  quiet_lem w s same counted = record {
    counted = counted ∙ sym (ap length same);
    grows = omega (arith, ap length same);
    balance = λ rest.
        ap
          (λ l.
            log E T Text o w ++ expected E T Text o w.region_idx (map (named E T Text o) l) rest)
          same;
  }

  run_pipeline_lem :
      (w : WorkerState E Text)
      → w.num_trace_mis ≡ length (T.seen w.engine)
      → (w' : WorkerState E Text) × (run_pipeline E Text w ≡ (none, w'))
        × Accounts E T Text o [] w w'
  run_pipeline_lem w counted = (
    record w { engine = (E.run_engine w.engine).1 },
    fine (E.run_engine w.engine).0 (E.run_engine w.engine).1 refl,
    quiet_lem w (E.run_engine w.engine).1 (T.seen-run w.engine) counted,
  )
    where
      fine :
          (r : Ran Error) (s : E.State)
          → E.run_engine w.engine ≡ (r, s)
          → run_pipeline E Text w ≡ (none, record w { engine = s })
      fine ran s e = rw e refl
      fine paused s e = rw e refl
      fine (run_error x) s e = absurd (T.runs w.engine x (ap (λ r. r.0) e))

  pub take_answer_lem :
      (a : Answer Mc Text) (w : WorkerState E Text)
      → Covers o a.index_map 0 (batch_insts a)
      → w.num_trace_mis ≡ length (T.seen w.engine)
      → length (T.seen w.engine) + length (batch_insts a) < 18446744073709551616
      → (w' : WorkerState E Text) × (take_answer E Text o a w ≡ (none, w'))
        × Accounts E T Text o (items_of o a.index_map 0 (batch_insts a)) w w'
  unfolding take_answer
  take_answer_lem a w covered counted small =
      let w1 : WorkerState E Text =
        if ends_region o a then record w { engine = E.end_of_stream w.engine } else w in
      let start : Accounts E T Text o [] w w1 = ending (ends_region o a) in
      let w2 = add_batch E Text o a.index_map 0 (batch_insts a) w1 in
      let batch =
        add_batch_lem E T Text o a.index_map 0 (batch_insts a) w1 covered start.counted
          (omega (arith, small, start.grows)) in
      let both = Accounts-append E T Text o [] _ w w1 w2 start batch in
      elim (Bool-cases (w2.num_trace_mis == 0)) [
        | inl h ↦ (w2, rw h refl, both)
        | inr h ↦
            let (w3, e, quiet) = run_pipeline_lem w2 batch.counted in
            (
              w3,
              rw h e,
              subst (λ l. Accounts E T Text o l w w3) (append-nil _)
                  (Accounts-append E T Text o _ [] w w2 w3 both quiet),
            )
      ]
    where
      ending :
          (b : Bool)
          → Accounts E T Text o [] w
              (if b then record w { engine = E.end_of_stream w.engine } else w)
      ending true = quiet_lem w (E.end_of_stream w.engine) (T.seen-end w.engine) counted
      ending false = quiet_lem w w.engine refl counted

  print_mca_lem :
      (title : Title Text) (w : WorkerState E Text) (xs : List E.Instr)
      → T.seen w.engine ≡ xs
      → w.num_trace_mis ≡ length xs
      → log E T Text o (print_mca E Text title w)
        ≡ log E T Text o w ++ report_of E T Text o title (names E T Text o w.engine)
  print_mca_lem title w [] e counted =
      let none_there : (w.num_trace_mis == 0) ≡ true = ground (arith, counted) in
      rw (none_there, e) (sym (append-nil _))
  print_mca_lem title w (x ∷ xs) e counted =
      let some_there : (w.num_trace_mis == 0) ≡ false = ground (arith, counted) in
      rw (some_there, e)
        (map-append (observe E T Text o) w.events (report title w.engine ∷ [])
          ∙ ap (λ l. log E T Text o w ++ (reported title (map (named E T Text o) l) ∷ [])) e)

  -- The report and the signal at the end of a region.
  pub finish_region-log :
      (a : Answer Mc Text) (w : WorkerState E Text)
      → w.num_trace_mis ≡ length (T.seen w.engine)
      → log E T Text o (finish_region E Text o a w)
        ≡ log E T Text o w
          ++ (report_of E T Text o
                (title_of o.use_region a.region w.region_idx)
                (names E T Text o w.engine)
              ++ (completed ∷ []))
  unfolding finish_region
  finish_region-log a w counted =
      let title = title_of o.use_region a.region w.region_idx in
      let w1 = print_mca E Text title w in
      whole _ _ (not (is_last a) && o.use_region) (
        map-append (observe E T Text o) w1.events (worker_complete ∷ [])
        ∙ ap (λ l. l ++ (completed ∷ [])) (print_mca_lem title w (T.seen w.engine) refl counted)
        ∙ append_assoc (log E T Text o w) _ (completed ∷ []))
    where
      whole :
          (w2 : WorkerState E Text) (l : List (Observed Mc Error Text)) (b : Bool)
          → log E T Text o w2 ≡ l
          → log E T Text o (if b then reset_pipeline E Text w2 else w2) ≡ l
      whole w2 l true e = e
      whole w2 l false e = e
