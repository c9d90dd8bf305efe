-- ===== src/Worker/Reports.antt =====
-- The reports and signals of `MCAWorker::run` on a stream that the broker cuts into batches.
use llvm_mca_daemon.Prelude.{
  ◌+◌, ◌<◌, ◌≡◌, refl, sym, ap, ap₂, ◌∙◌, inl, inr, true, false, Option, none, some, List, [], ◌∷◌,
  ◌++◌, Bool-cases, append_assoc, arith, length, if◌then◌else◌,
}
use llvm_mca_daemon.Worker.{
  Engine, WorkerOptions, Answer, Outcome, finished, stopped, batch_insts, is_last, ends_region,
  WorkerState, take_answer, finish_region, run,
}
use llvm_mca_daemon.Worker.Stream.{
  Traced, Item, region_end, items_of, end_items, flat, HasLast, AllCover, total, expected, names,
}
use llvm_mca_daemon.Worker.Batch.{log, Accounts, instr_count-append}
use llvm_mca_daemon.Worker.Rounds.{instr_count-items_of, take_answer_lem, finish_region-log}
use llvm_mca_daemon.Worker.Ends.{instr_count-end_items, next_lem}

module _ {Mc Error : Type 0} (E : Engine Mc Error) (T : Traced E) (Text : Type 0)
    (o : WorkerOptions) where
  later :
      (a : Answer Mc Text) (answers : List (Answer Mc Text))
      → HasLast o (a ∷ answers)
      → is_last a ≡ false
      → HasLast o answers
  later a answers (inl last) more = cc
  later a answers (inr h) more = h

  -- A round, after the answer was taken.
  abbrev round :
      Answer Mc Text
      → List (Answer Mc Text)
      → Option Error × WorkerState E Text
      → Outcome Error × WorkerState E Text
  round a answers r =
      let w' = if ends_region o a then finish_region E Text o a r.1 else r.1 in
      elim (r.0) [
        | some e ↦ (stopped e, r.1)
        | none ↦ elim (is_last a) [ true ↦ (finished, w') | false ↦ run E Text o answers w' ]
      ]

  run_last :
      (a : Answer Mc Text) (answers : List (Answer Mc Text)) (w w1 : WorkerState E Text)
      → take_answer E Text o a w ≡ (none, w1)
      → is_last a ≡ true
      → run E Text o (a ∷ answers) w ≡ (finished, finish_region E Text o a w1)
  unfolding run
  run_last a answers w w1 taken last =
      let ends : ends_region o a ≡ true = rw last refl in
      ap (round a answers) taken
      ∙ ap
          (λ b. elim b as (λ x. Outcome Error × WorkerState E Text) [
            | true ↦ (finished, if ends_region o a then finish_region E Text o a w1 else w1)
            | false ↦
                run E Text o answers (if ends_region o a then finish_region E Text o a w1 else w1)
          ])
          last
      ∙ ap (λ b. (finished, if b then finish_region E Text o a w1 else w1)) ends

  run_next :
      (a : Answer Mc Text) (answers : List (Answer Mc Text)) (w w1 w2 : WorkerState E Text)
      → take_answer E Text o a w ≡ (none, w1)
      → is_last a ≡ false
      → (if ends_region o a then finish_region E Text o a w1 else w1) ≡ w2
      → run E Text o (a ∷ answers) w ≡ run E Text o answers w2
  unfolding run
  run_next a answers w w1 w2 taken more next =
      ap (round a answers) taken
      ∙ ap
          (λ b. elim b as (λ x. Outcome Error × WorkerState E Text) [
            | true ↦ (finished, if ends_region o a then finish_region E Text o a w1 else w1)
            | false ↦
                run E Text o answers (if ends_region o a then finish_region E Text o a w1 else w1)
          ])
          more
      ∙ ap (run E Text o answers) next

  last_log :
      (a : Answer Mc Text) (answers : List (Answer Mc Text)) (w w1 : WorkerState E Text)
      → Accounts E T Text o (items_of o a.index_map 0 (batch_insts a)) w w1
      → is_last a ≡ true
      → log E T Text o (finish_region E Text o a w1)
        ≡ log E T Text o w
          ++ expected E T Text o w.region_idx (names E T Text o w.engine) (flat o (a ∷ answers))
  last_log a answers w w1 acc last =
      let ends : ends_region o a ≡ true = rw last refl in
      let items = items_of o a.index_map 0 (batch_insts a) in
      finish_region-log E T Text o a w1 acc.counted
      ∙ acc.balance (region_end (a.region) ∷ [])
      ∙ ap
          (λ l.
            log E T Text o w
            ++ expected E T Text o w.region_idx (names E T Text o w.engine) (items ++ l))
          (sym (
            ap₂
              (λ b c.
                (if b then region_end (a.region) ∷ [] else [])
                ++ elim c as (λ x. List (Item Mc Text)) [ true ↦ [] | false ↦ flat o answers ])
              ends last))

  next_log :
      (a : Answer Mc Text) (answers : List (Answer Mc Text)) (w w2 w3 : WorkerState E Text)
      → Accounts E T Text o (items_of o a.index_map 0 (batch_insts a) ++ end_items o a) w w2
      → is_last a ≡ false
      → log E T Text o w3
        ≡ log E T Text o w2
          ++ expected E T Text o w2.region_idx (names E T Text o w2.engine) (flat o answers)
      → log E T Text o w3
        ≡ log E T Text o w
          ++ expected E T Text o w.region_idx (names E T Text o w.engine) (flat o (a ∷ answers))
  next_log a answers w w2 w3 step more f =
      let items = items_of o a.index_map 0 (batch_insts a) in
      f
      ∙ step.balance (flat o answers)
      ∙ ap (λ l. log E T Text o w ++ expected E T Text o w.region_idx (names E T Text o w.engine) l)
          (append_assoc items (end_items o a) (flat o answers)
            ∙ ap
                (λ c.
                  items
                  ++ (end_items o a ++ elim c as (λ x. List (Item Mc Text)) [
                    | true ↦ []
                    | false ↦ flat o answers
                  ]))
                (sym more))

  -- For an engine that keeps in order what it was given since it was cleared, whose creation of an
  -- instruction fails by the instruction alone and whose pipeline runs without an error, answers of
  -- the broker one of which is the last, with metadata an index map that knows each instruction,
  -- and counts below 2 ^ 64: `run` finishes, and what is to be seen of it is what the stream of the
  -- answers asks for, however it is cut into batches. At each end of a region it reports, under the
  -- description or the next number, on exactly the instructions since the last end that were not
  -- skipped and could be created, in order and with their identifiers, or on nothing where there
  -- are none, and signals the end; each instruction that could not be created is signalled with its
  -- place in its batch.
  pub run_lem :
      (answers : List (Answer Mc Text)) (w : WorkerState E Text)
      → HasLast o answers
      → AllCover o answers
      → w.num_trace_mis ≡ length (T.seen w.engine)
      → length (T.seen w.engine) + total o answers < 18446744073709551616
      → (w' : WorkerState E Text) × (run E Text o answers w ≡ (finished, w'))
        × (log E T Text o w'
            ≡ log E T Text o w
              ++ expected E T Text o w.region_idx (names E T Text o w.engine) (flat o answers))
  unfolding run
  run_lem [] w ends covers counted small = elim ends [ ]
  run_lem (a ∷ answers) w ends covers counted small =
      let (w1, taken, acc) =
        take_answer_lem E T Text o a w covers.0 counted (omega (arith, small)) in
      elim (Bool-cases (is_last a)) [
        | inl h ↦ (
          finish_region E Text o a w1,
          run_last a answers w w1 taken h,
          last_log a answers w w1 acc h,
        )
        | inr h ↦
            let (w2, next, step) = next_lem E T Text o a w w1 acc h in
            let (w3, e, f) = run_lem answers w2 (later a answers ends h) covers.1 step.counted (
              omega (
                arith,
                small,
                step.grows,
                instr_count-append (items_of {Text = Text} o a.index_map 0 (batch_insts a))
                    (end_items o a),
                instr_count-items_of Text o a.index_map 0 (batch_insts a),
                instr_count-end_items E T Text o a,
              )) in
            (w3, run_next a answers w w1 w2 taken h next ∙ e, next_log a answers w w2 w3 step h f)
      ]
