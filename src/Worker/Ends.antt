-- ===== src/Worker/Ends.antt =====
-- What the end of a region adds to what is to be seen of the worker.
use llvm_mca_daemon.Prelude.{
  ◌≡◌, refl, sym, ap, ap₂, subst, ◌∙◌, inl, inr, Bool, true, false, not, ◌&&◌, [], ◌∷◌, ◌++◌, map,
  Bool-cases, append_assoc, arith, length, if◌then◌else◌,
}
use llvm_mca_daemon.Worker.{
  Engine, WorkerOptions, Answer, title_of, next_region, batch_insts, is_last, ends_region,
  WorkerState, print_mca, reset_pipeline, finish_region, worker_complete,
}
use llvm_mca_daemon.Worker.Stream.{
  Traced, region_end, instr_count, completed, items_of, end_items, expected, named,
}
use llvm_mca_daemon.Worker.Batch.{log, Accounts, Accounts-append, Accounts-nothing}
use llvm_mca_daemon.Worker.Rounds.{finish_region-log}

module _ {Mc Error : Type 0} (E : Engine Mc Error) (T : Traced E) (Text : Type 0)
    (o : WorkerOptions) where
  -- The end of a region that is not the last one.
  finish_region-Accounts :
      (a : Answer Mc Text) (w : WorkerState E Text)
      → w.num_trace_mis ≡ length (T.seen w.engine)
      → is_last a ≡ false
      → o.use_region ≡ true
      → Accounts E T Text o (region_end (a.region) ∷ []) w (finish_region E Text o a w)
  unfolding finish_region
  finish_region-Accounts a w counted more regions =
      let both : (not (is_last a) && o.use_region) ≡ true = rw (more, regions) refl in
      let w1 = print_mca E Text (title_of o.use_region a.region w.region_idx) w in
      let next = next_region o.use_region a.region w.region_idx in
      let w2 : WorkerState E Text = record w1 {
        region_idx = next;
        events = w1.events ++ (worker_complete ∷ []);
      } in
      let end_of : Bool → WorkerState E Text = λ b. if b then reset_pipeline E Text w2 else w2 in
      let idx : (end_of (not (is_last a) && o.use_region)).region_idx ≡ next =
        ap (λ b. (end_of b).region_idx) both in
      let cleared : T.seen (end_of (not (is_last a) && o.use_region)).engine ≡ [] =
        ap (λ b. T.seen (end_of b).engine) both ∙ T.seen-clear w1.engine in
      let zeroed : (end_of (not (is_last a) && o.use_region)).num_trace_mis ≡ 0 =
        ap (λ b. (end_of b).num_trace_mis) both in
      record {
        counted = zeroed ∙ sym (ap length cleared);
        grows = omega (arith, ap length cleared);
        balance = λ rest.
            ap₂ (λ l r. l ++ r) (finish_region-log E T Text o a w counted)
              (ap₂ (λ n l. expected E T Text o n (map (named E T Text o) l) rest) idx cleared)
            ∙ append_assoc (log E T Text o w) _ _
            ∙ ap (λ l. log E T Text o w ++ l) (append_assoc _ (completed ∷ []) _);
      }

  -- The answer before another one: the end of a region, or more of it.
  pub next_lem :
      (a : Answer Mc Text) (w w1 : WorkerState E Text)
      → Accounts E T Text o (items_of o a.index_map 0 (batch_insts a)) w w1
      → is_last a ≡ false
      → (w2 : WorkerState E Text) × ((if ends_region o a then finish_region E Text o a w1 else w1)
          ≡ w2)
        × Accounts E T Text o (items_of o a.index_map 0 (batch_insts a) ++ end_items o a) w w2
  next_lem a w w1 acc more = elim (Bool-cases (o.use_region && a.region.is_end)) [
    | inl h ↦
        let regions : o.use_region ≡ true = ground (arith, h) in
        let ends : ends_region o a ≡ true = rw (more, h) refl in
        (
          finish_region E Text o a w1,
          ap (λ b. if b then finish_region E Text o a w1 else w1) ends,
          Accounts-append E T Text o _ _ w w1 _ acc (
              subst
                (λ b.
                  Accounts E T Text o (if b then region_end (a.region) ∷ [] else []) w1
                    (finish_region E Text o a w1))
                (sym ends) (finish_region-Accounts a w1 acc.counted more regions)),
        )
    | inr h ↦
        let goes_on : ends_region o a ≡ false = rw (more, h) refl in
        (
          w1,
          ap (λ b. if b then finish_region E Text o a w1 else w1) goes_on,
          Accounts-append E T Text o _ _ w w1 w1 acc (
              subst (λ b. Accounts E T Text o (if b then region_end (a.region) ∷ [] else []) w1 w1)
                (sym goes_on) (Accounts-nothing E T Text o w1 acc.counted)),
        )
  ]

  pub instr_count-end_items : (a : Answer Mc Text) → instr_count (end_items o a) ≡ 0
  instr_count-end_items a = elim (Bool-cases (ends_region o a)) [
    | inl h ↦ rw h refl
    | inr h ↦ rw h refl
  ]
