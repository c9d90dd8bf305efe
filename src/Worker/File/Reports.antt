-- ===== src/Worker/File/Reports.antt =====
-- The reports of `MCAWorker::run` on an assembly file.
use llvm_mca_daemon.Prelude.{
  ℕ, zero, suc, ◌+◌, ◌<◌, ◌≤◌, ◌≡◌, refl, sym, ap, ap₂, subst, ◌∙◌, inl, inr, Bool, true, min, none,
  some, List, [], ◌∷◌, ◌++◌, map, Bool-cases, arith, length, take, drop, take-take, take-all,
  drop-all, take-append-drop, length-take, length-take-drop, leb, leb→le,
}
use llvm_mca_daemon.Brokers.{fits}
use llvm_mca_daemon.Brokers.AsmFile.{CodeRegion, AsmFileBroker, take_region}
use llvm_mca_daemon.Brokers.AsmFile.Stream.{put, stream}
use llvm_mca_daemon.Brokers.AsmFile.Regions.{take_region_lem, take_region_end}
use llvm_mca_daemon.Worker.{Engine, WorkerOptions, finished, batch_insts, WorkerState, run}
use llvm_mca_daemon.Worker.Stream.{Traced, flat, Covers, AllCover, total, expected, named}
use llvm_mca_daemon.Worker.Batch.{log}
use llvm_mca_daemon.Worker.Reports.{run_lem}
use llvm_mca_daemon.Worker.File.{
  answer_of, file_answers, file_answers-suc, size_of, file_options, file_log,
}
use llvm_mca_daemon.Worker.File.Answers.{
  Served, Served-end, Served-within, Served-last, size_of-put, put-nonempty, region_nonempty,
}

module _ {Mc Error : Type 0} (E : Engine Mc Error) (T : Traced E) (Text : Type 0)
    (ret call : Bool) where
  -- The options, with the features of the broker.
  abbrev o : WorkerOptions
  o = file_options Mc Text ret call

  Covers-none : (i : ℕ) (ms : List Mc) → Covers o [] i ms
  Covers-none i [] = tt
  Covers-none i (m ∷ ms) = ((λ h. cc), Covers-none (i + 1) ms)

  AllCover-file_answers :
      (room n : ℕ) (s : AsmFileBroker Mc Text)
      → fits none room ≡ true
      → AllCover o (file_answers room n s)
  AllCover-file_answers room zero s fit = tt
  AllCover-file_answers room (suc n) s fit =
      subst (AllCover o) (sym (file_answers-suc room n s fit))
        (Covers-none 0 _, AllCover-file_answers room n (take_region Mc Text room s).3 fit)

  -- The answers with the first one in front.
  Served-file_answers :
      (k n : ℕ) (s : AsmFileBroker Mc Text) (l : List (CodeRegion Mc Text))
      → fits none (suc k) ≡ true
      → (let f = take_region Mc Text (suc k) s in
          Served E T Text ret call (answer_of f.0 f.1 f.2 ∷ file_answers (suc k) n f.3) l)
      → Served E T Text ret call (file_answers (suc k) (suc n) s) l
  Served-file_answers k n s l fit h =
      subst (λ a. Served E T Text ret call a l) (sym (file_answers-suc (suc k) n s fit)) h

  serve :
      (k n : ℕ) (s : AsmFileBroker Mc Text) (l : List (CodeRegion Mc Text))
      → fits none (suc k) ≡ true
      → stream Mc Text s ≡ l
      → size_of l < n
      → Served E T Text ret call (file_answers (suc k) n s) l
  serve k zero s l fit left h = elim h [ ]
  serve k (suc n) s [] fit left h = Served-file_answers k n s [] fit (
      Served-end E T Text ret call _ _ _ _ (take_region_end Mc Text (suc k) s (omega arith) left).0)
  serve k (suc n) s (r ∷ rs) fit left h = Served-file_answers k n s (r ∷ rs) fit (
      let (b, count) = take_region_lem Mc Text (suc k) s r rs (omega arith) left in
      let f = take_region Mc Text (suc k) s in
      let rest = file_answers (suc k) n f.3 in
      let pos = region_nonempty E T Text ret call s r rs left in
      let m = min (suc k) (length r.instructions) in
      let answer : answer_of f.0 f.1 f.2
          ≡ answer_of (some m) (take (suc k) r.instructions) (record {
            is_end = leb (length r.instructions) (suc k);
            description = r.description;
          }) =
        ap₂ (λ c l. answer_of c l f.2) count b.insts
        ∙ ap₂
            (λ e t.
              answer_of (some m) (take (suc k) r.instructions)
                (record { is_end = e; description = t }))
            b.is_end b.description in
      let shares = length-take-drop (suc k) r.instructions in
      elim (Bool-cases (leb (length r.instructions) (suc k))) [
        | inl last ↦
            let all_of : length r.instructions ≤ suc k = leb→le _ _ last in
            let served : Served E T Text ret call rest rs =
              serve k n f.3 rs fit
                (b.after
                  ∙ ap (λ l. put Mc Text l r.description rs)
                      (drop-all (suc k) r.instructions all_of))
                (omega (arith, h, pos)) in
            subst (λ a. Served E T Text ret call (a ∷ rest) (r ∷ rs))
              (sym (
                answer
                ∙ ap
                    (λ e.
                      answer_of (some m) (take (suc k) r.instructions)
                        (record { is_end = e; description = r.description }))
                    last))
              (Served-last E T Text ret call m (take (suc k) r.instructions) rest r rs
                (take-take (suc k) r.instructions ∙ take-all (suc k) r.instructions all_of) served)
        | inr more ↦
            let js = drop (suc k) r.instructions in
            let past : suc k < length r.instructions = ground (arith, more) in
            let left_over : 0 < length js =
              omega (arith, shares, length-take (suc k) r.instructions, past) in
            let served : Served E T Text ret call rest
                (record { instructions = js; description = r.description } ∷ rs) =
              serve k n f.3 _ fit
                (b.after ∙ put-nonempty E T Text ret call js r.description rs left_over)
                (omega (arith, h, shares, length-take (suc k) r.instructions, pos)) in
            subst (λ a. Served E T Text ret call (a ∷ rest) (r ∷ rs))
              (sym (
                answer
                ∙ ap
                    (λ e.
                      answer_of (some m) (take (suc k) r.instructions)
                        (record { is_end = e; description = r.description }))
                    more))
              (Served-within E T Text ret call m (take (suc k) r.instructions) js rest r rs
                (ap (λ l. l ++ js) (take-take (suc k) r.instructions)
                  ∙ take-append-drop (suc k) r.instructions)
                served)
      ])

  -- No more instructions are given than the file has, however often the broker is called.
  total_lem :
      (k n : ℕ) (s : AsmFileBroker Mc Text) (l : List (CodeRegion Mc Text))
      → fits none (suc k) ≡ true
      → stream Mc Text s ≡ l
      → total o (file_answers (suc k) n s) ≤ size_of l
  total_lem k zero s l fit left = omega arith
  total_lem k (suc n) s [] fit left =
      let (count, insts, is_end, stays) = take_region_end Mc Text (suc k) s (omega arith) left in
      let f = take_region Mc Text (suc k) s in
      let nothing : length (batch_insts (answer_of f.0 f.1 f.2)) ≡ 0 =
        ap (λ c. length (batch_insts (answer_of c f.1 f.2))) count in
      omega (
        arith,
        ap (total o) (file_answers-suc (suc k) n s fit),
        nothing,
        total_lem k n f.3 [] fit stays,
      )
  total_lem k (suc n) s (r ∷ rs) fit left =
      let (b, count) = take_region_lem Mc Text (suc k) s r rs (omega arith) left in
      let f = take_region Mc Text (suc k) s in
      let m = min (suc k) (length r.instructions) in
      let given : batch_insts (answer_of f.0 f.1 f.2) ≡ take (suc k) r.instructions =
        ap₂ (λ c l. batch_insts (answer_of c l f.2)) count b.insts
        ∙ take-take (suc k) r.instructions in
      let rest =
        total_lem k n f.3 (put Mc Text (drop (suc k) r.instructions) r.description rs) fit
          b.after in
      omega (
        arith,
        ap (total o) (file_answers-suc (suc k) n s fit),
        ap length given,
        length-take-drop (suc k) r.instructions,
        rest,
        size_of-put E T Text ret call (drop (suc k) r.instructions) r.description rs,
      )

  -- For an engine that keeps in order what it was given since it was cleared, whose creation of an
  -- instruction fails by the instruction alone and whose pipeline runs without an error, a fresh
  -- worker, a broker for an assembly file with fewer than 2 ^ 64 instructions left, a buffer of at
  -- least one place and fewer than 2 ^ 31, and more calls of `fetchRegion` than there are
  -- instructions: `run` finishes. For each region with instructions left it prints one report on
  -- exactly its instructions that are not skipped and can be created, or none where there are none,
  -- and signals the end. The report stands under the description of the region or, if that is
  -- empty, under the next number, which such a region uses up; at the end of the file it signals
  -- once more. The size of the buffer does not matter.
  pub file_reports :
      (k n : ℕ) (s : AsmFileBroker Mc Text) (w : WorkerState E Text)
      → suc k < 2147483648
      → w.num_trace_mis ≡ 0
      → T.seen w.engine ≡ []
      → size_of (stream Mc Text s) < n
      → size_of (stream Mc Text s) < 18446744073709551616
      → (w' : WorkerState E Text) × (run E Text o (file_answers (suc k) n s) w ≡ (finished, w'))
        × (log E T Text o w'
            ≡ log E T Text o w ++ file_log E T Text ret call w.region_idx [] (stream Mc Text s))
  file_reports k n s w room fresh empty enough small =
      let fit : fits none (suc k) ≡ true = ground (arith, room) in
      let served = serve k n s (stream Mc Text s) fit refl enough in
      let counted : w.num_trace_mis ≡ length (T.seen w.engine) = fresh ∙ sym (ap length empty) in
      let (w', e, f) =
        run_lem E T Text o (file_answers (suc k) n s) w served.ends
          (AllCover-file_answers (suc k) n s fit) counted
          (omega (arith, ap length empty, small, total_lem k n s (stream Mc Text s) fit refl)) in
      (
        w',
        e,
        f
            ∙ ap (λ l. log E T Text o w ++ l)
                (ap
                    (λ l.
                      expected E T Text o w.region_idx (map (named E T Text o) l)
                        (flat o (file_answers (suc k) n s)))
                    empty
                  ∙ served.shown w.region_idx [] (λ e. refl)),
      )
