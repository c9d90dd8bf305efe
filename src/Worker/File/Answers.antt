-- ===== src/Worker/File/Answers.antt =====
-- What one answer of the broker adds to the reports on a file.
use llvm_mca_daemon.Prelude.{
  ℕ, ◌+◌, ◌<◌, ◌≡◌, refl, sym, ap, ap₂, subst, ◌∙◌, inl, inr, Bool, true, false, Option, none, some,
  List, [], ◌∷◌, ◌++◌, append_assoc, arith, length, take,
}
use llvm_mca_daemon.Brokers.{RegionDescriptor}
use llvm_mca_daemon.Brokers.AsmFile.{CodeRegion, AsmFileBroker}
use llvm_mca_daemon.Brokers.AsmFile.Stream.{put, stream, fetch-Step}
use llvm_mca_daemon.Worker.{Engine, WorkerOptions, Answer, title_of}
use llvm_mca_daemon.Worker.Stream.{
  Traced, region_end, Observed, completed, flat, HasLast, report_of, expected,
}
use llvm_mca_daemon.Worker.File.{
  answer_of, size_of, region_title, number_after, file_options, kept, file_log, expected-items_of,
  kept-append,
}

module _ {Mc Error : Type 0} (E : Engine Mc Error) (T : Traced E) (Text : Type 0)
    (ret call : Bool) where
  -- The options, with the features of the broker.
  abbrev o : WorkerOptions
  o = file_options Mc Text ret call

  -- What the answers for the regions `l` add up to.
  pub record Served (answers : List (Answer Mc Text)) (l : List (CodeRegion Mc Text)) : Type 0 where
    pub ends : HasLast o answers
    pub shown :
        (idx : ℕ) (before : List (Mc × Option ℕ))
        → (l ≡ [] → before ≡ [])
        → expected E T Text o idx before (flat o answers) ≡ file_log E T Text ret call idx before l

  pub Served-end :
      (count : Option ℕ) (insts : List Mc) (d : RegionDescriptor Text)
      (rest : List (Answer Mc Text))
      → count ≡ none
      → Served (answer_of count insts d ∷ rest) []
  Served-end count insts d rest e =
      subst (λ c. Served (answer_of c insts d ∷ rest) []) (sym e)
        (record {
          ends = inl refl;
          shown = λ idx before h.
              let signal : List (Observed Mc Error Text) = completed ∷ [] in
              ap (λ b. report_of E T Text o (title_of true d idx) b ++ signal) (h refl);
        })

  region_ne : {x : CodeRegion Mc Text} {xs : List (CodeRegion Mc Text)} → ¬ (x ∷ xs ≡ [])
  region_ne e = cc e

  -- An answer that leaves the instructions `js` of its region.
  pub Served-within :
      (m : ℕ) (insts js : List Mc) (rest : List (Answer Mc Text)) (r : CodeRegion Mc Text)
      (rs : List (CodeRegion Mc Text))
      → take m insts ++ js ≡ r.instructions
      → Served rest (record { instructions = js; description = r.description } ∷ rs)
      → Served
          (answer_of (some m) insts (record { is_end = false; description = r.description }) ∷ rest)
          (r ∷ rs)
  Served-within m insts js rest r rs whole served = record {
    ends = inr served.ends;
    shown = λ idx before h.
        expected-items_of E T Text ret call 0 (take m insts) idx before (flat o rest)
        ∙ served.shown idx (before ++ kept E T Text ret call (take m insts))
            (λ e. absurd (region_ne e))
        ∙ ap
            (λ l.
              report_of E T Text o (region_title r.description idx) l
              ++ (completed ∷ file_log E T Text ret call (number_after r.description idx) [] rs))
            (append_assoc before (kept E T Text ret call (take m insts)) (kept E T Text ret call js)
              ∙ ap (λ l. before ++ l)
                  (sym (kept-append E T Text ret call (take m insts) js)
                    ∙ ap (kept E T Text ret call) whole));
  }

  -- An answer that ends its region.
  pub Served-last :
      (m : ℕ) (insts : List Mc) (rest : List (Answer Mc Text)) (r : CodeRegion Mc Text)
      (rs : List (CodeRegion Mc Text))
      → take m insts ≡ r.instructions
      → Served rest rs
      → Served
          (answer_of (some m) insts (record { is_end = true; description = r.description }) ∷ rest)
          (r ∷ rs)
  Served-last m insts rest r rs whole served = record {
    ends = inr served.ends;
    shown = λ idx before h.
        expected-items_of E T Text ret call 0 (take m insts) idx before
          (region_end (record { is_end = true; description = r.description }) ∷ flat o rest)
        ∙ ap₂ (λ l t. report_of E T Text o (region_title r.description idx) l ++ (completed ∷ t))
            (ap (λ l. before ++ kept E T Text ret call l) whole)
            (served.shown (number_after r.description idx) [] (λ e. refl));
  }

  pub size_of-put :
      (js : List Mc) (text : Option Text) (rs : List (CodeRegion Mc Text))
      → size_of (put Mc Text js text rs) ≡ length js + size_of rs
  size_of-put [] text rs = omega arith
  size_of-put (j ∷ js) text rs = refl

  pub put-nonempty :
      (js : List Mc) (text : Option Text) (rs : List (CodeRegion Mc Text))
      → 0 < length js
      → put Mc Text js text rs ≡ record { instructions = js; description = text } ∷ rs
  put-nonempty [] text rs h = elim h [ ]
  put-nonempty (j ∷ js) text rs h = refl

  pub region_nonempty :
      (s : AsmFileBroker Mc Text) (r : CodeRegion Mc Text) (rs : List (CodeRegion Mc Text))
      → stream Mc Text s ≡ r ∷ rs
      → 0 < length r.instructions
  region_nonempty s r rs left = elim (fetch-Step Mc Text s) [
    | inl (empty, got, stays) ↦ absurd (region_ne (sym left ∙ empty))
    | inr (i, got, g) ↦
        let same : g.piece ≡ r = cc (sym g.left ∙ left) in
        let front : r.instructions ≡ i ∷ g.rest =
          sym (ap (λ (p : CodeRegion Mc Text). p.instructions) same) ∙ g.front in
        omega (arith, ap length front)
  ]
