-- ===== src/Brokers/AsmFile/Batches.antt =====
-- What the batch `fetch` of `AsmFileBroker` gives.
use llvm_mca_daemon.Prelude.{
  ℕ, zero, suc, min, ◌&&◌, ◌≡◌, inl, inr, true, refl, ap, ◌∙◌, Option, none, some, List, [], ◌∷◌,
  ◌++◌, arith, ltb, ◌==◌, length, length-take, take, drop, if◌then◌else◌, asserted-true,
}
use llvm_mca_daemon.Brokers.{max_len, fits}
use llvm_mca_daemon.Brokers.AsmFile.{
  CodeRegion, AsmFileBroker, fetch, fetch_loop, batch_size, take_batch, fetch_batch,
}
use llvm_mca_daemon.Brokers.AsmFile.Stream.{put, stream, fetch-Step}

module _ (Inst Text : Type 0) where
  -- The instructions of a list of regions.
  abbrev pub flat : List (CodeRegion Inst Text) → List Inst
  flat [] = []
  flat (r ∷ rs) = r.instructions ++ flat rs

  flat-put :
      (is : List Inst) (text : Option Text) (rs : List (CodeRegion Inst Text))
      → flat (put Inst Text is text rs) ≡ is ++ flat rs
  flat-put [] text rs = refl
  flat-put (i ∷ is) text rs = refl

  fetch_loop_lem :
      (n : ℕ) (s : AsmFileBroker Inst Text)
      → ((fetch_loop Inst Text n s).0 ≡ take n (flat (stream Inst Text s)))
        × (flat (stream Inst Text (fetch_loop Inst Text n s).1)
            ≡ drop n (flat (stream Inst Text s)))
  unfolding fetch_loop
  fetch_loop_lem zero s = (refl, refl)
  fetch_loop_lem (suc n) s = elim (fetch-Step Inst Text s) [
    | inl (empty, got, stays) ↦ rw (got, empty, fetch_loop) (refl, rw stays refl)
    | inr (i, got, g) ↦
        let (taken, dropped) = fetch_loop_lem n (fetch Inst Text s).1 in
        let now : flat (stream Inst Text s) ≡ i ∷ (g.rest ++ flat g.others) =
          rw (g.left, g.front) refl in
        let later : flat (stream Inst Text (fetch Inst Text s).1) ≡ g.rest ++ flat g.others =
          ap flat g.after ∙ flat-put g.rest g.piece.description g.others in
        rw (got, now, fetch_loop)
          (ap (λ l. i ∷ l) (taken ∙ ap (take n) later), dropped ∙ ap (drop n) later)
  ]

  pub batch_size_lem :
      (n : ℕ) (is : List Inst)
      → batch_size Inst Text n (take n is)
        ≡ (if ltb 0 n && (length is == 0) then none else some (min n (length is)))
  batch_size_lem zero is = ap some (omega arith)
  batch_size_lem (suc n) [] = ground arith
  batch_size_lem (suc n) (i ∷ is) = ground (arith, length-take n is)

  -- For no more instructions than the array has places as an `int`, `fetch` returns, and its batch
  -- is the next instructions of the file, as many as were asked for or are left, without regard to
  -- the regions. The rest stays for later, and -1 is returned exactly if some were asked for and
  -- none is left.
  pub fetch_batch_lem :
      (size : Option ℕ) (room : ℕ) (s : AsmFileBroker Inst Text)
      → fits size room ≡ true
      → (let n = max_len size room in
          let left = flat (stream Inst Text s) in
          (r : Option ℕ × List Inst × AsmFileBroker Inst Text) × (fetch_batch Inst Text size room s
            ≡ some r)
          × (r.1 ≡ take n left)
          × (r.0 ≡ (if ltb 0 n && (length left == 0) then none else some (min n (length left))))
          × (flat (stream Inst Text r.2) ≡ drop n left))
  unfolding take_batch
  fetch_batch_lem size room s fit =
      let n = max_len size room in
      let (taken, dropped) = fetch_loop_lem n s in
      (
        take_batch Inst Text n s,
        asserted-true (fits size room) fit refl,
        taken,
        ap (batch_size Inst Text n) taken ∙ batch_size_lem n _,
        dropped,
      )
