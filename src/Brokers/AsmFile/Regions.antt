-- ===== src/Brokers/AsmFile/Regions.antt =====
-- What `AsmFileBroker::fetchRegion` gives.
use llvm_mca_daemon.Prelude.{
  ℕ, zero, suc, min, not, ◌&&◌, ◌+◌, ◌<◌, ◌≡◌, inl, inr, refl, sym, ap, subst, ◌∙◌, true, false,
  Option, none, some, List, [], ◌∷◌, arith, leb, ◌==◌, length, take, drop, if◌then◌else◌,
  asserted-true,
}
use llvm_mca_daemon.Brokers.{RegionDescriptor, max_len, fits}
use llvm_mca_daemon.Brokers.AsmFile.{
  CodeRegion, AsmFileBroker, fetch, batch_size, region_size, region_text, region_loop, take_region,
  fetch_region,
}
use llvm_mca_daemon.Brokers.AsmFile.Stream.{put, stream, Given, fetch-Step, fetch_stays}
use llvm_mca_daemon.Brokers.AsmFile.Batches.{batch_size_lem}

module _ (Inst Text : Type 0) where
  -- What a batch takes of a region with the instructions `is` left, before the regions `ps`: its
  -- share, whether that is all of them, and what is left then.
  pub record Batch (n : ℕ) (text : Option Text) (is : List Inst) (ps : List (CodeRegion Inst Text))
      (result : List Inst × RegionDescriptor Text × AsmFileBroker Inst Text) : Type 0 where
    pub insts : result.0 ≡ take n is
    pub is_end : result.1.is_end ≡ leb (length is) n
    pub description : result.1.description ≡ text
    pub after : stream Inst Text result.2 ≡ put Inst Text (drop n is) text ps

  cons_ne : {x : CodeRegion Inst Text} {xs : List (CodeRegion Inst Text)} → ¬ (x ∷ xs ≡ [])
  cons_ne e = cc e

  take-nil : (n : ℕ) → take {A = Inst} n [] ≡ []
  take-nil zero = refl
  take-nil (suc n) = refl

  drop-nil : (n : ℕ) → drop {A = Inst} n [] ≡ []
  drop-nil zero = refl
  drop-nil (suc n) = refl

  -- What a `fetch` inside of a region gives, in terms of the region.
  Given-in :
      (s : AsmFileBroker Inst Text) (r : CodeRegion Inst Text) (rs : List (CodeRegion Inst Text))
      (text : Option Text) (j : Inst) (js : List Inst) (ps : List (CodeRegion Inst Text)) (i : Inst)
      → stream Inst Text s ≡ put Inst Text (j ∷ js) text ps
      → (g : Given Inst Text (stream Inst Text s) i (fetch Inst Text s).1)
      → (fetch Inst Text s).1.iter_region ≡ r ∷ rs
      → (i ≡ j)
        × (length r.instructions ≡ (fetch Inst Text s).1.cur_inst_idx + length js)
        × (stream Inst Text (fetch Inst Text s).1 ≡ put Inst Text js text ps)
  Given-in s r rs text j js ps i left g on =
      let whole : (record { instructions = j ∷ js; description = text } ∷ ps) ≡ g.piece ∷ g.others =
        sym left ∙ g.left in
      let piece_eq : record { instructions = j ∷ js; description = text } ≡ g.piece = cc whole in
      let others_eq : ps ≡ g.others = cc whole in
      let text_eq : text ≡ g.piece.description =
        ap (λ (p : CodeRegion Inst Text). p.description) piece_eq in
      let front : j ∷ js ≡ i ∷ g.rest =
        ap (λ (p : CodeRegion Inst Text). p.instructions) piece_eq ∙ g.front in
      let rest_eq : js ≡ g.rest = cc front in
      let region_eq : r ≡ g.region = cc (sym on ∙ g.on) in
      (
        cc front,
        ap (λ (p : CodeRegion Inst Text). length p.instructions) region_eq
            ∙ g.size
            ∙ ap (λ l. (fetch Inst Text s).1.cur_inst_idx + length l) (sym rest_eq),
        g.after ∙ (rw (rest_eq, others_eq, text_eq) refl),
      )

  region_round :
      (n : ℕ) (r : CodeRegion Inst Text) (rs : List (CodeRegion Inst Text)) (text : Option Text)
      (j : Inst) (js : List Inst) (ps : List (CodeRegion Inst Text)) (s : AsmFileBroker Inst Text)
      (num : ℕ) (before : Option Text)
      → (fetch Inst Text s).0 ≡ some j
      → (if num == 0 then region_size Inst Text (fetch Inst Text s).1.iter_region else num)
        ≡ length r.instructions
      → (if num == 0 then region_text Inst Text (fetch Inst Text s).1.iter_region else before)
        ≡ text
      → length r.instructions ≡ (fetch Inst Text s).1.cur_inst_idx + length js
      → stream Inst Text (fetch Inst Text s).1 ≡ put Inst Text js text ps
      → (0 < length js
          → Batch n text js ps
              (region_loop Inst Text n (length r.instructions) text (fetch Inst Text s).1))
      → Batch (suc n) text (j ∷ js) ps (region_loop Inst Text (suc n) num before s)
  unfolding region_loop
  region_round n r rs text j [] ps s num before got num_eq text_eq size after ih =
      let last : leb (length r.instructions) (fetch Inst Text s).1.cur_inst_idx ≡ true =
        ground (arith, size) in
      rw (got, num_eq, text_eq, last, region_loop)
        (record {
          insts = ap (λ l. j ∷ l) (sym (take-nil n));
          is_end = ground arith;
          description = refl;
          after = after ∙ sym (ap (λ l. put Inst Text l text ps) (drop-nil n));
        })
  region_round n r rs text j (k ∷ ks) ps s num before got num_eq text_eq size after ih =
      let more : leb (length r.instructions) (fetch Inst Text s).1.cur_inst_idx ≡ false =
        ground (arith, size) in
      let b = ih (omega arith) in
      rw (got, num_eq, text_eq, more, region_loop)
        (record {
          insts = ap (λ l. j ∷ l) b.insts;
          is_end = b.is_end ∙ (ground arith);
          description = b.description;
          after = b.after;
        })

  -- The rounds of `fetchRegion` inside of a region, of which it has the instructions `is` left.
  region_loop_in :
      (n : ℕ) (s : AsmFileBroker Inst Text) (r : CodeRegion Inst Text)
      (rs : List (CodeRegion Inst Text)) (text : Option Text) (is : List Inst)
      (ps : List (CodeRegion Inst Text))
      → 0 < length is
      → stream Inst Text s ≡ put Inst Text is text ps
      → s.iter_region ≡ r ∷ rs
      → length r.instructions ≡ s.cur_inst_idx + length is
      → (not s.is_invalid && not s.has_regions) ≡ false
      → s.is_invalid ≡ false
      → Batch n text is ps (region_loop Inst Text n (length r.instructions) text s)
  unfolding region_loop
  region_loop_in zero s r rs text [] ps pos left on size parsed valid = elim pos [ ]
  region_loop_in zero s r rs text (j ∷ js) ps pos left on size parsed valid = record {
    insts = refl;
    is_end = ground arith;
    description = refl;
    after = left;
  }
  region_loop_in (suc n) s r rs text [] ps pos left on size parsed valid =
      absurd (omega (arith, pos))
  region_loop_in (suc n) s r rs text (j ∷ js) ps pos left on size parsed valid =
      elim (fetch-Step Inst Text s) [
        | inl (empty, got, stays) ↦ absurd (cons_ne (sym left ∙ empty))
        | inr (i, got, g) ↦
            let in_region = fetch_stays Inst Text s r rs on (omega (arith, size)) parsed valid in
            let (here, size', after') = Given-in s r rs text j js ps i left g in_region in
            let nz : (length r.instructions == 0) ≡ false = ground (arith, size) in
            region_round n r rs text j js ps s (length r.instructions) text (rw here at got)
              (rw nz refl) (rw nz refl) size' after'
              (λ more.
                region_loop_in n (fetch Inst Text s).1 r rs text js ps more after' in_region size'
                  g.parsed g.valid)
      ]

  -- The first round, which sets `NumInsts` and the description.
  first_lem :
      (n : ℕ) (s : AsmFileBroker Inst Text) (p : CodeRegion Inst Text)
      (ps : List (CodeRegion Inst Text))
      → 0 < n
      → stream Inst Text s ≡ p ∷ ps
      → Batch n p.description p.instructions ps (region_loop Inst Text n 0 none s)
        × (batch_size Inst Text n (region_loop Inst Text n 0 none s).0
            ≡ some (min n (length p.instructions)))
  first_lem zero s p ps pos left = elim pos [ ]
  first_lem (suc n) s p ps pos left = elim (fetch-Step Inst Text s) [
    | inl (empty, got, stays) ↦ absurd (cons_ne (sym left ∙ empty))
    | inr (i, got, g) ↦
        let piece_eq : g.piece ≡ p = cc (sym g.left ∙ left) in
        let others_eq : g.others ≡ ps = cc (sym g.left ∙ left) in
        let de : g.piece.description ≡ p.description =
          ap (λ (q : CodeRegion Inst Text). q.description) piece_eq in
        let ie : i ∷ g.rest ≡ p.instructions =
          sym g.front ∙ ap (λ (q : CodeRegion Inst Text). q.instructions) piece_eq in
        let s' = (fetch Inst Text s).1 in
        let b : Batch (suc n) g.piece.description (i ∷ g.rest) g.others
            (region_loop Inst Text (suc n) 0 none s) =
          region_round n g.region g.regions g.piece.description i g.rest g.others s 0 none got
            (ap (region_size Inst Text) g.on) (ap (region_text Inst Text) g.on ∙ g.text) g.size
            g.after
            (λ more.
              region_loop_in n s' g.region g.regions g.piece.description g.rest g.others more
                g.after g.on g.size g.parsed g.valid) in
        let b' : Batch (suc n) p.description p.instructions ps
            (region_loop Inst Text (suc n) 0 none s) =
          subst (λ l. Batch (suc n) p.description l ps (region_loop Inst Text (suc n) 0 none s)) ie
            (subst (λ t. Batch (suc n) t (i ∷ g.rest) ps (region_loop Inst Text (suc n) 0 none s))
              de
              (subst
                (λ o.
                  Batch (suc n) g.piece.description (i ∷ g.rest) o
                    (region_loop Inst Text (suc n) 0 none s))
                others_eq b)) in
        (
          b',
          ap (batch_size Inst Text (suc n)) b'.insts
              ∙ batch_size_lem Inst Text (suc n) p.instructions
              ∙ (ground (arith, ap length ie)),
        )
  ]

  end_lem :
      (n : ℕ) (s : AsmFileBroker Inst Text)
      → 0 < n
      → stream Inst Text s ≡ []
      → (let (insts, d, s') = region_loop Inst Text n 0 none s in
          (batch_size Inst Text n insts ≡ none)
          × (insts ≡ [])
          × (d.is_end ≡ true)
          × (stream Inst Text s' ≡ []))
  unfolding region_loop
  end_lem zero s pos left = elim pos [ ]
  end_lem (suc n) s pos left = elim (fetch-Step Inst Text s) [
    | inl (empty, got, stays) ↦ rw (got, region_loop) (refl, refl, refl, stays)
    | inr (i, got, g) ↦ absurd (cons_ne (sym g.left ∙ left))
  ]

  pub take_region_lem :
      (n : ℕ) (s : AsmFileBroker Inst Text) (p : CodeRegion Inst Text)
      (ps : List (CodeRegion Inst Text))
      → 0 < n
      → stream Inst Text s ≡ p ∷ ps
      → (let (count, insts, d, s') = take_region Inst Text n s in
          Batch n p.description p.instructions ps (insts, d, s')
          × (count ≡ some (min n (length p.instructions))))
  unfolding take_region
  take_region_lem n s p ps pos left = first_lem n s p ps pos left

  -- With a region left, at least one instruction asked for, and no more of them than the array has
  -- places as an `int`, `fetchRegion` returns and stays inside of the first such region: it gives
  -- as many instructions as were asked for or as that region has left, says whether it was the last
  -- of them, gives the description of the region, and leaves its rest and the regions behind it.
  pub fetch_region_lem :
      (size : Option ℕ) (room : ℕ) (s : AsmFileBroker Inst Text) (p : CodeRegion Inst Text)
      (ps : List (CodeRegion Inst Text))
      → fits size room ≡ true
      → 0 < max_len size room
      → stream Inst Text s ≡ p ∷ ps
      → (r : Option ℕ × List Inst × RegionDescriptor Text × AsmFileBroker Inst Text) × (fetch_region
            Inst Text size room s
          ≡ some r)
        × Batch (max_len size room) p.description p.instructions ps (r.1, r.2, r.3)
        × (r.0 ≡ some (min (max_len size room) (length p.instructions)))
  fetch_region_lem size room s p ps fit pos left =
      let (b, count) = take_region_lem (max_len size room) s p ps pos left in
      (
        take_region Inst Text (max_len size room) s,
        asserted-true (fits size room) fit refl,
        b,
        count,
      )

  -- With no instruction left, or after a parse error, and at least one asked for, `fetchRegion`
  -- returns -1 with an end mark, writes nothing, and stays at the end.
  pub take_region_end :
      (n : ℕ) (s : AsmFileBroker Inst Text)
      → 0 < n
      → stream Inst Text s ≡ []
      → (let (count, insts, d, s') = take_region Inst Text n s in
          (count ≡ none) × (insts ≡ []) × (d.is_end ≡ true) × (stream Inst Text s' ≡ []))
  unfolding take_region
  take_region_end n s pos left = end_lem n s pos left
