-- ===== src/Qemu/Fetch/Select.antt =====
-- The loop of `fetchRegion` that selects slices takes a first part of the program in the queue.
use llvm_mca_daemon.Prelude.{
  ℕ, zero, suc, ◌+◌, ◌-◌, ◌<◌, ◌≤◌, ◌≡◌, refl, sym, ◌∙◌, ap, inl, inr, Option, none, some, List, [],
  ◌∷◌, ◌++◌, append-nil, append_assoc, ltb, ltb→lt, arith, length, between, between-append,
  length-between, length-append, Bool-cases, Option-cases,
}
use llvm_mca_daemon.Qemu.Regions.{BinaryRegion}
use llvm_mca_daemon.Qemu.{returns, ◌>>=◌, TranslationBlock, TbSlice}
use llvm_mca_daemon.Qemu.Block.{u16}
use llvm_mca_daemon.Qemu.Fetch.{split, last_region, go_on, select}
use llvm_mca_daemon.Qemu.Fetch.Pending.{
  Event, insts_of, all_insts, steps, finished, program, Fits, IsExact, AllExact, IsReady, Selected,
  steps-append, last_region-cons, length-insts_of, counted, counted_bounds, counted_exact,
  split-Fits,
}

module _ {Inst Text : Type 0} (tbs : List (Option (TranslationBlock Inst))) (size : ℕ) where
  abbrev Selects : ℕ → ℕ → List (TbSlice Text) → Type 0
  Selects room short queue =
      (r : List (TbSlice Text) × List (TbSlice Text)) × (select tbs room queue ≡ returns r)
      × Selected tbs size room short queue r.0 r.1

  AllExact-IsReady : (q : List (TbSlice Text)) → AllExact tbs size q → IsReady tbs size q
  AllExact-IsReady [] h = tt
  AllExact-IsReady (c ∷ q) h = (h.0.0, h.1)

  -- A slice that is taken whole, the batch ending with it or going on.
  whole_ends :
      (c : TbSlice Text) (q : List (TbSlice Text)) (f : Fits tbs size c) (room short : ℕ)
      (r : BinaryRegion Text)
      → AllExact tbs size q
      → c.region ≡ some r
      → length (insts_of tbs c) ≤ room
      → Selected tbs size room short (c ∷ q) (c ∷ []) q
  unfolding last_region
  whole_ends c q f room short r ready e h = record {
    all_fit = (f, tt);
    ready = AllExact-IsReady q ready;
    bounded = omega (arith, ap length (append-nil (insts_of tbs c)), h);
    prefix = rw (append-nil (insts_of tbs c)) refl;
    full = inr (inl (r, e));
  }

  regroup :
      (is js : List Inst) (fs ps : List (Event Inst Text))
      → (steps tbs is ++ []) ++ ((steps tbs js ++ fs) ++ ps) ≡ (steps tbs (is ++ js) ++ fs) ++ ps
  regroup is js fs ps = simp (append-nil, append_assoc, steps-append tbs)

  whole_goes_on :
      (c : TbSlice Text) (q cs rest : List (TbSlice Text)) (f : Fits tbs size c)
      (room left short : ℕ)
      → c.region ≡ none
      → left + length (insts_of tbs c) ≤ room
      → room ≤ left + length (insts_of tbs c) + short
      → Selected tbs size left 0 q cs rest
      → Selected tbs size room short (c ∷ q) (c ∷ cs) rest
  whole_goes_on c q cs rest f room left short e low high s =
      let n = length-append (insts_of tbs c) (all_insts tbs cs) in
      record {
        all_fit = (f, s.all_fit);
        ready = s.ready;
        bounded = omega (arith, n, s.bounded);
        prefix =
            ap (λ r. (steps tbs (insts_of tbs c) ++ finished tbs r) ++ program tbs q) e
            ∙ ap (λ p. (steps tbs (insts_of tbs c) ++ []) ++ p) s.prefix
            ∙ regroup (insts_of tbs c) (all_insts tbs cs) (finished tbs (last_region cs))
                (program tbs rest)
            ∙ ap (λ r. (steps tbs (all_insts tbs (c ∷ cs)) ++ finished tbs r) ++ program tbs rest)
                (sym (last_region-cons tbs c cs e));
        full = elim s.full [
          | inl h ↦ inl (omega (arith, n, h, high))
          | inr (inl (r, h)) ↦ inr (inl (r, last_region-cons tbs c cs e ∙ h))
          | inr (inr h) ↦ inr (inr h)
        ];
      }

  split_off :
      (c : TbSlice Text) (q : List (TbSlice Text)) (f : Fits tbs size c) (s short : ℕ)
      → AllExact tbs size q
      → IsExact tbs f
      → suc s < counted tbs size c f
      → (u16 (c.begin_idx + suc s) ≡ c.begin_idx + suc s)
        × Selected tbs size
            (suc s)
            short
            (c ∷ q)
            (record (split (c.begin_idx + suc s) c).0 { region = none } ∷ [])
            ((split (c.begin_idx + suc s) c).1 ∷ q)
  unfolding split last_region
  split_off c q f s short ready exact h =
      let k = c.begin_idx + suc s in
      let n = length-insts_of tbs size c f in
      let m = counted_exact tbs size c f exact in
      let (low, high) =
        split-Fits tbs size c f k (omega arith) (omega (arith, n, m)) (omega (arith, n, m)) in
      let xs = f.block.mc_insts in
      let parts = between-append c.begin_idx k c.end_idx xs (omega arith) (omega (arith, n, m)) in
      let taken = length-between c.begin_idx k xs in
      let count : length (between c.begin_idx k xs) ≡ suc s = omega (arith, taken, n, m) in
      (
        omega (arith, n, m, f.word),
        record {
          all_fit = (low, tt);
          ready = (high, ready);
          bounded =
              rw (f.at_index, insts_of)
                (rw (append-nil (between c.begin_idx k xs)) (omega (arith, count)));
          prefix =
              rw (f.at_index, insts_of)
                (rw (append-nil (between c.begin_idx k xs)) (
                  ap (λ l. (steps tbs l ++ finished tbs c.region) ++ program tbs q) (sym parts)
                  ∙ (simp (steps-append tbs, append_assoc, append-nil))));
          full = inl (
              rw (f.at_index, insts_of)
                (rw (append-nil (between c.begin_idx k xs)) (omega (arith, count))));
        },
      )

  -- One slice before a queue of exact ones.
  select_front :
      (c : TbSlice Text) (q : List (TbSlice Text)) (f : Fits tbs size c) (s short : ℕ)
      → AllExact tbs size q
      → (suc s < counted tbs size c f → IsExact tbs f)
      → counted tbs size c f ≤ length (insts_of tbs c) + short
      → ((left : ℕ) → Selects left 0 q)
      → Selects (suc s) short (c ∷ q)
  unfolding select
  select_front c q f s short ready exact over tail =
      elim (Bool-cases (ltb (suc s) (counted tbs size c f))) [
        | inl e ↦
            let less = ltb→lt (suc s) (counted tbs size c f) e in
            let (word, sel) = split_off c q f s short ready (exact less) less in
            (
              (
                record (split (c.begin_idx + suc s) c).0 { region = none } ∷ [],
                (split (c.begin_idx + suc s) c).1 ∷ q,
              ),
              rw (f.at_index, e, word, select) refl,
              sel,
            )
        | inr e ↦ elim (Option-cases c.region) [
          | inr (r, some_region) ↦ (
            (c ∷ [], q),
            rw (f.at_index, e, select)
                (ap (λ o. go_on c o q (select tbs (suc s - counted tbs size c f) q)) some_region),
            whole_ends c q f (suc s) short r ready some_region
                (ground (arith, e, counted_bounds tbs size c f)),
          )
          | inl no_region ↦
              let low = counted_bounds tbs size c f in
              let fits : counted tbs size c f ≤ suc s = ground (arith, e) in
              let (r, taken, sel) = tail (suc s - counted tbs size c f) in
              (
                (c ∷ r.0, r.1),
                rw (f.at_index, e, select)
                    (ap (λ o. go_on c o q (select tbs (suc s - counted tbs size c f) q)) no_region
                      ∙ ap (λ m. m >>= λ r. returns (c ∷ r.0, r.1)) taken),
                whole_goes_on c q r.0 r.1 f (suc s) (suc s - counted tbs size c f) short no_region
                    (omega (arith, low, fits)) (omega (arith, over, fits)) sel,
              )
        ]
      ]

  -- On a queue of exact slices the loop takes a first part of the program: all of it, a part up to
  -- the end of a region, or as many instructions as there is room for.
  select_exact : (room : ℕ) (q : List (TbSlice Text)) → AllExact tbs size q → Selects room 0 q
  unfolding select last_region
  select_exact zero q h = (
    ([], q),
    refl,
    record {
      all_fit = tt;
      ready = AllExact-IsReady q h;
      bounded = omega arith;
      prefix = refl;
      full = inl (omega arith);
    },
  )
  select_exact (suc s) [] h = (
    ([], []),
    refl,
    record {
      all_fit = tt;
      ready = tt;
      bounded = omega arith;
      prefix = refl;
      full = inr (inr refl);
    },
  )
  select_exact (suc s) (c ∷ q) ((f, exact), h) =
      select_front c q f s 0 h (λ less. exact) (omega (arith, counted_exact tbs size c f exact))
        λ left. select_exact left q h

  -- So it does on a queue whose first slice is inside of its block, for the size of a batch. The
  -- instructions before that slice are counted again: so many fewer are taken at most.
  pub select_ready :
      (c : TbSlice Text) (q : List (TbSlice Text)) (s : ℕ)
      → IsReady tbs size (c ∷ q)
      → size ≡ suc s
      → Selects (suc s) c.begin_idx (c ∷ q)
  select_ready c q s (f, h) e =
      let (low, high) = counted_bounds tbs size c f in
      select_front c q f s c.begin_idx h (λ less. absurd (omega (arith, less, f.short, e))) high
        λ left. select_exact left q h
