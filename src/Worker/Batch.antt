-- ===== src/Worker/Batch.antt =====
-- What a batch adds to what is to be seen of the worker.
use llvm_mca_daemon.Prelude.{
  ℕ, ◌+◌, ◌<◌, ◌≤◌, ◌≡◌, refl, sym, ap, ap₂, subst, ◌∙◌, inl, inr, true, false, Option, none, some,
  List, [], ◌∷◌, ◌++◌, map, map-append, Bool-cases, append_assoc, arith, length, length-append, u64,
  if◌then◌else◌,
}
use llvm_mca_daemon.Prelude.Assoc.{Assoc, lookup}
use llvm_mca_daemon.Worker.{
  Created, new_inst, recycled_inst, create_error, Engine, WorkerOptions, instruction_error,
  WorkerState, is_skipped, identified, add_created, add_batch,
}
use llvm_mca_daemon.Worker.Stream.{
  Traced, Item, instr, instr_count, region_end, Observed, failed_at, token_of, items_of, Covers,
  errors_of, expected, named, names, observe,
}

pub instr_count-append :
    {Mc Text : Type 0} (is js : List (Item Mc Text))
    → instr_count (is ++ js) ≡ instr_count is + instr_count js
instr_count-append [] js = omega arith
instr_count-append (instr i m t ∷ is) js = omega (arith, instr_count-append is js)
instr_count-append (region_end region ∷ is) js = instr_count-append is js

module _ {Mc Error : Type 0} (E : Engine Mc Error) (T : Traced E) (Text : Type 0)
    (o : WorkerOptions) where
  abbrev pub log : WorkerState E Text → List (Observed Mc Error Text)
  log w = map (observe E T Text o) w.events

  -- The step from a state to another accounts for the items.
  pub record Accounts (items : List (Item Mc Text)) (w w' : WorkerState E Text) : Type 0 where
    pub counted : w'.num_trace_mis ≡ length (T.seen w'.engine)
    pub grows : length (T.seen w'.engine) ≤ length (T.seen w.engine) + instr_count items
    pub balance :
        (rest : List (Item Mc Text))
        → log w' ++ expected E T Text o w'.region_idx (names E T Text o w'.engine) rest
          ≡ log w ++ expected E T Text o w.region_idx (names E T Text o w.engine) (items ++ rest)

  pub Accounts-nothing :
      (w : WorkerState E Text) → w.num_trace_mis ≡ length (T.seen w.engine) → Accounts [] w w
  Accounts-nothing w h = record { counted = h; grows = omega arith; balance = λ rest. refl }

  pub Accounts-append :
      (is js : List (Item Mc Text)) (w w1 w2 : WorkerState E Text)
      → Accounts is w w1
      → Accounts js w1 w2
      → Accounts (is ++ js) w w2
  Accounts-append is js w w1 w2 f g = record {
    counted = g.counted;
    grows = omega (arith, instr_count-append is js, f.grows, g.grows);
    balance = λ rest.
        g.balance rest
        ∙ f.balance (js ++ rest)
        ∙ ap (λ l. log w ++ expected E T Text o w.region_idx (names E T Text o w.engine) l)
            (sym (append_assoc is js rest));
  }

  named-identified :
      (index_map : Assoc ℕ) (i : ℕ) (x : E.Instr) (m : Mc)
      → T.source x ≡ m
      → ((o.support_metadata ≡ true) → (t : ℕ) × (lookup i index_map ≡ some t))
      → named E T Text o (identified E Text o index_map i x) ≡ (m, token_of o index_map i)
  named-identified index_map i x m e covered = elim (Bool-cases o.support_metadata) [
    | inl h ↦
        let (t, found) = covered h in
        rw (h, found)
          (ap₂ (λ a b. (a, b)) (T.source-set_identifier t x ∙ e) (T.identifier-set_identifier t x))
    | inr h ↦ rw h (ap (λ a. (a, none)) e)
  ]

  names-append :
      (s s' : E.State) (x : E.Instr) (n : Mc × Option ℕ)
      → T.seen s' ≡ T.seen s ++ (x ∷ [])
      → named E T Text o x ≡ n
      → names E T Text o s' ≡ names E T Text o s ++ (n ∷ [])
  names-append s s' x n e f =
      ap (map (named E T Text o)) e
      ∙ map-append (named E T Text o) (T.seen s) (x ∷ [])
      ∙ ap (λ y. names E T Text o s ++ (y ∷ [])) f

  -- An instruction that was created.
  added_lem :
      (i : ℕ) (m : Mc) (t : Option ℕ) (x : E.Instr) (w : WorkerState E Text) (s : E.State)
      → is_skipped E Text o m ≡ false
      → T.failure m ≡ none
      → T.seen s ≡ T.seen w.engine ++ (x ∷ [])
      → named E T Text o x ≡ (m, t)
      → w.num_trace_mis ≡ length (T.seen w.engine)
      → length (T.seen w.engine) + 1 < 18446744073709551616
      → Accounts
          (instr i m t ∷ [])
          w
          (record w { num_trace_mis = u64 (w.num_trace_mis + 1); engine = s })
  added_lem i m t x w s kept fine e f counted small = record {
    counted = omega (arith, counted, ap length e, length-append (T.seen w.engine) (x ∷ []));
    grows = omega (arith, ap length e, length-append (T.seen w.engine) (x ∷ []));
    balance = λ rest.
        rw (kept, fine, expected)
          (ap (λ l. log w ++ expected E T Text o w.region_idx l rest)
            (names-append w.engine s x (m, t) e f));
  }

  failed_lem :
      (i : ℕ) (m : Mc) (t : Option ℕ) (e : Error) (w : WorkerState E Text) (s : E.State)
      → is_skipped E Text o m ≡ false
      → T.failure m ≡ some e
      → T.seen s ≡ T.seen w.engine
      → w.num_trace_mis ≡ length (T.seen w.engine)
      → Accounts (instr i m t ∷ []) w (record w {
        engine = s;
        events =
            if o.use_signal_instruction_error
            then w.events ++ (instruction_error i e ∷ [])
            else w.events;
      })
  failed_lem i m t e w s kept bad same counted = record {
    counted = counted ∙ sym (ap length same);
    grows = omega (arith, ap length same);
    balance = λ rest.
        let tail = expected E T Text o w.region_idx (names E T Text o w.engine) rest in
        rw (kept, bad, expected)
          (ap₂ (λ l r. l ++ expected E T Text o w.region_idx r rest) refl
              (ap (map (named E T Text o)) same)
            ∙ signalled tail);
  }
    where
      signalled :
          (tail : List (Observed Mc Error Text))
          → map (observe E T Text o) (
                if o.use_signal_instruction_error
                then w.events ++ (instruction_error i e ∷ [])
                else w.events)
              ++ tail
            ≡ log w ++ (errors_of E T Text o i e ++ tail)
      signalled tail = elim (Bool-cases o.use_signal_instruction_error) [
        | inl h ↦ rw h (
            ap (λ l. l ++ tail)
              (map-append (observe E T Text o) w.events (instruction_error i e ∷ []))
            ∙ append_assoc (log w) (failed_at i e ∷ []) tail)
        | inr h ↦ rw h refl
      ]

  created_lem :
      (index_map : Assoc ℕ) (i : ℕ) (m : Mc) (w : WorkerState E Text) (c : Created E.Instr Error)
      (s : E.State)
      → E.create_instruction m w.engine ≡ (c, s)
      → is_skipped E Text o m ≡ false
      → ((o.support_metadata ≡ true) → (t : ℕ) × (lookup i index_map ≡ some t))
      → w.num_trace_mis ≡ length (T.seen w.engine)
      → length (T.seen w.engine) + 1 < 18446744073709551616
      → Accounts
          (instr i m (token_of o index_map i) ∷ [])
          w
          (add_created E Text o index_map i (c, s) w)
  created_lem index_map i m w (new_inst x) s e kept covered counted small =
      let (of_m, fine) = T.creates m w.engine x (inl (ap (λ r. r.0) e)) in
      let same : T.seen s ≡ T.seen w.engine =
        sym (ap (λ r. T.seen r.1) e) ∙ T.seen-create m w.engine in
      let y = identified E Text o index_map i x in
      added_lem i m (token_of o index_map i) y w (E.add_inst y s) kept fine
        (T.seen-add y s ∙ ap (λ l. l ++ (y ∷ [])) same)
        (named-identified index_map i x m of_m covered) counted small
  created_lem index_map i m w (recycled_inst x) s e kept covered counted small =
      let (of_m, fine) = T.creates m w.engine x (inr (ap (λ r. r.0) e)) in
      let same : T.seen s ≡ T.seen w.engine =
        sym (ap (λ r. T.seen r.1) e) ∙ T.seen-create m w.engine in
      let y = identified E Text o index_map i x in
      added_lem i m (token_of o index_map i) y w (E.add_recycled_inst y s) kept fine
        (T.seen-add_recycled y s ∙ ap (λ l. l ++ (y ∷ [])) same)
        (named-identified index_map i x m of_m covered) counted small
  created_lem index_map i m w (create_error x) s e kept covered counted small =
      failed_lem i m (token_of o index_map i) x w s kept (T.fails m w.engine x (ap (λ r. r.0) e))
        (sym (ap (λ r. T.seen r.1) e) ∙ T.seen-create m w.engine) counted

  one_lem :
      (index_map : Assoc ℕ) (i : ℕ) (m : Mc) (w : WorkerState E Text)
      → ((o.support_metadata ≡ true) → (t : ℕ) × (lookup i index_map ≡ some t))
      → w.num_trace_mis ≡ length (T.seen w.engine)
      → length (T.seen w.engine) + 1 < 18446744073709551616
      → Accounts (instr i m (token_of o index_map i) ∷ []) w (
          if is_skipped E Text o m
          then w
          else add_created E Text o index_map i (E.create_instruction m w.engine) w)
  one_lem index_map i m w covered counted small = elim (Bool-cases (is_skipped E Text o m)) [
    | inl h ↦
        subst
          (λ b.
            Accounts (instr i m (token_of o index_map i) ∷ []) w (
              if b
              then w
              else add_created E Text o index_map i (E.create_instruction m w.engine) w))
          (sym h)
          (record {
            counted = counted;
            grows = omega arith;
            balance = λ rest. rw (h, expected) refl;
          })
    | inr h ↦
        subst
          (λ b.
            Accounts (instr i m (token_of o index_map i) ∷ []) w (
              if b
              then w
              else add_created E Text o index_map i (E.create_instruction m w.engine) w))
          (sym h)
          (created_lem index_map i m w (E.create_instruction m w.engine).0
            (E.create_instruction m w.engine).1 refl h covered counted small)
  ]

  pub add_batch_lem :
      (index_map : Assoc ℕ) (i : ℕ) (ms : List Mc) (w : WorkerState E Text)
      → Covers o index_map i ms
      → w.num_trace_mis ≡ length (T.seen w.engine)
      → length (T.seen w.engine) + length ms < 18446744073709551616
      → Accounts (items_of o index_map i ms) w (add_batch E Text o index_map i ms w)
  unfolding add_batch
  add_batch_lem index_map i [] w covered counted small = Accounts-nothing w counted
  add_batch_lem index_map i (m ∷ ms) w covered counted small =
      let one = one_lem index_map i m w covered.0 counted (omega (arith, small)) in
      Accounts-append (instr i m (token_of o index_map i) ∷ []) (items_of o index_map (i + 1) ms) w
        _ _ one
        (add_batch_lem index_map (i + 1) ms _ covered.1 one.counted
          (omega (arith, small, one.grows)))
