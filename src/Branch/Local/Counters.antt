-- ===== src/Branch/Local/Counters.antt =====
-- What the counters of `LocalBPU` hold after a sequence of branches.
use llvm_mca_daemon.Prelude.{
  ℕ, zero, suc, ltb→lt, lt→ltb, ◌*◌, ◌+◌, ◌-◌, ◌/◌, ◌%◌, ◌^◌, ◌≤◌, ◌<◌, ◌≡◌, ◌≢◌, refl, sym, subst,
  ◌∙◌, ap, min, Bool, true, false, some, List, [], ◌∷◌, arith, ltb, u32, ◌==◌, ==_iff, Bool-cases,
  inl, inr, if◌then◌else◌, get_elem?, set, length, length-set, length-replicate, get_elem?-in_range,
  get_elem?-set_self, get_elem?-set_ne,
}
use native.Mathlib.Nat.{div-zero, le-div_iff_mul-le}
use llvm_mca_daemon.Metadata.{InstrAddr}
use llvm_mca_daemon.Branch.{BranchDirection, taken, not_taken}
use llvm_mca_daemon.Branch.Local.{
  SatCounter, LocalUnit, new_local, amount, predictor_index, record_taken_branch, get_prediction,
  predict_branch, record_all,
}

-- How many branches of a sequence were taken at addresses of one index.
abbrev pub taken_at : ℕ → ℕ → List (InstrAddr × BranchDirection) → ℕ
taken_at sets i [] = 0
taken_at sets i ((ia, d) ∷ bs) =
    (if u32 (ia.addr % sets) == i then amount d else 0) + taken_at sets i bs

-- A larger number has the larger quotient.
quotient_stays : (a b p : ℕ) → a ≤ b → ltb 0 (a / p) ≡ true → ltb 0 (b / p) ≡ true
quotient_stays a b zero h q = let e = div-zero a in let q' : ltb 0 0 ≡ true = rw e at q in cc (q')
quotient_stays a b (suc p) h q =
    let small : 1 * suc p ≤ a =
      (le-div_iff_mul-le {k = suc p} {x = 1} {y = a} (omega arith)).0
        (omega (arith, ltb→lt 0 (a / suc p) q)) in
    let large : 1 ≤ b / suc p =
      (le-div_iff_mul-le {k = suc p} {x = 1} {y = b} (omega arith)).1 (omega arith) in
    lt→ltb 0 (b / suc p) (omega arith)

taken-true : (b : Bool) → some (if b then taken else not_taken) ≡ some taken → b ≡ true
taken-true true h = refl
taken-true false h = cc h

module _ (sat : SatCounter) where
  open sat use {Counter, add, value, max_value, value-le, value-add, max_value-add}

  pub record IsValid (u : LocalUnit sat) : Type 0 where
    pub sets_pos : 0 < u.predictor_sets
    pub sets_fit : u.predictor_sets < 4294967296
    pub sets : length u.table ≡ u.predictor_sets

  pub new_local-IsValid :
      (penalty ctrl_bits size : ℕ)
      → 0 < size / ctrl_bits
      → size / ctrl_bits < 4294967296
      → IsValid (new_local sat penalty ctrl_bits size)
  unfolding new_local
  new_local-IsValid penalty ctrl_bits size h k = record {
    sets_pos = h;
    sets_fit = k;
    sets = length-replicate (size / ctrl_bits) _;
  }

  index-lt :
      {u : LocalUnit sat} (ia : InstrAddr) → IsValid u → predictor_index sat u ia < length u.table
  unfolding predictor_index
  index-lt ia v = omega (arith, v.sets_pos, v.sets_fit, v.sets)

  -- One call: the counter of the address, and every other one as before.
  record_one :
      (u : LocalUnit sat) (ia : InstrAddr) (d : BranchDirection)
      → IsValid u
      → (c : Counter) × (get_elem? u.table (predictor_index sat u ia) ≡ some c)
        × (record_taken_branch sat u ia d
            ≡ some (record u { table = set u.table (predictor_index sat u ia) (add c (amount d)) }))
        × IsValid (record u { table = set u.table (predictor_index sat u ia) (add c (amount d)) })
  unfolding record_taken_branch
  record_one u ia d v =
      let (c, at) = get_elem?-in_range u.table (predictor_index sat u ia) (index-lt ia v) in
      (
        c,
        at,
        rw at refl,
        record {
          sets_pos = v.sets_pos;
          sets_fit = v.sets_fit;
          sets = length-set u.table _ _ ∙ v.sets;
        },
      )

  -- The counter of an index after one call.
  counter_step :
      (u : LocalUnit sat) (ia : InstrAddr) (d : BranchDirection) (i : ℕ) (c0 c : Counter)
      → IsValid u
      → get_elem? u.table (predictor_index sat u ia) ≡ some c0
      → get_elem? u.table i ≡ some c
      → (c' : Counter) × (get_elem? (set u.table (predictor_index sat u ia) (add c0 (amount d))) i
          ≡ some c')
        × (value c'
            ≡ min
                (max_value c)
                (value c + (if u32 (ia.addr % u.predictor_sets) == i then amount d else 0)))
        × (max_value c' ≡ max_value c)
  unfolding predictor_index
  counter_step u ia d i c0 c v at0 at = elim (Bool-cases (u32 (ia.addr % u.predictor_sets) == i)) [
    | inl e ↦
        let same : u32 (ia.addr % u.predictor_sets) ≡ i = (==_iff _ i).0 e in
        let eq : c0 ≡ c = cc (at0, at, same) in
        (
          add c0 (amount d),
          subst
              (λ k.
                get_elem? (set u.table (predictor_index sat u ia) (add c0 (amount d))) k
                ≡ some (add c0 (amount d)))
              same
              (get_elem?-set_self u.table (predictor_index sat u ia) (add c0 (amount d))
                (index-lt ia v)),
          rw e (value-add c0 (amount d) ∙ ap (λ x. min (max_value x) (value x + amount d)) eq),
          max_value-add c0 (amount d) ∙ ap max_value eq,
        )
    | inr e ↦
        let other : u32 (ia.addr % u.predictor_sets) ≢ i = λ p. cc (e, (==_iff _ i).1 p) in
        (
          c,
          get_elem?-set_ne u.table (predictor_index sat u ia) i (add c0 (amount d)) other ∙ at,
          rw e (omega (arith, value-le c)),
          refl,
        )
  ]

  -- A valid unit takes any sequence of branches, and each counter then holds what it held plus the
  -- number of taken branches at its index, up to its largest value: branches that were not taken
  -- leave no trace. The number of sets and of bits stays.
  pub record_all_counts :
      (u : LocalUnit sat) (bs : List (InstrAddr × BranchDirection)) (i : ℕ) (c : Counter)
      → IsValid u
      → get_elem? u.table i ≡ some c
      → (u' : LocalUnit sat) × (c' : Counter) × (record_all sat u bs ≡ some u')
        × (get_elem? u'.table i ≡ some c')
        × (value c' ≡ min (max_value c) (value c + taken_at u.predictor_sets i bs))
        × (u'.predictor_sets ≡ u.predictor_sets)
        × (u'.ctrl_bits ≡ u.ctrl_bits)
  unfolding record_all
  record_all_counts u [] i c v at = (u, c, refl, at, omega (arith, value-le c), refl, refl)
  record_all_counts u ((ia, d) ∷ bs) i c v at =
      let (c0, at0, eq, v') = record_one u ia d v in
      let (c1, at1, value1, max1) = counter_step u ia d i c0 c v at0 at in
      let (u', c', all, at', value', sets', bits') =
        record_all_counts
          (record u { table = set u.table (predictor_index sat u ia) (add c0 (amount d)) }) bs i c1
          v' at1 in
      (u', c', rw eq all, at', omega arith, sets', bits')

  predict_branch_lem :
      (u : LocalUnit sat) (ia : InstrAddr) (c : Counter)
      → get_elem? u.table (predictor_index sat u ia) ≡ some c
      → predict_branch sat u ia
        ≡ some (if ltb 0 (value c / 2 ^ (u.ctrl_bits - 1)) then taken else not_taken)
  unfolding predict_branch get_prediction
  predict_branch_lem u ia c at = rw at refl

  -- On a valid unit, once an address is predicted `TAKEN`, it is predicted `TAKEN` after every
  -- sequence of branches, however often it is not taken.
  pub taken_forever :
      (u : LocalUnit sat) (ia : InstrAddr) (bs : List (InstrAddr × BranchDirection))
      → IsValid u
      → predict_branch sat u ia ≡ some taken
      → (u' : LocalUnit sat) × (record_all sat u bs ≡ some u')
        × (predict_branch sat u' ia ≡ some taken)
  unfolding predictor_index
  taken_forever u ia bs v p =
      let (c, at) = get_elem?-in_range u.table (predictor_index sat u ia) (index-lt ia v) in
      let (u', c', all, at', counted, sets', bits') =
        record_all_counts u bs (predictor_index sat u ia) c v at in
      let was : ltb 0 (value c / 2 ^ (u.ctrl_bits - 1)) ≡ true =
        taken-true _ (sym (predict_branch_lem u ia c at) ∙ p) in
      let is : ltb 0 (value c' / 2 ^ (u.ctrl_bits - 1)) ≡ true =
        quotient_stays (value c) (value c') _ (omega (arith, value-le c)) was in
      let at2 : get_elem? u'.table (predictor_index sat u' ia) ≡ some c' = rw sets' at' in
      (u', all, predict_branch_lem u' ia c' at2 ∙ (rw (bits', is) refl))
