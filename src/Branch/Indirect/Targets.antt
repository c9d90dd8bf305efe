-- ===== src/Branch/Indirect/Targets.antt =====
-- What `IndirectBPU` predicts after a branch was recorded.
use llvm_mca_daemon.Prelude.{
  ℕ, zero, suc, subst, >>=-eq-some, ◌%◌, ◌<◌, ◌≡◌, ◌≢◌, refl, sym, ap, ◌∙◌, true, false, Option,
  none, some, List, [], ◌∷◌, arith, ◌>>=◌, ==_refl, get_elem?, set, length, All, All-get_elem?,
  All-set, All-replicate, length-set, length-replicate, get_elem?-in_range, get_elem?-set_self,
  get_elem?-set_ne, Bool-cases, Option-cases, inl, inr,
}
use native.Mathlib.Nat.{mod-lt}
use llvm_mca_daemon.Metadata.{InstrAddr, instr_eq}
use llvm_mca_daemon.Branch.Indirect.{
  IndirectBranchEntry, IndirectUnit, new_indirect, target_set, retarget, record_in_set,
  record_target, find_target, predict_target,
}

-- A table of the sizes that the unit was built with, neither of them zero.
pub record IsValid (u : IndirectUnit) : Type 0 where
  pub ways_pos : 0 < u.num_ways
  pub sets_pos : 0 < u.num_sets
  pub sets_fit : u.num_sets < 4294967296
  pub sets : length u.table ≡ u.num_sets
  pub ways : All (λ ws. length ws ≡ u.num_ways) u.table

pub new_indirect-IsValid :
    (num_sets num_ways : ℕ)
    → 0 < num_ways
    → 0 < num_sets
    → num_sets < 4294967296
    → IsValid (new_indirect num_sets num_ways)
unfolding new_indirect
new_indirect-IsValid num_sets num_ways w s f = record {
  ways_pos = w;
  sets_pos = s;
  sets_fit = f;
  sets = length-replicate num_sets _;
  ways = All-replicate (λ ws. length ws ≡ num_ways) num_sets _ (length-replicate num_ways _);
}

target_set-lt : {u : IndirectUnit} (ia : InstrAddr) → IsValid u → target_set u ia < length u.table
unfolding target_set
target_set-lt ia v = omega (arith, v.sets_pos, v.sets_fit, v.sets)

instr_eq_refl : (ia : InstrAddr) → instr_eq ia ia ≡ true
unfolding instr_eq
instr_eq_refl ia = rw (==_refl ia.addr, ==_refl ia.size) refl

-- The way that `retarget` has written is the one that `find_target` reads.
retarget_lem :
    (ia dest : InstrAddr) (ways ws : List IndirectBranchEntry)
    → retarget ia dest ways ≡ some ws
    → (find_target ia ws ≡ some dest) × (length ws ≡ length ways)
unfolding retarget find_target
retarget_lem ia dest [] ws e = cc
retarget_lem ia dest (way ∷ ways) ws e = elim (Bool-cases (instr_eq way.tag ia)) [
  | inl hit ↦
      let e' : ◌≡◌ {A = Option (List IndirectBranchEntry)}
          (some (record way { target = dest } ∷ ways)) (some ws) =
        rw hit at e in
      let same : (record way { target = dest } ∷ ways) ≡ ws = cc e' in
      subst (λ l. (find_target ia l ≡ some dest) × (length l ≡ suc (length ways))) same
        (rw hit refl, refl)
  | inr miss ↦
      let e' : (retarget ia dest ways >>= λ l. some (way ∷ l)) ≡ some ws = rw miss at e in
      let (l, found, made) = >>=-eq-some (retarget ia dest ways) (λ l. some (way ∷ l)) e' in
      let (target, size) = retarget_lem ia dest ways l found in
      let same : (way ∷ l) ≡ ws = cc made in
      subst (λ l. (find_target ia l ≡ some dest) × (length l ≡ suc (length ways))) same
        (rw (miss) target, ap suc size)
]

overwritten_at :
    (ia dest : InstrAddr) (way : IndirectBranchEntry) (ways : List IndirectBranchEntry) (i : ℕ)
    → instr_eq way.tag ia ≡ false
    → i < suc (length ways)
    → ((j : ℕ)
        → j < length ways
        → find_target ia (set ways j (record { tag = ia; target = dest })) ≡ some dest)
    → find_target ia (set (way ∷ ways) i (record { tag = ia; target = dest })) ≡ some dest
unfolding find_target
overwritten_at ia dest way ways zero miss h rest = rw (instr_eq_refl ia) refl
overwritten_at ia dest way ways (suc i) miss h rest = rw miss (rest i (omega arith))

-- Without a way of that tag, the way that is overwritten is the first with it.
overwritten_found :
    (ia dest : InstrAddr) (ways : List IndirectBranchEntry) (i : ℕ)
    → retarget ia dest ways ≡ none
    → i < length ways
    → find_target ia (set ways i (record { tag = ia; target = dest })) ≡ some dest
unfolding retarget find_target
overwritten_found ia dest [] i e h = elim h [ ]
overwritten_found ia dest (way ∷ ways) i e h = elim (Bool-cases (instr_eq way.tag ia)) [
  | inl hit ↦
      let e' : ◌≡◌ {A = Option (List IndirectBranchEntry)}
          (some (record way { target = dest } ∷ ways)) none =
        rw hit at e in
      cc e'
  | inr miss ↦
      let e' : (retarget ia dest ways >>= λ l. some (way ∷ l)) ≡ none = rw miss at e in
      elim (Option-cases (retarget ia dest ways)) [
        | inl none_left ↦
            overwritten_at ia dest way ways i miss h
              (λ j k. overwritten_found ia dest ways j none_left k)
        | inr (l, found) ↦
            let e'' : ◌≡◌ {A = Option (List IndirectBranchEntry)} (some (way ∷ l)) none =
              rw found at e' in
            cc e''
      ]
]

-- One call of `recordTakenBranch` on the set of the address.
record_in_set_lem :
    (num_ways random : ℕ) (ia dest : InstrAddr) (ways : List IndirectBranchEntry)
    → 0 < num_ways
    → length ways ≡ num_ways
    → (find_target ia (record_in_set num_ways random ia dest ways) ≡ some dest)
      × (length (record_in_set num_ways random ia dest ways) ≡ num_ways)
unfolding record_in_set
record_in_set_lem num_ways random ia dest ways pos size =
    elim (Option-cases (retarget ia dest ways)) [
      | inl e ↦
          rw (e, record_in_set)
            (
              overwritten_found ia dest ways (random % num_ways) e
                  (omega (arith, pos, size, mod-lt random pos)),
              length-set ways _ _ ∙ size,
            )
      | inr (ws, e) ↦
          let (found, kept) = retarget_lem ia dest ways ws e in
          rw (e, record_in_set) (found, kept ∙ size)
    ]

predict_target-set :
    (u : IndirectUnit) (s : ℕ) (new : List IndirectBranchEntry) (ja : InstrAddr)
    → s ≢ target_set u ja
    → predict_target (record u { table = set u.table s new }) ja ≡ predict_target u ja
unfolding predict_target target_set
predict_target-set u s new ja other =
    rw (get_elem?-set_ne u.table s (target_set u ja) new other) refl

-- On a valid unit a branch is recorded: the unit stays valid, and whichever way the random number
-- picks, the address is predicted to go to the recorded target.
pub record_then_predict_target :
    (random : ℕ) (u : IndirectUnit) (ia dest : InstrAddr)
    → IsValid u
    → (u' : IndirectUnit) × (record_target random u ia dest ≡ some u')
      × IsValid u'
      × (predict_target u' ia ≡ some dest)
unfolding record_target predict_target target_set
record_then_predict_target random u ia dest v =
    let (ways, at) = get_elem?-in_range u.table (target_set u ia) (target_set-lt ia v) in
    let size = All-get_elem? (λ ws. length ws ≡ u.num_ways) u.table _ ways v.ways at in
    let (found, kept) = record_in_set_lem u.num_ways random ia dest ways v.ways_pos size in
    let new = record_in_set u.num_ways random ia dest ways in
    (
      record u { table = set u.table (target_set u ia) new },
      rw at refl,
      record {
        ways_pos = v.ways_pos;
        sets_pos = v.sets_pos;
        sets_fit = v.sets_fit;
        sets = length-set u.table _ _ ∙ v.sets;
        ways = All-set (λ ws. length ws ≡ u.num_ways) u.table _ new v.ways kept;
      },
      rw (get_elem?-set_self u.table (target_set u ia) new (target_set-lt ia v), found) refl,
    )

-- A recorded branch leaves the predictions of the addresses of other sets as they were.
predict_target_other :
    (random : ℕ) (u u' : IndirectUnit) (ia dest ja : InstrAddr)
    → record_target random u ia dest ≡ some u'
    → target_set u ja ≢ target_set u ia
    → predict_target u' ja ≡ predict_target u ja
unfolding record_target
predict_target_other random u u' ia dest ja e other =
    let (ways, at, made) = >>=-eq-some (get_elem? u.table (target_set u ia)) _ e in
    let new = record_in_set u.num_ways random ia dest ways in
    let same : record u { table = set u.table (target_set u ia) new } ≡ u' = cc made in
    subst (λ w. predict_target w ja ≡ predict_target u ja) same
      (predict_target-set u (target_set u ia) new ja (λ p. other (sym p)))
