-- ===== src/Worker/Recycle.antt =====
-- MCAWorker.cpp: `RecycledInsts`, the pool of instructions that were freed, by the descriptor that
-- they were built from. Pointers are numbers; a `std::set` is a list in order.
use llvm_mca_daemon.Prelude.{
  subst, not, ◌&&◌, ℕ, suc, ◌<◌, ◌≡◌, refl, sym, ap, ◌∙◌, inl, inr, Bool, true, false, Option, none,
  some, List, [], ◌∷◌, arith, ltb, ◌==◌, ◌||◌, if◌then◌else◌, Bool-cases,
}
use llvm_mca_daemon.Prelude.Assoc.{Assoc, lookup, insert, lookup-insert}

-- `insert` of a `std::set`.
unfoldable pub set_insert : ℕ → List ℕ → List ℕ
set_insert i [] = i ∷ []
set_insert i (j ∷ js) =
    let rest = set_insert i js in
    if i == j then j ∷ js else if ltb i j then i ∷ j ∷ js else j ∷ rest

abbrev pub or_nil : Option (List ℕ) → List ℕ
or_nil none = []
or_nil (some is) = is

abbrev pub insts_of : ℕ → Assoc (List ℕ) → List ℕ
insts_of d pool = or_nil (lookup d pool)

-- `AddRecycledInst`
unfoldable pub add_recycled_inst : ℕ → ℕ → Assoc (List ℕ) → Assoc (List ℕ)
unfolding set_insert
add_recycled_inst d i pool = insert d (set_insert i (insts_of d pool)) pool

abbrev pub take_first : ℕ → List ℕ → Assoc (List ℕ) → Option ℕ × Assoc (List ℕ)
take_first d [] pool = (none, pool)
take_first d (i ∷ is) pool = (some i, insert d is pool)

-- `GetRecycledInst`
unfoldable pub get_recycled_inst : ℕ → Assoc (List ℕ) → Option ℕ × Assoc (List ℕ)
get_recycled_inst d pool = take_first d (insts_of d pool) pool

abbrev pub has : ℕ → List ℕ → Bool
has i [] = false
has i (j ∷ js) = i == j || has i js

-- In ascending order, all above a bound.
abbrev pub IsAbove : ℕ → List ℕ → Type 0
IsAbove low [] = Unit
IsAbove low (i ∷ is) = (low < i) × IsAbove i is

abbrev pub IsAscending : List ℕ → Type 0
IsAscending [] = Unit
IsAscending (i ∷ is) = IsAbove i is

has-set_insert : (i k : ℕ) (js : List ℕ) → has k (set_insert i js) ≡ (k == i || has k js)
unfolding set_insert
has-set_insert i k [] = refl
has-set_insert i k (j ∷ js) = ground (arith, has-set_insert i k js)

IsAbove-set_insert :
    (low i : ℕ) (js : List ℕ) → low < i → IsAbove low js → IsAbove low (set_insert i js)
unfolding set_insert
IsAbove-set_insert low i [] h a = (h, tt)
IsAbove-set_insert low i (j ∷ js) h a = elim (Bool-cases (i == j)) [
  | inl same ↦ rw same a
  | inr ne ↦ elim (Bool-cases (ltb i j)) [
    | inl lt ↦ rw (ne, lt) (h, (ground (arith, lt), a.1))
    | inr ge ↦ rw (ne, ge) (a.0, IsAbove-set_insert j i js (ground (arith, ne, ge)) a.1)
  ]
]

above_not : (low k : ℕ) (js : List ℕ) → k < suc low → IsAbove low js → has k js ≡ false
above_not low k [] h a = refl
above_not low k (j ∷ js) h a = ground (arith, h, a.0, above_not j k js (omega (arith, h, a.0)) a.1)

insts_of-insert :
    (d e : ℕ) (is : List ℕ) (pool : Assoc (List ℕ))
    → insts_of e (insert d is pool) ≡ (if d == e then is else insts_of e pool)
insts_of-insert d e is pool =
    ap or_nil (lookup-insert d e is pool)
    ∙ elim (Bool-cases (d == e)) [ inl h ↦ rw h refl | inr h ↦ rw h refl ]

IsAscending-set_insert : (i : ℕ) (js : List ℕ) → IsAscending js → IsAscending (set_insert i js)
unfolding set_insert
IsAscending-set_insert i [] a = tt
IsAscending-set_insert i (j ∷ js) a = elim (Bool-cases (i == j)) [
  | inl same ↦ rw same a
  | inr ne ↦ elim (Bool-cases (ltb i j)) [
    | inl lt ↦ rw (ne, lt) (ground (arith, lt), a)
    | inr ge ↦ rw (ne, ge) (IsAbove-set_insert j i js (ground (arith, ne, ge)) a)
  ]
]

and-true : (b : Bool) → b ≡ (b && true)
and-true true = refl
and-true false = refl

taken_lem : (i k : ℕ) (is : List ℕ) → IsAbove i is → has k is ≡ (has k (i ∷ is) && not (k == i))
taken_lem i k is a = elim (Bool-cases (k == i)) [
  | inl same ↦
      let gone : has k is ≡ false = above_not i k is (ground (arith, same)) a in
      rw (same, gone) refl
  | inr ne ↦ rw ne (and-true (has k is))
]

-- Every set of the pool is in order.
abbrev pub IsPool : Assoc (List ℕ) → Type 0
IsPool pool = (d : ℕ) → IsAscending (insts_of d pool)

IsPool-insert :
    (d : ℕ) (is : List ℕ) (pool : Assoc (List ℕ))
    → IsAscending is
    → IsPool pool
    → IsPool (insert d is pool)
IsPool-insert d is pool a p e = elim (Bool-cases (d == e)) [
  | inl h ↦ subst IsAscending (sym (insts_of-insert d e is pool ∙ (rw h refl))) a
  | inr h ↦ subst IsAscending (sym (insts_of-insert d e is pool ∙ (rw h refl))) (p e)
]

tail_lem : (i : ℕ) (is : List ℕ) → IsAscending (i ∷ is) → IsAscending is
tail_lem i [] a = tt
tail_lem i (j ∷ js) a = a.1

pub add_recycled_inst_lem :
    (d i : ℕ) (pool : Assoc (List ℕ))
    → IsPool pool
    → IsPool (add_recycled_inst d i pool)
      × ((e k : ℕ)
          → has k (insts_of e (add_recycled_inst d i pool))
            ≡ (if d == e then (k == i || has k (insts_of d pool)) else has k (insts_of e pool)))
unfolding add_recycled_inst
add_recycled_inst_lem d i pool p = (
  IsPool-insert d _ pool (IsAscending-set_insert i (insts_of d pool) (p d)) p,
  λ e k.
      ap (has k) (insts_of-insert d e (set_insert i (insts_of d pool)) pool)
      ∙ elim (Bool-cases (d == e)) [
        | inl h ↦ rw h (has-set_insert i k (insts_of d pool))
        | inr h ↦ rw h refl
      ],
)

-- What `GetRecycledInst` hands out, and what stays.
pub data Recycled (d : ℕ) (pool : Assoc (List ℕ)) : Option ℕ × Assoc (List ℕ) → Type 0 where
  nothing_left : insts_of d pool ≡ [] → Recycled d pool (none, pool)
  handed_out :
      (i : ℕ) (pool' : Assoc (List ℕ))
      → has i (insts_of d pool) ≡ true
      → IsPool pool'
      → ((e k : ℕ) → has k (insts_of e pool') ≡ (has k (insts_of e pool) && not (d == e && k == i)))
      → Recycled d pool (some i, pool')

-- On a pool whose sets are in order, `GetRecycledInst` returns nothing and leaves the pool if there
-- is no freed instruction of the descriptor. Otherwise it returns one of them; the sets stay in
-- order, and the pool holds what it held less that instruction of that descriptor, so that none is
-- handed out twice.
pub get_recycled_inst_lem :
    (d : ℕ) (pool : Assoc (List ℕ)) → IsPool pool → Recycled d pool (get_recycled_inst d pool)
unfolding get_recycled_inst
get_recycled_inst_lem d pool p = first_lem (insts_of d pool) refl
  where
    others_lem :
        (i : ℕ) (is : List ℕ) (e k : ℕ)
        → insts_of d pool ≡ i ∷ is
        → has k (if d == e then is else insts_of e pool)
          ≡ (has k (insts_of e pool) && not (d == e && k == i))
    others_lem i is e k found = elim (Bool-cases (d == e)) [
      | inl h ↦
          let at : d ≡ e = ground (arith, h) in
          let here : insts_of e pool ≡ i ∷ is = ap (λ x. insts_of x pool) (sym at) ∙ found in
          let above : IsAbove i is = subst IsAscending found (p d) in
          rw h (taken_lem i k is above ∙ ap (λ l. has k l && not (k == i)) (sym here))
      | inr h ↦ rw h (and-true (has k (insts_of e pool)))
    ]

    first_lem : (is : List ℕ) → insts_of d pool ≡ is → Recycled d pool (take_first d is pool)
    first_lem [] found = nothing_left found
    first_lem (i ∷ is) found =
        let same : has i (i ∷ is) ≡ true = ground arith in
        handed_out i (insert d is pool) (ap (has i) found ∙ same)
          (IsPool-insert d is pool (tail_lem i is (subst IsAscending found (p d))) p)
          (λ e k. ap (has k) (insts_of-insert d e is pool) ∙ others_lem i is e k found)
