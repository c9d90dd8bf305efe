-- ===== src/Qemu/Exec/Chain.antt =====
-- The chain of memory accesses that `tbExec` makes for a slice.
use llvm_mca_daemon.Prelude.{
  ℕ, suc, ◌<◌, ◌≤◌, ◌≡◌, refl, ◌∙◌, ap, true, false, ◌||◌, Option, none, some, List, [], ◌∷◌, ltb,
  leb, ◌==◌, arith, if◌then◌else◌, All, All-mono, Bool-cases, inl, inr,
}
use llvm_mca_daemon.Prelude.Assoc.{Assoc}
use llvm_mca_daemon.Metadata.{MemoryAccess, append}
use llvm_mca_daemon.Qemu.{AccessChain}
use llvm_mca_daemon.Qemu.Exec.{FbAccess, mapped_index, push_access, take_access, take_accesses}
use llvm_mca_daemon.Qemu.Fetch.Emit.{IsChain}

-- The accesses come in the order of their instructions.
abbrev pub IsOrdered : Assoc ℕ → ℕ → List FbAccess → Type 0
IsOrdered skews low [] = Unit
IsOrdered skews low (a ∷ as') =
    (low ≤ mapped_index skews a.index) × IsOrdered skews (mapped_index skews a.index) as'

abbrev pub find_access : ℕ → AccessChain → Option MemoryAccess
find_access k [] = none
find_access k ((j, m) ∷ chain) = if j == k then some m else find_access k chain

-- One more access of an instruction: its first, or one that joins the others.
abbrev pub join : Option MemoryAccess → FbAccess → MemoryAccess
join none a = record { is_store = a.is_store; addr = a.vaddr; size = a.size; bundled = none }
join (some m) a = append m (record { is_store = a.is_store; addr = a.vaddr; size = a.size })

-- All accesses of an instruction, after `old`.
abbrev pub joined : Assoc ℕ → ℕ → Option MemoryAccess → List FbAccess → Option MemoryAccess
joined skews k old [] = old
joined skews k old (a ∷ as') =
    joined skews k (if mapped_index skews a.index == k then some (join old a) else old) as'

abbrev pub UpTo : ℕ → AccessChain → Type 0
UpTo k chain = All (λ (x : ℕ × MemoryAccess). x.0 ≤ k) chain

find_absent : (k i : ℕ) (chain : AccessChain) → k < i → IsChain i chain → find_access k chain ≡ none
find_absent k i [] lt h = refl
find_absent k i ((j, m) ∷ chain) lt h =
    ground (arith, find_absent k (suc j) chain (omega arith) h.1)

push_access_lem :
    (i low : ℕ) (a : FbAccess) (chain : AccessChain)
    → IsChain low chain
    → UpTo i chain
    → low ≤ i
    → IsChain low (push_access i a chain)
      × UpTo i (push_access i a chain)
      × ((k : ℕ)
          → find_access k (push_access i a chain)
            ≡ (if i == k then some (join (find_access k chain) a) else find_access k chain))
unfolding push_access
push_access_lem i low a [] h u le = ((le, tt), (omega arith, tt), λ k. refl)
push_access_lem i low a ((j, m) ∷ []) h u le = elim (Bool-cases (j == i)) [
  | inl e ↦ rw e ((h.0, tt), (u.0, tt), λ k. same k (ground (arith, e)))
  | inr e ↦ rw e (
    (h.0, (ground (arith, e, u), tt)),
    (u.0, (omega arith, tt)),
    λ k. apart k (ground (arith, e, u)),
  )
]
  where
    same :
        (k : ℕ)
        → j ≡ i
        → (if j == k
            then some (append m (record { is_store = a.is_store; addr = a.vaddr; size = a.size }))
            else none)
          ≡ (if i == k
              then some (join (if j == k then some m else none) a)
              else (if j == k then some m else none))
    same k e = elim (Bool-cases (j == k)) [
      | inl t ↦ let t' : (i == k) ≡ true = ground (arith, t, e) in rw (t, t') refl
      | inr t ↦ let t' : (i == k) ≡ false = ground (arith, t, e) in rw (t, t') refl
    ]

    apart :
        (k : ℕ)
        → j < i
        → (if j == k then some m else (if i == k then some (join none a) else none)) ≡ (
            if i == k
            then some (join (if j == k then some m else none) a)
            else (if j == k then some m else none))
    apart k lt = elim (Bool-cases (j == k)) [
      | inl t ↦ let t' : (i == k) ≡ false = ground (arith, t, lt) in rw (t, t') refl
      | inr t ↦ rw t refl
    ]
push_access_lem i low a ((j, m) ∷ y ∷ chain) h u le =
    let (ordered, upto, found) =
      push_access_lem i (suc j) a (y ∷ chain) h.1 u.1 (omega (arith, h.1.0, u.1.0)) in
    ((h.0, ordered), (u.0, upto), λ k. step k (found k) (omega (arith, h.1.0, u.1.0)))
  where
    step :
        (k : ℕ)
        → find_access k (push_access i a (y ∷ chain)) ≡ (
            if i == k then some (join (find_access k (y ∷ chain)) a) else find_access k (y ∷ chain))
        → j < i
        → (if j == k then some m else find_access k (push_access i a (y ∷ chain))) ≡ (
            if i == k
            then some (join (if j == k then some m else find_access k (y ∷ chain)) a)
            else (if j == k then some m else find_access k (y ∷ chain)))
    step k e lt = elim (Bool-cases (j == k)) [
      | inl t ↦ let t' : (i == k) ≡ false = ground (arith, t, lt) in rw (t, t') refl
      | inr t ↦ rw t e
    ]

push-Below :
    (i e : ℕ) (a : FbAccess) (chain : AccessChain)
    → i < e
    → All (λ (x : ℕ × MemoryAccess). x.0 < e) chain
    → All (λ (x : ℕ × MemoryAccess). x.0 < e) (push_access i a chain)
unfolding push_access
push-Below i e a [] lt h = (lt, tt)
push-Below i e a ((j, m) ∷ []) lt h = elim (Bool-cases (j == i)) [
  | inl t ↦ rw t (h.0, tt)
  | inr t ↦ rw t (h.0, (lt, tt))
]
push-Below i e a (x ∷ y ∷ chain) lt h = (h.0, push-Below i e a (y ∷ chain) lt h.1)

-- For accesses whose instructions come in order, added to an ordered chain in the slice up to the
-- first of them: the chain stays ordered and in the slice, and for each instruction of the slice it
-- holds all of its accesses, appended one after the other to what it held.
pub take_accesses_lem :
    (skews : Assoc ℕ) (b e low : ℕ) (as' : List FbAccess) (chain : AccessChain)
    → IsOrdered skews low as'
    → IsChain b chain
    → All (λ (x : ℕ × MemoryAccess). x.0 < e) chain
    → UpTo low chain
    → IsChain b (take_accesses skews b e as' chain)
      × All (λ (x : ℕ × MemoryAccess). x.0 < e) (take_accesses skews b e as' chain)
      × ((k : ℕ)
          → b ≤ k
          → k < e
          → find_access k (take_accesses skews b e as' chain)
            ≡ joined skews k (find_access k chain) as')
unfolding take_accesses take_access
take_accesses_lem skews b e low [] chain o h below u = (h, below, λ k p q. refl)
take_accesses_lem skews b e low (a ∷ as') chain o h below u =
    let i = mapped_index skews a.index in
    let up : UpTo i chain = All-mono _ chain (λ x p. omega (arith, p, o.0)) u in
    elim (Bool-cases (ltb i b || leb e i)) [
      | inl out ↦
          let (h', below', found) = take_accesses_lem skews b e i as' chain o.1 h below up in
          rw out
            (h', below', λ k p q. found k p q ∙ ap (λ m. joined skews k m as') (missed k i p q out))
      | inr into ↦
          let (h1, u1, one) = push_access_lem i b a chain h up (ground (arith, into)) in
          let (h', below', found) =
            take_accesses_lem skews b e i as' (push_access i a chain) o.1 h1
              (push-Below i e a chain (ground (arith, into)) below) u1 in
          rw into (h', below', λ k p q. found k p q ∙ ap (λ m. joined skews k m as') (one k))
    ]
  where
    missed :
        (k i : ℕ)
        → b ≤ k
        → k < e
        → (ltb i b || leb e i) ≡ true
        → find_access k chain
          ≡ (if i == k then some (join (find_access k chain) a) else find_access k chain)
    missed k i p q out = let ne : (i == k) ≡ false = ground (arith, p, q, out) in rw ne refl
