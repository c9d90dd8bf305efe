-- ===== src/Brokers/Vivisect/Moves.antt =====
-- `MCI_Pool` as a batch fills it: which of the pointers into it can be read afterwards.
use llvm_mca_daemon.Prelude.{
  ℕ, zero, suc, ◌+◌, ◌-◌, ◌≤◌, ◌<◌, ◌≡◌, refl, sym, ◌∙◌, ap, ap₂, true, false, none, some, List, [],
  ◌∷◌, ◌++◌, append-nil, append_assoc, map, arith, length, length-append, replicate, get_elem?, ltb,
  ltb→lt, leb, leb→le, ◌==◌, if◌then◌else◌, Bool-cases, inl, inr,
}
use llvm_mca_daemon.Brokers.Vivisect.{Pool, Place, emplace_back, read}

added : {A : Type 0} (xs : List A) (a : A) → length (xs ++ (a ∷ [])) ≡ length xs + 1
added xs a = length-append xs (a ∷ [])

get_elem?-append :
    {A : Type 0} (xs : List A) (a : A) (ys : List A)
    → get_elem? (xs ++ (a ∷ ys)) (length xs) ≡ some a
get_elem?-append [] a ys = refl
get_elem?-append (x ∷ xs) a ys = get_elem?-append xs a ys

read-moved : {Inst : Type 0} (p : Pool Inst) (a : Place) → a.block < p.block → read p a ≡ none
unfolding read
read-moved p a lt = let gone : (a.block == p.block) ≡ false = ground (arith, lt) in rw gone refl

read-kept :
    {Inst : Type 0} (p : Pool Inst) (a : Place)
    → p.block ≡ a.block
    → read p a ≡ get_elem? p.slots a.index
unfolding read
read-kept p a same = let here : (a.block == p.block) ≡ true = ground (arith, same) in rw here refl

-- The capacity after an element was added to `len` others.
abbrev pub next_capacity : (ℕ → ℕ) → ℕ → ℕ → ℕ
next_capacity grow room len = if ltb len room then room else grow room

-- How many of the next `n` pointers dangle in the end: those before the last move of the pool.
abbrev pub stale : (ℕ → ℕ) → ℕ → ℕ → ℕ → ℕ
stale grow zero room len = 0
stale grow (suc n) room len =
    let c = next_capacity grow room len in
    let rest = stale grow n c (len + 1) in if ltb c (len + 1 + n) then suc rest else 0

stale_fitting : (grow : ℕ → ℕ) (n room len : ℕ) → len + n ≤ room → stale grow n room len ≡ 0
stale_fitting grow zero room len h = refl
stale_fitting grow (suc n) room len h =
    let has_room : ltb len room ≡ true = ground (arith, h) in
    let fits : ltb room (len + 1 + n) ≡ false = ground (arith, h) in rw (has_room, fits) refl

module _ {Inst : Type 0} (grow : ℕ → ℕ) (larger : (c : ℕ) → c < grow c) where
  -- The pool after one more element.
  record Emplaced (inst : Inst) (p p1 : Pool Inst) : Type 0 where
    slots : p1.slots ≡ p.slots ++ (inst ∷ [])
    capacity : p1.capacity ≡ next_capacity grow p.capacity (length p.slots)
    fits : length p1.slots ≤ p1.capacity
    moves : p1.block ≡ (if ltb (length p.slots) p.capacity then p.block else p.block + 1)

  emplace_back-Emplaced :
      (inst : Inst) (p : Pool Inst)
      → length p.slots ≤ p.capacity
      → Emplaced inst p (emplace_back grow inst p)
  unfolding emplace_back
  emplace_back-Emplaced inst p valid = elim (Bool-cases (ltb (length p.slots) p.capacity)) [
    | inl t ↦ rw t (record {
      slots = refl;
      capacity = rw t refl;
      fits = omega (arith, added p.slots inst, ltb→lt _ _ t);
      moves = rw t refl;
    })
    | inr t ↦ rw t (record {
      slots = refl;
      capacity = rw t refl;
      fits = omega (arith, added p.slots inst, larger p.capacity, valid);
      moves = rw t refl;
    })
  ]

  pub emplace_back-fits :
      (inst : Inst) (p : Pool Inst)
      → length p.slots ≤ p.capacity
      → length (emplace_back grow inst p).slots ≤ (emplace_back grow inst p).capacity
  emplace_back-fits inst p valid = (emplace_back-Emplaced inst p valid).fits

  -- The pool after `n` times the same element, and what is read then through the pointers.
  pub record Filled (inst : Inst) (n : ℕ) (p p' : Pool Inst) (places : List Place) : Type 0 where
    pub slots : p'.slots ≡ p.slots ++ replicate n inst
    pub stays : length p.slots + n ≤ p.capacity → p'.block ≡ p.block
    pub moves : p.capacity < length p.slots + n → p.block < p'.block
    pub reads :
        map (read p') places
        ≡ replicate (stale grow n p.capacity (length p.slots)) none
          ++ replicate (n - stale grow n p.capacity (length p.slots)) (some inst)

  pub Filled-zero :
      (inst : Inst) (p : Pool Inst) → length p.slots ≤ p.capacity → Filled inst zero p p []
  Filled-zero inst p valid = record {
    slots = sym (append-nil p.slots);
    stays = λ h. refl;
    moves = λ h. absurd (omega (arith, h, valid));
    reads = refl;
  }

  pub Filled-suc :
      (inst : Inst) (n : ℕ) (p p' : Pool Inst) (places : List Place)
      → length p.slots ≤ p.capacity
      → Filled inst n (emplace_back grow inst p) p' places
      → let p1 = emplace_back grow inst p in
        Filled inst (suc n) p p' (record { block = p1.block; index = length p.slots } ∷ places)
  Filled-suc inst n p p' places valid f =
      let p1 = emplace_back grow inst p in
      let len = length p.slots in
      let c = next_capacity grow p.capacity len in
      let e = emplace_back-Emplaced inst p valid in
      let len1 : length p1.slots ≡ len + 1 = ap length e.slots ∙ added p.slots inst in
      let all_slots : p'.slots ≡ p.slots ++ replicate (suc n) inst =
        f.slots
        ∙ ap (λ l. l ++ replicate n inst) e.slots
        ∙ append_assoc p.slots (inst ∷ []) (replicate n inst) in
      let place : Place = record { block = p1.block; index = len } in
      let k = stale grow n c (len + 1) in
      let others : map (read p') places ≡ replicate k none ++ replicate (n - k) (some inst) =
        f.reads
        ∙ ap₂
            (λ a b.
              replicate (stale grow n a b) none ++ replicate (n - stale grow n a b) (some inst))
            e.capacity len1 in
      record {
        slots = all_slots;
        stays = λ h.
            let fits : length p1.slots + n ≤ p1.capacity = ground (arith, len1, e.capacity, h) in
            let same = f.stays fits in ground (arith, same, e.moves, h);
        moves = λ h. elim (Bool-cases (leb (length p1.slots + n) p1.capacity)) [
          | inl t ↦
              let same = f.stays (leb→le _ _ t) in
              ground (arith, same, e.moves, e.capacity, len1, leb→le _ _ t, h)
          | inr t ↦ let later = f.moves (ground (arith, t)) in ground (arith, later, e.moves)
        ];
        reads = elim (Bool-cases (ltb c (len + 1 + n))) [
          | inl t ↦
              let gone = f.moves (omega (arith, ltb→lt _ _ t, e.capacity, len1)) in
              let count : n - k ≡ suc n - suc k = omega arith in
              rw t (
                ap₂ (λ a l. a ∷ l) (read-moved p' place gone)
                  (others ∙ ap (λ m. replicate k none ++ replicate m (some inst)) count))
          | inr t ↦
              let fits : len + 1 + n ≤ c = ground (arith, t) in
              let same = f.stays (omega (arith, fits, e.capacity, len1)) in
              let zero_k : k ≡ 0 = stale_fitting grow n c (len + 1) fits in
              let less : n - 0 ≡ n = omega arith in
              let all_n : suc n ≡ suc n - 0 = omega arith in
              rw t (
                ap₂ (λ a l. a ∷ l)
                  (read-kept p' place same
                    ∙ ap (λ l. get_elem? l len) all_slots
                    ∙ get_elem?-append p.slots inst (replicate n inst))
                  (others
                    ∙ ap (λ m. replicate m none ++ replicate (n - m) (some inst)) zero_k
                    ∙ ap (λ m. replicate m (some inst)) less)
                ∙ ap (λ m. replicate m (some inst)) all_n)
        ];
      }
