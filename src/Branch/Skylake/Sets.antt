-- ===== src/Branch/Skylake/Sets.antt =====
-- The sets of a `SkylakeBranchTable`: how many there are, of how many entries, and which one is
-- evicted.
use llvm_mca_daemon.Prelude.{
  ℕ, zero, suc, ◌+◌, ◌≤◌, ◌<◌, ◌≡◌, refl, ap, ◌⊎◌, false, some, List, [], ◌∷◌, arith, ltb, leb,
  ◌==◌, u32, if◌then◌else◌, All, Bool-cases, Option-cases, inl, inr, length, length-append,
}
use llvm_mca_daemon.Prelude.Assoc.{lookup, insert, erase, lookup-insert}
use llvm_mca_daemon.Metadata.{InstrAddr}
use llvm_mca_daemon.Branch.Skylake.{
  SkylakeEntry, SkylakeTable, find_useful, set_of, get_table, count_use, use_entry, least_useful,
  remove_entry, remove_least, pht_set_push, score, least_set,
}

-- Every set has four entries at most.
abbrev pub AllFit : SkylakeTable → Type 0
AllFit pht = All (λ (r : ℕ × List SkylakeEntry). length r.1 ≤ 4) pht

lookup-AllFit : (k : ℕ) (pht : SkylakeTable) → AllFit pht → length (set_of (lookup k pht)) ≤ 4
unfolding lookup
lookup-AllFit k [] h = omega arith
lookup-AllFit k ((j, es) ∷ m) h = elim (Bool-cases (j == k)) [
  | inl e ↦ rw e h.0
  | inr e ↦ rw e (lookup-AllFit k m h.1)
]

pub erase-AllFit : (k : ℕ) (pht : SkylakeTable) → AllFit pht → AllFit (erase k pht)
unfolding erase
erase-AllFit k [] h = tt
erase-AllFit k ((j, es) ∷ m) h = elim (Bool-cases (j == k)) [
  | inl e ↦ rw e (erase-AllFit k m h.1)
  | inr e ↦ rw e (h.0, erase-AllFit k m h.1)
]

length-erase : (k : ℕ) (pht : SkylakeTable) → length (erase k pht) ≤ length pht
unfolding erase
length-erase k [] = omega arith
length-erase k ((j, es) ∷ m) = ground (arith, length-erase k m)

pub length-erase_present :
    (k : ℕ) (pht : SkylakeTable) (es : List SkylakeEntry)
    → lookup k pht ≡ some es
    → length (erase k pht) + 1 ≤ length pht
unfolding erase lookup
length-erase_present k [] es h = ground arith
length-erase_present k ((j, fs) ∷ m) es h = elim (Bool-cases (j == k)) [
  | inl e ↦ rw e (omega (arith, length-erase k m))
  | inr e ↦
      let smaller = length-erase_present k m es (ground (arith, h, e)) in
      rw e (omega (arith, smaller))
]

least_useful-lt :
    (i best least : ℕ) (es : List SkylakeEntry)
    → best < i
    → least_useful i best least es < i + length es
unfolding least_useful
least_useful-lt i best least [] h = omega (arith, h)
least_useful-lt i best least (e ∷ es) h = elim (Bool-cases (ltb e.useful least)) [
  | inl b ↦ rw b (omega (arith, least_useful-lt (i + 1) i e.useful es (omega arith)))
  | inr b ↦ rw b (omega (arith, least_useful-lt (i + 1) best least es (omega (arith, h))))
]

length-remove_entry :
    (i : ℕ) (es : List SkylakeEntry) → i < length es → length (remove_entry i es) + 1 ≡ length es
unfolding remove_entry
length-remove_entry i [] h = ground (arith, h)
length-remove_entry zero (e ∷ es) h = omega arith
length-remove_entry (suc i) (e ∷ es) h = omega (arith, length-remove_entry i es (omega (arith, h)))

-- A set that is full makes room for one entry.
length-kept :
    (es : List SkylakeEntry)
    → length es ≤ 4
    → length (if leb 4 (length es) then remove_least es else es) ≤ 3
unfolding remove_least
length-kept [] h = omega arith
length-kept (e ∷ es) h = elim (Bool-cases (leb 4 (length (e ∷ es)))) [
  | inl b ↦
      let i = least_useful 1 0 e.useful es in
      let removed =
        length-remove_entry i (e ∷ es)
          (omega (arith, least_useful-lt 1 0 e.useful es (omega arith))) in
      rw b (omega (arith, removed, h))
  | inr b ↦ ground (arith, b, h)
]

pub insert-AllFit :
    (k : ℕ) (es : List SkylakeEntry) (pht : SkylakeTable)
    → length es ≤ 4
    → AllFit pht
    → AllFit (insert k es pht)
unfolding insert
insert-AllFit k es pht h p = (h, erase-AllFit k pht p)

pub length-insert :
    (k : ℕ) (es : List SkylakeEntry) (pht : SkylakeTable)
    → length (insert k es pht) ≤ length pht + 1
unfolding insert
length-insert k es pht = omega (arith, length-erase k pht)

pub length-insert_present :
    (k : ℕ) (es fs : List SkylakeEntry) (pht : SkylakeTable)
    → lookup k pht ≡ some fs
    → length (insert k es pht) ≤ length pht
unfolding insert
length-insert_present k es fs pht h = omega (arith, length-erase_present k pht fs h)

pub lookup-insert_self :
    (k : ℕ) (es : List SkylakeEntry) (pht : SkylakeTable) → lookup k (insert k es pht) ≡ some es
lookup-insert_self k es pht = ground (arith, lookup-insert k k es pht)

pub pht_set_push-AllFit :
    (pht : SkylakeTable) (pc : InstrAddr) (index : ℕ)
    → AllFit pht
    → AllFit (pht_set_push pht pc index)
unfolding pht_set_push
pht_set_push-AllFit pht pc index h =
    let es = set_of (lookup index pht) in
    let kept = if leb 4 (length es) then remove_least es else es in
    insert-AllFit index _ pht
      (omega (
        arith,
        length-append kept (record { pc = pc.addr; useful = 0 } ∷ []),
        length-kept es (lookup-AllFit index pht h),
      ))
      h

pub length-pht_set_push :
    (pht : SkylakeTable) (pc : InstrAddr) (index : ℕ) (es : List SkylakeEntry)
    → lookup index pht ≡ some es
    → length (pht_set_push pht pc index) ≤ length pht
unfolding pht_set_push
length-pht_set_push pht pc index es h = length-insert_present index _ es pht h

abbrev pub HasKey : ℕ → SkylakeTable → Type 0
HasKey k pht = (es : List SkylakeEntry) × (lookup k pht ≡ some es)

pub HasKey-head :
    (r k : ℕ) (es : List SkylakeEntry) (m : SkylakeTable) → r ≡ k → HasKey r ((k, es) ∷ m)
unfolding lookup
HasKey-head r k es m e = (es, ground (arith, e))

HasKey-tail :
    (r k : ℕ) (es : List SkylakeEntry) (m : SkylakeTable) → HasKey r m → HasKey r ((k, es) ∷ m)
unfolding lookup
HasKey-tail r k es m (fs, h) = elim (Bool-cases (k == r)) [
  | inl b ↦ (es, rw b refl)
  | inr b ↦ (fs, rw b h)
]

-- The set that goes is the one found before, or one of the table.
least_set_choice :
    (remove check : ℕ) (m : SkylakeTable)
    → (least_set remove check m ≡ remove) ⊎ HasKey (least_set remove check m) m
unfolding least_set
least_set_choice remove check [] = inl refl
least_set_choice remove check ((k, es) ∷ m) = elim (Bool-cases (ltb check (score es 0))) [
  | inl b ↦ rw b (elim (least_set_choice remove check m) [
    | inl e ↦ inl e
    | inr h ↦ inr (HasKey-tail _ k es m h)
  ])
  | inr b ↦ rw b (elim (least_set_choice k (score es 0) m) [
    | inl e ↦ inr (HasKey-head _ k es m e)
    | inr h ↦ inr (HasKey-tail _ k es m h)
  ])
]

score-lt : (es : List SkylakeEntry) (n : ℕ) → n < 4294967296 → score es n < 4294967296
unfolding score
score-lt [] n h = h
score-lt (e ∷ es) n h = score-lt es (u32 (n + e.useful)) (omega arith)

pub least_set-HasKey :
    (k : ℕ) (es : List SkylakeEntry) (m : SkylakeTable)
    → HasKey (least_set 0 4294967295 ((k, es) ∷ m)) ((k, es) ∷ m)
unfolding least_set
least_set-HasKey k es m =
    let low = score-lt es 0 (omega arith) in
    let first : ltb 4294967295 (score es 0) ≡ false = ground (arith, low) in
    rw first (elim (least_set_choice k (score es 0) m) [
      | inl e ↦ HasKey-head _ k es m e
      | inr h ↦ HasKey-tail _ k es m h
    ])

length-count_use : (i : ℕ) (es : List SkylakeEntry) → length (count_use i es) ≡ length es
unfolding count_use
length-count_use i [] = refl
length-count_use zero (e ∷ es) = refl
length-count_use (suc i) (e ∷ es) = ap suc (length-count_use i es)

pub use_entry-AllFit :
    (pht : SkylakeTable) (index i : ℕ) → AllFit pht → AllFit (use_entry pht index i)
unfolding use_entry
use_entry-AllFit pht index i h =
    let es = set_of (lookup index pht) in
    insert-AllFit index _ pht (omega (arith, length-count_use i es, lookup-AllFit index pht h)) h

-- Only a set that is there has an entry to be found.
pub get_table-HasKey :
    (pht : SkylakeTable) (index pc i : ℕ) → get_table pht index pc ≡ some i → HasKey index pht
unfolding get_table find_useful
get_table-HasKey pht index pc i h = elim (Option-cases (lookup index pht)) [
  | inl e ↦ ground (arith, h, e)
  | inr (es, e) ↦ (es, e)
]
