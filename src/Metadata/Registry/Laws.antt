-- ===== src/Metadata/Registry/Laws.antt =====
-- The operations of `MetadataRegistry`, seen as one finite map from categories and indices.
use llvm_mca_daemon.Prelude.{
  ℕ, zero, suc, ◌+◌, ◌-◌, ◌<◌, ◌≡◌, refl, ap, ◌∙◌, ◌↔◌, inl, inr, true, ◌&&◌, Option, none, some,
  [], ◌∷◌, ◌++◌, arith, ◌==◌, if◌then◌else◌, length, get_elem?, set, replicate, length-append,
  length-replicate, length-set, lt-of_get_elem?, Bool-cases,
}
use llvm_mca_daemon.Prelude.Assoc.{lookup, insert, lookup-insert, lookup-erase}
use llvm_mca_daemon.Metadata.{Any}
use llvm_mca_daemon.Metadata.Registry.{
  Category, Registry, grow, create, touch, slot_entries, entries, peek, assign, erase_entry,
  erase_all, get_entry, is_some, cast_entry,
}

-- `grow` only adds null slots.
slot_entries-append_nulls :
    (r : Registry) (n j : ℕ)
    → slot_entries (get_elem? (r ++ replicate n none) j) ≡ slot_entries (get_elem? r j)
slot_entries-append_nulls [] zero j = refl
slot_entries-append_nulls [] (suc n) zero = refl
slot_entries-append_nulls [] (suc n) (suc j) = slot_entries-append_nulls [] n j
slot_entries-append_nulls (x ∷ r) n zero = refl
slot_entries-append_nulls (x ∷ r) n (suc j) = slot_entries-append_nulls r n j

entries-grow : (k j : ℕ) (r : Registry) → entries j (grow k r) ≡ entries j r
unfolding entries grow
entries-grow k j r = ground (arith, slot_entries-append_nulls r (k - length r + 1) j)

lt-length-grow : (k : ℕ) (r : Registry) → k < length (grow k r)
unfolding grow
lt-length-grow k r = ground (
  arith,
  length-append r (replicate (k - length r + 1) none),
  length-replicate {A = Option Category} (k - length r + 1) none,
)

slot_entries-set :
    (r : Registry) (k j : ℕ) (c : Category)
    → k < length r
    → slot_entries (get_elem? (set r k (some c)) j)
      ≡ (if k == j then c else slot_entries (get_elem? r j))
slot_entries-set [] k j c h = elim h [ ]
slot_entries-set (x ∷ r) zero zero c h = refl
slot_entries-set (x ∷ r) zero (suc j) c h = ground arith
slot_entries-set (x ∷ r) (suc k) zero c h = ground arith
slot_entries-set (x ∷ r) (suc k) (suc j) c h =
    ground (arith, slot_entries-set r k j c (omega arith))

entries-create : (k j : ℕ) (r : Registry) → entries j (create k r) ≡ entries j r
unfolding entries create
entries-create k j r = ground (arith, slot_entries-set r k j [], lt-of_get_elem? r k none)

entries-touch : (k j : ℕ) (r : Registry) → entries j (touch k r) ≡ entries j r
unfolding touch
entries-touch k j r = entries-create k j (grow k r) ∙ entries-grow k j r

length-create : (k : ℕ) (r : Registry) → length (create k r) ≡ length r
unfolding create
length-create k r = ground (arith, length-set r k (some []))

lt-length-touch : (k : ℕ) (r : Registry) → k < length (touch k r)
unfolding touch
lt-length-touch k r = omega (arith, length-create k (grow k r), lt-length-grow k r)

-- A look-up finds the entry of its category and index, and changes no entry of the registry, though
-- it may create categories on the way.
pub get_entry_lem :
    {B : Type 0} (cast : Any → Option B) (k i j l : ℕ) (r : Registry)
    → ((get_entry cast k i r).1 ≡ cast_entry cast (peek k i r))
      × (peek j l (get_entry cast k i r).0 ≡ peek j l r)
unfolding get_entry peek
get_entry_lem cast k i j l r = (
  ap (λ c. cast_entry cast (lookup i c)) (entries-touch k k r),
  ap (lookup l) (entries-touch k j r),
)

-- After an assignment, its category and index hold the value, and all else is as before.
pub peek-assign :
    (k i : ℕ) (v : Any) (j l : ℕ) (r : Registry)
    → peek j l (assign k i v r) ≡ (if k == j && i == l then some v else peek j l r)
unfolding peek assign
peek-assign k i v j l r = ground (
  arith,
  slot_entries-set (touch k r) k j (insert i v (entries k (touch k r))) (lt-length-touch k r),
  lookup-insert i l v (entries k (touch k r)),
  entries-touch k j r,
  entries-touch k k r,
)

-- `erase` of an index removes its entry from every category, and no other entry.
peek-erase_all :
    (i : ℕ) (r : Registry) (j l : ℕ)
    → peek j l (erase_all i r).0 ≡ (if i == l then none else peek j l r)
unfolding peek entries erase_all erase_entry lookup
peek-erase_all i [] j l = ground arith
peek-erase_all i (none ∷ r) zero l = ground arith
peek-erase_all i (some c ∷ r) zero l = lookup-erase i l c
peek-erase_all i (none ∷ r) (suc j) l = peek-erase_all i r j l
peek-erase_all i (some c ∷ r) (suc j) l = peek-erase_all i r j l

erase_all_found :
    (i : ℕ) (r : Registry) → (erase_all i r).1 ≡ true → (j : ℕ) × (is_some (peek j i r) ≡ true)
unfolding peek entries erase_all erase_entry lookup
erase_all_found i [] h = cc
erase_all_found i (none ∷ r) h = let (j, e) = erase_all_found i r h in (suc j, e)
erase_all_found i (some c ∷ r) h = elim (Bool-cases (is_some (lookup i c))) [
  | inl e ↦ (zero, e)
  | inr e ↦ let (j, held) = erase_all_found i r (ground arith) in (suc j, held)
]

erase_all_of_held :
    (i : ℕ) (r : Registry) (j : ℕ) → is_some (peek j i r) ≡ true → (erase_all i r).1 ≡ true
unfolding peek entries erase_all erase_entry lookup
erase_all_of_held i [] j h = cc
erase_all_of_held i (none ∷ r) zero h = cc
erase_all_of_held i (some c ∷ r) zero h = ground arith
erase_all_of_held i (none ∷ r) (suc j) h = erase_all_of_held i r j h
erase_all_of_held i (some c ∷ r) (suc j) h = ground (arith, erase_all_of_held i r j h)

-- `erase` of an index returns true exactly when some category held the index.
erase_all_reports :
    (i : ℕ) (r : Registry) → ((erase_all i r).1 ≡ true) ↔ ((j : ℕ) × (is_some (peek j i r) ≡ true))
erase_all_reports i r = (erase_all_found i r, λ w. erase_all_of_held i r w.0 w.1)
