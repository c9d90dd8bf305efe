-- ===== src/LoadStore/Groups.antt =====
-- The validity of `MCADLSUnit`: the groups that it refers to, and the steps on groups that `dispatch`
-- is made of.
use llvm_mca_daemon.Prelude.{
  ℕ, ◌+◌, ◌≤◌, ◌<◌, ◌≡◌, ◌⊎◌, inl, inr, refl, subst, ◌∙◌, max, Bool, true, false, not, Option, none,
  some, [], arith, leb, ◌==◌, ==_iff, ==_refl, leb→le, if◌then◌else◌, Bool-cases,
}
use llvm_mca_daemon.Prelude.Assoc.{Assoc, lookup, insert, lookup-insert}
use llvm_mca_daemon.Metadata.{MemoryAccess}
use llvm_mca_daemon.LoadStore.{
  LlvmUnit, CustomGroup, LsUnit, create_group, add_access, join_group, link, no_alias, depend,
  depend_on_alias,
}

module _ (llvm : LlvmUnit) where
  -- A group is there.
  abbrev pub Held : ℕ → Assoc (CustomGroup llvm) → Type 0
  Held id m = (g : CustomGroup llvm) × (lookup id m ≡ some g)

  -- A current group: none, or one that is there.
  abbrev pub IsCurrent : ℕ → Assoc (CustomGroup llvm) → Type 0
  IsCurrent id m = (id ≡ 0) ⊎ Held id m

  -- Every current group is there or zero, and identifiers in use lie below the next one.
  pub record IsValid (u : LsUnit llvm) : Type 0 where
    pub load_current : IsCurrent u.current_load u.custom_groups
    pub load_barrier_current : IsCurrent u.current_load_barrier u.custom_groups
    pub store_current : IsCurrent u.current_store u.custom_groups
    pub store_barrier_current : IsCurrent u.current_store_barrier u.custom_groups
    pub next_pos : 0 < u.next_custom_group
    pub fresh : (id : ℕ) → u.next_custom_group ≤ id → lookup id u.custom_groups ≡ none

  -- A step that leaves all but the contents of the groups.
  pub record Same (u u' : LsUnit llvm) : Type 0 where
    pub load : u'.current_load ≡ u.current_load
    pub load_barrier : u'.current_load_barrier ≡ u.current_load_barrier
    pub store : u'.current_store ≡ u.current_store
    pub store_barrier : u'.current_store_barrier ≡ u.current_store_barrier
    pub next_id : u'.next_custom_group ≡ u.next_custom_group
    pub kept : (id : ℕ) → Held id u.custom_groups → Held id u'.custom_groups
    pub absent : (id : ℕ) → lookup id u.custom_groups ≡ none → lookup id u'.custom_groups ≡ none

  pub Same-refl : (u : LsUnit llvm) → Same u u
  Same-refl u = record {
    load = refl;
    load_barrier = refl;
    store = refl;
    store_barrier = refl;
    next_id = refl;
    kept = λ id h. h;
    absent = λ id h. h;
  }

  pub Same-trans : {u v w : LsUnit llvm} → Same u v → Same v w → Same u w
  Same-trans a b = record {
    load = b.load ∙ a.load;
    load_barrier = b.load_barrier ∙ a.load_barrier;
    store = b.store ∙ a.store;
    store_barrier = b.store_barrier ∙ a.store_barrier;
    next_id = b.next_id ∙ a.next_id;
    kept = λ id h. b.kept id (a.kept id h);
    absent = λ id h. b.absent id (a.absent id h);
  }

  Held-insert :
      (k id : ℕ) (g : CustomGroup llvm) (m : Assoc (CustomGroup llvm))
      → Held id m
      → Held id (insert k g m)
  Held-insert k id g m (h, e) = elim (Bool-cases (k == id)) [
    | inl t ↦ (g, lookup-insert k id g m ∙ (rw t refl))
    | inr f ↦ (h, lookup-insert k id g m ∙ (rw f e))
  ]

  absent-insert :
      (k id : ℕ) (g h : CustomGroup llvm) (m : Assoc (CustomGroup llvm))
      → lookup k m ≡ some h
      → lookup id m ≡ none
      → lookup id (insert k g m) ≡ none
  absent-insert k id g h m at e = elim (Bool-cases (k == id)) [
    | inl t ↦ let same : k ≡ id = (==_iff k id).0 t in cc (at, e, same)
    | inr f ↦ lookup-insert k id g m ∙ (rw f e)
  ]

  -- A change of one group that is there.
  pub Same-insert :
      (u : LsUnit llvm) (k : ℕ) (g h : CustomGroup llvm)
      → lookup k u.custom_groups ≡ some h
      → Same u (record u { custom_groups = insert k g u.custom_groups })
  Same-insert u k g h at = record {
    load = refl;
    load_barrier = refl;
    store = refl;
    store_barrier = refl;
    next_id = refl;
    kept = λ id held. Held-insert k id g u.custom_groups held;
    absent = λ id e. absent-insert k id g h u.custom_groups at e;
  }

  pub join_group_lem :
      (id : ℕ) (mda : Option MemoryAccess) (u : LsUnit llvm)
      → Held id u.custom_groups
      → (u' : LsUnit llvm) × (join_group llvm id mda u ≡ some u') × Same u u'
  unfolding join_group
  join_group_lem id mda u (g, at) = (
    record u {
      custom_groups =
          insert id
            (record {
              group = llvm.add_instruction g.group;
              accesses = add_access llvm mda g.accesses;
            })
            u.custom_groups;
    },
    rw at refl,
    Same-insert u id _ g at,
  )

  pub link_lem :
      (id succ : ℕ) (is_data : Bool) (u : LsUnit llvm)
      → Held id u.custom_groups
      → Held succ u.custom_groups
      → (u' : LsUnit llvm) × (link llvm id succ is_data u ≡ some u') × Same u u'
  unfolding link
  link_lem id succ is_data u (p, at_p) (s, at_s) =
      let r = llvm.add_successor p.group s.group is_data in
      let u1 : LsUnit llvm = record u {
        custom_groups = insert id (record p { group = r.0 }) u.custom_groups;
      } in
      let first : Same u u1 = Same-insert u id (record p { group = r.0 }) p at_p in
      let (s1, at_s1) = first.kept succ (s, at_s) in
      (
        record u1 { custom_groups = insert succ (record s { group = r.1 }) u1.custom_groups },
        rw (at_p, at_s) refl,
        Same-trans first (Same-insert u1 succ (record s { group = r.1 }) s1 at_s1),
      )

  no_alias_lem :
      (id : ℕ) (mda : Option MemoryAccess) (u : LsUnit llvm)
      → Held id u.custom_groups
      → (b : Bool) × (no_alias llvm id mda u ≡ some b)
  unfolding no_alias
  no_alias_lem id none u h = (u.assume_no_alias, refl)
  no_alias_lem id (some a) u (g, at) = (not (llvm.count g.accesses a), rw at refl)

  pub depend_lem :
      (id succ : ℕ) (mda : Option MemoryAccess) (u : LsUnit llvm)
      → Held id u.custom_groups
      → Held succ u.custom_groups
      → (u' : LsUnit llvm) × (depend llvm id succ mda u ≡ some u') × Same u u'
  unfolding depend
  depend_lem id succ mda u p s =
      let (b, e) = no_alias_lem id mda u p in
      let (u', made, same) = link_lem id succ (not b) u p s in (u', rw e made, same)

  pub depend_on_alias_lem :
      (id succ : ℕ) (mda : Option MemoryAccess) (u : LsUnit llvm)
      → Held id u.custom_groups
      → Held succ u.custom_groups
      → (u' : LsUnit llvm) × (depend_on_alias llvm id succ mda u ≡ some u') × Same u u'
  unfolding depend_on_alias
  depend_on_alias_lem id succ mda u p s =
      let (b, e) = no_alias_lem id mda u p in
      let (u', made, same) = link_lem id succ true u p s in
      elim (Bool-cases b) [
        | inl t ↦ (u, rw (e, t) refl, Same-refl u)
        | inr f ↦ (u', rw (e, f) made, same)
      ]

  -- A unit with a new, last group.
  pub record Created (u u' : LsUnit llvm) (id : ℕ) : Type 0 where
    pub load : u'.current_load ≡ u.current_load
    pub load_barrier : u'.current_load_barrier ≡ u.current_load_barrier
    pub store : u'.current_store ≡ u.current_store
    pub store_barrier : u'.current_store_barrier ≡ u.current_store_barrier
    pub next_id : u'.next_custom_group ≡ id + 1
    pub kept : (k : ℕ) → Held k u.custom_groups → Held k u'.custom_groups
    pub made : Held id u'.custom_groups
    pub absent : (k : ℕ) → id + 1 ≤ k → lookup k u'.custom_groups ≡ none

  pub create_group_lem :
      (u : LsUnit llvm)
      → IsValid u
      → u.next_custom_group + 1 < 4294967296
      → ((create_group llvm u).0 ≡ u.next_custom_group)
        × Created u (create_group llvm u).1 u.next_custom_group
  unfolding create_group
  create_group_lem u v room =
      let id = u.next_custom_group in
      let g : CustomGroup llvm = record { group = llvm.new_group; accesses = [] } in
      rw (v.fresh id (omega arith)) (
        refl,
        record {
          load = refl;
          load_barrier = refl;
          store = refl;
          store_barrier = refl;
          next_id = omega arith;
          kept = λ k h. Held-insert id k g u.custom_groups h;
          made = (g, lookup-insert id id g u.custom_groups ∙ (rw (==_refl id) refl));
          absent = λ k h.
              lookup-insert id k g u.custom_groups
              ∙ other id k g (omega (arith, h))
              ∙ v.fresh k (omega (arith, h));
        },
      )
    where
      other :
          (i k : ℕ) (g : CustomGroup llvm)
          → i + 1 ≤ k
          → (if i == k then some g else lookup k u.custom_groups) ≡ lookup k u.custom_groups
      other i k g h = ground arith

  -- A step that is taken only if a test fails.
  pub unless_lem :
      (b : Bool) (m : Option (LsUnit llvm)) (u : LsUnit llvm)
      → (b ≡ false → (u' : LsUnit llvm) × (m ≡ some u') × Same u u')
      → (u' : LsUnit llvm) × ((if b then some u else m) ≡ some u') × Same u u'
  unless_lem true m u f = (u, refl, Same-refl u)
  unless_lem false m u f = f refl

  -- A current group that is not zero is there.
  pub Held-of_IsCurrent :
      (id : ℕ) (m : Assoc (CustomGroup llvm)) → IsCurrent id m → (id == 0) ≡ false → Held id m
  Held-of_IsCurrent id m (inl z) e = absurd (ground (arith, z))
  Held-of_IsCurrent id m (inr h) e = h

  pub max-IsCurrent :
      (a b : ℕ) (m : Assoc (CustomGroup llvm))
      → IsCurrent a m
      → IsCurrent b m
      → IsCurrent (max a b) m
  max-IsCurrent a b m p q = elim (Bool-cases (leb a b)) [
    | inl le ↦ let e : b ≡ max a b = omega (arith, leb→le a b le) in subst (λ k. IsCurrent k m) e q
    | inr gt ↦ let e : a ≡ max a b = ground arith in subst (λ k. IsCurrent k m) e p
  ]

  pub IsCurrent-kept :
      (id : ℕ) (m m' : Assoc (CustomGroup llvm))
      → ((k : ℕ) → Held k m → Held k m')
      → IsCurrent id m
      → IsCurrent id m'
  IsCurrent-kept id m m' f (inl z) = inl z
  IsCurrent-kept id m m' f (inr h) = inr (f id h)
