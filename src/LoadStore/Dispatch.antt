-- ===== src/LoadStore/Dispatch.antt =====
-- The two parts of `MCADLSUnit::dispatch`, for stores and for loads, on valid units.
use llvm_mca_daemon.Prelude.{
  asserted-true, ℕ, ◌+◌, ◌<◌, ◌≡◌, ◌⊎◌, inl, inr, refl, subst, max, Bool, true, false, ◌&&◌, ◌||◌,
  Option, some, arith, leb, ◌==◌, if◌then◌else◌, Bool-cases,
}
use llvm_mca_daemon.Metadata.{MemoryAccess}
use llvm_mca_daemon.LoadStore.{
  LlvmUnit, MemInst, LsUnit, create_group, link, depend, depend_on_alias, dispatch_store,
  should_create, dispatch_new_load, dispatch_load,
}
use llvm_mca_daemon.LoadStore.Groups.{
  Held, IsCurrent, IsValid, Same-trans, join_group_lem, link_lem, depend_lem, depend_on_alias_lem,
  create_group_lem, unless_lem, Held-of_IsCurrent, max-IsCurrent,
}
use llvm_mca_daemon.LoadStore.Validity.{renewed, pick, Same-IsValid}

or_left : (a b : Bool) → (a || b) ≡ false → a ≡ false
or_left a b h = ground arith

module _ (llvm : LlvmUnit) where
  -- A store on a valid unit gets a new group, which becomes the current store group, and leaves the
  -- unit valid.
  pub dispatch_store_lem :
      (inst : MemInst) (mda : Option MemoryAccess) (u : LsUnit llvm)
      → IsValid llvm u
      → u.next_custom_group + 1 < 4294967296
      → (u' : LsUnit llvm) × (dispatch_store llvm inst mda u ≡ some (u.next_custom_group, u'))
        × IsValid llvm u'
        × Held llvm u.next_custom_group u'.custom_groups
        × (u'.current_store ≡ u.next_custom_group)
        × (u'.next_custom_group ≡ u.next_custom_group + 1)
  unfolding dispatch_store
  dispatch_store_lem inst mda u v room =
      let n = u.next_custom_group in
      let u0 = (create_group llvm u).1 in
      let d = max u.current_load u.current_load_barrier in
      let b = u.current_store_barrier in
      let s = u.current_store in
      let (id_eq, c) = create_group_lem llvm u v room in
      let (u1, e1, s1) = join_group_lem llvm n mda u0 c.made in
      let held1 : (k : ℕ)
          → IsCurrent llvm k u.custom_groups
          → (k == 0) ≡ false
          → Held llvm k u1.custom_groups =
        λ k p e. s1.kept k (c.kept k (Held-of_IsCurrent llvm k u.custom_groups p e)) in
      let made1 = s1.kept n c.made in
      let (u2, e2, s2) = unless_lem llvm (d == 0) (depend llvm d n mda u1) u1 (λ e.
        depend_lem llvm d n mda u1
          (held1 d (max-IsCurrent llvm _ _ _ v.load_current v.load_barrier_current) e) made1) in
      let (u3, e3, s3) = unless_lem llvm (b == 0) (link llvm b n true u2) u2 (λ e.
        link_lem llvm b n true u2 (s2.kept b (held1 b v.store_barrier_current e))
          (s2.kept n made1)) in
      let s23 = Same-trans llvm s2 s3 in
      let (u4, e4, s4) = unless_lem llvm (s == 0 || s == b) (depend llvm s n mda u3) u3 (λ e.
        depend_lem llvm s n mda u3
          (s23.kept s (held1 s v.store_current (or_left (s == 0) (s == b) e)))
          (s23.kept n made1)) in
      let r = renewed llvm u u0 u4 n v c (Same-trans llvm s1 (Same-trans llvm s23 s4)) in
      (
        record u4 {
          current_store = n;
          current_store_barrier = if inst.is_store_barrier then n else u4.current_store_barrier;
          current_load = if inst.may_load then n else u4.current_load;
          current_load_barrier =
              if inst.may_load && inst.is_load_barrier then n else u4.current_load_barrier;
        },
        rw (id_eq, e1, e2, e3, e4) refl,
        record {
          load_current = pick llvm inst.may_load n _ _ r.made r.load;
          load_barrier_current =
              pick llvm (inst.may_load && inst.is_load_barrier) n _ _ r.made r.load_barrier;
          store_current = inr r.made;
          store_barrier_current = pick llvm inst.is_store_barrier n _ _ r.made r.store_barrier;
          next_pos = omega (arith, r.next_id);
          fresh = λ k h. r.absent k (omega (arith, r.next_id, h));
        },
        r.made,
        refl,
        r.next_id,
      )

  dispatch_new_load_lem :
      (inst : MemInst) (mda : Option MemoryAccess) (u : LsUnit llvm)
      → IsValid llvm u
      → u.next_custom_group + 1 < 4294967296
      → (u' : LsUnit llvm) × (dispatch_new_load llvm inst mda u ≡ some (u.next_custom_group, u'))
        × IsValid llvm u'
        × Held llvm u.next_custom_group u'.custom_groups
        × (u'.current_load ≡ u.next_custom_group)
  unfolding dispatch_new_load
  dispatch_new_load_lem inst mda u v room =
      let n = u.next_custom_group in
      let u0 = (create_group llvm u).1 in
      let o =
        if inst.is_load_barrier
        then max u.current_load u.current_load_barrier
        else u.current_load_barrier in
      let s = u.current_store in
      let (id_eq, c) = create_group_lem llvm u v room in
      let (u1, e1, s1) = join_group_lem llvm n mda u0 c.made in
      let held1 : (k : ℕ)
          → IsCurrent llvm k u.custom_groups
          → (k == 0) ≡ false
          → Held llvm k u1.custom_groups =
        λ k p e. s1.kept k (c.kept k (Held-of_IsCurrent llvm k u.custom_groups p e)) in
      let made1 = s1.kept n c.made in
      let (u2, e2, s2) =
        unless_lem llvm (s == 0) (depend_on_alias llvm s n mda u1) u1
          (λ e. depend_on_alias_lem llvm s n mda u1 (held1 s v.store_current e) made1) in
      let (u3, e3, s3) = unless_lem llvm (o == 0) (link llvm o n true u2) u2 (λ e.
        link_lem llvm o n true u2 (s2.kept o (held1 o (older inst.is_load_barrier u v) e))
          (s2.kept n made1)) in
      let r = renewed llvm u u0 u3 n v c (Same-trans llvm s1 (Same-trans llvm s2 s3)) in
      (
        record u3 {
          current_load = n;
          current_load_barrier = if inst.is_load_barrier then n else u3.current_load_barrier;
        },
        rw (id_eq, e1, e2, e3) refl,
        record {
          load_current = inr r.made;
          load_barrier_current = pick llvm inst.is_load_barrier n _ _ r.made r.load_barrier;
          store_current = r.store;
          store_barrier_current = r.store_barrier;
          next_pos = omega (arith, r.next_id);
          fresh = λ k h. r.absent k (omega (arith, r.next_id, h));
        },
        r.made,
        refl,
      )
    where
      older :
          (b : Bool) (u : LsUnit llvm)
          → IsValid llvm u
          → IsCurrent llvm
              (if b then max u.current_load u.current_load_barrier else u.current_load_barrier)
              u.custom_groups
      older true u v = max-IsCurrent llvm _ _ _ v.load_current v.load_barrier_current
      older false u v = v.load_barrier_current

  -- Whether a load gets a new group is decided; if it does not, the current load group is there.
  should_create_lem :
      (inst : MemInst) (u : LsUnit llvm)
      → IsValid llvm u
      → (b : Bool) × (should_create llvm inst u ≡ some b)
        × ((b ≡ true) ⊎ Held llvm u.current_load u.custom_groups)
  unfolding should_create
  should_create_lem inst u v =
      let d = max u.current_load u.current_load_barrier in
      let t : Bool =
        inst.is_load_barrier || d == 0 || u.current_load_barrier == d || leb d u.current_store in
      elim (Bool-cases t) [
        | inl e ↦ (true, rw e refl, inl refl)
        | inr e ↦
            let (g, at) =
              Held-of_IsCurrent llvm d u.custom_groups
                (max-IsCurrent llvm _ _ _ v.load_current v.load_barrier_current)
                (second inst.is_load_barrier (d == 0) _ _ e) in
            let same : d ≡ u.current_load =
              load_is_max inst.is_load_barrier u.current_load u.current_load_barrier _ e in
            (
              llvm.is_executing g.group,
              rw (e, at) refl,
              inr (subst (λ k. Held llvm k u.custom_groups) same (g, at)),
            )
      ]
    where
      second : (a b c d : Bool) → (a || b || c || d) ≡ false → b ≡ false
      second a b c d e = ground arith

      load_is_max :
          (a : Bool) (l b : ℕ) (d : Bool)
          → (a || max l b == 0 || b == max l b || d) ≡ false
          → max l b ≡ l
      load_is_max a l b d e = ground arith

  -- An instruction that loads, on a valid unit, gets a group that is there, which is the current load group then, and
  -- leaves the unit valid.
  pub dispatch_load_lem :
      (inst : MemInst) (mda : Option MemoryAccess) (u : LsUnit llvm)
      → inst.may_load ≡ true
      → IsValid llvm u
      → u.next_custom_group + 1 < 4294967296
      → (id : ℕ) × (u' : LsUnit llvm) × (dispatch_load llvm inst mda u ≡ some (id, u'))
        × IsValid llvm u'
        × Held llvm id u'.custom_groups
        × (u'.current_load ≡ id)
  unfolding dispatch_load
  dispatch_load_lem inst mda u loads v room =
      let (b, e, held) = should_create_lem inst u v in
      let (u1, e1, v1, h1, c1) = dispatch_new_load_lem inst mda u v room in
      elim (Bool-cases b) [
        | inl t ↦
            (u.next_custom_group, u1, asserted-true inst.may_load loads (rw (e, t) e1), v1, h1, c1)
        | inr f ↦
            let h = held_or b u f held in
            let (u2, e2, s) = join_group_lem llvm u.current_load mda u h in
            (
              u.current_load,
              u2,
              asserted-true inst.may_load loads (rw (e, f, e2) refl),
              Same-IsValid llvm u u2 v s,
              s.kept u.current_load h,
              s.load,
            )
      ]
    where
      held_or :
          (b : Bool) (u : LsUnit llvm)
          → b ≡ false
          → (b ≡ true) ⊎ Held llvm u.current_load u.custom_groups
          → Held llvm u.current_load u.custom_groups
      held_or b u f (inl t) = cc (t, f)
      held_or b u f (inr h) = h
