-- ===== src/Qemu/Fetch/Metadata.antt =====
-- The metadata that `fetchRegion` gives one instruction.
use llvm_mca_daemon.Prelude.{
  ℕ, ◌+◌, ◌<◌, ◌≡◌, ◌≢◌, refl, sym, ◌∙◌, ap, subst, Bool, true, false, ◌&&◌, Option, none, some, [],
  ◌∷◌, ◌==◌, ==_refl, u32, arith, if◌then◌else◌, length, get_elem?, get_elem?-in_range, Bool-cases,
  inl, inr,
}
use llvm_mca_daemon.Prelude.Assoc.{insert}
use llvm_mca_daemon.Metadata.{
  Any, mem_access, instr_addr, branch_flow, region_marker, RegionMarker, begin_mark, end_mark,
  marker_or,
}
use llvm_mca_daemon.Metadata.Registry.{
  Registry, cast_entry, md_ls_unit_mem_access, md_instr_addr, md_binary_region_markers,
  as_region_marker, get_entry, assign, peek,
}
use llvm_mca_daemon.Metadata.Registry.Laws.{get_entry_lem, peek-assign}
use llvm_mca_daemon.Qemu.{returns, TranslationBlock, AccessChain}
use llvm_mca_daemon.Qemu.Block.Aligned.{IsAligned}
use llvm_mca_daemon.Qemu.Fetch.{
  Exchange, set_address, set_access, joined_marker, set_marker, next_trace, change_registry,
  emit_one,
}

abbrev pub IsMarker : Option Any → Type 0
IsMarker none = Unit
IsMarker (some (region_marker m)) = Unit
IsMarker (some _) = ⊥

-- The category of the markers holds nothing else.
abbrev pub IsSound : Registry → Type 0
IsSound reg = (k : ℕ) → IsMarker (peek md_binary_region_markers k reg)

-- A change of the entries of the current instruction alone, not of its address.
pub record Changed (x x' : Exchange) : Type 0 where
  pub traces : x'.traces ≡ x.traces
  pub index : x'.exchanger.index_map ≡ x.exchanger.index_map
  pub sound : IsSound x'.exchanger.registry
  pub others :
      (kind l : ℕ)
      → x.traces ≢ l
      → peek kind l x'.exchanger.registry ≡ peek kind l x.exchanger.registry
  pub same_addr :
      peek md_instr_addr x.traces x'.exchanger.registry
      ≡ peek md_instr_addr x.traces x.exchanger.registry

assign-IsSound :
    (kind i : ℕ) (v : Any) (reg : Registry)
    → (kind == md_binary_region_markers) ≡ false
    → IsSound reg
    → IsSound (assign kind i v reg)
assign-IsSound kind i v reg ne h k =
    rw (peek-assign kind i v md_binary_region_markers k reg, ne) (h k)

mark-IsSound :
    (i : ℕ) (m : RegionMarker) (reg : Registry)
    → IsSound reg
    → IsSound (assign md_binary_region_markers i (region_marker m) reg)
mark-IsSound i m reg h k =
    rw (peek-assign md_binary_region_markers i (region_marker m) md_binary_region_markers k reg)
      (elim (Bool-cases (i == k)) [ inl e ↦ rw e tt | inr e ↦ rw e (h k) ])

differ : (a b : ℕ) → a ≢ b → (a == b) ≡ false
differ a b h = ground arith

Changed-refl : (x : Exchange) → IsSound x.exchanger.registry → Changed x x
Changed-refl x h = record {
  traces = refl;
  index = refl;
  sound = h;
  others = λ kind l ne. refl;
  same_addr = refl;
}

Changed-trans : {x y z : Exchange} → Changed x y → Changed y z → Changed x z
Changed-trans {x} {y} {z} a b = record {
  traces = b.traces ∙ a.traces;
  index = b.index ∙ a.index;
  sound = b.sound;
  others = λ kind l ne. b.others kind l (λ e. ne (sym a.traces ∙ e)) ∙ a.others kind l ne;
  same_addr =
      ap (λ k. peek md_instr_addr k z.exchanger.registry) (sym a.traces)
      ∙ b.same_addr
      ∙ ap (λ k. peek md_instr_addr k y.exchanger.registry) a.traces
      ∙ a.same_addr;
}

-- The access at the head of the chain, if it is the instruction's.
abbrev pub head_access : ℕ → AccessChain → Option Any
head_access i [] = none
head_access i ((j, a) ∷ chain) = if j == i then some (mem_access a) else none

abbrev pub rest_after : ℕ → AccessChain → AccessChain
rest_after i [] = []
rest_after i ((j, a) ∷ chain) = if j == i then chain else (j, a) ∷ chain

abbrev pub or_else : Option Any → Option Any → Option Any
or_else none b = b
or_else (some a) b = some a

set_access_lem :
    (i : ℕ) (chain : AccessChain) (x : Exchange)
    → IsSound x.exchanger.registry
    → ((set_access i chain x).0 ≡ rest_after i chain)
      × Changed x (set_access i chain x).1
      × (peek md_ls_unit_mem_access x.traces (set_access i chain x).1.exchanger.registry
          ≡ or_else
              (head_access i chain)
              (peek md_ls_unit_mem_access x.traces x.exchanger.registry))
      × (peek md_binary_region_markers x.traces (set_access i chain x).1.exchanger.registry
          ≡ peek md_binary_region_markers x.traces x.exchanger.registry)
unfolding set_access
set_access_lem i [] x h = (refl, Changed-refl x h, refl, refl)
set_access_lem i ((j, a) ∷ chain) x h = elim (Bool-cases (j == i)) [
  | inr e ↦ rw e (refl, Changed-refl x h, refl, refl)
  | inl e ↦
      let reg = x.exchanger.registry in
      let k = x.traces in
      let at = λ (j l : ℕ). peek-assign md_ls_unit_mem_access k (mem_access a) j l reg in
      rw e (
        refl,
        record {
          traces = refl;
          index = refl;
          sound = assign-IsSound md_ls_unit_mem_access k (mem_access a) reg refl h;
          others = λ kind l ne. at kind l ∙ unchanged kind l k reg ne;
          same_addr = at md_instr_addr k;
        },
        at md_ls_unit_mem_access k ∙ (rw (==_refl k) refl),
        at md_binary_region_markers k,
      )
]
  where
    unchanged :
        (kind l k : ℕ) (reg : Registry)
        → k ≢ l
        → (if 0 == kind && k == l then some (mem_access a) else peek kind l reg) ≡ peek kind l reg
    unchanged kind l k reg ne = ground (arith, differ k l ne)

-- What a mark makes of the marker that is there.
abbrev pub mark_with : Bool → RegionMarker → Option Any → Option Any
mark_with false m old = old
mark_with true m (some (region_marker old)) = some (region_marker (marker_or m old))
mark_with true m _ = some (region_marker m)

joined_marker_lem :
    (m : RegionMarker) (old : Option Any)
    → IsMarker old
    → (v : RegionMarker) × (joined_marker m (cast_entry as_region_marker old) ≡ returns v)
      × (mark_with true m old ≡ some (region_marker v))
joined_marker_lem m none h = (m, refl, refl)
joined_marker_lem m (some (region_marker old)) h = (marker_or m old, refl, refl)
joined_marker_lem m (some (mem_access a)) h = absurd h
joined_marker_lem m (some (instr_addr a)) h = absurd h
joined_marker_lem m (some (branch_flow a)) h = absurd h

set_marker_lem :
    (b : Bool) (m : RegionMarker) (x : Exchange)
    → IsSound x.exchanger.registry
    → (x' : Exchange) × (set_marker b m x ≡ returns x')
      × Changed x x'
      × (peek md_ls_unit_mem_access x.traces x'.exchanger.registry
          ≡ peek md_ls_unit_mem_access x.traces x.exchanger.registry)
      × (peek md_binary_region_markers x.traces x'.exchanger.registry
          ≡ mark_with b m (peek md_binary_region_markers x.traces x.exchanger.registry))
unfolding set_marker
set_marker_lem false m x h = (x, refl, Changed-refl x h, refl, refl)
set_marker_lem true m x h =
    let reg = x.exchanger.registry in
    let k = x.traces in
    let r = get_entry as_region_marker md_binary_region_markers k reg in
    let read = get_entry_lem as_region_marker md_binary_region_markers k in
    let (v, joined, marks) = joined_marker_lem m (peek md_binary_region_markers k reg) (h k) in
    let at = λ (j l : ℕ). peek-assign md_binary_region_markers k (region_marker v) j l r.0 in
    (
      change_registry (λ reg. assign md_binary_region_markers k (region_marker v) r.0) x,
      rw ((read 0 0 reg).0, joined) refl,
      record {
        traces = refl;
        index = refl;
        sound = mark-IsSound k v r.0 (λ j. rw ((read md_binary_region_markers j reg).1) (h j));
        others = λ kind l ne. at kind l ∙ unchanged kind l k v r.0 ne ∙ (read kind l reg).1;
        same_addr = at md_instr_addr k ∙ (read md_instr_addr k reg).1;
      },
      at md_ls_unit_mem_access k ∙ (read md_ls_unit_mem_access k reg).1,
      at md_binary_region_markers k ∙ (rw (==_refl k) (sym marks)),
    )
  where
    unchanged :
        (kind l k : ℕ) (v : RegionMarker) (reg : Registry)
        → k ≢ l
        → (if 4 == kind && k == l then some (region_marker v) else peek kind l reg)
          ≡ peek kind l reg
    unchanged kind l k v reg ne = ground (arith, differ k l ne)

-- What one round of the loop leaves: the next trace number, the place of the batch in the index map,
-- and the metadata of the instruction.
pub record Stamped {Inst : Type 0} (tb : TranslationBlock Inst) (i at : ℕ) (chain : AccessChain)
    (x x' : Exchange) : Type 0 where
  pub traces : x'.traces ≡ u32 (x.traces + 1)
  pub index : x'.exchanger.index_map ≡ insert at x.traces x.exchanger.index_map
  pub sound : IsSound x'.exchanger.registry
  pub others :
      (kind l : ℕ)
      → x.traces ≢ l
      → peek kind l x'.exchanger.registry ≡ peek kind l x.exchanger.registry
  pub addr : ℕ
  pub size : ℕ
  pub at_addr : get_elem? tb.mc_inst_addrs i ≡ some addr
  pub at_size : get_elem? tb.mc_inst_sizes i ≡ some size
  pub address :
      peek md_instr_addr x.traces x'.exchanger.registry
      ≡ some (instr_addr (record { addr = addr; size = size }))
  pub access :
      peek md_ls_unit_mem_access x.traces x'.exchanger.registry
      ≡ or_else (head_access i chain) (peek md_ls_unit_mem_access x.traces x.exchanger.registry)
  pub begins : Bool
  pub ends : Bool
  pub at_begin : get_elem? tb.begin_marks i ≡ some begins
  pub at_end : get_elem? tb.end_marks i ≡ some ends
  pub marks :
      peek md_binary_region_markers x.traces x'.exchanger.registry
      ≡ mark_with ends end_mark (
          mark_with begins begin_mark (peek md_binary_region_markers x.traces x.exchanger.registry))

follow :
    (kind : ℕ) (before after : Registry) (f : Option Any → Option Any) {k k' : ℕ}
    → k' ≡ k
    → peek kind k' after ≡ f (peek kind k' before)
    → peek kind k after ≡ f (peek kind k before)
follow kind before after f e h = subst (λ j. peek kind j after ≡ f (peek kind j before)) e h

pub emit_one_lem :
    {Inst : Type 0} (tb : TranslationBlock Inst) (i at : ℕ) (chain : AccessChain) (x : Exchange)
    → IsAligned tb
    → IsSound x.exchanger.registry
    → i < length tb.mc_insts
    → (inst : Inst) × (x' : Exchange) × (emit_one tb i at chain (some x)
        ≡ returns (inst, rest_after i chain, x'))
      × (get_elem? tb.mc_insts i ≡ some inst)
      × Stamped tb i at chain x x'
unfolding emit_one set_address
emit_one_lem tb i at chain x al sound h =
    let reg = x.exchanger.registry in
    let k = x.traces in
    let (inst, at_inst) = get_elem?-in_range tb.mc_insts i h in
    let (addr, at_addr) = get_elem?-in_range tb.mc_inst_addrs i (omega (arith, al.addrs)) in
    let (size, at_size) = get_elem?-in_range tb.mc_inst_sizes i (omega (arith, al.sizes)) in
    let (begins, at_begin) = get_elem?-in_range tb.begin_marks i (omega (arith, al.begins)) in
    let (ends, at_end) = get_elem?-in_range tb.end_marks i (omega (arith, al.ends)) in
    let v = instr_addr (record { addr = addr; size = size }) in
    let put = λ (j l : ℕ). peek-assign md_instr_addr k v j l reg in
    let x0 = set_address at addr size x in
    let (left, c1, access1, marks1) =
      set_access_lem i chain x0 (assign-IsSound md_instr_addr k v reg refl sound) in
    let (x2, e2, c2, access2, marks2) =
      set_marker_lem begins begin_mark (set_access i chain x0).1 c1.sound in
    let (x3, e3, c3, access3, marks3) = set_marker_lem ends end_mark x2 c2.sound in
    let c = Changed-trans c1 (Changed-trans c2 c3) in
    let t2 : x2.traces ≡ k = c2.traces ∙ c1.traces in
    (
      inst,
      next_trace x3,
      rw (at_inst, at_addr, at_size, at_begin, e2, at_end, e3) (rw left refl),
      at_inst,
      record {
        traces = ap (λ n. u32 (n + 1)) c.traces;
        index = c.index;
        sound = c.sound;
        others = λ kind l ne. c.others kind l ne ∙ put kind l ∙ unchanged kind l k v reg ne;
        addr = addr;
        size = size;
        at_addr = at_addr;
        at_size = at_size;
        address = c.same_addr ∙ put md_instr_addr k ∙ (rw (==_refl k) refl);
        access =
            follow md_ls_unit_mem_access _ _ (λ p. p) t2 access3
            ∙ follow md_ls_unit_mem_access _ _ (λ p. p) c1.traces access2
            ∙ access1
            ∙ ap (or_else (head_access i chain)) (put md_ls_unit_mem_access k);
        begins = begins;
        ends = ends;
        at_begin = at_begin;
        at_end = at_end;
        marks =
            follow md_binary_region_markers _ _ (mark_with ends end_mark) t2 marks3
            ∙ ap (mark_with ends end_mark) (
                follow md_binary_region_markers _ _ (mark_with begins begin_mark) c1.traces marks2
                ∙ ap (mark_with begins begin_mark) (marks1 ∙ put md_binary_region_markers k));
      },
    )
  where
    unchanged :
        (kind l k : ℕ) (v : Any) (reg : Registry)
        → k ≢ l
        → (if 2 == kind && k == l then some v else peek kind l reg) ≡ peek kind l reg
    unchanged kind l k v reg ne = ground (arith, differ k l ne)
