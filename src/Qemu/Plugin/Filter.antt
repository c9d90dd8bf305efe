-- ===== src/Qemu/Plugin/Filter.antt =====
-- The instructions of a block that are sent, and the numbers of their memory callbacks.
use llvm_mca_daemon.Prelude.{
  ℕ, zero, suc, ◌+◌, ◌≡◌, ◌⊎◌, refl, ap, subst, Bool, true, false, some, List, [], ◌∷◌, arith,
  if◌then◌else◌, get_elem?, inl, inr,
}
use llvm_mca_daemon.Qemu.Plugin.{GuestInsn, is_ignored, register_insns}

-- An element of a list whose head may be left out.
kept_or_not :
    {A : Type 0} (b : Bool) (xs : List A) (x : A) (j : ℕ) (v : A)
    → get_elem? (if b then xs else x ∷ xs) j ≡ some v
    → (b ≡ true) × (get_elem? xs j ≡ some v)
      ⊎ (b ≡ false) × ((j ≡ 0) × (x ≡ v) ⊎ (i : ℕ) × (j ≡ suc i) × (get_elem? xs i ≡ some v))
kept_or_not true xs x j v e = inl (refl, e)
kept_or_not false xs x zero v e = inr (refl, inl (refl, some_inj e))
  where
    some_inj : {A : Type 0} {a b : A} → some a ≡ some b → a ≡ b
    some_inj e = cc
kept_or_not false xs x (suc j) v e = inr (refl, inr (j, refl, e))

module _ (only : Bool) (start stop : ℕ) where
  -- How many of the first instructions are left out.
  abbrev pub ignored_before : ℕ → List GuestInsn → ℕ
  ignored_before zero is = 0
  ignored_before (suc n) [] = 0
  ignored_before (suc n) (i ∷ is) =
      (if is_ignored only start stop i then 1 else 0) + ignored_before n is

  -- The instruction at `n` of a block is let through, and is sent as number `j`.
  pub record Sent (insns : List GuestInsn) (j n : ℕ) (bytes : List ℕ) : Type 0 where
    pub insn : GuestInsn
    pub at_index : get_elem? insns n ≡ some insn
    pub passes : is_ignored only start stop insn ≡ false
    pub same_bytes : insn.bytes ≡ bytes
    pub place : n ≡ j + ignored_before n insns

  register_from :
      (insns : List GuestInsn) (k j n : ℕ) (bytes : List ℕ)
      → get_elem? (register_insns only start stop k insns) j ≡ some (n, bytes)
      → (m : ℕ) × (n ≡ k + m) × Sent insns j m bytes
  unfolding register_insns
  register_from [] k j n bytes e = let never = e in cc
  register_from (i ∷ is) k j n bytes e =
      elim (kept_or_not (is_ignored only start stop i) _ (k, i.bytes) j (n, bytes) e) [
        | inl (out, rest) ↦
            let (m, at, s) = register_from is (k + 1) j n bytes rest in
            (
              suc m,
              omega (arith, at),
              record {
                insn = s.insn;
                at_index = s.at_index;
                passes = s.passes;
                same_bytes = s.same_bytes;
                place = rw out (omega (arith, s.place));
              },
            )
        | inr (into, inl (zero_j, same)) ↦ (
          zero,
          omega (arith, ap (λ v. v.0) same),
          record {
            insn = i;
            at_index = refl;
            passes = into;
            same_bytes = ap (λ v. v.1) same;
            place = omega (arith, zero_j);
          },
        )
        | inr (into, inr (j', suc_j, rest)) ↦
            let (m, at, s) = register_from is (k + 1) j' n bytes rest in
            (
              suc m,
              omega (arith, at),
              record {
                insn = s.insn;
                at_index = s.at_index;
                passes = s.passes;
                same_bytes = s.same_bytes;
                place = rw into (omega (arith, s.place, suc_j));
              },
            )
      ]

  -- The instruction that is sent as number `j` of its block, with a memory callback registered with
  -- `n`, is the instruction `n` of the whole block and passes the bounds; `n` exceeds `j` by the
  -- instructions left out before it.
  pub register_insns_lem :
      (insns : List GuestInsn) (j n : ℕ) (bytes : List ℕ)
      → get_elem? (register_insns only start stop 0 insns) j ≡ some (n, bytes)
      → Sent insns j n bytes
  register_insns_lem insns j n bytes e =
      let (m, at, s) = register_from insns 0 j n bytes e in
      let same : m ≡ n = omega (arith, at) in subst (λ x. Sent insns j x bytes) same s
