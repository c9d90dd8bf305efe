-- ===== src/Qemu/Plugin/Wire.antt =====
-- The numbers of the blocks on the wire.
use llvm_mca_daemon.Prelude.{
  ℕ, suc, ◌+◌, ◌<◌, ◌≡◌, ◌∙◌, subst, Option, none, some, List, [], ◌∷◌, ◌++◌, arith,
}
use llvm_mca_daemon.Qemu.Receive.{Message, metadata, translated_block, executed_tb}
use llvm_mca_daemon.Qemu.Plugin.{ExecTransBlock}

-- The announced blocks have the next numbers from one on, and the executed ones have a number that
-- was announced before.
abbrev pub IsNumbered : ℕ → List Message → Type 0
IsNumbered n [] = Unit
IsNumbered n (metadata a ∷ ms) = IsNumbered n ms
IsNumbered n (translated_block i raws ∷ ms) = (i ≡ n) × IsNumbered (suc n) ms
IsNumbered n (executed_tb e ∷ ms) = (e.index < n) × IsNumbered n ms

abbrev pub count_blocks : List Message → ℕ
count_blocks [] = 0
count_blocks (metadata a ∷ ms) = count_blocks ms
count_blocks (translated_block i raws ∷ ms) = suc (count_blocks ms)
count_blocks (executed_tb e ∷ ms) = count_blocks ms

count_blocks-append :
    (xs ys : List Message) → count_blocks (xs ++ ys) ≡ count_blocks xs + count_blocks ys
count_blocks-append [] ys = omega arith
count_blocks-append (metadata a ∷ xs) ys = count_blocks-append xs ys
count_blocks-append (translated_block i raws ∷ xs) ys = omega (arith, count_blocks-append xs ys)
count_blocks-append (executed_tb e ∷ xs) ys = count_blocks-append xs ys

IsNumbered-append :
    (n : ℕ) (xs ys : List Message)
    → IsNumbered n xs
    → IsNumbered (n + count_blocks xs) ys
    → IsNumbered n (xs ++ ys)
IsNumbered-append n [] ys h k = subst (λ m. IsNumbered m ys) (omega arith) k
IsNumbered-append n (metadata a ∷ xs) ys h k = IsNumbered-append n xs ys h k
IsNumbered-append n (translated_block i raws ∷ xs) ys h k =
    (h.0, IsNumbered-append (suc n) xs ys h.1 (subst (λ m. IsNumbered m ys) (omega arith) k))
IsNumbered-append n (executed_tb e ∷ xs) ys h k = (h.0, IsNumbered-append n xs ys h.1 k)

-- The block that is not sent yet has a number below `n`.
abbrev pub PendingBelow : ℕ → Option ExecTransBlock → Type 0
PendingBelow n none = Unit
PendingBelow n (some t) = t.tb_idx < n

-- The wire has `n` blocks, numbered in their order.
pub record Counts (n : ℕ) (wire : List Message) : Type 0 where
  pub numbered : IsNumbered 0 wire
  pub count : count_blocks wire ≡ n

pub Counts-append :
    (n k : ℕ) (wire : List Message) (m : Message)
    → Counts n wire
    → IsNumbered n (m ∷ [])
    → n + count_blocks (m ∷ []) ≡ k
    → Counts k (wire ++ (m ∷ []))
Counts-append n k wire m c h e = record {
  numbered =
      IsNumbered-append 0 wire (m ∷ []) c.numbered
        (subst (λ x. IsNumbered x (m ∷ [])) (omega (arith, c.count)) h);
  count = count_blocks-append wire (m ∷ []) ∙ (omega (arith, c.count, e));
}
