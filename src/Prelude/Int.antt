-- ===== src/Prelude/Int.antt =====
-- Signed integers over the native numbers, and the 64-bit words that stand for them.
use Prim.Native.Nat.{ℕ, ◌-◌, ◌%◌}
use mathlib.Core.Bool.{Bool, true, false}
use llvm_mca_daemon.Prelude.Tests.{u64}

-- `negsuc n` is -(n + 1).
pub data ℤ : Type 0 where
  pos : ℕ → ℤ
  negsuc : ℕ → ℤ

abbrev pub is_negative : ℤ → Bool
is_negative (pos n) = false
is_negative (negsuc n) = true

-- The conversion to `uint64_t`.
abbrev pub word64 : ℤ → ℕ
word64 (pos n) = u64 n
word64 (negsuc n) = u64 (18446744073709551615 - n % 18446744073709551616)
