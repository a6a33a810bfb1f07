-- ===== src/Base/Int.antt =====
-- Signed integers (int64 values), by sign.
use Prim.Native.Nat.{ℕ}
use mathlib.Core.Bool.{Bool, false}
use ach_orchestrator.Base.Tests.{◌==◌, ltb}

-- `negsuc n` is -(n + 1).
pub data ℤ : Type 0 where
  pos : ℕ → ℤ
  negsuc : ℕ → ℤ

-- `a == b` on int64.
abbrev pub int_eq : ℤ → ℤ → Bool
int_eq (pos a) (pos b) = a == b
int_eq (negsuc a) (negsuc b) = a == b
int_eq _ _ = false

-- `0 < a` on int64.
abbrev pub is_positive : ℤ → Bool
is_positive (pos n) = ltb 0 n
is_positive (negsuc n) = false
