-- ===== src/Base/Decimal.antt =====
-- Decimal prints of natural numbers (`%d`).
use Prim.Native.Nat.{ℕ, zero, suc, ◌+◌, ◌/◌, ◌%◌}
use mathlib.Core.List.{[], ◌∷◌, ◌++◌}
use ach_orchestrator.Base.Tests.{ltb, if◌then◌else◌}
use ach_orchestrator.Base.Text.{Text}

-- The last digits of a number, at most as many as the fuel.
unfoldable pub digits : ℕ → ℕ → Text
digits zero n = []
digits (suc f) n =
    let rest = digits f (n / 10) in
    if ltb n 10 then (b'0' + n) ∷ [] else rest ++ (b'0' + n % 10) ∷ []

-- An int64 has at most 19 digits.
unfoldable pub decimal : ℕ → Text
unfolding digits
decimal = digits 20
