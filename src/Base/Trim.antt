-- ===== src/Base/Trim.antt =====
-- `strings.TrimSpace` on the bytes of a text.
use Prim.Native.Nat.{ℕ, zero, suc}
use mathlib.Core.Bool.{Bool, true, false, ◌&&◌, ◌||◌}
use mathlib.Core.List.{[], ◌∷◌}
use ach_orchestrator.Base.Tests.{◌==◌, leb, if◌then◌else◌}
use ach_orchestrator.Base.Lists.{take}
use ach_orchestrator.Base.Text.{Text}

-- The bytes are the UTF-8 encoding of one character that `unicode.IsSpace` accepts.
unfoldable pub is_space : Text → Bool
is_space (a ∷ []) = leb 9 a && leb a 13 || a == 32
is_space (a ∷ b ∷ []) = a == 194 && (b == 133 || b == 160)
is_space (a ∷ b ∷ c ∷ []) =
    a == 225 && b == 154 && c == 128
    || a == 226
      && (b == 128 && (leb 128 c && leb c 138 || c == 168 || c == 169 || c == 175)
          || b == 129 && c == 159)
    || a == 227 && b == 128 && c == 128
is_space _ = false

-- How many bytes the space at the start takes, 0 if there is none.
unfoldable pub space_width : Text → ℕ
unfolding is_space
space_width s =
    if is_space (take 1 s)
    then 1
    else if is_space (take 2 s)
    then 2
    else if is_space (take 3 s)
    then 3
    else 0

-- Without so many bytes, and without the spaces behind them.
unfoldable pub skip_spaces : ℕ → Text → Text
unfolding space_width
skip_spaces n [] = []
skip_spaces zero (c ∷ s) = elim (space_width (c ∷ s)) [ zero ↦ c ∷ s | suc n ↦ skip_spaces n s ]
skip_spaces (suc n) (c ∷ s) = skip_spaces n s

abbrev pub is_empty_text : Text → Bool
is_empty_text [] = true
is_empty_text (_ ∷ _) = false

unfoldable pub trim_right : Text → Text
unfolding is_space
trim_right [] = []
trim_right (c ∷ s) = let rest = trim_right s in if is_space (c ∷ rest) then [] else c ∷ rest

unfoldable pub trim_space : Text → Text
unfolding skip_spaces trim_right
trim_space s = trim_right (skip_spaces 0 s)
