-- ===== src/Nacha/Lines.antt =====
-- The lines of a file that is written record by record.
use ach_orchestrator.Base.{ℕ, ◌≤◌, List, [], ◌∷◌, ◌++◌, ◌≡◌, refl, arith, All}
use ach_orchestrator.Base.Text.{Text}
use ach_orchestrator.Nacha.Parser.{replace_crlf, split_lines, trim_right_cr}

-- No control character.
abbrev pub InLine : ℕ → Type 0
InLine c = 32 ≤ c

abbrev pub lines_of : Text → List Text
lines_of s = split_lines (replace_crlf s)

replace_crlf-line :
    (l s : Text) → All InLine l → replace_crlf (l ++ b'\n' ∷ s) ≡ l ++ b'\n' ∷ replace_crlf s
unfolding replace_crlf
replace_crlf-line [] s h = ground arith
replace_crlf-line (c ∷ l) s (h, hs) = ground (arith, replace_crlf-line l s hs)

split_lines-line : (l s : Text) → All InLine l → split_lines (l ++ b'\n' ∷ s) ≡ l ∷ split_lines s
unfolding split_lines
split_lines-line [] s h = refl
split_lines-line (c ∷ l) s (h, hs) = rw (split_lines-line l s hs) (ground arith)

-- The first line of a file, and the others.
pub lines_of-line : (l s : Text) → All InLine l → lines_of (l ++ b'\n' ∷ s) ≡ l ∷ lines_of s
lines_of-line l s h = rw (replace_crlf-line l s h) (split_lines-line l (replace_crlf s) h)

pub trim_right_cr-line : (l : Text) → All InLine l → trim_right_cr l ≡ l
unfolding trim_right_cr
trim_right_cr-line [] h = refl
trim_right_cr-line (c ∷ []) (h, hs) = ground arith
trim_right_cr-line (c ∷ d ∷ l) (h, hs) = rw (trim_right_cr-line (d ∷ l) hs)
