-- ===== src/Nacha/Newlines.antt =====
-- Files with the line ends of Windows.
use ach_orchestrator.Base.{ℕ, [], ◌∷◌, ◌≡◌, ◌≢◌, refl, arith, ◌==◌, if◌then◌else◌, All}
use ach_orchestrator.Base.Text.{Text}
use ach_orchestrator.Nacha.Parser.{replace_crlf, parse_file}

-- Each newline with a carriage return before it.
unfoldable pub with_crlf : Text → Text
with_crlf [] = []
with_crlf (c ∷ s) = let rest = with_crlf s in if c == b'\n' then b'\r' ∷ b'\n' ∷ rest else c ∷ rest

-- Not a carriage return.
abbrev pub NotCr : ℕ → Type 0
NotCr c = c ≢ b'\r'

-- `ReplaceAll` gives the text with newlines back, and leaves it alone.
replace_crlf-plain : (s : Text) → All NotCr s → replace_crlf s ≡ s
unfolding replace_crlf
replace_crlf-plain [] h = refl
replace_crlf-plain (c ∷ s) (n, h) = ground (arith, replace_crlf-plain s h)

replace_crlf-with_crlf : (s : Text) → All NotCr s → replace_crlf (with_crlf s) ≡ s
unfolding replace_crlf with_crlf
replace_crlf-with_crlf [] h = refl
replace_crlf-with_crlf (c ∷ s) (n, h) = ground (arith, replace_crlf-with_crlf s h)

-- A file without carriage returns and the same file with the line ends of Windows are read alike:
-- the same entries, or the same error on the same line.
pub parse_file-with_crlf :
    (content : Text) → All NotCr content → parse_file (with_crlf content) ≡ parse_file content
unfolding parse_file
parse_file-with_crlf content h =
    rw (replace_crlf-with_crlf content h, replace_crlf-plain content h) refl
