-- ===== src/Nacha/Steps.antt =====
-- The steps of the parser: what becomes of a line, and of the lines behind it.
use ach_orchestrator.Base.{
  ℕ, ◌+◌, Bool, true, false, List, [], ◌∷◌, ◌≡◌, refl, arith, inl, inr, ◌⊎◌, length, ltb, ◌==◌,
  if◌then◌else◌, Bool-cases,
}
use ach_orchestrator.Base.Text.{Text}
use ach_orchestrator.Nacha.Parser.{
  Progress, RecordError, nacha_record_len, trim_right_cr, on_record, on_line, parse_lines,
}

-- The first byte is one of the six types of records, or none of them.
pub type_cases :
    (t : ℕ)
    → (t ≡ b'1')
      ⊎ (t ≡ b'5')
      ⊎ (t ≡ b'6')
      ⊎ (t ≡ b'7')
      ⊎ (t ≡ b'8')
      ⊎ (t ≡ b'9')
      ⊎ (((t == b'1') ≡ false)
          × ((t == b'5') ≡ false)
          × ((t == b'6') ≡ false)
          × ((t == b'7') ≡ false)
          × ((t == b'8') ≡ false)
          × ((t == b'9') ≡ false))
type_cases t = ground arith

pub last_branch :
    {A : Type 0} (a b : Bool) (x y : A)
    → a ≡ false
    → b ≡ false
    → (if a then x else if b then x else y) ≡ y
last_branch false false x y ha hb = refl
last_branch true b x y ha hb = absurd (cc ha)
last_branch false true x y ha hb = absurd (cc hb)

pub same_branch : {A : Type 0} (b : Bool) {x y : A} → y ≡ x → (if b then x else y) ≡ x
same_branch true e = refl
same_branch false e = e

-- A line is skipped, or it goes to the `switch`.
pub line_cases :
    (raw : Text) (s : Progress)
    → (on_line raw s ≡ inr s) ⊎ (on_line raw s ≡ on_record (trim_right_cr raw) s)
unfolding on_line
line_cases raw s = by_line (trim_right_cr raw)
  where
    round : Text → RecordError ⊎ Progress
    round line =
        if length line == 0
        then inr s
        else if ltb (length line) nacha_record_len
        then inr s
        else on_record line s

    by_line : (line : Text) → (round line ≡ inr s) ⊎ (round line ≡ on_record line s)
    by_line line = elim (Bool-cases (ltb (length line) nacha_record_len)) [
      | inl short ↦ inl (same_branch (length line == 0) (rw short refl))
      | inr long ↦ elim (Bool-cases (length line == 0)) [
        | inl blank ↦ inl (rw blank refl)
        | inr full ↦ inr (
            last_branch (length line == 0) (ltb (length line) nacha_record_len) (inr s)
              (on_record line s) full long)
      ]
    ]

-- A first line that is accepted, and the rest.
pub parse_lines_step :
    (o : RecordError ⊎ Progress) (n : ℕ) (raw : Text) (lines : List Text) (s s' : Progress)
    → on_line raw s ≡ o
    → parse_lines n (raw ∷ lines) s ≡ inr s'
    → (s₁ : Progress) × (o ≡ inr s₁) × (parse_lines (n + 1) lines s₁ ≡ inr s')
unfolding parse_lines
parse_lines_step (inl x) n raw lines s s' e h = absurd (cc (rw (parse_lines, e) at h))
parse_lines_step (inr s₁) n raw lines s s' e h = (s₁, refl, rw (parse_lines, e) at h)

-- A round that succeeds.
pub next_line :
    (n : ℕ) (raw : Text) (lines : List Text) (s s' : Progress)
    → on_line raw s ≡ inr s'
    → parse_lines n (raw ∷ lines) s ≡ parse_lines (n + 1) lines s'
unfolding parse_lines
next_line n raw lines s s' e = rw (parse_lines, e) refl

-- The empty line at the end.
pub empty_end : (n : ℕ) (s : Progress) → parse_lines n ([] ∷ []) s ≡ inr s
unfolding parse_lines on_line trim_right_cr
empty_end n s = refl
