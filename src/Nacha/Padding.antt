-- ===== src/Nacha/Padding.antt =====
-- Padding and trimming: widths, and what is left of a padded text.
use mathlib.Core.List.{append-nil}
use ach_orchestrator.Base.{
  length-take, length-drop, take-whole, All-append, All-replicate, All-take, All-drop, ℕ, zero, suc,
  ◌-◌, ◌≤◌, false, [], ◌∷◌, ◌++◌, ◌≡◌, refl, arith, leb, length, take, replicate, length-append,
  length-replicate, All, Bool-cases, inl, inr,
}
use ach_orchestrator.Base.Text.{Text}
use ach_orchestrator.Base.Trim.{is_space, space_width, skip_spaces, trim_right, trim_space}
use ach_orchestrator.Nacha.Generator.{pad_right, pad_left}

pub length-pad_right : (s : Text) (width : ℕ) → length (pad_right s width) ≡ width
unfolding pad_right
length-pad_right s width = ground (
  arith,
  length-take width s,
  length-append s (replicate (width - length s) b' '),
  length-replicate {A = ℕ} (width - length s) b' ',
)

pub length-pad_left : (s : Text) (width pad : ℕ) → length (pad_left s width pad) ≡ width
unfolding pad_left
length-pad_left s width pad = ground (
  arith,
  length-drop (length s - width) s,
  length-append (replicate (width - length s) pad) s,
  length-replicate (width - length s) pad,
)

pub pad_right_cons :
    (c : ℕ) (s : Text) (width : ℕ) → pad_right (c ∷ s) (suc width) ≡ c ∷ pad_right s width
unfolding pad_right
pad_right_cons c s width = ground arith

pub pad_right_whole : (s : Text) (width : ℕ) → length s ≡ width → pad_right s width ≡ s
unfolding pad_right
pad_right_whole s width h = ground (arith, take-whole width s)

pub pad_left_whole : (s : Text) (width pad : ℕ) → length s ≡ width → pad_left s width pad ≡ s
unfolding pad_left
pad_left_whole s width pad h = ground arith

-- A printable ASCII character other than the space; a digit is one.
abbrev pub Plain : ℕ → Type 0
Plain c = (33 ≤ c) × (c ≤ 126)

abbrev pub Digit : ℕ → Type 0
Digit c = (b'0' ≤ c) × (c ≤ b'9')

pub Digit-Plain : (s : Text) → All Digit s → All Plain s
Digit-Plain [] h = tt
Digit-Plain (c ∷ s) ((low, high), h) = ((omega arith, omega arith), Digit-Plain s h)

pub pad_right-All :
    (P : ℕ → Type 0) (s : Text) (width : ℕ) → P b' ' → All P s → All P (pad_right s width)
unfolding pad_right
pad_right-All P s width blank h = elim (Bool-cases (leb width (length s))) [
  | inl e ↦ rw e (All-take P width s h)
  | inr e ↦ rw e (
      All-append P s (replicate (width - length s) b' ') h
        (All-replicate P (width - length s) b' ' blank))
]

pub pad_left-All :
    (P : ℕ → Type 0) (s : Text) (width pad : ℕ) → P pad → All P s → All P (pad_left s width pad)
unfolding pad_left
pad_left-All P s width pad good h = elim (Bool-cases (leb width (length s))) [
  | inl e ↦ rw e (All-drop P (length s - width) s h)
  | inr e ↦ rw e (
      All-append P (replicate (width - length s) pad) s
        (All-replicate P (width - length s) pad good) h)
]

is_space-Plain : (c : ℕ) (s : Text) → Plain c → is_space (c ∷ s) ≡ false
unfolding is_space
is_space-Plain c [] (low, high) = ground arith
is_space-Plain c (d ∷ []) (low, high) = ground arith
is_space-Plain c (d ∷ e ∷ []) (low, high) = ground arith
is_space-Plain c (d ∷ e ∷ f ∷ s) h = refl

space_width-Plain : (c : ℕ) (s : Text) → Plain c → space_width (c ∷ s) ≡ 0
unfolding space_width
space_width-Plain c s h =
    ground
      (arith, is_space-Plain c [] h, is_space-Plain c (take 1 s) h, is_space-Plain c (take 2 s) h)

skip_spaces-Plain : (c : ℕ) (s : Text) → Plain c → skip_spaces 0 (c ∷ s) ≡ c ∷ s
unfolding skip_spaces
skip_spaces-Plain c s h = rw (skip_spaces, space_width-Plain c s h) refl

skip_spaces_blank : (n : ℕ) → skip_spaces 0 (replicate n b' ') ≡ []
unfolding skip_spaces space_width is_space
skip_spaces_blank zero = refl
skip_spaces_blank (suc n) = skip_spaces_blank n

trim_right_blank : (n : ℕ) → trim_right (replicate n b' ') ≡ []
unfolding trim_right is_space
trim_right_blank zero = refl
trim_right_blank (suc n) = rw (trim_right_blank n)

trim_right-Plain : (s : Text) (n : ℕ) → All Plain s → trim_right (s ++ replicate n b' ') ≡ s
unfolding trim_right
trim_right-Plain [] n h = trim_right_blank n
trim_right-Plain (c ∷ s) n (h, hs) = rw (trim_right-Plain s n hs, is_space-Plain c s h)

-- Blanks behind a plain text are all that is trimmed.
pub trim_space-blanks : (s : Text) (n : ℕ) → All Plain s → trim_space (s ++ replicate n b' ') ≡ s
unfolding trim_space trim_right
trim_space-blanks [] n h = rw (skip_spaces_blank n)
trim_space-blanks (c ∷ s) n (h, hs) =
    rw (skip_spaces-Plain c (s ++ replicate n b' ') h) (trim_right-Plain (c ∷ s) n (h, hs))

pub trim_space-Plain : (s : Text) → All Plain s → trim_space s ≡ s
trim_space-Plain s h = rw append-nil at (trim_space-blanks s 0 h)

pub trim_space-pad_right :
    (s : Text) (width : ℕ) → length s ≤ width → All Plain s → trim_space (pad_right s width) ≡ s
unfolding pad_right
trim_space-pad_right s width h plain = elim (Bool-cases (leb width (length s))) [
  | inl e ↦ rw (e, take-whole width s h) (trim_space-Plain s plain)
  | inr e ↦ rw e (trim_space-blanks s (width - length s) plain)
]
