-- ===== src/Nacha/Scan.antt =====
-- An amount is printed in decimal, padded with zeros, and read back.
use mathlib.Core.List.{append_assoc, append-nil}
use ach_orchestrator.Base.{
  All-append, ℕ, zero, suc, ◌+◌, ◌-◌, ◌*◌, ◌/◌, ◌%◌, ◌≤◌, ◌<◌, some, [], ◌∷◌, ◌++◌, ◌≡◌, refl,
  arith, ltb, leb, length, replicate, length-append, All, Bool-cases, inl, inr, ◌∙◌, ap, sym,
}
use ach_orchestrator.Base.Text.{Text}
use ach_orchestrator.Base.Int.{pos}
use ach_orchestrator.Base.Decimal.{digits, decimal}
use ach_orchestrator.Base.Trim.{trim_space}
use ach_orchestrator.Nacha.Parser.{read_digits, scan_unsigned, scan_int}
use ach_orchestrator.Nacha.Generator.{pad_left}
use ach_orchestrator.Nacha.Padding.{
  Digit-Plain, trim_space-Plain, length-pad_left, Digit, pad_left-All,
}

-- Ten times ten, so often.
abbrev pub power_of_ten : ℕ → ℕ
power_of_ten zero = 1
power_of_ten (suc f) = 10 * power_of_ten f

pub digits-All : (f n : ℕ) → All Digit (digits f n)
unfolding digits
digits-All zero n = tt
digits-All (suc f) n = elim (Bool-cases (ltb n 10)) [
  | inl e ↦ rw e ((omega arith, ground arith), tt)
  | inr e ↦ rw e (
      All-append Digit (digits f (n / 10)) ((b'0' + n % 10) ∷ []) (digits-All f (n / 10))
        ((omega arith, omega arith), tt))
]

-- A number below a power of ten has no more digits than that.
pub length-digits : (f k n : ℕ) → n < power_of_ten (suc k) → length (digits f n) ≤ suc k
unfolding digits
length-digits zero k n h = omega arith
length-digits (suc f) zero n h =
    ground (arith, length-append (digits f (n / 10)) ((b'0' + n % 10) ∷ []))
length-digits (suc f) (suc k) n h = ground (
  arith,
  length-append (digits f (n / 10)) ((b'0' + n % 10) ∷ []),
  length-digits f k (n / 10) (omega arith),
)

read_digit :
    (m d k : ℕ) (t : Text)
    → d < 10
    → k ≡ m * 10 + d
    → read_digits m ((b'0' + d) ∷ t) ≡ read_digits k t
unfolding read_digits
read_digit m d k t h e = ground arith

read-digits :
    (f n : ℕ) (t : Text) → n < power_of_ten f → read_digits 0 (digits f n ++ t) ≡ read_digits n t
unfolding digits read_digits
read-digits zero n t h = let e : n ≡ 0 = omega arith in rw e refl
read-digits (suc f) n t h = elim (Bool-cases (ltb n 10)) [
  | inl e ↦ rw e (read_digit 0 n n t (ground arith) (omega arith))
  | inr e ↦
      rw (e, append_assoc (digits f (n / 10)) ((b'0' + n % 10) ∷ []) t)
        (read-digits f (n / 10) ((b'0' + n % 10) ∷ t) (omega arith)
          ∙ read_digit (n / 10) (n % 10) n t (omega arith) (omega arith))
]

read-zeros : (k : ℕ) (s : Text) → read_digits 0 (replicate k b'0' ++ s) ≡ read_digits 0 s
unfolding read_digits
read-zeros zero s = refl
read-zeros (suc k) s = read-zeros k s

-- What `Sscanf` makes of a digit: there is no sign.
scan_int-digits :
    (s : Text) → 1 ≤ length s → All Digit s → scan_int s ≡ some (pos (read_digits 0 s))
unfolding scan_int scan_unsigned
scan_int-digits [] h digits = absurd (omega arith)
scan_int-digits (c ∷ s) h ((low, high), _) = ground arith

-- Zeros before a text that fits.
pub pad_left-fits :
    (s : Text) (width pad : ℕ)
    → length s ≤ width
    → pad_left s width pad ≡ replicate (width - length s) pad ++ s
unfolding pad_left
pad_left-fits s width pad h = elim (Bool-cases (leb width (length s))) [
  | inl e ↦
      let none_cut : length s - width ≡ 0 = ground arith in
      let none_added : width - length s ≡ 0 = ground arith in rw (e, none_cut, none_added) refl
  | inr e ↦ rw e refl
]

padded_digits :
    (f k n : ℕ)
    → n < power_of_ten (suc k)
    → n < power_of_ten f
    → scan_int (pad_left (digits f n) (suc k) b'0') ≡ some (pos n)
unfolding read_digits
padded_digits f k n small fits =
    let fit = length-digits f k n small in
    let zeros = suc k - length (digits f n) in
    let value : read_digits 0 (pad_left (digits f n) (suc k) b'0') ≡ n =
      rw (pad_left-fits (digits f n) (suc k) b'0' fit) (
        read-zeros zeros (digits f n)
        ∙ ap (read_digits 0) (sym (append-nil (digits f n)))
        ∙ read-digits f n [] fits) in
    scan_int-digits (pad_left (digits f n) (suc k) b'0')
      (omega (arith, length-pad_left (digits f n) (suc k) b'0'))
      (pad_left-All Digit (digits f n) (suc k) b'0' (omega arith, omega arith) (digits-All f n))
    ∙ ap (λ (m : ℕ). some (pos m)) value

-- An amount below ten to the tenth is read back from its field of ten, which has nothing to trim.
pub scan_int-field :
    (n : ℕ)
    → n < power_of_ten 10
    → scan_int (trim_space (pad_left (decimal n) 10 b'0')) ≡ some (pos n)
unfolding decimal
scan_int-field n h =
    let field = pad_left (digits 20 n) 10 b'0' in
    let plain =
      Digit-Plain field
        (pad_left-All Digit (digits 20 n) 10 b'0' (omega arith, omega arith) (digits-All 20 n)) in
    ap scan_int (trim_space-Plain field plain) ∙ padded_digits 20 9 n h (omega arith)
