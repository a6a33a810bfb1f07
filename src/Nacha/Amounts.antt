-- ===== src/Nacha/Amounts.antt =====
-- How large a number can be that is read from a text.
use ach_orchestrator.Base.{
  ℕ, suc, zero, ◌+◌, ◌-◌, ◌*◌, ◌≤◌, ◌<◌, Bool, true, false, some, inl, inr, [], ◌∷◌, ◌≡◌, arith,
  length, Bool-cases,
}
use ach_orchestrator.Base.Text.{Text}
use ach_orchestrator.Base.Int.{ℤ, pos, negsuc}
use ach_orchestrator.Nacha.Parser.{is_digit, read_digits, scan_unsigned, scan_int}
use ach_orchestrator.Nacha.Scan.{power_of_ten}

-- The absolute value.
abbrev pub magnitude : ℤ → ℕ
magnitude (pos n) = n
magnitude (negsuc n) = suc n

times_le : (a b p : ℕ) → a ≤ b → a * p ≤ b * p
times_le a b p h = grind arith

power_pos : (k : ℕ) → 1 ≤ power_of_ten k
power_pos zero = omega arith
power_pos (suc k) = omega (arith, power_pos k)

-- Digits read behind `m` make a number below the next one with as many zeros.
read_digits-lt : (m : ℕ) (s : Text) → read_digits m s < (m + 1) * power_of_ten (length s)
unfolding read_digits
read_digits-lt m [] = omega arith
read_digits-lt m (c ∷ s) = elim (Bool-cases (is_digit c)) [
  | inl e ↦
      let d = c - b'0' in
      let low : d ≤ 9 = ground arith in
      let p = power_of_ten (length s) in
      let h = times_le (m * 10 + d + 1) ((m + 1) * 10) p (omega arith) in
      rw e (grind (arith, read_digits-lt (m * 10 + d) s))
  | inr e ↦
      let p = power_of_ten (length s) in
      let h = times_le 1 (10 * p) (m + 1) (omega (arith, power_pos (length s))) in
      rw e (grind arith)
]

power_mono : (j k : ℕ) → j ≤ k → power_of_ten j ≤ power_of_ten k
power_mono zero k h = power_pos k
power_mono (suc j) zero h = absurd (omega arith)
power_mono (suc j) (suc k) h = omega (arith, power_mono j k (omega arith))

scan_unsigned-lt :
    (negative : Bool) (s : Text) (n : ℤ)
    → scan_unsigned negative s ≡ some n
    → magnitude n < power_of_ten (length s)
unfolding scan_unsigned
scan_unsigned-lt negative [] n h = cc
scan_unsigned-lt true (c ∷ s) n h = ground (arith, read_digits-lt 0 (c ∷ s))
scan_unsigned-lt false (c ∷ s) n h = ground (arith, read_digits-lt 0 (c ∷ s))

-- What `Sscanf` reads from at most `k` bytes has at most `k` digits.
pub scan_int-lt :
    (k : ℕ) (s : Text) (n : ℤ) → length s ≤ k → scan_int s ≡ some n → magnitude n < power_of_ten k
unfolding scan_int
scan_int-lt k [] n short h = cc
scan_int-lt k (c ∷ s) n short h = ground (
  arith,
  scan_unsigned-lt true s n,
  scan_unsigned-lt false s n,
  scan_unsigned-lt false (c ∷ s) n,
  power_mono (length s) k,
  power_mono (suc (length s)) k,
)
