-- ===== src/Nacha/Fields.antt =====
-- How long the fields of an entry are that the parser returns.
use mathlib.Core.Path.{subst}
use ach_orchestrator.Base.{
  All-append, inr_injective, some_injective, length-take_le, ℕ, zero, suc, ◌-◌, ◌≤◌, ◌<◌, Option,
  none, some, List, [], ◌∷◌, ◌≡◌, refl, sym, ◌∙◌, arith, inl, inr, ◌⊎◌, length, drop, All, ◌+◌,
}
use ach_orchestrator.Base.Text.{Text, slice}
use ach_orchestrator.Base.Int.{ℤ}
use ach_orchestrator.Base.Trim.{trim_space, trim_right, skip_spaces, space_width}
use ach_orchestrator.Nacha.Parser.{
  ReturnEntry, Progress, RecordError, ParseError, parse_entry_detail, entry_with,
  parse_addenda_r_code, with_pending, flush, on_header, on_entry, on_addenda, with_r_code,
  on_record, on_line, parse_lines, all_entries, parse_file, trim_right_cr, scan_int, first_byte,
}
use ach_orchestrator.Nacha.Amounts.{magnitude, scan_int-lt}
use ach_orchestrator.Nacha.Scan.{power_of_ten}
use ach_orchestrator.Nacha.Lines.{lines_of}
use ach_orchestrator.Nacha.Steps.{type_cases, line_cases, parse_lines_step}

length-skip_spaces : (n : ℕ) (s : Text) → length (skip_spaces n s) ≤ length s
unfolding skip_spaces
length-skip_spaces n [] = omega arith
length-skip_spaces zero (c ∷ s) = by_width (λ n. length-skip_spaces n s) (space_width (c ∷ s))
  where
    by_width :
        ((n : ℕ) → length (skip_spaces n s) ≤ length s)
        → (k : ℕ) → length (elim k [ zero ↦ c ∷ s | suc n ↦ skip_spaces n s ]) ≤ length (c ∷ s)
    by_width rest zero = omega arith
    by_width rest (suc n) = omega (arith, rest n)
length-skip_spaces (suc n) (c ∷ s) = omega (arith, length-skip_spaces n s)

length-trim_right : (s : Text) → length (trim_right s) ≤ length s
unfolding trim_right
length-trim_right [] = omega arith
length-trim_right (c ∷ s) = ground (arith, length-trim_right s)

length-trim_space : (s : Text) → length (trim_space s) ≤ length s
unfolding trim_space
length-trim_space s = omega (arith, length-trim_right (skip_spaces 0 s), length-skip_spaces 0 s)

-- A trimmed field is no longer than its columns.
length-field : (low high : ℕ) (s : Text) → length (trim_space (slice low high s)) ≤ high - low
length-field low high s =
    omega (arith, length-trim_space (slice low high s), length-take_le (high - low) (drop low s))

-- The widths of the columns, of which the amount has ten digits; the code has three bytes, or none
-- for a record 6 without addenda.
pub record Fits (e : ReturnEntry) : Type 0 where
  pub trace_fits : length e.trace_number ≤ 15
  pub account_fits : length e.account_number ≤ 17
  pub routing_fits : length e.routing_number ≤ 9
  pub amount_fits : magnitude e.amount < power_of_ten 10
  pub code_fits : (e.r_code ≡ []) ⊎ (length e.r_code ≡ 3)

entry_with-Fits :
    (line : Text) (o : Option ℤ) (e : ReturnEntry)
    → ((n : ℤ) → o ≡ some n → magnitude n < power_of_ten 10)
    → entry_with line o ≡ inr e
    → Fits e
unfolding entry_with
entry_with-Fits line none e small h = absurd (ground arith)
entry_with-Fits line (some n) e small h = record {
  trace_fits = ground (arith, length-field 79 94 line);
  account_fits = ground (arith, length-field 12 29 line);
  routing_fits = ground (arith, length-field 3 12 line);
  amount_fits = ground (arith, small n refl);
  code_fits = inl (ground arith);
}

detail-Fits : (line : Text) (e : ReturnEntry) → parse_entry_detail line ≡ inr e → Fits e
unfolding parse_entry_detail
detail-Fits line e h =
    let amount = trim_space (slice 29 39 line) in
    entry_with-Fits line (scan_int amount) e
      (λ n. scan_int-lt 10 amount n (length-field 29 39 line)) (ground arith)

code_length : (line code : Text) → parse_addenda_r_code line ≡ inr code → length code ≡ 3
unfolding parse_addenda_r_code
code_length line code h = ground arith

coded-Fits :
    (e : ReturnEntry) (code : Text) → length code ≡ 3 → Fits e → Fits (record e { r_code = code })
coded-Fits e code three h = record {
  trace_fits = h.trace_fits;
  account_fits = h.account_fits;
  routing_fits = h.routing_fits;
  amount_fits = h.amount_fits;
  code_fits = inr three;
}

-- The entries so far and the one that waits.
record Fitting (s : Progress) : Type 0 where
  all_fit : All Fits s.entries
  waiting_fits : (e : ReturnEntry) → s.awaiting ≡ some e → Fits e

with_pending-Fits :
    (es : List ReturnEntry) (o : Option ReturnEntry)
    → All Fits es
    → ((e : ReturnEntry) → o ≡ some e → Fits e)
    → All Fits (with_pending es o)
with_pending-Fits es none hs h = hs
with_pending-Fits es (some e) hs h = All-append Fits es (e ∷ []) hs (h e refl, tt)

entry-Fitting :
    (o : RecordError ⊎ ReturnEntry) (s s' : Progress)
    → ((e : ReturnEntry) → o ≡ inr e → Fits e)
    → on_entry o s ≡ inr s'
    → Fitting s
    → Fitting s'
entry-Fitting (inl x) s s' fits h g = absurd (ground arith)
entry-Fitting (inr e) s s' fits h g = subst Fitting (inr_injective h) (record {
  all_fit = with_pending-Fits s.entries s.awaiting g.all_fit g.waiting_fits;
  waiting_fits = λ x same. subst Fits (some_injective same) (fits e refl);
})

code-Fitting :
    (o : RecordError ⊎ Text) (e : ReturnEntry) (s s' : Progress)
    → ((code : Text) → o ≡ inr code → length code ≡ 3)
    → with_r_code o e s ≡ inr s'
    → Fits e
    → Fitting s
    → Fitting s'
code-Fitting (inl x) e s s' three h fits g = absurd (ground arith)
code-Fitting (inr code) e s s' three h fits g = subst Fitting (inr_injective h) (record {
  all_fit =
      All-append Fits s.entries (record e { r_code = code } ∷ []) g.all_fit
        (coded-Fits e code (three code refl) fits, tt);
  waiting_fits = λ x same. absurd (ground arith);
})

addenda-Fitting :
    (line : Text) (o : Option ReturnEntry) (s s' : Progress)
    → s.awaiting ≡ o
    → on_addenda line o s ≡ inr s'
    → Fitting s
    → Fitting s'
unfolding on_addenda
addenda-Fitting line none s s' waiting h g = absurd (ground arith)
addenda-Fitting line (some e) s s' waiting h g =
    code-Fitting (parse_addenda_r_code line) e s s' (code_length line) h (g.waiting_fits e waiting)
      g

flush-Fitting : (s : Progress) → Fitting s → Fitting (flush s)
flush-Fitting s g = record {
  all_fit = with_pending-Fits s.entries s.awaiting g.all_fit g.waiting_fits;
  waiting_fits = λ e same. absurd (ground arith);
}

header-Fitting :
    (o : RecordError ⊎ Unit {0}) (s s' : Progress) → on_header o s ≡ inr s' → Fitting s → Fitting s'
header-Fitting (inl x) s s' h g = absurd (ground arith)
header-Fitting (inr u) s s' h g = subst Fitting (inr_injective h) g

-- The cases of the `switch`.
record-Fitting :
    (line : Text) (s s' : Progress) → on_record line s ≡ inr s' → Fitting s → Fitting s'
unfolding on_record
record-Fitting line s s' h g = elim (type_cases (first_byte line)) [
  | inl t ↦ header-Fitting _ s s' (rw (on_record, t) at h) g
  | inr (inl t) ↦ flushed (rw (on_record, t) at h)
  | inr (inr (inl t)) ↦
      entry-Fitting (parse_entry_detail line) s s' (detail-Fits line) (rw (on_record, t) at h) g
  | inr (inr (inr (inl t))) ↦ addenda-Fitting line s.awaiting s s' refl (rw (on_record, t) at h) g
  | inr (inr (inr (inr (inl t)))) ↦ flushed (rw (on_record, t) at h)
  | inr (inr (inr (inr (inr (inl t))))) ↦ flushed (rw (on_record, t) at h)
  | inr (inr (inr (inr (inr (inr (n1, n5, n6, n7, n8, n9)))))) ↦
      absurd (cc (rw (on_record, n1, n5, n6, n7, n8, n9) at h))
]
  where
    flushed : ◌≡◌ {A = RecordError ⊎ Progress} (inr (flush s)) (inr s') → Fitting s'
    flushed e = subst Fitting (inr_injective e) (flush-Fitting s g)

line-Fitting : (raw : Text) (s s' : Progress) → on_line raw s ≡ inr s' → Fitting s → Fitting s'
line-Fitting raw s s' h g = elim (line_cases raw s) [
  | inl skipped ↦ subst Fitting (inr_injective (sym skipped ∙ h)) g
  | inr read ↦ record-Fitting (trim_right_cr raw) s s' (sym read ∙ h) g
]

lines-Fitting :
    (n : ℕ) (lines : List Text) (s s' : Progress)
    → parse_lines n lines s ≡ inr s'
    → Fitting s
    → Fitting s'
unfolding parse_lines
lines-Fitting n [] s s' h g = subst Fitting (inr_injective h) g
lines-Fitting n (raw ∷ lines) s s' h g =
    let (s₁, first, rest) = parse_lines_step (on_line raw s) n raw lines s s' refl h in
    lines-Fitting (n + 1) lines s₁ s' rest (line-Fitting raw s s₁ first g)

read_Fits :
    (o : ParseError ⊎ Progress) (es : List ReturnEntry)
    → ((s : Progress) → o ≡ inr s → Fitting s)
    → all_entries o ≡ inr es
    → All Fits es
read_Fits (inl e) es fits h = absurd (ground arith)
read_Fits (inr s) es fits h =
    let g = fits s refl in
    subst (All Fits) (inr_injective h)
      (with_pending-Fits s.entries s.awaiting g.all_fit g.waiting_fits)

-- Whatever bytes a file has: if `ParseFile` accepts it, then no field of an entry is longer than its
-- columns, 15 bytes for the trace number, 17 for the account and 9 for the routing number; the
-- amount has at most ten digits, so that no int64 overflows; and the code of an entry has exactly
-- three bytes, or none if the file has no addenda for it.
pub parse_file-Fits :
    (content : Text) (es : List ReturnEntry) → parse_file content ≡ inr es → All Fits es
unfolding parse_file
parse_file-Fits content es h =
    let start : Progress = record { entries = []; awaiting = none } in
    read_Fits (parse_lines 1 (lines_of content) start) es
      (λ s e.
        lines-Fitting 1 (lines_of content) start s e
          (record { all_fit = tt; waiting_fits = λ x none_waits. absurd (ground arith) }))
      h
