-- ===== src/Nacha/Parser.antt =====
-- internal/nacha/parser.go
use ach_orchestrator.Nacha.RecordType
use ach_orchestrator.Base.{
  ℕ, zero, suc, ◌+◌, ◌-◌, ◌*◌, Bool, true, false, ◌&&◌, not, Option, none, some, List, [], ◌∷◌,
  ◌++◌, ◌⊎◌, inl, inr, ltb, leb, ◌==◌, if◌then◌else◌, length,
}
use ach_orchestrator.Base.Text.{Text, codes, text_eq, slice, utf8}
use ach_orchestrator.Base.Int.{ℤ, pos, negsuc}
use ach_orchestrator.Base.Trim.{trim_space}

-- `NACHARecordLen`
abbrev pub nacha_record_len : ℕ
nacha_record_len = 94

-- `type ReturnEntry struct`
pub record ReturnEntry : Type 0 where
  pub trace_number : Text
  pub r_code : Text
  pub amount : ℤ
  pub account_number : Text
  pub routing_number : Text

-- The errors of a record, and of a file with the number of the line.
pub data RecordError : Type 0 where
  too_short no_entry : RecordError
  not_a_header bad_priority bad_amount bad_addenda_type bad_r_code unknown_type : Text → RecordError

pub data ParseError : Type 0 where
  at_line : ℕ → RecordError → ParseError

-- `strings.ReplaceAll(content, "\r\n", "\n")`
abbrev starts_line : Text → Bool
starts_line [] = false
starts_line (c ∷ s) = c == b'\n'

unfoldable pub replace_crlf : Text → Text
replace_crlf [] = []
replace_crlf (c ∷ s) =
    let rest = replace_crlf s in if c == b'\r' && starts_line s then rest else c ∷ rest

-- `strings.Split(s, "\n")`
abbrev in_first : ℕ → List Text → List Text
in_first c [] = (c ∷ []) ∷ []
in_first c (l ∷ ls) = (c ∷ l) ∷ ls

unfoldable pub split_lines : Text → List Text
split_lines [] = [] ∷ []
split_lines (c ∷ s) = let rest = split_lines s in if c == b'\n' then [] ∷ rest else in_first c rest

-- `strings.TrimRight(raw, "\r")`
abbrev all_cr : ℕ → Text → Text
all_cr c [] = if c == b'\r' then [] else c ∷ []
all_cr c (d ∷ s) = c ∷ d ∷ s

unfoldable pub trim_right_cr : Text → Text
trim_right_cr [] = []
trim_right_cr (c ∷ s) = all_cr c (trim_right_cr s)

-- `fmt.Sscanf(s, "%d", &amount)`: a sign, and at least one digit; what comes behind the digits is
-- ignored. The text has no space at its start, and at most ten bytes, so nothing overflows.
abbrev pub is_digit : ℕ → Bool
is_digit c = leb b'0' c && leb c b'9'

unfoldable pub read_digits : ℕ → Text → ℕ
read_digits n [] = n
read_digits n (c ∷ s) = if is_digit c then read_digits (n * 10 + (c - b'0')) s else n

abbrev negated : ℕ → ℤ
negated zero = pos zero
negated (suc n) = negsuc n

unfoldable pub scan_unsigned : Bool → Text → Option ℤ
unfolding read_digits
scan_unsigned negative [] = none
scan_unsigned negative (c ∷ s) =
    let n = read_digits 0 (c ∷ s) in
    if is_digit c then some (if negative then negated n else pos n) else none

unfoldable pub scan_int : Text → Option ℤ
unfolding scan_unsigned
scan_int [] = none
scan_int (c ∷ s) =
    if c == b'-'
    then scan_unsigned true s
    else if c == b'+'
    then scan_unsigned false s
    else scan_unsigned false (c ∷ s)

-- `string(line[0])`, as a byte
abbrev pub first_byte : Text → ℕ
first_byte [] = 0
first_byte (c ∷ s) = c

-- `validateFileHeader`
unfoldable pub validate_file_header : Text → RecordError ⊎ Unit {0}
unfolding text_eq
validate_file_header line =
    if not (first_byte line == RecordType.file_header)
    then inl (not_a_header (utf8 (first_byte line)))
    else if not (text_eq (slice 1 3 line) (codes "01"))
    then inl (bad_priority (slice 1 3 line))
    else inr tt

-- What `parseEntryDetail` returns for the amount that `Sscanf` read.
unfoldable pub entry_with : Text → Option ℤ → RecordError ⊎ ReturnEntry
unfolding trim_space
entry_with line none = inl (bad_amount (trim_space (slice 29 39 line)))
entry_with line (some amount) = inr (record {
  trace_number = trim_space (slice 79 94 line);
  r_code = [];
  amount = amount;
  account_number = trim_space (slice 12 29 line);
  routing_number = trim_space (slice 3 12 line);
})

-- `parseEntryDetail`
unfoldable pub parse_entry_detail : Text → RecordError ⊎ ReturnEntry
unfolding entry_with trim_space scan_int
parse_entry_detail line =
    if ltb (length line) nacha_record_len
    then inl too_short
    else entry_with line (scan_int (trim_space (slice 29 39 line)))

-- `parseAddendaRCode`
unfoldable pub parse_addenda_r_code : Text → RecordError ⊎ Text
unfolding text_eq trim_space
parse_addenda_r_code line =
    if ltb (length line) nacha_record_len
    then inl too_short
    else if not (text_eq (slice 1 3 line) (codes "99"))
    then inl (bad_addenda_type (slice 1 3 line))
    else let r_code = trim_space (slice 3 6 line) in
      if length r_code == 3 then inr r_code else inl (bad_r_code r_code)

-- The variables of the loop: `entries` and `pending`.
pub record Progress : Type 0 where
  pub entries : List ReturnEntry
  pub awaiting : Option ReturnEntry

-- `if pending != nil { entries = append(entries, *pending) }`
abbrev pub with_pending : List ReturnEntry → Option ReturnEntry → List ReturnEntry
with_pending entries none = entries
with_pending entries (some e) = entries ++ e ∷ []

abbrev pub flush : Progress → Progress
flush s = record { entries = with_pending s.entries s.awaiting; awaiting = none }

-- case RecordTypeFileHeader
abbrev pub on_header : RecordError ⊎ Unit {0} → Progress → RecordError ⊎ Progress
on_header (inl e) s = inl e
on_header (inr _) s = inr s

-- case RecordTypeEntry
abbrev pub on_entry : RecordError ⊎ ReturnEntry → Progress → RecordError ⊎ Progress
on_entry (inl e) s = inl e
on_entry (inr entry) s =
    inr (record { entries = with_pending s.entries s.awaiting; awaiting = some entry })

-- case RecordTypeAddenda
abbrev pub with_r_code : RecordError ⊎ Text → ReturnEntry → Progress → RecordError ⊎ Progress
with_r_code (inl e) entry s = inl e
with_r_code (inr code) entry s =
    inr (record { entries = s.entries ++ record entry { r_code = code } ∷ []; awaiting = none })

unfoldable pub on_addenda : Text → Option ReturnEntry → Progress → RecordError ⊎ Progress
unfolding parse_addenda_r_code
on_addenda line none s = inl no_entry
on_addenda line (some entry) s = with_r_code (parse_addenda_r_code line) entry s

-- The `switch recordType`.
unfoldable pub on_record : Text → Progress → RecordError ⊎ Progress
unfolding validate_file_header parse_entry_detail on_addenda
on_record line s =
    let t = first_byte line in
    if t == RecordType.file_header
    then on_header (validate_file_header line) s
    else if t == RecordType.batch_header
    then inr (flush s)
    else if t == RecordType.entry
    then on_entry (parse_entry_detail line) s
    else if t == RecordType.addenda
    then on_addenda line s.awaiting s
    else if t == RecordType.batch_ctrl
    then inr (flush s)
    else if t == RecordType.file_ctrl
    then inr (flush s)
    else inl (unknown_type (utf8 (first_byte line)))

-- A round of the loop; blank and short lines are skipped.
unfoldable pub on_line : Text → Progress → RecordError ⊎ Progress
unfolding on_record trim_right_cr
on_line raw s =
    let line = trim_right_cr raw in
    if length line == 0
    then inr s
    else if ltb (length line) nacha_record_len
    then inr s
    else on_record line s

-- The loop, from a line number on.
unfoldable pub parse_lines : ℕ → List Text → Progress → ParseError ⊎ Progress
unfolding on_line
parse_lines n [] s = inr s
parse_lines n (raw ∷ lines) s = elim (on_line raw s) [
  | inl e ↦ inl (at_line n e)
  | inr s' ↦ parse_lines (n + 1) lines s'
]

-- `return entries, nil`, behind the last flush
abbrev pub all_entries : ParseError ⊎ Progress → ParseError ⊎ List ReturnEntry
all_entries (inl e) = inl e
all_entries (inr s) = inr (with_pending s.entries s.awaiting)

-- `ParseFile`
unfoldable pub parse_file : Text → ParseError ⊎ List ReturnEntry
unfolding parse_lines split_lines replace_crlf
parse_file content =
    all_entries (
      parse_lines 1 (split_lines (replace_crlf content)) (record { entries = []; awaiting = none }))
