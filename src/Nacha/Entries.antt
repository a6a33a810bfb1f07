-- ===== src/Nacha/Entries.antt =====
-- What a file that parses is read as: each of its entry records, in order, and nothing else.
use mathlib.Core.List.{map-append, append-nil, append_assoc}
use ach_orchestrator.Base.{
  ℕ, ◌+◌, true, false, ◌&&◌, Option, none, some, List, [], ◌∷◌, ◌++◌, ◌≡◌, refl, arith, inl, inr,
  ◌⊎◌, ap, sym, ◌∙◌, length, map, leb, ltb, ◌==◌, if◌then◌else◌, Bool-cases,
}
use ach_orchestrator.Base.Text.{Text, slice}
use ach_orchestrator.Base.Int.{ℤ}
use ach_orchestrator.Base.Trim.{trim_space}
use ach_orchestrator.Nacha.Parser.{
  ReturnEntry, Progress, RecordError, ParseError, nacha_record_len, first_byte, trim_right_cr,
  parse_entry_detail, entry_with, scan_int, parse_addenda_r_code, with_pending, flush, on_header,
  on_entry, on_addenda, with_r_code, on_record, on_line, parse_lines, all_entries, parse_file,
}
use ach_orchestrator.Nacha.Lines.{lines_of}
use ach_orchestrator.Nacha.Steps.{type_cases, last_branch, same_branch, parse_lines_step}

-- An entry without its code, as its record 6 alone gives it.
abbrev pub uncoded : ReturnEntry → RecordError ⊎ ReturnEntry
uncoded e = inr (record e { r_code = [] })

-- What the line says of an entry: something only if it is a record 6 of full length.
abbrev pub entry_in : Text → List (RecordError ⊎ ReturnEntry)
entry_in raw =
    let line = trim_right_cr raw in
    if leb nacha_record_len (length line) && first_byte line == b'6'
    then parse_entry_detail line ∷ []
    else []

abbrev pub entries_in : List Text → List (RecordError ⊎ ReturnEntry)
entries_in [] = []
entries_in (raw ∷ lines) = entry_in raw ++ entries_in lines

-- The entries so far, the one that waits included.
abbrev held : Progress → List (RecordError ⊎ ReturnEntry)
held s = map uncoded (with_pending s.entries s.awaiting)

held_one :
    (entries : List ReturnEntry) (e : ReturnEntry)
    → map uncoded (entries ++ e ∷ []) ≡ map uncoded entries ++ uncoded e ∷ []
held_one entries e = map-append uncoded entries (e ∷ [])

header_holds :
    (o : RecordError ⊎ Unit {0}) (s s' : Progress) → on_header o s ≡ inr s' → held s' ≡ held s
header_holds (inl x) s s' h = absurd (ground arith)
header_holds (inr u) s s' h = ground arith

coded_holds :
    (o : RecordError ⊎ Text) (e : ReturnEntry) (s s' : Progress)
    → s.awaiting ≡ some e
    → with_r_code o e s ≡ inr s'
    → held s' ≡ held s
coded_holds (inl x) e s s' waiting h = absurd (ground arith)
coded_holds (inr code) e s s' waiting h =
    ground (arith, held_one s.entries (record e { r_code = code }), held_one s.entries e)

addenda_holds :
    (line : Text) (o : Option ReturnEntry) (s s' : Progress)
    → s.awaiting ≡ o
    → on_addenda line o s ≡ inr s'
    → held s' ≡ held s
unfolding on_addenda
addenda_holds line none s s' e h = absurd (ground arith)
addenda_holds line (some entry) s s' e h = coded_holds (parse_addenda_r_code line) entry s s' e h

abbrev without_code : RecordError ⊎ ReturnEntry → RecordError ⊎ ReturnEntry
without_code (inl x) = inl x
without_code (inr e) = uncoded e

without_code-entry_with :
    (line : Text) (o : Option ℤ) → without_code (entry_with line o) ≡ entry_with line o
unfolding entry_with
without_code-entry_with line none = refl
without_code-entry_with line (some n) = refl

without_code-parse_entry_detail :
    (line : Text) → without_code (parse_entry_detail line) ≡ parse_entry_detail line
unfolding parse_entry_detail
without_code-parse_entry_detail line = elim (Bool-cases (ltb (length line) nacha_record_len)) [
  | inl e ↦ rw (parse_entry_detail, e) refl
  | inr e ↦
      rw (parse_entry_detail, e)
        (without_code-entry_with line (scan_int (trim_space (slice 29 39 line))))
]

-- `parseEntryDetail` leaves the code empty.
parse_entry_detail-uncoded :
    (line : Text) (e : ReturnEntry) → parse_entry_detail line ≡ inr e → uncoded e ≡ inr e
parse_entry_detail-uncoded line e h =
    ap without_code (sym h) ∙ without_code-parse_entry_detail line ∙ h

detail_holds :
    (o : RecordError ⊎ ReturnEntry) (s s' : Progress)
    → ((e : ReturnEntry) → o ≡ inr e → uncoded e ≡ inr e)
    → on_entry o s ≡ inr s'
    → held s' ≡ held s ++ o ∷ []
detail_holds (inl x) s s' plain h = absurd (ground arith)
detail_holds (inr e) s s' plain h =
    ground (arith, plain e refl, held_one (with_pending s.entries s.awaiting) e)

abbrev held_by : {E : Type 0} → E ⊎ Progress → List (RecordError ⊎ ReturnEntry)
held_by (inl x) = []
held_by (inr s) = held s

flush_holds :
    (s s' : Progress) (o : RecordError ⊎ Progress)
    → o ≡ inr (flush s)
    → o ≡ inr s'
    → held s' ≡ held s
flush_holds s s' o e h = ap held_by (sym h ∙ e)

-- A record adds the entry that it says, if it is accepted.
record_holds :
    (line : Text) (s s' : Progress)
    → on_record line s ≡ inr s'
    → held s' ≡ held s ++ (if first_byte line == b'6' then parse_entry_detail line ∷ [] else [])
unfolding on_record
record_holds line s s' h = elim (type_cases (first_byte line)) [
  | inl t ↦ rw (t, append-nil) (header_holds _ s s' (rw (on_record, t) at h))
  | inr (inl t) ↦ rw (t, append-nil) (flush_holds s s' _ refl (rw (on_record, t) at h))
  | inr (inr (inl t)) ↦ rw t (
      detail_holds (parse_entry_detail line) s s' (parse_entry_detail-uncoded line)
        (rw (on_record, t) at h))
  | inr (inr (inr (inl t))) ↦
      rw (t, append-nil) (addenda_holds line s.awaiting s s' refl (rw (on_record, t) at h))
  | inr (inr (inr (inr (inl t)))) ↦
      rw (t, append-nil) (flush_holds s s' _ refl (rw (on_record, t) at h))
  | inr (inr (inr (inr (inr (inl t))))) ↦
      rw (t, append-nil) (flush_holds s s' _ refl (rw (on_record, t) at h))
  | inr (inr (inr (inr (inr (inr (n1, n5, n6, n7, n8, n9)))))) ↦
      absurd (cc (rw (on_record, n1, n5, n6, n7, n8, n9) at h))
]

short_length : (n : ℕ) → ltb n nacha_record_len ≡ true → leb nacha_record_len n ≡ false
short_length n h = ground arith

long_length :
    (n : ℕ) → ltb n nacha_record_len ≡ false → (leb nacha_record_len n ≡ true) × ((n == 0) ≡ false)
long_length n h = (ground arith, ground arith)

flush_free :
    (E : Type 0) (s s' : Progress) → ◌≡◌ {A = E ⊎ Progress} (inr s) (inr s') → held s' ≡ held s
flush_free E s s' h = ap held_by (sym h)

-- So does a line; a line that is too short adds nothing.
line_holds :
    (raw : Text) (s s' : Progress) → on_line raw s ≡ inr s' → held s' ≡ held s ++ entry_in raw
unfolding on_line
line_holds raw s s' h =
    let line = trim_right_cr raw in
    elim (Bool-cases (ltb (length line) nacha_record_len)) [
      | inl short ↦ skipped (trim_right_cr raw) short h
      | inr long ↦ read (trim_right_cr raw) long h
    ]
  where
    says : Text → List (RecordError ⊎ ReturnEntry)
    says line =
        if leb nacha_record_len (length line) && first_byte line == b'6'
        then parse_entry_detail line ∷ []
        else []

    round : Text → RecordError ⊎ Progress
    round line =
        if length line == 0
        then inr s
        else if ltb (length line) nacha_record_len
        then inr s
        else on_record line s

    skipped :
        (line : Text)
        → ltb (length line) nacha_record_len ≡ true
        → round line ≡ inr s'
        → held s' ≡ held s ++ says line
    skipped line short e =
        let cut = short_length (length line) short in
        let same : round line ≡ inr s = same_branch (length line == 0) (rw short refl) in
        rw (cut, append-nil) (flush_free RecordError s s' (sym same ∙ e))

    read :
        (line : Text)
        → ltb (length line) nacha_record_len ≡ false
        → round line ≡ inr s'
        → held s' ≡ held s ++ says line
    read line long e =
        let (full, some_bytes) = long_length (length line) long in
        let kept : round line ≡ on_record line s =
          last_branch (length line == 0) (ltb (length line) nacha_record_len) (inr s)
            (on_record line s) some_bytes long in
        rw full (record_holds line s s' (sym kept ∙ e))

lines_hold :
    (n : ℕ) (lines : List Text) (s s' : Progress)
    → parse_lines n lines s ≡ inr s'
    → held s' ≡ held s ++ entries_in lines
unfolding parse_lines
lines_hold n [] s s' h = rw append-nil (flush_free ParseError s s' h)
lines_hold n (raw ∷ lines) s s' h =
    let (s₁, first, rest) = parse_lines_step (on_line raw s) n raw lines s s' refl h in
    lines_hold (n + 1) lines s₁ s' rest
    ∙ ap (λ (es : List (RecordError ⊎ ReturnEntry)). es ++ entries_in lines)
        (line_holds raw s s₁ first)
    ∙ append_assoc (held s) (entry_in raw) (entries_in lines)

-- If `ParseFile` accepts a file, it returns one entry for each record 6 of full length, in the order
-- of the file, with the amount, account, routing number and trace number that `parseEntryDetail`
-- reads from that record, and no other entry. Nothing is lost when an addenda is missing, and no
-- entry is counted twice.
pub parse_file-entries_in :
    (content : Text) (es : List ReturnEntry)
    → parse_file content ≡ inr es
    → map uncoded es ≡ entries_in (lines_of content)
unfolding parse_file
parse_file-entries_in content es h = from_progress (parse_lines 1 (lines_of content) start) refl h
  where
    start : Progress
    start = record { entries = []; awaiting = none }

    listed : ParseError ⊎ List ReturnEntry → List (RecordError ⊎ ReturnEntry)
    listed (inl x) = []
    listed (inr es) = map uncoded es

    from_progress :
        (o : ParseError ⊎ Progress)
        → parse_lines 1 (lines_of content) start ≡ o
        → all_entries o ≡ inr es
        → map uncoded es ≡ entries_in (lines_of content)
    from_progress (inl x) e h = absurd (ground arith)
    from_progress (inr s) e h = ap listed (sym h) ∙ lines_hold 1 (lines_of content) start s e
