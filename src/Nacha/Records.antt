-- ===== src/Nacha/Records.antt =====
-- What the parser reads from each record that the generator writes.
use ach_orchestrator.Base.{
  take-append, drop-append, ℕ, ◌+◌, ◌-◌, some, List, [], ◌∷◌, ◌++◌, ◌≡◌, refl, arith, inl, inr,
  none, ◌⊎◌, ap, sym, ◌∙◌, length, drop, length-append, All,
}
use ach_orchestrator.Base.Text.{Text, codes, slice, text_eq}
use ach_orchestrator.Base.Int.{ℤ}
use ach_orchestrator.Base.Trim.{trim_space}
use ach_orchestrator.Nacha.Parser.{
  ReturnEntry, Progress, first_byte, with_pending, flush, on_record, on_line, parse_entry_detail,
  entry_with, scan_int, parse_addenda_r_code, validate_file_header, on_addenda,
}
use ach_orchestrator.Nacha.Padding.{length-pad_right, pad_right_cons, trim_space-Plain, Plain}
use ach_orchestrator.Nacha.Lines.{InLine, trim_right_cr-line}
use ach_orchestrator.Nacha.Generator.{pad_right, joined}
use mathlib.Core.List.{append_assoc}

-- The field behind the first part of a line.
slice-field :
    (before field after : Text) (low high : ℕ)
    → length before ≡ low
    → high ≡ low + length field
    → slice low high (before ++ (field ++ after)) ≡ field
slice-field before field after low high at end =
    rw (drop-append before (field ++ after) low 0 (omega arith))
      (take-append field after (high - low) (omega arith))

-- A line of full length with no control character goes to the `switch` as it is.
pub on_line-full :
    (l : Text) (s : Progress) → length l ≡ 94 → All InLine l → on_line l s ≡ on_record l s
unfolding on_line
on_line-full l s full clean = rw (trim_right_cr-line l clean) (ground arith)

joined-append : (xs ys : List Text) → joined (xs ++ ys) ≡ joined xs ++ joined ys
joined-append [] ys = refl
joined-append (x ∷ xs) ys =
    ap (λ (s : Text). x ++ s) (joined-append xs ys) ∙ sym (append_assoc x (joined xs) (joined ys))

-- How long the parts are together.
abbrev total : List Text → ℕ
total [] = 0
total (s ∷ ss) = length s + total ss

length-joined : (ss : List Text) → length (joined ss) ≡ total ss
length-joined [] = refl
length-joined (s ∷ ss) = omega (arith, length-append s (joined ss), length-joined ss)

-- A part of a record stands where the lengths of those before it say.
slice-part :
    (before : List Text) (part : Text) (after : List Text) (low high : ℕ)
    → total before ≡ low
    → high ≡ low + length part
    → slice low high (joined (before ++ part ∷ after)) ≡ part
slice-part before part after low high at end = rw (joined-append before (part ∷ after)) (
    slice-field (joined before) part (joined after) low high (omega (arith, length-joined before))
      end)

three : (a b c : ℕ) (rest : Text) → pad_right (a ∷ b ∷ c ∷ rest) 94 ≡ a ∷ b ∷ c ∷ pad_right rest 91
three a b c rest =
    pad_right_cons a (b ∷ c ∷ rest) 93
    ∙ ap (λ (s : Text). a ∷ s) (pad_right_cons b (c ∷ rest) 92)
    ∙ ap (λ (s : Text). a ∷ b ∷ s) (pad_right_cons c rest 91)

pad_right_six :
    (a b c d e f : ℕ) (rest : Text)
    → pad_right (a ∷ b ∷ c ∷ d ∷ e ∷ f ∷ rest) 94 ≡ a ∷ b ∷ c ∷ d ∷ e ∷ f ∷ pad_right rest 88
pad_right_six a b c d e f rest =
    three a b c (d ∷ e ∷ f ∷ rest)
    ∙ ap (λ (s : Text). a ∷ b ∷ c ∷ s)
        (pad_right_cons d (e ∷ f ∷ rest) 90
          ∙ ap (λ (s : Text). d ∷ s) (pad_right_cons e (f ∷ rest) 89)
          ∙ ap (λ (s : Text). d ∷ e ∷ s) (pad_right_cons f rest 88))

-- A header is accepted, and the records 5, 8 and 9 flush.
pub header_read :
    (rest : Text) (s : Progress) → on_record (pad_right (b'1' ∷ b'0' ∷ b'1' ∷ rest) 94) s ≡ inr s
unfolding on_record validate_file_header text_eq
header_read rest s = rw (three b'1' b'0' b'1' rest) refl

pub flush_read :
    (c : ℕ) (rest : Text) (s : Progress)
    → (c ≡ b'5') ⊎ (c ≡ b'8') ⊎ (c ≡ b'9')
    → on_record (pad_right (c ∷ rest) 94) s ≡ inr (flush s)
unfolding on_record
flush_read c rest s (inl e) = rw (e, pad_right_cons b'5' rest 93) refl
flush_read c rest s (inr (inl e)) = rw (e, pad_right_cons b'8' rest 93) refl
flush_read c rest s (inr (inr e)) = rw (e, pad_right_cons b'9' rest 93) refl

-- The code stands behind 799.
addenda_code :
    (a b c : ℕ) (rest : Text)
    → length (b'7' ∷ b'9' ∷ b'9' ∷ a ∷ b ∷ c ∷ rest) ≡ 94
    → All Plain (a ∷ b ∷ c ∷ [])
    → parse_addenda_r_code (b'7' ∷ b'9' ∷ b'9' ∷ a ∷ b ∷ c ∷ rest) ≡ inr (a ∷ b ∷ c ∷ [])
unfolding parse_addenda_r_code text_eq
addenda_code a b c rest full plain =
    rw (parse_addenda_r_code, full, trim_space-Plain (a ∷ b ∷ c ∷ []) plain) refl

pub addenda_read :
    (code rest : Text) (e : ReturnEntry) (s : Progress)
    → length code ≡ 3
    → All Plain code
    → s.awaiting ≡ some e
    → on_record (pad_right (b'7' ∷ b'9' ∷ b'9' ∷ code ++ rest) 94) s
      ≡ inr (record { entries = s.entries ++ record e { r_code = code } ∷ []; awaiting = none })
unfolding on_record on_addenda
addenda_read (a ∷ b ∷ c ∷ []) rest e s three_long plain waiting =
    let line = pad_right_six b'7' b'9' b'9' a b c rest in
    let full = sym (ap length line) ∙ length-pad_right (b'7' ∷ b'9' ∷ b'9' ∷ a ∷ b ∷ c ∷ rest) 94 in
    rw (line, waiting, addenda_code a b c (pad_right rest 88) full plain) refl
addenda_read [] rest e s h plain waiting = absurd (omega arith)
addenda_read (a ∷ []) rest e s h plain waiting = absurd (omega arith)
addenda_read (a ∷ b ∷ []) rest e s h plain waiting = absurd (omega arith)
addenda_read (a ∷ b ∷ c ∷ d ∷ code) rest e s h plain waiting = absurd (omega arith)

-- The entry from its fields.
fields_read :
    (line r acc amt tr : Text) (n : ℤ)
    → length line ≡ 94
    → slice 3 12 line ≡ r
    → slice 12 29 line ≡ acc
    → slice 29 39 line ≡ amt
    → slice 79 94 line ≡ tr
    → scan_int (trim_space amt) ≡ some n
    → parse_entry_detail line
      ≡ inr (record {
        trace_number = trim_space tr;
        r_code = [];
        amount = n;
        account_number = trim_space acc;
        routing_number = trim_space r;
      })
unfolding parse_entry_detail entry_with
fields_read line r acc amt tr n full er eacc eamt etr amount =
    rw (full, eamt, amount, er, eacc, etr) refl

-- The parts of an entry, by their widths.
abbrev pub entry_parts : Text → Text → Text → Text → Text → Text → Text → List Text
entry_parts r8 c acc amt id name tr =
    codes "6" ∷ codes "21" ∷ r8 ∷ c ∷ acc ∷ amt ∷ id ∷ name ∷ codes "  " ∷ codes "1" ∷ tr ∷ []

pub parts_read :
    (r8 c acc amt id name tr : Text) (n : ℤ)
    → length r8 ≡ 8
    → length c ≡ 1
    → length acc ≡ 17
    → length amt ≡ 10
    → length id ≡ 15
    → length name ≡ 22
    → length tr ≡ 15
    → scan_int (trim_space amt) ≡ some n
    → let line = joined (entry_parts r8 c acc amt id name tr) in
      (length line ≡ 94)
      × (parse_entry_detail line
          ≡ inr (record {
            trace_number = trim_space tr;
            r_code = [];
            amount = n;
            account_number = trim_space acc;
            routing_number = trim_space (r8 ++ c);
          }))
parts_read r8 c acc amt id name tr n h8 h1 h17 h10 h15 h22 ht amount =
    let front = codes "6" ∷ codes "21" ∷ [] in
    let parts = entry_parts r8 c acc amt id name tr in
    let after_c : List Text = acc ∷ amt ∷ id ∷ name ∷ codes "  " ∷ codes "1" ∷ tr ∷ [] in
    let full : length (joined parts) ≡ 94 = omega (arith, length-joined parts) in
    let merged : joined parts ≡ joined (front ++ (r8 ++ c) ∷ after_c) =
      ap (λ (s : Text). codes "621" ++ s) (sym (append_assoc r8 c (joined after_c))) in
    (
      full,
      fields_read (joined parts) (r8 ++ c) acc amt tr n full
          (ap (slice 3 12) merged
            ∙ slice-part front (r8 ++ c) after_c 3 12 refl (omega (arith, length-append r8 c)))
          (slice-part (front ++ r8 ∷ c ∷ []) acc (drop 1 after_c) 12 29 (omega arith) (omega arith))
          (slice-part (front ++ r8 ∷ c ∷ acc ∷ []) amt (drop 2 after_c) 29 39 (omega arith)
            (omega arith))
          (slice-part (front ++ r8 ∷ c ∷ acc ∷ amt ∷ id ∷ name ∷ codes "  " ∷ codes "1" ∷ []) tr []
            79 94 (omega arith) (omega arith))
          amount,
    )

-- An entry record waits for its addenda, and flushes what waited before.
pub entry_waits :
    (line : Text) (e : ReturnEntry) (s : Progress)
    → first_byte line ≡ b'6'
    → parse_entry_detail line ≡ inr e
    → on_record line s
      ≡ inr (record { entries = with_pending s.entries s.awaiting; awaiting = some e })
unfolding on_record
entry_waits line e s six read = rw (on_record, six, read) refl
