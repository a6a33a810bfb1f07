-- ===== src/Nacha/RoundTrip.antt =====
-- A return file that is generated is read back.
use ach_orchestrator.Base.{
  length-take, ℕ, zero, suc, ◌≤◌, ◌<◌, none, some, List, [], ◌∷◌, ◌++◌, ◌≡◌, refl, arith, inl, inr,
  ap, ◌∙◌, length, take, drop, map, All,
}
use ach_orchestrator.Base.Text.{Text, codes, utf8}
use ach_orchestrator.Base.Int.{pos}
use ach_orchestrator.Base.Decimal.{decimal}
use ach_orchestrator.Base.Trim.{trim_space}
use ach_orchestrator.Nacha.Parser.{
  ReturnEntry, Progress, on_line, on_record, parse_lines, parse_file, with_pending, all_entries,
  parse_entry_detail,
}
use ach_orchestrator.Nacha.Generator.{
  pad_right, pad_left, byte_at, joined, file_header, batch_header, entry_detail, addenda,
  batch_control, file_control, written, file_with, generate_return_file,
}
use ach_orchestrator.Nacha.Padding.{
  length-pad_right, length-pad_left, trim_space-Plain, trim_space-pad_right, pad_left_whole,
  pad_right_whole, Digit, Plain, Digit-Plain,
}
use ach_orchestrator.Nacha.Scan.{power_of_ten, scan_int-field}
use ach_orchestrator.Nacha.Lines.{InLine}
use ach_orchestrator.Nacha.Steps.{next_line, empty_end}
use ach_orchestrator.Nacha.Clean.{
  line_of, line_of-InLine, lines_of-written, records-Clean, Plain-InLine,
}
use ach_orchestrator.Nacha.Records.{
  on_line-full, header_read, flush_read, addenda_read, parts_read, entry_waits,
}

-- A routing number of nine digits without and with its last one.
split_routing :
    (r : Text)
    → length r ≡ 9
    → All Digit r
    → (c : ℕ) × (byte_at 8 r ≡ some c) × Digit c × (take 8 r ++ c ∷ [] ≡ r)
split_routing r h digits = last 8 r h digits
  where
    last :
        (k : ℕ) (s : Text)
        → length s ≡ suc k
        → All Digit s
        → (c : ℕ) × (byte_at k s ≡ some c) × Digit c × (take k s ++ c ∷ [] ≡ s)
    last zero (c ∷ []) h (d, ds) = (c, refl, d, refl)
    last zero [] h ds = absurd (omega arith)
    last zero (c ∷ d ∷ s) h ds = absurd (omega arith)
    last (suc k) [] h ds = absurd (omega arith)
    last (suc k) (c ∷ s) h (d, ds) =
        let (x, at, digit, e) = last k s (omega arith) ds in
        (x, at, digit, ap (λ (t : Text). c ∷ t) e)

-- What a return file must be given: a routing number of nine digits, an account number of at most
-- 17 and a trace number of 15 printable characters, an amount of at most ten digits and a code of
-- three printable characters. The texts of the time have no control character.
pub record IsReturn (date time routing account : Text) (n : ℕ) (trace r_code : Text) : Type 0 where
  pub dated : All InLine date
  pub timed : All InLine time
  pub nine : length routing ≡ 9
  pub digits : All Digit routing
  pub fits : length account ≤ 17
  pub printable : All Plain account
  pub small : n < power_of_ten 10
  pub fifteen : length trace ≡ 15
  pub traced : All Plain trace
  pub three_long : length r_code ≡ 3
  pub coded : All Plain r_code

module _ (date time routing account : Text) (n : ℕ) (trace r_code : Text)
    (given : IsReturn date time routing account n trace r_code) where
  open given use {
    dated, timed, nine, digits, fits, printable, small, fifteen, traced, three_long, coded,
  }

  abbrev pub entry : ReturnEntry
  entry = record {
    trace_number = trace;
    r_code = r_code;
    amount = pos n;
    account_number = account;
    routing_number = routing;
  }

  -- The record 6 gives the entry without its code.
  detail_read :
      (c : ℕ) (s : Progress)
      → Digit c
      → take 8 routing ++ c ∷ [] ≡ routing
      → on_record (line_of (entry_detail date time routing account (pos n) trace r_code c)) s
        ≡ inr (record {
          entries = with_pending s.entries s.awaiting;
          awaiting = some (record entry { r_code = [] });
        })
  unfolding entry_detail
  detail_read c s (low, high) whole =
      let name = pad_right (codes "RETURN PAYMENT") 22 in
      let one : utf8 c ≡ c ∷ [] = ground arith in
      let read =
        parts_read (take 8 routing) (utf8 c) (pad_right account 17) (pad_left (decimal n) 10 b'0')
          (pad_right trace 15) name (pad_left trace 15 b'0') (pos n)
          (length-take 8 routing (omega (arith, nine))) (ap length one)
          (length-pad_right account 17) (length-pad_left (decimal n) 10 b'0')
          (length-pad_right trace 15) (length-pad_right (codes "RETURN PAYMENT") 22)
          (length-pad_left trace 15 b'0') (scan_int-field n small) in
      let trace_read =
        ap trim_space (pad_left_whole trace 15 b'0' fifteen) ∙ trim_space-Plain trace traced in
      let account_read = trim_space-pad_right account 17 fits printable in
      let routing_read =
        ap (λ (t : Text). trim_space (take 8 routing ++ t)) one
        ∙ ap trim_space whole
        ∙ trim_space-Plain routing (Digit-Plain routing digits) in
      let line = joined (entry_detail date time routing account (pos n) trace r_code c) in
      let parsed : parse_entry_detail line ≡ inr (record entry { r_code = [] }) =
        rw (trace_read, account_read, routing_read) at read.1 in
      ap (λ (l : Text). on_record l s) (pad_right_whole line 94 read.0)
      ∙ entry_waits line (record entry { r_code = [] }) s refl parsed

  abbrev records : ℕ → List (List Text)
  records c =
      file_header date time routing account (pos n) trace r_code
      ∷ batch_header date time routing account (pos n) trace r_code
      ∷ entry_detail date time routing account (pos n) trace r_code c
      ∷ addenda date time routing account (pos n) trace r_code
      ∷ batch_control date time routing account (pos n) trace r_code
      ∷ file_control date time routing account (pos n) trace r_code
      ∷ []

  read_record :
      (r : List Text) (s s' : Progress)
      → All (All InLine) r
      → on_record (line_of r) s ≡ inr s'
      → on_line (line_of r) s ≡ inr s'
  read_record r s s' clean e =
      on_line-full (line_of r) s (length-pad_right (joined r) 94) (line_of-InLine r clean) ∙ e

  -- The record 7 completes the entry.
  code_read :
      on_record
        (line_of (addenda date time routing account (pos n) trace r_code))
        (record { entries = []; awaiting = some (record entry { r_code = [] }) })
      ≡ inr (record { entries = entry ∷ []; awaiting = none })
  unfolding addenda
  code_read =
      let parts = drop 3 (addenda date time routing account (pos n) trace r_code) in
      let waiting : Progress = record {
        entries = [];
        awaiting = some (record entry { r_code = [] });
      } in
      ap (λ (t : Text). on_record (pad_right (codes "799" ++ (t ++ joined parts)) 94) waiting)
        (pad_right_whole r_code 3 three_long)
      ∙ addenda_read r_code (joined parts) (record entry { r_code = [] }) waiting three_long coded
          refl

  -- The loop over the six records and the empty line behind them.
  loop_read :
      (c : ℕ)
      → Digit c
      → take 8 routing ++ c ∷ [] ≡ routing
      → parse_lines 1
          (map line_of (records c) ++ [] ∷ [])
          (record { entries = []; awaiting = none })
        ≡ inr (record { entries = entry ∷ []; awaiting = none })
  unfolding file_header batch_header batch_control file_control
  loop_read c digit whole =
      let rs = records c in
      let behind = λ (k : ℕ). map line_of (drop k rs) ++ [] ∷ [] in
      let start : Progress = record { entries = []; awaiting = none } in
      let waiting : Progress = record {
        entries = [];
        awaiting = some (record entry { r_code = [] });
      } in
      let done : Progress = record { entries = entry ∷ []; awaiting = none } in
      let (c1, (c2, (c3, (c4, (c5, (c6, _)))))) =
        records-Clean date time routing account n trace r_code c digit dated timed
          (Plain-InLine routing (Digit-Plain routing digits)) (Plain-InLine account printable)
          (Plain-InLine trace traced) (Plain-InLine r_code coded) in
      let r1 = file_header date time routing account (pos n) trace r_code in
      let r2 = batch_header date time routing account (pos n) trace r_code in
      let r3 = entry_detail date time routing account (pos n) trace r_code c in
      let r4 = addenda date time routing account (pos n) trace r_code in
      let r5 = batch_control date time routing account (pos n) trace r_code in
      let r6 = file_control date time routing account (pos n) trace r_code in
      next_line 1 (line_of r1) (behind 1) start start
        (read_record r1 start start c1 (header_read (joined (drop 2 r1)) start))
      ∙ next_line 2 (line_of r2) (behind 2) start start
          (read_record r2 start start c2 (flush_read b'5' (joined (drop 1 r2)) start (inl refl)))
      ∙ next_line 3 (line_of r3) (behind 3) start waiting
          (read_record r3 start waiting c3 (detail_read c start digit whole))
      ∙ next_line 4 (line_of r4) (behind 4) waiting done (read_record r4 waiting done c4 code_read)
      ∙ next_line 5 (line_of r5) (behind 5) done done
          (read_record r5 done done c5 (flush_read b'8' (joined (drop 1 r5)) done (inr (inl refl))))
      ∙ next_line 6 (line_of r6) (behind 6) done done
          (read_record r6 done done c6 (flush_read b'9' (joined (drop 1 r6)) done (inr (inr refl))))
      ∙ empty_end 7 done

  -- `GenerateReturnFile` does not panic on what a return file must be given, and `ParseFile` reads
  -- exactly the one entry back from the file, with every field as it was.
  pub parse_file-generate_return_file :
      (content : Text) × (generate_return_file date time routing account (pos n) trace r_code
        ≡ some content)
      × (parse_file content ≡ inr (entry ∷ []))
  unfolding generate_return_file file_with parse_file
  parse_file-generate_return_file =
      let (c, found, digit, whole) = split_routing routing nine digits in
      let clean =
        records-Clean date time routing account n trace r_code c digit dated timed
          (Plain-InLine routing (Digit-Plain routing digits)) (Plain-InLine account printable)
          (Plain-InLine trace traced) (Plain-InLine r_code coded) in
      (
        written (records c),
        rw found refl,
        ap
              (λ (ls : List Text).
                all_entries (parse_lines 1 ls (record { entries = []; awaiting = none })))
              (lines_of-written (records c) clean)
            ∙ ap all_entries (loop_read c digit whole),
      )
