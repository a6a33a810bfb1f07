-- ===== src/Nacha/Clean.antt =====
-- The records that are generated have no control character, so a file splits into its records.
use mathlib.Core.List.{map}
use ach_orchestrator.Base.{
  All-take, All-append, All-replicate, ℕ, ◌-◌, ◌≤◌, Bool, true, ◌&&◌, List, [], ◌∷◌, ◌++◌, ◌≡◌,
  refl, arith, leb, length, take, replicate, All, ap, ◌∙◌,
}
use ach_orchestrator.Base.Text.{Text, codes, utf8}
use ach_orchestrator.Base.Int.{pos}
use ach_orchestrator.Base.Decimal.{decimal}
use ach_orchestrator.Nacha.Parser.{nacha_record_len, replace_crlf, split_lines}
use ach_orchestrator.Nacha.Generator.{
  pad_right, pad_left, hash_routing, ten_digits, joined, file_header, batch_header, entry_detail,
  addenda, batch_control, file_control, written,
}
use ach_orchestrator.Nacha.Padding.{Digit, Plain, pad_right-All, pad_left-All}
use ach_orchestrator.Nacha.Scan.{digits-All}
use ach_orchestrator.Nacha.Lines.{InLine, lines_of, lines_of-line}

infixr 4 ◌&◌
◌&◌ {ℓ κ} : {A : Type ℓ} {B : Type κ} → A → B → A × B
a & b = (a, b)

abbrev clean : Text → Bool
clean [] = true
clean (c ∷ s) = leb 32 c && clean s

-- For literals.
clean-All : (s : Text) → clean s ≡ true → All InLine s
clean-All [] h = tt
clean-All (c ∷ s) h = (ground arith, clean-All s (ground arith))

pub Plain-InLine : (s : Text) → All Plain s → All InLine s
Plain-InLine [] h = tt
Plain-InLine (c ∷ s) ((low, high), h) = (omega arith, Plain-InLine s h)

decimal-InLine : (n : ℕ) → All InLine (decimal n)
unfolding decimal
decimal-InLine n = Digit-InLine (decimal n) (digits-All 20 n)
  where
    Digit-InLine : (s : Text) → All Digit s → All InLine s
    Digit-InLine [] h = tt
    Digit-InLine (c ∷ s) ((low, high), h) = (omega arith, Digit-InLine s h)

joined-All : (P : ℕ → Type 0) (ss : List Text) → All (All P) ss → All P (joined ss)
joined-All P [] h = tt
joined-All P (s ∷ ss) (h, hs) = All-append P s (joined ss) h (joined-All P ss hs)

right : (s : Text) (width : ℕ) → All InLine s → All InLine (pad_right s width)
right s width h = pad_right-All InLine s width (omega arith) h

left : (s : Text) (width pad : ℕ) → 32 ≤ pad → All InLine s → All InLine (pad_left s width pad)
left s width pad h hs = pad_left-All InLine s width pad h hs

ten_digits-InLine : (n : ℕ) → All InLine (ten_digits n)
ten_digits-InLine n =
    All-append InLine (replicate (10 - length (decimal n)) b'0') (decimal n)
      (All-replicate InLine (10 - length (decimal n)) b'0' (omega arith)) (decimal-InLine n)

utf8-InLine : (c : ℕ) → Digit c → All InLine (utf8 c)
utf8-InLine c (low, high) = ground arith

module _ (date time routing account : Text) (n : ℕ) (trace r_code : Text) where
  abbrev Clean : List Text → Type 0
  Clean r = All (All InLine) r

  file_header-Clean :
      All InLine date
      → All InLine time
      → All InLine routing
      → Clean (file_header date time routing account (pos n) trace r_code)
  unfolding file_header
  file_header-Clean d t r =
      let party = left (codes " " ++ routing) 10 b' ' (omega arith) (omega arith, r) in
      clean-All (codes "1") refl
      & clean-All (codes "01") refl
      & party
      & party
      & d
      & t
      & clean-All (codes "A") refl
      & clean-All (codes "094") refl
      & clean-All (codes "10") refl
      & clean-All (codes "1") refl
      & right (codes "ACH RETURN RDFI") 23 (clean-All (codes "ACH RETURN RDFI") refl)
      & right (codes "ACH RETURN ODFI") 23 (clean-All (codes "ACH RETURN ODFI") refl)
      & right [] 8 tt
      & tt

  batch_header-Clean :
      All InLine date
      → All InLine routing
      → Clean (batch_header date time routing account (pos n) trace r_code)
  unfolding batch_header
  batch_header-Clean d r =
      clean-All (codes "5") refl
      & clean-All (codes "225") refl
      & right (codes "ACH RETURN SIM") 16 (clean-All (codes "ACH RETURN SIM") refl)
      & right [] 20 tt
      & right (codes "ACHRETURN") 10 (clean-All (codes "ACHRETURN") refl)
      & clean-All (codes "PPD") refl
      & right (codes "RETURN") 10 (clean-All (codes "RETURN") refl)
      & d
      & d
      & clean-All (codes "   ") refl
      & clean-All (codes "1") refl
      & All-take InLine 8 routing r
      & left (codes "1") 7 b'0' (omega arith) (clean-All (codes "1") refl)
      & tt

  pub entry_detail-Clean :
      (check : ℕ)
      → Digit check
      → All InLine routing
      → All InLine account
      → All InLine trace
      → Clean (entry_detail date time routing account (pos n) trace r_code check)
  unfolding entry_detail
  entry_detail-Clean check (low, high) r a t =
      clean-All (codes "6") refl
      & clean-All (codes "21") refl
      & All-take InLine 8 routing r
      & utf8-InLine check (low, high)
      & right account 17 a
      & left (decimal n) 10 b'0' (omega arith) (decimal-InLine n)
      & right trace 15 t
      & right (codes "RETURN PAYMENT") 22 (clean-All (codes "RETURN PAYMENT") refl)
      & clean-All (codes "  ") refl
      & clean-All (codes "1") refl
      & left trace 15 b'0' (omega arith) t
      & tt

  addenda-Clean :
      All InLine routing
      → All InLine trace
      → All InLine r_code
      → Clean (addenda date time routing account (pos n) trace r_code)
  unfolding addenda
  addenda-Clean r t c =
      clean-All (codes "7") refl
      & clean-All (codes "99") refl
      & right r_code 3 c
      & right trace 15 t
      & clean-All (codes "      ") refl
      & All-take InLine 8 routing r
      & right [] 44 tt
      & left (codes "1") 7 b'0' (omega arith) (clean-All (codes "1") refl)
      & tt

  batch_control-Clean :
      All InLine routing → Clean (batch_control date time routing account (pos n) trace r_code)
  unfolding batch_control
  batch_control-Clean r =
      clean-All (codes "8") refl
      & clean-All (codes "225") refl
      & left (codes "2") 6 b'0' (omega arith) (clean-All (codes "2") refl)
      & ten_digits-InLine (hash_routing (take 8 routing))
      & left (decimal n) 12 b'0' (omega arith) (decimal-InLine n)
      & left (codes "0") 12 b'0' (omega arith) (clean-All (codes "0") refl)
      & right (codes "ACHRETURN") 10 (clean-All (codes "ACHRETURN") refl)
      & right [] 19 tt
      & clean-All (codes "   ") refl
      & All-take InLine 8 routing r
      & left (codes "1") 7 b'0' (omega arith) (clean-All (codes "1") refl)
      & tt

  file_control-Clean : Clean (file_control date time routing account (pos n) trace r_code)
  unfolding file_control
  file_control-Clean =
      clean-All (codes "9") refl
      & left (codes "1") 6 b'0' (omega arith) (clean-All (codes "1") refl)
      & left (codes "1") 6 b'0' (omega arith) (clean-All (codes "1") refl)
      & left (codes "2") 8 b'0' (omega arith) (clean-All (codes "2") refl)
      & ten_digits-InLine (hash_routing (take 8 routing))
      & left (decimal n) 12 b'0' (omega arith) (decimal-InLine n)
      & left (codes "0") 12 b'0' (omega arith) (clean-All (codes "0") refl)
      & right [] 39 tt
      & tt

  -- All six.
  pub records-Clean :
      (check : ℕ)
      → Digit check
      → All InLine date
      → All InLine time
      → All InLine routing
      → All InLine account
      → All InLine trace
      → All InLine r_code
      → All Clean (
          file_header date time routing account (pos n) trace r_code
          ∷ batch_header date time routing account (pos n) trace r_code
          ∷ entry_detail date time routing account (pos n) trace r_code check
          ∷ addenda date time routing account (pos n) trace r_code
          ∷ batch_control date time routing account (pos n) trace r_code
          ∷ file_control date time routing account (pos n) trace r_code
          ∷ [])
  records-Clean check digit d t r a u c =
      file_header-Clean d t r
      & batch_header-Clean d r
      & entry_detail-Clean check digit r a u
      & addenda-Clean r u c
      & batch_control-Clean r
      & file_control-Clean
      & tt

abbrev pub line_of : List Text → Text
line_of r = pad_right (joined r) nacha_record_len

pub line_of-InLine : (r : List Text) → All (All InLine) r → All InLine (line_of r)
line_of-InLine r h = right (joined r) nacha_record_len (joined-All InLine r h)

-- A file splits into its records, and an empty line behind the last newline.
pub lines_of-written :
    (rs : List (List Text))
    → All (All (All InLine)) rs
    → lines_of (written rs) ≡ map line_of rs ++ [] ∷ []
unfolding written replace_crlf split_lines
lines_of-written [] h = refl
lines_of-written (r ∷ rs) (h, hs) =
    lines_of-line (line_of r) (written rs) (line_of-InLine r h)
    ∙ ap (λ (ls : List Text). line_of r ∷ ls) (lines_of-written rs hs)
