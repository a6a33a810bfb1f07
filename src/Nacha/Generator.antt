-- ===== src/Nacha/Generator.antt =====
-- internal/nacha/generator.go
use ach_orchestrator.Base.{
  ℕ, zero, suc, ◌+◌, ◌-◌, ◌*◌, ◌%◌, Option, none, some, List, [], ◌∷◌, ◌++◌, leb, if◌then◌else◌,
  length, take, drop, replicate,
}
use ach_orchestrator.Base.Text.{Text, codes, utf8}
use ach_orchestrator.Base.Int.{ℤ, pos, negsuc}
use ach_orchestrator.Base.Decimal.{decimal}
use ach_orchestrator.Nacha.Parser.{nacha_record_len, is_digit}

-- `padRight`
unfoldable pub pad_right : Text → ℕ → Text
pad_right s width =
    if leb width (length s) then take width s else s ++ replicate (width - length s) b' '

-- `padLeft`, with its pad
unfoldable pub pad_left : Text → ℕ → ℕ → Text
pad_left s width pad =
    if leb width (length s)
    then drop (length s - width) s
    else replicate (width - length s) pad ++ s

-- The loop of `hashRouting`. Only a digit adds to the sum; eight of them stay far below 2 ^ 63.
unfoldable pub add_digits : ℕ → Text → ℕ
add_digits n [] = n
add_digits n (c ∷ s) = add_digits (if is_digit c then n * 10 + (c - b'0') else n) s

-- `hashRouting`
unfoldable pub hash_routing : Text → ℕ
unfolding add_digits
hash_routing routing8 = add_digits 0 routing8 % 10000000000

-- `fmt.Sprintf("%d", amount)`
abbrev pub int_text : ℤ → Text
int_text (pos n) = decimal n
int_text (negsuc n) = b'-' ∷ decimal (n + 1)

-- `fmt.Sprintf("%010d", n)`, for a number that is not negative
abbrev pub ten_digits : ℕ → Text
ten_digits n = let d = decimal n in replicate (10 - length d) b'0' ++ d

-- A chain of `+`.
abbrev pub joined : List Text → Text
joined [] = []
joined (s ∷ ss) = s ++ joined ss

-- `routingNumber[8]`, which is out of range in a shorter text.
abbrev pub byte_at : ℕ → Text → Option ℕ
byte_at n [] = none
byte_at zero (c ∷ s) = some c
byte_at (suc n) (c ∷ s) = byte_at n s

-- `sb.WriteString(padRight(record, NACHARecordLen)); sb.WriteString("\n")`, for each record.
unfoldable pub written : List (List Text) → Text
written [] = []
written (r ∷ rs) = pad_right (joined r) nacha_record_len ++ b'\n' ∷ written rs

-- The records of the file, each as the parts that `+` joins. `date` and `time` are the texts of the
-- time at the call (`060102` and `1504`).
module _ (date time routing_number account_number : Text) (amount : ℤ)
    (trace_number r_code : Text) where
  unfoldable pub file_header : List Text
  unfolding pad_left pad_right
  file_header =
      codes "1"
      ∷ codes "01"
      ∷ pad_left (codes " " ++ routing_number) 10 b' '
      ∷ pad_left (codes " " ++ routing_number) 10 b' '
      ∷ date
      ∷ time
      ∷ codes "A"
      ∷ codes "094"
      ∷ codes "10"
      ∷ codes "1"
      ∷ pad_right (codes "ACH RETURN RDFI") 23
      ∷ pad_right (codes "ACH RETURN ODFI") 23
      ∷ pad_right [] 8
      ∷ []

  unfoldable pub batch_header : List Text
  unfolding pad_left pad_right
  batch_header =
      codes "5"
      ∷ codes "225"
      ∷ pad_right (codes "ACH RETURN SIM") 16
      ∷ pad_right [] 20
      ∷ pad_right (codes "ACHRETURN") 10
      ∷ codes "PPD"
      ∷ pad_right (codes "RETURN") 10
      ∷ date
      ∷ date
      ∷ codes "   "
      ∷ codes "1"
      ∷ take 8 routing_number
      ∷ pad_left (codes "1") 7 b'0'
      ∷ []

  unfoldable pub entry_detail : ℕ → List Text
  unfolding pad_left pad_right
  entry_detail check_digit =
      codes "6"
      ∷ codes "21"
      ∷ take 8 routing_number
      ∷ utf8 check_digit
      ∷ pad_right account_number 17
      ∷ pad_left (int_text amount) 10 b'0'
      ∷ pad_right trace_number 15
      ∷ pad_right (codes "RETURN PAYMENT") 22
      ∷ codes "  "
      ∷ codes "1"
      ∷ pad_left trace_number 15 b'0'
      ∷ []

  unfoldable pub addenda : List Text
  unfolding pad_left pad_right
  addenda =
      codes "7"
      ∷ codes "99"
      ∷ pad_right r_code 3
      ∷ pad_right trace_number 15
      ∷ codes "      "
      ∷ take 8 routing_number
      ∷ pad_right [] 44
      ∷ pad_left (codes "1") 7 b'0'
      ∷ []

  unfoldable pub batch_control : List Text
  unfolding pad_left pad_right hash_routing
  batch_control =
      codes "8"
      ∷ codes "225"
      ∷ pad_left (codes "2") 6 b'0'
      ∷ ten_digits (hash_routing (take 8 routing_number))
      ∷ pad_left (int_text amount) 12 b'0'
      ∷ pad_left (codes "0") 12 b'0'
      ∷ pad_right (codes "ACHRETURN") 10
      ∷ pad_right [] 19
      ∷ codes "   "
      ∷ take 8 routing_number
      ∷ pad_left (codes "1") 7 b'0'
      ∷ []

  unfoldable pub file_control : List Text
  unfolding pad_left pad_right hash_routing
  file_control =
      codes "9"
      ∷ pad_left (codes "1") 6 b'0'
      ∷ pad_left (codes "1") 6 b'0'
      ∷ pad_left (codes "2") 8 b'0'
      ∷ ten_digits (hash_routing (take 8 routing_number))
      ∷ pad_left (int_text amount) 12 b'0'
      ∷ pad_left (codes "0") 12 b'0'
      ∷ pad_right [] 39
      ∷ []

  unfoldable pub file_with : Option ℕ → Option Text
  unfolding written file_header batch_header entry_detail addenda batch_control file_control
  file_with none = none
  file_with (some check_digit) = some (
      written (
        file_header
        ∷ batch_header
        ∷ entry_detail check_digit
        ∷ addenda
        ∷ batch_control
        ∷ file_control
        ∷ []))

  -- `GenerateReturnFile`: `none` is the panic of a slice that is out of range.
  unfoldable pub generate_return_file : Option Text
  unfolding file_with
  generate_return_file = file_with (byte_at 8 routing_number)
