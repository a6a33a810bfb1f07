-- ===== src/Api/Responses.antt =====
-- internal/api/handlers.go: the requests and answers, and how they are read and written. The body of
-- a request is what the JSON decoder gives.
use Prim.Native.String.{String}
use ach_orchestrator.Base.{ℕ, Option, none, some, List, [], ◌∷◌, ◌⊎◌, inl, inr}
use ach_orchestrator.Base.Text.{Text}
use ach_orchestrator.Base.Int.{ℤ}
use ach_orchestrator.Domain.Payment.{PaymentState, Payment}
use ach_orchestrator.World.{World, Result, ok, err}

-- `type CreatePaymentRequest struct` (the description is read by nothing)
pub record CreatePaymentRequest : Type 0 where
  pub amount : Text
  pub account_number : Text
  pub routing_number : Text

-- `type ReturnRequest struct`
pub record ReturnRequest : Type 0 where
  pub r_code : Text
  pub routing_number : Text
  pub account_number : Text
  pub amount_cents : ℤ

-- `type CreatePaymentResponse struct`
pub record CreatePaymentResponse : Type 0 where
  pub payment_id : Text
  pub state : PaymentState

-- `type PaymentStatusResponse struct`
pub record PaymentStatusResponse : Type 0 where
  pub payment_id : Text
  pub state : PaymentState
  pub representment_count : ℕ
  pub trace_number : Text
  pub created_at : ℕ
  pub updated_at : ℕ
  pub settled_at : Option ℕ
  pub failed_at : Option ℕ

-- `type AuditEntryResponse struct`
pub record AuditEntryResponse : Type 0 where
  pub id : Text
  pub payment_id : Text
  pub from_state : PaymentState
  pub to_state : PaymentState
  pub reason : Text
  pub created_at : ℕ

-- The values that the handlers encode; an error by its fixed part; and the page of the dashboard.
pub data Body : Type 0 where
  error_body : String → Body
  created : CreatePaymentResponse → Body
  payment_body : PaymentStatusResponse → Body
  return_signaled : Text → Text → Body
  audit_body : List AuditEntryResponse → Body
  payments_body : List Payment → Body
  page : Text → Body

pub record Response : Type 0 where
  pub status : ℕ
  pub body : Body

abbrev pub Handled : Type 0
Handled = World → Response × World

-- `writeJSON` and `writeError`
abbrev pub write_json : ℕ → Body → Handled
write_json status body w = (record { status = status; body = body }, w)

abbrev pub write_error : ℕ → String → Handled
write_error status message = write_json status (error_body message)

-- A call, with what is written on an error and what follows on success.
abbrev pub written_or : {A : Type 0} → String → Result A × World → (A → Handled) → Response × World
written_or message (ok a, w) next = next a w
written_or message (err e, w) next = write_error 500 message w

-- `parseUUID` of the URL parameter, over `uuid.Parse`: the message of its error, or the id.
abbrev pub parsed_id : Option ℕ → String ⊎ ℕ
parsed_id none = inl "invalid payment id"
parsed_id (some id) = inr id

unfoldable pub parse_uuid : (Text → Option ℕ) → Text → String ⊎ ℕ
parse_uuid uuid_parse [] = inl "payment id is required"
parse_uuid uuid_parse (c ∷ raw) = parsed_id (uuid_parse (c ∷ raw))

-- `paymentID, ok := parseUUID(w, r)`, and the return if it is not ok.
abbrev pub with_id : String ⊎ ℕ → (ℕ → Handled) → Handled
with_id (inl message) next = write_error 400 message
with_id (inr id) next = next id
