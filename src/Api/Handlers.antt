-- ===== src/Api/Handlers.antt =====
-- internal/api/handlers.go. The router has found the handler and the parameter {id} before; the body
-- is what the JSON decoder gives, `none` for an error.
use Prim.Native.String.{String}
use ach_orchestrator.Base.{
  ℕ, Bool, true, false, not, ◌&&◌, Option, none, some, [], ◌∷◌, leb, ◌==◌, if◌then◌else◌, length,
  ◌⊎◌, inl, inr, map,
}
use ach_orchestrator.Base.Text.{Text}
use ach_orchestrator.Base.Int.{is_positive}
use ach_orchestrator.Domain.Payment.{Decimal, Payment, initiated}
use ach_orchestrator.World.{AuditEntry, Action}
use ach_orchestrator.Services.{Services}
use ach_orchestrator.Db.Repository
use ach_orchestrator.Db.Repository.{
  get_payment_by_id, get_audit_log_by_payment_id, get_all_payments,
}
use ach_orchestrator.Api.Responses.{
  CreatePaymentRequest, ReturnRequest, PaymentStatusResponse, AuditEntryResponse, created,
  payment_body, return_signaled, audit_body, payments_body, page, Handled, write_json, write_error,
  written_or, parse_uuid, with_id,
}
use ach_orchestrator.Nacha.Parser.{is_digit}
use ach_orchestrator.Workflow.Types.{PaymentWorkflowInput, ReturnSignal}
use ach_orchestrator.Simulator.{simulate_return}

-- The regular expressions.
unfoldable pub all_digits : Text → Bool
all_digits [] = true
all_digits (c ∷ s) = is_digit c && all_digits s

abbrev pub is_account_number : Text → Bool
is_account_number s = leb 4 (length s) && leb (length s) 17 && all_digits s

abbrev pub is_routing_number : Text → Bool
is_routing_number s = length s == 9 && all_digits s

abbrev pub is_r_code : Text → Bool
is_r_code [] = false
is_r_code (c ∷ s) = c == b'R' && length s == 2 && all_digits s

-- The validation in `createPayment`: the message of the first check that fails, or the amount.
-- `parsed` is what `decimal.NewFromString` gives for the amount, `none` for an error.
abbrev pub is_empty : Text → Bool
is_empty [] = true
is_empty (_ ∷ _) = false

abbrev pub positive_amount : Option Decimal → Option Decimal
positive_amount none = none
positive_amount (some d) = if is_positive d.coefficient then some d else none

abbrev pub numbers_problem : CreatePaymentRequest → Decimal → String ⊎ Decimal
numbers_problem req amount =
    if is_empty req.account_number
    then inl "account_number is required"
    else if not (is_account_number req.account_number)
    then inl "account_number must be 4–17 digits"
    else if is_empty req.routing_number
    then inl "routing_number is required"
    else if not (is_routing_number req.routing_number)
    then inl "routing_number must be exactly 9 digits"
    else inr amount

abbrev pub amount_problem : CreatePaymentRequest → Option Decimal → String ⊎ Decimal
amount_problem req none = inl "amount must be a positive decimal number"
amount_problem req (some amount) = numbers_problem req amount

abbrev pub create_problem : CreatePaymentRequest → Option Decimal → String ⊎ Decimal
create_problem req parsed =
    if is_empty req.amount
    then inl "amount is required"
    else amount_problem req (positive_amount parsed)

-- The payment that `createPayment` builds.
abbrev pub new_payment : ℕ → Decimal → ℕ → Payment
new_payment payment_id amount now = record {
  id = payment_id;
  portfolio_id = 0;
  amount = amount;
  state = initiated;
  return_code = [];
  representment_count = 0;
  trace_number = [];
  created_at = now;
  updated_at = now;
  settled_at = none;
  failed_at = none;
}

module _ (env : Services) (new_from_string : Text → Option Decimal)
    (execute_workflow : Text → PaymentWorkflowInput → Action (Unit {0})) (uuid_string : ℕ → Text)
    (fresh : ℕ) where
  -- The start of the workflow, once the row is there.
  abbrev pub started : CreatePaymentRequest → Handled
  started req w =
      written_or "failed to start workflow"
        (execute_workflow (uuid_string fresh)
          (record {
            payment_id = fresh;
            amount = req.amount;
            account_number = req.account_number;
            routing_number = req.routing_number;
          })
          w)
        (λ _.
          write_json 201 (created (record { payment_id = uuid_string fresh; state = initiated })))

  abbrev pub on_create : CreatePaymentRequest → String ⊎ Decimal → Handled
  on_create req (inl message) w = write_error 400 message w
  on_create req (inr amount) w =
      written_or "failed to persist payment"
        (Repository.create_payment env fresh (new_payment fresh amount w.clock) w)
        (λ _. started req)

  -- `createPayment`; `fresh` is the UUID that `uuid.New` gives.
  unfoldable pub create_payment : Option CreatePaymentRequest → Handled
  unfolding all_digits
  create_payment none = write_error 400 "invalid JSON"
  create_payment (some req) = on_create req (create_problem req (new_from_string req.amount))

-- The validation in `postReturn`: the message of the first check that fails.
abbrev pub return_problem : ReturnRequest → Option String
return_problem req =
    if not (is_r_code req.r_code)
    then some "r_code must match R## format, e.g. R01"
    else if not (is_routing_number req.routing_number)
    then some "routing_number must be exactly 9 digits"
    else if not (is_account_number req.account_number)
    then some "account_number must be 4–17 digits"
    else if not (is_positive req.amount_cents)
    then some "amount_cents must be positive"
    else none

module _ (signal_workflow : Text → ReturnSignal → Action (Unit {0})) (uuid_string : ℕ → Text)
    (date time : Text) where
  abbrev pub on_return : ℕ → ReturnRequest → Option String → Handled
  on_return payment_id req (some message) w = write_error 400 message w
  on_return payment_id req none w =
      written_or "failed to simulate return"
        (simulate_return signal_workflow uuid_string date time payment_id req.routing_number
          req.account_number req.amount_cents req.r_code w)
        (λ _. write_json 200 (return_signaled (uuid_string payment_id) req.r_code))

  abbrev pub on_body : ℕ → Option ReturnRequest → Handled
  on_body payment_id none = write_error 400 "invalid JSON"
  on_body payment_id (some req) = on_return payment_id req (return_problem req)

  -- `postReturn`
  unfoldable pub post_return : (Text → Option ℕ) → Text → Option ReturnRequest → Handled
  unfolding all_digits
  post_return uuid_parse raw body = with_id (parse_uuid uuid_parse raw) (λ id. on_body id body)

module _ (uuid_string : ℕ → Text) where
  -- The answer of `getPayment`
  abbrev pub status_response : Payment → PaymentStatusResponse
  status_response p = record {
    payment_id = uuid_string p.id;
    state = p.state;
    representment_count = p.representment_count;
    trace_number = p.trace_number;
    created_at = p.created_at;
    updated_at = p.updated_at;
    settled_at = p.settled_at;
    failed_at = p.failed_at;
  }

  abbrev pub found_payment : Option Payment → Handled
  found_payment none = write_error 404 "payment not found"
  found_payment (some p) = write_json 200 (payment_body (status_response p))

module _ (uuid_string : ℕ → Text) (entry_id : AuditEntry → ℕ) where
  -- The answer of `getAudit`; the id of an entry is the one that the database drew for its row.
  abbrev pub entry_response : AuditEntry → AuditEntryResponse
  entry_response e = record {
    id = uuid_string (entry_id e);
    payment_id = uuid_string e.payment_id;
    from_state = e.from_state;
    to_state = e.to_state;
    reason = e.reason;
    created_at = e.created_at;
  }

  abbrev pub audited : ℕ → Option Payment → Handled
  audited id none w = write_error 404 "payment not found" w
  audited id (some p) w =
      written_or "failed to fetch audit log" (get_audit_log_by_payment_id id w)
        (λ logs. write_json 200 (audit_body (map entry_response logs)))

module _ (uuid_parse : Text → Option ℕ) (uuid_string : ℕ → Text) where
  -- `getPayment`
  unfoldable pub get_payment : Text → Handled
  get_payment raw =
      with_id (parse_uuid uuid_parse raw)
        (λ id w. written_or "database error" (get_payment_by_id id w) (found_payment uuid_string))

  -- `getAudit`
  unfoldable pub get_audit : (AuditEntry → ℕ) → Text → Handled
  get_audit entry_id raw = with_id (parse_uuid uuid_parse raw) (λ id w.
      written_or "database error" (get_payment_by_id id w) (audited uuid_string entry_id id))

-- `handleGetAllPayments`
unfoldable pub handle_get_all_payments : Handled
handle_get_all_payments w =
    written_or "failed to fetch payments" (get_all_payments 100 w)
      (λ payments. write_json 200 (payments_body payments))

-- `handleDashboard`, with the embedded page.
unfoldable pub handle_dashboard : Text → Handled
handle_dashboard html w = (record { status = 200; body = page html }, w)
