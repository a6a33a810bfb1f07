-- ===== src/Db/Repository.antt =====
-- internal/db/repository.go, internal/db/queries.go and internal/db/ping.go
use ach_orchestrator.Base.{
  ℕ, ◌+◌, Bool, Option, none, some, List, [], ◌∷◌, ◌++◌, ◌==◌, leb, if◌then◌else◌, take,
}
use ach_orchestrator.Base.Text.{Text}
use ach_orchestrator.Base.Sorting.{sort_by}
use ach_orchestrator.Domain.Payment.{
  PaymentState, settled, failed_non_retryable, failed_retryable_exhausted, compliance_escalation,
  Payment,
}
use ach_orchestrator.Domain.Rules.{is_transition_allowed}
use ach_orchestrator.World.{
  AuditEntry, ReturnEvent, Action, pure, raise, gets, modify, on_error, ◌>>=◌, ◌>>◌, io, failed,
  illegal_transition, not_found,
}
use ach_orchestrator.World.View.{find_row, entries_of}
use ach_orchestrator.Services.{Services}

-- `GetPaymentByID`: `none` is `nil, nil`, for no row. The decoding of the columns is left out, and
-- its failure is a failure of the call.
unfoldable pub get_payment_by_id : ℕ → Action (Option Payment)
get_payment_by_id id = do
  on_error "db: GetPaymentByID scan" (io "SELECT payment")
  gets (λ w. find_row id w.payments)

-- `COALESCE(a, b)`
abbrev pub coalesce : Option ℕ → Option ℕ → Option ℕ
coalesce none b = b
coalesce (some a) b = some a

-- The `SET` part of the update.
abbrev pub set_columns : PaymentState → ℕ → Option ℕ → Option ℕ → Payment → Payment
set_columns to now settled_at failed_at p = record p {
  state = to;
  updated_at = now;
  settled_at = coalesce settled_at p.settled_at;
  failed_at = coalesce failed_at p.failed_at;
}

-- The rows after `UPDATE payments SET … WHERE id = $5`.
unfoldable pub update_rows : ℕ → (Payment → Payment) → List Payment → List Payment
update_rows id f [] = []
update_rows id f (p ∷ ps) = (if p.id == id then f p else p) ∷ update_rows id f ps

-- `tag.RowsAffected()`
unfoldable pub rows_affected : ℕ → List Payment → ℕ
rows_affected id [] = 0
rows_affected id (p ∷ ps) = (if p.id == id then 1 else 0) + rows_affected id ps

-- The `switch toState` that sets `settledAt` and `failedAt`.
abbrev pub settled_at_for : PaymentState → ℕ → Option ℕ
settled_at_for settled now = some now
settled_at_for _ now = none

abbrev pub failed_at_for : PaymentState → ℕ → Option ℕ
failed_at_for failed_non_retryable now = some now
failed_at_for failed_retryable_exhausted now = some now
failed_at_for compliance_escalation now = some now
failed_at_for _ now = none

-- What is written for a change to a state at a time, to the row and then to `*p`.
abbrev pub moved : PaymentState → ℕ → Payment → Payment
moved to now = set_columns to now (settled_at_for to now) (failed_at_for to now)

abbrev pub audit_entry : Payment → PaymentState → Text → ℕ → AuditEntry
audit_entry p to reason now = record {
  payment_id = p.id;
  from_state = p.state;
  to_state = to;
  reason = reason;
  created_at = now;
}

-- The function that `UpdatePaymentState` passes to `BeginTxFunc`, with the time as its columns hold
-- it.
unfoldable pub update_tx : Payment → PaymentState → Text → ℕ → Action (Unit {0})
update_tx p to reason now = do
  on_error "update payment" (io "UPDATE payments")
  n ← gets (λ w. rows_affected p.id w.payments)
  modify (λ w. record w {
    store = record (w.store) { payments = update_rows p.id (moved to now) w.payments };
  })
  if n == 0 then raise (not_found p.id) else pure tt
  on_error "insert audit log" (io "INSERT audit_log")
  modify (λ w. record w {
    store = record (w.store) { audit_log = w.audit_log ++ audit_entry p to reason now ∷ [] };
  })

-- `ORDER BY created_at ASC`
abbrev pub not_later : AuditEntry → AuditEntry → Bool
not_later e f = leb e.created_at f.created_at

-- `GetAuditLogByPaymentID`
unfoldable pub get_audit_log_by_payment_id : ℕ → Action (List AuditEntry)
get_audit_log_by_payment_id id = do
  on_error "db: GetAuditLogByPaymentID query" (io "SELECT audit_log")
  gets (λ w. sort_by not_later (entries_of id w.audit_log))

-- `ORDER BY created_at DESC`
abbrev pub not_older : Payment → Payment → Bool
not_older p q = leb q.created_at p.created_at

-- `GetAllPayments`
unfoldable pub get_all_payments : ℕ → Action (List Payment)
get_all_payments limit = do
  io "SELECT payments"
  gets (λ w. take limit (sort_by not_older w.payments))

-- `Ping`
unfoldable pub ping : Action (Unit {0})
ping = io "Ping"

module _ (env : Services) where
  open env use {begin_tx_func, numeric, timestamptz}

  -- `CreatePayment`. `fresh` is the UUID that `uuid.New` gives; the primary key refuses an id that
  -- is there; the other constraints of the table are failures of the call. The row has what its
  -- columns keep of the values. The result is `*p` afterwards, with the times that RETURNING reads
  -- back.
  unfoldable pub create_payment : ℕ → Payment → Action Payment
  create_payment fresh p = do
    now ← gets (λ w. w.clock)
    let q = record p {
      id = (if p.id == 0 then fresh else p.id);
      created_at = timestamptz now;
      updated_at = timestamptz now;
    }
    on_error "db: CreatePayment scan" (io "INSERT payments")
    taken ← gets (λ w. rows_affected q.id w.payments)
    if taken == 0 then pure tt else raise (failed "duplicate key")
    modify (λ w. record w {
      store = record (w.store) {
        payments = w.payments ++ record q { amount = numeric q.amount } ∷ [];
      };
    })
    pure q

  -- `InsertReturnEvent`; a `received_at` of 0 is the zero time. The result is `*ev` afterwards, with
  -- the time that RETURNING reads back.
  unfoldable pub insert_return_event : ReturnEvent → Action ReturnEvent
  insert_return_event ev = do
    now ← gets (λ w. w.clock)
    let received = if ev.received_at == 0 then now else ev.received_at
    let ev' = record ev { received_at = timestamptz received }
    on_error "db: InsertReturnEvent scan" (io "INSERT return_events")
    modify
        (λ w. record w { store = record (w.store) { return_events = w.return_events ++ ev' ∷ [] } })
    pure ev'

  -- `UpdatePaymentState`; the result is `*p` afterwards.
  unfoldable pub update_payment_state : Payment → PaymentState → Text → Action Payment
  update_payment_state p to reason =
      if is_transition_allowed p.state to
      then (do
        now ← gets (λ w. w.clock)
        on_error "db: UpdatePaymentState tx"
            (begin_tx_func (update_tx p to reason (timestamptz now)))
        pure (moved to now p))
      else raise (illegal_transition p.state to p.id)
