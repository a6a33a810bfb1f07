-- ===== src/World/Tables.antt =====
-- The records of the tables (internal/db/repository.go, internal/db/migrations) and of the calls
-- that leave the process.
use ach_orchestrator.Base.{ℕ, Bool, List}
use ach_orchestrator.Base.Text.{Text}
use ach_orchestrator.Domain.Payment.{PaymentState, Payment}

-- `type AuditEntry struct`, a row of audit_log. The id, which the database draws, is not a
-- field here: the code that reads it takes it as a function of the row.
pub record AuditEntry : Type 0 where
  pub payment_id : ℕ
  pub from_state : PaymentState
  pub to_state : PaymentState
  pub reason : Text
  pub created_at : ℕ

-- `type ReturnEvent struct`, a row of return_events, without the database's id.
pub record ReturnEvent : Type 0 where
  pub payment_id : ℕ
  pub r_code : Text
  pub received_at : ℕ
  pub raw_nacha_line : Text

-- `type SubmitToACHInput struct`
pub record SubmitToAchInput : Type 0 where
  pub payment_id : ℕ
  pub amount : Text
  pub account_number : Text
  pub routing_number : Text
  pub trace_number : Text

-- The tables; the Redis keys with the time at which they expire; the entries that SubmitToACH sent;
-- the payments that a webhook was started for.
pub record Store : Type 0 where
  pub payments : List Payment
  pub audit_log : List AuditEntry
  pub return_events : List ReturnEvent
  pub keys : List (Text × ℕ)
  pub submitted : List SubmitToAchInput
  pub webhooks : List Payment

-- With the clock in nanoseconds, and whether each of the next calls of a service fails.
pub record World : Type 0 where
  pub store : Store
  pub open store use *
  pub clock : ℕ
  pub faults : List Bool
