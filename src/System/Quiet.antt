-- ===== src/System/Quiet.antt =====
-- What the requests come to on a day on which nothing fails: the creation with the start of the
-- workflow, and the two reads.
use ach_orchestrator.Base.{
  ℕ, true, Option, some, inr, List, [], ◌∷◌, ◌++◌, ◌≡◌, ◌≢◌, refl, arith, ◌==◌, ==_iff,
}
use ach_orchestrator.Base.Text.{Text}
use ach_orchestrator.Domain.Payment.{Payment, Decimal, initiated}
use ach_orchestrator.World.{AuditEntry, SubmitToAchInput, World, ok, Action, io}
use ach_orchestrator.World.View.{view, view_store}
use ach_orchestrator.Services.{Services}
use ach_orchestrator.Db.Repository
use ach_orchestrator.Db.Repository.{rows_affected, get_payment_by_id, get_audit_log_by_payment_id}
use ach_orchestrator.Workflow.Types.{PaymentWorkflowInput, Event}
use ach_orchestrator.Workflow.Loop.{payment_workflow}
use ach_orchestrator.Api.Responses.{CreatePaymentRequest, parse_uuid, created}
use ach_orchestrator.Api.Handlers.{create_problem, create_payment, get_payment, get_audit}
use ach_orchestrator.Api.Create.{new_row, workflow_input}

-- ExecuteWorkflow of Temporal: the workflow runs on the input it is started with, and takes the
-- events that come under the id it is started under. The client does not wait for its result; no
-- call of the handler comes after the start, so the run is put here.
abbrev pub execute_workflow :
    Services → (Text → List Event) → Text → PaymentWorkflowInput → Action (Unit {0})
execute_workflow env events_for workflow_id input w =
    (ok tt, (payment_workflow env input (events_for workflow_id) w).1)

-- The world with the new row.
abbrev pub with_row : Payment → World → World
with_row p w = record w { store = record (w.store) { payments = w.payments ++ p ∷ [] } }

pub create-quiet :
    (env : Services) (events_for : Text → List Event) (new_from_string : Text → Option Decimal)
    (uuid_string : ℕ → Text) (fresh : ℕ) (req : CreatePaymentRequest) (amount : Decimal) (w : World)
    → fresh ≢ 0
    → w.faults ≡ []
    → (rows_affected fresh w.payments == 0) ≡ true
    → create_problem req (new_from_string req.amount) ≡ inr amount
    → create_payment env new_from_string
        (execute_workflow env events_for)
        uuid_string
        fresh
        (some req)
        w
      ≡ (
        record {
          status = 201;
          body = created (record { payment_id = uuid_string fresh; state = initiated });
        },
        (payment_workflow env
            (workflow_input fresh req)
            (events_for (uuid_string fresh))
            (with_row (new_row env fresh amount w.clock) w)).1,
      )
unfolding create_payment Repository.create_payment io
create-quiet env events_for new_from_string uuid_string fresh req amount w real h free accepted =
    rw accepted (ground (arith, ==_iff fresh 0))

-- The insertion sends nothing.
pub same_sent :
    (id : ℕ) (p : Payment) (w : World) (new : List SubmitToAchInput)
    → (view id (with_row p w)).sent ++ new ≡ (view id w).sent ++ new
unfolding view_store
same_sent id p w new = refl

-- Where no read fails, the endpoints answer 200 for a row that is there.
module _ (uuid_parse : Text → Option ℕ) (uuid_string : ℕ → Text) (entry_id : AuditEntry → ℕ) where
  pub get_payment-status :
      (raw : Text) (id : ℕ) (p : Payment) (w : World)
      → w.faults ≡ []
      → parse_uuid uuid_parse raw ≡ inr id
      → (view id w).row ≡ some p
      → (get_payment uuid_parse uuid_string raw w).0.status ≡ 200
  unfolding get_payment get_payment_by_id io view_store
  get_payment-status raw id p w h named row = rw named (ground arith)

  pub get_audit-status :
      (raw : Text) (id : ℕ) (p : Payment) (w : World)
      → w.faults ≡ []
      → parse_uuid uuid_parse raw ≡ inr id
      → (view id w).row ≡ some p
      → (get_audit uuid_parse uuid_string entry_id raw w).0.status ≡ 200
  unfolding get_audit get_payment_by_id get_audit_log_by_payment_id io view_store
  get_audit-status raw id p w h named row = rw named (ground arith)
