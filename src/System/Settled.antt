-- ===== src/System/Settled.antt =====
-- A day on which nothing fails: from the request that creates a payment over its workflow to the
-- endpoints that show it.
use mathlib.Core.List.{Perm}
use Prim.Native.String.{String}
use ach_orchestrator.Base.{
  ℕ, ◌≤◌, ◌<◌, true, false, Option, some, inl, inr, List, [], ◌++◌, map, ◌≡◌, ◌≢◌, refl, ap, ◌∙◌,
  All, arith, ◌==◌, length, Option-cases,
}
use ach_orchestrator.Base.Text.{Text}
use ach_orchestrator.Base.Sorting.{IsSorted}
use ach_orchestrator.Domain.Payment.{PaymentState, Payment, Decimal, initiated}
use ach_orchestrator.Domain.Rules.{max_representments, is_terminal_state}
use ach_orchestrator.World.{AuditEntry, SubmitToAchInput, World}
use ach_orchestrator.World.View.{view, view_store, find_row}
use ach_orchestrator.Services.{Services, is_live}
use ach_orchestrator.Services.Healthy.{Healthy}
use ach_orchestrator.Db.Repository.{rows_affected}
use ach_orchestrator.Redis.{trace_key}
use ach_orchestrator.Activities.Persist.{state_of}
use ach_orchestrator.Workflow.Types.{Event}
use ach_orchestrator.Workflow.Helpers.{trace_text}
use ach_orchestrator.Workflow.Spec.{life}
use ach_orchestrator.Workflow.Loop.{payment_workflow}
use ach_orchestrator.Workflow.Outcome.{end_of}
use ach_orchestrator.Workflow.Submissions.{payment_workflow-Adds}
use ach_orchestrator.Workflow.Ready.{IsReady}
use ach_orchestrator.Workflow.Completion.{payment_workflow-Completes, payment_workflow-terminates}
use ach_orchestrator.Api.Responses.{
  CreatePaymentRequest, PaymentStatusResponse, AuditEntryResponse, Response, error_body,
  payment_body, audit_body, parse_uuid, created,
}
use ach_orchestrator.Api.Handlers.{create_problem, create_payment, get_payment, get_audit}
use ach_orchestrator.Api.Create.{Inserted, insertion, new_row, workflow_input}
use ach_orchestrator.Api.Reads.{Answers}
use ach_orchestrator.System.Quiet.{
  execute_workflow, with_row, create-quiet, same_sent, get_payment-status, get_audit-status,
}
use ach_orchestrator.System.{Shown, Audited, shown_step, shown_before, created_payment-Shown}

-- `GET /payments/{id}` answers 200 with the terminal state, and `GET /payments/{id}/audit` answers
-- 200 with the steps of the life in the order of their times.
abbrev pub ShownSettled : (ℕ → Text) → Payment → List Event → Response × World → Type 0
ShownSettled uuid_string p events out =
    (r : PaymentStatusResponse) × (r.payment_id ≡ uuid_string p.id)
    × (r.state ≡ end_of initiated (life events))
    × (r.representment_count ≡ p.representment_count)
    × (r.trace_number ≡ p.trace_number)
    × (r.created_at ≡ p.created_at)
    × Answers 200 (payment_body r) out

abbrev pub ShownSteps : List Event → Response × World → Type 0
ShownSteps events out =
    (rs : List AuditEntryResponse) × Perm (map shown_step rs) (life events)
    × IsSorted shown_before rs
    × Answers 200 (audit_body rs) out

row_found :
    (id : ℕ) (w : World) (p : Payment) → (view id w).row ≡ some p → find_row id w.payments ≡ some p
unfolding view_store
row_found id w p h = h

row_there :
    (id : ℕ) (w : World) {s : PaymentState}
    → state_of (view id w) ≡ some s
    → (q : Payment) × ((view id w).row ≡ some q)
row_there id w e = elim (Option-cases (view id w).row) [
  | inl none_there ↦ absurd (ground arith)
  | inr found ↦ found
]

not_failed :
    (message : String) (out : Response × World)
    → out.0.status ≡ 200
    → ¬ Answers 500 (error_body message) out
not_failed message out fine failed =
    absurd (omega (arith, fine, ap (λ (r : Response). r.status) failed))

settled :
    (uuid_string : ℕ → Text) (p : Payment) (events : List Event) (out : Response × World)
    → out.0.status ≡ 200
    → Shown uuid_string p events out
    → ShownSettled uuid_string p events out
settled uuid_string p events out fine (inl failed) =
    absurd (not_failed "database error" out fine failed)
settled uuid_string p events out fine (inr h) = h

stepped :
    (events : List Event) (out : Response × World)
    → out.0.status ≡ 200
    → Audited events out
    → ShownSteps events out
stepped events out fine (inl (message, failed)) = absurd (not_failed message out fine failed)
stepped events out fine (inr h) = h

-- The debit that a request orders: its payment, its amount and its two numbers.
abbrev pub IsDebit : ℕ → CreatePaymentRequest → SubmitToAchInput → Type 0
IsDebit id req i =
    (i.payment_id ≡ id)
    × (i.amount ≡ req.amount)
    × (i.account_number ≡ req.account_number)
    × (i.routing_number ≡ req.routing_number)

-- From one world to the next, at most so many debits of the request are sent for the payment, and
-- nothing else.
abbrev pub SendsDebits : ℕ → ℕ → CreatePaymentRequest → World → World → Type 0
SendsDebits k id req w w' =
    (new : List SubmitToAchInput) × ((view id w').sent ≡ (view id w).sent ++ new)
    × (length new ≤ k)
    × All (IsDebit id req) new

module _ (env : Services) (healthy : Healthy env) (new_from_string : Text → Option Decimal)
    (uuid_parse : Text → Option ℕ) (uuid_string : ℕ → Text) (entry_id : AuditEntry → ℕ) where
  -- From the request to the answers, where no service fails: the checks accept the request, its
  -- fresh UUID belongs to no row and no audit entry, Redis holds none of the trace numbers that the
  -- rounds can generate, and as many events come under the text of the UUID as there can be rounds.
  -- Then `createPayment` answers 201 with that text and INITIATED, and the run of the workflow that
  -- it starts ends in a terminal state. It has sent at most nine entries for the payment, each with
  -- the amount, the account number and the routing number of the request. After it
  -- `GET /payments/{id}` answers 200 with the terminal state to which the events lead and the
  -- creation time, but always with a representment count of 0 and an empty trace number, as the
  -- creation wrote them; and `GET /payments/{id}/audit` answers 200 with exactly the steps of that
  -- life in the order of their times.
  pub create_payment-settles :
      (fresh : ℕ) (req : CreatePaymentRequest) (amount : Decimal) (events_for : Text → List Event)
      (raw : Text) (w : World)
      → fresh ≢ 0
      → w.faults ≡ []
      → (rows_affected fresh w.payments == 0) ≡ true
      → (view fresh w).history ≡ []
      → ((m ts : ℕ)
          → m ≤ max_representments
          → is_live (trace_key (trace_text env m fresh ts)) w.clock w.keys ≡ false)
      → create_problem req (new_from_string req.amount) ≡ inr amount
      → max_representments < length (events_for (uuid_string fresh))
      → parse_uuid uuid_parse raw ≡ inr fresh
      → let (answer, w') =
          create_payment env new_from_string
            (execute_workflow env events_for)
            uuid_string
            fresh
            (some req)
            w in
        let events = events_for (uuid_string fresh) in
        (answer ≡ record {
          status = 201;
          body = created (record { payment_id = uuid_string fresh; state = initiated });
        })
        × (is_terminal_state (end_of initiated (life events)) ≡ true)
        × SendsDebits 9 fresh req w w'
        × ShownSettled uuid_string
            (new_row env fresh amount w.clock)
            events
            (get_payment uuid_parse uuid_string raw w')
        × ShownSteps events (get_audit uuid_parse uuid_string entry_id raw w')
  create_payment-settles fresh req amount events_for raw w real quiet free empty untraced accepted
        enough named =
      let p = new_row env fresh amount w.clock in
      let events = events_for (uuid_string fresh) in
      let made =
        create-quiet env events_for new_from_string uuid_string fresh req amount w real quiet free
          accepted in
      let w₁ = with_row p w in
      let inserted : Inserted p w w₁ = insertion p w w₁ free refl in
      let ready : IsReady env fresh initiated 0 w₁ = record {
        quiet = quiet;
        payment = p;
        found = row_found fresh w₁ p inserted.1;
        there = refl;
        free = λ m ts _ high. untraced m ts high;
      } in
      let input = workflow_input fresh req in
      let w₂ = (payment_workflow env input events w₁).1 in
      let (done, calm) = payment_workflow-Completes env healthy input events enough w₁ ready in
      let (_, state, _, _) = payment_workflow-terminates env healthy input events w₁ enough ready in
      let (terminal, row, steps) =
        created_payment-Shown env uuid_parse uuid_string entry_id fresh req amount events raw w w₁
          inserted empty done named in
      let (q, there) = row_there fresh w₂ state in
      let sent = payment_workflow-Adds env input events w₁ in
      rw made (
        refl,
        terminal,
        (sent.new, sent.sent ∙ same_sent fresh p w sent.new, sent.few, sent.ordered),
        settled uuid_string p events (get_payment uuid_parse uuid_string raw w₂)
            (get_payment-status uuid_parse uuid_string entry_id raw fresh q w₂ calm named there)
            row,
        stepped events (get_audit uuid_parse uuid_string entry_id raw w₂)
            (get_audit-status uuid_parse uuid_string entry_id raw fresh q w₂ calm named there)
            steps,
      )
