-- ===== src/Tests/Api.antt =====
-- The theorems on the endpoints at concrete inputs.
use Prim.Native.String.{String}
use ach_orchestrator.Base.{
  ℕ, ◌≤◌, ◌==◌, ◌<◌, true, false, Option, some, inl, inr, List, [], ◌∷◌, ◌≡◌, ◌⊎◌, ◌↔◌, refl, arith,
  if◌then◌else◌, length,
}
use ach_orchestrator.Base.Text.{Text, codes, text_eq}
use ach_orchestrator.Base.Int.{pos}
use ach_orchestrator.Domain.Payment.{Decimal, pending, initiated}
use ach_orchestrator.Domain.Rules.{is_terminal_state}
use ach_orchestrator.World.{AuditEntry, Action, World, pure}
use ach_orchestrator.World.View.{view, view_store, entries_of}
use ach_orchestrator.Services.{simple, is_live}
use ach_orchestrator.Workflow.Types.{PaymentWorkflowInput, Event, timer}
use ach_orchestrator.Workflow.Spec.{life}
use ach_orchestrator.Workflow.Outcome.{end_of}
use ach_orchestrator.Workflow.Loop.{payment_workflow}
use ach_orchestrator.Api.Responses.{CreatePaymentRequest, created, error_body, parse_uuid}
use ach_orchestrator.Api.Handlers.{create_problem, create_payment, get_payment, get_audit}
use ach_orchestrator.Api.Router.{
  get, post, creates, shows, returns, audits, dashboard, lists, router,
}
use ach_orchestrator.Api.Validation.{IsValid, create_problem_iff}
use ach_orchestrator.Api.Create.{new_row, Persisted, create_payment_lem}
use ach_orchestrator.Api.Reads.{Answers, RowAnswered, AuditAnswered, get_payment_lem, get_audit_lem}
use ach_orchestrator.System.Quiet.{execute_workflow}
use ach_orchestrator.System.Settled.{SendsDebits, ShownSettled, ShownSteps, create_payment-settles}
use ach_orchestrator.Db.Repository.{rows_affected}
use ach_orchestrator.Domain.Rules.{max_representments}
use ach_orchestrator.Redis.{trace_key}
use ach_orchestrator.Workflow.Helpers.{trace_text}
use ach_orchestrator.Services.Healthy.{simple-Healthy}
use ach_orchestrator.Tests.Fixtures.{world_with, order, returned_with}

abbrev request : CreatePaymentRequest
request = record {
  amount = codes "100.50";
  account_number = codes "123456789";
  routing_number = codes "021000021";
}

abbrev hundred : Decimal
hundred = record { coefficient = pos 100; exponent = pos 0 }

-- A number parser, a Temporal client and a UUID reader for one value each.
abbrev parse_amount : Text → Option Decimal
parse_amount s = some hundred

abbrev start : Text → PaymentWorkflowInput → Action (Unit {0})
start id input = pure tt

abbrev uuid_string : ℕ → Text
uuid_string id = codes "7f3b1c9d"

abbrev uuid_parse : Text → Option ℕ
uuid_parse s = some 8

create_problem_iff_example :
    (create_problem request (some hundred) ≡ inr hundred) ↔ IsValid request (some hundred) hundred
create_problem_iff_example = create_problem_iff request (some hundred) hundred

create_payment_lem_example :
    let w = world_with pending in
    let out = create_payment simple parse_amount start uuid_string 8 (some request) w in
    ((message : String) × (create_problem request (some hundred) ≡ inl message)
      × (out ≡ (record { status = 400; body = error_body message }, w)))
    ⊎ ((amount : Decimal) × (create_problem request (some hundred) ≡ inr amount)
        × Persisted simple parse_amount start uuid_string 8 request amount w out)
create_payment_lem_example =
    create_payment_lem simple parse_amount start uuid_string 8 request (world_with pending)
      (omega arith)

named : parse_uuid uuid_parse (codes "7f3b1c9d") ≡ inr 8
unfolding parse_uuid
named = refl

-- A reader of the UUID of the payment in the table, and the id of an entry.
abbrev parse_seven : Text → Option ℕ
parse_seven s = some 7

abbrev entry_id : AuditEntry → ℕ
entry_id e = e.created_at

named_seven : parse_uuid parse_seven (codes "7f3b1c9d") ≡ inr 7
unfolding parse_uuid
named_seven = refl

get_payment_lem_example :
    let w = world_with pending in
    let out = get_payment parse_seven uuid_string (codes "7f3b1c9d") w in
    (out.1.store ≡ w.store)
    × (((message : String) × (parse_uuid parse_seven (codes "7f3b1c9d") ≡ inl message)
          × Answers 400 (error_body message) out)
        ⊎ ((id : ℕ) × (parse_uuid parse_seven (codes "7f3b1c9d") ≡ inr id)
            × RowAnswered uuid_string id w out))
get_payment_lem_example =
    get_payment_lem parse_seven uuid_string (codes "7f3b1c9d") (world_with pending)

-- The world after a run of the workflow, with the steps of the payment in the audit log.
abbrev settled_world : World
settled_world = (payment_workflow simple order (timer ∷ []) (world_with initiated)).1

get_audit_lem_example :
    AuditAnswered uuid_string entry_id 7 settled_world
      (get_audit parse_seven uuid_string entry_id (codes "7f3b1c9d") settled_world)
get_audit_lem_example =
    get_audit_lem parse_seven uuid_string entry_id (codes "7f3b1c9d") 7 settled_world named_seven

unused : (view 8 (world_with pending)).history ≡ []
unfolding view_store entries_of
unused = refl

new_id : (rows_affected 8 (world_with pending).payments == 0) ≡ true
unfolding rows_affected
new_id = refl

untraced :
    (m ts : ℕ)
    → m ≤ max_representments
    → is_live
        (trace_key (trace_text simple m 8 ts))
        (world_with pending).clock
        (world_with pending).keys
      ≡ false
unfolding is_live
untraced m ts high = refl

passes : create_problem request (parse_amount request.amount) ≡ inr hundred
unfolding create_payment
passes = refl

-- Returned once, presented again, and settled.
abbrev events : List Event
events = returned_with (codes "R01") ∷ timer ∷ timer ∷ []

abbrev events_for : Text → List Event
events_for id = if text_eq id (codes "7f3b1c9d") then events else []

enough : max_representments < length (events_for (uuid_string 8))
unfolding text_eq
enough = omega arith

create_payment-settles_example :
    let w = world_with pending in
    let events = events_for (uuid_string 8) in
    let (answer, w') =
      create_payment simple parse_amount
        (execute_workflow simple events_for)
        uuid_string
        8
        (some request)
        w in
    (answer ≡ record {
      status = 201;
      body = created (record { payment_id = uuid_string 8; state = initiated });
    })
    × (is_terminal_state (end_of initiated (life events)) ≡ true)
    × SendsDebits 9 8 request w w'
    × ShownSettled uuid_string
        (new_row simple 8 hundred w.clock)
        events
        (get_payment uuid_parse uuid_string (codes "7f3b1c9d") w')
    × ShownSteps events (get_audit uuid_parse uuid_string entry_id (codes "7f3b1c9d") w')
create_payment-settles_example =
    create_payment-settles simple simple-Healthy parse_amount uuid_parse uuid_string entry_id 8
      request hundred events_for (codes "7f3b1c9d") (world_with pending) (omega arith) refl new_id
      unused untraced passes enough named

-- The patterns of the router.
routes :
    router
    ≡ (post, codes "/payments/", creates)
      ∷ (get, codes "/payments/{id}/", shows)
      ∷ (post, codes "/payments/{id}/return", returns)
      ∷ (get, codes "/payments/{id}/audit", audits)
      ∷ (get, codes "/dashboard", dashboard)
      ∷ (get, codes "/api/payments", lists)
      ∷ []
unfolding router
routes = refl
