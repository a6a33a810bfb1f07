-- ===== src/Tests/Fixtures.antt =====
-- A payment, a world and an input for the tests.
use ach_orchestrator.Base.{none, List, [], ◌∷◌}
use ach_orchestrator.Base.Int.{pos}
use ach_orchestrator.Base.Text.{Text, codes, text_eq}
use ach_orchestrator.Base.Decimal.{decimal}
use ach_orchestrator.Domain.Payment.{PaymentState, Payment, pending}
use ach_orchestrator.Domain.Rules.{is_transition_allowed, is_terminal_state, retry_delay_for}
use ach_orchestrator.Domain.Rcode.{route_r_code}
use ach_orchestrator.World.{World, Result, io}
use ach_orchestrator.World.View.{view_store, find_row, entries_of, submissions_of, webhooks_of}
use ach_orchestrator.Services.{simple, is_live}
use ach_orchestrator.Db.Repository.{
  get_payment_by_id, update_rows, rows_affected, update_tx, update_payment_state,
}
use ach_orchestrator.Redis
use ach_orchestrator.Activities
use ach_orchestrator.Activities.{submit_to_ach, persist_payment, persist_state_transition}
use ach_orchestrator.Workflow.Types.{PaymentWorkflowInput, Event, signal, Status}
use ach_orchestrator.Workflow.Spec.{life, life_submitted, after_return}
use ach_orchestrator.Workflow.Helpers
use ach_orchestrator.Workflow.Helpers.{
  fire_webhook, generate_trace_number, trace_text, persist_transition, submit,
}
use ach_orchestrator.Workflow.Loop.{
  finish, first_submission, send, represent, respond, on_event, payment_loop, payment_workflow,
}

abbrev pub payment_in : PaymentState → Payment
payment_in s = record {
  id = 7;
  portfolio_id = 0;
  amount = record { coefficient = pos 10050; exponent = pos 0 };
  state = s;
  return_code = [];
  representment_count = 0;
  trace_number = [];
  created_at = 5;
  updated_at = 5;
  settled_at = none;
  failed_at = none;
}

abbrev pub world_with : PaymentState → World
world_with s = record {
  store = record {
    payments = payment_in s ∷ [];
    audit_log = [];
    return_events = [];
    keys = [];
    submitted = [];
    webhooks = [];
  };
  clock = 1700000000000000000;
  faults = [];
}

abbrev pub order : PaymentWorkflowInput
order = record {
  payment_id = 7;
  amount = codes "100.50";
  account_number = codes "123456789";
  routing_number = codes "021000021";
}

abbrev pub returned_with : Text → Event
returned_with c = signal (record { r_code = c; trace_number = codes "021000020000001" })

-- The workflow with simple services: naming it on an `unfolding` line opens all that it calls.
unfoldable pub run : List Event → World → Result Status × World
unfolding payment_workflow payment_loop on_event respond represent finish send first_submission
    fire_webhook generate_trace_number trace_text decimal persist_transition
    Helpers.check_idempotency Helpers.store_trace_number submit submit_to_ach
    persist_state_transition Activities.check_idempotency Activities.store_trace_number
    Redis.check_idempotency Redis.store_trace_number get_payment_by_id update_payment_state
    update_tx update_rows rows_affected is_transition_allowed is_terminal_state route_r_code
    retry_delay_for text_eq io is_live simple view_store find_row entries_of submissions_of
    webhooks_of life life_submitted after_return
run = payment_workflow simple order

-- A payment in PENDING, while Redis holds the trace number of its first round at this second.
abbrev pub held_world : World
held_world =
    let w = world_with pending in
    record w {
      store = record (w.store) {
        keys = (codes "ach:trace:ACH-h0000000-r0-1700000000", 1700000001000000000) ∷ [];
      };
    }
