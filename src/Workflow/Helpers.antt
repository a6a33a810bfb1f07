-- ===== src/Workflow/Helpers.antt =====
-- The helpers of the workflow: activity calls, the webhook and the trace number.
use ach_orchestrator.Base.{ℕ, ◌/◌, none, [], ◌∷◌, ◌++◌, take}
use ach_orchestrator.Base.Text.{Text, codes}
use ach_orchestrator.Base.Int.{pos}
use ach_orchestrator.Base.Decimal.{decimal}
use ach_orchestrator.Domain.Payment.{PaymentState, Payment}
use ach_orchestrator.World.{Action, gets, modify}
use ach_orchestrator.Services.{Services}
use ach_orchestrator.Activities
use ach_orchestrator.Activities.{
  CheckIdempotencyOutput, SubmitToAchOutput, submit_to_ach, persist_state_transition,
}
use ach_orchestrator.Workflow.Types.{second, PaymentWorkflowInput, default_activity_options}

-- The payment that `fireWebhook` builds; the other fields are zero.
abbrev pub webhook_payment : ℕ → PaymentState → Text → Text → Payment
webhook_payment payment_id state rcode trace_number = record {
  id = payment_id;
  portfolio_id = 0;
  amount = record { coefficient = pos 0; exponent = pos 0 };
  state = state;
  return_code = rcode;
  representment_count = 0;
  trace_number = trace_number;
  created_at = 0;
  updated_at = 0;
  settled_at = none;
  failed_at = none;
}

-- `fireWebhook`: the start of the detached coroutine, whose result is ignored.
unfoldable pub fire_webhook : ℕ → PaymentState → Text → Text → Action (Unit {0})
fire_webhook payment_id state rcode trace_number = modify (λ w. record w {
  store = record (w.store) {
    webhooks = w.webhooks ++ webhook_payment payment_id state rcode trace_number ∷ [];
  };
})

module _ (env : Services) where
  open env use {execute, uuid_string}

  -- The text that `generateTraceNumber` formats, of a time in Unix seconds.
  unfoldable pub trace_text : ℕ → ℕ → ℕ → Text
  unfolding decimal
  trace_text representment_count payment_id ts =
      codes "ACH-"
      ++ (take 8 (uuid_string payment_id)
          ++ (codes "-r" ++ (decimal representment_count ++ (codes "-" ++ decimal ts))))

  -- `generateTraceNumber`
  unfoldable pub generate_trace_number : ℕ → ℕ → Action Text
  generate_trace_number representment_count payment_id =
      gets (λ w. trace_text representment_count payment_id (w.clock / second))

  -- `persistTransition`
  unfoldable pub persist_transition : ℕ → PaymentState → PaymentState → Text → Action (Unit {0})
  persist_transition payment_id from to reason = execute (Unit {0}) default_activity_options (
      persist_state_transition env
        (record { payment_id = payment_id; from_state = from; to_state = to; reason = reason }))

  -- `checkIdempotency`
  unfoldable pub check_idempotency : Text → Action CheckIdempotencyOutput
  check_idempotency trace_number =
      execute CheckIdempotencyOutput default_activity_options
        (Activities.check_idempotency env (record { trace_number = trace_number }))

  -- `storeTraceNumber`
  unfoldable pub store_trace_number : Text → Action (Unit {0})
  store_trace_number trace_number =
      execute (Unit {0}) default_activity_options
        (Activities.store_trace_number env (record { trace_number = trace_number }))

  -- `submitToACH`
  unfoldable pub submit : PaymentWorkflowInput → Text → Action SubmitToAchOutput
  submit input trace_number = execute SubmitToAchOutput default_activity_options (
      submit_to_ach (record {
        payment_id = input.payment_id;
        amount = input.amount;
        account_number = input.account_number;
        routing_number = input.routing_number;
        trace_number = trace_number;
      }))
