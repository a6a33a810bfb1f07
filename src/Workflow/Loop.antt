-- ===== src/Workflow/Loop.antt =====
-- `PaymentWorkflow`. Each round of its loop takes one event: what the selector waited for.
use Prim.Native.String.{String}
use ach_orchestrator.Base.{ℕ, ◌+◌, ◌/◌, List, [], ◌∷◌, ◌++◌, leb, if◌then◌else◌}
use ach_orchestrator.Base.Text.{Text, codes}
use ach_orchestrator.Base.Decimal.{decimal}
use ach_orchestrator.Domain.Payment.{
  PaymentState, initiated, pending, submitted, settled, failed_non_retryable,
  failed_retryable_exhausted, compliance_escalation, returned,
}
use ach_orchestrator.Domain.Rules.{max_representments, hour, retry_delay_for}
use ach_orchestrator.Domain.Rcode.{
  ReturnCategory, retryable, non_retryable, compliance, route_r_code,
}
use ach_orchestrator.World.{Action, pure, ◌>>=◌, ◌>>◌}
use ach_orchestrator.Services.{Services}
use ach_orchestrator.Workflow.Types.{
  PaymentWorkflowInput, Event, timer, signal, Status, completed, waiting,
}
use ach_orchestrator.Workflow.Helpers.{
  fire_webhook, generate_trace_number, persist_transition, check_idempotency, store_trace_number,
  submit,
}

-- `%s` of a `time.Duration` of whole hours.
abbrev duration : ℕ → Text
duration d = decimal (d / hour) ++ codes "h0m0s"

-- The reasons that the calls of `persistTransition` format.
abbrev pub started_reason : Text
started_reason = codes "workflow started"

abbrev pub submitted_reason : Text → ℕ → Text
submitted_reason trace_number n =
    codes "submitting to ACH, trace=" ++ (trace_number ++ (codes ", representment=" ++ decimal n))

abbrev pub settled_reason : Text
settled_reason = codes "settled — no return within 72h"

abbrev pub returned_reason : Text → String → Text
returned_reason rcode description =
    codes "R-code " ++ (rcode ++ (codes " received: " ++ codes description))

abbrev pub non_retryable_reason : Text → String → Text
non_retryable_reason rcode description =
    codes "non-retryable R-code " ++ (rcode ++ (codes ": " ++ codes description))

abbrev pub compliance_reason : Text → String → Text
compliance_reason rcode description =
    codes "compliance escalation R-code " ++ (rcode ++ (codes ": " ++ codes description))

abbrev pub exhausted_reason : Text → ℕ → Text
exhausted_reason rcode n =
    codes "retryable R-code "
    ++ (rcode ++ (codes " exhausted after " ++ (decimal n ++ codes " representments")))

abbrev pub retry_reason : Text → ℕ → Text
retry_reason rcode delay =
    codes "retrying after R-code " ++ (rcode ++ (codes ", sleeping " ++ duration delay))

-- The webhook and `return nil`, the end of every terminal branch.
unfoldable pub finish : ℕ → PaymentState → Text → Text → Action Status
finish payment_id state rcode trace_number = do
  fire_webhook payment_id state rcode trace_number
  pure completed

module _ (env : Services) (input : PaymentWorkflowInput) where
  open env use {sleep}

  -- The body of `if !checkOut.AlreadySubmitted`.
  unfoldable pub first_submission : Text → ℕ → Action (Unit {0})
  first_submission trace_number representment_count = do
    store_trace_number env trace_number
    persist_transition env input.payment_id pending submitted
        (submitted_reason trace_number representment_count)
    _ ← submit env input trace_number
    pure tt

  -- A round of the loop up to the selector; the result is the trace number.
  unfoldable pub send : ℕ → Action Text
  send representment_count = do
    trace_number ← generate_trace_number env representment_count input.payment_id
    check_out ← check_idempotency env trace_number
    if check_out.already_submitted
        then pure tt
        else first_submission trace_number representment_count
    pure trace_number

  -- The retry that is not refused: back to PENDING, a sleep, and the next round.
  unfoldable pub represent : Text → Action Status → Action Status
  represent rcode next = do
    persist_transition env input.payment_id returned pending
        (retry_reason rcode (retry_delay_for rcode))
    sleep (retry_delay_for rcode)
    next

  -- The `switch category`. Its `default` is for a category that is none of the three constants.
  unfoldable pub respond : ReturnCategory → ℕ → Text → Text → String → Action Status → Action Status
  unfolding represent
  respond non_retryable representment_count trace_number rcode description next = do
    persist_transition env input.payment_id returned failed_non_retryable
        (non_retryable_reason rcode description)
    finish input.payment_id failed_non_retryable rcode trace_number
  respond compliance representment_count trace_number rcode description next = do
    persist_transition env input.payment_id returned compliance_escalation
        (compliance_reason rcode description)
    finish input.payment_id compliance_escalation rcode trace_number
  respond retryable representment_count trace_number rcode description next =
      if leb max_representments representment_count
      then (do
        persist_transition env input.payment_id returned failed_retryable_exhausted
            (exhausted_reason rcode representment_count)
        finish input.payment_id failed_retryable_exhausted rcode trace_number)
      else represent rcode next

  -- A round behind the selector; `next` is the rest of the loop.
  unfoldable pub on_event : ℕ → Text → Event → Action Status → Action Status
  on_event representment_count trace_number timer next = do
    persist_transition env input.payment_id submitted settled settled_reason
    finish input.payment_id settled [] trace_number
  on_event representment_count trace_number (signal s) next = do
    persist_transition env input.payment_id submitted returned
        (returned_reason s.r_code (route_r_code s.r_code).1)
    respond (route_r_code s.r_code).0 representment_count trace_number s.r_code
        (route_r_code s.r_code).1 next

  -- The loop.
  unfoldable pub payment_loop : List Event → ℕ → Action Status
  payment_loop [] representment_count = do _ ← send representment_count; pure waiting
  payment_loop (e ∷ es) representment_count =
      let next = payment_loop es (representment_count + 1) in
      do trace_number ← send representment_count; on_event representment_count trace_number e next

  -- `PaymentWorkflow`, given what its selectors will see.
  unfoldable pub payment_workflow : List Event → Action Status
  payment_workflow events = do
    persist_transition env input.payment_id initiated pending started_reason
    payment_loop events 0
