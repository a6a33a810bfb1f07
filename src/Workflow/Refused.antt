-- ===== src/Workflow/Refused.antt =====
-- How many entries a run of `PaymentWorkflow` sends when one of the returns is not to be retried.
use ach_orchestrator.Base.{ℕ, ◌+◌, ◌*◌, List, [], ◌∷◌, ◌++◌, ◌≢◌, refl, arith, length}
use Prim.Native.String.{String}
use ach_orchestrator.Base.Text.{Text}
use ach_orchestrator.Domain.Payment.{
  initiated, pending, submitted, returned, failed_non_retryable, compliance_escalation,
}
use ach_orchestrator.Domain.Rcode.{
  ReturnCategory, retryable, non_retryable, compliance, route_r_code,
}
use ach_orchestrator.Domain.Rcode.Routing.{IsRetryCode, category_iff}
use ach_orchestrator.World.{World, Action}
use ach_orchestrator.World.View.{view}
use ach_orchestrator.Services.{Services}
use ach_orchestrator.Workflow.Types.{
  ReturnSignal, PaymentWorkflowInput, default_activity_options, Event, signal, Status,
}
use ach_orchestrator.Workflow.Entries.{Adds, Adds-le, Sending, Sending-bind}
use ach_orchestrator.Workflow.Loop.{
  started_reason, returned_reason, non_retryable_reason, compliance_reason, send, respond, on_event,
  payment_loop, payment_workflow,
}
use ach_orchestrator.Workflow.Submissions.{
  persist-Sending, send-Sending, close-Sending, event-Sending,
}

module _ (env : Services) (input : PaymentWorkflowInput) where
  abbrev attempts : ℕ
  attempts = default_activity_options.maximum_attempts

  -- A return that is not to be retried ends the payment, and sends nothing.
  refuse-Sending :
      (c : ReturnCategory) (n : ℕ) (t rcode : Text) (what : String) (next : Action Status)
      → c ≢ retryable
      → Sending input 0 (respond env input c n t rcode what next)
  unfolding respond
  refuse-Sending non_retryable n t rcode what next h =
      close-Sending env input 0 returned failed_non_retryable (non_retryable_reason rcode what)
        rcode t
  refuse-Sending compliance n t rcode what next h =
      close-Sending env input 0 returned compliance_escalation (compliance_reason rcode what) rcode
        t
  refuse-Sending retryable n t rcode what next h = absurd (h refl)

  refused-Sending :
      (s : ReturnSignal) (n : ℕ) (t : Text) (next : Action Status)
      → ¬ IsRetryCode s.r_code
      → Sending input 0 (on_event env input n t (signal s) next)
  unfolding on_event
  refused-Sending s n t next refused =
      let (c, what, _) = route_r_code s.r_code in
      persist-Sending env input 0 submitted returned (returned_reason s.r_code what)
        (respond env input c n t s.r_code what next)
        (refuse-Sending c n t s.r_code what next (λ e. refused ((category_iff s.r_code).0.0 e)))

  -- Only the rounds of the events before, and the round of the return itself, send.
  loop-refused :
      (before after : List Event) (s : ReturnSignal) (n : ℕ)
      → ¬ IsRetryCode s.r_code
      → Sending input
          (attempts + length before * attempts)
          (payment_loop env input (before ++ signal s ∷ after) n)
  unfolding payment_loop
  loop-refused [] after s n refused =
      let next = payment_loop env input after (n + 1) in
      Sending-bind input attempts 0 (send env input n) (λ t. on_event env input n t (signal s) next)
        (send-Sending env input n) (λ t. refused-Sending s n t next refused)
  loop-refused (e ∷ es) after s n refused =
      let k = attempts + length es * attempts in
      let next = payment_loop env input (es ++ signal s ∷ after) (n + 1) in
      λ w. Adds-le input (attempts + k) (attempts + length (e ∷ es) * attempts) _ _ (omega arith) (
        Sending-bind input attempts k (send env input n) (λ t. on_event env input n t e next)
          (send-Sending env input n)
          (λ t. event-Sending env input k n t e next (λ _. loop-refused es after s (n + 1) refused))
          w)

  -- A return with a code other than R01, R08 and R09 ends the submissions: whatever events come after
  -- it, from any world and whatever the services answer, a run of `PaymentWorkflow` sends at most
  -- `MaximumAttempts` entries for each event before that return and as many once more, each with the
  -- amount and the two numbers of the input. So a refused, revoked, deceased or unknown return is
  -- never presented again.
  pub refused_ends_submissions :
      (before after : List Event) (s : ReturnSignal) (w : World)
      → ¬ IsRetryCode s.r_code
      → Adds input
          ((length before + 1) * default_activity_options.maximum_attempts)
          (view input.payment_id w)
          (view input.payment_id (payment_workflow env input (before ++ signal s ∷ after) w).1)
  unfolding payment_workflow
  refused_ends_submissions before after s w refused =
      let k = attempts + length before * attempts in
      Adds-le input k ((length before + 1) * attempts) _ _ (omega arith) (
        persist-Sending env input k initiated pending started_reason
          (payment_loop env input (before ++ signal s ∷ after) 0)
          (loop-refused before after s 0 refused) w)
