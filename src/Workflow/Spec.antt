-- ===== src/Workflow/Spec.antt =====
-- The life of a payment as a list of steps, from the events alone.
use ach_orchestrator.Base.{ℕ, ◌+◌, List, [], ◌∷◌, leb, if◌then◌else◌}
use ach_orchestrator.Domain.Payment.{
  PaymentState, initiated, pending, submitted, settled, failed_non_retryable,
  failed_retryable_exhausted, compliance_escalation, returned,
}
use ach_orchestrator.Domain.Rules.{max_representments}
use ach_orchestrator.Domain.Rcode.{
  ReturnCategory, retryable, non_retryable, compliance, route_r_code,
}
use ach_orchestrator.Workflow.Types.{Event, timer, signal}

-- A change of state: from, to.
abbrev pub Step : Type 0
Step = PaymentState × PaymentState

-- What follows a return.
unfoldable pub after_return : ReturnCategory → ℕ → List Step → List Step
after_return non_retryable n next = (returned, failed_non_retryable) ∷ []
after_return compliance n next = (returned, compliance_escalation) ∷ []
after_return retryable n next =
    if leb max_representments n
    then (returned, failed_retryable_exhausted) ∷ []
    else (returned, pending) ∷ next

-- The steps behind SUBMITTED for the events to come.
unfoldable pub life_submitted : List Event → ℕ → List Step
life_submitted [] n = []
life_submitted (timer ∷ es) n = (submitted, settled) ∷ []
life_submitted (signal s ∷ es) n =
    (submitted, returned)
    ∷ after_return (route_r_code s.r_code).0 n ((pending, submitted) ∷ life_submitted es (n + 1))

-- The whole life.
unfoldable pub life : List Event → List Step
life events = (initiated, pending) ∷ (pending, submitted) ∷ life_submitted events 0
