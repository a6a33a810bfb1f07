-- ===== src/Domain/Rules/Edges.antt =====
-- The transition table against the diagram of the states, drawn as a relation.
use ach_orchestrator.Base.{true, ◌≡◌, refl, arith}
use ach_orchestrator.Domain.Payment.{
  PaymentState, initiated, pending, submitted, settled, failed_non_retryable,
  failed_retryable_exhausted, compliance_escalation, returned,
}
use ach_orchestrator.Domain.Rules.{is_transition_allowed}

infix 40 ◌⟶◌
pub data ◌⟶◌ : PaymentState → PaymentState → Type 0 where
  queue : initiated ⟶ pending
  send : pending ⟶ submitted
  cancel : pending ⟶ failed_non_retryable
  settle : submitted ⟶ settled
  return : submitted ⟶ returned
  reject : submitted ⟶ failed_non_retryable
  hold : submitted ⟶ compliance_escalation
  represent : returned ⟶ pending
  refuse : returned ⟶ failed_non_retryable
  exhaust : returned ⟶ failed_retryable_exhausted
  escalate : returned ⟶ compliance_escalation

pub ruleset edges =
    (queue, send, cancel, settle, return, reject, hold, represent, refuse, exhaust, escalate)

pub Edge-allowed : {s t : PaymentState} → s ⟶ t → is_transition_allowed s t ≡ true
unfolding is_transition_allowed
Edge-allowed queue = refl
Edge-allowed _ = refl

pub allowed-Edge : (s t : PaymentState) → is_transition_allowed s t ≡ true → s ⟶ t
unfolding is_transition_allowed
allowed-Edge initiated pending h = queue
allowed-Edge pending submitted h = send
allowed-Edge pending failed_non_retryable h = cancel
allowed-Edge submitted settled h = settle
allowed-Edge submitted returned h = return
allowed-Edge submitted failed_non_retryable h = reject
allowed-Edge submitted compliance_escalation h = hold
allowed-Edge returned pending h = represent
allowed-Edge returned failed_non_retryable h = refuse
allowed-Edge returned failed_retryable_exhausted h = exhaust
allowed-Edge returned compliance_escalation h = escalate
allowed-Edge _ _ h = ground arith
