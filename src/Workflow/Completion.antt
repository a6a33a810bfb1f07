-- ===== src/Workflow/Completion.antt =====
-- Total correctness: on a day on which nothing fails, the workflow comes to its end.
use mathlib.Core.Option
use Prim.Native.String.{String}
use ach_orchestrator.Base.{
  ℕ, ◌+◌, ◌≤◌, ◌<◌, true, some, inl, inr, List, [], ◌∷◌, ◌++◌, ◌≡◌, refl, ◌∙◌, ap, arith, leb,
  length, Bool-cases,
}
use ach_orchestrator.Base.Text.{Text}
use ach_orchestrator.Domain.Payment.{
  PaymentState, initiated, pending, submitted, settled, returned, failed_non_retryable,
  compliance_escalation, failed_retryable_exhausted, Payment,
}
use ach_orchestrator.Domain.Rules.{is_transition_allowed, max_representments, retry_delay_for}
use ach_orchestrator.Domain.Rcode.{
  ReturnCategory, retryable, non_retryable, compliance, route_r_code,
}
use ach_orchestrator.World.{World, ok, Action, ◌>>◌}
use ach_orchestrator.Services.{Services}
use ach_orchestrator.Services.Healthy.{Healthy}
use ach_orchestrator.Workflow.Types.{PaymentWorkflowInput, Event, timer, signal, Status, completed}
use ach_orchestrator.Workflow.Helpers.{persist_transition, fire_webhook}
use ach_orchestrator.Workflow.Loop.{
  started_reason, settled_reason, returned_reason, non_retryable_reason, compliance_reason,
  exhausted_reason, retry_reason, finish, send, represent, respond, on_event, payment_loop,
  payment_workflow,
}
use ach_orchestrator.World.View.{view, view_store}
use ach_orchestrator.Domain.Rules.{is_terminal_state}
use ach_orchestrator.Activities.Persist.{state_of}
use ach_orchestrator.Workflow.Spec.{life}
use ach_orchestrator.Workflow.Trail.{At, trail}
use ach_orchestrator.Workflow.Outcome.{end_of}
use ach_orchestrator.Workflow.Limits.{completed_settles}
use ach_orchestrator.Workflow.Ready.{IsReady, Completes, Completes-bind, persist-Steps}
use ach_orchestrator.Workflow.Progress.{send-Steps, sleep-Steps}

module _ (env : Services) (healthy : Healthy env) (input : PaymentWorkflowInput) where
  open env use {sleep}

  finish-Completes :
      (s : PaymentState) (n : ℕ) (state : PaymentState) (rcode t : Text)
      → Completes env healthy input s n (finish input.payment_id state rcode t)
  unfolding finish fire_webhook
  finish-Completes s n state rcode t w ready = (refl, ready.quiet)

  -- An allowed step, and what follows it.
  then-Completes :
      (s from to : PaymentState) (n : ℕ) (reason : Text) (next : Action Status)
      → is_transition_allowed s to ≡ true
      → Completes env healthy input to n next
      → Completes env healthy input s n
          (persist_transition env input.payment_id from to reason >> next)
  then-Completes s from to n reason next allowed h =
      Completes-bind env healthy input s to n n
        (persist_transition env input.payment_id from to reason) (λ _. next)
        (persist-Steps env healthy input s from to n reason allowed) (λ _. h)

  represent-Completes :
      (n : ℕ) (rcode : Text) (next : Action Status)
      → Completes env healthy input pending n next
      → Completes env healthy input returned n (represent env input rcode next)
  unfolding represent is_transition_allowed
  represent-Completes n rcode next h =
      let d = retry_delay_for rcode in
      then-Completes returned returned pending n (retry_reason rcode d) (sleep d >> next) refl (
        Completes-bind env healthy input pending pending n n (sleep d) (λ _. next)
          (sleep-Steps env healthy input pending n d) (λ _. h))

  respond-Completes :
      (c : ReturnCategory) (k n : ℕ) (t rcode : Text) (what : String) (next : Action Status)
      → (k < max_representments → Completes env healthy input pending n next)
      → Completes env healthy input returned n (respond env input c k t rcode what next)
  unfolding respond is_transition_allowed
  respond-Completes non_retryable k n t rcode what next h =
      then-Completes returned returned failed_non_retryable n (non_retryable_reason rcode what)
        (finish input.payment_id failed_non_retryable rcode t) refl
        (finish-Completes failed_non_retryable n failed_non_retryable rcode t)
  respond-Completes compliance k n t rcode what next h =
      then-Completes returned returned compliance_escalation n (compliance_reason rcode what)
        (finish input.payment_id compliance_escalation rcode t) refl
        (finish-Completes compliance_escalation n compliance_escalation rcode t)
  respond-Completes retryable k n t rcode what next h =
      elim (Bool-cases (leb max_representments k)) [
        | inl e ↦ rw e (
            then-Completes returned returned failed_retryable_exhausted n (exhausted_reason rcode k)
              (finish input.payment_id failed_retryable_exhausted rcode t) refl
              (finish-Completes failed_retryable_exhausted n failed_retryable_exhausted rcode t))
        | inr e ↦ rw e (represent-Completes n rcode next (h (ground arith)))
      ]

  event-Completes :
      (k n : ℕ) (t : Text) (e : Event) (next : Action Status)
      → (k < max_representments → Completes env healthy input pending n next)
      → Completes env healthy input submitted n (on_event env input k t e next)
  unfolding on_event is_transition_allowed
  event-Completes k n t timer next h =
      then-Completes submitted submitted settled n settled_reason
        (finish input.payment_id settled [] t) refl (finish-Completes settled n settled [] t)
  event-Completes k n t (signal s) next h =
      let (c, what, _) = route_r_code s.r_code in
      then-Completes submitted submitted returned n (returned_reason s.r_code what)
        (respond env input c k t s.r_code what next) refl
        (respond-Completes c k n t s.r_code what next h)

  -- As many events as there can be rounds are enough.
  loop-Completes :
      (es : List Event) (n : ℕ)
      → n ≤ max_representments
      → max_representments < n + length es
      → Completes env healthy input pending n (payment_loop env input es n)
  unfolding payment_loop
  loop-Completes [] n low enough = absurd (omega arith)
  loop-Completes (e ∷ es) n low enough =
      let next = payment_loop env input es (n + 1) in
      Completes-bind env healthy input pending submitted n (n + 1) (send env input n)
        (λ t. on_event env input n t e next) (send-Steps env healthy input n low)
        (λ t.
          event-Completes n (n + 1) t e next
            (λ below. loop-Completes es (n + 1) (omega arith) (omega arith)))

  pub payment_workflow-Completes :
      (events : List Event)
      → max_representments < length events
      → Completes env healthy input initiated 0 (payment_workflow env input events)
  unfolding payment_workflow is_transition_allowed
  payment_workflow-Completes events enough =
      then-Completes initiated initiated pending 0 started_reason (payment_loop env input events 0)
        refl (loop-Completes events 0 (omega arith) (omega arith))

  ready-At :
      (w : World)
      → IsReady env input.payment_id initiated 0 w
      → At initiated (trail (view input.payment_id w)) (view input.payment_id w)
  unfolding view_store
  ready-At w ready =
      (ap (Option.map (λ (p : Payment). p.state)) ready.found ∙ ap some ready.there, refl)

  -- Total correctness of `PaymentWorkflow`: if no service fails, the payment is in INITIATED, Redis
  -- holds none of the trace numbers that its rounds can generate, and there are as many events as
  -- there can be rounds, then the workflow returns nil, the payment is in a terminal state, the one
  -- to which the events lead, and the run has added exactly the steps of that life to the audit log.
  pub payment_workflow-terminates :
      (events : List Event) (w : World)
      → max_representments < length events
      → IsReady env input.payment_id initiated 0 w
      → let (r, w') = payment_workflow env input events w in
        (r ≡ ok completed)
        × (state_of (view input.payment_id w') ≡ some (end_of initiated (life events)))
        × (is_terminal_state (end_of initiated (life events)) ≡ true)
        × (trail (view input.payment_id w') ≡ trail (view input.payment_id w) ++ life events)
  payment_workflow-terminates events w enough ready =
      let (done, _) = payment_workflow-Completes events enough w ready in
      let (state, terminal, steps) =
        completed_settles env input events (trail (view input.payment_id w)) w (ready-At w ready)
          done in
      (done, state, terminal, steps)
