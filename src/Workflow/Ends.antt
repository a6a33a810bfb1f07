-- ===== src/Workflow/Ends.antt =====
-- The loop ends: after three events the workflow waits for no other.
use Prim.Native.String.{String}
use ach_orchestrator.Base.{
  ℕ, ◌+◌, ◌≤◌, ◌<◌, inl, inr, List, [], ◌∷◌, ◌≢◌, arith, leb, Bool-cases, length,
}
use ach_orchestrator.Base.Text.{Text}
use ach_orchestrator.Domain.Payment.{
  PaymentState, initiated, pending, submitted, settled, failed_non_retryable,
  failed_retryable_exhausted, compliance_escalation, returned,
}
use ach_orchestrator.Domain.Rules.{max_representments, retry_delay_for}
use ach_orchestrator.Domain.Rcode.{
  ReturnCategory, retryable, non_retryable, compliance, route_r_code,
}
use ach_orchestrator.World.{World, ok, Action, pure, ◌>>=◌, ◌>>◌, bind_rule}
use ach_orchestrator.Services.{Services}
use ach_orchestrator.Workflow.Types.{
  PaymentWorkflowInput, Event, timer, signal, Status, completed, waiting,
}
use ach_orchestrator.Workflow.Helpers.{fire_webhook, persist_transition}
use ach_orchestrator.Workflow.Loop.{
  started_reason, settled_reason, returned_reason, non_retryable_reason, compliance_reason,
  exhausted_reason, retry_reason, finish, send, respond, on_event, payment_loop, payment_workflow,
}

-- The action does not end in a wait, in any world.
abbrev Ends : Action Status → Type 0
Ends m = (w : World) → (m w).0 ≢ ok waiting

Ends-bind :
    {A : Type 0} (m : Action A) (f : A → Action Status) → ((a : A) → Ends (f a)) → Ends (m >>= f)
Ends-bind m f h w = bind_rule (λ out. out.0 ≢ ok waiting) m f w (λ a _. h a (m w).1) (λ e _ g. cc)

Ends-then : (m : Action (Unit {0})) (next : Action Status) → Ends next → Ends (m >> next)
Ends-then m next h = Ends-bind m (λ _. next) (λ _. h)

Ends-finish : (id : ℕ) (s : PaymentState) (rcode trace : Text) → Ends (finish id s rcode trace)
unfolding finish
Ends-finish id s rcode trace =
    Ends-bind (fire_webhook id s rcode trace) (λ _. pure completed) (λ _ w g. cc)

module _ (env : Services) (input : PaymentWorkflowInput) where
  open env use {sleep}

  abbrev persist : PaymentState → PaymentState → Text → Action (Unit {0})
  persist from to reason = persist_transition env input.payment_id from to reason

  Ends-respond :
      (c : ReturnCategory) (n : ℕ) (trace rcode : Text) (d : String) (next : Action Status)
      → (n < max_representments → Ends next)
      → Ends (respond env input c n trace rcode d next)
  unfolding respond
  Ends-respond non_retryable n trace rcode d next h w =
      Ends-then (persist returned failed_non_retryable (non_retryable_reason rcode d))
        (finish input.payment_id failed_non_retryable rcode trace)
        (Ends-finish input.payment_id failed_non_retryable rcode trace) w
  Ends-respond compliance n trace rcode d next h w =
      Ends-then (persist returned compliance_escalation (compliance_reason rcode d))
        (finish input.payment_id compliance_escalation rcode trace)
        (Ends-finish input.payment_id compliance_escalation rcode trace) w
  Ends-respond retryable n trace rcode d next h w = elim (Bool-cases (leb max_representments n)) [
    | inl e ↦ rw e (
        Ends-then (persist returned failed_retryable_exhausted (exhausted_reason rcode n))
          (finish input.payment_id failed_retryable_exhausted rcode trace)
          (Ends-finish input.payment_id failed_retryable_exhausted rcode trace) w)
    | inr e ↦ rw e (
        Ends-then (persist returned pending (retry_reason rcode (retry_delay_for rcode)))
          (sleep (retry_delay_for rcode) >> next)
          (Ends-then (sleep (retry_delay_for rcode)) next (h (ground arith))) w)
  ]

  Ends-event :
      (n : ℕ) (trace : Text) (e : Event) (next : Action Status)
      → (n < max_representments → Ends next)
      → Ends (on_event env input n trace e next)
  unfolding on_event
  Ends-event n trace timer next h =
      Ends-then (persist submitted settled settled_reason)
        (finish input.payment_id settled [] trace) (Ends-finish input.payment_id settled [] trace)
  Ends-event n trace (signal s) next h =
      let (c, d, _) = route_r_code s.r_code in
      Ends-then (persist submitted returned (returned_reason s.r_code d))
        (respond env input c n trace s.r_code d next) (Ends-respond c n trace s.r_code d next h)

  Ends-loop :
      (es : List Event) (n : ℕ)
      → n ≤ max_representments
      → max_representments < n + length es
      → Ends (payment_loop env input es n)
  unfolding payment_loop
  Ends-loop [] n low high = absurd (omega arith)
  Ends-loop (e ∷ es) n low high =
      Ends-bind (send env input n)
        (λ trace. on_event env input n trace e (payment_loop env input es (n + 1)))
        (λ trace.
          Ends-event n trace e (payment_loop env input es (n + 1))
            (λ lt. Ends-loop es (n + 1) (omega arith) (omega arith)))

  -- Given three events, `PaymentWorkflow` returns: it has completed, or failed with an error,
  -- whatever the events are and whatever the services answer.
  pub payment_workflow-returns :
      (events : List Event) (w : World)
      → max_representments < length events
      → (payment_workflow env input events w).0 ≢ ok waiting
  unfolding payment_workflow
  payment_workflow-returns events w h =
      Ends-then (persist initiated pending started_reason) (payment_loop env input events 0)
        (Ends-loop events 0 (omega arith) (omega arith)) w
