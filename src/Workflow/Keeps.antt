-- ===== src/Workflow/Keeps.antt =====
-- What every run of the workflow keeps of a payment, from what its activities and the webhook keep.
use ach_orchestrator.Base.{ℕ, ◌+◌, Bool, true, false, List, [], ◌∷◌, ◌≡◌, leb, if◌then◌else◌}
use Prim.Native.String.{String}
use ach_orchestrator.Base.Text.{Text}
use ach_orchestrator.Domain.Payment.{
  PaymentState, initiated, pending, submitted, settled, returned, failed_non_retryable,
  compliance_escalation, failed_retryable_exhausted,
}
use ach_orchestrator.Domain.Rules.{max_representments, retry_delay_for}
use ach_orchestrator.Domain.Rcode.{
  ReturnCategory, retryable, non_retryable, compliance, route_r_code,
}
use ach_orchestrator.World.{Action, pure, ◌>>◌}
use ach_orchestrator.World.View.{View, view}
use ach_orchestrator.Services.{Services}
use ach_orchestrator.Activities.{PersistStateTransitionInput, persist_state_transition}
use ach_orchestrator.Workflow.Types.{
  PaymentWorkflowInput, Event, timer, signal, Status, completed, waiting,
}
use ach_orchestrator.Workflow.Helpers.{persist_transition, fire_webhook}
use ach_orchestrator.Workflow.Loop.{
  started_reason, settled_reason, returned_reason, non_retryable_reason, compliance_reason,
  exhausted_reason, retry_reason, finish, send, represent, respond, on_event, payment_loop,
  payment_workflow,
}
use ach_orchestrator.Workflow.Frame.{Runs, Runs-bind, Runs-persist, Runs-send, Runs-sleep}
use ach_orchestrator.World.{SubmitToAchInput}
use ach_orchestrator.Activities.{submit_to_ach}

module _ (R : View → View → Type 0) (stays : (v : View) → R v v)
    (follows : (u v w : View) → R u v → R v w → R u w) (env : Services)
    (input : PaymentWorkflowInput) (id : ℕ) where
  open env use {sleep}

  -- Every run of the action relates the payment `id` before it to the payment after it.
  abbrev pub Keeps : {A : Type 0} → Action A → Type 0
  Keeps m = Runs R stays follows id m

  module _
      (submits : (i : SubmitToAchInput) → i.payment_id ≡ input.payment_id → Keeps (submit_to_ach i))
      (persists : (i : PersistStateTransitionInput)
        → i.payment_id ≡ input.payment_id
        → Keeps (persist_state_transition env i))
      (fires : (s : PaymentState) (rcode t : Text)
        → Keeps (fire_webhook input.payment_id s rcode t)) where
    persist :
        (from to : PaymentState) (reason : Text)
        → Keeps (persist_transition env input.payment_id from to reason)
    persist = Runs-persist R stays follows env input id persists

    send_round : (n : ℕ) → Keeps (send env input n)
    send_round = Runs-send R stays follows env input id submits persists

    Keeps-finish : (s : PaymentState) (rcode t : Text) → Keeps (finish input.payment_id s rcode t)
    unfolding finish
    Keeps-finish s rcode t =
        Runs-bind R stays follows id (fire_webhook input.payment_id s rcode t) (λ _. pure completed)
          (fires s rcode t) (λ _ w. stays (view id w))

    -- A step, the webhook and the end.
    Keeps-close :
        (from to : PaymentState) (reason rcode t : Text)
        → Keeps (
            persist_transition env input.payment_id from to reason
            >> finish input.payment_id to rcode t)
    Keeps-close from to reason rcode t =
        Runs-bind R stays follows id (persist_transition env input.payment_id from to reason)
          (λ _. finish input.payment_id to rcode t) (persist from to reason)
          (λ _. Keeps-finish to rcode t)

    Keeps-represent :
        (rcode : Text) (next : Action Status) → Keeps next → Keeps (represent env input rcode next)
    unfolding represent
    Keeps-represent rcode next h =
        let d = retry_delay_for rcode in
        Runs-bind R stays follows id
          (persist_transition env input.payment_id returned pending (retry_reason rcode d))
          (λ _. sleep d >> next) (persist returned pending (retry_reason rcode d))
          (λ _.
            Runs-bind R stays follows id (sleep d) (λ _. next)
              (Runs-sleep R stays follows env input id d) (λ _. h))

    Keeps-respond :
        (c : ReturnCategory) (n : ℕ) (t rcode : Text) (what : String) (next : Action Status)
        → Keeps next
        → Keeps (respond env input c n t rcode what next)
    unfolding respond
    Keeps-respond non_retryable n t rcode what next h =
        Keeps-close returned failed_non_retryable (non_retryable_reason rcode what) rcode t
    Keeps-respond compliance n t rcode what next h =
        Keeps-close returned compliance_escalation (compliance_reason rcode what) rcode t
    Keeps-respond retryable n t rcode what next h = by_count (leb max_representments n)
      where
        by_count :
            (b : Bool)
            → Keeps (
                if b
                then persist_transition env input.payment_id returned failed_retryable_exhausted
                    (exhausted_reason rcode n)
                  >> finish input.payment_id failed_retryable_exhausted rcode t
                else represent env input rcode next)
        by_count true =
            Keeps-close returned failed_retryable_exhausted (exhausted_reason rcode n) rcode t
        by_count false = Keeps-represent rcode next h

    Keeps-event :
        (n : ℕ) (t : Text) (e : Event) (next : Action Status)
        → Keeps next
        → Keeps (on_event env input n t e next)
    unfolding on_event
    Keeps-event n t timer next h = Keeps-close submitted settled settled_reason [] t
    Keeps-event n t (signal s) next h =
        let c = (route_r_code s.r_code).0 in
        let what = (route_r_code s.r_code).1 in
        let reason = returned_reason s.r_code what in
        Runs-bind R stays follows id
          (persist_transition env input.payment_id submitted returned reason)
          (λ _. respond env input c n t s.r_code what next) (persist submitted returned reason)
          (λ _. Keeps-respond c n t s.r_code what next h)

    Keeps-loop : (es : List Event) (n : ℕ) → Keeps (payment_loop env input es n)
    unfolding payment_loop
    Keeps-loop [] n =
        Runs-bind R stays follows id (send env input n) (λ _. pure waiting) (send_round n)
          (λ _ w. stays (view id w))
    Keeps-loop (e ∷ es) n =
        let next = payment_loop env input es (n + 1) in
        Runs-bind R stays follows id (send env input n) (λ t. on_event env input n t e next)
          (send_round n) (λ t. Keeps-event n t e next (Keeps-loop es (n + 1)))

    pub Keeps-payment_workflow : (events : List Event) → Keeps (payment_workflow env input events)
    unfolding payment_workflow
    Keeps-payment_workflow events =
        Runs-bind R stays follows id
          (persist_transition env input.payment_id initiated pending started_reason)
          (λ _. payment_loop env input events 0) (persist initiated pending started_reason)
          (λ _. Keeps-loop events 0)
