-- ===== src/Workflow/Submissions.antt =====
-- How many entries the runs of `SubmitToACH` of one workflow send, and what they say.
use Prim.Native.String.{String}
use ach_orchestrator.Activities.{
  SubmitToAchOutput, PersistStateTransitionInput, persist_state_transition, submit_to_ach,
}
use ach_orchestrator.Activities.Persist.{persist_state_transition-Persists}
use ach_orchestrator.Workflow.Frame.{Runs, Runs-check, Runs-store, Runs-sleep, Runs-persist}
use ach_orchestrator.Workflow.Helpers.{
  trace_text, generate_trace_number, persist_transition, check_idempotency, store_trace_number,
  submit, fire_webhook,
}
use ach_orchestrator.Workflow.Loop.{
  started_reason, submitted_reason, settled_reason, returned_reason, non_retryable_reason,
  compliance_reason, exhausted_reason, retry_reason, finish, first_submission, send, represent,
  respond, on_event, payment_loop, payment_workflow,
}
use ach_orchestrator.Base.{
  ℕ, ◌+◌, ◌-◌, ◌/◌, ◌*◌, ◌<◌, Bool, true, false, inl, inr, List, [], ◌∷◌, ◌≡◌, refl, sym, ap, leb,
  if◌then◌else◌, arith, Bool-cases,
}
use ach_orchestrator.Base.Text.{Text}
use ach_orchestrator.Domain.Payment.{
  PaymentState, initiated, pending, submitted, settled, returned, failed_non_retryable,
  compliance_escalation, failed_retryable_exhausted,
}
use ach_orchestrator.Domain.Rules.{max_representments, retry_delay_for}
use ach_orchestrator.Domain.Rcode.{
  ReturnCategory, retryable, non_retryable, compliance, route_r_code,
}
use ach_orchestrator.World.{SubmitToAchInput, World, Action, pure, ◌>>=◌, ◌>>◌}
use ach_orchestrator.World.View.{View, view, view_store}
use ach_orchestrator.Services.{Services}
use ach_orchestrator.Workflow.Types.{
  second, PaymentWorkflowInput, default_activity_options, Event, timer, signal, Status, waiting,
}
use ach_orchestrator.Workflow.Entries.{
  IsOrdered, Adds, Adds-same, Adds-le, Unsent, Unsent-refl, Unsent-trans, submissions_of-concat,
  Sending, Sending-bind, Sending-then, Sending-Attempts,
}

module _ (env : Services) (input : PaymentWorkflowInput) where
  open env use {executes, sleep}

  submit_to_ach-Sending :
      (i : SubmitToAchInput) → IsOrdered input i → Sending input 1 (submit_to_ach i)
  unfolding submit_to_ach view_store
  submit_to_ach-Sending i ordered w = record {
    new = i ∷ [];
    sent = submissions_of-concat input.payment_id w.submitted i ordered.0;
    few = omega arith;
    ordered = (ordered, tt);
  }

  submit-Sending :
      (t : Text) → Sending input default_activity_options.maximum_attempts (submit env input t)
  unfolding submit
  submit-Sending t w =
      let act : Action SubmitToAchOutput = submit_to_ach (record {
        payment_id = input.payment_id;
        amount = input.amount;
        account_number = input.account_number;
        routing_number = input.routing_number;
        trace_number = t;
      }) in
      Sending-Attempts input act (submit env input t w) w
        (submit_to_ach-Sending _ (refl, refl, refl, refl))
        (executes SubmitToAchOutput default_activity_options input.payment_id act w (omega arith))

  persists :
      (i : PersistStateTransitionInput)
      → i.payment_id ≡ input.payment_id
      → Runs Unsent Unsent-refl Unsent-trans input.payment_id (persist_state_transition env i)
  persists i same w = rw (sym same) (elim (persist_state_transition-Persists env i w).0 [
    | inl e ↦ ap (λ (v : View). v.sent) e
    | inr (p, now, row, allowed, e) ↦ ap (λ (v : View). v.sent) e
  ])

  -- A change of state, and what follows it.
  pub persist-Sending :
      (k : ℕ) (from to : PaymentState) (reason : Text) (next : Action Status)
      → Sending input k next
      → Sending input k (persist_transition env input.payment_id from to reason >> next)
  persist-Sending k from to reason next h =
      Sending-then input k (persist_transition env input.payment_id from to reason) (λ _. next)
        (Runs-persist Unsent Unsent-refl Unsent-trans env input input.payment_id persists from to
          reason)
        (λ _. h)

  finish-Sending :
      (k : ℕ) (s : PaymentState) (rcode t : Text)
      → Sending input k (finish input.payment_id s rcode t)
  unfolding finish fire_webhook view_store
  finish-Sending k s rcode t w = Adds-same input k _ _ refl

  -- How many entries one round can send.
  abbrev attempts : ℕ
  attempts = default_activity_options.maximum_attempts

  first-Sending : (t : Text) (n : ℕ) → Sending input attempts (first_submission env input t n)
  unfolding first_submission
  first-Sending t n =
      let p = persist_transition env input.payment_id pending submitted (submitted_reason t n) in
      let rest = submit env input t >>= λ _. pure tt in
      Sending-then input attempts (store_trace_number env t) (λ _. p >> rest)
        (Runs-store Unsent Unsent-refl Unsent-trans env input input.payment_id t)
        (λ _.
          Sending-then input attempts p (λ _. rest)
            (Runs-persist Unsent Unsent-refl Unsent-trans env input input.payment_id persists
              pending submitted (submitted_reason t n))
            (λ _ w. Adds-le input (attempts + 0) attempts _ _ (omega arith) (
              Sending-bind input attempts 0 (submit env input t) (λ _. pure tt) (submit-Sending t)
                (λ _ w. Adds-same input 0 _ _ refl) w)))

  pub send-Sending : (n : ℕ) → Sending input attempts (send env input n)
  unfolding send generate_trace_number
  send-Sending n w =
      let t = trace_text env n input.payment_id (w.clock / second) in
      Sending-then input attempts (check_idempotency env t)
        (λ o. (if o.already_submitted then pure tt else first_submission env input t n) >> pure t)
        (Runs-check Unsent Unsent-refl Unsent-trans env input input.payment_id t)
        (λ o w. Adds-le input (attempts + 0) attempts _ _ (omega arith) (
          Sending-bind input attempts 0
            (if o.already_submitted then pure tt else first_submission env input t n) (λ _. pure t)
            (first_or_not o.already_submitted t n) (λ _ w. Adds-same input 0 _ _ refl) w))
        w
    where
      first_or_not :
          (b : Bool) (t : Text) (n : ℕ)
          → Sending input attempts (if b then pure tt else first_submission env input t n)
      first_or_not true t n w = Adds-same input attempts _ _ refl
      first_or_not false t n w = first-Sending t n w

  pub close-Sending :
      (k : ℕ) (from to : PaymentState) (reason rcode t : Text)
      → Sending input k (
          persist_transition env input.payment_id from to reason
          >> finish input.payment_id to rcode t)
  close-Sending k from to reason rcode t =
      persist-Sending k from to reason (finish input.payment_id to rcode t)
        (finish-Sending k to rcode t)

  -- Only a round below the limit is followed by another one.
  respond-Sending :
      (k : ℕ) (c : ReturnCategory) (n : ℕ) (t rcode : Text) (what : String) (next : Action Status)
      → (n < max_representments → Sending input k next)
      → Sending input k (respond env input c n t rcode what next)
  unfolding respond represent
  respond-Sending k non_retryable n t rcode what next h =
      close-Sending k returned failed_non_retryable (non_retryable_reason rcode what) rcode t
  respond-Sending k compliance n t rcode what next h =
      close-Sending k returned compliance_escalation (compliance_reason rcode what) rcode t
  respond-Sending k retryable n t rcode what next h = elim (Bool-cases (leb max_representments n)) [
    | inl e ↦
        rw e
          (close-Sending k returned failed_retryable_exhausted (exhausted_reason rcode n) rcode t)
    | inr e ↦ rw e (
        persist-Sending k returned pending (retry_reason rcode (retry_delay_for rcode))
          (sleep (retry_delay_for rcode) >> next)
          (Sending-then input k (sleep (retry_delay_for rcode)) (λ _. next)
            (Runs-sleep Unsent Unsent-refl Unsent-trans env input input.payment_id
              (retry_delay_for rcode))
            (λ _. h (ground arith))))
  ]

  pub event-Sending :
      (k n : ℕ) (t : Text) (e : Event) (next : Action Status)
      → (n < max_representments → Sending input k next)
      → Sending input k (on_event env input n t e next)
  unfolding on_event
  event-Sending k n t timer next h = close-Sending k submitted settled settled_reason [] t
  event-Sending k n t (signal s) next h =
      let (c, what, _) = route_r_code s.r_code in
      persist-Sending k submitted returned (returned_reason s.r_code what)
        (respond env input c n t s.r_code what next) (respond-Sending k c n t s.r_code what next h)

  loop-Sending :
      (es : List Event) (n rounds : ℕ)
      → n + rounds ≡ max_representments
      → Sending input (attempts + rounds * attempts) (payment_loop env input es n)
  unfolding payment_loop
  loop-Sending [] n rounds e =
      Sending-bind input attempts (rounds * attempts) (send env input n) (λ _. pure waiting)
        (send-Sending n) (λ _ w. Adds-same input (rounds * attempts) _ _ refl)
  loop-Sending (x ∷ es) n rounds e =
      let next = payment_loop env input es (n + 1) in
      Sending-bind input attempts (rounds * attempts) (send env input n)
        (λ t. on_event env input n t x next) (send-Sending n)
        (λ t. event-Sending (rounds * attempts) n t x next (λ below w.
          Adds-le input (attempts + (rounds - 1) * attempts) (rounds * attempts) _ _ (omega arith)
            (loop-Sending es (n + 1) (rounds - 1) (omega arith) w)))

  -- From any world, whatever the services answer, whatever events come and however the run ends: a
  -- run of `PaymentWorkflow` sends at most nine entries for its payment, since each of its at most
  -- `MaxRepresentments` + 1 rounds has one call of `SubmitToACH`, which Temporal executes at most
  -- `MaximumAttempts` times. Each entry has the amount and the two numbers of the input, and those
  -- sent before stay.
  pub payment_workflow-Adds :
      (events : List Event) (w : World)
      → Adds input
          ((max_representments + 1) * default_activity_options.maximum_attempts)
          (view input.payment_id w)
          (view input.payment_id (payment_workflow env input events w).1)
  unfolding payment_workflow
  payment_workflow-Adds events w =
      Adds-le input (attempts + max_representments * attempts) _ _ _ (omega arith) (
        persist-Sending (attempts + max_representments * attempts) initiated pending started_reason
          (payment_loop env input events 0) (loop-Sending events 0 max_representments (omega arith))
          w)
