-- ===== src/Workflow/Notice.antt =====
-- The webhook that a run of `PaymentWorkflow` starts.
use ach_orchestrator.Base.{
  ℕ, ◌+◌, Bool, true, false, some, inl, inr, List, [], ◌∷◌, ◌++◌, ◌≡◌, ◌≢◌, refl, sym, ◌∙◌, ap, leb,
  if◌then◌else◌, arith,
}
use Prim.Native.String.{String}
use ach_orchestrator.Base.Text.{Text}
use ach_orchestrator.Domain.Payment.{
  PaymentState, initiated, pending, submitted, settled, returned, failed_non_retryable,
  compliance_escalation, failed_retryable_exhausted, Payment,
}
use ach_orchestrator.Base.Int.{pos}
use ach_orchestrator.Domain.Rules.{is_terminal_state, max_representments, retry_delay_for}
use ach_orchestrator.Domain.Rcode.{
  ReturnCategory, retryable, non_retryable, compliance, route_r_code,
}
use ach_orchestrator.World.{World, Result, ok, Action, pure, ◌>>=◌, ◌>>◌, bind_rule}
use ach_orchestrator.World.View.{View, view, view_store, webhooks_of-concat}
use ach_orchestrator.Services.{Services}
use ach_orchestrator.Activities.{
  PersistStateTransitionInput, persist_state_transition, submit_to_ach,
}
use ach_orchestrator.Activities.Persist.{state_of, persist_state_transition-Persists, persist-once}
use ach_orchestrator.Workflow.Types.{
  PaymentWorkflowInput, default_activity_options, Event, timer, signal, Status, completed, waiting,
}
use ach_orchestrator.Workflow.Helpers.{webhook_payment, persist_transition, fire_webhook}
use ach_orchestrator.Workflow.Loop.{
  started_reason, settled_reason, returned_reason, non_retryable_reason, compliance_reason,
  exhausted_reason, retry_reason, finish, send, represent, respond, on_event, payment_loop,
  payment_workflow,
}
use ach_orchestrator.Workflow.Frame.{Runs, Runs-persist, Runs-send, Runs-sleep}

-- No webhook was started.
abbrev Quiet : View → View → Type 0
Quiet v v' = v'.notified ≡ v.notified

Quiet-refl : (v : View) → Quiet v v
Quiet-refl v = refl

Quiet-trans : (u v w : View) → Quiet u v → Quiet v w → Quiet u w
Quiet-trans u v w h k = k ∙ h

abbrev IsQuiet : {A : Type 0} → ℕ → Action A → Type 0
IsQuiet id m = Runs Quiet Quiet-refl Quiet-trans id m

-- A run that did not return nil started no webhook. One that did started a single one, of the
-- payment, of a terminal state in which it left the row, and without its amount.
pub data Notice (id : ℕ) (v : View) (out : Result Status × World) : Type 0 where
  silent : out.0 ≢ ok completed → Quiet v (view id out.1) → Notice id v out
  told :
      (s : PaymentState) (n : Payment)
      → out.0 ≡ ok completed
      → is_terminal_state s ≡ true
      → state_of (view id out.1) ≡ some s
      → n.id ≡ id
      → n.state ≡ s
      → n.amount.coefficient ≡ pos 0
      → (view id out.1).notified ≡ v.notified ++ n ∷ []
      → Notice id v out

-- The action gives its notice from every world.
abbrev Notifies : ℕ → Action Status → Type 0
Notifies id m = (w : World) → Notice id (view id w) (m w)

Notice-after :
    (id : ℕ) (u v : View) (out : Result Status × World)
    → Quiet u v
    → Notice id v out
    → Notice id u out
Notice-after id u v out q (silent bad same) = silent bad (same ∙ q)
Notice-after id u v out q (told s n done terminal row own state empty new) =
    told s n done terminal row own state empty (rw (sym q) new)

then-Notifies :
    {A : Type 0} (id : ℕ) (m : Action A) (f : A → Action Status)
    → IsQuiet id m
    → ((a : A) → Notifies id (f a))
    → Notifies id (m >>= f)
then-Notifies id m f hm hf w =
    bind_rule (λ out. Notice id (view id w) out) m f w
      (λ a _. Notice-after id (view id w) (view id (m w).1) (f a (m w).1) (hm w) (hf a (m w).1))
      (λ e _. silent (λ h. cc) (hm w))

finish-Notice :
    (id : ℕ) (s : PaymentState) (rcode trace : Text) (w : World)
    → is_terminal_state s ≡ true
    → state_of (view id w) ≡ some s
    → Notice id (view id w) (finish id s rcode trace w)
unfolding finish fire_webhook view_store
finish-Notice id s rcode trace w terminal row =
    told s (webhook_payment id s rcode trace) refl terminal row refl refl refl
      (webhooks_of-concat id w.webhooks (webhook_payment id s rcode trace) refl)

module _ (env : Services) (input : PaymentWorkflowInput) where
  open env use {executes, sleep}

  persists :
      (i : PersistStateTransitionInput)
      → i.payment_id ≡ input.payment_id
      → IsQuiet input.payment_id (persist_state_transition env i)
  persists i same w = rw (sym same) (elim (persist_state_transition-Persists env i w).0 [
    | inl e ↦ ap (λ (v : View). v.notified) e
    | inr (p, now, row, allowed, e) ↦ ap (λ (v : View). v.notified) e
  ])

  persist-Quiet :
      (from to : PaymentState) (reason : Text)
      → IsQuiet input.payment_id (persist_transition env input.payment_id from to reason)
  persist-Quiet = Runs-persist Quiet Quiet-refl Quiet-trans env input input.payment_id persists

  -- If the call succeeds, the row is in the target state.
  persist_there :
      (from to : PaymentState) (reason : Text) (w : World)
      → let (r, w') = persist_transition env input.payment_id from to reason w in
        r ≡ ok tt → state_of (view input.payment_id w') ≡ some to
  unfolding persist_transition
  persist_there from to reason w done =
      let id = input.payment_id in
      let i : PersistStateTransitionInput = record {
        payment_id = id;
        from_state = from;
        to_state = to;
        reason = reason;
      } in
      elim (persist-once env i (persist_transition env id from to reason w) w (
        executes (Unit {0}) default_activity_options id (persist_state_transition env i) w
          (omega arith))).1 [ inl bad ↦ absurd (ground arith) | inr there ↦ there ]

  close-Notifies :
      (from to : PaymentState) (reason rcode t : Text)
      → is_terminal_state to ≡ true
      → Notifies input.payment_id (
          persist_transition env input.payment_id from to reason
          >> finish input.payment_id to rcode t)
  close-Notifies from to reason rcode t terminal w =
      let id = input.payment_id in
      let m = persist_transition env id from to reason in
      bind_rule (λ out. Notice id (view id w) out) m (λ _. finish id to rcode t) w
        (λ _ done.
          Notice-after id (view id w) (view id (m w).1) (finish id to rcode t (m w).1)
            (persist-Quiet from to reason w)
            (finish-Notice id to rcode t (m w).1 terminal (persist_there from to reason w done)))
        (λ e _. silent (λ h. cc) (persist-Quiet from to reason w))

  respond-Notifies :
      (c : ReturnCategory) (n : ℕ) (t rcode : Text) (what : String) (next : Action Status)
      → Notifies input.payment_id next
      → Notifies input.payment_id (respond env input c n t rcode what next)
  unfolding respond represent is_terminal_state
  respond-Notifies non_retryable n t rcode what next h =
      close-Notifies returned failed_non_retryable (non_retryable_reason rcode what) rcode t refl
  respond-Notifies compliance n t rcode what next h =
      close-Notifies returned compliance_escalation (compliance_reason rcode what) rcode t refl
  respond-Notifies retryable n t rcode what next h = by_count (leb max_representments n)
    where
      by_count :
          (b : Bool)
          → Notifies input.payment_id (
              if b
              then persist_transition env input.payment_id returned failed_retryable_exhausted
                  (exhausted_reason rcode n)
                >> finish input.payment_id failed_retryable_exhausted rcode t
              else represent env input rcode next)
      by_count true =
          close-Notifies returned failed_retryable_exhausted (exhausted_reason rcode n) rcode t refl
      by_count false =
          let id = input.payment_id in
          let d = retry_delay_for rcode in
          then-Notifies id (persist_transition env id returned pending (retry_reason rcode d))
            (λ _. sleep d >> next) (persist-Quiet returned pending (retry_reason rcode d))
            (λ _.
              then-Notifies id (sleep d) (λ _. next)
                (Runs-sleep Quiet Quiet-refl Quiet-trans env input input.payment_id d) (λ _. h))

  event-Notifies :
      (n : ℕ) (t : Text) (e : Event) (next : Action Status)
      → Notifies input.payment_id next
      → Notifies input.payment_id (on_event env input n t e next)
  unfolding on_event is_terminal_state
  event-Notifies n t timer next h = close-Notifies submitted settled settled_reason [] t refl
  event-Notifies n t (signal s) next h =
      let id = input.payment_id in
      let c = (route_r_code s.r_code).0 in
      let what = (route_r_code s.r_code).1 in
      let reason = returned_reason s.r_code what in
      then-Notifies id (persist_transition env id submitted returned reason)
        (λ _. respond env input c n t s.r_code what next) (persist-Quiet submitted returned reason)
        (λ _. respond-Notifies c n t s.r_code what next h)

  send-Quiet : (n : ℕ) → IsQuiet input.payment_id (send env input n)
  unfolding submit_to_ach view_store
  send-Quiet =
      Runs-send Quiet Quiet-refl Quiet-trans env input input.payment_id (λ i _ w. refl) persists

  loop-Notifies :
      (es : List Event) (n : ℕ) → Notifies input.payment_id (payment_loop env input es n)
  unfolding payment_loop
  loop-Notifies [] n =
      then-Notifies input.payment_id (send env input n) (λ _. pure waiting) (send-Quiet n)
        (λ _ w. silent (λ h. cc) refl)
  loop-Notifies (e ∷ es) n =
      let next = payment_loop env input es (n + 1) in
      then-Notifies input.payment_id (send env input n) (λ t. on_event env input n t e next)
        (send-Quiet n) (λ t. event-Notifies n t e next (loop-Notifies es (n + 1)))

  -- A run of `PaymentWorkflow` that does not return nil starts no webhook for its payment. One that
  -- returns nil starts exactly one, with the id of the payment, with a state that is terminal and is
  -- the state in the row, and always with the amount 0. This holds from any state of the payment and
  -- whatever the services answer.
  pub payment_workflow-Notice :
      (events : List Event) (w : World)
      → Notice input.payment_id (view input.payment_id w) (payment_workflow env input events w)
  unfolding payment_workflow
  payment_workflow-Notice events =
      then-Notifies input.payment_id
        (persist_transition env input.payment_id initiated pending started_reason)
        (λ _. payment_loop env input events 0) (persist-Quiet initiated pending started_reason)
        (λ _. loop-Notifies events 0)
