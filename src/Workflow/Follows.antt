-- ===== src/Workflow/Follows.antt =====
-- Every run of `PaymentWorkflow` follows the life that its events prescribe.
use ach_orchestrator.Base.{ℕ, ◌+◌, inl, inr, List, [], ◌∷◌, ◌++◌, ◌≢◌, arith}
use ach_orchestrator.Base.Text.{Text}
use ach_orchestrator.Domain.Payment.{initiated, pending, submitted}
use ach_orchestrator.World.{World, Result, ok, err, Action, pure, bind_rule}
use ach_orchestrator.World.View.{view}
use ach_orchestrator.Services.{Services}
use ach_orchestrator.Workflow.Types.{PaymentWorkflowInput, Event, Status, completed, waiting}
use ach_orchestrator.Workflow.Spec.{Step, life_submitted, life}
use ach_orchestrator.Workflow.Trail.{At}
use ach_orchestrator.Workflow.Outcome.{Outcome, stopped, onwards}
use ach_orchestrator.Workflow.Refinement.{GoesOn, persist_rule}
use ach_orchestrator.Workflow.Rounds.{Sent, send_rule, pending_event, event_rule}
use ach_orchestrator.Workflow.Loop.{started_reason, send, on_event, payment_loop, payment_workflow}

-- A run that stops behind the selector's round, whether the payment was sent in it or not.
Sent-stopped :
    (id : ℕ) (t spec : List Step) (out : Result Status) (w : World)
    → out ≢ ok completed
    → Sent id t w
    → Outcome pending t ((pending, submitted) ∷ spec) out (view id w)
Sent-stopped id t spec out w bad (inl at) =
    stopped pending t ((pending, submitted) ∷ spec) out (view id w) bad at
Sent-stopped id t spec out w bad (inr at) =
    onwards pending submitted t spec out (view id w)
      (stopped submitted (t ++ (pending, submitted) ∷ []) spec out (view id w) bad at)

module _ (env : Services) (input : PaymentWorkflowInput) where
  round_rule :
      (e : Event) (es : List Event) (n : ℕ) (next : Action Status) (trace : Text) (t : List Step)
      (w : World)
      → ((t' : List Step)
          → GoesOn env input t' ((pending, submitted) ∷ life_submitted es (n + 1)) next)
      → Sent input.payment_id t w
      → let (r, w') = on_event env input n trace e next w in
        Outcome pending t
          ((pending, submitted) ∷ life_submitted (e ∷ es) n)
          r
          (view input.payment_id w')
  round_rule e es n next trace t w rest (inl at) =
      let out = on_event env input n trace e next w in
      let h = pending_event env input n trace e t next w at in
      stopped pending t ((pending, submitted) ∷ life_submitted (e ∷ es) n) out.0
        (view input.payment_id out.1) (λ g. ground (arith, h.1)) h.0
  round_rule e es n next trace t w rest (inr at) =
      let out = on_event env input n trace e next w in
      onwards pending submitted t (life_submitted (e ∷ es) n) out.0 (view input.payment_id out.1)
        (event_rule env input n trace e es (t ++ (pending, submitted) ∷ []) next w at rest)

  loop_rule :
      (es : List Event) (n : ℕ) (t : List Step)
      → GoesOn env input t
          ((pending, submitted) ∷ life_submitted es n)
          (payment_loop env input es n)
  unfolding payment_loop
  loop_rule [] n t w at =
      let id = input.payment_id in
      let spec = (pending, submitted) ∷ life_submitted [] n in
      let sent = send_rule env input n t w at in
      bind_rule (λ out. Outcome pending t spec out.0 (view id out.1)) (send env input n)
        (λ _. pure waiting) w
        (λ _ _.
          Sent-stopped id t (life_submitted [] n) (ok waiting) (send env input n w).1 (λ g. cc)
            sent)
        (λ e _.
          Sent-stopped id t (life_submitted [] n) (err e) (send env input n w).1 (λ g. cc) sent)
  loop_rule (e ∷ es) n t w at =
      let id = input.payment_id in
      let next = payment_loop env input es (n + 1) in
      let spec = (pending, submitted) ∷ life_submitted (e ∷ es) n in
      let w' = (send env input n w).1 in
      let sent = send_rule env input n t w at in
      let rest = λ (t' : List Step). loop_rule es (n + 1) t' in
      bind_rule (λ out. Outcome pending t spec out.0 (view id out.1)) (send env input n)
        (λ trace. on_event env input n trace e next) w
        (λ trace _. round_rule e es n next trace t w' rest sent)
        (λ x _. Sent-stopped id t (life_submitted (e ∷ es) n) (err x) w' (λ g. cc) sent)

  -- From a payment in INITIATED, whatever the services answer, however often Temporal runs an
  -- activity, and wherever the run ends, in an error or still waiting: the row and the audit log
  -- have gone through a first part of the life that the events prescribe, step by step and with
  -- nothing else, and the row is in the state of the last step. If the workflow returns nil, it is
  -- the whole life.
  pub payment_workflow-follows :
      (events : List Event) (t : List Step) (w : World)
      → At initiated t (view input.payment_id w)
      → let (r, w') = payment_workflow env input events w in
        Outcome initiated t (life events) r (view input.payment_id w')
  unfolding payment_workflow life
  payment_workflow-follows events t w at =
      persist_rule env input initiated initiated pending started_reason t
        ((pending, submitted) ∷ life_submitted events 0) (payment_loop env input events 0) w
        (λ e. cc) at (loop_rule events 0 (t ++ (initiated, pending) ∷ []))
