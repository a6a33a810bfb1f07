-- ===== src/Workflow/Evolution.antt =====
-- What any run of `PaymentWorkflow` may do to a payment, whatever state it starts in.
use ach_orchestrator.Base.{ℕ, true, some, inl, inr, List, [], ◌∷◌, ◌++◌, ◌≡◌, refl, sym, ◌∙◌, arith}
use ach_orchestrator.Base.Text.{Text}
use ach_orchestrator.Domain.Payment.{PaymentState, Payment}
use ach_orchestrator.Domain.Rules.{is_transition_allowed}
use ach_orchestrator.World.{World}
use ach_orchestrator.World.View.{View, view, view_store}
use ach_orchestrator.Services.{Services}
use ach_orchestrator.Db.Update.{stepped, step_entry, moved-stepped}
use ach_orchestrator.Activities.{PersistStateTransitionInput, persist_state_transition}
use ach_orchestrator.Activities.Persist.{persist_state_transition-Persists, Moves}
use ach_orchestrator.Workflow.Types.{PaymentWorkflowInput, Event}
use ach_orchestrator.Workflow.Helpers.{fire_webhook}
use ach_orchestrator.Workflow.Loop.{payment_workflow}
use ach_orchestrator.Workflow.Frame.{Runs}
use ach_orchestrator.Workflow.Keeps.{Keeps-payment_workflow}
use ach_orchestrator.Activities.{submit_to_ach}

-- The row and the audit log of a payment after any number of steps of the transition table: each
-- writes the new state, the time and the terminal time into the row, and one entry that says so.
pub data Evolves (v : View) : View → Type 0 where
  still : {v' : View} → v'.row ≡ v.row → v'.history ≡ v.history → Evolves v v'
  then_moved :
      {u v' : View} (p : Payment) (to : PaymentState) (reason : Text) (now : ℕ)
      → Evolves v u
      → u.row ≡ some p
      → is_transition_allowed p.state to ≡ true
      → v'.row ≡ some (stepped to now p)
      → v'.history ≡ u.history ++ step_entry p to reason now ∷ []
      → Evolves v v'

Evolves-refl : (v : View) → Evolves v v
Evolves-refl v = still refl refl

Evolves-same : (u v w : View) → Evolves u v → w.row ≡ v.row → w.history ≡ v.history → Evolves u w
Evolves-same u v w (still row history) r h = still (r ∙ row) (h ∙ history)
Evolves-same u v w (then_moved p to reason now before old allowed row history) r h =
    then_moved p to reason now before old allowed (r ∙ row) (h ∙ history)

Evolves-trans : (u v w : View) → Evolves u v → Evolves v w → Evolves u w
Evolves-trans u v w h (still row history) = Evolves-same u v w h row history
Evolves-trans u v w h (then_moved {u = u'} p to reason now before old allowed row history) =
    then_moved p to reason now (Evolves-trans u v u' h before) old allowed row history

Moves-Evolves :
    (to : PaymentState) (reason : Text) (v v' : View) → Moves to reason v v' → Evolves v v'
Moves-Evolves to reason v v' (p, now, row, allowed, e) =
    then_moved p to reason now (Evolves-refl v) row allowed
      (rw (← moved-stepped to now p) (ground arith)) (ground arith)

module _ (env : Services) (input : PaymentWorkflowInput) where
  persists :
      (i : PersistStateTransitionInput)
      → i.payment_id ≡ input.payment_id
      → Runs Evolves Evolves-refl Evolves-trans input.payment_id (persist_state_transition env i)
  persists i same w = elim (persist_state_transition-Persists env i w).0 [
    | inl e ↦ rw (sym same, e) (Evolves-refl (view i.payment_id w))
    | inr m ↦ rw (sym same) (
        Moves-Evolves i.to_state i.reason (view i.payment_id w)
          (view i.payment_id (persist_state_transition env i w).1) m)
  ]

  -- Whatever state a payment is in when `PaymentWorkflow` starts, and whatever the services answer:
  -- the run changes its row and its audit log only by steps of the transition table. Each step
  -- writes the new state, the time and the terminal time into the row and nothing else, and adds one
  -- entry behind the audit log that names the state before, the state after and the same time.
  pub payment_workflow-Evolves :
      (events : List Event) (w : World)
      → Evolves
          (view input.payment_id w)
          (view input.payment_id (payment_workflow env input events w).1)
  unfolding submit_to_ach fire_webhook view_store
  payment_workflow-Evolves =
      Keeps-payment_workflow Evolves Evolves-refl Evolves-trans env input input.payment_id
        (λ i _ w. still refl refl) persists (λ s rcode t w. still refl refl)
