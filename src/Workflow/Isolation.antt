-- ===== src/Workflow/Isolation.antt =====
-- A run of the workflow stays with its own payment.
use mathlib.Core.Option
use Prim.Native.String.{String}
use ach_orchestrator.Base.{
  ℕ, Option, none, some, inl, inr, List, [], ◌∷◌, ◌++◌, ◌≡◌, ◌≢◌, refl, sym, ◌∙◌, arith, Bool-cases,
}
use ach_orchestrator.Base.Text.{Text}
use ach_orchestrator.Domain.Payment.{PaymentState, Payment, state_eq}
use ach_orchestrator.World.{AuditEntry, SubmitToAchInput, World, ok, io, on_error, pure, world_rule}
use ach_orchestrator.World.View.{View, view, view_store, find_row-id, submissions_of, webhooks_of}
use ach_orchestrator.Services.{Services}
use ach_orchestrator.Db.Repository.{get_payment_by_id, update_payment_state}
use ach_orchestrator.Db.Update.{update_payment_state-cases}
use ach_orchestrator.Activities.{
  PersistStateTransitionInput, persist_payment, persist_state_transition, submit_to_ach,
}
use ach_orchestrator.Workflow.Types.{PaymentWorkflowInput, Event}
use ach_orchestrator.Workflow.Helpers.{fire_webhook, webhook_payment}
use ach_orchestrator.Workflow.Keeps.{Keeps-payment_workflow}
use ach_orchestrator.Workflow.Invariant.{frozen, payment_workflow-freezes}
use ach_orchestrator.Workflow.Loop.{payment_workflow}

submissions_of-other :
    (id : ℕ) (is : List SubmitToAchInput) (i : SubmitToAchInput)
    → i.payment_id ≢ id
    → submissions_of id (is ++ i ∷ []) ≡ submissions_of id is
unfolding submissions_of
submissions_of-other id [] i e = ground arith
submissions_of-other id (x ∷ is) i e = ground (arith, submissions_of-other id is i e)

webhooks_of-other :
    (id : ℕ) (ps : List Payment) (p : Payment)
    → p.id ≢ id
    → webhooks_of id (ps ++ p ∷ []) ≡ webhooks_of id ps
unfolding webhooks_of
webhooks_of-other id [] p e = ground arith
webhooks_of-other id (x ∷ ps) p e = ground (arith, webhooks_of-other id ps p e)

-- Nothing of the payment changed.
abbrev Untouched : View → View → Type 0
Untouched v v' = v' ≡ v

Untouched-refl : (v : View) → Untouched v v
Untouched-refl v = refl

Untouched-trans : (u v w : View) → Untouched u v → Untouched v w → Untouched u w
Untouched-trans u v w h k = k ∙ h

submit-other :
    (id : ℕ) (i : SubmitToAchInput) (w : World)
    → i.payment_id ≢ id
    → view id (submit_to_ach i w).1 ≡ view id w
unfolding submit_to_ach view_store
submit-other id i w e = rw (submissions_of-other id w.submitted i e) refl

fire-other :
    (id payment_id : ℕ) (s : PaymentState) (rcode t : Text) (w : World)
    → payment_id ≢ id
    → view id (fire_webhook payment_id s rcode t w).1 ≡ view id w
unfolding fire_webhook view_store
fire-other id payment_id s rcode t w e =
    rw (webhooks_of-other id w.webhooks (webhook_payment payment_id s rcode t) e) refl

get_payment_view :
    (context : String) (payment_id id : ℕ) (w : World)
    → view id (on_error context (get_payment_by_id payment_id) w).1 ≡ view id w
unfolding get_payment_by_id io view_store
get_payment_view context payment_id id w = ground arith

get_payment_id :
    (context : String) (payment_id : ℕ) (w : World) (p : Payment)
    → (on_error context (get_payment_by_id payment_id) w).0 ≡ ok (some p)
    → p.id ≡ payment_id
unfolding get_payment_by_id io
get_payment_id context payment_id w p h = ground (arith, find_row-id payment_id w.payments {p = p})

module _ (env : Services) where
  update-other :
      (p : Payment) (to : PaymentState) (reason : Text) (id : ℕ) (w : World)
      → p.id ≢ id
      → view id (update_payment_state env p to reason w).1 ≡ view id w
  update-other p to reason id w e = elim (update_payment_state-cases env p to reason id w) [
    | inl (no_edge, same) ↦ rw same refl
    | inr (allowed, inl (bad, kept), _) ↦ kept
    | inr (allowed, inr new, _) ↦ ground arith
  ]

  persist_payment-other :
      (i : PersistStateTransitionInput) (o : Option Payment) (id : ℕ) (w : World)
      → ((p : Payment) → o ≡ some p → p.id ≢ id)
      → view id (persist_payment env i o w).1 ≡ view id w
  unfolding persist_payment
  persist_payment-other i none id w e = refl
  persist_payment-other i (some p) id w e = elim (Bool-cases (state_eq p.state i.to_state)) [
    | inl there ↦ rw there refl
    | inr away ↦ rw away (
        world_rule (λ w'. view id w' ≡ view id w)
          (on_error "PersistStateTransition: update payment"
            (update_payment_state env p i.to_state i.reason))
          (λ _. pure tt) w (update-other p i.to_state i.reason id w (e p refl))
          (λ _ _. update-other p i.to_state i.reason id w (e p refl)))
  ]

  persist-other :
      (i : PersistStateTransitionInput) (id : ℕ) (w : World)
      → i.payment_id ≢ id
      → view id (persist_state_transition env i w).1 ≡ view id w
  unfolding persist_state_transition
  persist-other i id w e =
      let context : String = "PersistStateTransition: get payment" in
      let read = on_error context (get_payment_by_id i.payment_id) in
      let same = get_payment_view context i.payment_id id w in
      world_rule (λ w'. view id w' ≡ view id w) read (persist_payment env i) w same
        (λ o got.
          persist_payment-other i o id (read w).1 (λ p found.
            let named = get_payment_id context i.payment_id w p (ground arith) in
            λ clash. e (sym named ∙ clash))
          ∙ same)

  -- A run of `PaymentWorkflow` stays with its payment. By its own calls it changes nothing that
  -- belongs to another one, neither the row nor the audit log, the entries sent or the webhooks; of
  -- its own payment it never writes the id, portfolio, amount, return code, representment count,
  -- trace number or creation time, and only adds entries behind the audit log.
  pub payment_workflow-confined :
      (input : PaymentWorkflowInput) (events : List Event) (other : ℕ) (w : World)
      → input.payment_id ≢ other
      → let v = view input.payment_id w in
        let w' = (payment_workflow env input events w).1 in
        let v' = view input.payment_id w' in
        (view other w' ≡ view other w)
        × (Option.map frozen v'.row ≡ Option.map frozen v.row)
        × (new : List AuditEntry) × (v'.history ≡ v.history ++ new)
  payment_workflow-confined input events other w apart =
      let (same, new, grown) = payment_workflow-freezes env input events w in
      (
        Keeps-payment_workflow Untouched Untouched-refl Untouched-trans env input other
            (λ i own w. submit-other other i w (λ e. apart (sym own ∙ e)))
            (λ i own w. persist-other i other w (λ e. apart (sym own ∙ e)))
            (λ s rcode t w. fire-other other input.payment_id s rcode t w apart) events w,
        same,
        new,
        grown,
      )
