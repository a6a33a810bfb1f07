-- ===== src/Workflow/Trail.antt =====
-- What the calls of the workflow do to the state of the payment and to its audit trail.
use mathlib.Core.List.{map-append}
use ach_orchestrator.Db.Repository.{audit_entry}
use ach_orchestrator.Db.Rows.{moved_view}
use ach_orchestrator.Base.{
  ℕ, true, some, inl, inr, List, [], ◌∷◌, ◌++◌, map, ◌≡◌, ◌≢◌, ◌⊎◌, refl, ◌∙◌, arith,
}
use ach_orchestrator.Base.Text.{Text}
use ach_orchestrator.Domain.Payment.{PaymentState, Payment}
use ach_orchestrator.Domain.Rules.{is_transition_allowed}
use ach_orchestrator.World.{AuditEntry, World, Result, IsErr}
use ach_orchestrator.World.View.{View, view, view_store}
use ach_orchestrator.Services.{Services}
use ach_orchestrator.Activities.{
  persist_state_transition, PersistStateTransitionInput, submit_to_ach,
}
use ach_orchestrator.Activities.Persist.{state_of, Persists, persist-once}
use ach_orchestrator.Workflow.Spec.{Step}
use ach_orchestrator.Workflow.Types.{PaymentWorkflowInput, default_activity_options}
use ach_orchestrator.Workflow.Frame.{Runs-check, Runs-store, Runs-submit}
use ach_orchestrator.Workflow.Helpers.{
  persist_transition, check_idempotency, store_trace_number, submit, fire_webhook,
}

abbrev pub step_of : AuditEntry → Step
step_of e = (e.from_state, e.to_state)

-- The steps in the audit log of a payment.
abbrev pub trail : View → List Step
trail v = map step_of v.history

-- The row is in state `s`, and the audit log tells the steps `t`.
abbrev pub At : PaymentState → List Step → View → Type 0
At s t v = (state_of v ≡ some s) × (trail v ≡ t)

-- Row and audit log are as they were.
abbrev pub Kept : View → View → Type 0
Kept v v' = (v'.row ≡ v.row) × (v'.history ≡ v.history)

Kept-refl : (v : View) → Kept v v
Kept-refl v = (refl, refl)

Kept-trans : (u v w : View) → Kept u v → Kept v w → Kept u w
Kept-trans u v w (row, history) (row', history') = (row' ∙ row, history' ∙ history)

pub Kept-At : {s : PaymentState} {t : List Step} (v v' : View) → Kept v v' → At s t v → At s t v'
Kept-At v v' (row, history) (state, steps) = rw (row, history) (state, steps)

moved_At :
    (s to : PaymentState) (reason : Text) (t : List Step) (v v' : View) (p : Payment) (now : ℕ)
    → At s t v
    → v.row ≡ some p
    → v' ≡ moved_view p to reason now v
    → At to (t ++ (s, to) ∷ []) v'
moved_At s to reason t v v' p now (state, steps) row e =
    (ground arith, ground (arith, map-append step_of v.history (audit_entry p to reason now ∷ [])))

-- A step to another state is made once, or the call failed and nothing changed; and it is made
-- only if the table allows it.
Persists-step :
    (s to : PaymentState) (reason : Text) (t : List Step) (v v' : View) (r : Result (Unit {0}))
    → s ≢ to
    → At s t v
    → Persists to reason v r v'
    → (At to (t ++ (s, to) ∷ []) v' × (is_transition_allowed s to ≡ true)) ⊎ (At s t v' × IsErr r)
Persists-step s to reason t v v' r ne at (inl same, inl bad) = inr (rw same at, bad)
Persists-step s to reason t v v' r ne at (inl same, inr there) = absurd (ne (ground arith))
Persists-step s to reason t v v' r ne at (inr (p, now, row, allowed, e), _) =
    inl (moved_At s to reason t v v' p now at row e, ground (arith, at))

module _ (env : Services) where
  open env use {executes, set_nx_lem}

  -- `persistTransition` to another state: one allowed step, or a failure and no change.
  pub persist_At :
      (id : ℕ) (s from to : PaymentState) (reason : Text) (t : List Step) (w : World)
      → s ≢ to
      → At s t (view id w)
      → let (r, w') = persist_transition env id from to reason w in
        (At to (t ++ (s, to) ∷ []) (view id w') × (is_transition_allowed s to ≡ true))
        ⊎ (At s t (view id w') × IsErr r)
  unfolding persist_transition
  persist_At id s from to reason t w ne at =
      let input : PersistStateTransitionInput = record {
        payment_id = id;
        from_state = from;
        to_state = to;
        reason = reason;
      } in
      let out = persist_transition env id from to reason w in
      Persists-step s to reason t (view id w) (view id out.1) out.0 ne at (
        persist-once env input out w (
          executes (Unit {0}) default_activity_options id (persist_state_transition env input) w
            (omega arith)))

  -- The other calls leave the row and the audit log alone.
  pub check-Kept :
      (input : PaymentWorkflowInput) (t : Text) (w : World)
      → Kept (view input.payment_id w) (view input.payment_id (check_idempotency env t w).1)
  check-Kept input = Runs-check Kept Kept-refl Kept-trans env input input.payment_id

  pub store-Kept :
      (input : PaymentWorkflowInput) (t : Text) (w : World)
      → Kept (view input.payment_id w) (view input.payment_id (store_trace_number env t w).1)
  store-Kept input = Runs-store Kept Kept-refl Kept-trans env input input.payment_id

  pub submit-Kept :
      (input : PaymentWorkflowInput) (t : Text) (w : World)
      → Kept (view input.payment_id w) (view input.payment_id (submit env input t w).1)
  unfolding submit_to_ach view_store
  submit-Kept input =
      Runs-submit Kept Kept-refl Kept-trans env input input.payment_id (λ i _ w. (refl, refl))

pub fire-Kept :
    (id : ℕ) (state : PaymentState) (rcode t : Text) (w : World)
    → Kept (view id w) (view id (fire_webhook id state rcode t w).1)
unfolding fire_webhook view_store
fire-Kept id state rcode t w = (refl, refl)
