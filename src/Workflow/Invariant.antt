-- ===== src/Workflow/Invariant.antt =====
-- What the steps of the transition table keep of the row and of the audit log.
use ach_orchestrator.Base.{
  ℕ, Bool, true, false, Option, none, some, inr, List, [], ◌∷◌, ◌++◌, ◌≡◌, ◌⊎◌, refl, sym, ap, ◌∙◌,
  arith,
}
use mathlib.Core.Option
use ach_orchestrator.Domain.Payment.{
  PaymentState, initiated, settled, failed_non_retryable, compliance_escalation,
  failed_retryable_exhausted, Payment,
}
use mathlib.Core.Path.{subst}
use mathlib.Core.List.{append-nil, append_assoc}
use ach_orchestrator.Base.Text.{Text}
use ach_orchestrator.Domain.Rules.Edges.{◌⟶◌, allowed-Edge, queue}
use ach_orchestrator.Domain.Rules.{is_transition_allowed}
use ach_orchestrator.World.{AuditEntry, World}
use ach_orchestrator.World.View.{View, view}
use ach_orchestrator.Services.{Services}
use ach_orchestrator.Db.Repository.{coalesce, settled_at_for, failed_at_for}
use ach_orchestrator.Db.Update.{stepped, step_entry, moved-stepped}
use ach_orchestrator.Workflow.Types.{PaymentWorkflowInput, Event}
use ach_orchestrator.Workflow.Loop.{payment_workflow}
use ach_orchestrator.Workflow.Evolution.{Evolves, still, then_moved, payment_workflow-Evolves}

-- The three states in which a payment has failed.
abbrev pub is_failure : PaymentState → Bool
is_failure failed_non_retryable = true
is_failure failed_retryable_exhausted = true
is_failure compliance_escalation = true
is_failure _ = false

abbrev pub is_settled : PaymentState → Bool
is_settled settled = true
is_settled _ = false

abbrev pub is_set : Option ℕ → Bool
is_set none = false
is_set (some _) = true

-- `settled_at` is set exactly in SETTLED, and `failed_at` exactly in a failure.
abbrev pub IsStamped : Payment → Type 0
IsStamped p = (is_set p.settled_at ≡ is_settled p.state) × (is_set p.failed_at ≡ is_failure p.state)

-- The last entry of the audit log, if it has one, tells the state and the time in the row.
abbrev pub IsRecorded : Payment → List AuditEntry → Type 0
IsRecorded p history =
    (history ≡ [])
    ⊎ ((before : List AuditEntry) × (e : AuditEntry) × (history ≡ before ++ e ∷ [])
        × (e.payment_id ≡ p.id)
        × (e.to_state ≡ p.state)
        × (e.created_at ≡ p.updated_at))

-- The terminal times and the audit log agree with the row.
abbrev pub IsSound : Option Payment → List AuditEntry → Type 0
IsSound none history = Unit {0}
IsSound (some p) history = IsStamped p × IsRecorded p history

-- The columns that no step writes.
abbrev pub frozen : Payment → Payment
frozen p = record p { state = initiated; updated_at = 0; settled_at = none; failed_at = none }

stamp :
    {s to : PaymentState} (now : ℕ) (a b : Option ℕ)
    → s ⟶ to
    → is_set a ≡ is_settled s
    → is_set b ≡ is_failure s
    → (is_set (coalesce (settled_at_for to now) a) ≡ is_settled to)
      × (is_set (coalesce (failed_at_for to now) b) ≡ is_failure to)
stamp now a b queue ha hb = ground arith
stamp now a b _ ha hb = ground arith

step_IsSound :
    (p : Payment) (to : PaymentState) (reason : Text) (now : ℕ) (history : List AuditEntry)
    → is_transition_allowed p.state to ≡ true
    → IsSound (some p) history
    → IsSound (some (stepped to now p)) (history ++ step_entry p to reason now ∷ [])
step_IsSound p to reason now history allowed ((a, b), _) =
    subst (λ q. IsSound (some q) (history ++ step_entry p to reason now ∷ []))
      (moved-stepped to now p)
      (
        stamp now p.settled_at p.failed_at (allowed-Edge p.state to allowed) a b,
        inr (history, step_entry p to reason now, refl, refl, refl, refl),
      )

Evolves-IsSound : {v v' : View} → Evolves v v' → IsSound v.row v.history → IsSound v'.row v'.history
Evolves-IsSound (still row history) h = rw (row, history) h
Evolves-IsSound (then_moved {u} p to reason now before old allowed row history) h =
    let sound = subst (λ o. IsSound o u.history) old (Evolves-IsSound before h) in
    rw (row, history) (step_IsSound p to reason now u.history allowed sound)

Evolves-grows :
    {v v' : View}
    → Evolves v v'
    → (Option.map frozen v'.row ≡ Option.map frozen v.row)
      × (new : List AuditEntry) × (v'.history ≡ v.history ++ new)
Evolves-grows {v} (still row history) = rw (row, history) (refl, [], sym (append-nil v.history))
Evolves-grows {v} (then_moved {u} p to reason now before old allowed row history) =
    let (same, new, grown) = Evolves-grows before in
    let e = step_entry p to reason now in
    (
      ap (Option.map frozen) row ∙ sym (ap (Option.map frozen) old) ∙ same,
      new ++ e ∷ [],
      history ∙ ap (λ h. h ++ e ∷ []) grown ∙ append_assoc v.history new (e ∷ []),
    )

module _ (env : Services) (input : PaymentWorkflowInput) where
  -- A run of `PaymentWorkflow` keeps the terminal times and the audit log of a payment in agreement
  -- with its row, wherever the run starts and ends: `settled_at` is set exactly in SETTLED,
  -- `failed_at` exactly in the three states of failure, and the last entry of the audit log, if
  -- there is one, has the state of the row and the time of its last update.
  pub payment_workflow-IsSound :
      (events : List Event) (w : World)
      → IsSound (view input.payment_id w).row (view input.payment_id w).history
      → let v' = view input.payment_id (payment_workflow env input events w).1 in
        IsSound v'.row v'.history
  payment_workflow-IsSound events w = Evolves-IsSound (payment_workflow-Evolves env input events w)

  -- A run of `PaymentWorkflow` only adds entries behind the audit log of the payment, and in its row
  -- it never writes the id, portfolio, amount, return code, representment count, trace number or
  -- creation time.
  pub payment_workflow-freezes :
      (events : List Event) (w : World)
      → let v = view input.payment_id w in
        let v' = view input.payment_id (payment_workflow env input events w).1 in
        (Option.map frozen v'.row ≡ Option.map frozen v.row)
        × (new : List AuditEntry) × (v'.history ≡ v.history ++ new)
  payment_workflow-freezes events w = Evolves-grows (payment_workflow-Evolves env input events w)
