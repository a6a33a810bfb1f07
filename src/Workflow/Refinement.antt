-- ===== src/Workflow/Refinement.antt =====
-- `PaymentWorkflow` follows the life that the events prescribe.
use Prim.Native.String.{String}
use ach_orchestrator.Base.{ℕ, true, inl, inr, List, [], ◌∷◌, ◌++◌, ◌≡◌, ◌≢◌, refl, leb, Bool-cases}
use ach_orchestrator.Base.Text.{Text}
use ach_orchestrator.Domain.Payment.{
  PaymentState, pending, failed_non_retryable, failed_retryable_exhausted, compliance_escalation,
  returned,
}
use ach_orchestrator.Domain.Rules.{is_terminal_state, max_representments, retry_delay_for}
use ach_orchestrator.Domain.Rcode.{ReturnCategory, retryable, non_retryable, compliance}
use ach_orchestrator.World.{World, ok, err, Action, pure, ◌>>◌, bind_rule}
use ach_orchestrator.World.View.{view}
use ach_orchestrator.Services.{Services}
use ach_orchestrator.Workflow.Types.{PaymentWorkflowInput, Status, completed}
use ach_orchestrator.Workflow.Spec.{Step, after_return}
use ach_orchestrator.Workflow.Trail.{At, Kept-At, persist_At, fire-Kept}
use ach_orchestrator.Workflow.Outcome.{Outcome, stopped, finished, step_rule}
use ach_orchestrator.Workflow.Helpers.{fire_webhook, persist_transition}
use ach_orchestrator.Workflow.Loop.{
  finish, represent, retry_reason, non_retryable_reason, compliance_reason, exhausted_reason,
  respond,
}

-- The start of the webhook and the return of nil.
finish_rule :
    (id : ℕ) (s state : PaymentState) (t : List Step) (rcode trace : Text) (w : World)
    → is_terminal_state s ≡ true
    → At s t (view id w)
    → let (r, w') = finish id state rcode trace w in Outcome s t [] r (view id w')
unfolding finish
finish_rule id s state t rcode trace w terminal at =
    let w' = (fire_webhook id state rcode trace w).1 in
    let kept = Kept-At (view id w) (view id w') (fire-Kept id state rcode trace w) at in
    bind_rule (λ out. Outcome s t [] out.0 (view id out.1)) (fire_webhook id state rcode trace)
      (λ _. pure completed) w (λ u e. finished s t (ok completed) (view id w') terminal kept)
      (λ e e'. stopped s t [] (err e) (view id w') (λ h. cc) kept)

module _ (env : Services) (input : PaymentWorkflowInput) where
  open env use {sleep, sleeps}

  -- A change of state of the workflow, and what follows it.
  pub persist_rule :
      (s from to : PaymentState) (reason : Text) (t spec : List Step) (next : Action Status)
      (w : World)
      → s ≢ to
      → At s t (view input.payment_id w)
      → ((w' : World)
          → At to (t ++ (s, to) ∷ []) (view input.payment_id w')
          → Outcome to (t ++ (s, to) ∷ []) spec (next w').0 (view input.payment_id (next w').1))
      → let (r, w') = (persist_transition env input.payment_id from to reason >> next) w in
        Outcome s t ((s, to) ∷ spec) r (view input.payment_id w')
  persist_rule s from to reason t spec next w ne at rest =
      step_rule input.payment_id s to t spec
        (persist_transition env input.payment_id from to reason) (λ _. next) w
        (persist_At env input.payment_id s from to reason t w ne at) rest

  -- A terminal branch.
  pub terminal_rule :
      (s from to : PaymentState) (reason rcode trace : Text) (t : List Step) (w : World)
      → s ≢ to
      → is_terminal_state to ≡ true
      → At s t (view input.payment_id w)
      → let (r, w') =
          (persist_transition env input.payment_id from to reason
              >> finish input.payment_id to rcode trace)
            w in
        Outcome s t ((s, to) ∷ []) r (view input.payment_id w')
  terminal_rule s from to reason rcode trace t w ne terminal at =
      persist_rule s from to reason t [] (finish input.payment_id to rcode trace) w ne at (λ w' at'.
        finish_rule input.payment_id to to (t ++ (s, to) ∷ []) rcode trace w' terminal at')

  -- The next round, once the payment is back in PENDING.
  abbrev pub GoesOn : List Step → List Step → Action Status → Type 0
  GoesOn t spec next =
      (w : World)
      → At pending t (view input.payment_id w)
      → Outcome pending t spec (next w).0 (view input.payment_id (next w).1)

  represent_rule :
      (rcode : Text) (t spec : List Step) (next : Action Status) (w : World)
      → At returned t (view input.payment_id w)
      → GoesOn (t ++ (returned, pending) ∷ []) spec next
      → let (r, w') = represent env input rcode next w in
        Outcome returned t ((returned, pending) ∷ spec) r (view input.payment_id w')
  unfolding represent
  represent_rule rcode t spec next w at rest =
      let delay = retry_delay_for rcode in
      persist_rule returned returned pending (retry_reason rcode delay) t spec (sleep delay >> next)
        w (λ e. cc) at
        (λ w' at'.
          let t' = t ++ (returned, pending) ∷ [] in
          let slept : At pending t' (view input.payment_id (sleep delay w').1) =
            rw (sleeps input.payment_id delay w') at' in
          bind_rule (λ out. Outcome pending t' spec out.0 (view input.payment_id out.1))
            (sleep delay) (λ _. next) w' (λ u e. rest (sleep delay w').1 slept)
            (λ e e'.
              stopped pending t' spec (err e) (view input.payment_id (sleep delay w').1) (λ h. cc)
                slept))

  -- After a return: one of the three failures, or the next round.
  pub respond_rule :
      (c : ReturnCategory) (n : ℕ) (trace rcode : Text) (d : String) (next : Action Status)
      (t spec : List Step) (w : World)
      → At returned t (view input.payment_id w)
      → GoesOn (t ++ (returned, pending) ∷ []) spec next
      → let (r, w') = respond env input c n trace rcode d next w in
        Outcome returned t (after_return c n spec) r (view input.payment_id w')
  unfolding respond after_return is_terminal_state
  respond_rule non_retryable n trace rcode d next t spec w at rest =
      terminal_rule returned returned failed_non_retryable (non_retryable_reason rcode d) rcode
        trace t w (λ e. cc) refl at
  respond_rule compliance n trace rcode d next t spec w at rest =
      terminal_rule returned returned compliance_escalation (compliance_reason rcode d) rcode trace
        t w (λ e. cc) refl at
  respond_rule retryable n trace rcode d next t spec w at rest =
      elim (Bool-cases (leb max_representments n)) [
        | inl e ↦ rw e (
            terminal_rule returned returned failed_retryable_exhausted (exhausted_reason rcode n)
              rcode trace t w (λ e. cc) refl at)
        | inr e ↦ rw e (represent_rule rcode t spec next w at rest)
      ]
