-- ===== src/Workflow/Traces.antt =====
-- Trace numbers: distinct between the rounds of a payment, and what a false hit leads to.
use mathlib.Core.Path.{subst}
use ach_orchestrator.Base.{
  ℕ, zero, suc, ◌+◌, ◌/◌, ◌≤◌, true, List, [], ◌∷◌, ◌++◌, ◌≡◌, refl, ap, ◌∙◌, sym, arith, take,
  if◌then◌else◌,
}
use ach_orchestrator.Base.Text.{Text, codes}
use ach_orchestrator.Base.Decimal.{decimal}
use ach_orchestrator.Domain.Payment.{pending}
use ach_orchestrator.Domain.Rules.{max_representments}
use ach_orchestrator.World.{World, Result, ok, pure, ◌>>◌, IsErr, bind-ok}
use ach_orchestrator.World.View.{view}
use ach_orchestrator.Services.{Services}
use ach_orchestrator.Workflow.Types.{second, PaymentWorkflowInput, Event, Status}
use ach_orchestrator.Workflow.Spec.{Step}
use ach_orchestrator.Workflow.Trail.{At, Kept-At, check-Kept}
use ach_orchestrator.Workflow.Rounds.{pending_event}
use ach_orchestrator.Workflow.Helpers.{generate_trace_number, trace_text, check_idempotency}
use ach_orchestrator.Workflow.Loop.{first_submission, send, on_event, payment_loop}

append-cancel_left : (p s t : Text) → p ++ s ≡ p ++ t → s ≡ t
append-cancel_left [] s t h = h
append-cancel_left (c ∷ p) s t h = append-cancel_left p s t (cc h)

abbrev first : Text → ℕ
first [] = 0
first (c ∷ s) = c

-- The digit before the dash.
decimal-injective :
    (m n : ℕ) (s s' : Text)
    → m ≤ max_representments
    → n ≤ max_representments
    → decimal m ++ b'-' ∷ s ≡ decimal n ++ b'-' ∷ s'
    → m ≡ n
unfolding decimal
decimal-injective zero zero s s' hm hn e = refl
decimal-injective (suc zero) (suc zero) s s' hm hn e = refl
decimal-injective (suc (suc zero)) (suc (suc zero)) s s' hm hn e = refl
decimal-injective zero (suc zero) s s' hm hn e = absurd (omega (arith, ap first e))
decimal-injective zero (suc (suc zero)) s s' hm hn e = absurd (omega (arith, ap first e))
decimal-injective (suc zero) zero s s' hm hn e = absurd (omega (arith, ap first e))
decimal-injective (suc zero) (suc (suc zero)) s s' hm hn e = absurd (omega (arith, ap first e))
decimal-injective (suc (suc zero)) zero s s' hm hn e = absurd (omega (arith, ap first e))
decimal-injective (suc (suc zero)) (suc zero) s s' hm hn e = absurd (omega (arith, ap first e))
decimal-injective (suc (suc (suc m))) n s s' hm hn e = absurd (omega arith)
decimal-injective m (suc (suc (suc n))) s s' hm hn e = absurd (omega arith)

-- Two rounds of one payment never use the same trace number, whenever they run.
pub trace_text-injective :
    (env : Services) (id m n ts ts' : ℕ)
    → m ≤ max_representments
    → n ≤ max_representments
    → trace_text env m id ts ≡ trace_text env n id ts'
    → m ≡ n
unfolding trace_text
trace_text-injective env id m n ts ts' hm hn e =
    decimal-injective m n (decimal ts) (decimal ts') hm hn (
      append-cancel_left (codes "-r") _ _ (
        append-cancel_left (take 8 (env.uuid_string id)) _ _
          (append-cancel_left (codes "ACH-") _ _ e)))

-- With a hit the round comes to its selector without having sent the payment.
send-hit :
    (env : Services) (input : PaymentWorkflowInput) (n : ℕ) (w : World)
    → let trace = trace_text env n input.payment_id (w.clock / second) in
      (check_idempotency env trace w).0 ≡ ok (record { already_submitted = true })
      → send env input n w ≡ (ok trace, (check_idempotency env trace w).1)
unfolding send generate_trace_number
send-hit env input n w hit =
    let trace = trace_text env n input.payment_id (w.clock / second) in
    bind-ok (check_idempotency env trace)
      (λ o.
        (if o.already_submitted then pure tt else first_submission env input trace n) >> pure trace)
      w (record { already_submitted = true }) hit

-- If Redis holds the trace number of the round already, the payment is stuck: it stays in PENDING
-- with its audit log as it was, and the event that the workflow then waits for, be it the timer or
-- a return, ends the workflow with an error. It never settles.
pub hit-stuck :
    (env : Services) (input : PaymentWorkflowInput) (e : Event) (es : List Event) (n : ℕ)
    (t : List Step) (w : World)
    → At pending t (view input.payment_id w)
    → (check_idempotency env (trace_text env n input.payment_id (w.clock / second)) w).0
      ≡ ok (record { already_submitted = true })
    → let (r, w') = payment_loop env input (e ∷ es) n w in
      At pending t (view input.payment_id w') × IsErr r
unfolding payment_loop
hit-stuck env input e es n t w at hit =
    let id = input.payment_id in
    let trace = trace_text env n id (w.clock / second) in
    let next = payment_loop env input es (n + 1) in
    let w₁ = (check_idempotency env trace w).1 in
    let at₁ = Kept-At (view id w) (view id w₁) (check-Kept env input trace w) at in
    let sent = send-hit env input n w hit in
    let round =
      bind-ok (send env input n) (λ trace. on_event env input n trace e next) w trace
        (ap (λ (o : Result Text × World). o.0) sent)
      ∙ ap (λ (o : Result Text × World). on_event env input n trace e next o.1) sent in
    subst (λ (o : Result Status × World). At pending t (view id o.1) × IsErr o.0) (sym round)
      (pending_event env input n trace e t next w₁ at₁)
