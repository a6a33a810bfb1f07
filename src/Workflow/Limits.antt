-- ===== src/Workflow/Limits.antt =====
-- How often a payment is sent, and where a run that is through has left it.
use mathlib.Core.List.{append-nil}
use ach_orchestrator.Base.{
  ℕ, ◌+◌, ◌-◌, ◌≤◌, ◌<◌, true, some, List, [], ◌∷◌, ◌++◌, ◌≡◌, ap, ◌∙◌, arith,
}
use ach_orchestrator.Domain.Payment.{PaymentState, initiated, pending, submitted}
use ach_orchestrator.Domain.Rules.{is_terminal_state, max_representments}
use ach_orchestrator.Domain.Rcode.{
  ReturnCategory, retryable, non_retryable, compliance, route_r_code,
}
use ach_orchestrator.World.{World, ok}
use ach_orchestrator.World.View.{view}
use ach_orchestrator.Services.{Services}
use ach_orchestrator.Activities.Persist.{state_of}
use ach_orchestrator.Workflow.Types.{PaymentWorkflowInput, Event, timer, signal, completed}
use ach_orchestrator.Workflow.Spec.{Step, after_return, life_submitted, life}
use ach_orchestrator.Workflow.Trail.{At, trail}
use ach_orchestrator.Workflow.Outcome.{end_of}
use ach_orchestrator.Workflow.Follows.{payment_workflow-follows}
use ach_orchestrator.Workflow.Loop.{payment_workflow}

-- One for the step into SUBMITTED.
abbrev is_send : PaymentState → ℕ
is_send submitted = 1
is_send _ = 0

-- How often the steps enter SUBMITTED.
abbrev pub sends : List Step → ℕ
sends [] = 0
sends ((_, to) ∷ steps) = is_send to + sends steps

sends-append : (xs ys : List Step) → sends (xs ++ ys) ≡ sends xs + sends ys
sends-append [] ys = omega arith
sends-append ((s, to) ∷ xs) ys = omega (arith, sends-append xs ys)

sends-after :
    (c : ReturnCategory) (n k : ℕ) (next : List Step)
    → (n < max_representments → sends next ≤ k)
    → sends (after_return c n next) ≤ k
unfolding after_return
sends-after non_retryable n k next h = omega arith
sends-after compliance n k next h = omega arith
sends-after retryable n k next h = ground arith

-- Behind the round `n` at most as many rounds follow as the limit leaves.
sends-life :
    (es : List Event) (n : ℕ)
    → n ≤ max_representments
    → sends (life_submitted es n) ≤ max_representments - n
unfolding life_submitted
sends-life [] n h = omega arith
sends-life (timer ∷ es) n h = omega arith
sends-life (signal s ∷ es) n h = omega (
  arith,
  sends-after (route_r_code s.r_code).0 n (max_representments - n)
      ((pending, submitted) ∷ life_submitted es (n + 1))
      (λ lt. let g = sends-life es (n + 1) (omega arith) in omega arith),
)

module _ (env : Services) (input : PaymentWorkflowInput) (events : List Event) (t : List Step)
    (w : World) (at : At initiated t (view input.payment_id w)) where
  -- Whatever happens, a run of `PaymentWorkflow` on a payment in INITIATED adds at most three
  -- entries into SUBMITTED to its audit log: the first one and `MaxRepresentments` others.
  pub sends_bounded :
      sends (trail (view input.payment_id (payment_workflow env input events w).1))
      ≤ sends t + (max_representments + 1)
  unfolding life
  sends_bounded =
      let o = payment_workflow-follows env input events t w at in
      let e : sends (life events) ≡ sends o.made + sends o.left =
        ap sends o.prescribed ∙ sends-append o.made o.left in
      rw (o.reached.1, sends-append t o.made) (omega (arith, sends-life events 0 (omega arith)))

  -- If a run of `PaymentWorkflow` on a payment in INITIATED returns nil, the payment is in a
  -- terminal state, the one to which its events lead, and its audit log has exactly the steps of
  -- that life behind those of before.
  pub completed_settles :
      (payment_workflow env input events w).0 ≡ ok completed
      → let v = view input.payment_id (payment_workflow env input events w).1 in
        (state_of v ≡ some (end_of initiated (life events)))
        × (is_terminal_state (end_of initiated (life events)) ≡ true)
        × (trail v ≡ t ++ life events)
  completed_settles h =
      let o = payment_workflow-follows env input events t w at in
      let e : life events ≡ o.made =
        o.prescribed ∙ ap (λ (l : List Step). o.made ++ l) (o.whole h) ∙ append-nil o.made in
      rw e (o.reached.0, o.final h, o.reached.1)
