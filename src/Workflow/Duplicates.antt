-- ===== src/Workflow/Duplicates.antt =====
-- A return signal counts for the round that reads it, whatever submission it is about.
use mathlib.Core.Path.{fun_ext}
use ach_orchestrator.Base.{
  ℕ, ◌+◌, ◌<◌, ◌≤◌, some, List, [], ◌∷◌, ◌++◌, map, All, ◌≡◌, refl, ap, ◌∙◌, arith,
}
use ach_orchestrator.Base.Text.{Text}
use ach_orchestrator.Domain.Payment.{
  initiated, pending, submitted, returned, failed_retryable_exhausted, settled,
}
use ach_orchestrator.Domain.Rcode.Routing.{IsRetryCode, category_iff}
use ach_orchestrator.World.{World, ok, Action, ◌>>=◌}
use ach_orchestrator.World.View.{view}
use ach_orchestrator.Services.{Services}
use ach_orchestrator.Activities.Persist.{state_of}
use ach_orchestrator.Workflow.Types.{
  ReturnSignal, PaymentWorkflowInput, Event, timer, signal, Status, completed,
}
use ach_orchestrator.Workflow.Channel.{
  Arrival, settlement_window, select, events_of, IsPaced, select-early, IsPaced-later,
}
use ach_orchestrator.Workflow.Spec.{Step, after_return, life_submitted, life}
use ach_orchestrator.Workflow.Trail.{At, trail}
use ach_orchestrator.Workflow.Outcome.{end_of}
use ach_orchestrator.Workflow.Limits.{completed_settles}
use ach_orchestrator.Workflow.Loop.{send, on_event, payment_loop, payment_workflow}

-- The event with another trace number in its signal.
abbrev pub retraced : (Text → Text) → Event → Event
retraced f timer = timer
retraced f (signal s) = signal (record s { trace_number = f s.trace_number })

module _ (env : Services) (input : PaymentWorkflowInput) (f : Text → Text) where
  on_event-retraced :
      (n : ℕ) (trace : Text) (e : Event) (next : Action Status)
      → on_event env input n trace (retraced f e) next ≡ on_event env input n trace e next
  unfolding on_event
  on_event-retraced n trace timer next = refl
  on_event-retraced n trace (signal s) next = refl

  loop-retraced :
      (es : List Event) (n : ℕ)
      → payment_loop env input (map (retraced f) es) n ≡ payment_loop env input es n
  unfolding payment_loop
  loop-retraced [] n = refl
  loop-retraced (e ∷ es) n =
      ap (λ (k : Text → Action Status). send env input n >>= k)
        (fun_ext (λ trace.
          on_event-retraced n trace e (payment_loop env input (map (retraced f) es) (n + 1))
          ∙ ap (on_event env input n trace e) (loop-retraced es (n + 1))))

  -- `PaymentWorkflow` never looks at the trace number of a return signal: with any other trace
  -- numbers in the signals it does the same, in every world and to the last call. So a return
  -- signal for one submission counts as the return of whichever submission the round has made that
  -- reads it.
  pub payment_workflow-retraced :
      (events : List Event)
      → payment_workflow env input (map (retraced f) events) ≡ payment_workflow env input events
  unfolding payment_workflow
  payment_workflow-retraced events = rw (loop-retraced events 0) refl

-- The life behind three returns that are to be retried.
abbrev pub exhausted_steps : List Step
exhausted_steps =
    (initiated, pending)
    ∷ (pending, submitted)
    ∷ (submitted, returned)
    ∷ (returned, pending)
    ∷ (pending, submitted)
    ∷ (submitted, returned)
    ∷ (returned, pending)
    ∷ (pending, submitted)
    ∷ (submitted, returned)
    ∷ (returned, failed_retryable_exhausted)
    ∷ []

life-exhausted :
    (a b c : ReturnSignal) (es : List Event)
    → IsRetryCode a.r_code
    → IsRetryCode b.r_code
    → IsRetryCode c.r_code
    → life (signal a ∷ signal b ∷ signal c ∷ es) ≡ exhausted_steps
unfolding life life_submitted after_return
life-exhausted a b c es ha hb hc =
    rw
      (
        (category_iff a.r_code).0.1 ha,
        (category_iff b.r_code).0.1 hb,
        (category_iff c.r_code).0.1 hc,
      )
      refl

-- Three signals that come before the end of the first timer are what the first three rounds see.
events_of-early :
    (a b c : Arrival) (channel : List Arrival) (s₀ s₁ s₂ : ℕ) (starts : List ℕ)
    → a.at < s₀ + settlement_window
    → b.at < s₀ + settlement_window
    → c.at < s₀ + settlement_window
    → IsPaced (a ∷ b ∷ c ∷ channel) (s₀ ∷ s₁ ∷ s₂ ∷ starts)
    → events_of (a ∷ b ∷ c ∷ channel) (s₀ ∷ s₁ ∷ s₂ ∷ starts)
      ≡ signal a.returned ∷ signal b.returned ∷ signal c.returned ∷ events_of channel starts
unfolding events_of
events_of-early a b c channel s₀ s₁ s₂ starts ha hb hc paced =
    let (first, p) = IsPaced-later s₀ s₁ a (b ∷ c ∷ channel) (s₂ ∷ starts) ha paced in
    let hb' : b.at < s₁ + settlement_window = omega arith in
    let (second, _) = IsPaced-later s₁ s₂ b (c ∷ channel) starts hb' p in
    let hc' : c.at < s₂ + settlement_window = omega arith in
    rw
      (
        select-early s₀ a (b ∷ c ∷ channel) ha,
        select-early s₁ b (c ∷ channel) hb',
        select-early s₂ c channel hc',
      )
      refl

-- Three return signals with codes that are to be retried, all in the channel before the first
-- settlement timer has run out, give the payment up, also where they all report the first
-- submission and the second and the third came before anything was presented again: whatever the
-- later times at which the selectors start, as long as the sleeps are kept, if a run on a payment in
-- INITIATED returns nil, the payment is in FAILED_RETRYABLE_EXHAUSTED and the run has added the ten
-- steps of three submissions and three returns to the audit log.
pub early_returns_exhaust :
    (env : Services) (input : PaymentWorkflowInput) (a b c : Arrival) (channel : List Arrival)
    (s₀ s₁ s₂ : ℕ) (starts : List ℕ) (t : List Step) (w : World)
    → IsRetryCode a.returned.r_code
    → IsRetryCode b.returned.r_code
    → IsRetryCode c.returned.r_code
    → a.at < s₀ + settlement_window
    → b.at < s₀ + settlement_window
    → c.at < s₀ + settlement_window
    → IsPaced (a ∷ b ∷ c ∷ channel) (s₀ ∷ s₁ ∷ s₂ ∷ starts)
    → At initiated t (view input.payment_id w)
    → (payment_workflow env input (events_of (a ∷ b ∷ c ∷ channel) (s₀ ∷ s₁ ∷ s₂ ∷ starts)) w).0
      ≡ ok completed
    → let events = events_of (a ∷ b ∷ c ∷ channel) (s₀ ∷ s₁ ∷ s₂ ∷ starts) in
      let v' = view input.payment_id (payment_workflow env input events w).1 in
      (state_of v' ≡ some failed_retryable_exhausted) × (trail v' ≡ t ++ exhausted_steps)
early_returns_exhaust env input a b c channel s₀ s₁ s₂ starts t w ra rb rc ha hb hc paced at done =
    let events = events_of (a ∷ b ∷ c ∷ channel) (s₀ ∷ s₁ ∷ s₂ ∷ starts) in
    let (state, _, steps) = completed_settles env input events t w at done in
    let e : life events ≡ exhausted_steps =
      ap life (events_of-early a b c channel s₀ s₁ s₂ starts ha hb hc paced)
      ∙ life-exhausted a.returned b.returned c.returned (events_of channel starts) ra rb rc in
    (state ∙ ap (λ l. some (end_of initiated l)) e, steps ∙ ap (λ (l : List Step). t ++ l) e)

-- The life of a payment that no return came for.
abbrev pub settled_steps : List Step
settled_steps = (initiated, pending) ∷ (pending, submitted) ∷ (submitted, settled) ∷ []

life-late :
    (channel : List Arrival) (s₀ : ℕ) (starts : List ℕ)
    → All (λ a. s₀ + settlement_window ≤ a.at) channel
    → life (events_of channel (s₀ ∷ starts)) ≡ settled_steps
unfolding life life_submitted events_of select
life-late [] s₀ starts late = refl
life-late (a ∷ channel) s₀ starts late = ground arith

-- If all return signals come 72 hours after the start of the first timer or later, a run on a
-- payment in INITIATED that returns nil has settled the payment with one submission and no return
-- in the audit log, whatever the signals say.
pub late_returns_lost :
    (env : Services) (input : PaymentWorkflowInput) (channel : List Arrival) (s₀ : ℕ)
    (starts : List ℕ) (t : List Step) (w : World)
    → All (λ a. s₀ + settlement_window ≤ a.at) channel
    → At initiated t (view input.payment_id w)
    → (payment_workflow env input (events_of channel (s₀ ∷ starts)) w).0 ≡ ok completed
    → let events = events_of channel (s₀ ∷ starts) in
      let v' = view input.payment_id (payment_workflow env input events w).1 in
      (state_of v' ≡ some settled) × (trail v' ≡ t ++ settled_steps)
late_returns_lost env input channel s₀ starts t w late at done =
    let events = events_of channel (s₀ ∷ starts) in
    let (state, _, steps) = completed_settles env input events t w at done in
    let e : life events ≡ settled_steps = life-late channel s₀ starts late in
    (state ∙ ap (λ l. some (end_of initiated l)) e, steps ∙ ap (λ (l : List Step). t ++ l) e)
