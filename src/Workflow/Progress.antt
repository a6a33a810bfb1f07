-- ===== src/Workflow/Progress.antt =====
-- The calls of the workflow on a day on which nothing fails.
use ach_orchestrator.Base.{
  ℕ, ◌+◌, ◌/◌, ◌≤◌, false, List, [], ◌∷◌, ◌≡◌, refl, ◌∙◌, ap, arith, if◌then◌else◌,
}
use ach_orchestrator.Base.Text.{Text}
use ach_orchestrator.Domain.Payment.{PaymentState, pending, submitted}
use ach_orchestrator.Domain.Rules.{is_transition_allowed, max_representments}
use ach_orchestrator.World.{SubmitToAchInput, World, Result, ok, pure, ◌>>=◌, ◌>>◌, bind-done}
use ach_orchestrator.Services.{Services, is_live, with_key}
use ach_orchestrator.Services.Healthy.{Healthy}
use ach_orchestrator.Redis.{trace_key, trace_ttl}
use ach_orchestrator.Redis.Idempotency.{is_live-other}
use ach_orchestrator.Activities
use ach_orchestrator.Activities.{
  CheckIdempotencyOutput, SubmitToAchOutput, PersistStateTransitionInput, persist_state_transition,
  submit_to_ach,
}
use ach_orchestrator.Activities.Healthy.{check-quiet, store-quiet}
use ach_orchestrator.Workflow.Types.{second, PaymentWorkflowInput, default_activity_options}
use ach_orchestrator.Workflow.Helpers.{
  trace_text, generate_trace_number, persist_transition, check_idempotency, store_trace_number,
  submit,
}
use ach_orchestrator.Workflow.Traces.{trace_text-injective}
use ach_orchestrator.Workflow.Loop.{submitted_reason, first_submission, send}
use ach_orchestrator.Workflow.Ready.{Ready, Steps, Steps-bind, persist-Steps}

-- A key that is not held is not held later.
is_live-later :
    (k : Text) (now d : ℕ) (keys : List (Text × ℕ))
    → is_live k now keys ≡ false
    → is_live k (now + d) keys ≡ false
unfolding is_live
is_live-later k now d [] h = refl
is_live-later k now d ((j, expiry) ∷ keys) h = ground (arith, is_live-later k now d keys)

module _ (env : Services) (healthy : Healthy env) (input : PaymentWorkflowInput) where
  open healthy use {runs_once, wakes}
  open env use {sleep}

  -- The trace number of round `n` is stored; those of the later rounds are not.
  store-Steps :
      (n ts : ℕ)
      → n ≤ max_representments
      → Steps env healthy input pending n pending
          (n + 1)
          (store_trace_number env (trace_text env n input.payment_id ts))
  unfolding store_trace_number
  store-Steps n ts low w ready =
      let id = input.payment_id in
      let t = trace_text env n id ts in
      let act = Activities.store_trace_number env (record { trace_number = t }) in
      let e = store-quiet env healthy t w ready.quiet (ready.free n ts (omega arith) low) in
      (
        tt,
        record w { store = with_key (trace_key t) trace_ttl w },
        runs_once (Unit {0}) default_activity_options act w tt
              (ap (λ (o : Result (Unit {0}) × World). o.0) e)
            ∙ e,
        record {
          quiet = ready.quiet;
          payment = ready.payment;
          found = ready.found;
          there = ready.there;
          free = λ m ts' later high.
              is_live-other t (trace_text env m id ts') w.clock (w.clock + trace_ttl) w.keys
                (λ same.
                  absurd (omega (arith, trace_text-injective env id n m ts ts' low high same)))
              ∙ ready.free m ts' (omega arith) high;
        },
      )

  submit-Steps :
      (n : ℕ) (t : Text) → Steps env healthy input submitted n submitted n (submit env input t)
  unfolding submit submit_to_ach
  submit-Steps n t w ready =
      let i : SubmitToAchInput = record {
        payment_id = input.payment_id;
        amount = input.amount;
        account_number = input.account_number;
        routing_number = input.routing_number;
        trace_number = t;
      } in
      (
        record { trace_number = t },
        (submit_to_ach i w).1,
        runs_once SubmitToAchOutput default_activity_options (submit_to_ach i) w
            (record { trace_number = t }) refl,
        record {
          quiet = ready.quiet;
          payment = ready.payment;
          found = ready.found;
          there = ready.there;
          free = ready.free;
        },
      )

  pure-Steps :
      {A : Type 0} (s : PaymentState) (n : ℕ) (a : A) → Steps env healthy input s n s n (pure a)
  pure-Steps s n a w ready = (a, w, refl, ready)

  first-Steps :
      (n ts : ℕ)
      → n ≤ max_representments
      → Steps env healthy input pending n submitted
          (n + 1)
          (first_submission env input (trace_text env n input.payment_id ts) n)
  unfolding first_submission is_transition_allowed
  first-Steps n ts low =
      let t = trace_text env n input.payment_id ts in
      let p = persist_transition env input.payment_id pending submitted (submitted_reason t n) in
      let rest = submit env input t >>= λ _. pure tt in
      Steps-bind env healthy input pending pending submitted n (n + 1) (n + 1)
        (store_trace_number env t) (λ _. p >> rest) (store-Steps n ts low)
        (λ _.
          Steps-bind env healthy input pending submitted submitted (n + 1) (n + 1) (n + 1) p
            (λ _. rest)
            (persist-Steps env healthy input pending pending submitted (n + 1)
              (submitted_reason t n) refl)
            (λ _.
              Steps-bind env healthy input submitted submitted submitted (n + 1) (n + 1) (n + 1)
                (submit env input t) (λ _. pure tt) (submit-Steps (n + 1) t)
                (λ _. pure-Steps submitted (n + 1) tt)))

  check-Steps :
      (t : Text) (n : ℕ) (w : World)
      → Ready env healthy input pending n w
      → is_live (trace_key t) w.clock w.keys ≡ false
      → check_idempotency env t w ≡ (ok (record { already_submitted = false }), w)
  unfolding check_idempotency
  check-Steps t n w ready free =
      let e = check-quiet env healthy t w ready.quiet free in
      runs_once CheckIdempotencyOutput default_activity_options
        (Activities.check_idempotency env (record { trace_number = t })) w
        (record { already_submitted = false })
        (ap (λ (o : Result CheckIdempotencyOutput × World). o.0) e)
      ∙ e

  pub send-Steps :
      (n : ℕ)
      → n ≤ max_representments
      → Steps env healthy input pending n submitted (n + 1) (send env input n)
  unfolding send generate_trace_number
  send-Steps n low w ready =
      let ts = w.clock / second in
      let t = trace_text env n input.payment_id ts in
      let new = check-Steps t n w ready (ready.free n ts (omega arith) low) in
      let first = first_submission env input t n in
      let (a, w', e, ready') =
        Steps-bind env healthy input pending submitted submitted n (n + 1) (n + 1) first
          (λ _. pure t) (first-Steps n ts low) (λ _. pure-Steps submitted (n + 1) t) w ready in
      (
        a,
        w',
        bind-done (check_idempotency env t)
              (λ o. (if o.already_submitted then pure tt else first) >> pure t) w w
              (record { already_submitted = false }) new
            ∙ e,
        ready',
      )

  pub sleep-Steps : (s : PaymentState) (n d : ℕ) → Steps env healthy input s n s n (sleep d)
  sleep-Steps s n d w ready = (
    tt,
    record w { clock = w.clock + d },
    wakes d w ready.quiet,
    record {
      quiet = ready.quiet;
      payment = ready.payment;
      found = ready.found;
      there = ready.there;
      free = λ m ts later high.
          is_live-later (trace_key (trace_text env m input.payment_id ts)) w.clock d w.keys
            (ready.free m ts later high);
    },
  )
