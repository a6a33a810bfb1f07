-- ===== src/Workflow/Ready.antt =====
-- What a call does on a day on which nothing fails: it succeeds, and moves the payment on.
use ach_orchestrator.Base.{ℕ, ◌≤◌, true, false, some, [], ◌≡◌, refl, ◌∙◌, ap, arith, ==_iff}
use ach_orchestrator.Base.Text.{Text}
use ach_orchestrator.Domain.Payment.{PaymentState, Payment}
use ach_orchestrator.Domain.Rules.{is_transition_allowed, max_representments}
use ach_orchestrator.World.{World, Result, ok, Action, ◌>>=◌, bind-done}
use ach_orchestrator.World.View.{find_row, find_row-id}
use ach_orchestrator.Services.{Services, is_live}
use ach_orchestrator.Services.Healthy.{Healthy}
use ach_orchestrator.Db.Repository.{moved}
use ach_orchestrator.Db.Rows.{find_row-update}
use ach_orchestrator.Redis.{trace_key}
use ach_orchestrator.Activities.{PersistStateTransitionInput, persist_state_transition}
use ach_orchestrator.Activities.Healthy.{after_update, persist-quiet}
use ach_orchestrator.Workflow.Types.{
  PaymentWorkflowInput, default_activity_options, Status, completed,
}
use ach_orchestrator.Workflow.Helpers.{trace_text, persist_transition}

-- No call is to fail, the payment is in state `s`, and Redis holds no trace number of the rounds
-- from `n` on.
pub record IsReady (env : Services) (id : ℕ) (s : PaymentState) (n : ℕ) (w : World) : Type 0 where
  pub quiet : w.faults ≡ []
  pub payment : Payment
  pub found : find_row id w.payments ≡ some payment
  pub there : payment.state ≡ s
  pub free :
      (m ts : ℕ)
      → n ≤ m
      → m ≤ max_representments
      → is_live (trace_key (trace_text env m id ts)) w.clock w.keys ≡ false

module _ (env : Services) (healthy : Healthy env) (input : PaymentWorkflowInput) where
  open healthy use {runs_once, wakes}
  open env use {sleep}

  abbrev pub Ready : PaymentState → ℕ → World → Type 0
  Ready = IsReady env input.payment_id

  -- The action succeeds and takes the payment from one state and round to another.
  abbrev pub Steps : {A : Type 0} → PaymentState → ℕ → PaymentState → ℕ → Action A → Type 0
  Steps {A} s n s' n' m =
      (w : World) → Ready s n w → (a : A) × (w' : World) × (m w ≡ (ok a, w')) × Ready s' n' w'

  -- The action returns nil, and no later call is to fail.
  abbrev pub Completes : PaymentState → ℕ → Action Status → Type 0
  Completes s n m =
      (w : World) → Ready s n w → let (r, w') = m w in (r ≡ ok completed) × (w'.faults ≡ [])

  pub Steps-bind :
      {A B : Type 0} (s s' s'' : PaymentState) (n n' n'' : ℕ) (m : Action A) (f : A → Action B)
      → Steps s n s' n' m
      → ((a : A) → Steps s' n' s'' n'' (f a))
      → Steps s n s'' n'' (m >>= f)
  Steps-bind s s' s'' n n' n'' m f hm hf w ready =
      let (a, w₁, e, ready₁) = hm w ready in
      let (b, w₂, e', ready₂) = hf a w₁ ready₁ in (b, w₂, bind-done m f w w₁ a e ∙ e', ready₂)

  pub Completes-bind :
      {A : Type 0} (s s' : PaymentState) (n n' : ℕ) (m : Action A) (f : A → Action Status)
      → Steps s n s' n' m
      → ((a : A) → Completes s' n' (f a))
      → Completes s n (m >>= f)
  Completes-bind s s' n n' m f hm hf w ready =
      let (a, w₁, e, ready₁) = hm w ready in
      let h = bind-done m f w w₁ a e in
      let (r, quiet) = hf a w₁ ready₁ in
      (
        ap (λ (o : Result Status × World). o.0) h ∙ r,
        ap (λ (o : Result Status × World). o.1.faults) h ∙ quiet,
      )

  pub persist-Steps :
      (s from to : PaymentState) (n : ℕ) (reason : Text)
      → is_transition_allowed s to ≡ true
      → Steps s n to n (persist_transition env input.payment_id from to reason)
  unfolding persist_transition
  persist-Steps s from to n reason allowed w ready =
      let id = input.payment_id in
      let p = ready.payment in
      let i : PersistStateTransitionInput = record {
        payment_id = id;
        from_state = from;
        to_state = to;
        reason = reason;
      } in
      let can : is_transition_allowed p.state to ≡ true =
        ap (λ (x : PaymentState). is_transition_allowed x to) ready.there ∙ allowed in
      let e = persist-quiet env healthy i p w ready.quiet ready.found can in
      let same = find_row-id id w.payments ready.found in
      (
        tt,
        after_update p to reason (env.timestamptz w.clock) w,
        runs_once (Unit {0}) default_activity_options (persist_state_transition env i) w tt
              (ap (λ (o : Result (Unit {0}) × World). o.0) e)
            ∙ e,
        record {
          quiet = ready.quiet;
          payment = moved to (env.timestamptz w.clock) p;
          found =
              find_row-update p.id id (moved to (env.timestamptz w.clock)) w.payments (λ _. refl)
              ∙ ground (arith, ==_iff p.id id);
          there = refl;
          free = ready.free;
        },
      )
