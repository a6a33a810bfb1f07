-- ===== src/Workflow/Frame.antt =====
-- What a run of the workflow keeps, for a relation between the payment before and after that the
-- activities keep.
use ach_orchestrator.Base.{ℕ, ◌/◌, Bool, true, false, ◌≡◌, refl, arith, if◌then◌else◌}
use ach_orchestrator.Base.Text.{Text, codes}
use ach_orchestrator.Domain.Payment.{PaymentState, pending, submitted}
use ach_orchestrator.World.{SubmitToAchInput, World, Result, Action, pure, ◌>>=◌, ◌>>◌, world_rule}
use ach_orchestrator.World.View.{View, view, view_store}
use ach_orchestrator.Services.{Services, Attempts, gave_up, last, again}
use ach_orchestrator.Activities
use ach_orchestrator.Activities.{
  CheckIdempotencyOutput, SubmitToAchOutput, PersistStateTransitionInput, persist_state_transition,
  submit_to_ach,
}
use ach_orchestrator.Redis
use ach_orchestrator.Redis.{trace_key, trace_ttl}
use ach_orchestrator.Redis.Idempotency.{check_live}
use ach_orchestrator.Workflow.Types.{second, PaymentWorkflowInput, default_activity_options}
use ach_orchestrator.Workflow.Helpers.{
  trace_text, generate_trace_number, persist_transition, check_idempotency, store_trace_number,
  submit,
}
use ach_orchestrator.Workflow.Loop.{submitted_reason, first_submission, send}

module _ (R : View → View → Type 0) (stays : (v : View) → R v v)
    (follows : (u v w : View) → R u v → R v w → R u w) where
  -- Every run of the action relates the payment before it to the payment after it.
  abbrev pub Runs : {A : Type 0} → ℕ → Action A → Type 0
  Runs id m = (w : World) → R (view id w) (view id (m w).1)

  pub Runs-bind :
      {A B : Type 0} (id : ℕ) (m : Action A) (f : A → Action B)
      → Runs id m
      → ((a : A) → Runs id (f a))
      → Runs id (m >>= f)
  Runs-bind id m f hm hf w =
      world_rule (λ w'. R (view id w) (view id w')) m f w (hm w)
        (λ a _.
          follows (view id w) (view id (m w).1) (view id (f a (m w).1).1) (hm w) (hf a (m w).1))

  pub Runs-Attempts :
      {A : Type 0} (id : ℕ) (act : Action A) (out : Result A × World) {n : ℕ} (w : World)
      → Runs id act
      → Attempts id act out n w
      → R (view id w) (view id out.1)
  Runs-Attempts id act out w h (gave_up bad same) = rw same (stays (view id w))
  Runs-Attempts id act out w h (last w₁ same r e) = rw (e, ← same) (h w₁)
  Runs-Attempts id act out w h (again w₁ same rest) = rw (← same) (
      follows (view id w₁) (view id (act w₁).1) (view id out.1) (h w₁)
        (Runs-Attempts id act out (act w₁).1 h rest))

  module _ (env : Services) (input : PaymentWorkflowInput) (id : ℕ) where
    open env use {executes, set_nx_lem, sleep, sleeps}

    pub Runs-check : (t : Text) → Runs id (check_idempotency env t)
    unfolding check_idempotency Activities.check_idempotency
    Runs-check t w =
        let act = Activities.check_idempotency env (record { trace_number = t }) in
        Runs-Attempts id act (check_idempotency env t w) w
          (λ w. rw (check_live env t w).0 (stays (view id w)))
          (executes CheckIdempotencyOutput default_activity_options id act w (omega arith))

    store_run :
        (t : Text) (w : World)
        → view id (Activities.store_trace_number env (record { trace_number = t }) w).1 ≡ view id w
    unfolding Activities.store_trace_number Redis.store_trace_number view_store
    store_run t w = ground (arith, set_nx_lem (trace_key t) (codes "1") trace_ttl w)

    pub Runs-store : (t : Text) → Runs id (store_trace_number env t)
    unfolding store_trace_number
    Runs-store t w =
        let act = Activities.store_trace_number env (record { trace_number = t }) in
        Runs-Attempts id act (store_trace_number env t w) w
          (λ w. rw (store_run t w) (stays (view id w)))
          (executes (Unit {0}) default_activity_options id act w (omega arith))

    pub Runs-sleep : (d : ℕ) → Runs id (sleep d)
    Runs-sleep d w = rw (sleeps id d w) (stays (view id w))

    module _
        (persists : (i : PersistStateTransitionInput)
          → i.payment_id ≡ input.payment_id
          → Runs id (persist_state_transition env i)) where
      pub Runs-persist :
          (from to : PaymentState) (reason : Text)
          → Runs id (persist_transition env input.payment_id from to reason)
      unfolding persist_transition
      Runs-persist from to reason w =
          let i : PersistStateTransitionInput = record {
            payment_id = input.payment_id;
            from_state = from;
            to_state = to;
            reason = reason;
          } in
          Runs-Attempts id (persist_state_transition env i)
            (persist_transition env input.payment_id from to reason w) w (persists i refl)
            (executes (Unit {0}) default_activity_options id (persist_state_transition env i) w
              (omega arith))

    module _
        (submits : (i : SubmitToAchInput)
          → i.payment_id ≡ input.payment_id
          → Runs id (submit_to_ach i)) where
      pub Runs-submit : (t : Text) → Runs id (submit env input t)
      unfolding submit
      Runs-submit t w =
          let act : Action SubmitToAchOutput = submit_to_ach (record {
            payment_id = input.payment_id;
            amount = input.amount;
            account_number = input.account_number;
            routing_number = input.routing_number;
            trace_number = t;
          }) in
          Runs-Attempts id act (submit env input t w) w (submits _ refl)
            (executes SubmitToAchOutput default_activity_options id act w (omega arith))

      module _
          (persists : (i : PersistStateTransitionInput)
            → i.payment_id ≡ input.payment_id
            → Runs id (persist_state_transition env i)) where
        Runs-first : (t : Text) (n : ℕ) → Runs id (first_submission env input t n)
        unfolding first_submission
        Runs-first t n =
            let p =
              persist_transition env input.payment_id pending submitted (submitted_reason t n) in
            let rest = submit env input t >>= λ _. pure tt in
            Runs-bind id (store_trace_number env t) (λ _. p >> rest) (Runs-store t)
              (λ _.
                Runs-bind id p (λ _. rest)
                  (Runs-persist persists pending submitted (submitted_reason t n))
                  (λ _.
                    Runs-bind id (submit env input t) (λ _. pure tt) (Runs-submit t)
                      (λ _ w. stays (view id w))))

        -- A round up to the selector.
        pub Runs-send : (n : ℕ) → Runs id (send env input n)
        unfolding send generate_trace_number
        Runs-send n w =
            let t = trace_text env n input.payment_id (w.clock / second) in
            Runs-bind id (check_idempotency env t)
              (λ o.
                (if o.already_submitted then pure tt else first_submission env input t n) >> pure t)
              (Runs-check t)
              (λ o.
                Runs-bind id
                  (if o.already_submitted then pure tt else first_submission env input t n)
                  (λ _. pure t) (first_or_not o.already_submitted t n) (λ _ w. stays (view id w)))
              w
          where
            first_or_not :
                (b : Bool) (t : Text) (n : ℕ)
                → Runs id (if b then pure tt else first_submission env input t n)
            first_or_not true t n w = stays (view id w)
            first_or_not false t n w = Runs-first t n w
