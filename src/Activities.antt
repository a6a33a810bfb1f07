-- ===== src/Activities.antt =====
-- internal/activities/activities.go: the activities that the workflow calls.
pub mod Persist
pub mod Healthy
use ach_orchestrator.Base.{
  ℕ, ◌-◌, Bool, true, false, Option, none, some, leb, ◌++◌, ◌∷◌, [], length, drop, if◌then◌else◌,
}
use ach_orchestrator.Base.Text.{Text}
use ach_orchestrator.Domain.Payment.{PaymentState, Payment, state_eq}
use ach_orchestrator.World.{
  SubmitToAchInput, World, Result, ok, err, wrap, Action, pure, raise, modify, on_error, ◌>>=◌,
  ◌>>◌, trace_exists, nil_pointer,
}
use ach_orchestrator.Services.{Services}
use ach_orchestrator.Db.Repository.{get_payment_by_id, update_payment_state}
use ach_orchestrator.Redis

-- `type SubmitToACHOutput struct`
pub record SubmitToAchOutput : Type 0 where
  pub trace_number : Text

-- `SubmitToACH`: the submission is the line that it logs; the output is the trace number.
unfoldable pub submit_to_ach : SubmitToAchInput → Action SubmitToAchOutput
submit_to_ach input = do
  modify (λ w. record w { store = record (w.store) { submitted = w.submitted ++ input ∷ [] } })
  pure (record { trace_number = input.trace_number })

-- `type PersistStateTransitionInput struct`
pub record PersistStateTransitionInput : Type 0 where
  pub payment_id : ℕ
  pub from_state : PaymentState
  pub to_state : PaymentState
  pub reason : Text

-- `type CheckIdempotencyInput struct`
pub record CheckIdempotencyInput : Type 0 where
  pub trace_number : Text

-- `type CheckIdempotencyOutput struct`
pub record CheckIdempotencyOutput : Type 0 where
  pub already_submitted : Bool

-- `type StoreTraceNumberInput struct`
pub record StoreTraceNumberInput : Type 0 where
  pub trace_number : Text

-- The answer of the client to `CheckIdempotency`, as the flag `AlreadySubmitted` or an error.
abbrev check_output : Result (Unit {0}) → Result CheckIdempotencyOutput
check_output (err trace_exists) = ok (record { already_submitted = true })
check_output (err e) = err (wrap "CheckIdempotency" e)
check_output (ok _) = ok (record { already_submitted = false })

-- `last4`
unfoldable pub last4 : Text → Text
last4 s = if leb (length s) 4 then s else drop (length s - 4) s

module _ (env : Services) where
  -- What follows the read of the row in `PersistStateTransition`. A missing row is a nil pointer,
  -- which `payment.State` follows.
  unfoldable pub persist_payment : PersistStateTransitionInput → Option Payment → Action (Unit {0})
  persist_payment input none = raise nil_pointer
  persist_payment input (some payment) =
      if state_eq payment.state input.to_state then pure tt else (do
        on_error "PersistStateTransition: update payment"
            (update_payment_state env payment input.to_state input.reason)
        pure tt)

  -- `PersistStateTransition`
  unfoldable pub persist_state_transition : PersistStateTransitionInput → Action (Unit {0})
  unfolding persist_payment
  persist_state_transition input = do
    payment ← on_error "PersistStateTransition: get payment" (get_payment_by_id input.payment_id)
    persist_payment input payment

  -- `CheckIdempotency`
  unfoldable pub check_idempotency : CheckIdempotencyInput → Action CheckIdempotencyOutput
  check_idempotency input w =
      let (r, w') = Redis.check_idempotency env input.trace_number w in (check_output r, w')

  -- `StoreTraceNumber`
  unfoldable pub store_trace_number : StoreTraceNumberInput → Action (Unit {0})
  store_trace_number input =
      on_error "StoreTraceNumber" (Redis.store_trace_number env input.trace_number)
