-- ===== src/Activities/Healthy.antt =====
-- The activities on a day on which nothing fails.
use Prim.Native.String.{String}
use ach_orchestrator.Base.{
  ℕ, true, false, Option, some, List, [], ◌∷◌, ◌++◌, ◌≡◌, inl, inr, refl, ◌∙◌, ap, arith, ◌==◌, ltb,
  if◌then◌else◌, Bool-cases,
}
use ach_orchestrator.Base.Text.{Text, codes}
use ach_orchestrator.Domain.Payment.{PaymentState, Payment, state_eq, state_eq_sound}
use ach_orchestrator.Domain.Rules.{is_transition_allowed}
use ach_orchestrator.World.{
  World, Result, ok, io, on_error, pure, raise, trace_exists, bind-done, on_error-done,
}
use ach_orchestrator.World.View.{find_row, find_row-id}
use ach_orchestrator.Services.{Services, is_live, with_key}
use ach_orchestrator.Redis
use ach_orchestrator.Redis.{trace_key, trace_ttl}
use ach_orchestrator.Services.Healthy.{Healthy}
use ach_orchestrator.Db.Repository.{
  get_payment_by_id, update_payment_state, update_tx, update_rows, rows_affected, moved,
  audit_entry,
}
use ach_orchestrator.Activities.Persist.{no_self_step}
use ach_orchestrator.Activities.{
  PersistStateTransitionInput, persist_payment, persist_state_transition, check_output,
  check_idempotency, store_trace_number,
}

-- The world after the committed update of a row.
abbrev pub after_update : Payment → PaymentState → Text → ℕ → World → World
after_update p to reason now w = record w {
  store = record (w.store) {
    payments = update_rows p.id (moved to now) w.payments;
    audit_log = w.audit_log ++ audit_entry p to reason now ∷ [];
  };
}

row-affected :
    (id : ℕ) (ps : List Payment) {p : Payment}
    → find_row id ps ≡ some p
    → (rows_affected id ps == 0) ≡ false
unfolding find_row rows_affected
row-affected id [] h = cc
row-affected id (q ∷ ps) {p} h = ground (arith, row-affected id ps {p = p})

update_tx-quiet :
    (p : Payment) (to : PaymentState) (reason : Text) (now : ℕ) (w : World)
    → w.faults ≡ []
    → find_row p.id w.payments ≡ some p
    → update_tx p to reason now w ≡ (ok tt, after_update p to reason now w)
unfolding update_tx io
update_tx-quiet p to reason now w h row = ground (arith, row-affected p.id w.payments row)

not_there : (s to : PaymentState) → is_transition_allowed s to ≡ true → state_eq s to ≡ false
not_there s to allowed = elim (Bool-cases (state_eq s to)) [
  | inl same ↦ absurd (ground (arith, no_self_step to, state_eq_sound s to))
  | inr away ↦ away
]

get_payment-quiet :
    (context : String) (id : ℕ) (w : World)
    → w.faults ≡ []
    → on_error context (get_payment_by_id id) w ≡ (ok (find_row id w.payments), w)
unfolding get_payment_by_id io
get_payment-quiet context id w h = ground arith

module _ (env : Services) (healthy : Healthy env) where
  open healthy use {commits, finds, sets}
  open env use {begin_tx_func, exists, set_nx, timestamptz}

  update-quiet :
      (context : String) (p : Payment) (to : PaymentState) (reason : Text) (w : World)
      → w.faults ≡ []
      → find_row p.id w.payments ≡ some p
      → is_transition_allowed p.state to ≡ true
      → on_error context (update_payment_state env p to reason) w
        ≡ (ok (moved to w.clock p), after_update p to reason (timestamptz w.clock) w)
  unfolding update_payment_state
  update-quiet context p to reason w h row allowed =
      let now = timestamptz w.clock in
      let done = update_tx-quiet p to reason now w h row in
      let e : begin_tx_func (update_tx p to reason now) w
          ≡ (ok tt, after_update p to reason now w) =
        commits (update_tx p to reason now) w (rw done refl) ∙ done in
      rw allowed (ground arith)

  -- One run of `PersistStateTransition` for an allowed step makes it.
  pub persist-quiet :
      (i : PersistStateTransitionInput) (p : Payment) (w : World)
      → w.faults ≡ []
      → find_row i.payment_id w.payments ≡ some p
      → is_transition_allowed p.state i.to_state ≡ true
      → persist_state_transition env i w
        ≡ (ok tt, after_update p i.to_state i.reason (timestamptz w.clock) w)
  unfolding persist_state_transition persist_payment
  persist-quiet i p w h row allowed =
      let id = find_row-id i.payment_id w.payments row in
      let found : find_row p.id w.payments ≡ some p =
        ap (λ (j : ℕ). find_row j w.payments) id ∙ row in
      let away : state_eq p.state i.to_state ≡ false = not_there p.state i.to_state allowed in
      let read : String = "PersistStateTransition: get payment" in
      let write : String = "PersistStateTransition: update payment" in
      bind-done (on_error read (get_payment_by_id i.payment_id)) (persist_payment env i) w w
        (some p)
        (get_payment-quiet read i.payment_id w h
          ∙ ap (λ (o : Option Payment). let r : Result (Option Payment) × World = (ok o, w) in r)
              row)
      ∙ rw away (
          bind-done (on_error write (update_payment_state env p i.to_state i.reason)) (λ _. pure tt)
            w (after_update p i.to_state i.reason (timestamptz w.clock) w)
            (moved i.to_state w.clock p)
            (update-quiet write p i.to_state i.reason w h found allowed))

  -- A trace number that Redis does not hold is new, and is stored.
  pub check-quiet :
      (t : Text) (w : World)
      → w.faults ≡ []
      → is_live (trace_key t) w.clock w.keys ≡ false
      → check_idempotency env (record { trace_number = t }) w
        ≡ (ok (record { already_submitted = false }), w)
  unfolding check_idempotency Redis.check_idempotency
  check-quiet t w h free =
      let m = on_error "redis EXISTS" (exists (trace_key t)) in
      ap (λ (o : Result (Unit {0}) × World). (check_output o.0, o.1))
        (bind-done m (λ val. if ltb 0 val then raise trace_exists else pure tt) w w 0
          (on_error-done "redis EXISTS" (exists (trace_key t)) w w 0
            (finds (trace_key t) w h free)))

  pub store-quiet :
      (t : Text) (w : World)
      → w.faults ≡ []
      → is_live (trace_key t) w.clock w.keys ≡ false
      → store_trace_number env (record { trace_number = t }) w
        ≡ (ok tt, record w { store = with_key (trace_key t) trace_ttl w })
  unfolding store_trace_number Redis.store_trace_number
  store-quiet t w h free =
      let w' = record w { store = with_key (trace_key t) trace_ttl w } in
      let m = set_nx (trace_key t) (codes "1") trace_ttl in
      on_error-done "StoreTraceNumber" (Redis.store_trace_number env t) w w' tt (
        bind-done (on_error "redis SETNX" m) (λ set. if set then pure tt else pure tt) w w' true
          (on_error-done "redis SETNX" m w w' true
            (sets (trace_key t) (codes "1") trace_ttl w h free)))
