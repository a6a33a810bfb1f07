-- ===== src/Tests/Services.antt =====
-- The theorems on the repository, on Redis and on the activities at concrete inputs.
use mathlib.Core.List.{Perm}
use ach_orchestrator.Base.Sorting.{IsSorted}
use ach_orchestrator.Base.{
  ℕ, ◌<◌, ◌≤◌, ◌+◌, List, [], ◌++◌, refl, arith, length, All, true, false, ◌≡◌, ◌≢◌, ◌⊎◌,
}
use ach_orchestrator.Base.Text.{Text, codes}
use ach_orchestrator.Domain.Payment.{Payment, initiated, pending, submitted, settled}
use ach_orchestrator.Domain.Rules.{is_transition_allowed}
use ach_orchestrator.World.{ok, err, illegal_transition, trace_exists, IsErr}
use ach_orchestrator.World.View.{view}
use ach_orchestrator.Services.{simple, is_live}
use ach_orchestrator.Db.Repository.{not_older, get_all_payments, update_payment_state}
use ach_orchestrator.Db.Reads.{get_all_payments_lem}
use ach_orchestrator.Db.Update.{Committed, stepped, update_payment_state_lem}
use ach_orchestrator.Redis
use ach_orchestrator.Redis.{trace_key, trace_ttl}
use ach_orchestrator.Redis.Idempotency.{store_then_check}
use ach_orchestrator.Workflow.Types.{default_activity_options}
use ach_orchestrator.Activities.{PersistStateTransitionInput, persist_state_transition}
use ach_orchestrator.Activities.Persist.{Persists, persist-once}
use ach_orchestrator.Tests.Fixtures.{payment_in, world_with}

abbrev to_pending : PersistStateTransitionInput
to_pending = record {
  payment_id = 7;
  from_state = initiated;
  to_state = pending;
  reason = codes "workflow started";
}

update_payment_state_lem_example :
    let p = payment_in submitted in
    let w = world_with submitted in
    let (r, w') = update_payment_state simple p settled (codes "done") w in
    ((is_transition_allowed p.state settled ≡ false)
      × (update_payment_state simple p settled (codes "done") w
          ≡ (err (illegal_transition p.state settled p.id), w)))
    ⊎ ((is_transition_allowed p.state settled ≡ true)
        × ((id : ℕ) → id ≢ 7 → view id w' ≡ view id w)
        × ((IsErr r × (view 7 w' ≡ view 7 w))
            ⊎ (Committed p settled
                  (codes "done")
                  (simple.timestamptz w.clock)
                  (view 7 w)
                  (view 7 w')
                × (IsErr r ⊎ (r ≡ ok (stepped settled w.clock p))))))
update_payment_state_lem_example =
    update_payment_state_lem simple (payment_in submitted) settled (codes "done")
      (world_with submitted)

persist-once_example :
    let w = world_with initiated in
    let out =
      simple.execute
        (Unit {0})
        default_activity_options
        (persist_state_transition simple to_pending)
        w in
    Persists pending (codes "workflow started") (view 7 w) out.0 (view 7 out.1)
persist-once_example =
    let w = world_with initiated in
    let act = persist_state_transition simple to_pending in
    persist-once simple to_pending (simple.execute (Unit {0}) default_activity_options act w) w
      (simple.executes (Unit {0}) default_activity_options 7 act w (omega arith))

get_all_payments_lem_example :
    let w = world_with initiated in
    let (r, w') = get_all_payments 100 w in
    (w'.store ≡ w.store)
    × (IsErr r
        ⊎ ((ps : List Payment) × (others : List Payment) × (r ≡ ok ps)
            × (length ps ≤ 100)
            × Perm (ps ++ others) w.payments
            × IsSorted not_older ps
            × All (λ p. All (λ q. q.created_at ≤ p.created_at) others) ps))
get_all_payments_lem_example = get_all_payments_lem 100 (world_with initiated)

abbrev first_trace : Text
first_trace = codes "ACH-a"

abbrev second_trace : Text
second_trace = codes "ACH-b"

not_held :
    is_live (trace_key first_trace) (world_with pending).clock (world_with pending).keys ≡ false
unfolding is_live
not_held = refl

stores : (Redis.store_trace_number simple first_trace (world_with pending)).0 ≡ ok tt
unfolding Redis.store_trace_number simple is_live
stores = refl

two_traces : first_trace ≢ second_trace
two_traces e = ground arith

soon :
    let w = world_with pending in
    (Redis.store_trace_number simple first_trace w).1.clock < w.clock + trace_ttl
unfolding Redis.store_trace_number simple is_live
soon = omega arith

store_then_check_example :
    let w = world_with pending in
    let w' = (Redis.store_trace_number simple first_trace w).1 in
    (IsErr (simple.exists (trace_key first_trace) w').0
      ⊎ ((Redis.check_idempotency simple first_trace w').0 ≡ err trace_exists))
    × (is_live (trace_key second_trace) w.clock w'.keys
        ≡ is_live (trace_key second_trace) w.clock w.keys)
store_then_check_example =
    let w = world_with pending in
    let w' = (Redis.store_trace_number simple first_trace w).1 in
    store_then_check simple first_trace second_trace w w' [] not_held stores refl soon two_traces
