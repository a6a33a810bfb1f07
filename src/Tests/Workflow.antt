-- ===== src/Tests/Workflow.antt =====
-- The theorems on the workflow at concrete inputs.
use ach_orchestrator.Base.{ℕ, ◌+◌, ◌≤◌, ◌/◌, some, List, [], ◌∷◌, ◌++◌, true, refl, ◌≡◌, ◌≢◌, arith}
use ach_orchestrator.Base.Text.{codes}
use ach_orchestrator.Domain.Payment.{initiated, pending}
use ach_orchestrator.Domain.Rules.{max_representments, is_terminal_state}
use ach_orchestrator.World.{ok, IsErr}
use ach_orchestrator.World.View.{view, view_store, find_row, entries_of}
use ach_orchestrator.Services.{simple, is_live}
use ach_orchestrator.Services.Healthy.{simple-Healthy}
use ach_orchestrator.Workflow.Ready.{IsReady}
use ach_orchestrator.Workflow.Completion.{payment_workflow-terminates}
use ach_orchestrator.Activities.Persist.{state_of}
use ach_orchestrator.Workflow.Types.{second, Event, timer, completed, waiting}
use ach_orchestrator.Workflow.Spec.{life}
use ach_orchestrator.Workflow.Helpers
use ach_orchestrator.Workflow.Helpers.{trace_text}
use ach_orchestrator.Workflow.Loop.{payment_loop, payment_workflow}
use ach_orchestrator.Workflow.Trail.{At, trail}
use ach_orchestrator.Workflow.Outcome.{Outcome, end_of}
use ach_orchestrator.Workflow.Follows.{payment_workflow-follows}
use ach_orchestrator.Workflow.Limits.{sends, sends_bounded}
use ach_orchestrator.Workflow.Ends.{payment_workflow-returns}
use ach_orchestrator.Workflow.Traces.{trace_text-injective, hit-stuck}
use ach_orchestrator.Tests.Fixtures.{payment_in, world_with, held_world, order, returned_with, run}

abbrev events : List Event
events = returned_with (codes "R01") ∷ returned_with (codes "R02") ∷ timer ∷ []

fresh : At initiated [] (view 7 (world_with initiated))
unfolding view_store find_row entries_of
fresh = (refl, refl)

payment_workflow-follows_example :
    let (r, w') = payment_workflow simple order events (world_with initiated) in
    Outcome initiated [] (life events) r (view 7 w')
payment_workflow-follows_example =
    payment_workflow-follows simple order events [] (world_with initiated) fresh

finishes : (payment_workflow simple order events (world_with initiated)).0 ≡ ok completed
unfolding run
finishes = refl

sends_bounded_example :
    sends (trail (view 7 (payment_workflow simple order events (world_with initiated)).1))
    ≤ sends [] + (max_representments + 1)
sends_bounded_example = sends_bounded simple order events [] (world_with initiated) fresh

payment_workflow-returns_example :
    (payment_workflow simple order events (world_with initiated)).0 ≢ ok waiting
payment_workflow-returns_example =
    payment_workflow-returns simple order events (world_with initiated) (omega arith)

ready : IsReady simple 7 initiated 0 (world_with initiated)
unfolding find_row is_live
ready = record {
  quiet = refl;
  payment = payment_in initiated;
  found = refl;
  there = refl;
  free = λ m ts later high. refl;
}

payment_workflow-terminates_example :
    let (r, w') = payment_workflow simple order events (world_with initiated) in
    (r ≡ ok completed)
    × (state_of (view 7 w') ≡ some (end_of initiated (life events)))
    × (is_terminal_state (end_of initiated (life events)) ≡ true)
    × (trail (view 7 w') ≡ trail (view 7 (world_with initiated)) ++ life events)
payment_workflow-terminates_example =
    payment_workflow-terminates simple simple-Healthy order events (world_with initiated)
      (omega arith) ready

abbrev round : ℕ
round = 1

trace_text-injective_example : round ≡ round
trace_text-injective_example =
    trace_text-injective simple 7 round round 1700000000 1700000000 (omega arith) (omega arith) refl

held : At pending [] (view 7 held_world)
unfolding view_store find_row entries_of
held = (refl, refl)

hit :
    (Helpers.check_idempotency simple
      (trace_text simple 0 7 (held_world.clock / second))
      held_world).0
    ≡ ok (record { already_submitted = true })
unfolding run
hit = refl

hit-stuck_example :
    let (r, w') = payment_loop simple order (timer ∷ []) 0 held_world in
    At pending [] (view 7 w') × IsErr r
hit-stuck_example = hit-stuck simple order timer [] 0 [] held_world held hit
