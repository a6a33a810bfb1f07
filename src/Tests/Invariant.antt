-- ===== src/Tests/Invariant.antt =====
-- The theorems on what a run keeps, at concrete inputs.
use mathlib.Core.Option
use ach_orchestrator.Base.{List, [], ◌∷◌, ◌++◌, ◌≡◌, refl, inl, arith}
use ach_orchestrator.Base.Text.{codes}
use ach_orchestrator.Domain.Payment.{submitted, initiated}
use ach_orchestrator.World.{AuditEntry, World}
use ach_orchestrator.World.View.{view, view_store, find_row, entries_of}
use ach_orchestrator.Services.{simple}
use ach_orchestrator.Workflow.Types.{Event, timer}
use ach_orchestrator.Workflow.Loop.{payment_workflow}
use ach_orchestrator.Workflow.Evolution.{Evolves, payment_workflow-Evolves}
use ach_orchestrator.Workflow.Invariant.{IsSound, frozen, payment_workflow-IsSound}
use ach_orchestrator.Workflow.Isolation.{payment_workflow-confined}
use ach_orchestrator.Workflow.Notice.{Notice, payment_workflow-Notice}
use ach_orchestrator.Tests.Fixtures.{payment_in, world_with, held_world, order, returned_with}

abbrev events : List Event
events = returned_with (codes "R08") ∷ timer ∷ []

payment_workflow-Evolves_example :
    Evolves (view 7 held_world) (view 7 (payment_workflow simple order events held_world).1)
payment_workflow-Evolves_example = payment_workflow-Evolves simple order events held_world

sound : IsSound (view 7 (world_with initiated)).row (view 7 (world_with initiated)).history
unfolding view_store find_row entries_of
sound = ((refl, refl), inl refl)

payment_workflow-IsSound_example :
    let v = view 7 (payment_workflow simple order events (world_with initiated)).1 in
    IsSound v.row v.history
payment_workflow-IsSound_example =
    payment_workflow-IsSound simple order events (world_with initiated) sound

-- With a second payment, which its own workflow has submitted.
abbrev two_payments : World
two_payments =
    let w = world_with initiated in
    record w {
      store = record (w.store) {
        payments = payment_in initiated ∷ record (payment_in submitted) { id = 8 } ∷ [];
      };
    }

payment_workflow-confined_example :
    let v = view 7 two_payments in
    let w' = (payment_workflow simple order events two_payments).1 in
    let v' = view 7 w' in
    (view 8 w' ≡ view 8 two_payments)
    × (Option.map frozen v'.row ≡ Option.map frozen v.row)
    × (new : List AuditEntry) × (v'.history ≡ v.history ++ new)
payment_workflow-confined_example =
    payment_workflow-confined simple order events 8 two_payments (omega arith)

payment_workflow-Notice_example :
    Notice 7
      (view 7 (world_with initiated))
      (payment_workflow simple order events (world_with initiated))
payment_workflow-Notice_example = payment_workflow-Notice simple order events (world_with initiated)
