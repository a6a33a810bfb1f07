-- ===== src/Tests/Runs.antt =====
-- Runs of the workflow, and its theorems at them.
use ach_orchestrator.Base.{[], ◌∷◌, refl, ◌≡◌}
use ach_orchestrator.Base.Text.{codes}
use ach_orchestrator.Domain.Payment.{
  initiated, pending, submitted, returned, failed_retryable_exhausted,
}
use ach_orchestrator.World.{ok}
use ach_orchestrator.World.View.{view}
use ach_orchestrator.Workflow.Types.{timer, completed}
use ach_orchestrator.Workflow.Trail.{At}
use ach_orchestrator.Tests.Fixtures.{world_with, returned_with, run}

-- Two returns for insufficient funds, and then no return.
r01_twice_then_settled :
    (run
      (returned_with (codes "R01") ∷ returned_with (codes "R01") ∷ timer ∷ [])
      (world_with initiated)).0
    ≡ ok completed
unfolding run
r01_twice_then_settled = refl

exhausted :
    let w =
      (run
        (returned_with (codes "R01")
          ∷ returned_with (codes "R09")
          ∷ returned_with (codes "R08")
          ∷ timer
          ∷ [])
        (world_with initiated)).1 in
    At failed_retryable_exhausted
      ((initiated, pending)
        ∷ (pending, submitted)
        ∷ (submitted, returned)
        ∷ (returned, pending)
        ∷ (pending, submitted)
        ∷ (submitted, returned)
        ∷ (returned, pending)
        ∷ (pending, submitted)
        ∷ (submitted, returned)
        ∷ (returned, failed_retryable_exhausted)
        ∷ [])
      (view 7 w)
unfolding run
exhausted = (refl, refl)
