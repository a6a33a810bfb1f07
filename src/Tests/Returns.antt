-- ===== src/Tests/Returns.antt =====
-- The theorems on return signals and on the entries that are sent at concrete inputs.
use ach_orchestrator.Base.{ℕ, ◌+◌, ◌*◌, some, inl, List, [], ◌∷◌, ◌++◌, map, ◌≡◌, refl, arith}
use ach_orchestrator.Base.Text.{codes, text_eq}
use ach_orchestrator.Domain.Payment.{initiated, failed_retryable_exhausted}
use ach_orchestrator.Domain.Rules.{max_representments, retry_delay_for}
use ach_orchestrator.World.{ok}
use ach_orchestrator.World.View.{view, view_store, find_row, entries_of}
use ach_orchestrator.Services.{simple}
use ach_orchestrator.Activities.Persist.{state_of}
use ach_orchestrator.Workflow.Types.{
  ReturnSignal, timer, signal, completed, default_activity_options,
}
use ach_orchestrator.Workflow.Channel.{Arrival, select, events_of, IsPaced}
use ach_orchestrator.Workflow.Trail.{At, trail}
use ach_orchestrator.Workflow.Loop.{payment_workflow}
use ach_orchestrator.Workflow.Entries.{Adds}
use ach_orchestrator.Workflow.Submissions.{payment_workflow-Adds}
use ach_orchestrator.Domain.Rcode.Routing.{IsRetryCode}
use ach_orchestrator.Workflow.Refused.{refused_ends_submissions}
use ach_orchestrator.Workflow.Duplicates.{
  retraced, exhausted_steps, payment_workflow-retraced, early_returns_exhaust,
}
use ach_orchestrator.Tests.Fixtures.{world_with, order, run}

abbrev first_return : ReturnSignal
first_return = record { r_code = codes "R01"; trace_number = codes "021000020000001" }

-- The bank reports the first submission three times within an hour.
abbrev arrival : ℕ → Arrival
arrival n = record { at = 1700000000000000000 + n; returned = first_return }

abbrev channel : List Arrival
channel = arrival 1 ∷ arrival 2 ∷ arrival 3 ∷ []

-- The second and the third selector start a day and two days after the first.
abbrev starts : List ℕ
starts = 1700000000000000000 ∷ 1700086400000000001 ∷ 1700172800000000001 ∷ []

payment_workflow-Adds_example :
    Adds order
      ((max_representments + 1) * default_activity_options.maximum_attempts)
      (view 7 (world_with initiated))
      (view 7
        (payment_workflow simple order (signal first_return ∷ timer ∷ []) (world_with initiated)).1)
payment_workflow-Adds_example =
    payment_workflow-Adds simple order (signal first_return ∷ timer ∷ []) (world_with initiated)

payment_workflow-retraced_example :
    payment_workflow simple order (map (retraced (λ _. codes "stray")) (signal first_return ∷ []))
    ≡ payment_workflow simple order (signal first_return ∷ [])
payment_workflow-retraced_example =
    payment_workflow-retraced simple order (λ _. codes "stray") (signal first_return ∷ [])

abbrev refused_return : ReturnSignal
refused_return = record { r_code = codes "R02"; trace_number = codes "021000020000001" }

r02_refused : ¬ IsRetryCode (codes "R02")
r02_refused h = ground arith

refused_ends_submissions_example :
    Adds order
      ((1 + 1) * default_activity_options.maximum_attempts)
      (view 7 (world_with initiated))
      (view 7
        (payment_workflow simple order
          (signal first_return ∷ signal refused_return ∷ timer ∷ [])
          (world_with initiated)).1)
refused_ends_submissions_example =
    refused_ends_submissions simple order (signal first_return ∷ []) (timer ∷ []) refused_return
      (world_with initiated) r02_refused

paced : IsPaced channel starts
unfolding IsPaced select retry_delay_for text_eq
paced = omega arith

fresh : At initiated [] (view 7 (world_with initiated))
unfolding view_store find_row entries_of
fresh = (refl, refl)

given_up :
    (payment_workflow simple order (events_of channel starts) (world_with initiated)).0
    ≡ ok completed
unfolding run events_of select
given_up = refl

early_returns_exhaust_example :
    let v' =
      view 7 (payment_workflow simple order (events_of channel starts) (world_with initiated)).1 in
    (state_of v' ≡ some failed_retryable_exhausted) × (trail v' ≡ [] ++ exhausted_steps)
early_returns_exhaust_example =
    early_returns_exhaust simple order (arrival 1) (arrival 2) (arrival 3) [] 1700000000000000000
      1700086400000000001 1700172800000000001 [] [] (world_with initiated) (inl refl) (inl refl)
      (inl refl) (omega arith) (omega arith) (omega arith) paced fresh given_up
