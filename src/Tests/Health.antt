-- ===== src/Tests/Health.antt =====
-- The theorems on the health check at a concrete interleaving.
use ach_orchestrator.Base.{◌≤◌, true, false, Option, none, some, ◌≡◌, ◌⊎◌, refl}
use ach_orchestrator.Base.Text.{codes, text_eq, Text}
use ach_orchestrator.Api.Health.{
  Dependency, postgres, redis, temporal, Each, each, done, Check, error_text, advance, all_done,
  health_response,
}
use ach_orchestrator.Api.Health.Interleavings.{Reached, at_start, stepped}
use ach_orchestrator.Api.Health.Answer.{reference, health_response-reference, advance_progress}

-- Redis does not answer.
abbrev answers : Each (Option Text)
answers = record { on_postgres = none; on_redis = some (codes "timeout"); on_temporal = none }

-- Its goroutine starts between the two others and ends last.
abbrev last_check : Check
last_check = record {
  status = record {
    on_postgres = codes "ok";
    on_redis = error_text (codes "timeout");
    on_temporal = codes "ok";
  };
  progress = each done;
  mu = false;
}

interleaved : Reached answers last_check 6
unfolding advance
interleaved =
    stepped redis
      (stepped redis
        (stepped redis (stepped postgres (stepped redis (stepped temporal at_start refl) refl) refl)
          refl)
        refl)
      refl

degraded : (health_response last_check.status).status_code ≡ 503
unfolding health_response text_eq
degraded = refl

health_response-reference_example : health_response last_check.status ≡ reference answers
health_response-reference_example = health_response-reference answers interleaved refl

advance_progress_example :
    (6 ≤ 12)
    × ((all_done last_check ≡ true)
        ⊎ ((i : Dependency) × (s' : Check) × (advance answers i last_check ≡ some s')))
advance_progress_example = advance_progress answers interleaved
