-- ===== src/Cmd/Worker.antt =====
-- cmd/worker/main.go
use ach_orchestrator.Base.{Option, none, some, List, [], ◌∷◌, ◌≡◌, All}
use ach_orchestrator.Base.Text.{Text, codes}
use ach_orchestrator.Process.{
  opened, polling, pool, redis_client, temporal_client, Main, pure, ◌>>=◌, ◌>>◌, emit, defer,
  fatalf, panic, or_fatal,
}
use ach_orchestrator.Cmd.{Outside, env_or_default, new_repository, connect_redis}

abbrev pub worker_redis_addr : Text
worker_redis_addr = codes "localhost:6379"

abbrev pub worker_temporal : Text
worker_temporal = codes "localhost:7233"

-- `domain.TemporalTaskQueue`
abbrev pub task_queue : Text
task_queue = codes "ach-payment-queue"

-- The exported methods of `*Activities`.
abbrev pub activity_methods : List Text
activity_methods =
    codes "SubmitToACH"
    ∷ codes "PersistStateTransition"
    ∷ codes "CheckIdempotency"
    ∷ codes "StoreTraceNumber"
    ∷ codes "NotifyWebhook"
    ∷ []

-- The registry of the Temporal worker. A registration may panic, which is `none`. The activities of
-- a struct are registered under the names of its methods, and the documentation says that a name
-- which is taken makes a registration panic.
pub record Registry : Type 1 where
  pub Names : Type 0
  pub empty : Names
  pub Has : Text → Names → Type 0
  pub register_workflow : Text → Names → Option Names
  pub register_struct : List Text → Names → Option Names
  pub register_activity : Text → Names → Option Names
  pub struct_adds :
      (methods : List Text) (names names' : Names)
      → register_struct methods names ≡ some names'
      → All (λ m. Has m names') methods
  pub taken_panics : (m : Text) (names : Names) → Has m names → register_activity m names ≡ none

module _ (getenv : Text → Text) where
  -- `mustEnv`
  abbrev pub given_or_fatal : Text → Main Text
  given_or_fatal [] = fatalf "worker: required environment variable is not set"
  given_or_fatal (c ∷ v) = pure (c ∷ v)

  unfoldable pub must_env : Text → Main Text
  must_env key = given_or_fatal (getenv key)

module _ (outside : Outside) (registry : Registry) where
  open registry use {Names, empty, register_workflow, register_struct, register_activity}

  abbrev pub or_panic : Option Names → Main Names
  or_panic none = panic
  or_panic (some names) = pure names

  -- The registrations and `Run`.
  unfoldable pub work : Main (Unit {0})
  work = do
    names ← or_panic (register_workflow (codes "PaymentWorkflow") empty)
    names ← or_panic (register_struct activity_methods names)
    _ ← or_panic (register_activity (codes "NotifyWebhook") names)
    emit (polling task_queue)
    or_fatal "worker: run error" outside.worker_run

module _ (getenv : Text → Text) (outside : Outside) (registry : Registry) where
  -- `main`
  unfoldable pub worker_main : Main (Unit {0})
  unfolding env_or_default must_env new_repository connect_redis work
  worker_main =
      let temporal = env_or_default getenv (codes "TEMPORAL_HOST_PORT") worker_temporal in
      let redis_addr = env_or_default getenv (codes "REDIS_ADDR") worker_redis_addr in
      do
        database_url ← must_env getenv (codes "DATABASE_URL")
        failed_pool ← new_repository outside database_url
        or_fatal "worker: connect to postgres" failed_pool
        defer pool
        failed_ping ← connect_redis outside redis_addr
        or_fatal "worker: connect to redis" failed_ping
        defer redis_client
        or_fatal "worker: connect to temporal" (outside.dial temporal)
        emit (opened temporal_client)
        defer temporal_client
        work outside registry
