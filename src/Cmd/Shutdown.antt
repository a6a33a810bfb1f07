-- ===== src/Cmd/Shutdown.antt =====
-- How the two programs end, and what they leave open.
use ach_orchestrator.Base.{
  Bool, true, false, inl, inr, Option-cases, Option, none, some, List, [], ◌∷◌, ◌≡◌, refl, arith,
}
use ach_orchestrator.Base.Text.{Text, codes}
use ach_orchestrator.Process.{
  Resource, pool, redis_client, temporal_client, opened, Exit, returned, fatal, panicked, exit,
  Trace, run_main, open_after, serves, without,
}
use ach_orchestrator.Cmd.{Outside, env_or_default, new_repository, connect_redis}
use ach_orchestrator.Cmd.Server.{
  default_database_url, default_redis_addr, default_temporal, default_http_addr, serve, server_main,
}
use ach_orchestrator.Cmd.Worker.{
  worker_redis_addr, worker_temporal, Registry, activity_methods, worker_main, work, must_env,
}

-- How the server ends, by the errors of opening and pinging the pool, of pinging Redis, of dialling
-- Temporal and of the listener: the exit, what is left open, and whether it served requests.
abbrev pub server_end :
    (pool_new pool_ping redis_ping dial server_err : Option Text) → Exit × List Resource × Bool
server_end (some _) _ _ _ _ = (fatal "server: failed to connect to PostgreSQL", [], false)
server_end none (some _) _ _ _ = (fatal "server: failed to connect to PostgreSQL", [], false)
server_end none none (some _) _ _ =
    (fatal "server: failed to connect to Redis", redis_client ∷ pool ∷ [], false)
server_end none none none (some _) _ =
    (fatal "server: failed to connect to Temporal", redis_client ∷ pool ∷ [], false)
server_end none none none none (some _) =
    (fatal "server: fatal", temporal_client ∷ redis_client ∷ pool ∷ [], true)
server_end none none none none none = (returned, [], true)

-- How the worker ends, by the value of DATABASE_URL and the same errors.
abbrev pub worker_end :
    Text → (pool_new pool_ping redis_ping dial : Option Text) → Exit × List Resource × Bool
worker_end [] _ _ _ _ = (fatal "worker: required environment variable is not set", [], false)
worker_end (_ ∷ _) (some _) _ _ _ = (fatal "worker: connect to postgres", [], false)
worker_end (_ ∷ _) none (some _) _ _ = (fatal "worker: connect to postgres", [], false)
worker_end (_ ∷ _) none none (some _) _ =
    (fatal "worker: connect to redis", redis_client ∷ pool ∷ [], false)
worker_end (_ ∷ _) none none none (some _) =
    (fatal "worker: connect to temporal", redis_client ∷ pool ∷ [], false)
worker_end (_ ∷ _) none none none none = (panicked, [], false)

module _ (getenv : Text → Text) (outside : Outside) where
  -- `main` of the server, whatever the environment and the services are: it serves requests exactly
  -- if the pool, Redis and Temporal answered, in this order; it returns exactly if it served until a
  -- signal, and then nothing is left open; every other end is `log.Fatalf`, which leaves open what
  -- was opened before, except a pool that did not answer.
  pub server_main_lem :
      let (e, effects) = run_main (server_main getenv outside) in
      (e, open_after effects [], serves effects)
      ≡ server_end
          (outside.pool_new (env_or_default getenv (codes "DATABASE_URL") default_database_url))
          (outside.pool_ping (env_or_default getenv (codes "DATABASE_URL") default_database_url))
          (outside.redis_ping (env_or_default getenv (codes "REDIS_ADDR") default_redis_addr))
          (outside.dial (env_or_default getenv (codes "TEMPORAL_HOST_PORT") default_temporal))
          (outside.server_err (env_or_default getenv (codes "HTTP_ADDR") default_http_addr))
  unfolding server_main new_repository connect_redis serve run_main open_after serves without
  server_main_lem = ground arith

module _ (registry : Registry) where
  open registry use {
    Names, empty, struct_adds, taken_panics, register_workflow, register_struct, register_activity,
  }

  -- Once the methods of the struct are registered, the second registration panics.
  second_panics :
      (names names' : Names)
      → register_struct activity_methods names ≡ some names'
      → register_activity (codes "NotifyWebhook") names' ≡ none
  second_panics names names' e =
      let (_, (_, (_, (_, (there, _))))) = struct_adds activity_methods names names' e in
      taken_panics (codes "NotifyWebhook") names' there

  work_panics : (outside : Outside) (t : Trace) → work outside registry t ≡ (exit panicked, t)
  unfolding work
  work_panics outside t = elim (Option-cases (register_workflow (codes "PaymentWorkflow") empty)) [
    | inl e ↦ rw e refl
    | inr (names, e) ↦ elim (Option-cases (register_struct activity_methods names)) [
      | inl e' ↦ rw (e, e') refl
      | inr (names', e') ↦ rw (e, e', second_panics names names' e') refl
    ]
  ]

  -- The trace when the registrations begin.
  abbrev connected : Trace
  connected = record {
    effects = opened pool ∷ opened redis_client ∷ opened temporal_client ∷ [];
    deferred = temporal_client ∷ redis_client ∷ pool ∷ [];
  }

  -- `main` of the worker never takes a task from the queue and never returns. Without DATABASE_URL,
  -- or if the pool, Redis or Temporal does not answer, it ends in `log.Fatalf`. If all of them answer,
  -- it panics, since `RegisterActivity(acts)` has registered `NotifyWebhook` already when
  -- `RegisterActivity(acts.NotifyWebhook)` is called, and the panic leaves nothing open.
  pub worker_main_panics :
      (getenv : Text → Text) (outside : Outside)
      → let (e, effects) = run_main (worker_main getenv outside registry) in
        (e, open_after effects [], serves effects)
        ≡ worker_end
            (getenv (codes "DATABASE_URL"))
            (outside.pool_new (getenv (codes "DATABASE_URL")))
            (outside.pool_ping (getenv (codes "DATABASE_URL")))
            (outside.redis_ping (env_or_default getenv (codes "REDIS_ADDR") worker_redis_addr))
            (outside.dial (env_or_default getenv (codes "TEMPORAL_HOST_PORT") worker_temporal))
  unfolding worker_main must_env new_repository connect_redis run_main open_after serves without
  worker_main_panics getenv outside = ground (arith, work_panics outside connected)
