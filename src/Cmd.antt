-- ===== src/Cmd.antt =====
-- cmd/server and cmd/worker: what the programs connect to, in which order, and how they end.
pub mod Server
pub mod Worker
pub mod Shutdown
use ach_orchestrator.Base.{Bool, true, false, Option, none, some, ◌++◌, [], ◌∷◌}
use ach_orchestrator.Base.Text.{Text, codes}
use ach_orchestrator.Process.{
  Effect, opened, closed, pool, redis_client, Main, pure, ◌>>=◌, ◌>>◌, emit,
}

-- What the services answer when the programs start: the error of each call, or none. The last one
-- is what ends the wait for a signal: an error of the HTTP server, or `none` for the signal itself.
pub record Outside : Type 0 where
  pub pool_new : Text → Option Text
  pub pool_ping : Text → Option Text
  pub redis_ping : Text → Option Text
  pub dial : Text → Option Text
  pub server_err : Text → Option Text
  pub worker_run : Option Text

module _ (getenv : Text → Text) where
  -- `envOrDefault`, in both programs
  abbrev pub non_empty_or : Text → Text → Text
  non_empty_or fallback [] = fallback
  non_empty_or fallback (c ∷ v) = c ∷ v

  unfoldable pub env_or_default : Text → Text → Text
  env_or_default key fallback = non_empty_or fallback (getenv key)

module _ (outside : Outside) where
  -- `db.NewRepository`; the pool is closed again if it does not answer.
  abbrev pub pinged : Option Text → Main (Option Text)
  pinged none = pure none
  pinged (some message) = do emit (closed pool); pure (some (codes "db: ping: " ++ message))

  abbrev pub pool_made : Text → Option Text → Main (Option Text)
  pool_made dsn none = do emit (opened pool); pinged (outside.pool_ping dsn)
  pool_made dsn (some message) = pure (some (codes "db: open pool: " ++ message))

  unfoldable pub new_repository : Text → Main (Option Text)
  new_repository dsn = pool_made dsn (outside.pool_new dsn)

  -- `redis.NewClient`, which connects later, and `Ping`.
  unfoldable pub connect_redis : Text → Main (Option Text)
  connect_redis addr = do emit (opened redis_client); pure (outside.redis_ping addr)
