-- ===== src/Redis.antt =====
-- internal/redis/client.go: the store of trace numbers.
pub mod Idempotency
use ach_orchestrator.Base.{ℕ, ◌*◌, ◌++◌, Bool, true, false, ltb, if◌then◌else◌}
use ach_orchestrator.Base.Text.{Text, codes}
use ach_orchestrator.Domain.Rules.{hour}
use ach_orchestrator.World.{Action, pure, raise, on_error, ◌>>=◌, io, trace_exists}
use ach_orchestrator.Services.{Services}

-- `TraceTTL`
abbrev pub trace_ttl : ℕ
trace_ttl = 7 * 24 * hour

-- `TraceKeyPrefix`
abbrev pub trace_key_prefix : Text
trace_key_prefix = codes "ach:trace:"

-- `traceKey`
abbrev pub trace_key : Text → Text
trace_key trace_number = trace_key_prefix ++ trace_number

-- `Ping`
unfoldable pub ping : Action (Unit {0})
ping = io "redis PING"

module _ (env : Services) where
  open env use {exists, set_nx}

  -- `CheckIdempotency`
  unfoldable pub check_idempotency : Text → Action (Unit {0})
  check_idempotency trace_number = do
    val ← on_error "redis EXISTS" (exists (trace_key trace_number))
    if ltb 0 val then raise trace_exists else pure tt

  -- `StoreTraceNumber`: a key that was there already is no error.
  unfoldable pub store_trace_number : Text → Action (Unit {0})
  store_trace_number trace_number = do
    set ← on_error "redis SETNX" (set_nx (trace_key trace_number) (codes "1") trace_ttl)
    if set then pure tt else pure tt
