-- ===== src/Api/Health.antt =====
-- internal/api/health.go: the three goroutines of the handler, one step at a time, and its answer.
-- Every call returns, since its context ends after three seconds.
pub mod Interleavings
pub mod Answer
use ach_orchestrator.Base.{
  ℕ, Bool, true, false, not, ◌&&◌, ◌||◌, Option, none, some, ◌++◌, if◌then◌else◌,
}
use ach_orchestrator.Base.Text.{Text, codes, text_eq}

-- What the handler asks.
pub data Dependency : Type 0 where
  postgres redis temporal : Dependency

-- A variable for each of them.
pub record Each (A : Type 0) : Type 0 where
  pub on_postgres : A
  pub on_redis : A
  pub on_temporal : A

abbrev pub of : {A : Type 0} → Dependency → Each A → A
of postgres e = e.on_postgres
of redis e = e.on_redis
of temporal e = e.on_temporal

abbrev pub with_value : {A : Type 0} → Dependency → A → Each A → Each A
with_value postgres a e = record e { on_postgres = a }
with_value redis a e = record e { on_redis = a }
with_value temporal a e = record e { on_temporal = a }

-- How far a goroutine has come: in its call; with the error of it; inside of `mu.Lock()`, before
-- and after it sets its status; behind `mu.Unlock()` and `wg.Done()`, which are one step.
pub data Progress : Type 0 where
  calling : Progress
  failed : Text → Progress
  locked : Text → Progress
  written : Progress
  done : Progress

-- `pgStatus`, `rdStatus` and `tpStatus`; the goroutines; whether `mu` is held.
pub record Check : Type 0 where
  pub status : Each Text
  pub progress : Each Progress
  pub mu : Bool

abbrev pub each : {A : Type 0} → A → Each A
each a = record { on_postgres = a; on_redis = a; on_temporal = a }

abbrev pub check_started : Check
check_started = record { status = each (codes "ok"); progress = each calling; mu = false }

abbrev pub error_text : Text → Text
error_text message = codes "error: " ++ message

-- The next step of the goroutine of `i`, given the error that its call returns: `none` if it has
-- none to make, because it is done or `mu` is held.
abbrev pub advance_from : Option Text → Dependency → Progress → Check → Option Check
advance_from none i calling s = some (record s { progress = with_value i done s.progress })
advance_from (some message) i calling s =
    some (record s { progress = with_value i (failed message) s.progress })
advance_from answer i (failed message) s =
    if s.mu
    then none
    else some (record s { progress = with_value i (locked message) s.progress; mu = true })
advance_from answer i (locked message) s = some (record s {
  status = with_value i (error_text message) s.status;
  progress = with_value i written s.progress;
})
advance_from answer i written s =
    some (record s { progress = with_value i done s.progress; mu = false })
advance_from answer i done s = none

unfoldable pub advance : Each (Option Text) → Dependency → Check → Option Check
advance answers i s = advance_from (of i answers) i (of i s.progress) s

-- `wg.Wait()` returns.
abbrev pub is_done : Progress → Bool
is_done done = true
is_done _ = false

abbrev pub all_done : Check → Bool
all_done s =
    is_done s.progress.on_postgres && is_done s.progress.on_redis && is_done s.progress.on_temporal

-- `type healthResponse struct`, with the status code.
pub record HealthResponse : Type 0 where
  pub status : Text
  pub dependencies : Each Text
  pub status_code : ℕ

-- What the handler writes once all goroutines are done.
unfoldable pub health_response : Each Text → HealthResponse
health_response status =
    if not (text_eq status.on_postgres (codes "ok"))
      || (not (text_eq status.on_redis (codes "ok"))
          || not (text_eq status.on_temporal (codes "ok")))
    then record { status = codes "degraded"; dependencies = status; status_code = 503 }
    else record { status = codes "ok"; dependencies = status; status_code = 200 }
