-- ===== src/Redis/Idempotency.antt =====
-- What the two operations tell of each other.
use ach_orchestrator.Base.{ℕ, ◌+◌, ◌<◌, List, [], ◌∷◌, ◌++◌, true, false, ◌≡◌, ◌≢◌, ◌⊎◌, arith}
use ach_orchestrator.Base.Text.{Text, codes, text_eq_refl, text_eq_sound}
use ach_orchestrator.World.{World, ok, err, IsErr, trace_exists}
use ach_orchestrator.Services.{Services, is_live}
use ach_orchestrator.Redis.{trace_key, trace_ttl, check_idempotency, store_trace_number}

-- A key that was live stays live as long as its entry lasts.
is_live-set :
    (k : Text) (now later ttl : ℕ) (keys : List (Text × ℕ))
    → later < now + ttl
    → is_live k later ((k, now + ttl) ∷ keys) ≡ true
unfolding is_live
is_live-set k now later ttl keys h = ground (arith, text_eq_refl k)

is_live-append :
    (k : Text) (now : ℕ) (newer keys : List (Text × ℕ))
    → is_live k now keys ≡ true
    → is_live k now (newer ++ keys) ≡ true
unfolding is_live
is_live-append k now [] keys h = h
is_live-append k now (entry ∷ newer) keys h = ground (arith, is_live-append k now newer keys h)

-- Another trace number has another key.
trace_key-injective : (t other : Text) → trace_key t ≡ trace_key other → t ≡ other
trace_key-injective t other e = cc e

pub is_live-other :
    (t other : Text) (now expiry : ℕ) (keys : List (Text × ℕ))
    → t ≢ other
    → is_live (trace_key other) now ((trace_key t, expiry) ∷ keys)
      ≡ is_live (trace_key other) now keys
unfolding is_live
is_live-other t other now expiry keys apart =
    ground (arith, text_eq_sound (trace_key t) (trace_key other), trace_key-injective t other)

module _ (env : Services) where
  open env use {exists, exists_lem, set_nx_lem}

  -- A check changes nothing. If the key is live it reports that the trace exists, or Redis has
  -- failed. If it is not live, it does not report that it exists.
  pub check_live :
      (t : Text) (w : World)
      → ((check_idempotency env t w).1.store ≡ w.store)
        × (is_live (trace_key t) w.clock w.keys ≡ true
            → IsErr (exists (trace_key t) w).0 ⊎ ((check_idempotency env t w).0 ≡ err trace_exists))
        × (is_live (trace_key t) w.clock w.keys ≡ false
            → (check_idempotency env t w).0 ≢ err trace_exists)
  unfolding check_idempotency
  check_live t w = ground (arith, exists_lem (trace_key t) w)

  stored_keys :
      (t : Text) (w : World)
      → is_live (trace_key t) w.clock w.keys ≡ false
      → (store_trace_number env t w).0 ≡ ok tt
      → (store_trace_number env t w).1.keys ≡ (trace_key t, w.clock + trace_ttl) ∷ w.keys
  unfolding store_trace_number
  stored_keys t w fresh stored = ground (arith, set_nx_lem (trace_key t) (codes "1") trace_ttl w)

  -- `StoreTraceNumber`, for a trace number that Redis does not hold: if it succeeds, then every check
  -- of this trace number until `TraceTTL` has passed reports `ErrTraceExists`, unless the EXISTS
  -- call of Redis fails, whatever other keys are written in between; and another trace number is held afterwards exactly
  -- if it was held before.
  pub store_then_check :
      (t other : Text) (w w' : World) (newer : List (Text × ℕ))
      → is_live (trace_key t) w.clock w.keys ≡ false
      → (store_trace_number env t w).0 ≡ ok tt
      → w'.keys ≡ newer ++ (store_trace_number env t w).1.keys
      → w'.clock < w.clock + trace_ttl
      → t ≢ other
      → (IsErr (exists (trace_key t) w').0 ⊎ ((check_idempotency env t w').0 ≡ err trace_exists))
        × (is_live (trace_key other) w.clock (store_trace_number env t w).1.keys
            ≡ is_live (trace_key other) w.clock w.keys)
  store_then_check t other w w' newer fresh stored later soon apart =
      let keys = stored_keys t w fresh stored in
      let live =
        is_live-append (trace_key t) w'.clock newer ((trace_key t, w.clock + trace_ttl) ∷ w.keys)
          (is_live-set (trace_key t) w.clock w'.clock trace_ttl w.keys soon) in
      (
        (check_live t w').1 (rw (later, keys) live),
        rw keys (is_live-other t other w.clock (w.clock + trace_ttl) w.keys apart),
      )
