-- ===== src/Services/Contract.antt =====
-- The interface: operations and laws.
use ach_orchestrator.Base.{
  ℕ, suc, ◌+◌, ◌<◌, Bool, true, false, List, [], ◌∷◌, ◌≡◌, ◌⊎◌, ltb, ◌&&◌, ◌||◌, if◌then◌else◌,
}
use ach_orchestrator.Base.Text.{Text, text_eq}
use ach_orchestrator.Domain.Payment.{Decimal}
use ach_orchestrator.World.{World, Store, Result, ok, Action, IsErr}
use ach_orchestrator.World.View.{view}

-- All or nothing: the call ended in an error and left the payment `id` alone, or the body ran to
-- its end from a world that agrees on `id`, and what it did is committed. The answer to a commit
-- can get lost, so the second case may report an error too.
abbrev pub Atomic : ℕ → Action (Unit {0}) → World → Result (Unit {0}) × World → Type 0
Atomic id body w out =
    (IsErr out.0 × (view id out.1 ≡ view id w))
    ⊎ ((w₁ : World) × (view id w₁ ≡ view id w)
        × ((body w₁).0 ≡ ok tt)
        × (view id out.1 ≡ view id (body w₁).1))

-- The fields of workflow.ActivityOptions and of its RetryPolicy that the program sets. The times
-- are nanoseconds, and the first is StartToCloseTimeout.
pub record ActivityOptions : Type 0 where
  pub timeout : ℕ
  pub initial_interval : ℕ
  pub backoff_coefficient : ℕ
  pub maximum_interval : ℕ
  pub maximum_attempts : ℕ

-- At-least-once execution: an activity runs any number of times up to the limit. Its result is that
-- of the last run, or an error if Temporal gives up. Between the runs the world moves on, but
-- nobody else touches what belongs to the payment `id`.
pub data Attempts {A : Type 0} (id : ℕ) (act : Action A) (out : Result A × World)
    : ℕ → World → Type 0 where
  gave_up : {n : ℕ} {w : World} → IsErr out.0 → view id out.1 ≡ view id w → Attempts id act out n w
  last :
      {n : ℕ} {w : World} (w₁ : World)
      → view id w₁ ≡ view id w
      → out.0 ≡ (act w₁).0
      → view id out.1 ≡ view id (act w₁).1
      → Attempts id act out (suc n) w
  again :
      {n : ℕ} {w : World} (w₁ : World)
      → view id w₁ ≡ view id w
      → Attempts id act out n (act w₁).1
      → Attempts id act out (suc n) w

-- The key is held at this time.
unfoldable pub is_live : Text → ℕ → List (Text × ℕ) → Bool
is_live k now [] = false
is_live k now ((j, expiry) ∷ keys) = text_eq j k && ltb now expiry || is_live k now keys

abbrev pub with_key : Text → ℕ → World → Store
with_key k ttl w = record (w.store) { keys = (k, w.clock + ttl) ∷ w.keys }

pub record Services : Type 1 where
  -- pgx.BeginTxFunc
  pub begin_tx_func : Action (Unit {0}) → Action (Unit {0})
  pub atomic :
      (id : ℕ) (body : Action (Unit {0})) (w : World) → Atomic id body w (begin_tx_func body w)
  -- EXISTS
  pub exists : Text → Action ℕ
  pub exists_lem :
      (k : Text) (w : World)
      → ((exists k w).1.store ≡ w.store)
        × (IsErr (exists k w).0 ⊎ ((exists k w).0 ≡ ok (if is_live k w.clock w.keys then 1 else 0)))
  -- SET NX with a time to live
  pub set_nx : Text → Text → ℕ → Action Bool
  pub set_nx_lem :
      (k v : Text) (ttl : ℕ) (w : World)
      → (IsErr (set_nx k v ttl w).0 × ((set_nx k v ttl w).1.store ≡ w.store))
        ⊎ (((set_nx k v ttl w).0 ≡ ok (if is_live k w.clock w.keys then false else true))
            × ((set_nx k v ttl w).1.store
                ≡ (if is_live k w.clock w.keys then w.store else with_key k ttl w)))
  -- workflow.ExecuteActivity(…).Get under the options. A limit of 0 is none.
  pub execute : (A : Type 0) → ActivityOptions → Action A → Action A
  pub executes :
      (A : Type 0) (o : ActivityOptions) (id : ℕ) (act : Action A) (w : World)
      → 0 < o.maximum_attempts
      → Attempts id act (execute A o act w) o.maximum_attempts w
  -- workflow.Sleep
  pub sleep : ℕ → Action (Unit {0})
  pub sleeps : (id d : ℕ) (w : World) → view id (sleep d w).1 ≡ view id w
  -- uuid.UUID.String
  pub uuid_string : ℕ → Text
  -- What PostgreSQL keeps of a value in a column of the type NUMERIC(19,4) and TIMESTAMPTZ
  pub numeric : Decimal → Decimal
  pub timestamptz : ℕ → ℕ
