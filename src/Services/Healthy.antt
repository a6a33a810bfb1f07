-- ===== src/Services/Healthy.antt =====
-- Services on a day on which nothing fails.
use ach_orchestrator.Base.{ℕ, zero, suc, ◌+◌, ◌-◌, true, false, [], ◌≡◌, refl, arith}
use Prim.Native.String.{String}
use ach_orchestrator.Base.Text.{Text}
use ach_orchestrator.World.{World, ok, Action, io}
use ach_orchestrator.Services.Contract.{ActivityOptions, is_live, with_key, Services}
use ach_orchestrator.Services.Simple.{simple, begin_tx_func, exists, set_nx, sleep, retry}

-- A transaction whose body succeeds is committed, an activity whose first run succeeds is run once,
-- and Redis and the timers answer, where no further call is to fail. Nothing else happens meanwhile.
pub record Healthy (env : Services) : Type 1 where
  pub commits :
      (body : Action (Unit {0})) (w : World)
      → (body w).0 ≡ ok tt
      → env.begin_tx_func body w ≡ body w
  pub runs_once :
      (A : Type 0) (o : ActivityOptions) (act : Action A) (w : World) (a : A)
      → (act w).0 ≡ ok a
      → env.execute A o act w ≡ act w
  pub finds :
      (k : Text) (w : World)
      → w.faults ≡ []
      → is_live k w.clock w.keys ≡ false
      → env.exists k w ≡ (ok 0, w)
  pub sets :
      (k v : Text) (ttl : ℕ) (w : World)
      → w.faults ≡ []
      → is_live k w.clock w.keys ≡ false
      → env.set_nx k v ttl w ≡ (ok true, record w { store = with_key k ttl w })
  pub wakes :
      (d : ℕ) (w : World)
      → w.faults ≡ []
      → env.sleep d w ≡ (ok tt, record w { clock = w.clock + d })

-- A call that does not fail changes nothing.
pub io-quiet : (what : String) (w : World) → w.faults ≡ [] → io what w ≡ (ok tt, w)
unfolding io
io-quiet what w h = ground arith

retry-once :
    {A : Type 0} (n : ℕ) (act : Action A) (w : World) (a : A)
    → (act w).0 ≡ ok a
    → retry n act w ≡ act w
unfolding retry
retry-once zero act w a e = refl
retry-once (suc n) act w a e = ground arith

exists-quiet :
    (k : Text) (w : World)
    → w.faults ≡ []
    → is_live k w.clock w.keys ≡ false
    → exists k w ≡ (ok 0, w)
unfolding exists
exists-quiet k w h e = ground arith

set_nx-quiet :
    (k v : Text) (ttl : ℕ) (w : World)
    → w.faults ≡ []
    → is_live k w.clock w.keys ≡ false
    → set_nx k v ttl w ≡ (ok true, record w { store = with_key k ttl w })
unfolding set_nx
set_nx-quiet k v ttl w h e = ground arith

sleep-quiet :
    (d : ℕ) (w : World) → w.faults ≡ [] → sleep d w ≡ (ok tt, record w { clock = w.clock + d })
unfolding sleep
sleep-quiet d w h = ground arith

begin_tx-quiet :
    (body : Action (Unit {0})) (w : World) → (body w).0 ≡ ok tt → begin_tx_func body w ≡ body w
unfolding begin_tx_func
begin_tx-quiet body w e = ground arith

-- The simple services are such.
pub simple-Healthy : Healthy simple
unfolding simple
simple-Healthy = record {
  commits = begin_tx-quiet;
  runs_once = λ A o act w a e. retry-once (o.maximum_attempts - 1) act w a e;
  finds = exists-quiet;
  sets = set_nx-quiet;
  wakes = sleep-quiet;
}
