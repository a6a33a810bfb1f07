-- ===== src/Services/Simple.antt =====
-- Services that meet the contract: each call answers by the script of faults, a failed transaction
-- is rolled back, and an activity is run until it
-- succeeds, as often as its options allow.
use ach_orchestrator.Base.{
  ℕ, ◌-◌, ◌<◌, ◌%◌, ◌/◌, ◌*◌, zero, suc, ◌+◌, Bool, true, false, ◌∷◌, ◌≡◌, ◌⊎◌, inl, inr, refl, ap,
  sym, arith, if◌then◌else◌,
}
use ach_orchestrator.Base.Text.{Text, codes}
use ach_orchestrator.World.{
  World, Store, Result, ok, err, Error, Action, IsErr, pure, gets, modify, ◌>>=◌, ◌>>◌, io,
  Result-cases,
}
use ach_orchestrator.World.View.{view}
use ach_orchestrator.Services.Contract.{Atomic, Attempts, last, again, is_live, with_key, Services}

-- A commit, or a return to the store that was there before.
abbrev conclude : Store → Result (Unit {0}) × World → Result (Unit {0}) × World
conclude s (ok u, w) = (ok u, w)
conclude s (err e, w) = (err e, record w { store = s })

unfoldable pub begin_tx_func : Action (Unit {0}) → Action (Unit {0})
begin_tx_func body w = conclude w.store (body w)

pub atomic :
    (id : ℕ) (body : Action (Unit {0})) (w : World) → Atomic id body w (begin_tx_func body w)
unfolding begin_tx_func
atomic id body w = split (body w) refl
  where
    split : (o : Result (Unit {0}) × World) → body w ≡ o → Atomic id body w (conclude w.store o)
    split (ok u, w') e = inr (
      w,
      refl,
      ap (λ (o : Result (Unit {0}) × World). o.0) e,
      ap (λ (o : Result (Unit {0}) × World). view id o.1) (sym e),
    )
    split (err x, w') e = inl (tt, refl)

unfoldable pub exists : Text → Action ℕ
unfolding is_live io
exists k = do
  io "redis EXISTS"
  held ← gets (λ w. is_live k w.clock w.keys)
  pure (if held then 1 else 0)

pub exists_lem :
    (k : Text) (w : World)
    → ((exists k w).1.store ≡ w.store)
      × (IsErr (exists k w).0 ⊎ ((exists k w).0 ≡ ok (if is_live k w.clock w.keys then 1 else 0)))
unfolding exists
exists_lem k w = ground arith

unfoldable pub set_nx : Text → Text → ℕ → Action Bool
unfolding is_live io
set_nx k v ttl = do
  io "redis SETNX"
  held ← gets (λ w. is_live k w.clock w.keys)
  modify (λ w. if held then w else record w { store = with_key k ttl w })
  pure (if held then false else true)

pub set_nx_lem :
    (k v : Text) (ttl : ℕ) (w : World)
    → (IsErr (set_nx k v ttl w).0 × ((set_nx k v ttl w).1.store ≡ w.store))
      ⊎ (((set_nx k v ttl w).0 ≡ ok (if is_live k w.clock w.keys then false else true))
          × ((set_nx k v ttl w).1.store
              ≡ (if is_live k w.clock w.keys then w.store else with_key k ttl w)))
unfolding set_nx
set_nx_lem k v ttl w = ground arith

-- Up to `n` further runs after a failed one.
unfoldable pub retry : {A : Type 0} → ℕ → Action A → Action A
retry zero act w = act w
retry (suc n) act w = let (r, w') = act w in elim r [ ok a ↦ (ok a, w') | err e ↦ retry n act w' ]

retry_ok :
    {A : Type 0} (n : ℕ) (act : Action A) (w : World) {a : A}
    → (act w).0 ≡ ok a
    → retry (suc n) act w ≡ act w
unfolding retry
retry_ok n act w e = ground arith

retry_err :
    {A : Type 0} (n : ℕ) (act : Action A) (w : World) {x : Error}
    → (act w).0 ≡ err x
    → retry (suc n) act w ≡ retry n act (act w).1
unfolding retry
retry_err n act w e = ground arith

pub retry-Attempts :
    {A : Type 0} (n id : ℕ) (act : Action A) (w : World) → Attempts id act (retry n act w) (suc n) w
unfolding retry
retry-Attempts zero id act w = last w refl refl refl
retry-Attempts (suc n) id act w = elim (Result-cases (act w).0) [
  | inl (a, e) ↦ rw (retry_ok n act w e) (last w refl refl refl)
  | inr (x, e) ↦ rw (retry_err n act w e) (again w refl (retry-Attempts n id act (act w).1))
]

pub retry_within :
    {A : Type 0} (n id : ℕ) (act : Action A) (w : World)
    → 0 < n
    → Attempts id act (retry (n - 1) act w) n w
retry_within zero id act w h = absurd (omega arith)
retry_within (suc n) id act w h =
    let e : suc n - 1 ≡ n = omega arith in rw e (retry-Attempts n id act w)

unfoldable pub sleep : ℕ → Action (Unit {0})
unfolding io
sleep d = do io "workflow.Sleep"; modify (λ w. record w { clock = w.clock + d })

pub sleeps : (id d : ℕ) (w : World) → view id (sleep d w).1 ≡ view id w
unfolding sleep
sleeps id d w = ground arith

-- The contract can be met. The text of an id is 36 bytes, as that of a UUID is.
unfoldable pub simple : Services
unfolding begin_tx_func exists set_nx retry sleep
simple = record {
  begin_tx_func = begin_tx_func;
  atomic = atomic;
  exists = exists;
  exists_lem = exists_lem;
  set_nx = set_nx;
  set_nx_lem = set_nx_lem;
  execute = λ A o act. retry (o.maximum_attempts - 1) act;
  executes = λ A o. retry_within o.maximum_attempts;
  sleep = sleep;
  sleeps = sleeps;
  uuid_string = λ id. (b'a' + id % 26) ∷ codes "0000000-0000-4000-8000-000000000000";
  numeric = λ d. d;
  timestamptz = λ t. t / 1000 * 1000;
}
