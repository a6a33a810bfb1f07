-- ===== src/Tests/Programs.antt =====
-- The theorems on the two programs, with a registry that is a list of names.
use mathlib.Core.Path.{subst}
use ach_orchestrator.Base.{
  Bool, true, false, Option, none, some, List, [], ◌∷◌, ◌≡◌, ◌||◌, inl, inr, refl, arith,
  Bool-cases, Option-cases, All, if◌then◌else◌,
}
use ach_orchestrator.Base.Text.{Text, codes, text_eq, text_eq_refl}
use ach_orchestrator.Process.{
  opened, closed, listening, shut_down, pool, redis_client, temporal_client, returned, panicked,
  run_main, open_after, serves,
}
use ach_orchestrator.Cmd.{Outside, env_or_default, new_repository, connect_redis}
use ach_orchestrator.Cmd.Server.{serve, server_main}
use ach_orchestrator.Cmd.Worker.{Registry, must_env, work, worker_main}
use ach_orchestrator.Cmd.Shutdown.{worker_end, server_end, server_main_lem, worker_main_panics}

unfoldable holds : Text → List Text → Bool
holds m [] = false
holds m (n ∷ names) = text_eq m n || holds m names

abbrev register : Text → List Text → Option (List Text)
register m names = if holds m names then none else some (m ∷ names)

unfoldable register_all : List Text → List Text → Option (List Text)
register_all [] names = some names
register_all (m ∷ ms) names = elim (register_all ms names) [
  | none ↦ none
  | some names' ↦ register m names'
]

-- A name stays.
holds_more :
    (m : Text) (ms names : List Text)
    → All (λ n. holds n names ≡ true) ms
    → All (λ n. holds n (m ∷ names) ≡ true) ms
unfolding holds
holds_more m [] names h = tt
holds_more m (n ∷ ms) names (a, h) = (ground arith, holds_more m ms names h)

registered :
    (m : Text) (ms names names' : List Text)
    → All (λ n. holds n names ≡ true) ms
    → register m names ≡ some names'
    → All (λ n. holds n names' ≡ true) (m ∷ ms)
unfolding holds
registered m ms names names' h e = elim (Bool-cases (holds m names)) [
  | inl taken ↦ absurd (ground arith)
  | inr free ↦
      subst (λ l. All (λ n. holds n l ≡ true) (m ∷ ms)) {x = m ∷ names} (ground arith)
        (ground (arith, text_eq_refl m), holds_more m ms names h)
]

struct_registered :
    (ms names names' : List Text)
    → register_all ms names ≡ some names'
    → All (λ m. holds m names' ≡ true) ms
unfolding register_all
struct_registered [] names names' e = tt
struct_registered (m ∷ ms) names names' e = elim (Option-cases (register_all ms names)) [
  | inl none_there ↦ absurd (ground arith)
  | inr (between, e') ↦
      registered m ms between names' (struct_registered ms names between e') (ground arith)
]

abbrev names_registry : Registry
names_registry = record {
  Names = List Text;
  empty = [];
  Has = λ m names. holds m names ≡ true;
  register_workflow = register;
  register_struct = register_all;
  register_activity = register;
  struct_adds = struct_registered;
  taken_panics = λ m names h. rw h refl;
}

-- Nothing is set but the database of the worker.
abbrev getenv : Text → Text
getenv key = if text_eq key (codes "DATABASE_URL") then codes "postgres://db" else []

-- Everything answers, and the servers run until a signal.
abbrev all_up : Outside
all_up = record {
  pool_new = λ _. none;
  pool_ping = λ _. none;
  redis_ping = λ _. none;
  dial = λ _. none;
  server_err = λ _. none;
  worker_run = none;
}

-- Redis does not answer.
abbrev redis_down : Outside
redis_down = record all_up { redis_ping = λ _. some (codes "connection refused") }

server_main_lem_example :
    let (e, effects) = run_main (server_main getenv redis_down) in
    (e, open_after effects [], serves effects)
    ≡ server_end none none (some (codes "connection refused")) none none
server_main_lem_example = server_main_lem getenv redis_down

worker_main_panics_example :
    let (e, effects) = run_main (worker_main getenv all_up names_registry) in
    (e, open_after effects [], serves effects)
    ≡ worker_end (getenv (codes "DATABASE_URL")) none none none none
worker_main_panics_example = worker_main_panics names_registry getenv all_up

crashes : (run_main (worker_main getenv all_up names_registry)).0 ≡ panicked
unfolding worker_main must_env env_or_default new_repository connect_redis work run_main holds
    register_all text_eq
crashes = refl

serves_all_up : run_main (server_main getenv all_up) ≡ (
  returned,
  opened pool
      ∷ opened redis_client
      ∷ opened temporal_client
      ∷ listening (codes ":8081")
      ∷ shut_down
      ∷ closed temporal_client
      ∷ closed redis_client
      ∷ closed pool
      ∷ [],
)
unfolding server_main serve env_or_default new_repository connect_redis run_main text_eq
serves_all_up = refl
