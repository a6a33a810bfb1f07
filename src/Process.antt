-- ===== src/Process.antt =====
-- A program's `main` as a function: what it does to the outside, one effect after the other, with its
-- deferred calls and the way it ends.
use Prim.Native.String.{String}
use ach_orchestrator.Base.{
  Bool, true, false, Option, none, some, List, [], ◌∷◌, ◌++◌, map, if◌then◌else◌,
}
use ach_orchestrator.Base.Text.{Text}

-- What a program holds open.
pub data Resource : Type 0 where
  pool redis_client temporal_client : Resource

pub data Effect : Type 0 where
  opened closed : Resource → Effect
  listening : Text → Effect
  shut_down : Effect
  polling : Text → Effect

-- The end of `main`: a return, `log.Fatalf` with the fixed part of its message, or a panic.
pub data Exit : Type 0 where
  returned : Exit
  fatal : String → Exit
  panicked : Exit

pub data Outcome (A : Type 0) : Type 0 where
  value : A → Outcome A
  exit : Exit → Outcome A

-- The effects so far, and what the deferred calls will close, the last one first.
pub record Trace : Type 0 where
  pub effects : List Effect
  pub deferred : List Resource

abbrev pub Main : Type 0 → Type 0
Main A = Trace → Outcome A × Trace

abbrev pub pure : {A : Type 0} → A → Main A
pure a t = (value a, t)

infixl 5 ◌>>=◌ ◌>>◌
abbrev pub ◌>>=◌ : {A B : Type 0} → Main A → (A → Main B) → Main B
◌>>=◌ m f t = let (r, t') = m t in elim r [ value a ↦ f a t' | exit e ↦ (exit e, t') ]

abbrev pub ◌>>◌ : {A B : Type 0} → Main A → Main B → Main B
m >> k = m >>= λ _. k

abbrev pub emit : Effect → Main (Unit {0})
emit e t = (value tt, record t { effects = t.effects ++ e ∷ [] })

-- `defer r.Close()`
abbrev pub defer : Resource → Main (Unit {0})
defer r t = (value tt, record t { deferred = r ∷ t.deferred })

-- `log.Fatalf`
abbrev pub fatalf : {A : Type 0} → String → Main A
fatalf message t = (exit (fatal message), t)

abbrev pub panic : {A : Type 0} → Main A
panic t = (exit panicked, t)

-- `if err != nil { log.Fatalf(…) }`
abbrev pub or_fatal : String → Option Text → Main (Unit {0})
or_fatal message none = pure tt
or_fatal message (some _) = fatalf message

-- A return and a panic run the deferred calls; `log.Fatalf` ends the process without them.
abbrev pub unwound : Exit → Trace → Exit × List Effect
unwound (fatal message) t = (fatal message, t.effects)
unwound e t = (e, t.effects ++ map closed t.deferred)

abbrev ended : Outcome (Unit {0}) × Trace → Exit × List Effect
ended (value _, t) = unwound returned t
ended (exit e, t) = unwound e t

unfoldable pub run_main : Main (Unit {0}) → Exit × List Effect
run_main m = ended (m (record { effects = []; deferred = [] }))

-- What is open after the effects, the last opened first.
abbrev pub same_resource : Resource → Resource → Bool
same_resource pool pool = true
same_resource redis_client redis_client = true
same_resource temporal_client temporal_client = true
same_resource _ _ = false

unfoldable pub without : Resource → List Resource → List Resource
without r [] = []
without r (q ∷ qs) = if same_resource r q then qs else q ∷ without r qs

unfoldable pub open_after : List Effect → List Resource → List Resource
unfolding without
open_after [] held = held
open_after (opened r ∷ es) held = open_after es (r ∷ held)
open_after (closed r ∷ es) held = open_after es (without r held)
open_after (listening _ ∷ es) held = open_after es held
open_after (shut_down ∷ es) held = open_after es held
open_after (polling _ ∷ es) held = open_after es held

-- Whether the program got as far as to serve requests or tasks.
unfoldable pub serves : List Effect → Bool
serves [] = false
serves (listening _ ∷ es) = true
serves (polling _ ∷ es) = true
serves (_ ∷ es) = serves es
