-- ===== src/Simulator/Files.antt =====
-- The signals of a whole return file, and the trace numbers that it can carry.
use ach_orchestrator.Base.{
  ℕ, suc, ◌+◌, ◌/◌, ◌%◌, ◌≤◌, Option, none, some, List, [], ◌∷◌, ◌++◌, ◌≡◌, ◌⊎◌, inl, inr, refl, ap,
  arith, length, length-append, length-take, take, All, Option-cases,
}
use ach_orchestrator.Base.Text.{Text, codes}
use ach_orchestrator.Base.Decimal.{decimal, digits}
use ach_orchestrator.World.{
  World, Result, ok, err, wrap, Error, failed, Action, Result-cases, ◌>>=◌, ◌>>◌,
}
use ach_orchestrator.Services.{Services}
use ach_orchestrator.Nacha.Parser.{ReturnEntry, ParseError, parse_file}
use ach_orchestrator.Nacha.Fields.{Fits, parse_file-Fits}
use ach_orchestrator.Workflow.Types.{ReturnSignal}
use ach_orchestrator.Workflow.Helpers.{trace_text}
use ach_orchestrator.Simulator.{signal_entry, signal_entries, simulate_return_from_file}

module _ (uuid_string : ℕ → Text) where
  -- The signals for the entries whose trace number is known, in the order of the file.
  abbrev pub signal_for :
      Option ℕ → ReturnEntry → List (Text × ReturnSignal) → List (Text × ReturnSignal)
  signal_for none e rest = rest
  signal_for (some id) e rest =
      (uuid_string id, record { r_code = e.r_code; trace_number = e.trace_number }) ∷ rest

  abbrev pub signals_for : (Text → Option ℕ) → List ReturnEntry → List (Text × ReturnSignal)
  signals_for known [] = []
  signals_for known (e ∷ es) = signal_for (known e.trace_number) e (signals_for known es)

module _ (signal_workflow : Text → ReturnSignal → Action (Unit {0})) (uuid_string : ℕ → Text) where
  -- The signals are sent one after the other, and the first that fails is the last.
  pub data Delivers (out : Result (Unit {0}) × World)
      : List (Text × ReturnSignal) → World → Type 0 where
    done : {w : World} → out ≡ (ok tt, w) → Delivers out [] w
    next :
        {to : Text} {s : ReturnSignal} {rest : List (Text × ReturnSignal)} {w : World}
        → (signal_workflow to s w).0 ≡ ok tt
        → Delivers out rest (signal_workflow to s w).1
        → Delivers out ((to, s) ∷ rest) w
    stop :
        {to : Text} {s : ReturnSignal} {rest : List (Text × ReturnSignal)} {w : World} (e : Error)
        → (signal_workflow to s w).0 ≡ err e
        → out ≡ (err (wrap "simulator: signal failed" e), (signal_workflow to s w).1)
        → Delivers out ((to, s) ∷ rest) w

  entry-Delivers :
      (id : ℕ) (e : ReturnEntry) (rest : List (Text × ReturnSignal)) (others : Action (Unit {0}))
      (w : World)
      → ((w' : World) → Delivers (others w') rest w')
      → Delivers
          ((signal_entry signal_workflow uuid_string (some id) e >> others) w)
          ((uuid_string id, record { r_code = e.r_code; trace_number = e.trace_number }) ∷ rest)
          w
  unfolding signal_entry
  entry-Delivers id e rest others w h =
      let s : ReturnSignal = record { r_code = e.r_code; trace_number = e.trace_number } in
      elim (Result-cases (signal_workflow (uuid_string id) s w).0) [
        | inl (u, sent) ↦ next sent (rw (sent, ◌>>=◌) (h (signal_workflow (uuid_string id) s w).1))
        | inr (x, bad) ↦ stop x bad (rw (bad, ◌>>=◌) refl)
      ]

  signal_entries-Delivers :
      (known : Text → Option ℕ) (es : List ReturnEntry) (w : World)
      → Delivers
          (signal_entries signal_workflow uuid_string known es w)
          (signals_for uuid_string known es)
          w
  unfolding signal_entries signal_entry
  signal_entries-Delivers known [] w = done refl
  signal_entries-Delivers known (e ∷ es) w = elim (Option-cases (known e.trace_number)) [
    | inl unknown ↦ rw unknown (signal_entries-Delivers known es w)
    | inr (id, found) ↦ rw found (
        entry-Delivers id e (signals_for uuid_string known es)
          (signal_entries signal_workflow uuid_string known es) w
          (signal_entries-Delivers known es))
  ]

  -- `SimulateReturnFromFile` refuses a file that `ParseFile` refuses and sends nothing. Of any other
  -- file it signals the entries with a known trace number, in their order and with their codes, up
  -- to the first signal that fails, whose error it returns; if none fails it returns nil.
  pub simulate_return_from_file_lem :
      (content : Text) (known : Text → Option ℕ) (w : World)
      → let out = simulate_return_from_file signal_workflow uuid_string content known w in
        ((x : ParseError) × (parse_file content ≡ inl x)
          × (out ≡ (err (failed "simulator: failed to parse return file"), w)))
        ⊎ ((es : List ReturnEntry) × (parse_file content ≡ inr es)
            × Delivers out (signals_for uuid_string known es) w)
  unfolding simulate_return_from_file
  simulate_return_from_file_lem content known w = split (parse_file content) refl
    where
      split :
          (o : ParseError ⊎ List ReturnEntry)
          → parse_file content ≡ o
          → let out = simulate_return_from_file signal_workflow uuid_string content known w in
            ((x : ParseError) × (parse_file content ≡ inl x)
              × (out ≡ (err (failed "simulator: failed to parse return file"), w)))
            ⊎ ((es : List ReturnEntry) × (parse_file content ≡ inr es)
                × Delivers out (signals_for uuid_string known es) w)
      split (inl x) e = inl (x, e, rw e refl)
      split (inr es) e = inr (es, e, rw e (signal_entries-Delivers known es w))

digits-nonempty : (f n : ℕ) → 1 ≤ length (digits (suc f) n)
unfolding digits
digits-nonempty f n = ground (arith, length-append (digits f (n / 10)) ((b'0' + n % 10) ∷ []))

-- The trace number is one that `generateTraceNumber` makes.
abbrev pub IsGenerated : Services → Text → Type 0
IsGenerated env t = (n : ℕ) × (id : ℕ) × (ts : ℕ) × (t ≡ trace_text env n id ts)

module _ (env : Services) (long_ids : (id : ℕ) → 8 ≤ length (env.uuid_string id)) where
  open env use {uuid_string}

  -- "ACH-", eight characters, "-r", a number, "-" and a number.
  length-trace_text : (n id ts : ℕ) → 17 ≤ length (trace_text env n id ts)
  unfolding trace_text decimal
  length-trace_text n id ts = omega (
    arith,
    length-take 8 (uuid_string id) (long_ids id),
    length-append (take 8 (uuid_string id))
        (codes "-r" ++ (digits 20 n ++ (codes "-" ++ digits 20 ts))),
    length-append (digits 20 n) (codes "-" ++ digits 20 ts),
    digits-nonempty 19 n,
    digits-nonempty 19 ts,
  )

  narrow-unknown :
      (known : Text → Option ℕ)
      → ((t : Text) (id : ℕ) → known t ≡ some id → IsGenerated env t)
      → (e : ReturnEntry) → Fits e
      → known e.trace_number ≡ none
  narrow-unknown known own e fits = elim (Option-cases (known e.trace_number)) [
    | inl unknown ↦ unknown
    | inr (id, found) ↦
        let (n, p, ts, same) = own e.trace_number id found in
        let narrow = fits.trace_fits in
        absurd (omega (arith, length-trace_text n p ts, ap length same))
  ]

  signal_entries-silent :
      (known : Text → Option ℕ)
      → ((t : Text) (id : ℕ) → known t ≡ some id → IsGenerated env t)
      → (es : List ReturnEntry) (w : World)
        (signal_workflow : Text → ReturnSignal → Action (Unit {0}))
      → All Fits es
      → signal_entries signal_workflow uuid_string known es w ≡ (ok tt, w)
  unfolding signal_entries signal_entry
  signal_entries-silent known own [] w signal_workflow fits = refl
  signal_entries-silent known own (e ∷ es) w signal_workflow (fit, fits) =
      rw (narrow-unknown known own e fit)
        (signal_entries-silent known own es w signal_workflow fits)

  -- If UUIDs print as at least eight characters and the map knows only trace numbers that the
  -- workflow generates, then `SimulateReturnFromFile` signals no workflow, whatever file it accepts:
  -- it changes nothing and returns nil. A generated trace number has at least 17 characters, and the
  -- trace number of a NACHA entry at most 15.
  pub own_traces_unmatched :
      (signal_workflow : Text → ReturnSignal → Action (Unit {0})) (content : Text)
      (known : Text → Option ℕ) (es : List ReturnEntry) (w : World)
      → ((t : Text) (id : ℕ) → known t ≡ some id → IsGenerated env t)
      → parse_file content ≡ inr es
      → simulate_return_from_file signal_workflow uuid_string content known w ≡ (ok tt, w)
  unfolding simulate_return_from_file
  own_traces_unmatched signal_workflow content known es w own accepted =
      rw accepted
        (signal_entries-silent known own es w signal_workflow (parse_file-Fits content es accepted))
