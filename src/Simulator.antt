-- ===== src/Simulator.antt =====
-- internal/simulator/return_simulator.go: returns that are made up, checked and signalled.
pub mod Returns
pub mod Files
use ach_orchestrator.Base.{
  ℕ, zero, suc, ◌+◌, ◌-◌, Bool, true, false, not, Option, none, some, List, [], ◌∷◌, ◌++◌, ◌⊎◌, inl,
  inr, ltb, leb, ◌==◌, if◌then◌else◌, length, take, drop, replicate,
}
use ach_orchestrator.Base.Text.{Text, text_eq}
use ach_orchestrator.Base.Int.{ℤ, int_eq}
use ach_orchestrator.Base.Decimal.{decimal}
use ach_orchestrator.World.{
  World, Action, Error, failed, out_of_range, pure, raise, gets, on_error, ◌>>=◌, ◌>>◌,
}
use ach_orchestrator.Nacha.Parser.{ReturnEntry, ParseError, is_digit, parse_file}
use ach_orchestrator.Nacha.Generator.{generate_return_file}
use ach_orchestrator.Workflow.Types.{ReturnSignal}

-- The loop of `buildTraceNumber` over the UUID: its first digits, at most so many.
unfoldable pub first_digits : ℕ → Text → Text
first_digits zero s = []
first_digits (suc n) [] = []
first_digits (suc n) (c ∷ s) = elim (is_digit c) [
  | true ↦ c ∷ first_digits n s
  | false ↦ first_digits (suc n) s
]

-- The digits that were found, or the last seven of the time, which must have as many.
abbrev pub found_or : Text → Text → Option Text
found_or found stamp =
    if ltb (length found) 7
    then (if ltb (length stamp) 7 then none else some (drop (length stamp - 7) stamp))
    else some found

-- The sequence, from the UUID or the time in nanoseconds.
unfoldable pub sequence_digits : Text → ℕ → Option Text
unfolding first_digits decimal
sequence_digits uuid now = found_or (first_digits 7 uuid) (decimal now)

-- The ODFI part: eight characters, with zeros in front of a shorter text.
abbrev pub odfi_of : Text → Text
odfi_of routing = replicate (8 - length (take 8 routing)) b'0' ++ take 8 routing

abbrev pub after_odfi : Text → Option Text → Option Text
after_odfi routing none = none
after_odfi routing (some digits) = some (odfi_of routing ++ digits)

-- `buildTraceNumber`: `none` is the panic of a slice that is out of range.
unfoldable pub build_trace_number : Text → Text → ℕ → Option Text
unfolding sequence_digits
build_trace_number routing uuid now = after_odfi routing (sequence_digits uuid now)

-- `client.SignalWorkflow` and `uuid.UUID.String` are parameters; the run is always the latest one.
module _ (signal_workflow : Text → ReturnSignal → Action (Unit {0})) (uuid_string : ℕ → Text) where
  -- The checks of the round trip, and the signal.
  unfoldable pub checked_signal :
      ℕ → ℤ → Text → Text → ParseError ⊎ List ReturnEntry → Action (Unit {0})
  checked_signal payment_id amount r_code trace (inl e) =
      raise (failed "simulator: generated file failed to parse")
  checked_signal payment_id amount r_code trace (inr []) =
      raise (failed "simulator: generated file contained no entries")
  checked_signal payment_id amount r_code trace (inr (entry ∷ _)) =
      if not (text_eq entry.r_code r_code)
      then raise (failed "simulator: round-trip R-code mismatch")
      else if not (int_eq entry.amount amount)
      then raise (failed "simulator: round-trip amount mismatch")
      else signal_workflow (uuid_string payment_id)
          (record { r_code = r_code; trace_number = trace })

  abbrev pub on_content : ℕ → ℤ → Text → Text → Option Text → Action (Unit {0})
  on_content payment_id amount r_code trace none = raise out_of_range
  on_content payment_id amount r_code trace (some content) =
      checked_signal payment_id amount r_code trace (parse_file content)

  -- With the trace number. `date` and `time` are the texts of the time that the generator writes.
  abbrev pub on_trace :
      (date time : Text) (payment_id : ℕ) (routing account : Text) (amount : ℤ) (r_code : Text)
      → Option Text
      → Action (Unit {0})
  on_trace date time payment_id routing account amount r_code none = raise out_of_range
  on_trace date time payment_id routing account amount r_code (some trace) =
      on_content payment_id amount r_code trace
        (generate_return_file date time routing account amount trace r_code)

  -- `SimulateReturn`
  unfoldable pub simulate_return :
      (date time : Text) (payment_id : ℕ) (routing account : Text) (amount : ℤ) (r_code : Text)
      → Action (Unit {0})
  unfolding checked_signal
  simulate_return date time payment_id routing account amount r_code w =
      on_trace date time payment_id routing account amount r_code
        (build_trace_number routing (uuid_string payment_id) w.clock) w

  -- The loop of `SimulateReturnFromFile`; a trace number that is not in the map is skipped.
  unfoldable pub signal_entry : Option ℕ → ReturnEntry → Action (Unit {0})
  signal_entry none entry = pure tt
  signal_entry (some payment_id) entry = on_error "simulator: signal failed" (
      signal_workflow (uuid_string payment_id)
        (record { r_code = entry.r_code; trace_number = entry.trace_number }))

  unfoldable pub signal_entries : (Text → Option ℕ) → List ReturnEntry → Action (Unit {0})
  unfolding signal_entry
  signal_entries payment_by_trace [] = pure tt
  signal_entries payment_by_trace (entry ∷ entries) = do
    signal_entry (payment_by_trace entry.trace_number) entry
    signal_entries payment_by_trace entries

  abbrev pub on_entries : (Text → Option ℕ) → ParseError ⊎ List ReturnEntry → Action (Unit {0})
  on_entries payment_by_trace (inl e) = raise (failed "simulator: failed to parse return file")
  on_entries payment_by_trace (inr entries) = signal_entries payment_by_trace entries

  -- `SimulateReturnFromFile`
  unfoldable pub simulate_return_from_file : Text → (Text → Option ℕ) → Action (Unit {0})
  unfolding signal_entries
  simulate_return_from_file content payment_by_trace =
      on_entries payment_by_trace (parse_file content)
