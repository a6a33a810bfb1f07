-- ===== src/Simulator/Returns.antt =====
-- A simulated return passes its own checks and is signalled.
use ach_orchestrator.Base.{
  All-append, All-replicate, All-take, All-drop, length-drop, length-take_le, ℕ, zero, suc, ◌-◌,
  ◌≤◌, ◌<◌, true, false, some, [], ◌∷◌, ◌++◌, ◌≡◌, refl, arith, inl, inr, ap, ltb, ◌==◌, ==_iff,
  Bool-cases, length, take, drop, replicate, length-append, length-replicate, All,
}
use ach_orchestrator.Base.Text.{Text, text_eq_refl}
use ach_orchestrator.Base.Int.{pos}
use ach_orchestrator.Base.Decimal.{decimal}
use ach_orchestrator.World.{World, Action}
use ach_orchestrator.Nacha.Parser.{is_digit, ReturnEntry}
use ach_orchestrator.Nacha.Padding.{Digit, Plain, Digit-Plain}
use ach_orchestrator.Nacha.Scan.{digits-All, power_of_ten}
use ach_orchestrator.Nacha.Lines.{InLine}
use ach_orchestrator.Nacha.RoundTrip.{IsReturn, parse_file-generate_return_file}
use ach_orchestrator.Workflow.Types.{ReturnSignal}
use ach_orchestrator.Simulator.{
  first_digits, sequence_digits, found_or, after_odfi, odfi_of, build_trace_number, checked_signal,
  simulate_return,
}

first_digits-All : (n : ℕ) (s : Text) → All Digit (first_digits n s)
unfolding first_digits
first_digits-All zero s = tt
first_digits-All (suc n) [] = tt
first_digits-All (suc n) (c ∷ s) = elim (Bool-cases (is_digit c)) [
  | inl e ↦ rw (first_digits, e) ((ground arith, ground arith), first_digits-All n s)
  | inr e ↦ rw (first_digits, e) (first_digits-All (suc n) s)
]

length-first_digits : (n : ℕ) (s : Text) → length (first_digits n s) ≤ n
unfolding first_digits
length-first_digits zero s = omega arith
length-first_digits (suc n) [] = omega arith
length-first_digits (suc n) (c ∷ s) = elim (Bool-cases (is_digit c)) [
  | inl e ↦ rw (first_digits, e) (omega (arith, length-first_digits n s))
  | inr e ↦ rw (first_digits, e) (length-first_digits (suc n) s)
]

decimal-All : (n : ℕ) → All Digit (decimal n)
unfolding decimal
decimal-All n = digits-All 20 n

-- Seven digits, if the time has as many.
sequence_of :
    (found stamp : Text)
    → length found ≤ 7
    → 7 ≤ length stamp
    → All Digit found
    → All Digit stamp
    → (d : Text) × (found_or found stamp ≡ some d) × (length d ≡ 7) × All Digit d
sequence_of found stamp low long found_digits stamp_digits =
    elim (Bool-cases (ltb (length found) 7)) [
      | inl few ↦
          let last = drop (length stamp - 7) stamp in
          let enough : ltb (length stamp) 7 ≡ false = ground arith in
          (
            last,
            rw (few, enough) refl,
            omega (arith, length-drop (length stamp - 7) stamp),
            All-drop Digit (length stamp - 7) stamp stamp_digits,
          )
      | inr e ↦ (found, rw e refl, ground arith, found_digits)
    ]

odfi_of-All : (r : Text) → All Digit r → All Digit (odfi_of r)
odfi_of-All r h =
    All-append Digit (replicate (8 - length (take 8 r)) b'0') (take 8 r)
      (All-replicate Digit (8 - length (take 8 r)) b'0' (omega arith, omega arith))
      (All-take Digit 8 r h)

length-odfi_of : (r : Text) → length (odfi_of r) ≡ 8
length-odfi_of r = omega (
  arith,
  length-append (replicate (8 - length (take 8 r)) b'0') (take 8 r),
  length-replicate {A = ℕ} (8 - length (take 8 r)) b'0',
  length-take_le 8 r,
)

-- `buildTraceNumber` gives 15 digits, for any UUID, once the clock shows seven digits.
pub build_trace_number-digits :
    (routing uuid : Text) (now : ℕ)
    → All Digit routing
    → 7 ≤ length (decimal now)
    → (trace : Text) × (build_trace_number routing uuid now ≡ some trace)
      × (length trace ≡ 15)
      × All Digit trace
unfolding build_trace_number sequence_digits
build_trace_number-digits routing uuid now digits long =
    let (d, e, seven, ds) =
      sequence_of (first_digits 7 uuid) (decimal now) (length-first_digits 7 uuid) long
        (first_digits-All 7 uuid) (decimal-All now) in
    (
      odfi_of routing ++ d,
      ap (after_odfi routing) e,
      omega (arith, length-append (odfi_of routing) d, length-odfi_of routing),
      All-append Digit (odfi_of routing) d (odfi_of-All routing digits) ds,
    )

module _ (signal_workflow : Text → ReturnSignal → Action (Unit {0})) (uuid_string : ℕ → Text) where
  -- The checks accept an entry with this code and this amount.
  checked_signal-accepts :
      (payment_id n : ℕ) (r_code trace : Text) (entry : ReturnEntry) (w : World)
      → entry.r_code ≡ r_code
      → entry.amount ≡ pos n
      → checked_signal signal_workflow uuid_string payment_id
          (pos n)
          r_code
          trace
          (inr (entry ∷ []))
          w
        ≡ signal_workflow
            (uuid_string payment_id)
            (record { r_code = r_code; trace_number = trace })
            w
  unfolding checked_signal
  checked_signal-accepts payment_id n r_code trace entry w code amount =
      let same : (n == n) ≡ true = (==_iff n n).1 refl in
      rw (code, amount, text_eq_refl r_code, same) refl

  -- For a routing number of nine digits, an account number of at most 17 printable characters, an
  -- amount of at most ten digits, a code of three printable characters and a clock that shows at
  -- least seven digits, `SimulateReturn` neither panics nor fails by itself: the file that it
  -- generates is read back and accepted, and its result is that of the one signal to the workflow of
  -- the payment, with this code and a trace number of 15 digits.
  pub simulate_return-signals :
      (date time : Text) (payment_id : ℕ) (routing account : Text) (n : ℕ) (r_code : Text)
      (w : World)
      → All InLine date
      → All InLine time
      → length routing ≡ 9
      → All Digit routing
      → length account ≤ 17
      → All Plain account
      → n < power_of_ten 10
      → length r_code ≡ 3
      → All Plain r_code
      → 7 ≤ length (decimal w.clock)
      → (trace : Text) × (length trace ≡ 15)
        × All Digit trace
        × (simulate_return signal_workflow uuid_string date time payment_id routing account
              (pos n)
              r_code
              w
            ≡ signal_workflow
                (uuid_string payment_id)
                (record { r_code = r_code; trace_number = trace })
                w)
  unfolding simulate_return
  simulate_return-signals date time payment_id routing account n r_code w dated timed nine digits
        fits printable small three_long coded long =
      let (trace, built, fifteen, traced) =
        build_trace_number-digits routing (uuid_string payment_id) w.clock digits long in
      let given : IsReturn date time routing account n trace r_code = record {
        dated = dated;
        timed = timed;
        nine = nine;
        digits = digits;
        fits = fits;
        printable = printable;
        small = small;
        fifteen = fifteen;
        traced = Digit-Plain trace traced;
        three_long = three_long;
        coded = coded;
      } in
      let (content, written, parsed) =
        parse_file-generate_return_file date time routing account n trace r_code given in
      (
        trace,
        fifteen,
        traced,
        rw (built, written, parsed)
            (checked_signal-accepts payment_id n r_code trace
              (record {
                trace_number = trace;
                r_code = r_code;
                amount = pos n;
                account_number = account;
                routing_number = routing;
              })
              w refl refl),
      )
