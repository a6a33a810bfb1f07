-- ===== src/Tests/Nacha.antt =====
-- Return files, simulated returns and webhooks: runs, and the theorems at them.
use ach_orchestrator.Base.{
  ℕ, length, ◌+◌, ◌≤◌, some, List, [], ◌∷◌, ◌++◌, inr, ◌≡◌, refl, arith, map, All, Bool, true, leb,
  ◌&&◌,
}
use ach_orchestrator.Base.Text.{Text, codes}
use ach_orchestrator.Base.Int.{pos}
use ach_orchestrator.Base.Decimal.{decimal}
use ach_orchestrator.Nacha.Parser.{ReturnEntry, parse_file}
use ach_orchestrator.Nacha.Generator.{generate_return_file}
use ach_orchestrator.Nacha.Padding.{Digit}
use ach_orchestrator.Nacha.Lines.{lines_of}
use ach_orchestrator.Nacha.Clean.{Plain-InLine}
use ach_orchestrator.Nacha.RoundTrip.{IsReturn, parse_file-generate_return_file}
use ach_orchestrator.Domain.Payment.{submitted, settled}
use ach_orchestrator.World.{Action, ok, err, nil_pointer, modify}
use ach_orchestrator.Workflow.Types.{ReturnSignal}
use ach_orchestrator.Simulator.{simulate_return}
use ach_orchestrator.Simulator.Returns.{simulate_return-signals}
use ach_orchestrator.Webhook.{Network, notify_webhook}
use ach_orchestrator.Webhook.Attempts.{notify_webhook-posts}
use ach_orchestrator.Tests.Fixtures.{payment_in, world_with}
use ach_orchestrator.Api.Responses.{ReturnRequest}
use ach_orchestrator.Nacha.Entries.{uncoded, entries_in, parse_file-entries_in}

abbrev between : ℕ → ℕ → Text → Bool
between low high [] = true
between low high (c ∷ s) = leb low c && leb c high && between low high s

between-All :
    (low high : ℕ) (s : Text)
    → between low high s ≡ true
    → All (λ (c : ℕ). (low ≤ c) × (c ≤ high)) s
between-All low high [] h = tt
between-All low high (c ∷ s) h =
    ((ground arith, ground arith), between-All low high s (ground arith))

abbrev trace_15 : Text
trace_15 = codes "021000021234567"

given :
    IsReturn
      (codes "240115")
      (codes "1030")
      (codes "021000021")
      (codes "1234")
      10050
      trace_15
      (codes "R01")
given = record {
  dated = Plain-InLine (codes "240115") (between-All 33 126 (codes "240115") refl);
  timed = Plain-InLine (codes "1030") (between-All 33 126 (codes "1030") refl);
  nine = refl;
  digits = between-All 48 57 (codes "021000021") refl;
  fits = omega arith;
  printable = between-All 33 126 (codes "1234") refl;
  small = omega arith;
  fifteen = refl;
  traced = between-All 33 126 trace_15 refl;
  three_long = refl;
  coded = between-All 33 126 (codes "R01") refl;
}

abbrev returned_entry : ReturnEntry
returned_entry = record {
  trace_number = trace_15;
  r_code = codes "R01";
  amount = pos 10050;
  account_number = codes "1234";
  routing_number = codes "021000021";
}

parse_file-generate_return_file_example :
    (content : Text) × (generate_return_file
        (codes "240115")
        (codes "1030")
        (codes "021000021")
        (codes "1234")
        (pos 10050)
        trace_15
        (codes "R01")
      ≡ some content)
    × (parse_file content ≡ inr (returned_entry ∷ []))
parse_file-generate_return_file_example =
    parse_file-generate_return_file (codes "240115") (codes "1030") (codes "021000021")
      (codes "1234") 10050 trace_15 (codes "R01") given

-- An entry with its addenda, and one without.
abbrev two_entries : Text
two_entries =
    codes
      "6210210000211234             0000010050021000021234567RETURN PAYMENT          1021000021234567"
    ++ b'\n'
      ∷ codes
          "799R01021000021234567                                                                         "
    ++ b'\r'
      ∷ b'\n'
      ∷ codes
          "6210210000211234             0000010050021000021234567RETURN PAYMENT          1021000021234567"

abbrev two_read : List ReturnEntry
two_read = returned_entry ∷ record returned_entry { r_code = [] } ∷ []

two_entries_read : parse_file two_entries ≡ inr two_read
unfolding parse_file
two_entries_read = refl

parse_file-entries_in_example : map uncoded two_read ≡ entries_in (lines_of two_entries)
parse_file-entries_in_example = parse_file-entries_in two_entries two_read two_entries_read

-- A client that counts its signals on the clock.
abbrev signal_once : Text → ReturnSignal → Action (Unit {0})
signal_once id s = modify (λ w. record w { clock = w.clock + 1 })

late_enough : 7 ≤ length (decimal 1700000000000000000)
unfolding decimal
late_enough = omega arith

simulate_return-signals_example :
    (trace : Text) × (length trace ≡ 15)
    × All Digit trace
    × (simulate_return signal_once
          (λ id. codes "7f3b1c9d")
          (codes "240115")
          (codes "1030")
          7
          (codes "021000021")
          (codes "1234")
          (pos 10050)
          (codes "R01")
          (world_with submitted)
        ≡ signal_once
            (codes "7f3b1c9d")
            (record { r_code = codes "R01"; trace_number = trace })
            (world_with submitted))
simulate_return-signals_example =
    simulate_return-signals signal_once (λ id. codes "7f3b1c9d") (codes "240115") (codes "1030") 7
      (codes "021000021") (codes "1234") 10050 (codes "R01") (world_with submitted) given.dated
      given.timed given.nine given.digits given.fits given.printable given.small given.three_long
      given.coded late_enough

-- A network on which every request fails and raises the clock by one.
abbrev broken : Network
broken = record {
  http_do = λ url body w. (err nil_pointer, record w { clock = w.clock + 1 });
  wait = λ delay w. (true, w);
  marshal = λ p. some (codes "{}");
  uuid_string = λ id. codes "7f3b1c9d";
}

notify_webhook-posts_example :
    let p = payment_in settled in
    let out = notify_webhook broken (codes "http://hook") p (world_with settled) in
    (out.0 ≡ ok tt)
    × (out.1.clock ≤ (world_with settled).clock + 3)
    × (codes "http://hook" ≡ [] → out.1 ≡ world_with settled)
notify_webhook-posts_example =
    notify_webhook-posts broken (λ w. w.clock) (λ url body w. omega arith) (λ delay w. refl)
      (codes "http://hook") (payment_in settled) (world_with settled)

abbrev return_request : ReturnRequest
return_request = record {
  r_code = codes "R01";
  routing_number = codes "021000021";
  account_number = codes "1234";
  amount_cents = pos 10050;
}
