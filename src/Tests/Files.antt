-- ===== src/Tests/Files.antt =====
-- The theorems on the shape of files at concrete inputs.
use ach_orchestrator.Base.{
  ℕ, ◌≤◌, ◌<◌, Option, none, some, inl, inr, List, [], ◌∷◌, ◌≡◌, ◌⊎◌, refl, arith, All, length,
  if◌then◌else◌,
}
use ach_orchestrator.Base.Text.{Text, codes, text_eq, text_eq_sound}
use ach_orchestrator.Base.Int.{pos}
use ach_orchestrator.Nacha.Parser.{ReturnEntry, ParseError, parse_file}
use ach_orchestrator.Nacha.Generator.{generate_return_file}
use ach_orchestrator.Nacha.Fields.{Fits, parse_file-Fits}
use ach_orchestrator.Nacha.Shape.{IsFile, generate_return_file_lem}
use ach_orchestrator.World.{Action, ok, err, failed, raise}
use ach_orchestrator.Services.{simple}
use ach_orchestrator.Domain.Payment.{submitted}
use ach_orchestrator.Workflow.Types.{ReturnSignal}
use ach_orchestrator.Workflow.Helpers.{trace_text}
use ach_orchestrator.Simulator.{simulate_return_from_file}
use ach_orchestrator.Simulator.Files.{
  Delivers, signals_for, IsGenerated, simulate_return_from_file_lem, own_traces_unmatched,
}
use ach_orchestrator.Tests.Fixtures.{world_with}

-- A record 6 without an addenda.
abbrev lonely : Text
lonely =
    codes
      "6210210000211234             0000010050021000021234567RETURN PAYMENT          1021000021234567"

abbrev lonely_entry : ReturnEntry
lonely_entry = record {
  trace_number = codes "021000021234567";
  r_code = [];
  amount = pos 10050;
  account_number = codes "1234";
  routing_number = codes "021000021";
}

lonely_read : parse_file lonely ≡ inr (lonely_entry ∷ [])
unfolding parse_file
lonely_read = refl

parse_file-Fits_example : All Fits (lonely_entry ∷ [])
parse_file-Fits_example = parse_file-Fits lonely (lonely_entry ∷ []) lonely_read

generate_return_file_lem_example :
    let file =
      generate_return_file
        (codes "240115")
        (codes "1030")
        (codes "021000021")
        (codes "1234")
        (pos 10050)
        (codes "021000021234567")
        (codes "R01") in
    ((9 ≤ 8) × (file ≡ none))
    ⊎ ((8 < 9) × (content : Text) × (file ≡ some content) × IsFile content)
generate_return_file_lem_example =
    generate_return_file_lem (codes "240115") (codes "1030") (codes "021000021") (codes "1234")
      (pos 10050) (codes "021000021234567") (codes "R01")

-- A client that no signal gets through.
abbrev unreachable : Text → ReturnSignal → Action (Unit {0})
unreachable to s = raise (failed "temporal")

abbrev by_text : Text → Text → Option ℕ
by_text t s = if text_eq s t then some 7 else none

simulate_return_from_file_lem_example :
    let known = by_text (codes "021000021234567") in
    let w = world_with submitted in
    let out = simulate_return_from_file unreachable (λ id. codes "7f3b1c9d") lonely known w in
    ((x : ParseError) × (parse_file lonely ≡ inl x)
      × (out ≡ (err (failed "simulator: failed to parse return file"), w)))
    ⊎ ((es : List ReturnEntry) × (parse_file lonely ≡ inr es)
        × Delivers unreachable
            (λ id. codes "7f3b1c9d")
            out
            (signals_for (λ id. codes "7f3b1c9d") known es)
            w)
simulate_return_from_file_lem_example =
    simulate_return_from_file_lem unreachable (λ id. codes "7f3b1c9d") lonely
      (by_text (codes "021000021234567")) (world_with submitted)

long_ids : (id : ℕ) → 8 ≤ length (simple.uuid_string id)
unfolding simple
long_ids id = omega arith

abbrev sent_trace : Text
sent_trace = trace_text simple 0 7 1700000000

generated : (t : Text) (id : ℕ) → by_text sent_trace t ≡ some id → IsGenerated simple t
generated t id h = (0, 7, 1700000000, ground (arith, text_eq_sound t sent_trace))

own_traces_unmatched_example :
    simulate_return_from_file unreachable simple.uuid_string lonely
      (by_text sent_trace)
      (world_with submitted)
    ≡ (ok tt, world_with submitted)
own_traces_unmatched_example =
    own_traces_unmatched simple long_ids unreachable lonely (by_text sent_trace) (lonely_entry ∷ [])
      (world_with submitted) generated lonely_read
