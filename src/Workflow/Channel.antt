-- ===== src/Workflow/Channel.antt =====
-- The selector of a round: the settlement timer against the signals that wait in the channel.
use ach_orchestrator.Base.{
  ℕ, ◌+◌, ◌*◌, ◌≤◌, ◌<◌, List, [], ◌∷◌, ◌≡◌, ltb, leb, if◌then◌else◌, arith,
}
use ach_orchestrator.Domain.Rules.{hour, retry_delay_for}
use ach_orchestrator.Workflow.Types.{ReturnSignal, Event, timer, signal}

-- A signal in the channel, with the time at which Temporal received it.
pub record Arrival : Type 0 where
  pub at : ℕ
  pub returned : ReturnSignal

-- The duration of `settlementTimer`.
abbrev pub settlement_window : ℕ
settlement_window = 72 * hour

abbrev later : ℕ → ℕ → ℕ
later a b = if leb a b then b else a

-- `sel.Select(ctx)` of a round whose timer is started at `start`: the branch that is taken, when,
-- and the signals that stay in the channel. A signal that is there already is taken at once, and
-- one that comes at the end of the timer or behind it stays.
unfoldable pub select : ℕ → List Arrival → Event × ℕ × List Arrival
select start [] = (timer, start + settlement_window, [])
select start (a ∷ channel) =
    if ltb a.at (start + settlement_window)
    then (signal a.returned, later start a.at, channel)
    else (timer, start + settlement_window, a ∷ channel)

-- What the selectors see that start at these times.
unfoldable pub events_of : List Arrival → List ℕ → List Event
events_of channel [] = []
events_of channel (start ∷ starts) =
    let (e, _, rest) = select start channel in e ∷ events_of rest starts

-- The time for which a round sleeps behind the selector.
abbrev pub pause : Event → ℕ
pause timer = 0
pause (signal s) = retry_delay_for s.r_code

-- Each selector starts no earlier than the sleep of the round before it allows.
unfoldable pub IsPaced : List Arrival → List ℕ → Type 0
IsPaced channel [] = Unit {0}
IsPaced channel (start ∷ []) = Unit {0}
IsPaced channel (start ∷ next ∷ starts) =
    let (e, taken, rest) = select start channel in
    (taken + pause e ≤ next) × IsPaced rest (next ∷ starts)

-- The selector looks at the head of the channel alone, and takes it if it is not late.
pub select-early :
    (start : ℕ) (a : Arrival) (channel : List Arrival)
    → a.at < start + settlement_window
    → select start (a ∷ channel) ≡ (signal a.returned, later start a.at, channel)
unfolding select
select-early start a channel h = ground arith

-- The round behind a signal starts later, by the sleep.
pub IsPaced-later :
    (start next : ℕ) (a : Arrival) (channel : List Arrival) (starts : List ℕ)
    → a.at < start + settlement_window
    → IsPaced (a ∷ channel) (start ∷ next ∷ starts)
    → (start + retry_delay_for a.returned.r_code ≤ next) × IsPaced channel (next ∷ starts)
unfolding IsPaced
IsPaced-later start next a channel starts h paced =
    let p = rw (select-early start a channel h) at paced in (ground arith, p.1)
