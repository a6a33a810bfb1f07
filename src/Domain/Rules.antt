-- ===== src/Domain/Rules.antt =====
-- internal/domain/rules.go: the transition table, its two tests, and the retry delays.
pub mod Edges
pub mod Terminal
use ach_orchestrator.Base.{
  ℕ, ◌*◌, Bool, true, false, ◌||◌, Option, none, some, List, [], ◌∷◌, if◌then◌else◌,
}
use ach_orchestrator.Base.Text.{Text, codes, text_eq}
use ach_orchestrator.Domain.Payment.{
  PaymentState, initiated, pending, submitted, settled, failed_non_retryable,
  failed_retryable_exhausted, compliance_escalation, returned, state_eq,
}

-- `const MaxRepresentments`
abbrev pub max_representments : ℕ
max_representments = 2

-- `time.Hour`, in nanoseconds.
abbrev pub hour : ℕ
hour = 3600000000000

abbrev pub retry_delay_r01 : ℕ
retry_delay_r01 = 24 * hour

abbrev pub retry_delay_r09 : ℕ
retry_delay_r09 = 48 * hour

abbrev pub retry_delay_r08 : ℕ
retry_delay_r08 = 24 * hour

abbrev pub retry_delay_default : ℕ
retry_delay_default = 24 * hour

-- `AllowedTransitions`: the keys of the map with the keys of its inner sets, which all map to true.
abbrev pub Transitions : Type 0
Transitions = List (PaymentState × List PaymentState)

unfoldable pub allowed_transitions : Transitions
allowed_transitions =
    (initiated, pending ∷ [])
    ∷ (pending, submitted ∷ failed_non_retryable ∷ [])
    ∷ (submitted, settled ∷ returned ∷ failed_non_retryable ∷ compliance_escalation ∷ [])
    ∷ (
      returned,
      pending ∷ failed_non_retryable ∷ failed_retryable_exhausted ∷ compliance_escalation ∷ [],
    )
    ∷ (settled, [])
    ∷ (failed_non_retryable, [])
    ∷ (failed_retryable_exhausted, [])
    ∷ (compliance_escalation, [])
    ∷ []

-- `targets, ok := AllowedTransitions[from]`
unfoldable pub targets_in : Transitions → PaymentState → Option (List PaymentState)
targets_in [] from = none
targets_in ((s, targets) ∷ rest) from =
    if state_eq s from then some targets else targets_in rest from

-- `targets[to]`, false for a missing key
unfoldable pub contains : List PaymentState → PaymentState → Bool
contains [] to = false
contains (s ∷ targets) to = state_eq s to || contains targets to

-- `IsTransitionAllowed`
unfoldable pub is_transition_allowed : PaymentState → PaymentState → Bool
unfolding targets_in contains state_eq allowed_transitions
is_transition_allowed from to = elim (targets_in allowed_transitions from) [
  | none ↦ false
  | some targets ↦ contains targets to
]

-- `len(targets) == 0`
abbrev is_empty : List PaymentState → Bool
is_empty [] = true
is_empty (_ ∷ _) = false

-- `IsTerminalState`
unfoldable pub is_terminal_state : PaymentState → Bool
unfolding targets_in contains state_eq allowed_transitions
is_terminal_state state = elim (targets_in allowed_transitions state) [
  | none ↦ false
  | some targets ↦ is_empty targets
]

-- `RetryDelayFor`
unfoldable pub retry_delay_for : Text → ℕ
retry_delay_for r_code =
    if text_eq r_code (codes "R01")
    then retry_delay_r01
    else if text_eq r_code (codes "R08")
    then retry_delay_r08
    else if text_eq r_code (codes "R09")
    then retry_delay_r09
    else retry_delay_default
