-- ===== src/Domain/Rules/Terminal.antt =====
-- Terminal states, and the paths through the diagram.
use ach_orchestrator.Base.{ℕ, ◌+◌, ◌≤◌, true, false, ◌≡◌, ◌↔◌, refl, arith}
use ach_orchestrator.Domain.Payment.{
  PaymentState, initiated, pending, submitted, settled, returned, other,
}
use ach_orchestrator.Domain.Rules.{is_transition_allowed, is_terminal_state}
use ach_orchestrator.Domain.Rules.Edges.{
  ◌⟶◌, allowed-Edge, queue, send, settle, represent, cancel, return, reject, hold, refuse, exhaust,
  escalate,
}

-- The state is one of the eight constants.
abbrev pub IsKnown : PaymentState → Type 0
IsKnown (other _) = ⊥
IsKnown _ = Unit {0}

stuck-is_terminal :
    (s : PaymentState)
    → IsKnown s
    → ((t : PaymentState) → is_transition_allowed s t ≡ false)
    → is_terminal_state s ≡ true
unfolding is_transition_allowed is_terminal_state
stuck-is_terminal initiated k h = cc (h pending)
stuck-is_terminal pending k h = cc (h submitted)
stuck-is_terminal submitted k h = cc (h settled)
stuck-is_terminal returned k h = cc (h pending)
stuck-is_terminal (other s) k h = absurd k
stuck-is_terminal _ k h = refl

is_terminal-stuck :
    (s : PaymentState)
    → is_terminal_state s ≡ true
    → IsKnown s × ((t : PaymentState) → is_transition_allowed s t ≡ false)
unfolding is_transition_allowed is_terminal_state
is_terminal-stuck initiated h = cc
is_terminal-stuck pending h = cc
is_terminal-stuck submitted h = cc
is_terminal-stuck returned h = cc
is_terminal-stuck (other s) h = cc
is_terminal-stuck _ h = (tt, λ t. refl)

-- `IsTerminalState` holds exactly of the named states from which `IsTransitionAllowed` accepts no
-- target at all; an unknown string is not terminal, although nothing leads out of it.
pub is_terminal_state_iff :
    (s : PaymentState)
    → (is_terminal_state s ≡ true)
      ↔ (IsKnown s × ((t : PaymentState) → is_transition_allowed s t ≡ false))
is_terminal_state_iff s = (is_terminal-stuck s, λ h. stuck-is_terminal s h.0 h.1)

-- One for an entry into SUBMITTED, and one for an entry into RETURNED.
abbrev pub submissions : PaymentState → ℕ
submissions submitted = 1
submissions _ = 0

abbrev pub returns : PaymentState → ℕ
returns returned = 1
returns _ = 0

-- A history of allowed transitions from INITIATED, with the entries into SUBMITTED and RETURNED.
pub data Lifecycle : PaymentState → ℕ → ℕ → Type 0 where
  start : Lifecycle initiated 0 0
  move :
      {s : PaymentState} {n m : ℕ} (t : PaymentState)
      → Lifecycle s n m
      → is_transition_allowed s t ≡ true
      → Lifecycle t (n + submissions t) (m + returns t)

-- How the two counts stand in each state.
abbrev Balance : PaymentState → ℕ → ℕ → Type 0
Balance initiated n m = (n ≡ 0) × (m ≡ 0)
Balance pending n m = n ≡ m
Balance submitted n m = n ≡ m + 1
Balance returned n m = n ≡ m
Balance settled n m = n ≡ m + 1
Balance _ n m = (m ≤ n) × (n ≤ m + 1)

Edge-Balance :
    {s t : PaymentState} (n m : ℕ)
    → s ⟶ t
    → Balance s n m
    → Balance t (n + submissions t) (m + returns t)
Edge-Balance n m queue h = omega arith
Edge-Balance n m send h = omega arith
Edge-Balance n m settle h = omega arith
Edge-Balance n m represent h = omega arith
Edge-Balance n m cancel h = omega arith
Edge-Balance n m return h = omega arith
Edge-Balance n m reject h = omega arith
Edge-Balance n m hold h = omega arith
Edge-Balance n m refuse h = omega arith
Edge-Balance n m exhaust h = omega arith
Edge-Balance n m escalate h = omega arith

Lifecycle-Balance : {s : PaymentState} {n m : ℕ} → Lifecycle s n m → Balance s n m
Lifecycle-Balance start = (refl, refl)
Lifecycle-Balance (move {s} {n} {m} t l h) =
    Edge-Balance n m (allowed-Edge s t h) (Lifecycle-Balance l)

-- In every history that the table allows, a payment enters SUBMITTED at most once more often than
-- RETURNED, so it is never sent again without a return; and a settled payment entered SUBMITTED
-- exactly once more often than RETURNED.
pub resubmission_needs_return :
    {s : PaymentState} {n m : ℕ} → Lifecycle s n m → (n ≤ m + 1) × (s ≡ settled → n ≡ m + 1)
resubmission_needs_return {s} {n} {m} l = from_balance s (Lifecycle-Balance l)
  where
    from_balance : (t : PaymentState) → Balance t n m → (n ≤ m + 1) × (t ≡ settled → n ≡ m + 1)
    from_balance initiated b = (omega arith, λ e. cc)
    from_balance settled b = (omega arith, λ _. b)
    from_balance _ b = (omega arith, λ e. cc)
