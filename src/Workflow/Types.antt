-- ===== src/Workflow/Types.antt =====
-- The types of the signal and of the input, and what the workflow waits for.
use ach_orchestrator.Base.{ℕ, ◌*◌}
use ach_orchestrator.Base.Text.{Text}
use ach_orchestrator.Services.{ActivityOptions}

-- A second, in nanoseconds.
abbrev pub second : ℕ
second = 1000000000

-- `type ReturnSignal struct`
pub record ReturnSignal : Type 0 where
  pub r_code : Text
  pub trace_number : Text

-- `type PaymentWorkflowInput struct`
pub record PaymentWorkflowInput : Type 0 where
  pub payment_id : ℕ
  pub amount : Text
  pub account_number : Text
  pub routing_number : Text

-- `defaultActivityOptions`
abbrev pub default_activity_options : ActivityOptions
default_activity_options = record {
  timeout = 30 * second;
  initial_interval = second;
  backoff_coefficient = 2;
  maximum_interval = 30 * second;
  maximum_attempts = 3;
}

-- Which branch of the selector was taken: the settlement timer or the signal channel.
pub data Event : Type 0 where
  timer : Event
  signal : ReturnSignal → Event

-- Whether the workflow returned nil, or still waits at its selector when the events are used up.
pub data Status : Type 0 where
  completed waiting : Status
