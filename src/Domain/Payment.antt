-- ===== src/Domain/Payment.antt =====
-- internal/domain/payment.go
use ach_orchestrator.Base.{ℕ, Bool, true, false, Option, ◌≡◌, refl, arith}
use ach_orchestrator.Base.Text.{Text, text_eq, text_eq_refl, text_eq_sound}
use ach_orchestrator.Base.Int.{ℤ}

-- `type PaymentState string`: the eight named constants, and any other string a row may hold.
pub data PaymentState : Type 0 where
  initiated pending submitted settled : PaymentState
  failed_non_retryable failed_retryable_exhausted compliance_escalation returned : PaymentState
  other : Text → PaymentState

-- `a == b` on states.
unfoldable pub state_eq : PaymentState → PaymentState → Bool
state_eq initiated initiated = true
state_eq pending pending = true
state_eq submitted submitted = true
state_eq settled settled = true
state_eq failed_non_retryable failed_non_retryable = true
state_eq failed_retryable_exhausted failed_retryable_exhausted = true
state_eq compliance_escalation compliance_escalation = true
state_eq returned returned = true
state_eq (other s) (other t) = text_eq s t
state_eq _ _ = false

pub state_eq_refl : (s : PaymentState) → state_eq s s ≡ true
unfolding state_eq
state_eq_refl (other s) = text_eq_refl s
state_eq_refl _ = refl

pub state_eq_sound : (s t : PaymentState) → state_eq s t ≡ true → s ≡ t
unfolding state_eq
state_eq_sound (other s) (other t) h = cc (text_eq_sound s t h)
state_eq_sound _ _ h = ground arith

-- A `decimal.Decimal` is read only through its public view: coefficient times ten to the exponent.
pub record Decimal : Type 0 where
  pub coefficient : ℤ
  pub exponent : ℤ

-- `type Payment struct`. An id is the 128-bit value of the UUID and 0 is `uuid.Nil`; a time is in
-- nanoseconds; `representment_count` is never negative, since its column has a CHECK.
pub record Payment : Type 0 where
  pub id : ℕ
  pub portfolio_id : ℕ
  pub amount : Decimal
  pub state : PaymentState
  pub return_code : Text
  pub representment_count : ℕ
  pub trace_number : Text
  pub created_at : ℕ
  pub updated_at : ℕ
  pub settled_at : Option ℕ
  pub failed_at : Option ℕ
