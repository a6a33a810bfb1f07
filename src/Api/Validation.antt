-- ===== src/Api/Validation.antt =====
-- What the checks of the requests accept.
use Prim.Native.String.{String}
use ach_orchestrator.Base.{
  ◌≤◌, Bool, true, not, Option, none, some, inr, [], ◌∷◌, ◌≡◌, ◌≢◌, ◌↔◌, refl, arith, if◌then◌else◌,
  length, All,
}
use ach_orchestrator.Base.Text.{Text}
use ach_orchestrator.Base.Int.{is_positive}
use ach_orchestrator.Domain.Payment.{Decimal}
use ach_orchestrator.Nacha.Padding.{Digit, Plain, Digit-Plain}
use ach_orchestrator.Api.Responses.{CreatePaymentRequest}
use ach_orchestrator.Api.Handlers.{
  all_digits, is_r_code, is_routing_number, is_account_number, create_problem,
}

pub all_digits-All : (s : Text) → all_digits s ≡ true → All Digit s
unfolding all_digits
all_digits-All [] h = tt
all_digits-All (c ∷ s) h = ((ground arith, ground arith), all_digits-All s (ground arith))

pub is_r_code-Plain : (s : Text) → is_r_code s ≡ true → (length s ≡ 3) × All Plain s
is_r_code-Plain [] h = absurd (cc h)
is_r_code-Plain (c ∷ s) h =
    (ground arith, ((ground arith, ground arith), Digit-Plain s (all_digits-All s (ground arith))))

-- The four checks have passed.
pub checks_passed :
    (a b c d : Bool) (m₁ m₂ m₃ m₄ : String)
    → (if not a
        then some m₁
        else if not b
        then some m₂
        else if not c
        then some m₃
        else if not d
        then some m₄
        else none)
      ≡ none
    → (a ≡ true) × (b ≡ true) × (c ≡ true)
checks_passed a b c d m₁ m₂ m₃ m₄ h = ground arith

pub routing_digits : (s : Text) → is_routing_number s ≡ true → (length s ≡ 9) × All Digit s
routing_digits s h = (ground arith, all_digits-All s (ground arith))

pub account_digits : (s : Text) → is_account_number s ≡ true → (length s ≤ 17) × All Digit s
account_digits s h = (ground arith, all_digits-All s (ground arith))

All-all_digits : (s : Text) → All Digit s → all_digits s ≡ true
unfolding all_digits
All-all_digits [] h = refl
All-all_digits (c ∷ s) ((low, high), h) = ground (arith, All-all_digits s h)

-- What `POST /payments` asks of a request, with the amount that the number parser reads.
abbrev pub IsValid : CreatePaymentRequest → Option Decimal → Decimal → Type 0
IsValid req parsed amount =
    (req.amount ≢ [])
    × (parsed ≡ some amount)
    × (is_positive amount.coefficient ≡ true)
    × (4 ≤ length req.account_number)
    × (length req.account_number ≤ 17)
    × All Digit req.account_number
    × (length req.routing_number ≡ 9)
    × All Digit req.routing_number

-- The same by the tests themselves.
abbrev Passes : CreatePaymentRequest → Option Decimal → Decimal → Type 0
Passes req parsed amount =
    (req.amount ≢ [])
    × (parsed ≡ some amount)
    × (is_positive amount.coefficient ≡ true)
    × (is_account_number req.account_number ≡ true)
    × (is_routing_number req.routing_number ≡ true)

accepted-Passes :
    (req : CreatePaymentRequest) (parsed : Option Decimal) (amount : Decimal)
    → create_problem req parsed ≡ inr amount
    → Passes req parsed amount
accepted-Passes req parsed amount h =
    (λ e. ground arith, ground arith, ground arith, ground arith, ground arith)

Passes-accepted :
    (req : CreatePaymentRequest) (parsed : Option Decimal) (amount : Decimal)
    → Passes req parsed amount
    → create_problem req parsed ≡ inr amount
Passes-accepted req parsed amount (a, b, c, d, e) = ground arith

Passes-IsValid :
    (req : CreatePaymentRequest) (parsed : Option Decimal) (amount : Decimal)
    → Passes req parsed amount
    → IsValid req parsed amount
Passes-IsValid req parsed amount (a, b, c, d, e) =
    let (short, account) = account_digits req.account_number d in
    let (nine, routing) = routing_digits req.routing_number e in
    (a, b, c, ground arith, short, account, nine, routing)

IsValid-Passes :
    (req : CreatePaymentRequest) (parsed : Option Decimal) (amount : Decimal)
    → IsValid req parsed amount
    → Passes req parsed amount
IsValid-Passes req parsed amount (a, b, c, long, short, account, nine, routing) = (
  a,
  b,
  c,
  ground (arith, All-all_digits req.account_number account),
  ground (arith, All-all_digits req.routing_number routing),
)

-- `createPayment` accepts exactly the requests with a positive amount that the number parser reads,
-- an account number of 4 to 17 digits and a routing number of nine digits, and the amount that it
-- goes on with is the one read.
pub create_problem_iff :
    (req : CreatePaymentRequest) (parsed : Option Decimal) (amount : Decimal)
    → (create_problem req parsed ≡ inr amount) ↔ IsValid req parsed amount
create_problem_iff req parsed amount = (
  λ h. Passes-IsValid req parsed amount (accepted-Passes req parsed amount h),
  λ h. Passes-accepted req parsed amount (IsValid-Passes req parsed amount h),
)
