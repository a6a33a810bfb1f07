-- ===== src/Domain/Rcode/Routing.antt =====
-- What `RouteRCode` answers, over all codes.
use ach_orchestrator.Base.{
  ℕ, zero, suc, ◌+◌, ◌-◌, ◌*◌, ◌/◌, ◌%◌, ◌≤◌, Bool, true, false, not, ◌&&◌, ◌||◌, ◌≡◌, ◌↔◌, ◌⊎◌,
  inl, inr, refl, arith, some, List, [], ◌∷◌, Option-cases, All, leb, ◌==◌,
}
use ach_orchestrator.Base.Text.{Text, codes, text_eq, text_eq_sound}
use ach_orchestrator.Domain.Rcode.{
  ReturnCategory, retryable, non_retryable, compliance, RCodeDefinition, RCodeMap, r_code_table,
  lookup, r_code_map, route_r_code,
}

-- Every definition of the table is the answer for its code: none is shadowed by a later one.
pub table_routes : All (λ d. route_r_code d.code ≡ (d.category, d.description, true)) r_code_table
unfolding route_r_code r_code_table
table_routes = ground arith

all_entries : (Text → RCodeDefinition → Bool) → RCodeMap → Bool
all_entries q [] = true
all_entries q ((j, d) ∷ m) = q j d && all_entries q m

-- What holds of every entry holds of the one that is found.
lookup_entry :
    (q : Text → RCodeDefinition → Bool) (k : Text) (m : RCodeMap) {d : RCodeDefinition}
    → all_entries q m ≡ true
    → lookup k m ≡ some d
    → q k d ≡ true
unfolding lookup all_entries
lookup_entry q k [] h e = cc
lookup_entry q k ((j, c) ∷ m) {d} h e =
    ground (arith, text_eq_sound j k, lookup_entry q k m {d = d})

-- The code `R` with a number of two digits.
abbrev pub r_code : ℕ → Text
r_code n = b'R' ∷ (b'0' + n / 10) ∷ (b'0' + n % 10) ∷ []

-- The text is one of the standard codes R01 to R33.
abbrev pub IsStandard : Text → Type 0
IsStandard code = (n : ℕ) × (1 ≤ n) × (n ≤ 33) × (code ≡ r_code n)

abbrev number : ℕ → ℕ → ℕ
number d u = (d - b'0') * 10 + (u - b'0')

is_digit : ℕ → Bool
is_digit c = leb b'0' c && leb c b'9'

is_standard : Text → Bool
unfolding is_digit
is_standard (r ∷ d ∷ u ∷ []) =
    r == b'R' && is_digit d && is_digit u && leb 1 (number d u) && leb (number d u) 33
is_standard _ = false

is_standard_sound : (code : Text) → is_standard code ≡ true → IsStandard code
unfolding is_standard
is_standard_sound (r ∷ d ∷ u ∷ []) h = (number d u, ground arith, ground arith, ground arith)
is_standard_sound [] h = cc
is_standard_sound (r ∷ []) h = cc
is_standard_sound (r ∷ d ∷ []) h = cc
is_standard_sound (r ∷ d ∷ u ∷ x ∷ s) h = cc

-- The test holds of each number from 1 on, `n` of them.
all_up_to : (ℕ → Bool) → ℕ → Bool
all_up_to test zero = true
all_up_to test (suc n) = all_up_to test n && test (suc n)

all_up_to_found :
    (test : ℕ → Bool) (n k : ℕ) → all_up_to test n ≡ true → 1 ≤ k → k ≤ n → test k ≡ true
unfolding all_up_to
all_up_to_found test zero k h low high = absurd (omega arith)
all_up_to_found test (suc n) k h low high = ground (arith, all_up_to_found test n k)

known_table : all_up_to (λ n. (route_r_code (r_code n)).2) 33 ≡ true
unfolding all_up_to route_r_code text_eq
known_table = refl

IsStandard-known : (code : Text) → IsStandard code → (route_r_code code).2 ≡ true
IsStandard-known code (n, lo, hi, e) = rw e (all_up_to_found _ 33 n known_table lo hi)

standard_table : all_entries (λ j d. is_standard j) r_code_map ≡ true
unfolding all_entries is_standard r_code_map
standard_table = refl

known-IsStandard : (code : Text) → (route_r_code code).2 ≡ true → IsStandard code
unfolding route_r_code
known-IsStandard code h = elim (Option-cases (lookup code r_code_map)) [
  | inl e ↦ absurd (cc (rw e at h))
  | inr (d, e) ↦
      is_standard_sound code (lookup_entry (λ j d. is_standard j) code r_code_map standard_table e)
]

-- `RouteRCode` reports a code as known exactly if it is one of R01 to R33.
pub known_iff : (code : Text) → ((route_r_code code).2 ≡ true) ↔ IsStandard code
known_iff code = (known-IsStandard code, IsStandard-known code)

-- The codes that may be presented again, and those that a person has to review.
abbrev pub IsRetryCode : Text → Type 0
IsRetryCode code = (code ≡ codes "R01") ⊎ (code ≡ codes "R08") ⊎ (code ≡ codes "R09")

abbrev pub IsReviewCode : Text → Type 0
IsReviewCode code =
    (code ≡ codes "R05") ⊎ (code ≡ codes "R14") ⊎ (code ≡ codes "R15") ⊎ (code ≡ codes "R16")

abbrev is : ReturnCategory → ReturnCategory → Bool
is retryable retryable = true
is non_retryable non_retryable = true
is compliance compliance = true
is _ _ = false

one_of : List Text → Text → Bool
one_of [] s = false
one_of (t ∷ ts) s = text_eq s t || one_of ts s

abbrev retry_codes : List Text
retry_codes = codes "R01" ∷ codes "R08" ∷ codes "R09" ∷ []

abbrev review_codes : List Text
review_codes = codes "R05" ∷ codes "R14" ∷ codes "R15" ∷ codes "R16" ∷ []

retry_table :
    all_entries (λ j d. not (is retryable d.category) || one_of retry_codes j) r_code_map ≡ true
unfolding all_entries one_of r_code_map
retry_table = refl

review_table :
    all_entries (λ j d. not (is compliance d.category) || one_of review_codes j) r_code_map ≡ true
unfolding all_entries one_of r_code_map
review_table = refl

retry_sound : (s : Text) → one_of retry_codes s ≡ true → IsRetryCode s
unfolding one_of
retry_sound s h = ground (
  arith,
  text_eq_sound s (codes "R01"),
  text_eq_sound s (codes "R08"),
  text_eq_sound s (codes "R09"),
)

review_sound : (s : Text) → one_of review_codes s ≡ true → IsReviewCode s
unfolding one_of
review_sound s h = ground (
  arith,
  text_eq_sound s (codes "R05"),
  text_eq_sound s (codes "R14"),
  text_eq_sound s (codes "R15"),
  text_eq_sound s (codes "R16"),
)

retryable-listed : (code : Text) → (route_r_code code).0 ≡ retryable → IsRetryCode code
unfolding route_r_code
retryable-listed code h = elim (Option-cases (lookup code r_code_map)) [
  | inl e ↦ absurd (cc (rw e at h))
  | inr (d, e) ↦
      retry_sound code (ground (arith, rw e at h, lookup_entry _ code r_code_map retry_table e))
]

compliance-listed : (code : Text) → (route_r_code code).0 ≡ compliance → IsReviewCode code
unfolding route_r_code
compliance-listed code h = elim (Option-cases (lookup code r_code_map)) [
  | inl e ↦ absurd (cc (rw e at h))
  | inr (d, e) ↦
      review_sound code (ground (arith, rw e at h, lookup_entry _ code r_code_map review_table e))
]

listed-retryable : (code : Text) → IsRetryCode code → (route_r_code code).0 ≡ retryable
unfolding route_r_code text_eq
listed-retryable code (inl e) = rw e
listed-retryable code (inr (inl e)) = rw e
listed-retryable code (inr (inr e)) = rw e

listed-compliance : (code : Text) → IsReviewCode code → (route_r_code code).0 ≡ compliance
unfolding route_r_code text_eq
listed-compliance code (inl e) = rw e
listed-compliance code (inr (inl e)) = rw e
listed-compliance code (inr (inr (inl e))) = rw e
listed-compliance code (inr (inr (inr e))) = rw e

-- `RouteRCode` answers Retryable for exactly R01, R08 and R09, and ComplianceEscalation for exactly
-- R05, R14, R15 and R16; so every other text, known or not, is NonRetryable.
pub category_iff :
    (code : Text)
    → (((route_r_code code).0 ≡ retryable) ↔ IsRetryCode code)
      × (((route_r_code code).0 ≡ compliance) ↔ IsReviewCode code)
category_iff code = (
  (retryable-listed code, listed-retryable code),
  (compliance-listed code, listed-compliance code),
)

-- `RouteRCode` answers Retryable for exactly R01, R08 and R09, and ComplianceEscalation for exactly
-- R05, R14, R15 and R16, so every other text is NonRetryable; and it reports as known exactly R01 to
-- R33.
pub route_r_code_lem :
    (code : Text)
    → (((route_r_code code).0 ≡ retryable) ↔ IsRetryCode code)
      × (((route_r_code code).0 ≡ compliance) ↔ IsReviewCode code)
      × (((route_r_code code).2 ≡ true) ↔ IsStandard code)
route_r_code_lem code = ((category_iff code).0, (category_iff code).1, known_iff code)
