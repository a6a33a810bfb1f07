-- ===== src/Domain/Rcode.antt =====
-- internal/domain/rcode.go: the table of return codes, the map built from it, and the lookup.
pub mod Routing
use Prim.Native.String.{String}
use ach_orchestrator.Base.{
  Bool, true, false, Option, none, some, List, [], ◌∷◌, ◌++◌, if◌then◌else◌,
}
use ach_orchestrator.Base.Text.{Text, codes, text_eq}

-- `type ReturnCategory int`: its three constants.
pub data ReturnCategory : Type 0 where
  retryable non_retryable compliance : ReturnCategory

pub record RCodeDefinition : Type 0 where
  pub code : Text
  pub description : String
  pub category : ReturnCategory

abbrev def_of : String → String → ReturnCategory → RCodeDefinition
def_of c d k = record { code = codes c; description = d; category = k }

-- The three parts of `rCodeTable`.
abbrev pub retryable_codes : List RCodeDefinition
retryable_codes =
    def_of "R01" "Insufficient Funds" retryable
    ∷ def_of "R08" "Payment Stopped" retryable
    ∷ def_of "R09" "Uncollected Funds" retryable
    ∷ []

abbrev pub non_retryable_codes : List RCodeDefinition
non_retryable_codes =
    def_of "R02" "Account Closed" non_retryable
    ∷ def_of "R03" "No Account / Unable to Locate Account" non_retryable
    ∷ def_of "R04" "Invalid Account Number" non_retryable
    ∷ def_of "R06" "Returned per ODFI's Request" non_retryable
    ∷ def_of "R07" "Authorization Revoked by Customer" non_retryable
    ∷ def_of "R10" "Customer Advises Not Authorized" non_retryable
    ∷ def_of "R11" "Customer Advises Entry Not in Accordance with the Terms of the Authorization"
        non_retryable
    ∷ def_of "R12" "Branch Sold to Another DFI" non_retryable
    ∷ def_of "R13" "RDFI Not Qualified to Participate" non_retryable
    ∷ def_of "R17" "File Record Edit Criteria" non_retryable
    ∷ def_of "R18" "Improper Effective Entry Date" non_retryable
    ∷ def_of "R19" "Amount Field Error" non_retryable
    ∷ def_of "R20" "Non-Transaction Account" non_retryable
    ∷ def_of "R21" "Invalid Company Identification" non_retryable
    ∷ def_of "R22" "Invalid Individual ID Number" non_retryable
    ∷ def_of "R23" "Credit Entry Refused by Receiver" non_retryable
    ∷ def_of "R24" "Duplicate Entry" non_retryable
    ∷ def_of "R25" "Addenda Error" non_retryable
    ∷ def_of "R26" "Mandatory Field Error" non_retryable
    ∷ def_of "R27" "Trace Number Error" non_retryable
    ∷ def_of "R28" "Routing Number Check Digit Error" non_retryable
    ∷ def_of "R29" "Corporate Customer Advises Not Authorized" non_retryable
    ∷ def_of "R30" "RDFI Not Participant in Check Truncation Program" non_retryable
    ∷ def_of "R31" "Permissible Return Entry (CCD and CTX only)" non_retryable
    ∷ def_of "R32" "RDFI Non-Settlement" non_retryable
    ∷ def_of "R33" "Return of XCK Entry" non_retryable
    ∷ []

abbrev pub compliance_codes : List RCodeDefinition
compliance_codes =
    def_of "R05" "Unauthorized Debit to Consumer Account Using Corporate SEC Code" compliance
    ∷ def_of "R14" "Representative Payee Deceased or Unable to Continue in That Capacity" compliance
    ∷ def_of "R15" "Beneficiary or Account Holder Deceased" compliance
    ∷ def_of "R16" "Account Frozen / Entry Returned per OFAC Instruction" compliance
    ∷ []

-- `rCodeTable`
unfoldable pub r_code_table : List RCodeDefinition
r_code_table = retryable_codes ++ (non_retryable_codes ++ compliance_codes)

-- `map[string]RCodeDefinition`
abbrev pub RCodeMap : Type 0
RCodeMap = List (Text × RCodeDefinition)

-- `m[k] = d`
unfoldable pub put : Text → RCodeDefinition → RCodeMap → RCodeMap
put k d [] = (k, d) ∷ []
put k d ((j, e) ∷ m) = if text_eq j k then (k, d) ∷ m else (j, e) ∷ put k d m

-- `d, ok := m[k]`
unfoldable pub lookup : Text → RCodeMap → Option RCodeDefinition
lookup k [] = none
lookup k ((j, d) ∷ m) = if text_eq j k then some d else lookup k m

-- the loop of `init`
unfoldable pub build_map : List RCodeDefinition → RCodeMap → RCodeMap
build_map [] m = m
build_map (d ∷ defs) m = build_map defs (put d.code d m)

-- `rCodeMap` once `init` has run
unfoldable pub r_code_map : RCodeMap
unfolding build_map put text_eq r_code_table
r_code_map = build_map r_code_table []

-- `RouteRCode`: category, description, known
unfoldable pub route_r_code : Text → ReturnCategory × String × Bool
unfolding lookup r_code_map
route_r_code code = elim (lookup code r_code_map) [
  | none ↦ (non_retryable, "Unknown R-code — defaulting to NonRetryable", false)
  | some d ↦ (d.category, d.description, true)
]

-- the loop of `AllRCodeDefinitions` (a Go map gives its entries in any order)
unfoldable pub all_r_code_definitions : RCodeMap → List RCodeDefinition
all_r_code_definitions [] = []
all_r_code_definitions ((_, d) ∷ m) = d ∷ all_r_code_definitions m
