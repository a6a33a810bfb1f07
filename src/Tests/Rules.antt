-- ===== src/Tests/Rules.antt =====
-- The theorems on the rules and the return codes at concrete inputs.
use ach_orchestrator.Base.{true, ◌≡◌, ◌↔◌}
use ach_orchestrator.Base.Text.{codes}
use ach_orchestrator.Domain.Rcode.{retryable, compliance, route_r_code}
use ach_orchestrator.Domain.Rcode.Routing.{IsStandard, IsRetryCode, IsReviewCode, route_r_code_lem}

route_r_code_lem_example :
    (((route_r_code (codes "R34")).0 ≡ retryable) ↔ IsRetryCode (codes "R34"))
    × (((route_r_code (codes "R34")).0 ≡ compliance) ↔ IsReviewCode (codes "R34"))
    × (((route_r_code (codes "R34")).2 ≡ true) ↔ IsStandard (codes "R34"))
route_r_code_lem_example = route_r_code_lem (codes "R34")
