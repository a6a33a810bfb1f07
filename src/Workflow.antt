-- ===== src/Workflow.antt =====
-- internal/workflow/payment_workflow.go
pub mod Types
pub mod Channel
pub mod Duplicates
pub mod Helpers
pub mod Loop
pub mod Spec
pub mod Trail
pub mod Outcome
pub mod Refinement
pub mod Rounds
pub mod Follows
pub mod Limits
pub mod Ends
pub mod Traces
pub mod Ready
pub mod Progress
pub mod Completion
pub mod Frame
pub mod Keeps
pub mod Evolution
pub mod Invariant
pub mod Isolation
pub mod Notice
pub mod Entries
pub mod Submissions
pub mod Refused
