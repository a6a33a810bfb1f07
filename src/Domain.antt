-- ===== src/Domain.antt =====
-- internal/domain: payments, transition rules and return codes.
pub mod Payment
pub mod Rules
pub mod Rcode
