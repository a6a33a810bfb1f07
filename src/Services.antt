-- ===== src/Services.antt =====
-- The services that the program uses and does not implement: a transaction of pgx, two commands of
-- Redis, an activity call of Temporal, and the text of a UUID. Each comes with what its
-- documentation promises and the program relies on.
mod Simple
unfoldable pub use Simple.{simple}
pub mod Contract
pub mod Healthy
unfoldable pub use Contract.*
