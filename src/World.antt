-- ===== src/World.antt =====
-- What the operations act on: the tables, the Redis keys and the calls that leave the process, and
-- the monad of actions that may fail.
mod Tables
mod Monad
pub mod View
unfoldable pub use Tables.*
unfoldable pub use Monad.*
