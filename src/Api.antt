-- ===== src/Api.antt =====
-- internal/api: the handlers behind the routes.
pub mod Responses
pub mod Handlers
pub mod Router
pub mod Validation
pub mod Returns
pub mod Create
pub mod Reads
pub mod Health
