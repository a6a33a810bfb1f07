-- ===== src/Api/Returns.antt =====
-- The endpoint for returns, from the request to the signal.
use ach_orchestrator.Base.Text.{Text}
use ach_orchestrator.World.{World}
