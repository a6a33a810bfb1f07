-- ===== src/Api/Router.antt =====
-- internal/api/handlers.go: the routes that `Router` registers. The matching is chi's.
use ach_orchestrator.Base.{List, [], ◌∷◌, ◌++◌}
use ach_orchestrator.Base.Text.{Text, codes}

pub data Method : Type 0 where
  get post : Method

-- The handlers.
pub data Endpoint : Type 0 where
  creates shows returns audits : Endpoint
  dashboard lists : Endpoint

-- A route: its method, its pattern and its handler.
abbrev pub Route : Type 0
Route = Method × Text × Endpoint

-- `r.Route`: the routes of the inner router behind a prefix.
unfoldable pub below : Text → List Route → List Route
below prefix [] = []
below prefix ((method, pattern, endpoint) ∷ routes) =
    (method, prefix ++ pattern, endpoint) ∷ below prefix routes

-- `Router`
unfoldable pub router : List Route
unfolding below
router =
    below (codes "/payments") (
      (post, codes "/", creates)
      ∷ below (codes "/{id}") (
          (get, codes "/", shows)
          ∷ (post, codes "/return", returns)
          ∷ (get, codes "/audit", audits)
          ∷ []))
    ++ ((get, codes "/dashboard", dashboard) ∷ (get, codes "/api/payments", lists) ∷ [])
