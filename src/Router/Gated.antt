-- ===== src/Router/Gated.antt =====
-- The router behind the production gate of the runtime.
use kairos_agent.Base.{String, ◌⊎◌, inl, inr, Bool, true, false}
use kairos_agent.Router.{RouterError}
use kairos_agent.Runtime.Manager.{Manager}
use kairos_agent.Runtime.Trace as Trace

abbrev pub is_submitted : String ⊎ RouterError → Bool
is_submitted (inl _) = true
is_submitted (inr _) = false
