-- ===== src/Events/Outcome.antt =====
-- What one call of a handler does, and `safeHandle`, which both the publisher and the bus have.
use kairos_agent.Base.{String, Option, none, some, append}

pub data Outcome : Type 0 where
  returned : Outcome
  returned_error : String → Outcome
  panicked : String → Outcome

-- `safeHandle`: a panic becomes an error.
unfoldable pub safe_handle : Outcome → Option String
safe_handle returned = none
safe_handle (returned_error e) = some e
safe_handle (panicked p) = some (append "event handler panic: " p)
