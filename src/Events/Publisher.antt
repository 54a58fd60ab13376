-- ===== src/Events/Publisher.antt =====
-- internal/domain/events/publisher.go. Handlers change a world `W` that they share; the publisher
-- calls them one after another, so the world is passed from each to the next.
use kairos_agent.Base.{String, Option, none, some, List, [], ◌∷◌, ◌++◌}
use kairos_agent.Base.Dict.{Dict, lookup, insert}
use kairos_agent.Events.Outcome.{Outcome, safe_handle}

pub data Handler (W E : Type 0) : Type 0 where
  handler : (E → W → Outcome × W) → Handler W E

-- `handlers` maps the type of an event to its handlers, in the order of registration.
pub record Publisher (W E : Type 0) : Type 0 where
  pub handlers : Dict (List (Handler W E))

-- `firstErr` after one more handler.
abbrev pub first_error : Option String → Option String → Option String
first_error none e = e
first_error (some e) _ = some e

module _ {W E : Type 0} where
  unfoldable pub new_publisher : Publisher W E
  new_publisher = record { handlers = [] }

  abbrev pub or_empty : Option (List (Handler W E)) → List (Handler W E)
  or_empty none = []
  or_empty (some l) = l

  -- `p.handlers[eventType]`
  unfoldable pub handlers_of : String → Publisher W E → List (Handler W E)
  handlers_of t p = or_empty (lookup t p.handlers)

  unfoldable pub subscribe : String → Handler W E → Publisher W E → Publisher W E
  unfolding handlers_of
  subscribe t h p = record p { handlers = insert t (handlers_of t p ++ h ∷ []) p.handlers }

  abbrev pub invoke : Handler W E → E → W → Outcome × W
  invoke (handler f) = f

  -- The loop of `Publish`, with `firstErr` so far.
  unfoldable pub publish_loop : List (Handler W E) → E → Option String → W → Option String × W
  unfolding safe_handle
  publish_loop [] event first w = (first, w)
  publish_loop (h ∷ hs) event first w =
      let (outcome, w') = invoke h event w in
      publish_loop hs event (first_error first (safe_handle outcome)) w'

  -- `Publish`; `none` is the nil event. `type_of` is the event's `Type`.
  unfoldable pub publish : (E → String) → Option E → Publisher W E → W → Option String × W
  unfolding publish_loop handlers_of
  publish type_of none p w = (some "event is nil", w)
  publish type_of (some event) p w = publish_loop (handlers_of (type_of event) p) event none w
