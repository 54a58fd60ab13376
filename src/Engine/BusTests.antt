-- ===== src/Engine/BusTests.antt =====
-- The event bus of the engine at concrete inputs.
use kairos_agent.Base.{suc, String, ◌≡◌, refl, ◌⊎◌, true, false, some, List, [], ◌∷◌, arith}
use kairos_agent.Base.Int.{pos}
use kairos_agent.Base.Lists.{length}
use kairos_agent.Base.Dict.{lookup, insert, erase}
use kairos_agent.Engine.EventBus.{
  Subscription, panicked, EventBus, assigned, find_id, put_id, drop_id, all_pointers, new_event_bus,
  new_subscription, subscribe, unsubscribe, check_publish, copy_subscribers, has_room, send,
  stop_each, shutdown_step, BusStep, unsubscribes, publishes, copies, sends, delivers, shuts,
  parent_ends, bus_step, bus_run,
}
use kairos_agent.Engine.Delivery.{WasSent, level1_is_guaranteed}
use kairos_agent.Engine.Draining.{deliver_rounds, drained, ended_drains}

abbrev market : String → String
market e = "ticker"

abbrev nowhere : Subscription String
nowhere = new_subscription 0 (pos 0)

-- A subscription of level 1, and a publisher that has copied it.
abbrev copied_bus : EventBus String
copied_bus =
    bus_run market (publishes 0 (some "a") ∷ copies 0 (λ l. l) ∷ [])
      (subscribe "ticker" (pos 1) (new_event_bus nowhere)).1

abbrev afterwards : List (BusStep String)
afterwards = delivers 0 ∷ shuts ∷ shuts ∷ parent_ends ∷ delivers 0 ∷ []

level1_is_guaranteed_example :
    ((has_room (copied_bus.heap 0) ≡ false) × (send 0 false copied_bus ≡ copied_bus))
    ⊎ ((has_room (copied_bus.heap 0) ≡ true)
        × WasSent "a" ((bus_run market afterwards (send 0 false copied_bus)).heap 0))
unfolding bus_run bus_step subscribe new_event_bus new_subscription check_publish copy_subscribers
    lookup insert put_id assigned
level1_is_guaranteed_example =
    level1_is_guaranteed market 0 false "a" [] 0 [] copied_bus afterwards refl refl refl refl
      (omega arith)

-- The event is sent, then the bus is shut.
abbrev shut_bus : EventBus String
shut_bus = bus_run market (sends 0 false ∷ shuts ∷ shuts ∷ []) copied_bus

ended_drains_example :
    (deliver_rounds (suc (length (shut_bus.heap 0).queue)) 0 shut_bus).heap 0
    ≡ drained (shut_bus.heap 0)
unfolding bus_run bus_step subscribe new_event_bus new_subscription check_publish copy_subscribers
    lookup insert put_id assigned send shutdown_step stop_each all_pointers
ended_drains_example = ended_drains 0 shut_bus refl refl

gets_it : (drained (shut_bus.heap 0)).received ≡ "a" ∷ []
unfolding bus_run bus_step subscribe new_event_bus new_subscription check_publish copy_subscribers
    lookup insert put_id assigned send shutdown_step stop_each all_pointers
gets_it = refl

-- The subscription is cancelled between the copy and the send: the publisher panics.
panics :
    (bus_run market (unsubscribes "ticker" 2 ∷ sends 0 false ∷ []) copied_bus).publishers 0
    ≡ panicked
unfolding bus_run bus_step subscribe new_event_bus new_subscription check_publish copy_subscribers
    lookup insert put_id assigned send unsubscribe find_id drop_id erase
panics = refl
