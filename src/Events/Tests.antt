-- ===== src/Events/Tests.antt =====
-- The publisher and the bus on concrete inputs. The world is the list of the handlers called.
use kairos_agent.Base.{
  ℕ, String, ◌≡◌, refl, Bool, true, false, some, List, [], ◌∷◌, ◌++◌, arith, ltb, if◌then◌else◌,
}
use kairos_agent.Base.Int.{pos}
use kairos_agent.Base.Lists.{length}
use kairos_agent.Base.Dict.{lookup, insert}
use kairos_agent.Events.Outcome.{Outcome, returned, returned_error, panicked, safe_handle}
use kairos_agent.Events.Publisher.{Handler, handler, Publisher, new_publisher, subscribe, publish}
use kairos_agent.Events.Bus.Retry.{qos1_exhausts}
use kairos_agent.Events.Bus.Async.{
  offer_all_counts, offer_all, IsValid, Op, publish_later, worker_stop, close_again,
}
use kairos_agent.Events.Bus
use kairos_agent.Events.Bus.Async

abbrev named : ℕ → Outcome → Handler (List ℕ) String
named n o = handler (λ event w. (o, w ++ n ∷ []))

abbrev kind : String → String
kind event = event

abbrev crowd : Publisher (List ℕ) String
crowd = subscribe "order" (named 3 (returned_error "late")) (
    subscribe "order" (named 2 (panicked "boom"))
      (subscribe "order" (named 1 returned) new_publisher))

crowd_publishes :
    publish kind (some "order") crowd [] ≡ (some "event handler panic: boom", 1 ∷ 2 ∷ 3 ∷ [])
unfolding publish subscribe new_publisher lookup insert
crowd_publishes = refl

-- Fails until it was called twice.
abbrev flaky : Handler (List ℕ) String
flaky =
    handler (λ event w. (if ltb (length w) 2 then returned_error "down" else returned, w ++ 1 ∷ []))

abbrev bus : Bus.Bus (List ℕ) String
bus = Bus.new_bus Bus.default_config

abbrev patient : ℕ → Bus.Wait
patient _ = Bus.elapsed

abbrev once : Bus.Bus (List ℕ) String
once = Bus.new_bus (record (Bus.default_config) { max_retries = pos 0 })

qos1_exhausts_example :
    Bus.deliver_qos1 patient "order" flaky once []
    ≡ (some "down", record once { published_cnt = 1; retried_cnt = 1 }, 1 ∷ [])
unfolding Bus.new_bus Bus.default_config safe_handle
qos1_exhausts_example =
    qos1_exhausts flaky "order" 0 patient once [] refl (omega arith) (λ j h. absurd (omega arith))
      refl

abbrev narrow : Bus.Bus (List ℕ) String
narrow = Bus.new_bus (record (Bus.default_config) { buffer_size = 1 })

abbrev offers : List (Bool × String)
offers = (false, "a") ∷ (false, "b") ∷ (true, "c") ∷ []

offers_counted :
    (Bus.stats (offer_all offers narrow) ≡ (1, 2, 0)) × ((offer_all offers narrow).queue ≡ "a" ∷ [])
unfolding offer_all Bus.publish_async Bus.new_bus Bus.default_config Bus.stats
offers_counted = (refl, refl)

abbrev loaded : Bus.Bus (List ℕ) String
loaded = offer_all offers (Bus.subscribe "a" (named 1 returned) Bus.qos_at_least_once narrow)
