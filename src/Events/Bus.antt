-- ===== src/Events/Bus.antt =====
-- internal/domain/events/qos/bus.go: the event bus with delivery levels. The locks make each counter
-- and each map access atomic. Handlers share a world `W`, as in the publisher.
pub mod Retry
pub mod Async
use kairos_agent.Base.{
  ℕ, zero, suc, ◌+◌, String, Bool, true, false, ◌||◌, Option, none, some, List, [], ◌∷◌, ◌++◌,
  str_eq, ltb, if◌then◌else◌,
}
use kairos_agent.Base.Int.{ℤ, pos, pos_part, ◌+ℤ◌}
use kairos_agent.Base.Words.{incr64}
use kairos_agent.Base.Lists.{length}
use kairos_agent.Base.Dict.{Dict, lookup, insert}
use kairos_agent.Events.Outcome.{safe_handle}
use kairos_agent.Events.Publisher.{Handler, first_error, invoke}

abbrev pub QosLevel : Type 0
QosLevel = String

abbrev pub qos_at_most_once : QosLevel
qos_at_most_once = "0"

abbrev pub qos_at_least_once : QosLevel
qos_at_least_once = "1"

pub record Config : Type 0 where
  pub qos_level : QosLevel
  pub max_retries : ℤ
  pub retry_interval : ℤ
  pub buffer_size : ℕ

unfoldable pub default_config : Config
default_config = record {
  qos_level = qos_at_least_once;
  max_retries = pos 3;
  retry_interval = pos 1_000_000_000;
  buffer_size = 1000;
}

pub record QosHandler (W E : Type 0) : Type 0 where
  pub handler : Handler W E
  pub qos : QosLevel

-- The `int64` counters are 64-bit patterns. `canceled` is `b.ctx.Err() != nil`; `queue` is what
-- `asyncCh` holds, the oldest first; `spawned` are the goroutines of level 0 that have not run yet;
-- `working` says that the worker has not returned.
pub record Bus (W E : Type 0) : Type 0 where
  pub cfg : Config
  pub handlers : Dict (List (QosHandler W E))
  pub published_cnt : ℕ
  pub dropped_cnt : ℕ
  pub retried_cnt : ℕ
  pub closed : Bool
  pub canceled : Bool
  pub queue : List E
  pub spawned : List (Handler W E × E)
  pub working : Bool

-- How a pause between two attempts ends.
pub data Wait : Type 0 where
  elapsed : Wait
  context_done : String → Wait
  bus_done : Wait

abbrev pub context_canceled : String
context_canceled = "context canceled"

-- The rounds of `for i := 0; i <= MaxRetries; i++`.
abbrev pub rounds : Config → ℕ
rounds cfg = pos_part (cfg.max_retries +ℤ pos 1)

module _ {W E : Type 0} where
  unfoldable pub new_bus : Config → Bus W E
  new_bus cfg = record {
    cfg = cfg;
    handlers = [];
    published_cnt = 0;
    dropped_cnt = 0;
    retried_cnt = 0;
    closed = false;
    canceled = false;
    queue = [];
    spawned = [];
    working = true;
  }

  abbrev or_none : Option (List (QosHandler W E)) → List (QosHandler W E)
  or_none none = []
  or_none (some l) = l

  unfoldable pub subscribe : String → Handler W E → QosLevel → Bus W E → Bus W E
  subscribe t h qos b =
      let entry : QosHandler W E = record { handler = h; qos = qos } in
      record b { handlers = insert t (or_none (lookup t b.handlers) ++ entry ∷ []) b.handlers }

  -- The loop of `deliverQoS1`: the attempts left, the number of this one, the pauses, and the
  -- counter of retries. The result is the error, the counter, and the world.
  unfoldable pub retry_loop : ℕ → ℕ → (ℕ → Wait) → Handler W E → E → ℕ → W → Option String × ℕ × W
  unfolding safe_handle
  retry_loop zero i waits h event retried w = (none, retried, w)
  retry_loop (suc zero) i waits h event retried w =
      let (outcome, w') = invoke h event w in
      elim (safe_handle outcome) [
        | none ↦ (none, retried, w')
        | some e ↦ (some e, incr64 retried, w')
      ]
  retry_loop (suc (suc n)) i waits h event retried w =
      let (outcome, w') = invoke h event w in
      elim (safe_handle outcome) [
        | none ↦ (none, retried, w')
        | some e ↦ elim (waits i) [
          | elapsed ↦ retry_loop (suc n) (i + 1) waits h event (incr64 retried) w'
          | context_done reason ↦ (some reason, incr64 retried, w')
          | bus_done ↦ (some context_canceled, incr64 retried, w')
        ]
      ]

  unfoldable pub deliver_qos1 :
      (ℕ → Wait) → E → Handler W E → Bus W E → W → Option String × Bus W E × W
  unfolding retry_loop
  deliver_qos1 waits event h b w =
      let (err, retried, w') = retry_loop (rounds b.cfg) 0 waits h event b.retried_cnt w in
      (err, record b { published_cnt = incr64 b.published_cnt; retried_cnt = retried }, w')

  unfoldable pub deliver_qos0 : E → Handler W E → Bus W E → Bus W E
  deliver_qos0 event h b = record b {
    published_cnt = incr64 b.published_cnt;
    spawned = b.spawned ++ (h, event) ∷ [];
  }

  -- `deliver`: level 2 and any other falls back to level 1.
  unfoldable pub deliver :
      (ℕ → Wait) → E → QosHandler W E → Bus W E → W → Option String × Bus W E × W
  unfolding deliver_qos0 deliver_qos1
  deliver waits event h b w =
      if str_eq h.qos qos_at_most_once
      then (none, deliver_qos0 event h.handler b, w)
      else deliver_qos1 waits event h.handler b w

  -- The loop of `Publish`, which returns the first error. Each handler has pauses of its own.
  unfoldable pub publish_loop :
      List (QosHandler W E)
      → (ℕ → ℕ → Wait)
      → ℕ
      → E
      → Option String
      → Bus W E
      → W
      → Option String × Bus W E × W
  unfolding deliver
  publish_loop [] waits k event first b w = (first, b, w)
  publish_loop (h ∷ hs) waits k event first b w =
      let (err, b', w') = deliver (waits k) event h b w in
      publish_loop hs waits (k + 1) event (first_error first err) b' w'

  unfoldable pub publish :
      (E → String) → (ℕ → ℕ → Wait) → Option E → Bus W E → W → Option String × Bus W E × W
  unfolding publish_loop
  publish type_of waits none b w = (some "event is nil", b, w)
  publish type_of waits (some event) b w =
      if b.closed || b.canceled
      then (some context_canceled, b, w)
      else publish_loop (or_none (lookup (type_of event) b.handlers)) waits 0 event none b w

  -- `PublishAsync`; the flag says that the caller's context is done.
  unfoldable pub publish_async : Bool → Option E → Bus W E → Bus W E
  publish_async context_err none b = b
  publish_async context_err (some event) b =
      if b.closed || (b.canceled || context_err)
      then record b { dropped_cnt = incr64 b.dropped_cnt }
      else if ltb (length b.queue) b.cfg.buffer_size
      then record b { queue = b.queue ++ event ∷ []; published_cnt = incr64 b.published_cnt }
      else record b { dropped_cnt = incr64 b.dropped_cnt }

  -- `asyncWorker` takes an event.
  take_event : (E → String) → (ℕ → ℕ → Wait) → List E → Bus W E → W → Bus W E × W
  unfolding publish
  take_event type_of waits [] b w = (b, w)
  take_event type_of waits (event ∷ rest) b w =
      let (err, b', w') = publish type_of waits (some event) (record b { queue = rest }) w in
      (b', w')

  unfoldable pub worker_takes : (E → String) → (ℕ → ℕ → Wait) → Bus W E → W → Bus W E × W
  unfolding take_event
  worker_takes type_of waits b w =
      if b.working then take_event type_of waits b.queue b w else (b, w)

  -- `asyncWorker` sees `stopCh`, which `Close` closes, and returns.
  unfoldable pub worker_stops : Bus W E → Bus W E
  worker_stops b = if b.closed then record b { working = false } else b

  -- `Close`, until it waits for the worker.
  unfoldable pub close : Bus W E → Bus W E
  close b = if b.closed then b else record b { closed = true; canceled = true }

  unfoldable pub stats : Bus W E → ℕ × ℕ × ℕ
  stats b = (b.published_cnt, b.dropped_cnt, b.retried_cnt)
