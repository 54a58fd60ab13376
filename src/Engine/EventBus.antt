-- ===== src/Engine/EventBus.antt =====
-- internal/engine/eventbus.go: the event bus of the older engine. `E` is the type of events. A critical
-- section, an atomic operation and an operation on a channel is one step each; a subscription is
-- reached by a pointer. Handlers are the caller's code: the model records the events that they got.
use kairos_agent.Base.{
  ℕ, suc, String, Bool, true, false, not, ◌&&◌, ◌||◌, Option, none, some, List, [], ◌∷◌, ◌++◌, map,
  ltb, ◌==◌, if◌then◌else◌,
}
use kairos_agent.Base.Int.{ℤ, pos, eqb_ℤ}
use kairos_agent.Base.Words.{incr64}
use kairos_agent.Base.Lists.{length}
use kairos_agent.Base.Dict.{Dict, lookup, insert, erase}

pub record Subscription (E : Type 0) : Type 0 where
  pub subscription_id : ℕ
  pub qos : ℤ
  pub capacity : ℕ
  pub queue : List E
  pub stopped : Bool
  pub received : List E
  pub delivering : Bool

-- A call of `Publish`: `passed` are the subscriptions that the loop has left behind.
pub data Publishing (E : Type 0) : Type 0 where
  returned : Publishing E
  checked : E → Publishing E
  sending : E → List ℕ → List ℕ → Publishing E
  panicked : Publishing E

-- `Shutdown`: the flag is set, the subscriptions are stopped, the context is canceled.
pub data Shutting : Type 0 where
  not_shut : Shutting
  flag_set : Shutting
  subscribers_stopped : Shutting
  context_canceled : Shutting

abbrev pub is_closed : Shutting → Bool
is_closed not_shut = false
is_closed flag_set = true
is_closed subscribers_stopped = true
is_closed context_canceled = true

-- `stopped` of a subscription says that `stopOnce` has run: the channel is closed. `is_done` is the end
-- of `eb.ctx`; `publishers` are the calls of `Publish`, each under a number.
pub record EventBus (E : Type 0) : Type 0 where
  pub subscribers : Dict (List (ℕ × ℕ))
  pub next_id : ℕ
  pub heap : ℕ → Subscription E
  pub allocated : ℕ
  pub is_done : Bool
  pub shutting : Shutting
  pub dropped_events : ℕ
  pub publishers : ℕ → Publishing E

module _ {V : Type 0} where
  unfoldable pub assigned : ℕ → V → (ℕ → V) → ℕ → V
  assigned i x f j = if i == j then x else f j

  abbrev pub or_nothing : Option (List V) → List V
  or_nothing none = []
  or_nothing (some l) = l

-- The inner map, from ids to pointers.
unfoldable pub find_id : ℕ → List (ℕ × ℕ) → Option ℕ
find_id id [] = none
find_id id ((i, p) ∷ rest) = let later = find_id id rest in if i == id then some p else later

unfoldable pub put_id : ℕ → ℕ → List (ℕ × ℕ) → List (ℕ × ℕ)
put_id id p [] = (id, p) ∷ []
put_id id p ((i, q) ∷ rest) =
    let later = put_id id p rest in if i == id then (id, p) ∷ rest else (i, q) ∷ later

unfoldable pub drop_id : ℕ → List (ℕ × ℕ) → List (ℕ × ℕ)
drop_id id [] = []
drop_id id ((i, q) ∷ rest) = let later = drop_id id rest in if i == id then rest else (i, q) ∷ later

abbrev pub pointers : List (ℕ × ℕ) → List ℕ
pointers subs = map (λ s. s.1) subs

unfoldable pub all_pointers : Dict (List (ℕ × ℕ)) → List ℕ
all_pointers [] = []
all_pointers ((_, subs) ∷ rest) = pointers subs ++ all_pointers rest

abbrev without : String → List (ℕ × ℕ) → Dict (List (ℕ × ℕ)) → Dict (List (ℕ × ℕ))
without type [] subscribers = erase type subscribers
without type (s ∷ rest) subscribers = insert type (s ∷ rest) subscribers

module _ {E : Type 0} where
  unfoldable pub new_event_bus : Subscription E → EventBus E
  new_event_bus nowhere = record {
    subscribers = [];
    next_id = 1;
    heap = λ p. nowhere;
    allocated = 0;
    is_done = false;
    shutting = not_shut;
    dropped_events = 0;
    publishers = λ k. returned;
  }

  unfoldable pub new_subscription : ℕ → ℤ → Subscription E
  new_subscription id qos = record {
    subscription_id = id;
    qos = qos;
    capacity = if eqb_ℤ qos (pos 0) then 10 else 1000;
    queue = [];
    stopped = false;
    received = [];
    delivering = true;
  }

  abbrev pub subscribed : String → ℤ → EventBus E → ℕ × EventBus E
  subscribed type qos b =
      let id = incr64 b.next_id in
      let subs = put_id id b.allocated (or_nothing (lookup type b.subscribers)) in
      (
        id,
        record b {
          next_id = id;
          heap = assigned b.allocated (new_subscription id qos) b.heap;
          allocated = suc b.allocated;
          subscribers = insert type subs b.subscribers;
        },
      )

  -- `Subscribe`
  unfoldable pub subscribe : String → ℤ → EventBus E → ℕ × EventBus E
  subscribe type qos b = if is_closed b.shutting || b.is_done then (0, b) else subscribed type qos b

  abbrev pub stop_at : ℕ → (ℕ → Subscription E) → ℕ → Subscription E
  stop_at p heap = assigned p (record (heap p) { stopped = true }) heap

  abbrev pub unsubscribe_found : String → ℕ → List (ℕ × ℕ) → Option ℕ → EventBus E → EventBus E
  unsubscribe_found type id subs none b = b
  unsubscribe_found type id subs (some p) b = record b {
    heap = stop_at p b.heap;
    subscribers = without type (drop_id id subs) b.subscribers;
  }

  -- `Unsubscribe`
  unfoldable pub unsubscribe : String → ℕ → EventBus E → EventBus E
  unsubscribe type id b =
      let subs = or_nothing (lookup type b.subscribers) in
      unsubscribe_found type id subs (find_id id subs) b

  abbrev pub now_at : ℕ → Publishing E → EventBus E → EventBus E
  now_at k s b = record b { publishers = assigned k s b.publishers }

  -- `Publish` up to the lock; the event may be nil.
  unfoldable pub check_publish : ℕ → Option E → EventBus E → EventBus E
  check_publish k none b = now_at k returned b
  check_publish k (some e) b =
      if is_closed b.shutting || b.is_done then now_at k returned b else now_at k (checked e) b

  abbrev pub copied : ℕ → E → (List ℕ → List ℕ) → Option (List (ℕ × ℕ)) → EventBus E → EventBus E
  copied k e visit none b = now_at k returned b
  copied k e visit (some subs) b = now_at k (sending e [] (visit (pointers subs))) b

  abbrev pub copy_from :
      (E → String) → ℕ → (List ℕ → List ℕ) → Publishing E → EventBus E → EventBus E
  copy_from type_of k visit (checked e) b = copied k e visit (lookup (type_of e) b.subscribers) b
  copy_from type_of k visit returned b = b
  copy_from type_of k visit (sending _ _ _) b = b
  copy_from type_of k visit panicked b = b

  -- The section under the lock. `visit` is the order in which Go visits the map.
  unfoldable pub copy_subscribers : (E → String) → ℕ → (List ℕ → List ℕ) → EventBus E → EventBus E
  copy_subscribers type_of k visit b = copy_from type_of k visit (b.publishers k) b

  abbrev pub has_room : Subscription E → Bool
  has_room s = ltb (length s.queue) s.capacity

  abbrev pub push_at : ℕ → E → (ℕ → Subscription E) → ℕ → Subscription E
  push_at p e heap = assigned p (record (heap p) { queue = (heap p).queue ++ (e ∷ []) }) heap

  abbrev pub sent : ℕ → E → List ℕ → ℕ → List ℕ → EventBus E → EventBus E
  sent k e passed p rest b = record b {
    heap = push_at p e b.heap;
    publishers = assigned k (sending e (p ∷ passed) rest) b.publishers;
  }

  -- The send without waiting.
  abbrev pub send_qos0 : ℕ → E → List ℕ → ℕ → List ℕ → EventBus E → EventBus E
  send_qos0 k e passed p rest b =
      if (b.heap p).stopped
      then now_at k panicked b
      else if has_room (b.heap p)
      then sent k e passed p rest b
      else record b {
        dropped_events = incr64 b.dropped_events;
        publishers = assigned k (sending e (p ∷ passed) rest) b.publishers;
      }

  -- The waiting send. `give_up` is the choice of `select` when the context is done as well.
  abbrev pub send_qos1 : ℕ → Bool → E → List ℕ → ℕ → List ℕ → EventBus E → EventBus E
  send_qos1 k give_up e passed p rest b =
      let can_send = (b.heap p).stopped || has_room (b.heap p) in
      if b.is_done && (give_up || not can_send)
      then now_at k returned b
      else if (b.heap p).stopped
      then now_at k panicked b
      else if has_room (b.heap p)
      then sent k e passed p rest b
      else b

  abbrev pub send_from : ℕ → Bool → Publishing E → EventBus E → EventBus E
  send_from k give_up (sending e passed []) b = now_at k returned b
  send_from k give_up (sending e passed (p ∷ rest)) b =
      if eqb_ℤ (b.heap p).qos (pos 0)
      then send_qos0 k e passed p rest b
      else send_qos1 k give_up e passed p rest b
  send_from k give_up returned b = b
  send_from k give_up (checked _) b = b
  send_from k give_up panicked b = b

  -- A round of the loop over the copied subscriptions.
  unfoldable pub send : ℕ → Bool → EventBus E → EventBus E
  send k give_up b = send_from k give_up (b.publishers k) b

  -- A round of `deliverEvents`; a panic of the handler is recovered.
  unfoldable pub delivered : Bool → List E → Subscription E → Subscription E
  delivered is_done [] s = if s.stopped || is_done then record s { delivering = false } else s
  delivered is_done (e ∷ rest) s = record s { queue = rest; received = s.received ++ (e ∷ []) }

  unfoldable pub deliver_events : ℕ → EventBus E → EventBus E
  deliver_events p b =
      let s = b.heap p in
      if s.delivering
      then record b { heap = assigned p (delivered b.is_done s.queue s) b.heap }
      else b

  unfoldable pub stop_each : List ℕ → (ℕ → Subscription E) → ℕ → Subscription E
  stop_each [] heap = heap
  stop_each (p ∷ rest) heap = stop_each rest (stop_at p heap)

  abbrev pub shut_from : Shutting → EventBus E → EventBus E
  shut_from not_shut b = record b { shutting = flag_set }
  shut_from flag_set b = record b {
    shutting = subscribers_stopped;
    heap = stop_each (all_pointers b.subscribers) b.heap;
    subscribers = [];
  }
  shut_from subscribers_stopped b = record b { shutting = context_canceled; is_done = true }
  shut_from context_canceled b = b

  -- The next section of `Shutdown`, which runs once and then waits for the goroutines.
  unfoldable pub shutdown_step : EventBus E → EventBus E
  shutdown_step b = shut_from b.shutting b

-- What callers and goroutines do, in any order.
pub data BusStep (E : Type 0) : Type 0 where
  subscribes : String → ℤ → BusStep E
  unsubscribes : String → ℕ → BusStep E
  publishes : ℕ → Option E → BusStep E
  copies : ℕ → (List ℕ → List ℕ) → BusStep E
  sends : ℕ → Bool → BusStep E
  delivers : ℕ → BusStep E
  shuts : BusStep E
  parent_ends : BusStep E

module _ {E : Type 0} (type_of : E → String) where
  unfoldable pub bus_step : BusStep E → EventBus E → EventBus E
  bus_step (subscribes type qos) b = (subscribe type qos b).1
  bus_step (unsubscribes type id) b = unsubscribe type id b
  bus_step (publishes k e) b = check_publish k e b
  bus_step (copies k visit) b = copy_subscribers type_of k visit b
  bus_step (sends k give_up) b = send k give_up b
  bus_step (delivers p) b = deliver_events p b
  bus_step shuts b = shutdown_step b
  bus_step parent_ends b = record b { is_done = true }

  unfoldable pub bus_run : List (BusStep E) → EventBus E → EventBus E
  bus_run [] b = b
  bus_run (s ∷ rest) b = bus_run rest (bus_step s b)
