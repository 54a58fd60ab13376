-- ===== src/Engine/Delivery.antt =====
-- What the event bus keeps of the events that a subscription was sent: internal/engine/eventbus.go.
use kairos_agent.Base.{
  ℕ, ◌≤◌, ◌<◌, String, ◌≡◌, refl, ap, ◌∙◌, ◌⊎◌, inl, inr, Bool, true, false, not, ◌&&◌, ◌||◌,
  Option, none, some, List, [], ◌∷◌, ◌++◌, arith, if◌then◌else◌, Bool-cases, if_cases,
}
use kairos_agent.Base.Int.{ℤ, pos, eqb_ℤ}
use kairos_agent.Base.Words.{incr64}
use kairos_agent.Base.Dict.{lookup}
use kairos_agent.Engine.EventBus.{
  Subscription, Publishing, returned, checked, sending, panicked, Shutting, not_shut, flag_set,
  subscribers_stopped, context_canceled, is_closed, EventBus, assigned, or_nothing, find_id,
  pointers, all_pointers, new_subscription, subscribed, subscribe, unsubscribe_found, unsubscribe,
  now_at, check_publish, copied, copy_from, copy_subscribers, has_room, sent, send_qos0, send_qos1,
  send_from, send, delivered, deliver_events, shut_from, shutdown_step, BusStep, subscribes,
  unsubscribes, publishes, copies, sends, delivers, shuts, parent_ends, bus_step, bus_run,
}
use kairos_agent.Engine.Sending.{
  list_assoc, sent_to, Extends, Extends-same, Extends-trans, Extends-at, Extends-fresh,
  Extends-stop_at, Extends-push_at, Extends-delivered, Extends-stop_each,
}

module _ {E : Type 0} where
  -- What every subscription that is there was sent is kept.
  abbrev pub IsKept : EventBus E → EventBus E → Type 0
  IsKept b later =
      ((p : ℕ) → p < b.allocated → Extends (b.heap p) (later.heap p))
      × (b.allocated ≤ later.allocated)

  same-IsKept :
      (b later : EventBus E) → later.heap ≡ b.heap → later.allocated ≡ b.allocated → IsKept b later
  same-IsKept b later heaps counts =
      ((λ p low. rw heaps (Extends-same (b.heap p))), omega (arith, counts))

  subscribe-IsKept : (type : String) (qos : ℤ) (b : EventBus E) → IsKept b (subscribe type qos b).1
  unfolding subscribe
  subscribe-IsKept type qos b =
      if_cases (λ t. IsKept b t.1) (is_closed b.shutting || b.is_done) (0, b)
        (subscribed type qos b) (λ ends. same-IsKept b b refl refl)
        (λ runs. (
          (λ p low.
              Extends-fresh b.allocated p (new_subscription (incr64 b.next_id) qos) b.heap low),
          omega arith,
        ))

  found-IsKept :
      (type : String) (id : ℕ) (subs : List (ℕ × ℕ)) (found : Option ℕ) (b : EventBus E)
      → IsKept b (unsubscribe_found type id subs found b)
  found-IsKept type id subs none b = same-IsKept b b refl refl
  found-IsKept type id subs (some p) b = ((λ q low. Extends-stop_at p q b.heap), omega arith)

  unsubscribe-IsKept : (type : String) (id : ℕ) (b : EventBus E) → IsKept b (unsubscribe type id b)
  unfolding unsubscribe
  unsubscribe-IsKept type id b =
      let subs = or_nothing (lookup type b.subscribers) in
      found-IsKept type id subs (find_id id subs) b

  check-IsKept : (k : ℕ) (e : Option E) (b : EventBus E) → IsKept b (check_publish k e b)
  unfolding check_publish
  check-IsKept k none b = same-IsKept b (now_at k returned b) refl refl
  check-IsKept k (some e) b =
      if_cases (IsKept b) (is_closed b.shutting || b.is_done) (now_at k returned b)
        (now_at k (checked e) b) (λ ends. same-IsKept b (now_at k returned b) refl refl)
        (λ runs. same-IsKept b (now_at k (checked e) b) refl refl)

  copied-IsKept :
      (k : ℕ) (e : E) (visit : List ℕ → List ℕ) (subs : Option (List (ℕ × ℕ))) (b : EventBus E)
      → IsKept b (copied k e visit subs b)
  copied-IsKept k e visit none b = same-IsKept b (now_at k returned b) refl refl
  copied-IsKept k e visit (some subs) b =
      same-IsKept b (now_at k (sending e [] (visit (pointers subs))) b) refl refl

  copy_from-IsKept :
      (type_of : E → String) (k : ℕ) (visit : List ℕ → List ℕ) (at : Publishing E) (b : EventBus E)
      → IsKept b (copy_from type_of k visit at b)
  copy_from-IsKept type_of k visit (checked e) b =
      copied-IsKept k e visit (lookup (type_of e) b.subscribers) b
  copy_from-IsKept type_of k visit returned b = same-IsKept b b refl refl
  copy_from-IsKept type_of k visit (sending _ _ _) b = same-IsKept b b refl refl
  copy_from-IsKept type_of k visit panicked b = same-IsKept b b refl refl

  sent-IsKept :
      (k : ℕ) (e : E) (passed : List ℕ) (p : ℕ) (rest : List ℕ) (b : EventBus E)
      → IsKept b (sent k e passed p rest b)
  sent-IsKept k e passed p rest b = ((λ q low. Extends-push_at p q e b.heap), omega arith)

  qos0-IsKept :
      (k : ℕ) (e : E) (passed : List ℕ) (p : ℕ) (rest : List ℕ) (b : EventBus E)
      → IsKept b (send_qos0 k e passed p rest b)
  qos0-IsKept k e passed p rest b =
      let gone = record b {
        dropped_events = incr64 b.dropped_events;
        publishers = assigned k (sending e (p ∷ passed) rest) b.publishers;
      } in
      let send_or_drop = if has_room (b.heap p) then sent k e passed p rest b else gone in
      if_cases (IsKept b) (b.heap p).stopped (now_at k panicked b) send_or_drop
        (λ ends. same-IsKept b (now_at k panicked b) refl refl)
        (λ runs.
          if_cases (IsKept b) (has_room (b.heap p)) (sent k e passed p rest b) gone
            (λ room. sent-IsKept k e passed p rest b) (λ full. same-IsKept b gone refl refl))

  qos1-IsKept :
      (k : ℕ) (give_up : Bool) (e : E) (passed : List ℕ) (p : ℕ) (rest : List ℕ) (b : EventBus E)
      → IsKept b (send_qos1 k give_up e passed p rest b)
  qos1-IsKept k give_up e passed p rest b =
      let can_send = (b.heap p).stopped || has_room (b.heap p) in
      let send_or_wait = if has_room (b.heap p) then sent k e passed p rest b else b in
      let tried = if (b.heap p).stopped then now_at k panicked b else send_or_wait in
      if_cases (IsKept b) (b.is_done && (give_up || not can_send)) (now_at k returned b) tried
        (λ ends. same-IsKept b (now_at k returned b) refl refl)
        (λ runs.
          if_cases (IsKept b) (b.heap p).stopped (now_at k panicked b) send_or_wait
            (λ closed. same-IsKept b (now_at k panicked b) refl refl)
            (λ runs.
              if_cases (IsKept b) (has_room (b.heap p)) (sent k e passed p rest b) b
                (λ room. sent-IsKept k e passed p rest b) (λ full. same-IsKept b b refl refl)))

  send_from-IsKept :
      (k : ℕ) (give_up : Bool) (at : Publishing E) (b : EventBus E)
      → IsKept b (send_from k give_up at b)
  send_from-IsKept k give_up (sending e passed []) b = same-IsKept b (now_at k returned b) refl refl
  send_from-IsKept k give_up (sending e passed (p ∷ rest)) b =
      if_cases (IsKept b) (eqb_ℤ (b.heap p).qos (pos 0)) (send_qos0 k e passed p rest b)
        (send_qos1 k give_up e passed p rest b) (λ zero. qos0-IsKept k e passed p rest b)
        (λ one. qos1-IsKept k give_up e passed p rest b)
  send_from-IsKept k give_up returned b = same-IsKept b b refl refl
  send_from-IsKept k give_up (checked _) b = same-IsKept b b refl refl
  send_from-IsKept k give_up panicked b = same-IsKept b b refl refl

  deliver-IsKept : (p : ℕ) (b : EventBus E) → IsKept b (deliver_events p b)
  unfolding deliver_events
  deliver-IsKept p b =
      let s = b.heap p in
      let after = delivered b.is_done s.queue s in
      let next = record b { heap = assigned p after b.heap } in
      if_cases (IsKept b) s.delivering next b
        (λ runs. (
          (λ q low. Extends-at p q after b.heap (Extends-delivered b.is_done s.queue s refl)),
          omega arith,
        ))
        (λ ends. same-IsKept b b refl refl)

  shut_from-IsKept : (at : Shutting) (b : EventBus E) → IsKept b (shut_from at b)
  shut_from-IsKept not_shut b = same-IsKept b (record b { shutting = flag_set }) refl refl
  shut_from-IsKept flag_set b =
      ((λ q low. Extends-stop_each (all_pointers b.subscribers) q b.heap), omega arith)
  shut_from-IsKept subscribers_stopped b =
      same-IsKept b (record b { shutting = context_canceled; is_done = true }) refl refl
  shut_from-IsKept context_canceled b = same-IsKept b b refl refl

  -- The event is among those that a subscription was sent.
  abbrev pub WasSent : E → Subscription E → Type 0
  WasSent e s = (before after : List E) × (sent_to s ≡ before ++ (e ∷ after))

  Extends-WasSent :
      (e : E) (s later : Subscription E) → Extends s later → WasSent e s → WasSent e later
  Extends-WasSent e s later (more, grows) (before, after, holds) = (
    before,
    after ++ more,
    grows ∙ ap (λ l. l ++ more) holds ∙ list_assoc before (e ∷ after) more,
  )

  sent-WasSent :
      (k : ℕ) (e : E) (passed : List ℕ) (p : ℕ) (rest : List ℕ) (b : EventBus E)
      → WasSent e ((sent k e passed p rest b).heap p)
  unfolding assigned
  sent-WasSent k e passed p rest b = (
    sent_to (b.heap p),
    [],
    ground (arith, list_assoc (b.heap p).received (b.heap p).queue (e ∷ [])),
  )

  send_lem :
      (k : ℕ) (give_up : Bool) (e : E) (passed : List ℕ) (p : ℕ) (rest : List ℕ) (b : EventBus E)
      → b.publishers k ≡ sending e passed (p ∷ rest)
      → eqb_ℤ (b.heap p).qos (pos 0) ≡ false
      → (b.heap p).stopped ≡ false
      → b.is_done ≡ false
      → send k give_up b ≡ (if has_room (b.heap p) then sent k e passed p rest b else b)
  unfolding send
  send_lem k give_up e passed p rest b at level runs running =
      ap (λ s. send_from k give_up s b) at ∙ rw level (rw running (rw runs refl))

module _ {E : Type 0} (type_of : E → String) where
  pub bus_step-IsKept : (s : BusStep E) (b : EventBus E) → IsKept b (bus_step type_of s b)
  unfolding bus_step copy_subscribers send shutdown_step
  bus_step-IsKept (subscribes type qos) b = subscribe-IsKept type qos b
  bus_step-IsKept (unsubscribes type id) b = unsubscribe-IsKept type id b
  bus_step-IsKept (publishes k e) b = check-IsKept k e b
  bus_step-IsKept (copies k visit) b = copy_from-IsKept type_of k visit (b.publishers k) b
  bus_step-IsKept (sends k give_up) b = send_from-IsKept k give_up (b.publishers k) b
  bus_step-IsKept (delivers p) b = deliver-IsKept p b
  bus_step-IsKept shuts b = shut_from-IsKept b.shutting b
  bus_step-IsKept parent_ends b = same-IsKept b (record b { is_done = true }) refl refl

  pub run_keeps_order :
      (steps : List (BusStep E)) (b : EventBus E) (p : ℕ)
      → p < b.allocated
      → Extends (b.heap p) ((bus_run type_of steps b).heap p)
  unfolding bus_run
  run_keeps_order [] b p low = Extends-same (b.heap p)
  run_keeps_order (s ∷ rest) b p low =
      let next = bus_step type_of s b in
      let kept = bus_step-IsKept s b in
      Extends-trans (b.heap p) (next.heap p) ((bus_run type_of rest next).heap p) (kept.0 p low)
        (run_keeps_order rest next p (omega (arith, low, kept.1)))

  -- On a bus that is not done, a publisher that has come to a subscription of level 1 that is there and
  -- not stopped either waits, when the channel is full, and nothing changes; or the event is sent, and
  -- stays among the events of this subscription whatever happens afterwards.
  pub level1_is_guaranteed :
      (k : ℕ) (give_up : Bool) (e : E) (passed : List ℕ) (p : ℕ) (rest : List ℕ) (b : EventBus E)
      (steps : List (BusStep E))
      → b.publishers k ≡ sending e passed (p ∷ rest)
      → eqb_ℤ (b.heap p).qos (pos 0) ≡ false
      → (b.heap p).stopped ≡ false
      → b.is_done ≡ false
      → p < b.allocated
      → ((has_room (b.heap p) ≡ false) × (send k give_up b ≡ b))
        ⊎ ((has_room (b.heap p) ≡ true)
            × WasSent e ((bus_run type_of steps (send k give_up b)).heap p))
  level1_is_guaranteed k give_up e passed p rest b steps at level runs running low =
      let choice = send_lem k give_up e passed p rest b at level runs running in
      let kept = sent-IsKept k e passed p rest b in
      elim (Bool-cases (has_room (b.heap p))) [
        | inl room ↦
            let goes : send k give_up b ≡ sent k e passed p rest b = choice ∙ rw room refl in
            inr (
              room,
              rw goes (
                  Extends-WasSent e ((sent k e passed p rest b).heap p)
                    ((bus_run type_of steps (sent k e passed p rest b)).heap p)
                    (run_keeps_order steps (sent k e passed p rest b) p
                      (omega (arith, low, kept.1)))
                    (sent-WasSent k e passed p rest b)),
            )
        | inr full ↦ inl (full, choice ∙ rw full refl)
      ]
