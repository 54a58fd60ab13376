-- ===== src/Events/Bus/Async.antt =====
-- Asynchronous publishing and the end of the bus.
use kairos_agent.Base.{
  ℕ, ◌+◌, ◌%◌, ◌^◌, ◌≤◌, ◌<◌, String, ◌≡◌, refl, Bool, true, Option, some, List, [], ◌∷◌, arith,
}
use kairos_agent.Base.Lists.{length, length-append}
use kairos_agent.Events.Bus.{Bus, Wait, publish, publish_async, worker_takes, worker_stops, close}

module _ {W E : Type 0} where
  pub record IsValid (b : Bus W E) : Type 0 where
    pub bounded : length b.queue ≤ b.cfg.buffer_size
    pub published_fits : b.published_cnt < 2 ^ 64
    pub dropped_fits : b.dropped_cnt < 2 ^ 64

  -- One call for each event, with whether its caller's context is done.
  unfoldable pub offer_all : List (Bool × E) → Bus W E → Bus W E
  offer_all [] b = b
  offer_all ((context_err, event) ∷ l) b = offer_all l (publish_async context_err (some event) b)

  publish_async-queue :
      (context_err : Bool) (event : E) (b : Bus W E)
      → IsValid b
      → let next = publish_async context_err (some event) b in
        IsValid next
        × (next.cfg ≡ b.cfg)
        × ((next.published_cnt + next.dropped_cnt) % 2 ^ 64
            ≡ (b.published_cnt + b.dropped_cnt + 1) % 2 ^ 64)
        × ((next.published_cnt + length b.queue) % 2 ^ 64
            ≡ (b.published_cnt + length next.queue) % 2 ^ 64)
  unfolding publish_async
  publish_async-queue context_err event b h = ground (arith, length-append b.queue (event ∷ []))

  -- However many events are offered before the worker takes one, the buffer never holds more than
  -- its size, and each event is counted once: the counters of published and dropped events grow
  -- together by the number of events, and the first by the number of those that were queued (as
  -- 64-bit words).
  pub offer_all_counts :
      (l : List (Bool × E)) (b : Bus W E)
      → IsValid b
      → let last = offer_all l b in
        (length last.queue ≤ last.cfg.buffer_size)
        × ((last.published_cnt + last.dropped_cnt) % 2 ^ 64
            ≡ (b.published_cnt + b.dropped_cnt + length l) % 2 ^ 64)
        × ((last.published_cnt + length b.queue) % 2 ^ 64
            ≡ (b.published_cnt + length last.queue) % 2 ^ 64)
  unfolding offer_all
  offer_all_counts [] b h = (h.bounded, omega arith, refl)
  offer_all_counts ((context_err, event) ∷ l) b h =
      let one = publish_async-queue context_err event b h in
      omega (arith, offer_all_counts l (publish_async context_err (some event) b) one.0, one)

module _ {W E : Type 0} where
  -- What a closed bus keeps.
  abbrev pub Silent : Bus W E → W → Bus W E × W → Type 0
  Silent b w (b', w') =
      (w' ≡ w)
      × (b'.spawned ≡ b.spawned)
      × (b'.published_cnt ≡ b.published_cnt)
      × (b'.retried_cnt ≡ b.retried_cnt)
      × (b'.closed ≡ true)
      × (b'.canceled ≡ true)
      × (length b'.queue ≤ length b.queue)

-- The calls, and the steps of the worker. (The goroutines of level 0 are not among them.)
pub data Op (E : Type 0) : Type 0 where
  publish_now : Option E → (ℕ → ℕ → Wait) → Op E
  publish_later : Bool → Option E → Op E
  worker_take : (ℕ → ℕ → Wait) → Op E
  worker_stop : Op E
  close_again : Op E

module _ {W E : Type 0} (type_of : E → String) where
  unfoldable pub step : Op E → Bus W E → W → Bus W E × W
  step (publish_now event waits) b w =
      let (err, b', w') = publish type_of waits event b w in (b', w')
  step (publish_later context_err event) b w = (publish_async context_err event b, w)
  step (worker_take waits) b w = worker_takes type_of waits b w
  step worker_stop b w = (worker_stops b, w)
  step close_again b w = (close b, w)

  unfoldable pub run : List (Op E) → Bus W E → W → Bus W E × W
  run [] b w = (b, w)
  run (o ∷ os) b w = let (b', w') = step o b w in run os b' w'
