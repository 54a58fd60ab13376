-- ===== src/CircuitBreaker.antt =====
-- internal/circuitbreaker/circuitbreaker.go: the circuit breaker. Each method takes the value of
-- `time.Now()` that it reads and returns the new breaker; the mutex makes each one atomic.
pub mod Invariant
pub mod Probes
pub mod Blocking
pub mod Log
mod Tests
use kairos_agent.Base.{
  ℕ, String, ◌&&◌, Bool, true, false, not, Option, none, some, List, [], ◌∷◌, ltb, leb, ◌==◌,
  if◌then◌else◌, is_some,
}
use kairos_agent.Base.Int.{ℤ, pos, ◌+ℤ◌, ltb_ℤ, eqb_ℤ}
use kairos_agent.Base.Words.{incr32, incr64}

pub data State : Type 0 where
  state_closed state_open state_half_open : State

unfoldable pub state_string : State → String
state_string state_closed = "Closed"
state_string state_open = "Open"
state_string state_half_open = "HalfOpen"

pub record Counts : Type 0 where
  pub requests : ℕ  -- uint32
  pub total_successes : ℕ  -- uint32
  pub total_failures : ℕ  -- uint32
  pub consecutive_successes : ℕ  -- uint32
  pub consecutive_failures : ℕ  -- uint32

abbrev pub zero_counts : Counts
zero_counts = record {
  requests = 0;
  total_successes = 0;
  total_failures = 0;
  consecutive_successes = 0;
  consecutive_failures = 0;
}

-- `on_state_change` says whether a callback is set; the callback itself is the caller's code.
pub record Config : Type 0 where
  pub max_requests : ℕ  -- uint32
  pub interval : ℤ
  pub timeout : ℤ
  pub ready_to_trip : Option (Counts → Bool)
  pub on_state_change : Bool

-- `notified` is the trace of the calls of the callback, the newest first.
pub record CircuitBreaker : Type 0 where
  pub name : String
  pub max_requests : ℕ
  pub interval : ℤ
  pub timeout : ℤ
  pub ready_to_trip : Counts → Bool
  pub on_state_change : Bool
  pub state : State
  pub generation : ℕ  -- uint64
  pub counts : Counts
  pub expiry : ℤ
  pub half_open_success : ℕ  -- uint32
  pub notified : List (State × State)

-- The zero `time.Time`.
abbrev pub zero_time : ℤ
zero_time = pos 0

abbrev expiry_of : State → ℤ → ℤ → ℤ → ℤ
expiry_of state_closed interval timeout now =
    if eqb_ℤ interval (pos 0) then zero_time else now +ℤ interval
expiry_of state_open interval timeout now = now +ℤ timeout
expiry_of state_half_open interval timeout now = zero_time

unfoldable pub to_new_generation : ℤ → CircuitBreaker → CircuitBreaker
to_new_generation now cb = record cb {
  generation = incr64 cb.generation;
  counts = zero_counts;
  half_open_success = 0;
  expiry = expiry_of cb.state cb.interval cb.timeout now;
}

abbrev pub same_state : State → State → Bool
same_state state_closed state_closed = true
same_state state_open state_open = true
same_state state_half_open state_half_open = true
same_state _ _ = false

unfoldable pub set_state : State → ℤ → CircuitBreaker → CircuitBreaker
unfolding to_new_generation
set_state s now cb =
    if same_state cb.state s
    then cb
    else (let next = to_new_generation now (record cb { state = s }) in
        if cb.on_state_change then record next { notified = (cb.state, s) ∷ cb.notified } else next)

-- `currentState`: the refreshed breaker, whose state and generation are the results.
current_by : State → ℤ → CircuitBreaker → CircuitBreaker
unfolding to_new_generation set_state
current_by state_closed now cb =
    if not (eqb_ℤ cb.expiry zero_time) && ltb_ℤ cb.expiry now then to_new_generation now cb else cb
current_by state_open now cb = if ltb_ℤ cb.expiry now then set_state state_half_open now cb else cb
current_by state_half_open now cb = cb

unfoldable pub current_state : ℤ → CircuitBreaker → CircuitBreaker
unfolding current_by
current_state now cb = current_by cb.state now cb

pub data Error : Type 0 where
  circuit_open : Error
  too_many_requests : Error
  context_error : String → Error
  function_error : String → Error

abbrev is_open : State → Bool
is_open state_open = true
is_open _ = false

abbrev is_half_open : State → Bool
is_half_open state_half_open = true
is_half_open _ = false

-- The generation is returned beside the error, as in the source.
unfoldable pub before_request : ℤ → CircuitBreaker → CircuitBreaker × ℕ × Option Error
unfolding current_state
before_request now cb =
    let cur = current_state now cb in
    if is_open cur.state
    then (cur, cur.generation, some circuit_open)
    else (if is_half_open cur.state && leb cur.max_requests cur.counts.requests
        then (cur, cur.generation, some too_many_requests)
        else (
          record cur { counts = record (cur.counts) { requests = incr32 cur.counts.requests } },
          cur.generation,
          none,
        ))

abbrev count_success : Counts → Counts
count_success c = record c {
  total_successes = incr32 c.total_successes;
  consecutive_successes = incr32 c.consecutive_successes;
  consecutive_failures = 0;
}

abbrev count_failure : Counts → Counts
count_failure c = record c {
  total_failures = incr32 c.total_failures;
  consecutive_failures = incr32 c.consecutive_failures;
  consecutive_successes = 0;
}

on_success : State → ℤ → CircuitBreaker → CircuitBreaker
unfolding set_state
on_success state_closed now cb = record cb { counts = count_success cb.counts }
on_success state_half_open now cb =
    let next = record cb {
      counts = count_success cb.counts;
      half_open_success = incr32 cb.half_open_success;
    } in
    if leb next.max_requests next.half_open_success then set_state state_closed now next else next
on_success state_open now cb = cb

on_failure : State → ℤ → CircuitBreaker → CircuitBreaker
unfolding set_state
on_failure state_closed now cb =
    let next = record cb { counts = count_failure cb.counts } in
    if next.ready_to_trip next.counts then set_state state_open now next else next
on_failure state_half_open now cb = set_state state_open now cb
on_failure state_open now cb = cb

unfoldable pub after_request : ℕ → Bool → ℤ → CircuitBreaker → CircuitBreaker
unfolding current_state on_success on_failure
after_request before success now cb =
    let cur = current_state now cb in
    if not (cur.generation == before)
    then cur
    else (if success then on_success cur.state now cur else on_failure cur.state now cur)

abbrev default_trip : Counts → Bool
default_trip c = ltb 5 c.consecutive_failures

-- 60 * time.Second
abbrev pub minute : ℤ
minute = pos 60_000_000_000

abbrev trip_or_default : Option (Counts → Bool) → Counts → Bool
trip_or_default none = default_trip
trip_or_default (some f) = f

unfoldable pub new : String → Config → ℤ → CircuitBreaker
unfolding to_new_generation
new name config now = to_new_generation now (record {
  name = name;
  max_requests = if config.max_requests == 0 then 1 else config.max_requests;
  interval = if eqb_ℤ config.interval (pos 0) then minute else config.interval;
  timeout = if eqb_ℤ config.timeout (pos 0) then minute else config.timeout;
  ready_to_trip = trip_or_default config.ready_to_trip;
  on_state_change = config.on_state_change;
  state = state_closed;
  generation = 0;
  counts = zero_counts;
  expiry = zero_time;
  half_open_success = 0;
  notified = [];
})

-- What one call of `Execute` meets: the two clock readings, the error of the context, if it is
-- done when it is asked, and the result of the function.
pub record Attempt : Type 0 where
  pub started : ℤ
  pub ended : ℤ
  pub context : Option String
  pub result : Option String

-- `Execute`: the breaker after it, its error, and whether the function was called. While the
-- function runs the lock is free, so `meanwhile` is what other calls do to the breaker.
unfoldable pub execute :
    Attempt
    → (CircuitBreaker → CircuitBreaker)
    → CircuitBreaker
    → CircuitBreaker × Option Error × Bool
unfolding before_request after_request
execute a meanwhile cb =
    let (admitted, generation, refused) = before_request a.started cb in
    elim refused [
      | some e ↦ (admitted, some e, false)
      | none ↦ elim (a.context) [
        | some e ↦ (admitted, some (context_error e), false)
        | none ↦ (
          after_request generation (not (is_some a.result)) a.ended (meanwhile admitted),
          elim (a.result) [ none ↦ none | some e ↦ some (function_error e) ],
          true,
        )
      ]
    ]

-- The atomic steps that concurrent callers interleave: entering and leaving a request, and a
-- reading of `State`.
pub data Event : Type 0 where
  enter : ℤ → Event
  leave : ℕ → Bool → ℤ → Event
  read : ℤ → Event

unfoldable pub step : Event → CircuitBreaker → CircuitBreaker
unfolding before_request after_request current_state
step (enter now) cb = (before_request now cb).0
step (leave before success now) cb = after_request before success now cb
step (read now) cb = current_state now cb

pub run : List Event → CircuitBreaker → CircuitBreaker
run [] cb = cb
run (e ∷ es) cb = run es (step e cb)
