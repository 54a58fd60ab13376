-- ===== src/CircuitBreaker/Blocking.antt =====
-- When the breaker admits nothing: while it is open and not yet expired, and when all the slots of
-- the half-open state are held by requests that never report back.
use kairos_agent.Base.{ℕ, String, ◌≤◌, ◌≡◌, ◌≢◌, ◌⊎◌, refl, true, false, some, List, [], ◌∷◌, arith}
use kairos_agent.Base.Int.{ℤ, ◌≤ℤ◌, ◌<ℤ◌, ◌+ℤ◌}
use kairos_agent.Base.Lists.{All}
use kairos_agent.CircuitBreaker.{
  state_closed, state_open, state_half_open, CircuitBreaker, Event, enter, leave, read, Attempt,
  Error, zero_time, count_failure, circuit_open, too_many_requests, before_request, after_request,
  step, run, execute,
}

abbrev pub time_of : Event → ℤ
time_of (enter now) = now
time_of (leave _ _ now) = now
time_of (read now) = now

step_open :
    (e : Event) (cb : CircuitBreaker)
    → cb.state ≡ state_open
    → time_of e ≤ℤ cb.expiry
    → step e cb ≡ cb
unfolding step
step_open (enter now) cb o t = ground arith
step_open (leave before true now) cb o t = ground arith
step_open (leave before false now) cb o t = ground arith
step_open (read now) cb o t = ground arith

run_open :
    (es : List Event) (cb : CircuitBreaker)
    → cb.state ≡ state_open
    → All (λ e. time_of e ≤ℤ cb.expiry) es
    → run es cb ≡ cb
unfolding run
run_open [] cb o t = refl
run_open (e ∷ es) cb o t = rw (step_open e cb o t.0) (run_open es cb o t.1)

refused_open :
    (now : ℤ) (cb : CircuitBreaker)
    → cb.state ≡ state_open
    → now ≤ℤ cb.expiry
    → before_request now cb ≡ (cb, cb.generation, some circuit_open)
unfolding before_request
refused_open now cb o t = ground arith

execute_refused :
    (a : Attempt) (meanwhile : CircuitBreaker → CircuitBreaker) (cb : CircuitBreaker) {e : Error}
    → before_request a.started cb ≡ (cb, cb.generation, some e)
    → execute a meanwhile cb ≡ (cb, some e, false)
unfolding execute
execute_refused a meanwhile cb h = ground arith

-- While the breaker is open and the time is not past its expiry, no interleaving of calls changes
-- it: `Execute` returns `ErrCircuitOpen` and does not call the function.
pub execute_open :
    (es : List Event) (a : Attempt) (meanwhile : CircuitBreaker → CircuitBreaker)
    (cb : CircuitBreaker)
    → cb.state ≡ state_open
    → All (λ e. time_of e ≤ℤ cb.expiry) es
    → a.started ≤ℤ cb.expiry
    → execute a meanwhile (run es cb) ≡ (cb, some circuit_open, false)
execute_open es a meanwhile cb o t s =
    rw (run_open es cb o t) (execute_refused a meanwhile cb (refused_open a.started cb o s))

-- The failure that trips the breaker.
trips :
    (now : ℤ) (cb : CircuitBreaker)
    → cb.state ≡ state_closed
    → (cb.expiry ≡ zero_time) ⊎ (now ≤ℤ cb.expiry)
    → cb.ready_to_trip (count_failure cb.counts) ≡ true
    → let next = after_request cb.generation false now cb in
      (next.state ≡ state_open) × (next.expiry ≡ now +ℤ cb.timeout)
unfolding after_request
trips now cb c live ready = ground arith

-- When a failure is reported in the current generation of a closed breaker and `ReadyToTrip`
-- accepts the counts with that failure, then until `timeout` has passed no call changes the
-- breaker, and `Execute` returns `ErrCircuitOpen` without calling the function.
pub trip_blocks :
    (now : ℤ) (es : List Event) (a : Attempt) (meanwhile : CircuitBreaker → CircuitBreaker)
    (cb : CircuitBreaker)
    → cb.state ≡ state_closed
    → (cb.expiry ≡ zero_time) ⊎ (now ≤ℤ cb.expiry)
    → cb.ready_to_trip (count_failure cb.counts) ≡ true
    → All (λ e. time_of e ≤ℤ now +ℤ cb.timeout) es
    → a.started ≤ℤ now +ℤ cb.timeout
    → let next = after_request cb.generation false now cb in
      execute a meanwhile (run es next) ≡ (next, some circuit_open, false)
trip_blocks now es a meanwhile cb c live ready t s =
    let (opened, until) = trips now cb c live ready in
    execute_open es a meanwhile (after_request cb.generation false now cb) opened (rw until t)
      (rw until s)

abbrev IsStale : ℕ → Event → Type 0
IsStale generation (leave before _ _) = before ≢ generation
IsStale generation _ = Unit

step_full :
    (e : Event) (cb : CircuitBreaker)
    → cb.state ≡ state_half_open
    → cb.max_requests ≤ cb.counts.requests
    → IsStale cb.generation e
    → step e cb ≡ cb
unfolding step
step_full (enter now) cb o f t = ground arith
step_full (leave before success now) cb o f t = ground arith
step_full (read now) cb o f t = ground arith

run_full :
    (es : List Event) (cb : CircuitBreaker)
    → cb.state ≡ state_half_open
    → cb.max_requests ≤ cb.counts.requests
    → All (IsStale cb.generation) es
    → run es cb ≡ cb
unfolding run
run_full [] cb o f t = refl
run_full (e ∷ es) cb o f t = rw (step_full e cb o f t.0) (run_full es cb o f t.1)

refused_full :
    (now : ℤ) (cb : CircuitBreaker)
    → cb.state ≡ state_half_open
    → cb.max_requests ≤ cb.counts.requests
    → before_request now cb ≡ (cb, cb.generation, some too_many_requests)
unfolding before_request
refused_full now cb o f = ground arith

-- The probe that the context cancels keeps the slot it took.
leaks :
    (a : Attempt) (meanwhile : CircuitBreaker → CircuitBreaker) (e : String) (cb : CircuitBreaker)
    → cb.state ≡ state_open
    → cb.expiry <ℤ a.started
    → cb.max_requests ≡ 1
    → a.context ≡ some e
    → let next = (execute a meanwhile cb).0 in
      (next.state ≡ state_half_open) × (next.max_requests ≡ 1) × (next.counts.requests ≡ 1)
unfolding execute
leaks a meanwhile e cb o t m c = ground arith

-- A breaker with one half-open slot, open and past its expiry, whose next request finds its context
-- done after it was admitted: whatever calls follow, at any time, as long as none of them reports
-- in the new generation (no request of it is running), the breaker stays half-open as it is, and
-- `Execute` returns `ErrTooManyRequests` without calling the function.
pub canceled_probe_blocks :
    (a b : Attempt) (meanwhile m : CircuitBreaker → CircuitBreaker) {e : String} (es : List Event)
    (cb : CircuitBreaker)
    → cb.state ≡ state_open
    → cb.expiry <ℤ a.started
    → cb.max_requests ≡ 1
    → a.context ≡ some e
    → let next = (execute a meanwhile cb).0 in
      All (IsStale next.generation) es
      → (run es next ≡ next) × (execute b m (run es next) ≡ (next, some too_many_requests, false))
canceled_probe_blocks a b meanwhile m {e} es cb o t one c stale =
    let (half, slots, taken) = leaks a meanwhile e cb o t one c in
    let next = (execute a meanwhile cb).0 in
    let same = run_full es next half (omega arith) stale in
    (same, rw same (execute_refused b m next (refused_full b.started next half (omega arith))))
