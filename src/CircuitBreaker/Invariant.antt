-- ===== src/CircuitBreaker/Invariant.antt =====
-- What holds of a circuit breaker between two steps, for every interleaving of the callers.
use kairos_agent.Base.{ℕ, String, ◌^◌, ◌≤◌, ◌<◌, ◌≡◌, ◌≢◌, Bool, true, false, List, [], ◌∷◌, arith}
use kairos_agent.Base.Int.{ℤ}
use kairos_agent.CircuitBreaker.{
  state_half_open, CircuitBreaker, Config, Event, enter, leave, read, zero_time, current_state,
  before_request, after_request, new, step, run,
}

pub record IsValid (cb : CircuitBreaker) : Type 0 where
  pub max_pos : 0 < cb.max_requests
  pub max_fits : cb.max_requests < 2 ^ 32
  pub generation_fits : cb.generation < 2 ^ 64
  pub success_elsewhere : cb.state ≢ state_half_open → cb.half_open_success ≡ 0
  pub success_below : cb.half_open_success < cb.max_requests
  pub probes_bounded : cb.state ≡ state_half_open → cb.counts.requests ≤ cb.max_requests
  pub probes_clean : cb.state ≡ state_half_open → cb.counts.total_failures ≡ 0
  pub probes_no_expiry : cb.state ≡ state_half_open → cb.expiry ≡ zero_time

pub new-IsValid :
    (name : String) (config : Config) (now : ℤ)
    → config.max_requests < 2 ^ 32
    → IsValid (new name config now)
unfolding new
new-IsValid name config now h = ground arith

pub current_state-IsValid :
    (now : ℤ) (cb : CircuitBreaker) → IsValid cb → IsValid (current_state now cb)
unfolding current_state
current_state-IsValid now cb h = ground arith

pub before_request-IsValid :
    (now : ℤ) (cb : CircuitBreaker) → IsValid cb → IsValid (before_request now cb).0
unfolding before_request
before_request-IsValid now cb h = ground arith

pub after_request-IsValid :
    (before : ℕ) (success : Bool) (now : ℤ) (cb : CircuitBreaker)
    → IsValid cb
    → IsValid (after_request before success now cb)
unfolding after_request
after_request-IsValid before true now cb h = ground arith
after_request-IsValid before false now cb h = ground arith

pub step-IsValid : (e : Event) (cb : CircuitBreaker) → IsValid cb → IsValid (step e cb)
unfolding step
step-IsValid (enter now) cb h = before_request-IsValid now cb h
step-IsValid (leave before success now) cb h = after_request-IsValid before success now cb h
step-IsValid (read now) cb h = current_state-IsValid now cb h

pub run-IsValid : (es : List Event) (cb : CircuitBreaker) → IsValid cb → IsValid (run es cb)
unfolding run
run-IsValid [] cb h = h
run-IsValid (e ∷ es) cb h = run-IsValid es (step e cb) (step-IsValid e cb h)

-- A breaker made by `New`, after any interleaving of calls and at any times: `maxRequests` is
-- positive; successes are counted in the half-open state alone, and stay below `maxRequests`; in
-- the half-open state at most `maxRequests` requests have been let through, none of them has
-- reported a failure, and there is no expiry.
pub run-new-IsValid :
    (name : String) (config : Config) (now : ℤ) (es : List Event)
    → config.max_requests < 2 ^ 32
    → IsValid (run es (new name config now))
run-new-IsValid name config now es h =
    run-IsValid es (new name config now) (new-IsValid name config now h)
