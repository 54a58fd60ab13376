-- ===== src/CircuitBreaker/Log.antt =====
-- The calls of `OnStateChange`: one for every change of state, in order.
use kairos_agent.Base.{false, ℕ, String, ◌≡◌, Bool, true, List, [], ◌∷◌, arith}
use kairos_agent.Base.Int.{ℤ}
use kairos_agent.CircuitBreaker.{
  State, state_closed, state_open, state_half_open, CircuitBreaker, Config, Event, enter, leave,
  read, current_state, before_request, after_request, new, step, run,
}

-- The transitions of a circuit breaker.
abbrev pub is_edge : State → State → Bool
is_edge state_closed state_open = true
is_edge state_open state_half_open = true
is_edge state_half_open state_closed = true
is_edge state_half_open state_open = true
is_edge _ _ = false

-- The list, newest first, leads along edges from the closed state to the given one.
abbrev pub IsChain : List (State × State) → State → Type 0
IsChain [] s = s ≡ state_closed
IsChain ((from, to) ∷ l) s = (to ≡ s) × (is_edge from to ≡ true) × IsChain l from

pub record IsLogged (cb : CircuitBreaker) : Type 0 where
  pub installed : cb.on_state_change ≡ true
  pub chained : IsChain cb.notified cb.state

current_state-IsLogged :
    (now : ℤ) (cb : CircuitBreaker) → IsLogged cb → IsLogged (current_state now cb)
unfolding current_state
current_state-IsLogged now cb h = ground arith

before_request-IsLogged :
    (now : ℤ) (cb : CircuitBreaker) → IsLogged cb → IsLogged (before_request now cb).0
unfolding before_request
before_request-IsLogged now cb h = ground arith

after_request-IsLogged :
    (before : ℕ) (success : Bool) (now : ℤ) (cb : CircuitBreaker)
    → IsLogged cb
    → IsLogged (after_request before success now cb)
unfolding after_request
after_request-IsLogged before success now cb h = ground arith

step-IsLogged : (e : Event) (cb : CircuitBreaker) → IsLogged cb → IsLogged (step e cb)
unfolding step
step-IsLogged (enter now) cb h = before_request-IsLogged now cb h
step-IsLogged (leave before success now) cb h = after_request-IsLogged before success now cb h
step-IsLogged (read now) cb h = current_state-IsLogged now cb h

run-IsLogged : (es : List Event) (cb : CircuitBreaker) → IsLogged cb → IsLogged (run es cb)
unfolding run
run-IsLogged [] cb h = h
run-IsLogged (e ∷ es) cb h = run-IsLogged es (step e cb) (step-IsLogged e cb h)

new-IsLogged :
    (name : String) (config : Config) (now : ℤ)
    → config.on_state_change ≡ true
    → IsLogged (new name config now)
unfolding new
new-IsLogged name config now h = ground arith

-- With a callback set, after any interleaving of calls the calls of it form a chain: each is one of
-- the four transitions (closed to open, open to half-open, half-open to closed or open) and begins
-- in the state where the one before it ended; the first begins in the closed state, and the last
-- ends in the state that the breaker is in.
pub run_notified :
    (name : String) (config : Config) (now : ℤ) (es : List Event)
    → config.on_state_change ≡ true
    → let cb = run es (new name config now) in IsChain cb.notified cb.state
run_notified name config now es h =
    (run-IsLogged es (new name config now) (new-IsLogged name config now h)).chained
