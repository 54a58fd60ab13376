-- ===== src/CircuitBreaker/Probes.antt =====
-- The half-open state: probes that succeed close the breaker, one that fails opens it again.
use kairos_agent.Base.{String, ◌+◌, ◌<◌, ◌≡◌, none, some, List, [], ◌∷◌, arith}
use kairos_agent.Base.Int.{◌+ℤ◌}
use kairos_agent.Base.Lists.{All, length}
use kairos_agent.CircuitBreaker.{
  state_closed, state_open, state_half_open, CircuitBreaker, Attempt, zero_counts, execute,
}
use kairos_agent.CircuitBreaker.Invariant.{IsValid, before_request-IsValid, after_request-IsValid}

-- Calls of `Execute` one after another, with no other caller between.
pub execute_all : List Attempt → CircuitBreaker → CircuitBreaker
execute_all [] cb = cb
execute_all (a ∷ rest) cb = execute_all rest (execute a (λ c. c) cb).0

pub execute-IsValid :
    (a : Attempt) (cb : CircuitBreaker) → IsValid cb → IsValid (execute a (λ c. c) cb).0
unfolding execute
execute-IsValid a cb h = grind (arith, before_request-IsValid, after_request-IsValid)

abbrev pub Succeeds : Attempt → Type 0
Succeeds a = (a.context ≡ none) × (a.result ≡ none)

probe_counts :
    (a : Attempt) (cb : CircuitBreaker)
    → IsValid cb
    → cb.state ≡ state_half_open
    → cb.counts.requests ≡ cb.half_open_success
    → Succeeds a
    → cb.half_open_success + 1 < cb.max_requests
    → let next = (execute a (λ c. c) cb).0 in
      (next.state ≡ state_half_open)
      × (next.max_requests ≡ cb.max_requests)
      × (next.counts.requests ≡ next.half_open_success)
      × (next.half_open_success ≡ cb.half_open_success + 1)
unfolding execute
probe_counts a cb h o e s l = ground arith

probe_closes :
    (a : Attempt) (cb : CircuitBreaker)
    → IsValid cb
    → cb.state ≡ state_half_open
    → cb.counts.requests ≡ cb.half_open_success
    → Succeeds a
    → cb.half_open_success + 1 ≡ cb.max_requests
    → let next = (execute a (λ c. c) cb).0 in
      (next.state ≡ state_closed) × (next.counts ≡ zero_counts)
unfolding execute
probe_closes a cb h o e s l = ground arith

-- A half-open breaker in which every admitted probe has reported success is closed, with fresh
-- counts, by just as many further successful calls as `maxRequests` leaves.
pub probes_close :
    (a : Attempt) (rest : List Attempt) (cb : CircuitBreaker)
    → IsValid cb
    → cb.state ≡ state_half_open
    → cb.counts.requests ≡ cb.half_open_success
    → All Succeeds (a ∷ rest)
    → cb.half_open_success + length (a ∷ rest) ≡ cb.max_requests
    → let last = execute_all (a ∷ rest) cb in
      (last.state ≡ state_closed) × (last.counts ≡ zero_counts)
unfolding execute_all
probes_close a [] cb h o e s l = probe_closes a cb h o e s.0 (omega arith)
probes_close a (b ∷ rest) cb h o e s l =
    let (o', m, e', n) = probe_counts a cb h o e s.0 (omega arith) in
    probes_close b rest (execute a (λ c. c) cb).0 (execute-IsValid a cb h) o' e' s.1 (omega arith)

-- A probe that fails, admitted by a half-open breaker with a free slot, opens it for `timeout`.
pub probe_failure_opens :
    (a : Attempt) {e : String} (cb : CircuitBreaker)
    → cb.state ≡ state_half_open
    → cb.counts.requests < cb.max_requests
    → a.context ≡ none
    → a.result ≡ some e
    → let next = (execute a (λ c. c) cb).0 in
      (next.state ≡ state_open)
      × (next.expiry ≡ a.ended +ℤ cb.timeout)
      × (next.counts ≡ zero_counts)
unfolding execute
probe_failure_opens a cb o l c r = ground arith
