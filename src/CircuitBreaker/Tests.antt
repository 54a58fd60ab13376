-- ===== src/CircuitBreaker/Tests.antt =====
-- The circuit breaker on concrete inputs.
use kairos_agent.CircuitBreaker.{
  state_closed, state_open, state_string, zero_counts, Config, CircuitBreaker, circuit_open,
  too_many_requests, after_request, new, Attempt, execute, Event, enter, leave, read, step, run,
}
use kairos_agent.CircuitBreaker.Invariant.{IsValid, run-IsValid, run-new-IsValid}
use kairos_agent.CircuitBreaker.Blocking.{trip_blocks, canceled_probe_blocks}
use kairos_agent.CircuitBreaker.Probes.{execute_all, probes_close}
use kairos_agent.Base.{◌≡◌, refl, inr, true, false, none, some, List, [], ◌∷◌, arith}
use kairos_agent.Base.Int.{ℤ, pos, ◌+ℤ◌}

abbrev second : ℤ
second = pos 1_000_000_000

abbrev config : Config
config = record {
  max_requests = 1;
  interval = pos 0;
  timeout = second;
  ready_to_trip = none;
  on_state_change = true;
}

abbrev fresh : CircuitBreaker
fresh = new "exchange" config (pos 5)

-- Six failures, one after another, at one time.
abbrev failures : List Event
failures =
    leave 1 false (pos 6)
    ∷ leave 1 false (pos 6)
    ∷ leave 1 false (pos 6)
    ∷ leave 1 false (pos 6)
    ∷ leave 1 false (pos 6)
    ∷ leave 1 false (pos 6)
    ∷ []

abbrev tripped : CircuitBreaker
tripped = run failures fresh

failures_trip : (tripped.state ≡ state_open) × (tripped.generation ≡ 2)
unfolding run step new ◌+ℤ◌
failures_trip = (refl, refl)

state_string_open : state_string tripped.state ≡ "Open"
unfolding run step new state_string ◌+ℤ◌
state_string_open = refl

abbrev late : Attempt
late = record {
  started = pos 2_000_000_000;
  ended = pos 2_000_000_001;
  context = none;
  result = none;
}

recovers : (execute late (λ c. c) tripped).0.state ≡ state_closed
unfolding run step new execute ◌+ℤ◌
recovers = refl

run-new-IsValid_example : IsValid tripped
run-new-IsValid_example = run-new-IsValid "exchange" config (pos 5) failures (omega arith)

abbrev busy : CircuitBreaker
busy =
    run
      (leave 1 false (pos 6)
        ∷ leave 1 false (pos 6)
        ∷ leave 1 false (pos 6)
        ∷ leave 1 false (pos 6)
        ∷ leave 1 false (pos 6)
        ∷ [])
      fresh

abbrev soon : Attempt
soon = record { started = pos 20; ended = pos 21; context = none; result = none }

trip_blocks_example :
    let next = after_request busy.generation false (pos 6) busy in
    execute soon (λ c. c) (run (read (pos 7) ∷ enter (pos 8) ∷ []) next)
    ≡ (next, some circuit_open, false)
unfolding run step new ◌+ℤ◌
trip_blocks_example =
    trip_blocks (pos 6) (read (pos 7) ∷ enter (pos 8) ∷ []) soon (λ c. c) busy refl
      (inr (omega arith)) refl (omega arith) (omega arith)

abbrev canceled : Attempt
canceled = record late { context = some "context canceled" }

canceled_probe_blocks_example :
    let next = (execute canceled (λ c. c) tripped).0 in
    (run (enter (pos 9_000_000_000) ∷ []) next ≡ next)
    × (execute late (λ c. c) (run (enter (pos 9_000_000_000) ∷ []) next)
        ≡ (next, some too_many_requests, false))
unfolding run step new ◌+ℤ◌
canceled_probe_blocks_example =
    canceled_probe_blocks canceled late (λ c. c) (λ c. c) (enter (pos 9_000_000_000) ∷ []) tripped
      refl (omega arith) refl refl (tt, tt)

abbrev half : CircuitBreaker
half = run (read (pos 2_000_000_000) ∷ []) tripped

probes_close_example :
    let last = execute_all (late ∷ []) half in
    (last.state ≡ state_closed) × (last.counts ≡ zero_counts)
unfolding run step new ◌+ℤ◌
probes_close_example =
    probes_close late [] half
      (run-IsValid (read (pos 2_000_000_000) ∷ []) tripped run-new-IsValid_example) refl refl
      ((refl, refl), tt) refl
