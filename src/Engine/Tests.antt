-- ===== src/Engine/Tests.antt =====
-- The engine at concrete inputs.
use kairos_agent.Base.{
  ℕ, String, ◌≡◌, refl, ◌⊎◌, inl, inr, true, false, none, some, List, [], ◌∷◌, arith, str_eq,
  if◌then◌else◌,
}
use kairos_agent.Base.Int.{ℤ, pos, ◌+ℤ◌, ◌-ℤ◌}
use kairos_agent.CircuitBreaker.{
  new, execute, before_request, after_request, to_new_generation, set_state,
}
use kairos_agent.Engine.StateMachine.{
  state_live_trading, state_halted, new_state_machine, is_valid_transition, transition,
}
use kairos_agent.Engine.Ntp.{query_all, check}
use kairos_agent.Engine.Workers.{
  reconcile_orders_called, Engine, new_engine, halt, publish, transition_to, Tick, should_halt,
  ntp_failed, ntp_tick, StreamEvent, publish_stream_lifecycle_alert,
  halt_live_trading_for_stream_event, reconcile_after_stream_event, handle_stream_event,
}
use kairos_agent.Engine.Shutdown.{
  cancel_order, disconnect, close_storage, shutdown_bus, cancel_context, orders_not_canceled,
  connections_not_closed, Parts, GracefulShutdown, halt_unless_halted, stop, failures_of,
  cancel_all_orders, unload_all, close_connections, shutdown_steps, shutdown,
}
use kairos_agent.Engine.Halting.{IsHalted, ticks, silence_halts}
use kairos_agent.Engine.Resuming.{
  Step, ntp_round, worker_panic, engine_run, Stays, workers_never_resume,
}
use kairos_agent.Engine.Closing.{all_actions, shutdown_completes}

abbrev engine : Engine
engine = new_engine (pos 1) (pos 2) none true

-- The engine in live trading.
abbrev trading : Engine
trading = (transition_to state_live_trading "live trading" (pos 3) engine).0

enters : trading.machine.current ≡ state_live_trading
unfolding transition_to transition is_valid_transition new_engine new_state_machine
enters = refl

abbrev show : ℤ → String
show _ = "1s"

abbrev round : (String → ℤ ⊎ String) → ℕ → Tick
round query time = record {
  tick_started = pos time;
  tick_ended = pos time;
  tick_context = none;
  query = query;
  now = pos time;
}

abbrev silent : ℕ → Tick
silent = round (λ _. inr "timeout")

abbrev silence : List Tick
silence = silent 20 ∷ silent 30 ∷ silent 40 ∷ silent 50 ∷ []

tolerates : (ticks show (silent 10 ∷ silent 20 ∷ []) trading).machine.current ≡ state_live_trading
unfolding ticks ntp_tick ntp_failed should_halt transition_to transition is_valid_transition
    new_engine new_state_machine check query_all execute new before_request after_request
    to_new_generation set_state publish halt ◌-ℤ◌ ◌+ℤ◌
tolerates = refl

silence_halts_example : IsHalted (ticks show (silent 10 ∷ silence) trading)
unfolding transition_to new_engine
silence_halts_example =
    silence_halts show (silent 10) silence trading (λ _. refl)
      (λ _. refl, (λ _. refl, (λ _. refl, (λ _. refl, tt)))) (omega arith)

abbrev gap : StreamEvent
gap = record {
  event_type = "gap";
  source = "ws";
  event_reason = "sequence";
  occurred_at_utc = pos 5;
}

gap_halts :
    let e = handle_stream_event gap none (pos 6) trading in
    (e.machine.current ≡ state_halted) × (e.calls ≡ reconcile_orders_called ∷ [])
unfolding handle_stream_event publish_stream_lifecycle_alert publish
    halt_live_trading_for_stream_event halt reconcile_after_stream_event transition_to transition
    is_valid_transition new_engine new_state_machine
gap_halts = (refl, refl)

abbrev steps : List Step
steps = worker_panic "metrics" (pos 7) ∷ ntp_round (round (λ _. inl (pos 1)) 8) ∷ []

workers_never_resume_example : Stays show trading (engine_run show steps trading)
workers_never_resume_example = workers_never_resume show steps trading

abbrev parts : Parts
parts = record {
  connector = some (record {
    open_orders = inl ("1" ∷ "2" ∷ []);
    cancel_error = λ id. if str_eq id "2" then some "unknown order" else none;
    disconnect_error = none;
  });
  executor = none;
  storage = some (some "locked");
}

abbrev before_shutdown : GracefulShutdown
before_shutdown = record { engine = trading; finished = false; actions = [] }

abbrev in_order : List String → List String
in_order ids = ids

shutdown_completes_example :
    let r = shutdown in_order parts (pos 8) (pos 9) before_shutdown in
    IsHalted r.0.engine
    × (r.0.actions ≡ (
        cancel_order "1"
        ∷ cancel_order "2"
        ∷ disconnect
        ∷ close_storage
        ∷ shutdown_bus
        ∷ cancel_context
        ∷ shutdown_bus
        ∷ []))
    × (shutdown in_order parts (pos 8) (pos 9) r.0 ≡ (r.0, []))
unfolding all_actions
shutdown_completes_example = shutdown_completes in_order parts (pos 8) (pos 9) before_shutdown refl

shutdown_errors :
    (shutdown in_order parts (pos 8) (pos 9) before_shutdown).1
    ≡ orders_not_canceled ("2" ∷ []) ∷ connections_not_closed ("locked" ∷ []) ∷ []
unfolding shutdown shutdown_steps halt_unless_halted cancel_all_orders failures_of unload_all
    close_connections stop transition_to transition is_valid_transition new_engine new_state_machine
shutdown_errors = refl
