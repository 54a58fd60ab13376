-- ===== src/Engine/Workers.antt =====
-- internal/engine/engine.go: the engine, and the steps of its workers. A worker's step is one round of
-- its loop. The messages are those of the source; `show_duration` is the verb %v on a duration.
use kairos_agent.Base.{
  ℕ, ◌+◌, String, ◌⊎◌, inl, inr, Bool, true, false, not, ◌&&◌, ◌||◌, Option, none, some, List, [],
  ◌∷◌, str_eq, append, leb, if◌then◌else◌,
}
use kairos_agent.Base.Int.{ℤ, pos, ◌-ℤ◌, ltb_ℤ, leb_ℤ, eqb_ℤ}
use kairos_agent.Base.Show.{show_ℤ}
use kairos_agent.CircuitBreaker.{new, Counts, CircuitBreaker, zero_time, Error, Attempt, execute}
use kairos_agent.Engine.StateMachine.{
  State, state_live_trading, state_paper_trading, state_halted, StateTransition, StateMachine,
  new_state_machine, TransitionError, transition,
}
use kairos_agent.Engine.Ntp.{NtpSyncWorker, new_ntp_sync_worker, check, is_healthy}

pub record EngineConfig : Type 0 where
  pub max_ntp_drift : ℤ
  pub ntp_failure_tolerance : ℤ
  pub ntp_degraded_mode_duration : ℤ

pub data AlertLevel : Type 0 where
  alert_info alert_warning alert_critical : AlertLevel

-- What the engine publishes on its bus.
pub data EngineEvent : Type 0 where
  alert : AlertLevel → String → ℤ → EngineEvent
  error_event : String → String → ℤ → EngineEvent
  transitioned : StateTransition → EngineEvent

-- The calls to other services.
pub data Call : Type 0 where
  reconcile_all_called : Call
  reconcile_orders_called : Call

-- `published` and `calls` are what was done so far, the newest first. `has_reconciler` and
-- `has_order_service` say whether these were set.
pub record Engine : Type 0 where
  pub machine : StateMachine
  pub breaker : CircuitBreaker
  pub ntp : NtpSyncWorker
  pub ntp_consecutive_failures : ℕ
  pub ntp_last_successful_sync : ℤ
  pub config : EngineConfig
  pub has_reconciler : Bool
  pub has_order_service : Bool
  pub published : List EngineEvent
  pub calls : List Call

abbrev ntp_trip : Counts → Bool
ntp_trip c = leb 3 c.consecutive_failures

-- `DefaultConfig`, as far as the workers read it.
abbrev default_engine_config : EngineConfig
default_engine_config = record {
  max_ntp_drift = pos 500_000_000;
  ntp_failure_tolerance = pos 5;
  ntp_degraded_mode_duration = pos 600_000_000_000;
}

abbrev config_or_default : Option EngineConfig → EngineConfig
config_or_default none = default_engine_config
config_or_default (some c) = c

-- `New`, with the times that the circuit breaker and the state machine read, and the worker's
-- `NewNTPSyncWorker`.
unfoldable pub new_engine : ℤ → ℤ → Option EngineConfig → Bool → Engine
new_engine breaker_at machine_at given has_order_service =
    let config = config_or_default given in
    record {
      machine = new_state_machine machine_at;
      breaker =
          new "ntp"
            (record {
              max_requests = 3;
              interval = pos 60_000_000_000;
              timeout = pos 30_000_000_000;
              ready_to_trip = some ntp_trip;
              on_state_change = true;
            })
            breaker_at;
      ntp = new_ntp_sync_worker config.max_ntp_drift;
      ntp_consecutive_failures = 0;
      ntp_last_successful_sync = pos 0;
      config = config;
      has_reconciler = false;
      has_order_service = has_order_service;
      published = [];
      calls = [];
    }

-- The transition of a worker, which drops the error.
unfoldable pub halt : String → ℤ → Engine → Engine
halt reason now e = record e { machine = (transition state_halted reason now e.machine).0 }

unfoldable pub publish : EngineEvent → Engine → Engine
publish event e = record e { published = event ∷ e.published }

-- `TransitionTo`
unfoldable pub transition_to : State → String → ℤ → Engine → Engine × Option TransitionError
transition_to to reason now e =
    let moved = transition to reason now e.machine in (record e { machine = moved.0 }, moved.1)

-- What a round of `ntpSyncWorker` meets: the clock at the start and the end of the guarded call,
-- the end of the context, what the servers answer, and the clock afterwards.
pub record Tick : Type 0 where
  pub tick_started : ℤ
  pub tick_ended : ℤ
  pub tick_context : Option String
  pub query : String → ℤ ⊎ String
  pub now : ℤ

abbrev pub error_of : ℤ ⊎ String → Option String
error_of (inl _) = none
error_of (inr e) = some e

unfoldable pub should_halt : ℤ → Engine → Bool
should_halt now e =
    leb_ℤ e.config.ntp_failure_tolerance (pos e.ntp_consecutive_failures)
    || (not (eqb_ℤ e.ntp_last_successful_sync zero_time)
        && ltb_ℤ e.config.ntp_degraded_mode_duration (now -ℤ e.ntp_last_successful_sync))

unfoldable pub ntp_failed : ℤ → Engine → Engine
ntp_failed now e =
    let failed = record e { ntp_consecutive_failures = e.ntp_consecutive_failures + 1 } in
    if should_halt now failed
    then publish
        (alert alert_critical
          (append "NTP sync failures exceeded tolerance: "
            (append (show_ℤ (pos failed.ntp_consecutive_failures)) " consecutive failures"))
          now)
        (halt "NTP sync failures exceeded tolerance" now failed)
    else failed

module _ (show_duration : ℤ → String) where
  unfoldable pub ntp_succeeded : ℤ → Engine → Engine
  ntp_succeeded now e =
      let synced = record e { ntp_consecutive_failures = 0; ntp_last_successful_sync = now } in
      if not (is_healthy e.ntp)
      then publish
          (alert alert_critical (append "NTP drift exceeds threshold: " (show_duration e.ntp.drift))
            now)
          (halt (append "NTP drift too high: " (show_duration e.ntp.drift)) now synced)
      else synced

  abbrev pub ntp_answered : ℤ → Option Error → Engine → Engine
  ntp_answered now (some _) e = ntp_failed now e
  ntp_answered now none e = ntp_succeeded now e

  -- The check runs only if the breaker calls it.
  unfoldable pub ntp_tick : Tick → Engine → Engine
  ntp_tick t e =
      let checked = check t.query t.tick_ended e.ntp in
      let attempt : Attempt = record {
        started = t.tick_started;
        ended = t.tick_ended;
        context = t.tick_context;
        result = error_of checked.1;
      } in
      let guarded = execute attempt (λ cb. cb) e.breaker in
      ntp_answered t.now guarded.1
        (record e { breaker = guarded.0; ntp = if guarded.2 then checked.0 else e.ntp })

-- internal/domain/connector/connector.go: the events of a stream.
abbrev stream_disconnected : String
stream_disconnected = "disconnected"

abbrev stream_reconnected : String
stream_reconnected = "reconnected"

abbrev stream_gap : String
stream_gap = "gap"

pub record StreamEvent : Type 0 where
  pub event_type : String
  pub source : String
  pub event_reason : String
  pub occurred_at_utc : ℤ

unfoldable pub publish_stream_lifecycle_alert :
    AlertLevel → StreamEvent → String → ℤ → Engine → Engine
publish_stream_lifecycle_alert level event message now e =
    publish (alert level (append message (append ": " event.event_reason)) now) e

unfoldable pub halt_live_trading_for_stream_event : StreamEvent → ℤ → Engine → Engine
halt_live_trading_for_stream_event event now e =
    if not (eqb_ℤ e.machine.current state_live_trading)
    then e
    else halt
        (append "connector stream " (append event.event_type (append ": " event.event_reason))) now
        e

unfoldable pub publish_stream_reconciliation_error : StreamEvent → String → ℤ → Engine → Engine
publish_stream_reconciliation_error event error now e =
    publish
      (error_event error (append "Reconciliation after stream event failed: " event.event_type) now)
      e

abbrev pub reported : StreamEvent → Option String → ℤ → Engine → Engine
reported event none now e = e
reported event (some error) now e = publish_stream_reconciliation_error event error now e

-- `answer` is the error of the service that is called, if it has one.
unfoldable pub reconcile_after_stream_event : StreamEvent → Option String → ℤ → Engine → Engine
reconcile_after_stream_event event answer now e =
    if e.has_reconciler
    then reported event answer now (record e { calls = reconcile_all_called ∷ e.calls })
    else if e.has_order_service
    then reported event answer now (record e { calls = reconcile_orders_called ∷ e.calls })
    else e

unfoldable pub handle_stream_event : StreamEvent → Option String → ℤ → Engine → Engine
handle_stream_event event answer now e =
    if str_eq event.event_type stream_disconnected
    then halt_live_trading_for_stream_event event now
        (publish_stream_lifecycle_alert alert_warning event "Connector stream disconnected" now e)
    else if str_eq event.event_type stream_gap
    then reconcile_after_stream_event event answer now (
        halt_live_trading_for_stream_event event now (
          publish_stream_lifecycle_alert alert_critical event "Connector stream gap detected" now
            e))
    else if str_eq event.event_type stream_reconnected
    then reconcile_after_stream_event event answer now
        (publish_stream_lifecycle_alert alert_warning event "Connector stream reconnected" now e)
    else publish_stream_lifecycle_alert alert_warning event "Connector stream event received" now e

abbrev pub round_answered : Option String → ℤ → Engine → Engine
round_answered none now e = e
round_answered (some error) now e = publish (error_event error "Order reconciliation failed" now) e

-- A round of `reconciliationWorker`.
unfoldable pub reconciliation_tick : Option String → ℤ → Engine → Engine
reconciliation_tick answer now e =
    if not (eqb_ℤ e.machine.current state_live_trading)
      && not (eqb_ℤ e.machine.current state_paper_trading)
    then e
    else if e.has_order_service
    then round_answered answer now (record e { calls = reconcile_orders_called ∷ e.calls })
    else e

-- The panic of a worker.
unfoldable pub recover_worker : String → ℤ → Engine → Engine
recover_worker name now e =
    publish
      (alert alert_critical (append "Engine worker " (append name " recovered from panic")) now)
      (halt (append name " worker panic recovered") now e)

-- A round of `handleStateTransitions`.
unfoldable pub forward_transition : StateTransition → Engine → Engine
forward_transition t e = publish (transitioned t) e
