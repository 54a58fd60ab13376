-- ===== src/Engine/Resuming.antt =====
-- What the workers do to the state of the engine: they halt it, and nothing else.
use kairos_agent.Base.{
  ◌+◌, String, ◌≡◌, refl, ◌≢◌, ◌⊎◌, inl, inr, Option, none, some, List, [], ◌∷◌, arith, append,
  if◌then◌else◌, Bool-cases,
}
use kairos_agent.Base.Int.{ℤ, eqb_ℤ}
use kairos_agent.CircuitBreaker.{Attempt, Error, execute}
use kairos_agent.Engine.StateMachine.{state_live_trading, StateTransition}
use kairos_agent.Engine.Ntp.{check}
use kairos_agent.Engine.Workers.{
  alert_warning, alert_critical, alert, reconcile_all_called, reconcile_orders_called, Engine,
  publish, Tick, error_of, ntp_failed, ntp_succeeded, ntp_answered, ntp_tick, StreamEvent,
  publish_stream_lifecycle_alert, halt_live_trading_for_stream_event,
  publish_stream_reconciliation_error, reported, reconcile_after_stream_event, handle_stream_event,
  round_answered, reconciliation_tick, recover_worker, forward_transition,
}
use kairos_agent.Engine.Halting.{eqb_refl, IsHalted, halt-IsHalted}

-- The rounds of all the workers, in any order.
pub data Step : Type 0 where
  ntp_round : Tick → Step
  stream_round : StreamEvent → Option String → ℤ → Step
  reconciliation_round : Option String → ℤ → Step
  transition_round : StateTransition → Step
  worker_panic : String → ℤ → Step

module _ (show : ℤ → String) where
  unfoldable pub engine_step : Step → Engine → Engine
  engine_step (ntp_round t) e = ntp_tick show t e
  engine_step (stream_round event answer now) e = handle_stream_event event answer now e
  engine_step (reconciliation_round answer now) e = reconciliation_tick answer now e
  engine_step (transition_round t) e = forward_transition t e
  engine_step (worker_panic name now) e = recover_worker name now e

  unfoldable pub engine_run : List Step → Engine → Engine
  engine_run [] e = e
  engine_run (s ∷ rest) e = engine_run rest (engine_step s e)

  -- The state did not change, or is the halt.
  abbrev pub Stays : Engine → Engine → Type 0
  Stays before after = (after.machine.current ≡ before.machine.current) ⊎ IsHalted after

  answered-Stays :
      (now : ℤ) (error : Option Error) (e : Engine) → Stays e (ntp_answered show now error e)
  unfolding ntp_failed ntp_succeeded publish
  answered-Stays now none e = ground (
    arith,
    halt-IsHalted (append "NTP drift too high: " (show e.ntp.drift)) now
        (record e { ntp_consecutive_failures = 0; ntp_last_successful_sync = now }),
  )
  answered-Stays now (some error) e = ground (
    arith,
    halt-IsHalted "NTP sync failures exceeded tolerance" now
        (record e { ntp_consecutive_failures = e.ntp_consecutive_failures + 1 }),
  )

  reported_stays :
      (event : StreamEvent) (answer : Option String) (now : ℤ) (e : Engine)
      → (reported event answer now e).machine ≡ e.machine
  unfolding publish_stream_reconciliation_error publish
  reported_stays event none now e = refl
  reported_stays event (some error) now e = refl

  reconciled_stays :
      (event : StreamEvent) (answer : Option String) (now : ℤ) (e : Engine)
      → (reconcile_after_stream_event event answer now e).machine ≡ e.machine
  unfolding reconcile_after_stream_event
  reconciled_stays event answer now e = ground (
    arith,
    reported_stays event answer now (record e { calls = reconcile_all_called ∷ e.calls }),
    reported_stays event answer now (record e { calls = reconcile_orders_called ∷ e.calls }),
  )

  stream_halt-Stays :
      (event : StreamEvent) (now : ℤ) (e : Engine)
      → Stays e (halt_live_trading_for_stream_event event now e)
        × ((halt_live_trading_for_stream_event event now e).machine.current ≢ state_live_trading)
  unfolding halt_live_trading_for_stream_event
  stream_halt-Stays event now e =
      let reason =
        append "connector stream " (append event.event_type (append ": " event.event_reason)) in
      ground (
        arith,
        halt-IsHalted reason now e,
        eqb_refl e.machine.current,
        Bool-cases (eqb_ℤ e.machine.current state_live_trading),
      )

  -- What a stream event does to the state: a loss or a gap halts live trading, and any other event
  -- leaves the state alone.
  stream-Stays :
      (event : StreamEvent) (answer : Option String) (now : ℤ) (e : Engine)
      → Stays e (handle_stream_event event answer now e)
  unfolding handle_stream_event publish_stream_lifecycle_alert publish
  stream-Stays event answer now e =
      let lost = record e {
        published =
            alert alert_warning
              (append "Connector stream disconnected" (append ": " event.event_reason)) now
            ∷ e.published;
      } in
      let gap = record e {
        published =
            alert alert_critical
              (append "Connector stream gap detected" (append ": " event.event_reason)) now
            ∷ e.published;
      } in
      let back = record e {
        published =
            alert alert_warning
              (append "Connector stream reconnected" (append ": " event.event_reason)) now
            ∷ e.published;
      } in
      ground (
        arith,
        (stream_halt-Stays event now lost).0,
        (stream_halt-Stays event now gap).0,
        reconciled_stays event answer now (halt_live_trading_for_stream_event event now gap),
        reconciled_stays event answer now back,
      )

  round_answer_stays :
      (answer : Option String) (now : ℤ) (e : Engine)
      → (round_answered answer now e).machine ≡ e.machine
  unfolding publish
  round_answer_stays none now e = refl
  round_answer_stays (some error) now e = refl

  round-Stays :
      (answer : Option String) (now : ℤ) (e : Engine) → Stays e (reconciliation_tick answer now e)
  unfolding reconciliation_tick
  round-Stays answer now e = ground (
    arith,
    round_answer_stays answer now (record e { calls = reconcile_orders_called ∷ e.calls }),
  )

  step-Stays : (s : Step) (e : Engine) → Stays e (engine_step s e)
  unfolding engine_step ntp_tick reconciliation_tick forward_transition recover_worker publish
  step-Stays (ntp_round t) e =
      let checked = check t.query t.tick_ended e.ntp in
      let attempt : Attempt = record {
        started = t.tick_started;
        ended = t.tick_ended;
        context = t.tick_context;
        result = error_of checked.1;
      } in
      let guarded = execute attempt (λ cb. cb) e.breaker in
      answered-Stays t.now guarded.1
        (record e { breaker = guarded.0; ntp = if guarded.2 then checked.0 else e.ntp })
  step-Stays (stream_round event answer now) e = stream-Stays event answer now e
  step-Stays (reconciliation_round answer now) e = round-Stays answer now e
  step-Stays (transition_round t) e = inl refl
  step-Stays (worker_panic name now) e =
      inr (halt-IsHalted (append name " worker panic recovered") now e)

  joins : (e f g : Engine) → Stays e f → Stays f g → Stays e g
  joins e f g first second = ground arith

  -- The workers of the engine never start trading and never lift a halt: after any rounds of theirs, in
  -- any order, the state is the one before, or halted.
  pub workers_never_resume : (steps : List Step) (e : Engine) → Stays e (engine_run steps e)
  unfolding engine_run
  workers_never_resume [] e = inl refl
  workers_never_resume (s ∷ rest) e =
      joins e (engine_step s e) (engine_run rest (engine_step s e)) (step-Stays s e)
        (workers_never_resume rest (engine_step s e))
