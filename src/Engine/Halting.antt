-- ===== src/Engine/Halting.antt =====
-- When the workers halt the engine.
use kairos_agent.Base.{
  ◌+◌, String, ◌≡◌, refl, ap, ◌∙◌, ◌⊎◌, inl, inr, Bool, true, false, Option, none, some, List, [],
  ◌∷◌, arith, if◌then◌else◌, is_some, Option-cases,
}
use kairos_agent.Base.Int.{ℤ, pos, ◌≤ℤ◌, eqb_ℤ, eq_of_parts}
use kairos_agent.Base.Lists.{length, All}
use kairos_agent.CircuitBreaker.{CircuitBreaker, Error, before_request, Attempt, execute}
use kairos_agent.Engine.StateMachine.{state_halted, is_valid_transition, transition}
use kairos_agent.Engine.Ntp.{heard, query_all, measured, check}
use kairos_agent.Engine.Workers.{
  Engine, halt, publish, Tick, error_of, should_halt, ntp_failed, ntp_answered, ntp_tick,
}

abbrev pub IsHalted : Engine → Type 0
IsHalted e = e.machine.current ≡ state_halted

pub eqb_refl : (a : ℤ) → eqb_ℤ a a ≡ true
eqb_refl a = ground arith

pub halt-IsHalted : (reason : String) (now : ℤ) (e : Engine) → IsHalted (halt reason now e)
unfolding halt transition is_valid_transition
halt-IsHalted reason now e = ground (arith, eq_of_parts e.machine.current state_halted)

abbrev is_error : ℤ ⊎ String → Bool
is_error (inl _) = false
is_error (inr _) = true

-- No server answers.
abbrev pub IsSilent : Tick → Type 0
IsSilent t = (server : String) → is_error (t.query server) ≡ true

heard_error :
    (answer : ℤ ⊎ String) (retry : String → ℤ ⊎ String)
    → is_error answer ≡ true
    → ((e : String) → is_error (retry e) ≡ true)
    → is_error (heard answer retry) ≡ true
heard_error (inl offset) retry h later = ground arith
heard_error (inr e) retry h later = later e

silent_query :
    (query : String → ℤ ⊎ String) (servers : List String) (last : String)
    → ((server : String) → is_error (query server) ≡ true)
    → is_error (query_all query servers last) ≡ true
unfolding query_all
silent_query query [] last silent = refl
silent_query query (server ∷ rest) last silent =
    heard_error (query server) (λ e. query_all query rest e) (silent server)
      (λ e. silent_query query rest e silent)

some_error : (answer : ℤ ⊎ String) → is_error answer ≡ true → is_some (error_of answer) ≡ true
some_error (inl drift) h = ground arith
some_error (inr e) h = refl

execute_fails :
    (a : Attempt) (cb : CircuitBreaker)
    → is_some a.result ≡ true
    → is_some (execute a (λ c. c) cb).1 ≡ true
unfolding execute
execute_fails a cb h = ground (
  arith,
  Option-cases (before_request a.started cb).2,
  Option-cases a.context,
  Option-cases a.result,
)

unfoldable pub ticks : (ℤ → String) → List Tick → Engine → Engine
ticks show [] e = e
ticks show (t ∷ rest) e = ticks show rest (ntp_tick show t e)

failed_halts :
    (now : ℤ) (e : Engine)
    → e.config.ntp_failure_tolerance ≤ℤ pos (e.ntp_consecutive_failures + 1)
    → IsHalted (ntp_failed now e)
unfolding ntp_failed publish should_halt
failed_halts now e reached = ground (
  arith,
  halt-IsHalted "NTP sync failures exceeded tolerance" now
      (record e { ntp_consecutive_failures = e.ntp_consecutive_failures + 1 }),
)

failed_counts :
    (now : ℤ) (e : Engine)
    → ((ntp_failed now e).ntp_consecutive_failures ≡ e.ntp_consecutive_failures + 1)
      × ((ntp_failed now e).config ≡ e.config)
unfolding ntp_failed publish halt
failed_counts now e = ground arith

answered_failed :
    (show : ℤ → String) (now : ℤ) (error : Option Error) (e : Engine)
    → is_some error ≡ true
    → ntp_answered show now error e ≡ ntp_failed now e
answered_failed show now none e h = ground arith
answered_failed show now (some error) e h = refl

-- The engine that a silent round hands to the count of failures.
silent_tick :
    (show : ℤ → String) (t : Tick) (e : Engine)
    → IsSilent t
    → (checked : Engine) × (ntp_tick show t e ≡ ntp_failed t.now checked)
      × (checked.ntp_consecutive_failures ≡ e.ntp_consecutive_failures)
      × (checked.config ≡ e.config)
unfolding ntp_tick check
silent_tick show t e silent =
    let answer = query_all t.query e.ntp.servers "" in
    let attempt : Attempt = record {
      started = t.tick_started;
      ended = t.tick_ended;
      context = t.tick_context;
      result = error_of answer;
    } in
    let guarded = execute attempt (λ cb. cb) e.breaker in
    let fails = some_error answer (silent_query t.query e.ntp.servers "" silent) in
    let next = record e {
      breaker = guarded.0;
      ntp = if guarded.2 then measured t.tick_ended answer e.ntp else e.ntp;
    } in
    (
      next,
      answered_failed show t.now guarded.1 next (execute_fails attempt e.breaker fails),
      refl,
      refl,
    )

tick_counts :
    (show : ℤ → String) (t : Tick) (e : Engine)
    → IsSilent t
    → ((ntp_tick show t e).ntp_consecutive_failures ≡ e.ntp_consecutive_failures + 1)
      × ((ntp_tick show t e).config ≡ e.config)
tick_counts show t e silent =
    let (checked, same, count, config) = silent_tick show t e silent in
    let counted = failed_counts t.now checked in
    (cc (same, counted.0, count), cc (same, counted.1, config))

tick_halts :
    (show : ℤ → String) (t : Tick) (e : Engine)
    → IsSilent t
    → e.config.ntp_failure_tolerance ≤ℤ pos (e.ntp_consecutive_failures + 1)
    → IsHalted (ntp_tick show t e)
tick_halts show t e silent reached =
    let (checked, same, count, config) = silent_tick show t e silent in
    let reached_there : checked.config.ntp_failure_tolerance
        ≤ℤ pos (checked.ntp_consecutive_failures + 1) =
      ground (arith, reached, count, config) in
    ap (λ n. n.machine.current) same ∙ failed_halts t.now checked reached_there

-- When no time server answers in a number of rounds that brings the consecutive failures to the
-- tolerance, the engine is halted after the last of these rounds, whatever its state was, and whether
-- the circuit breaker lets the calls through or not.
pub silence_halts :
    (show : ℤ → String) (t : Tick) (rest : List Tick) (e : Engine)
    → IsSilent t
    → All IsSilent rest
    → e.config.ntp_failure_tolerance ≤ℤ pos (e.ntp_consecutive_failures + length (t ∷ rest))
    → IsHalted (ticks show (t ∷ rest) e)
unfolding ticks
silence_halts show t [] e silent silents reached = tick_halts show t e silent reached
silence_halts show t (next ∷ rest) e silent silents reached =
    let counted = tick_counts show t e silent in
    silence_halts show next rest (ntp_tick show t e) silents.0 silents.1
      (ground (arith, counted.0, counted.1, reached))
