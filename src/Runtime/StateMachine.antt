-- ===== src/Runtime/StateMachine.antt =====
-- internal/runtime/statemachine.go: the run mode and its listeners. `time.Now()` is an argument.
use kairos_agent.Base.{
  ℕ, String, not, ◌&&◌, Option, none, some, List, [], ◌∷◌, ◌++◌, str_eq, ltb, ◌==◌, if◌then◌else◌,
}
use kairos_agent.Base.Int.{ℤ, pos, eqb_ℤ}
use kairos_agent.Base.Words.{incr64}
use kairos_agent.Base.Lists.{length}
use kairos_agent.Entity.Agent.{RunMode, run_mode_idle, run_mode_halted}

pub record StateTransition : Type 0 where
  pub from : RunMode
  pub to : RunMode
  pub timestamp : ℤ
  pub reason : String

-- A subscriber's channel: its capacity and what it holds, the oldest first. Each subscriber brings
-- a channel of its own.
pub record Channel : Type 0 where
  pub capacity : ℕ
  pub buffer : List StateTransition

pub record StateMachine : Type 0 where
  pub current : RunMode
  pub previous : RunMode
  pub transition_at : ℤ
  pub listeners : List (ℕ × Channel)
  pub next_id : ℕ  -- uint64

unfoldable pub new_state_machine : ℤ → StateMachine
new_state_machine now = record {
  current = run_mode_idle;
  previous = run_mode_idle;
  transition_at = now;
  listeners = [];
  next_id = 1;
}

-- `Restore`: no listener is told.
unfoldable pub restore_mode : RunMode → ℤ → ℤ → StateMachine → StateMachine
restore_mode mode at now sm = record sm {
  previous = sm.current;
  current = mode;
  transition_at = if eqb_ℤ at (pos 0) then now else at;
}

-- A send that does not block: a full channel drops the value.
unfoldable pub offer : StateTransition → Channel → Channel
offer t c = if ltb (length c.buffer) c.capacity then record c { buffer = c.buffer ++ t ∷ [] } else c

unfoldable pub notify_all : StateTransition → List (ℕ × Channel) → List (ℕ × Channel)
unfolding offer
notify_all t [] = []
notify_all t ((id, c) ∷ l) = (id, offer t c) ∷ notify_all t l

unfoldable pub notify : StateTransition → StateMachine → StateMachine
notify t sm = record sm { listeners = notify_all t sm.listeners }

pub data TransitionError : Type 0 where
  invalid_transition : RunMode → RunMode → TransitionError

-- `Transition`. The source sets the mode by two equal branches, one for the halt.
unfoldable pub transition :
    RunMode → String → ℤ → StateMachine → StateMachine × Option TransitionError
unfolding notify
transition to reason now sm =
    let from = sm.current in
    let moved = record sm { previous = from; current = to; transition_at = now } in
    let event : StateTransition = record {
      from = from;
      to = to;
      timestamp = now;
      reason = reason;
    } in
    if str_eq from to
    then (sm, none)
    else if str_eq from run_mode_halted && not (str_eq to run_mode_idle)
    then (sm, some (invalid_transition from to))
    else if str_eq to run_mode_halted
    then (notify event moved, none)
    else (notify event moved, none)

put : ℕ → Channel → List (ℕ × Channel) → List (ℕ × Channel)
put id c [] = (id, c) ∷ []
put id c ((j, d) ∷ l) = if j == id then (id, c) ∷ l else (j, d) ∷ put id c l

-- `Subscribe`: the new machine and the identifier.
unfoldable pub subscribe : Channel → StateMachine → StateMachine × ℕ
unfolding put
subscribe c sm = (
  record sm { listeners = put sm.next_id c sm.listeners; next_id = incr64 sm.next_id },
  sm.next_id,
)

remove : ℕ → List (ℕ × Channel) → List (ℕ × Channel)
remove id [] = []
remove id ((j, d) ∷ l) = if j == id then l else (j, d) ∷ remove id l

unfoldable pub unsubscribe : ℕ → StateMachine → StateMachine
unfolding remove
unsubscribe id sm = record sm { listeners = remove id sm.listeners }
