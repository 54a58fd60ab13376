-- ===== src/Engine/StateMachine.antt =====
-- internal/engine/state.go: the states of the engine and the transitions between them.
use kairos_agent.Base.{
  ℕ, ◌+◌, String, Bool, true, false, not, ◌&&◌, Option, none, some, List, [], ◌∷◌, ◌++◌, ltb, ◌==◌,
  if◌then◌else◌,
}
use kairos_agent.Base.Int.{ℤ, pos, eqb_ℤ}
use kairos_agent.Base.Lists.{length}

-- Go declares the states as numbers, so that any number is a value of the type.
abbrev pub State : Type 0
State = ℤ

abbrev pub state_idle : State
state_idle = pos 0

abbrev pub state_scanning : State
state_scanning = pos 1

abbrev pub state_live_trading : State
state_live_trading = pos 2

abbrev pub state_paper_trading : State
state_paper_trading = pos 3

abbrev pub state_backtesting : State
state_backtesting = pos 4

abbrev pub state_optimizing : State
state_optimizing = pos 5

abbrev pub state_halted : State
state_halted = pos 6

unfoldable pub state_name : State → String
state_name s =
    if eqb_ℤ s state_idle
    then "Idle"
    else if eqb_ℤ s state_scanning
    then "Scanning"
    else if eqb_ℤ s state_live_trading
    then "Live Trading"
    else if eqb_ℤ s state_paper_trading
    then "Paper Trading"
    else if eqb_ℤ s state_backtesting
    then "Backtesting"
    else if eqb_ℤ s state_optimizing
    then "Optimizing"
    else if eqb_ℤ s state_halted
    then "Halted"
    else "Unknown"

pub record StateTransition : Type 0 where
  pub from : State
  pub to : State
  pub timestamp : ℤ
  pub reason : String

-- A buffered channel: its capacity and what waits in it, the oldest first.
pub record Channel : Type 0 where
  pub capacity : ℕ
  pub queue : List StateTransition

pub record StateMachine : Type 0 where
  pub current : State
  pub previous : State
  pub transition_at : ℤ
  pub listeners : List (ℕ × Channel)
  pub next_id : ℕ

unfoldable pub new_state_machine : ℤ → StateMachine
new_state_machine now = record {
  current = state_idle;
  previous = state_idle;
  transition_at = now;
  listeners = [];
  next_id = 1;
}

unfoldable pub is_valid_transition : State → State → Bool
is_valid_transition from to =
    if eqb_ℤ from to
    then false
    else if eqb_ℤ from state_halted && not (eqb_ℤ to state_idle)
    then false
    else true

-- A send that does not block.
abbrev offer : StateTransition → Channel → Channel
offer t c = if ltb (length c.queue) c.capacity then record c { queue = c.queue ++ (t ∷ []) } else c

unfoldable pub offer_all : StateTransition → List (ℕ × Channel) → List (ℕ × Channel)
offer_all t [] = []
offer_all t ((id, c) ∷ rest) = (id, offer t c) ∷ offer_all t rest

pub data TransitionError : Type 0 where
  invalid_transition : State → State → TransitionError

unfoldable pub transition :
    State → String → ℤ → StateMachine → StateMachine × Option TransitionError
transition to reason now sm =
    let event : StateTransition = record {
      from = sm.current;
      to = to;
      timestamp = now;
      reason = reason;
    } in
    if not (is_valid_transition sm.current to)
    then (sm, some (invalid_transition sm.current to))
    else (
      record sm {
        previous = sm.current;
        current = to;
        transition_at = now;
        listeners = offer_all event sm.listeners;
      },
      none,
    )

-- Identifiers are new, so that the map grows by an entry.
unfoldable pub subscribe : Channel → StateMachine → StateMachine × ℕ
subscribe c sm =
    (record sm { listeners = (sm.next_id, c) ∷ sm.listeners; next_id = sm.next_id + 1 }, sm.next_id)

unfoldable pub remove : ℕ → List (ℕ × Channel) → List (ℕ × Channel)
remove id [] = []
remove id ((other, c) ∷ rest) =
    let later = remove id rest in if other == id then later else (other, c) ∷ later

unfoldable pub unsubscribe : ℕ → StateMachine → StateMachine
unsubscribe id sm = record sm { listeners = remove id sm.listeners }
