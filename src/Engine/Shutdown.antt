-- ===== src/Engine/Shutdown.antt =====
-- internal/engine/shutdown.go, and `Stop` of engine.go: what is asked of the other parts when the agent
-- ends, in order. Their answers are arguments.
use kairos_agent.Base.{
  String, ◌⊎◌, inl, inr, Bool, true, Option, none, some, List, [], ◌∷◌, ◌++◌, map, if◌then◌else◌,
  is_some,
}
use kairos_agent.Base.Int.{ℤ, eqb_ℤ}
use kairos_agent.Engine.StateMachine.{state_halted, TransitionError}
use kairos_agent.Engine.Workers.{Engine, transition_to}

pub data Action : Type 0 where
  cancel_order : String → Action
  unload_strategies : Action
  disconnect : Action
  close_storage : Action
  shutdown_bus : Action
  cancel_context : Action

pub data ShutdownError : Type 0 where
  halt_refused : TransitionError → ShutdownError
  open_orders_unknown : String → ShutdownError
  orders_not_canceled : List String → ShutdownError
  strategies_not_unloaded : String → ShutdownError
  connections_not_closed : List String → ShutdownError

-- The answers of a connector: the ids of the open orders or an error, the error of the cancellation
-- of an order, and that of the disconnection.
pub record Connector : Type 0 where
  pub open_orders : List String ⊎ String
  pub cancel_error : String → Option String
  pub disconnect_error : Option String

-- The parts that are set, with the errors of their ends.
pub record Parts : Type 0 where
  pub connector : Option Connector
  pub executor : Option (Option String)
  pub storage : Option (Option String)

-- `finished` is the channel `done`, closed or not; `actions` is what was done, in order.
pub record GracefulShutdown : Type 0 where
  pub engine : Engine
  pub finished : Bool
  pub actions : List Action

abbrev pub act : List Action → GracefulShutdown → GracefulShutdown
act l s = record s { actions = s.actions ++ l }

abbrev pub one : Option ShutdownError → List ShutdownError
one none = []
one (some e) = e ∷ []

-- `Stop` and step 1: the halt, unless the engine is halted.
unfoldable pub halt_unless_halted :
    String → ℤ → GracefulShutdown → GracefulShutdown × Option TransitionError
halt_unless_halted reason now s =
    if eqb_ℤ s.engine.machine.current state_halted then (s, none) else (
      record s { engine = (transition_to state_halted reason now s.engine).0 },
      (transition_to state_halted reason now s.engine).1,
    )

abbrev pub refused : Option TransitionError → Option ShutdownError
refused none = none
refused (some e) = some (halt_refused e)

unfoldable pub stop : ℤ → GracefulShutdown → GracefulShutdown × Option ShutdownError
stop now s =
    let halted = halt_unless_halted "shutdown requested" now s in
    if is_some halted.1
    then (halted.0, refused halted.1)
    else (act (cancel_context ∷ shutdown_bus ∷ []) halted.0, none)

unfoldable pub failures_of : (String → Option String) → List String → List String
failures_of answer [] = []
failures_of answer (id ∷ rest) =
    let later = failures_of answer rest in if is_some (answer id) then id ∷ later else later

abbrev pub failed_cancels : List String → Option ShutdownError
failed_cancels [] = none
failed_cancels (id ∷ rest) = some (orders_not_canceled (id ∷ rest))

-- The goroutines cancel the orders in any order, `visit`.
abbrev pub cancel_listed :
    (List String → List String)
    → (String → Option String)
    → List String ⊎ String
    → GracefulShutdown
    → GracefulShutdown × Option ShutdownError
cancel_listed visit answer (inr e) s = (s, some (open_orders_unknown e))
cancel_listed visit answer (inl ids) s =
    (act (map cancel_order (visit ids)) s, failed_cancels (failures_of answer (visit ids)))

unfoldable pub cancel_all_orders :
    (List String → List String)
    → Option Connector
    → GracefulShutdown
    → GracefulShutdown × Option ShutdownError
cancel_all_orders visit none s = (s, none)
cancel_all_orders visit (some c) s = cancel_listed visit c.cancel_error c.open_orders s

abbrev pub not_unloaded : Option String → Option ShutdownError
not_unloaded none = none
not_unloaded (some e) = some (strategies_not_unloaded e)

unfoldable pub unload_all :
    Option (Option String) → GracefulShutdown → GracefulShutdown × Option ShutdownError
unload_all none s = (s, none)
unload_all (some answer) s = (act (unload_strategies ∷ []) s, not_unloaded answer)

abbrev pub disconnects : Option Connector → List Action
disconnects none = []
disconnects (some _) = disconnect ∷ []

abbrev pub closes : Option (Option String) → List Action
closes none = []
closes (some _) = close_storage ∷ []

abbrev pub error_list : Option String → List String
error_list none = []
error_list (some e) = e ∷ []

abbrev pub connector_errors : Option Connector → List String
connector_errors none = []
connector_errors (some c) = error_list c.disconnect_error

abbrev pub storage_errors : Option (Option String) → List String
storage_errors none = []
storage_errors (some answer) = error_list answer

abbrev pub joined : List String → Option ShutdownError
joined [] = none
joined (e ∷ rest) = some (connections_not_closed (e ∷ rest))

unfoldable pub close_connections :
    Parts → GracefulShutdown → GracefulShutdown × Option ShutdownError
close_connections parts s = (
  act (disconnects parts.connector ++ closes parts.storage ++ (shutdown_bus ∷ [])) s,
  joined (connector_errors parts.connector ++ storage_errors parts.storage),
)

-- The five steps: the errors of all of them. `now₀` and `now₁` are the times of the two transitions.
unfoldable pub shutdown_steps :
    (List String → List String)
    → Parts
    → ℤ
    → ℤ
    → GracefulShutdown
    → GracefulShutdown × List ShutdownError
shutdown_steps visit parts now₀ now₁ s =
    let halted = halt_unless_halted "graceful shutdown initiated" now₀ s in
    let canceled = cancel_all_orders visit parts.connector halted.0 in
    let unloaded = unload_all parts.executor canceled.0 in
    let closed = close_connections parts unloaded.0 in
    let stopped = stop now₁ closed.0 in
    (
      record (stopped.0) { finished = true },
      one (refused halted.1) ++ one canceled.1 ++ one unloaded.1 ++ one closed.1 ++ one stopped.1,
    )

-- `Shutdown`
unfoldable pub shutdown :
    (List String → List String)
    → Parts
    → ℤ
    → ℤ
    → GracefulShutdown
    → GracefulShutdown × List ShutdownError
shutdown visit parts now₀ now₁ s =
    if s.finished then (s, []) else shutdown_steps visit parts now₀ now₁ s
