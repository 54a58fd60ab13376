-- ===== src/Engine/Closing.antt =====
-- The graceful shutdown: all its steps are done, whatever fails.
use mathlib.Core.List.{append-nil, append_assoc}
use kairos_agent.Base.{
  String, ◌≡◌, refl, sym, ap, ◌∙◌, ◌⊎◌, inl, inr, true, false, Option, none, some, List, [], ◌∷◌,
  ◌++◌, map, arith,
}
use kairos_agent.Base.Int.{ℤ, eqb_ℤ, eq_of_parts}
use kairos_agent.Engine.StateMachine.{state_halted, is_valid_transition, transition}
use kairos_agent.Engine.Workers.{Engine, transition_to}
use kairos_agent.Engine.Halting.{IsHalted}
use kairos_agent.Engine.Shutdown.{
  shutdown_steps, disconnects, closes, Action, cancel_order, unload_strategies, shutdown_bus,
  cancel_context, Connector, Parts, GracefulShutdown, halt_unless_halted, stop, cancel_listed,
  cancel_all_orders, unload_all, close_connections, shutdown,
}

-- The cancellations that an open connector is asked for.
abbrev pub cancels : (List String → List String) → Option Connector → List Action
cancels visit none = []
cancels visit (some c) = elim (c.open_orders) [
  | inl ids ↦ map cancel_order (visit ids)
  | inr e ↦ []
]

abbrev pub unloads : Option (Option String) → List Action
unloads none = []
unloads (some _) = unload_strategies ∷ []

transition_to-IsHalted :
    (reason : String) (now : ℤ) (e : Engine)
    → eqb_ℤ e.machine.current state_halted ≡ false
    → ((transition_to state_halted reason now e).1 ≡ none)
      × IsHalted (transition_to state_halted reason now e).0
unfolding transition_to transition is_valid_transition
transition_to-IsHalted reason now e h = ground arith

halted_lem :
    (reason : String) (now : ℤ) (s : GracefulShutdown)
    → let r = halt_unless_halted reason now s in
      (r.1 ≡ none) × IsHalted r.0.engine × (r.0.actions ≡ s.actions) × (r.0.finished ≡ s.finished)
unfolding halt_unless_halted
halted_lem reason now s = ground (
  arith,
  transition_to-IsHalted reason now s.engine,
  eq_of_parts s.engine.machine.current state_halted,
)

canceled_lem :
    (visit : List String → List String) (c : Option Connector) (s : GracefulShutdown)
    → let r = cancel_all_orders visit c s in
      (r.0.engine ≡ s.engine) × (r.0.actions ≡ s.actions ++ cancels visit c)
unfolding cancel_all_orders
canceled_lem visit none s = (refl, sym (append-nil s.actions))
canceled_lem visit (some c) s = listed_lem c.open_orders
  where
    listed_lem :
        (orders : List String ⊎ String)
        → let r = cancel_listed visit c.cancel_error orders s in
          (r.0.engine ≡ s.engine)
          × (r.0.actions
              ≡ s.actions ++ (elim orders [ inl ids ↦ map cancel_order (visit ids) | inr e ↦ [] ]))
    listed_lem (inl ids) = (refl, refl)
    listed_lem (inr e) = (refl, sym (append-nil s.actions))

unloaded_lem :
    (x : Option (Option String)) (s : GracefulShutdown)
    → let r = unload_all x s in (r.0.engine ≡ s.engine) × (r.0.actions ≡ s.actions ++ unloads x)
unfolding unload_all
unloaded_lem none s = (refl, sym (append-nil s.actions))
unloaded_lem (some answer) s = (refl, refl)

stop_lem :
    (now : ℤ) (s : GracefulShutdown)
    → let r = stop now s in
      IsHalted r.0.engine
      × (r.0.actions ≡ s.actions ++ (cancel_context ∷ shutdown_bus ∷ []))
      × (r.1 ≡ none)
unfolding stop
stop_lem now s =
    let halted = halted_lem "shutdown requested" now s in
    ground (arith, halted.0, halted.1, halted.2)

-- What the shutdown asks of the other parts.
unfoldable pub all_actions : (List String → List String) → Parts → List Action
all_actions visit parts =
    cancels visit parts.connector
    ++ (unloads parts.executor
        ++ ((disconnects parts.connector ++ closes parts.storage ++ (shutdown_bus ∷ []))
            ++ (cancel_context ∷ shutdown_bus ∷ [])))

steps_lem :
    (visit : List String → List String) (parts : Parts) (now₀ now₁ : ℤ) (s : GracefulShutdown)
    → let r = shutdown_steps visit parts now₀ now₁ s in
      IsHalted r.0.engine
      × (r.0.actions ≡ s.actions ++ all_actions visit parts)
      × (r.0.finished ≡ true)
unfolding shutdown_steps close_connections all_actions
steps_lem visit parts now₀ now₁ s =
    let halted = halt_unless_halted "graceful shutdown initiated" now₀ s in
    let canceled = cancel_all_orders visit parts.connector halted.0 in
    let unloaded = unload_all parts.executor canceled.0 in
    let closed = close_connections parts unloaded.0 in
    let h = halted_lem "graceful shutdown initiated" now₀ s in
    let c = canceled_lem visit parts.connector halted.0 in
    let u = unloaded_lem parts.executor canceled.0 in
    let t = stop_lem now₁ closed.0 in
    let a = cancels visit parts.connector in
    let b = unloads parts.executor in
    let e = disconnects parts.connector ++ closes parts.storage ++ (shutdown_bus ∷ []) in
    let f = cancel_context ∷ shutdown_bus ∷ [] in
    let opened : canceled.0.actions ≡ s.actions ++ a = c.1 ∙ ap (λ z. z ++ a) h.2 in
    let left : unloaded.0.actions ≡ (s.actions ++ a) ++ b = u.1 ∙ ap (λ z. z ++ b) opened in
    let ended : closed.0.actions ≡ ((s.actions ++ a) ++ b) ++ e = ap (λ z. z ++ e) left in
    (
      t.0,
      t.1
          ∙ ap (λ z. z ++ f) ended
          ∙ append_assoc ((s.actions ++ a) ++ b) e f
          ∙ append_assoc (s.actions ++ a) b (e ++ f)
          ∙ append_assoc s.actions a (b ++ (e ++ f)),
      refl,
    )

-- The first `Shutdown` leaves the engine halted, whatever its state was, and does all its steps in
-- order, whatever fails: it asks for the cancellation of every order that the exchange lists as open,
-- unloads the strategies, closes the connections that are set and the bus, and stops the workers. A
-- later call does nothing.
pub shutdown_completes :
    (visit : List String → List String) (parts : Parts) (now₀ now₁ : ℤ) (s : GracefulShutdown)
    → s.finished ≡ false
    → let r = shutdown visit parts now₀ now₁ s in
      IsHalted r.0.engine
      × (r.0.actions ≡ s.actions ++ all_actions visit parts)
      × (shutdown visit parts now₀ now₁ r.0 ≡ (r.0, []))
unfolding shutdown
shutdown_completes visit parts now₀ now₁ s first =
    let r = shutdown_steps visit parts now₀ now₁ s in
    let done = steps_lem visit parts now₀ now₁ s in
    let same : shutdown visit parts now₀ now₁ s ≡ r = ground (arith, first) in
    let again : shutdown visit parts now₀ now₁ r.0 ≡ (r.0, []) = ground (arith, done.2) in
    (
      ap (λ x. x.0.engine.machine.current) same ∙ done.0,
      ap (λ x. x.0.actions) same ∙ done.1,
      rw same again,
    )
