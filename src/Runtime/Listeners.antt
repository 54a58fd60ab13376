-- ===== src/Runtime/Listeners.antt =====
-- What the subscribers of a state machine receive.
use kairos_agent.Base.{
  ℕ, String, ◌≡◌, refl, ◌≢◌, ◌⊎◌, Option, none, some, List, [], ◌∷◌, ◌++◌, arith, str_eq_iff, ltb,
  ◌==◌, if◌then◌else◌,
}
use kairos_agent.Base.Int.{ℤ}
use kairos_agent.Base.Lists.{length}
use kairos_agent.Entity.Agent.{RunMode, run_mode_idle, run_mode_halted}
use kairos_agent.Runtime.StateMachine.{
  StateTransition, Channel, StateMachine, offer, notify_all, transition,
}

-- The channel that an identifier stands for.
abbrev pub channel_of : ℕ → List (ℕ × Channel) → Option Channel
channel_of id [] = none
channel_of id ((j, c) ∷ l) = if j == id then some c else channel_of id l

offer_some : StateTransition → Option Channel → Option Channel
offer_some t none = none
offer_some t (some c) = some (offer t c)

channel-notify :
    (id : ℕ) (t : StateTransition) (l : List (ℕ × Channel))
    → channel_of id (notify_all t l) ≡ offer_some t (channel_of id l)
unfolding notify_all offer_some
channel-notify id t [] = refl
channel-notify id t ((j, c) ∷ l) = ground (arith, channel-notify id t l)

-- A transition that is carried out is appended to the channel of each subscriber that has room,
-- and to no other: a full one is left as it is. The transition says where the machine was, where it
-- went, when and why.
pub transition_delivers :
    (to : RunMode) (reason : String) (now : ℤ) (sm : StateMachine) (id : ℕ) {c : Channel}
    → sm.current ≢ to
    → (sm.current ≢ run_mode_halted) ⊎ (to ≡ run_mode_idle)
    → channel_of id sm.listeners ≡ some c
    → let event : StateTransition = record {
      from = sm.current;
      to = to;
      timestamp = now;
      reason = reason;
    } in
      channel_of id (transition to reason now sm).0.listeners ≡ (
        if ltb (length c.buffer) c.capacity
        then some (record c { buffer = c.buffer ++ event ∷ [] })
        else some c)
unfolding transition offer_some offer
transition_delivers to reason now sm id moves ready e =
    let event : StateTransition = record {
      from = sm.current;
      to = to;
      timestamp = now;
      reason = reason;
    } in
    ground (
      arith,
      str_eq_iff sm.current to,
      str_eq_iff sm.current run_mode_halted,
      str_eq_iff to run_mode_idle,
      channel-notify id event sm.listeners,
    )
