-- ===== src/Runtime/Tests.antt =====
-- The runtime on concrete inputs.
mod MarkedCodec
use kairos_agent.Base.{ne_of_str_eq, ◌≡◌, refl, ◌≢◌, true, false, none, List, [], ◌∷◌, arith}
use kairos_agent.Base.Int.{pos}
use kairos_agent.Entity.Agent.{run_mode_live_trading, run_mode_halted, display, license_licensed}
use kairos_agent.Runtime.StateMachine.{
  Channel, StateMachine, new_state_machine, transition, subscribe, unsubscribe,
}
use kairos_agent.Runtime.Manager.{
  Status, Manager, new_manager, halted_banner, manager_transition, update_ntp_drift, start_live,
  start_paper,
}
use kairos_agent.Runtime.Restore.{restore_safety_snapshot}
use kairos_agent.Runtime.Convert.{status_to_domain}
use kairos_agent.Runtime.Store.{found, missing, load, save}
use kairos_agent.Runtime.Trace.{Op, transition_to, drift_to, live, paper, stop, step, run}
use kairos_agent.Runtime.Safety.{gate_answer, restart_blocks_entries}
use kairos_agent.Runtime.Reboot.{stored, load-save}
use kairos_agent.TradingGate.{status}
use kairos_agent.Runtime.Tests.MarkedCodec.{marked_codec, marked_codec-IsCodec}

abbrev fresh : Manager
fresh = new_manager "1.0.0" (pos 10) (pos 11)

abbrev day : List Op
day =
    paper (pos 20) (pos 21)
    ∷ drift_to (pos 600_000_000) (pos 30)
    ∷ transition_to run_mode_halted "operator" (pos 40) (pos 41)
    ∷ live true (pos 50) (pos 51)
    ∷ drift_to (pos 1) (pos 60)
    ∷ []

day-status :
    let s = (run day fresh).status in
    (s.mode ≡ run_mode_halted) × (s.banner ≡ "halted: operator") × (s.new_entries_blocked ≡ false)
unfolding run step new_manager manager_transition transition update_ntp_drift start_paper start_live
    halted_banner
day-status = (refl, refl, refl)

display_halted : display (run day fresh).status.mode ≡ "Halted"
unfolding display run step new_manager manager_transition transition update_ntp_drift start_paper
    start_live
display_halted = refl

abbrev halted : Manager
halted = (manager_transition run_mode_halted "operator" (pos 40) (pos 41) fresh).0

abbrev after_halt : List Op
after_halt = drift_to (pos 1) (pos 60) ∷ live true (pos 61) (pos 62) ∷ []

abbrev live_status : Status
live_status = record (fresh.status) { mode = run_mode_live_trading; license = license_licensed }

restart_blocks_entries_example :
    gate_answer (
      run
        (drift_to (pos 1) (pos 60) ∷ stop (pos 61) (pos 62) ∷ [])
        (restore_safety_snapshot live_status (pos 50) (pos 51) fresh))
    ≢ none
restart_blocks_entries_example =
    restart_blocks_entries live_status (pos 50) (pos 51) fresh
      (drift_to (pos 1) (pos 60) ∷ stop (pos 61) (pos 62) ∷ []) (ground arith)

abbrev one_slot : Channel
one_slot = record { capacity = 1; buffer = [] }

abbrev watched : StateMachine
watched = (subscribe one_slot (new_state_machine (pos 10))).0

unsubscribed : (unsubscribe 1 watched).listeners ≡ []
unfolding subscribe new_state_machine unsubscribe
unsubscribed = refl

load-save_example :
    load marked_codec "state.json" none
      (save marked_codec "state.json" none true (status_to_domain live_status) missing)
    ≡ found (stored (status_to_domain live_status))
load-save_example =
    load-save marked_codec marked_codec-IsCodec "state.json" (status_to_domain live_status) missing
      (ne_of_str_eq "state.json" "" refl)
