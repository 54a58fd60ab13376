-- ===== src/AgentService/Live.antt =====
-- `StartLive` and `EmergencyStop`, with the gate that reads the status afterwards.
use kairos_agent.Base.{◌≡◌, false}
use kairos_agent.Base.Int.{pos, ◌≤ℤ◌}
use kairos_agent.Entity.Agent.{connectivity_connected, integrity_trusted}
use kairos_agent.Runtime.Manager.{Status, Manager}

-- All that the gate asks of the status, but for the mode and the license.
pub record IsReady (s : Status) : Type 0 where
  pub ready_connected : s.connectivity ≡ connectivity_connected
  pub ready_trusted : s.integrity ≡ integrity_trusted
  pub ready_unblocked : s.new_entries_blocked ≡ false
  pub ready_in_sync : s.ntp_drift ≤ℤ pos 500_000_000
