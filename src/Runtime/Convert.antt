-- ===== src/Runtime/Convert.antt =====
-- internal/providers/conv/agent.go: the runtime status and the domain's record of it. The
-- conversions of the single states are identities of Go's named strings.
use kairos_agent.Entity.Agent.{RuntimeStatus}
use kairos_agent.Runtime.Manager.{Status}

unfoldable pub status_to_domain : Status → RuntimeStatus
status_to_domain s = record {
  mode = s.mode;
  connectivity = s.connectivity;
  license = s.license;
  integrity = s.integrity;
  ntp_drift = s.ntp_drift;
  new_entries_blocked = s.new_entries_blocked;
  halt_reason = s.halt_reason;
  halted_at_utc = s.halted_at_utc;
  banner = s.banner;
  analytics_degraded = s.analytics_degraded;
  last_updated_at_utc = s.last_updated_at_utc;
}

unfoldable pub status_from_domain : RuntimeStatus → Status
status_from_domain s = record {
  mode = s.mode;
  connectivity = s.connectivity;
  license = s.license;
  integrity = s.integrity;
  ntp_drift = s.ntp_drift;
  new_entries_blocked = s.new_entries_blocked;
  halt_reason = s.halt_reason;
  halted_at_utc = s.halted_at_utc;
  banner = s.banner;
  analytics_degraded = s.analytics_degraded;
  last_updated_at_utc = s.last_updated_at_utc;
}
