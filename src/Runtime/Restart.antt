-- ===== src/Runtime/Restart.antt =====
-- Restarts in a row, and the halt and its end.
use kairos_agent.Base.{
  String, ◌≡◌, ◌≢◌, ◌⊎◌, Bool, true, false, not, Option, none, some, arith, str_eq_iff, append,
}
use kairos_agent.Base.Int.{ℤ}
use kairos_agent.Entity.Agent.{
  RunMode, run_mode_idle, run_mode_halted, connectivity_connected, license_demo, integrity_trusted,
}
use kairos_agent.Runtime.Manager.{Status, Manager, halted_banner, manager_transition, stop_all}
use kairos_agent.Runtime.Restore.{
  is_zero_time, is_working, restored_status, restore_safety_snapshot,
}
use text.Mathlib.TextLemmas.{append-eq-nil_iff}

abbrev is_stamped : Option ℤ → Bool
is_stamped none = false
is_stamped (some t) = not (is_zero_time t)

idle-not_working : (m : RunMode) → m ≡ run_mode_idle → is_working m ≡ false
idle-not_working m e = rw e

-- What `restore_safety_snapshot` leaves: a second restart finds nothing to change.
record IsSettled (s : Status) : Type 0 where
  halted_or_idle : (s.mode ≡ run_mode_halted) ⊎ (s.mode ≡ run_mode_idle)
  halted_fields :
      s.mode ≡ run_mode_halted
      → (s.new_entries_blocked ≡ true)
        × (s.halt_reason ≢ "")
        × (is_stamped s.halted_at_utc ≡ true)
        × (s.banner ≡ halted_banner s.halt_reason)
  idle_fields :
      s.mode ≡ run_mode_idle → (s.halt_reason ≡ "") × (s.halted_at_utc ≡ none) × (s.banner ≡ "")
  named : (s.connectivity ≢ "") × (s.license ≢ "") × (s.integrity ≢ "")
  dated : is_zero_time s.last_updated_at_utc ≡ false

unclean-ne-nil : (mode : RunMode) → append "unclean restart from " mode ≢ ""
unclean-ne-nil mode h = cc ((str_eq_iff "unclean restart from " "").1 (append-eq-nil_iff.0 h).0)

restored-IsSettled :
    (now : ℤ) (s : Status) → is_zero_time now ≡ false → IsSettled (restored_status now s)
unfolding restored_status
restored-IsSettled now s t = ground (
  arith,
  str_eq_iff s.mode run_mode_halted,
  str_eq_iff run_mode_halted run_mode_idle,
  str_eq_iff s.halt_reason "",
  str_eq_iff s.connectivity "",
  str_eq_iff s.license "",
  str_eq_iff s.integrity "",
  str_eq_iff connectivity_connected "",
  str_eq_iff license_demo "",
  str_eq_iff integrity_trusted "",
  str_eq_iff "restored halted runtime snapshot" "",
  unclean-ne-nil s.mode,
)

restored_of_IsSettled : (now : ℤ) (s : Status) → IsSettled s → restored_status now s ≡ s
unfolding restored_status
restored_of_IsSettled now s h = ground (
  arith,
  str_eq_iff s.mode run_mode_halted,
  str_eq_iff s.mode run_mode_idle,
  str_eq_iff run_mode_halted run_mode_idle,
  idle-not_working s.mode,
  str_eq_iff s.halt_reason "",
  str_eq_iff s.connectivity "",
  str_eq_iff s.license "",
  str_eq_iff s.integrity "",
)

-- A second restart, from the status that the first one left, at any time and on any manager, leaves
-- the same status: the halt keeps its reason, its time and its banner.
pub restart_twice :
    (snapshot : Status) (now now₀ now₁ now₂ : ℤ) (m n : Manager)
    → is_zero_time now ≡ false
    → (restore_safety_snapshot
        (restore_safety_snapshot snapshot now now₀ m).status
        now₁
        now₂
        n).status
      ≡ (restore_safety_snapshot snapshot now now₀ m).status
unfolding restore_safety_snapshot
restart_twice snapshot now now₀ now₁ now₂ m n t =
    restored_of_IsSettled now₁ (restored_status now snapshot) (restored-IsSettled now snapshot t)

abbrev pub halt_then_stop : String → ℤ → ℤ → ℤ → ℤ → Manager → Manager
halt_then_stop reason h₀ h₁ s₀ s₁ m =
    (stop_all s₀ s₁ (manager_transition run_mode_halted reason h₀ h₁ m).0).0

-- `StopAll` after a halt brings a manager back to idle. If the halt had a reason, nothing of it is
-- left: no reason, no time, no banner, and new entries are not blocked. If its reason was empty,
-- new entries stay blocked, and the time of the halt and the banner "halted" stay too.
pub halt_then_stop_status :
    (reason : String) (h₀ h₁ s₀ s₁ : ℤ) (m : Manager)
    → let s = (halt_then_stop reason h₀ h₁ s₀ s₁ m).status in
      (s.mode ≡ run_mode_idle)
      × (s.halt_reason ≡ "")
      × (reason ≢ "" → (s.new_entries_blocked ≡ false) × (s.halted_at_utc ≡ none) × (s.banner ≡ ""))
      × (reason ≡ ""
          → (s.new_entries_blocked ≡ true) × (s.halted_at_utc ≡ some h₁) × (s.banner ≡ "halted"))
unfolding manager_transition stop_all halted_banner
halt_then_stop_status reason h₀ h₁ s₀ s₁ m = ground (
  arith,
  str_eq_iff reason "",
  str_eq_iff m.state_machine.current run_mode_halted,
  str_eq_iff m.state_machine.current run_mode_idle,
  str_eq_iff run_mode_halted run_mode_idle,
)
