-- ===== src/Runtime/Drift.antt =====
-- The drift gate: it closes above 500 ms and opens below 200 ms.
use kairos_agent.Base.{◌≡◌, refl, ◌∙◌, Bool, true, false, if◌then◌else◌, List, [], ◌∷◌, arith}
use kairos_agent.Base.Int.{ℤ, ◌≤ℤ◌, ltb_ℤ}
use kairos_agent.Base.Lists.{All}
use kairos_agent.Runtime.Manager.{Manager, drift_high, drift_low, update_ntp_drift}

pub drifts : List (ℤ × ℤ) → Manager → Manager
drifts [] m = m
drifts ((drift, now) ∷ l) m = drifts l (update_ntp_drift drift now m)

drift_between :
    (drift now : ℤ) (m : Manager)
    → drift_low ≤ℤ drift
    → drift ≤ℤ drift_high
    → (update_ntp_drift drift now m).status.new_entries_blocked ≡ m.status.new_entries_blocked
unfolding update_ntp_drift
drift_between drift now m low high = ground arith

drifts_keep :
    (l : List (ℤ × ℤ)) (m : Manager)
    → All (λ d. (drift_low ≤ℤ d.0) × (d.0 ≤ℤ drift_high)) l
    → (drifts l m).status.new_entries_blocked ≡ m.status.new_entries_blocked
unfolding drifts
drifts_keep [] m h = refl
drifts_keep ((drift, now) ∷ l) m h =
    drifts_keep l (update_ntp_drift drift now m) h.1 ∙ drift_between drift now m h.0.0 h.0.1

-- The flag after a drift, from what it was before.
abbrev pub expected_block : ℤ → Bool → Bool
expected_block drift before =
    if ltb_ℤ drift_high drift then true else if ltb_ℤ drift drift_low then false else before

-- After a drift above 500 ms new entries are blocked, after one below 200 ms (a negative one too)
-- they are not, and after any other they are blocked as they were before; any number of further
-- readings from 200 ms to 500 ms changes nothing.
pub drift_hysteresis :
    (drift now : ℤ) (l : List (ℤ × ℤ)) (m : Manager)
    → All (λ d. (drift_low ≤ℤ d.0) × (d.0 ≤ℤ drift_high)) l
    → (drifts ((drift, now) ∷ l) m).status.new_entries_blocked
      ≡ expected_block drift m.status.new_entries_blocked
unfolding drifts update_ntp_drift
drift_hysteresis drift now l m h = drifts_keep l (update_ntp_drift drift now m) h ∙ ground arith
