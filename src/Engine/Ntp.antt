-- ===== src/Engine/Ntp.antt =====
-- internal/engine/ntp.go: the drift of the clock. What the servers answer is an argument.
use kairos_agent.Base.{String, ◌⊎◌, inl, inr, Bool, List, [], ◌∷◌, if◌then◌else◌}
use kairos_agent.Base.Int.{ℤ, pos, ◌-ℤ◌, ltb_ℤ, leb_ℤ}

pub record NtpSyncWorker : Type 0 where
  pub max_drift : ℤ
  pub servers : List String
  pub last_sync : ℤ
  pub drift : ℤ

abbrev pub new_ntp_sync_worker : ℤ → NtpSyncWorker
new_ntp_sync_worker max_drift = record {
  max_drift = max_drift;
  servers = "pool.ntp.org" ∷ "time.nist.gov" ∷ "time.google.com" ∷ [];
  last_sync = pos 0;
  drift = pos 0;
}

-- The absolute value of the offset.
unfoldable pub drift_of : ℤ → ℤ
drift_of offset = if ltb_ℤ offset (pos 0) then pos 0 -ℤ offset else offset

-- The loop over the servers: the drift, or the last error. `query` answers with the offset of the
-- clock or an error.
abbrev pub heard : ℤ ⊎ String → (String → ℤ ⊎ String) → ℤ ⊎ String
heard (inl offset) retry = inl (drift_of offset)
heard (inr e) retry = retry e

unfoldable pub query_all : (String → ℤ ⊎ String) → List String → String → ℤ ⊎ String
query_all query [] last_error = inr last_error
query_all query (server ∷ rest) last_error = heard (query server) (λ e. query_all query rest e)

-- `Check`: `now` is the time of the answer.
abbrev pub measured : ℤ → ℤ ⊎ String → NtpSyncWorker → NtpSyncWorker
measured now (inl drift) w = record w { drift = drift; last_sync = now }
measured now (inr e) w = w

unfoldable pub check : (String → ℤ ⊎ String) → ℤ → NtpSyncWorker → NtpSyncWorker × (ℤ ⊎ String)
check query now w = let answer = query_all query w.servers "" in (measured now answer w, answer)

unfoldable pub is_healthy : NtpSyncWorker → Bool
is_healthy w = leb_ℤ w.drift w.max_drift
