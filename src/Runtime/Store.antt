-- ===== src/Runtime/Store.antt =====
-- internal/providers/runtime: the snapshot file (snapshot_store.go) and the restart of the runtime
-- from it (repository.go). The text of a time (`time.RFC3339Nano`) and of a snapshot (JSON) are
-- made and read by Go's library, so these functions are parameters.
use kairos_agent.Base.{
  String, ◌≡◌, ◌≢◌, ◌⊎◌, inl, inr, Bool, true, false, not, ◌||◌, Option, none, some, str_eq, append,
  if◌then◌else◌, is_some,
}
use kairos_agent.Base.Int.{ℤ, pos}
use kairos_agent.Entity.Agent.{
  run_mode_halted, connectivity_network_wait, license_demo, integrity_trusted, RuntimeStatus,
}
use kairos_agent.Runtime.Manager.{Status, Manager}
use kairos_agent.Runtime.Restore.{is_zero_time, restore_safety_snapshot}
use kairos_agent.Runtime.Convert.{status_from_domain}

pub record RuntimeSnapshot : Type 0 where
  pub mode : String
  pub connectivity : String
  pub license : String
  pub integrity : String
  pub ntp_drift_nanos : ℤ
  pub new_entries_blocked : Bool
  pub halt_reason : String
  pub halted_at_utc : String
  pub banner : String
  pub analytics_degraded : Bool
  pub last_updated_at_utc : String

-- What the library gives: printing and parsing of times, encoding and decoding of snapshots.
pub record Codec : Type 0 where
  pub format : ℤ → String
  pub parse : String → ℤ ⊎ String
  pub encode : RuntimeSnapshot → String
  pub decode : String → RuntimeSnapshot ⊎ String
  pub quote : String → String  -- the verb `%q`

-- Its documented laws: what is printed is read back, also with a line's end behind a snapshot, and
-- a printed time is not the empty text.
pub record IsCodec (c : Codec) : Type 0 where
  pub parse-format : (t : ℤ) → c.parse (c.format t) ≡ inl t
  pub format_nonempty : (t : ℤ) → c.format t ≢ ""
  pub decode-encode : (s : RuntimeSnapshot) → c.decode (append (c.encode s) "\n") ≡ inl s

pub data LoadError : Type 0 where
  canceled : String → LoadError
  unreadable : String → LoadError
  undecodable : String → LoadError
  bad_time : String → String → String → LoadError

pub data Loaded : Type 0 where
  not_found : Loaded
  found : RuntimeStatus → Loaded
  failed : LoadError → Loaded

-- The file, as `os.ReadFile` finds it.
pub data SnapshotFile : Type 0 where
  missing : SnapshotFile
  broken : String → SnapshotFile
  holding : String → SnapshotFile

module _ (c : Codec) where
  unfoldable pub format_snapshot_time : ℤ → String
  format_snapshot_time t = if is_zero_time t then "" else c.format t

  unfoldable pub format_halted : Option ℤ → String
  format_halted none = ""
  format_halted (some t) = if is_zero_time t then "" else format_snapshot_time t

  unfoldable pub snapshot_from_domain : RuntimeStatus → RuntimeSnapshot
  snapshot_from_domain s = record {
    mode = s.mode;
    connectivity = s.connectivity;
    license = s.license;
    integrity = s.integrity;
    ntp_drift_nanos = s.ntp_drift;
    new_entries_blocked = s.new_entries_blocked;
    halt_reason = s.halt_reason;
    halted_at_utc = format_halted s.halted_at_utc;
    banner = s.banner;
    analytics_degraded = s.analytics_degraded;
    last_updated_at_utc = format_snapshot_time s.last_updated_at_utc;
  }

  parse_or_error : String → String → ℤ ⊎ String → ℤ ⊎ LoadError
  parse_or_error field raw (inr e) = inr (bad_time field raw e)
  parse_or_error field raw (inl t) = inl t

  unfoldable pub parse_snapshot_time : String → String → ℤ ⊎ LoadError
  unfolding parse_or_error
  parse_snapshot_time field raw =
      if str_eq raw "" then inl (pos 0) else parse_or_error field raw (c.parse raw)

  unfoldable pub domain_of : RuntimeSnapshot → ℤ → Option ℤ → RuntimeStatus
  domain_of s last_updated halted_at = record {
    mode = s.mode;
    connectivity = s.connectivity;
    license = s.license;
    integrity = s.integrity;
    ntp_drift = s.ntp_drift_nanos;
    new_entries_blocked = s.new_entries_blocked;
    halt_reason = s.halt_reason;
    halted_at_utc = halted_at;
    banner = s.banner;
    analytics_degraded = s.analytics_degraded;
    last_updated_at_utc = last_updated;
  }

  -- `toDomain`
  unfoldable pub to_domain : RuntimeSnapshot → RuntimeStatus ⊎ LoadError
  unfolding domain_of
  to_domain s = elim (parse_snapshot_time "last_updated_at_utc" s.last_updated_at_utc) [
    | inr e ↦ inr e
    | inl last_updated ↦
        if str_eq s.halted_at_utc ""
        then inl (domain_of s last_updated none)
        else elim (parse_snapshot_time "halted_at_utc" s.halted_at_utc) [
          | inr e ↦ inr e
          | inl t ↦ inl (domain_of s last_updated (some t))
        ]
  ]

  load_decoded : RuntimeSnapshot ⊎ String → Loaded
  unfolding to_domain
  load_decoded (inr e) = failed (undecodable e)
  load_decoded (inl s) = elim (to_domain s) [ inl status ↦ found status | inr e ↦ failed e ]

  load_file : SnapshotFile → Loaded
  unfolding load_decoded
  load_file missing = not_found
  load_file (broken e) = failed (unreadable e)
  load_file (holding body) = load_decoded (c.decode body)

  -- `SnapshotStore.Load`: no path means no snapshot, and the context is asked first.
  unfoldable pub load : String → Option String → SnapshotFile → Loaded
  unfolding load_file
  load path context file =
      if str_eq path ""
      then not_found
      else elim context [ some e ↦ failed (canceled e) | none ↦ load_file file ]

  -- `SnapshotStore.Save`, when no step of the write fails: the new content replaces the file at
  -- once, by the rename. When one fails the file is what it was.
  unfoldable pub save : String → Option String → Bool → RuntimeStatus → SnapshotFile → SnapshotFile
  unfolding snapshot_from_domain
  save path context written status file =
      if str_eq path "" || is_some context || not written
      then file
      else holding (append (c.encode (snapshot_from_domain status)) "\n")

  -- The text of an error, in the reason of the halt.
  error_text : LoadError → String
  error_text (canceled e) = e
  error_text (unreadable e) = append "read runtime snapshot: " e
  error_text (undecodable e) = append "decode runtime snapshot: " e
  error_text (bad_time field raw e) =
      append "parse runtime snapshot "
        (append field (append "=" (append (c.quote raw) (append ": " e))))

  unfoldable pub failed_status : LoadError → Status
  unfolding error_text
  failed_status e = record {
    mode = run_mode_halted;
    connectivity = connectivity_network_wait;
    license = license_demo;
    integrity = integrity_trusted;
    ntp_drift = pos 0;
    new_entries_blocked = true;
    halt_reason = append "runtime snapshot restore failed: " (error_text e);
    halted_at_utc = none;
    banner = "";
    analytics_degraded = false;
    last_updated_at_utc = pos 0;
  }

  unfoldable pub restore_loaded : Loaded → ℤ → ℤ → Manager → Manager
  unfolding failed_status restore_safety_snapshot status_from_domain
  restore_loaded not_found now₀ now₁ m = m
  restore_loaded (found status) now₀ now₁ m =
      restore_safety_snapshot (status_from_domain status) now₀ now₁ m
  restore_loaded (failed e) now₀ now₁ m = restore_safety_snapshot (failed_status e) now₀ now₁ m

  -- `restoreSnapshot`, the manager's part: `New` runs it with the background context.
  unfoldable pub restore_snapshot : String → SnapshotFile → ℤ → ℤ → Manager → Manager
  unfolding load restore_loaded
  restore_snapshot path file now₀ now₁ m = restore_loaded (load path none file) now₀ now₁ m
