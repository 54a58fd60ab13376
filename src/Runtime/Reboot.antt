-- ===== src/Runtime/Reboot.antt =====
-- The snapshot file read back, and the runtime started from it.
use kairos_agent.Base.{
  String, ◌≡◌, ◌≢◌, ◌⊎◌, inl, inr, true, Option, none, some, arith, str_eq, str_eq_iff,
  if◌then◌else◌, Bool-cases,
}
use kairos_agent.Base.Int.{ℤ}
use kairos_agent.Entity.Agent.{RuntimeStatus}
use kairos_agent.Runtime.Manager.{Manager}
use kairos_agent.Runtime.Restore.{is_zero_time}
use kairos_agent.Runtime.Store.{
  format_halted, domain_of, failed_status, failed_status, Codec, IsCodec, LoadError, found,
  SnapshotFile, format_snapshot_time, snapshot_from_domain, parse_snapshot_time, to_domain, load,
  save,
}

abbrev clear_zero : Option ℤ → Option ℤ
clear_zero none = none
clear_zero (some t) = if is_zero_time t then none else some t

-- A zero time of a halt is stored as no time.
abbrev pub stored : RuntimeStatus → RuntimeStatus
stored s = record s { halted_at_utc = clear_zero s.halted_at_utc }

module _ (c : Codec) (laws : IsCodec c) where
  parse_formatted :
      (field : String) (t : ℤ) → parse_snapshot_time c field (format_snapshot_time c t) ≡ inl t
  unfolding format_snapshot_time parse_snapshot_time
  parse_formatted field t = elim (Bool-cases (is_zero_time t)) [
    | inl zero_time ↦ rw zero_time (ground (arith, str_eq_iff "" ""))
    | inr dated ↦
        rw dated
          (ground (arith, str_eq_iff (c.format t) "", laws.parse-format t, laws.format_nonempty t))
  ]

  halted-read :
      (h : Option ℤ) (f : Option ℤ → RuntimeStatus)
      → ◌≡◌ {A = RuntimeStatus ⊎ LoadError}
          (if str_eq (format_halted c h) ""
            then inl (f none)
            else elim (parse_snapshot_time c "halted_at_utc" (format_halted c h)) [
              | inr e ↦ inr e
              | inl t ↦ inl (f (some t))
            ])
          (inl (f (clear_zero h)))
  unfolding format_halted
  halted-read none f = ground (arith, str_eq_iff "" "")
  halted-read (some t) f = elim (Bool-cases (is_zero_time t)) [
    | inl zero_time ↦ rw zero_time (ground (arith, str_eq_iff "" ""))
    | inr dated ↦
        rw (dated, parse_formatted "halted_at_utc" t)
          (unfold format_snapshot_time in
            rw dated (ground (arith, str_eq_iff (c.format t) "", laws.format_nonempty t)))
  ]

  to_domain-snapshot : (s : RuntimeStatus) → to_domain c (snapshot_from_domain c s) ≡ inl (stored s)
  unfolding to_domain snapshot_from_domain
  to_domain-snapshot s =
      rw (parse_formatted "last_updated_at_utc" s.last_updated_at_utc, to_domain)
        (halted-read s.halted_at_utc (domain_of c (snapshot_from_domain c s) s.last_updated_at_utc))

  -- A status that was saved to a path, with no error on the way, is loaded from it as it was; a
  -- halt at the zero time has lost that time.
  pub load-save :
      (path : String) (s : RuntimeStatus) (file : SnapshotFile)
      → path ≢ ""
      → load c path none (save c path none true s file) ≡ found (stored s)
  unfolding load save
  load-save path s file p = ground (
    arith,
    str_eq_iff path "",
    laws.decode-encode (snapshot_from_domain c s),
    to_domain-snapshot s,
  )
