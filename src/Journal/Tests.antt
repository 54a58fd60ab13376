-- ===== src/Journal/Tests.antt =====
-- The journal at concrete entries.
use kairos_agent.Base.{
  String, ◌≡◌, refl, inl, inr, true, none, some, [], ◌∷◌, str_eq, if◌then◌else◌,
}
use kairos_agent.Base.Int.{pos}
use kairos_agent.Base.Dict.{lookup, insert}
use kairos_agent.Journal.{
  Entry, Codec, lines_size, file_size, World, active, rotate_if_needed, append_entry,
}
use kairos_agent.Journal.Replay.{
  set_at, replay_entry, sort_strings, glob, scan, replay_files, replay,
}
use kairos_agent.Journal.Dedup.{find_id, last_with, replay_all, replay_keeps_last}
use kairos_agent.Journal.Scanning.{opens, nothing_yet, single}
use kairos_agent.Journal.Recovery.{no_faults, IsRecorded, append_replays}

abbrev entry : String → String → Entry
entry id payload = record {
  client_order_id = id;
  kind = "order_intent";
  payload = payload;
  timestamp_utc = pos 1;
}

-- A format for the tests, with two entries.
abbrev format : Codec
format = record {
  marshal = λ e. if str_eq e.payload "" then inr "empty" else inl e.payload;
  unmarshal = λ line.
      if str_eq line "old"
      then some (entry "a" "old")
      else if str_eq line "new"
      then some (entry "a" "new")
      else none;
  marshal_intent = λ i. inl i.symbol;
}

append_replays_example :
    IsRecorded format
      (entry "a" "new")
      (append_entry format no_faults (pos 7) (entry "a" "new") (single "j" (pos 5) ("old" ∷ [])))
append_replays_example =
    append_replays format "j" (pos 5) (pos 7) ("old" ∷ []) (entry "a" "new") "new" refl refl refl
      (refl, tt) refl

replay_keeps_last_example :
    find_id "a"
      (replay_all (entry "a" "old" ∷ entry "b" "x" ∷ entry "a" "new" ∷ []) nothing_yet).entries
    ≡ some (entry "a" "new")
unfolding last_with
replay_keeps_last_example =
    replay_keeps_last (entry "a" "old" ∷ entry "b" "x" ∷ entry "a" "new" ∷ []) "a" refl

-- The newer entry stands in the active file, the older one in a rotated file: the replay reads the
-- active file first and returns the older entry.
abbrev rotated_log : World
rotated_log = record {
  log = record { path = "j"; max_size_bytes = pos 100; is_open = true };
  directory =
      ("j.1", record { lines = "old" ∷ []; tail = "" })
      ∷ ("j", record { lines = "new" ∷ []; tail = "" })
      ∷ [];
}

stale :
    replay format opens rotated_log
    ≡ inl (record { indexes = ("a", 0) ∷ []; entries = entry "a" "old" ∷ [] })
unfolding replay replay_files glob sort_strings lookup scan replay_entry insert set_at
stale = refl

-- A write that fails half-way leaves a torn line, and the next entry is lost behind it.
abbrev torn_log : World
torn_log =
    (append_entry format (record no_faults { write_fault = some ("ne", "disk full") }) (pos 7)
      (entry "a" "new") (single "j" (pos 100) [])).0

loses : (append_entry format no_faults (pos 8) (entry "a" "new") torn_log).1 ≡ none
unfolding append_entry rotate_if_needed file_size lines_size active lookup insert
loses = refl

lost :
    replay format opens (append_entry format no_faults (pos 8) (entry "a" "new") torn_log).0
    ≡ inl nothing_yet
unfolding append_entry rotate_if_needed file_size lines_size active lookup insert replay
    replay_files glob sort_strings scan
lost = refl
