-- ===== src/Journal/Recovery.antt =====
-- What was appended is found again by `Replay`.
use text.Mathlib.TextLemmas.{nil-append}
use kairos_agent.Base.{
  String, ◌≡◌, ap, ◌∙◌, ◌⊎◌, inl, inr, true, false, Option, none, some, List, [], ◌∷◌, ◌++◌, arith,
  str_eq, append, if◌then◌else◌,
}
use kairos_agent.Base.Int.{ℤ}
use kairos_agent.Base.Lists.{All}
use kairos_agent.Base.Dict.{lookup, insert, erase}
use kairos_agent.Base.Show.{show_ℤ}
use kairos_agent.Journal.{
  Entry, Codec, empty_file, World, JournalError, Faults, active, with_active, rotate_if_needed,
  whole, marshaled, append_entry,
}
use kairos_agent.Journal.Replay.{Replayed, is_too_long, replay}
use kairos_agent.Journal.Dedup.{find_id, last_with, replay_all, replay_keeps_last}
use kairos_agent.Journal.Names.{str_eq_refl, starts_itself, rotated_differs}
use kairos_agent.Journal.Scanning.{
  opens, nothing_yet, single, parse, parse-append, replay-single, replay_rotated,
}

abbrev pub no_faults : Faults
no_faults = record {
  write_fault = none;
  sync_fault = none;
  stat_fault = none;
  close_fault = none;
  rename_fault = none;
  reopen_fault = none;
}

last_with-append :
    (l : List Entry) (e : Entry) (found : Option Entry)
    → last_with e.client_order_id (l ++ (e ∷ [])) found ≡ some e
unfolding last_with
last_with-append [] e found = ground (arith, str_eq_refl e.client_order_id)
last_with-append (x ∷ rest) e found =
    last_with-append rest e (if str_eq x.client_order_id e.client_order_id then some x else found)

module _ (codec : Codec) where
  abbrev rotated_name : String → ℤ → String
  rotated_name path unix = append path (append "." (show_ℤ unix))

  abbrev just_rotated : String → ℤ → ℤ → List String → World
  just_rotated path max unix lines = record {
    log = record { path = path; max_size_bytes = max; is_open = true };
    directory =
        (rotated_name path unix, record { lines = lines; tail = "" }) ∷ (path, empty_file) ∷ [];
  }

  active-single :
      (path : String) (max : ℤ) (lines : List String)
      → active (single path max lines) ≡ record { lines = lines; tail = "" }
  unfolding active lookup
  active-single path max lines = ground (arith, str_eq_refl path)

  rotate_lem :
      (path : String) (max unix : ℤ) (lines : List String)
      → let w = single path max lines in
        (rotate_if_needed no_faults unix w ≡ (w, none))
        ⊎ (rotate_if_needed no_faults unix w ≡ (just_rotated path max unix lines, none))
  unfolding rotate_if_needed active lookup insert erase
  rotate_lem path max unix lines =
      ground (arith, str_eq_refl path, rotated_differs path (show_ℤ unix))

  append_lem :
      (path : String) (max unix : ℤ) (lines : List String) (e : Entry) (body : String)
      → codec.marshal e ≡ inl body
      → append_entry codec no_faults unix e (single path max lines)
        ≡ rotate_if_needed no_faults unix (single path max (lines ++ (body ∷ [])))
  unfolding append_entry active lookup insert
  append_lem path max unix lines e body marshals =
      let w = single path max lines in
      let next : with_active (whole body (active w)) w ≡ single path max (lines ++ (body ∷ [])) =
        ground (arith, str_eq_refl path, nil-append body) in
      ap (λ m. marshaled no_faults unix m w) marshals ∙ ap (rotate_if_needed no_faults unix) next

  All-append :
      (lines : List String) (body : String)
      → All (λ line. is_too_long line ≡ false) lines
      → is_too_long body ≡ false
      → All (λ line. is_too_long line ≡ false) (lines ++ (body ∷ []))
  All-append [] body short last = (last, tt)
  All-append (line ∷ rest) body short last = (short.0, All-append rest body short.1 last)

  -- The answer of a call after which the replay finds the entry.
  abbrev pub IsRecorded : Entry → World × Option JournalError → Type 0
  IsRecorded e answer =
      (answer.1 ≡ none)
      × (r : Replayed) × (replay codec opens answer.0 ≡ inl r)
      × (find_id e.client_order_id r.entries ≡ some e)

  IsRecorded-either :
      (path : String) (max unix : ℤ) (lines : List String) (e : Entry) (r : Replayed)
      (answer : World × Option JournalError)
      → replay codec opens (single path max lines) ≡ inl r
      → replay codec opens (just_rotated path max unix lines) ≡ inl r
      → find_id e.client_order_id r.entries ≡ some e
      → (answer ≡ (single path max lines, none))
        ⊎ (answer ≡ (just_rotated path max unix lines, none))
      → IsRecorded e answer
  IsRecorded-either path max unix lines e r answer kept moved finds (inl same) =
      (ap (λ a. a.1) same, r, ap (λ a. replay codec opens a.0) same ∙ kept, finds)
  IsRecorded-either path max unix lines e r answer kept moved finds (inr same) =
      (ap (λ a. a.1) same, r, ap (λ a. replay codec opens a.0) same ∙ moved, finds)

  -- In a journal of one whole file without lines of 64 KB, `Append` of an entry with an id succeeds if
  -- the file system does not fail, and `Replay` then returns this entry for its id, whatever was in the
  -- journal under that id, and whether the file was rotated or not.
  pub append_replays :
      (path : String) (max unix : ℤ) (lines : List String) (e : Entry) (body : String)
      → codec.marshal e ≡ inl body
      → codec.unmarshal body ≡ some e
      → str_eq e.client_order_id "" ≡ false
      → All (λ line. is_too_long line ≡ false) lines
      → is_too_long body ≡ false
      → IsRecorded e (append_entry codec no_faults unix e (single path max lines))
  append_replays path max unix lines e body marshals unmarshals named short last =
      let all = lines ++ (body ∷ []) in
      let fits = All-append lines body short last in
      let r = replay_all (parse codec all) nothing_yet in
      let rotated = rotated_name path unix in
      let finds : find_id e.client_order_id r.entries ≡ some e =
        replay_keeps_last (parse codec all) e.client_order_id named
        ∙ ap (λ l. last_with e.client_order_id l none) (parse-append codec lines body e unmarshals)
        ∙ last_with-append (parse codec lines) e none in
      let rotation = rotate_lem path max unix all in
      rw (append_lem path max unix lines e body marshals) (
        IsRecorded-either path max unix all e r
          (rotate_if_needed no_faults unix (single path max all))
          (replay-single codec path max all fits)
          (replay_rotated codec path rotated max all (starts_itself path (append "." (show_ℤ unix)))
            (rotated_differs path (show_ℤ unix)) fits)
          finds rotation)
