-- ===== src/Journal.antt =====
-- internal/journal/journal.go: the append-only journal of order intents, over a directory of files. The
-- JSON of an entry is a parameter; the answers of the file system are arguments. The path has no
-- characters that are special in a pattern.
pub mod Replay
pub mod Dedup
pub mod Names
pub mod Scanning
pub mod Recovery
mod Tests
use Prim.Native.String.{len}
use kairos_agent.Base.{
  ℕ, ◌+◌, String, ◌⊎◌, inl, inr, Bool, true, false, not, Option, none, some, List, [], ◌∷◌, ◌++◌,
  append, if◌then◌else◌,
}
use kairos_agent.Base.Int.{ℤ, pos, ltb_ℤ}
use kairos_agent.Base.Dict.{Dict, lookup, insert, erase}
use kairos_agent.Base.Show.{show_ℤ}

pub record Entry : Type 0 where
  pub client_order_id : String
  pub kind : String
  pub payload : String
  pub timestamp_utc : ℤ

pub record OrderIntent : Type 0 where
  pub intent_client_order_id : String
  pub symbol : String
  pub side : String
  pub order_type : String
  pub quantity : String
  pub price : String
  pub intent_timestamp_utc : ℤ

-- `json.Marshal` and `json.Unmarshal` on entries, and the first on intents. Their texts have no line
-- break.
pub record Codec : Type 0 where
  pub marshal : Entry → String ⊎ String
  pub unmarshal : String → Option Entry
  pub marshal_intent : OrderIntent → String ⊎ String

-- A file: its whole lines, and what stands after the last line break.
pub record LogFile : Type 0 where
  pub lines : List String
  pub tail : String

abbrev pub empty_file : LogFile
empty_file = record { lines = []; tail = "" }

-- The length of the lines with their line breaks.
unfoldable pub lines_size : List String → ℕ
lines_size [] = 0
lines_size (line ∷ rest) = len line + 1 + lines_size rest

unfoldable pub file_size : LogFile → ℕ
file_size f = lines_size f.lines + len f.tail

-- `is_open` says whether the handle, which is that of the file at `path`, is open.
pub record Log : Type 0 where
  pub path : String
  pub max_size_bytes : ℤ
  pub is_open : Bool

pub record World : Type 0 where
  pub log : Log
  pub directory : Dict LogFile

pub data JournalError : Type 0 where
  not_marshaled : String → JournalError
  not_appended : String → JournalError
  not_synced : String → JournalError
  no_stat : String → JournalError
  not_closed : String → JournalError
  not_rotated : String → JournalError
  not_reopened : String → JournalError
  not_opened : String → JournalError
  not_scanned : JournalError
  not_removed : String → JournalError
  no_folder : String → JournalError

-- What the file system answers to the calls of `Append`: an error, or nothing. A write that fails may
-- have written a part.
pub record Faults : Type 0 where
  pub write_fault : Option (String × String)
  pub sync_fault : Option String
  pub stat_fault : Option String
  pub close_fault : Option String
  pub rename_fault : Option String
  pub reopen_fault : Option String

abbrev pub file_or_empty : Option LogFile → LogFile
file_or_empty none = empty_file
file_or_empty (some f) = f

unfoldable pub active : World → LogFile
active w = file_or_empty (lookup w.log.path w.directory)

abbrev pub with_active : LogFile → World → World
with_active f w = record w { directory = insert w.log.path f w.directory }

abbrev pub with_open : Bool → World → World
with_open b w = record w { log = record (w.log) { is_open = b } }

-- `os.O_CREATE` keeps a file that is there.
abbrev pub created : World → World
created w = with_active (active w) w

abbrev pub reopened : Option String → World → World × Option JournalError
reopened (some e) w = (w, some (not_reopened e))
reopened none w = (with_open true (created w), none)

abbrev pub renamed : Option String → Option String → ℤ → World → World × Option JournalError
renamed (some e) reopen unix w = (w, some (not_rotated e))
renamed none reopen unix w =
    let rotated = append w.log.path (append "." (show_ℤ unix)) in
    reopened reopen
      (record w { directory = insert rotated (active w) (erase w.log.path w.directory) })

abbrev pub closed : Faults → ℤ → Option String → World → World × Option JournalError
closed f unix (some e) w = (with_open false w, some (not_closed e))
closed f unix none w = renamed f.rename_fault f.reopen_fault unix (with_open false w)

abbrev pub stated : Faults → ℤ → Option String → World → World × Option JournalError
stated f unix (some e) w = (w, some (no_stat e))
stated f unix none w =
    if ltb_ℤ (pos (file_size (active w))) w.log.max_size_bytes
    then (w, none)
    else closed f unix f.close_fault w

-- `Open`, with the answers to `os.MkdirAll` and `os.OpenFile`.
unfoldable pub open_log :
    Option String → Option String → String → ℤ → Dict LogFile → World ⊎ JournalError
open_log (some e) open_fault path max directory = inr (no_folder e)
open_log none (some e) path max directory = inr (not_opened e)
open_log none none path max directory = inl (
    created (record {
      log = record { path = path; max_size_bytes = max; is_open = true };
      directory = directory;
    }))

-- `Close`: a second call is an error of the file.
unfoldable pub close_log : Option String → World → World × Option JournalError
close_log (some e) w = (with_open false w, some (not_closed e))
close_log none w =
    if w.log.is_open
    then (with_open false w, none)
    else (w, some (not_closed "file already closed"))

-- `rotateIfNeeded`, at the time `unix` in seconds.
unfoldable pub rotate_if_needed : Faults → ℤ → World → World × Option JournalError
rotate_if_needed f unix w = stated f unix f.stat_fault w

abbrev pub synced : Faults → ℤ → Option String → World → World × Option JournalError
synced f unix (some e) w = (w, some (not_synced e))
synced f unix none w = rotate_if_needed f unix w

abbrev pub torn : String → LogFile → LogFile
torn part f = record f { tail = append f.tail part }

abbrev pub whole : String → LogFile → LogFile
whole body f = record { lines = f.lines ++ (append f.tail body ∷ []); tail = "" }

abbrev pub written :
    Faults → ℤ → String → Option (String × String) → World → World × Option JournalError
written f unix body (some (part, e)) w =
    (with_active (torn part (active w)) w, some (not_appended e))
written f unix body none w = synced f unix f.sync_fault (with_active (whole body (active w)) w)

abbrev pub marshaled : Faults → ℤ → String ⊎ String → World → World × Option JournalError
marshaled f unix (inr e) w = (w, some (not_marshaled e))
marshaled f unix (inl body) w =
    if not w.log.is_open
    then (w, some (not_appended "file already closed"))
    else written f unix body f.write_fault w

module _ (codec : Codec) where
  -- `Append`
  unfoldable pub append_entry : Faults → ℤ → Entry → World → World × Option JournalError
  append_entry f unix e w = marshaled f unix (codec.marshal e) w

  abbrev intent_body :
      Faults → ℤ → ℤ → OrderIntent → String ⊎ String → World → World × Option JournalError
  intent_body f unix now intent (inr e) w = (w, some (not_marshaled e))
  intent_body f unix now intent (inl body) w =
      append_entry f unix
        (record {
          client_order_id = intent.intent_client_order_id;
          kind = "order_intent";
          payload = body;
          timestamp_utc = now;
        })
        w

  -- `AppendOrderIntent`
  unfoldable pub append_order_intent :
      Faults → ℤ → ℤ → OrderIntent → World → World × Option JournalError
  append_order_intent f unix now intent w =
      intent_body f unix now intent (codec.marshal_intent intent) w
