-- ===== src/Journal/Replay.antt =====
-- `Replay` and `TruncateAfterReconciliation` of internal/journal/journal.go.
use Prim.Native.String.{compare, len}
use text.Mathlib.Text.{starts_with, is_le}
use kairos_agent.Base.{
  ℕ, zero, suc, String, ◌⊎◌, inl, inr, Bool, true, false, Option, none, some, List, [], ◌∷◌, ◌++◌,
  str_eq, leb, if◌then◌else◌, is_some,
}
use kairos_agent.Base.Lists.{length}
use kairos_agent.Base.Dict.{Dict, lookup, insert, erase}
use kairos_agent.Journal.{
  Entry, Codec, LogFile, empty_file, World, JournalError, not_closed, not_reopened, not_opened,
  not_scanned, not_removed, file_or_empty, with_active, with_open,
}

-- The map from ids to positions, and the entries so far.
pub record Replayed : Type 0 where
  pub indexes : Dict ℕ
  pub entries : List Entry

unfoldable pub set_at : ℕ → Entry → List Entry → List Entry
set_at i e [] = []
set_at zero e (x ∷ rest) = e ∷ rest
set_at (suc i) e (x ∷ rest) = x ∷ set_at i e rest

abbrev pub placed : Entry → Option ℕ → Replayed → Replayed
placed e (some i) r = record r { entries = set_at i e r.entries }
placed e none r = record {
  indexes = insert e.client_order_id (length r.entries) r.indexes;
  entries = r.entries ++ (e ∷ []);
}

unfoldable pub replay_entry : Entry → Replayed → Replayed
replay_entry e r =
    if str_eq e.client_order_id ""
    then record r { entries = r.entries ++ (e ∷ []) }
    else placed e (lookup e.client_order_id r.indexes) r

abbrev pub replay_line : Option Entry → Replayed → Replayed
replay_line none r = r
replay_line (some e) r = replay_entry e r

-- `sort.Strings`, and the names that `filepath.Glob` finds.
abbrev pub place : String → List String → List String
place x [] = x ∷ []
place x (y ∷ rest) =
    let later = place x rest in if is_le (compare x y) then x ∷ y ∷ rest else y ∷ later

unfoldable pub sort_strings : List String → List String
sort_strings [] = []
sort_strings (x ∷ rest) = place x (sort_strings rest)

unfoldable pub glob : String → Dict LogFile → List String
glob prefix [] = []
glob prefix ((name, _) ∷ rest) =
    let later = glob prefix rest in if starts_with name prefix then name ∷ later else later

-- The scanner fails at a line of 64 KB.
abbrev pub is_too_long : String → Bool
is_too_long line = leb 65536 (len line)

abbrev pub lines_of : LogFile → List String
lines_of f = if str_eq f.tail "" then f.lines else f.lines ++ (f.tail ∷ [])

module _ (codec : Codec) where
  -- The lines of a file: none if one is too long.
  unfoldable pub scan : List String → Replayed → Option Replayed
  scan [] r = some r
  scan (line ∷ rest) r =
      let later = scan rest (replay_line (codec.unmarshal line) r) in
      if is_too_long line then none else later

  abbrev pub scanned :
      Option Replayed → (Replayed → Replayed ⊎ JournalError) → Replayed ⊎ JournalError
  scanned none continue = inr not_scanned
  scanned (some r) continue = continue r

  -- The files in order; `open_fault` answers for `os.Open`.
  unfoldable pub replay_files :
      (String → Option String) → Dict LogFile → List String → Replayed → Replayed ⊎ JournalError
  replay_files open_fault directory [] r = inl r
  replay_files open_fault directory (name ∷ rest) r =
      if is_some (open_fault name)
      then inr (not_opened name)
      else scanned (scan (lines_of (file_or_empty (lookup name directory))) r)
          (λ next. replay_files open_fault directory rest next)

  -- `Replay`
  unfoldable pub replay : (String → Option String) → World → Replayed ⊎ JournalError
  replay open_fault w =
      replay_files open_fault w.directory (sort_strings (glob w.log.path w.directory))
        (record { indexes = []; entries = [] })

-- `TruncateAfterReconciliation`: `remove_fault` answers for the removals, in the order of the names.
abbrev pub removed :
    (String → Option String) → List String → Dict LogFile → Dict LogFile × Option JournalError
removed remove_fault [] directory = (directory, none)
removed remove_fault (name ∷ rest) directory =
    let later = removed remove_fault rest (erase name directory) in
    if is_some (remove_fault name) then (directory, some (not_removed name)) else later

abbrev truncated :
    Option String → World → Dict LogFile × Option JournalError → World × Option JournalError
truncated reopen w (directory, some e) = (record w { directory = directory }, some e)
truncated (some e) w (directory, none) = (record w { directory = directory }, some (not_reopened e))
truncated none w (directory, none) =
    (with_open true (with_active empty_file (record w { directory = directory })), none)

unfoldable pub truncate_after_reconciliation :
    Option String → (String → Option String) → Option String → World → World × Option JournalError
truncate_after_reconciliation (some e) remove_fault reopen w =
    (with_open false w, some (not_closed e))
truncate_after_reconciliation none remove_fault reopen w =
    let shut = with_open false w in
    truncated reopen shut
      (removed remove_fault (sort_strings (glob w.log.path w.directory)) w.directory)
