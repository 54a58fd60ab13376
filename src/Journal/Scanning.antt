-- ===== src/Journal/Scanning.antt =====
-- What `Replay` reads: the entries of whole lines, from one file or from a rotated and an empty one.
use text.Mathlib.Text.{starts_with, is_le}
use Prim.Native.String.{compare}
use kairos_agent.Base.{
  String, ◌≡◌, refl, ap, ◌∙◌, inl, true, false, Option, none, some, List, [], ◌∷◌, ◌++◌, arith,
  str_eq, Option-cases, if_cases,
}
use kairos_agent.Base.Int.{ℤ}
use kairos_agent.Base.Lists.{All}
use kairos_agent.Base.Dict.{Dict, lookup}
use kairos_agent.Journal.{Entry, Codec, LogFile, empty_file, World, file_or_empty}
use kairos_agent.Journal.Replay.{
  Replayed, replay_line, sort_strings, glob, is_too_long, lines_of, scan, scanned, replay_files,
  replay,
}
use kairos_agent.Journal.Dedup.{replay_all}
use kairos_agent.Journal.Names.{str_eq_refl, starts_same}

abbrev pub opens : String → Option String
opens _ = none

abbrev pub nothing_yet : Replayed
nothing_yet = record { indexes = []; entries = [] }

-- A log with one file, at its path.
abbrev pub single : String → ℤ → List String → World
single path max lines = record {
  log = record { path = path; max_size_bytes = max; is_open = true };
  directory = (path, record { lines = lines; tail = "" }) ∷ [];
}

module _ (codec : Codec) where
  abbrev parse_more : Option Entry → List Entry → List Entry
  parse_more none l = l
  parse_more (some e) l = e ∷ l

  unfoldable pub parse : List String → List Entry
  parse [] = []
  parse (line ∷ rest) = parse_more (codec.unmarshal line) (parse rest)

  line_lem :
      (found : Option Entry) (l : List Entry) (r : Replayed)
      → replay_all (parse_more found l) r ≡ replay_all l (replay_line found r)
  unfolding replay_all
  line_lem none l r = refl
  line_lem (some e) l r = refl

  scan_lem :
      (lines : List String) (r : Replayed)
      → All (λ line. is_too_long line ≡ false) lines
      → scan codec lines r ≡ some (replay_all (parse lines) r)
  unfolding scan parse replay_all
  scan_lem [] r short = refl
  scan_lem (line ∷ rest) r short = ground (
    arith,
    short.0,
    scan_lem rest (replay_line (codec.unmarshal line) r) short.1,
    line_lem (codec.unmarshal line) (parse rest) r,
  )

  pub parse-append :
      (lines : List String) (body : String) (e : Entry)
      → codec.unmarshal body ≡ some e
      → parse (lines ++ (body ∷ [])) ≡ parse lines ++ (e ∷ [])
  unfolding parse
  parse-append [] body e h = ground (arith, h)
  parse-append (line ∷ rest) body e h =
      ground (arith, Option-cases (codec.unmarshal line), parse-append rest body e h)

  files_cons :
      (directory : Dict LogFile) (name : String) (rest : List String) (f : LogFile)
      (r next : Replayed)
      → lookup name directory ≡ some f
      → scan codec (lines_of f) r ≡ some next
      → replay_files codec opens directory (name ∷ rest) r
        ≡ replay_files codec opens directory rest next
  unfolding replay_files
  files_cons directory name rest f r next found read =
      ap
        (λ x.
          scanned codec (scan codec (lines_of (file_or_empty x)) r)
            (λ next. replay_files codec opens directory rest next))
        found
      ∙ ap (λ x. scanned codec x (λ next. replay_files codec opens directory rest next)) read

  -- The replay of a log with one whole file, and of one whose file was just rotated.
  pub replay-single :
      (path : String) (max : ℤ) (lines : List String)
      → All (λ line. is_too_long line ≡ false) lines
      → replay codec opens (single path max lines) ≡ inl (replay_all (parse lines) nothing_yet)
  unfolding replay replay_files glob sort_strings lookup
  replay-single path max lines short =
      let w = single path max lines in
      let f : LogFile = record { lines = lines; tail = "" } in
      let names : glob path w.directory ≡ path ∷ [] = ground (arith, starts_same path) in
      let found : lookup path w.directory ≡ some f = ground (arith, str_eq_refl path) in
      ap (λ l. replay_files codec opens w.directory (sort_strings l) nothing_yet) names
      ∙ files_cons w.directory path [] f nothing_yet (replay_all (parse lines) nothing_yet) found
          (scan_lem lines nothing_yet short)

  pub replay_rotated :
      (path rotated : String) (max : ℤ) (lines : List String)
      → starts_with rotated path ≡ true
      → str_eq rotated path ≡ false
      → All (λ line. is_too_long line ≡ false) lines
      → replay codec opens (record {
        log = record { path = path; max_size_bytes = max; is_open = true };
        directory = (rotated, record { lines = lines; tail = "" }) ∷ (path, empty_file) ∷ [];
      })
        ≡ inl (replay_all (parse lines) nothing_yet)
  unfolding replay replay_files glob sort_strings lookup scan
  replay_rotated path rotated max lines starts differs short =
      let f : LogFile = record { lines = lines; tail = "" } in
      let directory : Dict LogFile = (rotated, f) ∷ (path, empty_file) ∷ [] in
      let all = replay_all (parse lines) nothing_yet in
      let names : glob path directory ≡ rotated ∷ path ∷ [] =
        ground (arith, starts, starts_same path) in
      let old : lookup rotated directory ≡ some f = ground (arith, str_eq_refl rotated) in
      let new : lookup path directory ≡ some empty_file =
        ground (arith, differs, str_eq_refl path) in
      let read = scan_lem lines nothing_yet short in
      ap (λ l. replay_files codec opens directory (sort_strings l) nothing_yet) names
      ∙ if_cases (λ l. replay_files codec opens directory l nothing_yet ≡ inl all)
          (is_le (compare rotated path)) (rotated ∷ path ∷ []) (path ∷ rotated ∷ [])
          (λ _.
            files_cons directory rotated (path ∷ []) f nothing_yet all old read
            ∙ files_cons directory path [] empty_file all all new refl)
          (λ _.
            files_cons directory path (rotated ∷ []) empty_file nothing_yet nothing_yet new refl
            ∙ files_cons directory rotated [] f nothing_yet all old read)
