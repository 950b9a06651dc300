-- ===== src/Session/Reading.antt =====
-- `_read_session`: a session file read back. A text is its code points; what `strip` and `json.loads`
-- make of a line is the parameter `loads`, and what `json.dumps` makes of an entry the parameter
-- `dumps`. The bytes of a file are UTF-8.
pub mod Lines
pub mod Reopened
use aeloon_runtime.Prelude.{
  ℕ, ◌++◌, String, Bool, true, false, Option, none, some, List, [], ◌∷◌, str_eq, ◌==◌, ◌&&◌, ◌||◌,
  not, any, map, truthy, Result, ok, err, ◌>>=◌, if◌then◌else◌,
}
use aeloon_runtime.Wire.{Fields}
use aeloon_runtime.Session.Entry.{Entry, Payload, leaf}
use aeloon_runtime.Session.Tree.{SessionError, invalid_session, invalid_entry}

-- The values of a header dictionary that are strings (numbers, for "version"), and its metadata, which
-- may be empty.
pub record RawHeader : Type 0 where
  pub kind : Option String
  pub version : Option ℕ
  pub id : Option String
  pub timestamp : Option String
  pub cwd : Option String
  pub parent_session : Option String
  pub metadata : Fields

pub data Line : Type 0 where
  blank : Line
  bad_json : Line
  other_json : Line
  header : RawHeader → Line
  entry : Entry → Line

pub record SessionMetadata : Type 0 where
  pub id : String
  pub created_at : String
  pub cwd : String
  pub parent_session_path : Option String
  pub metadata : Fields

has_kind : RawHeader → Bool
has_kind h =
    elim h.kind [ none ↦ false | some k ↦ str_eq k "session" ]
    && elim h.version [ none ↦ false | some v ↦ v == 3 ]

-- `isinstance(header.get(key), str)` and not empty
required : Option String → Result SessionError String
required value = elim (truthy value) [ none ↦ err invalid_session | some s ↦ ok s ]

-- The checks on the first line, and `_metadata`.
unfoldable pub read_header : Line → Result SessionError SessionMetadata
unfolding has_kind required
read_header (header h) =
    if has_kind h
    then (do
      id ← required h.id
      timestamp ← required h.timestamp
      cwd ← required h.cwd
      ok (record {
        id = id;
        created_at = timestamp;
        cwd = cwd;
        parent_session_path = truthy h.parent_session;
        metadata = h.metadata;
      }))
    else err invalid_session
read_header _ = err invalid_session

-- The leaf after an entry is read.
abbrev pub leaf_after : Entry → Option String
leaf_after e = elim e.payload [ leaf target ↦ target | _ ↦ some e.id ]

-- An entry line is kept at the end of what was read, and its leaf becomes current.
pub record Contents : Type 0 where
  pub entries : List Entry
  pub leaf_id : Option String

-- The loop over the lines behind the header. A last line that is no JSON is a torn write.
unfoldable pub read_entries : Contents → List Line → Result SessionError Contents
read_entries c [] = ok c
read_entries c (blank ∷ rest) = read_entries c rest
read_entries c (bad_json ∷ []) = ok c
read_entries c (bad_json ∷ l ∷ rest) = err invalid_entry
read_entries c (entry e ∷ rest) =
    read_entries (record { entries = c.entries ++ e ∷ []; leaf_id = leaf_after e }) rest
read_entries c (_ ∷ rest) = err invalid_entry

-- `_read_session` of a file, given its lines.
unfoldable pub read_session : List Line → Result SessionError (SessionMetadata × Contents)
unfolding read_header read_entries
read_session [] = err invalid_session
read_session (first ∷ rest) = do
  metadata ← read_header first
  contents ← read_entries (record { entries = []; leaf_id = none }) rest
  ok (metadata, contents)

abbrev pub Text : Type 0
Text = List ℕ

-- Where `splitlines` ends a line: line feeds, tabs and returns, separators of files, groups and
-- records, U+0085, U+2028 and U+2029.
unfoldable pub is_break : ℕ → Bool
is_break c = any (λ b. b == c) (10 ∷ 11 ∷ 12 ∷ 13 ∷ 28 ∷ 29 ∷ 30 ∷ 133 ∷ 8232 ∷ 8233 ∷ [])

before_first : ℕ → List Text → List Text
before_first c [] = (c ∷ []) ∷ []
before_first c (line ∷ lines) = (c ∷ line) ∷ lines

-- `splitlines`, and whether a carriage return stands in front, of which a line feed is a part.
unfoldable pub split_lines : Bool → Text → List Text
unfolding before_first is_break
split_lines returned [] = []
split_lines returned (c ∷ text) =
    let same_line = split_lines (c == 13) text in
    let rest = split_lines false text in
    if returned && c == 10 then rest else if is_break c then [] ∷ same_line else before_first c rest

-- The lines of a file, as they are parsed.
unfoldable pub lines_of : (Text → Line) → Text → List Line
unfolding split_lines
lines_of loads text = map loads (split_lines false text)

-- Lines, each with its line feed: what `_append` has written of them.
unfoldable pub written : List Text → Text
written [] = []
written (line ∷ lines) = line ++ (10 ∷ written lines)
