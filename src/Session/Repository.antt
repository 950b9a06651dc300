-- ===== src/Session/Repository.antt =====
-- `JsonlSessionRepository`: the files of a directory, by the id that names them. A file is its text.
-- What `json.dumps` and `json.loads` make of headers, entries and lines are parameters.
pub mod Files
pub mod Torn
use aeloon_runtime.Prelude.{
  ℕ, String, Bool, true, false, Option, none, some, List, [], ◌∷◌, ◌++◌, ◌&&◌, ◌||◌, not, leb, ◌==◌,
  codes, all, lookup, has_key, without, str_eq, truthy, Result, ok, err, ◌>>=◌, if◌then◌else◌,
}
use aeloon_runtime.Wire.{Fields}
use aeloon_runtime.Session.Entry.{Entry}
use aeloon_runtime.Session.Tree.{SessionError, invalid_session, not_found, storage}
use aeloon_runtime.Session.State.{Session, new_session}
use aeloon_runtime.Session.Reading.{
  Line, Text, lines_of, RawHeader, SessionMetadata, Contents, read_header, read_session,
}

-- `_append` of the line of an entry
unfoldable pub append_line : (dumps : Entry → Text) → Text → Entry → Text
append_line dumps text e = text ++ (dumps e ++ (10 ∷ []))

-- The files of `self.directory`; a file that is named twice is the first.
abbrev pub Directory : Type 0
Directory = List (String × Text)

is_id_code : ℕ → Bool
is_id_code c =
    (leb 97 c && leb c 122)
    || (leb 65 c && leb c 90)
    || (leb 48 c && leb c 57)
    || (c == 45)
    || (c == 95)

-- The test of `_path`
unfoldable pub is_session_id : String → Bool
unfolding is_id_code
is_session_id id = not (str_eq id "") && all is_id_code (codes id)

-- The header that `create` writes.
unfoldable pub new_header : String → String → String → Option String → Fields → RawHeader
new_header id cwd now parent metadata = record {
  kind = some "session";
  version = some 3;
  id = some id;
  timestamp = some now;
  cwd = some cwd;
  parent_session = truthy parent;
  metadata = metadata;
}

module _ (dumps_header : RawHeader → Text) where
  -- `create` of an id, at the time `now`, in a directory that was resolved to `cwd`
  unfoldable pub create :
      Directory
      → String
      → String
      → String
      → Option String
      → Fields
      → Result SessionError (Directory × (SessionMetadata × Session))
  unfolding new_header
  create d id cwd now parent metadata =
      if is_session_id id
      then if has_key d id
        then err storage
        else ok (
          (id, dumps_header (new_header id cwd now parent metadata) ++ (10 ∷ [])) ∷ d,
          (
            record {
              id = id;
              created_at = now;
              cwd = cwd;
              parent_session_path = truthy parent;
              metadata = metadata;
            },
            new_session [] none,
          ),
        )
      else err invalid_session

module _ (loads : Text → Line) where
  -- `open` of the file that was found
  unfoldable pub open_file : String → Option Text → Result SessionError (SessionMetadata × Session)
  open_file id none = err not_found
  open_file id (some text) = elim (read_session (lines_of loads text)) [
    | err e ↦ err e
    | ok (metadata, contents) ↦
        if str_eq metadata.id id
        then ok (metadata, new_session contents.entries contents.leaf_id)
        else err invalid_session
  ]

  -- `open`
  unfoldable pub open_session : Directory → String → Result SessionError (SessionMetadata × Session)
  unfolding open_file
  open_session d id = if is_session_id id then open_file id (lookup d id) else err invalid_session

  -- The metadata of the readable files, of one directory if it is given; `list` sorts them.
  unfoldable pub listed : Directory → Option String → List SessionMetadata
  listed [] cwd = []
  listed ((id, text) ∷ rest) cwd =
      let later = listed rest cwd in
      elim (lines_of loads text) [
        | [] ↦ later
        | first ∷ lines ↦ elim (read_header first) [
          | err e ↦ later
          | ok metadata ↦
              if elim cwd [ none ↦ true | some expected ↦ str_eq metadata.cwd expected ]
              then metadata ∷ later
              else later
        ]
      ]

-- `delete`
unfoldable pub delete : Directory → String → Result SessionError Directory
delete d id =
    if is_session_id id
    then if has_key d id then ok (without d id) else err not_found
    else err invalid_session
