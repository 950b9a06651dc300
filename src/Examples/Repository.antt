-- ===== src/Examples/Repository.antt =====
-- A directory of sessions, and the file of a small session that was cut short. A line shows the id
-- of its entry and nothing else.
use aeloon_runtime.Prelude.{
  ◌≡◌, refl, inr, String, true, false, none, some, List, [], ◌∷◌, ◌++◌, Result, ok, err, without,
  codes, All, is_empty, if◌then◌else◌,
}
use aeloon_runtime.Wire.{no_fields}
use aeloon_runtime.Streams.Reasoning.{same_text}
use aeloon_runtime.Session.Entry.{Entry, Payload}
use aeloon_runtime.Session.Tree.{SessionError, invalid_entry, not_found, storage}
use aeloon_runtime.Session.Context.{build_context}
use aeloon_runtime.Session.State.{Session, new_session, append_entry}
use aeloon_runtime.Session.Reading.{
  Line, Text, bad_json, RawHeader, Contents, read_entries, SessionMetadata, lines_of, is_break,
  split_lines,
}
use aeloon_runtime.Session.Reading.Lines.{IsUnbroken}
use aeloon_runtime.Session.Reading.Reopened.{no_contents, IsPlain, text_of, reopened}
use aeloon_runtime.Session.Repository.{
  append_line, create, open_session, delete, is_session_id, new_header,
}
use aeloon_runtime.Session.Repository.Files.{metadata_of, with_new, create-opens}
use aeloon_runtime.Session.Repository.Torn.{cut_file, torn_file_breaks}
use aeloon_runtime.Examples.Session.{answered, answered-Reached, asked_then_answered}

abbrev noted : String → Entry
noted id = record {
  id = id;
  parent_id = some "a2";
  timestamp = some 9;
  payload = Payload.label id none;
}

abbrev dumps : Entry → Text
dumps e = codes e.id

abbrev find_line : Text → List Entry → Line
find_line text [] = bad_json
find_line text (e ∷ es) =
    let later = find_line text es in if same_text text (codes e.id) then Line.entry e else later

abbrev loads : Text → Line
loads text = find_line text (noted "b2" ∷ asked_then_answered)

-- A line separator of Unicode ends a line.
separated : split_lines false (codes "a" ++ 8232 ∷ codes "b") ≡ codes "a" ∷ codes "b" ∷ []
unfolding split_lines is_break
separated = refl

plain : All (IsPlain loads dumps) answered.entries
unfolding append_entry new_session is_break
plain = ((refl, refl), ((refl, refl), tt))

abbrev fragment : Text
fragment = codes "{"

cut : IsUnbroken fragment × (is_empty fragment ≡ false) × (loads fragment ≡ bad_json)
unfolding is_break append_entry new_session
cut = (refl, refl, refl)

reopened_example :
    (read_entries no_contents
        (lines_of loads (text_of loads dumps answered.journal.lines ++ fragment))
      ≡ ok (record { entries = answered.entries; leaf_id = answered.current_leaf_id }))
    × (let t = new_session answered.entries answered.current_leaf_id in
        build_context t.by_id t.current_leaf_id
        ≡ build_context answered.by_id answered.current_leaf_id)
reopened_example = reopened loads dumps answered fragment answered-Reached plain (inr cut)

second-IsPlain : IsPlain loads dumps (noted "b2")
unfolding is_break append_entry new_session
second-IsPlain = (refl, refl)

glued :
    IsUnbroken (fragment ++ dumps (noted "b1"))
    × (loads (fragment ++ dumps (noted "b1")) ≡ bad_json)
unfolding is_break append_entry new_session
glued = (refl, refl)

torn_file_breaks_example :
    let f = cut_file loads dumps answered fragment in
    let read : Result SessionError Contents =
      ok (record { entries = answered.entries; leaf_id = answered.current_leaf_id }) in
    (read_entries no_contents (lines_of loads f) ≡ read)
    × (read_entries no_contents (lines_of loads (append_line dumps f (noted "b1"))) ≡ read)
    × (read_entries no_contents
          (lines_of loads (append_line dumps (append_line dumps f (noted "b1")) (noted "b2")))
        ≡ err invalid_entry)
torn_file_breaks_example =
    torn_file_breaks loads dumps answered fragment (noted "b1") (noted "b2") answered-Reached plain
      second-IsPlain cut glued

valid_id : is_session_id "s-1" ≡ true
unfolding is_session_id
valid_id = refl

path_refused : is_session_id "../s" ≡ false
unfolding is_session_id
path_refused = refl

-- Headers are shown, and parsed, as the one of this test.
abbrev header : RawHeader
header = record {
  kind = some "session";
  version = some 3;
  id = some "s-1";
  timestamp = some "2026";
  cwd = some "/home";
  parent_session = none;
  metadata = no_fields;
}

abbrev header_text : RawHeader → Text
header_text h = codes "{}"

abbrev parse_header : Text → Line
parse_header text = Line.header header

same_header : header ≡ new_header "s-1" "/home" "2026" none no_fields
unfolding new_header
same_header = refl

parsed :
    parse_header (header_text (new_header "s-1" "/home" "2026" none no_fields))
    ≡ Line.header (new_header "s-1" "/home" "2026" none no_fields)
unfolding new_header
parsed = refl

unbroken : IsUnbroken (header_text (new_header "s-1" "/home" "2026" none no_fields))
unfolding is_break
unbroken = refl

create-opens_example :
    let d' = with_new parse_header header_text [] "s-1" "/home" "2026" none no_fields in
    let created : SessionMetadata × Session =
      (metadata_of "s-1" "/home" "2026" none no_fields, new_session [] none) in
    (create header_text [] "s-1" "/home" "2026" none no_fields ≡ ok (d', created))
    × (open_session parse_header d' "s-1" ≡ ok created)
    × (open_session parse_header d' "s-2" ≡ open_session parse_header [] "s-2")
    × (create header_text d' "s-1" "/home" "2026" none no_fields ≡ err storage)
    × (delete d' "s-1" ≡ ok (without [] "s-1"))
    × (open_session parse_header (without [] "s-1") "s-1" ≡ err not_found)
    × (open_session parse_header (without [] "s-1") "s-2" ≡ open_session parse_header [] "s-2")
create-opens_example =
    create-opens parse_header header_text [] "s-1" "/home" "2026" "s-2" none no_fields parsed
      unbroken valid_id refl refl refl refl
