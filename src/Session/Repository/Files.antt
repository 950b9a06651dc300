-- ===== src/Session/Repository/Files.antt =====
-- Creating, opening and deleting sessions.
use aeloon_runtime.Prelude.{
  ◌≡◌, refl, ◌∙◌, ap, String, true, false, Option, none, some, [], ◌∷◌, ◌++◌, map, ok, err, str_eq,
  eq_refl, lookup, has_key, without, lookup-without, arith, truthy, if◌then◌else◌, has_key_self,
}
use aeloon_runtime.Session.Tree.{invalid_session, not_found, storage}
use aeloon_runtime.Session.State.{Session, new_session}
use aeloon_runtime.Wire.{Fields}
use aeloon_runtime.Session.Reading.{
  Line, Text, RawHeader, SessionMetadata, read_session, read_entries, lines_of, split_lines,
}
use aeloon_runtime.Session.Reading.Lines.{IsUnbroken, split_lines-line}
use aeloon_runtime.Session.Repository.{
  open_file, Directory, is_session_id, new_header, create, open_file, open_session, delete,
}

-- The metadata that `create` returns.
abbrev pub metadata_of : String → String → String → Option String → Fields → SessionMetadata
metadata_of id cwd now parent metadata = record {
  id = id;
  created_at = now;
  cwd = cwd;
  parent_session_path = truthy parent;
  metadata = metadata;
}

truthy_twice : (o : Option String) → truthy (truthy o) ≡ truthy o
truthy_twice none = refl
truthy_twice (some s) = ground arith

read_new :
    (id cwd now : String) (parent : Option String) (metadata : Fields)
    → str_eq id "" ≡ false
    → str_eq cwd "" ≡ false
    → str_eq now "" ≡ false
    → read_session (Line.header (new_header id cwd now parent metadata) ∷ [])
      ≡ ok (metadata_of id cwd now parent metadata, record { entries = []; leaf_id = none })
unfolding read_session new_header read_entries
read_new id cwd now parent metadata hi hc hn = ground (arith, hi, hc, hn, truthy_twice parent)

is_session_id-text : (id : String) → is_session_id id ≡ true → str_eq id "" ≡ false
unfolding is_session_id
is_session_id-text id h = ground (arith, h)

module _ (loads : Text → Line) (dumps_header : RawHeader → Text) where
  -- The directory with the file that `create` writes.
  unfoldable pub with_new :
      Directory → String → String → String → Option String → Fields → Directory
  with_new d id cwd now parent metadata =
      (id, dumps_header (new_header id cwd now parent metadata) ++ (10 ∷ [])) ∷ d

  -- What hangs on the file alone.
  same_open :
      (d d' : Directory) (id : String)
      → lookup d id ≡ lookup d' id
      → open_session loads d id ≡ open_session loads d' id
  unfolding open_session
  same_open d d' id h =
      ap
        (λ (f : Option Text).
          if is_session_id id then open_file loads id f else err invalid_session)
        h

  lines_of-header :
      (h : RawHeader)
      → loads (dumps_header h) ≡ Line.header h
      → IsUnbroken (dumps_header h)
      → lines_of loads (dumps_header h ++ (10 ∷ [])) ≡ Line.header h ∷ []
  unfolding lines_of split_lines
  lines_of-header h e unbroken =
      ap (map loads) (split_lines-line (dumps_header h) [] unbroken) ∙ ap (λ l. l ∷ []) e

  open_new :
      (d : Directory) (id cwd now : String) (parent : Option String) (metadata : Fields)
      → (let h = new_header id cwd now parent metadata in
          (loads (dumps_header h) ≡ Line.header h) × IsUnbroken (dumps_header h))
      → is_session_id id ≡ true
      → str_eq cwd "" ≡ false
      → str_eq now "" ≡ false
      → open_session loads (with_new d id cwd now parent metadata) id
        ≡ ok (metadata_of id cwd now parent metadata, new_session [] none)
  unfolding open_session open_file with_new
  open_new d id cwd now parent metadata (parsed, unbroken) valid hc hn =
      rw
        (
          valid,
          eq_refl id,
          open_file,
          lines_of-header (new_header id cwd now parent metadata) parsed unbroken,
          read_new id cwd now parent metadata (is_session_id-text id valid) hc hn,
          eq_refl id,
        )
        refl

  -- What a created session needs: an id of letters, digits, "-" and "_" that no file has, a
  -- directory and a time that are not empty, and a header whose line is parsed as it was written and
  -- holds no separator at which splitlines ends a line. Opening it gives the session that `create`
  -- returned, every other session opens as before, a second creation is refused, and deleting it
  -- makes it unknown and leaves every other session as it was.
  pub create-opens :
      (d : Directory) (id cwd now other : String) (parent : Option String) (metadata : Fields)
      → loads (dumps_header (new_header id cwd now parent metadata))
        ≡ Line.header (new_header id cwd now parent metadata)
      → IsUnbroken (dumps_header (new_header id cwd now parent metadata))
      → is_session_id id ≡ true
      → has_key d id ≡ false
      → str_eq cwd "" ≡ false
      → str_eq now "" ≡ false
      → str_eq id other ≡ false
      → let d' = with_new d id cwd now parent metadata in
        let created : SessionMetadata × Session =
          (metadata_of id cwd now parent metadata, new_session [] none) in
        (create dumps_header d id cwd now parent metadata ≡ ok (d', created))
        × (open_session loads d' id ≡ ok created)
        × (open_session loads d' other ≡ open_session loads d other)
        × (create dumps_header d' id cwd now parent metadata ≡ err storage)
        × (delete d' id ≡ ok (without d id))
        × (open_session loads (without d id) id ≡ err not_found)
        × (open_session loads (without d id) other ≡ open_session loads d other)
  unfolding create with_new delete open_session
  create-opens d id cwd now other parent metadata parsed unbroken valid absent hc hn differ =
      let text = dumps_header (new_header id cwd now parent metadata) ++ (10 ∷ []) in
      let there : has_key (with_new d id cwd now parent metadata) id ≡ true =
        has_key_self d id text in
      (
        rw (valid, absent) refl,
        open_new d id cwd now parent metadata (parsed, unbroken) valid hc hn,
        same_open (with_new d id cwd now parent metadata) d other (rw differ refl),
        rw (valid, there) refl,
        rw (valid, there, eq_refl id) refl,
        rw (valid, lookup-without d id id, eq_refl id) refl,
        same_open (without d id) d other (lookup-without d id other ∙ rw differ refl),
      )
