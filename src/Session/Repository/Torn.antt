-- ===== src/Session/Repository/Torn.antt =====
-- What becomes of a session whose file ends in a torn line, once it is open and goes on.
use aeloon_runtime.Prelude.{
  ◌≡◌, refl, cons_eq, true, List, [], ◌∷◌, ◌++◌, map, Result, ok, err, append_assoc, All, false,
  is_empty, subst, sym, ap, ◌∙◌, inr,
}
use aeloon_runtime.Session.Entry.{Entry}
use aeloon_runtime.Session.Tree.{SessionError, invalid_entry}
use aeloon_runtime.Session.State.{Session}
use aeloon_runtime.Session.Reading.{
  Line, Text, bad_json, Contents, read_entries, leaf_after, lines_of, split_lines,
}
use aeloon_runtime.Session.Reading.Lines.{IsUnbroken, split_lines-line}
use aeloon_runtime.Session.Reading.Reopened.{
  no_contents, reopened, IsPlain, text_of, lines_of-text, read_entries-journal,
}
use aeloon_runtime.Session.Histories.{Reached, Reached-IsValid}
use aeloon_runtime.Session.Repository.{append_line}

broken_line :
    (c : Contents) (es : List Entry) (e : Entry)
    → read_entries c (map Line.entry es ++ (bad_json ∷ Line.entry e ∷ [])) ≡ err invalid_entry
unfolding read_entries
broken_line c [] e = refl
broken_line c (x ∷ es) e =
    broken_line (record { entries = c.entries ++ x ∷ []; leaf_id = leaf_after x }) es e

regroup : (w f d rest : Text) → (w ++ f) ++ (d ++ rest) ≡ w ++ ((f ++ d) ++ rest)
regroup w f d rest = append_assoc w f (d ++ rest) ∙ ap (λ t. w ++ t) (sym (append_assoc f d rest))

regroup_twice :
    (w f d rest tail : Text) → ((w ++ f) ++ (d ++ rest)) ++ tail ≡ w ++ ((f ++ d) ++ (rest ++ tail))
regroup_twice w f d rest tail =
    ap (λ t. t ++ tail) (regroup w f d rest)
    ∙ append_assoc w ((f ++ d) ++ rest) tail
    ∙ ap (λ t. w ++ t) (append_assoc (f ++ d) rest tail)

module _ (loads : Text → Line) (dumps : Entry → Text) where
  -- The entry lines of a file that a session wrote and a crash cut short.
  abbrev pub cut_file : Session → Text → Text
  cut_file s fragment = text_of loads dumps s.journal.lines ++ fragment

  lines_of-nil : lines_of loads [] ≡ []
  unfolding lines_of split_lines
  lines_of-nil = refl

  lines_of-line :
      (line rest : Text)
      → IsUnbroken line
      → lines_of loads (line ++ (10 ∷ rest)) ≡ loads line ∷ lines_of loads rest
  unfolding lines_of
  lines_of-line line rest h = ap (map loads) (split_lines-line line rest h)

  -- If every entry of a session, and the second new one, is parsed as it was written and holds no
  -- separator at which splitlines ends a line, and a fragment is no JSON, neither alone nor with the
  -- line of the first new entry behind it: the file of the session with the fragment at its end is
  -- read as the session; after it, the first entry that is appended is lost, and with the second
  -- one the file cannot be read any more.
  pub torn_file_breaks :
      (s : Session) (fragment : Text) (first second : Entry)
      → Reached s
      → All (IsPlain loads dumps) s.entries
      → IsPlain loads dumps second
      → IsUnbroken fragment × (is_empty fragment ≡ false) × (loads fragment ≡ bad_json)
      → IsUnbroken (fragment ++ dumps first) × (loads (fragment ++ dumps first) ≡ bad_json)
      → let f = cut_file s fragment in
        let read : Result SessionError Contents =
          ok (record { entries = s.entries; leaf_id = s.current_leaf_id }) in
        (read_entries no_contents (lines_of loads f) ≡ read)
        × (read_entries no_contents (lines_of loads (append_line dumps f first)) ≡ read)
        × (read_entries no_contents
              (lines_of loads (append_line dumps (append_line dumps f first) second))
            ≡ err invalid_entry)
  unfolding append_line
  torn_file_breaks s fragment first second r plain plain2 cut glued =
      let same : s.journal.lines ≡ s.entries = (Reached-IsValid r).written in
      let lines = s.journal.lines in
      let before = text_of loads dumps lines in
      let plain' = subst (All (IsPlain loads dumps)) (sym same) plain in
      (
        (reopened loads dumps s fragment r plain (inr cut)).0,
        ap (read_entries no_contents) (
              ap (lines_of loads) (regroup before fragment (dumps first) (10 ∷ []))
              ∙ lines_of-text loads dumps lines ((fragment ++ dumps first) ++ (10 ∷ [])) plain'
              ∙ ap (λ ls. map Line.entry lines ++ ls)
                  (lines_of-line (fragment ++ dumps first) [] glued.0
                    ∙ cons_eq glued.1 lines_of-nil))
            ∙ read_entries-journal s true r,
        ap (read_entries no_contents) (
              ap (lines_of loads)
                (regroup_twice before fragment (dumps first) (10 ∷ []) (dumps second ++ (10 ∷ [])))
              ∙ lines_of-text loads dumps lines
                  ((fragment ++ dumps first) ++ (10 ∷ (dumps second ++ (10 ∷ [])))) plain'
              ∙ ap (λ ls. map Line.entry lines ++ ls)
                  (lines_of-line (fragment ++ dumps first) (dumps second ++ (10 ∷ [])) glued.0
                    ∙ ap (λ l. l ∷ lines_of loads (dumps second ++ (10 ∷ []))) glued.1
                    ∙ ap (λ ls. bad_json ∷ ls)
                        (lines_of-line (dumps second) [] plain2.1 ∙ cons_eq plain2.0 lines_of-nil)))
            ∙ broken_line no_contents lines second,
      )
