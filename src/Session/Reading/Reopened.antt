-- ===== src/Session/Reading/Reopened.antt =====
-- A session file read back, beside the session that wrote it.
use aeloon_runtime.Prelude.{
  ◌≡◌, sym, ◌∙◌, ap, Bool, true, false, none, List, [], ◌∷◌, ◌++◌, map, ok, append_assoc,
  append-nil, refl, cons_eq, All, ◌⊎◌, inl, inr, is_empty, subst,
}
use aeloon_runtime.Session.Entry.{Entry}
use aeloon_runtime.Session.Context.{build_context}
use aeloon_runtime.Session.State.{Session, new_session}
use mathlib.Core.List.{map-append}
use aeloon_runtime.Session.Reading.{
  Line, bad_json, Contents, read_entries, leaf_after, Text, lines_of, split_lines, written,
}
use aeloon_runtime.Session.Reading.Lines.{IsUnbroken, split_lines-written, split_lines-last}
use aeloon_runtime.Session.Histories.{Reached, Reached-IsValid}
use aeloon_runtime.Session.Histories.Facts.{last_leaf, leaf-last}

-- A file may end in a line that was cut short.
abbrev pub torn : Bool → List Line
torn true = bad_json ∷ []
torn false = []

read_entries-written :
    (c : Contents) (es : List Entry) (cut : Bool)
    → read_entries c (map Line.entry es ++ torn cut)
      ≡ ok (record { entries = c.entries ++ es; leaf_id = last_leaf c.leaf_id es })
unfolding read_entries last_leaf
read_entries-written c [] true = rw append-nil
read_entries-written c [] false = rw append-nil
read_entries-written c (e ∷ es) cut =
    read_entries-written (record { entries = c.entries ++ e ∷ []; leaf_id = leaf_after e }) es cut
    ∙ rw (append_assoc c.entries (e ∷ []) es)

abbrev pub no_contents : Contents
no_contents = record { entries = []; leaf_id = none }

pub read_entries-journal :
    (s : Session) (cut : Bool)
    → Reached s
    → read_entries no_contents (map Line.entry s.journal.lines ++ torn cut)
      ≡ ok (record { entries = s.entries; leaf_id = s.current_leaf_id })
read_entries-journal s cut r =
    ap (λ (es : List Entry). read_entries no_contents (map Line.entry es ++ torn cut))
      (Reached-IsValid r).written
    ∙ read_entries-written no_contents s.entries cut
    ∙ ap (λ leaf_id. ok (record { entries = s.entries; leaf_id = leaf_id })) (sym (leaf-last r))

module _ (loads : Text → Line) (dumps : Entry → Text) where
  -- The line of an entry is parsed as the entry, and `splitlines` does not cut it.
  abbrev pub IsPlain : Entry → Type 0
  IsPlain e = (loads (dumps e) ≡ Line.entry e) × IsUnbroken (dumps e)

  -- What the file of a session holds behind its header.
  abbrev pub text_of : List Entry → Text
  text_of es = written (map dumps es)

  dumped-unbroken : (es : List Entry) → All IsPlain es → All IsUnbroken (map dumps es)
  dumped-unbroken [] h = tt
  dumped-unbroken (e ∷ es) h = (h.0.1, dumped-unbroken es h.1)

  loads-dumped : (es : List Entry) → All IsPlain es → map loads (map dumps es) ≡ map Line.entry es
  loads-dumped [] h = refl
  loads-dumped (e ∷ es) h = cons_eq h.0.0 (loads-dumped es h.1)

  -- The lines of the file, and what stands behind them.
  pub lines_of-text :
      (es : List Entry) (rest : Text)
      → All IsPlain es
      → lines_of loads (text_of es ++ rest) ≡ map Line.entry es ++ lines_of loads rest
  unfolding lines_of
  lines_of-text es rest h =
      ap (map loads) (split_lines-written (map dumps es) rest (dumped-unbroken es h))
      ∙ map-append loads (map dumps es) (split_lines false rest)
      ∙ ap (λ ls. ls ++ lines_of loads rest) (loads-dumped es h)

  -- A write that was cut short between two characters left nothing, or a part of a line that is no
  -- JSON.
  abbrev pub IsFragment : Text → Type 0
  IsFragment text =
      (text ≡ []) ⊎ (IsUnbroken text × (is_empty text ≡ false) × (loads text ≡ bad_json))

  fragment-torn : (text : Text) → IsFragment text → (cut : Bool) × (lines_of loads text ≡ torn cut)
  unfolding lines_of split_lines
  fragment-torn text (inl e) = (false, rw e refl)
  fragment-torn text (inr (unbroken, some_text, bad)) =
      (true, ap (map loads) (split_lines-last text unbroken some_text) ∙ ap (λ l. l ∷ []) bad)

  -- If every entry of a session is parsed as it was written, and its line holds no separator at
  -- which splitlines ends a line, then reading the text that the session has written, with a
  -- fragment of a cut line behind it or not, gives its entries and its current leaf; and the session
  -- that `open` makes of them has the same context.
  pub reopened :
      (s : Session) (fragment : Text)
      → Reached s
      → All IsPlain s.entries
      → IsFragment fragment
      → (read_entries no_contents (lines_of loads (text_of s.journal.lines ++ fragment))
          ≡ ok (record { entries = s.entries; leaf_id = s.current_leaf_id }))
        × (let t = new_session s.entries s.current_leaf_id in
            build_context t.by_id t.current_leaf_id ≡ build_context s.by_id s.current_leaf_id)
  unfolding new_session
  reopened s fragment r plain f =
      let same : s.journal.lines ≡ s.entries = (Reached-IsValid r).written in
      let (cut, e) = fragment-torn fragment f in
      (
        ap (read_entries no_contents) (
              lines_of-text s.journal.lines fragment (subst (All IsPlain) (sym same) plain)
              ∙ ap (λ ls. map Line.entry s.journal.lines ++ ls) e)
            ∙ read_entries-journal s cut r,
        ap (λ d. build_context d s.current_leaf_id) (sym (Reached-IsValid r).indexed),
      )
