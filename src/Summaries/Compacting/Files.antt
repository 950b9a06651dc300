-- ===== src/Summaries/Compacting/Files.antt =====
-- `file_operations`, and the paths that the calls name.
use aeloon_runtime.Prelude.{
  ◌≡◌, refl, ◌∙◌, subst, sym, String, Bool, true, false, Option, none, some, List, [], ◌∷◌, ◌++◌,
  ◌&&◌, ◌||◌, not, contains, any, str_eq, eq_iff, arith, Bool-cases, Option-cases, inl, inr,
}
use aeloon_runtime.Messages.{AgentMessage, user, assistant, tool_result, ToolCall, tool_calls}
use aeloon_runtime.Summaries.Compacting.{add_path, add_operation, add_operations, file_operations}

-- All calls of the answers, in order.
unfoldable pub calls_of : List AgentMessage → List ToolCall
calls_of [] = []
calls_of (assistant m ∷ rest) = tool_calls m ++ calls_of rest
calls_of (user u ∷ rest) = calls_of rest
calls_of (tool_result t ∷ rest) = calls_of rest

contains-add_path :
    (p q : String) (paths : List String)
    → contains (add_path p paths) q ≡ (str_eq q p || contains paths q)
unfolding add_path
contains-add_path p q paths = elim (Bool-cases (contains paths p)) [
  | inr missing ↦ rw (missing, add_path) refl
  | inl there ↦ elim (Bool-cases (str_eq q p)) [
    | inl same ↦
        let found = subst (λ x. contains paths x ≡ true) (sym ((eq_iff q p).0 same)) there in
        rw (there, add_path) (found ∙ sym (rw same refl))
    | inr differ ↦ rw (there, add_path) (rw differ refl)
  ]
]

any-append :
    {A : Type 0} (p : A → Bool) (xs ys : List A) → any p (xs ++ ys) ≡ (any p xs || any p ys)
any-append p [] ys = refl
any-append p (x ∷ xs) ys = ground (arith, any-append p xs ys)

module _ (path_of : String → Option String) where
  -- A call has the path among its arguments.
  abbrev pub names : String → ToolCall → Bool
  names path c = elim (path_of c.arguments) [ none ↦ false | some p ↦ str_eq path p ]

  abbrev pub is_read : ToolCall → Bool
  is_read c = contains ("read" ∷ "grep" ∷ "find" ∷ "ls" ∷ []) c.name

  abbrev pub is_write : ToolCall → Bool
  is_write c = contains ("edit" ∷ "write" ∷ []) c.name

  abbrev pub reads : String → ToolCall → Bool
  reads path c = is_read c && names path c

  abbrev pub writes : String → ToolCall → Bool
  writes path c = not (is_read c) && (is_write c && names path c)

  -- Membership in both sets behind calls, from what was there before.
  abbrev pub Grown :
      String → List ToolCall → List String × List String → List String × List String → Type 0
  Grown path calls before after =
      (contains after.0 path ≡ any (reads path) calls || contains before.0 path)
      × (contains after.1 path ≡ any (writes path) calls || contains before.1 path)

  names_nothing : (path : String) (c : ToolCall) → path_of c.arguments ≡ none → names path c ≡ false
  names_nothing path c no_path = rw (no_path, names) refl

  names_path :
      (path p : String) (c : ToolCall) → path_of c.arguments ≡ some p → names path c ≡ str_eq path p
  names_path path p c eq = rw (eq, names) refl

  add_operation-Grown :
      (path : String) (c : ToolCall) (sets : List String × List String)
      → Grown path (c ∷ []) sets (add_operation path_of c sets)
  unfolding add_operation
  add_operation-Grown path c (read, modified) = elim (Option-cases (path_of c.arguments)) [
    | inl no_path ↦
        rw (no_path, add_operation)
          (
            ground (arith, names_nothing path c no_path),
            ground (arith, names_nothing path c no_path),
          )
    | inr (p, eq) ↦ elim (Bool-cases (is_read c)) [
      | inl r ↦
          rw (eq, r, add_operation)
            (ground (arith, contains-add_path p path read, names_path path p c eq), refl)
      | inr no_r ↦ elim (Bool-cases (is_write c)) [
        | inl w ↦
            rw (eq, no_r, w, add_operation)
              (refl, ground (arith, contains-add_path p path modified, names_path path p c eq))
        | inr no_w ↦ rw (eq, no_r, no_w, add_operation) (refl, refl)
      ]
    ]
  ]

  Grown-append :
      (path : String) (xs ys : List ToolCall) (a b c : List String × List String)
      → Grown path xs a b
      → Grown path ys b c
      → Grown path (xs ++ ys) a c
  Grown-append path xs ys a b c h k = (
    ground (arith, h.0, k.0, any-append (reads path) xs ys),
    ground (arith, h.1, k.1, any-append (writes path) xs ys),
  )

  add_operations-Grown :
      (path : String) (calls : List ToolCall) (sets : List String × List String)
      → Grown path calls sets (add_operations path_of calls sets)
  unfolding add_operations
  add_operations-Grown path [] sets = (refl, refl)
  add_operations-Grown path (c ∷ rest) sets =
      let next = add_operation path_of c sets in
      Grown-append path (c ∷ []) rest sets next (add_operations path_of rest next)
        (add_operation-Grown path c sets) (add_operations-Grown path rest next)

  file_operations-Grown :
      (path : String) (ms : List AgentMessage) (sets : List String × List String)
      → Grown path (calls_of ms) sets (file_operations path_of ms sets)
  unfolding file_operations calls_of
  file_operations-Grown path [] sets = (refl, refl)
  file_operations-Grown path (user u ∷ rest) sets = file_operations-Grown path rest sets
  file_operations-Grown path (tool_result t ∷ rest) sets = file_operations-Grown path rest sets
  file_operations-Grown path (assistant m ∷ rest) sets =
      let next = add_operations path_of (tool_calls m) sets in
      Grown-append path (tool_calls m) (calls_of rest) sets next (file_operations path_of rest next)
        (add_operations-Grown path (tool_calls m) sets) (file_operations-Grown path rest next)

  -- A path is among the files read exactly when some call of a reading tool in the messages names
  -- it, and among the files modified exactly when some call of a writing tool does.
  pub file_operations-named :
      (path : String) (ms : List AgentMessage)
      → let (read, modified) = file_operations path_of ms ([], []) in
        (contains read path ≡ any (reads path) (calls_of ms))
        × (contains modified path ≡ any (writes path) (calls_of ms))
  file_operations-named path ms =
      let h = file_operations-Grown path ms ([], []) in (ground (arith, h.0), ground (arith, h.1))
