-- ===== src/Session/Context/Growth.antt =====
-- What an entry appended to the branch does to the context.
use aeloon_runtime.Prelude.{
  ◌≡◌, refl, ◌∙◌, ap, Bool, true, false, Option, none, some, List, [], ◌∷◌, ◌++◌, str_eq, ◌||◌,
  arith, eq_refl, All, any,
}
use aeloon_runtime.Session.Entry.{Entry, is_compaction}
use aeloon_runtime.Session.Context.Ordering.{grow_post, order-append, order-All}
use aeloon_runtime.Session.Context.{
  Order, order, is_post, Context, add_entry, add_entries, close_context, empty_context, context_of,
  assemble, entry_messages,
}

-- No entry of the list has the id.
abbrev pub IsFreshIn : Entry → List Entry → Type 0
IsFreshIn e = All (λ (x : Entry). str_eq e.id x.id ≡ false)

any-append :
    (p : Entry → Bool) (xs : List Entry) (e : Entry) → any p (xs ++ e ∷ []) ≡ (any p xs || p e)
any-append p [] e = ground arith
any-append p (x ∷ xs) e = ground (arith, any-append p xs e)

is_post-grow :
    (post : Option (List Entry)) (e x : Entry)
    → str_eq e.id x.id ≡ false
    → is_post (grow_post e post) x ≡ is_post post x
is_post-grow none e x h = refl
is_post-grow (some after) e x h =
    ground (arith, any-append (λ (p : Entry). str_eq p.id x.id) after e)

add_entry-grow :
    (post : Option (List Entry)) (e : Entry) (c : Context) (x : Entry)
    → str_eq e.id x.id ≡ false
    → add_entry (grow_post e post) c x ≡ add_entry post c x
unfolding add_entry
add_entry-grow post e c x h = ground (arith, is_post-grow post e x h)

add_entries-grow :
    (post : Option (List Entry)) (e : Entry) (c : Context) (xs : List Entry)
    → IsFreshIn e xs
    → add_entries (grow_post e post) c xs ≡ add_entries post c xs
unfolding add_entries
add_entries-grow post e c [] h = refl
add_entries-grow post e c (x ∷ xs) h =
    ap (λ c'. add_entries (grow_post e post) c' xs) (add_entry-grow post e c x h.0)
    ∙ add_entries-grow post e (add_entry post c x) xs h.1

add_entries-append :
    (post : Option (List Entry)) (c : Context) (xs : List Entry) (e : Entry)
    → add_entries post c (xs ++ e ∷ []) ≡ add_entry post (add_entries post c xs) e
unfolding add_entries
add_entries-append post c [] e = refl
add_entries-append post c (x ∷ xs) e = add_entries-append post (add_entry post c x) xs e

is_post_self : (after : List Entry) (e : Entry) → is_post (some (after ++ e ∷ [])) e ≡ true
is_post_self after e =
    ground (arith, any-append (λ (p : Entry). str_eq p.id e.id) after e, eq_refl e.id)

close_context-add :
    (post : Option (List Entry)) (c : Context) (e : Entry)
    → is_compaction e.payload ≡ false
    → close_context (grow_post e post) (add_entry (grow_post e post) c e)
      ≡ record (close_context post c) {
        messages = (close_context post c).messages ++ entry_messages e.payload;
      }
unfolding add_entry
close_context-add none c e h = ground arith
close_context-add (some after) c e h = ground (arith, is_post_self after e)

assemble-append :
    (o : Order) (e : Entry)
    → is_compaction e.payload ≡ false
    → IsFreshIn e o.ordered
    → assemble
        (record { ordered = o.ordered ++ e ∷ []; post_compaction = grow_post e o.post_compaction })
      ≡ record (assemble o) { messages = (assemble o).messages ++ entry_messages e.payload }
unfolding assemble
assemble-append o e h fresh =
    rw
      (
        add_entries-append (grow_post e o.post_compaction) empty_context o.ordered e,
        add_entries-grow o.post_compaction e empty_context o.ordered fresh,
      )
      (close_context-add o.post_compaction (add_entries o.post_compaction empty_context o.ordered) e
        h)

-- A new entry that is no compaction adds its messages at the end, and leaves the boundary alone.
pub context_of-append :
    (branch : List Entry) (e : Entry)
    → is_compaction e.payload ≡ false
    → IsFreshIn e branch
    → context_of (branch ++ e ∷ []) ≡ record (context_of branch) {
      messages = (context_of branch).messages ++ entry_messages e.payload;
    }
context_of-append branch e h fresh =
    unfold context_of in
    ap assemble (order-append branch e h)
    ∙ assemble-append (order branch) e h
        (order-All (λ (x : Entry). str_eq e.id x.id ≡ false) branch fresh)
