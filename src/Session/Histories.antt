-- ===== src/Session/Histories.antt =====
-- Sessions that some sequence of calls has built, from an empty session on.
pub mod Facts
use aeloon_runtime.Prelude.{
  ℕ, ◌≡◌, refl, sym, ◌∙◌, ap, subst, Bool, true, false, Option, none, some, List, [], ok, String,
}
use aeloon_runtime.Session.Entry.{Payload, leaf}
use aeloon_runtime.Session.Tree.{returned, Outcome}
use aeloon_runtime.Session.State.{
  Session, Draw, new_session, append_entry, set_leaf_id, delayed_flush, durable_flush,
}
use aeloon_runtime.Session.State.Valid.{IsValid, IsFresh}
use aeloon_runtime.Session.State.Valid.Append.{append_entry-IsValid}
use aeloon_runtime.Session.State.Valid.Moves.{
  set_leaf_id-IsValid, delayed_flush-IsValid, new_session-IsValid,
}
use aeloon_runtime.Session.Statistics.{SessionStats, stats}
use aeloon_runtime.Session.Statistics.Exact.{stats-IsValid}

abbrev pub is_leaf : Payload → Bool
is_leaf (leaf target) = true
is_leaf _ = false

-- Calls take effect one after the other. Ids are as `uuid4` gives them; the public methods append
-- no entry of type "leaf". A flush is `_delayed_flush` or `durable_flush`, which do the same to
-- the state.
pub data Reached : Session → Type 0 where
  start : Reached (new_session [] none)
  appended :
      {s : Session} (draw : Draw) (durable : Bool) (p : Payload)
      → IsFresh s.by_id draw
      → is_leaf p ≡ false
      → Reached s
      → Reached (append_entry s draw durable p).0
  moved :
      {s s' : Session} (draw : Draw) (leaf_id : Option String)
      → IsFresh s.by_id draw
      → set_leaf_id s draw leaf_id ≡ ok s'
      → Reached s
      → Reached s'
  flushed : {s : Session} → Reached s → Reached (delayed_flush s)
  counted :
      {s s' : Session} {result : SessionStats} (window : Option ℕ)
      → stats s window ≡ returned (s', result)
      → Reached s
      → Reached s'

pub Reached-IsValid : {s : Session} → Reached s → IsValid s
Reached-IsValid start = new_session-IsValid
Reached-IsValid (appended {s = s} draw durable p f plain r) =
    append_entry-IsValid s draw durable p (Reached-IsValid r) f
Reached-IsValid (moved {s = s} {s' = s'} draw leaf_id f done r) =
    (set_leaf_id-IsValid s s' draw leaf_id (Reached-IsValid r) f done).0
Reached-IsValid (flushed {s = s} r) = delayed_flush-IsValid s (Reached-IsValid r)
Reached-IsValid (counted {s = s} {s' = s'} {result = result} window done r) =
    stats-IsValid s s' result window (Reached-IsValid r) done
