-- ===== src/Gateway/Connection/Queue.antt =====
-- The priority queue of a connection: the order of the events in it, and its entries.
use aeloon_runtime.Prelude.{
  ℕ, ◌+◌, ◌≤◌, ◌≡◌, refl, ap, ◌∙◌, Bool, true, false, none, some, List, [], ◌∷◌, ◌++◌, All, arith,
  if◌then◌else◌,
}
use aeloon_runtime.Gateway.Events.{PublicEvent}
use aeloon_runtime.Gateway.Connection.{
  Frame, response, event, Entry, RuntimeConnection, put_entry, entries, cancel_entry,
  cancel_entries,
}
use aeloon_runtime.Gateway.Connection.Flow.{new_entry}

-- The events among frames, and among entries.
abbrev pub events_of : List Frame → List PublicEvent
events_of [] = []
events_of (response v ∷ rest) = events_of rest
events_of (event e ∷ rest) = e ∷ events_of rest

abbrev pub frames_of : List Entry → List Frame
frames_of [] = []
frames_of (a ∷ rest) = a.frame ∷ frames_of rest

abbrev pub is_event : Frame → Bool
is_event (response v) = false
is_event (event e) = true

-- The priority of an entry is that of its frame, its number is one that was given out, and only
-- responses are cancelled.
pub Sound : ℕ → Entry → Type 0
Sound n a = (a.sequence ≤ n) × (elim a.frame [
  | response v ↦ a.priority ≡ 0
  | event e ↦ (a.priority ≡ 1) × (a.cancelled ≡ false)
])

-- Behind an event stand only events.
pub ResponsesFirst : List Entry → Type 0
ResponsesFirst [] = Unit
ResponsesFirst (a ∷ rest) =
    (is_event a.frame ≡ true → All (λ b. is_event b.frame ≡ true) rest) × ResponsesFirst rest

pub events_of-append : (xs ys : List Frame) → events_of (xs ++ ys) ≡ events_of xs ++ events_of ys
events_of-append [] ys = refl
events_of-append (response v ∷ xs) ys = events_of-append xs ys
events_of-append (event e ∷ xs) ys = ap (λ es. e ∷ es) (events_of-append xs ys)

-- A response does not change the order of the events, and an event goes behind all of them.
pub put_response-events_of :
    (a : Entry) (xs : List Entry)
    → is_event a.frame ≡ false
    → events_of (frames_of (put_entry a xs)) ≡ events_of (frames_of xs)
unfolding put_entry
put_response-events_of a [] h = ground arith
put_response-events_of a (b ∷ xs) h = ground (arith, put_response-events_of a xs)

pub put_event-events_of :
    (c : RuntimeConnection) (e : PublicEvent) (xs : List Entry)
    → All (Sound c.write_sequence) xs
    → put_entry (new_entry c (event e)) xs ≡ xs ++ new_entry c (event e) ∷ []
unfolding put_entry Sound
put_event-events_of c e [] h = refl
put_event-events_of c e (b ∷ xs) h = ground (arith, put_event-events_of c e xs)

pub frames_of-append : (xs ys : List Entry) → frames_of (xs ++ ys) ≡ frames_of xs ++ frames_of ys
frames_of-append [] ys = refl
frames_of-append (a ∷ xs) ys = ap (λ fs. a.frame ∷ fs) (frames_of-append xs ys)

pub put_event-last :
    (c : RuntimeConnection) (e : PublicEvent) (xs : List Entry)
    → All (Sound c.write_sequence) xs
    → events_of (frames_of (put_entry (new_entry c (event e)) xs))
      ≡ events_of (frames_of xs) ++ e ∷ []
put_event-last c e xs h =
    ap (λ ys. events_of (frames_of ys)) (put_event-events_of c e xs h)
    ∙ ap events_of (frames_of-append xs (new_entry c (event e) ∷ []))
    ∙ events_of-append (frames_of xs) (event e ∷ [])

pub Sound-weaken : (n : ℕ) (xs : List Entry) → All (Sound n) xs → All (Sound (n + 1)) xs
unfolding Sound
Sound-weaken n [] h = tt
Sound-weaken n (a ∷ xs) h = (ground arith, Sound-weaken n xs h.1)

pub put_entry-Sound :
    (n : ℕ) (a : Entry) (xs : List Entry)
    → Sound n a
    → All (Sound n) xs
    → All (Sound n) (put_entry a xs)
unfolding put_entry
put_entry-Sound n a [] k h = (k, tt)
put_entry-Sound n a (b ∷ xs) k h = ground (arith, put_entry-Sound n a xs)

pub cancel_entry-Sound : (k n : ℕ) (a : Entry) → Sound n a → Sound n (cancel_entry k a)
unfolding cancel_entry Sound
cancel_entry-Sound k n a h = ground arith

pub cancel_entries-Sound :
    (k n : ℕ) (xs : List Entry) → All (Sound n) xs → All (Sound n) (cancel_entries k xs)
unfolding cancel_entries
cancel_entries-Sound k n [] h = tt
cancel_entries-Sound k n (a ∷ xs) h =
    (cancel_entry-Sound k n a h.0, cancel_entries-Sound k n xs h.1)

pub cancel_entries-frames :
    (k : ℕ) (xs : List Entry) → frames_of (cancel_entries k xs) ≡ frames_of xs
unfolding cancel_entries cancel_entry
cancel_entries-frames k [] = refl
cancel_entries-frames k (a ∷ xs) = ground (arith, cancel_entries-frames k xs)

pub new_entry-Sound :
    (c : RuntimeConnection) (frame : Frame) → Sound (c.write_sequence + 1) (new_entry c frame)
unfolding Sound
new_entry-Sound c (response v) = (omega arith, omega arith)
new_entry-Sound c (event e) = (omega arith, (omega arith, refl))

pub take_next-coming :
    (n : ℕ) (b : Entry) (rest : List Entry)
    → Sound n b
    → events_of (frames_of (entries (if b.cancelled then none else some b)))
        ++ events_of (frames_of rest)
      ≡ events_of (frames_of (b ∷ rest))
unfolding Sound
take_next-coming n b rest s = ground arith
