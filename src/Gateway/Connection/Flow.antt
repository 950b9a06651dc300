-- ===== src/Gateway/Connection/Flow.antt =====
-- The event frames of a connection that are pending: their number, their size, and the limits.
use aeloon_runtime.Prelude.{
  ℕ, ◌+◌, ◌≤◌, ◌≡◌, refl, false, Option, none, some, List, [], ◌∷◌, ◌++◌, Option-cases, leb, ltb,
  not, fold, fold_inv, Bool-cases, either_way, ◌||◌, ◌⊎◌, inl, inr, All, arith, sum_of,
  sum_of-append,
}
use aeloon_runtime.Wire.{Value}
use aeloon_runtime.Gateway.Events.{PublicEvent, wants}
use aeloon_runtime.Gateway.Connection.{
  Frame, response, event, Entry, RuntimeConnection, new_connection, put_entry, enqueue, sizes,
  entries, close, finish_entry, finish_write, fail_write, take_entry, send, queue_event,
  priority_of, send_event, pack_frame, cancel_entry, cancel_entries, cancel_response,
  event_frame_done, accept_subscription, Step, subscribe_to, publish_event, respond, cancel,
  writer_takes, writer_writes, writer_fails, callback, closing, transport_closes, step,
}

-- The entry of the next frame.
abbrev pub new_entry : RuntimeConnection → Frame → Entry
new_entry c frame = record {
  priority = priority_of frame;
  sequence = c.write_sequence + 1;
  frame = frame;
  cancelled = false;
}

-- A frame is put into the queue, unless the connection is closed or closing.
pub enqueue-cases :
    (c : RuntimeConnection) (frame : Frame)
    → (enqueue c frame ≡ none)
      ⊎ (((c.closed || c.transport_closing) ≡ false)
          × (enqueue c frame
              ≡ some (record c {
                write_sequence = c.write_sequence + 1;
                writes = put_entry (new_entry c frame) c.writes;
              })))
unfolding enqueue
enqueue-cases c frame = elim (Bool-cases (c.closed || c.transport_closing)) [
  | inl gone ↦ inl (rw (gone, enqueue) refl)
  | inr open_still ↦ inr (open_still, rw (open_still, enqueue) refl)
]

-- No future of an event is cancelled.
pub Kept : Entry → Type 0
Kept a = elim a.frame [ response v ↦ Unit {0} | event e ↦ a.cancelled ≡ false ]

put_entry-Kept : (a : Entry) (xs : List Entry) → Kept a → All Kept xs → All Kept (put_entry a xs)
unfolding put_entry
put_entry-Kept a [] k h = (k, tt)
put_entry-Kept a (b ∷ rest) k h = ground (arith, put_entry-Kept a rest)

cancel_entry-Kept : (n : ℕ) (a : Entry) → Kept a → Kept (cancel_entry n a)
unfolding cancel_entry Kept
cancel_entry-Kept n a k = ground arith

cancel_entries-Kept : (n : ℕ) (xs : List Entry) → All Kept xs → All Kept (cancel_entries n xs)
unfolding cancel_entries Kept
cancel_entries-Kept n [] h = tt
cancel_entries-Kept n (a ∷ rest) h = (cancel_entry-Kept n a h.0, cancel_entries-Kept n rest h.1)

module _ (frame_length : Frame → ℕ) (f : ℕ → ℕ) where
  -- What entries weigh, one way or another.
  pub load : List Entry → ℕ
  load xs = sum_of f (sizes frame_length xs)

  load-put_entry : (a : Entry) (xs : List Entry) → load (put_entry a xs) ≡ load (a ∷ []) + load xs
  unfolding load put_entry
  load-put_entry a [] = ground arith
  load-put_entry a (b ∷ rest) = ground (arith, load-put_entry a rest)

  load-cancel_entries : (n : ℕ) (xs : List Entry) → load (cancel_entries n xs) ≡ load xs
  unfolding load cancel_entries
  load-cancel_entries n [] = refl
  load-cancel_entries n (a ∷ rest) = ground (arith, load-cancel_entries n rest)

  -- Of one measure, what is pending is what waits, what is being written and what is finished.
  abbrev pub Balanced : ℕ → RuntimeConnection → Type 0
  Balanced pending c = pending ≡ load (entries c.writing) + load c.writes + sum_of f c.finished

  load-entries : (a : Entry) → load (a ∷ []) ≡ sum_of f (sizes frame_length (a ∷ []))
  unfolding load
  load-entries a = refl

  load-cons : (a : Entry) (xs : List Entry) → load (a ∷ xs) ≡ load (a ∷ []) + load xs
  unfolding load
  load-cons a xs = ground arith

  load-nil : load [] ≡ 0
  unfolding load
  load-nil = refl

module _ (frame_length : Frame → ℕ) where
  -- The counters are exact, and within the limits.
  pub record Accounted (c : RuntimeConnection) : Type 0 where
    pub kept_writes : All Kept c.writes
    pub kept_writing : All Kept (entries c.writing)
    pub frames : Balanced frame_length (λ _. 1) c.pending_event_frames c
    pub bytes : Balanced frame_length (λ n. n) c.pending_event_bytes c
    pub frames_bound : c.pending_event_frames ≤ c.event_queue_limit
    pub bytes_bound : c.pending_event_bytes ≤ c.event_queue_bytes

  close-Balanced :
      (f : ℕ → ℕ) (pending : ℕ) (c : RuntimeConnection)
      → Balanced frame_length f pending c
      → Balanced frame_length f pending (close frame_length c)
  unfolding close load
  close-Balanced f pending c h =
      ground (arith, sum_of-append f c.finished (sizes frame_length c.writes))

  close-Accounted : (c : RuntimeConnection) → Accounted c → Accounted (close frame_length c)
  unfolding close
  close-Accounted c h = ground (
    arith,
    close-Balanced (λ _. 1) c.pending_event_frames c,
    close-Balanced (λ n. n) c.pending_event_bytes c,
  )

  finish_entry-Accounted :
      (c : RuntimeConnection) (w : Option Entry)
      → c.writing ≡ w
      → Accounted c
      → Accounted (finish_entry frame_length c w)
  unfolding finish_entry load
  finish_entry-Accounted c none e h = h
  finish_entry-Accounted c (some a) e h = either_way Accounted c.closed _ _ h (
      ground (
        arith,
        sum_of-append (λ (_ : ℕ). 1) c.finished (sizes frame_length (a ∷ [])),
        sum_of-append (λ (n : ℕ). n) c.finished (sizes frame_length (a ∷ [])),
      ))

  fail_write-Accounted :
      (c : RuntimeConnection) → Accounted c → Accounted (fail_write frame_length c)
  unfolding fail_write load
  fail_write-Accounted c h = elim (Option-cases c.writing) [
    | inl e ↦ ground arith
    | inr (a, e) ↦
        let c' : RuntimeConnection = (record c {
          writing = none;
          finished = c.finished ++ sizes frame_length (a ∷ []);
        }) in
        ground (
          arith,
          close-Accounted c',
          sum_of-append (λ (_ : ℕ). 1) c.finished (sizes frame_length (a ∷ [])),
          sum_of-append (λ (n : ℕ). n) c.finished (sizes frame_length (a ∷ [])),
        )
  ]

  take_entry-Accounted : (c : RuntimeConnection) → Accounted c → Accounted (take_entry c)
  unfolding take_entry load Kept
  take_entry-Accounted c h = ground arith

  send-Accounted : (c : RuntimeConnection) (v : Value) → Accounted c → Accounted (send c v)
  unfolding send Kept load
  send-Accounted c v h = elim (enqueue-cases c (response v)) [
    | inl gone ↦ rw (gone, send) h
    | inr (_, put) ↦
        rw (put, send)
          (ground (
            arith,
            put_entry-Kept (new_entry c (response v)) c.writes,
            load-put_entry frame_length (λ (_ : ℕ). 1) (new_entry c (response v)) c.writes,
            load-put_entry frame_length (λ (n : ℕ). n) (new_entry c (response v)) c.writes,
          ))
  ]

  cancel-Accounted : (c : RuntimeConnection) (n : ℕ) → Accounted c → Accounted (cancel_response c n)
  unfolding cancel_response
  cancel-Accounted c n h = ground (
    arith,
    cancel_entries-Kept n c.writes,
    load-cancel_entries frame_length (λ (_ : ℕ). 1) n c.writes,
    load-cancel_entries frame_length (λ (n : ℕ). n) n c.writes,
  )

  callback-Accounted : (c : RuntimeConnection) → Accounted c → Accounted (event_frame_done c)
  unfolding event_frame_done
  callback-Accounted c h = ground arith

  module _ (max_frame_bytes : ℕ) where
    queue_event-Accounted :
        (c : RuntimeConnection) (e : PublicEvent) (packed : Option ℕ)
        → pack_frame frame_length max_frame_bytes (event e) ≡ packed
        → Accounted c
        → Accounted (queue_event frame_length max_frame_bytes c e packed)
    unfolding queue_event pack_frame Kept load
    queue_event-Accounted c e none p h = close-Accounted c h
    queue_event-Accounted c e (some size) p h =
        let full =
          leb c.event_queue_limit c.pending_event_frames
          || ltb c.event_queue_bytes (c.pending_event_bytes + size) in
        elim (Bool-cases full) [
          | inl overflow ↦ rw overflow (close-Accounted c h)
          | inr fits ↦ rw fits (elim (Bool-cases (c.closed || c.transport_closing)) [
            | inl gone ↦ rw gone (ground arith)
            | inr open_still ↦ rw open_still (
                ground (
                  arith,
                  put_entry-Kept (new_entry c (event e)) c.writes,
                  load-put_entry frame_length (λ (_ : ℕ). 1) (new_entry c (event e)) c.writes,
                  load-put_entry frame_length (λ (n : ℕ). n) (new_entry c (event e)) c.writes,
                ))
          ])
        ]

    step-Accounted :
        (c : RuntimeConnection) (s : Step)
        → Accounted c
        → Accounted (step frame_length max_frame_bytes c s)
    unfolding step send_event accept_subscription finish_write
    step-Accounted c (subscribe_to ids) h = ground arith
    step-Accounted c (publish_event e) h =
        either_way Accounted (not c.subscribed || c.closed) c _ h (
          either_way Accounted (not (wants c.thread_ids e)) c _ h
            (queue_event-Accounted c e (pack_frame frame_length max_frame_bytes (event e)) refl h))
    step-Accounted c (respond v) h = send-Accounted c v h
    step-Accounted c (cancel n) h = cancel-Accounted c n h
    step-Accounted c writer_takes h = take_entry-Accounted c h
    step-Accounted c writer_writes h = finish_entry-Accounted c c.writing refl h
    step-Accounted c writer_fails h = fail_write-Accounted c h
    step-Accounted c callback h = callback-Accounted c h
    step-Accounted c closing h = close-Accounted c h
    step-Accounted c transport_closes h = ground arith

    -- Whatever happens to a connection, in whatever order, its counters are exactly the number and
    -- the size of the event frames that wait, are being written, or are through without their
    -- callback, and they stay within its limits.
    pub steps-Accounted :
        (limit bytes : ℕ) (ss : List Step)
        → Accounted (fold (step frame_length max_frame_bytes) (new_connection limit bytes) ss)
    unfolding Kept load
    steps-Accounted limit bytes ss =
        fold_inv Accounted _ step-Accounted ss (new_connection limit bytes) (ground arith)
