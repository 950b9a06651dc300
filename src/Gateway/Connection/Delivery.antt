-- ===== src/Gateway/Connection/Delivery.antt =====
-- A connection beside its audience: what the audience is due, and where it is in the connection.
use aeloon_runtime.Prelude.{
  ℕ, ◌+◌, ◌≡◌, refl, sym, ap, subst, ◌∙◌, String, Bool, true, false, Option, none, some, List, [],
  ◌∷◌, ◌++◌, ◌⊎◌, either_way, if_cases, ◌||◌, ◌&&◌, inl, inr, not, All, arith, append_assoc,
  append-nil, if◌then◌else◌,
}
use aeloon_runtime.Wire.{Value}
use aeloon_runtime.Gateway.Events.{PublicEvent, wants}
use aeloon_runtime.Gateway.Connection.{
  Frame, response, event, Entry, RuntimeConnection, put_entry, entries, close, finish_entry,
  take_next, fail_entry, send, cancel_response, event_frame_done, Step, subscribe_to, publish_event,
}
use aeloon_runtime.Gateway.Connection.Flow.{new_entry, enqueue-cases}
use aeloon_runtime.Gateway.Connection.Queue.{
  Sound, Sound-weaken, cancel_entries-Sound, cancel_entries-frames, events_of, events_of-append,
  frames_of, new_entry-Sound, put_entry-Sound, put_event-last, put_response-events_of,
  take_next-coming,
}

-- What a subscriber is due: the events of its threads, from its subscription on.
pub record Audience : Type 0 where
  pub subscribed : Bool
  pub thread_ids : List String
  pub due : List PublicEvent

abbrev pub nobody : Audience
nobody = record { subscribed = false; thread_ids = []; due = [] }

unfoldable pub hear : Audience → Step → Audience
hear a (subscribe_to ids) = record a { subscribed = true; thread_ids = ids }
hear a (publish_event e) =
    if a.subscribed && wants a.thread_ids e then record a { due = a.due ++ e ∷ [] } else a
hear a _ = a

-- The events that the writer has taken or will take.
abbrev pub coming : RuntimeConnection → List PublicEvent
coming c = events_of (frames_of (entries c.writing)) ++ events_of (frames_of c.writes)

-- `lost` are the events that a connection that has ended keeps back.
pub record Delivers (a : Audience) (c : RuntimeConnection) : Type 0 where
  pub same_subscribed : c.subscribed ≡ a.subscribed
  pub same_threads : c.thread_ids ≡ a.thread_ids
  pub sound : All (Sound c.write_sequence) c.writes
  pub lost : List PublicEvent
  pub split : a.due ≡ events_of c.written ++ (coming c ++ lost)
  pub lossless : ((c.closed || c.transport_closing) ≡ true) ⊎ (lost ≡ [])

pub closing_gone : (b : Bool) → (b || true) ≡ true
closing_gone true = refl
closing_gone false = refl

-- The guards of `send_event`, beside those of the audience.
pub heard :
    (subscribed closed wanted : Bool) (a a' : Audience) (c c' : RuntimeConnection)
    → Delivers a c
    → (closed ≡ true → Delivers a' c)
    → Delivers a' c'
    → Delivers
        (if subscribed && wanted then a' else a)
        (if not subscribed || closed then c else if not wanted then c else c')
heard false closed wanted a a' c c' d gone more = d
heard true true true a a' c c' d gone more = gone refl
heard true true false a a' c c' d gone more = d
heard true false true a a' c c' d gone more = more
heard true false false a a' c c' d gone more = d

module _ (frame_length : Frame → ℕ) where
  pub close-Delivers :
      (a : Audience) (c : RuntimeConnection) → Delivers a c → Delivers a (close frame_length c)
  unfolding close
  close-Delivers a c d = either_way (Delivers a) c.closed c _ d (record {
    same_subscribed = d.same_subscribed;
    same_threads = d.same_threads;
    sound = tt;
    lost = events_of (frames_of c.writes) ++ d.lost;
    split = d.split ∙ simp (append_assoc, append-nil);
    lossless = inl refl;
  })

  pub finish_entry-Delivers :
      (a : Audience) (c : RuntimeConnection) (w : Option Entry)
      → c.writing ≡ w
      → Delivers a c
      → Delivers a (finish_entry frame_length c w)
  unfolding finish_entry
  finish_entry-Delivers a c none e d = d
  finish_entry-Delivers a c (some b) e d = either_way (Delivers a) c.closed c _ d (record {
    same_subscribed = d.same_subscribed;
    same_threads = d.same_threads;
    sound = d.sound;
    lost = d.lost;
    split =
        d.split
        ∙ ap
            (λ w.
              events_of c.written
              ++ ((events_of (frames_of (entries w)) ++ events_of (frames_of c.writes)) ++ d.lost))
            e
        ∙ simp (events_of-append, append_assoc);
    lossless = d.lossless;
  })

  pub fail_entry-Delivers :
      (a : Audience) (c : RuntimeConnection) (w : Option Entry)
      → c.writing ≡ w
      → Delivers a c
      → Delivers a (fail_entry frame_length c w)
  unfolding fail_entry close
  fail_entry-Delivers a c none e d = d
  fail_entry-Delivers a c (some b) e d =
      if_cases (Delivers a) c.closed c _ (λ _. d)
        λ still_open.
          if_cases (Delivers a) c.closed _ _ (λ gone. absurd (cc (gone, still_open)))
            λ _. (record {
              same_subscribed = d.same_subscribed;
              same_threads = d.same_threads;
              sound = tt;
              lost = events_of (frames_of (b ∷ [])) ++ (events_of (frames_of c.writes) ++ d.lost);
              split =
                  d.split
                  ∙ ap
                      (λ w.
                        events_of c.written
                        ++ ((events_of (frames_of (entries w)) ++ events_of (frames_of c.writes))
                            ++ d.lost))
                      e
                  ∙ ap (λ es. events_of c.written ++ es)
                      (append_assoc (events_of (frames_of (b ∷ [])))
                        (events_of (frames_of c.writes)) d.lost);
              lossless = inl refl;
            })

  pub take_next-Delivers :
      (a : Audience) (c : RuntimeConnection) (w : Option Entry) (queue : List Entry)
      → c.writing ≡ w
      → c.writes ≡ queue
      → Delivers a c
      → Delivers a (take_next c w queue)
  unfolding take_next
  take_next-Delivers a c (some b) queue e q d = d
  take_next-Delivers a c none [] e q d = d
  take_next-Delivers a c none (b ∷ rest) e q d =
      let sound = subst (All (Sound c.write_sequence)) q d.sound in
      either_way (Delivers a) c.closed c _ d (record {
        same_subscribed = d.same_subscribed;
        same_threads = d.same_threads;
        sound = sound.1;
        lost = d.lost;
        split =
            d.split
            ∙ ap
                (λ w.
                  events_of c.written
                  ++ ((events_of (frames_of (entries w)) ++ events_of (frames_of c.writes))
                      ++ d.lost))
                e
            ∙ ap (λ xs. events_of c.written ++ (events_of (frames_of xs) ++ d.lost)) q
            ∙ ap (λ es. events_of c.written ++ (es ++ d.lost))
                (sym (take_next-coming c.write_sequence b rest sound.0));
        lossless = d.lossless;
      })

  pub send-Delivers :
      (a : Audience) (c : RuntimeConnection) (v : Value) → Delivers a c → Delivers a (send c v)
  unfolding send
  send-Delivers a c v d = elim (enqueue-cases c (response v)) [
    | inl gone ↦ rw (gone, send) d
    | inr (_, put) ↦
        rw (put, send)
          (record {
            same_subscribed = d.same_subscribed;
            same_threads = d.same_threads;
            sound =
                put_entry-Sound (c.write_sequence + 1) (new_entry c (response v)) c.writes
                  (new_entry-Sound c (response v)) (Sound-weaken c.write_sequence c.writes d.sound);
            lost = d.lost;
            split =
                d.split
                ∙ ap
                    (λ es.
                      events_of c.written
                      ++ ((events_of (frames_of (entries c.writing)) ++ es) ++ d.lost))
                    (sym (put_response-events_of (new_entry c (response v)) c.writes refl));
            lossless = d.lossless;
          })
  ]

  pub cancel-Delivers :
      (a : Audience) (c : RuntimeConnection) (n : ℕ)
      → Delivers a c
      → Delivers a (cancel_response c n)
  unfolding cancel_response
  cancel-Delivers a c n d = record {
    same_subscribed = d.same_subscribed;
    same_threads = d.same_threads;
    sound = cancel_entries-Sound n c.write_sequence c.writes d.sound;
    lost = d.lost;
    split = rw (cancel_entries-frames n c.writes) d.split;
    lossless = d.lossless;
  }

  pub callback-Delivers :
      (a : Audience) (c : RuntimeConnection) → Delivers a c → Delivers a (event_frame_done c)
  unfolding event_frame_done
  callback-Delivers a c d = ground arith

  pub close-closed : (c : RuntimeConnection) → (close frame_length c).closed ≡ true
  unfolding close
  close-closed c = ground arith

  pub closed_gone :
      (c : RuntimeConnection) → c.closed ≡ true → (c.closed || c.transport_closing) ≡ true
  closed_gone c h = ground arith

  pub recount-Delivers :
      (a : Audience) (c : RuntimeConnection) (frames bytes : ℕ)
      → Delivers a c
      → Delivers a (record c { pending_event_frames = frames; pending_event_bytes = bytes })
  recount-Delivers a c frames bytes d = record {
    same_subscribed = d.same_subscribed;
    same_threads = d.same_threads;
    sound = d.sound;
    lost = d.lost;
    split = d.split;
    lossless = d.lossless;
  }

  -- A connection that has ended takes no more events.
  pub missed :
      (a : Audience) (c : RuntimeConnection) (e : PublicEvent)
      → (c.closed || c.transport_closing) ≡ true
      → Delivers a c
      → Delivers (record a { due = a.due ++ e ∷ [] }) c
  missed a c e gone d = record {
    same_subscribed = d.same_subscribed;
    same_threads = d.same_threads;
    sound = d.sound;
    lost = d.lost ++ e ∷ [];
    split = ap (λ es. es ++ e ∷ []) d.split ∙ simp (append_assoc);
    lossless = inl gone;
  }

  pub missed-close :
      (a : Audience) (c : RuntimeConnection) (e : PublicEvent)
      → Delivers a c
      → Delivers (record a { due = a.due ++ e ∷ [] }) (close frame_length c)
  missed-close a c e d =
      missed a (close frame_length c) e (closed_gone (close frame_length c) (close-closed c))
        (close-Delivers a c d)

  -- An event that is put into the queue of an open connection.
  pub put-Delivers :
      (a : Audience) (c : RuntimeConnection) (e : PublicEvent) (frames bytes : ℕ)
      → (c.closed || c.transport_closing) ≡ false
      → Delivers a c
      → Delivers
          (record a { due = a.due ++ e ∷ [] })
          (record c {
            pending_event_frames = frames;
            pending_event_bytes = bytes;
            write_sequence = c.write_sequence + 1;
            writes = put_entry (new_entry c (event e)) c.writes;
          })
  put-Delivers a c e frames bytes open_still d =
      let nothing_lost : d.lost ≡ [] = elim d.lossless [
        | inl gone ↦ absurd (cc (gone, open_still))
        | inr none_lost ↦ none_lost
      ] in
      record {
        same_subscribed = d.same_subscribed;
        same_threads = d.same_threads;
        sound =
            put_entry-Sound (c.write_sequence + 1) (new_entry c (event e)) c.writes
              (new_entry-Sound c (event e)) (Sound-weaken c.write_sequence c.writes d.sound);
        lost = [];
        split =
            ap (λ es. es ++ e ∷ [])
              (d.split ∙ ap (λ l. events_of c.written ++ (coming c ++ l)) nothing_lost)
            ∙ (simp (append_assoc, append-nil))
            ∙ ap (λ es. events_of c.written ++ (events_of (frames_of (entries c.writing)) ++ es))
                (sym (put_event-last c e c.writes d.sound))
            ∙ simp (append_assoc, append-nil);
        lossless = inr refl;
      }
