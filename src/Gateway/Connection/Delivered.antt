-- ===== src/Gateway/Connection/Delivered.antt =====
-- What a client gets of the events, whatever happens to its connection.
use aeloon_runtime.Prelude.{
  ℕ, ◌+◌, ◌≡◌, refl, subst, true, Option, none, some, List, [], ◌∷◌, ◌++◌, ◌⊎◌, Bool-cases, leb,
  ltb, ◌||◌, ◌&&◌, inl, inr, fold, if◌then◌else◌,
}
use aeloon_runtime.Gateway.Events.{PublicEvent, wants}
use aeloon_runtime.Gateway.Connection.{
  Frame, event, RuntimeConnection, new_connection, enqueue, finish_write, fail_write, take_entry,
  send_event, queue_event, pack_frame, accept_subscription, Step, subscribe_to, publish_event,
  respond, cancel, writer_takes, writer_writes, writer_fails, callback, closing, transport_closes,
  step,
}
use aeloon_runtime.Gateway.Connection.Queue.{events_of}
use aeloon_runtime.Gateway.Connection.Delivery.{
  Audience, Delivers, callback-Delivers, cancel-Delivers, close-Delivers, closed_gone, closing_gone,
  coming, fail_entry-Delivers, finish_entry-Delivers, hear, heard, missed, missed-close, nobody,
  put-Delivers, recount-Delivers, send-Delivers, take_next-Delivers,
}

module _ (frame_length : Frame → ℕ) (max_frame_bytes : ℕ) where
  queued-Delivers :
      (a : Audience) (c : RuntimeConnection) (e : PublicEvent) (packed : Option ℕ)
      → Delivers a c
      → Delivers
          (record a { due = a.due ++ e ∷ [] })
          (queue_event frame_length max_frame_bytes c e packed)
  unfolding queue_event
  queued-Delivers a c e none d = missed-close frame_length a c e d
  queued-Delivers a c e (some size) d =
      let full =
        leb c.event_queue_limit c.pending_event_frames
        || ltb c.event_queue_bytes (c.pending_event_bytes + size) in
      elim (Bool-cases full) [
        | inl overflow ↦ rw overflow (missed-close frame_length a c e d)
        | inr fits ↦ rw fits (elim (Bool-cases (c.closed || c.transport_closing)) [
          | inl gone ↦
              rw (gone, enqueue)
                (missed frame_length a _ e gone (recount-Delivers frame_length a c _ _ d))
          | inr open_still ↦
              rw (open_still, enqueue) (put-Delivers frame_length a c e _ _ open_still d)
        ])
      ]

  -- An event for the audience, or for others.
  send_event-Delivers :
      (a : Audience) (c : RuntimeConnection) (e : PublicEvent)
      → Delivers a c
      → Delivers (hear a (publish_event e)) (send_event frame_length max_frame_bytes c e)
  unfolding hear send_event
  send_event-Delivers a c e d =
      subst
        (λ b.
          Delivers (if b then record a { due = a.due ++ e ∷ [] } else a)
            (send_event frame_length max_frame_bytes c e))
        (λ i. d.same_subscribed i && wants (d.same_threads i) e)
        (heard c.subscribed c.closed (wants c.thread_ids e) a (record a { due = a.due ++ e ∷ [] }) c
          (queue_event frame_length max_frame_bytes c e
            (pack_frame frame_length max_frame_bytes (event e)))
          d (λ gone. missed frame_length a c e (closed_gone frame_length c gone) d)
          (queued-Delivers a c e (pack_frame frame_length max_frame_bytes (event e)) d))

  step-Delivers :
      (a : Audience) (c : RuntimeConnection) (s : Step)
      → Delivers a c
      → Delivers (hear a s) (step frame_length max_frame_bytes c s)
  unfolding step hear accept_subscription finish_write fail_write take_entry
  step-Delivers a c (subscribe_to ids) d = record {
    same_subscribed = refl;
    same_threads = refl;
    sound = d.sound;
    lost = d.lost;
    split = d.split;
    lossless = d.lossless;
  }
  step-Delivers a c (publish_event e) d = send_event-Delivers a c e d
  step-Delivers a c (respond v) d = send-Delivers frame_length a c v d
  step-Delivers a c (cancel n) d = cancel-Delivers frame_length a c n d
  step-Delivers a c writer_takes d =
      take_next-Delivers frame_length a c c.writing c.writes refl refl d
  step-Delivers a c writer_writes d = finish_entry-Delivers frame_length a c c.writing refl d
  step-Delivers a c writer_fails d = fail_entry-Delivers frame_length a c c.writing refl d
  step-Delivers a c callback d = callback-Delivers frame_length a c d
  step-Delivers a c closing d = close-Delivers frame_length a c d
  step-Delivers a c transport_closes d = record {
    same_subscribed = d.same_subscribed;
    same_threads = d.same_threads;
    sound = d.sound;
    lost = d.lost;
    split = d.split;
    lossless = inl (closing_gone c.closed);
  }

  steps-Delivers :
      (ss : List Step) (a : Audience) (c : RuntimeConnection)
      → Delivers a c
      → Delivers (fold hear a ss) (fold (step frame_length max_frame_bytes) c ss)
  steps-Delivers [] a c d = d
  steps-Delivers (s ∷ ss) a c d =
      steps-Delivers ss (hear a s) (step frame_length max_frame_bytes c s) (step-Delivers a c s d)

  -- Whatever happens to a connection, in whatever order, the events that it has written are, in
  -- order and without a gap, the first ones of those that its client is due: the events of the
  -- threads that it asked for last, from its subscription on. While the connection is open, the
  -- others are all on their way, in order.
  pub delivered_without_gap :
      (limit bytes : ℕ) (ss : List Step)
      → let c = fold (step frame_length max_frame_bytes) (new_connection limit bytes) ss in
        let audience = fold hear nobody ss in
        (lost : List PublicEvent) × (audience.due ≡ events_of c.written ++ (coming c ++ lost))
        × (((c.closed || c.transport_closing) ≡ true) ⊎ (lost ≡ []))
  delivered_without_gap limit bytes ss =
      let d = steps-Delivers ss nobody (new_connection limit bytes) (record {
        same_subscribed = refl;
        same_threads = refl;
        sound = tt;
        lost = [];
        split = refl;
        lossless = inr refl;
      }) in
      (d.lost, d.split, d.lossless)
