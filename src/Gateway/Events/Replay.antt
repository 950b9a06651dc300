-- ===== src/Gateway/Events/Replay.antt =====
-- What a client that comes back is sent of the events that it missed.
use aeloon_runtime.Prelude.{
  ℕ, ◌+◌, ◌-◌, ◌≤◌, ◌<◌, ◌≡◌, refl, sym, ap, ◌∙◌, ◌⊎◌, inl, inr, String, Bool, true, false, List,
  [], ◌∷◌, ◌++◌, ◌&&◌, drop, take, take-append-drop, length, ltb, arith, subst, Bool-cases,
  append_assoc, append-nil, Result, ok, err, if◌then◌else◌,
}
use aeloon_runtime.Wire.{Value}
use aeloon_runtime.Gateway.Events.{
  RuntimeEvent, PublicEvent, EventLog, PublishError, new_log, append_bounded, invalid_event,
  public_event, publish, SubscribeParams, subscribe, wants, keep_if, first_seq,
}

-- The numbers of the events ascend, from above `lo` to `hi` at most.
Ascending : ℕ → List PublicEvent → ℕ → Type 0
Ascending lo [] hi = lo ≤ hi
Ascending lo (e ∷ es) hi = (lo < e.seq) × Ascending e.seq es hi

Ascending-append :
    (lo : ℕ) (es : List PublicEvent) (hi : ℕ) (e : PublicEvent)
    → Ascending lo es hi
    → hi < e.seq
    → Ascending lo (es ++ e ∷ []) e.seq
unfolding Ascending
Ascending-append lo [] hi e h lt = (omega arith, omega arith)
Ascending-append lo (x ∷ es) hi e h lt = (h.0, Ascending-append x.seq es hi e h.1 lt)

Ascending-weaken :
    (lo : ℕ) (es : List PublicEvent) (hi : ℕ) → Ascending lo es hi → Ascending lo es (hi + 1)
unfolding Ascending
Ascending-weaken lo [] hi h = omega arith
Ascending-weaken lo (x ∷ es) hi h = (h.0, Ascending-weaken x.seq es hi h.1)

Ascending-le : (lo : ℕ) (es : List PublicEvent) (hi : ℕ) → Ascending lo es hi → lo ≤ hi
unfolding Ascending
Ascending-le lo [] hi h = h
Ascending-le lo (x ∷ es) hi h = omega (arith, h.0, Ascending-le x.seq es hi h.1)

-- The events that are retained are the last ones of those that were published.
record Retains (log : EventLog) (published : List PublicEvent) : Type 0 where
  dropped : List PublicEvent
  split : published ≡ dropped ++ log.events
  ascends : Ascending 0 published log.current_seq

module _ (p : PublicEvent → Bool) where
  keep_if-append : (xs ys : List PublicEvent) → keep_if p (xs ++ ys) ≡ keep_if p xs ++ keep_if p ys
  keep_if-append [] ys = refl
  keep_if-append (x ∷ xs) ys = ground (arith, keep_if-append xs ys)

Ascending-lt :
    (lo hi : ℕ) (es rest : List PublicEvent) (e : PublicEvent)
    → Ascending lo (es ++ e ∷ rest) hi
    → lo < e.seq
unfolding Ascending
Ascending-lt lo hi [] rest e h = h.0
Ascending-lt lo hi (x ∷ es) rest e h = omega (arith, h.0, Ascending-lt x.seq hi es rest e h.1)

-- Nothing in front of an event that was seen is new.
older :
    (p : PublicEvent → Bool) (lo after hi : ℕ) (es rest : List PublicEvent)
    → Ascending lo (es ++ rest) hi
    → (elim rest [ [] ↦ hi | e ∷ _ ↦ e.seq - 1 ]) ≤ after
    → keep_if (λ e. ltb after e.seq && p e) es ≡ []
unfolding Ascending
older p lo after hi [] rest h le = refl
older p lo after hi (x ∷ es) [] h le =
    ground (arith, older p x.seq after hi es [] h.1, Ascending-le x.seq (es ++ []) hi h.1)
older p lo after hi (x ∷ es) (e ∷ rest) h le =
    ground (arith, older p x.seq after hi es (e ∷ rest) h.1, Ascending-lt x.seq hi es rest e h.1)

Retains-append :
    (log : EventLog) (published : List PublicEvent) (e : PublicEvent)
    → e.seq ≡ log.current_seq + 1
    → Retains log published
    → Retains
        (record log {
          current_seq = log.current_seq + 1;
          events = append_bounded log.event_limit log.events e;
        })
        (published ++ e ∷ [])
unfolding append_bounded
Retains-append log published e numbered r =
    let cut = length log.events + 1 - log.event_limit in
    let all_of_them = log.events ++ e ∷ [] in
    record {
      dropped = r.dropped ++ take cut all_of_them;
      split =
          ap (λ es. es ++ e ∷ []) r.split
          ∙ append_assoc r.dropped log.events (e ∷ [])
          ∙ ap (λ es. r.dropped ++ es) (sym (take-append-drop cut all_of_them))
          ∙ sym (append_assoc r.dropped (take cut all_of_them) (drop cut all_of_them));
      ascends =
          subst (λ n. Ascending 0 (published ++ e ∷ []) n) numbered
            (Ascending-append 0 published log.current_seq e r.ascends (omega arith));
    }

Retains-skip :
    (log : EventLog) (published : List PublicEvent)
    → Retains log published
    → Retains (record log { current_seq = log.current_seq + 1 }) published
Retains-skip log published r = record {
  dropped = r.dropped;
  split = r.split;
  ascends = Ascending-weaken 0 published log.current_seq r.ascends;
}

Retains-start : (instance_id : String) (limit : ℕ) → Retains (new_log instance_id limit) []
unfolding Ascending
Retains-start instance_id limit = record { dropped = []; split = refl; ascends = omega arith }

replayed_from :
    (p : PublicEvent → Bool) (after hi : ℕ) (dropped es : List PublicEvent)
    → Ascending 0 (dropped ++ es) hi
    → (elim es [ [] ↦ hi + 1 | e ∷ _ ↦ e.seq ]) - 1 ≤ after
    → keep_if (λ e. ltb after e.seq && p e) es
      ≡ keep_if (λ e. ltb after e.seq && p e) (dropped ++ es)
replayed_from p after hi dropped [] h le = sym (
    ap (keep_if (λ e. ltb after e.seq && p e)) (append-nil dropped)
    ∙ older p 0 after hi dropped [] h (omega arith))
replayed_from p after hi dropped (e ∷ es) h le = sym (
    keep_if-append _ dropped (e ∷ es)
    ∙ ap (λ xs. xs ++ keep_if (λ e. ltb after e.seq && p e) (e ∷ es))
        (older p 0 after hi dropped (e ∷ es) h le))

-- What is replayed of the retained events is what is new of all of them.
replayed_all :
    (log : EventLog) (published : List PublicEvent) (after : ℕ) (p : PublicEvent → Bool)
    → Retains log published
    → first_seq log - 1 ≤ after
    → keep_if (λ e. ltb after e.seq && p e) log.events
      ≡ keep_if (λ e. ltb after e.seq && p e) published
unfolding first_seq
replayed_all log published after p r le =
    replayed_from p after log.current_seq r.dropped log.events
      (subst (λ es. Ascending 0 es log.current_seq) r.split r.ascends) le
    ∙ ap (keep_if (λ e. ltb after e.seq && p e)) (sym r.split)

replayed :
    (log : EventLog) (published : List PublicEvent) (params : SubscribeParams)
    → Retains log published
    → (subscribe log params).events ≡ (
        if (subscribe log params).replay_complete
        then keep_if (λ e. ltb params.after_seq e.seq && wants params.thread_ids e) published
        else [])
unfolding subscribe
replayed log published params r =
    ground (arith, replayed_all log published params.after_seq (wants params.thread_ids) r)

-- What was published first, and what a server goes on to publish.
abbrev pub onward :
    EventLog × Result PublishError PublicEvent
    → (EventLog → EventLog × List PublicEvent)
    → EventLog × List PublicEvent
onward (log, ok e) rest = ((rest log).0, e ∷ (rest log).1)
onward (log, err _) rest = rest log

module _ (snake_key : String → String) (valid : String → Value → Bool) where
  -- A server from its start: its log, and all events that it published.
  unfoldable pub play : EventLog → List RuntimeEvent → EventLog × List PublicEvent
  play log [] = (log, [])
  play log (raw ∷ raws) = onward (publish snake_key valid log raw) (λ log'. play log' raws)

  -- An event is published and retained, or refused.
  pub publish-cases :
      (log : EventLog) (raw : RuntimeEvent)
      → let e = public_event snake_key raw (log.current_seq + 1) in
        ((valid e.name e.payload ≡ true)
          × (publish snake_key valid log raw ≡ (
            record log {
              current_seq = log.current_seq + 1;
              events = append_bounded log.event_limit log.events e;
            },
            ok e,
          )))
        ⊎ ((valid e.name e.payload ≡ false)
            × (publish snake_key valid log raw
                ≡ (record log { current_seq = log.current_seq + 1 }, err invalid_event)))
  unfolding publish
  publish-cases log raw =
      let e = public_event snake_key raw (log.current_seq + 1) in
      elim (Bool-cases (valid e.name e.payload)) [ inl v ↦ inl (v, rw v) | inr v ↦ inr (v, rw v) ]

  play-Retains :
      (raws : List RuntimeEvent) (log : EventLog) (published : List PublicEvent)
      → Retains log published
      → Retains (play log raws).0 (published ++ (play log raws).1)
  unfolding play public_event
  play-Retains [] log published r = subst (Retains log) (sym (append-nil published)) r
  play-Retains (raw ∷ raws) log published r =
      let e = public_event snake_key raw (log.current_seq + 1) in
      elim (publish-cases log raw) [
        | inl (v, kept) ↦
            subst
              (λ p.
                Retains (onward p (λ l. play l raws)).0
                  (published ++ (onward p (λ l. play l raws)).1))
              (sym kept)
              (subst (Retains _) (append_assoc published (e ∷ []) _)
                (play-Retains raws _ (published ++ e ∷ []) (Retains-append log published e refl r)))
        | inr (v, refused) ↦
            subst
              (λ p.
                Retains (onward p (λ l. play l raws)).0
                  (published ++ (onward p (λ l. play l raws)).1))
              (sym refused) (play-Retains raws _ published (Retains-skip log published r))
      ]

  -- A client that is told that its replay is complete is sent, in order, exactly the events of its
  -- threads that the server published behind the number that it names, and whatever it is told, it
  -- is sent nothing else.
  pub replay-exact :
      (instance_id : String) (limit : ℕ) (raws : List RuntimeEvent) (params : SubscribeParams)
      → let (log, published) = play (new_log instance_id limit) raws in
        (subscribe log params).events ≡ (
          if (subscribe log params).replay_complete
          then keep_if (λ e. ltb params.after_seq e.seq && wants params.thread_ids e) published
          else [])
  unfolding subscribe
  replay-exact instance_id limit raws params =
      let (log, published) = play (new_log instance_id limit) raws in
      replayed log published params
        (play-Retains raws (new_log instance_id limit) [] (Retains-start instance_id limit))
