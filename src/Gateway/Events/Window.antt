-- ===== src/Gateway/Events/Window.antt =====
-- How far back a server can replay: the events of its last `event_limit` numbers.
use aeloon_runtime.Prelude.{
  ℕ, zero, suc, ◌+◌, ◌-◌, ◌≡◌, refl, sym, ap, subst, ◌∙◌, inl, inr, String, Bool, true, List, [],
  ◌∷◌, ◌++◌, ◌&&◌, drop, length, length-append, length-drop, leb, All, arith, min,
}
use aeloon_runtime.Wire.{Value}
use aeloon_runtime.Gateway.Events.{
  RuntimeEvent, PublicEvent, EventLog, new_log, append_bounded, public_event, SubscribeParams,
  subscribe, first_seq, same_instance,
}
use aeloon_runtime.Gateway.Events.Replay.{onward, play, publish-cases}

-- The numbers of the events are consecutive, from `s` on.
Consecutive : ℕ → List PublicEvent → Type 0
Consecutive s [] = Unit
Consecutive s (e ∷ es) = (e.seq ≡ s) × Consecutive (s + 1) es

Consecutive-append :
    (s : ℕ) (es : List PublicEvent) (e : PublicEvent)
    → Consecutive s es
    → e.seq ≡ s + length es
    → Consecutive s (es ++ e ∷ [])
unfolding Consecutive
Consecutive-append s [] e h q = (omega arith, tt)
Consecutive-append s (x ∷ es) e h q = (h.0, Consecutive-append (s + 1) es e h.1 (omega arith))

Consecutive-drop :
    (n s : ℕ) (es : List PublicEvent) → Consecutive s es → Consecutive (s + n) (drop n es)
unfolding Consecutive
Consecutive-drop zero s es h = subst (λ t. Consecutive t es) (omega arith) h
Consecutive-drop (suc n) s [] h = tt
Consecutive-drop (suc n) s (x ∷ es) h =
    subst (λ t. Consecutive t (drop n es)) (omega arith) (Consecutive-drop n (s + 1) es h.1)

-- The retained events are the last ones, without a gap.
record Window (log : EventLog) : Type 0 where
  run : Consecutive (log.current_seq + 1 - length log.events) log.events
  count : length log.events ≡ min log.current_seq log.event_limit

Window-append :
    (log : EventLog) (e : PublicEvent)
    → e.seq ≡ log.current_seq + 1
    → Window log
    → Window (record log {
      current_seq = log.current_seq + 1;
      events = append_bounded log.event_limit log.events e;
    })
unfolding append_bounded
Window-append log e numbered w =
    let cut = length log.events + 1 - log.event_limit in
    let longer = length-append log.events (e ∷ []) in
    let shorter = length-drop cut (log.events ++ e ∷ []) in
    record {
      run =
          subst (λ t. Consecutive t (drop cut (log.events ++ e ∷ []))) (omega (arith, w.count))
            (Consecutive-drop cut (log.current_seq + 1 - length log.events) (log.events ++ e ∷ []) (
              Consecutive-append (log.current_seq + 1 - length log.events) log.events e w.run
                (omega (arith, w.count))));
      count = omega (arith, w.count);
    }

first_of :
    (es : List PublicEvent) (s hi : ℕ)
    → Consecutive s es
    → hi + 1 ≡ s + length es
    → (elim es [ [] ↦ hi + 1 | e ∷ _ ↦ e.seq ]) ≡ s
unfolding Consecutive
first_of [] s hi h q = omega arith
first_of (e ∷ es) s hi h q = h.0

first_seq-Window :
    (log : EventLog)
    → Window log
    → first_seq log ≡ log.current_seq + 1 - min log.current_seq log.event_limit
unfolding first_seq
first_seq-Window log w =
    first_of log.events (log.current_seq + 1 - length log.events) log.current_seq w.run
      (omega (arith, w.count))
    ∙ omega (arith, w.count)

complete_within :
    (log : EventLog) (params : SubscribeParams)
    → Window log
    → leb (first_seq log - 1) params.after_seq
      ≡ leb log.current_seq (params.after_seq + log.event_limit)
complete_within log params w = ground (arith, first_seq-Window log w)

Window-start : (instance_id : String) (limit : ℕ) → Window (new_log instance_id limit)
unfolding Consecutive
Window-start instance_id limit = record { run = tt; count = omega arith }

module _ (snake_key : String → String) (valid : String → Value → Bool) where
  -- The event passes the schema of its name.
  abbrev pub Passes : RuntimeEvent → Type 0
  Passes raw =
      (seq : ℕ)
      → valid (public_event snake_key raw seq).name (public_event snake_key raw seq).payload ≡ true

  play-Window :
      (raws : List RuntimeEvent) (log : EventLog)
      → All Passes raws
      → Window log
      → Window (play snake_key valid log raws).0
        × ((play snake_key valid log raws).0.event_limit ≡ log.event_limit)
  unfolding play public_event
  play-Window [] log passes w = (w, refl)
  play-Window (raw ∷ raws) log passes w = elim (publish-cases snake_key valid log raw) [
    | inl (v, kept) ↦
        subst
          (λ p.
            Window (onward p (λ l. play snake_key valid l raws)).0
            × ((onward p (λ l. play snake_key valid l raws)).0.event_limit ≡ log.event_limit))
          (sym kept)
          (play-Window raws _ passes.1
            (Window-append log (public_event snake_key raw (log.current_seq + 1)) refl w))
    | inr (v, refused) ↦ absurd (cc (passes.0 (log.current_seq + 1), v))
  ]

  -- If every event passes its schema, a client of this server gets a complete replay exactly when
  -- the number that it names is at most `event_limit` behind the last one.
  pub replay_window :
      (instance_id : String) (limit : ℕ) (raws : List RuntimeEvent) (params : SubscribeParams)
      → All Passes raws
      → let log = (play snake_key valid (new_log instance_id limit) raws).0 in
        (subscribe log params).replay_complete
        ≡ (same_instance log params && leb log.current_seq (params.after_seq + limit))
  unfolding subscribe
  replay_window instance_id limit raws params passes =
      let log = (play snake_key valid (new_log instance_id limit) raws).0 in
      let (w, same_limit) =
        play-Window raws (new_log instance_id limit) passes (Window-start instance_id limit) in
      ap (λ b. same_instance log params && b)
        (complete_within log params w
          ∙ ap (λ l. leb log.current_seq (params.after_seq + l)) same_limit)
