-- ===== src/Control/Lifetime.antt =====
-- The life of a controller between runs: how a run ends, is cancelled and starts again.
use aeloon_runtime.Prelude.{ℕ, ◌≡◌, refl, String, true, false, List, [], ◌∷◌, ◌++◌, arith, ok}
use aeloon_runtime.Messages.{UserContent}
use aeloon_runtime.Control.{
  RunController, RunInputKind, QueueMode, Queues, abort, new_controller, enqueue, clear, cancel,
  bind, release, drain,
}

-- A controller that some calls have brought about.
pub data Reached : RunController → Type 0 where
  made :
      (steering_mode follow_up_mode : QueueMode)
      → Reached (new_controller steering_mode follow_up_mode)
  enqueued :
      {c c' : RunController} (kind : RunInputKind) (text : String) (images : List UserContent)
      (now : ℕ)
      → enqueue c kind text images now ≡ ok c'
      → Reached c
      → Reached c'
  cancelled :
      {c c' : RunController} {cleared : Queues}
      → cancel c ≡ ok (c', cleared)
      → Reached c
      → Reached c'
  cleared : {c : RunController} → Reached c → Reached (clear c).0
  bound : {c c' : RunController} → bind c ≡ ok c' → Reached c → Reached c'
  released : {c : RunController} → Reached c → Reached (release c)
  drained : {c : RunController} (kind : RunInputKind) → Reached c → Reached (drain c kind).0

-- Between runs the queues are empty and no abort is requested.
pub record IsClean (c : RunController) : Type 0 where
  pub steering_empty : c.active ≡ false → c.queues.steering ≡ []
  pub following_empty : c.active ≡ false → c.queues.following ≡ []
  pub no_abort : c.active ≡ false → c.abort_requested ≡ false

enqueue-active :
    (c c' : RunController) (kind : RunInputKind) (text : String) (images : List UserContent)
    (now : ℕ)
    → enqueue c kind text images now ≡ ok c'
    → c'.active ≡ true
unfolding enqueue
enqueue-active c c' kind text images now h = ground arith

cancel-active : (c c' : RunController) (q : Queues) → cancel c ≡ ok (c', q) → c'.active ≡ true
unfolding cancel
cancel-active c c' q h = ground arith

bind-active : (c c' : RunController) → bind c ≡ ok c' → c'.active ≡ true
unfolding bind
bind-active c c' h = ground arith

active-IsClean : (c : RunController) → c.active ≡ true → IsClean c
active-IsClean c h = record {
  steering_empty = λ e. absurd (ground arith);
  following_empty = λ e. absurd (ground arith);
  no_abort = λ e. absurd (ground arith);
}

new-IsClean : (a b : QueueMode) → IsClean (new_controller a b)
unfolding new_controller
new-IsClean a b = record {
  steering_empty = λ e. refl;
  following_empty = λ e. refl;
  no_abort = λ e. refl;
}

clear-IsClean : (c : RunController) → IsClean c → IsClean (clear c).0
unfolding clear
clear-IsClean c h = record {
  steering_empty = λ e. refl;
  following_empty = λ e. refl;
  no_abort = h.no_abort;
}

release-IsClean : (c : RunController) → IsClean (release c)
unfolding release
release-IsClean c = record {
  steering_empty = λ e. refl;
  following_empty = λ e. refl;
  no_abort = λ e. refl;
}

drain-IsClean : (c : RunController) (kind : RunInputKind) → IsClean c → IsClean (drain c kind).0
unfolding drain
drain-IsClean c kind h = record {
  steering_empty = λ e. ground (arith, h.steering_empty, h.following_empty);
  following_empty = λ e. ground (arith, h.steering_empty, h.following_empty);
  no_abort = λ e. ground (arith, h.no_abort, h.steering_empty, h.following_empty);
}

Reached-IsClean : {c : RunController} → Reached c → IsClean c
Reached-IsClean (made a b) = new-IsClean a b
Reached-IsClean (enqueued {c = c} {c' = c'} kind text images now h r) =
    active-IsClean c' (enqueue-active c c' kind text images now h)
Reached-IsClean (cancelled {c = c} {c' = c'} {cleared = q} h r) =
    active-IsClean c' (cancel-active c c' q h)
Reached-IsClean (cleared {c = c} r) = clear-IsClean c (Reached-IsClean r)
Reached-IsClean (bound {c = c} {c' = c'} h r) = active-IsClean c' (bind-active c c' h)
Reached-IsClean (released {c = c} r) = release-IsClean c
Reached-IsClean (drained {c = c} kind r) = drain-IsClean c kind (Reached-IsClean r)

-- Binding a controller that calls have brought about, where it succeeds, gives one that is active,
-- whose queues are empty and that has no abort pending: nothing is left over from an earlier run.
pub bind_starts_clean :
    (c c' : RunController)
    → Reached c
    → bind c ≡ ok c'
    → (c'.queues.steering ≡ [])
      × (c'.queues.following ≡ [])
      × (c'.abort_requested ≡ false)
      × (c'.active ≡ true)
unfolding bind
bind_starts_clean c c' r h =
    let clean : IsClean c = Reached-IsClean r in
    ground (arith, clean.steering_empty, clean.following_empty)

-- A cancel that is accepted hands back exactly what was queued, requests the abort and publishes it
-- with what was queued; a drain of either kind then delivers nothing and changes nothing.
cancel_empties :
    (c c' : RunController) (handed_back : Queues) (kind : RunInputKind)
    → cancel c ≡ ok (c', handed_back)
    → (handed_back ≡ c.queues)
      × (c'.abort_requested ≡ true)
      × (drain c' kind ≡ (c', []))
      × (c'.emitted ≡ c.emitted ++ abort c.queues ∷ [])
unfolding cancel drain
cancel_empties c c' handed_back kind h = ground arith
