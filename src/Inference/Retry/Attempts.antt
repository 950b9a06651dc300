-- ===== src/Inference/Retry/Attempts.antt =====
-- The attempts of a request: their number, their ids, and the waits between them.
use aeloon_runtime.Prelude.{
  ℕ, zero, suc, ◌+◌, ◌≤◌, ◌≡◌, refl, subst, ap, ◌∙◌, sym, String, Bool, true, false, List, [], ◌∷◌,
  ◌++◌, arith, Bool-cases, inl, inr, if◌then◌else◌, cons_eq,
}
use aeloon_runtime.Inference.Retry.{
  Model, StreamOptions, Attempt, InferenceEvent, retry_end, attempt_events, Answer, finished,
  retried, wait_aborted, request_from, max_retries, request, is_repeated, collected,
}
use aeloon_runtime.Inference.Retry.Published.{
  started, started-append, StartsOnce, attempt_starts, ids_from, WaitsWithin, WaitsWithin-append,
  attempt_waits, retry_delay_ms-le,
}

-- An answer whose attempts have `count` ids from `first` on.
record IsAnswer (bound first count : ℕ) (answer : Answer) : Type 0 where
  pub ids : started answer.events ≡ ids_from first count
  pub waits : WaitsWithin bound answer.events
  pub last : answer.last_attempt + 1 ≡ first + count
  pub next : answer.next_attempt_id ≡ first + count

-- The end of the retries starts nothing.
abbrev last_events : ℕ → Bool → List InferenceEvent
last_events attempt again = if again then retry_end attempt ∷ [] else []

last_starts : (attempt : ℕ) (again : Bool) → started (last_events attempt again) ≡ []
unfolding started
last_starts attempt true = refl
last_starts attempt false = refl

last_waits : (bound attempt : ℕ) (again : Bool) → WaitsWithin bound (last_events attempt again)
last_waits bound attempt true = refl
last_waits bound attempt false = refl

finished-IsAnswer :
    (model : Model) (bound : ℕ) (a : Attempt) (base attempt : ℕ) (again : Bool)
    → StartsOnce a.stream
    → IsAnswer bound (base + attempt) 1 (finished model a base attempt again)
unfolding finished started
finished-IsAnswer model bound a base attempt again o = record {
  ids =
      started-append (attempt_events model (base + attempt) a) _
      ∙ rw (attempt_starts model (base + attempt) a o, last_starts attempt again) refl;
  waits =
      WaitsWithin-append bound (attempt_events model (base + attempt) a) _
        (attempt_waits bound model (base + attempt) a) (last_waits bound attempt again);
  last = refl;
  next = refl;
}

retried-starts :
    (model : Model) (options : StreamOptions) (a : Attempt) (base attempt : ℕ)
    → StartsOnce a.stream
    → (started (retried model options a base attempt) ≡ (base + attempt) ∷ [])
      × WaitsWithin options.max_retry_delay_ms (retried model options a base attempt)
unfolding retried started
retried-starts model options a base attempt o = (
  started-append (attempt_events model (base + attempt) a) _
      ∙ rw (attempt_starts model (base + attempt) a o) refl,
  WaitsWithin-append options.max_retry_delay_ms (attempt_events model (base + attempt) a) _
      (attempt_waits options.max_retry_delay_ms model (base + attempt) a)
      (retry_delay_ms-le (collected a) attempt options, refl),
)

-- The ids of a request: at most one attempt more than the retries, and one for a cancelled wait.
record IsBounded (bound first left : ℕ) (answer : Answer) : Type 0 where
  pub count : ℕ
  pub few : count ≤ left + 2
  pub answers : IsAnswer bound first count answer

again-IsBounded :
    (model : Model) (options : StreamOptions) (a : Attempt) (base attempt left : ℕ) (rest : Answer)
    → StartsOnce a.stream
    → IsBounded options.max_retry_delay_ms (base + attempt + 1) left rest
    → IsBounded options.max_retry_delay_ms
        (base + attempt)
        (suc left)
        (record rest { events = retried model options a base attempt ++ rest.events })
again-IsBounded model options a base attempt left rest o later =
    let (starts, waits) = retried-starts model options a base attempt o in
    let before = retried model options a base attempt in
    record {
      count = suc later.count;
      few = omega (arith, later.few);
      answers = record {
        ids =
            started-append before rest.events
            ∙ rw starts
                (cons_eq refl (later.answers.ids ∙ ap (λ n. ids_from n later.count) (omega arith)));
        waits =
            WaitsWithin-append options.max_retry_delay_ms before rest.events waits
              later.answers.waits;
        last = omega (arith, later.answers.last);
        next = omega (arith, later.answers.next);
      };
    }

aborted-IsBounded :
    (model : Model) (bound : ℕ) (a : Attempt) (base attempt left : ℕ)
    → IsBounded bound (base + attempt + 1) left (wait_aborted model a base attempt)
unfolding wait_aborted started
aborted-IsBounded model bound a base attempt left = record {
  count = 1;
  few = omega arith;
  answers = record { ids = refl; waits = refl; last = omega arith; next = omega arith };
}

module _ (search : String → String → Bool) (model : Model) (options : StreamOptions) where
  request_goes_on :
      (attempts : ℕ → Attempt) (base left attempt : ℕ) (again : Bool)
      → is_repeated search model options (attempts attempt) ≡ true
      → (attempts attempt).wait_cancelled ≡ false
      → let rest = request_from search model options attempts base left (attempt + 1) true in
        request_from search model options attempts base (suc left) attempt again ≡ record rest {
          events = retried model options (attempts attempt) base attempt ++ rest.events;
        }
  unfolding request_from
  request_goes_on attempts base left attempt again go_on waited = ground (arith, go_on, waited)

  request_from-IsBounded :
      (attempts : ℕ → Attempt) (base left attempt : ℕ) (again : Bool)
      → ((n : ℕ) → StartsOnce (attempts n).stream)
      → IsBounded options.max_retry_delay_ms
          (base + attempt)
          left
          (request_from search model options attempts base left attempt again)
  unfolding request_from
  request_from-IsBounded attempts base zero attempt again o = record {
    count = 1;
    few = omega arith;
    answers =
        finished-IsAnswer model options.max_retry_delay_ms (attempts attempt) base attempt again
          (o attempt);
  }
  request_from-IsBounded attempts base (suc left) attempt again o =
      let a = attempts attempt in
      let bound = options.max_retry_delay_ms in
      elim (Bool-cases (is_repeated search model options a)) [
        | inr stop ↦
            rw (stop, request_from)
              (record {
                count = 1;
                few = omega arith;
                answers = finished-IsAnswer model bound a base attempt again (o attempt);
              })
        | inl go_on ↦ elim (Bool-cases a.wait_cancelled) [
          | inl aborted ↦
              rw (go_on, aborted, request_from)
                (again-IsBounded model options a base attempt left
                  (wait_aborted model a base attempt) (o attempt)
                  (aborted-IsBounded model bound a base attempt left))
          | inr waited ↦
              subst (IsBounded bound (base + attempt) (suc left))
                (sym (request_goes_on attempts base left attempt again go_on waited))
                (again-IsBounded model options a base attempt left
                  (request_from search model options attempts base left (attempt + 1) true)
                  (o attempt)
                  (subst
                    (λ n.
                      IsBounded bound n left
                        (request_from search model options attempts base left (attempt + 1) true))
                    (omega arith) (request_from-IsBounded attempts base left (attempt + 1) true o)))
        ]
      ]

  -- Where a provider starts each stream at most once, the attempts of a request are started in the
  -- order of their ids, one id after the other from the next free one, each once; there are at most
  -- two more than the retries allow, one of them for a cancelled wait. The last id is remembered,
  -- the next free one is behind it, and no wait that is announced passes the maximal delay.
  pub attempts_in_order :
      (attempts : ℕ → Attempt) (base : ℕ)
      → ((n : ℕ) → StartsOnce (attempts n).stream)
      → let answer = request search model options attempts base in
        (count : ℕ) × (count ≤ max_retries options + 2)
        × (started answer.events ≡ ids_from base count)
        × (answer.last_attempt + 1 ≡ base + count)
        × (answer.next_attempt_id ≡ base + count)
        × WaitsWithin options.max_retry_delay_ms answer.events
  unfolding request
  attempts_in_order attempts base o =
      let b = request_from-IsBounded attempts base (max_retries options) 0 false o in
      let a = b.answers in
      (
        b.count,
        b.few,
        a.ids ∙ ap (λ n. ids_from n b.count) (omega arith),
        omega (arith, a.last),
        omega (arith, a.next),
        a.waits,
      )
