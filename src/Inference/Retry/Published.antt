-- ===== src/Inference/Retry/Published.antt =====
-- What the events of an attempt start, and the waits that they announce.
use aeloon_runtime.Prelude.{
  ℕ, zero, suc, ◌≤◌, ◌≡◌, refl, ap, ◌∙◌, Bool, true, false, none, some, List, [], ◌∷◌, ◌++◌, Result,
  ok, err, arith, Bool-cases, inl, inr, cons_eq, append-nil,
}
use aeloon_runtime.Messages.{AssistantMessage}
use aeloon_runtime.Inference.Retry.{
  Model, StreamOptions, StreamEvent, start, delta, final, Attempt, InferenceEvent, message_start,
  message_update, message_retried, retry_start, retry_end, stream_events, has_start, attempt_events,
  retry_delay_ms, attempt_message, collected, StreamFailure, cancelled, inference_error,
  other_error,
}

-- The ids of the attempts whose message was published as started.
unfoldable pub started : List InferenceEvent → List ℕ
started [] = []
started (message_start m attempt ∷ rest) = attempt ∷ started rest
started (_ ∷ rest) = started rest

pub started-append : (xs ys : List InferenceEvent) → started (xs ++ ys) ≡ started xs ++ started ys
unfolding started
started-append [] ys = refl
started-append (message_start m n ∷ xs) ys = cons_eq refl (started-append xs ys)
started-append (message_update n ∷ xs) ys = started-append xs ys
started-append (message_retried m n ∷ xs) ys = started-append xs ys
started-append (retry_start n d ∷ xs) ys = started-append xs ys
started-append (retry_end n ∷ xs) ys = started-append xs ys

-- A provider starts a stream at most once.
abbrev pub StartsOnce : List StreamEvent → Type 0
StartsOnce [] = ◌≡◌ {A = Bool} true true
StartsOnce (start ∷ rest) = has_start rest ≡ false
StartsOnce (_ ∷ rest) = StartsOnce rest

no_start :
    (model : Model) (now id : ℕ) (es : List StreamEvent)
    → has_start es ≡ false
    → started (stream_events model now id es) ≡ []
unfolding stream_events has_start started
no_start model now id [] h = refl
no_start model now id (start ∷ rest) h = cc
no_start model now id (delta ∷ rest) h = no_start model now id rest h
no_start model now id (final m ∷ rest) h = no_start model now id rest h

one_start :
    (model : Model) (now id : ℕ) (es : List StreamEvent)
    → StartsOnce es
    → has_start es ≡ true
    → started (stream_events model now id es) ≡ id ∷ []
unfolding stream_events has_start started
one_start model now id [] o h = cc
one_start model now id (start ∷ rest) o h = cons_eq refl (no_start model now id rest o)
one_start model now id (delta ∷ rest) o h = one_start model now id rest o h
one_start model now id (final m ∷ rest) o h = one_start model now id rest o h

pub first_nil : (xs ys : List ℕ) → xs ≡ [] → xs ++ ys ≡ ys
first_nil xs ys h = rw h refl

pub attempt_starts :
    (model : Model) (id : ℕ) (a : Attempt)
    → StartsOnce a.stream
    → started (attempt_events model id a) ≡ id ∷ []
unfolding attempt_events started
attempt_starts model id a o = elim (Bool-cases (has_start a.stream)) [
  | inl there ↦ rw there (
      ap started (append-nil (stream_events model a.now id a.stream))
      ∙ one_start model a.now id a.stream o there)
  | inr missing ↦
      let m = attempt_message model a.now (collected a) in
      rw missing (
        started-append (stream_events model a.now id a.stream) (message_start m id ∷ [])
        ∙ first_nil (started (stream_events model a.now id a.stream)) (id ∷ [])
            (no_start model a.now id a.stream missing))
]

-- `count` ids from `first` on.
abbrev pub ids_from : ℕ → ℕ → List ℕ
ids_from first zero = []
ids_from first (suc count) = first ∷ ids_from (suc first) count

-- No wait is announced that is longer than the bound.
abbrev pub WaitsWithin : ℕ → List InferenceEvent → Type 0
WaitsWithin bound [] = ◌≡◌ {A = Bool} true true
WaitsWithin bound (retry_start attempt delay_ms ∷ rest) =
    (delay_ms ≤ bound) × WaitsWithin bound rest
WaitsWithin bound (_ ∷ rest) = WaitsWithin bound rest

pub WaitsWithin-append :
    (bound : ℕ) (xs ys : List InferenceEvent)
    → WaitsWithin bound xs
    → WaitsWithin bound ys
    → WaitsWithin bound (xs ++ ys)
WaitsWithin-append bound [] ys h k = k
WaitsWithin-append bound (message_start m n ∷ xs) ys h k = WaitsWithin-append bound xs ys h k
WaitsWithin-append bound (message_update n ∷ xs) ys h k = WaitsWithin-append bound xs ys h k
WaitsWithin-append bound (message_retried m n ∷ xs) ys h k = WaitsWithin-append bound xs ys h k
WaitsWithin-append bound (retry_start n d ∷ xs) ys h k = (h.0, WaitsWithin-append bound xs ys h.1 k)
WaitsWithin-append bound (retry_end n ∷ xs) ys h k = WaitsWithin-append bound xs ys h k

stream_waits :
    (bound : ℕ) (model : Model) (now id : ℕ) (es : List StreamEvent)
    → WaitsWithin bound (stream_events model now id es)
unfolding stream_events
stream_waits bound model now id [] = refl
stream_waits bound model now id (start ∷ rest) = stream_waits bound model now id rest
stream_waits bound model now id (delta ∷ rest) = stream_waits bound model now id rest
stream_waits bound model now id (final m ∷ rest) = stream_waits bound model now id rest

pub attempt_waits :
    (bound : ℕ) (model : Model) (id : ℕ) (a : Attempt)
    → WaitsWithin bound (attempt_events model id a)
unfolding attempt_events
attempt_waits bound model id a = elim (Bool-cases (has_start a.stream)) [
  | inl there ↦ rw there (
      WaitsWithin-append bound (stream_events model a.now id a.stream) []
        (stream_waits bound model a.now id a.stream) refl)
  | inr missing ↦ rw missing (
      WaitsWithin-append bound (stream_events model a.now id a.stream)
        (message_start (attempt_message model a.now (collected a)) id ∷ [])
        (stream_waits bound model a.now id a.stream) refl)
]

pub retry_delay_ms-le :
    (result : Result StreamFailure AssistantMessage) (attempt : ℕ) (options : StreamOptions)
    → retry_delay_ms result attempt options ≤ options.max_retry_delay_ms
unfolding retry_delay_ms
retry_delay_ms-le (ok m) attempt options = omega arith
retry_delay_ms-le (err (inference_error t r (some after))) attempt options = omega arith
retry_delay_ms-le (err (inference_error t r none)) attempt options = omega arith
retry_delay_ms-le (err cancelled) attempt options = omega arith
retry_delay_ms-le (err (other_error t)) attempt options = omega arith
