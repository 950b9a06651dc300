-- ===== src/Pairing/Limiter/Backoff.antt =====
-- Delays of `AuthLimiter` of pairing.py over a run of failures from one source.
use aeloon_runtime.Prelude.{
  ℕ, ◌+◌, ◌-◌, ◌*◌, ◌^◌, ◌≤◌, ◌<◌, ◌≡◌, refl, ap, ◌∙◌, min, String, true, false, none, List, [],
  ◌∷◌, length, leb, lookup, lookup-without, ok, err, str_eq, eq_refl, arith,
}
use aeloon_runtime.Pairing.Limiter.{
  AuthLimiter, get_or_zero, delay_for, overflow, record_failure, record_success,
}

-- The limiter after failures of `source` at these times.
pub failed : AuthLimiter → String → List ℕ → AuthLimiter
failed l source [] = l
failed l source (t ∷ ts) = failed (record_failure l source t).0 source ts

counted :
    (l : AuthLimiter) (source : String) (now : ℕ)
    → get_or_zero (record_failure l source now).0.failures source
      ≡ get_or_zero l.failures source + 1
unfolding record_failure
counted l source now = ground (arith, eq_refl source)

limits :
    (l : AuthLimiter) (source : String) (now : ℕ)
    → ((record_failure l source now).0.initial ≡ l.initial)
      × ((record_failure l source now).0.maximum ≡ l.maximum)
unfolding record_failure
limits l source now = (ground arith, ground arith)

failed-count :
    (ts : List ℕ) (l : AuthLimiter) (source : String)
    → get_or_zero (failed l source ts).failures source ≡ get_or_zero l.failures source + length ts
unfolding failed
failed-count [] l source = omega arith
failed-count (t ∷ ts) l source =
    let h = failed-count ts (record_failure l source t).0 source in
    let c = counted l source t in omega arith

failed-limits :
    (ts : List ℕ) (l : AuthLimiter) (source : String)
    → ((failed l source ts).initial ≡ l.initial) × ((failed l source ts).maximum ≡ l.maximum)
unfolding failed
failed-limits [] l source = (refl, refl)
failed-limits (t ∷ ts) l source =
    let h = failed-limits ts (record_failure l source t).0 source in
    let c = limits l source t in (h.0 ∙ c.0, h.1 ∙ c.1)

-- One failure after `n` before it, where the power is in the floats' range.
granted :
    (l : AuthLimiter) (source : String) (now n : ℕ)
    → get_or_zero l.failures source + 1 - 1 ≡ n
    → leb 1024 n ≡ false
    → record_failure l source now ≡ (
      record l {
        failures = (source, get_or_zero l.failures source + 1) ∷ l.failures;
        blocked_until = (source, now + min l.maximum (l.initial * 2 ^ n)) ∷ l.blocked_until;
      },
      ok (min l.maximum (l.initial * 2 ^ n)),
    )
unfolding record_failure
granted l source now n e h = rw (e, h) refl

refused :
    (l : AuthLimiter) (source : String) (now n : ℕ)
    → get_or_zero l.failures source + 1 - 1 ≡ n
    → leb 1024 n ≡ true
    → record_failure l source now ≡ (
      record l { failures = (source, get_or_zero l.failures source + 1) ∷ l.failures },
      err overflow,
    )
unfolding record_failure
refused l source now n e h = rw (e, h) refl

count_of :
    (l : AuthLimiter) (source : String) (ts : List ℕ)
    → lookup l.failures source ≡ none
    → get_or_zero (failed l source ts).failures source + 1 - 1 ≡ length ts
count_of l source ts fresh =
    let c = failed-count ts l source in
    let z : get_or_zero l.failures source ≡ 0 = rw (fresh, get_or_zero) refl in omega arith

get_or_zero_self :
    (d : List (String × ℕ)) (source : String) (t : ℕ) → get_or_zero ((source, t) ∷ d) source ≡ t
get_or_zero_self d source t = rw (eq_refl source, get_or_zero) refl

elsewhere :
    (l : AuthLimiter) (source other : String) (now : ℕ)
    → str_eq source other ≡ false
    → get_or_zero (record_failure l source now).0.blocked_until other
      ≡ get_or_zero l.blocked_until other
unfolding record_failure
elsewhere l source other now h = ground arith

small : (n : ℕ) → n < 1024 → leb 1024 n ≡ false
small n h = ground arith

large : (n : ℕ) → 1024 ≤ n → leb 1024 n ≡ true
large n h = ground arith

-- From a source with no failures on record, a failure that follows `ts` earlier ones, fewer than
-- 1024, returns the initial delay doubled for each earlier failure and cut at the maximum, and
-- `delay_for` gives what is left of that delay at any time from then on.
pub delays_double :
    (l : AuthLimiter) (source : String) (ts : List ℕ) (now waited : ℕ)
    → lookup l.failures source ≡ none
    → length ts < 1024
    → let l' = failed l source ts in
      let delay = min l.maximum (l.initial * 2 ^ length ts) in
      ((record_failure l' source now).1 ≡ ok delay)
      × (delay_for (record_failure l' source now).0 source (now + waited) ≡ delay - waited)
unfolding delay_for
delays_double l source ts now waited fresh few =
    let l' = failed l source ts in
    let (initial, maximum) = failed-limits ts l source in
    let g =
      granted l' source now (length ts) (count_of l source ts fresh) (small (length ts) few) in
    let delay = min l.maximum (l.initial * 2 ^ length ts) in
    let until : get_or_zero (record_failure l' source now).0.blocked_until source ≡ now + delay =
      rw (g, initial, maximum) (get_or_zero_self l'.blocked_until source (now + delay)) in
    (rw (g, initial, maximum) refl, rw (until, delay_for) (omega arith))

-- From a source with no failures on record, the failure that follows 1024 or more raises, and
-- leaves the delays as they were.
pub delays_overflow :
    (l : AuthLimiter) (source : String) (ts : List ℕ) (now : ℕ)
    → lookup l.failures source ≡ none
    → 1024 ≤ length ts
    → let l' = failed l source ts in
      ((record_failure l' source now).1 ≡ err overflow)
      × ((record_failure l' source now).0.blocked_until ≡ l'.blocked_until)
delays_overflow l source ts now fresh many =
    let g =
      refused (failed l source ts) source now (length ts) (count_of l source ts fresh)
        (large (length ts) many) in
    (ap (λ r. r.1) g, ap (λ r. r.0.blocked_until) g)

-- After a success the source is not delayed, and its next failure costs the initial delay; and
-- neither a success nor a failure changes the delay of another source.
pub success_resets :
    (l : AuthLimiter) (source other : String) (now : ℕ)
    → str_eq source other ≡ false
    → let l' = record_success l source in
      (delay_for l' source now ≡ 0)
      × ((record_failure l' source now).1 ≡ ok (min l.maximum l.initial))
      × (delay_for l' other now ≡ delay_for l other now)
      × (delay_for (record_failure l source now).0 other now ≡ delay_for l other now)
unfolding delay_for failed record_success
success_resets l source other now h =
    let gone = lookup-without l.blocked_until source source in
    let kept = lookup-without l.blocked_until source other in
    (
      ground (arith, gone, eq_refl source),
      (delays_double (record_success l source) source [] now 0
            (ground (arith, lookup-without l.failures source source, eq_refl source))
            (omega arith)).0
          ∙ ap (λ n. ok (min l.maximum n)) (omega arith),
      ground (arith, kept),
      ap (λ n. n - now) (elsewhere l source other now h),
    )
