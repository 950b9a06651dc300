-- ===== src/Pairing/Limiter.antt =====
-- `AuthLimiter` of pairing.py, with times in milliseconds.
pub mod Backoff
use aeloon_runtime.Prelude.{
  ℕ, ◌+◌, ◌-◌, ◌*◌, ◌^◌, min, String, Bool, true, false, Option, none, some, List, [], ◌∷◌, leb,
  lookup, without, Result, ok, err, if◌then◌else◌,
}

pub record AuthLimiter : Type 0 where
  pub initial : ℕ
  pub maximum : ℕ
  pub failures : List (String × ℕ)
  pub blocked_until : List (String × ℕ)

-- `AuthLimiter()`
abbrev pub new_limiter : AuthLimiter
new_limiter = record { initial = 1000; maximum = 30000; failures = []; blocked_until = [] }

-- `d.get(source, 0)`
abbrev pub get_or_zero : List (String × ℕ) → String → ℕ
get_or_zero d source = elim (lookup d source) [ none ↦ 0 | some n ↦ n ]

unfoldable pub delay_for : AuthLimiter → String → ℕ → ℕ
delay_for l source now = get_or_zero l.blocked_until source - now

pub data LimiterError : Type 0 where
  overflow : LimiterError

-- `2 ** (count - 1)` is an int, and multiplying a float by one of 2 ** 1024 or more raises
-- `OverflowError`, after the failure has been counted.
unfoldable pub record_failure : AuthLimiter → String → ℕ → AuthLimiter × Result LimiterError ℕ
record_failure l source now =
    let count = get_or_zero l.failures source + 1 in
    let counted = record l { failures = (source, count) ∷ l.failures } in
    let delay = min l.maximum (l.initial * 2 ^ (count - 1)) in
    if leb 1024 (count - 1)
    then (counted, err overflow)
    else (record counted { blocked_until = (source, now + delay) ∷ l.blocked_until }, ok delay)

unfoldable pub record_success : AuthLimiter → String → AuthLimiter
record_success l source = record l {
  failures = without l.failures source;
  blocked_until = without l.blocked_until source;
}
