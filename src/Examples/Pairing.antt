-- ===== src/Examples/Pairing.antt =====
-- A device that is paired and revoked, an enrollment code, and failed authentications.
use aeloon_runtime.Prelude.{
  inr, ℕ, zero, suc, ◌+◌, ◌-◌, ◌*◌, ◌^◌, ◌≡◌, ◌≢◌, refl, min, String, true, false, none, some, List,
  [], ◌∷◌, arith, str_eq, is_blank, ok, err, codes, leb, length, if◌then◌else◌,
}
use aeloon_runtime.Pairing.Devices.{
  Device, DeviceStore, no_fault, before_replace, after_replace, Draw, issue, verify, get, revoke,
  load, is_hex,
}
use aeloon_runtime.Pairing.Devices.Sync.{IsSound, fresh, issued, restart_keeps}
use aeloon_runtime.Pairing.Devices.Tokens.{issue-fails, revoke-revokes}
use aeloon_runtime.Pairing.Enrollment.{
  EnrollmentVault, generate_enrollment_code, issue as issue_code, consume,
}
use aeloon_runtime.Pairing.Enrollment.Once.{
  Spelling, finished, hyphen, space, same, small, nought, issued_accepted,
}
use aeloon_runtime.Pairing.Limiter.{new_limiter, delay_for, record_failure, overflow}
use aeloon_runtime.Pairing.Limiter.Backoff.{failed, delays_double, delays_overflow}

-- Every token has this digest.
abbrev digest : String → String
digest token = "0123456789abcdef0123456789abcdef0123456789abcdef0123456789abcdef"

abbrev draw : Draw
draw = record { id = "d1"; token = "secret"; now = 5 }

draw-IsSound : IsSound digest draw
unfolding is_blank is_hex
draw-IsSound = record { named = refl; digest_length = refl; digest_hex = refl }

abbrev empty : DeviceStore
empty = record { devices = []; saved = [] }

not_behind : no_fault ≢ after_replace
not_behind e = cc

abbrev paired : DeviceStore
paired = (issue digest no_fault empty " phone " "" draw).0

restart_keeps_example : load paired ≡ paired
restart_keeps_example =
    restart_keeps digest paired (issued no_fault " phone " "" draw not_behind draw-IsSound fresh)

issue-fails_example :
    ((issue digest before_replace paired "tablet" "" draw).0.devices ≡ paired.devices)
    × (verify digest (issue digest before_replace paired "tablet" "" draw).0 "secret"
        ≡ verify digest paired "secret")
unfolding issue
issue-fails_example = issue-fails digest paired before_replace "tablet" "" "secret" draw refl

abbrev device : String → Device
device name = record {
  id = name;
  name = name;
  platform = "unknown";
  token_sha256 = "0123456789abcdef0123456789abcdef0123456789abcdef0123456789abcdef";
  paired_at = 5;
  last_seen_at = 5;
}

abbrev two : DeviceStore
two = record { devices = device "d1" ∷ device "d2" ∷ []; saved = [] }

revoke-revokes_example :
    (str_eq "d2" "d1" ≡ false)
    × (get (revoke no_fault two "d1").0 "d2" ≡ (if str_eq "d1" "d2" then none else get two "d2"))
unfolding revoke verify
revoke-revokes_example =
    revoke-revokes digest two no_fault "d1" "secret" "d2" (device "d2") refl refl

abbrev vault : EnrollmentVault
vault = record { ttl = 600000; code = some (codes "A0B1C2D3E4"); expires_at = 1000 }

spelt : Spelling (generate_enrollment_code 17) (codes "0000-0ooo oh")
unfolding generate_enrollment_code
spelt = same b'0' (
    same b'0' (
      same b'0' (
        same b'0' (
          hyphen (
            same b'0' (
              nought b'o' (inr refl) (
                nought b'o' (inr refl) (
                  nought b'o' (inr refl) (
                    space (
                      nought b'o' (inr refl)
                        (small b'H' (omega arith) (omega arith) finished)))))))))))

issued_accepted_example :
    (consume (issue_code vault 17 1000).0 (codes "0000-0ooo oh") 2000).1
    ≡ (if leb (1000 + 600000) 2000 then false else true)
issued_accepted_example = issued_accepted vault 17 1000 2000 (codes "0000-0ooo oh") spelt

seven : generate_enrollment_code 7 ≡ codes "0000000007"
unfolding generate_enrollment_code
seven = refl

seven_not_eight : ◌≢◌ {A = ℕ} 7 8
seven_not_eight e = omega arith

abbrev two_times : List ℕ
two_times = 1 ∷ 2 ∷ []

-- The third failure in a row costs four seconds.
delays_double_example :
    ((record_failure (failed new_limiter "lan" two_times) "lan" 3).1
      ≡ ok (min 30000 (1000 * 2 ^ length two_times)))
    × (delay_for (record_failure (failed new_limiter "lan" two_times) "lan" 3).0 "lan" (3 + 500)
        ≡ min 30000 (1000 * 2 ^ length two_times) - 500)
delays_double_example = delays_double new_limiter "lan" two_times 3 500 refl (omega arith)

repeat : ℕ → List ℕ
repeat zero = []
repeat (suc n) = 1 ∷ repeat n

length-repeat : (n : ℕ) → length (repeat n) ≡ n
unfolding repeat
length-repeat zero = refl
length-repeat (suc n) = omega (arith, length-repeat n)

delays_overflow_example :
    ((record_failure (failed new_limiter "lan" (repeat 1024)) "lan" 3).1 ≡ err overflow)
    × ((record_failure (failed new_limiter "lan" (repeat 1024)) "lan" 3).0.blocked_until
        ≡ (failed new_limiter "lan" (repeat 1024)).blocked_until)
delays_overflow_example =
    delays_overflow new_limiter "lan" (repeat 1024) 3 refl (omega (arith, length-repeat 1024))
