-- ===== src/Pairing/Enrollment/Once.antt =====
-- The use of an enrollment code and its expiry.
use aeloon_runtime.Prelude.{
  ℕ, ◌+◌, ◌<◌, ◌≤◌, ◌⊎◌, ◌≡◌, refl, true, false, none, List, [], ◌∷◌, leb, arith, if◌then◌else◌,
}
use aeloon_runtime.Pairing.Enrollment.{
  EnrollmentVault, normalize_enrollment_code, translate, upper, same_text, issue, consume,
  generate_enrollment_code, peek,
}

pub same_text_iff : (as' bs : List ℕ) → same_text as' bs ≡ true → as' ≡ bs
unfolding same_text
same_text_iff [] [] h = refl
same_text_iff [] (b ∷ bs) h = cc
same_text_iff (a ∷ as') [] h = cc
same_text_iff (a ∷ as') (b ∷ bs) h = ground (arith, same_text_iff as' bs)

same_text_refl : (as' : List ℕ) → same_text as' as' ≡ true
unfolding same_text
same_text_refl [] = refl
same_text_refl (a ∷ as') = ground (arith, same_text_refl as')

-- After a code was accepted, no offer is, at any time until a new code is issued, and there is no
-- code to show.
consumed_once :
    (v : EnrollmentVault) (offered again : List ℕ) (now later : ℕ)
    → (consume v offered now).1 ≡ true
    → ((consume (consume v offered now).0 again later).1 ≡ false)
      × (peek (consume v offered now).0 later ≡ none)
unfolding consume peek
consumed_once v offered again now later h = ground arith

-- A refused offer before the expiry leaves the vault as it was, so the code is still good.
pub refused_keeps :
    (v : EnrollmentVault) (offered : List ℕ) (now : ℕ)
    → now < v.expires_at
    → (consume v offered now).1 ≡ false
    → (consume v offered now).0 ≡ v
unfolding consume
refused_keeps v offered now lt h = ground arith

-- How someone may write a code: with hyphens and spaces anywhere, small letters for capital ones,
-- and I or L for 1 and O for 0, of either case.
pub data Spelling : List ℕ → List ℕ → Type 0 where
  finished : Spelling [] []
  hyphen : {code text : List ℕ} → Spelling code text → Spelling code (b'-' ∷ text)
  space : {code text : List ℕ} → Spelling code text → Spelling code (b' ' ∷ text)
  same : {code text : List ℕ} (c : ℕ) → Spelling code text → Spelling (c ∷ code) (c ∷ text)
  small :
      {code text : List ℕ} (c : ℕ)
      → b'A' ≤ c
      → c ≤ b'Z'
      → Spelling code text
      → Spelling (c ∷ code) ((c + 32) ∷ text)
  one :
      {code text : List ℕ} (c : ℕ)
      → (c ≡ b'I') ⊎ (c ≡ b'L') ⊎ (c ≡ b'i') ⊎ (c ≡ b'l')
      → Spelling code text
      → Spelling (b'1' ∷ code) (c ∷ text)
  nought :
      {code text : List ℕ} (c : ℕ)
      → (c ≡ b'O') ⊎ (c ≡ b'o')
      → Spelling code text
      → Spelling (b'0' ∷ code) (c ∷ text)

normalize-Spelling :
    {code text : List ℕ}
    → Spelling code text
    → normalize_enrollment_code text ≡ normalize_enrollment_code code
unfolding normalize_enrollment_code translate upper
normalize-Spelling finished = refl
normalize-Spelling (hyphen s) = normalize-Spelling s
normalize-Spelling (space s) = normalize-Spelling s
normalize-Spelling (same c s) = ground (arith, normalize-Spelling s)
normalize-Spelling (small c low high s) = ground (arith, normalize-Spelling s)
normalize-Spelling (one c look s) = ground (arith, normalize-Spelling s)
normalize-Spelling (nought c look s) = ground (arith, normalize-Spelling s)

-- Every spelling of an issued code is accepted before the lifetime of the code is over, and refused
-- from then on.
pub issued_accepted :
    (v : EnrollmentVault) (bits now later : ℕ) (offered : List ℕ)
    → Spelling (generate_enrollment_code bits) offered
    → (consume (issue v bits now).0 offered later).1
      ≡ (if leb (now + v.ttl) later then false else true)
unfolding issue consume
issued_accepted v bits now later offered spelt =
    ground (arith, normalize-Spelling spelt, same_text_refl (normalize_enrollment_code offered))
