-- ===== src/Pairing/Enrollment.antt =====
-- `EnrollmentVault` of pairing.py, and the codes it gives out. A text is its code points; times
-- are in milliseconds. Offered text is ASCII: `upper` is that of ASCII characters, and what the
-- source does on others (`compare_digest` may raise) is not modelled.
pub mod Codes
pub mod Once
use aeloon_runtime.Prelude.{
  ℕ, zero, suc, ◌+◌, ◌-◌, ◌/◌, ◌%◌, ◌^◌, Bool, true, false, Option, none, some, List, [], ◌∷◌, ◌++◌,
  ◌&&◌, ◌||◌, leb, ◌==◌, if◌then◌else◌, get_elem?, codes, String,
}
use mathlib.Core.List.{reverse}

abbrev pub crockford_alphabet : List ℕ
crockford_alphabet = codes "0123456789ABCDEFGHJKMNPQRSTVWXYZ"

abbrev pub code_length : ℕ
code_length = 10

-- `CROCKFORD_ALPHABET[n & 31]`
pub symbol : ℕ → ℕ
symbol n = elim (get_elem? crockford_alphabet (n % 32)) [ some c ↦ c | none ↦ 0 ]

-- The loop: the last five bits of `n` first.
low_symbols : ℕ → ℕ → List ℕ
unfolding symbol
low_symbols zero n = []
low_symbols (suc k) n = symbol n ∷ low_symbols k (n / 32)

-- `generate_enrollment_code` from its random bits
unfoldable pub generate_enrollment_code : ℕ → List ℕ
unfolding low_symbols
generate_enrollment_code n = reverse (low_symbols code_length n)

-- `translate(_CROCKFORD_NORMALIZE)`
translate : ℕ → ℕ
translate c =
    if c == b'I' || c == b'L' || c == b'i' || c == b'l'
    then b'1'
    else if c == b'O' || c == b'o'
    then b'0'
    else c

upper : ℕ → ℕ
upper c = if leb b'a' c && leb c b'z' then c - 32 else c

-- `value.replace("-", "").replace(" ", "").translate(...).upper()`
unfoldable pub normalize_enrollment_code : List ℕ → List ℕ
unfolding translate upper
normalize_enrollment_code [] = []
normalize_enrollment_code (c ∷ cs) =
    let rest = normalize_enrollment_code cs in
    if c == b'-' || c == b' ' then rest else upper (translate c) ∷ rest

pub record EnrollmentVault : Type 0 where
  pub ttl : ℕ
  pub code : Option (List ℕ)
  pub expires_at : ℕ

-- Equality of texts: `secrets.compare_digest`.
pub same_text : List ℕ → List ℕ → Bool
same_text [] [] = true
same_text (a ∷ as') (b ∷ bs) = a == b && same_text as' bs
same_text _ _ = false

-- `issue`, from random bits at a time
unfoldable pub issue : EnrollmentVault → ℕ → ℕ → EnrollmentVault × List ℕ
issue v bits now =
    let code = generate_enrollment_code bits in
    (record v { code = some code; expires_at = now + v.ttl }, code)

unfoldable pub consume : EnrollmentVault → List ℕ → ℕ → EnrollmentVault × Bool
unfolding same_text
consume v offered now = elim v.code [
  | none ↦ (v, false)
  | some current ↦
      if leb v.expires_at now
      then (record v { code = none }, false)
      else if same_text (normalize_enrollment_code current) (normalize_enrollment_code offered)
      then (record v { code = none; expires_at = 0 }, true)
      else (v, false)
]

unfoldable pub peek : EnrollmentVault → ℕ → Option (List ℕ)
peek v now = elim v.code [ none ↦ none | some c ↦ if leb v.expires_at now then none else some c ]
