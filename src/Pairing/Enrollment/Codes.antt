-- ===== src/Pairing/Enrollment/Codes.antt =====
-- Generated codes: ten symbols of the alphabet, which normalization leaves alone, one code for
-- each value of the fifty bits.
use native.Mathlib.Nat.{pow-suc}
use aeloon_runtime.Prelude.{
  ℕ, zero, suc, ◌+◌, ◌*◌, ◌/◌, ◌%◌, ◌^◌, ◌<◌, ◌≤◌, ◌≡◌, ◌≢◌, false, refl, sym, ap, ◌∙◌, Bool, true,
  List, [], ◌∷◌, ◌==◌, ◌&&◌, arith, if◌then◌else◌, All, All-append, not,
}
use mathlib.Core.List.{reverse, reverse-reverse, reverse-cons}
use aeloon_runtime.Pairing.Enrollment.{
  crockford_alphabet, code_length, symbol, low_symbols, generate_enrollment_code,
  normalize_enrollment_code, translate, upper,
}

-- A test holds of `from` and the `count` numbers behind it.
in_range : (ℕ → Bool) → ℕ → ℕ → Bool
in_range test from zero = test from
in_range test from (suc count) =
    let later = in_range test (suc from) count in if test from then later else false

in_range-test :
    (test : ℕ → Bool) (from count k : ℕ)
    → in_range test from count ≡ true
    → from ≤ k
    → k ≤ from + count
    → test k ≡ true
unfolding in_range
in_range-test test from zero k h low high = let here : from ≡ k = omega arith in rw (sym here) h
in_range-test test from (suc count) k h low high =
    ground (arith, in_range-test test (suc from) count k)

==→≡ : (a b : ℕ) → (a == b) ≡ true → a ≡ b
==→≡ a b h = ground arith

-- The place of a symbol in the alphabet.
place : List ℕ → ℕ → ℕ
place [] c = 0
place (a ∷ rest) c = let p = place rest c in if a == c then 0 else suc p

symbol_table : in_range (λ n. place crockford_alphabet (symbol n) == n) 0 31 ≡ true
unfolding in_range place symbol
symbol_table = refl

-- The number that the symbols stand for, the lowest first.
decode : List ℕ → ℕ
decode [] = 0
decode (c ∷ cs) = place crockford_alphabet c + 32 * decode cs

symbol-mod : (n : ℕ) → symbol (n % 32) ≡ symbol n
unfolding symbol
symbol-mod n = ground (arith)

place-symbol : (n : ℕ) → place crockford_alphabet (symbol n) ≡ n % 32
place-symbol n =
    ap (place crockford_alphabet) (sym (symbol-mod n))
    ∙ ==→≡ _ (n % 32) (in_range-test _ 0 31 (n % 32) symbol_table (omega arith) (omega arith))

decode-low_symbols : (k n : ℕ) → n < 32 ^ k → decode (low_symbols k n) ≡ n
unfolding decode low_symbols
decode-low_symbols zero n h = omega arith
decode-low_symbols (suc k) n h =
    omega (arith, place-symbol n, decode-low_symbols k (n / 32) (omega (arith, pow-suc 32 k)))

equal_codes :
    (n m : ℕ)
    → n < 2 ^ 50
    → m < 2 ^ 50
    → generate_enrollment_code n ≡ generate_enrollment_code m
    → n ≡ m
unfolding generate_enrollment_code
equal_codes n m hn hm e =
    sym (decode-low_symbols 10 n hn)
    ∙ ap decode (
        sym (reverse-reverse (low_symbols 10 n))
        ∙ ap reverse e
        ∙ reverse-reverse (low_symbols 10 m))
    ∙ decode-low_symbols 10 m hm

-- Two different numbers below 2 ^ 50 give different codes, so a code has all fifty random bits.
codes_differ :
    (n m : ℕ)
    → n < 2 ^ 50
    → m < 2 ^ 50
    → n ≢ m
    → generate_enrollment_code n ≢ generate_enrollment_code m
codes_differ n m hn hm differ e = differ (equal_codes n m hn hm e)

-- A character that normalization leaves alone.
is_normal : ℕ → Bool
is_normal c = not (c == b'-') && not (c == b' ') && upper (translate c) == c

normal_table : in_range (λ n. is_normal (symbol n)) 0 31 ≡ true
unfolding in_range is_normal symbol translate upper
normal_table = refl

abbrev AllNormal : List ℕ → Type 0
AllNormal = All (λ (c : ℕ). is_normal c ≡ true)

symbol-normal : (n : ℕ) → is_normal (symbol n) ≡ true
symbol-normal n =
    ap is_normal (sym (symbol-mod n))
    ∙ in_range-test (λ m. is_normal (symbol m)) 0 31 (n % 32) normal_table (omega arith)
        (omega arith)

AllNormal-reverse : (xs : List ℕ) → AllNormal xs → AllNormal (reverse xs)
AllNormal-reverse [] h = tt
AllNormal-reverse (x ∷ xs) h =
    rw reverse-cons (All-append _ (reverse xs) (x ∷ []) (AllNormal-reverse xs h.1) (h.0, tt))

low_symbols-AllNormal : (k n : ℕ) → AllNormal (low_symbols k n)
unfolding low_symbols
low_symbols-AllNormal zero n = tt
low_symbols-AllNormal (suc k) n = (symbol-normal n, low_symbols-AllNormal k (n / 32))

normalize-AllNormal : (cs : List ℕ) → AllNormal cs → normalize_enrollment_code cs ≡ cs
unfolding normalize_enrollment_code is_normal
normalize-AllNormal [] h = refl
normalize-AllNormal (c ∷ cs) h = ground (arith, h.0, normalize-AllNormal cs h.1)

-- A generated code is in normal form: what is shown to the user is what is compared.
pub normalize-generate :
    (bits : ℕ)
    → normalize_enrollment_code (generate_enrollment_code bits) ≡ generate_enrollment_code bits
unfolding generate_enrollment_code
normalize-generate bits =
    normalize-AllNormal (reverse (low_symbols code_length bits))
      (AllNormal-reverse (low_symbols code_length bits) (low_symbols-AllNormal code_length bits))
