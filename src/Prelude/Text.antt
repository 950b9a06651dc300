-- ===== src/Prelude/Text.antt =====
-- Python strings as sequences of code points: length, blank strings, truth.
use Prim.Native.Nat.{ℕ, zero, suc, ◌+◌, ◌/◌, ◌%◌, min}
use mathlib.Core.Path.{◌≡◌}
use native.Mathlib.Omega.{arith}
use Prim.Native.Char.{code}
use Prim.Native.String.{String}
use mathlib.Core.Bool.{Bool, true, ◌&&◌, ◌||◌}
use mathlib.Core.Option.{Option, none, some}
use mathlib.Core.List.{List, [], ◌∷◌}
use text.Mathlib.Text.{◌==◌ as str_eq}
use aeloon_runtime.Prelude.Lists.{get_elem?}
use aeloon_runtime.Prelude.Tests.{ltb, leb, ◌==◌, if◌then◌else◌}

-- The code points of a string.
abbrev pub codes : String → List ℕ
codes String.[] = []
codes (String.◌∷◌ c s) = code c ∷ codes s

-- `len(text)`
abbrev pub text_length : String → ℕ
text_length String.[] = 0
text_length (String.◌∷◌ c s) = suc (text_length s)

-- The characters that `str.strip` removes.
pub is_space : ℕ → Bool
is_space c =
    (leb 9 c && leb c 13)
    || (leb 28 c && leb c 32)
    || (c == 0x85)
    || (c == 0xa0)
    || (c == 0x1680)
    || (leb 0x2000 c && leb c 0x200a)
    || (c == 0x2028)
    || (c == 0x2029)
    || (c == 0x202f)
    || (c == 0x205f)
    || (c == 0x3000)

-- `not text.strip()`
unfoldable pub is_blank : String → Bool
unfolding is_space
is_blank String.[] = true
is_blank (String.◌∷◌ c s) = is_space (code c) && is_blank s

-- A falsy optional string reads as `None`.
abbrev pub truthy : Option String → Option String
truthy none = none
truthy (some s) = if str_eq s "" then none else some s

-- `s + t`
abbrev pub append_text : String → String → String
append_text String.[] t = t
append_text (String.◌∷◌ c s) t = String.◌∷◌ c (append_text s t)

-- `"".join(parts)`
abbrev pub concat : List String → String
concat [] = ""
concat (s ∷ rest) = append_text s (concat rest)

-- `text.strip()`: what is cut at the right end, then at the left.
strip_right : String → String
unfolding is_space
strip_right String.[] = ""
strip_right (String.◌∷◌ c s) =
    let r = strip_right s in if is_space (code c) && str_eq r "" then "" else String.◌∷◌ c r

strip_left : String → String
unfolding is_space
strip_left String.[] = ""
strip_left (String.◌∷◌ c s) =
    let r = strip_left s in if is_space (code c) then r else String.◌∷◌ c s

unfoldable pub strip : String → String
unfolding strip_right strip_left
strip s = strip_left (strip_right s)

digits : List String
digits = "0" ∷ "1" ∷ "2" ∷ "3" ∷ "4" ∷ "5" ∷ "6" ∷ "7" ∷ "8" ∷ "9" ∷ []

-- The decimal digits of a number, given fuel for one digit more than it has.
decimal_from : ℕ → ℕ → String
unfolding digits
decimal_from zero n = ""
decimal_from (suc fuel) n =
    let higher = decimal_from fuel (n / 10) in
    append_text (if ltb n 10 then "" else higher)
      (elim (get_elem? digits (n % 10)) [ some d ↦ d | none ↦ "" ])

-- `str(n)`
unfoldable pub decimal : ℕ → String
unfolding decimal_from
decimal n = decimal_from (suc n) n

-- `text[:n]`
abbrev pub take_text : ℕ → String → String
take_text zero s = ""
take_text (suc n) String.[] = ""
take_text (suc n) (String.◌∷◌ c s) = String.◌∷◌ c (take_text n s)

pub text_length-append_text :
    (s t : String) → text_length (append_text s t) ≡ text_length s + text_length t
text_length-append_text String.[] t = omega arith
text_length-append_text (String.◌∷◌ c s) t = omega (arith, text_length-append_text s t)

pub text_length-take_text :
    (n : ℕ) (s : String) → text_length (take_text n s) ≡ min n (text_length s)
text_length-take_text zero s = omega arith
text_length-take_text (suc n) String.[] = omega arith
text_length-take_text (suc n) (String.◌∷◌ c s) = omega (arith, text_length-take_text n s)

-- `separator.join(parts)`
abbrev pub join : String → List String → String
join separator [] = ""
join separator (s ∷ []) = s
join separator (s ∷ rest) = append_text s (append_text separator (join separator rest))
