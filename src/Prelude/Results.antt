-- ===== src/Prelude/Results.antt =====
-- Results of code that may raise, and dictionaries with string keys.
use mathlib.Core.Path.{◌≡◌, refl}
use mathlib.Core.Logic.{◌⊎◌, inl, inr}
use mathlib.Core.Bool.{Bool, true, false}
use mathlib.Core.Option.{Option, none, some}
use mathlib.Core.List.{List, [], ◌∷◌}
use Prim.Native.String.{String}
use text.Mathlib.Text.{◌==◌ as str_eq}
use text.Mathlib.TextEquality.{eq_iff}
use text.Mathlib.TextPositions.{eq_refl}
use native.Mathlib.Omega.{arith}
use aeloon_runtime.Prelude.Tests.{if◌then◌else◌}
use aeloon_runtime.Prelude.Lists.{any}

-- `err e` is an exception `e`.
pub data Result {ℓ κ} (E : Type ℓ) (A : Type κ) : Type (ℓ ⊔ κ) where
  ok : A → Result E A
  err : E → Result E A

pub Result-cases {ℓ κ} :
    {E : Type ℓ} {A : Type κ} (r : Result E A) → ((e : E) × (r ≡ err e)) ⊎ ((a : A) × (r ≡ ok a))
Result-cases (err e) = inl (e, refl)
Result-cases (ok a) = inr (a, refl)

infixl 5 ◌>>=◌
abbrev pub ◌>>=◌ {ℓ κ μ} :
    {E : Type ℓ} {A : Type κ} {B : Type μ} → Result E A → (A → Result E B) → Result E B
ok a >>= f = f a
err e >>= f = err e

-- A Python dict, its latest write first: `d[k] = v` is `(k, v) ∷ d`.
module _ {ℓ} {V : Type ℓ} where
  abbrev pub lookup : List (String × V) → String → Option V
  lookup [] k = none
  lookup ((j, v) ∷ d) k = if str_eq j k then some v else lookup d k

  -- `k in d`
  abbrev pub has_key : List (String × V) → String → Bool
  has_key d k = elim (lookup d k) [ none ↦ false | some v ↦ true ]

  pub has_key-false : (d : List (String × V)) (k : String) → has_key d k ≡ false → lookup d k ≡ none
  has_key-false d k h = ground arith

  pub has_key_self : (d : List (String × V)) (k : String) (v : V) → has_key ((k, v) ∷ d) k ≡ true
  has_key_self d k v = ground (arith, eq_refl k)

  -- `d.pop(k, None)`
  abbrev pub without : List (String × V) → String → List (String × V)
  without [] k = []
  without ((j, v) ∷ d) k = let rest = without d k in if str_eq j k then rest else (j, v) ∷ rest

  pub lookup-without :
      (d : List (String × V)) (k j : String)
      → lookup (without d k) j ≡ (if str_eq k j then none else lookup d j)
  lookup-without [] k j = ground arith
  lookup-without ((i, v) ∷ d) k j =
      ground (arith, lookup-without d k j, eq_iff i k, eq_iff i j, eq_iff k j)

-- `name in names`
abbrev pub contains : List String → String → Bool
contains names name = any (str_eq name) names
