-- ===== src/Stats/Buckets/Scale.antt =====
-- The totals of `_scale_tokens` and `_percentage_distribution`.
use native.Mathlib.Nat.{div-add-mod, mod-lt, le_of_mul-le-mul_left, lt_of_mul-lt-mul_left}
use aeloon_runtime.Prelude.{
  ℕ, suc, ◌+◌, ◌-◌, ◌*◌, ◌/◌, ◌%◌, ◌≤◌, ◌<◌, ◌≡◌, refl, ap, List, [], ◌∷◌, take, length,
  length-take, arith,
}
use aeloon_runtime.Stats.Buckets.{
  MessageType, system, user, assistant, tool_result, Tally, message_types, bump, total, map_values,
  insert_key, sort_keys, bump_each, distribute, scale_tokens, percentage_distribution,
}

pub total-bump : (d : Tally) (k : MessageType) (n : ℕ) → total (bump d k n) ≡ total d + n
total-bump d system n = omega arith
total-bump d user n = omega arith
total-bump d assistant n = omega arith
total-bump d tool_result n = omega arith

total-bump_each : (d : Tally) (ks : List MessageType) → total (bump_each d ks) ≡ total d + length ks
unfolding bump_each
total-bump_each d [] = omega arith
total-bump_each d (k ∷ ks) = omega (arith, total-bump_each (bump d k 1) ks, total-bump d k 1)

length-insert_key :
    (r : Tally) (k : MessageType) (js : List MessageType)
    → length (insert_key r k js) ≡ suc (length js)
unfolding insert_key
length-insert_key r k [] = refl
length-insert_key r k (j ∷ js) = ground (arith, length-insert_key r k js)

length-sort_keys : (r : Tally) (ks : List MessageType) → length (sort_keys r ks) ≡ length ks
unfolding sort_keys
length-sort_keys r [] = refl
length-sort_keys r (k ∷ ks) =
    omega (arith, length-insert_key r k (sort_keys r ks), length-sort_keys r ks)

-- Four quotients and remainders by the sum of the values.
module _ (v₁ v₂ v₃ v₄ to s : ℕ) (e : s ≡ v₁ + v₂ + v₃ + v₄) (p : 0 < s) where
  shares : ℕ
  shares = v₁ * to / s + v₂ * to / s + v₃ * to / s + v₄ * to / s

  rests : ℕ
  rests = v₁ * to % s + v₂ * to % s + v₃ * to % s + v₄ * to % s

  shares-rests : s * shares + rests ≡ s * to
  unfolding shares rests
  shares-rests = omega (
    arith,
    div-add-mod (v₁ * to) s,
    div-add-mod (v₂ * to) s,
    div-add-mod (v₃ * to) s,
    div-add-mod (v₄ * to) s,
    ap (λ (t : ℕ). t * to) e,
  )

  rests-lt : rests < s * 4
  unfolding rests
  rests-lt =
      omega (arith, mod-lt (v₁ * to) p, mod-lt (v₂ * to) p, mod-lt (v₃ * to) p, mod-lt (v₄ * to) p)

  -- The quotients do not pass the total, and leave less than one each.
  shares_bounds : (shares ≤ to) × (to - shares ≤ 4)
  shares_bounds = (
    le_of_mul-le-mul_left (omega (arith, shares-rests)) p,
    omega (
      arith,
      lt_of_mul-lt-mul_left s {m = to} {n = shares + 4} (omega (arith, shares-rests, rests-lt)),
    ),
  )

total-distribute : (d : Tally) (to : ℕ) → 0 < total d → total (distribute d to (total d)) ≡ to
unfolding distribute shares
total-distribute d to p =
    let scaled : Tally = map_values (λ v. v * to / total d) d in
    let keys : List MessageType = sort_keys (map_values (λ v. v * to % total d) d) message_types in
    omega (
      arith,
      total-bump_each scaled (take (to - total scaled) keys),
      length-take (to - total scaled) keys,
      length-sort_keys (map_values (λ v. v * to % total d) d) message_types,
      shares_bounds d.system d.user d.assistant d.tool_result to (total d) refl p,
    )

-- Scaled to any total, the buckets of a tally that is not empty add up to exactly that total.
pub total-scale_tokens : (d : Tally) (to : ℕ) → 0 < total d → total (scale_tokens d to) ≡ to
unfolding scale_tokens
total-scale_tokens d to p = ground (arith, total-distribute d to p)

pub total-percentage_distribution :
    (d : Tally) (of : ℕ) → 0 < total d → 0 < of → total (percentage_distribution d of) ≡ 10000
unfolding percentage_distribution
total-percentage_distribution d of p q = ground (arith, total-scale_tokens d 10000 p)
