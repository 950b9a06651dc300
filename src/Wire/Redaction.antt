-- ===== src/Wire/Redaction.antt =====
-- What `json_safe` lets out, and hidden keys.
use aeloon_runtime.Prelude.{
  ℕ, ◌≡◌, refl, ap, String, Bool, true, false, ◌&&◌, not, Bool-cases, inl, inr, arith,
}
use aeloon_runtime.Wire.{
  Value, null, bool, number, text, sequence, mapping, other, Items, no_items, item, Fields,
  no_fields, field, is_hidden, json_safe, safe_items, safe_fields,
}

module _ (lower : String → String) (output_limit : ℕ) where
  -- A JSON value without hidden keys, at any depth.
  unfoldable mutual
    pub is_clean : Value → Bool
    is_clean null = true
    is_clean (bool b) = true
    is_clean (number shown is_zero) = true
    is_clean (text s) = true
    is_clean (sequence vs) = clean_items vs
    is_clean (mapping fs) = clean_fields fs
    is_clean (other s) = false

    pub clean_items : Items → Bool
    clean_items no_items = true
    clean_items (item v vs) = is_clean v && clean_items vs

    pub clean_fields : Fields → Bool
    clean_fields no_fields = true
    clean_fields (field key v fs) = not (is_hidden lower key) && (is_clean v && clean_fields fs)

  mutual
    unfolding json_safe safe_items safe_fields is_clean clean_items clean_fields

    safe-is_clean : (v : Value) → is_clean (json_safe lower output_limit v) ≡ true
    safe-is_clean null = refl
    safe-is_clean (bool b) = refl
    safe-is_clean (number shown is_zero) = refl
    safe-is_clean (text s) = refl
    safe-is_clean (sequence vs) = items-clean vs
    safe-is_clean (mapping fs) = fields-clean fs
    safe-is_clean (other s) = refl

    items-clean : (vs : Items) → clean_items (safe_items lower output_limit vs) ≡ true
    items-clean no_items = refl
    items-clean (item v vs) = ground (arith, safe-is_clean v, items-clean vs)

    fields-clean : (fs : Fields) → clean_fields (safe_fields lower output_limit fs) ≡ true
    fields-clean no_fields = refl
    fields-clean (field key v fs) = elim (Bool-cases (is_hidden lower key)) [
      | inl hidden ↦ rw hidden (fields-clean fs)
      | inr shown ↦ rw shown (ground (arith, shown, safe-is_clean v, fields-clean fs))
    ]

  mutual
    unfolding json_safe safe_items safe_fields is_clean clean_items clean_fields

    safe-unchanged : (v : Value) → is_clean v ≡ true → json_safe lower output_limit v ≡ v
    safe-unchanged null h = refl
    safe-unchanged (bool b) h = refl
    safe-unchanged (number shown is_zero) h = refl
    safe-unchanged (text s) h = refl
    safe-unchanged (sequence vs) h = ap sequence (items-unchanged vs h)
    safe-unchanged (mapping fs) h = ap mapping (fields-unchanged fs h)
    safe-unchanged (other s) h = cc

    items-unchanged : (vs : Items) → clean_items vs ≡ true → safe_items lower output_limit vs ≡ vs
    items-unchanged no_items h = refl
    items-unchanged (item v vs) h = λ i.
        item (safe-unchanged v (ground (arith, h)) i) (items-unchanged vs (ground (arith, h)) i)

    fields-unchanged :
        (fs : Fields) → clean_fields fs ≡ true → safe_fields lower output_limit fs ≡ fs
    fields-unchanged no_fields h = refl
    fields-unchanged (field key v fs) h =
        let shown : is_hidden lower key ≡ false = ground (arith, h) in
        rw shown (λ i.
          field key (safe-unchanged v (ground (arith, h)) i)
            (fields-unchanged fs (ground (arith, h)) i))

  -- What `json_safe` lets out is JSON without hidden keys at any depth; such a value goes through
  -- unchanged, and so does what has gone through once.
  pub json_safe-is_clean :
      (v : Value)
      → (is_clean (json_safe lower output_limit v) ≡ true)
        × (json_safe lower output_limit (json_safe lower output_limit v)
            ≡ json_safe lower output_limit v)
  json_safe-is_clean v =
      (safe-is_clean v, safe-unchanged (json_safe lower output_limit v) (safe-is_clean v))
