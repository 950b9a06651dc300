-- ===== src/Wire.antt =====
-- Python values as they come from JSON or go to it, and what leaves the runtime of them:
-- `RuntimeProjection` of aeloon_runtime/runtime/projection.py. `str.lower` is a parameter.
pub mod Redaction
pub mod Input
use aeloon_runtime.Prelude.{
  ℕ, String, Bool, true, false, List, [], ◌∷◌, ◌&&◌, not, contains, take_text, if◌then◌else◌,
}

-- `other` is a value that is not JSON, as `str` shows it; a key of an object is its `str`.
mutual
  pub data Value : Type 0 where
    null : Value
    bool : Bool → Value
    number : (shown : String) → (is_zero : Bool) → Value
    text : String → Value
    sequence : Items → Value
    mapping : Fields → Value
    other : String → Value

  pub data Items : Type 0 where
    no_items : Items
    item : Value → Items → Items

  pub data Fields : Type 0 where
    no_fields : Fields
    field : String → Value → Fields → Fields

-- The keys whose values stay inside.
abbrev pub hidden_keys : List String
hidden_keys = "api_key" ∷ "authorization" ∷ "systemprompt" ∷ "payload" ∷ []

unfoldable pub is_hidden : (lower : String → String) → String → Bool
is_hidden lower key = contains hidden_keys (lower key)

module _ (lower : String → String) (output_limit : ℕ) where
  -- `json_safe`
  unfoldable mutual
    pub json_safe : Value → Value
    json_safe null = null
    json_safe (bool b) = bool b
    json_safe (number shown is_zero) = number shown is_zero
    json_safe (text s) = text s
    json_safe (sequence vs) = sequence (safe_items vs)
    json_safe (mapping fs) = mapping (safe_fields fs)
    json_safe (other s) = text (take_text output_limit s)

    pub safe_items : Items → Items
    safe_items no_items = no_items
    safe_items (item v vs) = item (json_safe v) (safe_items vs)

    pub safe_fields : Fields → Fields
    safe_fields no_fields = no_fields
    safe_fields (field key v fs) =
        let kept = field key (json_safe v) (safe_fields fs) in
        let later = safe_fields fs in if is_hidden lower key then later else kept

  -- The values of a mapping made safe, whatever their keys.
  unfoldable pub safe_values : Fields → Fields
  unfolding json_safe safe_items safe_fields
  safe_values no_fields = no_fields
  safe_values (field key v fs) = field key (json_safe v) (safe_values fs)

  -- `safe_mapping`
  unfoldable pub safe_mapping : Value → Fields
  unfolding safe_values
  safe_mapping (mapping fs) = safe_values fs
  safe_mapping _ = no_fields
