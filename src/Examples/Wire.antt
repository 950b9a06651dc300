-- ===== src/Examples/Wire.antt =====
-- A payload with a key that stays inside, and inputs of a turn.
use aeloon_runtime.Prelude.{
  strip, ◌≡◌, ◌≤◌, ◌↔◌, refl, String, true, false, none, ok, is_blank, text_length,
}
use aeloon_runtime.Wire.{
  Value, no_items, Fields, no_fields, field, json_safe, safe_mapping, is_hidden,
}
use aeloon_runtime.Wire.Redaction.{is_clean, json_safe-is_clean}
use aeloon_runtime.Wire.Input.{prompt, skill, get_value, count_items, parse_prompt, parse}
use aeloon_runtime.Wire.Input.Accepted.{parse_prompt-exactly}

-- Keys that are in lower case already.
abbrev same : String → String
same s = s

abbrev provider : Fields
provider = field "api_key" (Value.text "sk-1") (field "name" (Value.text "studio") no_fields)

abbrev payload : Value
payload =
    Value.mapping (
      field "provider" (Value.mapping provider) (field "when" (Value.other "2026-01-01") no_fields))

redacted :
    json_safe same 4 payload
    ≡ Value.mapping (
        field "provider"
          (Value.mapping (field "name" (Value.text "studio") no_fields))
          (field "when" (Value.text "2026") no_fields))
unfolding json_safe is_hidden
redacted = refl

-- A mapping keeps its own keys, also those that are dropped below.
own_keys_kept : safe_mapping same 4 (Value.mapping provider) ≡ provider
unfolding safe_mapping
own_keys_kept = refl

json_safe-is_clean_example :
    (is_clean same 4 (json_safe same 4 payload) ≡ true)
    × (json_safe same 4 (json_safe same 4 payload) ≡ json_safe same 4 payload)
json_safe-is_clean_example = json_safe-is_clean same 4 payload

abbrev raw : Fields
raw = field "text" (Value.text "hi") (field "attachments" (Value.sequence no_items) no_fields)

abbrev shown : Value → String
shown v = "?"

its_text : get_value raw "text" ≡ Value.text "hi"
unfolding get_value
its_text = refl

its_list : get_value raw "attachments" ≡ Value.sequence no_items
unfolding get_value
its_list = refl

parse_prompt-exactly_example :
    (parse_prompt shown 10 2 raw ≡ ok (prompt "hi" no_items))
    ↔ ((is_blank "hi" ≡ false) × (text_length "hi" ≤ 10) × (count_items no_items ≤ 2))
parse_prompt-exactly_example = parse_prompt-exactly shown 10 2 raw "hi" no_items its_text its_list

skilled :
    parse shown 10 2 (
      Value.mapping
        (field "kind" (Value.text "skill") (field "name" (Value.text " pdf ") no_fields)))
    ≡ ok (skill "pdf" none)
unfolding parse is_blank strip
skilled = refl
