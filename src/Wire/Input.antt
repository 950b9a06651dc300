-- ===== src/Wire/Input.antt =====
-- `TurnInputResolver` of aeloon_runtime/runtime/input.py: the checks on the input of a turn. What
-- `str` makes of a value that is no string is a parameter. Slash commands are not modelled.
pub mod Accepted
use aeloon_runtime.Prelude.{
  ℕ, suc, zero, ◌+◌, String, Bool, true, false, Option, none, some, List, [], ◌∷◌, ◌||◌, ltb,
  is_blank, strip, str_eq, text_length, truthy, Result, ok, err, ◌>>=◌, if◌then◌else◌,
}
use aeloon_runtime.Wire.{
  Value, null, bool, number, text, sequence, mapping, other, Items, no_items, item, Fields,
  no_fields, field,
}

pub data InputFailure : Type 0 where
  invalid_argument invalid_attachment : InputFailure

pub data TurnInput : Type 0 where
  prompt : String → (attachments : Items) → TurnInput
  skill : String → (additional_instructions : Option String) → TurnInput
  prompt_template : String → (arguments : List String) → TurnInput

-- `raw.get(key)`, where a missing key reads as `None`
unfoldable pub get_value : Fields → String → Value
get_value no_fields key = null
get_value (field k v fs) key = let later = get_value fs key in if str_eq k key then v else later

-- `bool(value)`; a value that is no JSON is true.
unfoldable pub is_true : Value → Bool
is_true null = false
is_true (bool b) = b
is_true (number shown true) = false
is_true (number shown false) = true
is_true (text s) = if str_eq s "" then false else true
is_true (sequence no_items) = false
is_true (sequence (item v vs)) = true
is_true (mapping no_fields) = false
is_true (mapping (field k v fs)) = true
is_true (other s) = true

unfoldable pub count_items : Items → ℕ
count_items no_items = 0
count_items (item v vs) = suc (count_items vs)

-- `_required_string`
unfoldable pub required_string : Fields → String → Result InputFailure String
unfolding get_value
required_string fs key = elim (get_value fs key) [
  | text s ↦ if is_blank s then err invalid_argument else ok (strip s)
  | _ ↦ err invalid_argument
]

-- The texts of a list, if all its items are.
unfoldable pub all_texts : Items → Result InputFailure (List String)
all_texts no_items = ok []
all_texts (item (text s) vs) = elim (all_texts vs) [ err e ↦ err e | ok rest ↦ ok (s ∷ rest) ]
all_texts (item _ vs) = err invalid_argument

module _ (str : Value → String) (prompt_limit attachment_limit : ℕ) where
  -- `str(value or "")`
  unfoldable pub text_or_empty : Value → String
  unfolding is_true
  text_or_empty (text s) = s
  text_or_empty v = if is_true v then str v else ""

  -- `value or []`, a list
  unfoldable pub list_or_empty : Value → InputFailure → Result InputFailure Items
  unfolding is_true
  list_or_empty (sequence vs) f = ok vs
  list_or_empty v f = if is_true v then err f else ok no_items

  -- `prompt`
  unfoldable pub parse_prompt : Fields → Result InputFailure TurnInput
  unfolding get_value text_or_empty list_or_empty count_items
  parse_prompt fs =
      let shown = text_or_empty (get_value fs "text") in
      if is_blank shown || ltb prompt_limit (text_length shown)
      then err invalid_argument
      else elim (list_or_empty (get_value fs "attachments") invalid_attachment) [
        | err e ↦ err e
        | ok attachments ↦
            if ltb attachment_limit (count_items attachments)
            then err invalid_attachment
            else ok (prompt shown attachments)
      ]

  parse_skill : Fields → Result InputFailure TurnInput
  unfolding required_string get_value text_or_empty
  parse_skill fs = do
    name ← required_string fs "name"
    ok (skill name (truthy (some (text_or_empty (get_value fs "additional_instructions")))))

  parse_template : Fields → Result InputFailure TurnInput
  unfolding required_string get_value list_or_empty all_texts
  parse_template fs = do
    arguments ← list_or_empty (get_value fs "arguments") invalid_argument
    texts ← all_texts arguments
    name ← required_string fs "name"
    ok (prompt_template name texts)

  -- `parse`
  unfoldable pub parse : Value → Result InputFailure TurnInput
  unfolding parse_prompt parse_skill parse_template get_value
  parse (mapping fs) = elim (get_value fs "kind") [
    | text kind ↦
        if str_eq kind "prompt"
        then parse_prompt fs
        else if str_eq kind "skill"
        then parse_skill fs
        else if str_eq kind "prompt_template"
        then parse_template fs
        else err invalid_argument
    | _ ↦ err invalid_argument
  ]
  parse _ = err invalid_argument
