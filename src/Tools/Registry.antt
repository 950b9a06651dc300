-- ===== src/Tools/Registry.antt =====
-- `_unique_tools` and `_validate_active_names` of tool_runtime.py.
use aeloon_runtime.Prelude.{
  contains, ◌≡◌, refl, String, true, some, List, [], ◌∷◌, has_key, lookup, is_empty, Result, ok,
  err, if◌then◌else◌, arith, All, eq_iff, eq_refl, Bool-cases, inl, inr,
}
use aeloon_runtime.Tools.{Tool, ToolMap}

pub data RegistryError : Type 0 where
  invalid_argument : RegistryError

-- The loop of `_unique_tools`, with the tools before.
add_tools : ToolMap → List Tool → Result RegistryError ToolMap
add_tools tools [] = ok tools
add_tools tools (tool ∷ rest) =
    let later = add_tools ((tool.name, tool) ∷ tools) rest in
    if has_key tools tool.name then err invalid_argument else later

unfoldable pub unique_tools : List Tool → Result RegistryError ToolMap
unfolding add_tools
unique_tools tools = add_tools [] tools

-- `tuple(dict.fromkeys(names))`: the first of equal names stays.
from_keys : List String → List String → List String
from_keys seen [] = []
from_keys seen (name ∷ rest) =
    let more = from_keys (name ∷ seen) rest in
    let same = from_keys seen rest in if contains seen name then same else name ∷ more

unknown : ToolMap → List String → List String
unknown tools [] = []
unknown tools (name ∷ rest) =
    let more = unknown tools rest in if has_key tools name then more else name ∷ more

unfoldable pub validate_active_names : ToolMap → List String → Result RegistryError (List String)
unfolding from_keys unknown
validate_active_names tools names =
    let result = from_keys [] names in
    if is_empty (unknown tools result) then ok result else err invalid_argument

from_keys-asked :
    (seen names : List String) (x : String)
    → contains (from_keys seen names) x ≡ true
    → contains names x ≡ true
unfolding from_keys
from_keys-asked seen [] x h = h
from_keys-asked seen (name ∷ rest) x h =
    ground (arith, from_keys-asked seen rest x, from_keys-asked (name ∷ seen) rest x)

unknown-known :
    (tools : ToolMap) (names : List String) (x : String)
    → is_empty (unknown tools names) ≡ true
    → contains names x ≡ true
    → has_key tools x ≡ true
unfolding unknown
unknown-known tools [] x h c = ground arith
unknown-known tools (name ∷ rest) x h c = ground (arith, unknown-known tools rest x, eq_iff x name)

-- Every active name that was accepted was asked for, and is the name of a tool.
pub active_names_known :
    (tools : ToolMap) (names result : List String) (name : String)
    → validate_active_names tools names ≡ ok result
    → contains result name ≡ true
    → (contains names name ≡ true) × (has_key tools name ≡ true)
unfolding validate_active_names
active_names_known tools names result name e c =
    elim (Bool-cases (is_empty (unknown tools (from_keys [] names)))) [
      | inl known ↦
          let same : from_keys [] names ≡ result = ground arith in
          let here : contains (from_keys [] names) name ≡ true = rw same c in
          (
            from_keys-asked [] names name here,
            unknown-known tools (from_keys [] names) name known here,
          )
      | inr missing ↦ absurd (ground arith)
    ]

add_tools-kept :
    (d m : ToolMap) (tools : List Tool) (x : String) (tool : Tool)
    → add_tools d tools ≡ ok m
    → lookup d x ≡ some tool
    → lookup m x ≡ some tool
unfolding add_tools
add_tools-kept d m [] x tool e h = ground arith
add_tools-kept d m (t ∷ rest) x tool e h =
    ground (arith, add_tools-kept ((t.name, t) ∷ d) m rest x tool, eq_iff t.name x)

add_tools-All :
    (d m : ToolMap) (tools : List Tool)
    → add_tools d tools ≡ ok m
    → All (λ t. lookup m t.name ≡ some t) tools
unfolding add_tools
add_tools-All d m [] e = tt
add_tools-All d m (t ∷ rest) e = elim (Bool-cases (has_key d t.name)) [
  | inl twice ↦ absurd (ground arith)
  | inr new ↦
      let later : add_tools ((t.name, t) ∷ d) rest ≡ ok m = ground arith in
      (
        add_tools-kept ((t.name, t) ∷ d) m rest t.name t later (rw (eq_refl t.name) refl),
        add_tools-All ((t.name, t) ∷ d) m rest later,
      )
]

-- A registry that was accepted finds every tool that was given, so no tool hides another.
unique_tools_found :
    (tools : List Tool) (m : ToolMap)
    → unique_tools tools ≡ ok m
    → All (λ t. lookup m t.name ≡ some t) tools
unfolding unique_tools
unique_tools_found tools m e = add_tools-All [] m tools e
