-- ===== src/Runtime/Settings.antt =====
-- runtime/configuration/provider.py: the parser of a small subset of YAML; Resolve has the variables in its values.
-- A dict that the parser still writes to, but that a list has replaced, is a path that leads to no dict.
pub mod Accepts
pub mod Resolve
pub mod Provider
pub mod Load
mod Tests
use git_hub_engineering_work.Common.{
  ℕ, suc, ◌+◌, String, ◌<>◌, ◌==◌, Bool, true, false, not, ◌&&◌, ◌||◌, Option, none, some, List, [],
  ◌∷◌, ◌++◌, nat_eq, leb, if◌then◌else◌,
}
use git_hub_engineering_work.Common.Int.{ℤ}
use Prim.Native.Char.{code}
use git_hub_engineering_work.Common.Text.{strip, strip_right, truthy, lower_is}
use git_hub_engineering_work.Common.Text.Lines.{splitlines, begins, cut, drop, has, init, last_code}
use git_hub_engineering_work.Common.Outcome.{Exc, Outcome, returned, raised, ◌>>=◌}

mutual
  pub data Setting : Type 0 where
    mapping : Mapping → Setting
    list : SettingList → Setting
    text : String → Setting
    switch : Bool → Setting
    int : ℤ → Setting
    nothing : Setting

  -- a dict, in the order of insertion
  pub data Mapping : Type 0 where
    done : Mapping
    entry : String → Setting → Mapping → Mapping

  pub data SettingList : Type 0 where
    finish : SettingList
    item : Setting → SettingList → SettingList

abbrev pub configuration_exception : String → Exc
configuration_exception m = record { class_name = "ConfigurationException"; text = m }

-- `d.get(key)`
unfoldable pub get_setting : Mapping → String → Option Setting
get_setting done key = none
get_setting (entry k v rest) key = if k == key then some v else get_setting rest key

-- `d[key] = value`
unfoldable pub put_setting : String → Setting → Mapping → Mapping
put_setting key value done = entry key value done
put_setting key value (entry k v rest) =
    let after = put_setting key value rest in
    if k == key then entry k value rest else entry k v after

-- the dict that a value is
abbrev pub as_dict : Option Setting → Option Mapping
as_dict (some (mapping d)) = some d
as_dict _ = none

-- the dict at a path, and the whole with that dict's key set, if there is one
unfoldable pub dict_at : List String → Mapping → Option Mapping
dict_at [] d = some d
dict_at (k ∷ path) d = elim (as_dict (get_setting d k)) [
  | none ↦ none
  | some child ↦ dict_at path child
]

unfoldable pub put_at : List String → String → Setting → Mapping → Mapping
put_at [] key value d = put_setting key value d
put_at (k ∷ path) key value d = elim (as_dict (get_setting d k)) [
  | none ↦ d
  | some child ↦ put_setting k (mapping (put_at path key value child)) d
]

-- `l.append(v)`
unfoldable pub extend : Setting → SettingList → SettingList
extend v finish = item v finish
extend v (item w rest) = item w (extend v rest)

-- Where the parser stands: the document, the open dicts with one more than their indentation, the innermost
-- first, and the key that list items belong to, with the indentation of its line.
pub record Parser : Type 0 where
  pub root : Mapping
  pub stack : List (ℕ × List String)
  pub pending : Option (ℕ × List String × String)

abbrev pub at_start : Parser
at_start = record { root = done; stack = (0, []) ∷ []; pending = none }

-- `len(line) - len(line.lstrip(" "))`
unfoldable pub indent_of : String → ℕ
indent_of String.[] = 0
indent_of (String.◌∷◌ c s) = let rest = indent_of s in if nat_eq (code c) 32 then suc rest else 0

-- `while stack and indent <= stack[-1][0]: stack.pop()`
unfoldable pub close_dicts : ℕ → List (ℕ × List String) → List (ℕ × List String)
close_dicts indent [] = []
close_dicts indent ((open_at, path) ∷ stack) =
    let rest = close_dicts indent stack in
    if leb (indent + 1) open_at then rest else (open_at, path) ∷ stack

-- the text starts and ends with the character
abbrev quoted : ℕ → String → Bool
quoted c String.[] = false
quoted c (String.◌∷◌ d s) = nat_eq (code d) c && ends_with c (last_code (String.◌∷◌ d s))
  where
    ends_with : ℕ → Option ℕ → Bool
    ends_with c none = false
    ends_with c (some d) = nat_eq c d

module _ (int_of : String → Option ℤ) where
  -- `_parse_scalar`
  unfoldable pub parse_scalar : String → Setting
  parse_scalar value =
      if lower_is value "true"
      then switch true
      else if lower_is value "false"
      then switch false
      else if lower_is value "null" || lower_is value "none" || lower_is value "~"
      then nothing
      else if quoted 34 value || quoted 39 value
      then text (init (drop 1 value))
      else elim (int_of value) [ none ↦ text value | some n ↦ int n ]

  -- what the list of the pending key becomes
  unfoldable pub append_to : Option Setting → Setting → Outcome Setting
  append_to none v = returned (list (item v finish))
  append_to (some nothing) v = returned (list (item v finish))
  append_to (some (mapping done)) v = returned (list (item v finish))
  append_to (some (list l)) v = returned (list (extend v l))
  append_to (some _) v = raised (configuration_exception "Mixed mapping/list YAML is unsupported")

  abbrev value_at : List String → String → Mapping → Option Setting
  value_at path key d = elim (dict_at path d) [ none ↦ none | some child ↦ get_setting child key ]

  -- a line that starts with `- `
  unfoldable pub list_line : ℕ → String → Parser → Outcome Parser
  unfolding parse_scalar strip
  list_line indent stripped p = elim p.pending [
    | none ↦ raised (configuration_exception "List item without parent key")
    | some (parent_indent, path, key) ↦
        if leb indent parent_indent
        then raised (configuration_exception "Invalid list indentation")
        else (append_to (value_at path key p.root) (parse_scalar (strip (drop 2 stripped))) >>= λ v.
            returned (record p { root = put_at path key v p.root }))
  ]

  -- `key, raw_value = stripped.split(":", 1)`, with the dict that the line belongs to
  unfoldable pub set_key : ℕ → String → Option String → List String → Parser → Outcome Parser
  unfolding parse_scalar
  set_key indent key none path p = raised (configuration_exception "Invalid YAML line")
  set_key indent key (some raw_value) path p =
      if not (truthy (strip raw_value))
      then returned (record {
        root = put_at path (strip key) (mapping done) p.root;
        stack = (indent + 1, path ++ strip key ∷ []) ∷ p.stack;
        pending = some (indent, path, strip key);
      })
      else returned (record p {
        root = put_at path (strip key) (parse_scalar (strip raw_value)) p.root;
        pending = none;
      })

  -- a line with a key
  unfoldable pub key_line : ℕ → String → Parser → Outcome Parser
  unfolding cut
  key_line indent stripped p = elim (close_dicts indent p.stack) [
    | [] ↦ raised (configuration_exception "Invalid YAML indentation")
    | (open_at, path) ∷ stack ↦
        set_key indent (cut 58 stripped).0 (cut 58 stripped).1 path
          (record p { stack = (open_at, path) ∷ stack })
  ]

  -- the body of the loop
  unfoldable pub parse_line : String → Parser → Outcome Parser
  unfolding begins strip strip_right cut indent_of
  parse_line raw_line p =
      let line = strip_right (cut 35 raw_line).0 in
      let stripped = strip line in
      if not (truthy stripped)
      then returned p
      else if begins stripped "- "
      then list_line (indent_of line) stripped p
      else key_line (indent_of line) stripped p

  unfoldable pub parse_lines : List String → Parser → Outcome Parser
  parse_lines [] p = returned p
  parse_lines (line ∷ lines) p = parse_line line p >>= λ q. parse_lines lines q

  -- `_parse_simple_yaml`
  unfoldable pub parse_simple_yaml : String → Outcome Mapping
  unfolding splitlines
  parse_simple_yaml document = parse_lines (splitlines document) at_start >>= λ p. returned p.root
