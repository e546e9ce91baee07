-- ===== src/Runtime/Settings/Resolve.antt =====
-- runtime/configuration/provider.py: `${NAME}` and `${NAME:-default}` in the values of the parsed file.
-- A parsed value has no line break, so the pattern's `$` is the end of the text.
use git_hub_engineering_work.Common.{
  ℕ, String, ◌==◌, ◌≡◌, refl, Bool, false, ◌&&◌, ◌||◌, Option, none, some, leb, nat_eq,
  if◌then◌else◌, Bool-cases, inl, inr,
}
use Prim.Native.Char.{code}
use mathlib.Core.Option
use git_hub_engineering_work.Common.Text.Lines.{begins, drop, init, last_code}
use git_hub_engineering_work.Runtime.Settings.{
  Setting, Mapping, SettingList, mapping, list, text, switch, int, nothing, done, entry, finish,
  item, get_setting,
}

-- `[A-Za-z_]` and `[A-Za-z0-9_]`
abbrev is_letter : ℕ → Bool
is_letter c = (leb 65 c && leb c 90) || (leb 97 c && leb c 122) || nat_eq c 95

abbrev is_name : ℕ → Bool
is_name c = is_letter c || (leb 48 c && leb c 57)

-- the characters of a name at the front, and what follows them
unfoldable pub split_name : String → String × String
split_name String.[] = ("", "")
split_name (String.◌∷◌ c s) =
    let rest = split_name s in
    if is_name (code c) then (String.◌∷◌ c rest.0, rest.1) else ("", String.◌∷◌ c s)

-- a text that starts with a character that a name may start with
abbrev starts_name : String → Bool
starts_name String.[] = false
starts_name (String.◌∷◌ c s) = is_letter (code c)

-- `:-` and the default, or nothing, behind the name
unfoldable pub with_default : String → String → Option (String × Option String)
unfolding begins
with_default name rest =
    if rest == ""
    then some (name, none)
    else if begins rest ":-"
    then some (name, some (drop 2 rest))
    else none

-- `_ENV_PATTERN.match(value)`, as the groups `name` and `default`
unfoldable pub match_variable : String → Option (String × Option String)
unfolding begins split_name with_default
match_variable value =
    let parts = split_name (init (drop 2 value)) in
    if begins value "${" && is_brace (last_code value) && starts_name parts.0
    then with_default parts.0 parts.1
    else none
  where
    is_brace : Option ℕ → Bool
    is_brace none = false
    is_brace (some c) = nat_eq c 125

-- `self.environment.get(name, default)`
abbrev variable_or : (String → Option String) → String → Option String → Setting
variable_or environment name default = elim (environment name) [
  | some value ↦ text value
  | none ↦ elim default [ none ↦ nothing | some value ↦ text value ]
]

-- a text's value
unfoldable pub resolve_text : (String → Option String) → String → Setting
unfolding match_variable
resolve_text environment value = elim (match_variable value) [
  | none ↦ text value
  | some (name, default) ↦ variable_or environment name default
]

-- `_resolve_env` of a value, of the entries of a dict and of the items of a list
unfoldable mutual
  unfolding resolve_text

  pub resolve_env : (String → Option String) → Setting → Setting
  resolve_env environment (mapping d) = mapping (resolve_entries environment d)
  resolve_env environment (list l) = list (resolve_items environment l)
  resolve_env environment (text value) = resolve_text environment value
  resolve_env environment (switch b) = switch b
  resolve_env environment (int n) = int n
  resolve_env environment nothing = nothing

  pub resolve_entries : (String → Option String) → Mapping → Mapping
  resolve_entries environment done = done
  resolve_entries environment (entry k v rest) =
      entry k (resolve_env environment v) (resolve_entries environment rest)

  pub resolve_items : (String → Option String) → SettingList → SettingList
  resolve_items environment finish = finish
  resolve_items environment (item v rest) =
      item (resolve_env environment v) (resolve_items environment rest)

-- A key of the resolved dict holds what the dict held under it, resolved.
get_setting-resolve_entries :
    (environment : String → Option String) (d : Mapping) (key : String)
    → get_setting (resolve_entries environment d) key
      ≡ Option.map (resolve_env environment) (get_setting d key)
unfolding get_setting resolve_entries
get_setting-resolve_entries environment done key = refl
get_setting-resolve_entries environment (entry k v rest) key = elim (Bool-cases (k == key)) [
  | inl same ↦ rw same refl
  | inr other ↦ rw other (get_setting-resolve_entries environment rest key)
]
