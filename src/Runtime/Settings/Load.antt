-- ===== src/Runtime/Settings/Load.antt =====
-- runtime/configuration/provider.py: loading the configuration, and its validation.
use git_hub_engineering_work.Common.{
  String, ◌<>◌, ◌≡◌, refl, sym, subst, Bool, true, false, not, Option, none, some, if◌then◌else◌,
}
use git_hub_engineering_work.Common.Int.{ℤ, pos, ltb_ℤ}
use git_hub_engineering_work.Common.Text.{truthy}
use git_hub_engineering_work.Common.Outcome.{Exc, Outcome, returned, raised, ◌>>=◌}
use git_hub_engineering_work.Runtime.Settings.{
  Mapping, done, configuration_exception, parse_simple_yaml,
}
use git_hub_engineering_work.Runtime.Settings.Resolve.{resolve_entries}
use git_hub_engineering_work.Runtime.Settings.Provider.{
  RuntimeConfiguration, Conversions, to_configuration,
}

-- `_validate`
unfoldable pub validate_settings : RuntimeConfiguration → Outcome (Unit {0})
validate_settings config =
    if ltb_ℤ config.execution.max_parallel_issues (pos 1)
    then raised (configuration_exception "max_parallel_issues must be at least 1")
    else if ltb_ℤ config.execution.max_retry_attempts (pos 0)
    then raised (configuration_exception "max_retry_attempts cannot be negative")
    else if not (truthy config.github.token_env)
    then raised (configuration_exception "github.token_env must be configured")
    else if ltb_ℤ config.github.rate_limit_threshold (pos 0)
    then raised (configuration_exception "github.rate_limit_threshold cannot be negative")
    else returned tt

-- The configuration file: whether it exists, and what reading it returns or raises.
pub record File : Type 0 where
  pub path : String
  pub is_os_error : Exc → Bool
  pub content : Option (Outcome String)

-- `_load_file`
unfoldable pub load_file :
    (String → Option ℤ) → (Exc → Bool) → String → Outcome String → Outcome Mapping
unfolding parse_simple_yaml
load_file int_of is_os_error path (returned document) = parse_simple_yaml int_of document
load_file int_of is_os_error path (raised e) =
    if is_os_error e
    then raised (configuration_exception ("Unable to read runtime configuration: " <> path))
    else raised e

-- the file's data, or none where there is no file
unfoldable pub file_data : (String → Option ℤ) → File → Outcome Mapping
unfolding load_file
file_data int_of file = elim file.content [
  | none ↦ returned done
  | some c ↦ load_file int_of file.is_os_error file.path c
]

-- `load`
unfoldable pub load_settings :
    Conversions
    → (String → Option ℤ)
    → (String → Option String)
    → File
    → Outcome RuntimeConfiguration
unfolding resolve_entries to_configuration
load_settings py int_of environment file = file_data int_of file >>= λ d.
    to_configuration py (resolve_entries environment d) >>= λ config.
    validate_settings config >>= λ _. returned config

-- what `_validate` lets pass
pub IsUsable : RuntimeConfiguration → Type 0
IsUsable config =
    (ltb_ℤ config.execution.max_parallel_issues (pos 1) ≡ false)
    × (ltb_ℤ config.execution.max_retry_attempts (pos 0) ≡ false)
    × (truthy config.github.token_env ≡ true)
    × (ltb_ℤ config.github.rate_limit_threshold (pos 0) ≡ false)

refused :
    (m : String) (b : Bool) (o : Outcome (Unit {0}))
    → (if b then raised (configuration_exception m) else o) ≡ returned tt
    → (b ≡ false) × (o ≡ returned tt)
refused m true o h = cc
refused m false o h = (refl, h)

validate_settings-IsUsable :
    (config : RuntimeConfiguration) → validate_settings config ≡ returned tt → IsUsable config
unfolding validate_settings IsUsable
validate_settings-IsUsable config h =
    let (one, h_1) = refused _ _ _ h in
    let (two, h_2) = refused _ _ _ h_1 in
    let (three, h_3) = refused _ _ _ h_2 in
    let (four, h_4) = refused _ _ _ h_3 in
    (one, two, positive (truthy config.github.token_env) three, four)
  where
    positive : (b : Bool) → not b ≡ false → b ≡ true
    positive true e = refl
    positive false e = cc

-- What holds of all that the second part of a chain returns holds of what the chain returns.
chained :
    {A : Type 0} (P : RuntimeConfiguration → Type 0) (o : Outcome A)
    (f : A → Outcome RuntimeConfiguration)
    → ((a : A) (b : RuntimeConfiguration) → f a ≡ returned b → P b)
    → (b : RuntimeConfiguration) → (o >>= f) ≡ returned b
    → P b
chained P (returned a) f each b h = each a b h
chained P (raised e) f each b h = cc

same : {a b : RuntimeConfiguration} → returned a ≡ returned b → a ≡ b
same h = cc

checked :
    (c b : RuntimeConfiguration) (o : Outcome (Unit {0}))
    → o ≡ validate_settings c
    → (o >>= λ _. returned c) ≡ returned b
    → IsUsable b
unfolding validate_settings
checked c b (returned u) e h = subst IsUsable (same h) (validate_settings-IsUsable c (sym e))
checked c b (raised x) e h = cc

-- Whatever the file and the environment hold, a configuration that `load` returns allows at least one issue at a
-- time and no negative number of retries, names a variable for the token, and has no negative threshold.
load_settings-IsUsable :
    (py : Conversions) (int_of : String → Option ℤ) (environment : String → Option String)
    (file : File) (config : RuntimeConfiguration)
    → load_settings py int_of environment file ≡ returned config
    → IsUsable config
unfolding load_settings
load_settings-IsUsable py int_of environment file config h =
    chained IsUsable (file_data int_of file) _
      (λ d b.
        chained IsUsable (to_configuration py (resolve_entries environment d)) _
          (λ c b. checked c b (validate_settings c) refl) b)
      config h
