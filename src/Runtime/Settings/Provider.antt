-- ===== src/Runtime/Settings/Provider.antt =====
-- runtime/configuration/provider.py and settings.py: the typed configuration and its defaults.
-- What Python's `str`, `int`, `tuple` and `dict` do with the values that need no conversion, or are numbers or
-- truth values, is written out; the rest of them is a parameter. A `Path` is the text that it is made of.
use git_hub_engineering_work.Common.{
  String, ◌<>◌, Bool, true, false, not, Option, none, some, List, [], ◌∷◌, if◌then◌else◌, ◌||◌,
}
use git_hub_engineering_work.Common.Int.{ℤ, pos, ltb_ℤ}
use git_hub_engineering_work.Common.Text.{truthy}
use git_hub_engineering_work.Common.Outcome.{Outcome, returned, raised, ◌>>=◌}
use git_hub_engineering_work.Runtime.Settings.{
  Setting, Mapping, SettingList, mapping, list, text, switch, int, nothing, done, entry, finish,
  item, get_setting,
}

pub record ProjectSettings : Type 0 where
  pub name : String
  pub mode : String
  pub environment : String

pub record OpenClawSettings : Type 0 where
  pub workspace : String
  pub runtime_dir : String
  pub state_dir : String
  pub memory_dir : String
  pub audit_dir : String

pub record GitHubSettings : Type 0 where
  pub owner : Option String
  pub repository : Option String
  pub token_env : String
  pub workspace_path : String
  pub branch_naming_template : String
  pub commit_message_template : String
  pub pr_template : String
  pub cleanup_policy : String
  pub rate_limit_threshold : ℤ
  pub default_base_branch : String
  pub branch_prefix : String

pub record ExecutionSettings : Type 0 where
  pub dry_run : Bool
  pub require_human_approval_for : SettingList
  pub max_parallel_issues : ℤ
  pub max_retry_attempts : ℤ

pub record ObservabilitySettings : Type 0 where
  pub log_level : String
  pub audit_decisions : Bool
  pub retain_runtime_artifacts : Bool

pub record RuntimeConfiguration : Type 0 where
  pub project : ProjectSettings
  pub openclaw : OpenClawSettings
  pub github : GitHubSettings
  pub execution : ExecutionSettings
  pub observability : ObservabilitySettings
  pub policies : List (String × String)

-- Python's `str`, `int`, `tuple` and `dict` of the values that are not written out below
pub record Conversions : Type 0 where
  pub str_of : Setting → String
  pub int_of : Setting → Outcome ℤ
  pub tuple_of : Setting → Outcome SettingList
  pub dict_of : Setting → Outcome Mapping

-- the name of a value's type
abbrev type_name : Setting → String
type_name (mapping d) = "dict"
type_name (list l) = "list"
type_name (text s) = "str"
type_name (switch b) = "bool"
type_name (int n) = "int"
type_name nothing = "NoneType"

-- `data.get(name, {})`, which the code goes on to call `get` of
unfoldable pub section : Mapping → String → Outcome Mapping
section d key = elim (get_setting d key) [
  | none ↦ returned done
  | some (mapping inside) ↦ returned inside
  | some v ↦ raised (record {
    class_name = "AttributeError";
    text = "'" <> (type_name v <> "' object has no attribute 'get'");
  })
]

-- `bool(v)`
abbrev pub truth : Setting → Bool
truth (mapping done) = false
truth (mapping (entry k v rest)) = true
truth (list finish) = false
truth (list (item v rest)) = true
truth (text s) = truthy s
truth (switch b) = b
truth (int n) = nonzero n
  where
    nonzero : ℤ → Bool
    nonzero n = not (ltb_ℤ n (pos 1)) || ltb_ℤ n (pos 0)
truth nothing = false

-- `bool(d.get(key, default))`
abbrev pub flag : Mapping → String → Bool → Bool
flag d key default = elim (get_setting d key) [ none ↦ default | some v ↦ truth v ]

module _ (py : Conversions) where
  -- `str(v)`
  abbrev pub shown : Setting → String
  shown (text s) = s
  shown v = py.str_of v

  -- `int(v)`
  abbrev pub number : Setting → Outcome ℤ
  number (int n) = returned n
  number (switch true) = returned (pos 1)
  number (switch false) = returned (pos 0)
  number v = py.int_of v

  -- `str(d.get(key, default))`
  abbrev pub string : Mapping → String → String → String
  string d key default = elim (get_setting d key) [ none ↦ default | some v ↦ shown v ]

  -- `int(d.get(key, default))`
  abbrev pub integer : Mapping → String → ℤ → Outcome ℤ
  integer d key default = elim (get_setting d key) [ none ↦ returned default | some v ↦ number v ]

  -- `_optional_str(d.get(key))`
  unfoldable pub optional_str : Option Setting → Option String
  optional_str none = none
  optional_str (some nothing) = none
  optional_str (some v) = if truthy (shown v) then some (shown v) else none

  -- `tuple(d.get(key, ()))`
  abbrev pub tuple : Option Setting → Outcome SettingList
  tuple none = returned finish
  tuple (some (list l)) = returned l
  tuple (some v) = py.tuple_of v

  -- `dict(policies)`
  abbrev pub dict : Option Setting → Outcome Mapping
  dict none = returned done
  dict (some (mapping d)) = returned d
  dict (some v) = py.dict_of v

  -- `{str(key): str(val) for key, val in …}`
  unfoldable pub as_strings : Mapping → List (String × String)
  as_strings done = []
  as_strings (entry k v rest) = (k, shown v) ∷ as_strings rest

  abbrev project_settings : Mapping → ProjectSettings
  project_settings d = record {
    name = string d "name" "GitHub Engineering Worker";
    mode = string d "mode" "autonomous-engineering-worker";
    environment = string d "environment" "development";
  }

  abbrev openclaw_settings : Mapping → OpenClawSettings
  openclaw_settings d = record {
    workspace = string d "workspace" ".";
    runtime_dir = string d "runtime_dir" "runtime";
    state_dir = string d "state_dir" "states";
    memory_dir = string d "memory_dir" "memory";
    audit_dir = string d "audit_dir" "audit";
  }

  abbrev github_settings : Mapping → Outcome GitHubSettings
  github_settings d = integer d "rate_limit_threshold" (pos 25) >>= λ threshold. returned (record {
    owner = optional_str (get_setting d "owner");
    repository = optional_str (get_setting d "repository");
    token_env = string d "token_env" "GITHUB_TOKEN";
    workspace_path = string d "workspace_path" ".workspaces";
    branch_naming_template = string d "branch_naming_template" "gew/issue-{issue_number}-{slug}";
    commit_message_template =
        string d "commit_message_template" "Fix issue #{issue_number}: {title}";
    pr_template = string d "pr_template" "{summary}\n\nCloses #{issue_number}";
    cleanup_policy = string d "cleanup_policy" "keep";
    rate_limit_threshold = threshold;
    default_base_branch = string d "default_base_branch" "main";
    branch_prefix = string d "branch_prefix" "gew/";
  })

  abbrev execution_settings : Mapping → Outcome ExecutionSettings
  execution_settings d = tuple (get_setting d "require_human_approval_for") >>= λ approvals.
      integer d "max_parallel_issues" (pos 1) >>= λ parallel.
      integer d "max_retry_attempts" (pos 3) >>= λ retries. returned (record {
        dry_run = flag d "dry_run" true;
        require_human_approval_for = approvals;
        max_parallel_issues = parallel;
        max_retry_attempts = retries;
      })

  abbrev observability_settings : Mapping → ObservabilitySettings
  observability_settings d = record {
    log_level = string d "log_level" "info";
    audit_decisions = flag d "audit_decisions" true;
    retain_runtime_artifacts = flag d "retain_runtime_artifacts" false;
  }

  -- `_to_configuration`
  unfoldable pub to_configuration : Mapping → Outcome RuntimeConfiguration
  unfolding section get_setting optional_str as_strings
  to_configuration d = section d "project" >>= λ project. section d "openclaw" >>= λ openclaw.
      section d "github" >>= λ github. github_settings github >>= λ github_part.
      section d "execution" >>= λ execution. execution_settings execution >>= λ execution_part.
      section d "observability" >>= λ observability. dict (get_setting d "policies") >>= λ policies.
      returned (record {
        project = project_settings project;
        openclaw = openclaw_settings openclaw;
        github = github_part;
        execution = execution_part;
        observability = observability_settings observability;
        policies = as_strings policies;
      })
