-- ===== src/Worker/Loader/Tests.antt =====
-- worker/configuration/loader.py and runtime/configuration/environment.py on small inputs.
use git_hub_engineering_work.Common.{
  String, ◌==◌, ◌≡◌, refl, true, false, none, some, List, [], ◌∷◌, ◌++◌, if◌then◌else◌,
}
use git_hub_engineering_work.Common.Int.{pos}
use git_hub_engineering_work.Common.Text.Lines.{splitlines, split_at}
use git_hub_engineering_work.Common.Outcome.{returned, raised}
use git_hub_engineering_work.Worker.Models.{WorkerRepository}
use git_hub_engineering_work.Worker.Loader.{
  Environment, RuntimeConfiguration, parse_repository, parse_items, configured_items,
  runtime_repository, repositories, env_bool,
}
use git_hub_engineering_work.Worker.Loader.Repositories.{
  find, find_last, IsUnique, repositories-find,
}
use git_hub_engineering_work.Worker.Loader.Environment.{
  load_env_fallback, load_lines, set, assignment, or_value, first_value, load_env_fallback_lem,
}

abbrev runtime : RuntimeConfiguration
runtime = record {
  owner = some "o";
  repository = some "r";
  default_base_branch = "main";
  branch_naming_template = "b";
  workspace = ".";
  worker_audit_dir = "audit/worker";
  max_retry_attempts = pos 3;
  max_parallel_issues = pos 1;
}

-- the runtime's repository is configured again, with a branch, and one item is no repository
abbrev environment : Environment
environment k = if k == "WORKER_REPOSITORIES" then some "o/r@dev, x, p/q" else none

abbrev repo : String → String → String → WorkerRepository
repo owner name branch = record { owner = owner; name = name; default_branch = branch }

read :
    parse_items "main" (configured_items (environment "WORKER_REPOSITORIES"))
    ≡ returned (repo "o" "r" "dev" ∷ repo "p" "q" "main" ∷ [])
unfolding parse_items split_at parse_repository
read = refl

repositories-find_example :
    (result : List WorkerRepository) × (repositories environment runtime ≡ returned result)
    × IsUnique result
    × ((k : String)
        → find k result
          ≡ find_last k
              ((repo "o" "r" "dev" ∷ repo "p" "q" "main" ∷ []) ++ runtime_repository runtime))
repositories-find_example =
    repositories-find environment runtime (repo "o" "r" "dev" ∷ repo "p" "q" "main" ∷ []) read

-- A slash behind the `@` alone makes the loader raise, where an item without a slash is passed over.
slash_in_branch :
    parse_repository "o@r/x" "main"
    ≡ raised (record {
      class_name = "ValueError";
      text = "not enough values to unpack (expected 2, got 1)";
    })
unfolding parse_repository
slash_in_branch = refl

switches : (env_bool (some "YES") false ≡ true) × (env_bool (some "y") true ≡ false)
unfolding env_bool
switches = (refl, refl)

abbrev dotenv : String
dotenv = "# names\nA = '1'\nB=2\nA=3\n=4\n"

abbrev process : Environment
process k = if k == "B" then some "kept" else none

load_env_fallback_lem_example :
    load_env_fallback false dotenv process "A"
    ≡ or_value (process "A") (first_value "A" (splitlines dotenv))
load_env_fallback_lem_example = load_env_fallback_lem dotenv process "A"

values :
    (load_env_fallback false dotenv process "A" ≡ some "1")
    × (load_env_fallback false dotenv process "B" ≡ some "kept")
unfolding load_env_fallback load_lines set assignment
values = (refl, refl)
