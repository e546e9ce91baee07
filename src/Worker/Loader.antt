-- ===== src/Worker/Loader.antt =====
-- worker/configuration/loader.py: the worker's configuration from the runtime's and the environment. `N` is
-- the type of `float`. The routes of Discord's channels are left out.
pub mod Repositories
pub mod Environment
mod Tests
use git_hub_engineering_work.Common.{
  ℕ, ◌*◌, ◌+◌, String, ◌<>◌, ◌==◌, Bool, true, false, not, ◌&&◌, ◌||◌, Option, none, some, List, [],
  ◌∷◌, ◌++◌, if◌then◌else◌,
}
use git_hub_engineering_work.Common.Int.{ℤ, pos, negsuc}
use git_hub_engineering_work.Common.Text.{truthy, truthy?, or_else, strip, lower_is}
use git_hub_engineering_work.Common.Text.Lines.{split_at, cut, has}
use git_hub_engineering_work.Common.Outcome.{Exc, Outcome, returned, raised, ◌>>=◌}
use git_hub_engineering_work.Worker.Models.{WorkerRepository, full_name}
use git_hub_engineering_work.Worker.Config.{WorkerConfiguration}

-- `environment.get`
abbrev pub Environment : Type 0
Environment = String → Option String

-- of `RuntimeConfiguration`, what the loader reads
pub record RuntimeConfiguration : Type 0 where
  pub owner : Option String
  pub repository : Option String
  pub default_base_branch : String
  pub branch_naming_template : String
  pub workspace : String
  -- `str(audit_dir / "worker")`
  pub worker_audit_dir : String
  pub max_retry_attempts : ℤ
  pub max_parallel_issues : ℤ

-- `int` and `float` of a text, which raise for a text that is no number
pub record Numbers : Type 1 where
  pub N : Type 0
  pub int_of : String → Outcome ℤ
  pub float_of : String → Outcome N

-- `environment.get(key, default)`
abbrev pub get_or : Environment → String → String → String
get_or env key default = elim (env key) [ none ↦ default | some value ↦ value ]

-- `_env_bool`
unfoldable pub env_bool : Option String → Bool → Bool
env_bool none default = default
env_bool (some value) default =
    lower_is value "1" || lower_is value "true" || lower_is value "yes" || lower_is value "on"

-- `owner, name = full_name.split("/", 1)`, which fails where there is no slash
abbrev pub unpack : String × Option String → Outcome (String × String)
unpack (owner, none) =
    raised (record {
      class_name = "ValueError";
      text = "not enough values to unpack (expected 2, got 1)";
    })
unpack (owner, some name) = returned (owner, name)

-- `branch or default_branch`, of the text behind the `@` or the empty text
abbrev pub branch_or : Option String → String → String
branch_or none default = default
branch_or (some branch) default = if truthy branch then branch else default

-- `_parse_repository`
unfoldable pub parse_repository : String → String → Outcome (Option WorkerRepository)
unfolding cut
parse_repository value default_branch =
    if not (truthy value) || not (has value "/")
    then returned none
    else (unpack (cut 47 (cut 64 value).0) >>= λ (owner, name). returned (
        some (record {
          owner = owner;
          name = name;
          default_branch = branch_or (cut 64 value).1 default_branch;
        })))

abbrev pub add_found : Option WorkerRepository → List WorkerRepository → List WorkerRepository
add_found none repos = repos
add_found (some repo) repos = repo ∷ repos

-- the loop over the items
unfoldable pub parse_items : String → List String → Outcome (List WorkerRepository)
unfolding strip
parse_items default_branch [] = returned []
parse_items default_branch (item ∷ items) = parse_repository (strip item) default_branch >>= λ repo.
    parse_items default_branch items >>= λ repos. returned (add_found repo repos)

-- `deduped[repo.full_name] = repo`: an entry keeps its place and takes the new value
unfoldable pub assign : WorkerRepository → List WorkerRepository → List WorkerRepository
unfolding full_name
assign repo [] = repo ∷ []
assign repo (r ∷ repos) =
    let rest = assign repo repos in if full_name r == full_name repo then repo ∷ repos else r ∷ rest

-- `tuple({repo.full_name: repo for repo in repos}.values())`, from the entries that are there
unfoldable pub dedupe : List WorkerRepository → List WorkerRepository → List WorkerRepository
dedupe entries [] = entries
dedupe entries (repo ∷ repos) = dedupe (assign repo entries) repos

abbrev pub configured_items : Option String → List String
configured_items none = []
configured_items (some text) = if truthy text then split_at 44 text else []

-- the repository of the runtime's configuration
abbrev pub runtime_repository : RuntimeConfiguration → List WorkerRepository
runtime_repository config =
    if truthy? config.owner && truthy? config.repository
    then (record {
      owner = or_else config.owner "";
      name = or_else config.repository "";
      default_branch = config.default_base_branch;
    })
      ∷ []
    else []

-- `_repositories`
unfoldable pub repositories : Environment → RuntimeConfiguration → Outcome (List WorkerRepository)
unfolding split_at
repositories env config =
    parse_items config.default_base_branch (configured_items (env "WORKER_REPOSITORIES"))
    >>= λ repos. returned (dedupe [] (repos ++ runtime_repository config))

module _ (numbers : Numbers) where
  open numbers use {N, int_of, float_of}

  -- `WorkerDecisionConfiguration`, with the thresholds and the escalation rules in it
  pub record Decisions : Type 0 where
    pub auto_pr : ℤ
    pub proceed : ℤ
    pub retry_allowed : ℤ
    pub additional_context : ℤ
    pub audit_directory : String
    pub report_directory : String
    pub minimum_confidence : N
    pub max_retries : ℤ
    pub repeated_failure_limit : ℤ
    pub discord_enabled : Bool
    pub discord_webhook : Option String
    pub confidence_threshold : N
    pub run_tests : Bool

  -- `WorkerConfiguration`: the settings that the daemon reads, and the others
  pub record Loaded : Type 0 where
    pub worker : WorkerConfiguration
    pub workspace : String
    pub branch_naming : String
    pub model : Option String
    pub openclaw_cli : String
    pub openclaw_agent_id : String
    pub openclaw_agent_mode : String
    pub openclaw_agent_fallback_enabled : Bool
    pub openclaw_timeout_seconds : ℤ
    pub openclaw_retries : ℤ
    pub openclaw_thinking : Option String
    pub decisions : Decisions

  -- `_decisions`
  unfoldable pub decisions : Environment → RuntimeConfiguration → Outcome Decisions
  unfolding env_bool
  decisions env config = int_of (get_or env "CONFIDENCE_AUTO_PR" "90") >>= λ auto_pr.
      int_of (get_or env "CONFIDENCE_PROCEED" "75") >>= λ proceed.
      int_of (get_or env "CONFIDENCE_RETRY_ALLOWED" "60") >>= λ retry_allowed.
      int_of (get_or env "CONFIDENCE_ADDITIONAL_CONTEXT" "40") >>= λ additional_context.
      float_of (get_or env "ESCALATION_MIN_CONFIDENCE" "40") >>= λ minimum_confidence.
      int_of (get_or env "ESCALATION_REPEATED_FAILURE_LIMIT" "2") >>= λ repeated_failure_limit.
      float_of (get_or env "WORKER_CONFIDENCE_THRESHOLD" "0") >>= λ confidence_threshold.
      returned (record {
        auto_pr = auto_pr;
        proceed = proceed;
        retry_allowed = retry_allowed;
        additional_context = additional_context;
        audit_directory = get_or env "WORKER_AUDIT_DIR" config.worker_audit_dir;
        report_directory = get_or env "WORKER_REPORT_DIR" "reports/worker";
        minimum_confidence = minimum_confidence;
        max_retries = config.max_retry_attempts;
        repeated_failure_limit = repeated_failure_limit;
        discord_enabled = env_bool (env "DISCORD_ENABLED") false;
        discord_webhook = env "DISCORD_WEBHOOK";
        confidence_threshold = confidence_threshold;
        run_tests = env_bool (env "WORKER_RUN_TESTS") false;
      })

  -- `timedelta(minutes=n)` in microseconds
  abbrev pub minutes : ℤ → ℤ
  minutes (pos n) = pos (n * 60_000_000)
  minutes (negsuc n) = negsuc (n * 60_000_000 + 59_999_999)

  -- `a or b` of two optional texts
  abbrev pub either : Option String → Option String → Option String
  either a b = if truthy? a then a else b

  -- `environment.get("WORKER_MODE") or (CRON if cron else WATCH)`
  abbrev pub mode_of : Environment → String
  mode_of env =
      or_else (env "WORKER_MODE") (if truthy? (env "WORKER_CRON") then "cron" else "watch")

  unfoldable pub load : Environment → RuntimeConfiguration → Outcome Loaded
  unfolding env_bool
  load env config = repositories env config >>= λ repos.
      int_of (get_or env "WORKER_POLL_INTERVAL_MINUTES" "30") >>= λ interval.
      int_of (get_or env "OPENCLAW_PROVIDER_TIMEOUT_SECONDS" "180") >>= λ timeout.
      int_of (get_or env "OPENCLAW_PROVIDER_RETRIES" "1") >>= λ retries.
      decisions env config >>= λ chosen. returned (record {
        worker = record {
          repositories = repos;
          poll_interval = minutes interval;
          cron = env "WORKER_CRON";
          mode = mode_of env;
          default_branch = config.default_base_branch;
          max_retries = config.max_retry_attempts;
          max_concurrent_workers = config.max_parallel_issues;
          auto_create_pr = env_bool (env "WORKER_AUTO_CREATE_PR") true;
          auto_push = env_bool (env "WORKER_AUTO_PUSH") true;
          auto_commit = env_bool (env "WORKER_AUTO_COMMIT") true;
          auto_cleanup = env_bool (env "WORKER_AUTO_CLEANUP") false;
          continue_on_failure = env_bool (env "WORKER_CONTINUE_ON_FAILURE") true;
        };
        workspace = config.workspace;
        branch_naming = config.branch_naming_template;
        model = either (env "WORKER_MODEL") (env "OPENCLAW_MODEL");
        openclaw_cli = get_or env "OPENCLAW_CLI" "openclaw";
        openclaw_agent_id = get_or env "OPENCLAW_AGENT_ID" "main";
        openclaw_agent_mode = get_or env "OPENCLAW_AGENT_MODE" "agent";
        openclaw_agent_fallback_enabled = env_bool (env "OPENCLAW_AGENT_FALLBACK_ENABLED") true;
        openclaw_timeout_seconds = timeout;
        openclaw_retries = retries;
        openclaw_thinking = env "OPENCLAW_PROVIDER_THINKING";
        decisions = chosen;
      })
