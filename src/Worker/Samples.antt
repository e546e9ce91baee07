-- ===== src/Worker/Samples.antt =====
-- Concrete data for the runs in the tests: a way to write times, issues, a configuration, a daemon.
use git_hub_engineering_work.Common.{
  ℕ, zero, suc, String, ◌==◌, eq_iff, ◌≡◌, refl, ap, true, false, not, inl, inr, Option, none, some,
  List, [], ◌∷◌, Bool-cases, arith, ltb, ◌*◌, if◌then◌else◌,
}
use git_hub_engineering_work.Common.Int.{pos}
use git_hub_engineering_work.Common.Text.{truthy}
use git_hub_engineering_work.Common.Json.{end}
use git_hub_engineering_work.Common.Outcome.{Outcome, returned, raised}
use git_hub_engineering_work.Worker.Models.{WorkerIssue, WorkerRepository}
use git_hub_engineering_work.Worker.Queue.{fresh}
use git_hub_engineering_work.Worker.Queue.Persist.{Iso}
use git_hub_engineering_work.Worker.Processed
use git_hub_engineering_work.Worker.Config.{WorkerConfiguration}
use git_hub_engineering_work.Worker.Watcher.{Watcher, GitHubIssue, Listed}
use git_hub_engineering_work.Worker.Daemon.{Daemon, Runner}
use git_hub_engineering_work.Worker.Daemon.Requests.{Python}
use git_hub_engineering_work.Worker.Daemon.Tick.{Env}
use git_hub_engineering_work.Worker.Scheduler.{Turn, Clock, second_us}

-- A time as so many letters and one more.
abbrev pub letters : ℕ → String
letters zero = "T"
letters (suc n) = String.◌∷◌ "T" (letters n)

abbrev pub count : String → ℕ
count String.[] = 0
count (String.◌∷◌ c s) = suc (count s)

abbrev pub read_letters : String → Option ℕ
read_letters String.[] = none
read_letters (String.◌∷◌ c s) = some (count s)

count-letters : (n : ℕ) → count (letters n) ≡ suc n
count-letters zero = refl
count-letters (suc n) = ap suc (count-letters n)

pub letters_back : (n : ℕ) → read_letters (letters n) ≡ some n
letters_back zero = refl
letters_back (suc n) = ap some (count-letters n)

pub letters-truthy : (n : ℕ) → truthy (letters n) ≡ true
letters-truthy n = elim (Bool-cases (letters n == "")) [
  | inl met ↦
      absurd (ground (arith, letters_back n, ap read_letters ((eq_iff (letters n) "").0 met)))
  | inr unmet ↦ ap not unmet
]

abbrev pub unary : Iso
unary = record {
  isoformat = letters;
  fromisoformat = read_letters;
  iso_back = letters_back;
  iso_truthy = letters-truthy;
}

abbrev pub issue_of : ℕ → WorkerIssue
issue_of n = record {
  repository = "octo/demo";
  number = n;
  title = some "Crash";
  url = none;
  labels = [];
  attempts = 0;
  enqueued_at = 3;
  metadata = end;
}

abbrev pub two_issues : List WorkerIssue
two_issues = issue_of 1 ∷ issue_of 2 ∷ []

abbrev pub repository : WorkerRepository
repository = record { owner = "octo"; name = "demo"; default_branch = "main" }

abbrev pub configuration : WorkerConfiguration
configuration = record {
  repositories = repository ∷ [];
  poll_interval = pos 60_000_000;
  cron = none;
  mode = "interval";
  default_branch = "main";
  max_retries = pos 2;
  max_concurrent_workers = pos 1;
  auto_create_pr = true;
  auto_push = true;
  auto_commit = true;
  auto_cleanup = false;
  continue_on_failure = true;
}

abbrev pub watcher : Watcher
watcher = record { queue = fresh; processed = Processed.fresh; in_progress = [] }

abbrev pub daemon : Daemon
daemon = record {
  config = configuration;
  watcher = watcher;
  status = record {
    running = false;
    current_issue = none;
    processed_count = 0;
    queued_count = 0;
    last_poll_at = none;
    last_error = none;
  };
  written = none;
  notes = [];
  audit = [];
}

abbrev pub github_issue : GitHubIssue
github_issue = record {
  number = 7;
  title = "Crash";
  state = "open";
  body = none;
  html_url = "u";
  labels = [];
  comments = 0;
  user_login = none;
  pull_request = false;
}

abbrev pub listing : WorkerRepository → Outcome (List Listed)
listing r = returned ((github_issue, 5) ∷ [])

-- an execution that fails after the last retry, and one that raises
abbrev pub failing : Runner unary
failing = record {
  execute = λ issue. returned (record { succeeded = false; status = "failed" });
  now = 9;
}

abbrev pub raising : Runner unary
raising = record {
  execute = λ issue. raised (record { class_name = "RuntimeError"; text = "boom" });
  now = 9;
}

-- a `timedelta` of at most 999999999 days
abbrev pub python : Python
python = record {
  str_of = λ v. "";
  is_zero = λ n. false;
  type_name = λ v. "";
  int_of = λ v. raised (record { class_name = "TypeError"; text = "int() argument" });
  timedelta = λ n.
      if ltb 86_399_999_999_999 n
      then raised (record { class_name = "OverflowError"; text = "days" })
      else returned (pos (n * second_us));
}

abbrev pub environment : Env unary
environment = record {
  python = python;
  request = none;
  control = none;
  now = 8;
  listing = listing;
  runner = failing;
}

abbrev pub clock : Clock
clock = record { minute = 17; second = 30; micro = 0 }

abbrev pub turns : List (Turn (Env unary))
turns =
    record { cancelled = false; env = environment; clock = clock }
    ∷ record { cancelled = true; env = environment; clock = clock }
    ∷ []
