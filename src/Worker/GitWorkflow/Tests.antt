-- ===== src/Worker/GitWorkflow/Tests.antt =====
-- Runs of the git workflow at concrete inputs.
use git_hub_engineering_work.Common.{
  String, ◌==◌, if◌then◌else◌, ◌≡◌, refl, Bool, true, false, none, List, [], ◌∷◌,
}
use git_hub_engineering_work.Common.Outcome.{returned}
use git_hub_engineering_work.Common.Act.{Act}
use git_hub_engineering_work.Github.Shell.{Git, Shell, Completed}
use git_hub_engineering_work.Github.Pushes.{pushes}
use git_hub_engineering_work.Github.PullRequests.{Created}
use git_hub_engineering_work.Worker.GitWorkflow.{Job, complete_issue}
use git_hub_engineering_work.Worker.GitWorkflow.Safety.{Ensures, IsSafe, complete_issue-IsSafe}
use git_hub_engineering_work.Worker.GitWorkflow.Commands.{Templates, services, complete_issue-dry}

-- A git that succeeds at everything: on the branch `work`, with one changed file.
abbrev answer : List String → Completed
answer (a ∷ rest) =
    if a == "branch"
    then record { failed = false; stdout = "work"; stderr = "" }
    else record { failed = false; stdout = " M file"; stderr = "" }
answer [] = record { failed = true; stdout = ""; stderr = "" }

abbrev pub git : Git
git = record {
  World = Unit;
  run = λ args w. (w, answer args);
  splitlines = λ s. s ∷ [];
  path_of = λ s. s;
}

abbrev templates : Templates
templates = record {
  lower = λ s. s;
  branch_name = λ n title slug. returned slug;
  commit_message = λ n title. returned title;
  pr_title = λ n title. returned title;
  pr_body = λ n summary. returned summary;
}

abbrev post : String → String → String → String → Act (Unit {0}) Created
post title body head base w = (w, returned (record { html_url = none; number = none }))

abbrev job_of : Bool → Job
job_of dry_run = record {
  issue_number = 1;
  issue_title = "Crash";
  base_branch = "main";
  summary = "Fixed";
  auto_commit = true;
  auto_push = true;
  auto_create_pr = true;
  dry_run_remote = dry_run;
  auto_cleanup = true;
}

abbrev shell : Shell git
shell = record { world = tt; ran = [] }

complete_issue-IsSafe_example :
    Ensures
      (IsSafe (services git templates post) (job_of false))
      (complete_issue (services git templates post) (job_of false) shell)
complete_issue-IsSafe_example =
    complete_issue-IsSafe (services git templates post) (job_of false) shell

complete_issue-dry_example :
    pushes (complete_issue (services git templates post) (job_of true) shell).0.ran
    ≡ pushes shell.ran
complete_issue-dry_example = complete_issue-dry git templates post (job_of true) shell refl
