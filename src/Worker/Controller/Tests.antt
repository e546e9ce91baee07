-- ===== src/Worker/Controller/Tests.antt =====
-- Runs of the controller at concrete inputs.
use git_hub_engineering_work.Common.{ℕ, suc, String, ◌≡◌, refl, true, false, none, some, [], ◌∷◌}
use git_hub_engineering_work.Common.Int.{pos}
use git_hub_engineering_work.Common.Outcome.{returned}
use git_hub_engineering_work.Common.Act.{Act}
use git_hub_engineering_work.Worker.GitWorkflow.{Services, Job, complete_issue}
use git_hub_engineering_work.Worker.GitWorkflow.Safety.{Ensures}
use git_hub_engineering_work.Worker.Controller.{Traced}
use git_hub_engineering_work.Worker.Controller.Git.{
  forget, complete_git_workflow, complete_git_workflow-refines,
}
use git_hub_engineering_work.Worker.Controller.Execution.{
  Steps, Settings, attempt_loop, rounds_of, execute,
}
use git_hub_engineering_work.Worker.Controller.Execution.Attempts.{IsSpent, attempt_loop_lem}
use git_hub_engineering_work.Worker.Controller.Execution.Settled.{IsSettled, execute-IsSettled}

-- The state counts the calls.
abbrev done : Act ℕ (Unit {0})
done n = (suc n, returned tt)

abbrev services : Services ℕ
services = record {
  current_branch = λ n. (suc n, returned "work");
  create_issue_branch = λ k title base n. (suc n, returned "work");
  changed_files = λ n. (suc n, returned ("file" ∷ []));
  create_commit = λ k title files n. (suc n, returned "sha");
  push_branch = λ branch dry_run. done;
  create_pr = λ k title summary head base dry_run n. (
    suc n,
    returned (record {
      title = title;
      body = summary;
      head = head;
      base = base;
      html_url = none;
      number = some 1;
      dry_run = dry_run;
    }),
  );
  checkout_branch = λ branch. done;
  delete_branch = λ branch force. done;
}

abbrev job : String → Job
job summary = record {
  issue_number = 1;
  issue_title = "Crash";
  base_branch = "main";
  summary = summary;
  auto_commit = true;
  auto_push = true;
  auto_create_pr = true;
  dry_run_remote = false;
  auto_cleanup = false;
}

abbrev steps : Steps ℕ
steps = record {
  services = services;
  get_repository = done;
  clone_or_reuse = done;
  refresh = done;
  create_issue_branch = done;
  run_until_patch = λ n. (
    suc n,
    returned (record { files_modified = []; stage_exception = none; fallback_reason = none }),
  );
  audit = λ action result. done;
  assess = λ timeline n. (suc n, returned "summary");
  notify_escalation = done;
  notify_success = λ git. done;
  notify_error = λ e. done;
}

abbrev settings : Settings
settings = record { max_retries = pos 2; issue_attempts = 0; job = job }

abbrev start : Traced ℕ
start = record { inner = 0; timeline = [] }

complete_git_workflow-refines_example :
    forget (complete_git_workflow services (job "Fixed") start)
    ≡ complete_issue services (job "Fixed") 0
complete_git_workflow-refines_example = complete_git_workflow-refines services (job "Fixed") start

attempt_loop_lem_example :
    Ensures (IsSpent 2) (attempt_loop steps settings (rounds_of (pos 2)) 0 none start)
attempt_loop_lem_example = attempt_loop_lem steps settings 2 refl start

execute-IsSettled_example : Ensures (IsSettled steps settings) (execute steps settings 0)
execute-IsSettled_example = execute-IsSettled steps settings 0
