-- ===== src/Worker/Controller/Execution.antt =====
-- worker/controller.py, `execute`: checkout, agent attempts, report, git workflow, and what is done
-- when any of them raises. The engineering pipeline, the workspace, the audit log, the report files
-- and the notifications are the fields of `Steps`.
pub mod Attempts
pub mod Settled
use git_hub_engineering_work.Common.{
  ℕ, zero, suc, String, ◌==◌, Bool, true, not, ◌||◌, Option, none, some, List, [], if◌then◌else◌,
}
use git_hub_engineering_work.Common.Int.{ℤ, pos, ltb_ℤ}
use git_hub_engineering_work.Common.Text.{truthy?}
use git_hub_engineering_work.Common.Outcome.{Exc, Outcome, returned, raised}
use git_hub_engineering_work.Common.Act.{Act, ◌>>=◌, return, raise}
use git_hub_engineering_work.Worker.GitWorkflow.{Services, Job, GitWorkflowResult, nonempty}
use git_hub_engineering_work.Worker.Controller.{
  Traced, StageTimelineEntry, run_stage, add_entry, ensure_failure_stage,
}
use git_hub_engineering_work.Worker.Controller.Git.{complete_git_workflow}

-- `EngineeringResult`: the changed files, and of its metadata the exception and the reason for
-- falling back, where it has metadata
pub record EngineeringResult : Type 0 where
  pub files_modified : List String
  pub stage_exception : Option String
  pub fallback_reason : Option String

pub record ControllerResult : Type 0 where
  pub status : String
  pub engineering_result : Option EngineeringResult
  pub git_result : Option GitWorkflowResult
  pub attempts : ℕ
  pub error : Option String

-- `succeeded`
unfoldable pub succeeded : ControllerResult → Bool
succeeded r =
    r.status == "completed"
    || r.status == "pull_request_created"
    || r.status == "dry_run_pr_created"

pub record Steps {ℓ} (S : Type ℓ) : Type ℓ where
  pub services : Services S
  pub get_repository : Act S (Unit {0})
  pub clone_or_reuse : Act S (Unit {0})
  pub refresh : Act S (Unit {0})
  pub create_issue_branch : Act S (Unit {0})
  pub run_until_patch : Act S EngineeringResult
  -- `_audit`, with its action and its result
  pub audit : String → String → Act S (Unit {0})
  -- confidence, report and escalation of the evidence, and `_persist_report`; the summary of the report
  pub assess : List StageTimelineEntry → Act S String
  pub notify_escalation : Act S (Unit {0})
  pub notify_success : GitWorkflowResult → Act S (Unit {0})
  pub notify_error : Exc → Act S (Unit {0})

-- what `execute` reads of the issue, the repository and the configuration
pub record Settings : Type 0 where
  pub max_retries : ℤ
  pub issue_attempts : ℕ
  -- the job of the git workflow for a summary
  pub job : String → Job

module _ {ℓ} {S : Type ℓ} where
  abbrev pub lift {κ} : {A : Type κ} → Act S A → Act (Traced S) A
  lift action t = let (s, o) = action t.inner in (record t { inner = s }, o)

  unfoldable pub caught {κ} :
      {A : Type κ} → (Exc → Act (Traced S) A) → Traced S × Outcome A → Traced S × Outcome A
  caught handler (t, returned a) = (t, returned a)
  caught handler (t, raised e) = handler e t

  -- `_record_agent_completion_stage`
  unfoldable pub record_agent_completion : EngineeringResult → Traced S → Traced S
  record_agent_completion result t =
      add_entry
        (record {
          stage_name = "OpenClaw Agent completion";
          passed = not (truthy? result.stage_exception || truthy? result.fallback_reason);
          exception =
              if truthy? result.stage_exception
              then result.stage_exception
              else result.fallback_reason;
        })
        t

-- The rounds that any number of retries needs.
abbrev pub rounds_of : ℤ → ℕ
rounds_of (pos n) = suc n
rounds_of _ = 1

abbrev pub status_of : GitWorkflowResult → String
status_of git = if git.dry_run then "dry_run_pr_created" else "pull_request_created"

module _ {ℓ} {S : Type ℓ} (steps : Steps S) (settings : Settings) where
  -- one attempt
  unfoldable pub launch : Act (Traced S) EngineeringResult
  unfolding record_agent_completion
  launch = run_stage "OpenClaw Agent launch" steps.run_until_patch >>= λ result t.
      (record_agent_completion result t, returned result)

  -- The loop over attempts, with the attempts so far and the last result; the first argument bounds
  -- its rounds.
  unfoldable pub attempt_loop :
      ℕ → ℕ → Option EngineeringResult → Act (Traced S) (ℕ × Option EngineeringResult)
  attempt_loop zero count last = return (count, last)
  attempt_loop (suc rounds) count last =
      if ltb_ℤ settings.max_retries (pos count)
      then return (count, last)
      else (launch >>= λ result.
          if nonempty result.files_modified
          then return (suc count, some result)
          else if ltb_ℤ settings.max_retries (pos (suc count))
          then return (suc count, some result)
          else (lift (steps.audit "engineering_retry" "no_repository_changes") >>= λ _.
              attempt_loop rounds (suc count) (some result)))

  -- `workspace.refresh(…)` as a stage
  abbrev refresh_stage : Act (Traced S) (Unit {0})
  refresh_stage = run_stage "Repository checkout" steps.refresh

  unfoldable pub assess_timeline : Act (Traced S) String
  assess_timeline t = lift (steps.assess t.timeline) t

  -- the branch for a result without changed files
  unfoldable pub escalate : ℕ → EngineeringResult → Act (Traced S) ControllerResult
  escalate attempts result = lift (steps.audit "decision" "escalated") >>= λ _.
      run_stage "Discord notification" steps.notify_escalation >>= λ _. refresh_stage >>= λ _.
      assess_timeline >>= λ _. return (record {
        status = "escalated";
        engineering_result = some result;
        git_result = none;
        attempts = attempts;
        error = none;
      })

  unfoldable pub deliver : ℕ → EngineeringResult → String → Act (Traced S) ControllerResult
  deliver attempts result summary =
      run_stage "Repository changes detection" (return result.files_modified) >>= λ _.
      complete_git_workflow steps.services (settings.job summary) >>= λ git.
      lift (steps.audit "controller_completed" (status_of git)) >>= λ _.
      run_stage "Discord notification" (steps.notify_success git) >>= λ _. assess_timeline >>= λ _.
      return (record {
        status = status_of git;
        engineering_result = some result;
        git_result = some git;
        attempts = attempts;
        error = none;
      })

  abbrev assertion_error : Exc
  assertion_error = record { class_name = "AssertionError"; text = "" }

  -- what follows the loop; `assert engineering_result is not None`
  unfoldable pub conclude : ℕ × Option EngineeringResult → Act (Traced S) ControllerResult
  conclude (attempts, none) = raise assertion_error
  conclude (attempts, some result) = assess_timeline >>= λ summary.
      if nonempty result.files_modified
      then deliver attempts result summary
      else escalate attempts result

  -- the `try` block
  unfoldable pub attempt : Act (Traced S) ControllerResult
  attempt t =
      (run_stage "Workspace" steps.get_repository >>= λ _.
      run_stage "Repository checkout" steps.clone_or_reuse >>= λ _. refresh_stage >>= λ _.
      run_stage "Branch creation" steps.create_issue_branch >>= λ _.
      attempt_loop (rounds_of settings.max_retries) 0 none >>= λ done. conclude done)
        (add_entry (record { stage_name = "Queue"; passed = true; exception = none }) t)

  unfoldable pub ignore_error : Act (Traced S) (Unit {0}) → Act (Traced S) (Unit {0})
  unfolding caught
  ignore_error action t = caught (λ e. return tt) (action t)

  -- the `except` block
  unfoldable pub recover : Exc → Act (Traced S) ControllerResult
  recover e t =
      (assess_timeline >>= λ _. lift (steps.audit "controller_failed" "failed") >>= λ _.
      ignore_error (run_stage "Discord notification" (steps.notify_error e)) >>= λ _.
      assess_timeline >>= λ _. return (record {
        status = "failed";
        engineering_result = none;
        git_result = none;
        attempts = settings.issue_attempts;
        error = some e.text;
      }))
        (record t { timeline = ensure_failure_stage e t.timeline })

  unfoldable pub execute : Act S ControllerResult
  execute s =
      let (t, outcome) =
        (lift (steps.audit "controller_started" "started") >>= λ _ t. caught recover (attempt t))
          (record { inner = s; timeline = [] }) in
      (t.inner, outcome)
