-- ===== src/Worker/GitWorkflow.antt =====
-- worker/git_workflow.py: branch, commit, push and pull request of an issue, over the services
-- that do each of them. `S` is the state that the services act on.
pub mod Safety
pub mod Commands
mod Tests
use git_hub_engineering_work.Common.{
  ℕ, String, ◌==◌, Bool, true, false, not, ◌&&◌, ◌||◌, Option, none, some, List, [], ◌∷◌,
  if◌then◌else◌,
}
use git_hub_engineering_work.Common.Text.{truthy?}
use git_hub_engineering_work.Common.Outcome.{Exc}
use git_hub_engineering_work.Common.Act.{Act, ◌>>=◌, return, raise}
use git_hub_engineering_work.Github.PullRequests.{PullRequestDraft}

-- what `GitWorkflow` calls of its services
pub record Services {ℓ} (S : Type ℓ) : Type ℓ where
  pub current_branch : Act S String
  pub create_issue_branch : ℕ → String → String → Act S String
  pub changed_files : Act S (List String)
  pub create_commit : ℕ → String → List String → Act S String
  pub push_branch : String → Bool → Act S (Unit {0})
  -- the number, the title, the summary, the head, the base, and whether it is a dry run
  pub create_pr : ℕ → String → String → String → String → Bool → Act S PullRequestDraft
  pub checkout_branch : String → Act S (Unit {0})
  pub delete_branch : String → Bool → Act S (Unit {0})

-- the arguments of `complete_issue` but `path`, `owner` and `repo`, which the services hold
pub record Job : Type 0 where
  pub issue_number : ℕ
  pub issue_title : String
  pub base_branch : String
  pub summary : String
  pub auto_commit : Bool
  pub auto_push : Bool
  pub auto_create_pr : Bool
  pub dry_run_remote : Bool
  pub auto_cleanup : Bool

pub record GitWorkflowResult : Type 0 where
  pub branch : String
  pub commit_sha : Option String
  pub pushed : Bool
  pub pull_request : Option PullRequestDraft
  pub dry_run : Bool

abbrev pub refusal : Exc
refusal = record {
  class_name = "ValueError";
  text = "refusing to commit directly to the default branch";
}

-- `bool(changed)`
abbrev pub nonempty : List String → Bool
nonempty [] = false
nonempty (f ∷ fs) = true

module _ {ℓ} {S : Type ℓ} (services : Services S) (job : Job) where
  unfoldable pub branch_of : String → Act S String
  branch_of current =
      if current == job.base_branch
      then services.create_issue_branch job.issue_number job.issue_title job.base_branch
      else return current

  abbrev pub refuse : String → Act S (Unit {0})
  refuse branch = if branch == job.base_branch then raise refusal else return tt

  unfoldable pub commit_changed : List String → Act S (Option String)
  commit_changed changed =
      if job.auto_commit && nonempty changed
      then (services.create_commit job.issue_number job.issue_title changed >>= λ sha.
          return (some sha))
      else return none

  unfoldable pub push_commit : String → Option String → Act S Bool
  push_commit branch sha =
      if job.auto_push && truthy? sha
      then (services.push_branch branch job.dry_run_remote >>= λ _. return true)
      else return false

  unfoldable pub open_pr : String → Option String → Act S (Option PullRequestDraft)
  open_pr branch sha =
      if job.auto_create_pr && (truthy? sha || job.dry_run_remote)
      then (services.create_pr job.issue_number job.issue_title job.summary branch job.base_branch
            job.dry_run_remote
          >>= λ pr. return (some pr))
      else return none

  unfoldable pub clean_up : String → Act S (Unit {0})
  clean_up branch =
      if job.auto_cleanup && job.dry_run_remote && not (branch == job.base_branch)
      then (services.checkout_branch job.base_branch >>= λ _. services.delete_branch branch true)
      else return tt

  unfoldable pub after_branch : String → Act S GitWorkflowResult
  after_branch branch = services.changed_files >>= λ changed. commit_changed changed >>= λ sha.
      push_commit branch sha >>= λ pushed. open_pr branch sha >>= λ pr. clean_up branch >>= λ _.
      return (record {
        branch = branch;
        commit_sha = sha;
        pushed = pushed;
        pull_request = pr;
        dry_run = job.dry_run_remote;
      })

  unfoldable pub complete_issue : Act S GitWorkflowResult
  complete_issue = services.current_branch >>= λ current.
      branch_of current >>= λ branch. refuse branch >>= λ _. after_branch branch
