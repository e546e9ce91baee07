-- ===== src/Worker/Controller/Git.antt =====
-- worker/controller.py, `_complete_git_workflow`: the git workflow over the same services, each call
-- recorded as a stage.
use git_hub_engineering_work.Common.{
  String, ◌==◌, ◌≡◌, refl, ap, ◌∙◌, Bool, true, false, not, ◌&&◌, ◌||◌, Option, none, some, inl,
  inr, List, Bool-cases, if◌then◌else◌,
}
use git_hub_engineering_work.Common.Text.{truthy?}
use git_hub_engineering_work.Common.Outcome.{Outcome, returned, raised}
use git_hub_engineering_work.Common.Act.{Act, and_then, ◌>>=◌, return, raise}
use git_hub_engineering_work.Github.PullRequests.{PullRequestDraft}
use git_hub_engineering_work.Worker.GitWorkflow.{
  Services, Job, GitWorkflowResult, refusal, refuse, nonempty, branch_of, commit_changed,
  push_commit, open_pr, clean_up, after_branch, complete_issue,
}
use git_hub_engineering_work.Worker.Controller.{StageTimelineEntry, Traced, run_stage, record_stage}

module _ {ℓ} {S : Type ℓ} (services : Services S) (job : Job) where
  unfoldable pub branch_stage : String → Act (Traced S) String
  branch_stage current =
      if current == job.base_branch
      then run_stage "Branch creation"
          (services.create_issue_branch job.issue_number job.issue_title job.base_branch)
      else return current

  unfoldable pub refuse_base : String → Act (Traced S) (Unit {0})
  refuse_base branch = if branch == job.base_branch then raise refusal else return tt

  unfoldable pub commit_stage : List String → Act (Traced S) (Option String)
  commit_stage changed =
      if job.auto_commit && nonempty changed
      then (run_stage "Commit" (services.create_commit job.issue_number job.issue_title changed)
          >>= λ sha. return (some sha))
      else return none

  unfoldable pub push_stage : String → Option String → Act (Traced S) Bool
  push_stage branch sha =
      if job.auto_push && truthy? sha
      then (run_stage "Push" (services.push_branch branch job.dry_run_remote) >>= λ _. return true)
      else return false

  unfoldable pub pr_stage : String → Option String → Act (Traced S) (Option PullRequestDraft)
  pr_stage branch sha =
      if job.auto_create_pr && (truthy? sha || job.dry_run_remote)
      then (run_stage "Pull Request" (
            services.create_pr job.issue_number job.issue_title job.summary branch job.base_branch
              job.dry_run_remote)
          >>= λ pr. return (some pr))
      else return none

  unfoldable pub clean_up_stages : String → Act (Traced S) (Unit {0})
  clean_up_stages branch =
      if job.auto_cleanup && job.dry_run_remote && not (branch == job.base_branch)
      then (run_stage "Repository checkout" (services.checkout_branch job.base_branch) >>= λ _.
          run_stage "Branch creation" (services.delete_branch branch true))
      else return tt

  unfoldable pub after_branch_stage : String → Act (Traced S) GitWorkflowResult
  after_branch_stage branch =
      run_stage "Repository changes detection" services.changed_files >>= λ changed.
      commit_stage changed >>= λ sha. push_stage branch sha >>= λ pushed.
      pr_stage branch sha >>= λ pr. clean_up_stages branch >>= λ _. return (record {
        branch = branch;
        commit_sha = sha;
        pushed = pushed;
        pull_request = pr;
        dry_run = job.dry_run_remote;
      })

  -- `_complete_git_workflow`
  unfoldable pub complete_git_workflow : Act (Traced S) GitWorkflowResult
  complete_git_workflow = run_stage "Commit" services.current_branch >>= λ current.
      branch_stage current >>= λ branch. refuse_base branch >>= λ _. after_branch_stage branch

-- the run without its timeline
abbrev pub forget {ℓ κ} : {S : Type ℓ} {A : Type κ} → Traced S × Outcome A → S × Outcome A
forget (t, o) = (t.inner, o)

module _ {ℓ} {S : Type ℓ} where
  forget-record_stage {κ} :
      {A : Type κ} (name : String) (timeline : List StageTimelineEntry) (m : S × Outcome A)
      → forget (record_stage name timeline m) ≡ m
  unfolding record_stage
  forget-record_stage name timeline (s, returned a) = refl
  forget-record_stage name timeline (s, raised e) = refl

  forget-run_stage {κ} :
      {A : Type κ} (name : String) (action : Act S A) (t : Traced S)
      → forget (run_stage name action t) ≡ action t.inner
  unfolding run_stage
  forget-run_stage name action t = forget-record_stage name t.timeline (action t.inner)

  forget-bound {κ ι} :
      {A : Type κ} {B : Type ι} (f : A → Act (Traced S) B) (g : A → Act S B)
      (m : Traced S × Outcome A)
      → ((a : A) (t : Traced S) → forget (f a t) ≡ g a t.inner)
      → forget (and_then m f) ≡ and_then (forget m) g
  unfolding and_then
  forget-bound f g (t, returned a) h = h a t
  forget-bound f g (t, raised e) h = refl

  forget-and_then {κ ι} :
      {A : Type κ} {B : Type ι} (f : A → Act (Traced S) B) (g : A → Act S B)
      (m : Traced S × Outcome A) {n : S × Outcome A}
      → forget m ≡ n
      → ((a : A) (t : Traced S) → forget (f a t) ≡ g a t.inner)
      → forget (and_then m f) ≡ and_then n g
  forget-and_then f g m e h = forget-bound f g m h ∙ ap (λ n. and_then n g) e

module _ {ℓ} {S : Type ℓ} (services : Services S) (job : Job) where
  forget-branch_stage :
      (current : String) (t : Traced S)
      → forget (branch_stage services job current t) ≡ branch_of services job current t.inner
  unfolding branch_stage branch_of
  forget-branch_stage current t = elim (Bool-cases (current == job.base_branch)) [
    | inl met ↦ rw met (forget-run_stage _ _ t)
    | inr unmet ↦ rw unmet refl
  ]

  forget-refuse_base :
      (branch : String) (t : Traced S)
      → forget (refuse_base services job branch t) ≡ refuse services job branch t.inner
  unfolding refuse_base
  forget-refuse_base branch t = elim (Bool-cases (branch == job.base_branch)) [
    | inl met ↦ rw met refl
    | inr unmet ↦ rw unmet refl
  ]

  forget-commit_stage :
      (changed : List String) (t : Traced S)
      → forget (commit_stage services job changed t) ≡ commit_changed services job changed t.inner
  unfolding commit_stage commit_changed
  forget-commit_stage changed t = elim (Bool-cases (job.auto_commit && nonempty changed)) [
    | inl met ↦ rw met (forget-and_then _ _ _ (forget-run_stage _ _ t) (λ a u. refl))
    | inr unmet ↦ rw unmet refl
  ]

  forget-push_stage :
      (branch : String) (sha : Option String) (t : Traced S)
      → forget (push_stage services job branch sha t) ≡ push_commit services job branch sha t.inner
  unfolding push_stage push_commit
  forget-push_stage branch sha t = elim (Bool-cases (job.auto_push && truthy? sha)) [
    | inl met ↦ rw met (forget-and_then _ _ _ (forget-run_stage _ _ t) (λ a u. refl))
    | inr unmet ↦ rw unmet refl
  ]

  forget-pr_stage :
      (branch : String) (sha : Option String) (t : Traced S)
      → forget (pr_stage services job branch sha t) ≡ open_pr services job branch sha t.inner
  unfolding pr_stage open_pr
  forget-pr_stage branch sha t =
      elim (Bool-cases (job.auto_create_pr && (truthy? sha || job.dry_run_remote))) [
        | inl met ↦ rw met (forget-and_then _ _ _ (forget-run_stage _ _ t) (λ a u. refl))
        | inr unmet ↦ rw unmet refl
      ]

  forget-clean_up_stages :
      (branch : String) (t : Traced S)
      → forget (clean_up_stages services job branch t) ≡ clean_up services job branch t.inner
  unfolding clean_up_stages clean_up
  forget-clean_up_stages branch t =
      elim (Bool-cases
        (job.auto_cleanup && job.dry_run_remote && not (branch == job.base_branch))) [
          | inl met ↦
              rw met
                (forget-and_then _ _ _ (forget-run_stage _ _ t) (λ a u. forget-run_stage _ _ u))
          | inr unmet ↦ rw unmet refl
        ]

  forget-after_branch_stage :
      (branch : String) (t : Traced S)
      → forget (after_branch_stage services job branch t) ≡ after_branch services job branch t.inner
  unfolding after_branch_stage after_branch
  forget-after_branch_stage branch t = forget-and_then _ _ _ (forget-run_stage _ _ t) λ changed t.
      forget-and_then _ _ _ (forget-commit_stage changed t) λ sha t.
        forget-and_then _ _ _ (forget-push_stage branch sha t) λ pushed t.
          forget-and_then _ _ _ (forget-pr_stage branch sha t)
            λ pr t. forget-and_then _ _ _ (forget-clean_up_stages branch t) λ u t. refl

  -- The controller's `_complete_git_workflow` does to the services' state, and returns or raises,
  -- exactly what `GitWorkflow.complete_issue` does: it only adds a timeline.
  pub complete_git_workflow-refines :
      (t : Traced S)
      → forget (complete_git_workflow services job t) ≡ complete_issue services job t.inner
  unfolding complete_git_workflow complete_issue
  complete_git_workflow-refines t = forget-and_then _ _ _ (forget-run_stage _ _ t) λ current t.
      forget-and_then _ _ _ (forget-branch_stage current t) λ branch t.
        forget-and_then _ _ _ (forget-refuse_base branch t)
          λ u t. forget-after_branch_stage branch t
