-- ===== src/Worker/GitWorkflow/Commands.antt =====
-- worker/git_workflow.py over the services of github/: which git commands it runs.
use git_hub_engineering_work.Common.{ℕ, String, ◌≡◌, true, Option, some, List}
use git_hub_engineering_work.Common.Outcome.{Outcome}
use git_hub_engineering_work.Common.Act.{Act, ◌>>=◌, return}
use git_hub_engineering_work.Github.Shell.{
  Git, Shell, checkout_branch, create_branch, delete_branch, current_branch, changed_files,
  push_branch, create_commit,
}
use git_hub_engineering_work.Github.Pushes.{
  pushes, Quiet, bind-Quiet, still-Quiet, current_branch-Quiet, changed_files-Quiet,
  checkout_branch-Quiet, create_branch-Quiet, delete_branch-Quiet, create_commit-Quiet,
  push_branch-Quiet, choose-Quiet,
}
use git_hub_engineering_work.Github.Branches.{slug}
use git_hub_engineering_work.Github.PullRequests.{Created, create_pr, create_pull_request}
use git_hub_engineering_work.Worker.GitWorkflow.{
  Services, Job, refuse, branch_of, commit_changed, push_commit, open_pr, clean_up, after_branch,
  complete_issue,
}

-- The configured templates, as `str.format` fills them, and `str.lower`.
pub record Templates : Type 0 where
  pub lower : String → String
  pub branch_name : ℕ → String → String → Outcome String
  pub commit_message : ℕ → String → Outcome String
  pub pr_title : ℕ → String → Outcome String
  pub pr_body : ℕ → String → Outcome String

module _ (git : Git) (templates : Templates)
    (post : String → String → String → String → Act git.World Created) where
  -- the request of the client, which leaves the commands as they are
  abbrev post_in : String → String → String → String → Act (Shell git) Created
  post_in title body head base s =
      let (w, o) = post title body head base s.world in (record s { world = w }, o)

  -- `BranchService.create_issue_branch`
  unfoldable pub create_issue_branch : ℕ → String → String → Act (Shell git) String
  create_issue_branch number title base =
      (λ s. (s, templates.branch_name number title (slug (templates.lower title)))) >>= λ branch.
      create_branch git branch (some base) true >>= λ _. return branch

  -- the services of `GitWorkflow.create`
  abbrev pub services : Services (Shell git)
  services = record {
    current_branch = current_branch git;
    create_issue_branch = create_issue_branch;
    changed_files = changed_files git;
    create_commit =
        λ number title files. create_commit git (templates.commit_message number title) files;
    push_branch = push_branch git;
    create_pr = λ number title summary head base dry_run.
        create_pr post_in (templates.pr_title number title) (templates.pr_body number summary) head
          base dry_run;
    checkout_branch = checkout_branch git;
    delete_branch = delete_branch git;
  }

module _ (git : Git) where
  module _ (templates : Templates)
      (post : String → String → String → String → Act git.World Created) (job : Job) where
    create_issue_branch-Quiet :
        (n : ℕ) (title base : String)
        → Quiet git (create_issue_branch git templates post n title base)
    unfolding create_issue_branch
    create_issue_branch-Quiet n title base = bind-Quiet git _ _ (still-Quiet git _) λ branch.
        bind-Quiet git _ _ (create_branch-Quiet git branch (some base) true) λ u. still-Quiet git _

    create_pr-Quiet :
        (title body : Outcome String) (head base : String)
        → Quiet git (create_pr (post_in git templates post) title body head base true)
    unfolding create_pr create_pull_request
    create_pr-Quiet title body head base = bind-Quiet git _ _ (still-Quiet git _) λ t.
        bind-Quiet git _ _ (still-Quiet git _)
          λ b. bind-Quiet git _ _ (still-Quiet git _) λ u. still-Quiet git _

    push_commit-Quiet :
        (branch : String) (sha : Option String)
        → job.dry_run_remote ≡ true
        → Quiet git (push_commit (services git templates post) job branch sha)
    unfolding push_commit
    push_commit-Quiet branch sha dry =
        choose-Quiet git _ _ _
          (bind-Quiet git _ _ (rw dry (push_branch-Quiet git branch)) λ u. still-Quiet git _)
          (still-Quiet git _)

    open_pr-Quiet :
        (branch : String) (sha : Option String)
        → job.dry_run_remote ≡ true
        → Quiet git (open_pr (services git templates post) job branch sha)
    unfolding open_pr
    open_pr-Quiet branch sha dry =
        choose-Quiet git _ _ _
          (bind-Quiet git _ _ (rw dry (create_pr-Quiet _ _ _ _)) λ u. still-Quiet git _)
          (still-Quiet git _)

    commit_changed-Quiet :
        (changed : List String)
        → Quiet git (commit_changed (services git templates post) job changed)
    unfolding commit_changed
    commit_changed-Quiet changed =
        choose-Quiet git _ _ _
          (bind-Quiet git _ _ (create_commit-Quiet git _ changed) λ u. still-Quiet git _)
          (still-Quiet git _)

    clean_up-Quiet :
        (branch : String) → Quiet git (clean_up (services git templates post) job branch)
    unfolding clean_up
    clean_up-Quiet branch =
        choose-Quiet git _ _ _
          (bind-Quiet git _ _ (checkout_branch-Quiet git _)
            λ u. delete_branch-Quiet git branch true)
          (still-Quiet git _)

    after_branch-Quiet :
        (branch : String)
        → job.dry_run_remote ≡ true
        → Quiet git (after_branch (services git templates post) job branch)
    unfolding after_branch
    after_branch-Quiet branch dry = bind-Quiet git _ _ (changed_files-Quiet git) λ changed.
        bind-Quiet git _ _ (commit_changed-Quiet changed) λ sha.
          bind-Quiet git _ _ (push_commit-Quiet branch sha dry) λ pushed.
            bind-Quiet git _ _ (open_pr-Quiet branch sha dry)
              λ pr. bind-Quiet git _ _ (clean_up-Quiet branch) λ u. still-Quiet git _

    branch_of-Quiet :
        (current : String) → Quiet git (branch_of (services git templates post) job current)
    unfolding branch_of
    branch_of-Quiet current =
        choose-Quiet git _ _ _ (create_issue_branch-Quiet _ _ _) (still-Quiet git _)

    refuse-Quiet : (branch : String) → Quiet git (refuse (services git templates post) job branch)
    refuse-Quiet branch = choose-Quiet git _ _ _ (still-Quiet git _) (still-Quiet git _)

    complete_issue-Quiet :
        job.dry_run_remote ≡ true → Quiet git (complete_issue (services git templates post) job)
    unfolding complete_issue
    complete_issue-Quiet dry = bind-Quiet git _ _ (current_branch-Quiet git) λ current.
        bind-Quiet git _ _ (branch_of-Quiet current)
          λ branch. bind-Quiet git _ _ (refuse-Quiet branch) λ u. after_branch-Quiet branch dry

    -- As a dry run, `complete_issue` over the services of github/ never runs `git push`, whether it
    -- returns or raises: the pushes among the commands that were run stay the same.
    pub complete_issue-dry :
        (s : Shell git)
        → job.dry_run_remote ≡ true
        → pushes (complete_issue (services git templates post) job s).0.ran ≡ pushes s.ran
    unfolding Quiet
    complete_issue-dry s dry = complete_issue-Quiet dry s
