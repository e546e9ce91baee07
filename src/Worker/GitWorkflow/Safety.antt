-- ===== src/Worker/GitWorkflow/Safety.antt =====
-- worker/git_workflow.py: what holds of every result of `complete_issue`.
use git_hub_engineering_work.Common.{
  String, ◌==◌, eq_iff, ◌≡◌, ◌≢◌, refl, sym, ◌∙◌, Bool, true, false, ◌&&◌, ◌||◌, Option, none, inl,
  inr, List, Bool-cases, arith, if◌then◌else◌,
}
use git_hub_engineering_work.Common.Text.{truthy?}
use git_hub_engineering_work.Common.Outcome.{Outcome, returned, raised}
use git_hub_engineering_work.Common.Act.{Act, and_then}
use git_hub_engineering_work.Github.PullRequests.{PullRequestDraft}
use git_hub_engineering_work.Worker.GitWorkflow.{
  Services, Job, GitWorkflowResult, refuse, commit_changed, push_commit, open_pr, after_branch,
  complete_issue, nonempty,
}

false≢true : false ≢ true
false≢true h = ground arith

-- What the outcome is, where it is a value, has the property.
unfoldable pub Ensures {ℓ κ ι} : {S : Type ℓ} {A : Type κ} → (A → Type ι) → S × Outcome A → Type ι
Ensures P (s, returned a) = P a
Ensures P (s, raised e) = Unit

pub Ensures-any {ℓ κ} : {S : Type ℓ} {A : Type κ} (m : S × Outcome A) → Ensures (λ _. Unit {0}) m
unfolding Ensures
Ensures-any (s, returned a) = tt
Ensures-any (s, raised e) = tt

pub Ensures-and_then {ℓ κ ι μ ν} :
    {S : Type ℓ} {A : Type κ} {B : Type ι} (P : A → Type μ) (Q : B → Type ν) (m : S × Outcome A)
    (f : A → Act S B)
    → Ensures P m
    → ((a : A) → P a → (s : S) → Ensures Q (f a s))
    → Ensures Q (and_then m f)
unfolding and_then Ensures
Ensures-and_then P Q (s, returned a) f h k = k a h s
Ensures-and_then P Q (s, raised e) f h k = tt

pub Ensures-returned {ℓ κ ι} :
    {S : Type ℓ} {A : Type κ} (P : A → Type ι) (s : S) (a : A) → P a → Ensures P (s, returned a)
unfolding Ensures
Ensures-returned P s a h = h

pub Ensures-if {ℓ κ ι} :
    {S : Type ℓ} {A : Type κ} (P : A → Type ι) (b : Bool) (m k : Act S A) (s : S)
    → Ensures P (m s)
    → Ensures P (k s)
    → Ensures P ((if b then m else k) s)
Ensures-if P true m k s hm hk = hm
Ensures-if P false m k s hm hk = hk

module _ {ℓ} {S : Type ℓ} (services : Services S) (job : Job) where
  -- Pushed only with a commit, a pull request only with a commit or as a dry run, and never on the
  -- base branch.
  abbrev pub IsSafe : GitWorkflowResult → Type 0
  IsSafe r =
      (r.branch ≢ job.base_branch)
      × (r.pushed ≡ true → (job.auto_push ≡ true) × (truthy? r.commit_sha ≡ true))
      × (r.commit_sha ≢ none → job.auto_commit ≡ true)
      × (r.pull_request ≢ none
          → (job.auto_create_pr ≡ true) × ((truthy? r.commit_sha || job.dry_run_remote) ≡ true))
      × (r.dry_run ≡ job.dry_run_remote)

  abbrev Committed : Option String → Type 0
  Committed sha = sha ≢ none → job.auto_commit ≡ true

  abbrev Pushed : Option String → Bool → Type 0
  Pushed sha pushed = pushed ≡ true → (job.auto_push ≡ true) × (truthy? sha ≡ true)

  abbrev Opened : Option String → Option PullRequestDraft → Type 0
  Opened sha pr =
      pr ≢ none → (job.auto_create_pr ≡ true) × ((truthy? sha || job.dry_run_remote) ≡ true)

  and-true : (a b : Bool) → (a && b) ≡ true → (a ≡ true) × (b ≡ true)
  and-true true b h = (refl, h)
  and-true false b h = ground arith

  returned-Ensures : (r : GitWorkflowResult) (s : S) → IsSafe r → Ensures IsSafe (s, returned r)
  unfolding Ensures
  returned-Ensures r s h = h

  commit_changed-Ensures :
      (changed : List String) (s : S) → Ensures Committed (commit_changed services job changed s)
  unfolding commit_changed Ensures
  commit_changed-Ensures changed s = elim (Bool-cases (job.auto_commit && nonempty changed)) [
    | inl met ↦ rw met (
        Ensures-and_then (λ _. Unit {0}) Committed _ _
          (Ensures-any (services.create_commit job.issue_number job.issue_title changed s))
          (λ sha u t. λ h. (and-true _ _ met).0))
    | inr unmet ↦ rw unmet (λ h. absurd (h refl))
  ]

  push_commit-Ensures :
      (branch : String) (sha : Option String) (s : S)
      → Ensures (Pushed sha) (push_commit services job branch sha s)
  unfolding push_commit Ensures
  push_commit-Ensures branch sha s = elim (Bool-cases (job.auto_push && truthy? sha)) [
    | inl met ↦ rw met (
        Ensures-and_then (λ _. Unit {0}) (Pushed sha) _ _
          (Ensures-any (services.push_branch branch job.dry_run_remote s))
          (λ x u t. λ h. and-true _ _ met))
    | inr unmet ↦ rw unmet (λ h. ground arith)
  ]

  open_pr-Ensures :
      (branch : String) (sha : Option String) (s : S)
      → Ensures (Opened sha) (open_pr services job branch sha s)
  unfolding open_pr Ensures
  open_pr-Ensures branch sha s =
      elim (Bool-cases (job.auto_create_pr && (truthy? sha || job.dry_run_remote))) [
        | inl met ↦ rw met (
            Ensures-and_then (λ _. Unit {0}) (Opened sha) _ _
              (Ensures-any (
                services.create_pr job.issue_number job.issue_title job.summary branch
                  job.base_branch job.dry_run_remote s))
              (λ x u t. λ h. and-true _ _ met))
        | inr unmet ↦ rw unmet (λ h. absurd (h refl))
      ]

  refuse-Ensures :
      (branch : String) (s : S)
      → Ensures (λ _. branch ≢ job.base_branch) (refuse services job branch s)
  unfolding Ensures
  refuse-Ensures branch s = elim (Bool-cases (branch == job.base_branch)) [
    | inl same ↦ rw same tt
    | inr other ↦ rw other (λ e. false≢true (sym other ∙ (eq_iff branch job.base_branch).1 e))
  ]

  after_branch-Ensures :
      (branch : String)
      → branch ≢ job.base_branch
      → (s : S) → Ensures IsSafe (after_branch services job branch s)
  unfolding after_branch
  after_branch-Ensures branch other s =
      Ensures-and_then (λ _. Unit {0}) IsSafe _ _ (Ensures-any _)
        λ changed u s.
          Ensures-and_then Committed IsSafe _ _ (commit_changed-Ensures changed s)
            λ sha committed s.
              Ensures-and_then (Pushed sha) IsSafe _ _ (push_commit-Ensures branch sha s)
                λ pushed did s.
                  Ensures-and_then (Opened sha) IsSafe _ _ (open_pr-Ensures branch sha s)
                    λ pr opened s.
                      Ensures-and_then (λ _. Unit {0}) IsSafe _ _ (Ensures-any _)
                        λ v w s. returned-Ensures _ s (other, did, committed, opened, refl)

  -- Where `complete_issue` returns a result, its branch is not the base branch; it says that it pushed
  -- only where pushing is enabled and there is a commit; it has a commit only where committing is
  -- enabled, and a pull request only where these are enabled and there is a commit or it is a dry run.
  pub complete_issue-IsSafe : (s : S) → Ensures IsSafe (complete_issue services job s)
  unfolding complete_issue
  complete_issue-IsSafe s =
      Ensures-and_then (λ _. Unit {0}) IsSafe _ _ (Ensures-any _)
        λ current u s.
          Ensures-and_then (λ _. Unit {0}) IsSafe _ _ (Ensures-any _)
            λ branch u s.
              Ensures-and_then (λ _. branch ≢ job.base_branch) IsSafe _ _ (refuse-Ensures branch s)
                λ v other s. after_branch-Ensures branch other s
