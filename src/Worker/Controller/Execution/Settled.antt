-- ===== src/Worker/Controller/Execution/Settled.antt =====
-- worker/controller.py, `execute`: the results that it can return.
use git_hub_engineering_work.Common.{
  ℕ, String, ◌≡◌, ◌≢◌, refl, sym, subst, true, false, ◌⊎◌, inl, inr, Option, none, some, Bool-cases,
  arith,
}
use git_hub_engineering_work.Common.Outcome.{Exc, Outcome, returned, raised}
use git_hub_engineering_work.Common.Act.{Act}
use git_hub_engineering_work.Worker.GitWorkflow.{nonempty, GitWorkflowResult}
use git_hub_engineering_work.Worker.GitWorkflow.Safety.{
  Ensures, Ensures-any, Ensures-and_then, IsSafe, complete_issue-IsSafe,
}
use git_hub_engineering_work.Worker.Controller.{Traced}
use git_hub_engineering_work.Worker.Controller.Git.{forget, complete_git_workflow-refines}
use git_hub_engineering_work.Worker.Controller.Execution.{
  EngineeringResult, ControllerResult, Steps, Settings, succeeded, status_of, caught, escalate,
  deliver, conclude, attempt, recover, execute,
}
use git_hub_engineering_work.Worker.Controller.Execution.Attempts.{returned-Ensures}

Ensures-forget {ℓ κ ι} :
    {S : Type ℓ} {A : Type κ} (P : A → Type ι) (m : Traced S × Outcome A)
    → Ensures P (forget m)
    → Ensures P m
unfolding Ensures
Ensures-forget P (t, returned a) h = h
Ensures-forget P (t, raised e) h = tt

forget-Ensures {ℓ κ ι} :
    {S : Type ℓ} {A : Type κ} (P : A → Type ι) (m : Traced S × Outcome A)
    → Ensures P m
    → Ensures P (forget m)
unfolding Ensures
forget-Ensures P (t, returned a) h = h
forget-Ensures P (t, raised e) h = tt

Ensures-caught {ℓ κ ι} :
    {S : Type ℓ} {A : Type κ} (P : A → Type ι) (handler : Exc → Act (Traced S) A)
    (m : Traced S × Outcome A)
    → Ensures P m
    → ((e : Exc) (t : Traced S) → Ensures P (handler e t))
    → Ensures P (caught handler m)
unfolding caught Ensures
Ensures-caught P handler (t, returned a) h k = h
Ensures-caught P handler (t, raised e) h k = k e t

module _ {ℓ} {S : Type ℓ} (steps : Steps S) (settings : Settings) where
  -- a failure: no result of the agent or of git, and the error
  abbrev pub IsFailed : ControllerResult → Type 0
  IsFailed r =
      (r.status ≡ "failed") × (r.git_result ≡ none) × (r.error ≢ none) × (succeeded r ≡ false)

  -- the agent changed no file
  abbrev pub IsEscalated : ControllerResult → Type 0
  IsEscalated r =
      (r.status ≡ "escalated")
      × (r.git_result ≡ none)
      × ((result : EngineeringResult) × (r.engineering_result ≡ some result)
          × (nonempty result.files_modified ≡ false))
      × (succeeded r ≡ false)

  -- files were changed, and the git workflow was carried out safely
  abbrev pub IsDelivered : ControllerResult → Type 0
  IsDelivered r =
      ((git : GitWorkflowResult) × (r.git_result ≡ some git)
        × (r.status ≡ status_of git)
        × ((summary : String) × IsSafe steps.services (settings.job summary) git))
      × ((result : EngineeringResult) × (r.engineering_result ≡ some result)
          × (nonempty result.files_modified ≡ true))
      × (succeeded r ≡ true)

  abbrev pub IsSettled : ControllerResult → Type 0
  IsSettled r = IsFailed r ⊎ (IsEscalated r ⊎ IsDelivered r)

  succeeded-status :
      (git : GitWorkflowResult) (result : EngineeringResult) (k : ℕ)
      → succeeded (record {
        status = status_of git;
        engineering_result = some result;
        git_result = some git;
        attempts = k;
        error = none;
      })
        ≡ true
  unfolding succeeded
  succeeded-status git result k = elim (Bool-cases git.dry_run) [
    | inl met ↦ rw met refl
    | inr unmet ↦ rw unmet refl
  ]

  deliver-IsSettled :
      (k : ℕ) (result : EngineeringResult) (summary : String) (t : Traced S)
      → nonempty result.files_modified ≡ true
      → Ensures IsSettled (deliver steps settings k result summary t)
  unfolding deliver
  deliver-IsSettled k result summary t h =
      Ensures-and_then (λ _. Unit {0}) IsSettled _ _ (Ensures-any _)
        λ v w t.
          Ensures-and_then (IsSafe steps.services (settings.job summary)) IsSettled _ _
            (Ensures-forget (IsSafe steps.services (settings.job summary)) _ (
              subst (Ensures (IsSafe steps.services (settings.job summary)))
                (sym (complete_git_workflow-refines steps.services (settings.job summary) t))
                (complete_issue-IsSafe steps.services (settings.job summary) t.inner)))
            λ git safe t.
              Ensures-and_then (λ _. Unit {0}) IsSettled _ _ (Ensures-any _)
                λ v w t.
                  Ensures-and_then (λ _. Unit {0}) IsSettled _ _ (Ensures-any _)
                    λ v w t.
                      Ensures-and_then (λ _. Unit {0}) IsSettled _ _ (Ensures-any _)
                        λ v w t. returned-Ensures IsSettled _ t (
                          inr (
                            inr (
                              (git, refl, refl, (summary, safe)),
                              (result, refl, h),
                              succeeded-status git result k,
                            )))

  escalate-IsSettled :
      (k : ℕ) (result : EngineeringResult) (t : Traced S)
      → nonempty result.files_modified ≡ false
      → Ensures IsSettled (escalate steps settings k result t)
  unfolding escalate succeeded
  escalate-IsSettled k result t h =
      Ensures-and_then (λ _. Unit {0}) IsSettled _ _ (Ensures-any _)
        λ v w t.
          Ensures-and_then (λ _. Unit {0}) IsSettled _ _ (Ensures-any _)
            λ v w t.
              Ensures-and_then (λ _. Unit {0}) IsSettled _ _ (Ensures-any _)
                λ v w t.
                  Ensures-and_then (λ _. Unit {0}) IsSettled _ _ (Ensures-any _)
                    λ v w t.
                      returned-Ensures IsSettled _ t
                        (inr (inl (refl, refl, (result, refl, h), refl)))

  raised-Ensures : (e : Exc) (t : Traced S) → Ensures IsSettled (t, raised e)
  unfolding Ensures
  raised-Ensures e t = tt

  conclude-IsSettled :
      (done : ℕ × Option EngineeringResult) (t : Traced S)
      → Ensures IsSettled (conclude steps settings done t)
  unfolding conclude
  conclude-IsSettled (k, none) t = raised-Ensures _ t
  conclude-IsSettled (k, some result) t =
      Ensures-and_then (λ _. Unit {0}) IsSettled _ _ (Ensures-any _)
        λ summary w t. elim (Bool-cases (nonempty result.files_modified)) [
          | inl met ↦ rw met (deliver-IsSettled k result summary t met)
          | inr unmet ↦ rw unmet (escalate-IsSettled k result t unmet)
        ]

  attempt-IsSettled : (t : Traced S) → Ensures IsSettled (attempt steps settings t)
  unfolding attempt
  attempt-IsSettled t =
      Ensures-and_then (λ _. Unit {0}) IsSettled _ _ (Ensures-any _)
        λ v w t.
          Ensures-and_then (λ _. Unit {0}) IsSettled _ _ (Ensures-any _)
            λ v w t.
              Ensures-and_then (λ _. Unit {0}) IsSettled _ _ (Ensures-any _)
                λ v w t.
                  Ensures-and_then (λ _. Unit {0}) IsSettled _ _ (Ensures-any _)
                    λ v w t.
                      Ensures-and_then (λ _. Unit {0}) IsSettled _ _ (Ensures-any _)
                        λ done w t. conclude-IsSettled done t

  recover-IsSettled : (e : Exc) (t : Traced S) → Ensures IsSettled (recover steps settings e t)
  unfolding recover succeeded
  recover-IsSettled e t =
      Ensures-and_then (λ _. Unit {0}) IsSettled _ _ (Ensures-any _)
        λ v w t.
          Ensures-and_then (λ _. Unit {0}) IsSettled _ _ (Ensures-any _)
            λ v w t.
              Ensures-and_then (λ _. Unit {0}) IsSettled _ _ (Ensures-any _)
                λ v w t.
                  Ensures-and_then (λ _. Unit {0}) IsSettled _ _ (Ensures-any _)
                    λ v w t.
                      returned-Ensures IsSettled _ t (inl (refl, refl, (λ h. ground arith), refl))

  -- Every result that `execute` returns is one of three: a failure with its error; an escalation, where
  -- the agent's last result changed no file; or a delivery, where it did, with the result of a git
  -- workflow that is safe, and a status of a dry run or not as that result says. `succeeded` holds of
  -- the last of these alone.
  pub execute-IsSettled : (s : S) → Ensures IsSettled (execute steps settings s)
  unfolding execute
  execute-IsSettled s = forget-Ensures IsSettled _ (
      Ensures-and_then (λ _. Unit {0}) IsSettled _ _ (Ensures-any _)
        λ v w t. Ensures-caught IsSettled _ _ (attempt-IsSettled t) recover-IsSettled)
