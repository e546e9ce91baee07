-- ===== src/Engineering/Pipeline/Sound.antt =====
-- engineering/pipeline.py: what a patch has gone through that is recommended for review.
use git_hub_engineering_work.Common.{
  is_nil, String, eq_iff, ◌≢◌, ◌⊎◌, inl, inr, Bool-cases, Bool, true, false, arith, if◌then◌else◌,
}
use git_hub_engineering_work.Worker.GitWorkflow.Safety.{
  Ensures, Ensures-any, Ensures-and_then, Ensures-returned,
}
use git_hub_engineering_work.Engineering.Models.{
  EngineeringIssue, EngineeringContext, EngineeringConfiguration, EngineeringResult,
  PatchApplicationResult, PatchValidationResult,
}
use git_hub_engineering_work.Engineering.Services.{Services, Settled}
use git_hub_engineering_work.Engineering.Pipeline.{investigate, report, run_infer_pipeline}
use git_hub_engineering_work.Engineering.Pipeline.Repairs.{
  IsLawfulFor, WasApplied, IsSettled, draft_and_settle-Ensures,
}

module _ {ℓ} {S : Type ℓ} (N : Type 0) (services : Services N S) (G : String → Type 0)
    (V : EngineeringContext N → String → PatchValidationResult → Type 0)
    (P : String → PatchApplicationResult → Type 0) (B : EngineeringContext N → Type 0)
    (lawful : (context : EngineeringContext N)
      → B context
      → IsLawfulFor services G (V context) P context) where
  -- The files of the result are those of a patch that was found valid, in the context that the run has,
  -- and applied, or it is not recommended for review.
  abbrev pub IsReviewable : EngineeringResult N → Type 0
  IsReviewable r =
      ((context : EngineeringContext N) × B context × WasApplied G (V context) P r.files_modified)
      ⊎ (r.recommended_next_step ≢ "review_patch")

  retry-step : ◌≢◌ {A = String} "retry_with_better_context" "review_patch"
  retry-step e = ground (arith, eq_iff "retry_with_better_context" "review_patch")

  settled-IsReviewable :
      (context : EngineeringContext N) (settled : Settled N)
      → B context
      → IsSettled G (V context) P N settled
      → ((c : EngineeringContext N) × B c
          × WasApplied G (V c) P settled.draft.validation.modified_files)
        ⊎ (◌≢◌ {A = String}
            (if is_nil settled.errors then "review_patch" else "retry_with_better_context")
            "review_patch")
  settled-IsReviewable context settled built ok = elim (Bool-cases (is_nil settled.errors)) [
    | inl none_told ↦ inl (context, built, ok none_told)
    | inr failed ↦ inr (rw failed retry-step)
  ]

  report-Ensures :
      (issue : EngineeringIssue) (context : EngineeringContext N) (dry_run run_tests : Bool)
      (settled : Settled N) (s : S)
      → B context
      → IsSettled G (V context) P N settled
      → Ensures IsReviewable (report N services issue context dry_run run_tests settled s)
  unfolding report
  report-Ensures issue context dry_run run_tests settled s built ok =
      Ensures-and_then (λ _. Unit {0}) IsReviewable _ _ (Ensures-any _)
        λ w u s.
          Ensures-and_then (λ _. Unit {0}) IsReviewable _ _ (Ensures-any _)
            λ c u s.
              Ensures-and_then (λ _. Unit {0}) IsReviewable _ _ (Ensures-any _)
                λ t u s.
                  Ensures-and_then (λ _. Unit {0}) IsReviewable _ _ (Ensures-any _)
                    λ x u s.
                      Ensures-returned IsReviewable s _
                        (settled-IsReviewable context settled built ok)

  investigate-Ensures :
      (config : EngineeringConfiguration) (issue : EngineeringIssue) (dry_run run_tests : Bool)
      (context : EngineeringContext N) (b : Bool) (s : S)
      → B context
      → Ensures IsReviewable (investigate N services config issue dry_run run_tests context b s)
  unfolding investigate
  investigate-Ensures config issue dry_run run_tests context true s built =
      Ensures-returned IsReviewable s _ (inr retry-step)
  investigate-Ensures config issue dry_run run_tests context false s built =
      Ensures-and_then (IsSettled G (V context) P N) IsReviewable _ _
        (draft_and_settle-Ensures N services G (V context) P context (lawful context built) _
          dry_run s)
        λ settled ok s. report-Ensures issue context dry_run run_tests settled s built ok

  -- A result that is recommended for review lists exactly the files of a diff that the provider returned,
  -- that was found valid in the run's context, and that git applied, or would apply in a dry run, provided
  -- that a validation is valid and an application applied exactly if it has no errors.
  pub run_infer_pipeline-IsReviewable :
      (config : EngineeringConfiguration) (issue : EngineeringIssue) (dry_run run_tests : Bool)
      (s : S)
      → Ensures B (services.build_context issue s)
      → Ensures IsReviewable (run_infer_pipeline N services config issue dry_run run_tests s)
  unfolding run_infer_pipeline
  run_infer_pipeline-IsReviewable config issue dry_run run_tests s built =
      Ensures-and_then B IsReviewable _ _ built
        λ context u s. investigate-Ensures config issue dry_run run_tests context _ s u
