-- ===== src/Engineering/Pipeline.antt =====
-- engineering/pipeline.py: `_run_infer_pipeline`, from the context of an issue to a patch that is
-- validated and applied, with its two repair loops. `N` is the type of `float`, and `S` the state that
-- the parts of the pipeline act on.
pub mod Agent
pub mod Repairs
pub mod Sound
pub mod Cost
pub mod Parts
mod Tests
use git_hub_engineering_work.Common.{
  ℕ, zero, suc, ◌+◌, String, ◌<>◌, ◌==◌, Bool, true, false, not, ◌&&◌, ◌||◌, Option, none, some,
  List, [], ◌∷◌, ◌++◌, is_nil, keep, length, ltb, if◌then◌else◌,
}
use git_hub_engineering_work.Common.Text.{decimal, truthy}
use git_hub_engineering_work.Common.Text.Lines.{join, take}
use git_hub_engineering_work.Common.Act.{Act, ◌>>=◌, return}
use git_hub_engineering_work.Engineering.Services.{Selection, Services, Draft, Settled}
use git_hub_engineering_work.Engineering.Models.{
  EngineeringIssue, EngineeringContext, EngineeringConfiguration, EngineeringResult,
  ExecutionMetadata, PatchApplicationResult, PatchResponse, PatchValidationResult, Prompt,
  TestCommand, TestResult,
}

-- `f"{b}"`
abbrev pub shown : Bool → String
shown true = "True"
shown false = "False"

-- `raw_text or unified_diff`
abbrev pub previous_output : {N : Type 0} → PatchResponse N → String
previous_output patch = if truthy patch.raw_text then patch.raw_text else patch.unified_diff

module _ {ℓ} {S : Type ℓ} (N : Type 0) (services : Services N S) where
  -- one round of a repair loop, up to the validation
  unfoldable pub redraft :
      String → ℕ → EngineeringContext N → List String → Draft N → Act S (Draft N)
  unfolding join decimal
  redraft label attempt context failures draft =
      services.generate_patch (services.build_repair context (previous_output draft.patch) failures)
      >>= λ patch. services.validate patch.unified_diff context >>= λ validation. return (record {
        patch = patch;
        validation = validation;
        notes =
            draft.notes
            ++ (label <> " " <> decimal (attempt + 1) <> ": " <> join "; " failures) ∷ [];
      })

  -- `for attempt in range(...)` of an invalid patch; the first number counts the rounds that are left
  unfoldable pub repair_patch : ℕ → ℕ → EngineeringContext N → Draft N → Act S (Draft N)
  repair_patch zero attempt context draft = return draft
  repair_patch (suc rounds) attempt context draft =
      if draft.validation.valid
      then return draft
      else (redraft "patch repair attempt" attempt context
            (draft.validation.errors ++ draft.validation.warnings) draft
          >>= λ next. repair_patch rounds (attempt + 1) context next)

  -- `tuple(error for error in application.errors if error)`
  abbrev pub told : PatchApplicationResult → List String
  told application = keep truthy application.errors

  -- the end of a round by whether the patch was applied; `rest` is the rest of the loop
  abbrev pub Rest : Type ℓ
  Rest = Draft N → PatchApplicationResult → List String → Act S (Settled N)

  unfoldable pub judge : Rest → Draft N → PatchApplicationResult → Bool → Act S (Settled N)
  judge rest next again true =
      return (record { draft = next; application = some again; errors = again.errors })
  judge rest next again false = rest next again again.errors

  -- a round behind the validation, by whether the patch is valid
  unfoldable pub reapply : Rest → Bool → Draft N → PatchApplicationResult → Bool → Act S (Settled N)
  reapply rest dry_run next application false = rest next application next.validation.errors
  reapply rest dry_run next application true =
      services.apply next.patch.unified_diff dry_run >>= λ again.
      judge rest next again again.applied

  -- `for attempt in range(...)` of a patch that does not apply
  unfoldable pub repair_application :
      ℕ
      → ℕ
      → EngineeringContext N
      → Bool
      → Draft N
      → PatchApplicationResult
      → List String
      → Act S (Settled N)
  repair_application zero attempt context dry_run draft application errors =
      return (record { draft = draft; application = some application; errors = errors })
  repair_application (suc rounds) attempt context dry_run draft application errors =
      redraft "patch application repair attempt" attempt context (told application) draft
      >>= λ next.
          reapply (repair_application rounds (attempt + 1) context dry_run) dry_run next application
            next.validation.valid

  -- behind the first application, by whether it is to be repaired
  unfoldable pub settle_applied :
      ℕ → EngineeringContext N → Bool → Draft N → PatchApplicationResult → Bool → Act S (Settled N)
  settle_applied rounds context dry_run draft application true =
      repair_application rounds 0 context dry_run draft application
        (draft.validation.errors ++ application.errors)
  settle_applied rounds context dry_run draft application false = return (record {
    draft = draft;
    application = some application;
    errors = draft.validation.errors ++ application.errors;
  })

  -- from the end of the first loop to the end of the second, by whether the patch is valid
  unfoldable pub settle : ℕ → EngineeringContext N → Bool → Draft N → Bool → Act S (Settled N)
  settle rounds context dry_run draft false =
      return (record { draft = draft; application = none; errors = draft.validation.errors })
  settle rounds context dry_run draft true =
      services.apply draft.patch.unified_diff dry_run >>= λ application.
      settle_applied rounds context dry_run draft application
        (not (is_nil application.errors) && not application.applied)

  abbrev pub insufficient : EngineeringIssue → EngineeringContext N → EngineeringResult N
  insufficient issue context = record {
    issue = issue;
    repository = issue.repository;
    patch_summary = "Repository investigation did not produce enough evidence to safely patch.";
    files_modified = [];
    tests_executed = [];
    test_results = [];
    confidence = services.least context.analysis.confidence context.understanding.confidence;
    warnings = context.warnings;
    errors = "insufficient repository investigation evidence" ∷ [];
    engineering_notes =
        ("issue_category=" <> context.understanding.category)
        ∷ context.analysis.root_cause_evidence;
    recommended_next_step = "retry_with_better_context";
    execution_metadata = none;
  }

  -- the result that is built at the end
  abbrev pub result_of :
      EngineeringIssue
      → EngineeringContext N
      → Bool
      → Settled N
      → List String
      → List TestCommand
      → List TestResult
      → Selection
      → EngineeringResult N
  result_of issue context dry_run settled repo_warnings commands results selection =
      let patch = settled.draft.patch in
      let validation = settled.draft.validation in
      record {
        issue = issue;
        repository = issue.repository;
        patch_summary = patch.engineering_summary;
        files_modified = validation.modified_files;
        tests_executed = commands;
        test_results = results;
        confidence = services.least patch.confidence context.analysis.confidence;
        warnings = context.warnings ++ (validation.warnings ++ repo_warnings);
        errors = settled.errors;
        engineering_notes =
            patch.reasoning_summary
            ∷ ("provider=" <> patch.provider_name)
            ∷ ("dry_run=" <> shown dry_run)
            ∷ settled.draft.notes;
        recommended_next_step =
            if is_nil settled.errors then "review_patch" else "retry_with_better_context";
        execution_metadata = some (record {
          mode = "infer";
          selected_reason =
              "Infer mode was selected only within OpenClaw and uses the active OpenClaw default model.";
          selected_model = selection.last_selected_model;
          selected_provider = selection.last_selected_provider;
          command = selection.last_command;
          subprocess = selection.subprocess_command;
          fallback_reason = none;
          raw_response_excerpt = take 1_000 patch.raw_text;
          stage_exit_code = none;
          stage_stdout = "";
          stage_stderr = "";
          stage_exception = none;
          stage_returned_value = "";
        });
      }

  unfoldable pub test_if : Bool → List TestCommand → Act S (List TestResult)
  test_if wanted commands = elim wanted [ true ↦ services.run_tests commands | false ↦ return [] ]

  -- from the settled patch to the result
  unfoldable pub report :
      EngineeringIssue
      → EngineeringContext N
      → Bool
      → Bool
      → Settled N
      → Act S (EngineeringResult N)
  report issue context dry_run run_tests settled =
      services.repository_warnings settled.draft.validation.modified_files >>= λ repo_warnings.
      services.detect_tests >>= λ commands.
      test_if (run_tests && not dry_run) commands >>= λ results. services.selection >>= λ selection.
      return (result_of issue context dry_run settled repo_warnings commands results selection)

  -- the first patch and its validation
  unfoldable pub first_draft : EngineeringContext N → Act S (Draft N)
  first_draft context = services.select >>= λ _.
      services.generate_patch (services.build context) >>= λ patch.
      services.validate patch.unified_diff context >>= λ validation.
      return (record { patch = patch; validation = validation; notes = [] })

  -- from the first patch to the settled one
  unfoldable pub draft_and_settle : ℕ → EngineeringContext N → Bool → Act S (Settled N)
  draft_and_settle rounds context dry_run = first_draft context >>= λ draft.
      repair_patch rounds 0 context draft >>= λ repaired.
      settle rounds context dry_run repaired repaired.validation.valid

  -- by whether the evidence is too scarce
  unfoldable pub investigate :
      EngineeringConfiguration
      → EngineeringIssue
      → Bool
      → Bool
      → EngineeringContext N
      → Bool
      → Act S (EngineeringResult N)
  investigate config issue dry_run run_tests context true = return (insufficient issue context)
  investigate config issue dry_run run_tests context false =
      draft_and_settle config.max_patch_repair_attempts context dry_run >>= λ settled.
      report issue context dry_run run_tests settled

  unfoldable pub run_infer_pipeline :
      EngineeringConfiguration → EngineeringIssue → Bool → Bool → Act S (EngineeringResult N)
  run_infer_pipeline config issue dry_run run_tests = services.build_context issue >>= λ context.
      investigate config issue dry_run run_tests context
        (ltb (length context.analysis.root_cause_evidence) config.min_root_cause_evidence)
