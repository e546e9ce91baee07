-- ===== src/Engineering/Pipeline/Tests.antt =====
-- engineering/pipeline.py with a provider whose first patch is bad. The state counts its patches.
use git_hub_engineering_work.Common.{
  is_nil, Bool-cases, inl, inr, ℕ, suc, ◌+◌, ◌≤◌, min, String, ◌==◌, ◌≡◌, refl, Bool, true, false,
  none, [], ◌∷◌, nat_eq, arith, if◌then◌else◌,
}
use git_hub_engineering_work.Common.Act.{and_then, return, raise}
use git_hub_engineering_work.Common.Outcome.{returned}
use git_hub_engineering_work.Worker.GitWorkflow.Safety.{Ensures}
use git_hub_engineering_work.Engineering.Models.{
  EngineeringIssue, EngineeringContext, EngineeringConfiguration, EngineeringResult,
  PatchApplicationResult, PatchResponse, PatchValidationResult, Prompt,
}
use git_hub_engineering_work.Engineering.Services.{Services}
use git_hub_engineering_work.Engineering.Pipeline.{
  redraft, repair_patch, settle, settle_applied, report, test_if, first_draft, draft_and_settle,
  investigate, run_infer_pipeline,
}
use git_hub_engineering_work.Engineering.Pipeline.Repairs.{IsLawful}
use git_hub_engineering_work.Engineering.Pipeline.Cost.{Costs, bound, run_infer_pipeline-le}
use git_hub_engineering_work.Engineering.Pipeline.Agent.{
  Agent, with_agent, agent_failed, rescue, run_until_patch,
}
use git_hub_engineering_work.Engineering.Pipeline.Agent.Laws.{IsVouched, run_until_patch-IsVouched}

abbrev config : EngineeringConfiguration
config = record {
  max_patch_changed_files = 2;
  max_patch_changed_lines = 2;
  min_root_cause_evidence = 1;
  max_patch_repair_attempts = 2;
  openclaw_agent_mode = "agent";
  openclaw_agent_fallback_enabled = true;
}

abbrev issue : EngineeringIssue
issue = record { repository = "o/r"; number = 7; title = "t"; body = none; labels = []; url = none }

abbrev context : EngineeringContext ℕ
context = record {
  issue = issue;
  understanding = record {
    category = "Bug";
    problem = "";
    expected_behavior = "";
    actual_behavior = "";
    acceptance_criteria = [];
    search_terms = [];
    confidence = 60;
  };
  repository_path = "/repo";
  repository_summary = "";
  snippets = [];
  analysis = record {
    issue_category = "Bug";
    summary = "";
    affected_components = [];
    possible_root_cause = "";
    root_cause_evidence = "seen" ∷ [];
    related_modules = [];
    dependency_summary = "";
    investigation_queries = [];
    irrelevant_files = [];
    files_safe_to_modify = [];
    confidence = 70;
  };
  warnings = [];
}

abbrev prompt : Prompt
prompt = record {
  system = "";
  instructions = [];
  context_sections = [];
  desired_output_format = "";
}

abbrev response : String → PatchResponse ℕ
response diff = record {
  unified_diff = diff;
  engineering_summary = diff;
  confidence = 80;
  modified_files = [];
  reasoning_summary = "";
  provider_name = "p";
  raw_text = "";
}

abbrev checked : String → PatchValidationResult
checked diff = record {
  valid = diff == "good";
  errors = if diff == "good" then [] else "malformed" ∷ [];
  warnings = [];
  modified_files = "a.py" ∷ [];
  additions = 1;
  deletions = 1;
  rejected_files = [];
}

abbrev services : Services ℕ ℕ
services = record {
  least = min;
  build_context = λ issue s. return context s;
  build = λ context. prompt;
  build_repair = λ context previous failures. prompt;
  select = λ s. return tt s;
  generate_patch = λ p s. (suc s, returned (response (if nat_eq s 0 then "bad" else "good")));
  validate = λ diff context s. return (checked diff) s;
  apply = λ diff dry_run s.
      return
        (record {
          applied = true;
          dry_run = dry_run;
          modified_files = [];
          backups = [];
          errors = [];
        })
        s;
  repository_warnings = λ files s. return [] s;
  detect_tests = λ s. return [] s;
  run_tests = λ commands s. return [] s;
  selection = λ s.
      return
        (record {
          last_selected_model = none;
          last_selected_provider = none;
          last_command = [];
          subprocess_command = [];
        })
        s;
}

-- an agent that fails
abbrev agent : Agent ℕ ℕ
agent = record {
  detect = λ s. return (record { callable = true; configured = true; reason = ""; command = [] }) s;
  execute =
      λ issue run_tests s. raise (record { class_name = "OpenClawAgentError"; text = "gone" }) s;
  details = λ exc. record { exit_code = none; stdout = ""; stderr = ""; returned_value = "" };
  nought = 0;
}

abbrev V : String → PatchValidationResult → Type 0
V diff v = v ≡ checked diff

abbrev P : String → PatchApplicationResult → Type 0
P diff a = a.backups ≡ []

valid-errors : (diff : String) → (checked diff).valid ≡ is_nil (checked diff).errors
valid-errors diff = elim (Bool-cases (diff == "good")) [ inl e ↦ rw e refl | inr e ↦ rw e refl ]

lawful : IsLawful services V P
unfolding Ensures
lawful = record {
  validates = λ diff context s. (refl, valid-errors diff);
  applies = λ diff dry_run s. (refl, refl);
}

costs : (dry_run : Bool) → Costs services (λ s. s) dry_run 1 0 0
costs dry_run = record {
  context_cost = λ issue s. omega arith;
  select_cost = λ s. omega arith;
  generate_cost = λ p s. omega arith;
  validate_cost = λ diff context s. omega arith;
  apply_cost = λ diff s. omega arith;
  warnings_cost = λ files s. omega arith;
  detect_cost = λ s. omega arith;
  tests_cost = λ l s. omega arith;
  selection_cost = λ s. omega arith;
}

abbrev steps : EngineeringResult ℕ → String
steps r = r.recommended_next_step

-- The second patch is applied.
repaired : (run_infer_pipeline ℕ services config issue true false 0).0 ≡ 2
unfolding run_infer_pipeline and_then investigate draft_and_settle first_draft repair_patch redraft
    settle settle_applied report test_if
repaired = refl

run_infer_pipeline-le_example :
    (run_infer_pipeline ℕ services config issue true true 0).0
    ≤ 0 + (bound ℕ services (λ s. s) true 1 0 0 (costs true) 2 + 0)
run_infer_pipeline-le_example =
    run_infer_pipeline-le ℕ services (λ s. s) true 1 0 0 (costs true) config issue true 0

-- The agent of the example returns no result.
vouched :
    (issue : EngineeringIssue) (run_tests : Bool) (s : ℕ)
    → Ensures (λ r. steps r ≡ "stop") (agent.execute issue run_tests s)
unfolding Ensures
vouched _ run_tests s = tt

run_until_patch-IsVouched_example :
    Ensures
      (IsVouched ℕ services agent V P lawful (λ r. steps r ≡ "stop") vouched)
      (run_until_patch ℕ services agent config issue true false 0)
run_until_patch-IsVouched_example =
    run_until_patch-IsVouched ℕ services agent V P lawful (λ r. steps r ≡ "stop") vouched config
      issue true false 0

-- The agent fails, the other pipeline repairs its patch, and the result is recommended for review.
fell_back :
    Ensures
      (λ r. steps r ≡ "review_patch")
      (run_until_patch ℕ services agent config issue true false 0)
unfolding Ensures run_until_patch and_then with_agent rescue agent_failed run_infer_pipeline
    investigate draft_and_settle first_draft repair_patch redraft settle settle_applied report
    test_if
fell_back = refl
