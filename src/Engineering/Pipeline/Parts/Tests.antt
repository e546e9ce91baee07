-- ===== src/Engineering/Pipeline/Parts/Tests.antt =====
-- engineering/pipeline.py with its validator and applier, on a small repository.
use git_hub_engineering_work.Common.{
  ℕ, min, ◌<>◌, ◌==◌, refl, true, false, none, some, [], ◌∷◌, if◌then◌else◌,
}
use git_hub_engineering_work.Common.Act.{return}
use git_hub_engineering_work.Worker.GitWorkflow.Safety.{Ensures}
use git_hub_engineering_work.Engineering.Models.{
  EngineeringIssue, EngineeringContext, EngineeringConfiguration, PatchValidationResult, Prompt,
  PatchResponse,
}
use git_hub_engineering_work.Engineering.Patch.Applier.{Disk, Checkout}
use git_hub_engineering_work.Engineering.Patch.Validator.{Tree}
use git_hub_engineering_work.Engineering.Services.{Services}
use git_hub_engineering_work.Engineering.Pipeline.{run_infer_pipeline}
use git_hub_engineering_work.Engineering.Pipeline.Parts.{AreAlike, create, IsSafe, create-IsSafe}

abbrev config : EngineeringConfiguration
config = record {
  max_patch_changed_files = 2;
  max_patch_changed_lines = 2;
  min_root_cause_evidence = 0;
  max_patch_repair_attempts = 1;
  openclaw_agent_mode = "infer";
  openclaw_agent_fallback_enabled = true;
}

abbrev issue : EngineeringIssue
issue = record { repository = "o/r"; number = 7; title = "t"; body = none; labels = []; url = none }

abbrev context : EngineeringContext ℕ
context = record {
  issue = issue;
  understanding = record {
    category = "Bug";
    problem = "";
    expected_behavior = "";
    actual_behavior = "";
    acceptance_criteria = [];
    search_terms = [];
    confidence = 60;
  };
  repository_path = "/repo";
  repository_summary = "";
  snippets = [];
  analysis = record {
    issue_category = "Bug";
    summary = "";
    affected_components = [];
    possible_root_cause = "";
    root_cause_evidence = [];
    related_modules = [];
    dependency_summary = "";
    investigation_queries = [];
    irrelevant_files = [];
    files_safe_to_modify = [];
    confidence = 70;
  };
  warnings = [];
}

abbrev patch : PatchResponse ℕ
patch = record {
  unified_diff = "--- a/a.py\n+++ b/a.py\n@@ -1 +1 @@\n-x\n+y\n";
  engineering_summary = "";
  confidence = 80;
  modified_files = [];
  reasoning_summary = "";
  provider_name = "p";
  raw_text = "";
}

abbrev prompt : Prompt
prompt = record {
  system = "";
  instructions = [];
  context_sections = [];
  desired_output_format = "";
}

abbrev unchecked : PatchValidationResult
unchecked = record {
  valid = false;
  errors = [];
  warnings = [];
  modified_files = [];
  additions = 0;
  deletions = 0;
  rejected_files = [];
}

abbrev others : Services ℕ Disk
others = record {
  least = min;
  build_context = λ _ d. return context d;
  build = λ _. prompt;
  build_repair = λ _ previous failures. prompt;
  select = λ d. return tt d;
  generate_patch = λ _ d. return patch d;
  validate = λ diff _ d. return unchecked d;
  apply = λ diff dry_run d.
      return
        (record {
          applied = false;
          dry_run = dry_run;
          modified_files = [];
          backups = [];
          errors = [];
        })
        d;
  repository_warnings = λ files d. return [] d;
  detect_tests = λ d. return [] d;
  run_tests = λ commands d. return [] d;
  selection = λ d.
      return
        (record {
          last_selected_model = none;
          last_selected_provider = none;
          last_command = [];
          subprocess_command = [];
        })
        d;
}

-- a git that accepts every diff
abbrev checkout : Checkout
checkout = record {
  locate = λ f. "/repo/" <> f;
  git = λ args diff d. (d, record { failed = false; stdout = ""; stderr = "" });
}

abbrev tree : Disk → Tree
tree d = record {
  anchor = "/";
  root = "repo" ∷ [];
  resolve = λ f. "/" ∷ "repo" ∷ f ∷ [];
  exists = λ p. true;
  parts = λ f. f ∷ [];
  name = λ f. f;
  sorted_set = λ l. l;
}

abbrev disk : Disk
disk p = if p == "/repo/a.py" then some "x\n" else none

all_alike : (e : Disk) → AreAlike (tree e) (tree disk)
all_alike e = record { anchor = refl; root = refl; resolve = refl; parts = refl; name = refl }

create-IsSafe_example :
    Ensures
      (IsSafe ℕ config checkout tree others issue disk all_alike)
      (run_infer_pipeline ℕ (create ℕ config checkout tree others) config issue true false disk)
create-IsSafe_example = create-IsSafe ℕ config checkout tree others issue disk all_alike true false
