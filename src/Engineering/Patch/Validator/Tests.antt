-- ===== src/Engineering/Patch/Validator/Tests.antt =====
-- engineering/patch/validator.py on a small diff.
use git_hub_engineering_work.Common.{
  String, ◌==◌, ◌≡◌, refl, Bool, true, Option, none, [], ◌∷◌, if◌then◌else◌,
}
use git_hub_engineering_work.Common.Text.Lines.{splitlines}
use git_hub_engineering_work.Engineering.Models.{EngineeringContext, EngineeringConfiguration}
use git_hub_engineering_work.Engineering.Patch.Validator.{
  Tree, files_of, errors_of, file_errors, escapes, in_generated, malformed, validate,
}
use git_hub_engineering_work.Engineering.Patch.Validator.Accepts.{IsAcceptable, validate_iff}

-- names of one part, and one name that leads out of the repository
abbrev tree : Tree
tree = record {
  anchor = "/";
  root = "repo" ∷ [];
  resolve = λ f. if f == "../x" then "/" ∷ "x" ∷ [] else "/" ∷ "repo" ∷ f ∷ [];
  exists = λ p. true;
  parts = λ f. f ∷ [];
  name = λ f. f;
  sorted_set = λ l. l;
}

abbrev config : EngineeringConfiguration
config = record {
  max_patch_changed_files = 2;
  max_patch_changed_lines = 2;
  min_root_cause_evidence = 0;
  max_patch_repair_attempts = 1;
  openclaw_agent_mode = "infer";
  openclaw_agent_fallback_enabled = true;
}

abbrev diff : String
diff = "--- a/a.py\n+++ b/a.py\n@@ -1 +1 @@\n-x\n+y\n+++ b/a.py\n"

abbrev outside : String
outside = "--- a/x\n+++ b/../x\n@@ -1 +1 @@\n-x\n+y\n"

abbrev bare : Option (EngineeringContext Bool)
bare = none

accepted : (validate Bool tree config diff bare).valid ≡ true
unfolding validate errors_of malformed files_of file_errors escapes in_generated splitlines
accepted = refl

rejected :
    (validate Bool tree config outside bare).errors ≡ "unsafe path escapes repository: ../x" ∷ []
unfolding validate errors_of malformed files_of file_errors escapes in_generated splitlines
rejected = refl

validate_iff_example : IsAcceptable Bool tree config diff bare
validate_iff_example = (validate_iff Bool tree config diff bare).0 accepted
