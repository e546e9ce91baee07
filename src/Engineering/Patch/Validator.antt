-- ===== src/Engineering/Patch/Validator.antt =====
-- engineering/patch/validator.py: what makes a diff acceptable before it is applied.
pub mod Names
pub mod Accepts
mod Tests
use git_hub_engineering_work.Common.{
  ℕ, suc, ◌+◌, String, ◌<>◌, ◌==◌, Bool, true, false, not, ◌&&◌, ◌||◌, Option, none, some, List, [],
  ◌∷◌, ◌++◌, any, is_nil, keep, length, ltb, map, if◌then◌else◌,
}
use git_hub_engineering_work.Common.Text.{strip, truthy, lower_is}
use git_hub_engineering_work.Common.Text.Lines.{splitlines, split_at, begins, drop, has, join}
use git_hub_engineering_work.Common.Paths.{PathParts, holds}
use git_hub_engineering_work.Engineering.Models.{
  EngineeringContext, EngineeringConfiguration, FileSnippet, PatchValidationResult,
}

-- What the validator learns of paths, by `pathlib` and the file system.
pub record Tree : Type 0 where
  -- `repository_path.resolve()`, of an absolute path: its anchor and the other parts
  pub anchor : String
  pub root : PathParts
  -- `(repository_path / file_name).resolve()`, and whether that is there
  pub resolve : String → PathParts
  pub exists : PathParts → Bool
  -- `Path(file_name).parts` and `Path(file_name).name`
  pub parts : String → List String
  pub name : String → String
  -- `sorted(set(l))`
  pub sorted_set : List String → List String

-- `errors.append(message)` under a test
abbrev pub error_if : Bool → String → List String
error_if b message = if b then message ∷ [] else []

abbrev pub among : List String → String → Bool
among l s = any (λ t. t == s) l

-- The names behind `+++ b/`, where there is one: `.` matches all but a line feed.
abbrev pub named_lines : List String → List String
named_lines [] = []
named_lines (line ∷ lines) =
    let rest = named_lines lines in
    if begins line "+++ b/" && truthy (drop 6 line) then drop 6 line ∷ rest else rest

-- `tuple(dict.fromkeys(l))`, the first of each
unfoldable pub from_keys : List String → List String
from_keys [] = []
from_keys (s ∷ l) = let rest = from_keys l in s ∷ keep (λ t. not (t == s)) rest

unfoldable pub files_of : String → List String
unfolding split_at begins from_keys
files_of diff = from_keys (named_lines (split_at 10 diff))

-- `sum(1 for line in lines if line.startswith(sign) and not line.startswith(header))`
abbrev pub changed_lines : String → String → List String → ℕ
changed_lines sign header [] = 0
changed_lines sign header (line ∷ lines) =
    let rest = changed_lines sign header lines in
    if begins line sign && not (begins line header) then suc rest else rest

-- `files.count(f)`
abbrev pub count : String → List String → ℕ
count f [] = 0
count f (g ∷ l) = let rest = count f l in if g == f then suc rest else rest

unfoldable pub repeated : List String → List String
repeated files = keep (λ f. ltb 1 (count f files)) files

abbrev pub generated : List String
generated = "node_modules" ∷ "vendor" ∷ "dist" ∷ "build" ∷ ".git" ∷ []

-- `s.lower().endswith(t)`, for a text `t` that no character outside ASCII has as its lower case
unfoldable pub ends_lower : String → String → Bool
ends_lower String.[] t = lower_is "" t
ends_lower (String.◌∷◌ c s) t = lower_is (String.◌∷◌ c s) t || ends_lower s t

abbrev pub snippet_paths : List FileSnippet → List String
snippet_paths l = map (λ s. s.path) l

module _ (N : Type 0) (tree : Tree) where
  unfoldable pub is_unrelated_documentation : String → EngineeringContext N → Bool
  unfolding ends_lower
  is_unrelated_documentation file_name context =
      if context.understanding.category == "Documentation"
      then false
      else ends_lower file_name ".md"
        || lower_is (tree.name file_name) "readme"
        || lower_is (tree.name file_name) "readme.md"
        || lower_is (tree.name file_name) "contributing.md"

  unfoldable pub is_supported_by_investigation : String → EngineeringContext N → Bool
  is_supported_by_investigation file_name context =
      if among (context.analysis.files_safe_to_modify ++ snippet_paths context.snippets) file_name
      then true
      else any (among (tree.parts file_name)) context.analysis.affected_components

  -- the tests of one file
  unfoldable pub escapes : String → Bool
  unfolding holds
  escapes file_name = not (holds (tree.anchor ∷ tree.root) (tree.resolve file_name))

  unfoldable pub in_generated : String → Bool
  in_generated file_name = any (among generated) (tree.parts file_name)

  abbrev pub unrelated : Option (EngineeringContext N) → String → Bool
  unrelated none file_name = false
  unrelated (some context) file_name = is_unrelated_documentation file_name context

  abbrev pub unsupported : Option (EngineeringContext N) → String → Bool
  unsupported none file_name = false
  unsupported (some context) file_name = not (is_supported_by_investigation file_name context)

  -- what one turn of the loop appends to `errors`, to `warnings` and to `rejected_files`
  unfoldable pub file_errors : Option (EngineeringContext N) → String → List String
  file_errors context file_name =
      error_if (escapes file_name) ("unsafe path escapes repository: " <> file_name)
      ++ (error_if (in_generated file_name) ("unsafe generated/vendor path: " <> file_name)
          ++ error_if (unrelated context file_name)
              ("non-documentation issue cannot modify documentation file: " <> file_name))

  unfoldable pub file_warnings : Option (EngineeringContext N) → String → List String
  file_warnings context file_name =
      error_if (not (tree.exists (tree.resolve file_name)))
        ("patch creates or references missing file: " <> file_name)
      ++ error_if (not (unrelated context file_name) && unsupported context file_name)
          ("modified file is outside investigated source context: " <> file_name)

  abbrev pub each : (String → List String) → List String → List String
  each f [] = []
  each f (x ∷ l) = f x ++ each f l

  abbrev pub scarce : EngineeringConfiguration → Option (EngineeringContext N) → Bool
  scarce config none = false
  scarce config (some context) =
      ltb (length context.analysis.root_cause_evidence) config.min_root_cause_evidence

  unfoldable pub malformed : String → Bool
  malformed diff = not (has diff "--- ") || not (has diff "+++ ") || not (has diff "@@")

  abbrev pub additions_of : String → ℕ
  additions_of diff = changed_lines "+" "+++" (splitlines diff)

  abbrev pub deletions_of : String → ℕ
  deletions_of diff = changed_lines "-" "---" (splitlines diff)

  unfoldable pub errors_of :
      EngineeringConfiguration → String → Option (EngineeringContext N) → List String
  unfolding strip
  errors_of config diff context =
      error_if (not (truthy (strip diff))) "diff is empty"
      ++ (error_if (malformed diff) "diff is not valid unified diff format"
          ++ (error_if (ltb config.max_patch_changed_files (length (files_of diff)))
                "patch modifies too many files"
              ++ (each (file_errors context) (files_of diff)
                  ++ (error_if (scarce config context)
                        "root cause evidence is insufficient for patch generation"
                      ++ error_if
                          (ltb config.max_patch_changed_lines
                            (additions_of diff + deletions_of diff))
                          "patch changes too many lines"))))

  unfoldable pub validate :
      EngineeringConfiguration → String → Option (EngineeringContext N) → PatchValidationResult
  unfolding join
  validate config diff context =
      let files = files_of diff in
      let errors = errors_of config diff context in
      record {
        valid = is_nil errors;
        errors = errors;
        warnings =
            each (file_warnings context) files
            ++ error_if (not (is_nil (repeated files))) (
                "patch contains repeated file sections: "
                <> join ", " (tree.sorted_set (repeated files)));
        modified_files = files;
        additions = additions_of diff;
        deletions = deletions_of diff;
        rejected_files = keep (unrelated context) files;
      }
