-- ===== src/Worker/Controller.antt =====
-- worker/controller.py: the stages of an issue's execution, each recorded in a timeline, and the
-- controller that runs them. Times, exit codes and outputs of an entry are left out.
pub mod Git
pub mod Execution
mod Tests
use git_hub_engineering_work.Common.{
  String, ◌<>◌, Bool, true, false, not, if◌then◌else◌, Option, none, some, List, [], ◌∷◌, ◌++◌,
}
use git_hub_engineering_work.Common.Outcome.{Exc, Outcome, returned, raised}
use git_hub_engineering_work.Common.Act.{Act}

-- `StageTimelineEntry`: the stage, whether it passed, and the exception
pub record StageTimelineEntry : Type 0 where
  pub stage_name : String
  pub passed : Bool
  pub exception : Option String

-- `f"{exc.__class__.__name__}: {exc}"`
abbrev pub describe : Exc → String
describe e = e.class_name <> ": " <> e.text

abbrev pub pass_entry : String → StageTimelineEntry
pass_entry name = record { stage_name = name; passed = true; exception = none }

abbrev pub fail_entry : String → Exc → StageTimelineEntry
fail_entry name e = record { stage_name = name; passed = false; exception = some (describe e) }

-- What the services act on, with `stage_timeline`, newest last.
pub record Traced {ℓ} (S : Type ℓ) : Type ℓ where
  pub inner : S
  pub timeline : List StageTimelineEntry

module _ {ℓ} {S : Type ℓ} where
  unfoldable pub record_stage {κ} :
      {A : Type κ} → String → List StageTimelineEntry → S × Outcome A → Traced S × Outcome A
  record_stage name timeline (s, returned a) =
      (record { inner = s; timeline = timeline ++ pass_entry name ∷ [] }, returned a)
  record_stage name timeline (s, raised e) =
      (record { inner = s; timeline = timeline ++ fail_entry name e ∷ [] }, raised e)

  -- `_run_stage`
  unfoldable pub run_stage {κ} : {A : Type κ} → String → Act S A → Act (Traced S) A
  run_stage name action t = record_stage name t.timeline (action t.inner)

  abbrev pub add_entry : StageTimelineEntry → Traced S → Traced S
  add_entry entry t = record t { timeline = t.timeline ++ entry ∷ [] }

-- whether the last entry is a failure
unfoldable pub ends_failed : List StageTimelineEntry → Bool
ends_failed [] = false
ends_failed (entry ∷ []) = not entry.passed
ends_failed (entry ∷ later ∷ rest) = ends_failed (later ∷ rest)

-- `_ensure_failure_stage`
unfoldable pub ensure_failure_stage : Exc → List StageTimelineEntry → List StageTimelineEntry
unfolding ends_failed
ensure_failure_stage e timeline =
    if ends_failed timeline then timeline else timeline ++ fail_entry "Controller" e ∷ []
