-- ===== src/Engineering/Pipeline/Repairs.antt =====
-- engineering/pipeline.py: what a patch has gone through when its repair ends without errors.
use git_hub_engineering_work.Common.{
  is_nil, ℕ, zero, suc, ◌+◌, String, ◌≡◌, refl, sym, ◌∙◌, Bool, true, false, not, ◌&&◌, List, [],
  ◌∷◌, ◌++◌, arith,
}
use git_hub_engineering_work.Worker.GitWorkflow.Safety.{
  Ensures, Ensures-any, Ensures-and_then, Ensures-returned, Ensures-if,
}
use git_hub_engineering_work.Engineering.Models.{
  EngineeringContext, PatchApplicationResult, PatchValidationResult, Prompt,
}
use git_hub_engineering_work.Engineering.Services.{Services, Draft, Settled}
use git_hub_engineering_work.Engineering.Pipeline.{
  told, redraft, repair_patch, Rest, judge, reapply, repair_application, settle_applied, settle,
  first_draft, draft_and_settle,
}

-- What the pipeline relies on: a validation of a diff stands in the relation `V` to it, an application
-- in the relation `P`, and each says that it went well exactly if it has no errors.
pub record IsLawful {ℓ} {S : Type ℓ} {N : Type 0} (services : Services N S)
    (V : String → PatchValidationResult → Type 0) (P : String → PatchApplicationResult → Type 0)
    : Type ℓ where
  pub validates :
      (diff : String) (context : EngineeringContext N) (s : S)
      → Ensures (λ v. V diff v × (v.valid ≡ is_nil v.errors)) (services.validate diff context s)
  pub applies :
      (diff : String) (dry_run : Bool) (s : S)
      → Ensures (λ a. P diff a × (a.applied ≡ is_nil a.errors)) (services.apply diff dry_run s)

-- The same with what the run's context leads to: `G` holds of the diffs that the provider returns, and `V`
-- is asked of validations in that context only.
pub record IsLawfulFor {ℓ} {S : Type ℓ} {N : Type 0} (services : Services N S) (G : String → Type 0)
    (V : String → PatchValidationResult → Type 0) (P : String → PatchApplicationResult → Type 0)
    (context : EngineeringContext N) : Type ℓ where
  pub generates :
      (prompt : Prompt) (s : S) → Ensures (λ p. G p.unified_diff) (services.generate_patch prompt s)
  pub validates :
      (diff : String) (s : S)
      → Ensures (λ v. V diff v × (v.valid ≡ is_nil v.errors)) (services.validate diff context s)
  pub applies :
      (diff : String) (dry_run : Bool) (s : S)
      → Ensures (λ a. P diff a × (a.applied ≡ is_nil a.errors)) (services.apply diff dry_run s)

module _ (G : String → Type 0) (V : String → PatchValidationResult → Type 0)
    (P : String → PatchApplicationResult → Type 0) where
  -- A diff that the provider returned was found valid and was applied, and these are the files that it
  -- changes.
  abbrev pub WasApplied : List String → Type 0
  WasApplied files =
      (diff : String) × (v : PatchValidationResult) × (a : PatchApplicationResult) × G diff
      × V diff v
      × (v.valid ≡ true)
      × (v.modified_files ≡ files)
      × P diff a
      × (a.applied ≡ true)

  abbrev pub IsSettled : (N : Type 0) → Settled N → Type 0
  IsSettled N r = is_nil r.errors ≡ true → WasApplied r.draft.validation.modified_files

module _ {ℓ} {S : Type ℓ} (N : Type 0) (services : Services N S) (G : String → Type 0)
    (V : String → PatchValidationResult → Type 0) (P : String → PatchApplicationResult → Type 0)
    (context : EngineeringContext N) (lawful : IsLawfulFor services G V P context) where
  abbrev IsChecked : Draft N → Type 0
  IsChecked d =
      (V d.patch.unified_diff d.validation × (d.validation.valid ≡ is_nil d.validation.errors))
      × G d.patch.unified_diff

  abbrev Done : Settled N → Type 0
  Done = IsSettled G V P N

  redraft-Ensures :
      (label : String) (attempt : ℕ) (failures : List String) (draft : Draft N) (s : S)
      → Ensures IsChecked (redraft N services label attempt context failures draft s)
  unfolding redraft
  redraft-Ensures label attempt failures draft s =
      Ensures-and_then (λ p. G p.unified_diff) IsChecked _ _ (lawful.generates _ s)
        λ patch told s.
          Ensures-and_then _ IsChecked _ _ (lawful.validates patch.unified_diff s)
            λ validation checked s. Ensures-returned IsChecked s _ (checked, told)

  first_draft-Ensures : (s : S) → Ensures IsChecked (first_draft N services context s)
  unfolding first_draft
  first_draft-Ensures s =
      Ensures-and_then (λ _. Unit {0}) IsChecked _ _ (Ensures-any _)
        λ v u s.
          Ensures-and_then (λ p. G p.unified_diff) IsChecked _ _ (lawful.generates _ s)
            λ patch told s.
              Ensures-and_then _ IsChecked _ _ (lawful.validates patch.unified_diff s)
                λ validation checked s. Ensures-returned IsChecked s _ (checked, told)

  repair_patch-Ensures :
      (rounds attempt : ℕ) (draft : Draft N) (s : S)
      → IsChecked draft
      → Ensures IsChecked (repair_patch N services rounds attempt context draft s)
  unfolding repair_patch
  repair_patch-Ensures zero attempt draft s checked = Ensures-returned IsChecked s draft checked
  repair_patch-Ensures (suc rounds) attempt draft s checked =
      Ensures-if IsChecked draft.validation.valid _ _ s (Ensures-returned IsChecked s draft checked)
        (Ensures-and_then IsChecked IsChecked _ _ (redraft-Ensures _ attempt _ draft s)
          λ next checked s. repair_patch-Ensures rounds (attempt + 1) next s checked)

  -- An application without errors is one that went well, of the valid patch of the draft.
  applied_lem :
      (draft : Draft N) (application : PatchApplicationResult)
      → IsChecked draft
      → draft.validation.valid ≡ true
      → P draft.patch.unified_diff application × (application.applied ≡ is_nil application.errors)
      → is_nil application.errors ≡ true
      → WasApplied G V P draft.validation.modified_files
  applied_lem draft application checked valid (accepted, told) none_told = (
    draft.patch.unified_diff,
    draft.validation,
    application,
    checked.1,
    checked.0.0,
    valid,
    refl,
    accepted,
    told ∙ none_told,
  )

  module _ (rest : Rest N services)
      (rest-Ensures : (d : Draft N) (a : PatchApplicationResult) (errors : List String) (s : S)
        → is_nil errors ≡ false
        → Ensures Done (rest d a errors s)) where
    judge-Ensures :
        (next : Draft N) (again : PatchApplicationResult) (b : Bool) (s : S)
        → IsChecked next
        → next.validation.valid ≡ true
        → P next.patch.unified_diff again × (again.applied ≡ is_nil again.errors)
        → again.applied ≡ b
        → Ensures Done (judge N services rest next again b s)
    unfolding judge
    judge-Ensures next again true s checked valid made e =
        Ensures-returned Done s _ (applied_lem next again checked valid made)
    judge-Ensures next again false s checked valid made e =
        rest-Ensures next again again.errors s (sym made.1 ∙ e)

    reapply-Ensures :
        (dry_run : Bool) (next : Draft N) (application : PatchApplicationResult) (b : Bool) (s : S)
        → IsChecked next
        → next.validation.valid ≡ b
        → Ensures Done (reapply N services rest dry_run next application b s)
    unfolding reapply
    reapply-Ensures dry_run next application false s checked e =
        rest-Ensures next application next.validation.errors s (sym checked.0.1 ∙ e)
    reapply-Ensures dry_run next application true s checked e =
        Ensures-and_then _ Done _ _ (lawful.applies next.patch.unified_diff dry_run s)
          λ again made s. judge-Ensures next again again.applied s checked e made refl

  repair_application-Ensures :
      (rounds attempt : ℕ) (dry_run : Bool) (draft : Draft N) (application : PatchApplicationResult)
      (errors : List String) (s : S)
      → is_nil errors ≡ false
      → Ensures Done
          (repair_application N services rounds attempt context dry_run draft application errors s)
  unfolding repair_application
  repair_application-Ensures zero attempt dry_run draft application errors s failed =
      Ensures-returned Done s _ (λ none_told. ground arith)
  repair_application-Ensures (suc rounds) attempt dry_run draft application errors s failed =
      Ensures-and_then IsChecked Done _ _ (redraft-Ensures _ attempt _ draft s) λ next checked s.
        reapply-Ensures (repair_application N services rounds (attempt + 1) context dry_run)
          (λ d a errors s. repair_application-Ensures rounds (attempt + 1) dry_run d a errors s)
          dry_run next application next.validation.valid s checked refl

  is_nil-append : (l m : List String) → is_nil (l ++ m) ≡ (is_nil l && is_nil m)
  is_nil-append [] m = refl
  is_nil-append (x ∷ l) m = refl

  settle_applied-Ensures :
      (rounds : ℕ) (dry_run : Bool) (draft : Draft N) (application : PatchApplicationResult)
      (b : Bool) (s : S)
      → IsChecked draft
      → draft.validation.valid ≡ true
      → P draft.patch.unified_diff application × (application.applied ≡ is_nil application.errors)
      → (not (is_nil application.errors) && not application.applied) ≡ b
      → Ensures Done (settle_applied N services rounds context dry_run draft application b s)
  unfolding settle_applied
  settle_applied-Ensures rounds dry_run draft application true s checked valid made e =
      repair_application-Ensures rounds 0 dry_run draft application _ s
        (ground (arith, is_nil-append draft.validation.errors application.errors))
  settle_applied-Ensures rounds dry_run draft application false s checked valid made e =
      Ensures-returned Done s _ (λ none_told.
        applied_lem draft application checked valid made
          (ground (arith, is_nil-append draft.validation.errors application.errors)))

  settle-Ensures :
      (rounds : ℕ) (dry_run : Bool) (draft : Draft N) (b : Bool) (s : S)
      → IsChecked draft
      → draft.validation.valid ≡ b
      → Ensures Done (settle N services rounds context dry_run draft b s)
  unfolding settle
  settle-Ensures rounds dry_run draft false s checked e =
      Ensures-returned Done s _ (λ none_told. ground (arith, checked.0.1))
  settle-Ensures rounds dry_run draft true s checked e =
      Ensures-and_then _ Done _ _ (lawful.applies draft.patch.unified_diff dry_run s)
        λ application made s.
          settle_applied-Ensures rounds dry_run draft application _ s checked e made refl

  pub draft_and_settle-Ensures :
      (rounds : ℕ) (dry_run : Bool) (s : S)
      → Ensures Done (draft_and_settle N services rounds context dry_run s)
  unfolding draft_and_settle
  draft_and_settle-Ensures rounds dry_run s =
      Ensures-and_then IsChecked Done _ _ (first_draft-Ensures s) λ draft checked s.
        Ensures-and_then IsChecked Done _ _ (repair_patch-Ensures rounds 0 draft s checked)
          λ repaired checked s.
            settle-Ensures rounds dry_run repaired repaired.validation.valid s checked refl
