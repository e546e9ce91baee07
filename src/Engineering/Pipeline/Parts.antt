-- ===== src/Engineering/Pipeline/Parts.antt =====
-- engineering/pipeline.py over the validator and the applier of engineering/patch/: `create`.
mod Tests
use git_hub_engineering_work.Common.{
  is_nil, String, ◌≡◌, ◌≢◌, ◌⊎◌, refl, sym, ap, ◌∙◌, Bool, true, false, not, Option, none, some,
  List, [], ◌∷◌, All, Bool-cases, inl, inr,
}
use git_hub_engineering_work.Common.Act.{Act}
use git_hub_engineering_work.Common.Outcome.{Outcome, returned, raised}
use git_hub_engineering_work.Github.Shell.{Completed}
use git_hub_engineering_work.Worker.GitWorkflow.Safety.{Ensures}
use git_hub_engineering_work.Engineering.Models.{
  EngineeringIssue, EngineeringContext, EngineeringConfiguration, EngineeringResult,
  PatchApplicationResult, PatchResponse, PatchValidationResult, Prompt,
}
use git_hub_engineering_work.Engineering.Patch.Applier.{
  Disk, Checkout, modified_files, fallbacks, select, back_up, install, proceed, apply,
}
use git_hub_engineering_work.Engineering.Patch.Validator
use git_hub_engineering_work.Engineering.Patch.Validator.{Tree, files_of, validate}
use git_hub_engineering_work.Engineering.Patch.Validator.Accepts.{
  IsAcceptable, IsAllowed, validate_iff,
}
use git_hub_engineering_work.Engineering.Services.{Services}
use git_hub_engineering_work.Engineering.Pipeline.{run_infer_pipeline}
use git_hub_engineering_work.Engineering.Pipeline.Repairs.{IsLawfulFor}
use git_hub_engineering_work.Engineering.Pipeline.Sound.{
  IsReviewable, run_infer_pipeline-IsReviewable,
}

module _ (checkout : Checkout) where
  told-install :
      (args : List String) (diff : String) (atomic : Bool) (d : Disk)
      → let r = (install checkout args diff atomic d).1 in r.applied ≡ is_nil r.errors
  unfolding install
  told-install args diff atomic d =
      elim (Bool-cases
        (checkout.git args diff (back_up checkout (modified_files diff) d).0).1.failed) [
          | inl failed ↦ rw (failed, install) refl
          | inr passed ↦ rw (passed, install) refl
        ]

  told-proceed :
      (check : Completed) (diff : String) (dry_run atomic : Bool) (d : Disk)
      (chosen : Option (List String))
      → let r = (proceed checkout check diff dry_run atomic (d, chosen)).1 in
        r.applied ≡ is_nil r.errors
  unfolding proceed
  told-proceed check diff dry_run atomic d none = refl
  told-proceed check diff true atomic d (some args) = refl
  told-proceed check diff false atomic d (some args) = told-install args diff atomic d

  -- An application says that it went well exactly if it has no errors.
  told-apply :
      (diff : String) (dry_run atomic : Bool) (d : Disk)
      → let r = (apply checkout diff dry_run atomic d).1 in r.applied ≡ is_nil r.errors
  unfolding apply
  told-apply diff dry_run atomic d = told-proceed _ diff dry_run atomic _ _

-- Two views of the paths agree on all but which files are there.
pub record AreAlike (t u : Tree) : Type 0 where
  pub anchor : t.anchor ≡ u.anchor
  pub root : t.root ≡ u.root
  pub resolve : t.resolve ≡ u.resolve
  pub parts : t.parts ≡ u.parts
  pub name : t.name ≡ u.name

module _ {N : Type 0} (t u : Tree) (config : EngineeringConfiguration) (diff : String)
    (context : EngineeringContext N) (alike : AreAlike t u) where
  IsAllowed-alike : (f : String) → IsAllowed N t (some context) f → IsAllowed N u (some context) f
  IsAllowed-alike f h = rw⁻¹ (alike.anchor, alike.root, alike.resolve, alike.parts, alike.name) h

  All-alike :
      (l : List String)
      → All (IsAllowed N t (some context)) l
      → All (IsAllowed N u (some context)) l
  All-alike [] h = tt
  All-alike (f ∷ l) (own, others) = (IsAllowed-alike f own, All-alike l others)

  IsAcceptable-alike :
      IsAcceptable N t config diff (some context) → IsAcceptable N u config diff (some context)
  IsAcceptable-alike a = record {
    not_blank = a.not_blank;
    has_old = a.has_old;
    has_new = a.has_new;
    has_hunk = a.has_hunk;
    few_files = a.few_files;
    allowed = All-alike _ a.allowed;
    evident = a.evident;
    few_lines = a.few_lines;
  }

module _ (N : Type 0) (config : EngineeringConfiguration) (checkout : Checkout) (tree : Disk → Tree)
    (others : Services N Disk) where
  -- the parts of the pipeline, with the validator and the applier for the diffs
  unfoldable pub create : Services N Disk
  create = record others {
    validate = λ diff context d. (d, returned (validate N (tree d) config diff (some context)));
    apply = λ diff dry_run d. let (e, r) = apply checkout diff dry_run true d in (e, returned r);
  }

  valid-errors :
      (diff : String) (context : EngineeringContext N) (d : Disk)
      → let v = validate N (tree d) config diff (some context) in v.valid ≡ is_nil v.errors
  unfolding validate
  valid-errors diff context d = refl

  files-validate :
      (diff : String) (context : EngineeringContext N) (d : Disk)
      → (validate N (tree d) config diff (some context)).modified_files ≡ files_of diff
  unfolding validate
  files-validate diff context d = refl

  -- The provider returned the diff.
  abbrev pub IsGenerated : String → Type 0
  IsGenerated diff =
      (prompt : Prompt) × (e : Disk) × (patch : PatchResponse N) × ((others.generate_patch prompt
          e).1
        ≡ returned patch)
      × (patch.unified_diff ≡ diff)

  abbrev IsValidation : EngineeringContext N → String → PatchValidationResult → Type 0
  IsValidation context diff v = (e : Disk) × (v ≡ validate N (tree e) config diff (some context))

  -- An application of the diff came out like this.
  abbrev pub IsApplication : String → PatchApplicationResult → Type 0
  IsApplication diff r =
      (e : Disk) × (dry_run : Bool) × (r ≡ (apply checkout diff dry_run true e).1)

  Ensures-outcome : (m : Disk × Outcome (EngineeringContext N)) → Ensures (λ c. m.1 ≡ returned c) m
  unfolding Ensures
  Ensures-outcome (d, returned c) = refl
  Ensures-outcome (d, raised e) = tt

  generate_patch-IsGenerated :
      (prompt : Prompt) (e : Disk) (m : Disk × Outcome (PatchResponse N))
      → (others.generate_patch prompt e).1 ≡ m.1
      → Ensures (λ p. IsGenerated p.unified_diff) m
  unfolding Ensures
  generate_patch-IsGenerated prompt e (d, returned p) h = (prompt, e, p, h, refl)
  generate_patch-IsGenerated prompt e (d, raised x) h = tt

  -- a run for an issue, from a disk
  module _ (issue : EngineeringIssue) (d : Disk)
      (alike : (e : Disk) → AreAlike (tree e) (tree d)) where
    -- The context is the one that the run builds for its issue.
    abbrev pub IsBuilt : EngineeringContext N → Type 0
    IsBuilt context = (others.build_context issue d).1 ≡ returned context

    create-IsLawfulFor :
        (context : EngineeringContext N)
        → IsBuilt context
        → IsLawfulFor create IsGenerated (IsValidation context) IsApplication context
    unfolding create Ensures
    create-IsLawfulFor context built = record {
      generates =
          λ prompt e. generate_patch-IsGenerated prompt e (others.generate_patch prompt e) refl;
      validates = λ diff e. ((e, refl), valid-errors diff context e);
      applies = λ diff dry_run e. ((e, dry_run, refl), told-apply checkout diff dry_run true e);
    }

    -- The files are those of a diff that the provider returned, that is acceptable in the run's context
    -- and repository, and that git applied, or would apply in a dry run.
    abbrev pub AreSafe : List String → Type 0
    AreSafe files =
        (context : EngineeringContext N) × IsBuilt context
        × ((diff : String) × (a : PatchApplicationResult) × IsGenerated diff
            × (files ≡ files_of diff)
            × IsAcceptable N (tree d) config diff (some context)
            × IsApplication diff a
            × (a.applied ≡ true))

    abbrev pub IsSafe : EngineeringResult N → Type 0
    IsSafe r = AreSafe r.files_modified ⊎ (r.recommended_next_step ≢ "review_patch")

    reviewable-IsSafe :
        (m : Disk × Outcome (EngineeringResult N))
        → Ensures
            (IsReviewable N create IsGenerated IsValidation IsApplication IsBuilt
              create-IsLawfulFor)
            m
        → Ensures IsSafe m
    unfolding Ensures
    reviewable-IsSafe (e, raised x) h = tt
    reviewable-IsSafe (e, returned r)
          (inl (context, built, (diff, v, a, told, (then, made), valid, same, accepted, did))) =
        inl (
          context,
          built,
          (
            diff,
            a,
            told,
            sym same ∙ ap (λ v. v.modified_files) made ∙ files-validate diff context then,
            IsAcceptable-alike (tree then) (tree d) config diff context (alike then) (
                (validate_iff N (tree then) config diff (some context)).0
                  (sym (ap (λ v. v.valid) made) ∙ valid)),
            accepted,
            did,
          ),
        )
    reviewable-IsSafe (e, returned r) (inr other) = inr other

    -- With the validator and the applier of `create`, a result that is recommended for review lists the
    -- files of a diff that the provider returned and that was applied, or would apply in a dry run, and
    -- this diff is acceptable in the context that the run built for its issue: it is well formed, within
    -- the limits on files and lines, there is enough evidence for the root cause, and each of its files
    -- lies in the repository, in no generated directory, and is no documentation unless the issue is
    -- about documentation. Paths are expected to resolve alike on every disk.
    pub create-IsSafe :
        (dry_run run_tests : Bool)
        → Ensures IsSafe (run_infer_pipeline N create config issue dry_run run_tests d)
    unfolding create
    create-IsSafe dry_run run_tests = reviewable-IsSafe _ (
        run_infer_pipeline-IsReviewable N create IsGenerated IsValidation IsApplication IsBuilt
          create-IsLawfulFor config issue dry_run run_tests d
          (Ensures-outcome (others.build_context issue d)))
