-- ===== src/Engineering/Patch/Validator/Accepts.antt =====
-- engineering/patch/validator.py: which patches are valid.
use git_hub_engineering_work.Common.{
  ℕ, ◌+◌, ◌≤◌, ◌⊎◌, String, ◌==◌, eq_iff, ◌≡◌, refl, ap, subst, ◌∙◌, ◌↔◌, Bool, true, false, not,
  ◌&&◌, ◌||◌, Option, none, some, List, [], ◌∷◌, ◌++◌, All, any, length, ltb, arith, is_nil,
  if◌then◌else◌,
}
use git_hub_engineering_work.Common.Text.{strip, truthy, lower_is}
use git_hub_engineering_work.Common.Text.Lines.{has, split_at, splitlines}
use git_hub_engineering_work.Common.Paths.{IsUnder, holds, holds_iff}
use git_hub_engineering_work.Engineering.Models.{EngineeringContext, EngineeringConfiguration}
use git_hub_engineering_work.Engineering.Patch.Validator.Names.{
  signed, names_in, distinct, changed_lines-signed, named_lines-map, All-from_keys,
  length-from_keys,
}
use git_hub_engineering_work.Engineering.Patch.Validator.{
  Tree, among, named_lines, from_keys, error_if, files_of, escapes, generated, in_generated,
  ends_lower, is_unrelated_documentation, unrelated, file_errors, each, scarce, malformed,
  additions_of, deletions_of, errors_of, validate,
}

module _ (N : Type 0) (tree : Tree) where
  is_nil-append : (l m : List String) → is_nil (l ++ m) ≡ (is_nil l && is_nil m)
  is_nil-append [] m = refl
  is_nil-append (x ∷ l) m = refl

  is_nil-error_if : (b : Bool) (message : String) → is_nil (error_if b message) ≡ not b
  is_nil-error_if true message = refl
  is_nil-error_if false message = refl

  not-not : (b : Bool) → not (not b) ≡ b
  not-not true = refl
  not-not false = refl

  -- A directory that is not for the patch to change.
  abbrev pub IsGenerated : String → Type 0
  IsGenerated part =
      (part ≡ "node_modules")
      ⊎ ((part ≡ "vendor") ⊎ ((part ≡ "dist") ⊎ ((part ≡ "build") ⊎ (part ≡ ".git"))))

  -- The issue is about documentation, or the file is none by its ending and its name.
  abbrev pub IsFitting : Option (EngineeringContext N) → String → Type 0
  IsFitting none f = Unit
  IsFitting (some context) f =
      (context.understanding.category ≡ "Documentation")
      ⊎ ((ends_lower f ".md" ≡ false)
          × (lower_is (tree.name f) "readme" ≡ false)
          × (lower_is (tree.name f) "readme.md" ≡ false)
          × (lower_is (tree.name f) "contributing.md" ≡ false))

  -- A file that a patch may change.
  abbrev pub IsAllowed : Option (EngineeringContext N) → String → Type 0
  IsAllowed context f =
      IsUnder (tree.anchor ∷ tree.root) (tree.resolve f)
      × All (λ part. ¬ IsGenerated part) (tree.parts f)
      × IsFitting context f

  -- There is as much evidence for the root cause as the configuration wants.
  abbrev pub IsEvident : EngineeringConfiguration → Option (EngineeringContext N) → Type 0
  IsEvident config none = Unit
  IsEvident config (some context) =
      config.min_root_cause_evidence ≤ length context.analysis.root_cause_evidence

  -- A diff that may be applied.
  pub record IsAcceptable (config : EngineeringConfiguration) (diff : String)
      (context : Option (EngineeringContext N)) : Type 0 where
    pub not_blank : truthy (strip diff) ≡ true
    pub has_old : has diff "--- " ≡ true
    pub has_new : has diff "+++ " ≡ true
    pub has_hunk : has diff "@@" ≡ true
    pub few_files : distinct (names_in diff) ≤ config.max_patch_changed_files
    pub allowed : All (IsAllowed context) (names_in diff)
    pub evident : IsEvident config context
    pub few_lines : signed "+" "+++" diff + signed "-" "---" diff ≤ config.max_patch_changed_lines

  among-generated : (part : String) → (among generated part ≡ false) ↔ (¬ IsGenerated part)
  among-generated part = (
    λ h g. ground (
      arith,
      eq_iff "node_modules" part,
      eq_iff "vendor" part,
      eq_iff "dist" part,
      eq_iff "build" part,
      eq_iff ".git" part,
    ),
    λ other. ground (
      arith,
      eq_iff "node_modules" part,
      eq_iff "vendor" part,
      eq_iff "dist" part,
      eq_iff "build" part,
      eq_iff ".git" part,
    ),
  )

  in_generated-none :
      (parts : List String)
      → (any (among generated) parts ≡ false) ↔ All (λ part. ¬ IsGenerated part) parts
  in_generated-none [] = (λ h. tt, λ h. refl)
  in_generated-none (part ∷ parts) =
      let here = among-generated part in
      let rest = in_generated-none parts in
      (
        λ h. (here.0 (ground arith), rest.0 (ground arith)),
        λ (own, others). ground (arith, here.1 own, rest.1 others),
      )

  fitting-cases :
      (c : String) (m n o q : Bool)
      → ((if c == "Documentation" then false else m || n || o || q) ≡ false)
        ↔ ((c ≡ "Documentation") ⊎ ((m ≡ false) × (n ≡ false) × (o ≡ false) × (q ≡ false)))
  fitting-cases c m n o q =
      (λ h. ground (arith, eq_iff c "Documentation"), λ h. ground (arith, eq_iff c "Documentation"))

  unrelated-IsFitting :
      (context : Option (EngineeringContext N)) (f : String)
      → (unrelated N tree context f ≡ false) ↔ IsFitting context f
  unfolding is_unrelated_documentation
  unrelated-IsFitting none f = (λ h. tt, λ h. refl)
  unrelated-IsFitting (some context) f = fitting-cases context.understanding.category _ _ _ _

  scarce-IsEvident :
      (config : EngineeringConfiguration) (context : Option (EngineeringContext N))
      → (scarce N tree config context ≡ false) ↔ IsEvident config context
  scarce-IsEvident config none = (λ h. tt, λ h. refl)
  scarce-IsEvident config (some context) = (λ h. ground arith, λ h. ground arith)

  is_nil-file_errors :
      (context : Option (EngineeringContext N)) (f : String)
      → is_nil (file_errors N tree context f) ≡ (
          holds (tree.anchor ∷ tree.root) (tree.resolve f)
          && (not (in_generated N tree f) && not (unrelated N tree context f)))
  unfolding file_errors escapes
  is_nil-file_errors context f = simp (is_nil-append, is_nil-error_if, not-not)

  file_errors-nil :
      (context : Option (EngineeringContext N)) (f : String)
      → (is_nil (file_errors N tree context f) ≡ true) ↔ IsAllowed context f
  unfolding in_generated
  file_errors-nil context f =
      let under = holds_iff tree.anchor tree.root (tree.resolve f) in
      let clear = in_generated-none (tree.parts f) in
      let fits = unrelated-IsFitting context f in
      (
        λ h. (
          under.0 (ground (arith, is_nil-file_errors context f)),
          clear.0 (ground (arith, is_nil-file_errors context f)),
          fits.0 (ground (arith, is_nil-file_errors context f)),
        ),
        λ (inside, outside, related).
            ground (
              arith,
              is_nil-file_errors context f,
              under.1 inside,
              clear.1 outside,
              fits.1 related,
            ),
      )

  each-nil :
      (context : Option (EngineeringContext N)) (l : List String)
      → (is_nil (each N tree (file_errors N tree context) l) ≡ true) ↔ All (IsAllowed context) l
  each-nil context [] = (λ h. tt, λ h. refl)
  each-nil context (f ∷ l) =
      let both =
        is_nil-append (file_errors N tree context f) (each N tree (file_errors N tree context) l) in
      let here = file_errors-nil context f in
      let rest = each-nil context l in
      (
        λ h. (here.0 (ground (arith, both)), rest.0 (ground (arith, both))),
        λ (own, others). ground (arith, both, here.1 own, rest.1 others),
      )

  is_nil-errors_of :
      (config : EngineeringConfiguration) (diff : String) (context : Option (EngineeringContext N))
      → is_nil (errors_of N tree config diff context) ≡ (
          truthy (strip diff)
          && (not (malformed N tree diff)
              && (not (ltb config.max_patch_changed_files (length (files_of diff)))
                  && (is_nil (each N tree (file_errors N tree context) (files_of diff))
                      && (not (scarce N tree config context)
                          && not (
                              ltb config.max_patch_changed_lines
                                (additions_of N tree diff + deletions_of N tree diff)))))))
  unfolding errors_of
  is_nil-errors_of config diff context = simp (is_nil-append, is_nil-error_if, not-not)

  few : (limit n : ℕ) → (ltb limit n ≡ false) ↔ (n ≤ limit)
  few limit n = (λ h. ground arith, λ h. ground arith)

  files_of-names_in : (diff : String) → length (files_of diff) ≡ distinct (names_in diff)
  unfolding files_of
  files_of-names_in diff =
      length-from_keys (named_lines (split_at 10 diff))
      ∙ ap distinct (named_lines-map (split_at 10 diff))

  few_files-names_in :
      (config : EngineeringConfiguration) (diff : String)
      → (ltb config.max_patch_changed_files (length (files_of diff)) ≡ false)
        ↔ (distinct (names_in diff) ≤ config.max_patch_changed_files)
  few_files-names_in config diff =
      rw (files_of-names_in diff) (few config.max_patch_changed_files (distinct (names_in diff)))

  few_lines-signed :
      (config : EngineeringConfiguration) (diff : String)
      → (ltb config.max_patch_changed_lines (additions_of N tree diff + deletions_of N tree diff)
          ≡ false)
        ↔ (signed "+" "+++" diff + signed "-" "---" diff ≤ config.max_patch_changed_lines)
  few_lines-signed config diff =
      rw
        (
          changed_lines-signed "+" "+++" (splitlines diff),
          changed_lines-signed "-" "---" (splitlines diff),
        )
        (few config.max_patch_changed_lines (signed "+" "+++" diff + signed "-" "---" diff))

  IsAllowed-names_in :
      (context : Option (EngineeringContext N)) (diff : String)
      → All (IsAllowed context) (files_of diff) ↔ All (IsAllowed context) (names_in diff)
  unfolding files_of
  IsAllowed-names_in context diff =
      subst
        (λ l.
          All (IsAllowed context) (from_keys (named_lines (split_at 10 diff)))
          ↔ All (IsAllowed context) l)
        (named_lines-map (split_at 10 diff))
        (All-from_keys (IsAllowed context) (named_lines (split_at 10 diff)))

  -- A patch is valid exactly if it is acceptable: it is not blank, has the signs of a unified diff, names
  -- no more different files and changes no more lines than the configuration allows, each file lies in
  -- the repository, in no generated directory, and is no documentation unless the issue is about it, and
  -- there is enough evidence for the root cause.
  pub validate_iff :
      (config : EngineeringConfiguration) (diff : String) (context : Option (EngineeringContext N))
      → ((validate N tree config diff context).valid ≡ true) ↔ IsAcceptable config diff context
  unfolding validate errors_of malformed
  validate_iff config diff context = (
    λ h. record {
      not_blank = ground (arith, is_nil-errors_of config diff context);
      has_old = ground (arith, is_nil-errors_of config diff context);
      has_new = ground (arith, is_nil-errors_of config diff context);
      has_hunk = ground (arith, is_nil-errors_of config diff context);
      few_files =
          (few_files-names_in config diff).0 (ground (arith, is_nil-errors_of config diff context));
      allowed = (IsAllowed-names_in context diff).0 (
          (each-nil context (files_of diff)).0
            (ground (arith, is_nil-errors_of config diff context)));
      evident =
          (scarce-IsEvident config context).0
            (ground (arith, is_nil-errors_of config diff context));
      few_lines =
          (few_lines-signed config diff).0 (ground (arith, is_nil-errors_of config diff context));
    },
    λ a. ground (
      arith,
      is_nil-errors_of config diff context,
      a.not_blank,
      a.has_old,
      a.has_new,
      a.has_hunk,
      (few_files-names_in config diff).1 a.few_files,
      (each-nil context (files_of diff)).1 ((IsAllowed-names_in context diff).1 a.allowed),
      (scarce-IsEvident config context).1 a.evident,
      (few_lines-signed config diff).1 a.few_lines,
    ),
  )
