-- ===== src/Github/Pushes.antt =====
-- github/repositories/operations.py and github/commits/service.py: which commands push.
use git_hub_engineering_work.Common.{
  String, ◌==◌, ◌≡◌, refl, ◌∙◌, Bool, true, false, Option, List, [], ◌∷◌, ◌++◌, if◌then◌else◌,
}
use git_hub_engineering_work.Common.Outcome.{Exc, Outcome, returned, raised}
use git_hub_engineering_work.Common.Act.{Act, and_then, ◌>>=◌}
use git_hub_engineering_work.Github.Shell.{
  Git, Shell, run_git, checkout_branch, create_branch, delete_branch, current_branch, changed_files,
  validate_remote, stage_files, commit, push_branch, create_commit,
}

-- the commands that send something to a remote
abbrev pub is_push : List String → Bool
is_push [] = false
is_push (a ∷ rest) = a == "push"

abbrev pub pushes : List (List String) → List (List String)
pushes [] = []
pushes (c ∷ cs) = let rest = pushes cs in if is_push c then c ∷ rest else rest

module _ (git : Git) where
  -- The state after the step has run the same pushes as before it.
  unfoldable pub Quiet {κ} : {A : Type κ} → Act (Shell git) A → Type 0
  Quiet m = (s : Shell git) → pushes (m s).0.ran ≡ pushes s.ran

  pushes-append :
      (xs : List (List String)) (c : List String)
      → is_push c ≡ false
      → pushes (xs ++ c ∷ []) ≡ pushes xs
  pushes-append [] c h = rw h refl
  pushes-append (x ∷ xs) c h = rw (pushes-append xs c h) refl

  pub run_git-Quiet :
      (args : List String) (exn : String → Exc)
      → is_push args ≡ false
      → Quiet (run_git git args exn)
  unfolding Quiet run_git
  run_git-Quiet args exn h s = pushes-append s.ran args h

  pub bound-Quiet {κ ι} :
      {A : Type κ} {B : Type ι} (r : Shell git × Outcome A) (f : A → Act (Shell git) B)
      → ((a : A) → Quiet (f a))
      → pushes (and_then r f).0.ran ≡ pushes r.0.ran
  unfolding Quiet and_then
  bound-Quiet (s, returned a) f h = h a s
  bound-Quiet (s, raised e) f h = refl

  pub bind-Quiet {κ ι} :
      {A : Type κ} {B : Type ι} (m : Act (Shell git) A) (f : A → Act (Shell git) B)
      → Quiet m
      → ((a : A) → Quiet (f a))
      → Quiet (m >>= f)
  unfolding Quiet
  bind-Quiet m f h k s = bound-Quiet (m s) f k ∙ h s

  pub still-Quiet {κ} : {A : Type κ} (o : Outcome A) → Quiet (λ s. (s, o))
  unfolding Quiet
  still-Quiet o s = refl

  pub current_branch-Quiet : Quiet (current_branch git)
  unfolding current_branch
  current_branch-Quiet = bind-Quiet _ _ (run_git-Quiet _ _ refl) λ r. still-Quiet _

  pub changed_files-Quiet : Quiet (changed_files git)
  unfolding changed_files
  changed_files-Quiet = bind-Quiet _ _ (run_git-Quiet _ _ refl) λ r. still-Quiet _

  pub checkout_branch-Quiet : (branch : String) → Quiet (checkout_branch git branch)
  unfolding checkout_branch
  checkout_branch-Quiet branch = bind-Quiet _ _ (run_git-Quiet _ _ refl) λ r. still-Quiet _

  pub create_branch-Quiet :
      (branch : String) (base : Option String) (b : Bool) → Quiet (create_branch git branch base b)
  unfolding create_branch
  create_branch-Quiet branch base b = bind-Quiet _ _ (run_git-Quiet _ _ refl) λ r. still-Quiet _

  pub delete_branch-Quiet : (branch : String) (b : Bool) → Quiet (delete_branch git branch b)
  unfolding delete_branch
  delete_branch-Quiet branch b = bind-Quiet _ _ (run_git-Quiet _ _ refl) λ r. still-Quiet _

  pub stage_files-Quiet : (files : List String) → Quiet (stage_files git files)
  unfolding stage_files
  stage_files-Quiet [] = bind-Quiet _ _ (run_git-Quiet _ _ refl) λ r. still-Quiet _
  stage_files-Quiet (f ∷ files) = bind-Quiet _ _ (run_git-Quiet _ _ refl) λ r. still-Quiet _

  pub commit-Quiet : (message : String) → Quiet (commit git message false)
  unfolding commit
  commit-Quiet message =
      bind-Quiet _ _ (run_git-Quiet _ _ refl)
        λ r. bind-Quiet _ _ (run_git-Quiet _ _ refl) λ r. still-Quiet _

  pub create_commit-Quiet :
      (message : Outcome String) (files : List String) → Quiet (create_commit git message files)
  unfolding create_commit
  create_commit-Quiet message files =
      bind-Quiet _ _ (stage_files-Quiet files)
        λ r. bind-Quiet _ _ (still-Quiet message) λ m. commit-Quiet m

  pub validate_remote-Quiet : (remote : String) → Quiet (validate_remote git remote)
  unfolding validate_remote
  validate_remote-Quiet remote = bind-Quiet _ _ (run_git-Quiet _ _ refl) λ r. still-Quiet _

  pub push_branch-Quiet : (branch : String) → Quiet (push_branch git branch true)
  unfolding push_branch
  push_branch-Quiet branch =
      bind-Quiet _ _ (validate_remote-Quiet "origin")
        λ r. bind-Quiet _ _ (run_git-Quiet _ _ refl) λ r. still-Quiet _

  pub choose-Quiet {κ} :
      {A : Type κ} (b : Bool) (m n : Act (Shell git) A)
      → Quiet m
      → Quiet n
      → Quiet (if b then m else n)
  choose-Quiet true m n h k = h
  choose-Quiet false m n h k = k
