-- ===== src/Github/Shell.antt =====
-- github/repositories/operations.py and github/commits/service.py: git commands, each a list of
-- arguments that `_run` gives to `git`. The shell keeps the commands that were run, newest last.
use git_hub_engineering_work.Common.{
  String, ◌<>◌, Bool, false, List, [], ◌∷◌, ◌++◌, Option, none, some, if◌then◌else◌,
}
use git_hub_engineering_work.Common.Text.{truthy, strip}
use git_hub_engineering_work.Common.Outcome.{Exc, Outcome, returned, raised}
use git_hub_engineering_work.Common.Act.{Act, ◌>>=◌, return}

-- `subprocess.CompletedProcess`
pub record Completed : Type 0 where
  pub failed : Bool
  pub stdout : String
  pub stderr : String

-- What `git` does with arguments in a world, and how Python cuts a text into lines.
pub record Git : Type 1 where
  pub World : Type 0
  pub run : List String → World → World × Completed
  pub splitlines : String → List String
  -- `line[3:]`
  pub path_of : String → String

module _ (git : Git) where
  pub record Shell : Type 0 where
    pub world : git.World
    pub ran : List (List String)

join_args : List String → String
join_args [] = ""
join_args (a ∷ []) = a
join_args (a ∷ b ∷ rest) = a <> " " <> join_args (b ∷ rest)

abbrev pub branch_exception : String → Exc
branch_exception m = record { class_name = "BranchException"; text = m }

abbrev pub commit_exception : String → Exc
commit_exception m = record { class_name = "CommitException"; text = m }

abbrev pub workspace_exception : String → Exc
workspace_exception m = record { class_name = "WorkspaceException"; text = m }

-- the error text: `result.stderr.strip() or f"git {' '.join(args)} failed"`
error_text : List String → String → String
unfolding join_args
error_text args stderr = if truthy stderr then stderr else "git " <> join_args args <> " failed"

check_run : (String → Exc) → List String → Completed → Outcome Completed
unfolding error_text strip
check_run exn args result =
    if result.failed then raised (exn (error_text args (strip result.stderr))) else returned result

-- `*([base] if base else [])`
abbrev base_args : Option String → List String
base_args none = []
base_args (some b) = if truthy b then b ∷ [] else []

module _ (git : Git) where
  -- `_run`
  unfoldable pub run_git : List String → (String → Exc) → Act (Shell git) Completed
  unfolding check_run
  run_git args exn s =
      let (w, result) = git.run args s.world in
      (record { world = w; ran = s.ran ++ args ∷ [] }, check_run exn args result)

  unfoldable pub checkout_branch : String → Act (Shell git) (Unit {0})
  checkout_branch branch = run_git ("checkout" ∷ branch ∷ []) branch_exception >>= λ _. return tt

  unfoldable pub create_branch : String → Option String → Bool → Act (Shell git) (Unit {0})
  create_branch branch base reset_existing =
      run_git ("checkout" ∷ (if reset_existing then "-B" else "-b") ∷ branch ∷ base_args base)
        branch_exception
      >>= λ _. return tt

  unfoldable pub delete_branch : String → Bool → Act (Shell git) (Unit {0})
  delete_branch branch force =
      run_git ("branch" ∷ (if force then "-D" else "-d") ∷ branch ∷ []) branch_exception >>= λ _.
      return tt

  unfoldable pub current_branch : Act (Shell git) String
  current_branch = run_git ("branch" ∷ "--show-current" ∷ []) workspace_exception >>= λ r.
      return (strip r.stdout)

  abbrev pub paths_of : List String → List String
  paths_of [] = []
  paths_of (line ∷ rest) =
      let paths = paths_of rest in if truthy line then git.path_of line ∷ paths else paths

  unfoldable pub changed_files : Act (Shell git) (List String)
  changed_files = run_git ("status" ∷ "--porcelain" ∷ []) workspace_exception >>= λ r.
      return (paths_of (git.splitlines r.stdout))

  unfoldable pub validate_remote : String → Act (Shell git) String
  validate_remote remote = run_git ("remote" ∷ "get-url" ∷ remote ∷ []) workspace_exception >>= λ r.
      return (strip r.stdout)

  -- `files or ("--all",)`
  unfoldable pub stage_files : List String → Act (Shell git) (Unit {0})
  stage_files [] = run_git ("add" ∷ "--all" ∷ []) commit_exception >>= λ _. return tt
  stage_files (f ∷ files) = run_git ("add" ∷ f ∷ files) commit_exception >>= λ _. return tt

  unfoldable pub commit : String → Bool → Act (Shell git) String
  commit message allow_empty =
      run_git
        (if allow_empty
          then "commit" ∷ "--allow-empty" ∷ "-m" ∷ message ∷ []
          else "commit" ∷ "-m" ∷ message ∷ [])
        commit_exception
      >>= λ _. run_git ("rev-parse" ∷ "HEAD" ∷ []) commit_exception >>= λ r. return (strip r.stdout)

  unfoldable pub push_branch : String → Bool → Act (Shell git) (Unit {0})
  push_branch branch dry_run =
      if dry_run
      then (validate_remote "origin" >>= λ _.
          run_git ("rev-parse" ∷ "--verify" ∷ branch ∷ []) commit_exception >>= λ _. return tt)
      else (run_git ("push" ∷ "-u" ∷ "origin" ∷ branch ∷ []) commit_exception >>= λ _. return tt)

  -- `CommitService.create_commit`, the message in place of its template
  unfoldable pub create_commit : Outcome String → List String → Act (Shell git) String
  create_commit message files =
      stage_files files >>= λ _. (λ s. (s, message)) >>= λ m. commit m false
