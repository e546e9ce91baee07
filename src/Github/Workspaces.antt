-- ===== src/Github/Workspaces.antt =====
-- github/workspace/manager.py: where clones of repositories lie, and what is done with them. `S` is the
-- state of the machine. A path is a list of its parts, an absolute one from its anchor on.
pub mod Inside
use git_hub_engineering_work.Common.{
  ℕ, String, ◌<>◌, ◌==◌, Bool, true, false, not, ◌&&◌, ◌||◌, Option, none, some, List, [], ◌∷◌,
  ◌++◌, is_nil, nat_eq, if◌then◌else◌,
}
use Prim.Native.Char.{Char, code}
use git_hub_engineering_work.Common.Text.{strip, truthy, truthy?}
use git_hub_engineering_work.Common.Text.Lines.{
  splitlines, has, cut, drop, join, behind, keep_chars,
}
use git_hub_engineering_work.Common.Paths.{PathParts, holds}
use git_hub_engineering_work.Common.Outcome.{Exc, Outcome, returned, raised}
use git_hub_engineering_work.Common.Act.{Act, ◌>>=◌, return, raise}
use git_hub_engineering_work.Github.Shell.{Completed, workspace_exception}

abbrev pub clone_exception : String → Exc
clone_exception m = record { class_name = "RepositoryCloneException"; text = m }

-- The machine: its files, its processes, and the characters that `str.isalnum` accepts.
pub record Host {ℓ} (S : Type ℓ) : Type ℓ where
  -- `Path.resolve`, which follows the links that there are, and `str(path)`
  pub resolve : PathParts → S → PathParts
  pub shown : PathParts → String
  pub exists : PathParts → S → Bool
  pub is_dir : PathParts → S → Bool
  pub mkdir : PathParts → Act S (Unit {0})
  pub rmtree : PathParts → Act S (Unit {0})
  -- a process in a directory, which may time out
  pub subprocess : List String → Option PathParts → Act S Completed
  pub is_alnum : Char → Bool
  pub windows : Bool

pub record GitHubIntegrationConfig : Type 0 where
  pub workspace_path : PathParts
  pub cleanup_policy : String

pub record GitHubRepository : Type 0 where
  pub full_name : String
  pub clone_url : String

pub record WorkspaceState : Type 0 where
  pub path : PathParts
  pub repository : String
  pub current_branch : String
  pub changed_files : List String
  pub clean : Bool
  pub remote_url : Option String

-- a value that the state has
abbrev pub ask {ℓ κ} : {S : Type ℓ} {A : Type κ} → (S → A) → Act S A
ask f s = (s, returned (f s))

-- `_tokenless_url`
unfoldable pub tokenless_url : String → String
unfolding behind
tokenless_url value =
    if not (has value "@github.com/")
    then value
    else "https://github.com/" <> behind "@github.com/" 12 value

-- the lines of `git status --porcelain` that are not empty, from their fourth character on
abbrev pub porcelain : List String → List String
porcelain [] = []
porcelain (line ∷ lines) =
    let rest = porcelain lines in if truthy line then drop 3 line ∷ rest else rest

module _ {ℓ} {S : Type ℓ} (host : Host S) (config : GitHubIntegrationConfig) where
  -- `_safe_segment`
  unfoldable pub safe_segment : String → Act S String
  safe_segment value =
      let allowed =
        keep_chars
          (λ c. host.is_alnum c || nat_eq (code c) 45 || nat_eq (code c) 95 || nat_eq (code c) 46)
          value in
      if not (truthy allowed) || allowed == "." || allowed == ".."
      then raise (workspace_exception ("unsafe path segment: " <> value))
      else return allowed

  -- `_git_command()`
  abbrev pub git_command : List String
  git_command = if host.windows then "git" ∷ "-c" ∷ "http.sslBackend=schannel" ∷ [] else "git" ∷ []

  -- `_workspace_root`
  abbrev pub workspace_root : Bool → S → PathParts
  workspace_root temporary s =
      host.resolve (config.workspace_path ++ (if temporary then "tmp" else "persistent") ∷ []) s

  -- `_run_git`
  unfoldable pub run_git : PathParts → List String → (String → Exc) → Act S Completed
  unfolding join strip
  run_git path args exn = host.subprocess (git_command ++ args) (some path) >>= λ result.
      if result.failed
      then raise (
          exn (
            if truthy (strip result.stderr)
            then strip result.stderr
            else "git " <> join " " args <> " failed"))
      else return result

  unfoldable pub remote_url : PathParts → Act S (Option String)
  unfolding strip
  remote_url path =
      host.subprocess (git_command ++ "remote" ∷ "get-url" ∷ "origin" ∷ []) (some path)
      >>= λ result.
          return (if result.failed then none else some (tokenless_url (strip result.stdout)))

  unfoldable pub fetch : PathParts → Act S (Unit {0})
  fetch path = run_git path ("fetch" ∷ "--prune" ∷ []) clone_exception >>= λ _. return tt

  unfoldable pub refresh : PathParts → String → Act S (Unit {0})
  refresh path branch = fetch path >>= λ _.
      run_git path ("checkout" ∷ branch ∷ []) clone_exception >>= λ _.
      run_git path ("reset" ∷ "--hard" ∷ ("origin/" <> branch) ∷ []) clone_exception >>= λ _.
      run_git path ("clean" ∷ "-fd" ∷ []) clone_exception >>= λ _. return tt

  unfoldable pub status : PathParts → String → Act S WorkspaceState
  unfolding strip splitlines
  status path repository =
      run_git path ("branch" ∷ "--show-current" ∷ []) workspace_exception >>= λ current.
      run_git path ("status" ∷ "--porcelain" ∷ []) workspace_exception >>= λ listed.
      remote_url path >>= λ remote.
      let changed = porcelain (splitlines listed.stdout) in
      return (record {
        path = path;
        repository = repository;
        current_branch = strip current.stdout;
        changed_files = changed;
        clean = is_nil changed;
        remote_url = remote;
      })

  -- `remote not in {expected, _tokenless_url(expected)}`
  abbrev pub other_remote : String → Option String → Bool
  other_remote expected none = true
  other_remote expected (some remote) =
      not (remote == expected) && not (remote == tokenless_url expected)

  -- `f"{remote}"`
  abbrev pub remote_text : Option String → String
  remote_text none = "None"
  remote_text (some remote) = remote

  -- `if expected_remote: ...`
  unfoldable pub validate_remote : PathParts → Option String → Act S (Unit {0})
  validate_remote path none = return tt
  validate_remote path (some expected) =
      if not (truthy expected)
      then return tt
      else (remote_url path >>= λ remote.
          if other_remote expected remote
          then raise (workspace_exception ("workspace remote mismatch: " <> remote_text remote))
          else return tt)

  unfoldable pub validate_workspace : PathParts → Option String → Act S (Unit {0})
  validate_workspace path expected s =
      if not (host.exists path s) || not (host.is_dir path s)
      then raise (workspace_exception ("workspace does not exist: " <> host.shown path)) s
      else if not (host.exists (path ++ ".git" ∷ []) s)
      then raise (workspace_exception ("workspace is not a git repository: " <> host.shown path)) s
      else validate_remote path expected s

  -- the end of `repository_path`, from the test that the target lies under the root
  unfoldable pub checked_target : PathParts → PathParts → Act S PathParts
  unfolding holds
  checked_target root target s =
      if not (holds (host.resolve root s) target)
      then raise (workspace_exception ("workspace path escapes root: " <> host.shown target)) s
      else return target s

  -- `full_name.split("/", 1)` has been made
  unfoldable pub place : String → Option String → Bool → Act S PathParts
  place full_name none temporary =
      raise (workspace_exception ("repository full name is invalid: " <> full_name))
  place full_name (some repo) temporary = safe_segment (cut 47 full_name).0 >>= λ owner.
      safe_segment repo >>= λ name. ask (workspace_root temporary) >>= λ root.
      ask (host.resolve (root ++ owner ∷ name ∷ [])) >>= λ target. checked_target root target

  unfoldable pub repository_path : String → Bool → Act S PathParts
  unfolding cut
  repository_path full_name temporary = place full_name (cut 47 full_name).1 temporary

  -- the clone, where the target is not there
  unfoldable pub clone : String → PathParts → Act S PathParts
  unfolding strip
  clone clone_url target =
      host.subprocess (git_command ++ "clone" ∷ clone_url ∷ host.shown target ∷ []) none
      >>= λ result.
          if result.failed
          then raise (
              clone_exception
                (if truthy (strip result.stderr) then strip result.stderr else "git clone failed"))
          else return target

  unfoldable pub reuse_or_clone : GitHubRepository → PathParts → Bool → Act S PathParts
  reuse_or_clone repository target true =
      validate_workspace target (some repository.clone_url) >>= λ _.
      fetch target >>= λ _. return target
  reuse_or_clone repository target false = clone repository.clone_url target

  unfoldable pub clone_or_reuse : GitHubRepository → Bool → Act S PathParts
  clone_or_reuse repository temporary = ask (workspace_root temporary) >>= λ root.
      repository_path repository.full_name temporary >>= λ target. host.mkdir root >>= λ _.
      ask (host.exists target) >>= λ there. reuse_or_clone repository target there

  -- from the test on the policy on
  unfoldable pub remove : PathParts → Act S (Unit {0})
  unfolding holds
  remove path s =
      if not (holds (host.resolve config.workspace_path s) (host.resolve path s))
      then raise
          (workspace_exception (
            "refusing to remove path outside workspace root: " <> host.shown (host.resolve path s)))
          s
      else host.rmtree (host.resolve path s) s

  unfoldable pub cleanup : PathParts → Bool → Act S (Unit {0})
  cleanup path force =
      if not (config.cleanup_policy == "delete") && not force then return tt else remove path
