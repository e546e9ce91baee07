-- ===== src/Tools/Files.antt =====
-- tools/implementations/_filesystem.py: the paths that tools may touch.
use git_hub_engineering_work.Common.{
  ℕ, ◌+◌, eq_iff, String, ◌<>◌, ◌==◌, ◌≡◌, refl, sym, ap, ◌∙◌, Bool, true, not, ◌&&◌, ◌||◌, Option,
  none, some, List, [], ◌∷◌, ◌++◌, any, length, ltb, Bool-cases, inl, inr, arith, if◌then◌else◌,
}
use git_hub_engineering_work.Common.Int.{ℤ, pos, ltb_ℤ}
use git_hub_engineering_work.Common.Paths.{PathParts, IsUnder, same_path, parents, holds, holds_iff}
use git_hub_engineering_work.Common.Outcome.{Exc}
use git_hub_engineering_work.Common.Act.{Act, return, raise}
use git_hub_engineering_work.Worker.GitWorkflow.Safety.{Ensures}
use git_hub_engineering_work.Tools.{validation_exception}

-- `ToolConfiguration`
pub record ToolConfiguration : Type 0 where
  pub workspace_root : PathParts
  pub max_file_size_bytes : ℤ
  pub max_search_results : ℤ
  pub max_traversal_depth : ℤ
  pub backup_directory_name : String
  pub respect_gitignore : Bool
  pub default_encoding : String

abbrev pub configuration_exception : String → Exc
configuration_exception m = record { class_name = "ToolConfigurationException"; text = m }

-- What the helpers learn from `pathlib` and the file system.
pub record Files {ℓ} (S : Type ℓ) : Type ℓ where
  -- `Path(value).parts`, whether it is absolute, `str(path)` and `path.resolve()`
  pub parts : String → PathParts
  pub is_absolute : String → Bool
  pub shown : PathParts → String
  pub resolve : PathParts → S → PathParts
  pub is_file : PathParts → S → Bool
  pub is_dir : PathParts → S → Bool
  pub exists : PathParts → S → Bool
  pub size : PathParts → S → ℕ
  -- `path.suffix.lower()`, and the suffix itself
  pub lower_suffix : PathParts → String
  pub suffix : PathParts → String

abbrev pub binary_extensions : List String
binary_extensions =
    ".png" ∷ ".jpg" ∷ ".jpeg" ∷ ".gif" ∷ ".ico" ∷ ".pdf" ∷ ".zip" ∷ ".gz" ∷ ".exe" ∷ ".dll" ∷ ".pyc"
    ∷ []

abbrev pub default_ignores : List String
default_ignores =
    ".git" ∷ ".venv" ∷ "__pycache__" ∷ ".mypy_cache" ∷ ".pytest_cache" ∷ "node_modules" ∷ []

abbrev pub among : List String → String → Bool
among l s = any (λ t. t == s) l

-- `ignored`
unfoldable pub ignored : PathParts → List String → Bool
ignored path names = any (among names) path

module _ {ℓ} {S : Type ℓ} (files : Files S) (configuration : ToolConfiguration) where
  -- `ToolConfiguration.validate`
  unfoldable pub validate_configuration : Act S (Unit {0})
  validate_configuration s =
      if not (files.exists configuration.workspace_root s)
        || not (files.is_dir configuration.workspace_root s)
      then raise
          (configuration_exception
            ("workspace root is not a directory: " <> files.shown configuration.workspace_root))
          s
      else if not (ltb_ℤ (pos 0) configuration.max_file_size_bytes)
      then raise (configuration_exception "max_file_size_bytes must be positive") s
      else if not (ltb_ℤ (pos 0) configuration.max_search_results)
      then raise (configuration_exception "max_search_results must be positive") s
      else if ltb_ℤ configuration.max_traversal_depth (pos 0)
      then raise (configuration_exception "max_traversal_depth must be non-negative") s
      else return tt s

  -- the path that is resolved: one that is not absolute lies under the root
  abbrev pub candidate : PathParts → String → PathParts
  candidate root value =
      if files.is_absolute value then files.parts value else root ++ files.parts value

  -- `resolved != root and root not in resolved.parents`
  unfoldable pub escapes : PathParts → PathParts → Bool
  unfolding parents
  escapes root resolved =
      not (same_path resolved root) && not (any (same_path root) (parents resolved))

  unfoldable pub resolve_workspace_path : String → Act S PathParts
  unfolding escapes
  resolve_workspace_path value s =
      let root = files.resolve configuration.workspace_root s in
      let resolved = files.resolve (candidate root value) s in
      if escapes root resolved
      then raise (validation_exception ("path escapes workspace: " <> value)) s
      else return resolved s

  unfoldable pub ensure_readable_file : PathParts → Act S (Unit {0})
  ensure_readable_file path s =
      if not (files.exists path s) || not (files.is_file path s)
      then raise (validation_exception ("file not found: " <> files.shown path)) s
      else if among binary_extensions (files.lower_suffix path)
      then raise (validation_exception ("unsupported file type: " <> files.suffix path)) s
      else if ltb_ℤ configuration.max_file_size_bytes (pos (files.size path s))
      then raise (validation_exception ("file exceeds size limit: " <> files.shown path)) s
      else return tt s

  -- `extensions is None or path.suffix.lower() in extensions`
  abbrev pub wanted : Option (List String) → PathParts → Bool
  wanted none path = true
  wanted (some l) path = among l (files.lower_suffix path)

  -- the loop of `iter_files` over what `rglob` finds; the second number is `base_depth`
  unfoldable pub iter_files : ℕ → ℕ → Option (List String) → List PathParts → S → List PathParts
  unfolding ignored
  iter_files max_depth base_depth extensions [] s = []
  iter_files max_depth base_depth extensions (path ∷ paths) s =
      let rest = iter_files max_depth base_depth extensions paths s in
      if ignored path default_ignores
      then rest
      else if ltb (max_depth + base_depth) (length path)
      then rest
      else if files.is_file path s && wanted extensions path
      then path ∷ rest
      else rest

  same_path_sym : (p q : PathParts) → same_path p q ≡ same_path q p
  same_path_sym [] [] = refl
  same_path_sym [] (b ∷ q) = refl
  same_path_sym (a ∷ p) [] = refl
  same_path_sym (a ∷ p) (b ∷ q) = ground (arith, same_path_sym p q, eq_iff a b, eq_iff b a)

  escapes-holds : (root path : PathParts) → escapes root path ≡ not (holds root path)
  unfolding escapes holds
  escapes-holds root path = ground (arith, same_path_sym path root)

  -- Where `resolve_workspace_path` returns a path, it lies under the workspace's root, as the two are
  -- resolved in the state of the call.
  pub resolve_workspace_path-IsUnder :
      (value : String) (s : S) (anchor : String) (root : PathParts)
      → files.resolve configuration.workspace_root s ≡ anchor ∷ root
      → Ensures (IsUnder (anchor ∷ root)) (resolve_workspace_path value s)
  unfolding resolve_workspace_path Ensures
  resolve_workspace_path-IsUnder value s anchor root e =
      let base = files.resolve configuration.workspace_root s in
      let resolved = files.resolve (candidate base value) s in
      elim (Bool-cases (escapes base resolved)) [
        | inl outside ↦ rw outside tt
        | inr inside ↦ rw inside (
            (holds_iff anchor root resolved).0
              (ap (λ r. holds r resolved) (sym e) ∙ ground (arith, escapes-holds base resolved)))
      ]
