-- ===== src/Github/Workspaces/Inside.antt =====
-- github/workspace/manager.py: clones lie under the workspace root, and nothing else is removed.
mod Tests
use git_hub_engineering_work.Common.{
  String, ◌<>◌, ◌==◌, ◌≡◌, ◌≢◌, arith, refl, sym, ap, subst, ◌∙◌, Bool, true, false, not, ◌&&◌,
  Option, none, some, List, [], ◌∷◌, ◌++◌, Bool-cases, inl, inr, if◌then◌else◌,
}
use git_hub_engineering_work.Common.Text.Lines.{cut}
use git_hub_engineering_work.Common.Paths.{PathParts, IsUnder, holds, holds_iff}
use git_hub_engineering_work.Common.Outcome.{Exc, returned, raised}
use git_hub_engineering_work.Common.Act.{Act, and_then, return, raise}
use git_hub_engineering_work.Worker.GitWorkflow.Safety.{
  Ensures, Ensures-any, Ensures-and_then, Ensures-returned, Ensures-if,
}
use git_hub_engineering_work.Github.Shell.{workspace_exception}
use git_hub_engineering_work.Github.Workspaces.{
  Host, GitHubIntegrationConfig, GitHubRepository, ask, workspace_root, checked_target, place,
  repository_path, clone, reuse_or_clone, clone_or_reuse, remove, cleanup,
}

nothing {ℓ κ ι} :
    {S : Type ℓ} {A : Type κ} (P : A → Type ι) (e : Exc) (s : S) → Ensures P (s, raised e)
unfolding Ensures
nothing P e s = tt

module _ {ℓ} {S : Type ℓ} (host : Host S) (config : GitHubIntegrationConfig) (temporary : Bool)
    (anchor : String) (root : PathParts)
    (settled : (s t : S)
      → host.resolve (workspace_root host config temporary s) t ≡ anchor ∷ root) where
  abbrev Inside : PathParts → Type 0
  Inside = IsUnder (anchor ∷ root)

  checked_target-Ensures :
      (base target : PathParts) (s : S)
      → host.resolve base s ≡ anchor ∷ root
      → Ensures Inside (checked_target host config base target s)
  unfolding checked_target Ensures
  checked_target-Ensures base target s e = elim (Bool-cases (holds (host.resolve base s) target)) [
    | inr outside ↦ rw outside tt
    | inl inside ↦
        rw inside ((holds_iff anchor root target).0 (ap (λ r. holds r target) (sym e) ∙ inside))
  ]

  place-Ensures :
      (full_name : String) (repo : Option String) (s : S)
      → Ensures Inside (place host config full_name repo temporary s)
  unfolding place
  place-Ensures full_name none s =
      nothing Inside (workspace_exception ("repository full name is invalid: " <> full_name)) s
  place-Ensures full_name (some repo) s =
      Ensures-and_then (λ _. Unit {0}) Inside _ _ (Ensures-any _)
        λ owner u s.
          Ensures-and_then (λ _. Unit {0}) Inside _ _ (Ensures-any _)
            λ name u s.
              Ensures-and_then (λ base. (t : S) → host.resolve base t ≡ anchor ∷ root) Inside _ _
                (Ensures-returned _ s _ (settled s))
                λ base is_root s.
                  Ensures-and_then (λ _. Unit {0}) Inside _ _ (Ensures-any _)
                    λ target u s. checked_target-Ensures base target s (is_root s)

  reuse_or_clone-Ensures :
      (repository : GitHubRepository) (target : PathParts) (there : Bool) (s : S)
      → Inside target
      → Ensures Inside (reuse_or_clone host config repository target there s)
  unfolding reuse_or_clone clone
  reuse_or_clone-Ensures repository target true s inside =
      Ensures-and_then (λ _. Unit {0}) Inside _ _ (Ensures-any _)
        λ v u s.
          Ensures-and_then (λ _. Unit {0}) Inside _ _ (Ensures-any _)
            λ v u s. Ensures-returned Inside s target inside
  reuse_or_clone-Ensures repository target false s inside =
      Ensures-and_then (λ _. Unit {0}) Inside _ _ (Ensures-any _)
        λ result u s.
          Ensures-if Inside result.failed _ _ s (nothing Inside _ s)
            (Ensures-returned Inside s target inside)

  -- The directory that `clone_or_reuse` returns for a repository lies under the workspace root for
  -- persistent or temporary clones, whatever the name of the repository is, provided that this root
  -- resolves to one directory all the time.
  pub clone_or_reuse-IsUnder :
      (repository : GitHubRepository) (s : S)
      → Ensures (IsUnder (anchor ∷ root)) (clone_or_reuse host config repository temporary s)
  unfolding clone_or_reuse repository_path
  clone_or_reuse-IsUnder repository s =
      Ensures-and_then (λ _. Unit {0}) Inside _ _ (Ensures-any _)
        λ base u s.
          Ensures-and_then Inside Inside _ _ (place-Ensures repository.full_name _ s)
            λ target inside s.
              Ensures-and_then (λ _. Unit {0}) Inside _ _ (Ensures-any _)
                λ v u s.
                  Ensures-and_then (λ _. Unit {0}) Inside _ _ (Ensures-any _)
                    λ there u s. reuse_or_clone-Ensures repository target there s inside

module _ {ℓ} {S : Type ℓ} (host : Host S) (config : GitHubIntegrationConfig) (anchor : String)
    (root : PathParts) (I : S → Type 0)
    (settled : (s : S) → host.resolve config.workspace_path s ≡ anchor ∷ root)
    (kept : (p : PathParts) (s : S) → IsUnder (anchor ∷ root) p → I s → I (host.rmtree p s).0) where
  remove-Keeps : (path : PathParts) (s : S) → I s → I (remove host config path s).0
  unfolding remove
  remove-Keeps path s h =
      elim (Bool-cases (holds (host.resolve config.workspace_path s) (host.resolve path s))) [
        | inr outside ↦ rw outside h
        | inl inside ↦ rw inside (
            kept (host.resolve path s) s
              ((holds_iff anchor root (host.resolve path s)).0
                (ap (λ r. holds r (host.resolve path s)) (sym (settled s)) ∙ inside))
              h)
      ]

  -- What removing directories under the workspace root keeps, `cleanup` keeps, whatever path it is given
  -- and whether it is forced or not, provided that the root resolves to one directory.
  pub cleanup-Keeps :
      (path : PathParts) (force : Bool) (s : S) → I s → I (cleanup host config path force s).0
  unfolding cleanup
  cleanup-Keeps path force s h =
      elim (Bool-cases (not (config.cleanup_policy == "delete") && not force)) [
        | inl stay ↦ rw stay h
        | inr go ↦ rw go (remove-Keeps path s h)
      ]
