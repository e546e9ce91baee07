-- ===== src/Github/Workspaces/Inside/Tests.antt =====
-- github/workspace/manager.py on a machine whose state is the list of what was removed.
use git_hub_engineering_work.Common.{refl, true, false, List, [], ◌∷◌, All}
use git_hub_engineering_work.Common.Paths.{PathParts, IsUnder}
use git_hub_engineering_work.Common.Act.{return}
use git_hub_engineering_work.Worker.GitWorkflow.Safety.{Ensures}
use git_hub_engineering_work.Github.Workspaces.{
  Host, GitHubIntegrationConfig, GitHubRepository, clone_or_reuse, cleanup,
}
use git_hub_engineering_work.Github.Workspaces.Inside.{clone_or_reuse-IsUnder, cleanup-Keeps}

abbrev Removed : Type 0
Removed = List PathParts

abbrev host : Host Removed
host = record {
  resolve = λ p s. p;
  shown = λ p. "path";
  exists = λ p s. false;
  is_dir = λ p s. false;
  mkdir = λ p s. return tt s;
  rmtree = λ p s. return tt (p ∷ s);
  subprocess = λ args cwd s. return (record { failed = false; stdout = ""; stderr = "" }) s;
  is_alnum = λ c. true;
  windows = false;
}

abbrev config : GitHubIntegrationConfig
config = record { workspace_path = "/" ∷ "w" ∷ []; cleanup_policy = "keep" }

abbrev repository : GitHubRepository
repository = record { full_name = "o/r"; clone_url = "https://github.com/o/r" }

clone_or_reuse-IsUnder_example :
    Ensures
      (IsUnder ("/" ∷ "w" ∷ "persistent" ∷ []))
      (clone_or_reuse host config repository false [])
clone_or_reuse-IsUnder_example =
    clone_or_reuse-IsUnder host config false "/" ("w" ∷ "persistent" ∷ []) (λ s t. refl) repository
      []

-- Everything that was removed lay under the root.
abbrev Contained : Removed → Type 0
Contained = All (IsUnder ("/" ∷ "w" ∷ []))

cleanup-Keeps_example : Contained (cleanup host config ("/" ∷ "w" ∷ "a" ∷ []) true []).0
cleanup-Keeps_example =
    cleanup-Keeps host config "/" ("w" ∷ []) Contained (λ s. refl) (λ p s inside h. (inside, h))
      ("/" ∷ "w" ∷ "a" ∷ []) true [] tt
