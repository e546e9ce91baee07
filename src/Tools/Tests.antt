-- ===== src/Tools/Tests.antt =====
-- tools/: a tool that is cancelled while it runs, and a path under the workspace.
use git_hub_engineering_work.Common.{ℕ, suc, ◌≡◌, refl, true, false, none, [], ◌∷◌}
use git_hub_engineering_work.Common.Int.{pos}
use git_hub_engineering_work.Common.Paths.{IsUnder}
use git_hub_engineering_work.Common.Outcome.{returned}
use git_hub_engineering_work.Common.Act.{and_then, return, raise}
use git_hub_engineering_work.Worker.GitWorkflow.Safety.{Ensures}
use git_hub_engineering_work.Tools.{
  ToolResult, ToolRequest, ToolMetadata, Tool, Context, Runtime, cancelled_exception, failure,
  perform, run, attempt, handle, complete, run_started, finally, guarded, validate, check_inputs,
}
use git_hub_engineering_work.Tools.Reports.{IsLawful, IsHonest, reported, perform-Returns}
use git_hub_engineering_work.Tools.Files.{
  Files, ToolConfiguration, resolve_workspace_path, resolve_workspace_path-IsUnder,
}

abbrev metadata : ToolMetadata
metadata = record {
  identifier = "t";
  name = "T";
  version = "1";
  capabilities = "c" ∷ [];
  supported_versions = [];
}

-- The state counts the calls of `cleanup`.
abbrev tool : Tool ℕ
tool = record {
  metadata = metadata;
  required_inputs = "path" ∷ [];
  initialize = λ s. return tt s;
  validate_configuration = λ s. return tt s;
  prepare = λ _ s. return tt s;
  execute = λ _ s. raise (cancelled_exception "stop") s;
  finalize = λ r s. return r s;
  cleanup = λ s. return tt (suc s);
}

abbrev context : Context ℕ
context = record { is_cancelled = λ s. false; reason = λ s. ""; clock_ms = λ s. 0 }

abbrev runtime : Runtime ℕ
runtime = record { publish = λ e s. return tt s; propose_update = λ k status ok s. return tt s }

lawful : IsLawful runtime
lawful = record { publishes = λ e s. (s, tt, refl); updates = λ k r s. (s, tt, refl) }

abbrev request : ToolRequest
request = record { tool_id = "t"; inputs = "path" ∷ []; requested_version = none }

-- The run is cancelled, cleans up once, and the result says so.
stopped :
    perform context runtime tool request 0
    ≡ (1, returned (reported context runtime tool lawful request (failure "stop" 0 true)))
unfolding perform and_then attempt handle run run_started finally guarded validate check_inputs
    complete
stopped = refl

perform-Returns_example :
    (before t : ℕ) × (r : ToolResult) × (perform context runtime tool request 0
      ≡ (t, returned (reported context runtime tool lawful request r)))
    × IsHonest context runtime tool lawful r (run context tool request before)
perform-Returns_example = perform-Returns context runtime tool lawful request 0

abbrev files : Files ℕ
files = record {
  parts = λ value. value ∷ [];
  is_absolute = λ value. false;
  shown = λ p. "";
  resolve = λ p s. p;
  is_file = λ p s. true;
  is_dir = λ p s. true;
  exists = λ p s. true;
  size = λ p s. 0;
  lower_suffix = λ p. ".py";
  suffix = λ p. ".py";
}

abbrev configuration : ToolConfiguration
configuration = record {
  workspace_root = "/" ∷ "w" ∷ [];
  max_file_size_bytes = pos 10;
  max_search_results = pos 10;
  max_traversal_depth = pos 3;
  backup_directory_name = ".tool-backups";
  respect_gitignore = true;
  default_encoding = "utf-8";
}

resolve_workspace_path-IsUnder_example :
    Ensures (IsUnder ("/" ∷ "w" ∷ [])) (resolve_workspace_path files configuration "a.py" 0)
resolve_workspace_path-IsUnder_example =
    resolve_workspace_path-IsUnder files configuration "a.py" 0 "/" ("w" ∷ []) refl

found : (resolve_workspace_path files configuration "a.py" 0).1 ≡ returned ("/" ∷ "w" ∷ "a.py" ∷ [])
unfolding resolve_workspace_path
found = refl
