-- ===== src/Worker/Processed/Tests.antt =====
-- Runs of the history at concrete inputs.
use git_hub_engineering_work.Common.{List, [], ◌∷◌}
use git_hub_engineering_work.Worker.Processed.{HistoryCall, mark_call, remove_call}

abbrev history_calls : List HistoryCall
history_calls =
    mark_call "o/r#2" "failed" ∷ mark_call "o/r#1" "completed" ∷ remove_call "o/r#3" ∷ []
