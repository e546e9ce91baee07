-- ===== src/Confidence/Tests.antt =====
-- Runs of the confidence engine at concrete inputs, with hundredths for doubles.
use git_hub_engineering_work.Common.{ℕ, ◌+◌, ◌≡◌, ◌++◌, false, none, some, [], length}
use git_hub_engineering_work.Confidence.{Evidence, Engine, default_thresholds, calculate}
use git_hub_engineering_work.Confidence.Double.{◌≼◌, hundredths, hundredths-Laws}
use git_hub_engineering_work.Confidence.Scores.{calculate_lem}

abbrev evidence : Evidence
evidence = record {
  issue = none;
  repository = none;
  artifact_count = some 2;
  timeline_entries = some 10;
  status = some "completed";
  final_stage = none;
  retry_count = some 1;
  failure_count = none;
  failure_reason = none;
  unsafe_patch = false;
  repository_corruption = false;
  provider_unavailable = false;
  unknown_failure = false;
}

abbrev engine : Engine ℕ
engine = record { thresholds = default_thresholds; history = [] }

calculate_lem_example :
    (0 ≼ (calculate engine evidence).0.overall)
    × ((calculate engine evidence).0.overall ≼ 10_000)
    × ((calculate engine evidence).1.history
        ≡ engine.history ++ (calculate engine evidence).0.per_stage)
    × (length (calculate engine evidence).1.history ≡ length engine.history + 11)
calculate_lem_example = calculate_lem hundredths-Laws engine evidence
