-- ===== src/Escalation/Tests.antt =====
-- Runs of the escalation engine at concrete inputs, with hundredths for doubles.
use git_hub_engineering_work.Common.{ℕ, ◌≡◌, true, false, none, some, [], if◌then◌else◌}
use git_hub_engineering_work.Common.Int.{pos}
use git_hub_engineering_work.Confidence.{Evidence, Assessment, low, additional_context}
use git_hub_engineering_work.Confidence.Double.{hundredths}
use git_hub_engineering_work.Escalation.{Rules, evaluate, human_review, follow, some_reason}
use git_hub_engineering_work.Escalation.Triggers.{must_escalate, evaluate_lem}

abbrev evidence : Evidence
evidence = record {
  issue = none;
  repository = none;
  artifact_count = none;
  timeline_entries = none;
  status = none;
  final_stage = none;
  retry_count = some 1;
  failure_count = none;
  failure_reason = none;
  unsafe_patch = false;
  repository_corruption = false;
  provider_unavailable = false;
  unknown_failure = false;
}

abbrev rules : Rules ℕ
rules = record {
  minimum_confidence = 6_000;
  max_retries = pos 3;
  repeated_failure_limit = pos 3;
  escalate_on_unsafe_patch = true;
  escalate_on_repository_corruption = true;
  escalate_on_provider_unavailable = true;
}

abbrev assessment : Assessment ℕ
assessment = record {
  overall = 5_000;
  band = low;
  per_stage = [];
  history = [];
  decision_recommendation = additional_context;
}

evaluate_lem_example :
    ((evaluate rules "octo/demo#1" "octo/demo" assessment evidence).should_escalate
      ≡ must_escalate rules assessment evidence)
    × (some_reason (evaluate rules "octo/demo#1" "octo/demo" assessment evidence).reasons
        ≡ must_escalate rules assessment evidence)
    × ((evaluate rules "octo/demo#1" "octo/demo" assessment evidence).recommended_action ≡ (
        if must_escalate rules assessment evidence
        then human_review
        else follow assessment.decision_recommendation))
evaluate_lem_example = evaluate_lem rules "octo/demo#1" "octo/demo" assessment evidence
