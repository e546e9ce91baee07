-- ===== src/Escalation.antt =====
-- escalation/models.py and escalation/engine.py: from evidence to the reasons to call a human.
pub mod Triggers
mod Tests
use git_hub_engineering_work.Common.{
  ℕ, String, Bool, true, false, not, ◌&&◌, List, [], ◌∷◌, ◌++◌, if◌then◌else◌,
}
use git_hub_engineering_work.Common.Int.{ℤ, pos, ltb_ℤ}
use git_hub_engineering_work.Common.Text.{strip, truthy}
use git_hub_engineering_work.Confidence.{Evidence, Assessment, Recommendation, get_or}
use git_hub_engineering_work.Confidence.Double.{Floats}

pub data Reason : Type 0 where
  retries_exceeded low_confidence unsafe_patch_found repeated_failures corrupted : Reason
  unavailable unclassified : Reason
  stated : String → Reason

pub data Action : Type 0 where
  human_review : Action
  follow : Recommendation → Action

module _ (F : Type 0) where
  pub record Rules : Type 0 where
    pub minimum_confidence : F
    pub max_retries : ℤ
    pub repeated_failure_limit : ℤ
    pub escalate_on_unsafe_patch : Bool
    pub escalate_on_repository_corruption : Bool
    pub escalate_on_provider_unavailable : Bool

  pub record Report : Type 0 where
    pub should_escalate : Bool
    pub reasons : List Reason
    pub issue : String
    pub repository : String
    pub confidence : F
    pub retry_count : ℕ
    pub recommended_action : Action

-- `if b: reasons.append(reason)`
abbrev pub append_if : Bool → Reason → List Reason → List Reason
append_if b reason reasons = if b then reasons ++ reason ∷ [] else reasons

-- `bool(reasons)`
abbrev pub some_reason : List Reason → Bool
some_reason [] = false
some_reason (r ∷ rs) = true

module _ {F : Type 0} ⦃f : Floats F⦄ where
  -- the checks of `evaluate` before the reason that the evidence states
  unfoldable pub rule_reasons : Rules F → Assessment F → Evidence → List Reason
  rule_reasons rules confidence e =
      let retries = pos (get_or e.retry_count 0) in
      let failures = pos (get_or e.failure_count 0) in
      append_if (rules.escalate_on_provider_unavailable && e.provider_unavailable) unavailable (
        append_if (rules.escalate_on_repository_corruption && e.repository_corruption) corrupted (
          append_if (not (ltb_ℤ failures rules.repeated_failure_limit)) repeated_failures (
            append_if (rules.escalate_on_unsafe_patch && e.unsafe_patch) unsafe_patch_found (
              append_if (not (f.le rules.minimum_confidence confidence.overall)) low_confidence
                (append_if (ltb_ℤ rules.max_retries retries) retries_exceeded [])))))

  -- `if failure_reason: … elif evidence.get("unknown_failure"): …`
  unfoldable pub all_reasons : Rules F → Assessment F → Evidence → List Reason
  unfolding rule_reasons
  all_reasons rules confidence e =
      let reasons = rule_reasons rules confidence e in
      let failure_reason = strip (get_or e.failure_reason "") in
      if truthy failure_reason
      then reasons ++ stated failure_reason ∷ []
      else append_if e.unknown_failure unclassified reasons

  unfoldable pub evaluate : Rules F → String → String → Assessment F → Evidence → Report F
  unfolding all_reasons
  evaluate rules issue repository confidence e =
      let reasons = all_reasons rules confidence e in
      record {
        should_escalate = some_reason reasons;
        reasons = reasons;
        issue = issue;
        repository = repository;
        confidence = confidence.overall;
        retry_count = get_or e.retry_count 0;
        recommended_action =
            if some_reason reasons then human_review else follow confidence.decision_recommendation;
      }
