-- ===== src/Confidence.antt =====
-- confidence/models.py and confidence/engine.py: a score for each stage of a run, and their
-- weighted mean. Scores are doubles, taken as a parameter with the operations that the code uses.
pub mod Double
pub mod Bands
pub mod Scores
mod Tests
use git_hub_engineering_work.Common.{
  ℕ, String, ◌==◌, Bool, false, ◌||◌, Option, none, some, List, [], ◌∷◌, ◌++◌, map, if◌then◌else◌,
}
use git_hub_engineering_work.Common.Text.{truthy, truthy?}
use git_hub_engineering_work.Worker.Models.{WorkerRepository, WorkerIssue, full_name}
use Double.{Floats, max_f, min_f}

pub data Recommendation : Type 0 where
  auto_pr proceed retry_allowed additional_context escalate : Recommendation

pub data Band : Type 0 where
  very_high high medium low critical : Band

-- `ConfidenceThresholds`: whole numbers
pub record Thresholds : Type 0 where
  pub auto_pr_at : ℕ
  pub proceed_at : ℕ
  pub retry_allowed_at : ℕ
  pub additional_context_at : ℕ

abbrev pub default_thresholds : Thresholds
default_thresholds = record {
  auto_pr_at = 90;
  proceed_at = 75;
  retry_allowed_at = 60;
  additional_context_at = 40;
}

-- The evidence of a run: the keys of the dictionary that the confidence and the escalation engine
-- read, `none` where a key is missing. A flag is the truth value of `evidence.get(key)`.
pub record Evidence : Type 0 where
  pub issue : Option WorkerIssue
  pub repository : Option WorkerRepository
  pub artifact_count : Option ℕ
  pub timeline_entries : Option ℕ
  pub status : Option String
  pub final_stage : Option String
  pub retry_count : Option ℕ
  pub failure_count : Option ℕ
  pub failure_reason : Option String
  pub unsafe_patch : Bool
  pub repository_corruption : Bool
  pub provider_unavailable : Bool
  pub unknown_failure : Bool

-- `evidence.get(key, default)`
abbrev pub get_or {ℓ} : {A : Type ℓ} → Option A → A → A
get_or none d = d
get_or (some a) d = a

module _ (F : Type 0) where
  pub record StageConfidence : Type 0 where
    pub stage : String
    pub score : F
    pub weight : F

  pub record Assessment : Type 0 where
    pub overall : F
    pub band : Band
    pub per_stage : List StageConfidence
    pub history : List StageConfidence
    pub decision_recommendation : Recommendation

  pub record Engine : Type 0 where
    pub thresholds : Thresholds
    pub history : List StageConfidence

abbrev has_title : Option WorkerIssue → Bool
has_title none = false
has_title (some issue) = truthy? issue.title

abbrev has_url : Option WorkerIssue → Bool
has_url none = false
has_url (some issue) = truthy? issue.url

abbrev has_name : Option WorkerRepository → Bool
has_name none = false
has_name (some r) = truthy (full_name r)

module _ {F : Type 0} ⦃f : Floats F⦄ where
  open f use {of_ℕ, tenths, le, add, sub, mul, div, sum, round_cents, is_zero}

  unfoldable pub recommendation_for : Thresholds → F → Recommendation
  recommendation_for t score =
      if le (of_ℕ t.auto_pr_at) score
      then auto_pr
      else if le (of_ℕ t.proceed_at) score
      then proceed
      else if le (of_ℕ t.retry_allowed_at) score
      then retry_allowed
      else if le (of_ℕ t.additional_context_at) score
      then additional_context
      else escalate

  unfoldable pub band_for : Thresholds → F → Band
  band_for t score =
      if le (of_ℕ t.auto_pr_at) score
      then very_high
      else if le (of_ℕ t.proceed_at) score
      then high
      else if le (of_ℕ t.retry_allowed_at) score
      then medium
      else if le (of_ℕ t.additional_context_at) score
      then low
      else critical

  abbrev stage : String → F → F → StageConfidence F
  stage name score weight = record { stage = name; score = score; weight = weight }

  unfoldable pub issue_understanding : Evidence → StageConfidence F
  issue_understanding e =
      let titled = if has_title e.issue then of_ℕ 85 else of_ℕ 45 in
      let score = if has_url e.issue then add titled (of_ℕ 5) else titled in
      stage "issue_understanding" (min_f score (of_ℕ 100)) (tenths 11)

  unfoldable pub repository_understanding : Evidence → StageConfidence F
  repository_understanding e =
      stage "repository_understanding" (if has_name e.repository then of_ℕ 85 else of_ℕ 50) (of_ℕ 1)

  unfoldable pub repository_search : Evidence → StageConfidence F
  repository_search e =
      let artifacts = get_or e.artifact_count 0 in
      stage "repository_search" (add (of_ℕ 65) (min_f (of_ℕ 25) (mul (of_ℕ artifacts) (of_ℕ 5))))
        (tenths 8)

  unfoldable pub context_quality : Evidence → StageConfidence F
  context_quality e =
      let timeline = get_or e.timeline_entries 0 in
      stage "context_quality" (add (of_ℕ 55) (min_f (of_ℕ 35) (mul (of_ℕ timeline) (of_ℕ 2))))
        (tenths 11)

  unfoldable pub prompt_quality : Evidence → StageConfidence F
  prompt_quality e =
      let status = get_or e.status "unknown" in
      stage "prompt_quality"
        (if status == "completed" || status == "running" then of_ℕ 80 else of_ℕ 55) (tenths 7)

  unfoldable pub ai_response : Evidence → StageConfidence F
  ai_response e =
      stage "ai_response" (if get_or e.final_stage "" == "Completed" then of_ℕ 85 else of_ℕ 60)
        (of_ℕ 1)

  unfoldable pub patch_quality : Evidence → StageConfidence F
  patch_quality e =
      let final_stage = get_or e.final_stage "" in
      stage "patch_quality"
        (if final_stage == "Completed" || final_stage == "Review" then of_ℕ 85 else of_ℕ 55)
        (tenths 12)

  unfoldable pub patch_validation : Evidence → StageConfidence F
  patch_validation e =
      stage "patch_validation" (if get_or e.status "" == "completed" then of_ℕ 90 else of_ℕ 50)
        (tenths 13)

  unfoldable pub test_results : Evidence → StageConfidence F
  test_results e =
      stage "test_results" (if get_or e.status "" == "completed" then of_ℕ 85 else of_ℕ 50)
        (tenths 12)

  unfoldable pub retry_score : Evidence → StageConfidence F
  retry_score e =
      let retries = get_or e.retry_count 0 in
      stage "retry_count" (max_f (of_ℕ 20) (sub (of_ℕ 100) (mul (of_ℕ retries) (of_ℕ 18))))
        (tenths 9)

  unfoldable pub failure_history : Evidence → StageConfidence F
  failure_history e =
      let failures = get_or e.failure_count 0 in
      stage "failure_history" (max_f (of_ℕ 10) (sub (of_ℕ 95) (mul (of_ℕ failures) (of_ℕ 25))))
        (of_ℕ 1)

  unfoldable pub stages_of : Evidence → List (StageConfidence F)
  stages_of e =
      issue_understanding e
      ∷ repository_understanding e
      ∷ repository_search e
      ∷ context_quality e
      ∷ prompt_quality e
      ∷ ai_response e
      ∷ patch_quality e
      ∷ patch_validation e
      ∷ test_results e
      ∷ retry_score e
      ∷ failure_history e
      ∷ []

  -- the weighted mean, held between 0 and 100 and rounded
  unfoldable pub overall_of : List (StageConfidence F) → F
  overall_of stages =
      let weighted_total = sum (map (λ s. mul s.score s.weight) stages) in
      let total_weight = sum (map (λ s. s.weight) stages) in
      let weight = if is_zero total_weight then of_ℕ 1 else total_weight in
      round_cents (max_f (of_ℕ 0) (min_f (of_ℕ 100) (div weighted_total weight)))

  unfoldable pub calculate : Engine F → Evidence → Assessment F × Engine F
  unfolding recommendation_for band_for
  calculate engine e =
      let stages = stages_of e in
      let history = engine.history ++ stages in
      let overall = overall_of stages in
      (
        record {
          overall = overall;
          band = band_for engine.thresholds overall;
          per_stage = stages;
          history = history;
          decision_recommendation = recommendation_for engine.thresholds overall;
        },
        record engine { history = history },
      )
