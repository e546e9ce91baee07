-- ===== src/Confidence/Bands.antt =====
-- confidence/models.py: bands and recommendations.
use git_hub_engineering_work.Common.{ℕ, ◌≤◌, ◌≡◌, arith}
use git_hub_engineering_work.Confidence.Double.{Floats, Laws, ◌≼◌}
use git_hub_engineering_work.Confidence.{
  Recommendation, auto_pr, proceed, retry_allowed, additional_context, escalate, Band, very_high,
  high, medium, low, critical, Thresholds, recommendation_for, band_for,
}

-- The bands in the README, each with its recommendation.
abbrev pub recommended : Band → Recommendation
recommended very_high = auto_pr
recommended high = proceed
recommended medium = retry_allowed
recommended low = additional_context
recommended critical = escalate

-- How far a recommendation trusts the run.
abbrev pub rank : Recommendation → ℕ
rank escalate = 0
rank additional_context = 1
rank retry_allowed = 2
rank proceed = 3
rank auto_pr = 4

module _ {F : Type 0} ⦃f : Floats F⦄ where
  -- The two ladders of comparisons agree: the recommendation is that of the band.
  pub recommendation_for-band_for :
      (t : Thresholds) (score : F) → recommendation_for t score ≡ recommended (band_for t score)
  unfolding recommendation_for band_for
  recommendation_for-band_for t score = ground arith

  -- A higher score never gets a less trusting recommendation, whatever the thresholds are, also
  -- where they do not fall.
  pub recommendation_for_mono :
      (laws : Laws F) (t : Thresholds) (x y : F)
      → x ≼ y
      → rank (recommendation_for t x) ≤ rank (recommendation_for t y)
  unfolding recommendation_for
  recommendation_for_mono laws t x y h = ground (
    arith,
    laws.le_trans (f.of_ℕ t.auto_pr_at) x y,
    laws.le_trans (f.of_ℕ t.proceed_at) x y,
    laws.le_trans (f.of_ℕ t.retry_allowed_at) x y,
    laws.le_trans (f.of_ℕ t.additional_context_at) x y,
  )
