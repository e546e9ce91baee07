-- ===== src/Confidence/Scores.antt =====
-- confidence/engine.py: the range of the scores and of their mean.
use git_hub_engineering_work.Common.{
  ℕ, ◌+◌, ◌≤◌, ◌≡◌, refl, subst, ap, ◌∙◌, Bool, true, false, ◌++◌, All, length, arith,
  if◌then◌else◌, length-append,
}
use git_hub_engineering_work.Confidence.Double.{Floats, Laws, ◌≼◌, max_f, min_f}
use git_hub_engineering_work.Confidence.{
  Evidence, StageConfidence, Engine, get_or, issue_understanding, repository_understanding,
  repository_search, context_quality, prompt_quality, ai_response, patch_quality, patch_validation,
  test_results, retry_score, failure_history, stages_of, overall_of, calculate,
}

module _ {F : Type 0} ⦃f : Floats F⦄ (laws : Laws F) where
  open f use {of_ℕ, add, sub, mul, round_cents}

  -- A double between two whole numbers.
  abbrev Between : ℕ → ℕ → F → Type 0
  Between lo hi x = (of_ℕ lo ≼ x) × (x ≼ of_ℕ hi)

  Between-of : (lo hi n : ℕ) → lo ≤ n → n ≤ hi → Between lo hi (of_ℕ n)
  Between-of lo hi n p q = (laws.of_mono lo n p, laws.of_mono n hi q)

  Between-if :
      (b : Bool) (lo hi : ℕ) (x y : F)
      → Between lo hi x
      → Between lo hi y
      → Between lo hi (if b then x else y)
  Between-if true lo hi x y p q = p
  Between-if false lo hi x y p q = q

  -- `max(lo, x)` for an `x` that does not pass `hi`
  Between-max : (lo hi : ℕ) (x : F) → lo ≤ hi → x ≼ of_ℕ hi → Between lo hi (max_f (of_ℕ lo) x)
  Between-max lo hi x p q =
      ground (arith, laws.le_total x (of_ℕ lo), laws.le_refl (of_ℕ lo), laws.of_mono lo hi p)

  -- `min(hi, x)` for an `x` that is not below `lo`
  Between-min : (lo hi : ℕ) (x : F) → lo ≤ hi → of_ℕ lo ≼ x → Between lo hi (min_f (of_ℕ hi) x)
  Between-min lo hi x p q =
      ground (arith, laws.le_total x (of_ℕ hi), laws.le_refl (of_ℕ hi), laws.of_mono lo hi p)

  -- a base and a bonus of at most `cap`
  Between-bonus :
      (base cap : ℕ) (x : F)
      → base + cap ≤ 100
      → Between 0 cap x
      → Between base (base + cap) (add (of_ℕ base) x)
  Between-bonus base cap x small (p, q) = (
    subst (λ y. y ≼ add (of_ℕ base) x) (laws.add_exact base 0 (omega arith) ∙ ap of_ℕ (omega arith))
        (laws.add_mono (of_ℕ base) (of_ℕ 0) x p),
    subst (λ y. add (of_ℕ base) x ≼ y) (laws.add_exact base cap (omega arith))
        (laws.add_mono (of_ℕ base) x (of_ℕ cap) q),
  )

  Between-weaken :
      (lo hi lo' hi' : ℕ) (x : F) → lo' ≤ lo → hi ≤ hi' → Between lo hi x → Between lo' hi' x
  Between-weaken lo hi lo' hi' x p q (a, b) = (
    laws.le_trans (of_ℕ lo') (of_ℕ lo) x (laws.of_mono lo' lo p) a,
    laws.le_trans x (of_ℕ hi) (of_ℕ hi') b (laws.of_mono hi hi' q),
  )

  bonus_range :
      (base cap k n : ℕ)
      → 10 ≤ base
      → base + cap ≤ 100
      → Between 10 100 (add (of_ℕ base) (min_f (of_ℕ cap) (mul (of_ℕ n) (of_ℕ k))))
  bonus_range base cap k n low small =
      Between-weaken base (base + cap) 10 100 _ low small
        (Between-bonus base cap _ small (Between-min 0 cap _ (omega arith) (laws.mul_nonneg n k)))

  penalty_range :
      (lo hi k n : ℕ)
      → 10 ≤ lo
      → lo ≤ hi
      → hi ≤ 100
      → Between 10 100 (max_f (of_ℕ lo) (sub (of_ℕ hi) (mul (of_ℕ n) (of_ℕ k))))
  penalty_range lo hi k n low order small =
      Between-weaken lo hi 10 100 _ low small
        (Between-max lo hi _ order (laws.sub_le (of_ℕ hi) _ (laws.mul_nonneg n k)))

  choice_range :
      (b : Bool) (m n : ℕ)
      → 10 ≤ m
      → m ≤ 100
      → 10 ≤ n
      → n ≤ 100
      → Between 10 100 (if b then of_ℕ m else of_ℕ n)
  choice_range b m n p q r s =
      Between-if b 10 100 _ _ (Between-of 10 100 m p q) (Between-of 10 100 n r s)

  abbrev pub InRange : StageConfidence F → Type 0
  InRange s = Between 10 100 s.score

  -- `min(x, hi)`
  Between-cap : (lo hi : ℕ) (x : F) → lo ≤ hi → of_ℕ lo ≼ x → Between lo hi (min_f x (of_ℕ hi))
  Between-cap lo hi x p q =
      ground (arith, laws.le_total x (of_ℕ hi), laws.le_refl (of_ℕ hi), laws.of_mono lo hi p)

  titled_low :
      (titled linked : Bool)
      → let base = if titled then of_ℕ 85 else of_ℕ 45 in
        of_ℕ 10 ≼ (if linked then add base (of_ℕ 5) else base)
  titled_low true true =
      rw (laws.add_exact 85 5 (omega arith)) (laws.of_mono 10 (85 + 5) (omega arith))
  titled_low true false = laws.of_mono 10 85 (omega arith)
  titled_low false true =
      rw (laws.add_exact 45 5 (omega arith)) (laws.of_mono 10 (45 + 5) (omega arith))
  titled_low false false = laws.of_mono 10 45 (omega arith)

  titled_range :
      (titled linked : Bool)
      → let base = if titled then of_ℕ 85 else of_ℕ 45 in
        Between 10 100 (min_f (if linked then add base (of_ℕ 5) else base) (of_ℕ 100))
  titled_range titled linked = Between-cap 10 100 _ (omega arith) (titled_low titled linked)

  -- Whatever the evidence says, each of the eleven scores lies between 10 and 100.
  pub stages-InRange : (e : Evidence) → All InRange (stages_of e)
  unfolding stages_of issue_understanding repository_understanding repository_search context_quality
      prompt_quality ai_response patch_quality patch_validation test_results retry_score
      failure_history
  stages-InRange e = (
    titled_range _ _,
    (
      choice_range _ 85 50 (omega arith) (omega arith) (omega arith) (omega arith),
      (
        bonus_range 65 25 5 (get_or e.artifact_count 0) (omega arith) (omega arith),
        (
          bonus_range 55 35 2 (get_or e.timeline_entries 0) (omega arith) (omega arith),
          (
            choice_range _ 80 55 (omega arith) (omega arith) (omega arith) (omega arith),
            (
              choice_range _ 85 60 (omega arith) (omega arith) (omega arith) (omega arith),
              (
                choice_range _ 85 55 (omega arith) (omega arith) (omega arith) (omega arith),
                (
                  choice_range _ 90 50 (omega arith) (omega arith) (omega arith) (omega arith),
                  (
                    choice_range _ 85 50 (omega arith) (omega arith) (omega arith) (omega arith),
                    (
                      penalty_range 20 100 18 (get_or e.retry_count 0) (omega arith) (omega arith)
                          (omega arith),
                      (
                        penalty_range 10 95 25 (get_or e.failure_count 0) (omega arith)
                            (omega arith) (omega arith),
                        tt,
                      ),
                    ),
                  ),
                ),
              ),
            ),
          ),
        ),
      ),
    ),
  )

  min_f-le : (x y : F) → min_f x y ≼ x
  min_f-le x y = ground (arith, laws.le_total x y, laws.le_refl x)

  clamp_bounds :
      (q : F)
      → (of_ℕ 0 ≼ round_cents (max_f (of_ℕ 0) (min_f (of_ℕ 100) q)))
        × (round_cents (max_f (of_ℕ 0) (min_f (of_ℕ 100) q)) ≼ of_ℕ 100)
  clamp_bounds q =
      let x = max_f (of_ℕ 0) (min_f (of_ℕ 100) q) in
      let b : Between 0 100 x =
        Between-max 0 100 (min_f (of_ℕ 100) q) (omega arith) (min_f-le (of_ℕ 100) q) in
      (
        subst (λ y. y ≼ round_cents x) (laws.round_of 0 (omega arith))
            (laws.round_mono (of_ℕ 0) x b.0),
        subst (λ y. round_cents x ≼ y) (laws.round_of 100 (omega arith))
            (laws.round_mono x (of_ℕ 100) b.1),
      )

  -- The overall score of an assessment lies between 0 and 100, both ends included, whatever the
  -- evidence, and the engine's history grows by exactly the eleven stages that the assessment shows.
  pub calculate_lem :
      (engine : Engine F) (e : Evidence)
      → (of_ℕ 0 ≼ (calculate engine e).0.overall)
        × ((calculate engine e).0.overall ≼ of_ℕ 100)
        × ((calculate engine e).1.history ≡ engine.history ++ (calculate engine e).0.per_stage)
        × (length (calculate engine e).1.history ≡ length engine.history + 11)
  unfolding calculate overall_of stages_of
  calculate_lem engine e =
      let b = clamp_bounds _ in (b.0, b.1, refl, length-append engine.history (stages_of e))
