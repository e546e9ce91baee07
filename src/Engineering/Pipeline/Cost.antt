-- ===== src/Engineering/Pipeline/Cost.antt =====
-- engineering/pipeline.py: how often the provider is asked and a patch is applied.
use git_hub_engineering_work.Common.{
  ℕ, zero, suc, ◌+◌, ◌*◌, ◌≤◌, String, Bool, true, false, not, ◌&&◌, List, arith, if◌then◌else◌,
}
use git_hub_engineering_work.Common.Act.{Act, and_then}
use git_hub_engineering_work.Common.Outcome.{Outcome, returned, raised}
use git_hub_engineering_work.Engineering.Models.{
  EngineeringIssue, EngineeringContext, EngineeringConfiguration, PatchApplicationResult, Prompt,
  TestCommand,
}
use git_hub_engineering_work.Engineering.Services.{Services, Draft, Settled}
use git_hub_engineering_work.Engineering.Pipeline.{
  Rest, redraft, repair_patch, judge, reapply, repair_application, settle_applied, settle, test_if,
  report, first_draft, draft_and_settle, investigate, run_infer_pipeline,
}

-- What each part adds to a number that is read off the state: the provider at most `g`, an application
-- with the flag `dry_run` at most `a`, the tests at most `t`, and all else nothing.
pub record Costs {ℓ} {S : Type ℓ} {N : Type 0} (services : Services N S) (measure : S → ℕ)
    (dry_run : Bool) (g a t : ℕ) : Type ℓ where
  pub context_cost :
      (issue : EngineeringIssue) (s : S) → measure (services.build_context issue s).0 ≤ measure s
  pub select_cost : (s : S) → measure (services.select s).0 ≤ measure s
  pub generate_cost : (p : Prompt) (s : S) → measure (services.generate_patch p s).0 ≤ measure s + g
  pub validate_cost :
      (diff : String) (context : EngineeringContext N) (s : S)
      → measure (services.validate diff context s).0 ≤ measure s
  pub apply_cost :
      (diff : String) (s : S) → measure (services.apply diff dry_run s).0 ≤ measure s + a
  pub warnings_cost :
      (files : List String) (s : S) → measure (services.repository_warnings files s).0 ≤ measure s
  pub detect_cost : (s : S) → measure (services.detect_tests s).0 ≤ measure s
  pub tests_cost :
      (l : List TestCommand) (s : S) → measure (services.run_tests l s).0 ≤ measure s + t
  pub selection_cost : (s : S) → measure (services.selection s).0 ≤ measure s

module _ {ℓ κ ι} {S : Type ℓ} {A : Type κ} {B : Type ι} (measure : S → ℕ) where
  -- `i` for the first part and `j` for the rest are at most `k` together.
  below-and_then :
      (i j n k : ℕ) (m : S × Outcome A) (f : A → Act S B)
      → i + j ≤ k
      → measure m.0 ≤ n + i
      → ((a : A) (s : S) → measure (f a s).0 ≤ measure s + j)
      → measure (and_then m f).0 ≤ n + k
  unfolding and_then
  below-and_then i j n k (s, returned a) f e h step = omega (arith, e, h, step a s)
  below-and_then i j n k (s, raised x) f e h step = omega (arith, e, h)

  -- The first part costs nothing.
  below-free :
      (n k : ℕ) (m : S × Outcome A) (f : A → Act S B)
      → measure m.0 ≤ n
      → ((a : A) (s : S) → measure (f a s).0 ≤ measure s + k)
      → measure (and_then m f).0 ≤ n + k
  below-free n k m f h step = below-and_then 0 k n k m f (omega arith) (omega (arith, h)) step

module _ {ℓ} {S : Type ℓ} (N : Type 0) (services : Services N S) (measure : S → ℕ) (dry_run : Bool)
    (g a t : ℕ) (costs : Costs services measure dry_run g a t) where
  stay : (k : ℕ) (s : S) → measure s ≤ measure s + k
  stay k s = omega arith

  redraft_cost :
      (label : String) (attempt : ℕ) (context : EngineeringContext N) (failures : List String)
      (draft : Draft N) (s : S)
      → measure (redraft N services label attempt context failures draft s).0 ≤ measure s + g
  unfolding redraft
  redraft_cost label attempt context failures draft s =
      below-and_then measure g 0 (measure s) g _ _ (omega arith) (costs.generate_cost _ s)
        λ patch s.
          below-free measure (measure s) 0 _ _ (costs.validate_cost _ context s)
            λ validation s. stay 0 s

  first_draft_cost :
      (context : EngineeringContext N) (s : S)
      → measure (first_draft N services context s).0 ≤ measure s + g
  unfolding first_draft
  first_draft_cost context s = below-free measure (measure s) g _ _ (costs.select_cost s) λ u s.
      below-and_then measure g 0 (measure s) g _ _ (omega arith) (costs.generate_cost _ s)
        λ patch s.
          below-free measure (measure s) 0 _ _ (costs.validate_cost _ context s)
            λ validation s. stay 0 s

  below-if :
      {A : Type 0} (b : Bool) (m k : Act S A) (n : ℕ) (s : S)
      → measure (m s).0 ≤ n
      → measure (k s).0 ≤ n
      → measure ((if b then m else k) s).0 ≤ n
  below-if true m k n s hm hk = hm
  below-if false m k n s hm hk = hk

  repair_patch_cost :
      (rounds attempt : ℕ) (context : EngineeringContext N) (draft : Draft N) (s : S)
      → measure (repair_patch N services rounds attempt context draft s).0 ≤ measure s + rounds * g
  unfolding repair_patch
  repair_patch_cost zero attempt context draft s = stay (0 * g) s
  repair_patch_cost (suc rounds) attempt context draft s =
      below-if draft.validation.valid _ _ (measure s + suc rounds * g) s (stay (suc rounds * g) s) (
        below-and_then measure g (rounds * g) (measure s) (suc rounds * g) _ _ (grind arith)
          (redraft_cost _ attempt context _ draft s)
          λ next s. repair_patch_cost rounds (attempt + 1) context next s)

  module _ (rest : Rest N services) (k : ℕ)
      (rest_cost : (d : Draft N) (x : PatchApplicationResult) (errors : List String) (s : S)
        → measure (rest d x errors s).0 ≤ measure s + k) where
    judge_cost :
        (next : Draft N) (again : PatchApplicationResult) (b : Bool) (s : S)
        → measure (judge N services rest next again b s).0 ≤ measure s + k
    unfolding judge
    judge_cost next again true s = stay k s
    judge_cost next again false s = rest_cost next again again.errors s

    reapply_cost :
        (next : Draft N) (application : PatchApplicationResult) (b : Bool) (s : S)
        → measure (reapply N services rest dry_run next application b s).0 ≤ measure s + (a + k)
    unfolding reapply
    reapply_cost next application false s =
        omega (arith, rest_cost next application next.validation.errors s)
    reapply_cost next application true s =
        below-and_then measure a k (measure s) (a + k) _ _ (omega arith) (costs.apply_cost _ s)
          λ again s. judge_cost next again again.applied s

  repair_application_cost :
      (rounds attempt : ℕ) (context : EngineeringContext N) (draft : Draft N)
      (application : PatchApplicationResult) (errors : List String) (s : S)
      → measure
          (repair_application N services rounds attempt context dry_run draft application errors
            s).0
        ≤ measure s + rounds * (g + a)
  unfolding repair_application
  repair_application_cost zero attempt context draft application errors s = stay (0 * (g + a)) s
  repair_application_cost (suc rounds) attempt context draft application errors s =
      below-and_then measure g (a + rounds * (g + a)) (measure s) (suc rounds * (g + a)) _ _
        (grind arith) (redraft_cost _ attempt context _ draft s)
        λ next s.
          reapply_cost (repair_application N services rounds (attempt + 1) context dry_run)
            (rounds * (g + a))
            (λ d x errors s. repair_application_cost rounds (attempt + 1) context d x errors s) next
            application next.validation.valid s

  settle_applied_cost :
      (rounds : ℕ) (context : EngineeringContext N) (draft : Draft N)
      (application : PatchApplicationResult) (b : Bool) (s : S)
      → measure (settle_applied N services rounds context dry_run draft application b s).0
        ≤ measure s + rounds * (g + a)
  unfolding settle_applied
  settle_applied_cost rounds context draft application true s =
      repair_application_cost rounds 0 context draft application _ s
  settle_applied_cost rounds context draft application false s = stay (rounds * (g + a)) s

  settle_cost :
      (rounds : ℕ) (context : EngineeringContext N) (draft : Draft N) (b : Bool) (s : S)
      → measure (settle N services rounds context dry_run draft b s).0
        ≤ measure s + (a + rounds * (g + a))
  unfolding settle
  settle_cost rounds context draft false s = stay (a + rounds * (g + a)) s
  settle_cost rounds context draft true s =
      below-and_then measure a (rounds * (g + a)) (measure s) (a + rounds * (g + a)) _ _
        (omega arith) (costs.apply_cost _ s)
        λ application s. settle_applied_cost rounds context draft application _ s

  -- the provider's first patch, at most a patch in each round of both loops, and one more application
  -- than there are rounds of the second
  abbrev pub bound : ℕ → ℕ
  bound rounds = g + (rounds * g + (a + rounds * (g + a)))

  draft_and_settle_cost :
      (rounds : ℕ) (context : EngineeringContext N) (s : S)
      → measure (draft_and_settle N services rounds context dry_run s).0 ≤ measure s + bound rounds
  unfolding draft_and_settle
  draft_and_settle_cost rounds context s =
      below-and_then measure g (rounds * g + (a + rounds * (g + a))) (measure s) _ _ _ (omega arith)
        (first_draft_cost context s)
        λ draft s.
          below-and_then measure (rounds * g) (a + rounds * (g + a)) (measure s) _ _ _ (omega arith)
            (repair_patch_cost rounds 0 context draft s)
            λ repaired s. settle_cost rounds context repaired repaired.validation.valid s

  test_if_cost :
      (wanted : Bool) (commands : List TestCommand) (s : S)
      → measure (test_if N services wanted commands s).0 ≤ measure s + (if wanted then t else 0)
  unfolding test_if
  test_if_cost true commands s = costs.tests_cost commands s
  test_if_cost false commands s = stay 0 s

  report_cost :
      (issue : EngineeringIssue) (context : EngineeringContext N) (run_tests : Bool)
      (settled : Settled N) (s : S)
      → measure (report N services issue context dry_run run_tests settled s).0
        ≤ measure s + (if run_tests && not dry_run then t else 0)
  unfolding report
  report_cost issue context run_tests settled s =
      let k = if run_tests && not dry_run then t else 0 in
      below-free measure (measure s) k _ _ (costs.warnings_cost _ s) λ w s.
        below-free measure (measure s) k _ _ (costs.detect_cost s) λ commands s.
          below-and_then measure k 0 (measure s) k _ _ (omega arith)
            (test_if_cost (run_tests && not dry_run) commands s)
            λ results s.
              below-free measure (measure s) 0 _ _ (costs.selection_cost s) λ x s. stay 0 s

  investigate_cost :
      (config : EngineeringConfiguration) (issue : EngineeringIssue) (run_tests : Bool)
      (context : EngineeringContext N) (b : Bool) (s : S)
      → measure (investigate N services config issue dry_run run_tests context b s).0
        ≤ measure s
          + (bound config.max_patch_repair_attempts + (if run_tests && not dry_run then t else 0))
  unfolding investigate
  investigate_cost config issue run_tests context true s =
      stay (bound config.max_patch_repair_attempts + (if run_tests && not dry_run then t else 0)) s
  investigate_cost config issue run_tests context false s =
      below-and_then measure (bound config.max_patch_repair_attempts)
        (if run_tests && not dry_run then t else 0) (measure s) _ _ _ (omega arith)
        (draft_and_settle_cost config.max_patch_repair_attempts context s)
        λ settled s. report_cost issue context run_tests settled s

  -- However a run ends, a number of the state that asking the provider raises by at most `g`, applying
  -- with the flag for a dry run at most `a`, running tests at most `t`, and nothing else raises, has
  -- grown by at most `g` for the first patch, by `g` for each of the allowed repairs in both loops, by
  -- `a` for one application and one for each allowed repair, and by `t` where tests are wanted and it
  -- is no dry run.
  pub run_infer_pipeline-le :
      (config : EngineeringConfiguration) (issue : EngineeringIssue) (run_tests : Bool) (s : S)
      → measure (run_infer_pipeline N services config issue dry_run run_tests s).0
        ≤ measure s
          + (bound config.max_patch_repair_attempts + (if run_tests && not dry_run then t else 0))
  unfolding run_infer_pipeline
  run_infer_pipeline-le config issue run_tests s =
      below-free measure (measure s) _ _ _ (costs.context_cost issue s)
        λ context s. investigate_cost config issue run_tests context _ s
