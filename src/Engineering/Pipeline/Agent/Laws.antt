-- ===== src/Engineering/Pipeline/Agent/Laws.antt =====
-- engineering/pipeline.py: what `run_until_patch` returns, with the agent and without it.
use git_hub_engineering_work.Common.{
  String, ◌==◌, eq_iff, ◌≡◌, refl, sym, ◌∙◌, ◌⊎◌, inl, inr, Bool, true, false, not, ◌&&◌, arith,
  if◌then◌else◌,
}
use git_hub_engineering_work.Common.Act.{Act, return}
use git_hub_engineering_work.Common.Outcome.{Exc, Outcome, returned, raised}
use git_hub_engineering_work.Worker.GitWorkflow.Safety.{
  Ensures, Ensures-any, Ensures-and_then, Ensures-returned, Ensures-if,
}
use git_hub_engineering_work.Engineering.Models.{
  EngineeringIssue, EngineeringContext, EngineeringConfiguration, EngineeringResult,
  PatchApplicationResult, PatchValidationResult,
}
use git_hub_engineering_work.Engineering.Services.{Services}
use git_hub_engineering_work.Engineering.Pipeline.{run_infer_pipeline}
use git_hub_engineering_work.Engineering.Pipeline.Repairs.{IsLawful, IsLawfulFor}
use git_hub_engineering_work.Engineering.Pipeline.Sound.{
  IsReviewable, run_infer_pipeline-IsReviewable,
}
use git_hub_engineering_work.Engineering.Pipeline.Agent.{
  Capability, Agent, rescue, agent_failed, agent_unavailable, with_agent, run_until_patch,
}

rescue-Ensures {ℓ κ ι} :
    {S : Type ℓ} {A : Type κ} (P : A → Type ι) (m : S × Outcome A) (handler : Exc → Act S A)
    → Ensures P m
    → ((e : Exc) (s : S) → Ensures P (handler e s))
    → Ensures P (rescue m handler)
unfolding rescue Ensures
rescue-Ensures P (s, returned a) handler h k = h
rescue-Ensures P (s, raised e) handler h k = k e s

Ensures-test {ℓ κ ι} :
    {S : Type ℓ} {A : Type κ} (P : A → Type ι) (b : Bool) (m k : S × Outcome A)
    → Ensures P m
    → Ensures P k
    → Ensures P (if b then m else k)
Ensures-test P true m k hm hk = hm
Ensures-test P false m k hm hk = hk

module _ {ℓ} {S : Type ℓ} (N : Type 0) (services : Services N S) (agent : Agent N S)
    (V : String → PatchValidationResult → Type 0) (P : String → PatchApplicationResult → Type 0)
    (lawful : IsLawful services V P) (Q : EngineeringResult N → Type 0)
    (vouched : (issue : EngineeringIssue) (run_tests : Bool) (s : S)
      → Ensures Q (agent.execute issue run_tests s)) where
  -- a lawful run, in whatever context and with whatever diffs of the provider
  abbrev pub lawful_for :
      (context : EngineeringContext N) → Unit {0} → IsLawfulFor services (λ _. Unit {0}) V P context
  lawful_for context u = record {
    generates = λ prompt s. Ensures-any _;
    validates = λ diff s. lawful.validates diff context s;
    applies = λ diff dry_run s. lawful.applies diff dry_run s;
  }

  abbrev pub IsFound : EngineeringResult N → Type 0
  IsFound = IsReviewable N services (λ _. Unit {0}) (λ _. V) P (λ _. Unit {0}) lawful_for

  -- The agent vouches for the result, or it is one that went through validation and application.
  abbrev pub IsVouched : EngineeringResult N → Type 0
  IsVouched r = Q r ⊎ IsFound r

  reviewable : (m : S × Outcome (EngineeringResult N)) → Ensures IsFound m → Ensures IsVouched m
  unfolding Ensures
  reviewable (s, returned r) h = inr h
  reviewable (s, raised e) h = tt

  given_up-Ensures :
      (r : EngineeringResult N) (s : S)
      → r.recommended_next_step ≡ "escalate"
      → Ensures IsVouched (return r s)
  given_up-Ensures r s e =
      Ensures-returned IsVouched s r
        (inr (inr λ h. ground (arith, sym e ∙ h, eq_iff "escalate" "review_patch")))

  module _ (config : EngineeringConfiguration) (issue : EngineeringIssue)
      (dry_run run_tests : Bool) where
    infer-Ensures :
        (s : S) → Ensures IsFound (run_infer_pipeline N services config issue dry_run run_tests s)
    infer-Ensures s =
        run_infer_pipeline-IsReviewable N services (λ _. Unit {0}) (λ _. V) P (λ _. Unit {0})
          lawful_for config issue dry_run run_tests s (Ensures-any _)

    agent_failed-Ensures :
        (capability : Capability) (exc : Exc) (s : S)
        → Ensures IsVouched
            (agent_failed N services agent config capability issue dry_run run_tests exc s)
    unfolding agent_failed
    agent_failed-Ensures capability exc s =
        Ensures-if IsVouched (not config.openclaw_agent_fallback_enabled) _ _ s
          (given_up-Ensures _ s refl)
          (Ensures-and_then IsFound IsVouched _ _ (infer-Ensures s)
            λ fallback ok s. Ensures-returned IsVouched s _ (inr ok))

    agent_unavailable-Ensures :
        (capability : Capability) (s : S)
        → Ensures IsVouched
            (agent_unavailable N services agent config capability issue dry_run run_tests s)
    unfolding agent_unavailable
    agent_unavailable-Ensures capability s =
        Ensures-if IsVouched (not config.openclaw_agent_fallback_enabled) _ _ s
          (given_up-Ensures _ s refl)
          (Ensures-and_then IsFound IsVouched _ _ (infer-Ensures s)
            λ fallback ok s. Ensures-returned IsVouched s _ (inr ok))

    IsVouched-result : (m : S × Outcome (EngineeringResult N)) → Ensures Q m → Ensures IsVouched m
    unfolding Ensures
    IsVouched-result (s, returned r) h = inl h
    IsVouched-result (s, raised e) h = tt

    with_agent-Ensures :
        (capability : Capability) (s : S)
        → Ensures IsVouched
            (with_agent N services agent config issue dry_run run_tests capability s)
    unfolding with_agent
    with_agent-Ensures capability s =
        Ensures-test IsVouched (capability.callable && capability.configured) _ _
          (rescue-Ensures IsVouched _ _ (IsVouched-result _ (vouched issue run_tests s))
            (λ exc s. agent_failed-Ensures capability exc s))
          (agent_unavailable-Ensures capability s)

    -- Where `run_until_patch` returns a result, it is one that the agent returned, or it is recommended
    -- for review only if its files are those of a diff that was found valid and applied, or applicable
    -- in a dry run. So a result that gives up, and one that the agent's failure turned over to the other
    -- pipeline, is never recommended without a patch.
    pub run_until_patch-IsVouched :
        (s : S)
        → Ensures IsVouched (run_until_patch N services agent config issue dry_run run_tests s)
    unfolding run_until_patch
    run_until_patch-IsVouched s =
        Ensures-if IsVouched (config.openclaw_agent_mode == "agent") _ _ s
          (Ensures-and_then (λ _. Unit {0}) IsVouched _ _ (Ensures-any _)
            λ capability u s. with_agent-Ensures capability s)
          (reviewable _ (infer-Ensures s))
