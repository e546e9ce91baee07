-- ===== src/Escalation/Triggers.antt =====
-- escalation/engine.py: when a report escalates.
use git_hub_engineering_work.Common.{
  String, ◌≡◌, refl, ap, ◌∙◌, Bool, true, false, not, ◌&&◌, ◌||◌, List, [], ◌∷◌, ◌++◌, arith,
  if◌then◌else◌,
}
use git_hub_engineering_work.Common.Int.{pos, ltb_ℤ}
use git_hub_engineering_work.Common.Text.{strip, truthy}
use git_hub_engineering_work.Confidence.{Evidence, Assessment, get_or}
use git_hub_engineering_work.Confidence.Double.{Floats}
use git_hub_engineering_work.Escalation.{
  Rules, Reason, stated, unclassified, unavailable, corrupted, repeated_failures,
  unsafe_patch_found, low_confidence, retries_exceeded, human_review, follow, append_if,
  some_reason, rule_reasons, all_reasons, evaluate,
}

some_reason-snoc : (l : List Reason) (r : Reason) → some_reason (l ++ r ∷ []) ≡ true
some_reason-snoc [] r = refl
some_reason-snoc (x ∷ l) r = refl

some_reason-append_if :
    (b : Bool) (r : Reason) (l : List Reason) → some_reason (append_if b r l) ≡ (b || some_reason l)
some_reason-append_if true r l = some_reason-snoc l r
some_reason-append_if false r l = refl

some-six :
    (a b c d g h : Bool) (ra rb rc rd rg rh : Reason)
    → some_reason (
        append_if a ra
          (append_if b rb (append_if c rc (append_if d rd (append_if g rg (append_if h rh []))))))
      ≡ (h || g || d || c || b || a)
some-six a b c d g h ra rb rc rd rg rh = simp some_reason-append_if (or_reverse a b c d g h)
  where
    or_reverse :
        (a b c d g h : Bool)
        → (a || (b || (c || (d || (g || (h || false)))))) ≡ (h || g || d || c || b || a)
    or_reverse a b c d g h = ground arith

-- the last check, of the reason that the evidence states
some-last :
    (t u : Bool) (s v : Reason) (l : List Reason)
    → some_reason (if t then l ++ s ∷ [] else append_if u v l) ≡ (some_reason l || t || u)
some-last true u s v l = ground (arith, some_reason-snoc l s)
some-last false u s v l = ground (arith, some_reason-append_if u v l)

or_spread :
    (a b c d g h t u : Bool)
    → ((h || g || d || c || b || a) || t || u) ≡ (h || g || d || c || b || a || t || u)
or_spread a b c d g h t u = ground arith

module _ {F : Type 0} ⦃f : Floats F⦄ where
  -- The conditions under which work must go to a human, in no order.
  abbrev pub must_escalate : Rules F → Assessment F → Evidence → Bool
  must_escalate rules c e =
      ltb_ℤ rules.max_retries (pos (get_or e.retry_count 0))
      || not (f.le rules.minimum_confidence c.overall)
      || (rules.escalate_on_unsafe_patch && e.unsafe_patch)
      || not (ltb_ℤ (pos (get_or e.failure_count 0)) rules.repeated_failure_limit)
      || (rules.escalate_on_repository_corruption && e.repository_corruption)
      || (rules.escalate_on_provider_unavailable && e.provider_unavailable)
      || truthy (strip (get_or e.failure_reason ""))
      || e.unknown_failure

  some-all_reasons :
      (rules : Rules F) (c : Assessment F) (e : Evidence)
      → some_reason (all_reasons rules c e) ≡ must_escalate rules c e
  unfolding all_reasons
  some-all_reasons rules c e =
      let late = ltb_ℤ rules.max_retries (pos (get_or e.retry_count 0)) in
      let doubtful = not (f.le rules.minimum_confidence c.overall) in
      let unsafe = rules.escalate_on_unsafe_patch && e.unsafe_patch in
      let repeated = not (ltb_ℤ (pos (get_or e.failure_count 0)) rules.repeated_failure_limit) in
      let broken = rules.escalate_on_repository_corruption && e.repository_corruption in
      let offline = rules.escalate_on_provider_unavailable && e.provider_unavailable in
      let given = truthy (strip (get_or e.failure_reason "")) in
      some-last given e.unknown_failure (stated (strip (get_or e.failure_reason ""))) unclassified
        (rule_reasons rules c e)
      ∙ ap (λ b. b || given || e.unknown_failure)
          (some-six offline broken repeated unsafe doubtful late unavailable corrupted
            repeated_failures unsafe_patch_found low_confidence retries_exceeded)
      ∙ or_spread offline broken repeated unsafe doubtful late given e.unknown_failure

  -- A report escalates exactly when one of the eight conditions holds, lists a reason exactly then,
  -- and recommends a human review exactly then; otherwise it passes on what the confidence engine
  -- recommended.
  pub evaluate_lem :
      (rules : Rules F) (issue repository : String) (c : Assessment F) (e : Evidence)
      → ((evaluate rules issue repository c e).should_escalate ≡ must_escalate rules c e)
        × (some_reason (evaluate rules issue repository c e).reasons ≡ must_escalate rules c e)
        × ((evaluate rules issue repository c e).recommended_action
            ≡ (if must_escalate rules c e then human_review else follow c.decision_recommendation))
  unfolding evaluate
  evaluate_lem rules issue repository c e = (
    some-all_reasons rules c e,
    some-all_reasons rules c e,
    ap (λ b. if b then human_review else follow c.decision_recommendation)
        (some-all_reasons rules c e),
  )
