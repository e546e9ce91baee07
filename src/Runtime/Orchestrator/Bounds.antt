-- ===== src/Runtime/Orchestrator/Bounds.antt =====
-- runtime/orchestrator/engineering.py: where a run can end, and how often it retries.
use git_hub_engineering_work.Common.{
  ℕ, zero, suc, ◌≤◌, String, ◌==◌, ◌≡◌, refl, ap, subst, true, ◌⊎◌, inl, inr, some, List, [], ◌∷◌,
  nat_eq, Bool-cases, arith,
}
use git_hub_engineering_work.Common.Outcome.{Exc, Outcome, returned, raised}
use git_hub_engineering_work.Runtime.Models.{
  WorkflowStage, ExecutionContext, AgentResult, with_stage, with_active_agent,
  add_temporary_artifact, succeeded,
}
use git_hub_engineering_work.Runtime.Registry.{AgentMetadata}
use git_hub_engineering_work.Runtime.Orchestrator.{
  Round, ended, moved, Environment, finalize_at, handle_failure, record_timeline, add_artifacts,
  move_to, apply_agent_result, finalize_terminal, apply_or_end, after_dispatch, with_agent,
  select_agent, dispatch, round, continue, loop, concluded, run_workflow,
}
use git_hub_engineering_work.Runtime.Stages.{is_terminal, workflow_exception, next_stage}

abbrev IsOver : ExecutionContext → Type 0
IsOver c = (is_terminal c.current_stage ≡ true) ⊎ (c.current_stage ≡ WorkflowStage.retry)

-- A context from which a run goes on, and one with which it ends.
abbrev IsTame : ExecutionContext → Type 0
IsTame c = c.retry_count ≤ 1

abbrev IsEnd : ExecutionContext → Type 0
IsEnd c = IsOver c × IsTame c

abbrev Holds : (ExecutionContext → Type 0) → Outcome ExecutionContext → Type 0
Holds P (returned c) = P c
Holds P (raised e) = Unit

abbrev IsGood : Round → Type 0
IsGood (ended o) = Holds IsEnd o
IsGood (moved c) = IsTame c

handle_failure-IsEnd : (e : Exc) (c : ExecutionContext) → IsTame c → IsEnd (handle_failure e c)
unfolding handle_failure record_timeline with_stage
handle_failure-IsEnd e c h = elim (Bool-cases (nat_eq c.retry_count 0)) [
  | inl met ↦ rw met (inr refl, ground arith)
  | inr unmet ↦ rw unmet (inl refl, h)
]

add_artifacts-retry_count :
    (refs : List String) (c : ExecutionContext) → (add_artifacts refs c).retry_count ≡ c.retry_count
add_artifacts-retry_count [] c = refl
add_artifacts-retry_count (a ∷ refs) c = add_artifacts-retry_count refs (add_temporary_artifact a c)

move_to-IsTame :
    (r : AgentResult) (c : ExecutionContext) (o : Outcome WorkflowStage)
    → IsTame c
    → Holds IsTame (move_to r c o)
unfolding move_to record_timeline with_stage
move_to-IsTame r c (raised e) h = tt
move_to-IsTame r c (returned stage) h = rw (add_artifacts-retry_count r.artifact_refs _) h

apply_agent_result-IsTame :
    (r : AgentResult) (c : ExecutionContext) → IsTame c → Holds IsTame (apply_agent_result r c)
unfolding apply_agent_result
apply_agent_result-IsTame r c h = elim (Bool-cases (succeeded r)) [
  | inl met ↦ rw met (move_to-IsTame r c (next_stage c.current_stage r) h)
  | inr unmet ↦ rw unmet (handle_failure-IsEnd (workflow_exception r.summary) c h).1
]

finalize_at-IsEnd :
    (s : WorkflowStage) (c : ExecutionContext)
    → c.current_stage ≡ s
    → is_terminal s ≡ true
    → IsTame c
    → IsEnd (finalize_at s c)
unfolding finalize_at record_timeline with_stage
finalize_at-IsEnd WorkflowStage.escalate c e t h = (inl (ap is_terminal e), h)
finalize_at-IsEnd WorkflowStage.cancelled c e t h = (inl (ap is_terminal e), h)
finalize_at-IsEnd WorkflowStage.failed c e t h = (inl (ap is_terminal e), h)
finalize_at-IsEnd _ c e t h = (inl refl, h)

module _ (env : Environment) where
  apply_or_end-IsGood :
      (o : Outcome ExecutionContext) → Holds IsTame o → IsGood (apply_or_end env o)
  unfolding apply_or_end
  apply_or_end-IsGood (raised e) h = tt
  apply_or_end-IsGood (returned c) h = h

  after_dispatch-IsGood :
      (c : ExecutionContext) (o : Outcome AgentResult) → IsTame c → IsGood (after_dispatch env c o)
  unfolding after_dispatch
  after_dispatch-IsGood c (returned r) h = apply_or_end-IsGood _ (apply_agent_result-IsTame r c h)
  after_dispatch-IsGood c (raised e) h = elim (Bool-cases (e.class_name == "DispatchException")) [
    | inl met ↦ rw met (handle_failure-IsEnd e c h)
    | inr unmet ↦ rw unmet tt
  ]

  with_agent-IsGood :
      (n : ℕ) (c : ExecutionContext) (o : Outcome AgentMetadata)
      → IsTame c
      → IsGood (with_agent env n c o)
  unfolding with_agent
  with_agent-IsGood n c (raised e) h = tt
  with_agent-IsGood n c (returned m) h =
      after_dispatch-IsGood (with_active_agent (some m.identifier) c)
        (dispatch env n m (with_active_agent (some m.identifier) c)) h

  finalize_terminal-IsEnd :
      (c : ExecutionContext)
      → is_terminal c.current_stage ≡ true
      → IsTame c
      → IsEnd (finalize_terminal c)
  unfolding finalize_terminal
  finalize_terminal-IsEnd c t h = finalize_at-IsEnd c.current_stage c refl t h

  round-IsGood : (n : ℕ) (c : ExecutionContext) → IsTame c → IsGood (round env n c)
  unfolding round
  round-IsGood n c h = elim (Bool-cases (env.cancelled_at_start n)) [
    | inl off ↦ rw off tt
    | inr on ↦ rw on (elim (Bool-cases (is_terminal c.current_stage)) [
      | inl met ↦ rw met (finalize_terminal-IsEnd c met h)
      | inr unmet ↦ rw unmet (with_agent-IsGood n c (select_agent env c) h)
    ])
  ]

  continue-IsEnd :
      (r : Round) (f : ExecutionContext → Outcome ExecutionContext)
      → IsGood r
      → ((c : ExecutionContext) → IsTame c → Holds IsEnd (f c))
      → Holds IsEnd (continue env r f)
  unfolding continue
  continue-IsEnd (ended o) f h k = h
  continue-IsEnd (moved c) f h k = k c h

  loop-IsEnd : (left n : ℕ) (c : ExecutionContext) → IsTame c → Holds IsEnd (loop env left n c)
  unfolding loop
  loop-IsEnd zero n c h = tt
  loop-IsEnd (suc left) n c h =
      continue-IsEnd (round env n c) (loop env left (suc n)) (round-IsGood n c h)
        (loop-IsEnd left (suc n))

  concluded-IsEnd :
      (c : ExecutionContext) (o : Outcome ExecutionContext)
      → IsTame c
      → Holds IsEnd o
      → Holds IsEnd (concluded env c o)
  unfolding concluded with_stage
  concluded-IsEnd c (returned d) h k = k
  concluded-IsEnd c (raised e) h k =
      elim (Bool-cases (e.class_name == "ExecutionCancelledException")) [
        | inl met ↦ rw met (inl refl, h)
        | inr unmet ↦ rw unmet (elim (Bool-cases (e.class_name == "WorkflowException")) [
          | inl met' ↦ rw met' tt
          | inr unmet' ↦ rw unmet' (inl refl, h)
        ])
      ]

  -- A run that starts with at most one retry and returns a context ends in a terminal stage, or in the
  -- stage of a retry, which no round carries out; and it has counted at most one retry.
  pub run_workflow-IsEnd :
      (max_steps : ℕ) (c d : ExecutionContext)
      → c.retry_count ≤ 1
      → run_workflow env max_steps c ≡ returned d
      → ((is_terminal d.current_stage ≡ true) ⊎ (d.current_stage ≡ WorkflowStage.retry))
        × (d.retry_count ≤ 1)
  unfolding run_workflow record_timeline with_stage
  run_workflow-IsEnd max_steps c d h e =
      subst (Holds IsEnd) e (concluded-IsEnd c _ h (loop-IsEnd max_steps 0 _ h))
