-- ===== src/Tools/Reports.antt =====
-- tools/executor/executor.py and tools/base/engineering_tool.py: what an execution reports.
use git_hub_engineering_work.Common.{
  ◌⊎◌, ◌<>◌, String, ◌==◌, ◌≡◌, refl, ap, ◌∙◌, true, false, none, some, [], ◌∷◌, ◌++◌,
  if◌then◌else◌, inl, inr, Bool-cases,
}
use git_hub_engineering_work.Common.Outcome.{Outcome, returned, raised}
use git_hub_engineering_work.Common.Act.{Act, and_then}
use git_hub_engineering_work.Tools.{
  ToolResult, ToolRequest, Event, Tool, Context, Runtime, succeeded, failure, recover, info, error,
  started_event, completed_event, handle, attempt, complete, perform, run,
}

-- The code returns in every state.
abbrev pub Returns {ℓ κ} : {S : Type ℓ} {A : Type κ} → Act S A → Type (ℓ ⊔ κ)
Returns {S = S} {A = A} m = (s : S) → (t : S) × (a : A) × (m s ≡ (t, returned a))

-- What the executor relies on: publishing an event and proposing an update return.
pub record IsLawful {ℓ} {S : Type ℓ} (runtime : Runtime S) : Type ℓ where
  pub publishes : (e : Event) → Returns (runtime.publish e)
  pub updates :
      (k : String) (r : ToolResult) → Returns (runtime.propose_update k r.status (succeeded r))

module _ {ℓ} {S : Type ℓ} (context : Context S) (runtime : Runtime S) (tool : Tool S)
    (lawful : IsLawful runtime) where
  -- The result is the one that the tool's run returned, or it is no success.
  abbrev pub IsHonest : ToolResult → S × Outcome ToolResult → Type ℓ
  IsHonest r m = ((t : S) × (m ≡ (t, returned r))) ⊎ (succeeded r ≡ false)

  handled :
      (m : S × Outcome ToolResult)
      → (t : S) × (r : ToolResult) × (handle context runtime m ≡ (t, returned r)) × IsHonest r m
  unfolding handle recover
  handled (s, returned r) = (s, r, refl, inl (s, refl))
  handled (s, raised e) = elim (Bool-cases (e.class_name == "ToolCancelledException")) [
    | inl stopped ↦ rw stopped (s, failure e.text 0 true, refl, inr refl)
    | inr broke ↦ rw broke (s, failure e.text 0 false, refl, inr refl)
  ]

  bind_lem :
      {A : Type 0} (m : S × Outcome A) (f : A → Act S ToolResult) (t : S) (a : A)
      → m ≡ (t, returned a)
      → and_then m f ≡ f a t
  unfolding and_then
  bind_lem m f t a h = ap (λ x. and_then x f) h

  -- the end, which is called completed exactly if the result is a success
  abbrev ended : ToolRequest → ToolResult → Event
  ended request r = record {
    event_type = if succeeded r then "tool.completed" else "tool.failed";
    tool_id = request.tool_id;
    status = some r.status;
    severity = if succeeded r then info else error;
  }

  -- The events of the result are those of the tool, the start, and the end with what the result says.
  abbrev pub reported : ToolRequest → ToolResult → ToolResult
  reported request r = record r {
    events =
        r.events
        ++ record {
          event_type = "tool.started";
          tool_id = request.tool_id;
          status = none;
          severity = info;
        }
          ∷ ended request r
          ∷ [];
  }

  completed :
      (request : ToolRequest) (r : ToolResult) (s : S)
      → (t : S) × (complete context runtime request r s ≡ (t, returned (reported request r)))
  unfolding complete
  completed request r s =
      let (t, u, h) = lawful.publishes (completed_event context runtime request r) s in
      let (v, w, k) = lawful.updates ("tool:" <> request.tool_id <> ":last_result") r t in
      (v, bind_lem _ _ t u h ∙ bind_lem _ _ v w k)

  -- An execution of a tool that was found always returns a result, whatever the tool raises, cancelled
  -- or not. It is the one that the tool's run returned, or no success; and its events are those of the
  -- tool, then the start, then the end, which is called failed exactly if the result is no success. The
  -- bus and the memory are expected to return.
  pub perform-Returns :
      (request : ToolRequest) (s : S)
      → (before t : S) × (r : ToolResult) × (perform context runtime tool request s
          ≡ (t, returned (reported request r)))
        × IsHonest r (run context tool request before)
  unfolding perform attempt
  perform-Returns request s =
      let (before, u, h) = lawful.publishes (started_event context runtime request) s in
      let (after, r, k, honest) = handled (run context tool request before) in
      let (t, done) = completed request r after in
      (before, t, r, bind_lem _ _ before u h ∙ bind_lem _ _ after r k ∙ done, honest)
