-- ===== src/Tools.antt =====
-- tools/: the life of a tool around its action, the registry of tools, and the executor. `S` is the
-- state that tools act on.
pub mod Files
pub mod Reports
mod Tests
use git_hub_engineering_work.Common.{
  ℕ, String, ◌<>◌, ◌==◌, ◌-◌, Bool, true, false, not, ◌&&◌, ◌||◌, Option, none, some, List, [], ◌∷◌,
  ◌++◌, any, is_nil, if◌then◌else◌,
}
use git_hub_engineering_work.Common.Text.{strip, truthy}
use git_hub_engineering_work.Common.Outcome.{Exc, Outcome, returned, raised}
use git_hub_engineering_work.Common.Act.{Act, ◌>>=◌, return, raise}

-- `ToolStatus`
pub data ToolStatus : Type 0 where
  success partial failed cancelled : ToolStatus

abbrev pub status_value : ToolStatus → String
status_value success = "success"
status_value partial = "partial"
status_value failed = "failed"
status_value cancelled = "cancelled"

pub data Severity : Type 0 where
  info error : Severity

-- an event of the executor: its type, its payload but for the tool's identifier, and its severity
pub record Event : Type 0 where
  pub event_type : String
  pub tool_id : String
  pub status : Option ToolStatus
  pub severity : Severity

-- without metadata, artifacts and the structured output but for its entry `cancelled`
pub record ToolResult : Type 0 where
  pub status : ToolStatus
  pub errors : List String
  pub warnings : List String
  pub execution_time_ms : ℕ
  pub confidence_contribution : String
  pub events : List Event
  pub was_cancelled : Bool

abbrev pub is_success : ToolStatus → Bool
is_success success = true
is_success _ = false

-- `ToolResult.success`
abbrev pub succeeded : ToolResult → Bool
succeeded r = is_success r.status

-- `ToolResult.failure`
abbrev pub failure : String → ℕ → Bool → ToolResult
failure message ms was_cancelled = record {
  status = failed;
  errors = message ∷ [];
  warnings = [];
  execution_time_ms = ms;
  confidence_contribution = "decreases";
  events = [];
  was_cancelled = was_cancelled;
}

-- `ToolResult.with_execution_time` and `ToolResult.with_events`
abbrev pub with_execution_time : ℕ → ToolResult → ToolResult
with_execution_time ms r = record r { execution_time_ms = ms }

abbrev pub with_events : List Event → ToolResult → ToolResult
with_events events r = record r { events = r.events ++ events }

pub record ToolMetadata : Type 0 where
  pub identifier : String
  pub name : String
  pub version : String
  pub capabilities : List String
  pub supported_versions : List String

abbrev pub registry_exception : String → Exc
registry_exception m = record { class_name = "ToolRegistryException"; text = m }

-- `ToolMetadata.validate`, with the exception that `validate_metadata` makes of its `ValueError`
unfoldable pub validate_metadata : ToolMetadata → Outcome (Unit {0})
unfolding strip
validate_metadata m =
    if not (truthy (strip m.identifier))
    then raised (registry_exception "tool identifier is required")
    else if not (truthy (strip m.name))
    then raised (registry_exception "tool name is required")
    else if not (truthy (strip m.version))
    then raised (registry_exception "tool version is required")
    else if is_nil m.capabilities
    then raised (registry_exception ("tool capabilities are required: " <> m.identifier))
    else returned tt

-- `metadata.supported_versions or (metadata.version,)`
abbrev pub allowed_versions : ToolMetadata → List String
allowed_versions m = if is_nil m.supported_versions then m.version ∷ [] else m.supported_versions

pub record ToolRequest : Type 0 where
  pub tool_id : String
  -- the names of the inputs that are given
  pub inputs : List String
  pub requested_version : Option String

-- the rest of `validate_version`, behind the lookup
unfoldable pub version_allowed : String → ToolMetadata → Option String → Outcome (Unit {0})
version_allowed identifier m none = returned tt
version_allowed identifier m (some version) =
    if not (any (λ v. v == version) (allowed_versions m))
    then raised (registry_exception ("unsupported version " <> version <> " for " <> identifier))
    else returned tt

-- A tool: its class attributes and the methods that a subclass may override.
pub record Tool {ℓ} (S : Type ℓ) : Type ℓ where
  pub metadata : ToolMetadata
  pub required_inputs : List String
  pub initialize : Act S (Unit {0})
  pub validate_configuration : Act S (Unit {0})
  pub prepare : ToolRequest → Act S (Unit {0})
  pub execute : ToolRequest → Act S ToolResult
  pub finalize : ToolResult → Act S ToolResult
  pub cleanup : Act S (Unit {0})

abbrev pub validation_exception : String → Exc
validation_exception m = record { class_name = "ToolValidationException"; text = m }

abbrev pub cancelled_exception : String → Exc
cancelled_exception m = record { class_name = "ToolCancelledException"; text = m }

-- `try: m` with `finally: c`
unfoldable pub finally {ℓ κ} :
    {S : Type ℓ} {A : Type κ} → S × Outcome A → Act S (Unit {0}) → S × Outcome A
finally (s, returned a) c = (c >>= λ _. return a) s
finally (s, raised e) c = (c >>= λ _. raise e) s

abbrev pub run_outcome {ℓ κ} : {S : Type ℓ} {A : Type κ} → Outcome A → Act S A
run_outcome o s = (s, o)

-- What a tool's context gives it: the cancellation token with its reason, and the clock.
pub record Context {ℓ} (S : Type ℓ) : Type ℓ where
  pub is_cancelled : S → Bool
  pub reason : S → String
  pub clock_ms : S → ℕ

module _ {ℓ} {S : Type ℓ} (context : Context S) (tool : Tool S) where
  -- the loop over the required inputs
  unfoldable pub check_inputs : ToolRequest → List String → Outcome (Unit {0})
  check_inputs request [] = returned tt
  check_inputs request (name ∷ names) =
      let rest = check_inputs request names in
      if not (any (λ i. i == name) request.inputs)
      then raised (validation_exception ("missing required input: " <> name))
      else rest

  -- `validate`
  unfoldable pub validate : ToolRequest → Act S (Unit {0})
  validate request =
      if not (request.tool_id == tool.metadata.identifier)
      then raise (
          validation_exception
            ("request targets " <> request.tool_id <> ", expected " <> tool.metadata.identifier))
      else (run_outcome (check_inputs request tool.required_inputs) >>= λ _.
          tool.validate_configuration)

  -- the body of the `try` in `run`
  unfoldable pub guarded : ℕ → ToolRequest → Act S ToolResult
  guarded started request = validate request >>= λ _. tool.prepare request >>= λ _.
      tool.execute request >>= λ result.
      λ s. tool.finalize (with_execution_time (context.clock_ms s - started) result) s

  -- `run` behind `initialize`
  unfoldable pub run_started : ToolRequest → Act S ToolResult
  run_started request s = finally (guarded (context.clock_ms s) request s) tool.cleanup

  unfoldable pub run : ToolRequest → Act S ToolResult
  run request s =
      if context.is_cancelled s
      then raise (cancelled_exception (context.reason s)) s
      else (tool.initialize >>= λ _. run_started request) s

-- `recover`, which no tool overrides; the flag in its structured output is left out
unfoldable pub recover {ℓ} : {S : Type ℓ} → Exc → Act S ToolResult
recover e = return (failure e.text 0 false)

-- What the executor calls: the bus, which it may not have, and the memory of the context.
pub record Runtime {ℓ} (S : Type ℓ) : Type ℓ where
  pub publish : Event → Act S (Unit {0})
  pub propose_update : String → ToolStatus → Bool → Act S (Unit {0})

module _ {ℓ} {S : Type ℓ} (context : Context S) (runtime : Runtime S) where
  -- the handlers of `execute`
  unfoldable pub handle : S × Outcome ToolResult → S × Outcome ToolResult
  unfolding recover
  handle (s, returned r) = (s, returned r)
  handle (s, raised e) =
      if e.class_name == "ToolCancelledException"
      then (s, returned (failure e.text 0 true))
      else recover e s

  abbrev pub started_event : ToolRequest → Event
  started_event request = record {
    event_type = "tool.started";
    tool_id = request.tool_id;
    status = none;
    severity = info;
  }

  abbrev pub completed_event : ToolRequest → ToolResult → Event
  completed_event request result = record {
    event_type = if succeeded result then "tool.completed" else "tool.failed";
    tool_id = request.tool_id;
    status = some result.status;
    severity = if succeeded result then info else error;
  }

  -- from the result on
  unfoldable pub complete : ToolRequest → ToolResult → Act S ToolResult
  complete request result = runtime.publish (completed_event request result) >>= λ _.
      runtime.propose_update ("tool:" <> request.tool_id <> ":last_result") result.status
        (succeeded result)
      >>= λ _.
          return (with_events (started_event request ∷ completed_event request result ∷ []) result)

  -- the `try` statement
  unfoldable pub attempt : Tool S → ToolRequest → Act S ToolResult
  attempt tool request s = handle (run context tool request s)

  -- behind the lookups
  unfoldable pub perform : Tool S → ToolRequest → Act S ToolResult
  perform tool request = runtime.publish (started_event request) >>= λ _.
      attempt tool request >>= λ result. complete request result

  -- `execute`, with what the registry finds for the identifier, or the exception that it raises
  unfoldable pub execute : (String → Outcome (Tool S)) → ToolRequest → Act S ToolResult
  execute find request = run_outcome (find request.tool_id) >>= λ tool.
      run_outcome (version_allowed request.tool_id tool.metadata request.requested_version) >>= λ _.
      perform tool request
