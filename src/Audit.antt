-- ===== src/Audit.antt =====
-- audit/models.py and audit/logger.py: the audit log, a file with a line of JSON for each entry.
pub mod Log
mod Tests
use git_hub_engineering_work.Common.{
  ℕ, String, ◌<>◌, ◌==◌, Bool, true, false, not, ◌&&◌, ◌||◌, Option, none, some, List, [], ◌∷◌,
  ◌++◌, ◌≡◌, ◌≢◌, if◌then◌else◌,
}
use git_hub_engineering_work.Common.Json.{
  Value, null, num, str, arr, obj, Fields, end, field, get, require, Loaded, ok, err, outside,
  ◌>>=◌,
}
use git_hub_engineering_work.Common.Json.Codec.{
  Iso, optional, texts, as_optional, as_text, as_number, as_texts, as_mapping, number_or_zero,
}
use git_hub_engineering_work.Common.Json.Sorted.{sorted}

-- What the log uses of the standard library: ISO times, doubles as JSON values, and `json.dumps` with
-- sorted keys, which writes a document as one line that is not blank and that `json.loads` reads back.
-- The file is modelled by its lines, since what `json.dumps` writes has no line break in it.
pub record Library : Type 1 where
  pub iso : Iso
  pub Double : Type 0
  pub write_double : Double → Value
  pub read_double : Value → Loaded Double
  pub double_back : (x : Double) → read_double (write_double x) ≡ ok x
  pub double_sorted : (x : Double) → sorted (write_double x) ≡ write_double x
  pub double_not_null : (x : Double) → write_double x ≢ null
  pub Line : Type 0
  pub dumps : Value → Line
  pub loads : Line → Loaded Value
  -- `not line.strip()`
  pub blank : Line → Bool
  pub loads_dumps : (v : Value) → loads (dumps v) ≡ ok (sorted v)
  pub dumps_ink : (v : Value) → blank (dumps v) ≡ false

pub record AuditEntry (Double : Type 0) : Type 0 where
  pub execution_id : String
  pub issue : String
  pub repository : String
  pub current_stage : String
  pub action : String
  pub result : String
  pub timestamp : ℕ
  pub audit_id : String
  pub current_agent : Option String
  pub current_tool : Option String
  pub decision : Option String
  pub confidence : Option Double
  pub retry_count : ℕ
  pub files_modified : List String
  pub tests_executed : List String
  pub execution_duration_ms : Option ℕ
  pub metadata : Fields

pub record AuditQuery : Type 0 where
  pub execution_id : Option String
  pub issue : Option String
  pub repository : Option String
  pub action : Option String

-- `AuditQuery()`
abbrev pub any_entry : AuditQuery
any_entry = record { execution_id = none; issue = none; repository = none; action = none }

-- `wanted is None or value == wanted`
abbrev pub meets : Option String → String → Bool
meets none value = true
meets (some wanted) value = value == wanted

-- the values that `int | None` admits
abbrev as_duration : Option Value → Loaded (Option ℕ)
as_duration none = ok none
as_duration (some null) = ok none
as_duration (some (num n)) = ok (some n)
as_duration (some _) = err outside

abbrev duration : Option ℕ → Value
duration none = null
duration (some n) = num n

module _ (library : Library) where
  open library use {iso, Double, write_double, read_double, Line, dumps, loads, blank}

  -- `_matches`
  unfoldable pub matches : AuditQuery → AuditEntry Double → Bool
  matches query entry =
      meets query.execution_id entry.execution_id
      && meets query.issue entry.issue
      && meets query.repository entry.repository
      && meets query.action entry.action

  abbrev score : Option Double → Value
  score none = null
  score (some x) = write_double x

  abbrev as_score : Option Value → Loaded (Option Double)
  as_score none = ok none
  as_score (some null) = ok none
  as_score (some v) = read_double v >>= λ x. ok (some x)

  parsed : String → Loaded ℕ
  parsed s = elim (iso.fromisoformat s) [ none ↦ err outside | some t ↦ ok t ]

  unfoldable pub entry_to_json : AuditEntry Double → Value
  entry_to_json entry = obj (
      field "audit_id" (str entry.audit_id) (
        field "timestamp" (str (iso.isoformat entry.timestamp)) (
          field "execution_id" (str entry.execution_id) (
            field "issue" (str entry.issue) (
              field "repository" (str entry.repository) (
                field "current_stage" (str entry.current_stage) (
                  field "current_agent" (optional entry.current_agent) (
                    field "current_tool" (optional entry.current_tool) (
                      field "action" (str entry.action) (
                        field "decision" (optional entry.decision) (
                          field "confidence" (score entry.confidence) (
                            field "retry_count" (num entry.retry_count) (
                              field "files_modified" (arr (texts entry.files_modified)) (
                                field "tests_executed" (arr (texts entry.tests_executed)) (
                                  field "execution_duration_ms"
                                    (duration entry.execution_duration_ms)
                                    (field "result" (str entry.result)
                                      (field "metadata" (obj entry.metadata) end)))))))))))))))))

  fields_to_entry : Fields → Loaded (AuditEntry Double)
  unfolding parsed
  fields_to_entry d = do
    audit_id ← require d "audit_id" >>= as_text
    timestamp ← require d "timestamp" >>= as_text >>= parsed
    execution_id ← require d "execution_id" >>= as_text
    issue ← require d "issue" >>= as_text
    repository ← require d "repository" >>= as_text
    current_stage ← require d "current_stage" >>= as_text
    current_agent ← as_optional (get d "current_agent")
    current_tool ← as_optional (get d "current_tool")
    action ← require d "action" >>= as_text
    decision ← as_optional (get d "decision")
    confidence ← as_score (get d "confidence")
    retry_count ← number_or_zero (get d "retry_count")
    files_modified ← as_texts (get d "files_modified")
    tests_executed ← as_texts (get d "tests_executed")
    execution_duration_ms ← as_duration (get d "execution_duration_ms")
    result ← require d "result" >>= as_text
    metadata ← as_mapping (get d "metadata")
    ok (record {
      execution_id = execution_id;
      issue = issue;
      repository = repository;
      current_stage = current_stage;
      action = action;
      result = result;
      timestamp = timestamp;
      audit_id = audit_id;
      current_agent = current_agent;
      current_tool = current_tool;
      decision = decision;
      confidence = confidence;
      retry_count = retry_count;
      files_modified = files_modified;
      tests_executed = tests_executed;
      execution_duration_ms = execution_duration_ms;
      metadata = metadata;
    })

  unfoldable pub entry_from_json : Value → Loaded (AuditEntry Double)
  unfolding fields_to_entry
  entry_from_json (obj d) = fields_to_entry d
  entry_from_json _ = err outside

  -- the lines of the file, or none where it is missing
  unfoldable pub append : AuditEntry Double → Option (List Line) → Option (List Line)
  append entry none = some (dumps (entry_to_json entry) ∷ [])
  append entry (some lines) = some (lines ++ dumps (entry_to_json entry) ∷ [])

  -- the loop over the lines
  unfoldable pub read_lines : AuditQuery → List Line → Loaded (List (AuditEntry Double))
  read_lines query [] = ok []
  read_lines query (line ∷ lines) =
      let rest = read_lines query lines in
      if blank line
      then rest
      else (loads line >>= λ v. entry_from_json v >>= λ entry.
          rest >>= λ entries. ok (if matches query entry then entry ∷ entries else entries))

  -- `query or AuditQuery()`
  abbrev pub or_any : Option AuditQuery → AuditQuery
  or_any none = any_entry
  or_any (some query) = query

  unfoldable pub query : Option AuditQuery → Option (List Line) → Loaded (List (AuditEntry Double))
  query wanted none = ok []
  query wanted (some lines) = read_lines (or_any wanted) lines
