-- ===== src/Audit/Tests.antt =====
-- audit/logger.py on two entries.
use git_hub_engineering_work.Common.{ℕ, String, ◌≡◌, ◌≢◌, refl, false, none, some, [], ◌∷◌}
use git_hub_engineering_work.Common.Json.{Value, null, num, end, field, Loaded, ok, err, outside}
use git_hub_engineering_work.Common.Json.Sorted.{sorted}
use git_hub_engineering_work.Worker.Samples.{unary}
use git_hub_engineering_work.Audit.{AuditEntry, AuditQuery, Library, any_entry, matches, query}
use git_hub_engineering_work.Audit.Log.{append_all, canonical, query-append_all}

abbrev read_number : Value → Loaded ℕ
read_number (num n) = ok n
read_number _ = err outside

not_null : (n : ℕ) → num n ≢ null
not_null n e = cc e

num_sorted : (n : ℕ) → sorted (num n) ≡ num n
unfolding sorted
num_sorted n = refl

-- numbers for doubles, and a line is its document
abbrev library : Library
library = record {
  iso = unary;
  Double = ℕ;
  write_double = λ n. num n;
  read_double = read_number;
  double_back = λ n. refl;
  double_sorted = num_sorted;
  double_not_null = not_null;
  Line = Value;
  dumps = sorted;
  loads = λ v. ok v;
  blank = λ v. false;
  loads_dumps = λ v. refl;
  dumps_ink = λ v. refl;
}

abbrev entry : String → AuditEntry ℕ
entry action = record {
  execution_id = "e";
  issue = "o/r#7";
  repository = "o/r";
  current_stage = "s";
  action = action;
  result = "ok";
  timestamp = 3;
  audit_id = "a";
  current_agent = none;
  current_tool = some "t";
  decision = none;
  confidence = some 80;
  retry_count = 1;
  files_modified = "a.py" ∷ [];
  tests_executed = [];
  execution_duration_ms = none;
  metadata = field "z" (num 1) (field "b" (num 2) end);
}

abbrev pushes : AuditQuery
pushes = record any_entry { action = some "push" }

query-append_all_example :
    query library (some pushes) (append_all library (entry "push" ∷ entry "poll" ∷ []) none)
    ≡ ok (canonical library (entry "push") ∷ [])
unfolding matches
query-append_all_example = query-append_all library (some pushes) (entry "push" ∷ entry "poll" ∷ [])
