-- ===== src/Worker/Queue/Persist.antt =====
-- `_issue_to_json`, `_issue_from_json`, and the documents of `_save` and `_load`.
use git_hub_engineering_work.Common.{
  ℕ, String, ◌≡◌, refl, Option, none, some, List, [], ◌∷◌, map, if◌then◌else◌,
}
use git_hub_engineering_work.Common.Text.{truthy}
use git_hub_engineering_work.Common.Json.{
  Value, null, num, str, arr, obj, Items, nil, cons, Fields, end, field, get, require, Loaded, ok,
  err, outside, ◌>>=◌,
}
use git_hub_engineering_work.Common.Json.Codec.{
  optional, texts, as_optional, as_text, as_number, as_texts, as_mapping, number_or_zero,
  optional-back, texts-back,
}
use git_hub_engineering_work.Common.Json.Sorted.{
  sorted, sorted_fields, sorted_items, sorted_items-texts, sorted-optional,
}
pub use git_hub_engineering_work.Common.Json.Codec.{Iso}
use git_hub_engineering_work.Worker.Models.{WorkerIssue}

-- the issue with the keys of its metadata in order, as a file has them
abbrev pub reordered : WorkerIssue → WorkerIssue
reordered issue = record issue { metadata = sorted_fields issue.metadata }

module _ (iso : Iso) where
  open iso use {isoformat, fromisoformat, iso_back, iso_truthy}

  parsed : String → Loaded ℕ
  parsed s = elim (fromisoformat s) [ none ↦ err outside | some t ↦ ok t ]

  -- `datetime.fromisoformat(d) if d else datetime.now()`
  as_time : ℕ → Option Value → Loaded ℕ
  unfolding parsed
  as_time now none = ok now
  as_time now (some null) = ok now
  as_time now (some (str s)) = if truthy s then parsed s else ok now
  as_time now (some _) = err outside

  unfoldable pub issue_to_json : WorkerIssue → Value
  issue_to_json issue = obj (
      field "repository" (str issue.repository) (
        field "number" (num issue.number) (
          field "title" (optional issue.title) (
            field "url" (optional issue.url) (
              field "labels" (arr (texts issue.labels)) (
                field "attempts" (num issue.attempts) (
                  field "enqueued_at" (str (isoformat issue.enqueued_at))
                    (field "metadata" (obj issue.metadata) end))))))))

  fields_to_issue : ℕ → Fields → Loaded WorkerIssue
  unfolding as_time
  fields_to_issue now d = do
    repository ← require d "repository" >>= as_text
    number ← require d "number" >>= as_number
    title ← as_optional (get d "title")
    url ← as_optional (get d "url")
    labels ← as_texts (get d "labels")
    attempts ← number_or_zero (get d "attempts")
    enqueued_at ← as_time now (get d "enqueued_at")
    metadata ← as_mapping (get d "metadata")
    ok (record {
      repository = repository;
      number = number;
      title = title;
      url = url;
      labels = labels;
      attempts = attempts;
      enqueued_at = enqueued_at;
      metadata = metadata;
    })

  unfoldable pub issue_from_json : ℕ → Value → Loaded WorkerIssue
  unfolding fields_to_issue
  issue_from_json now (obj d) = fields_to_issue now d
  issue_from_json now _ = err outside

  parsed-isoformat : (t : ℕ) → parsed (isoformat t) ≡ ok t
  unfolding parsed
  parsed-isoformat t = rw (iso_back t, parsed)

  -- A decoded issue is the one that was encoded, but for the order of its metadata's keys.
  pub issue_from_json-issue_to_json :
      (now : ℕ) (issue : WorkerIssue)
      → issue_from_json now (sorted (issue_to_json issue)) ≡ ok (reordered issue)
  unfolding issue_from_json issue_to_json require sorted
  issue_from_json-issue_to_json now issue =
      simp (
        sorted-optional, sorted_items-texts, optional-back, texts-back, iso_truthy,
        parsed-isoformat,
      )

  -- `[_issue_to_json(item) for item in self._items]`
  unfoldable pub encode : List WorkerIssue → Items
  encode [] = nil
  encode (issue ∷ rest) = cons (issue_to_json issue) (encode rest)

  -- `[_issue_from_json(item) for item in data.get("items", [])]`
  unfoldable pub decode : ℕ → Items → Loaded (List WorkerIssue)
  decode now nil = ok []
  decode now (cons v rest) = do
    issue ← issue_from_json now v
    issues ← decode now rest
    ok (issue ∷ issues)

  pub decode-encode :
      (now : ℕ) (l : List WorkerIssue) → decode now (sorted_items (encode l)) ≡ ok (map reordered l)
  unfolding decode encode sorted
  decode-encode now [] = refl
  decode-encode now (issue ∷ rest) =
      simp (issue_from_json-issue_to_json now issue, decode-encode now rest)
