-- ===== src/Audit/Log.antt =====
-- audit/logger.py: what a query finds after entries were appended.
use git_hub_engineering_work.Common.{
  ℕ, ◌≡◌, ◌≢◌, refl, sym, ap, ◌∙◌, Option, none, some, List, [], ◌∷◌, ◌++◌, keep, map, Bool-cases,
  inl, inr, if◌then◌else◌,
}
use git_hub_engineering_work.Common.Json.{
  Value, null, other_number, boolean, num, str, arr, obj, require, ok, ◌>>=◌,
}
use git_hub_engineering_work.Common.Json.Codec.{optional-back, texts-back}
use git_hub_engineering_work.Common.Json.Sorted.{
  sorted, sorted_fields, sorted_items-texts, sorted-optional,
}
use git_hub_engineering_work.Audit.{
  Library, AuditEntry, AuditQuery, matches, score, as_score, duration, as_duration, parsed,
  entry_to_json, entry_from_json, append, read_lines, or_any, query,
}

sorted-duration : (o : Option ℕ) → sorted (duration o) ≡ duration o
unfolding sorted
sorted-duration none = refl
sorted-duration (some n) = refl

duration-back : (o : Option ℕ) → as_duration (some (duration o)) ≡ ok o
duration-back none = refl
duration-back (some n) = refl

module _ (library : Library) where
  open library use {iso, Double, write_double, read_double, Line, dumps, loads}

  sorted-score : (o : Option Double) → sorted (score library o) ≡ score library o
  unfolding sorted
  sorted-score none = refl
  sorted-score (some x) = library.double_sorted x

  as_score_plain :
      (v : Value) → v ≢ null → as_score library (some v) ≡ (read_double v >>= λ x. ok (some x))
  as_score_plain null h = absurd (h refl)
  as_score_plain (boolean b) h = refl
  as_score_plain (num n) h = refl
  as_score_plain (other_number n) h = refl
  as_score_plain (str s) h = refl
  as_score_plain (arr xs) h = refl
  as_score_plain (obj fs) h = refl

  score-back : (o : Option Double) → as_score library (some (score library o)) ≡ ok o
  score-back none = refl
  score-back (some x) =
      as_score_plain (write_double x) (library.double_not_null x) ∙ rw (library.double_back x) refl

  parsed-isoformat : (t : ℕ) → parsed library (iso.isoformat t) ≡ ok t
  unfolding parsed
  parsed-isoformat t = rw (iso.iso_back t, parsed) refl

  -- the entry that comes back: the keys of its metadata are in order
  abbrev pub canonical : AuditEntry Double → AuditEntry Double
  canonical entry = record entry { metadata = sorted_fields entry.metadata }

  -- A line that was written is read back.
  entry_from_json-sorted :
      (entry : AuditEntry Double)
      → entry_from_json library (sorted (entry_to_json library entry)) ≡ ok (canonical entry)
  unfolding entry_from_json entry_to_json sorted require
  entry_from_json-sorted entry = simp (
    sorted-optional, sorted-duration, sorted-score, sorted_items-texts, optional-back, texts-back,
    duration-back, score-back, parsed-isoformat,
  )

  line_of : AuditEntry Double → Line
  line_of entry = dumps (entry_to_json library entry)

  -- the entries, one after the other
  abbrev pub append_all : List (AuditEntry Double) → Option (List Line) → Option (List Line)
  append_all [] file = file
  append_all (entry ∷ entries) file = append_all entries (append library entry file)

  read_line :
      (wanted : AuditQuery) (entry : AuditEntry Double) (lines : List Line)
      (found : List (AuditEntry Double))
      → read_lines library wanted lines ≡ ok found
      → read_lines library wanted (line_of entry ∷ lines)
        ≡ ok (if matches library wanted entry then canonical entry ∷ found else found)
  unfolding read_lines line_of matches
  read_line wanted entry lines found h =
      let v = entry_to_json library entry in
      simp (library.dumps_ink v, library.loads_dumps v, entry_from_json-sorted entry, h)

  read_lines-map :
      (wanted : AuditQuery) (entries : List (AuditEntry Double))
      → read_lines library wanted (map line_of entries)
        ≡ ok (map canonical (keep (matches library wanted) entries))
  unfolding read_lines
  read_lines-map wanted [] = refl
  read_lines-map wanted (entry ∷ entries) =
      read_line wanted entry (map line_of entries) _ (read_lines-map wanted entries)
      ∙ elim (Bool-cases (matches library wanted entry)) [
        | inl e ↦ rw (e, keep) refl
        | inr e ↦ rw (e, keep) refl
      ]

  one_more : (l : List Line) (x : Line) (m : List Line) → (l ++ x ∷ []) ++ m ≡ l ++ x ∷ m
  one_more [] x m = refl
  one_more (y ∷ l) x m = ap (λ k. y ∷ k) (one_more l x m)

  nil_right : (l : List Line) → l ++ [] ≡ l
  nil_right [] = refl
  nil_right (x ∷ l) = ap (λ m. x ∷ m) (nil_right l)

  append_all-some :
      (entries : List (AuditEntry Double)) (lines : List Line)
      → append_all entries (some lines) ≡ some (lines ++ map line_of entries)
  unfolding append line_of
  append_all-some [] lines = ap some (sym (nil_right lines))
  append_all-some (entry ∷ entries) lines =
      append_all-some entries (lines ++ line_of entry ∷ [])
      ∙ ap some (one_more lines (line_of entry) (map line_of entries))

  -- After entries were appended to a log that was missing, a query returns those that it matches, in
  -- the order in which they were appended, each as it was but for the order of the keys in its metadata.
  pub query-append_all :
      (wanted : Option AuditQuery) (entries : List (AuditEntry Double))
      → query library wanted (append_all entries none)
        ≡ ok (map canonical (keep (matches library (or_any library wanted)) entries))
  unfolding query append line_of
  query-append_all wanted [] = refl
  query-append_all wanted (entry ∷ entries) =
      ap (query library wanted) (append_all-some entries (line_of entry ∷ []))
      ∙ read_lines-map (or_any library wanted) (entry ∷ entries)
