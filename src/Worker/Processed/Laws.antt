-- ===== src/Worker/Processed/Laws.antt =====
-- `ProcessedIssueStore`: what a lookup sees after a write, and what the file holds.
use git_hub_engineering_work.Common.{
  String, ◌==◌, ◌≡◌, refl, ap, some, [], ◌∷◌, ◌||◌, arith, eq_iff, inl, inr, Bool-cases,
  if◌then◌else◌,
}
use git_hub_engineering_work.Common.Text.{or_else}
use git_hub_engineering_work.Common.Json.{Fields, field, end, str, ok}
use git_hub_engineering_work.Worker.Processed.{
  Entries, Processed, known, put, look, contains, mark_processed, status_for,
}

look-put :
    (k j : String) (v : Fields) (l : Entries)
    → look j (put k v l) ≡ (if k == j then some v else look j l)
unfolding look put
look-put k j v [] = refl
look-put k j v ((i, w) ∷ l) = ground (arith, eq_iff k j, eq_iff i k, eq_iff i j, look-put k j v l)

pub known-put :
    (k j : String) (v : Fields) (l : Entries) → known j (put k v l) ≡ ((k == j) || known j l)
unfolding put
known-put k j v [] = ground arith
known-put k j v ((i, w) ∷ l) = ground (arith, eq_iff k j, eq_iff i k, eq_iff i j, known-put k j v l)

or_empty : (s : String) → or_else (some s) "" ≡ s
or_empty s = ground (arith, eq_iff s "")

-- Marking an issue sets its own status and leaves that of every other key as it was, and exactly
-- the marked key is added to the history.
pub status_for-mark_processed :
    (k j status : String) (p : Processed)
    → (status_for j (mark_processed k status p)
        ≡ (if k == j then some (ok status) else status_for j p))
      × (contains (mark_processed k status p) j ≡ ((k == j) || contains p j))
unfolding status_for mark_processed contains
status_for-mark_processed k j status p = (
  elim (Bool-cases (k == j)) [
    | inl same ↦ rw same (
        rw (look-put k j (field "status" (str status) end) p.entries)
          (rw same (ap (λ t. some (ok t)) (or_empty status))))
    | inr other ↦
        rw other (rw (look-put k j (field "status" (str status) end) p.entries) (rw other))
  ],
  known-put k j (field "status" (str status) end) p.entries,
)
