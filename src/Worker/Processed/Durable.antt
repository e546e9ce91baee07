-- ===== src/Worker/Processed/Durable.antt =====
-- `ProcessedIssueStore`: what a restarted worker reads from the file that the calls left.
use git_hub_engineering_work.Common.{
  String, ◌≡◌, refl, ap, ◌∙◌, Bool, true, false, Option, none, some, [], ◌∷◌, inl, inr, Bool-cases,
  if◌then◌else◌,
}
use mathlib.Core.Option
use git_hub_engineering_work.Common.Json.{obj, Fields, field, ok}
use git_hub_engineering_work.Common.Json.Sorted.{text_le, insert_field, sorted, sorted_fields}
use git_hub_engineering_work.Worker.Processed.{
  Entries, Processed, HistoryCall, mark_call, remove_call, clear_call, known, entry_fields,
  read_entries, save, load, contains, del, mark_processed, remove, clear, fresh, after_call,
}

insert_entry : String → Fields → Entries → Entries
insert_entry k v [] = (k, v) ∷ []
insert_entry k v ((j, w) ∷ rest) =
    if text_le k j then (k, v) ∷ (j, w) ∷ rest else (j, w) ∷ insert_entry k v rest

-- the entries as a file has them: by their keys, and the keys in each of them too
pub sorted_entries : Entries → Entries
unfolding insert_entry
sorted_entries [] = []
sorted_entries ((k, v) ∷ rest) = insert_entry k (sorted_fields v) (sorted_entries rest)

entry_fields-insert_entry :
    (k : String) (v : Fields) (l : Entries)
    → insert_field k (obj v) (entry_fields l) ≡ entry_fields (insert_entry k v l)
unfolding insert_field entry_fields insert_entry
entry_fields-insert_entry k v [] = refl
entry_fields-insert_entry k v ((j, w) ∷ rest) = elim (Bool-cases (text_le k j)) [
  | inl before ↦ rw before refl
  | inr behind ↦ rw behind (ap (field j (obj w)) (entry_fields-insert_entry k v rest))
]

entry_fields-sorted_entries :
    (l : Entries) → sorted_fields (entry_fields l) ≡ entry_fields (sorted_entries l)
unfolding sorted_fields entry_fields sorted_entries
entry_fields-sorted_entries [] = refl
entry_fields-sorted_entries ((k, v) ∷ rest) =
    ap (insert_field k (obj (sorted_fields v))) (entry_fields-sorted_entries rest)
    ∙ entry_fields-insert_entry k (sorted_fields v) (sorted_entries rest)

read-entry_fields : (l : Entries) → read_entries (entry_fields l) ≡ ok l
unfolding read_entries entry_fields
read-entry_fields [] = refl
read-entry_fields ((k, v) ∷ rest) = simp (read-entry_fields rest)

-- The file decodes to the entries in the order of their keys.
abbrev pub IsSaved : Processed → Type 0
IsSaved p = load p.file ≡ ok (sorted_entries p.entries)

save-IsSaved : (l : Entries) → IsSaved (save l)
unfolding load save sorted
save-IsSaved l = rw (entry_fields-sorted_entries l) (read-entry_fields (sorted_entries l))

pub fresh-IsSaved : IsSaved fresh
unfolding load sorted_entries
fresh-IsSaved = refl

remove-IsSaved : (k : String) (p : Processed) → IsSaved p → IsSaved (remove k p).0
unfolding remove contains
remove-IsSaved k p h = elim (Bool-cases (known k p.entries)) [
  | inl there ↦ rw there (save-IsSaved (del k p.entries))
  | inr absent ↦ rw absent h
]

pub after_call-IsSaved :
    (call : HistoryCall) (p : Processed) → IsSaved p → IsSaved (after_call call p)
unfolding after_call mark_processed clear
after_call-IsSaved (mark_call k status) p h = save-IsSaved _
after_call-IsSaved (remove_call k) p h = remove-IsSaved k p h
after_call-IsSaved clear_call p h = save-IsSaved []

abbrev is_some : Option Fields → Bool
is_some none = false
is_some (some v) = true
