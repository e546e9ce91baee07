-- ===== src/Worker/Processed.antt =====
-- worker/watcher/github.py, `ProcessedIssueStore`: the dictionary from issue keys to what became of
-- the issue. The lock makes each method one step; `file` is the document of the last `_save`.
pub mod Laws
pub mod Durable
mod Tests
use git_hub_engineering_work.Common.{
  String, ◌==◌, Bool, true, false, Option, none, some, List, [], ◌∷◌, any, if◌then◌else◌,
}
use git_hub_engineering_work.Common.Text.{or_else}
use git_hub_engineering_work.Common.Json.{
  Value, null, str, obj, Fields, end, field, get, Loaded, ok, err, outside, ◌>>=◌,
}
use git_hub_engineering_work.Common.Json.Sorted.{sorted}
use Prim.Native.String.{compare}
use Prim.Native.Nat.{Ordering}

abbrev pub Entries : Type 0
Entries = List (String × Fields)

pub record Processed : Type 0 where
  pub entries : Entries
  pub file : Option Value

abbrev pub known : String → Entries → Bool
known k = any (λ e. e.0 == k)

-- `d[k] = v`: a key that is there keeps its place
unfoldable pub put : String → Fields → Entries → Entries
put k v [] = (k, v) ∷ []
put k v ((j, w) ∷ rest) =
    let later = put k v rest in if j == k then (j, v) ∷ rest else (j, w) ∷ later

-- `del d[k]`
unfoldable pub del : String → Entries → Entries
del k [] = []
del k ((j, w) ∷ rest) = let later = del k rest in if j == k then rest else (j, w) ∷ later

unfoldable pub look : String → Entries → Option Fields
look k [] = none
look k ((j, w) ∷ rest) = if j == k then some w else look k rest

insert_sorted : String → List String → List String
insert_sorted k [] = k ∷ []
insert_sorted k (j ∷ rest) =
    let later = insert_sorted k rest in
    elim (compare k j) [ Ordering.gt ↦ j ∷ later | _ ↦ k ∷ j ∷ rest ]

-- `tuple(sorted(d))`
unfoldable pub sorted_keys : Entries → List String
unfolding insert_sorted
sorted_keys [] = []
sorted_keys ((k, v) ∷ rest) = insert_sorted k (sorted_keys rest)

entry_fields : Entries → Fields
entry_fields [] = end
entry_fields ((k, v) ∷ rest) = field k (obj v) (entry_fields rest)

-- `_save`; `sort_keys=True` orders the keys of every object
unfoldable pub save : Entries → Processed
unfolding entry_fields sorted
save entries = record {
  entries = entries;
  file = some (sorted (obj (field "processed" (obj (entry_fields entries)) end)));
}

-- `{str(key): dict(value) for key, value in …}`: the keys of a document's dictionary are texts
read_entries : Fields → Loaded Entries
read_entries end = ok []
read_entries (field k (obj v) rest) = read_entries rest >>= λ l. ok ((k, v) ∷ l)
read_entries (field k _ rest) = err outside

read_processed : Option Value → Loaded Entries
unfolding read_entries
read_processed none = ok []
read_processed (some (obj d)) = read_entries d
read_processed (some _) = err outside

-- `_load`
unfoldable pub load : Option Value → Loaded Entries
unfolding read_processed get
load none = ok []
load (some (obj d)) = read_processed (get d "processed")
load (some _) = err outside

unfoldable pub contains : Processed → String → Bool
contains p k = known k p.entries

unfoldable pub mark_processed : String → String → Processed → Processed
unfolding put save
mark_processed k status p = save (put k (field "status" (str status) end) p.entries)

unfoldable pub keys : Processed → List String
unfolding sorted_keys
keys p = sorted_keys p.entries

unfoldable pub remove : String → Processed → Processed × Bool
unfolding del save contains
remove k p = if contains p k then (save (del k p.entries), true) else (p, false)

unfoldable pub clear : Processed → Processed × List String
unfolding save keys
clear p = (save [], keys p)

-- `str(data.get("status") or "")`
status_text : Option Value → Loaded String
status_text none = ok ""
status_text (some null) = ok ""
status_text (some (str s)) = ok (or_else (some s) "")
status_text (some _) = err outside

status_of : Option Fields → Option (Loaded String)
unfolding status_text get
status_of none = none
status_of (some d) = some (status_text (get d "status"))

unfoldable pub status_for : String → Processed → Option (Loaded String)
unfolding look status_of
status_for k p = status_of (look k p.entries)

abbrev pub fresh : Processed
fresh = record { entries = []; file = none }

-- One call of a method that may change the history.
pub data HistoryCall : Type 0 where
  mark_call : String → String → HistoryCall
  remove_call : String → HistoryCall
  clear_call : HistoryCall

unfoldable pub after_call : HistoryCall → Processed → Processed
after_call (mark_call k status) p = mark_processed k status p
after_call (remove_call k) p = (remove k p).0
after_call clear_call p = (clear p).0

unfoldable pub after_calls : List HistoryCall → Processed → Processed
after_calls [] p = p
after_calls (call ∷ calls) p = after_calls calls (after_call call p)
