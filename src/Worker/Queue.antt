-- ===== src/Worker/Queue.antt =====
-- worker/queue/persistent.py. The lock makes each method one step, so a method is a function of
-- the queue. `file` is the document that the last `_save` wrote, `none` before the first one.
pub mod Persist
pub mod Durable
pub mod Unique
pub mod Order
mod Tests
use git_hub_engineering_work.Common.{
  ℕ, ◌+◌, String, ◌==◌, Bool, true, false, Option, none, some, List, [], ◌∷◌, ◌++◌, map, any,
  length, if◌then◌else◌,
}
use git_hub_engineering_work.Common.Json.{
  Value, arr, obj, end, field, get, Loaded, ok, err, outside,
}
use git_hub_engineering_work.Common.Json.Sorted.{sorted}
use git_hub_engineering_work.Worker.Models.{WorkerIssue, key}
use Persist.{Iso, encode, decode}

pub record Queue : Type 0 where
  pub items : List WorkerIssue
  pub file : Option Value

-- `any(item.key == issue_key for item in self._items)`
abbrev pub has_key : String → List WorkerIssue → Bool
has_key k = any (λ item. key item == k)

unfoldable pub contains : Queue → String → Bool
contains q k = has_key k q.items

abbrev beside :
    WorkerIssue → Option (WorkerIssue × List WorkerIssue) → Option (WorkerIssue × List WorkerIssue)
beside issue none = none
beside issue (some (found, others)) = some (found, issue ∷ others)

-- the `for index, issue in enumerate(self._items)` loop: the first item with the key, and the rest
unfoldable pub pop_key : String → List WorkerIssue → Option (WorkerIssue × List WorkerIssue)
pop_key k [] = none
pop_key k (issue ∷ rest) =
    let later = pop_key k rest in if key issue == k then some (issue, rest) else beside issue later

-- The issue that `retry_enqueue` builds; `now` is the default of `enqueued_at`.
unfoldable pub retried : ℕ → WorkerIssue → WorkerIssue
retried now issue = record issue { attempts = issue.attempts + 1; enqueued_at = now }

unfoldable pub peek : Queue → Option WorkerIssue
peek q = elim q.items [ [] ↦ none | issue ∷ rest ↦ some issue ]

unfoldable pub keys : Queue → List String
keys q = map key q.items

-- `__len__`
unfoldable pub size : Queue → ℕ
size q = length q.items

module _ (iso : Iso) where
  -- `_save`, after `self._items` is assigned; `sort_keys=True` orders the keys of every object
  unfoldable pub save : List WorkerIssue → Queue
  unfolding sorted
  save items = record {
    items = items;
    file = some (sorted (obj (field "items" (arr (encode iso items)) end)));
  }

  read_items : ℕ → Option Value → Loaded (List WorkerIssue)
  read_items now none = ok []
  read_items now (some (arr xs)) = decode iso now xs
  read_items now (some _) = err outside

  -- `_load`
  unfoldable pub load : ℕ → Option Value → Loaded (List WorkerIssue)
  unfolding read_items get
  load now none = ok []
  load now (some (obj d)) = read_items now (get d "items")
  load now (some _) = err outside

  unfoldable pub enqueue : WorkerIssue → Queue → Queue × Bool
  unfolding save contains
  enqueue issue q =
      if contains q (key issue) then (q, false) else (save (q.items ++ issue ∷ []), true)

  unfoldable pub retry_enqueue : ℕ → WorkerIssue → Queue → Queue × Bool
  unfolding enqueue retried
  retry_enqueue now issue q = enqueue (retried now issue) q

  unfoldable pub pop_front : Queue → List WorkerIssue → Queue × Option WorkerIssue
  unfolding save
  pop_front q [] = (q, none)
  pop_front q (issue ∷ rest) = (save rest, some issue)

  unfoldable pub dequeue : Queue → Queue × Option WorkerIssue
  unfolding pop_front
  dequeue q = pop_front q q.items

  take_found : Queue → Option (WorkerIssue × List WorkerIssue) → Queue × Option WorkerIssue
  unfolding save
  take_found q none = (q, none)
  take_found q (some (matched, rest)) = (save rest, some matched)

  unfoldable pub dequeue_issue : String → Queue → Queue × Option WorkerIssue
  unfolding take_found
  dequeue_issue k q = take_found q (pop_key k q.items)

  unfoldable pub clear : Queue → Queue × List WorkerIssue
  unfolding save
  clear q = (save [], q.items)

  put_found : Queue → Option (WorkerIssue × List WorkerIssue) → Queue × Option WorkerIssue
  unfolding save
  put_found q none = (q, none)
  put_found q (some (matched, rest)) = (save (matched ∷ rest), some matched)

  unfoldable pub move_to_front : String → Queue → Queue × Option WorkerIssue
  unfolding put_found
  move_to_front k q = put_found q (pop_key k q.items)

-- A queue whose file does not exist yet.
abbrev pub fresh : Queue
fresh = record { items = []; file = none }

-- One call of a method that may change the queue.
pub data Call : Type 0 where
  enqueue_call : WorkerIssue → Call
  retry_call : ℕ → WorkerIssue → Call
  dequeue_call : Call
  dequeue_issue_call : String → Call
  clear_call : Call
  move_call : String → Call

unfoldable pub after : Iso → Call → Queue → Queue
after iso (enqueue_call issue) q = (enqueue iso issue q).0
after iso (retry_call now issue) q = (retry_enqueue iso now issue q).0
after iso dequeue_call q = (dequeue iso q).0
after iso (dequeue_issue_call k) q = (dequeue_issue iso k q).0
after iso clear_call q = (clear iso q).0
after iso (move_call k) q = (move_to_front iso k q).0

unfoldable pub after_all : Iso → List Call → Queue → Queue
after_all iso [] q = q
after_all iso (c ∷ cs) q = after_all iso cs (after iso c q)
