-- ===== src/Worker/Queue/Durable.antt =====
-- worker/queue/persistent.py: what is on disk after the methods of the queue.
use git_hub_engineering_work.Common.{
  ℕ, ◌≡◌, refl, inl, inr, Option, none, some, List, [], ◌∷◌, ◌++◌, map, Bool-cases,
}
use git_hub_engineering_work.Common.Json.{ok}
use git_hub_engineering_work.Common.Json.Sorted.{sorted}
use git_hub_engineering_work.Worker.Models.{WorkerIssue, key}
use git_hub_engineering_work.Worker.Queue.Persist.{Iso, reordered, decode-encode}
use git_hub_engineering_work.Worker.Queue.{
  Queue, Call, enqueue_call, retry_call, dequeue_call, dequeue_issue_call, clear_call, move_call,
  contains, pop_key, take_found, put_found, save, load, enqueue, retry_enqueue, dequeue, pop_front,
  dequeue_issue, clear, move_to_front, fresh, after, after_all,
}

module _ (iso : Iso) where
  -- The file decodes to the items, but for the order of their metadata's keys, at whatever time it is read.
  abbrev pub IsSaved : Queue → Type 0
  IsSaved q = (now : ℕ) → load iso now q.file ≡ ok (map reordered q.items)

  pub save-IsSaved : (items : List WorkerIssue) → IsSaved (save iso items)
  unfolding load save sorted
  save-IsSaved items now = decode-encode iso now items

  pub fresh-IsSaved : IsSaved fresh
  unfolding load
  fresh-IsSaved now = refl

  pop_front-IsSaved : (q : Queue) (l : List WorkerIssue) → IsSaved q → IsSaved (pop_front iso q l).0
  unfolding pop_front
  pop_front-IsSaved q [] h = h
  pop_front-IsSaved q (issue ∷ rest) h = save-IsSaved rest

  enqueue-IsSaved : (issue : WorkerIssue) (q : Queue) → IsSaved q → IsSaved (enqueue iso issue q).0
  unfolding enqueue
  enqueue-IsSaved issue q h = elim (Bool-cases (contains q (key issue))) [
    | inl old ↦ rw old h
    | inr new ↦ rw new (save-IsSaved (q.items ++ issue ∷ []))
  ]

  take_found-IsSaved :
      (q : Queue) (o : Option (WorkerIssue × List WorkerIssue))
      → IsSaved q
      → IsSaved (take_found iso q o).0
  unfolding take_found
  take_found-IsSaved q none h = h
  take_found-IsSaved q (some (matched, rest)) h = save-IsSaved rest

  put_found-IsSaved :
      (q : Queue) (o : Option (WorkerIssue × List WorkerIssue))
      → IsSaved q
      → IsSaved (put_found iso q o).0
  unfolding put_found
  put_found-IsSaved q none h = h
  put_found-IsSaved q (some (matched, rest)) h = save-IsSaved (matched ∷ rest)

  pub after-IsSaved : (c : Call) (q : Queue) → IsSaved q → IsSaved (after iso c q)
  unfolding after retry_enqueue dequeue dequeue_issue clear move_to_front
  after-IsSaved (enqueue_call issue) q h = enqueue-IsSaved issue q h
  after-IsSaved (retry_call now issue) q h = enqueue-IsSaved _ q h
  after-IsSaved dequeue_call q h = pop_front-IsSaved q q.items h
  after-IsSaved (dequeue_issue_call k) q h = take_found-IsSaved q (pop_key k q.items) h
  after-IsSaved clear_call q h = save-IsSaved []
  after-IsSaved (move_call k) q h = put_found-IsSaved q (pop_key k q.items) h

  after_all-IsSaved : (cs : List Call) (q : Queue) → IsSaved q → IsSaved (after_all iso cs q)
  unfolding after_all
  after_all-IsSaved [] q h = h
  after_all-IsSaved (c ∷ cs) q h = after_all-IsSaved cs (after iso c q) (after-IsSaved c q h)

  -- After any calls on a queue that started with no file, a worker that restarts at any time and
  -- loads the file gets exactly the items that the queue held, in order, with nothing changed but that
  -- the keys of an item's metadata are sorted.
  pub load-after_all :
      (cs : List Call) (now : ℕ)
      → load iso now (after_all iso cs fresh).file
        ≡ ok (map reordered (after_all iso cs fresh).items)
  load-after_all cs now = after_all-IsSaved cs fresh fresh-IsSaved now
