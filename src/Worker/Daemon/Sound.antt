-- ===== src/Worker/Daemon/Sound.antt =====
-- worker/daemon/daemon.py: what executing an issue keeps true of the queue and the history.
use git_hub_engineering_work.Common.{
  ℕ, ◌<◌, ◌≤◌, String, ◌≡◌, refl, ◌∙◌, true, Option, none, some, inl, inr, List, [], ◌∷◌, All,
  All-append, arith, Bool-cases,
}
use git_hub_engineering_work.Common.Int.{ℤ, pos, ltb_ℤ}
use git_hub_engineering_work.Common.Outcome.{Exc, Outcome, returned, raised}
use git_hub_engineering_work.Worker.Models.{WorkerIssue, key}
use git_hub_engineering_work.Worker.Queue.{
  Queue, retry_call, dequeue_call, after, retried, retry_enqueue, dequeue, pop_front, save,
}
use git_hub_engineering_work.Worker.Queue.Persist.{Iso}
use git_hub_engineering_work.Worker.Queue.Durable.{IsSaved, after-IsSaved}
use git_hub_engineering_work.Worker.Queue.Unique.{IsUnique, after-IsUnique}
use git_hub_engineering_work.Worker.Queue.Order.{enqueue_lem}
use git_hub_engineering_work.Worker.Processed.{mark_call, after_call}
use git_hub_engineering_work.Worker.Processed.Durable
use git_hub_engineering_work.Worker.Processed.Durable.{after_call-IsSaved}
use git_hub_engineering_work.Worker.Config.{WorkerConfiguration}
use git_hub_engineering_work.Worker.Daemon.{
  Daemon, Result, Runner, notify, with_queue, should_retry_issue, mark_done, begin_issue, end_issue,
  retry, on_result, on_exception, settle, execute_queued_issue, drain_next, drain_one,
}

-- No queued issue was tried more than `limit` times before.
abbrev pub IsBounded : ℕ → List WorkerIssue → Type 0
IsBounded limit = All (λ issue. issue.attempts ≤ limit)

module _ (iso : Iso) (limit : ℕ) where
  -- The daemon's data between two steps: the retry limit, a queue that is on disk, with no key
  -- twice and no issue tried too often, a history that is on disk.
  pub record IsSound (d : Daemon) : Type 0 where
    pub retries : d.config.max_retries ≡ pos limit
    pub saved : IsSaved iso d.watcher.queue
    pub unique : IsUnique d.watcher.queue.items
    pub bounded : IsBounded limit d.watcher.queue.items
    pub history : Durable.IsSaved d.watcher.processed

  -- Only these parts of a daemon matter.
  pub IsSound-moved :
      (d d' : Daemon)
      → d'.config.max_retries ≡ d.config.max_retries
      → d'.watcher.queue ≡ d.watcher.queue
      → d'.watcher.processed ≡ d.watcher.processed
      → IsSound d
      → IsSound d'
  IsSound-moved d d' c q p s = record {
    retries = c ∙ s.retries;
    saved = rw q s.saved;
    unique = rw q s.unique;
    bounded = rw q s.bounded;
    history = rw p s.history;
  }

  room_left : (a : ℕ) (m : ℤ) → m ≡ pos limit → ltb_ℤ (pos a) m ≡ true → a < limit
  room_left a m e h = ground arith

  room_to_retry :
      (config : WorkerConfiguration) (status : String) (a : ℕ)
      → config.max_retries ≡ pos limit
      → should_retry_issue config status a ≡ true
      → a < limit
  unfolding should_retry_issue
  room_to_retry config status a e h = room_left a config.max_retries e (ground arith)

  retry-IsBounded :
      (now : ℕ) (issue : WorkerIssue) (q : Queue)
      → issue.attempts < limit
      → IsBounded limit q.items
      → IsBounded limit (retry_enqueue iso now issue q).0.items
  unfolding retry_enqueue retried
  retry-IsBounded now issue q room h = elim (enqueue_lem iso (retried now issue) q) [
    | inl (same, _) ↦ rw same h
    | inr (grown, _, _) ↦
        rw grown (All-append _ q.items (retried now issue ∷ []) h (omega arith, tt))
  ]

  retry-IsSound :
      (now : ℕ) (issue : WorkerIssue) (d : Daemon)
      → issue.attempts < limit
      → IsSound d
      → IsSound (retry iso now issue d)
  unfolding retry notify
  retry-IsSound now issue d room s = record {
    retries = s.retries;
    saved = unfold after in after-IsSaved iso (retry_call now issue) d.watcher.queue s.saved;
    unique = unfold after in after-IsUnique iso (retry_call now issue) d.watcher.queue s.unique;
    bounded = retry-IsBounded now issue d.watcher.queue room s.bounded;
    history = s.history;
  }

  mark_done-IsSound :
      (issue : WorkerIssue) (status : String) (d : Daemon)
      → IsSound d
      → IsSound (mark_done issue status d)
  unfolding mark_done after_call
  mark_done-IsSound issue status d s = record {
    retries = s.retries;
    saved = s.saved;
    unique = s.unique;
    bounded = s.bounded;
    history = after_call-IsSaved (mark_call (key issue) status) d.watcher.processed s.history;
  }

  on_result-IsSound :
      (now : ℕ) (issue : WorkerIssue) (r : Result) (d : Daemon)
      → IsSound d
      → IsSound (on_result iso now issue r d)
  unfolding on_result
  on_result-IsSound now issue r d s = elim (Bool-cases r.succeeded) [
    | inl done ↦ rw done (
        IsSound-moved (mark_done issue r.status d) _ refl refl refl
          (mark_done-IsSound issue r.status d s))
    | inr failed ↦
        rw failed (elim (Bool-cases (should_retry_issue d.config r.status issue.attempts)) [
          | inl again ↦ rw again (
              retry-IsSound now issue d
                (room_to_retry d.config r.status issue.attempts s.retries again) s)
          | inr given_up ↦ rw given_up (mark_done-IsSound issue r.status d s)
        ])
  ]

  on_exception-IsSound :
      (now : ℕ) (issue : WorkerIssue) (e : Exc) (d : Daemon)
      → IsSound d
      → IsSound (on_exception iso now issue e d)
  unfolding on_exception retry notify
  on_exception-IsSound now issue e d s =
      elim (Bool-cases (ltb_ℤ (pos issue.attempts) d.config.max_retries)) [
        | inl room ↦ rw room (
            IsSound-moved (retry iso now issue d) _ refl refl refl (
              retry-IsSound now issue d
                (room_left issue.attempts d.config.max_retries s.retries room) s))
        | inr spent ↦ rw spent (IsSound-moved d _ refl refl refl s)
      ]

  settle-IsSound :
      (now : ℕ) (issue : WorkerIssue) (o : Outcome Result) (d : Daemon)
      → IsSound d
      → IsSound (settle iso now issue o d)
  unfolding settle
  settle-IsSound now issue (returned r) d s = on_result-IsSound now issue r d s
  settle-IsSound now issue (raised e) d s = on_exception-IsSound now issue e d s

  pub execute-IsSound :
      (run : Runner iso) (issue : WorkerIssue) (d : Daemon)
      → IsSound d
      → IsSound (execute_queued_issue iso run issue d).0
  unfolding execute_queued_issue begin_issue end_issue
  execute-IsSound run issue d s =
      IsSound-moved (settle iso run.now issue (run.execute issue) (begin_issue issue d)) _ refl refl
        refl
        (settle-IsSound run.now issue (run.execute issue) (begin_issue issue d)
          (IsSound-moved d (begin_issue issue d) refl refl refl s))

  IsSound-queue :
      (d : Daemon) (q : Queue)
      → IsSound d
      → IsSaved iso q
      → IsUnique q.items
      → IsBounded limit q.items
      → IsSound (with_queue q d)
  IsSound-queue d q s saved unique bounded = record {
    retries = s.retries;
    saved = saved;
    unique = unique;
    bounded = bounded;
    history = s.history;
  }

  pop_front-IsBounded :
      (q : Queue) (l : List WorkerIssue)
      → IsBounded limit q.items
      → IsBounded limit l
      → IsBounded limit (pop_front iso q l).0.items
  unfolding pop_front save
  pop_front-IsBounded q [] h hl = h
  pop_front-IsBounded q (issue ∷ rest) h hl = hl.1

  drain_next-IsSound :
      (run : Runner iso) (d : Daemon) (r : Queue × Option WorkerIssue)
      → IsSound d
      → IsSound (with_queue r.0 d)
      → IsSound (drain_next iso run d r).0
  unfolding drain_next
  drain_next-IsSound run d (q, none) s h = s
  drain_next-IsSound run d (q, some issue) s h = execute-IsSound run issue (with_queue q d) h

  pub drain_one-IsSound :
      (run : Runner iso) (d : Daemon) → IsSound d → IsSound (drain_one iso run d).0
  unfolding drain_one dequeue
  drain_one-IsSound run d s =
      let q = d.watcher.queue in
      drain_next-IsSound run d (dequeue iso q) s (
        IsSound-queue d (dequeue iso q).0 s
          (unfold after in after-IsSaved iso dequeue_call q s.saved)
          (unfold after in after-IsUnique iso dequeue_call q s.unique)
          (pop_front-IsBounded q q.items s.bounded s.bounded))
