-- ===== src/Worker/Daemon.antt =====
-- worker/daemon/daemon.py: the daemon that polls, takes one issue from the queue at a time, and has
-- it executed. The execution of an issue (`PipelineController.execute`) is a parameter: it returns a
-- result or raises. What the daemon sends and logs is kept as lists, newest last.
pub mod Requests
pub mod Tick
pub mod Sound
pub mod Steady
pub mod Failure
pub mod Run
mod Tests
use git_hub_engineering_work.Common.{
  ℕ, ◌+◌, String, ◌==◌, Bool, false, not, ◌||◌, Option, none, some, List, [], ◌∷◌, ◌++◌,
  if◌then◌else◌,
}
use git_hub_engineering_work.Common.Int.{pos, ltb_ℤ}
use git_hub_engineering_work.Common.Outcome.{Exc, Outcome, returned, raised}
use git_hub_engineering_work.Worker.Models.{WorkerIssue, key}
use git_hub_engineering_work.Worker.Queue
use git_hub_engineering_work.Worker.Queue.{Queue}
use git_hub_engineering_work.Worker.Queue.Persist.{Iso}
use git_hub_engineering_work.Worker.Processed
use git_hub_engineering_work.Worker.Watcher
use git_hub_engineering_work.Worker.Watcher.{Watcher}
use git_hub_engineering_work.Worker.Config.{WorkerConfiguration}

-- `WorkerStatus`; `started_at` never changes and is left out
pub record Status : Type 0 where
  pub running : Bool
  pub current_issue : Option String
  pub processed_count : ℕ
  pub queued_count : ℕ
  pub last_poll_at : Option ℕ
  pub last_error : Option String

-- The notifications that the daemon sends, with what tells them apart.
pub data Note : Type 0 where
  issue_detected : String → Note
  retry_started : String → ℕ → Note
  retry_failed : String → Note
  worker_error : String → Note

-- `_audit(issue, action="issue_failed", …)`: the issue, its attempts and the error
pub record AuditEntry : Type 0 where
  pub issue : String
  pub retry_count : ℕ
  pub error : String

pub record Daemon : Type 0 where
  pub config : WorkerConfiguration
  pub watcher : Watcher
  pub status : Status
  -- the document in the status file
  pub written : Option Status
  pub notes : List Note
  pub audit : List AuditEntry

-- What `_execute_issue` returns.
pub record Result : Type 0 where
  pub succeeded : Bool
  pub status : String

unfoldable pub write_status : Daemon → Daemon
write_status d = record d { written = some d.status }

unfoldable pub notify : Note → Daemon → Daemon
notify n d = record d { notes = d.notes ++ n ∷ [] }

abbrev pub with_queue : Queue → Daemon → Daemon
with_queue q d = record d { watcher = record d.watcher { queue = q } }

-- `len(self.queue)` into the status
abbrev pub count_queue : Daemon → Daemon
count_queue d = record d { status = record d.status { queued_count = Queue.size d.watcher.queue } }

-- `_should_retry_issue`
unfoldable pub should_retry_issue : WorkerConfiguration → String → ℕ → Bool
should_retry_issue config status attempts =
    if not (ltb_ℤ (pos attempts) config.max_retries)
    then false
    else not (status == "retry_or_escalate" || status == "escalated")

unfoldable pub mark_done : WorkerIssue → String → Daemon → Daemon
unfolding Processed.mark_processed
mark_done issue status d = record d {
  watcher = record d.watcher {
    processed = Processed.mark_processed (key issue) status d.watcher.processed;
  };
}

-- `self.status.current_issue = …; self.watcher.mark_in_progress(…); self._write_status()`
unfoldable pub begin_issue : WorkerIssue → Daemon → Daemon
unfolding write_status Watcher.mark_in_progress
begin_issue issue d = write_status (record d {
  status = record d.status { current_issue = some (key issue) };
  watcher = Watcher.mark_in_progress (key issue) d.watcher;
})

-- the `finally` block
unfoldable pub end_issue : WorkerIssue → Daemon → Daemon
unfolding Watcher.clear_in_progress
end_issue issue d = record d {
  status = record d.status { current_issue = none };
  watcher = Watcher.clear_in_progress (key issue) d.watcher;
}

module _ (iso : Iso) where
  -- `self.queue.retry_enqueue(issue)` and the notification; `now` is the clock's reading
  unfoldable pub retry : ℕ → WorkerIssue → Daemon → Daemon
  unfolding Queue.retry_enqueue notify
  retry now issue d =
      notify (retry_started (key issue) (issue.attempts + 1))
        (with_queue (Queue.retry_enqueue iso now issue d.watcher.queue).0 d)

  -- the `try` block once `_execute_issue` has returned
  unfoldable pub on_result : ℕ → WorkerIssue → Result → Daemon → Daemon
  unfolding should_retry_issue mark_done retry
  on_result now issue result d =
      if result.succeeded
      then (let m = mark_done issue result.status d in
          record m { status = record m.status { processed_count = m.status.processed_count + 1 } })
      else if should_retry_issue d.config result.status issue.attempts
      then retry now issue d
      else mark_done issue result.status d

  -- The `except` block. Both branches of its test of `continue_on_failure` raise again.
  unfoldable pub on_exception : ℕ → WorkerIssue → Exc → Daemon → Daemon
  unfolding retry notify
  on_exception now issue e d =
      let logged = record d {
        audit =
            d.audit
            ++ record { issue = key issue; retry_count = issue.attempts; error = e.text } ∷ [];
      } in
      if ltb_ℤ (pos issue.attempts) d.config.max_retries
      then retry now issue logged
      else notify (retry_failed (key issue)) logged

  settle : ℕ → WorkerIssue → Outcome Result → Daemon → Daemon
  unfolding on_result on_exception
  settle now issue (returned result) d = on_result now issue result d
  settle now issue (raised e) d = on_exception now issue e d

  -- How an issue is executed, and the clock when it has been.
  pub record Runner : Type 0 where
    pub execute : WorkerIssue → Outcome Result
    pub now : ℕ

  -- `_execute_queued_issue`
  unfoldable pub execute_queued_issue : Runner → WorkerIssue → Daemon → Daemon × Outcome Result
  unfolding settle begin_issue end_issue
  execute_queued_issue run issue d = (
    end_issue issue (settle run.now issue (run.execute issue) (begin_issue issue d)),
    run.execute issue,
  )

  abbrev ignore_result : Outcome Result → Outcome (Unit {0})
  ignore_result (returned r) = returned tt
  ignore_result (raised e) = raised e

  drain_next : Runner → Daemon → Queue × Option WorkerIssue → Daemon × Outcome (Unit {0})
  unfolding execute_queued_issue
  drain_next run d (q, none) = (d, returned tt)
  drain_next run d (q, some issue) =
      let (after, outcome) = execute_queued_issue run issue (with_queue q d) in
      (after, ignore_result outcome)

  -- `_drain_one`
  unfoldable pub drain_one : Runner → Daemon → Daemon × Outcome (Unit {0})
  unfolding drain_next Queue.dequeue
  drain_one run d = drain_next run d (Queue.dequeue iso d.watcher.queue)

  -- `dispatch_issue_now`
  dispatch_next : Runner → String → Daemon → Queue × Option WorkerIssue → Daemon × Outcome Result
  unfolding execute_queued_issue
  dispatch_next run k d (q, none) =
      (d, raised (record { class_name = "ValueError"; text = "issue is not queued" }))
  dispatch_next run k d (q, some issue) = execute_queued_issue run issue (with_queue q d)

  unfoldable pub dispatch_issue_now : Runner → String → Daemon → Daemon × Outcome Result
  unfolding dispatch_next Queue.dequeue_issue
  dispatch_issue_now run k d = dispatch_next run k d (Queue.dequeue_issue iso k d.watcher.queue)

  -- `enqueue_issue`
  unfoldable pub enqueue_issue : WorkerIssue → Daemon → Daemon × Bool
  unfolding Queue.enqueue write_status
  enqueue_issue issue d =
      let (q, added) = Queue.enqueue iso issue d.watcher.queue in
      (write_status (count_queue (with_queue q d)), added)
