-- ===== src/Worker/Daemon/Tick.antt =====
-- worker/daemon/daemon.py, `tick`: one round of the daemon's loop, with what the scheduler was asked before it.
use git_hub_engineering_work.Common.{ℕ, Bool, true, false, none, some, List, [], ◌∷◌}
use git_hub_engineering_work.Common.Outcome.{Exc, Outcome, returned, raised}
use git_hub_engineering_work.Worker.Models.{WorkerIssue, key}
use git_hub_engineering_work.Worker.Queue.Persist.{Iso}
use git_hub_engineering_work.Worker.Watcher
use git_hub_engineering_work.Worker.Watcher.{Watcher, Listing}
use git_hub_engineering_work.Worker.Daemon.Requests.{
  Python, Document, apply_request, scheduler_paused,
}
use git_hub_engineering_work.Worker.Daemon.{
  Daemon, Runner, issue_detected, worker_error, write_status, notify, count_queue, drain_one,
}

-- the notifications for the detected issues
unfoldable pub notify_detected : List WorkerIssue → Daemon → Daemon
unfolding notify
notify_detected [] d = d
notify_detected (issue ∷ rest) d = notify_detected rest (notify (issue_detected (key issue)) d)

-- the `except` and `finally` blocks of `tick`
unfoldable pub tick_failed : Exc → Daemon → Daemon × Outcome (Unit {0})
unfolding notify write_status
tick_failed e d = (
  write_status (
      notify (worker_error e.text)
        (record d { status = record d.status { last_error = some e.text } })),
  raised e,
)

-- the end of the `try` block, and the `finally` block
unfoldable pub tick_done : Daemon → Daemon × Outcome (Unit {0})
unfolding write_status
tick_done d =
    let counted = count_queue d in
    (
      write_status (record counted { status = record counted.status { last_error = none } }),
      returned tt,
    )

module _ (iso : Iso) where
  -- What a tick meets: the request file, the control file, the clock, GitHub's listing, and how the issue that is taken from the queue is executed.
  pub record Env : Type 0 where
    pub python : Python
    pub request : Document
    pub control : Document
    pub now : ℕ
    pub listing : Listing iso
    pub runner : Runner iso

  unfoldable pub drained : Daemon × Outcome (Unit {0}) → Daemon × Outcome (Unit {0})
  unfolding tick_failed tick_done
  drained (d, raised e) = tick_failed e d
  drained (d, returned _) = tick_done d

  unfoldable pub polled :
      Env → Daemon → Watcher × Outcome (List WorkerIssue) → Daemon × Outcome (Unit {0})
  unfolding drained tick_failed notify_detected drain_one
  polled env d (w, raised e) = tick_failed e (record d { watcher = w })
  polled env d (w, returned detected) =
      drained (drain_one iso env.runner (notify_detected detected (record d { watcher = w })))

  -- `self.status.last_poll_at = utc_now()`, and the `try` block
  unfoldable pub poll_and_drain : Env → Daemon → Daemon × Outcome (Unit {0})
  unfolding polled Watcher.poll
  poll_and_drain env d =
      let stamped = record d { status = record d.status { last_poll_at = some env.now } } in
      polled env stamped (Watcher.poll iso env.listing d.config.repositories d.watcher)

  -- once the request is applied: whether the scheduler is paused is known, or asking raised
  unfoldable pub asked : Env → Daemon → Outcome Bool → Daemon × Outcome (Unit {0})
  unfolding poll_and_drain write_status
  asked env d (raised e) = (d, raised e)
  asked env d (returned true) = (write_status (count_queue d), returned tt)
  asked env d (returned false) = poll_and_drain env d

  unfoldable pub applied : Env → Daemon × Outcome (Unit {0}) → Daemon × Outcome (Unit {0})
  unfolding asked scheduler_paused
  applied env (d, raised e) = (d, raised e)
  applied env (d, returned _) = asked env d (scheduler_paused env.python env.control)

  unfoldable pub tick : Env → Daemon → Daemon × Outcome (Unit {0})
  unfolding applied apply_request
  tick env d = applied env (apply_request env.python env.request d)
