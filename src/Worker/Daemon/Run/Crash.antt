-- ===== src/Worker/Daemon/Run/Crash.antt =====
-- worker/daemon/daemon.py: what a run comes to when executing an issue raises.
use git_hub_engineering_work.Common.{
  ℕ, String, ◌==◌, ◌≡◌, refl, ap, ◌∙◌, false, ◌||◌, Option, some, inl, inr, List, [], ◌∷◌,
  Bool-cases,
}
use git_hub_engineering_work.Common.Int.{ℤ}
use git_hub_engineering_work.Common.Outcome.{Exc, Outcome, returned, raised}
use git_hub_engineering_work.Worker.Models.{WorkerIssue}
use git_hub_engineering_work.Worker.Queue.{Queue, dequeue}
use git_hub_engineering_work.Worker.Queue.Persist.{Iso}
use git_hub_engineering_work.Worker.Watcher.{Watcher, poll}
use git_hub_engineering_work.Worker.Config.{WorkerConfiguration}
use git_hub_engineering_work.Worker.Scheduler.{
  LoopEnd, crashed, Turn, watch, run_scheduler, after_turn, after_once,
}
use git_hub_engineering_work.Worker.Daemon.{
  Daemon, Runner, write_status, notify, execute_queued_issue, drain_next, drain_one,
}
use git_hub_engineering_work.Worker.Daemon.Requests.{apply_request, scheduler_paused}
use git_hub_engineering_work.Worker.Daemon.Tick.{
  Env, notify_detected, tick_failed, drained, polled, poll_and_drain, asked, applied, tick,
}
use git_hub_engineering_work.Worker.Daemon.Run.{started, stopped, run}

notify_detected-watcher :
    (l : List WorkerIssue) (d : Daemon) → (notify_detected l d).watcher ≡ d.watcher
unfolding notify_detected notify
notify_detected-watcher [] d = refl
notify_detected-watcher (issue ∷ rest) d = notify_detected-watcher rest _

module _ (iso : Iso) where
  drain_next-raised :
      (runner : Runner iso) (d : Daemon) (r : Queue × Option WorkerIssue) (issue : WorkerIssue)
      (e : Exc)
      → r.1 ≡ some issue
      → runner.execute issue ≡ raised e
      → (drain_next iso runner d r).1 ≡ raised e
  unfolding drain_next execute_queued_issue
  drain_next-raised runner d r issue e taken boom = rw (taken, drain_next) (rw boom refl)

  drained-raised :
      (r : Daemon × Outcome (Unit {0})) (e : Exc)
      → r.1 ≡ raised e
      → ((drained iso r).1 ≡ raised e) × ((drained iso r).0.status.last_error ≡ some e.text)
  unfolding drained tick_failed notify write_status
  drained-raised (d, raised x) e h = (h, cc)
  drained-raised (d, returned u) e h = cc

  -- A tick in which executing the issue raises leaves the error in the status, and raises it.
  tick-execute_raised :
      (env : Env iso) (d ready : Daemon) (w : Watcher) (detected : List WorkerIssue)
      (issue : WorkerIssue) (e : Exc)
      → apply_request env.python env.request d ≡ (ready, returned tt)
      → scheduler_paused env.python env.control ≡ returned false
      → poll iso env.listing ready.config.repositories ready.watcher ≡ (w, returned detected)
      → (dequeue iso w.queue).1 ≡ some issue
      → env.runner.execute issue ≡ raised e
      → ((tick iso env d).1 ≡ raised e) × ((tick iso env d).0.status.last_error ≡ some e.text)
  unfolding tick applied asked poll_and_drain polled drain_one
  tick-execute_raised env d ready w detected issue e request live found taken boom =
      rw (request, live, found)
        (let d_1 = record ready {
          watcher = w;
          status = record ready.status { last_poll_at = some env.now };
        } in
          let d_2 = notify_detected detected d_1 in
          drained-raised (drain_next iso env.runner d_2 (dequeue iso d_2.watcher.queue)) e (
            drain_next-raised env.runner d_2 (dequeue iso d_2.watcher.queue) issue e
              (ap (λ x. (dequeue iso x.queue).1) (notify_detected-watcher detected d_1) ∙ taken)
              boom))

  module _ (int_of : String → Option ℤ) where
    after_turn-raised :
        (later : Daemon × LoopEnd) (d : Daemon) (o : Outcome (Unit {0})) (delay : Outcome ℕ)
        (e : Exc)
        → o ≡ raised e
        → after_turn later d o delay ≡ (d, crashed e)
    unfolding after_turn
    after_turn-raised later d o delay e h = rw (h, after_turn) refl

    after_once-raised :
        (d : Daemon) (o : Outcome (Unit {0})) (e : Exc)
        → o ≡ raised e
        → after_once d o ≡ (d, crashed e)
    unfolding after_once
    after_once-raised d o e h = rw (h, after_once) refl

    run_scheduler-raised :
        (config : WorkerConfiguration) (turn : Turn (Env iso)) (rest : List (Turn (Env iso)))
        (d : Daemon) (e : Exc)
        → turn.cancelled ≡ false
        → (tick iso turn.env d).1 ≡ raised e
        → run_scheduler int_of (tick iso) config (turn ∷ rest) d
          ≡ ((tick iso turn.env d).0, crashed e)
    unfolding run_scheduler watch
    run_scheduler-raised config turn rest d e on h =
        elim (Bool-cases (config.mode == "once" || config.mode == "manual")) [
          | inl once ↦ rw once (after_once-raised _ _ e h)
          | inr loop ↦ rw (loop, on) (after_turn-raised _ _ _ _ e h)
        ]

    -- Where a run's first turn is neither cancelled nor paused, its poll returns, and executing the issue
    -- that is taken from the queue raises, the run ends with that exception, in every mode, whatever turns
    -- would follow and whatever `continue_on_failure` says; the worker is no longer marked as running, its
    -- last error is the exception's text, and the status file says so.
    pub run-execute_raised :
        (mode : Option String) (turn : Turn (Env iso)) (rest : List (Turn (Env iso)))
        (d ready : Daemon) (w : Watcher) (detected : List WorkerIssue) (issue : WorkerIssue)
        (e : Exc)
        → turn.cancelled ≡ false
        → apply_request turn.env.python turn.env.request (started mode d) ≡ (ready, returned tt)
        → scheduler_paused turn.env.python turn.env.control ≡ returned false
        → poll iso turn.env.listing ready.config.repositories ready.watcher ≡ (w, returned detected)
        → (dequeue iso w.queue).1 ≡ some issue
        → turn.env.runner.execute issue ≡ raised e
        → ((run int_of iso mode (turn ∷ rest) d).1 ≡ crashed e)
          × ((run int_of iso mode (turn ∷ rest) d).0.status.running ≡ false)
          × ((run int_of iso mode (turn ∷ rest) d).0.status.last_error ≡ some e.text)
          × ((run int_of iso mode (turn ∷ rest) d).0.written
              ≡ some (run int_of iso mode (turn ∷ rest) d).0.status)
    unfolding run stopped write_status
    run-execute_raised mode turn rest d ready w detected issue e on request live found taken boom =
        let t =
          tick-execute_raised turn.env (started mode d) ready w detected issue e request live found
            taken boom in
        let c = (started mode d).config in
        rw (run_scheduler-raised c turn rest (started mode d) e on t.0) (refl, refl, t.1, refl)
