-- ===== src/Worker/Daemon/Steady.antt =====
-- worker/daemon/daemon.py: what holds of the daemon before and after every tick.
use git_hub_engineering_work.Common.{
  ℕ, String, ◌==◌, Bool, true, false, ◌≡◌, refl, ap, ◌∙◌, Option, none, some, inl, inr, List, [],
  ◌∷◌, All, All-append, arith, eq_refl, Bool-cases,
}
use git_hub_engineering_work.Common.Int.{ℤ, pos, ltb_ℤ}
use git_hub_engineering_work.Common.Json.{
  Value, null, boolean, num, str, arr, obj, other_number, get,
}
use git_hub_engineering_work.Common.Outcome.{Outcome, returned, raised, ◌>>=◌}
use git_hub_engineering_work.Worker.Config.{WorkerConfiguration}
use git_hub_engineering_work.Worker.Models.{WorkerIssue, key}
use git_hub_engineering_work.Worker.Queue.{Queue, dequeue}
use git_hub_engineering_work.Worker.Queue.Persist.{Iso}
use git_hub_engineering_work.Worker.Watcher
use git_hub_engineering_work.Worker.Watcher.{Watcher, mark_in_progress, clear_in_progress, poll}
use git_hub_engineering_work.Worker.Watcher.Poll.{IsPolled, poll-Polls}
use git_hub_engineering_work.Worker.Daemon.{
  Daemon, Result, Runner, should_retry_issue, write_status, notify, with_queue, mark_done,
  begin_issue, end_issue, retry, on_result, on_exception, settle, execute_queued_issue, drain_next,
  drain_one,
}
use git_hub_engineering_work.Worker.Daemon.Sound.{
  IsBounded, IsSound, IsSound-moved, drain_one-IsSound,
}
use git_hub_engineering_work.Worker.Daemon.Requests.{
  Python, Document, requested, requested_interval, with_config, apply_request, scheduler_paused,
}
use git_hub_engineering_work.Worker.Daemon.Tick.{
  Env, notify_detected, tick_failed, tick_done, drained, polled, poll_and_drain, asked, applied,
  tick,
}

module _ (iso : Iso) where
  settle-in_progress :
      (now : ℕ) (issue : WorkerIssue) (o : Outcome Result) (d : Daemon)
      → (settle iso now issue o d).watcher.in_progress ≡ d.watcher.in_progress
  unfolding settle on_result on_exception retry notify mark_done
  settle-in_progress now issue (returned r) d = elim (Bool-cases r.succeeded) [
    | inl done ↦ rw done refl
    | inr failed ↦
        rw failed (elim (Bool-cases (should_retry_issue d.config r.status issue.attempts)) [
          | inl again ↦ rw again refl
          | inr given_up ↦ rw given_up refl
        ])
  ]
  settle-in_progress now issue (raised e) d =
      elim (Bool-cases (ltb_ℤ (pos issue.attempts) d.config.max_retries)) [
        | inl room ↦ rw room refl
        | inr spent ↦ rw spent refl
      ]

  -- An issue is in progress only while it is executed.
  pub execute-idle :
      (run : Runner iso) (issue : WorkerIssue) (d : Daemon)
      → d.watcher.in_progress ≡ []
      → ((execute_queued_issue iso run issue d).0.watcher.in_progress ≡ [])
        × ((execute_queued_issue iso run issue d).0.status.current_issue ≡ none)
  unfolding execute_queued_issue begin_issue end_issue mark_in_progress clear_in_progress
  execute-idle run issue d idle = (
    rw (settle-in_progress run.now issue (run.execute issue) (begin_issue issue d), idle)
        (ground (arith, eq_refl (key issue))),
    refl,
  )

All-zero :
    (limit : ℕ) (l : List WorkerIssue) → All (λ issue. issue.attempts ≡ 0) l → IsBounded limit l
All-zero limit [] h = tt
All-zero limit (issue ∷ l) h = (omega (arith, h.0), All-zero limit l h.1)

module _ (iso : Iso) (limit : ℕ) where
  -- The daemon between two ticks: its data is sound, and no issue is being executed.
  pub record IsSteady (d : Daemon) : Type 0 where
    pub sound : IsSound iso limit d
    pub idle : d.watcher.in_progress ≡ []
    pub free : d.status.current_issue ≡ none

  pub IsSteady-moved :
      (d d' : Daemon)
      → d'.config.max_retries ≡ d.config.max_retries
      → d'.watcher ≡ d.watcher
      → d'.status.current_issue ≡ d.status.current_issue
      → IsSteady d
      → IsSteady d'
  IsSteady-moved d d' c w i s = record {
    sound = IsSound-moved iso limit d d' c (ap (λ x. x.queue) w) (ap (λ x. x.processed) w) s.sound;
    idle = ap (λ x. x.in_progress) w ∙ s.idle;
    free = i ∙ s.free;
  }

  -- A configuration that is made keeps the retry limit.
  KeepsRetries : WorkerConfiguration → Outcome WorkerConfiguration → Type 0
  KeepsRetries config (returned c) = c.max_retries ≡ config.max_retries
  KeepsRetries config (raised e) = Unit

  replaced-KeepsRetries :
      (config : WorkerConfiguration) (mode : String) (cron : Option String) (o : Outcome ℤ)
      → KeepsRetries config
          (o >>= λ t. returned (record config { mode = mode; poll_interval = t; cron = cron }))
  unfolding KeepsRetries
  replaced-KeepsRetries config mode cron (returned t) = refl
  replaced-KeepsRetries config mode cron (raised e) = tt

  requested-KeepsRetries :
      (py : Python) (v : Value) (config : WorkerConfiguration)
      → KeepsRetries config (requested py v config)
  unfolding requested KeepsRetries
  requested-KeepsRetries py (obj fs) config =
      replaced-KeepsRetries config _ _
        (requested_interval py config.poll_interval (get fs "poll_interval_seconds"))
  requested-KeepsRetries py (arr xs) config = tt
  requested-KeepsRetries py (str s) config = tt
  requested-KeepsRetries py (num n) config = tt
  requested-KeepsRetries py (other_number n) config = tt
  requested-KeepsRetries py (boolean b) config = tt
  requested-KeepsRetries py null config = tt

  with_config-IsSteady :
      (py : Python) (d : Daemon) (o : Outcome WorkerConfiguration)
      → KeepsRetries d.config o
      → IsSteady d
      → IsSteady (with_config py d o).0
  unfolding KeepsRetries
  with_config-IsSteady py d (raised e) h s = s
  with_config-IsSteady py d (returned c) h s = IsSteady-moved d _ h refl refl s

  apply_request-IsSteady :
      (py : Python) (r : Document) (d : Daemon) → IsSteady d → IsSteady (apply_request py r d).0
  unfolding apply_request
  apply_request-IsSteady py none d s = s
  apply_request-IsSteady py (some (raised e)) d s =
      elim (Bool-cases (e.class_name == "JSONDecodeError")) [
        | inl no_json ↦ rw no_json s
        | inr other ↦ rw other s
      ]
  apply_request-IsSteady py (some (returned v)) d s =
      with_config-IsSteady py d (requested py v d.config) (requested-KeepsRetries py v d.config) s

  notify_detected-IsSteady :
      (l : List WorkerIssue) (d : Daemon) → IsSteady d → IsSteady (notify_detected l d)
  unfolding notify_detected notify
  notify_detected-IsSteady [] d s = s
  notify_detected-IsSteady (issue ∷ l) d s =
      notify_detected-IsSteady l _ (IsSteady-moved d _ refl refl refl s)

  polled_watcher-IsSteady :
      (d : Daemon) (f : Watcher.Found)
      → IsPolled iso d.watcher f
      → IsSteady d
      → IsSteady (record d { watcher = f.0 })
  polled_watcher-IsSteady d f p s = record {
    sound = record {
      retries = s.sound.retries;
      saved = p.saved s.sound.saved;
      unique = p.unique s.sound.unique;
      bounded =
          rw p.items
            (All-append _ d.watcher.queue.items f.1 s.sound.bounded (All-zero limit f.1 p.untried));
      history = rw p.history s.sound.history;
    };
    idle = p.running ∙ s.idle;
    free = s.free;
  }

  drain_next-idle :
      (run : Runner iso) (d : Daemon) (r : Queue × Option WorkerIssue)
      → d.watcher.in_progress ≡ []
      → d.status.current_issue ≡ none
      → ((drain_next iso run d r).0.watcher.in_progress ≡ [])
        × ((drain_next iso run d r).0.status.current_issue ≡ none)
  unfolding drain_next
  drain_next-idle run d (q, none) idle free = (idle, free)
  drain_next-idle run d (q, some issue) idle free = execute-idle iso run issue (with_queue q d) idle

  pub drain_one-IsSteady :
      (run : Runner iso) (d : Daemon) → IsSteady d → IsSteady (drain_one iso run d).0
  unfolding drain_one
  drain_one-IsSteady run d s =
      let h = drain_next-idle run d (dequeue iso d.watcher.queue) s.idle s.free in
      record { sound = drain_one-IsSound iso limit run d s.sound; idle = h.0; free = h.1 }

  drained-IsSteady : (r : Daemon × Outcome (Unit {0})) → IsSteady r.0 → IsSteady (drained iso r).0
  unfolding drained tick_failed tick_done notify write_status
  drained-IsSteady (d, raised e) s = IsSteady-moved d _ refl refl refl s
  drained-IsSteady (d, returned u) s = IsSteady-moved d _ refl refl refl s

  polled-IsSteady :
      (env : Env iso) (d : Daemon) (r : Watcher × Outcome (List WorkerIssue))
      → IsSteady (record d { watcher = r.0 })
      → IsSteady (polled iso env d r).0
  unfolding polled tick_failed notify write_status
  polled-IsSteady env d (w, raised e) s =
      IsSteady-moved (record d { watcher = w }) _ refl refl refl s
  polled-IsSteady env d (w, returned l) s =
      drained-IsSteady _
        (drain_one-IsSteady env.runner _ (notify_detected-IsSteady l (record d { watcher = w }) s))

  poll_and_drain-IsSteady :
      (env : Env iso) (d : Daemon) → IsSteady d → IsSteady (poll_and_drain iso env d).0
  unfolding poll_and_drain
  poll_and_drain-IsSteady env d s =
      let p = poll-Polls iso env.listing d.config.repositories d.watcher in
      let stamped = record d { status = record d.status { last_poll_at = some env.now } } in
      polled-IsSteady env stamped (poll iso env.listing d.config.repositories d.watcher)
        (polled_watcher-IsSteady stamped _ p.1 (IsSteady-moved d stamped refl refl refl s))

  asked-IsSteady :
      (env : Env iso) (d : Daemon) (o : Outcome Bool) → IsSteady d → IsSteady (asked iso env d o).0
  unfolding asked write_status
  asked-IsSteady env d (raised e) s = s
  asked-IsSteady env d (returned true) s = IsSteady-moved d _ refl refl refl s
  asked-IsSteady env d (returned false) s = poll_and_drain-IsSteady env d s

  applied-IsSteady :
      (env : Env iso) (r : Daemon × Outcome (Unit {0}))
      → IsSteady r.0
      → IsSteady (applied iso env r).0
  unfolding applied
  applied-IsSteady env (d, raised e) s = s
  applied-IsSteady env (d, returned u) s =
      asked-IsSteady env d (scheduler_paused env.python env.control) s

  -- Every tick keeps the daemon steady, whether it returns or raises, is paused or not, and whatever
  -- GitHub, the executed issue, the clocks and the files with the scheduler's requests do: the queue and
  -- the history are on disk, where a restart finds them, no key is queued twice, no queued issue has more
  -- attempts than the retry limit, nothing is left in progress and no current issue is left in the status.
  pub tick-IsSteady : (env : Env iso) (d : Daemon) → IsSteady d → IsSteady (tick iso env d).0
  unfolding tick
  tick-IsSteady env d s = applied-IsSteady env _ (apply_request-IsSteady env.python env.request d s)
