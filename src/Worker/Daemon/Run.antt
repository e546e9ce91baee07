-- ===== src/Worker/Daemon/Run.antt =====
-- worker/daemon/daemon.py, `run`: the scheduler's loop over `tick`.
pub mod Crash
use git_hub_engineering_work.Common.{
  ℕ, String, ◌==◌, ◌≡◌, ◌≢◌, refl, ◌∙◌, Bool, true, false, ◌||◌, Option, none, some, inl, inr, List,
  [], ◌∷◌, Bool-cases,
}
use git_hub_engineering_work.Common.Int.{ℤ}
use git_hub_engineering_work.Common.Outcome.{Exc, Outcome, returned, raised}
use git_hub_engineering_work.Worker.Queue.Persist.{Iso}
use git_hub_engineering_work.Worker.Config.{WorkerConfiguration}
use git_hub_engineering_work.Worker.Scheduler.{
  LoopEnd, finished, crashed, waiting, Turn, watch, run_scheduler, after_turn, after_once,
}
use git_hub_engineering_work.Worker.Daemon.{Daemon, write_status}
use git_hub_engineering_work.Worker.Daemon.Steady.{IsSteady, IsSteady-moved, tick-IsSteady}
use git_hub_engineering_work.Worker.Daemon.Tick.{Env, tick}

-- `self.config = replace(self.config, mode=mode)` where a mode is given
abbrev with_mode : Option String → WorkerConfiguration → WorkerConfiguration
with_mode none c = c
with_mode (some m) c = record c { mode = m }

abbrev set_running : Bool → Daemon → Daemon
set_running b d = record d { status = record d.status { running = b } }

-- what `run` does before the loop
unfoldable pub started : Option String → Daemon → Daemon
unfolding write_status
started mode d = write_status (set_running true (record d { config = with_mode mode d.config }))

-- the `finally` block, once the loop has ended
unfoldable pub stopped : Daemon × LoopEnd → Daemon × LoopEnd
unfolding write_status
stopped (d, waiting) = (d, waiting)
stopped (d, finished) = (write_status (set_running false d), finished)
stopped (d, crashed e) = (write_status (set_running false d), crashed e)

module _ (int_of : String → Option ℤ) (iso : Iso) where
  -- The scheduler is made from the configuration before the loop; `tick` changes the daemon's
  -- configuration, and not the scheduler's.
  unfoldable pub run : Option String → List (Turn (Env iso)) → Daemon → Daemon × LoopEnd
  unfolding started stopped run_scheduler
  run mode turns d =
      let ready = started mode d in
      stopped (run_scheduler int_of (tick iso) ready.config turns ready)

  module _ (limit : ℕ) where
    after_turn-IsSteady :
        (later : Daemon × LoopEnd) (d : Daemon) (o : Outcome (Unit {0})) (delay : Outcome ℕ)
        → IsSteady iso limit later.0
        → IsSteady iso limit d
        → IsSteady iso limit (after_turn later d o delay).0
    unfolding after_turn
    after_turn-IsSteady later d (raised e) delay l s = s
    after_turn-IsSteady later d (returned u) (raised e) l s = s
    after_turn-IsSteady later d (returned u) (returned t) l s = l

    after_once-IsSteady :
        (d : Daemon) (o : Outcome (Unit {0}))
        → IsSteady iso limit d
        → IsSteady iso limit (after_once d o).0
    unfolding after_once
    after_once-IsSteady d (raised e) s = s
    after_once-IsSteady d (returned u) s = s

    watch-IsSteady :
        (config : WorkerConfiguration) (turns : List (Turn (Env iso))) (d : Daemon)
        → IsSteady iso limit d
        → IsSteady iso limit (watch int_of (tick iso) config turns d).0
    unfolding watch
    watch-IsSteady config [] d s = s
    watch-IsSteady config (turn ∷ rest) d s =
        let next = tick-IsSteady iso limit turn.env d s in
        elim (Bool-cases turn.cancelled) [
          | inl over ↦ rw over s
          | inr on ↦ rw on (
              after_turn-IsSteady _ _ _ _ (watch-IsSteady config rest (tick iso turn.env d).0 next)
                next)
        ]

    run_scheduler-IsSteady :
        (config : WorkerConfiguration) (turns : List (Turn (Env iso))) (d : Daemon)
        → IsSteady iso limit d
        → IsSteady iso limit (run_scheduler int_of (tick iso) config turns d).0
    unfolding run_scheduler
    run_scheduler-IsSteady config [] d s = s
    run_scheduler-IsSteady config (turn ∷ rest) d s =
        elim (Bool-cases (config.mode == "once" || config.mode == "manual")) [
          | inl once ↦ rw once (after_once-IsSteady _ _ (tick-IsSteady iso limit turn.env d s))
          | inr loop ↦ rw loop (watch-IsSteady config (turn ∷ rest) d s)
        ]

    stopped-IsSteady :
        (r : Daemon × LoopEnd) → IsSteady iso limit r.0 → IsSteady iso limit (stopped r).0
    unfolding stopped
    stopped-IsSteady (d, waiting) s = s
    stopped-IsSteady (d, finished) s = IsSteady-moved iso limit d _ refl refl refl s
    stopped-IsSteady (d, crashed e) s = IsSteady-moved iso limit d _ refl refl refl s

    started-IsSteady :
        (mode : Option String) (d : Daemon)
        → IsSteady iso limit d
        → IsSteady iso limit (started mode d)
    unfolding started
    started-IsSteady none d s = IsSteady-moved iso limit d _ refl refl refl s
    started-IsSteady (some m) d s = IsSteady-moved iso limit d _ refl refl refl s

    -- However a run of a steady daemon goes, in whatever mode and over any turns of its loop, also where
    -- a turn raises, the daemon is steady: the queue and the history are on disk, where a restart finds
    -- them, no key is queued twice, no queued issue was tried more often than the limit, and nothing is
    -- in progress.
    pub run-IsSteady :
        (mode : Option String) (turns : List (Turn (Env iso))) (d : Daemon)
        → IsSteady iso limit d
        → IsSteady iso limit (run mode turns d).0
    unfolding run
    run-IsSteady mode turns d s = stopped-IsSteady _ (
        run_scheduler-IsSteady (started mode d).config turns (started mode d)
          (started-IsSteady mode d s))
