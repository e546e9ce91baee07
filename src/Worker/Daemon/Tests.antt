-- ===== src/Worker/Daemon/Tests.antt =====
-- Runs of the daemon at concrete inputs.
use git_hub_engineering_work.Common.{String, ◌≡◌, refl, false, Option, none, some, List, [], ◌∷◌}
use git_hub_engineering_work.Common.Int.{ℤ}
use git_hub_engineering_work.Common.Outcome.{raised, returned, Exc}
use git_hub_engineering_work.Worker.Models.{key}
use git_hub_engineering_work.Worker.Samples.{
  unary, repository, github_issue, python, daemon, environment, turns, raising, issue_of, clock,
  listing,
}
use git_hub_engineering_work.Worker.Queue.Durable.{fresh-IsSaved}
use git_hub_engineering_work.Worker.Processed.Durable
use git_hub_engineering_work.Worker.Watcher.{
  Watcher, to_worker_issue, poll, should_skip, visit, visit_all,
}
use git_hub_engineering_work.Worker.Scheduler.{
  run_scheduler, watch, after_turn, next_delay, Turn, finished, crashed,
}
use git_hub_engineering_work.Worker.Daemon.{execute_queued_issue}
use git_hub_engineering_work.Worker.Daemon.Tick.{Env, tick}
use git_hub_engineering_work.Worker.Daemon.Steady.{IsSteady, tick-IsSteady}
use git_hub_engineering_work.Worker.Daemon.Failure.{Meets, fate, is_kept, execute-Meets}
use git_hub_engineering_work.Worker.Daemon.Run.{run, started, run-IsSteady}
use git_hub_engineering_work.Worker.Daemon.Run.Crash.{run-execute_raised}
use git_hub_engineering_work.Worker.Daemon.Requests.{
  apply_request, scheduler_paused, requested, requested_interval, as_object,
}
use git_hub_engineering_work.Common.Json.{obj, field, num, end, get}
use git_hub_engineering_work.Worker.Queue.{dequeue, enqueue}
use git_hub_engineering_work.Worker.Models.{WorkerIssue}

daemon-IsSteady : IsSteady unary 2 daemon
daemon-IsSteady = record {
  sound = record {
    retries = refl;
    saved = fresh-IsSaved unary;
    unique = tt;
    bounded = tt;
    history = Durable.fresh-IsSaved;
  };
  idle = refl;
  free = refl;
}

tick-IsSteady_example : IsSteady unary 2 (tick unary environment daemon).0
tick-IsSteady_example = tick-IsSteady unary 2 environment daemon daemon-IsSteady

abbrev no_number : String → Option ℤ
no_number s = none

run-IsSteady_example : IsSteady unary 2 (run no_number unary none turns daemon).0
run-IsSteady_example = run-IsSteady no_number unary 2 none turns daemon daemon-IsSteady

all_turns : (run no_number unary none turns daemon).1 ≡ finished
unfolding run run_scheduler watch after_turn next_delay started tick visit_all visit
all_turns = refl

abbrev boom : Exc
boom = record { class_name = "RuntimeError"; text = "boom" }

abbrev bad_turn : Turn (Env unary)
bad_turn = record {
  cancelled = false;
  env = record {
    python = python;
    request = none;
    control = none;
    now = 8;
    listing = listing;
    runner = raising;
  };
  clock = clock;
}

abbrev polled_watcher : Watcher
polled_watcher = (poll unary listing daemon.config.repositories daemon.watcher).0

abbrev all_detected : List WorkerIssue
all_detected = elim (poll unary listing daemon.config.repositories daemon.watcher).1 [
  | returned l ↦ l
  | raised e ↦ []
]

polls :
    poll unary listing daemon.config.repositories daemon.watcher
    ≡ (polled_watcher, returned all_detected)
unfolding poll visit_all visit
polls = refl

-- what the poll of the listing puts into the queue
abbrev first_issue : WorkerIssue
first_issue = to_worker_issue repository (github_issue, 5)

takes : (dequeue unary polled_watcher.queue).1 ≡ some first_issue
unfolding poll visit_all visit dequeue enqueue
takes = refl

applies : apply_request python none (started none daemon) ≡ (started none daemon, returned tt)
unfolding apply_request
applies = refl

is_live : scheduler_paused python none ≡ returned false
unfolding scheduler_paused
is_live = refl

run-execute_raised_example :
    ((run no_number unary none (bad_turn ∷ []) daemon).1 ≡ crashed boom)
    × ((run no_number unary none (bad_turn ∷ []) daemon).0.status.running ≡ false)
    × ((run no_number unary none (bad_turn ∷ []) daemon).0.status.last_error ≡ some "boom")
    × ((run no_number unary none (bad_turn ∷ []) daemon).0.written
        ≡ some (run no_number unary none (bad_turn ∷ []) daemon).0.status)
run-execute_raised_example =
    run-execute_raised unary no_number none bad_turn [] daemon (started none daemon) polled_watcher
      all_detected first_issue boom refl applies is_live (unfold started in polls) takes refl

-- A request for an interval beyond the range of `timedelta` makes the tick raise.
too_long_request :
    (apply_request python
      (some (returned (obj (field "poll_interval_seconds" (num 86_400_000_000_000) end))))
      daemon).1
    ≡ raised (record { class_name = "OverflowError"; text = "days" })
unfolding apply_request requested as_object requested_interval get
too_long_request = refl

not_skipped : should_skip daemon.watcher (key (issue_of 1)) ≡ false
unfolding should_skip
not_skipped = refl

execute-Meets_example :
    Meets
      (fate daemon.config.max_retries 0 (raising.execute (issue_of 1)))
      9
      (issue_of 1)
      daemon.watcher
      (execute_queued_issue unary raising (issue_of 1) daemon).0.watcher
    × (should_skip
          (execute_queued_issue unary raising (issue_of 1) daemon).0.watcher
          (key (issue_of 1))
        ≡ is_kept (fate daemon.config.max_retries 0 (raising.execute (issue_of 1))))
execute-Meets_example = execute-Meets unary raising (issue_of 1) daemon not_skipped refl
