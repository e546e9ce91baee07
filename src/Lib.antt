-- ===== src/Lib.antt =====
-- A model of the worker that this repository runs: it polls GitHub for issues, queues them, has an
-- agent work on each, commits and opens a pull request, and asks for help when it must. Beside it
-- stands the runtime that takes a workflow through its stages.
--
-- The parts and where they stand, with paths from the repository's root:
--
--   Worker/Queue       worker/queue/persistent.py, `PersistentIssueQueue`. The file is the tree that
--                      `json` reads back. Persist has the JSON of an issue, Durable what a restart finds,
--                      Unique that keys differ, Order what comes out when.
--   Worker/Processed   worker/watcher/github.py, `ProcessedIssueStore`. Durable has what a restart finds.
--   Worker/Watcher     worker/watcher/github.py, `GitHubIssueWatcher`; `poll_from` is the outer loop and
--                      `visit` the body of the inner one.
--   Worker/Config      worker/configuration/models.py.
--   Worker/Scheduler   worker/scheduler/scheduler.py; a `Turn` is one round of the loop, and the delay is
--                      computed in microseconds.
--   Worker/Daemon      worker/daemon/daemon.py; `tick` stands in Tick, the scheduler's requests in
--                      Requests, `run` in Run.
--   Worker/Loader      worker/configuration/loader.py; Repositories has the list of repositories, and
--                      Environment the parser of .env files in runtime/configuration/environment.py.
--   Worker/GitWorkflow worker/git_workflow.py over a record of services; Commands fills the record with
--                      the services of Github/.
--   Worker/Controller  worker/controller.py: stages, `_complete_git_workflow` (Git) and `execute`
--                      (Execution).
--   Github             github/repositories, github/branches, github/commits, github/pull_requests;
--                      Pushes tells which commands push. Workspaces is github/workspace/manager.py.
--   Engineering        engineering/pipeline.py (its parts in Services, the run in Pipeline, with
--                      `run_until_patch` in Pipeline/Agent and `create` in Pipeline/Parts),
--                      engineering/patch/applier.py and
--                      engineering/patch/validator.py (Patch), and the records of
--                      engineering/models/core.py (Models).
--   Tools              tools/base, tools/executor, tools/results and tools/metadata.py; Files has the
--                      helpers on paths.
--   Audit              audit/logger.py and audit/models.py.
--   Runtime            runtime/models, runtime/context, runtime/registry, runtime/sessions,
--                      runtime/events, runtime/lifecycle, runtime/dispatcher and runtime/orchestrator
--                      (Stages and Orchestrator). Settings is the parser of the configuration file in
--                      runtime/configuration/provider.py; its variables are in Resolve, the typed
--                      configuration in Provider, and `load` in Load.
--   Confidence         confidence/engine.py and confidence/models.py, over an interface of doubles.
--   Escalation         escalation/engine.py and escalation/models.py.
--   Common             what they share.
--
-- How they interact: the scheduler calls the daemon's `tick`, which applies a request, has the watcher
-- put new issues into the queue, and takes one issue out to have it executed. An execution is a
-- parameter of the daemon, which returns a result or raises, as `PipelineController.execute` does; the
-- controller runs the agent's attempts, the git workflow and the notifications as stages. An attempt
-- is a run of the engineering pipeline, which asks the agent, or a provider for a patch that the
-- validator accepts and the applier applies. Every call is one step, since the program runs them in
-- one thread.
--
-- Parameters, for code that is not in the repository: GitHub's answers, `git` itself, `str.format`,
-- ISO times, `json`, `pathlib` and the file system where a path is resolved, Python's `int` of a text,
-- `timedelta`, doubles, what agents and providers answer, and when a token is cancelled. Steps
-- that only gather evidence, write reports or send notifications are parameters that may raise.
--
-- Bounds: a scheduler's loop is read as the list of its turns; the attempts of the controller are
-- bounded by `rounds_of`, which is one more than the retries; the repair loops of the engineering
-- pipeline have the rounds of their `range`; the orchestrator's loop has the rounds
-- that `max_steps` of the code gives it.
--
-- Not modelled: what the engineering pipeline searches, its prompts and providers and the agent's
-- process (engineering/), agents/, single tools, browser/, discord/, health checks and the command
-- line, notifications and reports, the events that the runtime publishes, and the HTTP requests of the
-- GitHub client. Locks are left out. Texts are compared by code points.
pub mod Audit
pub mod Common
pub mod Confidence
pub mod Engineering
pub mod Escalation
pub mod Github
pub mod Runtime
pub mod Tools
pub mod Worker
