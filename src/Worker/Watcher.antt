-- ===== src/Worker/Watcher.antt =====
-- worker/watcher/github.py, `GitHubIssueWatcher`: what a poll of the repositories enqueues. The
-- listing of open issues is GitHub's: a parameter, which may raise. With each listed issue comes
-- the clock's reading at the moment when the worker issue is built.
pub mod Poll
pub mod Again
mod Tests
use git_hub_engineering_work.Common.{
  ℕ, String, ◌==◌, Bool, not, ◌||◌, Option, some, List, [], ◌∷◌, ◌++◌, any, keep, if◌then◌else◌,
}
use git_hub_engineering_work.Common.Text.{or_else, lower_is}
use git_hub_engineering_work.Common.Json.{num, str, end, field}
use git_hub_engineering_work.Common.Outcome.{Outcome, returned, raised}
use git_hub_engineering_work.Worker.Models.{WorkerRepository, WorkerIssue, full_name, key}
use git_hub_engineering_work.Worker.Queue
use git_hub_engineering_work.Worker.Queue.{Queue}
use git_hub_engineering_work.Worker.Queue.Persist.{Iso}
use git_hub_engineering_work.Worker.Processed
use git_hub_engineering_work.Worker.Processed.{Processed}

-- github/models.py, `GitHubIssue`: the fields that the watcher reads
pub record GitHubIssue : Type 0 where
  pub number : ℕ
  pub title : String
  pub state : String
  pub body : Option String
  pub html_url : String
  pub labels : List String
  pub comments : ℕ
  pub user_login : Option String
  pub pull_request : Bool

-- an issue of a listing, and the time when it is looked at
abbrev pub Listed : Type 0
Listed = GitHubIssue × ℕ

-- The watcher with the queue and the history that it shares with the daemon.
pub record Watcher : Type 0 where
  pub queue : Queue
  pub processed : Processed
  pub in_progress : List String

abbrev pub in_set : String → List String → Bool
in_set k = any (λ j. j == k)

unfoldable pub should_skip : Watcher → String → Bool
unfolding Processed.contains Queue.contains
should_skip w k =
    Processed.contains w.processed k || (in_set k w.in_progress || Queue.contains w.queue k)

unfoldable pub mark_in_progress : String → Watcher → Watcher
mark_in_progress k w = record w {
  in_progress = if in_set k w.in_progress then w.in_progress else k ∷ w.in_progress;
}

unfoldable pub clear_in_progress : String → Watcher → Watcher
clear_in_progress k w = record w { in_progress = keep (λ j. not (j == k)) w.in_progress }

-- `issue.state.lower() != "open" or issue.pull_request`
unfoldable pub passed_over : GitHubIssue → Bool
passed_over issue = not (lower_is issue.state "open") || issue.pull_request

unfoldable pub to_worker_issue : WorkerRepository → Listed → WorkerIssue
to_worker_issue repository (issue, now) = record {
  repository = full_name repository;
  number = issue.number;
  title = some issue.title;
  url = some issue.html_url;
  labels = issue.labels;
  attempts = 0;
  enqueued_at = now;
  metadata = field "body" (str (or_else issue.body "")) (
      field "comments" (num issue.comments)
        (field "author" (str (or_else issue.user_login "")) end));
}

abbrev pub Found : Type 0
Found = Watcher × List WorkerIssue

module _ (iso : Iso) where
  -- `if self.queue.enqueue(worker_issue): enqueued.append(worker_issue)`
  enqueue_found : WorkerIssue → Found → Found
  enqueue_found issue (w, enqueued) =
      let (q, added) = Queue.enqueue iso issue w.queue in
      (record w { queue = q }, if added then enqueued ++ issue ∷ [] else enqueued)

  -- the body of the inner loop of `poll`
  unfoldable pub visit : WorkerRepository → Listed → Found → Found
  unfolding enqueue_found passed_over should_skip
  visit repository listed (w, enqueued) =
      if passed_over listed.0
      then (w, enqueued)
      else let issue = to_worker_issue repository listed in
        if should_skip w (key issue) then (w, enqueued) else enqueue_found issue (w, enqueued)

  unfoldable pub visit_all : WorkerRepository → List Listed → Found → Found
  visit_all repository [] f = f
  visit_all repository (listed ∷ rest) f = visit_all repository rest (visit repository listed f)

  -- `list_open_issues(owner, name, limit=…)`
  abbrev pub Listing : Type 0
  Listing = WorkerRepository → Outcome (List Listed)

  -- The outer loop. An exception ends the poll; what was enqueued before it stays enqueued.
  unfoldable pub poll_from :
      Listing → List WorkerRepository → Found → Watcher × Outcome (List WorkerIssue)
  poll_from listing [] (w, enqueued) = (w, returned enqueued)
  poll_from listing (repository ∷ rest) (w, enqueued) = elim (listing repository) [
    | raised e ↦ (w, raised e)
    | returned issues ↦ poll_from listing rest (visit_all repository issues (w, enqueued))
  ]

  unfoldable pub poll :
      Listing → List WorkerRepository → Watcher → Watcher × Outcome (List WorkerIssue)
  unfolding poll_from
  poll listing repositories w = poll_from listing repositories (w, [])
