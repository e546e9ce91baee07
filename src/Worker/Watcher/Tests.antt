-- ===== src/Worker/Watcher/Tests.antt =====
-- Runs of the watcher at concrete inputs.
use git_hub_engineering_work.Common.{◌≡◌, refl, [], ◌∷◌}
use git_hub_engineering_work.Common.Outcome.{returned}
use git_hub_engineering_work.Worker.Models.{WorkerRepository}
use git_hub_engineering_work.Worker.Samples.{unary, watcher, listing, repository, github_issue}
use git_hub_engineering_work.Worker.Queue.{enqueue}
use git_hub_engineering_work.Worker.Watcher.{poll, visit, visit_all, to_worker_issue}
use git_hub_engineering_work.Worker.Watcher.Poll.{Polls, poll-Polls}
use git_hub_engineering_work.Worker.Watcher.Again.{listed_issues, poll_twice}

poll-Polls_example : Polls unary watcher (poll unary listing (repository ∷ []) watcher)
poll-Polls_example = poll-Polls unary listing (repository ∷ []) watcher

one_found :
    (poll unary listing (repository ∷ []) watcher).1
    ≡ returned (to_worker_issue repository (github_issue, 5) ∷ [])
unfolding poll visit_all visit enqueue
one_found = refl

same_listing : (r : WorkerRepository) → listed_issues (listing r) ≡ listed_issues (listing r)
same_listing r = refl

poll_twice_example :
    poll unary listing (repository ∷ []) (poll unary listing (repository ∷ []) watcher).0
    ≡ ((poll unary listing (repository ∷ []) watcher).0, returned [])
poll_twice_example =
    poll_twice unary listing listing same_listing (repository ∷ []) watcher
      (to_worker_issue repository (github_issue, 5) ∷ []) one_found
