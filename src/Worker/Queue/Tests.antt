-- ===== src/Worker/Queue/Tests.antt =====
-- Runs of the queue at concrete inputs.
use git_hub_engineering_work.Common.{
  ◌+◌, ◌≡◌, ◌++◌, ◌==◌, refl, true, some, List, [], ◌∷◌, map, arith,
}
use git_hub_engineering_work.Common.Json.{ok}
use mathlib.Core.List.{Perm}
use git_hub_engineering_work.Worker.Models.{WorkerIssue, key}
use git_hub_engineering_work.Worker.Samples.{unary, issue_of, two_issues}
use git_hub_engineering_work.Worker.Queue.{
  Queue, Call, enqueue_call, retry_call, dequeue_call, move_call, after_all, load, fresh, save,
  contains, dequeue, move_to_front, peek, retry_enqueue, retried,
}
use git_hub_engineering_work.Worker.Queue.Persist.{reordered}
use git_hub_engineering_work.Worker.Queue.Durable.{load-after_all}
use git_hub_engineering_work.Worker.Queue.Unique.{IsUnique, reachable-IsUnique}
use git_hub_engineering_work.Worker.Queue.Order.{
  enqueue_all, drain, drain-enqueue_all, move_to_front_lem, retry_enqueue-dequeue,
}

abbrev calls : List Call
calls =
    enqueue_call (issue_of 1)
    ∷ enqueue_call (issue_of 2)
    ∷ enqueue_call (issue_of 1)
    ∷ dequeue_call
    ∷ retry_call 9 (issue_of 1)
    ∷ move_call "octo/demo#1"
    ∷ []

load-after_all_example :
    load unary 7 (after_all unary calls fresh).file
    ≡ ok (map reordered (after_all unary calls fresh).items)
load-after_all_example = load-after_all unary calls 7

reachable-IsUnique_example : IsUnique (after_all unary calls fresh).items
reachable-IsUnique_example = reachable-IsUnique unary calls

two_issues-IsUnique : IsUnique two_issues
unfolding key
two_issues-IsUnique = (refl, (refl, tt))

drain-enqueue_all_example : drain unary 2 (enqueue_all unary two_issues fresh) ≡ two_issues
drain-enqueue_all_example = drain-enqueue_all unary two_issues 2 two_issues-IsUnique (omega arith)

abbrev queue : Queue
queue = save unary two_issues

holds_two : contains queue "octo/demo#2" ≡ true
unfolding contains save key
holds_two = refl

move_to_front_lem_example :
    (issue : WorkerIssue) × ((move_to_front unary "octo/demo#2" queue).1 ≡ some issue)
    × (peek (move_to_front unary "octo/demo#2" queue).0 ≡ some issue)
    × ((key issue == "octo/demo#2") ≡ true)
    × Perm (move_to_front unary "octo/demo#2" queue).0.items queue.items
move_to_front_lem_example = move_to_front_lem unary "octo/demo#2" queue holds_two

saved-IsUnique : IsUnique queue.items
unfolding save
saved-IsUnique = two_issues-IsUnique

first_out : (dequeue unary queue).1 ≡ some (issue_of 1)
unfolding dequeue save
first_out = refl

retry_enqueue-dequeue_example :
    ((retry_enqueue unary 4 (issue_of 1) (dequeue unary queue).0).1 ≡ true)
    × ((retry_enqueue unary 4 (issue_of 1) (dequeue unary queue).0).0.items
        ≡ (dequeue unary queue).0.items ++ retried 4 (issue_of 1) ∷ [])
    × (key (retried 4 (issue_of 1)) ≡ key (issue_of 1))
    × ((retried 4 (issue_of 1)).attempts ≡ (issue_of 1).attempts + 1)
retry_enqueue-dequeue_example =
    retry_enqueue-dequeue unary queue 4 (issue_of 1) saved-IsUnique first_out
