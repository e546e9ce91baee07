-- ===== src/Worker/Watcher/Poll.antt =====
-- worker/watcher/github.py: what a poll adds to the queue, whether or not it raises.
use git_hub_engineering_work.Common.{
  String, ◌≡◌, refl, sym, ap, ◌∙◌, false, ◌||◌, inl, inr, List, [], ◌∷◌, ◌++◌, All, All-append,
  arith, Bool-cases,
}
use mathlib.Core.List.{append-nil, append_assoc}
use git_hub_engineering_work.Common.Outcome.{Outcome, returned, raised, Outcome-cases}
use git_hub_engineering_work.Worker.Models.{WorkerRepository, WorkerIssue, key}
use git_hub_engineering_work.Worker.Queue.{has_key, save, enqueue}
use git_hub_engineering_work.Worker.Queue.Persist.{Iso}
use git_hub_engineering_work.Worker.Queue.Durable.{IsSaved, save-IsSaved}
use git_hub_engineering_work.Worker.Queue.Unique.{IsUnique, IsUnique-snoc, has_key-append}
use git_hub_engineering_work.Worker.Processed
use git_hub_engineering_work.Worker.Processed.{Processed}
use git_hub_engineering_work.Worker.Watcher.{
  Watcher, Listed, Found, Listing, in_set, should_skip, passed_over, to_worker_issue, enqueue_found,
  visit, visit_all, poll_from, poll,
}

module _ (iso : Iso) where
  -- What a poll that began at `start` has done so far: the queue grew at its end by new issues, none
  -- of which was to be skipped at the start; the history and the issues in progress are as they
  -- were; keys that were apart are still apart, and a file that held the queue still does.
  pub record IsPolled (start : Watcher) (f : Found) : Type 0 where
    pub items : f.0.queue.items ≡ start.queue.items ++ f.1
    pub history : f.0.processed ≡ start.processed
    pub running : f.0.in_progress ≡ start.in_progress
    pub unseen : All (λ issue. should_skip start (key issue) ≡ false) f.1
    pub untried : All (λ issue. issue.attempts ≡ 0) f.1
    pub unique : IsUnique start.queue.items → IsUnique f.0.queue.items
    pub saved : IsSaved iso start.queue → IsSaved iso f.0.queue

  enqueue_found-new :
      (issue : WorkerIssue) (w : Watcher) (enqueued : List WorkerIssue)
      → has_key (key issue) w.queue.items ≡ false
      → enqueue_found iso issue (w, enqueued)
        ≡ (record w { queue = save iso (w.queue.items ++ issue ∷ []) }, enqueued ++ issue ∷ [])
  unfolding enqueue_found enqueue
  enqueue_found-new issue w enqueued new = rw new

  skipped-start :
      (start : Watcher) (f : Found) (k : String)
      → IsPolled start f
      → should_skip f.0 k ≡ false
      → (should_skip start k ≡ false) × (has_key k f.0.queue.items ≡ false)
  unfolding should_skip
  skipped-start start f k h free =
      let grown : has_key k f.0.queue.items ≡ (has_key k start.queue.items || has_key k f.1) =
        ap (has_key k) h.items ∙ has_key-append k start.queue.items f.1 in
      ground (arith, grown, ap (λ p. Processed.contains p k) h.history, ap (in_set k) h.running)

  IsPolled-found :
      (start : Watcher) (f : Found) (issue : WorkerIssue)
      → IsPolled start f
      → should_skip f.0 (key issue) ≡ false
      → issue.attempts ≡ 0
      → IsPolled start (enqueue_found iso issue f)
  unfolding save
  IsPolled-found start f issue h free first =
      let s = skipped-start start f (key issue) h free in
      rw (enqueue_found-new issue f.0 f.1 s.1) (record {
        items = ap (λ l. l ++ issue ∷ []) h.items ∙ append_assoc start.queue.items f.1 (issue ∷ []);
        history = h.history;
        running = h.running;
        unseen = All-append _ f.1 (issue ∷ []) h.unseen (s.0, tt);
        untried = All-append _ f.1 (issue ∷ []) h.untried (first, tt);
        unique = λ u. IsUnique-snoc f.0.queue.items issue s.1 (h.unique u);
        saved = λ _. save-IsSaved iso (f.0.queue.items ++ issue ∷ []);
      })

  visit-IsPolled :
      (start : Watcher) (repository : WorkerRepository) (listed : Listed) (f : Found)
      → IsPolled start f
      → IsPolled start (visit iso repository listed f)
  unfolding visit
  visit-IsPolled start repository listed f h = elim (Bool-cases (passed_over listed.0)) [
    | inl over ↦ rw over h
    | inr open_issue ↦
        rw open_issue
          (elim (Bool-cases (should_skip f.0 (key (to_worker_issue repository listed)))) [
            | inl skip ↦ rw skip h
            | inr free ↦ rw free (IsPolled-found start f _ h free (unfold to_worker_issue in refl))
          ])
  ]

  visit_all-IsPolled :
      (start : Watcher) (repository : WorkerRepository) (l : List Listed) (f : Found)
      → IsPolled start f
      → IsPolled start (visit_all iso repository l f)
  unfolding visit_all
  visit_all-IsPolled start repository [] f h = h
  visit_all-IsPolled start repository (listed ∷ l) f h =
      visit_all-IsPolled start repository l _ (visit-IsPolled start repository listed f h)

  -- How a poll ended: by an exception, or by returning what it enqueued.
  abbrev Ends : List WorkerIssue → Outcome (List WorkerIssue) → Type 0
  Ends enqueued (raised e) = Unit
  Ends enqueued (returned l) = l ≡ enqueued

  abbrev pub Polls : Watcher → Watcher × Outcome (List WorkerIssue) → Type 0
  Polls start r = (enqueued : List WorkerIssue) × IsPolled start (r.0, enqueued) × Ends enqueued r.1

  poll_from-Polls :
      (listing : Listing iso) (start : Watcher) (repositories : List WorkerRepository) (f : Found)
      → IsPolled start f
      → Polls start (poll_from iso listing repositories f)
  unfolding poll_from
  poll_from-Polls listing start [] f h = (f.1, h, refl)
  poll_from-Polls listing start (repository ∷ rest) f h =
      elim (Outcome-cases (listing repository)) [
        | inl (e, p) ↦ rw (p, poll_from) (f.1, h, tt)
        | inr (l, p) ↦
            rw (p, poll_from)
              (poll_from-Polls listing start rest _ (visit_all-IsPolled start repository l f h))
      ]

  -- A poll, also one that an exception ends, only adds issues at the end of the queue. Each was at
  -- its start neither processed nor in progress nor queued; a poll that returns returns exactly
  -- what it added; the history and the issues in progress stay; if no two queued issues had one key
  -- before, none have after; and a queue that was saved is saved.
  pub poll-Polls :
      (listing : Listing iso) (repositories : List WorkerRepository) (w : Watcher)
      → Polls w (poll iso listing repositories w)
  unfolding poll
  poll-Polls listing repositories w =
      poll_from-Polls listing w repositories (w, [])
        (record {
          items = sym (append-nil w.queue.items);
          history = refl;
          running = refl;
          unseen = tt;
          untried = tt;
          unique = λ u. u;
          saved = λ v. v;
        })
