-- ===== src/Worker/Watcher/Again.antt =====
-- worker/watcher/github.py: polling again while GitHub lists the same issues.
use git_hub_engineering_work.Common.{
  String, ◌≡◌, refl, sym, ap, ◌∙◌, true, ◌||◌, inl, inr, List, [], ◌∷◌, All, map, arith, eq_refl,
  Bool-cases,
}
use git_hub_engineering_work.Common.Outcome.{Outcome, returned, raised, Exc, Outcome-cases}
use git_hub_engineering_work.Worker.Models.{WorkerRepository, WorkerIssue, key}
use git_hub_engineering_work.Worker.Queue.{save, enqueue}
use git_hub_engineering_work.Worker.Queue.Persist.{Iso}
use git_hub_engineering_work.Worker.Queue.Unique.{has_key-append}
use git_hub_engineering_work.Worker.Watcher.{
  GitHubIssue, Watcher, Listed, Found, Listing, should_skip, passed_over, to_worker_issue,
  enqueue_found, visit, visit_all, poll_from, poll,
}

-- The watcher would do nothing about the issue: it is passed over, or its key is to be skipped.
-- The time at which the issue is looked at plays no part.
abbrev IsSettled : Watcher → WorkerRepository → GitHubIssue → Type 0
IsSettled w repository issue =
    (passed_over issue || should_skip w (key (to_worker_issue repository (issue, 0)))) ≡ true

key_timeless :
    (repository : WorkerRepository) (listed : Listed)
    → key (to_worker_issue repository listed) ≡ key (to_worker_issue repository (listed.0, 0))
unfolding key to_worker_issue
key_timeless repository listed = refl

abbrev issues_of : List Listed → List GitHubIssue
issues_of = map (λ listed. listed.0)

-- The listed issues, without the times.
abbrev pub listed_issues : Outcome (List Listed) → Outcome (List GitHubIssue)
listed_issues (raised e) = raised e
listed_issues (returned l) = returned (issues_of l)

module _ (iso : Iso) (repository : WorkerRepository) where
  visit-settled :
      (listed : Listed) (f : Found)
      → IsSettled f.0 repository listed.0
      → visit iso repository listed f ≡ f
  unfolding visit
  visit-settled listed f h = ground (arith, key_timeless repository listed)

  found-skip :
      (k : String) (issue : WorkerIssue) (f : Found)
      → should_skip f.0 k ≡ true
      → should_skip (enqueue_found iso issue f).0 k ≡ true
  unfolding enqueue_found enqueue save should_skip
  found-skip k issue f h = ground (arith, has_key-append k f.0.queue.items (issue ∷ []))

  -- What is to be skipped stays so.
  visit-skip :
      (listed : Listed) (k : String) (f : Found)
      → should_skip f.0 k ≡ true
      → should_skip (visit iso repository listed f).0 k ≡ true
  unfolding visit
  visit-skip listed k f h = ground (arith, found-skip k (to_worker_issue repository listed) f)

  found-settles :
      (issue : WorkerIssue) (f : Found)
      → should_skip (enqueue_found iso issue f).0 (key issue) ≡ true
  unfolding enqueue_found enqueue save should_skip
  found-settles issue f =
      ground (arith, eq_refl (key issue), has_key-append (key issue) f.0.queue.items (issue ∷ []))

  visit-settles :
      (listed : Listed) (f : Found)
      → IsSettled (visit iso repository listed f).0 repository listed.0
  unfolding visit
  visit-settles listed f =
      ground
        (arith, key_timeless repository listed, found-settles (to_worker_issue repository listed) f)

  visit_all-skip :
      (l : List Listed) (k : String) (f : Found)
      → should_skip f.0 k ≡ true
      → should_skip (visit_all iso repository l f).0 k ≡ true
  unfolding visit_all
  visit_all-skip [] k f h = h
  visit_all-skip (listed ∷ l) k f h = visit_all-skip l k _ (visit-skip listed k f h)

  visit_all-settles :
      (l : List Listed) (f : Found)
      → All (IsSettled (visit_all iso repository l f).0 repository) (issues_of l)
  unfolding visit_all
  visit_all-settles [] f = tt
  visit_all-settles (listed ∷ l) f = (
    elim (Bool-cases (passed_over listed.0)) [
      | inl over ↦ rw over
      | inr open_issue ↦
          rw open_issue (visit_all-skip l _ _ (rw open_issue at (visit-settles listed f)))
    ],
    visit_all-settles l (visit iso repository listed f),
  )

  visit_all-settled :
      (l : List Listed) (f : Found)
      → All (IsSettled f.0 repository) (issues_of l)
      → visit_all iso repository l f ≡ f
  unfolding visit_all
  visit_all-settled [] f h = refl
  visit_all-settled (listed ∷ l) f h =
      ap (visit_all iso repository l) (visit-settled listed f h.0) ∙ visit_all-settled l f h.1

-- Everything that a listing names is settled.
abbrev IsSettledListing : Watcher → WorkerRepository → Outcome (List GitHubIssue) → Type 0
IsSettledListing w repository (raised e) = Unit
IsSettledListing w repository (returned l) = All (IsSettled w repository) l

module _ (iso : Iso) (listing : Listing iso) where
  poll_from-skip :
      (repositories : List WorkerRepository) (f : Found) (k : String)
      → should_skip f.0 k ≡ true
      → should_skip (poll_from iso listing repositories f).0 k ≡ true
  unfolding poll_from
  poll_from-skip [] f k h = h
  poll_from-skip (repository ∷ rest) f k h = elim (Outcome-cases (listing repository)) [
    | inl (e, p) ↦ rw (p, poll_from) h
    | inr (l, p) ↦
        rw (p, poll_from) (poll_from-skip rest _ k (visit_all-skip iso repository l k f h))
  ]

  poll_from-IsSettled :
      (repositories : List WorkerRepository) (f : Found) (repository : WorkerRepository)
      (l : List GitHubIssue)
      → All (IsSettled f.0 repository) l
      → All (IsSettled (poll_from iso listing repositories f).0 repository) l
  poll_from-IsSettled repositories f repository [] h = tt
  poll_from-IsSettled repositories f repository (issue ∷ l) h = (
    elim (Bool-cases (passed_over issue)) [
      | inl over ↦ rw over
      | inr open_issue ↦ rw open_issue (poll_from-skip repositories f _ (rw open_issue at h.0))
    ],
    poll_from-IsSettled repositories f repository l h.1,
  )

  poll_from-cons :
      (r : WorkerRepository) (rest : List WorkerRepository) (f : Found) (l : List Listed)
      → listing r ≡ returned l
      → poll_from iso listing (r ∷ rest) f ≡ poll_from iso listing rest (visit_all iso r l f)
  unfolding poll_from
  poll_from-cons r rest f l p = rw (p, poll_from)

  poll_from-raises :
      (r : WorkerRepository) (rest : List WorkerRepository) (f : Found) (e : Exc)
      → listing r ≡ raised e
      → (poll_from iso listing (r ∷ rest) f).1 ≡ raised e
  unfolding poll_from
  poll_from-raises r rest f e p = rw (p, poll_from)

  -- A poll that returns leaves everything that was listed settled.
  poll_from-settles :
      (repositories : List WorkerRepository) (f : Found) (enqueued : List WorkerIssue) (w : Watcher)
      → poll_from iso listing repositories f ≡ (w, returned enqueued)
      → All (λ r. IsSettledListing w r (listed_issues (listing r))) repositories
  poll_from-settles [] f enqueued w h = tt
  poll_from-settles (r ∷ rest) f enqueued w h = elim (Outcome-cases (listing r)) [
    | inl (e, p) ↦ cc (poll_from-raises r rest f e p)
    | inr (l, p) ↦
        let step = sym (poll_from-cons r rest f l p) ∙ h in
        (
          rw (p, ← ap (λ x. x.0) step)
              (poll_from-IsSettled rest (visit_all iso r l f) r (issues_of l)
                (visit_all-settles iso r l f)),
          poll_from-settles rest (visit_all iso r l f) enqueued w step,
        )
  ]

module _ (iso : Iso) (listing again : Listing iso)
    (same : (r : WorkerRepository) → listed_issues (again r) ≡ listed_issues (listing r)) where
  poll_from-settled :
      (repositories : List WorkerRepository) (f : Found) (l : List WorkerIssue) (w : Watcher)
      → poll_from iso listing repositories f ≡ (w, returned l)
      → (g : Found) → All (λ r. IsSettledListing g.0 r (listed_issues (listing r))) repositories
      → poll_from iso again repositories g ≡ (g.0, returned g.1)
  poll_from-settled [] f l w h g s = unfold poll_from in refl
  poll_from-settled (r ∷ rest) f l w h g s = elim (Outcome-cases (listing r)) [
    | inl (e, p) ↦ cc (poll_from-raises iso listing r rest f e p)
    | inr (found, p) ↦ elim (Outcome-cases (again r)) [
      | inl (e, q) ↦ cc (same r, ap listed_issues p, ap listed_issues q)
      | inr (l', q) ↦
          let alike : issues_of l' ≡ issues_of found =
            cc (same r, ap listed_issues p, ap listed_issues q) in
          let still : All (IsSettled g.0 r) (issues_of l') = rw alike (rw p at s.0) in
          poll_from-cons iso again r rest g l' q
          ∙ ap (poll_from iso again rest) (visit_all-settled iso r l' g still)
          ∙ poll_from-settled rest (visit_all iso r found f) l w
              (sym (poll_from-cons iso listing r rest f found p) ∙ h) g s.1
    ]
  ]

  -- Polling is idempotent: after a poll that returned, a second one that GitHub answers with the
  -- same issues, at whatever times, enqueues nothing, returns nothing and changes nothing.
  pub poll_twice :
      (repositories : List WorkerRepository) (w : Watcher) (enqueued : List WorkerIssue)
      → (poll iso listing repositories w).1 ≡ returned enqueued
      → poll iso again repositories (poll iso listing repositories w).0
        ≡ ((poll iso listing repositories w).0, returned [])
  unfolding poll
  poll_twice repositories w enqueued h =
      let r = poll_from iso listing repositories (w, []) in
      let whole : r ≡ (r.0, returned enqueued) = ap (λ o. (r.0, o)) h in
      poll_from-settled repositories (w, []) enqueued r.0 whole (r.0, [])
        (poll_from-settles iso listing repositories (w, []) enqueued r.0 whole)
