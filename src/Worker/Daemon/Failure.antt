-- ===== src/Worker/Daemon/Failure.antt =====
-- worker/daemon/daemon.py: what becomes of an issue that is executed.
use git_hub_engineering_work.Common.{
  ℕ, String, ◌==◌, ◌≡◌, refl, ap, ◌∙◌, Bool, true, false, not, ◌||◌, some, inl, inr, [], ◌∷◌, ◌++◌,
  arith, eq_refl, Bool-cases, if◌then◌else◌,
}
use git_hub_engineering_work.Common.Int.{ℤ, pos, ltb_ℤ}
use git_hub_engineering_work.Common.Json.{ok}
use git_hub_engineering_work.Common.Outcome.{Exc, Outcome, returned, raised}
use git_hub_engineering_work.Worker.Models.{WorkerIssue, key}
use git_hub_engineering_work.Worker.Queue.{has_key, retried, retry_enqueue, save}
use git_hub_engineering_work.Worker.Queue.Persist.{Iso}
use git_hub_engineering_work.Worker.Queue.Unique.{has_key-append}
use git_hub_engineering_work.Worker.Queue.Order.{enqueue-new, key-retried}
use git_hub_engineering_work.Worker.Processed.{contains, known, status_for}
use git_hub_engineering_work.Worker.Processed.Laws.{status_for-mark_processed}
use git_hub_engineering_work.Worker.Watcher.{Watcher, should_skip}
use git_hub_engineering_work.Worker.Daemon.{
  Daemon, Result, Runner, notify, should_retry_issue, mark_done, begin_issue, end_issue, retry,
  on_result, on_exception, settle, execute_queued_issue,
}
use git_hub_engineering_work.Worker.Daemon.Steady.{execute-idle}

-- What may become of an issue: the history gets it with a status, it goes back to the queue, or
-- nothing keeps it.
pub data Fate : Type 0 where
  recorded : String → Fate
  queued_again : Fate
  forgotten : Fate

-- A successful result is recorded, and so is one that must not be retried or that comes after the
-- last retry; an exception is retried, or after the last retry forgotten.
abbrev pub fate : ℤ → ℕ → Outcome Result → Fate
fate max_retries attempts (returned r) =
    if r.succeeded
      || not (ltb_ℤ (pos attempts) max_retries)
      || r.status == "retry_or_escalate"
      || r.status == "escalated"
    then recorded r.status
    else queued_again
fate max_retries attempts (raised e) =
    if ltb_ℤ (pos attempts) max_retries then queued_again else forgotten

-- Whether a poll would pass over the issue afterwards.
abbrev pub is_kept : Fate → Bool
is_kept (recorded status) = true
is_kept queued_again = true
is_kept forgotten = false

-- The queue and the history, before and after an issue met its fate.
abbrev pub Meets : Fate → ℕ → WorkerIssue → Watcher → Watcher → Type 0
Meets (recorded status) now issue w w' =
    (w'.queue ≡ w.queue)
    × (status_for (key issue) w'.processed ≡ some (ok status))
    × (known (key issue) w'.processed.entries ≡ true)
Meets queued_again now issue w w' =
    (w'.queue.items ≡ w.queue.items ++ retried now issue ∷ []) × (w'.processed ≡ w.processed)
Meets forgotten now issue w w' = (w'.queue ≡ w.queue) × (w'.processed ≡ w.processed)

mark_done-Meets :
    (now : ℕ) (issue : WorkerIssue) (status : String) (d : Daemon)
    → Meets (recorded status) now issue d.watcher (mark_done issue status d).watcher
unfolding mark_done contains
mark_done-Meets now issue status d =
    let m = status_for-mark_processed (key issue) (key issue) status d.watcher.processed in
    (refl, rw (eq_refl (key issue)) at m.0, ground (arith, m.1, eq_refl (key issue)))

Meets-skip :
    (f : Fate) (now : ℕ) (issue : WorkerIssue) (w w' : Watcher)
    → Meets f now issue w w'
    → should_skip w (key issue) ≡ false
    → w'.in_progress ≡ []
    → should_skip w' (key issue) ≡ is_kept f
unfolding should_skip
Meets-skip (recorded status) now issue w w' (q, s, k) free idle = rw k
Meets-skip queued_again now issue w w' (q, p) free idle = ground (
  arith,
  has_key-append (key issue) w.queue.items (retried now issue ∷ []),
  ap (has_key (key issue)) q,
  key-retried now issue,
  eq_refl (key issue),
)
Meets-skip forgotten now issue w w' (q, p) free idle =
    ground (arith, ap (λ x. has_key (key issue) x.items) q, ap (λ x. known (key issue) x.entries) p)

module _ (iso : Iso) where
  retry-Meets :
      (now : ℕ) (issue : WorkerIssue) (d : Daemon)
      → has_key (key issue) d.watcher.queue.items ≡ false
      → Meets queued_again now issue d.watcher (retry iso now issue d).watcher
  unfolding retry notify retry_enqueue save
  retry-Meets now issue d new = (
    ap (λ r. r.0.items)
        (enqueue-new iso (retried now issue) d.watcher.queue (rw (key-retried now issue) new)),
    refl,
  )

  on_result-Meets :
      (now : ℕ) (issue : WorkerIssue) (r : Result) (d : Daemon)
      → has_key (key issue) d.watcher.queue.items ≡ false
      → Meets
          (fate d.config.max_retries issue.attempts (returned r))
          now
          issue
          d.watcher
          (on_result iso now issue r d).watcher
  unfolding on_result should_retry_issue
  on_result-Meets now issue r d new = elim (Bool-cases r.succeeded) [
    | inl done ↦ rw done (mark_done-Meets now issue r.status d)
    | inr failed ↦ rw failed (elim (Bool-cases (ltb_ℤ (pos issue.attempts) d.config.max_retries)) [
      | inl room ↦
          rw room (elim (Bool-cases (r.status == "retry_or_escalate" || r.status == "escalated")) [
            | inl final ↦ rw final (mark_done-Meets now issue r.status d)
            | inr again ↦ rw again (retry-Meets now issue d new)
          ])
      | inr spent ↦ rw spent (mark_done-Meets now issue r.status d)
    ])
  ]

  on_exception-Meets :
      (now : ℕ) (issue : WorkerIssue) (e : Exc) (d : Daemon)
      → has_key (key issue) d.watcher.queue.items ≡ false
      → Meets
          (fate d.config.max_retries issue.attempts (raised e))
          now
          issue
          d.watcher
          (on_exception iso now issue e d).watcher
  unfolding on_exception retry notify
  on_exception-Meets now issue e d new =
      elim (Bool-cases (ltb_ℤ (pos issue.attempts) d.config.max_retries)) [
        | inl room ↦ rw room (retry-Meets now issue d new)
        | inr spent ↦ rw spent (refl, refl)
      ]

  settle-Meets :
      (now : ℕ) (issue : WorkerIssue) (o : Outcome Result) (d : Daemon)
      → has_key (key issue) d.watcher.queue.items ≡ false
      → Meets
          (fate d.config.max_retries issue.attempts o)
          now
          issue
          d.watcher
          (settle iso now issue o d).watcher
  unfolding settle
  settle-Meets now issue (returned r) d new = on_result-Meets now issue r d new
  settle-Meets now issue (raised e) d new = on_exception-Meets now issue e d new

  Meets-moved :
      (f : Fate) (now : ℕ) (issue : WorkerIssue) (v w v' w' : Watcher)
      → v.queue ≡ w.queue
      → v.processed ≡ w.processed
      → w'.queue ≡ v'.queue
      → w'.processed ≡ v'.processed
      → Meets f now issue v v'
      → Meets f now issue w w'
  Meets-moved (recorded status) now issue v w v' w' a b c d m = (c ∙ m.0 ∙ a, rw d m.1, rw d m.2)
  Meets-moved queued_again now issue v w v' w' a b c d m = (rw (c, ← a) m.0, d ∙ m.1 ∙ b)
  Meets-moved forgotten now issue v w v' w' a b c d m = (c ∙ m.0 ∙ a, d ∙ m.1 ∙ b)

  -- Executing an issue that was not to be skipped, with nothing in progress, gives it the fate that its outcome, its attempts
  -- and the retry limit determine: recorded with its status and the queue unchanged, or queued again
  -- at the back with one attempt more and the history unchanged, or forgotten with both unchanged.
  -- A later poll passes over it exactly if it was not forgotten. `continue_on_failure` has no part.
  pub execute-Meets :
      (run : Runner iso) (issue : WorkerIssue) (d : Daemon)
      → should_skip d.watcher (key issue) ≡ false
      → d.watcher.in_progress ≡ []
      → Meets
          (fate d.config.max_retries issue.attempts (run.execute issue))
          run.now
          issue
          d.watcher
          (execute_queued_issue iso run issue d).0.watcher
        × (should_skip (execute_queued_issue iso run issue d).0.watcher (key issue)
            ≡ is_kept (fate d.config.max_retries issue.attempts (run.execute issue)))
  execute-Meets run issue d free idle =
      let o = run.execute issue in
      let b = begin_issue issue d in
      let new : has_key (key issue) d.watcher.queue.items ≡ false =
        unfold should_skip in ground arith in
      let m = settle-Meets run.now issue o b (unfold begin_issue in new) in
      let meets : Meets (fate d.config.max_retries issue.attempts o) run.now issue d.watcher
          (execute_queued_issue iso run issue d).0.watcher =
        unfold execute_queued_issue begin_issue end_issue in
        Meets-moved (fate d.config.max_retries issue.attempts o) run.now issue b.watcher d.watcher
          (settle iso run.now issue o b).watcher _ refl refl refl refl m in
      (
        meets,
        Meets-skip _ run.now issue d.watcher _ meets free (execute-idle iso run issue d idle).0,
      )
