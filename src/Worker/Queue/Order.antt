-- ===== src/Worker/Queue/Order.antt =====
-- worker/queue/persistent.py: the order in which issues leave the queue.
use git_hub_engineering_work.Common.{
  ℕ, zero, suc, String, ◌==◌, ◌≡◌, refl, sym, ◌≤◌, ◌⊎◌, ◌∙◌, ◌+◌, ap, true, false, none, some, inl,
  inr, List, [], ◌∷◌, ◌++◌, arith, length, Bool-cases, Option-cases,
}
use mathlib.Core.List.{Perm, append-nil, append_assoc, perm_middle}
use mathlib.Core.List.Perm
use git_hub_engineering_work.Worker.Models.{WorkerIssue, key}
use git_hub_engineering_work.Worker.Queue.Persist.{Iso}
use git_hub_engineering_work.Worker.Queue.Unique.{
  IsUnique, Popped, pop_key-Popped, pop_key-none, has_key-append, IsUnique-remove,
}
use git_hub_engineering_work.Worker.Queue.{
  Queue, has_key, contains, pop_key, retried, save, enqueue, retry_enqueue, dequeue, pop_front,
  take_found, put_found, dequeue_issue, move_to_front, fresh, peek,
}

pub key-retried : (now : ℕ) (issue : WorkerIssue) → key (retried now issue) ≡ key issue
unfolding key retried
key-retried now issue = refl

module _ (iso : Iso) where
  -- Enqueue each issue in turn.
  unfoldable pub enqueue_all : List WorkerIssue → Queue → Queue
  enqueue_all [] q = q
  enqueue_all (issue ∷ rest) q = enqueue_all rest (enqueue iso issue q).0

  -- Dequeue up to `n` times, and collect what comes out.
  unfoldable pub drain : ℕ → Queue → List WorkerIssue
  drain zero q = []
  drain (suc n) q =
      let (q', o) = dequeue iso q in elim o [ none ↦ [] | some issue ↦ issue ∷ drain n q' ]

  pub enqueue-new :
      (issue : WorkerIssue) (q : Queue)
      → has_key (key issue) q.items ≡ false
      → enqueue iso issue q ≡ (save iso (q.items ++ issue ∷ []), true)
  unfolding enqueue
  enqueue-new issue q new = rw new

  enqueue-old :
      (issue : WorkerIssue) (q : Queue)
      → has_key (key issue) q.items ≡ true
      → enqueue iso issue q ≡ (q, false)
  unfolding enqueue
  enqueue-old issue q old = rw old

  -- `enqueue` says whether the key was new. A new issue goes behind all others, and an issue whose
  -- key is queued changes neither the items nor the file.
  pub enqueue_lem :
      (issue : WorkerIssue) (q : Queue)
      → (enqueue iso issue q ≡ (q, false)) × (contains q (key issue) ≡ true)
        ⊎ ((enqueue iso issue q).0.items ≡ q.items ++ issue ∷ [])
          × ((enqueue iso issue q).1 ≡ true)
          × (contains q (key issue) ≡ false)
  unfolding contains save
  enqueue_lem issue q = elim (Bool-cases (has_key (key issue) q.items)) [
    | inl old ↦ inl (enqueue-old issue q old, old)
    | inr new ↦ inr (
      ap (λ r. r.0.items) (enqueue-new issue q new),
      ap (λ r. r.1) (enqueue-new issue q new),
      new,
    )
  ]

  items-enqueue_all :
      (l : List WorkerIssue) (q : Queue)
      → IsUnique (q.items ++ l)
      → (enqueue_all l q).items ≡ q.items ++ l
  unfolding enqueue_all save
  items-enqueue_all [] q h = sym (append-nil q.items)
  items-enqueue_all (issue ∷ l) q h =
      let r = IsUnique-remove q.items l issue h in
      let new : has_key (key issue) q.items ≡ false =
        ground (arith, r.1, has_key-append (key issue) q.items l) in
      ap (λ r. (enqueue_all l r.0).items) (enqueue-new issue q new)
      ∙ items-enqueue_all l (save iso (q.items ++ issue ∷ []))
          (rw (append_assoc q.items (issue ∷ []) l) h)
      ∙ append_assoc q.items (issue ∷ []) l

  drain-eq-items :
      (n : ℕ) (q : Queue) (l : List WorkerIssue) → q.items ≡ l → length l ≤ n → drain n q ≡ l
  unfolding drain dequeue save pop_front
  drain-eq-items zero q [] e h = refl
  drain-eq-items zero q (x ∷ l) e h = absurd (omega arith)
  drain-eq-items (suc n) q [] e h = rw (e, dequeue, pop_front)
  drain-eq-items (suc n) q (x ∷ l) e h =
      rw (e, dequeue, pop_front)
        (ap (λ r. x ∷ r) (drain-eq-items n (save iso l) l refl (omega arith)))

  -- First in, first out: issues with different keys that are enqueued on a fresh queue come out in
  -- the order in which they went in, and nothing else comes out.
  pub drain-enqueue_all :
      (l : List WorkerIssue) (n : ℕ) → IsUnique l → length l ≤ n → drain n (enqueue_all l fresh) ≡ l
  drain-enqueue_all l n u h =
      drain-eq-items n (enqueue_all l fresh) l (items-enqueue_all l fresh u) h

  -- `dequeue_issue` either finds the key nowhere and changes nothing, or takes out the first issue
  -- with the key and leaves the issues before and behind it in their order.
  pub dequeue_issue_lem :
      (k : String) (q : Queue)
      → (dequeue_issue iso k q ≡ (q, none)) × (contains q k ≡ false)
        ⊎ ((issue : WorkerIssue) × ((dequeue_issue iso k q).1 ≡ some issue)
            × Popped k q.items issue (dequeue_issue iso k q).0.items)
  unfolding dequeue_issue contains take_found save
  dequeue_issue_lem k q = elim (Option-cases (pop_key k q.items)) [
    | inl absent ↦ inl (rw absent, pop_key-none k q.items absent)
    | inr (found, e) ↦ inr (found.0, rw e, rw e (pop_key-Popped k q.items e))
  ]

  -- Moving an issue to the front and dequeuing is dequeuing that issue: the same issue comes out,
  -- and the same items are left.
  pub dequeue-move_to_front :
      (k : String) (q : Queue)
      → contains q k ≡ true
      → dequeue iso (move_to_front iso k q).0 ≡ dequeue_issue iso k q
  unfolding dequeue move_to_front dequeue_issue contains
  dequeue-move_to_front k q h = elim (Option-cases (pop_key k q.items)) [
    | inl absent ↦ cc (pop_key-none k q.items absent)
    | inr (found, e) ↦ rw e
  ]

  -- `move_to_front` puts the issue that it finds at the head, and the queue still holds the same
  -- issues, each as often as before.
  pub move_to_front_lem :
      (k : String) (q : Queue)
      → contains q k ≡ true
      → ((issue : WorkerIssue) × ((move_to_front iso k q).1 ≡ some issue)
          × (peek (move_to_front iso k q).0 ≡ some issue)
          × ((key issue == k) ≡ true)
          × Perm (move_to_front iso k q).0.items q.items)
  unfolding move_to_front put_found save peek contains
  move_to_front_lem k q h = elim (Option-cases (pop_key k q.items)) [
    | inl absent ↦ absurd (ground (arith, pop_key-none k q.items absent))
    | inr (found, e) ↦
        let p = pop_key-Popped k q.items e in
        (
          found.0,
          rw e,
          rw e,
          p.matches,
          rw e (rw (p.joined, p.split) (Perm.symm (perm_middle p.before p.behind))),
        )
  ]

  retry-pop_front :
      (q : Queue) (l : List WorkerIssue) (now : ℕ) (issue : WorkerIssue)
      → IsUnique l
      → (pop_front iso q l).1 ≡ some issue
      → retry_enqueue iso now issue (pop_front iso q l).0
        ≡ (save iso ((pop_front iso q l).0.items ++ retried now issue ∷ []), true)
  unfolding pop_front retry_enqueue save
  retry-pop_front q [] now issue u e = cc
  retry-pop_front q (x ∷ rest) now issue u e =
      let same : x ≡ issue = cc in
      enqueue-new (retried now issue) (save iso rest) (rw (key-retried now issue, ← same) u.0)

  -- What `dequeue` takes out can always be put back by `retry_enqueue`, whatever the time: it goes
  -- to the back of the queue with one attempt more and its key unchanged.
  pub retry_enqueue-dequeue :
      (q : Queue) (now : ℕ) (issue : WorkerIssue)
      → IsUnique q.items
      → (dequeue iso q).1 ≡ some issue
      → ((retry_enqueue iso now issue (dequeue iso q).0).1 ≡ true)
        × ((retry_enqueue iso now issue (dequeue iso q).0).0.items
            ≡ (dequeue iso q).0.items ++ retried now issue ∷ [])
        × (key (retried now issue) ≡ key issue)
        × ((retried now issue).attempts ≡ issue.attempts + 1)
  unfolding dequeue retried save
  retry_enqueue-dequeue q now issue u e =
      let put = retry-pop_front q q.items now issue u e in
      (ap (λ r. r.1) put, ap (λ r. r.0.items) put, key-retried now issue, refl)
