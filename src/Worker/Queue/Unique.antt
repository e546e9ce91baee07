-- ===== src/Worker/Queue/Unique.antt =====
-- worker/queue/persistent.py: the queue never holds two issues with one key.
use git_hub_engineering_work.Common.{
  String, ◌==◌, ◌≡◌, refl, true, false, Option, none, some, inl, inr, List, [], ◌∷◌, ◌++◌, ◌||◌,
  arith, eq_iff, Bool-cases, Option-cases,
}
use git_hub_engineering_work.Worker.Models.{WorkerIssue, key}
use git_hub_engineering_work.Worker.Queue.Persist.{Iso}
use git_hub_engineering_work.Worker.Queue.{
  Queue, Call, enqueue_call, retry_call, dequeue_call, dequeue_issue_call, clear_call, move_call,
  has_key, pop_key, take_found, put_found, enqueue, retry_enqueue, dequeue, pop_front,
  dequeue_issue, clear, move_to_front, fresh, after, after_all,
}

-- No item has the key of a later one.
abbrev pub IsUnique : List WorkerIssue → Type 0
IsUnique [] = Unit
IsUnique (issue ∷ rest) = (has_key (key issue) rest ≡ false) × IsUnique rest

pub has_key-snoc :
    (k : String) (l : List WorkerIssue) (issue : WorkerIssue)
    → has_key k (l ++ issue ∷ []) ≡ (has_key k l || (key issue == k))
has_key-snoc k [] issue = ground arith
has_key-snoc k (x ∷ l) issue = ground (arith, has_key-snoc k l issue)

pub IsUnique-snoc :
    (l : List WorkerIssue) (issue : WorkerIssue)
    → has_key (key issue) l ≡ false
    → IsUnique l
    → IsUnique (l ++ issue ∷ [])
IsUnique-snoc [] issue new h = (refl, tt)
IsUnique-snoc (x ∷ l) issue new h = (
  ground
      (arith, has_key-snoc (key x) l issue, eq_iff (key x) (key issue), eq_iff (key issue) (key x)),
  IsUnique-snoc l issue (ground arith) h.1,
)

-- What `pop_key` finds: the first item with the key, the items around it left as they were.
pub record Popped (k : String) (l : List WorkerIssue) (found : WorkerIssue)
    (others : List WorkerIssue) : Type 0 where
  pub before : List WorkerIssue
  pub behind : List WorkerIssue
  pub split : l ≡ before ++ found ∷ behind
  pub joined : others ≡ before ++ behind
  pub matches : (key found == k) ≡ true
  pub none_before : has_key k before ≡ false

pub pop_key-Popped :
    (k : String) (l : List WorkerIssue) {found : WorkerIssue} {others : List WorkerIssue}
    → pop_key k l ≡ some (found, others)
    → Popped k l found others
unfolding pop_key
pop_key-Popped k [] e = cc
pop_key-Popped k (x ∷ l) {found} {others} e = elim (Bool-cases (key x == k)) [
  | inl here ↦ record {
    before = [];
    behind = l;
    split = ground arith;
    joined = ground arith;
    matches = ground arith;
    none_before = refl;
  }
  | inr other ↦ elim (Option-cases (pop_key k l)) [
    | inl absent ↦ absurd (ground arith)
    | inr ((f, o), p) ↦
        let ih = pop_key-Popped k l p in
        record {
          before = x ∷ ih.before;
          behind = ih.behind;
          split = ground (arith, ih.split);
          joined = ground (arith, ih.joined);
          matches = ground (arith, ih.matches);
          none_before = ground (arith, ih.none_before);
        }
  ]
]

pub pop_key-none : (k : String) (l : List WorkerIssue) → pop_key k l ≡ none → has_key k l ≡ false
unfolding pop_key
pop_key-none k [] e = refl
pop_key-none k (x ∷ l) e = elim (Option-cases (pop_key k l)) [
  | inl absent ↦ ground (arith, pop_key-none k l absent)
  | inr (found, p) ↦ absurd (ground arith)
]

pub has_key-append :
    (k : String) (xs ys : List WorkerIssue) → has_key k (xs ++ ys) ≡ (has_key k xs || has_key k ys)
has_key-append k [] ys = refl
has_key-append k (x ∷ xs) ys = ground (arith, has_key-append k xs ys)

-- Taking one item out keeps the others apart, and no other has its key.
pub IsUnique-remove :
    (xs ys : List WorkerIssue) (x : WorkerIssue)
    → IsUnique (xs ++ x ∷ ys)
    → IsUnique (xs ++ ys) × (has_key (key x) (xs ++ ys) ≡ false)
IsUnique-remove [] ys x h = (h.1, h.0)
IsUnique-remove (w ∷ xs) ys x h =
    let ih = IsUnique-remove xs ys x h.1 in
    (
      (ground (arith, h.0, has_key-append (key w) xs ys, has_key-append (key w) xs (x ∷ ys)), ih.0),
      ground (
        arith,
        h.0,
        ih.1,
        has_key-append (key w) xs (x ∷ ys),
        eq_iff (key w) (key x),
        eq_iff (key x) (key w),
      ),
    )

module _ (iso : Iso) where
  enqueue-IsUnique :
      (issue : WorkerIssue) (q : Queue) → IsUnique q.items → IsUnique (enqueue iso issue q).0.items
  unfolding enqueue
  enqueue-IsUnique issue q h = elim (Bool-cases (has_key (key issue) q.items)) [
    | inl old ↦ rw old h
    | inr new ↦ rw new (IsUnique-snoc q.items issue new h)
  ]

  pop_front-IsUnique :
      (q : Queue) (l : List WorkerIssue)
      → IsUnique q.items
      → IsUnique l
      → IsUnique (pop_front iso q l).0.items
  unfolding pop_front
  pop_front-IsUnique q [] hq h = hq
  pop_front-IsUnique q (issue ∷ rest) hq h = h.1

  take_found-IsUnique :
      (k : String) (q : Queue) (o : Option (WorkerIssue × List WorkerIssue))
      → pop_key k q.items ≡ o
      → IsUnique q.items
      → IsUnique (take_found iso q o).0.items
  unfolding take_found
  take_found-IsUnique k q none e h = h
  take_found-IsUnique k q (some (found, others)) e h =
      let p = pop_key-Popped k q.items e in
      rw p.joined (IsUnique-remove p.before p.behind found (rw p.split at h)).0

  put_found-IsUnique :
      (k : String) (q : Queue) (o : Option (WorkerIssue × List WorkerIssue))
      → pop_key k q.items ≡ o
      → IsUnique q.items
      → IsUnique (put_found iso q o).0.items
  unfolding put_found
  put_found-IsUnique k q none e h = h
  put_found-IsUnique k q (some (found, others)) e h =
      let p = pop_key-Popped k q.items e in
      let r = IsUnique-remove p.before p.behind found (rw p.split at h) in rw p.joined (r.1, r.0)

  -- Every method of the queue keeps the keys of its items apart.
  pub after-IsUnique : (c : Call) (q : Queue) → IsUnique q.items → IsUnique (after iso c q).items
  unfolding after retry_enqueue dequeue dequeue_issue clear move_to_front
  after-IsUnique (enqueue_call issue) q h = enqueue-IsUnique issue q h
  after-IsUnique (retry_call now issue) q h = enqueue-IsUnique _ q h
  after-IsUnique dequeue_call q h = pop_front-IsUnique q q.items h h
  after-IsUnique (dequeue_issue_call k) q h = take_found-IsUnique k q _ refl h
  after-IsUnique clear_call q h = tt
  after-IsUnique (move_call k) q h = put_found-IsUnique k q _ refl h

  after_all-IsUnique :
      (cs : List Call) (q : Queue) → IsUnique q.items → IsUnique (after_all iso cs q).items
  unfolding after_all
  after_all-IsUnique [] q h = h
  after_all-IsUnique (c ∷ cs) q h = after_all-IsUnique cs (after iso c q) (after-IsUnique c q h)

  -- After any calls on a fresh queue no two of its items have the same key.
  pub reachable-IsUnique : (cs : List Call) → IsUnique (after_all iso cs fresh).items
  reachable-IsUnique cs = after_all-IsUnique cs fresh tt
