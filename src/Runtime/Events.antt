-- ===== src/Runtime/Events.antt =====
-- runtime/events/bus.py: who gets an event. A set of identifiers for each event type is kept as the list
-- of its pairs; the order in which handlers are called is that of a set, and left open.
use git_hub_engineering_work.Common.{
  String, ◌==◌, eq_iff, ◌≡◌, refl, ap, ◌∙◌, Bool, true, false, not, ◌&&◌, ◌||◌, Option, none, some,
  inl, inr, List, [], ◌∷◌, if◌then◌else◌, Bool-cases, Option-cases, arith,
}
use git_hub_engineering_work.Common.Outcome.{Outcome, returned, raised}
use git_hub_engineering_work.Runtime.Registry.{find, is_found}
use git_hub_engineering_work.Runtime.Sessions.{runtime_exception}

pub record Bus {ℓ} (H : Type ℓ) : Type ℓ where
  pub subscriptions : List (String × (String × H))
  -- `_by_event_type`: an event type and an identifier
  pub by_event_type : List (String × String)

abbrev same_pair : String → String → String × String → Bool
same_pair t k (u, j) = u == t && j == k

abbrev has_pair : String → String → List (String × String) → Bool
has_pair t k [] = false
has_pair t k (p ∷ ps) = same_pair t k p || has_pair t k ps

abbrev drop_pair : String → String → List (String × String) → List (String × String)
drop_pair t k [] = []
drop_pair t k (p ∷ ps) = let rest = drop_pair t k ps in if same_pair t k p then rest else p ∷ rest

module _ {ℓ} {H : Type ℓ} where
  abbrev drop_key : String → List (String × (String × H)) → List (String × (String × H))
  drop_key k [] = []
  drop_key k ((j, v) ∷ rest) =
      let others = drop_key k rest in if j == k then others else (j, v) ∷ others

  -- `subscribe`; the identifier comes from `uuid4`
  unfoldable pub subscribe : String → H → String → Bus H → Bus H × Outcome String
  subscribe event_type handler k b =
      if event_type == "" then (b, raised (runtime_exception "event_type is required")) else (
        record {
          subscriptions = (k, (event_type, handler)) ∷ b.subscriptions;
          by_event_type = (event_type, k) ∷ b.by_event_type;
        },
        returned k,
      )

  unsubscribe_found : String → Bus H → Option (String × H) → Bus H × Bool
  unsubscribe_found k b none = (b, false)
  unsubscribe_found k b (some (t, h)) = (
    record {
      subscriptions = drop_key k b.subscriptions;
      by_event_type = drop_pair t k b.by_event_type;
    },
    true,
  )

  unfoldable pub unsubscribe : String → Bus H → Bus H × Bool
  unfolding unsubscribe_found
  unsubscribe k b = unsubscribe_found k b (find k b.subscriptions)

  -- `_handlers_for`: whether the subscription is among those that an event of the type reaches
  unfoldable pub is_reached : String → String → Bus H → Bool
  is_reached event_type k b =
      (has_pair event_type k b.by_event_type || has_pair "*" k b.by_event_type)
      && is_found (find k b.subscriptions)

  abbrev pub new_bus : Bus H
  new_bus = record { subscriptions = []; by_event_type = [] }

  -- whether a subscription is to the type
  abbrev pub is_for : String → Option (String × H) → Bool
  is_for t none = false
  is_for t (some (u, h)) = u == t

has_pair-drop_pair :
    (t k u j : String) (ps : List (String × String))
    → has_pair u j (drop_pair t k ps) ≡ (has_pair u j ps && not (u == t && j == k))
has_pair-drop_pair t k u j [] = refl
has_pair-drop_pair t k u j ((v, i) ∷ ps) = ground (
  arith,
  has_pair-drop_pair t k u j ps,
  eq_iff v t,
  eq_iff i k,
  eq_iff v u,
  eq_iff i j,
  eq_iff u t,
  eq_iff j k,
)

pub data BusCall {ℓ} (H : Type ℓ) : Type ℓ where
  subscribing : String → H → String → BusCall H
  unsubscribing : String → BusCall H

module _ {ℓ} {H : Type ℓ} where
  unfoldable pub after_bus_call : BusCall H → Bus H → Bus H
  unfolding subscribe unsubscribe
  after_bus_call (subscribing t h k) b = (subscribe t h k b).0
  after_bus_call (unsubscribing k) b = (unsubscribe k b).0

  unfoldable pub after_bus_calls : List (BusCall H) → Bus H → Bus H
  unfolding after_bus_call
  after_bus_calls [] b = b
  after_bus_calls (c ∷ cs) b = after_bus_calls cs (after_bus_call c b)

  -- The identifier of a subscription is not in use.
  abbrev pub IsFresh : BusCall H → Bus H → Type 0
  IsFresh (subscribing t h k) b = is_found (find k b.subscriptions) ≡ false
  IsFresh (unsubscribing k) b = Unit

  abbrev pub AreFresh : List (BusCall H) → Bus H → Type 0
  AreFresh [] b = Unit
  AreFresh (c ∷ cs) b = IsFresh c b × AreFresh cs (after_bus_call c b)

  -- The pairs are those of the subscriptions.
  IsPaired : Bus H → Type 0
  IsPaired b = (t k : String) → has_pair t k b.by_event_type ≡ is_for t (find k b.subscriptions)

  find-drop_key :
      (k j : String) (xs : List (String × (String × H)))
      → find j (drop_key k xs) ≡ (if j == k then none else find j xs)
  find-drop_key k j [] = ground arith
  find-drop_key k j ((i, v) ∷ xs) =
      ground (arith, find-drop_key k j xs, eq_iff i k, eq_iff i j, eq_iff j k)

  subscribe-IsPaired :
      (t : String) (h : H) (k : String) (b : Bus H)
      → is_found (find k b.subscriptions) ≡ false
      → IsPaired b
      → IsPaired (subscribe t h k b).0
  unfolding subscribe IsPaired
  subscribe-IsPaired t h k b new p u j = ground (arith, p u j, eq_iff k j)

  removed :
      (k : String) (b : Bus H) (u j t : String) (h : H)
      → (has_pair u j b.by_event_type ≡ is_for u (find j b.subscriptions))
      → find k b.subscriptions ≡ some (t, h)
      → (has_pair u j b.by_event_type && not (u == t && j == k))
        ≡ is_for u (find j (drop_key k b.subscriptions))
  removed k b u j t h p e =
      rw (p, find-drop_key k j b.subscriptions)
        (elim (Bool-cases (j == k)) [
          | inl met ↦
              rw (met, ap (λ i. find i b.subscriptions) ((eq_iff j k).0 met), e)
                (ground (arith, eq_iff t u, eq_iff u t))
          | inr unmet ↦ rw unmet (ground arith)
        ])

  unsubscribe-IsPaired : (k : String) (b : Bus H) → IsPaired b → IsPaired (unsubscribe k b).0
  unfolding unsubscribe IsPaired
  unsubscribe-IsPaired k b p u j = elim (Option-cases (find k b.subscriptions)) [
    | inl absent ↦ rw (absent, unsubscribe_found) (p u j)
    | inr ((t, h), e) ↦
        rw (e, unsubscribe_found)
          (has_pair-drop_pair t k u j b.by_event_type ∙ removed k b u j t h (p u j) e)
  ]

  call-IsPaired :
      (c : BusCall H) (b : Bus H) → IsFresh c b → IsPaired b → IsPaired (after_bus_call c b)
  unfolding after_bus_call
  call-IsPaired (subscribing t h k) b new p = subscribe-IsPaired t h k b new p
  call-IsPaired (unsubscribing k) b new p = unsubscribe-IsPaired k b p

  calls-IsPaired :
      (cs : List (BusCall H)) (b : Bus H)
      → AreFresh cs b
      → IsPaired b
      → IsPaired (after_bus_calls cs b)
  unfolding after_bus_calls
  calls-IsPaired [] b new p = p
  calls-IsPaired (c ∷ cs) b new p =
      calls-IsPaired cs (after_bus_call c b) new.1 (call-IsPaired c b new.0 p)

  reached_for :
      (u v : String) (o : Option (String × H))
      → ((is_for u o || is_for v o) && is_found o) ≡ (is_for u o || is_for v o)
  reached_for u v none = refl
  reached_for u v (some (t, h)) = ground arith

  -- After any subscriptions, each under an identifier not in use, and any unsubscriptions, an event
  -- reaches exactly the subscriptions that are still there and are to its type or to all types.
  pub is_reached-after_bus_calls :
      (cs : List (BusCall H)) (event_type k : String)
      → AreFresh cs new_bus
      → is_reached event_type k (after_bus_calls cs new_bus) ≡ (
          is_for event_type (find k (after_bus_calls cs new_bus).subscriptions)
          || is_for "*" (find k (after_bus_calls cs new_bus).subscriptions))
  unfolding is_reached IsPaired
  is_reached-after_bus_calls cs event_type k new =
      let p = calls-IsPaired cs new_bus new (λ t j. refl) in
      rw (p event_type k, p "*" k)
        (reached_for event_type "*" (find k (after_bus_calls cs new_bus).subscriptions))
