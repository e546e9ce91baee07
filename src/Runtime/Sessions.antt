-- ===== src/Runtime/Sessions.antt =====
-- runtime/sessions/manager.py
use git_hub_engineering_work.Common.{
  String, ◌<>◌, ◌==◌, eq_iff, eq_refl, ◌≡◌, ◌≢◌, refl, sym, ap, subst, ◌∙◌, Bool, true, false, inl,
  inr, Option, none, some, List, [], ◌∷◌, All, if◌then◌else◌, Bool-cases, arith,
}
use git_hub_engineering_work.Common.Outcome.{Exc, Outcome, returned, raised}
use git_hub_engineering_work.Runtime.Registry.{find, differs}
use git_hub_engineering_work.Runtime.Models.{ExecutionContext}

-- `closed_at is not None` in place of the time
pub record RuntimeSession : Type 0 where
  pub session_id : String
  pub context : ExecutionContext
  pub is_closed : Bool

-- `_sessions`; what is stored under an identifier hides what was stored before
abbrev pub Sessions : Type 0
Sessions = List (String × RuntimeSession)

abbrev pub runtime_exception : String → Exc
runtime_exception m = record { class_name = "RuntimeException"; text = m }

found_session : String → Option RuntimeSession → Outcome RuntimeSession
found_session k none = raised (runtime_exception ("Session not found: " <> k))
found_session k (some s) = returned s

-- `get`
unfoldable pub get_session : String → Sessions → Outcome RuntimeSession
unfolding found_session
get_session k sessions = found_session k (find k sessions)

-- `create_session`; the identifier is a fresh one
unfoldable pub create_session : String → ExecutionContext → Sessions → Sessions × RuntimeSession
create_session k c sessions =
    let s : RuntimeSession = record { session_id = k; context = c; is_closed = false } in
    ((k, s) ∷ sessions, s)

update_found :
    String
    → ExecutionContext
    → Sessions
    → Outcome RuntimeSession
    → Sessions × Outcome RuntimeSession
update_found k c sessions (raised e) = (sessions, raised e)
update_found k c sessions (returned s) =
    if s.is_closed
    then (sessions, raised (runtime_exception ("Session is closed: " <> k)))
    else ((k, record s { context = c }) ∷ sessions, returned (record s { context = c }))

unfoldable pub update_context :
    String → ExecutionContext → Sessions → Sessions × Outcome RuntimeSession
unfolding update_found get_session
update_context k c sessions = update_found k c sessions (get_session k sessions)

close_found : String → Sessions → Outcome RuntimeSession → Sessions × Outcome RuntimeSession
close_found k sessions (raised e) = (sessions, raised e)
close_found k sessions (returned s) =
    ((k, record s { is_closed = true }) ∷ sessions, returned (record s { is_closed = true }))

-- `close`
unfoldable pub close_session : String → Sessions → Sessions × Outcome RuntimeSession
unfolding close_found get_session
close_session k sessions = close_found k sessions (get_session k sessions)

-- A call of the manager.
pub data SessionCall : Type 0 where
  create : String → ExecutionContext → SessionCall
  update : String → ExecutionContext → SessionCall
  close : String → SessionCall

unfoldable pub after_session_call : SessionCall → Sessions → Sessions
unfolding create_session update_context close_session
after_session_call (create k c) sessions = (create_session k c sessions).0
after_session_call (update k c) sessions = (update_context k c sessions).0
after_session_call (close k) sessions = (close_session k sessions).0

unfoldable pub after_session_calls : List SessionCall → Sessions → Sessions
unfolding after_session_call
after_session_calls [] sessions = sessions
after_session_calls (c ∷ calls) sessions = after_session_calls calls (after_session_call c sessions)

-- `uuid4` gives a session of its own every identifier: no later session is created under `k`.
abbrev pub IsOther : String → SessionCall → Type 0
IsOther k (create j c) = j ≢ k
IsOther k (update j c) = Unit
IsOther k (close j) = Unit

found_session-some :
    (k : String) (o : Option RuntimeSession) (s : RuntimeSession)
    → found_session k o ≡ returned s
    → o ≡ some s
unfolding found_session
found_session-some k none s h = absurd (ground arith)
found_session-some k (some x) s h = ground arith

abbrev mark_closed : Bool → RuntimeSession → RuntimeSession
mark_closed b y = record y { is_closed = b }

some-injective : (x s : RuntimeSession) → some x ≡ some s → x ≡ s
some-injective x s h = ground arith

found-same :
    (j k : String) (sessions : Sessions) (x s : RuntimeSession)
    → (j == k) ≡ true
    → find j sessions ≡ some x
    → find k sessions ≡ some s
    → x ≡ s
found-same j k sessions x s met e h =
    some-injective x s (sym (subst (λ i. find i sessions ≡ some x) ((eq_iff j k).0 met) e) ∙ h)

module _ (k : String) (s : RuntimeSession) (closed : s.is_closed ≡ true) where
  open_closed {κ} : {A : Type κ} → false ≡ true → A
  open_closed h = absurd (ground arith)

  close-keeps :
      (x : Option RuntimeSession) (j : String) (sessions : Sessions)
      → find j sessions ≡ x
      → find k sessions ≡ some s
      → find k (close_found j sessions (found_session j x)).0 ≡ some s
  unfolding close_found found_session
  close-keeps none j sessions e h = h
  close-keeps (some x) j sessions e h = elim (Bool-cases (j == k)) [
    | inl met ↦ rw met (
        ap (λ y. some (mark_closed true y)) (found-same j k sessions x s met e h)
        ∙ ap (λ b. some (mark_closed b s)) (sym closed))
    | inr unmet ↦ rw unmet h
  ]

  update-keeps :
      (x : Option RuntimeSession) (j : String) (c : ExecutionContext) (sessions : Sessions)
      → find j sessions ≡ x
      → find k sessions ≡ some s
      → find k (update_found j c sessions (found_session j x)).0 ≡ some s
  unfolding update_found found_session
  update-keeps none j c sessions e h = h
  update-keeps (some x) j c sessions e h = elim (Bool-cases x.is_closed) [
    | inl shut ↦ rw shut h
    | inr live ↦ rw live (elim (Bool-cases (j == k)) [
      | inl met ↦
          open_closed
            (sym live ∙ ap (λ y. y.is_closed) (found-same j k sessions x s met e h) ∙ closed)
      | inr unmet ↦ rw unmet h
    ])
  ]

  call-keeps :
      (call : SessionCall) (sessions : Sessions)
      → IsOther k call
      → find k sessions ≡ some s
      → find k (after_session_call call sessions) ≡ some s
  unfolding after_session_call create_session
  call-keeps (create j c) sessions other h = rw (differs k j (λ e. other (sym e))) h
  call-keeps (update j c) sessions other h = update-keeps (find j sessions) j c sessions refl h
  call-keeps (close j) sessions other h = close-keeps (find j sessions) j sessions refl h

  calls-keep :
      (calls : List SessionCall) (sessions : Sessions)
      → All (IsOther k) calls
      → find k sessions ≡ some s
      → find k (after_session_calls calls sessions) ≡ some s
  unfolding after_session_calls
  calls-keep [] sessions others h = h
  calls-keep (call ∷ calls) sessions others h =
      calls-keep calls (after_session_call call sessions) others.1
        (call-keeps call sessions others.0 h)

-- A session that was closed is frozen: whatever calls follow, where none creates its identifier anew,
-- it is found closed, with the context it had.
pub closed_session_lem :
    (k : String) (sessions : Sessions) (s : RuntimeSession) (calls : List SessionCall)
    → get_session k sessions ≡ returned s
    → All (IsOther k) calls
    → get_session k (after_session_calls calls (close_session k sessions).0)
      ≡ returned (record s { is_closed = true })
unfolding get_session close_session found_session close_found
closed_session_lem k sessions s calls h others =
    let stored = found_session-some k (find k sessions) s h in
    ap (found_session k) (
      calls-keep k (record s { is_closed = true }) refl calls _ others
        (rw (stored, eq_refl k) refl))
