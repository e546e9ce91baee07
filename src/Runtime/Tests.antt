-- ===== src/Runtime/Tests.antt =====
-- Runs of the runtime at concrete inputs.
use git_hub_engineering_work.Common.{ℕ, ◌≡◌, ◌++◌, refl, true, false, List, [], ◌∷◌}
use git_hub_engineering_work.Common.Outcome.{returned}
use git_hub_engineering_work.Runtime.Models.{initial_context}
use git_hub_engineering_work.Runtime.Registry.{AgentMetadata, Registry}
use git_hub_engineering_work.Runtime.Sessions.{
  RuntimeSession, Sessions, SessionCall, update, close, get_session, close_session,
  after_session_calls, closed_session_lem,
}
use git_hub_engineering_work.Runtime.Events.{
  BusCall, subscribing, unsubscribing, new_bus, is_reached, is_for, AreFresh, after_bus_call,
  after_bus_calls, is_reached-after_bus_calls,
}
use git_hub_engineering_work.Runtime.Registry.{find}
use git_hub_engineering_work.Common.{◌||◌}

abbrev agent : AgentMetadata
agent = record {
  identifier = "agent";
  name = "Agent";
  version = "1";
  capabilities = [];
  supported_stages = "Review" ∷ [];
}

abbrev agents : Registry ℕ
agents = record { kind = "agent"; metadata = ("other", agent) ∷ []; implementations = [] }

abbrev session : RuntimeSession
session = record { session_id = "session_1"; context = initial_context; is_closed = false }

abbrev sessions : Sessions
sessions = ("session_1", session) ∷ []

stored : get_session "session_1" sessions ≡ returned session
unfolding get_session
stored = refl

abbrev later_calls : List SessionCall
later_calls = update "session_1" initial_context ∷ close "session_1" ∷ []

closed_session_lem_example :
    get_session "session_1" (after_session_calls later_calls (close_session "session_1" sessions).0)
    ≡ returned (record { session_id = "session_1"; context = initial_context; is_closed = true })
closed_session_lem_example =
    closed_session_lem "session_1" sessions session later_calls stored (tt, (tt, tt))

abbrev noting : ℕ → List ℕ → List ℕ
noting n l = l ++ n ∷ []

abbrev bus_calls : List (BusCall ℕ)
bus_calls = subscribing "Started" 1 "sub_1" ∷ subscribing "*" 2 "sub_2" ∷ unsubscribing "sub_1" ∷ []

bus_calls-AreFresh : AreFresh bus_calls new_bus
unfolding after_bus_call
bus_calls-AreFresh = (refl, (refl, (tt, tt)))

is_reached-after_bus_calls_example :
    is_reached "Started" "sub_2" (after_bus_calls bus_calls new_bus) ≡ (
      is_for "Started" (find "sub_2" (after_bus_calls bus_calls new_bus).subscriptions)
      || is_for "*" (find "sub_2" (after_bus_calls bus_calls new_bus).subscriptions))
is_reached-after_bus_calls_example =
    is_reached-after_bus_calls bus_calls "Started" "sub_2" bus_calls-AreFresh
