-- ===== src/Runtime/Lifecycle.antt =====
-- runtime/lifecycle/manager.py, `ShutdownManager`. A callback is a change of a state that the
-- callbacks share; none raises.
use git_hub_engineering_work.Common.{
  String, Bool, true, false, Option, none, some, List, [], ◌∷◌, ◌++◌, if◌then◌else◌,
}
use git_hub_engineering_work.Common.Text.{or_else}

pub record Shutdown {ℓ} (S : Type ℓ) : Type ℓ where
  pub callbacks : List (S → S)
  pub shutdown_requested : Bool
  pub reason : Option String
  -- what the callbacks act on
  pub shared : S

module _ {ℓ} {S : Type ℓ} where
  abbrev pub run_all : List (S → S) → S → S
  run_all [] s = s
  run_all (f ∷ fs) s = run_all fs (f s)

  unfoldable pub register_cleanup : (S → S) → Shutdown S → Shutdown S
  register_cleanup f m =
      if m.shutdown_requested
      then record m { shared = f m.shared }
      else record m { callbacks = m.callbacks ++ f ∷ [] }

  unfoldable pub request_shutdown : Option String → Shutdown S → Shutdown S
  request_shutdown reason m = if m.shutdown_requested then m else record m {
    shutdown_requested = true;
    reason = some (or_else reason "shutdown requested");
    callbacks = [];
    shared = run_all m.callbacks m.shared;
  }

  abbrev pub register_all : List (S → S) → Shutdown S → Shutdown S
  register_all [] m = m
  register_all (f ∷ fs) m = register_all fs (register_cleanup f m)

  -- the manager before any call
  abbrev pub fresh : S → Shutdown S
  fresh s = record { callbacks = []; shutdown_requested = false; reason = none; shared = s }

  idle : List (S → S) → S → Shutdown S
  idle gs s = record { callbacks = gs; shutdown_requested = false; reason = none; shared = s }

  down : Option String → S → Shutdown S
  down reason s = record { callbacks = []; shutdown_requested = true; reason = reason; shared = s }
