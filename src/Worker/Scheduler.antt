-- ===== src/Worker/Scheduler.antt =====
-- worker/scheduler/scheduler.py: when the worker polls. Times are in microseconds.
pub mod Delay
mod Tests
use git_hub_engineering_work.Common.{
  ℕ, ◌+◌, ◌-◌, ◌*◌, ◌/◌, max, String, ◌==◌, Bool, ◌&&◌, ◌||◌, Option, none, some, List, [], ◌∷◌,
  ltb, leb, nat_eq, if◌then◌else◌,
}
use git_hub_engineering_work.Common.Int.{ℤ, pos, negsuc, pos_part, sub_ℕ}
use git_hub_engineering_work.Common.Outcome.{Exc, Outcome, returned, raised}
use git_hub_engineering_work.Common.Text.{truthy?, split_words}
use git_hub_engineering_work.Worker.Config.{WorkerConfiguration}
use text.Mathlib.Text.{starts_with}

-- `datetime.now()`, within its hour
pub record Clock : Type 0 where
  pub minute : ℕ
  pub second : ℕ
  pub micro : ℕ

abbrev pub second_us : ℕ
second_us = 1_000_000

abbrev pub minute_us : ℕ
minute_us = 60_000_000

abbrev pub hour_us : ℕ
hour_us = 3_600_000_000

-- the microseconds since the hour began
unfoldable pub into_hour : Clock → ℕ
into_hour now = now.minute * minute_us + now.second * second_us + now.micro

abbrev value_error : Exc
value_error = record { class_name = "ValueError"; text = "" }

abbrev zero_division : Exc
zero_division = record { class_name = "ZeroDivisionError"; text = "" }

-- The minute field of an expression: `*/step`, `*`, or a minute.
pub data Field : Type 0 where
  every : ℤ → Field
  any_minute : Field
  at : ℤ → Field

-- the next multiple of `step` behind the minute, for `(now.minute // step + 1) * step`
unfoldable pub delay_to : Clock → ℕ → ℤ
unfolding into_hour
delay_to now next_minute =
    if leb 60 next_minute
    then sub_ℕ hour_us (into_hour now)
    else sub_ℕ (next_minute * minute_us) (into_hour now)

-- `//` rounds down: with a negative step `-k` the next minute is `(ceil(minute / k) - 1) * k`, and
-- at minute 0 it is negative, which `replace` refuses.
unfoldable pub every_delay : Clock → ℤ → Outcome ℤ
unfolding delay_to
every_delay now (pos step) =
    if nat_eq step 0
    then raised zero_division
    else returned (delay_to now ((now.minute / step + 1) * step))
every_delay now (negsuc j) =
    let c = (now.minute + j) / (j + 1) in
    if nat_eq c 0 then raised value_error else returned (delay_to now ((c - 1) * (j + 1)))

unfoldable pub at_delay : Clock → ℤ → Outcome ℤ
unfolding into_hour
at_delay now (negsuc j) = raised value_error
at_delay now (pos target) =
    if ltb target 60
    then returned (
        if leb (target * minute_us) (into_hour now)
        then sub_ℕ (target * minute_us + hour_us) (into_hour now)
        else sub_ℕ (target * minute_us) (into_hour now))
    else raised value_error

unfoldable pub field_delay : Clock → Field → Outcome ℤ
unfolding every_delay at_delay
field_delay now (every step) = every_delay now step
field_delay now any_minute = returned (sub_ℕ minute_us (now.second * second_us))
field_delay now (at target) = at_delay now target

-- `minute[2:]`
abbrev drop_two : String → String
drop_two (String.◌∷◌ a (String.◌∷◌ b s)) = s
drop_two s = ""

-- How a loop stands: it ended, it was ended by an exception, or it goes on after the turns given.
pub data LoopEnd : Type 0 where
  finished : LoopEnd
  crashed : Exc → LoopEnd
  waiting : LoopEnd

-- One round of the loop: whether the token is cancelled when it is tested, what the callback meets,
-- and the clock when the delay is computed.
pub record Turn (E : Type 0) : Type 0 where
  pub cancelled : Bool
  pub env : E
  pub clock : Clock

module _ {S : Type 0} where
  -- the callback raised, the computation of the delay raised, or the loop goes on
  unfoldable pub after_turn : S × LoopEnd → S → Outcome (Unit {0}) → Outcome ℕ → S × LoopEnd
  after_turn later s (raised e) delay = (s, crashed e)
  after_turn later s (returned _) (raised e) = (s, crashed e)
  after_turn later s (returned _) (returned d) = later

  unfoldable pub after_once : S → Outcome (Unit {0}) → S × LoopEnd
  after_once s (raised e) = (s, crashed e)
  after_once s (returned _) = (s, finished)

-- `int(s)` of the standard library, `none` where it raises ValueError
module _ (int_of : String → Option ℤ) where
  abbrev as_field : (ℤ → Field) → Option ℤ → Outcome Field
  as_field wrap none = raised value_error
  as_field wrap (some n) = returned (wrap n)

  minute_field : String → Outcome Field
  minute_field minute =
      if starts_with minute "*/"
      then as_field every (int_of (drop_two minute))
      else if minute == "*"
      then returned any_minute
      else as_field at (int_of minute)

  -- the first of five fields; any other number of fields is refused
  fields_delay : Clock → List String → Outcome ℤ
  unfolding minute_field field_delay
  fields_delay now (minute ∷ _ ∷ _ ∷ _ ∷ _ ∷ []) = elim (minute_field minute) [
    | raised e ↦ raised e
    | returned field ↦ field_delay now field
  ]
  fields_delay now _ = raised value_error

  unfoldable pub cron_delay : Clock → String → Outcome ℤ
  unfolding fields_delay
  cron_delay now expression = fields_delay now (split_words expression)

  -- `max(1.0, …)` of a delay that may be negative
  abbrev at_least_second : ℤ → ℕ
  at_least_second d = max second_us (pos_part d)

  delay_by : Clock → WorkerConfiguration → Option String → Outcome ℕ
  unfolding cron_delay
  delay_by now config none = returned (at_least_second config.poll_interval)
  delay_by now config (some expression) =
      if config.mode == "cron" && truthy? (some expression)
      then elim (cron_delay now expression) [
        | raised e ↦ raised e
        | returned d ↦ returned (at_least_second d)
      ]
      else returned (at_least_second config.poll_interval)

  -- `_next_delay_seconds`
  unfoldable pub next_delay : WorkerConfiguration → Clock → Outcome ℕ
  unfolding delay_by
  next_delay config now = delay_by now config config.cron

  module _ {S E : Type 0} (callback : E → S → S × Outcome (Unit {0})) where
    -- `while not self.cancellation_token.is_cancelled: callback(); self._sleep_until_next()`
    unfoldable pub watch : WorkerConfiguration → List (Turn E) → S → S × LoopEnd
    unfolding after_turn
    watch config [] s = (s, waiting)
    watch config (turn ∷ rest) s =
        let later = watch config rest (callback turn.env s).0 in
        if turn.cancelled
        then (s, finished)
        else after_turn later (callback turn.env s).0 (callback turn.env s).1
            (next_delay config turn.clock)

    -- `WorkerScheduler.run`: the configuration is that of the scheduler, whatever the callback does
    unfoldable pub run_scheduler : WorkerConfiguration → List (Turn E) → S → S × LoopEnd
    unfolding watch after_once
    run_scheduler config [] s = (s, waiting)
    run_scheduler config (turn ∷ rest) s =
        if config.mode == "once" || config.mode == "manual"
        then after_once (callback turn.env s).0 (callback turn.env s).1
        else watch config (turn ∷ rest) s
