-- ===== src/Worker/Scheduler/Delay.antt =====
-- worker/scheduler/scheduler.py: how long the scheduler sleeps, and when it wakes.
use git_hub_engineering_work.Common.{
  ℕ, ◌+◌, ◌-◌, ◌*◌, ◌/◌, ◌<◌, ◌≤◌, String, ◌==◌, ◌&&◌, ◌≡◌, ◌⊎◌, inl, inr, Option, none, some,
  arith, leb, Bool-cases,
}
use git_hub_engineering_work.Common.Int.{ℤ, pos}
use git_hub_engineering_work.Common.Outcome.{returned, Outcome-cases}
use git_hub_engineering_work.Common.Text.{truthy}
use git_hub_engineering_work.Worker.Config.{WorkerConfiguration}
use git_hub_engineering_work.Worker.Scheduler.{
  Clock, into_hour, second_us, minute_us, hour_us, delay_to, every_delay, at_delay, delay_by,
  cron_delay, next_delay,
}

-- A clock's reading.
pub record IsClock (now : Clock) : Type 0 where
  pub minute : now.minute < 60
  pub second : now.second < 60
  pub micro : now.micro < second_us

next_multiple : (m step : ℕ) → 0 < step → m < (m / step + 1) * step
next_multiple m step h = grind arith

into_hour_lt : (now : Clock) → IsClock now → into_hour now < (now.minute + 1) * minute_us
unfolding into_hour
into_hour_lt now c = ground arith

-- A multiple beyond `m` is at least the next one.
least_multiple : (m step j : ℕ) → 0 < step → m < j * step → m / step + 1 ≤ j
least_multiple m step j h l = grind arith

least_time : (m step j : ℕ) → 0 < step → m < j * step → (m / step + 1) * step ≤ j * step
least_time m step j h l = grind (arith, least_multiple m step j h l)

-- With `*/step` the worker wakes at the first minute of this hour that is a multiple of the step and later
-- than the present one, and at the next full hour exactly if there is none.
pub every_delay_lem :
    (now : Clock) (step : ℕ)
    → IsClock now
    → 0 < step
    → (d : ℕ) × (every_delay now (pos step) ≡ returned (pos d))
      × (0 < d)
      × (((into_hour now + d ≡ hour_us) × ((j : ℕ) → now.minute < j * step → 60 ≤ j * step))
          ⊎ ((k : ℕ) × ((into_hour now + d ≡ k * step * minute_us)
                × (now.minute < k * step)
                × (k * step < 60)
                × ((j : ℕ) → now.minute < j * step → k ≤ j))))
unfolding every_delay delay_to
every_delay_lem now step c h =
    let n = (now.minute / step + 1) * step in
    let later = next_multiple now.minute step h in
    let inside = into_hour_lt now c in
    elim (Bool-cases (leb 60 n)) [
      | inl past ↦ (
        hour_us - into_hour now,
        ground arith,
        ground arith,
        inl (ground arith, λ j l. ground (arith, least_time now.minute step j h l)),
      )
      | inr soon ↦ (
        n * minute_us - into_hour now,
        ground arith,
        ground arith,
        inr (
          now.minute / step + 1,
          (ground arith, later, ground arith, λ j l. least_multiple now.minute step j h l),
        ),
      )
    ]

-- With a plain minute the worker wakes exactly when the clock next shows that minute: later than
-- now, within the hour, in this hour if the minute is still to come and else in the next.
pub at_delay_lem :
    (now : Clock) (target : ℕ)
    → IsClock now
    → target < 60
    → (d : ℕ) × (at_delay now (pos target) ≡ returned (pos d))
      × (0 < d)
      × (d ≤ hour_us)
      × ((into_hour now + d ≡ target * minute_us)
          ⊎ (into_hour now + d ≡ target * minute_us + hour_us))
unfolding at_delay
at_delay_lem now target c h =
    let inside = into_hour_lt now c in
    elim (Bool-cases (leb (target * minute_us) (into_hour now))) [
      | inl past ↦ (
        target * minute_us + hour_us - into_hour now,
        ground arith,
        ground arith,
        ground arith,
        inr (ground arith),
      )
      | inr soon ↦ (
        target * minute_us - into_hour now,
        ground arith,
        ground arith,
        ground arith,
        inl (ground arith),
      )
    ]

delay_by-ge :
    (int_of : String → Option ℤ) (config : WorkerConfiguration) (now : Clock) (o : Option String)
    (d : ℕ)
    → delay_by int_of now config o ≡ returned d
    → second_us ≤ d
unfolding delay_by
delay_by-ge int_of config now none d h = ground arith
delay_by-ge int_of config now (some expression) d h =
    elim (Bool-cases (config.mode == "cron" && truthy expression)) [
      | inl cron ↦ elim (Outcome-cases (cron_delay int_of now expression)) [
        | inl (e, p) ↦ absurd (ground arith)
        | inr (t, p) ↦ ground arith
      ]
      | inr plain ↦ ground arith
    ]

-- The scheduler never sleeps for less than a second, in any mode, whatever the interval, the cron
-- expression and the clock.
pub next_delay-ge :
    (int_of : String → Option ℤ) (config : WorkerConfiguration) (now : Clock) (d : ℕ)
    → next_delay int_of config now ≡ returned d
    → second_us ≤ d
unfolding next_delay
next_delay-ge int_of config now d h = delay_by-ge int_of config now config.cron d h
