-- ===== src/Worker/Scheduler/Tests.antt =====
-- Runs of the scheduler at concrete inputs.
use git_hub_engineering_work.Common.{
  ℕ, ◌≡◌, ◌⊎◌, ◌+◌, ◌*◌, ◌<◌, ◌≤◌, refl, none, Option, String, arith,
}
use git_hub_engineering_work.Common.Int.{ℤ, pos}
use git_hub_engineering_work.Common.Outcome.{returned}
use git_hub_engineering_work.Worker.Samples.{configuration, clock}
use git_hub_engineering_work.Worker.Scheduler.{
  every_delay, next_delay, into_hour, hour_us, minute_us,
}
use git_hub_engineering_work.Worker.Scheduler.Delay.{IsClock, every_delay_lem}

clock-IsClock : IsClock clock
clock-IsClock = record { minute = omega arith; second = omega arith; micro = omega arith }

every_delay_lem_example :
    (d : ℕ) × (every_delay clock (pos 15) ≡ returned (pos d))
    × (0 < d)
    × (((into_hour clock + d ≡ hour_us) × ((j : ℕ) → clock.minute < j * 15 → 60 ≤ j * 15))
        ⊎ ((k : ℕ) × ((into_hour clock + d ≡ k * 15 * minute_us)
              × (clock.minute < k * 15)
              × (k * 15 < 60)
              × ((j : ℕ) → clock.minute < j * 15 → k ≤ j))))
every_delay_lem_example = every_delay_lem clock 15 clock-IsClock (omega arith)

abbrev no_number : String → Option ℤ
no_number s = none

one_minute : next_delay no_number configuration clock ≡ returned 60_000_000
unfolding next_delay
one_minute = refl
