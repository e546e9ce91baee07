-- ===== src/Worker/Config.antt =====
-- worker/configuration/models.py: the settings that the worker reads, and their validation.
mod Tests
pub mod Valid
use git_hub_engineering_work.Common.{
  String, ◌==◌, Bool, true, false, not, ◌&&◌, ◌||◌, Option, List, [], ◌∷◌, ◌++◌, if◌then◌else◌,
}
use git_hub_engineering_work.Common.Int.{ℤ, pos, ltb_ℤ}
use git_hub_engineering_work.Common.Text.{truthy?}
use git_hub_engineering_work.Worker.Models.{WorkerRepository}

-- `poll_interval` in microseconds
pub record WorkerConfiguration : Type 0 where
  pub repositories : List WorkerRepository
  pub poll_interval : ℤ
  pub cron : Option String
  pub mode : String
  pub default_branch : String
  pub max_retries : ℤ
  pub max_concurrent_workers : ℤ
  pub auto_create_pr : Bool
  pub auto_push : Bool
  pub auto_commit : Bool
  pub auto_cleanup : Bool
  pub continue_on_failure : Bool

pub data ConfigError : Type 0 where
  no_repository bad_interval negative_retries no_workers cron_missing : ConfigError
  unsupported_mode : String → ConfigError

abbrev pub is_empty {ℓ} : {A : Type ℓ} → List A → Bool
is_empty [] = true
is_empty (x ∷ xs) = false

-- the modes of `ScheduleMode`
abbrev pub known_mode : String → Bool
known_mode m = m == "interval" || m == "cron" || m == "manual" || m == "once" || m == "watch"

-- `if b: errors.append(error)`
abbrev pub error_if : Bool → ConfigError → List ConfigError
error_if b e = if b then e ∷ [] else []

unfoldable pub validate : WorkerConfiguration → List ConfigError
validate c =
    error_if (is_empty c.repositories) no_repository
    ++ (error_if (not (ltb_ℤ (pos 0) c.poll_interval)) bad_interval
        ++ (error_if (ltb_ℤ c.max_retries (pos 0)) negative_retries
            ++ (error_if (ltb_ℤ c.max_concurrent_workers (pos 1)) no_workers
                ++ (error_if (not (known_mode c.mode)) (unsupported_mode c.mode)
                    ++ error_if (c.mode == "cron" && not (truthy? c.cron)) cron_missing))))
