-- ===== src/Worker/Config/Tests.antt =====
-- Runs of the validation at concrete inputs.
use git_hub_engineering_work.Common.{◌≡◌, ◌↔◌, []}
use git_hub_engineering_work.Worker.Samples.{configuration}
use git_hub_engineering_work.Worker.Config.{validate}
use git_hub_engineering_work.Worker.Config.Valid.{IsRunnable, validate-eq-nil}

validate-eq-nil_example : (validate configuration ≡ []) ↔ IsRunnable configuration
validate-eq-nil_example = validate-eq-nil configuration
