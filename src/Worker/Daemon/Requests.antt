-- ===== src/Worker/Daemon/Requests.antt =====
-- worker/daemon/daemon.py, `_apply_scheduler_request` and `_scheduler_paused`: the two files by which the
-- scheduler is told what to do. A file that is there is what reading it and `json.loads` return or raise.
use git_hub_engineering_work.Common.{
  ℕ, zero, String, ◌<>◌, ◌==◌, Bool, true, false, not, Option, none, some, max, if◌then◌else◌,
}
use git_hub_engineering_work.Common.Int.{ℤ, pos}
use git_hub_engineering_work.Common.Text.{truthy}
use git_hub_engineering_work.Common.Json.{
  Value, null, boolean, num, str, arr, obj, other_number, nil, Fields, end, get,
}
use git_hub_engineering_work.Common.Outcome.{Outcome, returned, raised, ◌>>=◌}
use git_hub_engineering_work.Worker.Config.{WorkerConfiguration}
use git_hub_engineering_work.Worker.Daemon.{Daemon}

-- Python's `str` and `int` of values for which they are not written out below, the name of a value's type, and `timedelta(seconds=…)`
-- in microseconds, which raises beyond its range.
pub record Python : Type 0 where
  pub str_of : Value → String
  pub int_of : Value → Outcome ℤ
  -- whether a number that is written like this is zero
  pub is_zero : String → Bool
  pub type_name : Value → String
  pub timedelta : ℕ → Outcome ℤ

-- `none` where the file is missing
abbrev pub Document : Type 0
Document = Option (Outcome Value)

-- `max(1, n)`
abbrev at_least_one : ℤ → ℕ
at_least_one (ℤ.pos n) = max 1 n
at_least_one (ℤ.negsuc n) = 1

module _ (py : Python) where
  -- `bool(v)`
  abbrev pub is_true : Value → Bool
  is_true (obj end) = false
  is_true (arr nil) = false
  is_true (str s) = truthy s
  is_true (num zero) = false
  is_true (other_number n) = not (py.is_zero n)
  is_true (boolean b) = b
  is_true null = false
  is_true _ = true

  abbrev pub is_true? : Option Value → Bool
  is_true? none = false
  is_true? (some v) = is_true v

  -- the dict that `data.get` is called of
  unfoldable pub as_object : Value → Outcome Fields
  as_object (obj fs) = returned fs
  as_object v = raised (record {
    class_name = "AttributeError";
    text = "'" <> (py.type_name v <> "' object has no attribute 'get'");
  })

  abbrev shown : Value → String
  shown (str s) = s
  shown v = py.str_of v

  abbrev number : Value → Outcome ℤ
  number (num n) = returned (pos n)
  number (boolean true) = returned (pos 1)
  number (boolean false) = returned (pos 0)
  number v = py.int_of v

  -- `str(data.get("mode") or self.config.mode)`
  unfoldable pub requested_mode : String → Option Value → String
  requested_mode current none = current
  requested_mode current (some v) = if is_true v then shown v else current

  -- the new `poll_interval`, in microseconds
  unfoldable pub requested_interval : ℤ → Option Value → Outcome ℤ
  requested_interval current none = returned current
  requested_interval current (some null) = returned current
  requested_interval current (some v) = number v >>= λ n. py.timedelta (at_least_one n)

  -- `data.get("cron")`; what is no text is kept as its `str`, since a tick does not read it
  unfoldable pub requested_cron : Option Value → Option String
  requested_cron none = none
  requested_cron (some null) = none
  requested_cron (some v) = some (shown v)

  -- `replace(self.config, …)`, once the file is read
  unfoldable pub requested : Value → WorkerConfiguration → Outcome WorkerConfiguration
  unfolding as_object requested_mode requested_interval requested_cron get
  requested v config = as_object v >>= λ fs.
      requested_interval config.poll_interval (get fs "poll_interval_seconds") >>= λ interval.
      returned (record config {
        mode = requested_mode config.mode (get fs "mode");
        poll_interval = interval;
        cron = requested_cron (get fs "cron");
      })

  abbrev pub with_config : Daemon → Outcome WorkerConfiguration → Daemon × Outcome (Unit {0})
  with_config d (raised e) = (d, raised e)
  with_config d (returned config) = (record d { config = config }, returned tt)

  -- `_apply_scheduler_request`. It also makes a new `self.scheduler`, which `run` does not read again while
  -- its loop runs.
  unfoldable pub apply_request : Document → Daemon → Daemon × Outcome (Unit {0})
  unfolding requested
  apply_request none d = (d, returned tt)
  apply_request (some (raised e)) d =
      if e.class_name == "JSONDecodeError" then (d, returned tt) else (d, raised e)
  apply_request (some (returned v)) d = with_config d (requested v d.config)

  -- `_scheduler_paused`
  unfoldable pub scheduler_paused : Document → Outcome Bool
  unfolding as_object get
  scheduler_paused none = returned false
  scheduler_paused (some (raised e)) =
      if e.class_name == "JSONDecodeError" then returned false else raised e
  scheduler_paused (some (returned v)) = as_object v >>= λ fs. returned (is_true? (get fs "paused"))
