-- ===== src/Worker/Config/Valid.antt =====
-- worker/configuration/models.py: what a configuration without errors satisfies.
use git_hub_engineering_work.Common.{
  ◌≤◌, ◌<◌, ◌==◌, ◌≡◌, ◌↔◌, refl, Bool, true, false, not, ◌&&◌, List, [], ◌++◌, arith,
}
use git_hub_engineering_work.Common.Int.{pos, ltb_ℤ, pos_part, neg_part}
use git_hub_engineering_work.Common.Text.{truthy?}
use git_hub_engineering_work.Worker.Config.{
  WorkerConfiguration, ConfigError, no_repository, bad_interval, negative_retries, no_workers,
  cron_missing, unsupported_mode, known_mode, error_if, is_empty, validate,
}

-- Every condition that `validate` checks, as one statement.
pub record IsRunnable (c : WorkerConfiguration) : Type 0 where
  pub watched : is_empty c.repositories ≡ false
  pub interval : neg_part c.poll_interval < pos_part c.poll_interval
  pub retries : neg_part c.max_retries ≤ pos_part c.max_retries
  pub workers : neg_part c.max_concurrent_workers < pos_part c.max_concurrent_workers
  pub mode : known_mode c.mode ≡ true
  pub cron : c.mode == "cron" ≡ true → truthy? c.cron ≡ true

error_if-nil :
    (b : Bool) (e : ConfigError) (l : List ConfigError)
    → (error_if b e ++ l) ≡ []
    → (b ≡ false) × (l ≡ [])
error_if-nil true e l h = cc
error_if-nil false e l h = (refl, h)

error_if-none : (b : Bool) (e : ConfigError) → error_if b e ≡ [] → b ≡ false
error_if-none true e h = cc
error_if-none false e h = refl

abbrev six : (a b c d m k : Bool) → ConfigError → List ConfigError
six a b c d m k e =
    error_if a no_repository
    ++ (error_if b bad_interval
        ++ (error_if c negative_retries
            ++ (error_if d no_workers ++ (error_if m e ++ error_if k cron_missing))))

abbrev AllFalse : (a b c d m k : Bool) → Type 0
AllFalse a b c d m k =
    (a ≡ false) × (b ≡ false) × (c ≡ false) × (d ≡ false) × (m ≡ false) × (k ≡ false)

-- Six checks report nothing exactly when none of them fires.
six-nil : (a b c d m k : Bool) (e : ConfigError) → six a b c d m k e ≡ [] → AllFalse a b c d m k
six-nil a b c d m k e h =
    let h1 = error_if-nil a no_repository _ h in
    let h2 = error_if-nil b bad_interval _ h1.1 in
    let h3 = error_if-nil c negative_retries _ h2.1 in
    let h4 = error_if-nil d no_workers _ h3.1 in
    let h5 = error_if-nil m e _ h4.1 in
    (h1.0, h2.0, h3.0, h4.0, h5.0, error_if-none k cron_missing h5.1)

nil-six : (a b c d m k : Bool) (e : ConfigError) → AllFalse a b c d m k → six a b c d m k e ≡ []
nil-six a b c d m k e (p, q, r, s, t, u) = rw (p, q, r, s, t, u)

IsRunnable-of :
    (c : WorkerConfiguration)
    → AllFalse
        (is_empty c.repositories)
        (not (ltb_ℤ (pos 0) c.poll_interval))
        (ltb_ℤ c.max_retries (pos 0))
        (ltb_ℤ c.max_concurrent_workers (pos 1))
        (not (known_mode c.mode))
        (c.mode == "cron" && not (truthy? c.cron))
    → IsRunnable c
IsRunnable-of c h = record {
  watched = h.0;
  interval = ground arith;
  retries = ground arith;
  workers = ground arith;
  mode = not-false _ h.4;
  cron = λ is_cron. cron_given _ _ h.5 is_cron;
}
  where
    not-false : (b : Bool) → not b ≡ false → b ≡ true
    not-false b h = ground arith

    cron_given : (b t : Bool) → (b && not t) ≡ false → b ≡ true → t ≡ true
    cron_given b t h e = ground arith

of-IsRunnable :
    (c : WorkerConfiguration)
    → IsRunnable c
    → AllFalse
        (is_empty c.repositories)
        (not (ltb_ℤ (pos 0) c.poll_interval))
        (ltb_ℤ c.max_retries (pos 0))
        (ltb_ℤ c.max_concurrent_workers (pos 1))
        (not (known_mode c.mode))
        (c.mode == "cron" && not (truthy? c.cron))
of-IsRunnable c r =
    (r.watched, ground arith, ground arith, ground arith, rw r.mode, no_cron _ _ r.cron)
  where
    no_cron : (b t : Bool) → (b ≡ true → t ≡ true) → (b && not t) ≡ false
    no_cron true t h = rw (h refl)
    no_cron false t h = refl

-- `validate` reports nothing exactly for a configuration that is runnable: repositories to watch, a
-- positive interval, no negative retries, a worker at least, a known mode, and in cron mode an
-- expression.
pub validate-eq-nil : (c : WorkerConfiguration) → (validate c ≡ []) ↔ IsRunnable c
unfolding validate
validate-eq-nil c = (
  λ h. IsRunnable-of c (six-nil _ _ _ _ _ _ (unsupported_mode c.mode) h),
  λ r. nil-six _ _ _ _ _ _ (unsupported_mode c.mode) (of-IsRunnable c r),
)
