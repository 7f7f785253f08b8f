-- ===== src/Config/Duration.antt =====
-- The poll intervals: seconds as an int64 number of nanoseconds.
use zfs_nas_dashboard.Prelude.{
  ℕ, ◌*◌, ◌≤◌, ◌≡◌, ap, ◌∙◌, ◌⊎◌, [], arith, ℤ, pos, ◌*ℤ◌, ◌≤ℤ◌, ◌<ℤ◌, neg_part, wrap64,
}
use zfs_nas_dashboard.Prelude.Result.{ok}
use zfs_nas_dashboard.Config.Errors.{
  int_value, int_vars, all_invalid, missing, described, load-ok, load-described,
}
use zfs_nas_dashboard.Config.{Env, Config, seconds, load}

-- The largest number of seconds that fits.
abbrev pub max_seconds : ℕ
max_seconds = 9_223_372_036

-- Within the range the interval is exact.
seconds_exact : (n : ℕ) → n ≤ max_seconds → seconds (pos n) ≡ pos (n * 1_000_000_000)
unfolding seconds ◌*ℤ◌ wrap64
seconds_exact n h = ground arith

-- The settings that `Load` lets through though no ticker can run on them: zero, a negative
-- number, and one whose nanoseconds wrap around to a negative number.
abbrev pub IsUnusable : ℤ → Type 0
IsUnusable n =
    ((n ≤ℤ pos 0) × (neg_part n ≤ max_seconds))
    ⊎ ((pos max_seconds <ℤ n) × (n ≤ℤ pos 18_446_744_073))

seconds_unusable : (n : ℤ) → IsUnusable n → seconds n ≤ℤ pos 0
unfolding seconds ◌*ℤ◌ wrap64
seconds_unusable n h = ground arith

-- The poll interval of a configuration that `Load` returns is the SMART_POLL_INTERVAL setting, or
-- 60, in exact nanoseconds, for every setting from 0 to 9223372036 seconds.
pub load-smart_poll_interval :
    (env : Env) (cfg : Config) (n : ℕ)
    → load env ≡ ok cfg
    → int_value env "SMART_POLL_INTERVAL" (pos 60) ≡ pos n
    → n ≤ max_seconds
    → cfg.smart_poll_interval ≡ pos (n * 1_000_000_000)
load-smart_poll_interval env cfg n h e b =
    ap (λ c. c.smart_poll_interval) (load-described env cfg h) ∙ rw e (seconds_exact n b)

-- With ZFS_REFRESH_INTERVAL unset, the ZFS interval of a returned configuration is its files
-- interval, given or default.
load-zfs_default :
    (env : Env) (cfg : Config)
    → load env ≡ ok cfg
    → env "ZFS_REFRESH_INTERVAL" ≡ []
    → cfg.zfs_refresh_interval ≡ cfg.files_refresh_interval
load-zfs_default env cfg h e = rw (load-described env cfg h, e)

-- The bug: with the required variables set and every integer variable valid, `Load`, whose result
-- is meant to be validated, accepts an interval from -9223372036 to 0 seconds, or from 9223372037
-- to 18446744073, and makes of it a duration that is not positive.
pub load_accepts_unusable_interval :
    (env : Env) (n : ℤ)
    → missing env ≡ []
    → all_invalid env int_vars ≡ []
    → int_value env "SMART_POLL_INTERVAL" (pos 60) ≡ n
    → IsUnusable n
    → (cfg : Config) × (load env ≡ ok cfg) × (cfg.smart_poll_interval ≤ℤ pos 0)
load_accepts_unusable_interval env n m v e u =
    (described env, load-ok env m v, rw e (seconds_unusable n u))
