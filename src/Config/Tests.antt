-- ===== src/Config/Tests.antt =====
-- `Load` on concrete environments.
use Prim.Native.String.{String}
use text.Mathlib.Text.{◌==◌ as str_eq}
use zfs_nas_dashboard.Prelude.{
  ◌*◌, ◌≡◌, refl, inl, [], ◌∷◌, arith, if◌then◌else◌, pos, ◌*ℤ◌, ◌≤ℤ◌, wrap64,
}
use zfs_nas_dashboard.Prelude.Result.{ok, err, ◌>>=◌}
use zfs_nas_dashboard.Go.Strings.{Text, codes}
use zfs_nas_dashboard.Go.Strconv.{atoi}
use zfs_nas_dashboard.Config.Errors.{int_vars, all_invalid, missing, described, load_lem, load-ok}
use zfs_nas_dashboard.Config.Duration.{load-smart_poll_interval, load_accepts_unusable_interval}
use zfs_nas_dashboard.Config.{
  Env, Config, is_required, invalid_integer, check_errs, append_int, env_string, seconds,
  parse_config, load,
}

abbrev env_with : String → Text → Env
env_with key v k =
    if str_eq k "POOL_PATH"
    then codes "/tank"
    else if str_eq k "POOL_NAME"
    then codes "tank"
    else if str_eq k key
    then v
    else []

load_no_env : load (λ _. []) ≡ err (is_required "POOL_PATH" ∷ is_required "POOL_NAME" ∷ [])
unfolding load
load_no_env = refl

load_bad_depth :
    load (env_with "SCAN_DEPTH" (codes "5x")) ≡ err (invalid_integer "SCAN_DEPTH" (codes "5x") ∷ [])
unfolding load parse_config append_int atoi seconds env_string ◌*ℤ◌ wrap64
load_bad_depth = refl

load_lem_example : load (env_with "PORT" (codes "80")) ≡ (
    check_errs {A = Unit {0}} (missing (env_with "PORT" (codes "80"))) tt >>= λ _.
    check_errs
      (all_invalid (env_with "PORT" (codes "80")) int_vars)
      (described (env_with "PORT" (codes "80"))))
load_lem_example = load_lem (env_with "PORT" (codes "80"))

abbrev every_30 : Env
every_30 = env_with "SMART_POLL_INTERVAL" (codes "30")

load-smart_poll_interval_example :
    (described every_30).smart_poll_interval ≡ pos (30 * 1_000_000_000)
unfolding atoi
load-smart_poll_interval_example =
    load-smart_poll_interval every_30 (described every_30) 30 (load-ok every_30 refl refl) refl
      (omega arith)

abbrev never : Env
never = env_with "SMART_POLL_INTERVAL" (codes "0")

load_accepts_unusable_interval_example :
    (cfg : Config) × (load never ≡ ok cfg) × (cfg.smart_poll_interval ≤ℤ pos 0)
unfolding atoi
load_accepts_unusable_interval_example =
    load_accepts_unusable_interval never (pos 0) refl refl refl (inl (omega arith, omega arith))
