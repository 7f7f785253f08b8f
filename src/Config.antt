-- ===== src/Config.antt =====
-- internal/config/config.go: the configuration read from environment variables.
pub mod Duration
pub mod Errors
mod Tests
use Prim.Native.String.{String}
use zfs_nas_dashboard.Prelude.{
  ℕ, zero, suc, ◌+◌, ◌-◌, ◌*◌, ◌/◌, ◌%◌, ◌^◌, ◌≤◌, ◌<◌, ◌≡◌, refl, sym, ap, subst, ◌∙◌, ◌≢◌, ◌↔◌,
  ◌⊎◌, inl, inr, Bool, true, false, not, ◌&&◌, ◌||◌, Option, none, some, List, [], ◌∷◌, ◌++◌, map,
  reverse, arith, dec_lt, ℕ_discrete, ltb, leb, ◌==◌, if◌then◌else◌, ==_iff, Bool-cases,
  Option-cases, length, get_elem?, get_elem?-lt, length-append, set, take, drop, All, ℤ, pos,
  negsuc, ◌+ℤ◌, ◌*ℤ◌, ◌≤ℤ◌, ◌<ℤ◌, ltb_ℤ, leb_ℤ, eqb_ℤ, eqb_ℤ_iff, pos_part, neg_part, IsInt64,
  wrap64,
}
use zfs_nas_dashboard.Go.Strings.{Text, codes}
use zfs_nas_dashboard.Go.Strconv.{NumError, atoi}
use zfs_nas_dashboard.Prelude.Result.{Result, ok, err, ◌>>=◌}

-- `os.Getenv`: the empty text for a variable that is unset.
abbrev pub Env : Type 0
Env = String → Text

-- A `time.Duration`, in nanoseconds.
abbrev pub Duration : Type 0
Duration = ℤ

pub record Config : Type 0 where
  pub pool_path : Text
  pub pool_name : Text
  pub port : Text
  pub scan_depth : ℤ
  pub temp_history_hours : ℤ
  pub smart_poll_interval : Duration
  pub files_refresh_interval : Duration
  pub zfs_refresh_interval : Duration
  pub temp_warn_c : ℤ
  pub temp_crit_c : ℤ
  pub realloc_warn : ℤ
  pub realloc_crit : ℤ
  pub pending_warn : ℤ
  pub pending_crit : ℤ
  pub uncorr_warn : ℤ
  pub uncorr_crit : ℤ
  pub data_dir : Text

pub data ConfigError : Type 0 where
  is_required : String → ConfigError
  invalid_integer : String → Text → ConfigError

abbrev pub is_empty : Text → Bool
is_empty [] = true
is_empty (_ ∷ _) = false

unfoldable pub env_string : Env → String → Text → Text
env_string env key def = let v = env key in if is_empty v then def else v

parsed : String → Text → ℤ → List ConfigError → Option NumError → ℤ → ℤ × List ConfigError
parsed key v def errs none n = (n, errs)
parsed key v def errs (some _) n = (def, errs ++ invalid_integer key v ∷ [])

-- The value, and the errors so far.
unfoldable pub append_int : Env → List ConfigError → String → ℤ → ℤ × List ConfigError
unfolding parsed
append_int env errs key def =
    let v = env key in
    if is_empty v then (def, errs) else parsed key v def errs (atoi v).1 (atoi v).0

-- `time.Second`.
abbrev pub second : ℤ
second = pos 1_000_000_000

-- `time.Duration(n) * time.Second`, an int64 product.
unfoldable pub seconds : ℤ → Duration
seconds n = wrap64 (n *ℤ second)

pub require : Env → String → List ConfigError
require env key = if is_empty (env key) then is_required key ∷ [] else []

-- `if len(errs) > 0 { return nil, errors.Join(errs...) }`.
abbrev pub check_errs {ℓ} : {A : Type ℓ} → List ConfigError → A → Result (List ConfigError) A
check_errs [] a = ok a
check_errs (e ∷ es) a = err (e ∷ es)

-- The second half of `Load`, with the errors beside the configuration that it is built into.
unfoldable pub parse_config : Env → Config × List ConfigError
unfolding env_string
parse_config env =
    let scan_depth = append_int env [] "SCAN_DEPTH" (pos 5) in
    let history = append_int env scan_depth.1 "TEMP_HISTORY_HOURS" (pos 6) in
    let temp_warn = append_int env history.1 "TEMP_WARN_C" (pos 45) in
    let temp_crit = append_int env temp_warn.1 "TEMP_CRIT_C" (pos 55) in
    let realloc_warn = append_int env temp_crit.1 "REALLOC_WARN" (pos 1) in
    let realloc_crit = append_int env realloc_warn.1 "REALLOC_CRIT" (pos 5) in
    let pending_warn = append_int env realloc_crit.1 "PENDING_WARN" (pos 1) in
    let pending_crit = append_int env pending_warn.1 "PENDING_CRIT" (pos 5) in
    let uncorr_warn = append_int env pending_crit.1 "UNCORR_WARN" (pos 1) in
    let uncorr_crit = append_int env uncorr_warn.1 "UNCORR_CRIT" (pos 5) in
    let smart_secs = append_int env uncorr_crit.1 "SMART_POLL_INTERVAL" (pos 60) in
    let files_secs = append_int env smart_secs.1 "FILES_REFRESH_INTERVAL" (pos 300) in
    let zfs_secs = append_int env files_secs.1 "ZFS_REFRESH_INTERVAL" files_secs.0 in
    (
      record {
        pool_path = env "POOL_PATH";
        pool_name = env "POOL_NAME";
        port = env_string env "PORT" (codes "8080");
        scan_depth = scan_depth.0;
        temp_history_hours = history.0;
        smart_poll_interval = seconds smart_secs.0;
        files_refresh_interval = seconds files_secs.0;
        zfs_refresh_interval = seconds zfs_secs.0;
        temp_warn_c = temp_warn.0;
        temp_crit_c = temp_crit.0;
        realloc_warn = realloc_warn.0;
        realloc_crit = realloc_crit.0;
        pending_warn = pending_warn.0;
        pending_crit = pending_crit.0;
        uncorr_warn = uncorr_warn.0;
        uncorr_crit = uncorr_crit.0;
        data_dir = env_string env "DATA_DIR" (codes "/data");
      },
      zfs_secs.1,
    )

unfoldable pub load : Env → Result (List ConfigError) Config
unfolding require
load env = do
  checked ← check_errs {A = Unit {0}} (require env "POOL_PATH" ++ require env "POOL_NAME") tt
  let result = parse_config env
  check_errs result.1 result.0

-- `panic` in place of the error.
unfoldable pub must_load : Env → Option Config
unfolding load
must_load env = elim (load env) [ ok cfg ↦ some cfg | err _ ↦ none ]
