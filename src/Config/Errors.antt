-- ===== src/Config/Errors.antt =====
-- `Load` against a description of it variable by variable.
use Prim.Native.String.{String}
use mathlib.Core.List.{append_assoc, append-nil}
use zfs_nas_dashboard.Prelude.{
  ◌≡◌, refl, sym, ◌∙◌, Option, none, some, List, [], ◌∷◌, ◌++◌, arith, if◌then◌else◌, ℤ, pos,
}
use zfs_nas_dashboard.Go.Strings.{Text, codes}
use zfs_nas_dashboard.Go.Strconv.{NumError, atoi}
use zfs_nas_dashboard.Prelude.Result.{Result, ok, ◌>>=◌}
use zfs_nas_dashboard.Config.{
  Env, Config, ConfigError, is_required, invalid_integer, is_empty, append_int, seconds, check_errs,
  parse_config, load,
}

-- The complaint about one integer variable: none if it is unset or an integer.
abbrev complaint : String → Text → Option NumError → List ConfigError
complaint key v none = []
complaint key v (some _) = invalid_integer key v ∷ []

abbrev pub invalid : Env → String → List ConfigError
invalid env key = if is_empty (env key) then [] else complaint key (env key) (atoi (env key)).1

-- The value of one integer variable: its default if it is unset, or no integer.
abbrev value_or : ℤ → ℤ → Option NumError → ℤ
value_or def n none = n
value_or def n (some _) = def

abbrev pub int_value : Env → String → ℤ → ℤ
int_value env key def =
    if is_empty (env key) then def else value_or def (atoi (env key)).0 (atoi (env key)).1

-- The integer variables, in the order in which `Load` reads them.
abbrev pub int_vars : List String
int_vars =
    "SCAN_DEPTH" ∷ "TEMP_HISTORY_HOURS" ∷ "TEMP_WARN_C" ∷ "TEMP_CRIT_C" ∷ "REALLOC_WARN"
    ∷ "REALLOC_CRIT" ∷ "PENDING_WARN" ∷ "PENDING_CRIT" ∷ "UNCORR_WARN" ∷ "UNCORR_CRIT"
    ∷ "SMART_POLL_INTERVAL" ∷ "FILES_REFRESH_INTERVAL" ∷ "ZFS_REFRESH_INTERVAL" ∷ []

abbrev pub all_invalid : Env → List String → List ConfigError
all_invalid env [] = []
all_invalid env (key ∷ keys) = invalid env key ++ all_invalid env keys

abbrev pub files_seconds : Env → ℤ
files_seconds env = int_value env "FILES_REFRESH_INTERVAL" (pos 300)

-- Every field by itself.
abbrev pub described : Env → Config
described env = record {
  pool_path = env "POOL_PATH";
  pool_name = env "POOL_NAME";
  port = if is_empty (env "PORT") then codes "8080" else env "PORT";
  scan_depth = int_value env "SCAN_DEPTH" (pos 5);
  temp_history_hours = int_value env "TEMP_HISTORY_HOURS" (pos 6);
  smart_poll_interval = seconds (int_value env "SMART_POLL_INTERVAL" (pos 60));
  files_refresh_interval = seconds (files_seconds env);
  zfs_refresh_interval = seconds (int_value env "ZFS_REFRESH_INTERVAL" (files_seconds env));
  temp_warn_c = int_value env "TEMP_WARN_C" (pos 45);
  temp_crit_c = int_value env "TEMP_CRIT_C" (pos 55);
  realloc_warn = int_value env "REALLOC_WARN" (pos 1);
  realloc_crit = int_value env "REALLOC_CRIT" (pos 5);
  pending_warn = int_value env "PENDING_WARN" (pos 1);
  pending_crit = int_value env "PENDING_CRIT" (pos 5);
  uncorr_warn = int_value env "UNCORR_WARN" (pos 1);
  uncorr_crit = int_value env "UNCORR_CRIT" (pos 5);
  data_dir = if is_empty (env "DATA_DIR") then codes "/data" else env "DATA_DIR";
}

abbrev pub missing : Env → List ConfigError
missing env =
    (if is_empty (env "POOL_PATH") then is_required "POOL_PATH" ∷ [] else [])
    ++ (if is_empty (env "POOL_NAME") then is_required "POOL_NAME" ∷ [] else [])

append_int_lem :
    (env : Env) (errs : List ConfigError) (key : String) (def : ℤ)
    → append_int env errs key def ≡ (int_value env key def, errs ++ invalid env key)
unfolding append_int
append_int_lem env errs key def = ground (arith, append-nil errs)

parse_config_lem : (env : Env) → parse_config env ≡ (described env, all_invalid env int_vars)
unfolding parse_config
parse_config_lem env = simp (append_int_lem, append_assoc, append-nil)

-- `Load` reports every missing required variable and nothing else if one is missing; else every
-- variable that holds no integer, each once and in the order in which they are read; and only
-- if there is none it returns the configuration, each field from its own variable or default.
pub load_lem :
    (env : Env)
    → load env ≡ (
        check_errs {A = Unit {0}} (missing env) tt >>= λ _.
        check_errs (all_invalid env int_vars) (described env))
unfolding load
load_lem env = rw parse_config_lem

check_errs-eq_ok {ℓ} :
    {A : Type ℓ} {a b : A} (es : List ConfigError) → check_errs es a ≡ ok b → (es ≡ []) × (a ≡ b)
check_errs-eq_ok [] h = (refl, cc)
check_errs-eq_ok (e ∷ es) h = cc

bind_check {ℓ κ} :
    {A : Type ℓ} {B : Type κ} (a : A) {b : B} (es : List ConfigError)
    (r : Result (List ConfigError) B)
    → check_errs es a >>= (λ _. r) ≡ ok b
    → r ≡ ok b
bind_check a [] r h = h
bind_check a (e ∷ es) r h = cc

-- A configuration that `Load` returns is the described one.
pub load-described : (env : Env) (cfg : Config) → load env ≡ ok cfg → cfg ≡ described env
load-described env cfg h =
    sym
      (check_errs-eq_ok (all_invalid env int_vars)
        (bind_check {A = Unit {0}} tt (missing env) _ (sym (load_lem env) ∙ h))).1

-- Where nothing is missing and nothing invalid it does return it.
pub load-ok :
    (env : Env) → missing env ≡ [] → all_invalid env int_vars ≡ [] → load env ≡ ok (described env)
load-ok env m v = load_lem env ∙ rw (m, v)
