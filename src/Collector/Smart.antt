-- ===== src/Collector/Smart.antt =====
-- internal/collector/smart.go: the disks of the pool and their SMART data.
--
-- The decoding of smartctl's JSON and the device nodes under /dev are not in the repository's
-- code; they are the records `SmartctlJson` and `DevDir` below, arguments of what uses them.
pub mod Devices
pub mod Thresholds
pub mod Attributes
pub mod Discovery
pub mod Disks
mod Tests
use zfs_nas_dashboard.Prelude.{
  ℕ, zero, suc, ◌+◌, ◌-◌, ◌*◌, ◌/◌, ◌%◌, ◌^◌, ◌≤◌, ◌<◌, ◌≡◌, refl, sym, ap, subst, ◌∙◌, ◌≢◌, ◌↔◌,
  ◌⊎◌, inl, inr, Bool, true, false, not, ◌&&◌, ◌||◌, Option, none, some, List, [], ◌∷◌, ◌++◌, map,
  reverse, arith, dec_lt, ℕ_discrete, ltb, leb, ◌==◌, if◌then◌else◌, ==_iff, Bool-cases,
  Option-cases, length, get_elem?, get_elem?-lt, length-append, set, take, drop, All, ℤ, pos,
  negsuc, ◌+ℤ◌, ◌*ℤ◌, ◌≤ℤ◌, ◌<ℤ◌, ltb_ℤ, leb_ℤ, eqb_ℤ, eqb_ℤ_iff, pos_part, neg_part, IsInt64,
  wrap64,
}
use Prim.Native.String.{String}
use zfs_nas_dashboard.Prelude.Result.{Result, ok, err, ◌>>=◌}
use zfs_nas_dashboard.Go.Strings.{Text, codes}
use zfs_nas_dashboard.Go.Map.{Eq, int_keys, lookup, insert, get_or_zero}
use zfs_nas_dashboard.Config.{Config}
use zfs_nas_dashboard.Collector.Runner.{Error, CommandRunner}
use Devices.{discover_devices, DevDir, resolve_device}

-- A status text; `no_status` is the empty one.
pub data Status : Type 0 where
  no_status green amber red : Status

-- A health text; `no_health` is the empty one.
pub data Health : Type 0 where
  no_health passed failed unknown : Health

pub record DiskInfo : Type 0 where
  pub dev : Text
  pub by_id : Text
  pub model : Text
  pub serial : Text
  pub health : Health
  pub celsius : Option ℤ
  pub celsius_status : Status
  pub power_on_hours : ℤ
  pub realloc_sectors : ℤ
  pub realloc_status : Status
  pub pending_sectors : ℤ
  pub pending_status : Status
  pub uncorr_errors : ℤ
  pub uncorr_status : Status

-- The shapes of smartctl's output.
pub record SmartctlIdentityJson : Type 0 where
  pub model_name : Text
  pub serial_number : Text

pub record SmartctlAttrJson : Type 0 where
  pub id : ℤ
  pub raw_value : ℤ

pub record SmartctlAttrsJson : Type 0 where
  pub table : List SmartctlAttrJson

pub record SmartctlHealthJson : Type 0 where
  pub smart_status_passed : Bool

-- `json.Unmarshal` into the three of them, where `none` is an error.
pub record SmartctlJson : Type 0 where
  pub identity : Text → Option SmartctlIdentityJson
  pub attributes : Text → Option SmartctlAttrsJson
  pub health : Text → Option SmartctlHealthJson

unfoldable pub temp_status : ℤ → ℤ → ℤ → Status
temp_status val warn crit = if leb_ℤ crit val then red else if leb_ℤ warn val then amber else green

unfoldable pub threshold_status : ℤ → ℤ → ℤ → Status
threshold_status val warn crit =
    if leb_ℤ crit val then red else if leb_ℤ warn val then amber else green

with_identity : Option SmartctlIdentityJson → DiskInfo → DiskInfo
with_identity none info = info
with_identity (some v) info = record info { model = v.model_name; serial = v.serial_number }

unfoldable pub parse_identity : SmartctlJson → Text → DiskInfo → DiskInfo
unfolding with_identity
parse_identity json out info = with_identity (json.identity out) info

-- The loop that fills `attrMap`.
unfoldable pub fill_attr_map : List (ℤ × ℤ) → List SmartctlAttrJson → List (ℤ × ℤ)
fill_attr_map m [] = m
fill_attr_map m (a ∷ table) = fill_attr_map (insert a.id a.raw_value m) table

-- `t, ok := attrMap[id]; ok && t > 0`.
abbrev pub reported : Option ℤ → Option ℤ
reported none = none
reported (some t) = if ltb_ℤ (pos 0) t then some t else none

abbrev pub or_else : Option ℤ → Option ℤ → Option ℤ
or_else (some t) _ = some t
or_else none u = u

abbrev pub status_of : Option ℤ → ℤ → ℤ → Status → Status
status_of none warn crit old = old
status_of (some t) warn crit old = temp_status t warn crit

with_attributes : Config → Option SmartctlAttrsJson → DiskInfo → DiskInfo
with_attributes cfg none info = info
with_attributes cfg (some v) info =
    let attr_map = fill_attr_map [] v.table in
    let celsius =
      or_else
        (or_else (reported (lookup (pos 194) attr_map)) (reported (lookup (pos 190) attr_map)))
        info.celsius in
    let realloc = get_or_zero (pos 0) (lookup (pos 5) attr_map) in
    let pending = get_or_zero (pos 0) (lookup (pos 197) attr_map) in
    let uncorr = get_or_zero (pos 0) (lookup (pos 198) attr_map) in
    record info {
      celsius = celsius;
      celsius_status = status_of celsius cfg.temp_warn_c cfg.temp_crit_c info.celsius_status;
      realloc_sectors = realloc;
      realloc_status = threshold_status realloc cfg.realloc_warn cfg.realloc_crit;
      pending_sectors = pending;
      pending_status = threshold_status pending cfg.pending_warn cfg.pending_crit;
      uncorr_errors = uncorr;
      uncorr_status = threshold_status uncorr cfg.uncorr_warn cfg.uncorr_crit;
      power_on_hours = get_or_zero (pos 0) (lookup (pos 9) attr_map);
    }

unfoldable pub parse_attributes : SmartctlJson → Text → Config → DiskInfo → DiskInfo
unfolding with_attributes
parse_attributes json out cfg info = with_attributes cfg (json.attributes out) info

health_of : Option SmartctlHealthJson → Health
health_of none = unknown
health_of (some v) = if v.smart_status_passed then passed else failed

unfoldable pub parse_health : SmartctlJson → Text → DiskInfo → DiskInfo
unfolding health_of
parse_health json out info = record info { health = health_of (json.health out) }

abbrev pub blank : Text → DiskInfo
blank by_id = record {
  dev = [];
  by_id = by_id;
  model = [];
  serial = [];
  health = no_health;
  celsius = none;
  celsius_status = no_status;
  power_on_hours = pos 0;
  realloc_sectors = pos 0;
  realloc_status = no_status;
  pending_sectors = pos 0;
  pending_status = no_status;
  uncorr_errors = pos 0;
  uncorr_status = no_status;
}

-- `smartctl <flag> -j <dev>`.
abbrev pub smartctl : CommandRunner → String → Text → Result Error Text
smartctl run flag dev = run (codes "smartctl") (codes flag ∷ codes "-j" ∷ dev ∷ [])

-- What is done with a command's output, and what without.
abbrev pub on_output : Result Error Text → (Text → DiskInfo) → DiskInfo → DiskInfo
on_output (ok out) f info = f out
on_output (err _) f info = info

unfoldable pub read_identity : SmartctlJson → CommandRunner → Text → DiskInfo → DiskInfo
read_identity json run dev info =
    on_output (smartctl run "-i" dev) (λ out. parse_identity json out info) info

unfoldable pub read_attributes : SmartctlJson → Config → CommandRunner → Text → DiskInfo → DiskInfo
read_attributes json cfg run dev info =
    on_output (smartctl run "-A" dev) (λ out. parse_attributes json out cfg info) info

unfoldable pub read_health : SmartctlJson → CommandRunner → Text → DiskInfo → DiskInfo
read_health json run dev info =
    on_output (smartctl run "-H" dev) (λ out. parse_health json out info)
      (record info { health = unknown })

unfoldable pub read_disk :
    DevDir → SmartctlJson → Config → CommandRunner → Text → Result Error DiskInfo
read_disk devs json cfg run by_id =
    let dev = resolve_device devs by_id in
    let info : DiskInfo = record (blank by_id) { dev = dev } in
    ok (
      read_health json run dev (read_attributes json cfg run dev (read_identity json run dev info)))

-- The disks that could be read, in order; the others are skipped.
add_read : Result Error DiskInfo → List DiskInfo → List DiskInfo
add_read (ok info) disks = info ∷ disks
add_read (err _) disks = disks

pub read_disks : (Text → Result Error DiskInfo) → List Text → List DiskInfo
unfolding add_read
read_disks read [] = []
read_disks read (by_id ∷ devices) = add_read (read by_id) (read_disks read devices)

unfoldable pub smart : DevDir → SmartctlJson → Config → CommandRunner → Result Error (List DiskInfo)
unfolding read_disks
smart devs json cfg run = do
  devices ← discover_devices cfg run
  ok (read_disks (read_disk devs json cfg run) devices)
