-- ===== src/Collector/Smart/Tests.antt =====
-- The SMART collector on a pool of two disks, of which one is named twice.
use zfs_nas_dashboard.Prelude.{
  ℕ, ◌≡◌, refl, ◌≢◌, ◌↔◌, In, ◌⊎◌, true, none, some, List, [], ◌∷◌, map, if◌then◌else◌, pos,
}
use zfs_nas_dashboard.Prelude.Result.{ok, err, ◌>>=◌}
use zfs_nas_dashboard.Go.Strings.{Text, codes, text_eq, contains, split, fields}
use zfs_nas_dashboard.Go.Map.{lookup, insert, get_or_zero}
use zfs_nas_dashboard.Config.{Config}
use zfs_nas_dashboard.Collector.Runner.{CommandRunner}
use zfs_nas_dashboard.Collector.Smart.Devices.{
  DevDir, resolve_device, is_block_dev, is_device_path, seen, add_candidate, scan_lines,
  discover_devices,
}
use zfs_nas_dashboard.Collector.Smart.Devices.Paths.{IsDevice}
use zfs_nas_dashboard.Collector.Smart.Attributes.{last_raw, parse_attributes-last_raw}
use zfs_nas_dashboard.Collector.Smart.Thresholds.{IsReadable, read_disk-IsReadable}
use zfs_nas_dashboard.Collector.Smart.Discovery.{no_repeats, any_line_names, discover_devices_lem}
use zfs_nas_dashboard.Collector.Smart.Disks.{
  smart-by_id, IsNodeOf, PassedIfKnown, resolve_device-IsNodeOf, read_disk-never_failed,
}
use zfs_nas_dashboard.Collector.Smart.{
  green, amber, failed, unknown, DiskInfo, SmartctlAttrJson, SmartctlJson, blank, reported, or_else,
  threshold_status, temp_status, fill_attr_map, parse_identity, parse_attributes, parse_health,
  read_identity, read_attributes, read_health, read_disk, smartctl, smart,
}

abbrev defaults : Config
defaults = record {
  pool_path = codes "/tank";
  pool_name = codes "tank";
  port = codes "8080";
  scan_depth = pos 5;
  temp_history_hours = pos 6;
  smart_poll_interval = pos 60_000_000_000;
  files_refresh_interval = pos 300_000_000_000;
  zfs_refresh_interval = pos 300_000_000_000;
  temp_warn_c = pos 45;
  temp_crit_c = pos 55;
  realloc_warn = pos 1;
  realloc_crit = pos 5;
  pending_warn = pos 1;
  pending_crit = pos 5;
  uncorr_warn = pos 1;
  uncorr_crit = pos 5;
  data_dir = codes "/data";
}

abbrev status_out : Text
status_out =
    codes
      "  pool: tank\n\tNAME STATE\n\t  raidz1-0 ONLINE\n\t    ata-A1 ONLINE\n\t    /dev/disk/by-id/wwn-0x5 ONLINE\n\t    ata-A1 ONLINE\n"

-- `zpool` and `smartctl -A` answer, the other calls of smartctl fail.
abbrev run_a : CommandRunner
run_a name args =
    if text_eq name (codes "zpool")
    then ok status_out
    else if seen (codes "-A") args
    then ok (codes "{}")
    else err (codes "exit status 8")

abbrev attr : ℕ → ℕ → SmartctlAttrJson
attr id raw = record { id = pos id; raw_value = pos raw }

abbrev table : List SmartctlAttrJson
table = attr 194 0 ∷ attr 190 47 ∷ attr 5 9 ∷ attr 5 2 ∷ []

abbrev json_a : SmartctlJson
json_a = record {
  identity = λ out. none;
  attributes = λ out. some (record { table = table });
  health = λ out. none;
}

abbrev ata_path : Text
ata_path = codes "/dev/disk/by-id/ata-A1"

abbrev nodes : DevDir
nodes = record {
  stat = λ path. if text_eq path (codes "/dev/loop0") then none else some (some 2064);
  read_dir = some (codes "loop0" ∷ codes "sdb" ∷ []);
}

discover_run :
    discover_devices defaults run_a ≡ ok (ata_path ∷ codes "/dev/disk/by-id/wwn-0x5" ∷ [])
unfolding discover_devices scan_lines add_candidate is_device_path split fields contains seen
    text_eq
discover_run = refl

resolve_run : resolve_device nodes ata_path ≡ codes "/dev/sdb"
unfolding resolve_device is_block_dev text_eq
resolve_run = refl

parse_attributes-last_raw_example :
    let info' = parse_attributes json_a (codes "{}") defaults (blank ata_path) in
    (info'.celsius
      ≡ or_else (reported (last_raw (pos 194) table)) (reported (last_raw (pos 190) table)))
    × (info'.realloc_sectors ≡ get_or_zero (pos 0) (last_raw (pos 5) table))
    × (info'.pending_sectors ≡ get_or_zero (pos 0) (last_raw (pos 197) table))
    × (info'.uncorr_errors ≡ get_or_zero (pos 0) (last_raw (pos 198) table))
    × (info'.power_on_hours ≡ get_or_zero (pos 0) (last_raw (pos 9) table))
parse_attributes-last_raw_example =
    parse_attributes-last_raw json_a (codes "{}") defaults (blank ata_path)
      (record { table = table }) refl refl

read_disk-IsReadable_example :
    (info : DiskInfo) × (read_disk nodes json_a defaults run_a ata_path ≡ ok info)
    × IsReadable defaults ata_path info
read_disk-IsReadable_example = read_disk-IsReadable nodes json_a defaults run_a ata_path

discover_devices_lem_example :
    (ds : List Text) × (discover_devices defaults run_a ≡ ok ds)
    × (no_repeats ds ≡ true)
    × (In ata_path ds
        ↔ (IsDevice ata_path × (any_line_names ata_path (split b'\n' status_out) ≡ true)))
unfolding text_eq
discover_devices_lem_example = discover_devices_lem defaults run_a status_out ata_path refl

smart-by_id_example :
    (smart nodes json_a defaults run_a >>= λ infos.
    ok (map (λ (info : DiskInfo). info.by_id) infos))
    ≡ discover_devices defaults run_a
smart-by_id_example = smart-by_id nodes json_a defaults run_a

resolve_device-IsNodeOf_example :
    (resolve_device nodes ata_path ≡ ata_path)
    ⊎ IsNodeOf nodes ata_path (resolve_device nodes ata_path)
resolve_device-IsNodeOf_example = resolve_device-IsNodeOf nodes ata_path

smart_status_unknown :
    (dev out : Text) → smartctl run_a "-H" dev ≡ ok out → PassedIfKnown (json_a.health out)
smart_status_unknown dev out e = tt

abbrev disk_a : DiskInfo
disk_a = record (blank ata_path) {
  dev = codes "/dev/sdb";
  health = unknown;
  celsius = some (pos 47);
  celsius_status = amber;
  realloc_sectors = pos 2;
  realloc_status = amber;
  pending_status = green;
  uncorr_status = green;
}

read_disk-never_failed_example : disk_a.health ≢ failed
unfolding read_disk read_identity read_attributes read_health parse_identity parse_attributes
    parse_health fill_attr_map insert lookup temp_status threshold_status resolve_device
    is_block_dev text_eq seen
read_disk-never_failed_example =
    read_disk-never_failed nodes json_a defaults run_a ata_path disk_a smart_status_unknown refl
