-- ===== src/Collector/Zfs/Tests.antt =====
-- The ZFS collector on small reports.
use zfs_nas_dashboard.Prelude.{
  ℕ, ◌*◌, ◌/◌, ◌^◌, ◌<◌, ◌≡◌, refl, ◌↔◌, true, false, ◌||◌, List, [], ◌∷◌, map, arith, leb, length,
  All, pos, ◌+ℤ◌, pos_part, wrap64,
}
use zfs_nas_dashboard.Prelude.Result.{ok, err}
use zfs_nas_dashboard.Go.Strings.{
  Text, codes, is_space, text_eq, has_prefix, trim_prefix, trim_space, split, fields, contains,
  last_index,
}
use zfs_nas_dashboard.Go.Strings.Table.{printed}
use zfs_nas_dashboard.Go.Strconv.{parse_int}
use zfs_nas_dashboard.Go.Map.{lookup, insert}
use zfs_nas_dashboard.Config.{Config}
use zfs_nas_dashboard.Config.Errors.{described}
use zfs_nas_dashboard.Collector.Runner.{CommandRunner}
use zfs_nas_dashboard.Collector.Smart.{green, red}
use zfs_nas_dashboard.Collector.Zfs.ZpoolStatus.{
  parse_scan_line, parse_zpool_status, parse_lines, parse_line, ends_config, add_vdev,
}
use zfs_nas_dashboard.Collector.Zfs.Lists.{parse_zfs_list, parse_snapshots}
use zfs_nas_dashboard.Collector.Zfs.Arc.{
  Float64, hit_rate, hit_status, value_at, arc_values, add_values, add_value, scan_tokens,
  put_value, parse_arc,
}
use zfs_nas_dashboard.Collector.Zfs.Tables.{
  DatasetRow, dataset_words, read_dataset, parse_zfs_list-printed, SnapshotRow, snapshot_words,
  read_snapshot, parse_snapshots-printed,
}
use zfs_nas_dashboard.Collector.Zfs.Report.{devices_of, parse_zpool_status-devices}
use zfs_nas_dashboard.Collector.Zfs.ArcValues.{last_or_zero, parse_arc-last_value}
use zfs_nas_dashboard.Collector.Zfs.Collection.{fails, sum_bytes, IsNonneg, zfs_lem}
use zfs_nas_dashboard.Collector.Zfs.{
  ZfsResult, collect_pool, collect_datasets, collect_snapshots, zfs,
}

-- Rates in hundredths, with whole division.
abbrev percent : Float64
percent = record {
  F = ℕ;
  parse_float = λ s. length s;
  of_int64 = λ n. pos_part n * 100;
  div = λ a b. a * 100 / b;
  ge = λ a b. leb b a;
  zero_float = 0;
  four_fifths = 80;
  one_half = 50;
}

abbrev status_config : Text
status_config = codes "config:"

abbrev status_rows : List Text
status_rows =
    codes "\tNAME  STATE READ WRITE CKSUM"
    ∷ codes "\ttank  ONLINE 0 0 0"
    ∷ codes "\t  ata-A1 DEGRADED 1 2 3"
    ∷ []

abbrev status_report : Text
status_report =
    codes
      " state: DEGRADED\nconfig:\n\tNAME  STATE READ WRITE CKSUM\n\ttank  ONLINE 0 0 0\n\t  ata-A1 DEGRADED 1 2 3\nerrors: No known data errors"

status_run :
    (parse_zpool_status status_report (codes "tank")).vdevs
    ≡ record {
      name = codes "ata-A1";
      state = codes "DEGRADED";
      read_errors = pos 1;
      write_errors = pos 2;
      cksum_errors = pos 3;
    }
      ∷ []
unfolding parse_zpool_status parse_lines parse_line ends_config add_vdev has_prefix trim_prefix
    trim_space split fields contains text_eq parse_int parse_scan_line
status_run = refl

scan_run :
    parse_scan_line
      (codes " scrub repaired 0B in 01:02:03 with 0 errors on Sun Jan 5 01:26:03 2025")
    ≡ record {
      kind = codes "scrub";
      state = codes "finished";
      end_time = codes "Sun Jan 5 01:26:03 2025";
      errors = pos 0;
    }
unfolding parse_scan_line has_prefix trim_space contains last_index
scan_run = refl

parse_zpool_status-devices_example :
    (parse_zpool_status status_report (codes "tank")).vdevs ≡ devices_of (codes "tank") status_rows
unfolding has_prefix trim_space split fields
parse_zpool_status-devices_example =
    parse_zpool_status-devices status_report (codes "tank") status_config
      (codes " state: DEGRADED" ∷ []) status_rows (codes "errors: No known data errors" ∷ []) refl
      (refl, tt) refl (refl, (refl, (refl, tt))) (refl, tt)

abbrev tank_row : DatasetRow
tank_row = record {
  name = codes "tank";
  used = codes "512";
  avail = codes "1024";
  refer = codes "96";
  ratio = codes "1.37";
  compression = codes "lz4";
}

parse_zfs_list-printed_example :
    parse_zfs_list percent (printed (map dataset_words (tank_row ∷ tank_row ∷ [])))
    ≡ map (read_dataset percent) (tank_row ∷ tank_row ∷ [])
unfolding is_space
parse_zfs_list-printed_example =
    parse_zfs_list-printed percent (tank_row ∷ tank_row ∷ []) (refl, (refl, tt))

abbrev daily : SnapshotRow
daily = record {
  dataset = codes "tank/a";
  tag = codes "daily";
  used = codes "4096";
  creation = codes "1735689600";
}

parse_snapshots-printed_example :
    parse_snapshots (printed (map snapshot_words (daily ∷ []))) ≡ map read_snapshot (daily ∷ [])
unfolding is_space
parse_snapshots-printed_example = parse_snapshots-printed (daily ∷ []) (refl, tt)

abbrev arcstats : Text
arcstats = codes "name type data\nhits 4 90\nmisses 4 10\nsize 4 77\nc_max 4 99\n"

arc_run :
    parse_arc percent arcstats
    ≡ record { hit_rate = 90; size_bytes = pos 77; max_bytes = pos 99; status = green }
unfolding parse_arc hit_rate hit_status value_at arc_values add_values add_value scan_tokens
    put_value lookup insert text_eq split fields parse_int ◌+ℤ◌ wrap64
arc_run = refl

parse_arc-last_value_example :
    let arc = parse_arc percent arcstats in
    (arc.size_bytes ≡ last_or_zero arcstats (codes "size"))
    × (arc.max_bytes ≡ last_or_zero arcstats (codes "c_max"))
    × (arc.hit_rate
        ≡ hit_rate percent
            (last_or_zero arcstats (codes "hits"))
            (last_or_zero arcstats (codes "misses")))
    × ((arc.status ≡ green) ↔ (leb 80 arc.hit_rate ≡ true))
    × ((arc.status ≡ red) ↔ (leb 50 arc.hit_rate ≡ false))
parse_arc-last_value_example = parse_arc-last_value percent arcstats (λ x h. ground arith)

abbrev empty_config : Config
empty_config = described (λ _. [])

abbrev quiet : CommandRunner
quiet name args = ok []

zfs_lem_example :
    (fails (zfs percent empty_config quiet (err [])) ≡ (
      fails (collect_pool empty_config quiet)
      || fails (collect_datasets percent empty_config quiet)))
    × ((r : ZfsResult ℕ)
        → zfs percent empty_config quiet (err []) ≡ ok r
        → (r.snapshots ≡ collect_snapshots empty_config quiet)
          × (r.snapshot_count ≡ length r.snapshots)
          × (All IsNonneg r.snapshots
              → sum_bytes r.snapshots < 2 ^ 63
              → r.snapshot_total_bytes ≡ pos (sum_bytes r.snapshots)))
zfs_lem_example = zfs_lem percent empty_config quiet (err [])
