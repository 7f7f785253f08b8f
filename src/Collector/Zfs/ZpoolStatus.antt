-- ===== src/Collector/Zfs/ZpoolStatus.antt =====
-- `parseZpoolStatus` and `parseScanLine`: the output of `zpool status -p`, line by line.
use zfs_nas_dashboard.Prelude.{
  ℕ, ◌+◌, Bool, true, false, not, ◌&&◌, ◌||◌, Option, none, some, List, [], ◌∷◌, ◌++◌,
  if◌then◌else◌, drop, ℤ, pos,
}
use zfs_nas_dashboard.Go.Strings.{
  Text, codes, text_eq, has_prefix, trim_prefix, trim_space, split, fields, contains, last_index,
}
use zfs_nas_dashboard.Go.Strconv.{parse_int}

pub record ScanInfo : Type 0 where
  pub kind : Text
  pub state : Text
  pub end_time : Text
  pub errors : ℤ

pub record VDev : Type 0 where
  pub name : Text
  pub state : Text
  pub read_errors : ℤ
  pub write_errors : ℤ
  pub cksum_errors : ℤ

pub record Pool : Type 0 where
  pub name : Text
  pub state : Text
  pub scan : ScanInfo
  pub vdevs : List VDev
  pub errors_msg : Text

-- The text behind the last " on ".
end_of : Text → Option ℕ → Text
end_of s none = []
end_of s (some idx) = trim_space (drop (idx + 4) s)

-- `parseScanLine` on the trimmed text.
scan_of : Text → ScanInfo
unfolding end_of
scan_of s =
    let kind =
      if has_prefix s (codes "scrub")
      then codes "scrub"
      else if has_prefix s (codes "resilver")
      then codes "resilver"
      else [] in
    if contains s (codes "in progress")
    then record { kind = kind; state = codes "in_progress"; end_time = []; errors = pos 0 }
    else if contains s (codes "repaired") || contains s (codes "with 0 errors")
    then record {
      kind = kind;
      state = codes "finished";
      end_time = end_of s (last_index s (codes " on "));
      errors = pos 0;
    }
    else record { kind = kind; state = codes "none"; end_time = []; errors = pos 0 }

unfoldable pub parse_scan_line : Text → ScanInfo
unfolding scan_of
parse_scan_line s = scan_of (trim_space s)

-- The variables of the loop: the pool read so far, and `inConfig`.
pub record Progress : Type 0 where
  pub pool : Pool
  pub in_config : Bool

-- The fields of a line of the configuration table: five of them, or more, make a device, unless the
-- first names the pool or heads the table.
unfoldable pub add_vdev : Text → List Text → Progress → Progress
add_vdev pool_name (name ∷ state ∷ r ∷ w ∷ c ∷ _) p =
    if text_eq name pool_name || text_eq name (codes "NAME") then p else record p {
      pool = record (p.pool) {
        vdevs =
            p.pool.vdevs
            ++ record {
              name = name;
              state = state;
              read_errors = (parse_int r).0;
              write_errors = (parse_int w).0;
              cksum_errors = (parse_int c).0;
            }
              ∷ [];
      };
    }
add_vdev pool_name _ p = p

-- A line that is no table row: it has a colon and is not indented.
unfoldable pub ends_config : Text → Bool
ends_config line =
    contains (trim_space line) (codes ":")
    && (not (has_prefix line (codes "\t")) && not (has_prefix line (codes " ")))

-- One round of the loop.
unfoldable pub parse_line : Text → Progress → Text → Progress
parse_line pool_name p line =
    let trimmed = trim_space line in
    if has_prefix trimmed (codes "state:")
    then record p {
      pool = record (p.pool) { state = trim_space (trim_prefix trimmed (codes "state:")) };
    }
    else if has_prefix trimmed (codes "scan:")
    then record p {
      pool = record (p.pool) { scan = parse_scan_line (trim_prefix trimmed (codes "scan:")) };
    }
    else if has_prefix trimmed (codes "errors:")
    then record p {
      pool = record (p.pool) { errors_msg = trim_space (trim_prefix trimmed (codes "errors:")) };
    }
    else if has_prefix trimmed (codes "config:")
    then record p { in_config = true }
    else if not p.in_config
    then p
    else if ends_config line
    then record p { in_config = false }
    else add_vdev pool_name (fields line) p

unfoldable pub parse_lines : Text → Progress → List Text → Progress
parse_lines pool_name p [] = p
parse_lines pool_name p (line ∷ lines) = parse_lines pool_name (parse_line pool_name p line) lines

abbrev pub no_scan : ScanInfo
no_scan = record { kind = []; state = []; end_time = []; errors = pos 0 }

abbrev pub empty_pool : Text → Pool
empty_pool name = record { name = name; state = []; scan = no_scan; vdevs = []; errors_msg = [] }

unfoldable pub parse_zpool_status : Text → Text → Pool
parse_zpool_status output pool_name =
    (parse_lines pool_name (record { pool = empty_pool pool_name; in_config = false })
      (split b'\n' output)).pool
