-- ===== src/Collector/Zfs.antt =====
-- internal/collector/zfs.go: the pool, its datasets and snapshots, and the ARC.
--
-- ZpoolStatus has the parser of `zpool status`, Lists those of `zfs list`, Arc that of the kernel's
-- arcstats; `zfs` here puts them together. Floats are the record `Float64` of Arc, an argument.
pub mod ZpoolStatus
pub mod Lists
pub mod Arc
pub mod Tables
pub mod Report
pub mod ArcValues
pub mod Collection
mod Tests
use Prim.Native.String.{String}
use zfs_nas_dashboard.Prelude.{
  ℕ, zero, suc, ◌+◌, ◌-◌, ◌*◌, ◌/◌, ◌%◌, ◌^◌, ◌≤◌, ◌<◌, ◌≡◌, refl, sym, ap, subst, ◌∙◌, ◌≢◌, ◌↔◌,
  ◌⊎◌, inl, inr, Bool, true, false, not, ◌&&◌, ◌||◌, Option, none, some, List, [], ◌∷◌, ◌++◌, map,
  reverse, arith, dec_lt, ℕ_discrete, ltb, leb, ◌==◌, if◌then◌else◌, ==_iff, Bool-cases,
  Option-cases, length, get_elem?, get_elem?-lt, length-append, set, take, drop, All, ℤ, pos,
  negsuc, ◌+ℤ◌, ◌*ℤ◌, ◌≤ℤ◌, ◌<ℤ◌, ltb_ℤ, leb_ℤ, eqb_ℤ, eqb_ℤ_iff, pos_part, neg_part, IsInt64,
  wrap64,
}
use zfs_nas_dashboard.Prelude.Result.{Result, ok, err, ◌>>=◌}
use zfs_nas_dashboard.Go.Strings.{Text, codes}
use zfs_nas_dashboard.Config.{Config}
use zfs_nas_dashboard.Collector.Runner.{Error, CommandRunner, wrap}
use ZpoolStatus.{Pool, parse_zpool_status}
use Lists.{Dataset, Snapshot, parse_zfs_list, parse_snapshots}
use Arc.{Float64, ArcStats, empty_arc, parse_arc}

pub record ZfsResult (F : Type 0) : Type 0 where
  pub pool : Pool
  pub datasets : List (Dataset F)
  pub snapshots : List Snapshot
  pub arc : ArcStats F
  pub snapshot_count : ℕ
  pub snapshot_total_bytes : ℤ

unfoldable pub collect_pool : Config → CommandRunner → Result Error Pool
collect_pool cfg run = do
  out ← wrap "zpool status" (run (codes "zpool") (codes "status" ∷ codes "-p" ∷ cfg.pool_name ∷ []))
  ok (parse_zpool_status out cfg.pool_name)

unfoldable pub collect_datasets :
    (fl : Float64) → Config → CommandRunner → Result Error (List (Dataset fl.F))
collect_datasets fl cfg run = do
  out ← wrap "zfs list" (
      run (codes "zfs") (
        codes "list"
        ∷ codes "-Hrp"
        ∷ codes "-o"
        ∷ codes "name,used,avail,refer,compressratio,compression"
        ∷ cfg.pool_name
        ∷ []))
  ok (parse_zfs_list fl out)

snapshots_of : Result Error Text → List Snapshot
snapshots_of (ok out) = parse_snapshots out
snapshots_of (err _) = []

-- No snapshots is not an error, and neither is any other failure of the command.
unfoldable pub collect_snapshots : Config → CommandRunner → List Snapshot
unfolding snapshots_of
collect_snapshots cfg run = snapshots_of (
    run (codes "zfs") (
      codes "list"
      ∷ codes "-Hrp"
      ∷ codes "-t"
      ∷ codes "snapshot"
      ∷ codes "-o"
      ∷ codes "name,used,creation"
      ∷ codes "-S"
      ∷ codes "creation"
      ∷ cfg.pool_name
      ∷ []))

-- `collectARC` on what reading the kernel's file gave.
unfoldable pub collect_arc : (fl : Float64) → Result Error Text → Result Error (ArcStats fl.F)
collect_arc fl arcstats = do out ← wrap "read arcstats" arcstats; ok (parse_arc fl out)

-- The empty value on an error.
unfoldable pub arc_or_empty : (fl : Float64) → Result Error (ArcStats fl.F) → ArcStats fl.F
arc_or_empty fl (ok arc) = arc
arc_or_empty fl (err _) = empty_arc fl

-- The loop over the snapshots, in int64.
unfoldable pub total_bytes : ℤ → List Snapshot → ℤ
total_bytes total [] = total
total_bytes total (s ∷ snapshots) = total_bytes (wrap64 (total +ℤ s.used_bytes)) snapshots

unfoldable pub zfs :
    (fl : Float64) → Config → CommandRunner → Result Error Text → Result Error (ZfsResult fl.F)
zfs fl cfg run arcstats = do
  pool ← collect_pool cfg run
  datasets ← collect_datasets fl cfg run
  let snapshots = collect_snapshots cfg run
  ok (record {
    pool = pool;
    datasets = datasets;
    snapshots = snapshots;
    arc = arc_or_empty fl (collect_arc fl arcstats);
    snapshot_count = length snapshots;
    snapshot_total_bytes = total_bytes (pos 0) snapshots;
  })
