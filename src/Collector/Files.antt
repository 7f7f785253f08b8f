-- ===== src/Collector/Files.antt =====
-- internal/collector/files.go: the size of directories and of what each user owns.
--
-- Usage has the tally of `find`'s output by user, DirTree the tree made of `du`'s. Files as they
-- are seen by `os.Stat`, and the names of users, are arguments.
pub mod Usage
pub mod Totals
pub mod Ranking
pub mod DirTree
pub mod Collected
mod Tests
mod DuTests
use Prim.Native.String.{String}
use zfs_nas_dashboard.Prelude.{
  ℕ, zero, suc, ◌+◌, ◌-◌, ◌*◌, ◌/◌, ◌%◌, ◌^◌, ◌≤◌, ◌<◌, ◌≡◌, refl, sym, ap, subst, ◌∙◌, ◌≢◌, ◌↔◌,
  ◌⊎◌, inl, inr, Bool, true, false, not, ◌&&◌, ◌||◌, Option, none, some, List, [], ◌∷◌, ◌++◌, map,
  reverse, arith, dec_lt, ℕ_discrete, ltb, leb, ◌==◌, if◌then◌else◌, ==_iff, Bool-cases,
  Option-cases, length, get_elem?, get_elem?-lt, length-append, set, take, drop, All, ℤ, pos,
  negsuc, ◌+ℤ◌, ◌*ℤ◌, ◌≤ℤ◌, ◌<ℤ◌, ltb_ℤ, leb_ℤ, eqb_ℤ, eqb_ℤ_iff, pos_part, neg_part, IsInt64,
  wrap64,
}
use zfs_nas_dashboard.Prelude.Result.{Result, ok, err, ◌>>=◌}
use zfs_nas_dashboard.Go.Strings.{Text, codes, trim_space, split}
use zfs_nas_dashboard.Go.Strconv.{NumError, parse_int, itoa}
use zfs_nas_dashboard.Config.{Config}
use zfs_nas_dashboard.Collector.Runner.{Error, CommandRunner, wrap}
use DirTree.{Perms, filter_world_readable}
use DirTree.Pointers.{du_tree}
use Usage.{Names, Tally, UserUsage, parse_user_usage}

-- `snapshotBytes += v` for the lines that are integers.
add_bytes : ℤ → ℤ × Option NumError → ℤ
add_bytes total (v, none) = wrap64 (total +ℤ v)
add_bytes total (v, some _) = total

unfoldable pub sum_lines : ℤ → List Text → ℤ
unfolding add_bytes
sum_lines total [] = total
sum_lines total (line ∷ lines) = sum_lines (add_bytes total (parse_int (trim_space line))) lines

snapshot_bytes : Result Error Text → ℤ
snapshot_bytes (ok out) = sum_lines (pos 0) (split b'\n' (trim_space out))
snapshot_bytes (err _) = pos 0

abbrev zfs_get : CommandRunner → String → String → Text → Result Error Text
zfs_get run flags property pool =
    run (codes "zfs")
      (codes "get" ∷ codes flags ∷ codes "-o" ∷ codes "value" ∷ codes property ∷ pool ∷ [])

-- The available bytes and those of snapshots.
unfoldable pub collect_pool_stats : Config → CommandRunner → Result Error (ℤ × ℤ)
unfolding snapshot_bytes
collect_pool_stats cfg run = do
  out ← zfs_get run "-Hp" "avail" cfg.pool_name
  ok (
    (parse_int (trim_space out)).0,
    snapshot_bytes (zfs_get run "-Hrp" "usedbysnapshots" cfg.pool_name),
  )

-- The usage of each user, from `find`.
unfoldable pub collect_user_usage :
    Names → (Tally → Tally) → Config → CommandRunner → Result Error (List UserUsage)
collect_user_usage names range cfg run = do
  out ← wrap "find" (run (codes "find") (cfg.pool_path ∷ codes "-printf" ∷ codes "%U %b\n" ∷ []))
  ok (parse_user_usage names range out)

-- `FilesResult`; the tree is nil where the root is not readable by everybody.
pub record FilesResult : Type 0 where
  pub tree : Option DirTree.DirTree
  pub users : List UserUsage
  pub avail_bytes : ℤ
  pub snapshot_bytes : ℤ

unfoldable pub filter_tree : Perms → Option DirTree.DirTree → Option DirTree.DirTree
filter_tree perms none = none
filter_tree perms (some t) = filter_world_readable perms t

-- The tree of `du`, less what is not readable by everybody.
unfoldable pub collect_dir_tree :
    Perms → Config → CommandRunner → Result Error (Option DirTree.DirTree)
unfolding filter_tree
collect_dir_tree perms cfg run = do
  out ← wrap "du" (
      run (codes "du") (
        codes "--block-size=1"
        ∷ (codes "--max-depth=" ++ itoa cfg.scan_depth)
        ∷ cfg.pool_path
        ∷ []))
  ok (filter_tree perms (du_tree out cfg.pool_path))

-- `avail, snapshot, _ :=`.
unfoldable pub stats_or_zero : Result Error (ℤ × ℤ) → ℤ × ℤ
stats_or_zero (ok stats) = stats
stats_or_zero (err _) = (pos 0, pos 0)

-- `Files`.
unfoldable pub files :
    Perms → Names → (Tally → Tally) → Config → CommandRunner → Result Error FilesResult
unfolding stats_or_zero
files perms names range cfg run = do
  tree ← wrap "dir tree" (collect_dir_tree perms cfg run)
  users ← wrap "user usage" (collect_user_usage names range cfg run)
  let stats = stats_or_zero (collect_pool_stats cfg run)
  ok (record { tree = tree; users = users; avail_bytes = stats.0; snapshot_bytes = stats.1 })
