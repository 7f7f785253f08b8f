-- ===== src/Collector/Files/Collected.antt =====
-- What `Files` returns, and when it fails.
use zfs_nas_dashboard.Prelude.{
  ◌≡◌, refl, sym, ap, subst, ◌↔◌, ◌⊎◌, true, Option, none, some, List, [], ◌∷◌, ◌++◌, In, All, ℤ,
  pos,
}
use zfs_nas_dashboard.Prelude.Result.{Result, ok, err}
use zfs_nas_dashboard.Go.Strings.{Text, codes}
use zfs_nas_dashboard.Go.Strconv.{itoa}
use zfs_nas_dashboard.Config.{Config}
use zfs_nas_dashboard.Collector.Runner.{Error, CommandRunner}
use zfs_nas_dashboard.Collector.Files.{
  FilesResult, filter_tree, collect_dir_tree, collect_user_usage, collect_pool_stats, stats_or_zero,
  files,
}
use zfs_nas_dashboard.Collector.Files.Usage.{Names, Tally, parse_user_usage}
use zfs_nas_dashboard.Collector.Files.DirTree.{Entry, DirTree, Perms, world_readable}
use zfs_nas_dashboard.Collector.Files.DirTree.Printed.{IsPrintable, du_lines, entries_in-du_lines}
use zfs_nas_dashboard.Collector.Files.DirTree.Pointers.{du_tree}
use zfs_nas_dashboard.Collector.Files.DirTree.Reading.{du_tree-some}
use zfs_nas_dashboard.Collector.Files.DirTree.Reported.{Reported, du_tree-Reported}
use zfs_nas_dashboard.Collector.Files.DirTree.Visible.{
  ListedIf, Visible, filter_world_readable-Listed, filter_world_readable-Visible,
}

-- The two commands that `Files` needs.
abbrev pub du_output : Config → CommandRunner → Result Error Text
du_output cfg run =
    run (codes "du")
      (codes "--block-size=1" ∷ (codes "--max-depth=" ++ itoa cfg.scan_depth) ∷ cfg.pool_path ∷ [])

abbrev pub find_output : Config → CommandRunner → Result Error Text
find_output cfg run = run (codes "find") (cfg.pool_path ∷ codes "-printf" ∷ codes "%U %b\n" ∷ [])

-- The result for the two outputs: an error of the first that failed, or else the users of `find`'s
-- output and a tree of what is visible of `du`'s.
abbrev pub Collected :
    Perms
    → Names
    → (Tally → Tally)
    → Config
    → CommandRunner
    → Result Error Text
    → Result Error Text
    → Result Error FilesResult
    → Type 0
Collected perms names range cfg run (err e) found r =
    r ≡ err (codes "dir tree: " ++ (codes "du: " ++ e))
Collected perms names range cfg run (ok out) (err e) r =
    r ≡ err (codes "user usage: " ++ (codes "find: " ++ e))
Collected perms names range cfg run (ok out) (ok found) r =
    (res : FilesResult) × (r ≡ ok res)
    × (res.users ≡ parse_user_usage names range found)
    × ((res.avail_bytes, res.snapshot_bytes) ≡ stats_or_zero (collect_pool_stats cfg run))
    × ((t : DirTree) × (du_tree out cfg.pool_path ≡ some t)
        × ((q : Text) (z : ℤ) → Visible perms t q z ↔ ListedIf res.tree q z))

collected :
    (perms : Perms) (names : Names) (range : Tally → Tally) (cfg : Config) (run : CommandRunner)
    (du found : Result Error Text)
    → du_output cfg run ≡ du
    → find_output cfg run ≡ found
    → Collected perms names range cfg run du found (files perms names range cfg run)
unfolding files collect_dir_tree collect_user_usage filter_tree
collected perms names range cfg run (err e) found d f = rw d refl
collected perms names range cfg run (ok out) (err e) d f = rw (d, f) refl
collected perms names range cfg run (ok out) (ok found) d f =
    let (t, e) = du_tree-some out cfg.pool_path in
    rw (d, f, e) (_, refl, refl, refl, (t, refl, λ q z. filter_world_readable-Visible perms t q z))

-- `Files` fails exactly if `du` or `find` does, with the error of the first; else it has the users of
-- `find`'s output, the sizes of the pool with zero where they are unknown, and a tree that lists a
-- directory with its size exactly if it stands in the tree of `du`'s output, which always is one,
-- and it and all directories above it are readable by everybody.
pub files_lem :
    (perms : Perms) (names : Names) (range : Tally → Tally) (cfg : Config) (run : CommandRunner)
    → Collected perms names range cfg run
        (du_output cfg run)
        (find_output cfg run)
        (files perms names range cfg run)
files_lem perms names range cfg run = collected perms names range cfg run _ _ refl refl

filter_tree-Reported :
    (perms : Perms) (out root : Text) (q : Text) (z : ℤ)
    → ListedIf (filter_tree perms (du_tree out root)) q z
    → (world_readable perms q ≡ true) × Reported out root q z
unfolding filter_tree
filter_tree-Reported perms out root q z l =
    let (t, e) = du_tree-some out root in
    let (readable, listed) = filter_world_readable-Listed perms t q z (rw (e, filter_tree) at l) in
    (readable, du_tree-Reported out root t q z e listed)

tree_of :
    (perms : Perms) (names : Names) (range : Tally → Tally) (cfg : Config) (run : CommandRunner)
    (out : Text) (found : Result Error Text) (res : FilesResult)
    → du_output cfg run ≡ ok out
    → find_output cfg run ≡ found
    → files perms names range cfg run ≡ ok res
    → filter_tree perms (du_tree out cfg.pool_path) ≡ res.tree
unfolding files collect_dir_tree collect_user_usage
tree_of perms names range cfg run out (err e) res d f h = absurd (cc (rw (d, f) at h))
tree_of perms names range cfg run out (ok found) res d f h =
    let same : ok _ ≡ ok res = rw (d, f) at h in ap (λ r. tree_or r) same
  where
    tree_or : Result Error FilesResult → Option DirTree
    tree_or (ok r) = r.tree
    tree_or (err e) = none

-- What `du` reported, or the root, with size zero, where it has no line of its own.
abbrev pub IsReported : List Entry → Text → Text → ℤ → Type 0
IsReported es root q z = In (record { path = q; bytes = z }) es ⊎ ((q ≡ root) × (z ≡ pos 0))

-- Where `du` reports `es`, with sizes that are int64 and not negative, and paths whose blanks, if
-- any, are single spaces inside: no directory that is not readable by everybody, and none that `du` did not report with that size, is in what
-- `Files` returns, but for the pool's path, which may also be there with the size zero.
pub files-Reported :
    (perms : Perms) (names : Names) (range : Tally → Tally) (cfg : Config) (run : CommandRunner)
    (es : List Entry) (res : FilesResult) (q : Text) (z : ℤ)
    → All IsPrintable es
    → du_output cfg run ≡ ok (du_lines es)
    → files perms names range cfg run ≡ ok res
    → ListedIf res.tree q z
    → (world_readable perms q ≡ true) × IsReported es cfg.pool_path q z
files-Reported perms names range cfg run es res q z printable d h l =
    let tree = tree_of perms names range cfg run (du_lines es) _ res d refl h in
    let (readable, reported) =
      filter_tree-Reported perms (du_lines es) cfg.pool_path q z
        (subst (λ t. ListedIf t q z) (sym tree) l) in
    (
      readable,
      subst (λ xs. IsReported xs cfg.pool_path q z) (entries_in-du_lines es printable) reported,
    )
