-- ===== src/Collector/Files/DuTests.antt =====
-- The tree of a small output of `du`, alone and in what `Files` returns.
use zfs_nas_dashboard.Prelude.{◌≡◌, refl, ◌↔◌, true, some, [], ◌∷◌, if◌then◌else◌, pos}
use zfs_nas_dashboard.Go.Strings.{
  Text, codes, is_space, text_eq, has_prefix, trim_prefix, trim_space, split, fields, last_index,
  join_spaces,
}
use zfs_nas_dashboard.Go.Strconv.{parse_int, itoa}
use zfs_nas_dashboard.Go.Map.{text_keys, lookup, insert}
use zfs_nas_dashboard.Collector.Files.Usage.{parse_user_usage}
use zfs_nas_dashboard.Collector.Files.DirTree.{
  entries_of, entry_of, node_name, add_node, add_nodes, wire, wire_all, parse_du_output,
  parent_path, dirname, DirTree, dir, no_dirs, more_dirs, Perms, filter_world_readable, filter_dirs,
  world_readable,
}
use zfs_nas_dashboard.Prelude.{inl, inr}
use zfs_nas_dashboard.Prelude.Result.{ok, err}
use zfs_nas_dashboard.Config.{Config}
use zfs_nas_dashboard.Config.Errors.{described}
use zfs_nas_dashboard.Collector.Runner.{CommandRunner}
use zfs_nas_dashboard.Collector.Files.{
  FilesResult, files, collect_dir_tree, collect_user_usage, collect_pool_stats, filter_tree,
  stats_or_zero,
}
use zfs_nas_dashboard.Collector.Files.DirTree.Pointers.{
  du_tree, tree_at, read_tree, read_node, read_dirs, weight,
}
use zfs_nas_dashboard.Collector.Files.Collected.{Collected, files_lem, IsReported, files-Reported}
use zfs_nas_dashboard.Collector.Files.DirTree.Visible.{Listed, ListedIn}
use zfs_nas_dashboard.Prelude.{◌≢◌, sym, ap, subst, ◌∙◌, List, In, All, length, arith}
use zfs_nas_dashboard.Collector.Files.DirTree.{Entry}
use zfs_nas_dashboard.Collector.Files.DirTree.Complete.{IsReport, du_tree-Lists}
use zfs_nas_dashboard.Collector.Files.DirTree.Ancestors.{IsSplit, is_name}
use zfs_nas_dashboard.Collector.Files.DirTree.Printed.{IsPrintable, du_lines}
use zfs_nas_dashboard.Collector.Files.Tests.{find_out, ann}

abbrev du_out : Text
du_out = codes "4096\t/tank/a b\n8192\t/tank\n"

abbrev a_line : Entry
a_line = record { path = codes "/tank/a b"; bytes = pos 4096 }

abbrev tank_line : Entry
tank_line = record { path = codes "/tank"; bytes = pos 8192 }

abbrev tank_lines : List Entry
tank_lines = a_line ∷ tank_line ∷ []

tank_out_run : du_lines tank_lines ≡ du_out
unfolding itoa
tank_out_run = refl

tank_lines-IsPrintable : All IsPrintable tank_lines
unfolding is_space
tank_lines-IsPrintable = ((omega arith, refl, refl), ((omega arith, refl, refl), tt))

abbrev run_files : CommandRunner
run_files name args =
    if text_eq name (codes "du")
    then ok du_out
    else if text_eq name (codes "find")
    then ok find_out
    else err (codes "no such command")

abbrev tank_config : Config
tank_config = record (described (λ name. [])) { pool_path = codes "/tank"; scan_depth = pos 3 }

abbrev everybody : Perms
everybody path = some 5

abbrev tank_result : FilesResult
tank_result = record {
  tree = some (
      dir (codes "/tank") (codes "/tank") (pos 8192)
        (more_dirs (dir (codes "a b") (codes "/tank/a b") (pos 4096) no_dirs) no_dirs));
  users = parse_user_usage ann (λ t. t) find_out;
  avail_bytes = pos 0;
  snapshot_bytes = pos 0;
}

files_run : files everybody ann (λ t. t) tank_config run_files ≡ ok tank_result
unfolding files collect_dir_tree collect_user_usage collect_pool_stats text_eq du_tree tree_at
    read_tree read_node read_dirs weight parse_du_output lookup insert add_nodes add_node wire_all
    wire entries_of entry_of split trim_space fields parse_int join_spaces dirname last_index
    has_prefix node_name trim_prefix parent_path filter_world_readable filter_dirs world_readable
    filter_tree stats_or_zero
files_run = refl

files_lem_example :
    Collected everybody ann
      (λ t. t)
      tank_config
      run_files
      (ok du_out)
      (ok find_out)
      (files everybody ann (λ t. t) tank_config run_files)
unfolding text_eq
files_lem_example = files_lem everybody ann (λ t. t) tank_config run_files

files-Reported_example :
    (world_readable everybody (codes "/tank/a b") ≡ true)
    × IsReported tank_lines (codes "/tank") (codes "/tank/a b") (pos 4096)
unfolding text_eq Listed ListedIn
files-Reported_example =
    files-Reported everybody ann (λ t. t) tank_config run_files tank_lines tank_result
      (codes "/tank/a b") (pos 4096) tank_lines-IsPrintable (ap ok (sym tank_out_run)) files_run
      (inr (inl (inl (refl, refl))))

lines_once :
    (e e' : Entry) → In e tank_lines → In e' tank_lines → e.path ≡ e'.path → e.bytes ≡ e'.bytes
lines_once e e' (inl p) (inl q) h = ap (λ k. k.bytes) (sym p ∙ q)
lines_once e e' (inl p) (inr (inl q)) h =
    absurd (omega (arith, ap length (ap (λ k. k.path) p ∙ h ∙ ap (λ k. k.path) (sym q))))
lines_once e e' (inl p) (inr (inr n)) h = absurd n
lines_once e e' (inr (inl p)) (inl q) h =
    absurd (omega (arith, ap length (ap (λ k. k.path) p ∙ h ∙ ap (λ k. k.path) (sym q))))
lines_once e e' (inr (inl p)) (inr (inl q)) h = ap (λ k. k.bytes) (sym p ∙ q)
lines_once e e' (inr (inl p)) (inr (inr n)) h = absurd n
lines_once e e' (inr (inr n)) i h = absurd n

line_above :
    (e : Entry)
    → In e tank_lines
    → e.path ≢ codes "/tank"
    → (e' : Entry) × (name : Text) × In e' tank_lines
      × (e'.path ≢ [])
      × (is_name name ≡ true)
      × IsSplit e.path e'.path name
line_above e (inl p) n = (
  tank_line,
  codes "a b",
  inr (inl refl),
  (λ h. cc h),
  refl,
  subst (λ k. IsSplit k.path (codes "/tank") (codes "a b")) p refl,
)
line_above e (inr (inl p)) n = absurd (n (sym (ap (λ k. k.path) p)))
line_above e (inr (inr no_line)) n = absurd no_line

tank_lines-IsReport : IsReport (codes "/tank") tank_lines
tank_lines-IsReport = record {
  once = lines_once;
  root_line = (tank_line, inr (inl refl), refl);
  above = line_above;
}

abbrev tank_tree : DirTree
tank_tree =
    dir (codes "/tank") (codes "/tank") (pos 8192)
      (more_dirs (dir (codes "a b") (codes "/tank/a b") (pos 4096) no_dirs) no_dirs)

tank_tree_run : du_tree du_out (codes "/tank") ≡ some tank_tree
unfolding text_eq du_tree tree_at read_tree read_node read_dirs weight parse_du_output lookup insert
    add_nodes add_node wire_all wire entries_of entry_of split trim_space fields parse_int
    join_spaces dirname last_index has_prefix node_name trim_prefix parent_path
tank_tree_run = refl

du_tree-Lists_example :
    Listed tank_tree (codes "/tank/a b") (pos 4096)
    ↔ ((e : Entry) × In e tank_lines × (e.path ≡ codes "/tank/a b") × (e.bytes ≡ pos 4096))
du_tree-Lists_example =
    du_tree-Lists tank_lines (codes "/tank") tank_tree (codes "/tank/a b") (pos 4096)
      tank_lines-IsPrintable tank_lines-IsReport
      (ap (λ out. du_tree out (codes "/tank")) tank_out_run ∙ tank_tree_run)
