-- ===== src/Collector/Files/Tests.antt =====
-- The files collector on small outputs.
use mathlib.Core.List.{Perm}
use mathlib.Core.List.Perm
use zfs_nas_dashboard.Prelude.{
  ◌≡◌, refl, ◌↔◌, true, none, some, [], ◌∷◌, map, if◌then◌else◌, pos, ◌+ℤ◌, ◌*ℤ◌, wrap64,
}
use zfs_nas_dashboard.Go.Strings.{
  Text, codes, text_eq, text_lt, has_prefix, trim_prefix, trim_space, split, fields, last_index,
  join_spaces,
}
use zfs_nas_dashboard.Go.Strconv.{parse_int, atoi}
use zfs_nas_dashboard.Go.Map.{text_keys, lookup, insert, get_or_zero}
use zfs_nas_dashboard.Collector.Files.Usage.{
  Names, Tally, owner, credit, credit_blocks, add_file, tally_lines, tally_of, usage_of, less,
  parse_user_usage,
}
use zfs_nas_dashboard.Collector.Files.Totals.{total_of, tally_of-total}
use zfs_nas_dashboard.Collector.Files.Ranking.{is_ranked, parse_user_usage_unique}
use zfs_nas_dashboard.Collector.Files.DirTree.{
  entries_of, entry_of, node_name, add_node, add_nodes, wire, wire_all, parse_du_output,
  parent_path, dirname, DirTree, dir, no_dirs, more_dirs, Perms, filter_world_readable, filter_dirs,
  world_readable,
}
use zfs_nas_dashboard.Collector.Files.DirTree.Visible.{
  Visible, ListedIf, filter_world_readable-Visible,
}
use zfs_nas_dashboard.Collector.Files.DirTree.Parents.{Nearest, parent_path-Nearest}

abbrev pub find_out : Text
find_out = codes "1000 8\n0 2\n1001 8\n1000 x\n999 1\n1000 1\n"

abbrev pub ann : Names
ann uid = if text_eq uid (codes "1000") then some (codes "ann") else none

abbrev find_tally : Tally
find_tally = (codes "ann", pos 4608) ∷ (codes "system", pos 1536) ∷ (codes "1001", pos 4096) ∷ []

tally_run : tally_of ann find_out ≡ find_tally
unfolding tally_of tally_lines add_file credit_blocks credit owner insert lookup text_eq split
    fields trim_space parse_int atoi ◌+ℤ◌ ◌*ℤ◌ wrap64
tally_run = refl

abbrev by_size : Tally
by_size = (codes "ann", pos 4608) ∷ (codes "1001", pos 4096) ∷ (codes "system", pos 1536) ∷ []

by_size-perm : Perm by_size (tally_of ann find_out)
by_size-perm = rw tally_run (Perm.cons _ (Perm.swap _ _ _))

tally_of-total_example :
    get_or_zero (pos 0) (lookup (codes "ann") (tally_of ann find_out))
    ≡ total_of ann (codes "ann") (pos 0) (split b'\n' (trim_space find_out))
tally_of-total_example = tally_of-total ann find_out (codes "ann")

parse_user_usage_unique_example :
    (is_ranked (parse_user_usage ann (λ t. t) find_out) ≡ true)
    × (parse_user_usage ann (λ t. t) find_out ≡ map usage_of by_size)
unfolding less text_lt usage_of
parse_user_usage_unique_example =
    parse_user_usage_unique ann (λ t. t) find_out by_size Perm.refl by_size-perm refl

du_run : parse_du_output (codes "10\t/t/a/b\n30\t/t/a\n50\t/t\n") (codes "/t") ≡ (
  record { name = codes "b"; path = codes "/t/a/b"; size_bytes = pos 10; children = [] }
      ∷ record { name = codes "a"; path = codes "/t/a"; size_bytes = pos 30; children = 0 ∷ [] }
      ∷ record { name = codes "/t"; path = codes "/t"; size_bytes = pos 50; children = 1 ∷ [] }
      ∷ [],
  2,
)
unfolding parse_du_output entries_of entry_of node_name add_node add_nodes wire wire_all parent_path
    dirname join_spaces insert lookup text_eq has_prefix trim_prefix trim_space split fields
    last_index parse_int
du_run = refl

abbrev small_tree : DirTree
small_tree =
    dir (codes "t") (codes "/t") (pos 50)
      (more_dirs (dir (codes "a") (codes "/t/a") (pos 30) no_dirs) no_dirs)

abbrev perms : Perms
perms path = if text_eq path (codes "/t") then some 493 else some 448

filter_run :
    filter_world_readable perms small_tree ≡ some (dir (codes "t") (codes "/t") (pos 50) no_dirs)
unfolding filter_world_readable filter_dirs world_readable text_eq
filter_run = refl

filter_world_readable-Visible_example :
    Visible perms small_tree (codes "/t/a") (pos 30)
    ↔ ListedIf (filter_world_readable perms small_tree) (codes "/t/a") (pos 30)
filter_world_readable-Visible_example =
    filter_world_readable-Visible perms small_tree (codes "/t/a") (pos 30)

parent_path-Nearest_example :
    Nearest (codes "/t/a/b") ((codes "/t", 2) ∷ (codes "/", 1) ∷ []) (some 2)
unfolding parent_path dirname last_index has_prefix lookup text_eq
parent_path-Nearest_example =
    parent_path-Nearest (codes "/t/a/b") ((codes "/t", 2) ∷ (codes "/", 1) ∷ [])
