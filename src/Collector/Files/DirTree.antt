-- ===== src/Collector/Files/DirTree.antt =====
-- `parseDuOutput`, `parentPath` and `filterWorldReadable`: the tree of directories.
--
-- Nodes are Go pointers: a node is its address in `heap`, a list of all the nodes made, and children
-- are addresses. What `os.Stat` says of a path's permissions is an argument.
pub mod Visible
pub mod Ancestors
pub mod Printed
pub mod Parents
pub mod Pointers
pub mod Wiring
pub mod Sound
pub mod Reading
pub mod Reported
pub mod Attached
pub mod Complete
use zfs_nas_dashboard.Prelude.{
  ℕ, zero, suc, ◌+◌, ◌-◌, ◌*◌, ◌/◌, ◌%◌, ◌^◌, ◌≤◌, ◌<◌, ◌≡◌, refl, sym, ap, subst, ◌∙◌, ◌≢◌, ◌↔◌,
  ◌⊎◌, inl, inr, Bool, true, false, not, ◌&&◌, ◌||◌, Option, none, some, List, [], ◌∷◌, ◌++◌, map,
  reverse, arith, dec_lt, ℕ_discrete, ltb, leb, ◌==◌, if◌then◌else◌, ==_iff, Bool-cases,
  Option-cases, length, get_elem?, get_elem?-lt, length-append, set, take, drop, All, ℤ, pos,
  negsuc, ◌+ℤ◌, ◌*ℤ◌, ◌≤ℤ◌, ◌<ℤ◌, ltb_ℤ, leb_ℤ, eqb_ℤ, eqb_ℤ_iff, pos_part, neg_part, IsInt64,
  wrap64,
}
use zfs_nas_dashboard.Go.Strings.{
  Text, codes, text_eq, trim_prefix, trim_space, split, fields, last_index, join_spaces,
}
use zfs_nas_dashboard.Go.Strconv.{NumError, parse_int}
use zfs_nas_dashboard.Go.Map.{text_keys, insert, lookup}

pub record Entry : Type 0 where
  pub path : Text
  pub bytes : ℤ

pub record Node : Type 0 where
  pub name : Text
  pub path : Text
  pub size_bytes : ℤ
  pub children : List ℕ

entry_at : Text → ℤ × Option NumError → Option Entry
entry_at path (size, none) = some (record { path = path; bytes = size })
entry_at path (size, some _) = none

-- A line of `du`: a size and a path, whose blanks are read as single spaces.
unfoldable pub entry_of : List Text → Option Entry
unfolding entry_at
entry_of (size ∷ w ∷ ws) = entry_at (join_spaces (w ∷ ws)) (parse_int size)
entry_of _ = none

abbrev cons_entry : Option Entry → List Entry → List Entry
cons_entry none es = es
cons_entry (some e) es = e ∷ es

unfoldable pub entries_of : List Text → List Entry
entries_of [] = []
entries_of (line ∷ lines) = cons_entry (entry_of (fields line)) (entries_of lines)

abbrev last_or : Text → List Text → Text
last_or d [] = d
last_or d (p ∷ ps) = last_or p ps

abbrev non_empty_or : Text → Text → Text
non_empty_or d [] = d
non_empty_or d (c ∷ s) = c ∷ s

-- The last component of the path below the root, or the root.
unfoldable pub node_name : Text → Text → Text
node_name root path = non_empty_or root (last_or [] (split b'/' (trim_prefix path root)))

-- The heap, and the map from paths to nodes.
pub record Nodes : Type 0 where
  pub heap : List Node
  pub at_path : List (Text × ℕ)

unfoldable pub add_node : Text → Nodes → Entry → Nodes
add_node root ns e = record {
  heap =
      ns.heap
      ++ record { name = node_name root e.path; path = e.path; size_bytes = e.bytes; children = [] }
        ∷ [];
  at_path = insert e.path (length ns.heap) ns.at_path;
}

unfoldable pub add_nodes : Text → Nodes → List Entry → Nodes
add_nodes root ns [] = ns
add_nodes root ns (e ∷ es) = add_nodes root (add_node root ns e) es

-- The path cut at its last "/", unless that stands first or not at all.
cut_last : Text → Option ℕ → Option Text
cut_last path none = none
cut_last path (some zero) = none
cut_last path (some (suc i)) = some (take (suc i) path)

unfoldable pub dirname : Text → Option Text
unfolding cut_last
dirname path = cut_last path (last_index path (codes "/"))

or_above : Option ℕ → Option ℕ → Option ℕ
or_above (some n) above = some n
or_above none above = above

-- `parentPath` with a bound on the number of cuts.
parent_within : ℕ → Text → List (Text × ℕ) → Option ℕ
unfolding or_above
parent_within zero path nodes = none
parent_within (suc fuel) path nodes = elim (dirname path) [
  | none ↦ none
  | some parent ↦ or_above (lookup parent nodes) (parent_within fuel parent nodes)
]

-- `parentPath`: the nearest ancestor that has a node. A path is cut at most as often as it is long.
unfoldable pub parent_path : Text → List (Text × ℕ) → Option ℕ
unfolding parent_within
parent_path path nodes = parent_within (suc (length path)) path nodes

push_child : ℕ → List Node → ℕ → Option Node → List Node
push_child parent heap child none = heap
push_child parent heap child (some n) =
    set heap parent (record n { children = n.children ++ child ∷ [] })

attach : Nodes → Option ℕ → Option ℕ → Nodes
unfolding push_child
attach ns (some child) (some parent) = record ns {
  heap = push_child parent ns.heap child (get_elem? ns.heap parent);
}
attach ns _ _ = ns

-- Wires a node to its parent, if it has one.
unfoldable pub wire : Text → Nodes → Entry → Nodes
unfolding attach
wire root ns e =
    let wired = attach ns (lookup e.path ns.at_path) (parent_path e.path ns.at_path) in
    if text_eq e.path root then ns else wired

unfoldable pub wire_all : Text → Nodes → List Entry → Nodes
wire_all root ns [] = ns
wire_all root ns (e ∷ es) = wire_all root (wire root ns e) es

-- The root's node, or one of its own if `du` did not report it.
with_root : Text → Nodes → Option ℕ → List Node × ℕ
with_root root ns (some addr) = (ns.heap, addr)
with_root root ns none = (
  ns.heap ++ record { name = root; path = root; size_bytes = pos 0; children = [] } ∷ [],
  length ns.heap,
)

-- The heap of nodes and the address of the root.
unfoldable pub parse_du_output : Text → Text → List Node × ℕ
unfolding with_root
parse_du_output output root =
    let entries = entries_of (split b'\n' (trim_space output)) in
    let made = add_nodes root (record { heap = []; at_path = [] }) entries in
    let ns = wire_all root made entries in with_root root ns (lookup root ns.at_path)

-- A tree as `filterWorldReadable` walks it.
mutual
  pub data DirTree : Type 0 where
    dir : Text → Text → ℤ → Dirs → DirTree

  pub data Dirs : Type 0 where
    no_dirs : Dirs
    more_dirs : DirTree → Dirs → Dirs

-- `os.Stat`: the permission bits of a path, if it can be read.
abbrev pub Perms : Type 0
Perms = Text → Option ℕ

world_readable_at : Option ℕ → Bool
world_readable_at none = false
world_readable_at (some mode) = (mode / 4) % 2 == 1

-- `info.Mode().Perm()&0o004 != 0`, and the path can be read at all.
unfoldable pub world_readable : Perms → Text → Bool
unfolding world_readable_at
world_readable perms path = world_readable_at (perms path)

abbrev keep_dir : Option DirTree → Dirs → Dirs
keep_dir none ds = ds
keep_dir (some d) ds = more_dirs d ds

unfoldable mutual
  pub filter_world_readable : Perms → DirTree → Option DirTree
  filter_world_readable perms (dir name path size children) =
      let kept = some (dir name path size (filter_dirs perms children)) in
      if world_readable perms path then kept else none

  pub filter_dirs : Perms → Dirs → Dirs
  filter_dirs perms no_dirs = no_dirs
  filter_dirs perms (more_dirs d ds) =
      keep_dir (filter_world_readable perms d) (filter_dirs perms ds)
