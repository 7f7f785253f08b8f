-- ===== src/Collector/Files/DirTree/Pointers.antt =====
-- The tree that the nodes of `parseDuOutput` make, as it is walked from the root's pointer.
use zfs_nas_dashboard.Prelude.{
  ℕ, zero, suc, ◌+◌, Option, none, some, List, [], ◌∷◌, length, get_elem?,
}
use zfs_nas_dashboard.Go.Strings.{Text}
use zfs_nas_dashboard.Collector.Files.DirTree.{
  Node, DirTree, dir, Dirs, no_dirs, more_dirs, parse_du_output,
}

infixl 5 ◌>>=◌
abbrev pub ◌>>=◌ : {A B : Type 0} → Option A → (A → Option B) → Option B
none >>= k = none
some a >>= k = k a

-- The children, one after the other.
unfoldable pub read_dirs : (ℕ → Option DirTree) → List ℕ → Option Dirs
read_dirs read [] = some no_dirs
read_dirs read (c ∷ cs) = do d ← read c; ds ← read_dirs read cs; some (more_dirs d ds)

unfoldable pub read_node : (ℕ → Option DirTree) → Option Node → Option DirTree
read_node read none = none
read_node read (some n) = do
  children ← read_dirs read n.children
  some (dir n.name n.path n.size_bytes children)

-- The tree at an address, as deep as the fuel goes: `none` for a pointer to nothing, and where the
-- fuel runs out, as on a cycle.
unfoldable pub read_tree : ℕ → List Node → ℕ → Option DirTree
read_tree zero heap a = none
read_tree (suc fuel) heap a = read_node (read_tree fuel heap) (get_elem? heap a)

-- The lengths of all paths together.
unfoldable pub weight : List Node → ℕ
weight [] = 0
weight (n ∷ heap) = length n.path + weight heap

-- The tree of a heap and a root.
unfoldable pub tree_at : List Node × ℕ → Option DirTree
tree_at (heap, root) = read_tree (suc (weight heap)) heap root

-- The tree of `du`'s output.
unfoldable pub du_tree : Text → Text → Option DirTree
du_tree output root = tree_at (parse_du_output output root)
