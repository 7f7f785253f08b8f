-- ===== src/Collector/Files/DirTree/Reading.antt =====
-- The walk from the root's pointer ends and meets no pointer to nothing.
use zfs_nas_dashboard.Prelude.{
  ℕ, zero, suc, ◌+◌, ◌≤◌, ◌<◌, ◌≡◌, refl, subst, Option, some, List, [], ◌∷◌, arith, length,
  get_elem?,
}
use zfs_nas_dashboard.Go.Strings.{Text}
use zfs_nas_dashboard.Collector.Files.DirTree.{
  Node, parse_du_output, DirTree, Dirs, dir, more_dirs, no_dirs,
}
use zfs_nas_dashboard.Collector.Files.DirTree.Pointers.{
  read_dirs, read_node, read_tree, weight, tree_at, du_tree,
}
use zfs_nas_dashboard.Collector.Files.DirTree.Sound.{parse_du_output-IsRooted}
use zfs_nas_dashboard.Collector.Files.DirTree.Wiring.{IsDeeper, AllDeeper, IsWired}

length-le-weight :
    (heap : List Node) (a : ℕ) (n : Node) → get_elem? heap a ≡ some n → length n.path ≤ weight heap
unfolding weight
length-le-weight [] a n h = absurd (cc h)
length-le-weight (x ∷ heap) zero n h =
    let e : x ≡ n = cc h in subst (λ k. length k.path ≤ weight (x ∷ heap)) e (omega arith)
length-le-weight (x ∷ heap) (suc a) n h = omega (arith, length-le-weight heap a n h)

-- A node from which the walk ends.
abbrev Reads : (ℕ → Option DirTree) → ℕ → Type 0
Reads read c = (t : DirTree) × (read c ≡ some t)

read_dirs-some :
    (read : ℕ → Option DirTree) (heap : List Node) (len : ℕ) (cs : List ℕ)
    → ((c : ℕ) → IsDeeper heap len c → Reads read c)
    → AllDeeper heap len cs
    → (ds : Dirs) × (read_dirs read cs ≡ some ds)
unfolding read_dirs
read_dirs-some read heap len [] reads d = (no_dirs, refl)
read_dirs-some read heap len (c ∷ cs) reads (h, d) =
    let (t, e) = reads c h in
    let (ds, f) = read_dirs-some read heap len cs reads d in (more_dirs t ds, rw (e, f) refl)

read_tree-some :
    (fuel : ℕ) (heap : List Node) (a : ℕ) (n : Node)
    → IsWired heap
    → get_elem? heap a ≡ some n
    → weight heap < fuel + length n.path
    → Reads (read_tree fuel heap) a
unfolding read_tree read_node
read_tree-some zero heap a n w e b = absurd (omega (arith, length-le-weight heap a n e))
read_tree-some (suc fuel) heap a n w e b =
    let (ds, f) =
      read_dirs-some (read_tree fuel heap) heap (length n.path) n.children
        (λ c (path, (m, g, q), l). read_tree-some fuel heap c m w g (rw q (omega (arith, b, l))))
        (w a n e) in
    (dir n.name n.path n.size_bytes ds, rw (e, read_node, f) refl)

-- The pointers that parseDuOutput makes are a finite tree, whatever `du` printed and also where it
-- printed paths twice or none at all: walked from the root they meet no cycle and no missing node.
pub du_tree-some : (output root : Text) → (t : DirTree) × (du_tree output root ≡ some t)
unfolding du_tree tree_at
du_tree-some output root =
    let (w, (n, e, q)) = parse_du_output-IsRooted output root in
    let r = parse_du_output output root in
    read_tree-some (suc (weight r.0)) r.0 r.1 n w e (omega arith)
