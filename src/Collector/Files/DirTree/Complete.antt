-- ===== src/Collector/Files/DirTree/Complete.antt =====
-- The tree lists every directory that `du` reported.
use zfs_nas_dashboard.Prelude.{
  ℕ, zero, suc, ◌<◌, ◌≡◌, refl, sym, ap, subst, ◌∙◌, ◌≢◌, ◌↔◌, inl, inr, Option, some, List, [],
  ◌∷◌, arith, Bool-cases, Option-cases, length, get_elem?, In, All, true, ℤ,
}
use zfs_nas_dashboard.Go.Strings.{Text, text_eq}
use zfs_nas_dashboard.Go.Strings.Laws.{text_eq_iff}
use zfs_nas_dashboard.Go.Map.{text_keys, lookup}
use zfs_nas_dashboard.Collector.Files.DirTree.{
  Entry, Node, Nodes, add_nodes, dirname, parent_path, wire_all, with_root, parse_du_output,
  DirTree, Dirs, dir, more_dirs,
}
use zfs_nas_dashboard.Collector.Files.DirTree.Ancestors.{IsSplit, is_name, dirname-in}
use zfs_nas_dashboard.Collector.Files.DirTree.Printed.{
  IsPrintable, du_lines, entries_in, entries_in-du_lines,
}
use zfs_nas_dashboard.Collector.Files.DirTree.Parents.{
  dirname-IsShorter, shorter, parent_path-above,
}
use zfs_nas_dashboard.Collector.Files.DirTree.Pointers.{
  read_dirs, read_node, read_tree, tree_at, du_tree, weight, ◌>>=◌,
}
use zfs_nas_dashboard.Collector.Files.DirTree.Sound.{
  IsSound, nothing-IsSound, add_nodes-IsSound, wire_all-IsSound,
}
use zfs_nas_dashboard.Collector.Files.DirTree.Reported.{
  AllNodes, add_nodes-AllNodes, wire_all-AllNodes, read_tree-Listed,
}
use zfs_nas_dashboard.Collector.Files.DirTree.Attached.{
  Knows, HasChild, add_nodes-In, wire_all-Grows, wire_all-HasChild,
}
use zfs_nas_dashboard.Collector.Files.DirTree.Visible.{Listed, ListedIn}

-- A node that the walk of the tree `t` comes to.
abbrev Shown : List Node → DirTree → ℕ → Type 0
Shown heap t a =
    (fuel : ℕ) × (u : DirTree) × (read_tree fuel heap a ≡ some u)
    × ((q : Text) (z : ℤ) → Listed u q z → Listed t q z)

read_dirs-In :
    (read : ℕ → Option DirTree) (cs : List ℕ) (ds : Dirs) (c : ℕ)
    → read_dirs read cs ≡ some ds
    → In c cs
    → (u : DirTree) × (read c ≡ some u) × ((q : Text) (z : ℤ) → Listed u q z → ListedIn ds q z)
unfolding read_dirs ListedIn
read_dirs-In read [] ds c e i = absurd i
read_dirs-In read (x ∷ cs) ds c e i = elim (Option-cases (read x)) [
  | inl f ↦ absurd (cc (rw (f, ◌>>=◌) at e))
  | inr (t, f) ↦ elim (Option-cases (read_dirs read cs)) [
    | inl g ↦ absurd (cc (rw (f, g, ◌>>=◌) at e))
    | inr (rest, g) ↦
        let same : more_dirs t rest ≡ ds = cc (rw (f, g, ◌>>=◌) at e) in
        elim i [
          | inl h ↦ (t, ap read (sym h) ∙ f, λ q z l. subst (λ d. ListedIn d q z) same (inl l))
          | inr j ↦
              let (u, k, m) = read_dirs-In read cs rest c g j in
              (u, k, λ q z l. subst (λ d. ListedIn d q z) same (inr (m q z l)))
        ]
  ]
]

Shown-child :
    (heap : List Node) (t : DirTree) (a c : ℕ) → Shown heap t a → HasChild heap a c → Shown heap t c
unfolding read_tree read_node Listed
Shown-child heap t a c (zero, u, e, up) h = absurd (cc e)
Shown-child heap t a c (suc fuel, u, e, up) (n, f, i) =
    elim (Option-cases (read_dirs (read_tree fuel heap) n.children)) [
      | inl g ↦ absurd (cc (rw (f, read_node, g, ◌>>=◌) at e))
      | inr (ds, g) ↦
          let same : dir n.name n.path n.size_bytes ds ≡ u =
            cc (rw (f, read_node, g, ◌>>=◌) at e) in
          let (v, k, m) = read_dirs-In (read_tree fuel heap) n.children ds c g i in
          (fuel, v, k, λ q z l. up q z (subst (λ d. Listed d q z) same (inr (m q z l))))
    ]

Shown-Listed :
    (heap : List Node) (t : DirTree) (a : ℕ) (n : Node)
    → Shown heap t a
    → get_elem? heap a ≡ some n
    → Listed t n.path n.size_bytes
unfolding read_tree read_node Listed
Shown-Listed heap t a n (zero, u, e, up) f = absurd (cc e)
Shown-Listed heap t a n (suc fuel, u, e, up) f =
    elim (Option-cases (read_dirs (read_tree fuel heap) n.children)) [
      | inl g ↦ absurd (cc (rw (f, read_node, g, ◌>>=◌) at e))
      | inr (ds, g) ↦
          let same : dir n.name n.path n.size_bytes ds ≡ u =
            cc (rw (f, read_node, g, ◌>>=◌) at e) in
          up n.path n.size_bytes (subst (λ d. Listed d n.path n.size_bytes) same (inl (refl, refl)))
    ]

-- What `du` reports: no path with two sizes, the root, and with each path below it the directory that
-- holds it, which is the path without its last name.
pub record IsReport (root : Text) (es : List Entry) : Type 0 where
  pub once : (e e' : Entry) → In e es → In e' es → e.path ≡ e'.path → e.bytes ≡ e'.bytes
  pub root_line : (e : Entry) × In e es × (e.path ≡ root)
  pub above :
      (e : Entry)
      → In e es
      → e.path ≢ root
      → (e' : Entry) × (name : Text) × In e' es
        × (e'.path ≢ [])
        × (is_name name ≡ true)
        × IsSplit e.path e'.path name

module _ (root : Text) (es : List Entry) (report : IsReport root es) where
  none_yet : Nodes
  none_yet = record { heap = []; at_path = [] }

  abbrev made : Nodes
  made = add_nodes root none_yet es

  abbrev wired : Nodes
  wired = wire_all root made es

  made-IsSound : IsSound made
  unfolding none_yet
  made-IsSound = add_nodes-IsSound root none_yet es nothing-IsSound

  parent_of :
      (e e' : Entry) (a : ℕ)
      → dirname e.path ≡ some e'.path
      → lookup e'.path made.at_path ≡ some a
      → parent_path e.path made.at_path ≡ some a
  parent_of e e' a d h = parent_path-above e.path made.at_path ∙ rw (d, h) refl

  -- From the root down, the walk comes to the node of every entry.
  shown :
      (t : DirTree) (r : ℕ)
      → lookup root made.at_path ≡ some r
      → Shown wired.heap t r
      → (k : ℕ) (e : Entry) → In e es
      → length e.path < k
      → (a : ℕ) × (lookup e.path made.at_path ≡ some a) × Shown wired.heap t a
  shown t r h top zero e i l = absurd (omega (arith, l))
  shown t r h top (suc k) e i l = elim (Bool-cases (text_eq e.path root)) [
    | inl q ↦ (r, ap (λ p. lookup p made.at_path) ((text_eq_iff e.path root).0 q) ∙ h, top)
    | inr q ↦
        let (e', name, i', n, w, split_at) =
          report.above e i (λ p. absurd (cc (q, (text_eq_iff e.path root).1 p))) in
        let d = dirname-in e.path e'.path name n w split_at in
        let b = shorter (length e.path) (dirname e.path) d (dirname-IsShorter e.path) in
        let (a', h', s') = shown t r h top k e' i' (omega (arith, l, b)) in
        let (a, f) = add_nodes-In root none_yet es e i in
        (
          a,
          f,
          Shown-child wired.heap t a' a s'
              (wire_all-HasChild root made es e a' a i made-IsSound q f (parent_of e e' a' d h')),
        )
  ]

  abbrev IsEntry : Text → ℤ → Type 0
  IsEntry q z = (e : Entry) × In e es × (e.path ≡ q) × (e.bytes ≡ z)

  all_entries : AllNodes IsEntry wired.heap
  unfolding none_yet
  all_entries = wire_all-AllNodes IsEntry root made es (
      add_nodes-AllNodes IsEntry root none_yet es (λ e i. (e, i, refl, refl))
        (λ a n h. absurd (cc h)))

  -- The root has a line, so no node is made up for it.
  root_address : Knows made.at_path root
  root_address =
      let (e, i, q) = report.root_line in
      subst (λ p. Knows made.at_path p) q (add_nodes-In root none_yet es e i)

  listed :
      (t : DirTree) (fuel r : ℕ)
      → lookup root made.at_path ≡ some r
      → read_tree fuel wired.heap r ≡ some t
      → (q : Text) (z : ℤ) → Listed t q z ↔ IsEntry q z
  listed t fuel r h g q z = (
    (λ l. read_tree-Listed IsEntry fuel wired.heap r t q z all_entries g l),
    λ x.
        let (e, i, p, b) = x in
        let (a, f, s) =
          shown t r h (fuel, t, g, λ q z l. l) (suc (length e.path)) e i (omega arith) in
        let sound = wire_all-IsSound root made es made-IsSound in
        let (n, k, m) = sound.index e.path a (rw ((wire_all-Grows root made es).0) f) in
        let (e', i', p', b') = all_entries a n k in
        let same = report.once e' e i' i (p' ∙ m) in
        subst (λ y. Listed t y z) (m ∙ p)
          (subst (Listed t n.path) (sym b' ∙ same ∙ b) (Shown-Listed wired.heap t a n s k)),
  )

tree-Lists :
    (output root : Text) (t : DirTree) (q : Text) (z : ℤ)
    → IsReport root (entries_in output)
    → du_tree output root ≡ some t
    → Listed t q z ↔ ((e : Entry) × In e (entries_in output) × (e.path ≡ q) × (e.bytes ≡ z))
unfolding du_tree tree_at parse_du_output with_root none_yet
tree-Lists output root t q z report h =
    let es = entries_in output in
    let (r, k) = root_address root es report in
    let known : lookup root (wired root es report).at_path ≡ some r =
      rw ((wire_all-Grows root (made root es report) es).0) k in
    listed root es report t (suc (weight (wired root es report).heap)) r k
      (rw (known, with_root) at h) q z

-- Where `du` reported no path with two sizes, the root, and above each path below it the directory
-- that holds it, the tree of its output lists a directory with a size exactly if `du` reported that
-- path with that size. The sizes must be int64 and not negative; a path may have blanks, each a
-- single space inside.
pub du_tree-Lists :
    (es : List Entry) (root : Text) (t : DirTree) (q : Text) (z : ℤ)
    → All IsPrintable es
    → IsReport root es
    → du_tree (du_lines es) root ≡ some t
    → Listed t q z ↔ ((e : Entry) × In e es × (e.path ≡ q) × (e.bytes ≡ z))
du_tree-Lists es root t q z printable report h =
    let back = entries_in-du_lines es printable in
    subst (λ xs. Listed t q z ↔ ((e : Entry) × In e xs × (e.path ≡ q) × (e.bytes ≡ z))) back
      (tree-Lists (du_lines es) root t q z (subst (IsReport root) (sym back) report) h)
