-- ===== src/Collector/Files/DirTree/Reported.antt =====
-- What the tree lists is what `du` reported.
use zfs_nas_dashboard.Prelude.{
  ℕ, zero, suc, ◌≡◌, refl, sym, ap, subst, ◌∙◌, ◌⊎◌, inl, inr, Option, none, some, List, [], ◌∷◌,
  ◌++◌, ℕ_discrete, Bool-cases, Option-cases, get_elem?, get_elem?-lt, get_elem?-set_self,
  get_elem?-set_ne, set, In, ℤ, pos,
}
use zfs_nas_dashboard.Go.Strings.{Text, split, trim_space, text_eq}
use zfs_nas_dashboard.Collector.Files.DirTree.{
  Entry, Node, Nodes, add_node, add_nodes, push_child, attach, wire, wire_all, with_root,
  entries_of, parse_du_output, DirTree, Dirs, dir, more_dirs, no_dirs,
}
use zfs_nas_dashboard.Go.Map.{text_keys}
use zfs_nas_dashboard.Collector.Files.DirTree.Pointers.{
  read_dirs, read_node, read_tree, tree_at, du_tree, ◌>>=◌,
}
use zfs_nas_dashboard.Collector.Files.DirTree.Wiring.{append_cases, with_child}
use zfs_nas_dashboard.Collector.Files.DirTree.Visible.{Listed, ListedIn}

-- A statement about path and size that holds of every node.
abbrev pub AllNodes : (Text → ℤ → Type 0) → List Node → Type 0
AllNodes P heap = (a : ℕ) (n : Node) → get_elem? heap a ≡ some n → P n.path n.size_bytes

abbrev pub AllEntries : (Text → ℤ → Type 0) → List Entry → Type 0
AllEntries P es = (e : Entry) → In e es → P e.path e.bytes

module _ (P : Text → ℤ → Type 0) where
  append-AllNodes :
      (heap : List Node) (n : Node)
      → P n.path n.size_bytes
      → AllNodes P heap
      → AllNodes P (heap ++ n ∷ [])
  append-AllNodes heap n p all a m h = elim (append_cases heap n a m h) [
    | inl g ↦ all a m g
    | inr (e, f) ↦ subst (λ k. P k.path k.size_bytes) e p
  ]

  set-AllNodes :
      (heap : List Node) (parent child : ℕ) (n : Node)
      → get_elem? heap parent ≡ some n
      → AllNodes P heap
      → AllNodes P (set heap parent (with_child n child))
  set-AllNodes heap parent child n e all a m f = elim (ℕ_discrete parent a) [
    | yes q ↦
        let same : with_child n child ≡ m = cc (
          sym (get_elem?-set_self heap parent (with_child n child) (get_elem?-lt heap parent e))
          ∙ ap (get_elem? (set heap parent (with_child n child))) q
          ∙ f) in
        subst (λ k. P k.path k.size_bytes) same (all parent n e)
    | no q ↦ all a m (sym (get_elem?-set_ne heap parent a _ q) ∙ f)
  ]

  pub add_nodes-AllNodes :
      (root : Text) (ns : Nodes) (es : List Entry)
      → AllEntries P es
      → AllNodes P ns.heap
      → AllNodes P (add_nodes root ns es).heap
  unfolding add_nodes add_node
  add_nodes-AllNodes root ns [] p all = all
  add_nodes-AllNodes root ns (e ∷ es) p all =
      add_nodes-AllNodes root (add_node root ns e) es (λ f i. p f (inr i))
        (append-AllNodes ns.heap _ (p e (inl refl)) all)

  attach-AllNodes :
      (ns : Nodes) (child parent : Option ℕ)
      → AllNodes P ns.heap
      → AllNodes P (attach ns child parent).heap
  unfolding attach push_child
  attach-AllNodes ns (some c) (some a) all = elim (Option-cases (get_elem? ns.heap a)) [
    | inl e ↦ rw (e, push_child) all
    | inr (n, e) ↦ rw (e, push_child) (set-AllNodes ns.heap a c n e all)
  ]
  attach-AllNodes ns (some c) none all = all
  attach-AllNodes ns none parent all = all

  wire-AllNodes :
      (root : Text) (ns : Nodes) (e : Entry) → AllNodes P ns.heap → AllNodes P (wire root ns e).heap
  unfolding wire
  wire-AllNodes root ns e all = elim (Bool-cases (text_eq e.path root)) [
    | inl q ↦ rw q all
    | inr q ↦ rw q (attach-AllNodes ns _ _ all)
  ]

  pub wire_all-AllNodes :
      (root : Text) (ns : Nodes) (es : List Entry)
      → AllNodes P ns.heap
      → AllNodes P (wire_all root ns es).heap
  unfolding wire_all
  wire_all-AllNodes root ns [] all = all
  wire_all-AllNodes root ns (e ∷ es) all =
      wire_all-AllNodes root (wire root ns e) es (wire-AllNodes root ns e all)

  with_root-AllNodes :
      (root : Text) (ns : Nodes) (o : Option ℕ)
      → P root (pos 0)
      → AllNodes P ns.heap
      → AllNodes P (with_root root ns o).0
  unfolding with_root
  with_root-AllNodes root ns (some a) p all = all
  with_root-AllNodes root ns none p all = append-AllNodes ns.heap _ p all

  -- What a walk lists are nodes of the heap.
  read_dirs-Listed :
      (read : ℕ → Option DirTree) (cs : List ℕ) (ds : Dirs) (q : Text) (z : ℤ)
      → ((c : ℕ) (t : DirTree) → read c ≡ some t → Listed t q z → P q z)
      → read_dirs read cs ≡ some ds
      → ListedIn ds q z
      → P q z
  unfolding read_dirs ListedIn
  read_dirs-Listed read [] ds q z h e l =
      let same : no_dirs ≡ ds = cc (e) in absurd (subst (λ d. ListedIn d q z) (sym same) l)
  read_dirs-Listed read (c ∷ cs) ds q z h e l = elim (Option-cases (read c)) [
    | inl f ↦ absurd (cc (rw (f, ◌>>=◌) at e))
    | inr (t, f) ↦ elim (Option-cases (read_dirs read cs)) [
      | inl g ↦ absurd (cc (rw (f, g, ◌>>=◌) at e))
      | inr (rest, g) ↦
          let same : more_dirs t rest ≡ ds = cc (rw (f, g, ◌>>=◌) at e) in
          elim (subst (λ d. ListedIn d q z) (sym same) l) [
            | inl here ↦ h c t f here
            | inr below ↦ read_dirs-Listed read cs rest q z h g below
          ]
    ]
  ]

  pub read_tree-Listed :
      (fuel : ℕ) (heap : List Node) (a : ℕ) (t : DirTree) (q : Text) (z : ℤ)
      → AllNodes P heap
      → read_tree fuel heap a ≡ some t
      → Listed t q z
      → P q z
  unfolding read_tree read_node Listed
  read_tree-Listed zero heap a t q z all e l = absurd (cc e)
  read_tree-Listed (suc fuel) heap a t q z all e l = elim (Option-cases (get_elem? heap a)) [
    | inl f ↦ absurd (cc (rw (f, read_node) at e))
    | inr (n, f) ↦ elim (Option-cases (read_dirs (read_tree fuel heap) n.children)) [
      | inl g ↦ absurd (cc (rw (f, read_node, g, ◌>>=◌) at e))
      | inr (ds, g) ↦
          let same : dir n.name n.path n.size_bytes ds ≡ t =
            cc (rw (f, read_node, g, ◌>>=◌) at e) in
          elim (subst (λ d. Listed d q z) (sym same) l) [
            | inl (p, s) ↦ subst (λ k. P k z) p (subst (P n.path) s (all a n f))
            | inr below ↦
                read_dirs-Listed (read_tree fuel heap) n.children ds q z
                  (λ c u r m. read_tree-Listed fuel heap c u q z all r m) g below
          ]
    ]
  ]

-- A line of the output with that path and size; or the root, which has size zero if it has no line.
abbrev pub Reported : Text → Text → Text → ℤ → Type 0
Reported output root q z =
    In (record { path = q; bytes = z }) (entries_of (split b'\n' (trim_space output)))
    ⊎ ((q ≡ root) × (z ≡ pos 0))

pub du_tree-Reported :
    (output root : Text) (t : DirTree) (q : Text) (z : ℤ)
    → du_tree output root ≡ some t
    → Listed t q z
    → Reported output root q z
unfolding du_tree tree_at parse_du_output
du_tree-Reported output root t q z e l =
    let P = Reported output root in
    let es = entries_of (split b'\n' (trim_space output)) in
    let none_yet : Nodes = record { heap = []; at_path = [] } in
    let made = add_nodes root none_yet es in
    let ns = wire_all root made es in
    read_tree-Listed P _ _ _ t q z
      (with_root-AllNodes P root ns _ (inr (refl, refl)) (
        wire_all-AllNodes P root made es
          (add_nodes-AllNodes P root none_yet es (λ e i. inl i) (λ a n h. absurd (cc h)))))
      e l
