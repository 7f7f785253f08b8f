-- ===== src/Collector/Files/DirTree/Attached.antt =====
-- `parseDuOutput` attaches every reported directory to the one above it.
use zfs_nas_dashboard.Prelude.{
  ℕ, ◌≡◌, refl, sym, ap, subst, ◌∙◌, inl, inr, false, Option, none, some, List, [], ◌∷◌, ℕ_discrete,
  Bool-cases, Option-cases, length, get_elem?, get_elem?-lt, get_elem?-set_self, get_elem?-set_ne,
  set, In, In-append,
}
use zfs_nas_dashboard.Go.Strings.{Text, text_eq}
use zfs_nas_dashboard.Go.Strings.Laws.{text_eq_iff}
use zfs_nas_dashboard.Go.Map.{text_keys, lookup, insert, lookup-insert}
use zfs_nas_dashboard.Collector.Files.DirTree.{
  Entry, Node, Nodes, add_node, add_nodes, parent_path, push_child, attach, wire, wire_all,
}
use zfs_nas_dashboard.Collector.Files.DirTree.Wiring.{with_child}
use zfs_nas_dashboard.Collector.Files.DirTree.Sound.{IsSound, parent_path-IsAncestor, wire-IsSound}

-- Every path of the entries has a node.
abbrev pub Knows : List (Text × ℕ) → Text → Type 0
Knows at_path path = (a : ℕ) × (lookup path at_path ≡ some a)

insert-Knows : (k j : Text) (v : ℕ) (m : List (Text × ℕ)) → Knows m j → Knows (insert k v m) j
insert-Knows k j v m (a, h) = elim (Bool-cases (text_eq k j)) [
  | inl q ↦ (v, rw (lookup-insert k j v m, q) refl)
  | inr q ↦ (a, rw (lookup-insert k j v m, q) h)
]

add_nodes-Knows :
    (root : Text) (ns : Nodes) (es : List Entry) (path : Text)
    → Knows ns.at_path path
    → Knows (add_nodes root ns es).at_path path
unfolding add_nodes add_node
add_nodes-Knows root ns [] path k = k
add_nodes-Knows root ns (e ∷ es) path k =
    add_nodes-Knows root (add_node root ns e) es path
      (insert-Knows e.path path (length ns.heap) ns.at_path k)

pub add_nodes-In :
    (root : Text) (ns : Nodes) (es : List Entry) (e : Entry)
    → In e es
    → Knows (add_nodes root ns es).at_path e.path
unfolding add_nodes
add_nodes-In root ns [] e i = absurd i
add_nodes-In root ns (x ∷ es) e (inl q) = add_nodes-Knows root (add_node root ns x) es e.path (
    subst (λ p. Knows (add_node root ns x).at_path p) (ap (λ k. k.path) q)
      (
        length ns.heap,
        unfold add_node in
            rw
              (
                lookup-insert x.path x.path (length ns.heap) ns.at_path,
                (text_eq_iff x.path x.path).1 refl,
              )
              refl,
      ))
add_nodes-In root ns (x ∷ es) e (inr i) = add_nodes-In root (add_node root ns x) es e i

-- The node at `a` has `c` among its children.
abbrev pub HasChild : List Node → ℕ → ℕ → Type 0
HasChild heap a c = (n : Node) × (get_elem? heap a ≡ some n) × In c n.children

set-HasChild :
    (heap : List Node) (parent child : ℕ) (n : Node) (a c : ℕ)
    → get_elem? heap parent ≡ some n
    → HasChild heap a c
    → HasChild (set heap parent (with_child n child)) a c
set-HasChild heap parent child n a c e (m, f, i) = elim (ℕ_discrete parent a) [
  | yes q ↦
      let same : n ≡ m = cc (sym e ∙ ap (get_elem? heap) q ∙ f) in
      (
        with_child n child,
        subst (λ b. get_elem? (set heap parent (with_child n child)) b ≡ some (with_child n child))
            q (get_elem?-set_self heap parent _ (get_elem?-lt heap parent e)),
        (In-append c n.children (child ∷ [])).1 (inl (subst (λ k. In c k.children) (sym same) i)),
      )
  | no q ↦ (m, get_elem?-set_ne heap parent a _ q ∙ f, i)
]

attach-HasChild :
    (ns : Nodes) (child parent : Option ℕ) (a c : ℕ)
    → HasChild ns.heap a c
    → HasChild (attach ns child parent).heap a c
unfolding attach push_child
attach-HasChild ns (some x) (some y) a c h = elim (Option-cases (get_elem? ns.heap y)) [
  | inl e ↦ rw (e, push_child) h
  | inr (n, e) ↦ rw (e, push_child) (set-HasChild ns.heap y x n a c e h)
]
attach-HasChild ns (some x) none a c h = h
attach-HasChild ns none parent a c h = h

attach-at_path :
    (ns : Nodes) (child parent : Option ℕ) → (attach ns child parent).at_path ≡ ns.at_path
unfolding attach
attach-at_path ns (some x) (some y) = refl
attach-at_path ns (some x) none = refl
attach-at_path ns none parent = refl

-- The map is not touched by wiring, and no child is lost.
abbrev pub Grows : Nodes → Nodes → Type 0
Grows ns ns' =
    (ns'.at_path ≡ ns.at_path) × ((a c : ℕ) → HasChild ns.heap a c → HasChild ns'.heap a c)

wire-Grows : (root : Text) (ns : Nodes) (e : Entry) → Grows ns (wire root ns e)
unfolding wire attach
wire-Grows root ns e = elim (Bool-cases (text_eq e.path root)) [
  | inl q ↦ rw q (refl, λ a c h. h)
  | inr q ↦ rw q (attach-at_path ns _ _, λ a c h. attach-HasChild ns _ _ a c h)
]

pub wire_all-Grows : (root : Text) (ns : Nodes) (es : List Entry) → Grows ns (wire_all root ns es)
unfolding wire_all
wire_all-Grows root ns [] = (refl, λ a c h. h)
wire_all-Grows root ns (e ∷ es) =
    let (m, g) = wire-Grows root ns e in
    let (m', g') = wire_all-Grows root (wire root ns e) es in (m' ∙ m, λ a c h. g' a c (g a c h))

attached :
    (ns : Nodes) (a c : ℕ) (n : Node)
    → get_elem? ns.heap a ≡ some n
    → HasChild (attach ns (some c) (some a)).heap a c
unfolding attach push_child
attached ns a c n e =
    rw (e, push_child)
      (
        with_child n c,
        get_elem?-set_self ns.heap a _ (get_elem?-lt ns.heap a e),
        (In-append c n.children (c ∷ [])).1 (inr (inl refl)),
      )

-- The entry of a node with a node above it makes it that one's child.
wire-HasChild :
    (root : Text) (ns : Nodes) (e : Entry) (a c : ℕ)
    → IsSound ns
    → text_eq e.path root ≡ false
    → lookup e.path ns.at_path ≡ some c
    → parent_path e.path ns.at_path ≡ some a
    → HasChild (wire root ns e).heap a c
unfolding wire
wire-HasChild root ns e a c s q h k =
    let (p, f, l) = parent_path-IsAncestor e.path ns.at_path a k in
    let (n, g, z) = s.index p a f in rw (q, h, k) (attached ns a c n g)

pub wire_all-HasChild :
    (root : Text) (ns : Nodes) (es : List Entry) (e : Entry) (a c : ℕ)
    → In e es
    → IsSound ns
    → text_eq e.path root ≡ false
    → lookup e.path ns.at_path ≡ some c
    → parent_path e.path ns.at_path ≡ some a
    → HasChild (wire_all root ns es).heap a c
unfolding wire_all
wire_all-HasChild root ns [] e a c i s q h k = absurd i
wire_all-HasChild root ns (x ∷ es) e a c (inl same) s q h k =
    (wire_all-Grows root (wire root ns x) es).1 a c (
      subst (λ y. HasChild (wire root ns y).heap a c) (sym same)
        (wire-HasChild root ns e a c s q h k))
wire_all-HasChild root ns (x ∷ es) e a c (inr i) s q h k =
    let m = (wire-Grows root ns x).0 in
    wire_all-HasChild root (wire root ns x) es e a c i (wire-IsSound root ns x s) q (rw m h)
      (rw m k)
