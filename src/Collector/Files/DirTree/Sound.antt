-- ===== src/Collector/Files/DirTree/Sound.antt =====
-- The nodes are sound at every stage of `parseDuOutput`: the map holds them under their paths, and a
-- child is below its parent.
use zfs_nas_dashboard.Prelude.{
  ℕ, zero, suc, ◌<◌, ◌≡◌, refl, subst, ◌∙◌, ◌⊎◌, inl, inr, Option, none, some, List, [], ◌∷◌, arith,
  Bool-cases, Option-cases, length, get_elem?-append_self,
}
use zfs_nas_dashboard.Go.Strings.{Text, text_eq}
use zfs_nas_dashboard.Go.Strings.Laws.{text_eq_iff}
use zfs_nas_dashboard.Go.Map.{text_keys, lookup, insert, lookup-insert}
use zfs_nas_dashboard.Collector.Files.DirTree.{
  Entry, Node, Nodes, add_node, add_nodes, dirname, or_above, parent_within, parent_path,
  push_child, attach, wire, wire_all, with_root, parse_du_output,
}
use zfs_nas_dashboard.Collector.Files.DirTree.Parents.{dirname-IsShorter, shorter}
use zfs_nas_dashboard.Collector.Files.DirTree.Wiring.{
  HasPath, IsDeeper, IsWired, IsIndex, SamePaths-append, append-IsWired, SamePaths-set, set-IsWired,
}

-- An ancestor of a path, or of one that is shorter than `n`.
abbrev pub IsAncestor : List (Text × ℕ) → ℕ → ℕ → Type 0
IsAncestor nodes n a = (p : Text) × (lookup p nodes ≡ some a) × (length p < n)

or_above-IsAncestor :
    (nodes : List (Text × ℕ)) (p : Text) (n a : ℕ) (here above : Option ℕ)
    → lookup p nodes ≡ here
    → length p < n
    → (above ≡ some a → IsAncestor nodes (length p) a)
    → or_above here above ≡ some a
    → IsAncestor nodes n a
unfolding or_above
or_above-IsAncestor nodes p n a (some b) above f l up h = (p, f ∙ h, l)
or_above-IsAncestor nodes p n a none above f l up h =
    let (q, g, k) = up h in (q, g, omega (arith, l, k))

parent_within-IsAncestor :
    (fuel : ℕ) (path : Text) (nodes : List (Text × ℕ)) (a : ℕ)
    → parent_within fuel path nodes ≡ some a
    → IsAncestor nodes (length path) a
unfolding parent_within
parent_within-IsAncestor zero path nodes a h = absurd (cc h)
parent_within-IsAncestor (suc fuel) path nodes a h = elim (Option-cases (dirname path)) [
  | inl e ↦ absurd (cc (rw (e, parent_within) at h))
  | inr (p, e) ↦
      or_above-IsAncestor nodes p (length path) a (lookup p nodes) (parent_within fuel p nodes) refl
        (shorter (length path) (dirname path) e (dirname-IsShorter path))
        (parent_within-IsAncestor fuel p nodes a) (rw (e, parent_within) at h)
]

pub parent_path-IsAncestor :
    (path : Text) (nodes : List (Text × ℕ)) (a : ℕ)
    → parent_path path nodes ≡ some a
    → IsAncestor nodes (length path) a
unfolding parent_path
parent_path-IsAncestor path nodes a h = parent_within-IsAncestor (suc (length path)) path nodes a h

-- What holds of the nodes at every stage.
pub record IsSound (ns : Nodes) : Type 0 where
  pub wired : IsWired ns.heap
  pub index : IsIndex ns.heap ns.at_path

insert_cases :
    (k j : Text) (v a : ℕ) (m : List (Text × ℕ))
    → lookup j (insert k v m) ≡ some a
    → ((k ≡ j) × (v ≡ a)) ⊎ (lookup j m ≡ some a)
insert_cases k j v a m h = elim (Bool-cases (text_eq k j)) [
  | inl q ↦ inl ((text_eq_iff k j).0 q, cc (rw (lookup-insert k j v m, q) at h))
  | inr q ↦ inr (rw (lookup-insert k j v m, q) at h)
]

add_node-IsSound :
    (root : Text) (ns : Nodes) (e : Entry) → IsSound ns → IsSound (add_node root ns e)
unfolding add_node
add_node-IsSound root ns e s = record {
  wired = append-IsWired ns.heap _ refl s.wired;
  index = λ path a h. elim (insert_cases e.path path (length ns.heap) a ns.at_path h) [
    | inl (q, l) ↦
        subst (λ b. HasPath (add_node root ns e).heap b path) l
          (_, get_elem?-append_self ns.heap _, q)
    | inr g ↦ SamePaths-append ns.heap _ a path (s.index path a g)
  ];
}

pub add_nodes-IsSound :
    (root : Text) (ns : Nodes) (es : List Entry) → IsSound ns → IsSound (add_nodes root ns es)
unfolding add_nodes
add_nodes-IsSound root ns [] s = s
add_nodes-IsSound root ns (e ∷ es) s =
    add_nodes-IsSound root (add_node root ns e) es (add_node-IsSound root ns e s)

-- Attaching a node to an ancestor of it keeps the nodes sound.
attach-IsSound :
    (ns : Nodes) (path : Text) (child parent : Option ℕ)
    → IsSound ns
    → lookup path ns.at_path ≡ child
    → ((a : ℕ) → parent ≡ some a → IsAncestor ns.at_path (length path) a)
    → IsSound (attach ns child parent)
unfolding attach push_child
attach-IsSound ns path (some c) (some a) s h up =
    let (p, f, l) = up a refl in
    let (n, e, g) = s.index p a f in
    let deeper : IsDeeper ns.heap (length n.path) c = (path, s.index path c h, rw g l) in
    rw (e, push_child)
      (record {
        wired = set-IsWired ns.heap a c n e deeper s.wired;
        index = λ q b k. SamePaths-set ns.heap a c n e b q (s.index q b k);
      })
attach-IsSound ns path (some c) none s h up = s
attach-IsSound ns path none parent s h up = s

pub wire-IsSound : (root : Text) (ns : Nodes) (e : Entry) → IsSound ns → IsSound (wire root ns e)
unfolding wire
wire-IsSound root ns e s = elim (Bool-cases (text_eq e.path root)) [
  | inl q ↦ rw q s
  | inr q ↦ rw q (
      attach-IsSound ns e.path (lookup e.path ns.at_path) (parent_path e.path ns.at_path) s refl
        (λ a h. parent_path-IsAncestor e.path ns.at_path a h))
]

pub wire_all-IsSound :
    (root : Text) (ns : Nodes) (es : List Entry) → IsSound ns → IsSound (wire_all root ns es)
unfolding wire_all
wire_all-IsSound root ns [] s = s
wire_all-IsSound root ns (e ∷ es) s =
    wire_all-IsSound root (wire root ns e) es (wire-IsSound root ns e s)

-- The heap is wired and the root is one of its nodes.
abbrev pub IsRooted : Text → List Node × ℕ → Type 0
IsRooted root r = IsWired r.0 × HasPath r.0 r.1 root

with_root-IsRooted :
    (root : Text) (ns : Nodes) (o : Option ℕ)
    → IsSound ns
    → lookup root ns.at_path ≡ o
    → IsRooted root (with_root root ns o)
unfolding with_root
with_root-IsRooted root ns (some a) s h = (s.wired, s.index root a h)
with_root-IsRooted root ns none s h =
    (append-IsWired ns.heap _ refl s.wired, (_, get_elem?-append_self ns.heap _, refl))

pub nothing-IsSound : IsSound (record { heap = []; at_path = [] })
unfolding lookup
nothing-IsSound = record { wired = λ a n h. absurd (cc h); index = λ path a h. absurd (cc h) }

pub parse_du_output-IsRooted : (output root : Text) → IsRooted root (parse_du_output output root)
unfolding parse_du_output
parse_du_output-IsRooted output root =
    with_root-IsRooted root _ _
      (wire_all-IsSound root _ _ (add_nodes-IsSound root _ _ nothing-IsSound)) refl
