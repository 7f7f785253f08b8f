-- ===== src/Collector/Files/DirTree/Wiring.antt =====
-- The nodes of `parseDuOutput` make a tree: a child's path is longer than its parent's.
use zfs_nas_dashboard.Prelude.{
  ℕ, zero, suc, ◌<◌, ◌≡◌, refl, sym, ap, subst, ◌∙◌, ◌⊎◌, inl, inr, some, List, [], ◌∷◌, ◌++◌,
  ℕ_discrete, length, get_elem?, get_elem?-lt, get_elem?-append_left, get_elem?-set_self,
  get_elem?-set_ne, set,
}
use zfs_nas_dashboard.Go.Strings.{Text}
use zfs_nas_dashboard.Go.Map.{text_keys, lookup}
use zfs_nas_dashboard.Collector.Files.DirTree.{Node}

-- A node of the heap with that path.
abbrev pub HasPath : List Node → ℕ → Text → Type 0
HasPath heap a path = (n : Node) × (get_elem? heap a ≡ some n) × (n.path ≡ path)

-- No node is lost and none changes its path.
abbrev pub SamePaths : List Node → List Node → Type 0
SamePaths heap heap' = (a : ℕ) (path : Text) → HasPath heap a path → HasPath heap' a path

-- A node with a longer path.
abbrev pub IsDeeper : List Node → ℕ → ℕ → Type 0
IsDeeper heap len c = (path : Text) × HasPath heap c path × (len < length path)

abbrev pub AllDeeper : List Node → ℕ → List ℕ → Type 0
AllDeeper heap len [] = Unit
AllDeeper heap len (c ∷ cs) = IsDeeper heap len c × AllDeeper heap len cs

abbrev pub IsWired : List Node → Type 0
IsWired heap =
    (a : ℕ) (n : Node) → get_elem? heap a ≡ some n → AllDeeper heap (length n.path) n.children

-- The map holds the addresses of the nodes under their paths.
abbrev pub IsIndex : List Node → List (Text × ℕ) → Type 0
IsIndex heap at_path = (path : Text) (a : ℕ) → lookup path at_path ≡ some a → HasPath heap a path

AllDeeper-SamePaths :
    (heap heap' : List Node) (len : ℕ) (cs : List ℕ)
    → SamePaths heap heap'
    → AllDeeper heap len cs
    → AllDeeper heap' len cs
AllDeeper-SamePaths heap heap' len [] s d = tt
AllDeeper-SamePaths heap heap' len (c ∷ cs) s ((path, h, l), d) =
    ((path, s c path h, l), AllDeeper-SamePaths heap heap' len cs s d)

AllDeeper-append :
    (heap : List Node) (len c : ℕ) (cs : List ℕ)
    → AllDeeper heap len cs
    → IsDeeper heap len c
    → AllDeeper heap len (cs ++ c ∷ [])
AllDeeper-append heap len c [] d h = (h, tt)
AllDeeper-append heap len c (x ∷ cs) (g, d) h = (g, AllDeeper-append heap len c cs d h)

pub SamePaths-append : (heap : List Node) (n : Node) → SamePaths heap (heap ++ n ∷ [])
SamePaths-append heap n a path (m, e, f) =
    (m, get_elem?-append_left heap (n ∷ []) a (get_elem?-lt heap a e) ∙ e, f)

-- An element of a list with one more at its end is one of the list or that.
pub append_cases :
    (heap : List Node) (n : Node) (a : ℕ) (m : Node)
    → get_elem? (heap ++ n ∷ []) a ≡ some m
    → (get_elem? heap a ≡ some m) ⊎ ((n ≡ m) × (a ≡ length heap))
append_cases [] n zero m h = inr (cc, refl)
append_cases [] n (suc a) m h = absurd (cc h)
append_cases (x ∷ heap) n zero m h = inl h
append_cases (x ∷ heap) n (suc a) m h = elim (append_cases heap n a m h) [
  | inl e ↦ inl e
  | inr (e, f) ↦ inr (e, ap suc f)
]

pub append-IsWired :
    (heap : List Node) (n : Node) → n.children ≡ [] → IsWired heap → IsWired (heap ++ n ∷ [])
append-IsWired heap n e w a m h = elim (append_cases heap n a m h) [
  | inl g ↦
      AllDeeper-SamePaths heap (heap ++ n ∷ []) (length m.path) m.children (SamePaths-append heap n)
        (w a m g)
  | inr (f, g) ↦
      subst (AllDeeper (heap ++ n ∷ []) (length m.path)) (sym e ∙ ap (λ k. k.children) f) tt
]

abbrev pub with_child : Node → ℕ → Node
with_child n child = record n { children = n.children ++ child ∷ [] }

pub SamePaths-set :
    (heap : List Node) (parent child : ℕ) (n : Node)
    → get_elem? heap parent ≡ some n
    → SamePaths heap (set heap parent (with_child n child))
SamePaths-set heap parent child n e a path (m, f, g) = elim (ℕ_discrete parent a) [
  | yes q ↦ (
    with_child n child,
    subst (λ b. get_elem? (set heap parent (with_child n child)) b ≡ some (with_child n child)) q
        (get_elem?-set_self heap parent _ (get_elem?-lt heap parent e)),
    (let same : n ≡ m = cc (sym e ∙ ap (get_elem? heap) q ∙ f) in ap (λ k. k.path) same ∙ g),
  )
  | no q ↦ (m, get_elem?-set_ne heap parent a _ q ∙ f, g)
]

pub set-IsWired :
    (heap : List Node) (parent child : ℕ) (n : Node)
    → get_elem? heap parent ≡ some n
    → IsDeeper heap (length n.path) child
    → IsWired heap
    → IsWired (set heap parent (with_child n child))
set-IsWired heap parent child n e (path, h, l) w a m f =
    let heap' = set heap parent (with_child n child) in
    let s : SamePaths heap heap' = SamePaths-set heap parent child n e in
    elim (ℕ_discrete parent a) [
      | yes q ↦
          let same : with_child n child ≡ m = cc (
            sym (get_elem?-set_self heap parent (with_child n child) (get_elem?-lt heap parent e))
            ∙ ap (get_elem? heap') q
            ∙ f) in
          subst (λ k. AllDeeper heap' (length k.path) k.children) same
            (AllDeeper-append heap' (length n.path) child n.children
              (AllDeeper-SamePaths heap heap' (length n.path) n.children s (w parent n e))
              (path, s child path h, l))
      | no q ↦
          AllDeeper-SamePaths heap heap' (length m.path) m.children s
            (w a m (sym (get_elem?-set_ne heap parent a _ q) ∙ f))
    ]
