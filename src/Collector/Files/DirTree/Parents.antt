-- ===== src/Collector/Files/DirTree/Parents.antt =====
-- `parentPath`: the search for the nearest ancestor that has a node.
use zfs_nas_dashboard.Prelude.{
  ℕ, zero, suc, ◌≤◌, ◌<◌, ◌≡◌, refl, sym, ap, subst, ◌∙◌, ◌≢◌, ◌⊎◌, inl, inr, Bool, Option, none,
  some, List, [], ◌∷◌, ◌++◌, length-append, arith, Option-cases, length, take,
}
use mathlib.Core.List.{append_assoc}
use zfs_nas_dashboard.Go.Strings.{Text, codes, has_prefix, last_index, or_here}
use zfs_nas_dashboard.Go.Map.{text_keys, lookup}
use zfs_nas_dashboard.Collector.Files.DirTree.{
  dirname, cut_last, or_above, parent_within, parent_path,
}
use zfs_nas_dashboard.Collector.Files.DirTree.Ancestors.{IsSplit, DirCut, dirname-DirCut}

abbrev IsBelow : ℕ → Option ℕ → Type 0
IsBelow n none = Unit
IsBelow n (some i) = i < n

later-IsBelow :
    (n : ℕ) (here : Bool) (o : Option ℕ) → IsBelow n o → IsBelow (suc n) (or_here here o)
unfolding or_here
later-IsBelow n here none h = ground arith
later-IsBelow n here (some i) h = omega arith

last_index-IsBelow : (path : Text) → IsBelow (length path) (last_index path (codes "/"))
unfolding last_index has_prefix
last_index-IsBelow [] = tt
last_index-IsBelow (c ∷ s) =
    later-IsBelow (length s) (has_prefix (c ∷ s) (codes "/")) (last_index s (codes "/"))
      (last_index-IsBelow s)

abbrev pub IsShorter : ℕ → Option Text → Type 0
IsShorter n none = Unit
IsShorter n (some s) = length s < n

length-take-le : (n : ℕ) (s : Text) → length (take n s) ≤ n
length-take-le zero s = omega arith
length-take-le (suc n) [] = omega arith
length-take-le (suc n) (c ∷ s) = omega (arith, length-take-le n s)

cut_last-IsShorter :
    (path : Text) (o : Option ℕ)
    → IsBelow (length path) o
    → IsShorter (length path) (cut_last path o)
unfolding cut_last
cut_last-IsShorter path none h = tt
cut_last-IsShorter path (some zero) h = tt
cut_last-IsShorter path (some (suc i)) h = omega (arith, length-take-le (suc i) path)

-- A cut makes a path shorter.
pub dirname-IsShorter : (path : Text) → IsShorter (length path) (dirname path)
unfolding dirname
dirname-IsShorter path =
    cut_last-IsShorter path (last_index path (codes "/")) (last_index-IsBelow path)

pub shorter : (n : ℕ) (o : Option Text) {p : Text} → o ≡ some p → IsShorter n o → length p < n
shorter n o e h = subst (IsShorter n) e h

within_fuel :
    (f g : ℕ) (path : Text) (nodes : List (Text × ℕ))
    → length path < f
    → length path < g
    → parent_within f path nodes ≡ parent_within g path nodes
unfolding parent_within
within_fuel zero g path nodes h k = elim h [ ]
within_fuel (suc f) zero path nodes h k = elim k [ ]
within_fuel (suc f) (suc g) path nodes h k = elim (Option-cases (dirname path)) [
  | inl e ↦ rw (e, parent_within)
  | inr (p, e) ↦
      let b = shorter (length path) (dirname path) e (dirname-IsShorter path) in
      rw (e, parent_within)
        (ap (or_above (lookup p nodes)) (within_fuel f g p nodes (omega arith) (omega arith)))
]

-- The node of a path, or else what is found above it.
abbrev pub node_or : Option ℕ → Option ℕ → Option ℕ
node_or (some n) above = some n
node_or none above = above

abbrev pub above_of : (Text → Option ℕ) → List (Text × ℕ) → Option Text → Option ℕ
above_of rec nodes none = none
above_of rec nodes (some parent) = node_or (lookup parent nodes) (rec parent)

-- The recursion, rid of its bound.
pub parent_path-above :
    (path : Text) (nodes : List (Text × ℕ))
    → parent_path path nodes ≡ above_of (λ p. parent_path p nodes) nodes (dirname path)
unfolding parent_path
parent_path-above path nodes = elim (Option-cases (dirname path)) [
  | inl e ↦ rw (e, parent_path, parent_within)
  | inr (p, e) ↦
      let b = shorter (length path) (dirname path) e (dirname-IsShorter path) in
      rw (e, parent_path, parent_within)
        (ap (or_above (lookup p nodes))
            (within_fuel (length path) (suc (length p)) p nodes b (omega arith))
          ∙ unfold or_above in ground arith)
]

-- The node of the nearest ancestor that has one, where the ancestors of a path are its parts before
-- a slash that are not empty; none where no ancestor has a node.
abbrev pub Nearest : Text → List (Text × ℕ) → Option ℕ → Type 0
Nearest path nodes none = (p rest : Text) → p ≢ [] → IsSplit path p rest → lookup p nodes ≡ none
Nearest path nodes (some a) =
    (p : Text) × (rest : Text) × (p ≢ [])
    × IsSplit path p rest
    × (lookup p nodes ≡ some a)
    × ((q r : Text) → IsSplit path q r → length p < length q → lookup q nodes ≡ none)

not_longer : (p q s : Text) → (q ≡ p) ⊎ IsSplit p q s → ¬ (length p < length q)
not_longer p q s (inl e) h = omega (arith, ap length e)
not_longer p q s (inr e) h = omega (arith, ap length e, length-append q (b'/' ∷ s))

here-Nearest :
    (path p : Text) (nodes : List (Text × ℕ)) (a : ℕ)
    → DirCut path (some p)
    → lookup p nodes ≡ some a
    → Nearest path nodes (some a)
here-Nearest path p nodes a (n, ((rest, e), before)) h = (
  p,
  rest,
  n,
  e,
  h,
  λ q r f l. absurd (elim (before q r f) [
    | inl k ↦ not_longer p q [] (inl k) l
    | inr (s, k) ↦ not_longer p q s (inr k) l
  ]),
)

above-Nearest :
    (path p : Text) (nodes : List (Text × ℕ)) (o : Option ℕ)
    → DirCut path (some p)
    → lookup p nodes ≡ none
    → Nearest p nodes o
    → Nearest path nodes o
above-Nearest path p nodes none (n, ((rest, e), before)) h k = λ q r m f. elim (before q r f) [
  | inl g ↦ ap (λ x. lookup x nodes) g ∙ h
  | inr (s, g) ↦ k q s m g
]
above-Nearest path p nodes (some a) (n, ((rest, e), before)) h (p', rest', n', e', h', k) = (
  p',
  rest' ++ b'/' ∷ rest,
  n',
  e ∙ ap (λ x. x ++ b'/' ∷ rest) e' ∙ append_assoc p' (b'/' ∷ rest') (b'/' ∷ rest),
  h',
  λ q r f l. elim (before q r f) [
    | inl g ↦ ap (λ x. lookup x nodes) g ∙ h
    | inr (s, g) ↦ k q s g l
  ],
)

found-Nearest :
    (path p : Text) (nodes : List (Text × ℕ)) (b : Option ℕ)
    → DirCut path (some p)
    → lookup p nodes ≡ b
    → Nearest p nodes (parent_path p nodes)
    → Nearest path nodes (node_or b (parent_path p nodes))
found-Nearest path p nodes (some a) c f h = here-Nearest path p nodes a c f
found-Nearest path p nodes none c f h = above-Nearest path p nodes (parent_path p nodes) c f h

bounded-Nearest :
    (k : ℕ) (path : Text) (nodes : List (Text × ℕ))
    → length path < k
    → Nearest path nodes (parent_path path nodes)
bounded-Nearest zero path nodes l = absurd (omega (arith, l))
bounded-Nearest (suc k) path nodes l =
    subst (Nearest path nodes) (sym (parent_path-above path nodes))
      (elim (Option-cases (dirname path)) [
        | inl e ↦
            rw e (λ p rest n f. absurd (subst (DirCut path) e (dirname-DirCut path) p rest n f))
        | inr (p, e) ↦
            let b = shorter (length path) (dirname path) e (dirname-IsShorter path) in
            rw e (
              found-Nearest path p nodes (lookup p nodes)
                (subst (DirCut path) e (dirname-DirCut path)) refl
                (bounded-Nearest k p nodes (omega (arith, l, b))))
      ])

-- `parentPath` gives the node of the nearest ancestor that has one, where the ancestors of a path
-- are its parts before a slash that are not empty; and none exactly if no ancestor has a node.
pub parent_path-Nearest :
    (path : Text) (nodes : List (Text × ℕ)) → Nearest path nodes (parent_path path nodes)
parent_path-Nearest path nodes = bounded-Nearest (suc (length path)) path nodes (omega arith)
