-- ===== src/Collector/Files/DirTree/Ancestors.antt =====
-- What `strings.LastIndex(path, "/")` cuts off, and which ancestors are left.
use zfs_nas_dashboard.Prelude.{
  ℕ, zero, suc, ◌≡◌, refl, sym, ap, subst, ◌∙◌, ◌≢◌, ◌⊎◌, inl, inr, Bool, true, false, Option, none,
  some, [], ◌∷◌, ◌++◌, arith, Option-cases, Bool-cases, take, ◌==◌, ==_iff, not, ◌&&◌,
}
use zfs_nas_dashboard.Go.Strings.{Text, codes, has_prefix, last_index, or_here}
use zfs_nas_dashboard.Collector.Files.DirTree.{dirname, cut_last}

-- The path is `p`, a slash and something more.
abbrev pub IsSplit : Text → Text → Text → Type 0
IsSplit path p rest = path ≡ p ++ b'/' ∷ rest

-- A split at the last slash, and where any other split of the path lies: before it.
abbrev pub LastSplit : Text → Text → Type 0
LastSplit path p =
    ((rest : Text) × IsSplit path p rest)
    × ((q r : Text) → IsSplit path q r → (q ≡ p) ⊎ ((s : Text) × IsSplit p q s))

abbrev Cut : Text → Option ℕ → Type 0
Cut path none = (q r : Text) → ¬ IsSplit path q r
Cut path (some i) = LastSplit path (take i path)

slash_first : (c : ℕ) (s : Text) → has_prefix (c ∷ s) (codes "/") ≡ (c == b'/')
unfolding has_prefix
slash_first c s = ground arith

pub head_eq : {c d : ℕ} {s t : Text} → c ∷ s ≡ d ∷ t → c ≡ d
head_eq e = cc e

pub tail_eq : {c d : ℕ} {s t : Text} → c ∷ s ≡ d ∷ t → s ≡ t
tail_eq e = cc e

later-Cut : (c : ℕ) (s p : Text) → LastSplit s p → LastSplit (c ∷ s) (c ∷ p)
later-Cut c s p ((rest, e), all) = ((rest, ap (◌∷◌ c) e), before)
  where
    before : (q r : Text) → IsSplit (c ∷ s) q r → (q ≡ c ∷ p) ⊎ ((u : Text) × IsSplit (c ∷ p) q u)
    before [] r h = inr (p, ap (λ x. x ∷ p) (head_eq h))
    before (d ∷ q) r h = elim (all q r (tail_eq h)) [
      | inl k ↦ inl (cc (head_eq h, k))
      | inr (u, k) ↦ inr (u, cc (head_eq h, k))
    ]

first-Cut : (c : ℕ) (s : Text) → c ≡ b'/' → ((q r : Text) → ¬ IsSplit s q r) → LastSplit (c ∷ s) []
first-Cut c s e none_in = ((s, ap (λ x. x ∷ s) e), before)
  where
    before : (q r : Text) → IsSplit (c ∷ s) q r → (q ≡ []) ⊎ ((u : Text) × IsSplit [] q u)
    before [] r h = inl refl
    before (d ∷ q) r h = absurd (none_in q r (tail_eq h))

no-Cut :
    (c : ℕ) (s : Text)
    → (c == b'/') ≡ false
    → ((q r : Text) → ¬ IsSplit s q r)
    → (q r : Text) → ¬ IsSplit (c ∷ s) q r
no-Cut c s e none_in [] r h = cc ((==_iff c b'/').1 (head_eq h), e)
no-Cut c s e none_in (d ∷ q) r h = none_in q r (tail_eq h)

empty-Cut : (q r : Text) → ¬ IsSplit [] q r
empty-Cut [] r h = cc h
empty-Cut (d ∷ q) r h = cc h

step-Cut :
    (c : ℕ) (s : Text) (o : Option ℕ)
    → Cut s o
    → Cut (c ∷ s) (or_here (has_prefix (c ∷ s) (codes "/")) o)
unfolding or_here
step-Cut c s (some i) h = later-Cut c s (take i s) h
step-Cut c s none h = elim (Bool-cases (c == b'/')) [
  | inl e ↦ rw (slash_first c s, e) (first-Cut c s ((==_iff c b'/').0 e) h)
  | inr e ↦ rw (slash_first c s, e) (no-Cut c s e h)
]

last_index-Cut : (path : Text) → Cut path (last_index path (codes "/"))
unfolding last_index has_prefix
last_index-Cut [] = empty-Cut
last_index-Cut (c ∷ s) = step-Cut c s (last_index s (codes "/")) (last_index-Cut s)

-- What `dirname` says: the part before the last slash, unless that is empty.
abbrev pub DirCut : Text → Option Text → Type 0
DirCut path none = (p rest : Text) → p ≢ [] → ¬ IsSplit path p rest
DirCut path (some p) = (p ≢ []) × LastSplit path p

cut_first : (path q r : Text) → LastSplit path [] → q ≢ [] → ¬ IsSplit path q r
cut_first path q r (here, before) n h = elim (before q r h) [
  | inl e ↦ n e
  | inr (s, e) ↦ empty-Cut q s e
]

cut_last-DirCut : (path : Text) (o : Option ℕ) → Cut path o → DirCut path (cut_last path o)
unfolding cut_last
cut_last-DirCut path none h = λ p rest n. h p rest
cut_last-DirCut path (some zero) h = λ p rest n. cut_first path p rest h n
cut_last-DirCut [] (some (suc i)) ((rest, e), before) = absurd (empty-Cut (take (suc i) []) rest e)
cut_last-DirCut (c ∷ path) (some (suc i)) h = (λ e. cc e, h)

pub dirname-DirCut : (path : Text) → DirCut path (dirname path)
unfolding dirname
dirname-DirCut path = cut_last-DirCut path (last_index path (codes "/")) (last_index-Cut path)

-- A name without a slash.
abbrev pub is_name : Text → Bool
is_name [] = true
is_name (c ∷ s) = not (c == b'/') && is_name s

name_unsplit : (name q r : Text) → is_name name ≡ true → ¬ IsSplit name q r
name_unsplit [] q r h e = empty-Cut q r e
name_unsplit (c ∷ s) [] r h e = ground (arith, h, (==_iff c b'/').1 (head_eq e))
name_unsplit (c ∷ s) (d ∷ q) r h e = name_unsplit s q r (ground (arith, h)) (tail_eq e)

-- Of two splits of a path where one ends in a name, the other is not later.
name_last :
    (p q name rest : Text)
    → is_name name ≡ true
    → p ++ b'/' ∷ name ≡ q ++ b'/' ∷ rest
    → (s : Text) → ¬ (q ≡ p ++ b'/' ∷ s)
name_last [] [] name rest h e s k = cc k
name_last [] (d ∷ q) name rest h e s k = name_unsplit name q rest h (tail_eq e)
name_last (c ∷ p) [] name rest h e s k = cc k
name_last (c ∷ p) (d ∷ q) name rest h e s k = name_last p q name rest h (tail_eq e) s (tail_eq k)

-- A directory is what `dirname` gives for everything in it.
pub dirname-in :
    (path p name : Text)
    → p ≢ []
    → is_name name ≡ true
    → IsSplit path p name
    → dirname path ≡ some p
dirname-in path p name n h e = elim (Option-cases (dirname path)) [
  | inl f ↦ absurd (subst (DirCut path) f (dirname-DirCut path) p name n e)
  | inr (q, f) ↦
      let (m, ((rest, g), before)) = subst (DirCut path) f (dirname-DirCut path) in
      elim (before p name e) [
        | inl k ↦ f ∙ ap some (sym k)
        | inr (s, k) ↦ absurd (name_last p q name rest h (sym e ∙ g) s k)
      ]
]
