-- ===== src/Collector/Files/Ranking.antt =====
-- The list of users does not depend on the order in which the tally is ranged over, nor on how it
-- is sorted.
use mathlib.Core.List.{Perm, Permᴰ}
use mathlib.Core.Logic.{∥∥₁_elim}
use zfs_nas_dashboard.Prelude.{
  ◌≡◌, refl, sym, ap, ◌∙◌, ◌⊎◌, inl, inr, Bool, true, false, not, ◌&&◌, ◌||◌, List, [], ◌∷◌, map,
  arith, ℕ_discrete, Bool-cases, ℤ, ltb_ℤ, eqb_ℤ, eqb_ℤ_iff,
}
use zfs_nas_dashboard.Go.Strings.{Text, text_eq, text_lt}
use zfs_nas_dashboard.Go.Strings.Laws.{text_lt_total, text_lt_trans, text_lt_irrefl, text_eq_iff}
use zfs_nas_dashboard.Collector.Files.Usage.{
  UserUsage, Names, Tally, usage_of, less, insert_sorted, sort, ranked, tally_of, parse_user_usage,
}

less_irrefl : (a : UserUsage) → less a a ≡ false
unfolding less
less_irrefl a = ground (arith, text_lt_irrefl a.user)

less_trans : (a b c : UserUsage) → less a b ≡ true → less b c ≡ true → less a c ≡ true
unfolding less
less_trans a b c h k = ground (arith, text_lt_trans a.user b.user c.user)

-- Of two usages that differ, one is less.
text_tri : (x y : Text) → (x ≡ y) ⊎ ((text_lt x y ≡ true) ⊎ (text_lt y x ≡ true))
text_tri x y = elim (Bool-cases (text_eq x y)) [
  | inl e ↦ inl ((text_eq_iff x y).0 e)
  | inr e ↦ elim (Bool-cases (text_lt x y)) [
    | inl l ↦ inr (inl l)
    | inr l ↦ inr (inr (text_lt_total x y (λ p. cc (e, (text_eq_iff x y).1 p)) l))
  ]
]

less_total :
    (a b : UserUsage) → a.status ≡ b.status → (a ≡ b) ⊎ ((less a b ≡ true) ⊎ (less b a ≡ true))
unfolding less
less_total a b s = ground (arith, text_tri a.user b.user, eqb_ℤ_iff a.size_bytes b.size_bytes)

less_asym : (a b : UserUsage) → less a b ≡ true → less b a ≡ false
less_asym a b h = elim (Bool-cases (less b a)) [
  | inl k ↦ absurd (cc (less_trans a b a h k, less_irrefl a))
  | inr k ↦ k
]

-- In a list that is sorted, inserting two usages in either order gives the same.
insert_comm :
    (u v : UserUsage) (l : List UserUsage)
    → less u v ≡ true
    → insert_sorted u (insert_sorted v l) ≡ insert_sorted v (insert_sorted u l)
unfolding insert_sorted
insert_comm u v [] h = ground (arith, h, less_asym u v)
insert_comm u v (x ∷ l) h =
    ground (arith, h, less_asym u v h, less_trans x u v, insert_comm u v l h)

insert_swap :
    (p q : Text × ℤ) (l : List UserUsage)
    → insert_sorted (usage_of p) (insert_sorted (usage_of q) l)
      ≡ insert_sorted (usage_of q) (insert_sorted (usage_of p) l)
insert_swap p q l = elim (less_total (usage_of p) (usage_of q) (unfold usage_of in refl)) [
  | inl e ↦ rw e
  | inr (inl h) ↦ insert_comm (usage_of p) (usage_of q) l h
  | inr (inr h) ↦ sym (insert_comm (usage_of q) (usage_of p) l h)
]

ranked-permᴰ : {s t : Tally} → Permᴰ s t → ranked s ≡ ranked t
unfolding ranked sort
ranked-permᴰ Permᴰ.nil = refl
ranked-permᴰ (Permᴰ.cons {b} e p) = rw e (ap (insert_sorted (usage_of b)) (ranked-permᴰ p))
ranked-permᴰ (Permᴰ.swap {a} {b} {l} e f) = insert_swap a b (ranked l) ∙ rw (e, f)
ranked-permᴰ (Permᴰ.trans p q) = ranked-permᴰ p ∙ ranked-permᴰ q

usages_set : IsSet (List UserUsage)
usages_set = hlevel ℕ_discrete

-- The order of the range does not matter.
ranked-perm : (s t : Tally) → Perm s t → ranked s ≡ ranked t
ranked-perm s t p = ∥∥₁_elim p (usages_set _ _) ranked-permᴰ

-- Of two usages that follow each other, the second is smaller; or both have the same size, and the
-- second's name does not stand before the first's.
abbrev pub in_order : UserUsage → UserUsage → Bool
in_order u v =
    ltb_ℤ v.size_bytes u.size_bytes
    || eqb_ℤ v.size_bytes u.size_bytes && not (text_lt v.user u.user)

abbrev follows : UserUsage → List UserUsage → Bool
follows u [] = true
follows u (v ∷ us) = in_order u v

abbrev pub is_ranked : List UserUsage → Bool
is_ranked [] = true
is_ranked (u ∷ us) = follows u us && is_ranked us

in_order-less : (u v : UserUsage) → in_order u v ≡ not (less v u)
unfolding less
in_order-less u v = ground (arith, eqb_ℤ_iff v.size_bytes u.size_bytes)

sort-is_ranked_id : (us : List UserUsage) → is_ranked us ≡ true → sort us ≡ us
unfolding sort insert_sorted
sort-is_ranked_id [] h = refl
sort-is_ranked_id (u ∷ []) h = refl
sort-is_ranked_id (u ∷ v ∷ us) h =
    let rest = sort-is_ranked_id (v ∷ us) (ground arith) in
    rw rest (ground (arith, in_order-less u v))

insert-is_ranked :
    (u : UserUsage) (us : List UserUsage)
    → is_ranked us ≡ true
    → is_ranked (insert_sorted u us) ≡ true
unfolding insert_sorted
insert-is_ranked u [] h = refl
insert-is_ranked u (v ∷ []) h = ground (arith, less_asym v u, in_order-less u v, in_order-less v u)
insert-is_ranked u (v ∷ w ∷ us) h =
    ground (arith, less_asym v u, in_order-less u v, in_order-less v u, insert-is_ranked u (w ∷ us))

sort-is_ranked : (us : List UserUsage) → is_ranked (sort us) ≡ true
unfolding sort
sort-is_ranked [] = refl
sort-is_ranked (u ∷ us) = insert-is_ranked u (sort us) (sort-is_ranked us)

-- For every order in which the tally is ranged over, each user of the result is followed by one of
-- a smaller size, or of the same size with a name that does not stand before; and the result is
-- the only arrangement of the tally's entries that is ordered so.
pub parse_user_usage_unique :
    (names : Names) (range : Tally → Tally) (output : Text) (arranged : Tally)
    → ((t : Tally) → Perm (range t) t)
    → Perm arranged (tally_of names output)
    → is_ranked (map usage_of arranged) ≡ true
    → (is_ranked (parse_user_usage names range output) ≡ true)
      × (parse_user_usage names range output ≡ map usage_of arranged)
unfolding parse_user_usage
parse_user_usage_unique names range output arranged r p h =
    let t = tally_of names output in
    (
      (unfold ranked in sort-is_ranked (map usage_of (range t))),
      ranked-perm (range t) t (r t)
          ∙ sym (ranked-perm arranged t p)
          ∙ (unfold ranked in sort-is_ranked_id (map usage_of arranged) h),
    )
