-- ===== src/Go/Strings/Laws.antt =====
-- Laws of the string functions.
use zfs_nas_dashboard.Prelude.{◌≡◌, refl, ◌≢◌, ◌↔◌, ◌++◌, true, false, [], ◌∷◌, arith, drop, length}
use zfs_nas_dashboard.Go.Strings.{Text, text_eq, text_lt, has_prefix, trim_prefix}

pub text_eq_iff : (x y : Text) → (text_eq x y ≡ true) ↔ (x ≡ y)
unfolding text_eq
text_eq_iff (a ∷ x) (b ∷ y) = ground (arith, text_eq_iff x y)
text_eq_iff _ _ = ground arith

pub text_eq_refl : (x : Text) → text_eq x x ≡ true
text_eq_refl x = (text_eq_iff x x).1 refl

-- The order is total and strict.
pub text_lt_irrefl : (x : Text) → text_lt x x ≡ false
unfolding text_lt
text_lt_irrefl [] = refl
text_lt_irrefl (a ∷ x) = ground (arith, text_lt_irrefl x)

pub text_lt_total : (x y : Text) → x ≢ y → text_lt x y ≡ false → text_lt y x ≡ true
unfolding text_lt
text_lt_total [] [] ne h = absurd (ne refl)
text_lt_total [] (b ∷ y) ne h = cc
text_lt_total (a ∷ x) [] ne h = refl
text_lt_total (a ∷ x) (b ∷ y) ne h = ground (arith, text_lt_total x y)

pub text_lt_trans : (x y z : Text) → text_lt x y ≡ true → text_lt y z ≡ true → text_lt x z ≡ true
unfolding text_lt
text_lt_trans [] [] z h k = cc
text_lt_trans [] (b ∷ y) [] h k = cc
text_lt_trans [] (b ∷ y) (c ∷ z) h k = refl
text_lt_trans (a ∷ x) [] z h k = cc
text_lt_trans (a ∷ x) (b ∷ y) [] h k = cc
text_lt_trans (a ∷ x) (b ∷ y) (c ∷ z) h k = ground (arith, text_lt_trans x y z)

pub has_prefix-append : (p s : Text) → has_prefix (p ++ s) p ≡ true
unfolding has_prefix
has_prefix-append [] s = refl
has_prefix-append (c ∷ p) s = ground (arith, has_prefix-append p s)

pub drop-append : (p s : Text) → drop (length p) (p ++ s) ≡ s
drop-append [] s = refl
drop-append (c ∷ p) s = drop-append p s

pub trim_prefix-append : (p s : Text) → trim_prefix (p ++ s) p ≡ s
unfolding trim_prefix
trim_prefix-append p s = rw (has_prefix-append p s) (drop-append p s)

pub has_prefix-split : (s p : Text) → has_prefix s p ≡ true → s ≡ p ++ drop (length p) s
unfolding has_prefix
has_prefix-split s [] h = refl
has_prefix-split [] (d ∷ p) h = cc h
has_prefix-split (c ∷ s) (d ∷ p) h = ground (arith, has_prefix-split s p)
