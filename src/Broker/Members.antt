-- ===== src/Broker/Members.antt =====
-- The keys of the client map as a list, and what `range` over it may yield.
use zfs_nas_dashboard.Prelude.{
  ℕ, suc, ◌≡◌, refl, Bool, true, false, not, ◌&&◌, ◌||◌, List, [], ◌∷◌, ◌++◌, arith, ◌==◌,
  if◌then◌else◌, length,
}

unfoldable pub member : ℕ → List ℕ → Bool
member c [] = false
member c (d ∷ ds) = d == c || member c ds

unfoldable pub delete : ℕ → List ℕ → List ℕ
delete c [] = []
delete c (d ∷ ds) = if d == c then ds else d ∷ delete c ds

unfoldable pub distinct : List ℕ → Bool
unfolding member
distinct [] = true
distinct (c ∷ cs) = not (member c cs) && distinct cs

all_member : List ℕ → List ℕ → Bool
unfolding member
all_member [] ds = true
all_member (c ∷ cs) ds = member c ds && all_member cs ds

-- `snapshot` holds the keys, each once, in some order.
unfoldable pub is_snapshot : List ℕ → List ℕ → Bool
unfolding all_member distinct
is_snapshot snapshot clients =
    distinct snapshot && (all_member snapshot clients && all_member clients snapshot)

pub member-delete :
    (j c : ℕ) (cs : List ℕ)
    → distinct cs ≡ true
    → member j (delete c cs) ≡ (not (c == j) && member j cs)
unfolding member delete distinct
member-delete j c [] h = ground arith
member-delete j c (d ∷ ds) h = ground (arith, member-delete j c ds)

pub distinct-delete : (c : ℕ) (cs : List ℕ) → distinct cs ≡ true → distinct (delete c cs) ≡ true
unfolding member delete distinct
distinct-delete c [] h = refl
distinct-delete c (d ∷ ds) h = ground (arith, distinct-delete c ds, member-delete d c ds)

pub length-delete :
    (c : ℕ) (cs : List ℕ) → member c cs ≡ true → suc (length (delete c cs)) ≡ length cs
unfolding member delete
length-delete c [] h = cc
length-delete c (d ∷ ds) h = ground (arith, length-delete c ds)

all_member-member :
    (j : ℕ) (cs ds : List ℕ) → all_member cs ds ≡ true → member j cs ≡ true → member j ds ≡ true
unfolding all_member
all_member-member j [] ds h k = cc
all_member-member j (c ∷ cs) ds h k = ground (arith, all_member-member j cs ds)

pub is_snapshot-member :
    (j : ℕ) (snapshot clients : List ℕ)
    → is_snapshot snapshot clients ≡ true
    → member j snapshot ≡ member j clients
unfolding is_snapshot
is_snapshot-member j snapshot clients h =
    ground (arith, all_member-member j snapshot clients, all_member-member j clients snapshot)

pub is_snapshot-distinct :
    (snapshot clients : List ℕ) → is_snapshot snapshot clients ≡ true → distinct snapshot ≡ true
unfolding is_snapshot
is_snapshot-distinct snapshot clients h = ground arith

pub member-append : (j : ℕ) (cs ds : List ℕ) → member j (cs ++ ds) ≡ (member j cs || member j ds)
unfolding member
member-append j [] ds = refl
member-append j (c ∷ cs) ds = ground (arith, member-append j cs ds)

-- A range over a map with distinct keys gives them all.
abbrev pub RangesAll : (List ℕ → List ℕ) → Type 0
RangesAll range = (cs : List ℕ) → distinct cs ≡ true → is_snapshot (range cs) cs ≡ true

all_member-cons : (c : ℕ) (cs ds : List ℕ) → all_member cs ds ≡ true → all_member cs (c ∷ ds) ≡ true
unfolding all_member member
all_member-cons c [] ds h = refl
all_member-cons c (x ∷ cs) ds h = ground (arith, all_member-cons c cs ds)

all_member_self : (cs : List ℕ) → all_member cs cs ≡ true
unfolding all_member member
all_member_self [] = refl
all_member_self (c ∷ cs) = ground (arith, all_member-cons c cs cs, all_member_self cs)

-- The order of the list itself is one.
pub RangesAll-self : RangesAll (λ cs. cs)
unfolding is_snapshot
RangesAll-self cs h = ground (arith, all_member_self cs)
