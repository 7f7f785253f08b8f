-- ===== src/Broker/Invariant.antt =====
-- What holds of a broker between two operations.
use zfs_nas_dashboard.Prelude.{
  ℕ, zero, suc, ◌+◌, ◌≤◌, ◌<◌, ◌≡◌, refl, inl, inr, Bool, true, false, not, Option, none, some,
  List, [], ◌∷◌, ◌++◌, arith, ltb, ◌==◌, if◌then◌else◌, Bool-cases, Option-cases, length, get_elem?,
  get_elem?-lt, set, ℤ, pos, negsuc, ◌+ℤ◌,
}
use zfs_nas_dashboard.Broker.Members.{
  member, delete, distinct, member-delete, distinct-delete, length-delete,
}
use zfs_nas_dashboard.Broker.{
  Chan, Broker, ok, channel_buf, max_clients, new, add_count, enter, register, detach, unregister,
}

abbrev pub chan_at : Broker → ℕ → Option Chan
chan_at b c = get_elem? b.chans c

abbrev pub ClosedIn : Bool → Option Chan → Type 0
ClosedIn listed none = listed ≡ false
ClosedIn listed (some ch) = (ch.closed ≡ not listed) × (length ch.buf ≤ channel_buf)

-- A channel is open exactly while it is in the map, a key is a channel that was made, and no
-- buffer holds more than its capacity.
pub record IsLinked (b : Broker) : Type 0 where
  pub keys : distinct b.clients ≡ true
  pub open_in_map : (c : ℕ) → ClosedIn (member c b.clients) (chan_at b c)

-- The counter is ahead of the map by `k`.
abbrev pub IsCounted : ℕ → Broker → Type 0
IsCounted k b = b.count ≡ pos (length b.clients + k)

pub get_elem?-set :
    (chans : List Chan) (c j : ℕ) (ch : Chan)
    → c < length chans
    → get_elem? (set chans c ch) j ≡ (if c == j then some ch else get_elem? chans j)
get_elem?-set [] c j ch h = elim h [ ]
get_elem?-set (x ∷ xs) zero zero ch h = refl
get_elem?-set (x ∷ xs) zero (suc j) ch h = ground arith
get_elem?-set (x ∷ xs) (suc c) zero ch h = ground arith
get_elem?-set (x ∷ xs) (suc c) (suc j) ch h = ground (arith, get_elem?-set xs c j ch)

-- A key has an open channel with a lawful buffer.
pub client-open :
    (b : Broker) (c : ℕ)
    → IsLinked b
    → member c b.clients ≡ true
    → (ch : Chan) × (chan_at b c ≡ some ch) × (ch.closed ≡ false)
client-open b c l m = elim (Option-cases (chan_at b c)) [
  | inl e ↦ absurd (ground (arith, l.open_in_map c))
  | inr (ch, e) ↦ (ch, e, ground (arith, l.open_in_map c))
]

abbrev pub close : Broker → ℕ → Chan → Broker
close b c ch = record b {
  chans = set b.chans c (record ch { closed = true });
  clients = delete c b.clients;
}

pub detach-close :
    (b : Broker) (c : ℕ) (ch : Chan)
    → chan_at b c ≡ some ch
    → ch.closed ≡ false
    → detach c b ≡ ok (close b c ch)
unfolding detach
detach-close b c ch e o = ground arith

pub close-IsLinked :
    (b : Broker) (c : ℕ) (ch : Chan) → IsLinked b → chan_at b c ≡ some ch → IsLinked (close b c ch)
close-IsLinked b c ch l e = record {
  keys = distinct-delete c b.clients l.keys;
  open_in_map = λ j. ground (
    arith,
    l.open_in_map j,
    l.open_in_map c,
    member-delete j c b.clients l.keys,
    get_elem?-set b.chans c j (record ch { closed = true }),
    get_elem?-lt b.chans c e,
  );
}

abbrev pub fresh : Chan
fresh = record { buf = []; closed = false }

pub get_elem?-append_cases :
    (chans : List Chan) (v : Chan) (j : ℕ)
    → get_elem? (chans ++ v ∷ []) j ≡ (if length chans == j then some v else get_elem? chans j)
get_elem?-append_cases [] v zero = ground arith
get_elem?-append_cases [] v (suc j) = ground arith
get_elem?-append_cases (x ∷ xs) v zero = ground arith
get_elem?-append_cases (x ∷ xs) v (suc j) = ground (arith, get_elem?-append_cases xs v j)

-- A key is a channel that was made.
member-lt : (b : Broker) (c : ℕ) → IsLinked b → member c b.clients ≡ true → c < length b.chans
member-lt b c l m = let (ch, e, o) = client-open b c l m in get_elem?-lt b.chans c e

pub fresh-member : (b : Broker) → IsLinked b → member (length b.chans) b.clients ≡ false
fresh-member b l = elim (Bool-cases (member (length b.chans) b.clients)) [
  | inl m ↦ absurd (omega (arith, member-lt b (length b.chans) l m))
  | inr m ↦ m
]

pub enter-IsLinked : (b : Broker) → IsLinked b → IsLinked (enter b)
unfolding enter distinct member
enter-IsLinked b l = record {
  keys = ground (arith, l.keys, fresh-member b l);
  open_in_map = λ j.
      ground (arith, l.open_in_map j, fresh-member b l, get_elem?-append_cases b.chans fresh j);
}

-- `New` returns a broker that satisfies the invariant.
pub new-IsLinked : IsLinked new
unfolding distinct member
new-IsLinked = record { keys = refl; open_in_map = λ c. refl }

-- The counter is the number of clients, which is at most the cap.
pub record IsValid (b : Broker) : Type 0 where
  pub linked : IsLinked b
  pub counted : IsCounted 0 b
  pub capped : length b.clients ≤ max_clients

pub new-IsValid : IsValid new
new-IsValid = record { linked = new-IsLinked; counted = refl; capped = omega arith }

add_count-IsLinked : (d : ℤ) (b : Broker) → IsLinked b → IsLinked (add_count d b)
add_count-IsLinked d b l = record { keys = l.keys; open_in_map = l.open_in_map }

-- `Register` refuses exactly when the map has 100 clients, and then leaves the broker as it was;
-- else a new channel is entered and counted.
pub register_lem :
    (b : Broker)
    → IsCounted 0 b
    → register b ≡ (
        if ltb (length b.clients) max_clients
        then (enter (add_count (pos 1) b), some (length b.chans))
        else (b, none))
unfolding register ◌+ℤ◌
register_lem b k = ground arith

enter-IsValid :
    (b : Broker)
    → IsValid b
    → length b.clients < max_clients
    → IsValid (enter (add_count (pos 1) b))
enter-IsValid b v h = record {
  linked = enter-IsLinked (add_count (pos 1) b) (add_count-IsLinked (pos 1) b v.linked);
  counted = unfold enter ◌+ℤ◌ in ground (arith, v.counted);
  capped = unfold enter in omega arith;
}

pub register-IsValid : (b : Broker) → IsValid b → IsValid (register b).0
register-IsValid b v = elim (Bool-cases (ltb (length b.clients) max_clients)) [
  | inl e ↦ rw (register_lem b v.counted, e) (enter-IsValid b v (ground arith))
  | inr e ↦ rw (register_lem b v.counted, e) v
]

close-IsCounted :
    (k : ℕ) (b : Broker) (c : ℕ) (ch : Chan)
    → member c b.clients ≡ true
    → IsCounted k b
    → IsCounted k (add_count (negsuc 0) (close b c ch))
unfolding ◌+ℤ◌
close-IsCounted k b c ch m h = ground (arith, length-delete c b.clients m)

-- The outcome of `Unregister`: no panic, and the client's channel closed and out of the map.
abbrev pub unregistered : ℕ → Broker → Option Chan → Broker
unregistered c b none = b
unregistered c b (some ch) = if member c b.clients then add_count (negsuc 0) (close b c ch) else b

pub unregister_lem :
    (b : Broker) (c : ℕ) → IsLinked b → unregister c b ≡ ok (unregistered c b (chan_at b c))
unfolding unregister
unregister_lem b c l = elim (Bool-cases (member c b.clients)) [
  | inl m ↦
      let (ch, e, o) = client-open b c l m in rw (m, e, detach-close b c ch e o) (ground arith)
  | inr m ↦ ground arith
]

pub unregistered-IsLinked :
    (b : Broker) (c : ℕ) → IsLinked b → IsLinked (unregistered c b (chan_at b c))
unregistered-IsLinked b c l = elim (Option-cases (chan_at b c)) [
  | inl e ↦ rw e l
  | inr (ch, e) ↦ elim (Bool-cases (member c b.clients)) [
    | inl m ↦ rw (e, m) (add_count-IsLinked _ _ (close-IsLinked b c ch l e))
    | inr m ↦ rw (e, m) l
  ]
]

pub unregistered-IsCounted :
    (k : ℕ) (b : Broker) (c : ℕ) → IsCounted k b → IsCounted k (unregistered c b (chan_at b c))
unregistered-IsCounted k b c h = elim (Option-cases (chan_at b c)) [
  | inl e ↦ rw e h
  | inr (ch, e) ↦ elim (Bool-cases (member c b.clients)) [
    | inl m ↦ rw (e, m) (close-IsCounted k b c ch m h)
    | inr m ↦ rw (e, m) h
  ]
]
