-- ===== src/Broker/Drops.antt =====
-- What `Unregister`, and the end of `Broadcast`, do to every channel.
use zfs_nas_dashboard.Prelude.{
  ℕ, ◌≤◌, ◌≡◌, refl, ◌∙◌, inl, inr, Bool, true, not, ◌&&◌, Option, none, some, List, [], ◌∷◌, arith,
  ◌==◌, if◌then◌else◌, Option-cases, length, get_elem?-lt,
}
use zfs_nas_dashboard.Broker.Members.{member, member-delete, length-delete}
use zfs_nas_dashboard.Broker.Invariant.{
  chan_at, IsLinked, IsCounted, IsValid, close, get_elem?-set, unregistered, unregister_lem,
  unregistered-IsLinked, unregistered-IsCounted,
}
use zfs_nas_dashboard.Broker.{Chan, Broker, ok, unregister, drop_all}

abbrev pub closed_if : Bool → Option Chan → Option Chan
closed_if closing none = none
closed_if closing (some ch) = if closing then some (record ch { closed = true }) else some ch

-- `b'` is `b` with the clients `cs` taken out and their channels closed.
pub record Drops (cs : List ℕ) (b b' : Broker) : Type 0 where
  pub linked : IsLinked b'
  pub keys_left : (j : ℕ) → member j b'.clients ≡ (not (member j cs) && member j b.clients)
  pub chans_closed :
      (j : ℕ) → chan_at b' j ≡ closed_if (member j cs && member j b.clients) (chan_at b j)
  pub counted : (k : ℕ) → IsCounted k b → IsCounted k b'
  pub no_more : length b'.clients ≤ length b.clients

pub chan_at-close :
    (b : Broker) (c j : ℕ) (ch : Chan)
    → chan_at b c ≡ some ch
    → chan_at (close b c ch) j ≡ closed_if (c == j) (chan_at b j)
chan_at-close b c j ch e =
    get_elem?-set b.chans c j _ (get_elem?-lt b.chans c e) ∙ ground (arith, e)

unregistered-Drops :
    (b : Broker) (c : ℕ) → IsLinked b → Drops (c ∷ []) b (unregistered c b (chan_at b c))
unfolding member
unregistered-Drops b c l = elim (Option-cases (chan_at b c)) [
  | inl e ↦ record {
    linked = unregistered-IsLinked b c l;
    keys_left = λ j. rw e (ground (arith, l.open_in_map c));
    chans_closed = λ j. rw e (ground (arith, l.open_in_map c));
    counted = λ k h. unregistered-IsCounted k b c h;
    no_more = rw e (omega arith);
  }
  | inr (ch, e) ↦ record {
    linked = unregistered-IsLinked b c l;
    keys_left = λ j. rw e (ground (arith, member-delete j c b.clients l.keys));
    chans_closed = λ j. rw e (ground (arith, chan_at-close b c j ch e));
    counted = λ k h. unregistered-IsCounted k b c h;
    no_more = rw e (ground (arith, length-delete c b.clients));
  }
]

Drops-trans :
    (c : ℕ) (cs : List ℕ) (b b' b'' : Broker)
    → Drops (c ∷ []) b b'
    → Drops cs b' b''
    → Drops (c ∷ cs) b b''
unfolding member
Drops-trans c cs b b' b'' p q = record {
  linked = q.linked;
  keys_left = λ j. ground (arith, p.keys_left j, q.keys_left j);
  chans_closed = λ j. ground (arith, p.keys_left j, p.chans_closed j, q.chans_closed j);
  counted = λ k h. q.counted k (p.counted k h);
  no_more = omega (arith, p.no_more, q.no_more);
}

-- Dropping never panics, whatever the list.
pub drop_all_lem :
    (cs : List ℕ) (b : Broker)
    → IsLinked b
    → (b' : Broker) × (drop_all cs b ≡ ok b') × Drops cs b b'
unfolding drop_all member
drop_all_lem [] b l = (
  b,
  refl,
  record {
    linked = l;
    keys_left = λ j. refl;
    chans_closed = λ j. ground arith;
    counted = λ k h. h;
    no_more = omega arith;
  },
)
drop_all_lem (c ∷ cs) b l =
    let first = unregistered c b (chan_at b c) in
    let (b', e, d) = drop_all_lem cs first (unregistered-IsLinked b c l) in
    (b', rw (unregister_lem b c l) e, Drops-trans c cs b first b' (unregistered-Drops b c l) d)

-- `Unregister` of any channel: no panic, the channel closed and out of the map if it was in it,
-- all others as they were; so a second call changes nothing.
pub unregister-Drops :
    (b : Broker) (c : ℕ)
    → IsValid b
    → (b' : Broker) × (unregister c b ≡ ok b')
      × IsValid b'
      × Drops (c ∷ []) b b'
      × (unregister c b' ≡ ok b')
unfolding member unregister
unregister-Drops b c v =
    let b' = unregistered c b (chan_at b c) in
    let d = unregistered-Drops b c v.linked in
    (
      b',
      unregister_lem b c v.linked,
      record {
        linked = d.linked;
        counted = d.counted 0 v.counted;
        capped = omega (arith, d.no_more, v.capped);
      },
      d,
      ground (arith, d.keys_left c),
    )
