-- ===== src/Broker/Delivery.antt =====
-- What one `Broadcast` does to every channel.
use zfs_nas_dashboard.Prelude.{
  ℕ, ◌≡◌, refl, sym, ◌∙◌, inl, inr, Bool, true, false, not, ◌&&◌, ◌||◌, Option, none, some, List,
  [], ◌∷◌, ◌++◌, arith, ltb, ◌==◌, if◌then◌else◌, Bool-cases, length, get_elem?-lt, length-append,
  set,
}
use zfs_nas_dashboard.Go.Strings.{Text}
use zfs_nas_dashboard.Broker.Members.{
  member, distinct, is_snapshot, is_snapshot-member, is_snapshot-distinct, member-append,
}
use zfs_nas_dashboard.Broker.Invariant.{chan_at, IsLinked, IsValid, get_elem?-set, client-open}
use zfs_nas_dashboard.Broker.{Chan, Broker, ok, ◌>>=◌, channel_buf, send, send_all, broadcast}
use zfs_nas_dashboard.Broker.Drops.{drop_all_lem}

abbrev pub has_room : Option Chan → Bool
has_room none = false
has_room (some ch) = ltb (length ch.buf) channel_buf

-- The effect of an offer on a channel: the message goes behind the others, if there is room.
abbrev pub offered : Text → Bool → Option Chan → Option Chan
offered msg asked none = none
offered msg asked (some ch) =
    if asked && ltb (length ch.buf) channel_buf
    then some (record ch { buf = ch.buf ++ msg ∷ [] })
    else some ch

record Offers (msg : Text) (cs : List ℕ) (b : Broker) (slow : List ℕ) (r : Broker × List ℕ)
    : Type 0 where
  linked : IsLinked r.0
  same_keys : r.0.clients ≡ b.clients
  same_count : r.0.count ≡ b.count
  chans_offered : (j : ℕ) → chan_at r.0 j ≡ offered msg (member j cs) (chan_at b j)
  slow_are_full :
      (j : ℕ) → member j r.1 ≡ (member j slow || member j cs && not (has_room (chan_at b j)))

abbrev pushed : Broker → ℕ → Text → Chan → Broker
pushed b c msg ch = record b { chans = set b.chans c (record ch { buf = ch.buf ++ msg ∷ [] }) }

pushed-chan_at :
    (b : Broker) (c j : ℕ) (msg : Text) (ch : Chan)
    → chan_at b c ≡ some ch
    → ltb (length ch.buf) channel_buf ≡ true
    → chan_at (pushed b c msg ch) j ≡ offered msg (c == j) (chan_at b j)
pushed-chan_at b c j msg ch e h =
    get_elem?-set b.chans c j _ (get_elem?-lt b.chans c e) ∙ ground (arith, e, h)

pushed-IsLinked :
    (b : Broker) (c : ℕ) (msg : Text) (ch : Chan)
    → chan_at b c ≡ some ch
    → ltb (length ch.buf) channel_buf ≡ true
    → IsLinked b
    → IsLinked (pushed b c msg ch)
pushed-IsLinked b c msg ch e h l = record {
  keys = l.keys;
  open_in_map = λ j. ground (
    arith,
    l.open_in_map j,
    length-append {0} ch.buf (msg ∷ []),
    pushed-chan_at b c j msg ch e h,
  );
}

-- One offer to an open channel.
send_lem :
    (b : Broker) (c : ℕ) (msg : Text) (ch : Chan)
    → chan_at b c ≡ some ch
    → ch.closed ≡ false
    → send c msg b
      ≡ ok (if ltb (length ch.buf) channel_buf then (pushed b c msg ch, true) else (b, false))
unfolding send
send_lem b c msg ch e o = ground arith

Offers-full :
    (msg : Text) (c : ℕ) (cs slow : List ℕ) (b : Broker) (r : Broker × List ℕ)
    → has_room (chan_at b c) ≡ false
    → member c cs ≡ false
    → Offers msg cs b (slow ++ c ∷ []) r
    → Offers msg (c ∷ cs) b slow r
unfolding member
Offers-full msg c cs slow b r full new o = record {
  linked = o.linked;
  same_keys = o.same_keys;
  same_count = o.same_count;
  chans_offered = λ j. ground (arith, o.chans_offered j);
  slow_are_full = λ j. ground (arith, o.slow_are_full j, member-append j slow (c ∷ []));
}

Offers-pushed :
    (msg : Text) (c : ℕ) (cs slow : List ℕ) (b : Broker) (ch : Chan) (r : Broker × List ℕ)
    → chan_at b c ≡ some ch
    → ltb (length ch.buf) channel_buf ≡ true
    → member c cs ≡ false
    → Offers msg cs (pushed b c msg ch) slow r
    → Offers msg (c ∷ cs) b slow r
unfolding member
Offers-pushed msg c cs slow b ch r e room new o = record {
  linked = o.linked;
  same_keys = o.same_keys;
  same_count = o.same_count;
  chans_offered = λ j. ground (arith, o.chans_offered j, pushed-chan_at b c j msg ch e room);
  slow_are_full = λ j. ground (arith, o.slow_are_full j, pushed-chan_at b c j msg ch e room);
}

send_all_lem :
    (msg : Text) (cs : List ℕ) (b : Broker) (slow : List ℕ)
    → IsLinked b
    → distinct cs ≡ true
    → ((j : ℕ) → member j cs ≡ true → member j b.clients ≡ true)
    → (r : Broker × List ℕ) × (send_all msg cs b slow ≡ ok r) × Offers msg cs b slow r
unfolding send_all distinct member
send_all_lem msg [] b slow l d m = (
  (b, slow),
  refl,
  record {
    linked = l;
    same_keys = refl;
    same_count = refl;
    chans_offered = λ j. ground arith;
    slow_are_full = λ j. ground arith;
  },
)
send_all_lem msg (c ∷ cs) b slow l d m =
    let (ch, e, o) = client-open b c l (m c (ground arith)) in
    let rest : (j : ℕ) → member j cs ≡ true → member j b.clients ≡ true =
      λ j h. m j (ground arith) in
    elim (Bool-cases (ltb (length ch.buf) channel_buf)) [
      | inl room ↦
          let (r, ran, q) =
            send_all_lem msg cs (pushed b c msg ch) slow (pushed-IsLinked b c msg ch e room l)
              (ground arith) rest in
          (
            r,
            rw (send_lem b c msg ch e o, room) ran,
            Offers-pushed msg c cs slow b ch r e room (ground arith) q,
          )
      | inr full ↦
          let (r, ran, q) = send_all_lem msg cs b (slow ++ c ∷ []) l (ground arith) rest in
          (
            r,
            rw (send_lem b c msg ch e o, full) ran,
            Offers-full msg c cs slow b r (rw e full) (ground arith) q,
          )
    ]

-- What becomes of a channel: a client with room gets the message, a client without is closed.
abbrev pub delivered : Text → Bool → Option Chan → Option Chan
delivered msg listed none = none
delivered msg listed (some ch) =
    if listed
    then (if ltb (length ch.buf) channel_buf
        then some (record ch { buf = ch.buf ++ msg ∷ [] })
        else some (record ch { closed = true }))
    else some ch

pub record Delivers (msg : Text) (b b' : Broker) : Type 0 where
  pub valid : IsValid b'
  pub chans_after : (j : ℕ) → chan_at b' j ≡ delivered msg (member j b.clients) (chan_at b j)
  pub keys_after : (j : ℕ) → member j b'.clients ≡ (member j b.clients && has_room (chan_at b j))

-- `Broadcast` while nobody else touches the broker: whatever the order in which the map is
-- ranged over it returns without a panic, every client with room has the message behind what was
-- queued, exactly the clients with a full buffer are closed and gone, and no other channel changes.
pub broadcast-Delivers :
    (msg : Text) (snapshot : List ℕ) (b : Broker)
    → is_snapshot snapshot b.clients ≡ true
    → IsValid b
    → (b' : Broker) × (broadcast msg snapshot b ≡ ok b') × Delivers msg b b'
unfolding broadcast member
broadcast-Delivers msg snapshot b s v =
    let same = λ (j : ℕ). is_snapshot-member j snapshot b.clients s in
    let (r, sent, o) =
      send_all_lem msg snapshot b [] v.linked (is_snapshot-distinct snapshot b.clients s)
        (λ j h. sym (same j) ∙ h) in
    let (b', dropped, d) = drop_all_lem r.1 r.0 o.linked in
    (
      b',
      rw (sent, ◌>>=◌) dropped,
      record {
        valid = record {
          linked = d.linked;
          counted = d.counted 0 (ground (arith, v.counted, o.same_keys, o.same_count));
          capped = ground (arith, d.no_more, o.same_keys, v.capped);
        };
        chans_after = λ j.
            ground
              (arith, d.chans_closed j, o.chans_offered j, o.slow_are_full j, o.same_keys, same j);
        keys_after = λ j. ground (arith, d.keys_left j, o.slow_are_full j, o.same_keys, same j);
      },
    )
