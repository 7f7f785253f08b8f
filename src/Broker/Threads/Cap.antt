-- ===== src/Broker/Threads/Cap.antt =====
-- The cap on connections, under every interleaving.
use zfs_nas_dashboard.Prelude.{
  ℕ, ◌+◌, ◌≤◌, ◌≡◌, refl, ap, subst, inl, inr, Bool, some, List, [], ◌∷◌, ◌++◌, arith,
  if◌then◌else◌, Bool-cases, Option-cases, length, get_elem?, get_elem?-lt, length-append, set, pos,
  negsuc, ◌+ℤ◌,
}
use zfs_nas_dashboard.Go.Strings.{Text}
use zfs_nas_dashboard.Broker.Members.{member, length-delete}
use zfs_nas_dashboard.Broker.Invariant.{
  chan_at, IsLinked, IsValid, client-open, detach-close, close-IsLinked, enter-IsLinked,
  new-IsLinked, get_elem?-set,
}
use zfs_nas_dashboard.Broker.{
  Chan, Broker, Outcome, ok, panic, ◌>>=◌, channel_buf, max_clients, add_count, enter, send,
  take_oldest, receive,
}
use zfs_nas_dashboard.Broker.Threads.{
  Cast, System, Event, raises, enters, refuses, lowers, leaves, snapshots, sends, drops, receives,
  leave, send_next, send_of, drop_next, drop_of, step, run, start,
}

-- The counter is the number of clients plus the calls in between, and clients and calls that
-- will add one stay within the cap.
pub record IsBounded (s : System) : Type 0 where
  pub linked : IsLinked s.broker
  pub counted : s.broker.count ≡ pos (length s.broker.clients + s.adding + s.refusing + s.leaving)
  pub capped : length s.broker.clients + s.adding ≤ max_clients

-- A step that does not panic keeps `P`.
abbrev pub Keeps : (System → Type 0) → Outcome System → Type 0
Keeps P (ok t) = P t
Keeps P panic = Unit

same_keys-IsLinked :
    (b b' : Broker) → b'.clients ≡ b.clients → b'.chans ≡ b.chans → IsLinked b → IsLinked b'
same_keys-IsLinked b b' e f l = record {
  keys = ground (arith, l.keys);
  open_in_map = λ j. rw (e, f) (l.open_in_map j);
}

raise-IsBounded : (s : System) → IsBounded s → Keeps IsBounded (step raises s)
unfolding step ◌+ℤ◌
raise-IsBounded s v =
    ground (arith, same_keys-IsLinked s.broker (add_count (pos 1) s.broker) refl refl v.linked)

refuse-IsBounded : (s : System) → IsBounded s → Keeps IsBounded (step refuses s)
unfolding step ◌+ℤ◌
refuse-IsBounded s v =
    ground (arith, same_keys-IsLinked s.broker (add_count (negsuc 0) s.broker) refl refl v.linked)

lower-IsBounded : (s : System) → IsBounded s → Keeps IsBounded (step lowers s)
unfolding step ◌+ℤ◌
lower-IsBounded s v =
    ground (arith, same_keys-IsLinked s.broker (add_count (negsuc 0) s.broker) refl refl v.linked)

enter-IsBounded : (s : System) → IsBounded s → Keeps IsBounded (step enters s)
unfolding step enter ◌+ℤ◌
enter-IsBounded s v = ground (arith, enter-IsLinked s.broker v.linked)

leave-IsBounded : (c : ℕ) (s : System) → IsBounded s → Keeps IsBounded (leave c s)
unfolding leave
leave-IsBounded c s v = elim (Bool-cases (member c s.broker.clients)) [
  | inl m ↦
      let (ch, e, o) = client-open s.broker c v.linked m in
      rw (m, detach-close s.broker c ch e o)
        (ground
          (arith, close-IsLinked s.broker c ch v.linked e, length-delete c s.broker.clients m))
  | inr m ↦ rw m v
]

-- A channel that is replaced by one as open and no longer, in place.
set-IsLinked :
    (b : Broker) (c : ℕ) (ch ch' : Chan)
    → chan_at b c ≡ some ch
    → ch'.closed ≡ ch.closed
    → length ch'.buf ≤ channel_buf
    → IsLinked b
    → IsLinked (record b { chans = set b.chans c ch' })
set-IsLinked b c ch ch' e o n l = record {
  keys = l.keys;
  open_in_map = λ j.
      ground (arith, l.open_in_map j, get_elem?-set b.chans c j ch' (get_elem?-lt b.chans c e));
}

abbrev pub Moved : Broker → Broker → Type 0
Moved b b' = (IsLinked b → IsLinked b') × (b'.clients ≡ b.clients) × (b'.count ≡ b.count)

received-Moved :
    (b : Broker) (c : ℕ) (ch : Chan) (ms : List Text)
    → chan_at b c ≡ some ch
    → length ms ≤ length ch.buf
    → Moved b (record b { chans = set b.chans c (record ch { buf = ms }) })
received-Moved b c ch ms e n = (
  λ l. set-IsLinked b c ch (record ch { buf = ms }) e refl (ground (arith, l.open_in_map c)) l,
  refl,
  refl,
)

pub receive-Moved : (b : Broker) (c : ℕ) → Moved b (receive c b)
unfolding receive
receive-Moved b c = elim (Option-cases (chan_at b c)) [
  | inl e ↦ rw (e, receive) (λ l. l, refl, refl)
  | inr (ch, e) ↦ rw (e, receive) (oldest ch ch.buf e refl)
]
  where
    oldest :
        (ch : Chan) (ms : List Text)
        → chan_at b c ≡ some ch
        → ch.buf ≡ ms
        → Moved b (take_oldest c b ch ms)
    oldest ch [] e f = (λ l. l, refl, refl)
    oldest ch (m ∷ ms) e f = received-Moved b c ch ms e (omega (arith, ap length f))

pub receive-IsValid : (b : Broker) (c : ℕ) → IsValid b → IsValid (receive c b)
receive-IsValid b c v =
    let (linked, keys, count) = receive-Moved b c in
    record {
      linked = linked v.linked;
      counted = ground (arith, v.counted);
      capped = ground (arith, v.capped);
    }

abbrev pub SendKeeps : Broker → Outcome (Broker × Bool) → Type 0
SendKeeps b (ok r) = Moved b r.0
SendKeeps b panic = Unit

pub send-Moved : (b : Broker) (c : ℕ) (msg : Text) → SendKeeps b (send c msg b)
unfolding send
send-Moved b c msg = elim (Option-cases (chan_at b c)) [
  | inl e ↦ rw (e, send) tt
  | inr (ch, e) ↦ ground (
    arith,
    e,
    set-IsLinked b c ch (record ch { buf = ch.buf ++ msg ∷ [] }) e refl,
    length-append {0} ch.buf (msg ∷ []),
  )
]

Moved-IsBounded :
    (s : System) (b : Broker) (ks : List Cast)
    → Moved s.broker b
    → IsBounded s
    → IsBounded (record s { broker = b; casts = ks })
Moved-IsBounded s b ks m v = record {
  linked = m.0 v.linked;
  counted = ground (arith, v.counted);
  capped = ground (arith, v.capped);
}

recast-IsBounded : (s : System) (ks : List Cast) → IsBounded s → IsBounded (record s { casts = ks })
recast-IsBounded s ks v = record { linked = v.linked; counted = v.counted; capped = v.capped }

send_next-IsBounded :
    (s : System) (i : ℕ) (k : Cast) (cs : List ℕ)
    → IsBounded s
    → Keeps IsBounded (send_next s i k cs)
unfolding send_next
send_next-IsBounded s i k [] v = v
send_next-IsBounded s i k (c ∷ cs) v = sent (send c k.msg s.broker) (send-Moved s.broker c k.msg)
  where
    sent :
        (o : Outcome (Broker × Bool))
        → SendKeeps s.broker o
        → Keeps IsBounded (
            o >>= λ r. ok (record s {
              broker = r.0;
              casts =
                  set s.casts i
                    (record k { todo = cs; slow = if r.1 then k.slow else k.slow ++ c ∷ [] });
            }))
    sent (ok r) m = Moved-IsBounded s r.0 _ m v
    sent panic m = tt

drop_next-IsBounded :
    (s : System) (i : ℕ) (k : Cast) (todo slow : List ℕ)
    → IsBounded s
    → Keeps IsBounded (drop_next s i k todo slow)
unfolding drop_next
drop_next-IsBounded s i k [] [] v = v
drop_next-IsBounded s i k [] (c ∷ cs) v = leave-IsBounded c _ (recast-IsBounded s _ v)
drop_next-IsBounded s i k (t ∷ ts) slow v = v

-- Every event keeps the channels in step with the map, the counter in step with the clients, and
-- the clients and those about to be added within the cap.
pub step-IsBounded : (e : Event) (s : System) → IsBounded s → Keeps IsBounded (step e s)
unfolding step
step-IsBounded raises s v = raise-IsBounded s v
step-IsBounded enters s v = enter-IsBounded s v
step-IsBounded refuses s v = refuse-IsBounded s v
step-IsBounded lowers s v = lower-IsBounded s v
step-IsBounded (leaves c) s v = leave-IsBounded c s v
step-IsBounded (snapshots msg snapshot) s v =
    ground (
      arith,
      recast-IsBounded s (s.casts ++ record { msg = msg; todo = snapshot; slow = [] } ∷ []) v,
    )
step-IsBounded (sends i) s v = elim (Option-cases (get_elem? s.casts i)) [
  | inl e ↦ rw (e, send_of) v
  | inr (k, e) ↦ rw (e, send_of) (send_next-IsBounded s i k k.todo v)
]
step-IsBounded (drops i) s v = elim (Option-cases (get_elem? s.casts i)) [
  | inl e ↦ rw (e, drop_of) v
  | inr (k, e) ↦ rw (e, drop_of) (drop_next-IsBounded s i k k.todo k.slow v)
]
step-IsBounded (receives c) s v = Moved-IsBounded s _ s.casts (receive-Moved s.broker c) v

Keeps-bind :
    (P : System → Type 0) (o : Outcome System) (f : System → Outcome System)
    → Keeps P o
    → ((t : System) → P t → Keeps P (f t))
    → Keeps P (o >>= f)
Keeps-bind P (ok t) f h g = g t h
Keeps-bind P panic f h g = tt

run-IsBounded : (es : List Event) (s : System) → IsBounded s → Keeps IsBounded (run es s)
unfolding run
run-IsBounded [] s v = v
run-IsBounded (e ∷ es) s v =
    Keeps-bind IsBounded (step e s) (run es) (step-IsBounded e s v) (λ t w. run-IsBounded es t w)

pub start-IsBounded : IsBounded start
start-IsBounded = record { linked = new-IsLinked; counted = refl; capped = omega arith }

-- Under every interleaving that has not panicked, a channel is open exactly while it is in the
-- map, no buffer holds more than eight messages, at most 100 clients are registered, and the
-- counter exceeds their number by the calls in between.
pub run-start-IsBounded : (es : List Event) (s : System) → run es start ≡ ok s → IsBounded s
run-start-IsBounded es s e = subst (Keeps IsBounded) e (run-IsBounded es start start-IsBounded)
