-- ===== src/Broker/Threads/ClosedSend.antt =====
-- When a broadcast panics. `Broadcast` sends under no lock, so a client of its snapshot may
-- leave, and have its channel closed, before its turn comes.
use zfs_nas_dashboard.Prelude.{
  ℕ, ◌+◌, ◌≡◌, refl, ◌∙◌, ◌↔◌, inl, inr, Bool, true, false, not, Option, none, some, List, [], ◌∷◌,
  ◌++◌, arith, Bool-cases, Option-cases, length, get_elem?, get_elem?-append_self,
}
use zfs_nas_dashboard.Go.Strings.{Text}
use zfs_nas_dashboard.Broker.Members.{member, is_snapshot, is_snapshot-member}
use zfs_nas_dashboard.Broker.Invariant.{chan_at, IsLinked, client-open, detach-close, close}
use zfs_nas_dashboard.Broker.Drops.{chan_at-close}
use zfs_nas_dashboard.Broker.{Chan, Broker, Outcome, ok, panic, ◌>>=◌, send}
use zfs_nas_dashboard.Broker.Threads.{
  Cast, System, Event, leaves, snapshots, sends, drops, leave, send_next, send_of, drop_next,
  drop_of, step, run,
}

-- What the next send of broadcast `i` finds: whether its channel is no longer in the map.
abbrev pub next_is_gone : List ℕ → List ℕ → Bool
next_is_gone clients [] = false
next_is_gone clients (c ∷ _) = not (member c clients)

abbrev pub send_is_stale : List ℕ → Option Cast → Bool
send_is_stale clients none = false
send_is_stale clients (some k) = next_is_gone clients k.todo

-- The only event that can panic, and when it does.
abbrev pub panics : Event → System → Bool
panics (sends i) s = send_is_stale s.broker.clients (get_elem? s.casts i)
panics _ s = false

abbrev is_panic : {A : Type 0} → Outcome A → Bool
is_panic (ok a) = false
is_panic panic = true

send-is_panic :
    (b : Broker) (c : ℕ) (msg : Text)
    → IsLinked b
    → is_panic (send c msg b) ≡ not (member c b.clients)
unfolding send
send-is_panic b c msg l = elim (Option-cases (chan_at b c)) [
  | inl e ↦ rw (e, send) (ground (arith, l.open_in_map c))
  | inr (ch, e) ↦ ground (arith, e, l.open_in_map c)
]

leave-is_panic : (c : ℕ) (s : System) → IsLinked s.broker → is_panic (leave c s) ≡ false
unfolding leave
leave-is_panic c s l = elim (Bool-cases (member c s.broker.clients)) [
  | inl m ↦ let (ch, e, o) = client-open s.broker c l m in rw (m, detach-close s.broker c ch e o)
  | inr m ↦ rw m
]

drop_next-is_panic :
    (s : System) (i : ℕ) (k : Cast) (todo slow : List ℕ)
    → IsLinked s.broker
    → is_panic (drop_next s i k todo slow) ≡ false
unfolding drop_next
drop_next-is_panic s i k [] [] l = refl
drop_next-is_panic s i k [] (c ∷ cs) l = leave-is_panic c _ l
drop_next-is_panic s i k (t ∷ ts) slow l = refl

is_panic-bind :
    {A B : Type 0} (o : Outcome A) (f : A → B) → is_panic (o >>= λ a. ok (f a)) ≡ is_panic o
is_panic-bind (ok a) f = refl
is_panic-bind panic f = refl

send_next-is_panic :
    (s : System) (i : ℕ) (k : Cast) (todo : List ℕ)
    → IsLinked s.broker
    → is_panic (send_next s i k todo) ≡ next_is_gone s.broker.clients todo
unfolding send_next
send_next-is_panic s i k [] l = refl
send_next-is_panic s i k (c ∷ cs) l =
    is_panic-bind (send c k.msg s.broker) _ ∙ send-is_panic s.broker c k.msg l

step-is_panic : (e : Event) (s : System) → IsLinked s.broker → is_panic (step e s) ≡ panics e s
unfolding step
step-is_panic (sends i) s l = elim (Option-cases (get_elem? s.casts i)) [
  | inl e ↦ rw (e, send_of)
  | inr (k, e) ↦ rw (e, send_of) (send_next-is_panic s i k k.todo l)
]
step-is_panic (drops i) s l = elim (Option-cases (get_elem? s.casts i)) [
  | inl e ↦ rw (e, drop_of)
  | inr (k, e) ↦ rw (e, drop_of) (drop_next-is_panic s i k k.todo k.slow l)
]
step-is_panic (leaves c) s l = leave-is_panic c s l
step-is_panic _ s l = refl

is_panic_iff : {A : Type 0} (o : Outcome A) → (o ≡ panic) ↔ (is_panic o ≡ true)
is_panic_iff (ok a) = ground arith
is_panic_iff panic = ground arith

-- An event panics exactly when it is the send of a broadcast to a channel of its snapshot that
-- has been removed since; registrations, removals and receives never do.
pub step-panics :
    (e : Event) (s : System) → IsLinked s.broker → (step e s ≡ panic) ↔ (panics e s ≡ true)
step-panics e s l = rw (← step-is_panic e s l) (is_panic_iff (step e s))

snapshots_lem :
    (s : System) (msg : Text) (snapshot : List ℕ)
    → is_snapshot snapshot s.broker.clients ≡ true
    → step (snapshots msg snapshot) s
      ≡ ok (record s { casts = s.casts ++ record { msg = msg; todo = snapshot; slow = [] } ∷ [] })
unfolding step
snapshots_lem s msg snapshot h = ground arith

leave_lem :
    (s : System) (c : ℕ) (ch : Chan)
    → member c s.broker.clients ≡ true
    → chan_at s.broker c ≡ some ch
    → ch.closed ≡ false
    → leave c s ≡ ok (record s { broker = close s.broker c ch; leaving = s.leaving + 1 })
unfolding leave
leave_lem s c ch m e o = rw (m, detach-close s.broker c ch e o)

closed_send :
    (b : Broker) (c : ℕ) (ch : Chan) (msg : Text)
    → chan_at b c ≡ some ch
    → ch.closed ≡ false
    → send c msg (close b c ch) ≡ panic
unfolding send
closed_send b c ch msg e o = ground (arith, chan_at-close b c c ch e)

pub run-step :
    (e : Event) (es : List Event) (s t : System) → step e s ≡ ok t → run (e ∷ es) s ≡ run es t
unfolding run
run-step e es s t h = rw h

sends_panic :
    (s : System) (i c : ℕ) (k : Cast) (rest : List ℕ)
    → get_elem? s.casts i ≡ some k
    → k.todo ≡ c ∷ rest
    → send c k.msg s.broker ≡ panic
    → run (sends i ∷ []) s ≡ panic
unfolding run step send_next
sends_panic s i c k rest e f h = rw (e, send_of, f, send_next, h)

snapshot-head :
    (c : ℕ) (rest clients : List ℕ)
    → is_snapshot (c ∷ rest) clients ≡ true
    → member c clients ≡ true
unfolding member
snapshot-head c rest clients h = ground (arith, is_snapshot-member c (c ∷ rest) clients h)

-- The bug: from every linked state, when a broadcast takes its snapshot, the first client of that
-- snapshot then unregisters, and the broadcast makes its first send, these three steps panic.
pub unregister_during_broadcast_panics :
    (s : System) (c : ℕ) (rest : List ℕ) (msg : Text)
    → IsLinked s.broker
    → is_snapshot (c ∷ rest) s.broker.clients ≡ true
    → run (snapshots msg (c ∷ rest) ∷ leaves c ∷ sends (length s.casts) ∷ []) s ≡ panic
unregister_during_broadcast_panics s c rest msg l h =
    let m = snapshot-head c rest s.broker.clients h in
    let (ch, e, o) = client-open s.broker c l m in
    let k : Cast = record { msg = msg; todo = c ∷ rest; slow = [] } in
    let begun : System = record s { casts = s.casts ++ k ∷ [] } in
    let left : System = record begun { broker = close s.broker c ch; leaving = s.leaving + 1 } in
    run-step (snapshots msg (c ∷ rest)) _ s begun (snapshots_lem s msg (c ∷ rest) h)
    ∙ run-step (leaves c) _ begun left (unfold step in leave_lem begun c ch m e o)
    ∙ sends_panic left (length s.casts) c k rest (get_elem?-append_self s.casts k) refl
        (closed_send s.broker c ch msg e o)
