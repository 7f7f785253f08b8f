-- ===== src/Broker/Threads.antt =====
-- The broker under goroutines that interleave. An event is what one goroutine does without
-- another seeing the middle of it: an atomic addition, a send, or a part of a critical section of
-- the mutex. What lies between two events of one call is kept in the system's state.
pub mod Cap
pub mod ClosedSend
pub mod Schedules
pub mod Atomic
pub mod Pending
pub mod Calm
use zfs_nas_dashboard.Prelude.{
  ℕ, zero, suc, ◌+◌, ◌-◌, ◌*◌, ◌/◌, ◌%◌, ◌^◌, ◌≤◌, ◌<◌, ◌≡◌, refl, sym, ap, subst, ◌∙◌, ◌≢◌, ◌↔◌,
  ◌⊎◌, inl, inr, Bool, true, false, not, ◌&&◌, ◌||◌, Option, none, some, List, [], ◌∷◌, ◌++◌, map,
  reverse, arith, dec_lt, ℕ_discrete, ltb, leb, ◌==◌, if◌then◌else◌, ==_iff, Bool-cases,
  Option-cases, length, get_elem?, get_elem?-lt, length-append, set, take, drop, All, ℤ, pos,
  negsuc, ◌+ℤ◌, ◌*ℤ◌, ◌≤ℤ◌, ◌<ℤ◌, ltb_ℤ, leb_ℤ, eqb_ℤ, eqb_ℤ_iff, pos_part, neg_part, IsInt64,
  wrap64,
}
use zfs_nas_dashboard.Go.Strings.{Text}
use zfs_nas_dashboard.Broker.Members.{member, is_snapshot}
use zfs_nas_dashboard.Broker.{
  Broker, Outcome, ok, panic, ◌>>=◌, new, add_count, over_cap, enter, detach, send, receive,
}

-- A `Broadcast` under way: the channels of its snapshot still to serve, and those found slow.
pub record Cast : Type 0 where
  pub msg : Text
  pub todo : List ℕ
  pub slow : List ℕ

-- How many calls of `Register` have raised the counter and still have to enter their channel
-- (`adding`) or to lower it again (`refusing`), how many removed clients are still counted
-- (`leaving`), and the broadcasts under way.
pub record System : Type 0 where
  pub broker : Broker
  pub adding : ℕ
  pub refusing : ℕ
  pub leaving : ℕ
  pub casts : List Cast

pub data Event : Type 0 where
  raises enters refuses lowers : Event
  leaves : ℕ → Event
  snapshots : Text → List ℕ → Event
  sends drops : ℕ → Event
  receives : ℕ → Event

-- `Register`: the addition, and what it decides.
raise : System → System
raise s =
    let raised = add_count (pos 1) s.broker in
    if over_cap raised
    then record s { broker = raised; refusing = s.refusing + 1 }
    else record s { broker = raised; adding = s.adding + 1 }

-- `Register`: the channel goes into the map.
pub enter_next : System → ℕ → System
enter_next s zero = s
enter_next s (suc n) = record s { broker = enter s.broker; adding = n }

-- `Register`: a refused call takes its addition back.
refuse_next : System → ℕ → System
refuse_next s zero = s
refuse_next s (suc n) = record s { broker = add_count (negsuc 0) s.broker; refusing = n }

-- The end of a removal: `b.count.Add(-1)`.
lower_next : System → ℕ → System
lower_next s zero = s
lower_next s (suc n) = record s { broker = add_count (negsuc 0) s.broker; leaving = n }

-- The removal of a client, if it is still in the map: `delete` and `close`.
unfoldable pub leave : ℕ → System → Outcome System
leave c s =
    let left = detach c s.broker >>= λ b. ok (record s { broker = b; leaving = s.leaving + 1 }) in
    if member c s.broker.clients then left else ok s

-- `Broadcast` reads the keys under the read lock, in an order that Go leaves open.
pub begin_cast : Text → List ℕ → System → System
begin_cast msg snapshot s =
    if is_snapshot snapshot s.broker.clients
    then record s { casts = s.casts ++ record { msg = msg; todo = snapshot; slow = [] } ∷ [] }
    else s

-- `Broadcast` serves the next channel of its snapshot, under no lock.
pub send_next : System → ℕ → Cast → List ℕ → Outcome System
send_next s i k [] = ok s
send_next s i k (c ∷ cs) = do
  r ← send c k.msg s.broker
  ok (record s {
    broker = r.0;
    casts = set s.casts i (record k { todo = cs; slow = if r.1 then k.slow else k.slow ++ c ∷ [] });
  })

pub send_of : System → ℕ → Option Cast → Outcome System
unfolding send_next
send_of s i none = ok s
send_of s i (some k) = send_next s i k k.todo

-- `Broadcast`, its sends done, removes the next slow client.
pub drop_next : System → ℕ → Cast → List ℕ → List ℕ → Outcome System
unfolding leave
drop_next s i k [] (c ∷ cs) = leave c (record s { casts = set s.casts i (record k { slow = cs }) })
drop_next s i k _ _ = ok s

pub drop_of : System → ℕ → Option Cast → Outcome System
unfolding drop_next
drop_of s i none = ok s
drop_of s i (some k) = drop_next s i k k.todo k.slow

unfoldable pub step : Event → System → Outcome System
unfolding raise enter_next refuse_next lower_next leave begin_cast send_of drop_of
step raises s = ok (raise s)
step enters s = ok (enter_next s s.adding)
step refuses s = ok (refuse_next s s.refusing)
step lowers s = ok (lower_next s s.leaving)
step (leaves c) s = leave c s
step (snapshots msg snapshot) s = ok (begin_cast msg snapshot s)
step (sends i) s = send_of s i (get_elem? s.casts i)
step (drops i) s = drop_of s i (get_elem? s.casts i)
step (receives c) s = ok (record s { broker = receive c s.broker })

unfoldable pub run : List Event → System → Outcome System
run [] s = ok s
run (e ∷ es) s = do t ← step e s; run es t

abbrev pub start : System
start = record { broker = new; adding = 0; refusing = 0; leaving = 0; casts = [] }
