-- ===== src/Broker/Threads/Pending.antt =====
-- internal/broker/broker.go: broadcasts whose sends to come are all to channels in the map.
use zfs_nas_dashboard.Prelude.{
  ℕ, zero, suc, ◌+◌, ◌≡◌, sym, subst, ◌∙◌, inl, inr, Bool, true, some, List, [], ◌∷◌, ◌++◌, arith,
  if◌then◌else◌, Bool-cases, get_elem?, set, All, All-map, All-append,
}
use zfs_nas_dashboard.Go.Strings.{Text}
use zfs_nas_dashboard.Broker.Members.{member, is_snapshot, is_snapshot-member}
use zfs_nas_dashboard.Broker.{Broker, Outcome, ok, panic, ◌>>=◌, detach, enter, send}
use zfs_nas_dashboard.Broker.Threads.{
  Cast, System, Event, raises, enters, refuses, lowers, leaves, snapshots, sends, drops, receives,
  leave, send_next, drop_next, enter_next, begin_cast, step,
}
use zfs_nas_dashboard.Broker.Threads.Cap.{Keeps, SendKeeps, send-Moved}

-- No broadcast has a send to make.
abbrev pub Quiet : System → Type 0
Quiet s = All (λ k. k.todo ≡ []) s.casts

-- A removal may come only then, be it an Unregister or the end of a broadcast.
abbrev pub Allowed : Event → System → Type 0
Allowed (leaves c) s = Quiet s
Allowed (drops i) s = Quiet s
Allowed raises s = Unit
Allowed enters s = Unit
Allowed refuses s = Unit
Allowed lowers s = Unit
Allowed (snapshots msg cs) s = Unit
Allowed (sends i) s = Unit
Allowed (receives c) s = Unit

-- All along a schedule, as far as it runs.
abbrev pub Calm : List Event → System → Type 0
Calm [] s = Unit
Calm (e ∷ es) s = Allowed e s × Keeps (Calm es) (step e s)

-- What the sends to come need: their channels are in the map.
abbrev pub Served : List ℕ → Cast → Type 0
Served clients k = (c : ℕ) → member c k.todo ≡ true → member c clients ≡ true

abbrev pub Pending : System → Type 0
Pending s = All (Served s.broker.clients) s.casts

All-set :
    {A : Type 0} (P : A → Type 0) (xs : List A) (i : ℕ) (v : A)
    → All P xs
    → P v
    → All P (set xs i v)
All-set P [] i v h p = tt
All-set P (x ∷ xs) zero v h p = (p, h.1)
All-set P (x ∷ xs) (suc i) v h p = (h.0, All-set P xs i v h.1 p)

pub All-get :
    {A : Type 0} (P : A → Type 0) (xs : List A) (i : ℕ) (v : A)
    → All P xs
    → get_elem? xs i ≡ some v
    → P v
All-get P [] i v h e = cc e
All-get P (x ∷ xs) zero v h e = subst P (ground (arith, e)) h.0
All-get P (x ∷ xs) (suc i) v h e = All-get P xs i v h.1 e

pub Quiet-Pending : (s : System) → Quiet s → Pending s
unfolding member
Quiet-Pending s q =
    All-map (λ k. k.todo ≡ []) (Served s.broker.clients) (λ k e c m. cc (e, m)) s.casts q

pub same-Pending :
    (s t : System) → t.broker.clients ≡ s.broker.clients → t.casts ≡ s.casts → Pending s → Pending t
same-Pending s t e f p = rw (e, f) p

pub leave-Quiet : (c : ℕ) (s : System) → Quiet s → Keeps Quiet (leave c s)
unfolding leave
leave-Quiet c s q = elim (Bool-cases (member c s.broker.clients)) [
  | inl m ↦ rw m (detached (detach c s.broker))
  | inr m ↦ rw m q
]
  where
    detached :
        (o : Outcome Broker)
        → Keeps Quiet (o >>= λ b. ok (record s { broker = b; leaving = s.leaving + 1 }))
    detached (ok b) = q
    detached panic = tt

pub drop_next-Quiet :
    (s : System) (i : ℕ) (k : Cast) (todo slow : List ℕ)
    → Quiet s
    → k.todo ≡ []
    → Keeps Quiet (drop_next s i k todo slow)
unfolding drop_next
drop_next-Quiet s i k [] [] q e = q
drop_next-Quiet s i k [] (c ∷ cs) q e =
    leave-Quiet c (record s { casts = set s.casts i (record k { slow = cs }) })
      (All-set (λ k. k.todo ≡ []) s.casts i (record k { slow = cs }) q e)
drop_next-Quiet s i k (t ∷ ts) slow q e = q

pub Keeps-map :
    (P Q : System → Type 0)
    → ((s : System) → P s → Q s)
    → (o : Outcome System) → Keeps P o
    → Keeps Q o
Keeps-map P Q f (ok s) h = f s h
Keeps-map P Q f panic h = tt

pub send_next-Pending :
    (s : System) (i : ℕ) (k : Cast) (cs : List ℕ)
    → k.todo ≡ cs
    → Served s.broker.clients k
    → Pending s
    → Keeps Pending (send_next s i k cs)
unfolding send_next member
send_next-Pending s i k [] e h p = p
send_next-Pending s i k (c ∷ cs) e h p = sent (send c k.msg s.broker) (send-Moved s.broker c k.msg)
  where
    sent :
        (o : Outcome (Broker × Bool))
        → SendKeeps s.broker o
        → Keeps Pending (
            o >>= λ r. ok (record s {
              broker = r.0;
              casts =
                  set s.casts i
                    (record k { todo = cs; slow = if r.1 then k.slow else k.slow ++ c ∷ [] });
            }))
    sent (ok r) m =
        subst
          (λ ds. All (Served ds) (
            set s.casts i
              (record k { todo = cs; slow = if r.1 then k.slow else k.slow ++ c ∷ [] })))
          (sym m.1)
          (All-set (Served s.broker.clients) s.casts i _ p (λ j n. h j (ground (arith, e, n))))
    sent panic m = tt

entered-Pending : (s : System) → Pending s → Pending (record s { broker = enter s.broker })
unfolding enter member
entered-Pending s p =
    All-map (Served s.broker.clients) (Served (enter s.broker).clients)
      (λ k h c m. ground (arith, h c m)) s.casts p

pub enter_next-Pending : (s : System) (n : ℕ) → Pending s → Pending (enter_next s n)
unfolding enter_next
enter_next-Pending s zero p = p
enter_next-Pending s (suc n) p = entered-Pending s p

pub begin_cast-Pending :
    (msg : Text) (cs : List ℕ) (s : System) → Pending s → Pending (begin_cast msg cs s)
unfolding begin_cast
begin_cast-Pending msg cs s p = elim (Bool-cases (is_snapshot cs s.broker.clients)) [
  | inl h ↦ rw h (
      All-append (Served s.broker.clients) s.casts _ p
        ((λ c m. sym (is_snapshot-member c cs s.broker.clients h) ∙ m), tt))
  | inr h ↦ rw h p
]
