-- ===== src/Broker/Threads/Calm.antt =====
-- When no broadcast panics: clients are removed only while no broadcast has sends to make.
use zfs_nas_dashboard.Prelude.{
  ℕ, ◌≡◌, refl, ◌≢◌, inl, inr, true, false, Option, none, some, List, [], ◌∷◌, arith, Option-cases,
  get_elem?,
}
use zfs_nas_dashboard.Broker.Members.{member}
use zfs_nas_dashboard.Broker.{Outcome, ok, panic, ◌>>=◌, receive}
use zfs_nas_dashboard.Broker.Threads.{
  Cast, System, Event, raises, enters, refuses, lowers, leaves, snapshots, sends, drops, receives,
  leave, send_of, drop_next, drop_of, step, run, start,
}
use zfs_nas_dashboard.Broker.Threads.Cap.{
  IsBounded, Keeps, receive-Moved, step-IsBounded, start-IsBounded,
}
use zfs_nas_dashboard.Broker.Threads.ClosedSend.{panics, step-panics, send_is_stale, next_is_gone}
use zfs_nas_dashboard.Broker.Threads.Pending.{
  Quiet, Allowed, Calm, Served, Pending, All-get, Quiet-Pending, same-Pending, leave-Quiet,
  drop_next-Quiet, Keeps-map, send_next-Pending, enter_next-Pending, begin_cast-Pending,
}

step-Pending : (e : Event) (s : System) → Allowed e s → Pending s → Keeps Pending (step e s)
unfolding step
step-Pending raises s a p = ground (arith, p)
step-Pending enters s a p = enter_next-Pending s s.adding p
step-Pending refuses s a p = ground (arith, p)
step-Pending lowers s a p = ground (arith, p)
step-Pending (leaves c) s a p =
    Keeps-map Quiet Pending Quiet-Pending (leave c s) (leave-Quiet c s a)
step-Pending (snapshots msg cs) s a p = begin_cast-Pending msg cs s p
step-Pending (sends i) s a p = elim (Option-cases (get_elem? s.casts i)) [
  | inl e ↦ rw (e, send_of) p
  | inr (k, e) ↦
      rw (e, send_of)
        (send_next-Pending s i k k.todo refl (All-get (Served s.broker.clients) s.casts i k p e) p)
]
step-Pending (drops i) s a p = elim (Option-cases (get_elem? s.casts i)) [
  | inl e ↦ rw (e, drop_of) p
  | inr (k, e) ↦
      rw (e, drop_of)
        (Keeps-map Quiet Pending Quiet-Pending (drop_next s i k k.todo k.slow)
          (drop_next-Quiet s i k k.todo k.slow a (All-get (λ k. k.todo ≡ []) s.casts i k a e)))
]
step-Pending (receives c) s a p =
    same-Pending s (record s { broker = receive c s.broker }) (receive-Moved s.broker c).1 refl p

send-Served :
    (clients : List ℕ) (o : Option Cast)
    → ((k : Cast) → o ≡ some k → Served clients k)
    → send_is_stale clients o ≡ false
send-Served clients none h = refl
send-Served clients (some k) h = head-Served k.todo (h k refl)
  where
    head-Served :
        (todo : List ℕ)
        → ((c : ℕ) → member c todo ≡ true → member c clients ≡ true)
        → next_is_gone clients todo ≡ false
    head-Served [] f = refl
    head-Served (c ∷ cs) f = unfold member in ground (arith, f c)

panics-Pending : (e : Event) (s : System) → Pending s → panics e s ≡ false
panics-Pending (sends i) s p =
    send-Served s.broker.clients (get_elem? s.casts i)
      (λ k e. All-get (Served s.broker.clients) s.casts i k p e)
panics-Pending raises s p = refl
panics-Pending enters s p = refl
panics-Pending refuses s p = refl
panics-Pending lowers s p = refl
panics-Pending (leaves c) s p = refl
panics-Pending (snapshots msg cs) s p = refl
panics-Pending (drops i) s p = refl
panics-Pending (receives c) s p = refl

-- A schedule that can be run to its end.
abbrev Runs : List Event → System → Type 0
Runs es s = (t : System) × (run es s ≡ ok t) × IsBounded t

bind-Runs :
    (es : List Event) (o : Outcome System)
    → o ≢ panic
    → Keeps IsBounded o
    → Keeps Pending o
    → Keeps (Calm es) o
    → ((s : System) → IsBounded s → Pending s → Calm es s → Runs es s)
    → (t : System) × ((o >>= run es) ≡ ok t) × IsBounded t
bind-Runs es (ok s) n v p c f = f s v p c
bind-Runs es panic n v p c f = absurd (n refl)

Calm-Runs : (es : List Event) (s : System) → IsBounded s → Pending s → Calm es s → Runs es s
unfolding run
Calm-Runs [] s v p c = (s, refl, v)
Calm-Runs (e ∷ es) s v p c =
    bind-Runs es (step e s) (λ h. cc ((step-panics e s v.linked).0 h, panics-Pending e s p))
      (step-IsBounded e s v) (step-Pending e s c.0 p) c.1 (Calm-Runs es)

-- What holding the lock during the sends would give: where every removal, by Unregister or at the end
-- of a broadcast, comes while no broadcast has a send to make, every schedule runs to its end without
-- a panic, however registrations, broadcasts and receives interleave.
pub run-Calm :
    (es : List Event) → Calm es start → (t : System) × (run es start ≡ ok t) × IsBounded t
run-Calm es c = Calm-Runs es start start-IsBounded tt c
