-- ===== src/Broker/Tests.antt =====
-- The broker on concrete inputs: two clients, of which the second has a full buffer.
use zfs_nas_dashboard.Prelude.{
  ℕ, zero, suc, ◌≡◌, refl, ◌↔◌, true, false, List, [], ◌∷◌, arith, pos, ◌+ℤ◌,
}
use zfs_nas_dashboard.Go.Strings.{Text, codes}
use zfs_nas_dashboard.Broker.Members.{member, delete, distinct, is_snapshot}
use zfs_nas_dashboard.Broker.Invariant.{IsLinked, IsValid, ClosedIn, chan_at}
use zfs_nas_dashboard.Broker.Delivery.{Delivers, broadcast-Delivers}
use zfs_nas_dashboard.Broker.Threads.Cap.{IsBounded, run-start-IsBounded}
use zfs_nas_dashboard.Broker.Threads.ClosedSend.{
  panics, step-panics, unregister_during_broadcast_panics,
}
use zfs_nas_dashboard.Broker.Members.{RangesAll-self}
use zfs_nas_dashboard.Broker.Calls.{broadcasts, call}
use zfs_nas_dashboard.Broker.Threads.Schedules.{Schedules}
use zfs_nas_dashboard.Broker.Threads.Atomic.{left_by, finished, call-Schedules}
use zfs_nas_dashboard.Broker.Threads.Calm.{run-Calm}
use zfs_nas_dashboard.Broker.Threads.{
  drops, start, System, Event, raises, enters, leaves, snapshots, sends, drops, step, run, leave,
  start,
}
use zfs_nas_dashboard.Broker.{
  Chan, Broker, ok, panic, enter, detach, unregister, send, send_all, drop_all, broadcast,
}

abbrev msg : Text
msg = codes "{}"

abbrev full : List Text
full = msg ∷ msg ∷ msg ∷ msg ∷ msg ∷ msg ∷ msg ∷ msg ∷ []

abbrev quick_chan : Chan
quick_chan = record { buf = []; closed = false }

abbrev slow_chan : Chan
slow_chan = record { buf = full; closed = false }

abbrev two_clients : Broker
two_clients = record { chans = quick_chan ∷ slow_chan ∷ []; clients = 1 ∷ 0 ∷ []; count = pos 2 }

two_clients-open : (c : ℕ) → ClosedIn (member c two_clients.clients) (chan_at two_clients c)
unfolding member
two_clients-open zero = (refl, omega arith)
two_clients-open (suc zero) = (refl, omega arith)
two_clients-open (suc (suc c)) = ground arith

two_clients-IsLinked : IsLinked two_clients
unfolding distinct
two_clients-IsLinked = record { keys = refl; open_in_map = two_clients-open }

two_clients-IsValid : IsValid two_clients
two_clients-IsValid = record { linked = two_clients-IsLinked; counted = refl; capped = omega arith }

-- The slow client is closed and leaves, the quick one has the message.
broadcast_run :
    broadcast msg (0 ∷ 1 ∷ []) two_clients
    ≡ ok (record {
      chans = record { buf = msg ∷ []; closed = false } ∷ record { buf = full; closed = true } ∷ [];
      clients = 0 ∷ [];
      count = pos 1;
    })
unfolding broadcast send_all drop_all send unregister detach member delete ◌+ℤ◌
broadcast_run = refl

broadcast-Delivers_example :
    (b' : Broker) × (broadcast msg (0 ∷ 1 ∷ []) two_clients ≡ ok b') × Delivers msg two_clients b'
unfolding is_snapshot
broadcast-Delivers_example =
    broadcast-Delivers msg (0 ∷ 1 ∷ []) two_clients refl two_clients-IsValid

abbrev schedule : List Event
schedule = raises ∷ raises ∷ enters ∷ leaves 0 ∷ []

abbrev after_schedule : System
after_schedule = record {
  broker = record { chans = record { buf = []; closed = true } ∷ []; clients = []; count = pos 2 };
  adding = 1;
  refusing = 0;
  leaving = 1;
  casts = [];
}

run-start-IsBounded_example : IsBounded after_schedule
unfolding run step leave enter detach member delete ◌+ℤ◌
run-start-IsBounded_example = run-start-IsBounded schedule after_schedule refl

abbrev two_served : System
two_served = record { broker = two_clients; adding = 0; refusing = 0; leaving = 0; casts = [] }

step-panics_example :
    (step
        (sends 0)
        (record two_served { casts = record { msg = msg; todo = 7 ∷ []; slow = [] } ∷ [] })
      ≡ panic)
    ↔ (panics
          (sends 0)
          (record two_served { casts = record { msg = msg; todo = 7 ∷ []; slow = [] } ∷ [] })
        ≡ true)
step-panics_example =
    step-panics (sends 0)
      (record two_served { casts = record { msg = msg; todo = 7 ∷ []; slow = [] } ∷ [] })
      two_clients-IsLinked

unregister_during_broadcast_panics_example :
    run (snapshots msg (1 ∷ 0 ∷ []) ∷ leaves 1 ∷ sends 0 ∷ []) two_served ≡ panic
unfolding is_snapshot
unregister_during_broadcast_panics_example =
    unregister_during_broadcast_panics two_served 1 (0 ∷ []) msg two_clients-IsLinked refl

call-Schedules_example :
    (b' : Broker) × (call (λ cs. cs) (broadcasts msg) two_clients ≡ ok b')
    × Schedules (broadcasts msg) 0 two_served (left_by two_served b' (finished (broadcasts msg)))
call-Schedules_example =
    call-Schedules (λ cs. cs) RangesAll-self (broadcasts msg) two_served two_clients-IsValid

-- Two broadcasts at once, and a client that leaves when both have sent.
abbrev calm : List Event
calm =
    raises
    ∷ enters
    ∷ snapshots msg (0 ∷ [])
    ∷ snapshots msg (0 ∷ [])
    ∷ sends 1
    ∷ sends 0
    ∷ leaves 0
    ∷ drops 1
    ∷ []

run-Calm_example : (t : System) × (run calm start ≡ ok t) × IsBounded t
unfolding step run enter ◌+ℤ◌ is_snapshot member distinct send detach
run-Calm_example =
    run-Calm calm (tt, (tt, (tt, (tt, (tt, (tt, ((refl, (refl, tt)), ((refl, (refl, tt)), tt))))))))
