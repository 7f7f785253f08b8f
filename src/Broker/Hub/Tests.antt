-- ===== src/Broker/Hub/Tests.antt =====
-- Calls of a new broker: a reader in step, and one that never reads.
use zfs_nas_dashboard.Prelude.{ℕ, ◌≡◌, refl, List, [], ◌∷◌, arith}
use zfs_nas_dashboard.Go.Strings.{Text, codes}
use zfs_nas_dashboard.Broker
use zfs_nas_dashboard.Broker.{Broker, ok}
use zfs_nas_dashboard.Broker.Members.{RangesAll-self}
use zfs_nas_dashboard.Broker.Invariant.{IsValid, new-IsValid}
use zfs_nas_dashboard.Broker.Calls
use zfs_nas_dashboard.Broker.Calls.{
  Call, registers, unregisters, broadcasts, receives, Reply, granted, message, ended, waits, silent,
}
use zfs_nas_dashboard.Broker.Hub.{run, call, live_count}
use zfs_nas_dashboard.Broker.Hub.Refines.{view}
use zfs_nas_dashboard.Broker.Hub.Simulates.{run_refines}
use zfs_nas_dashboard.Broker.Hub.Backlog.{backlog}
use zfs_nas_dashboard.Broker.Hub.Mailboxes.{Hears, granted-gets_all}

abbrev same_order : List ℕ → List ℕ
same_order cs = cs

abbrev a : Text
a = codes "a"

abbrev b : Text
b = codes "b"

abbrev in_step : List Call
in_step =
    broadcasts a
    ∷ registers
    ∷ receives 0
    ∷ receives 0
    ∷ broadcasts b
    ∷ receives 1
    ∷ receives 0
    ∷ unregisters 1
    ∷ receives 1
    ∷ []

hub_run : (run (registers ∷ in_step) []).1 ≡ (
    granted 0
    ∷ silent
    ∷ granted 1
    ∷ message a
    ∷ waits
    ∷ silent
    ∷ message b
    ∷ message b
    ∷ silent
    ∷ ended
    ∷ [])
unfolding run call live_count
hub_run = refl

run_refines_example :
    (b' : Broker) × (replies : List Reply) × (Broker.Calls.run same_order
        (registers ∷ in_step)
        Broker.new
      ≡ ok (b', replies))
    × IsValid b'
    × ((view b', replies) ≡ run (registers ∷ in_step) [])
run_refines_example =
    run_refines same_order RangesAll-self (registers ∷ in_step) Broker.new new-IsValid

granted-gets_all_example :
    (b' : Broker) × (replies : List Reply) × (Broker.Calls.run same_order
        (registers ∷ in_step)
        Broker.new
      ≡ ok (b', granted 0 ∷ replies))
    × IsValid b'
    × Hears 0 in_step 0 b' replies
unfolding backlog
granted-gets_all_example =
    granted-gets_all same_order RangesAll-self in_step Broker.new 0 new-IsValid (omega arith) refl
