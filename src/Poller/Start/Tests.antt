-- ===== src/Poller/Start/Tests.antt =====
-- A client that connects between rounds.
use zfs_nas_dashboard.Prelude.{ℕ, ◌≡◌, refl, Option, some, List, [], ◌∷◌, arith, pos, ◌*ℤ◌, wrap64}
use zfs_nas_dashboard.Prelude.Result.{ok, err}
use zfs_nas_dashboard.Go.Strings.{Text, codes}
use zfs_nas_dashboard.Broker
use zfs_nas_dashboard.Broker.{Broker}
use zfs_nas_dashboard.Broker.Members.{RangesAll-self}
use zfs_nas_dashboard.Broker.Invariant.{new-IsValid}
use zfs_nas_dashboard.Broker.Calls
use zfs_nas_dashboard.Broker.Calls.{Call, registers, broadcasts, receives, Reply, granted}
use zfs_nas_dashboard.Broker.Hub.Backlog.{backlog}
use zfs_nas_dashboard.Broker.Hub.Mailboxes.{Hears}
use zfs_nas_dashboard.Config.{Config, seconds}
use zfs_nas_dashboard.Config.Errors.{described}
use zfs_nas_dashboard.Collector.Smart.{DiskInfo, blank}
use zfs_nas_dashboard.Store.JournalTests
use zfs_nas_dashboard.Store.JournalTests.{Journal, at_noon}
use zfs_nas_dashboard.Poller.{store_database, Poller, new}
use zfs_nas_dashboard.Poller.Start.{
  Event, smart_goes, files_goes, zfs_goes, smart_ends, cancels, calls, start, run,
}
use zfs_nas_dashboard.Poller.Start.News.{files_message, zfs_message}
use zfs_nas_dashboard.Poller.Start.Steps.{Does, Ticks}
use zfs_nas_dashboard.Poller.Start.Listeners.{
  calls_along, last_smart, last_files, run-Does, run-Hears,
}

abbrev cfg : Config
cfg = described (λ name. [])

abbrev poller : Poller Journal Text
poller = new at_noon Broker.new

abbrev disks : List DiskInfo
disks = record (blank (codes "a")) { celsius = some (pos 31) } ∷ []

abbrev smart_message : Text
smart_message = codes "smart"

abbrev encode : List DiskInfo → Option Text
encode ds = some smart_message

abbrev same_order : List ℕ → List ℕ
same_order cs = cs

-- The goroutines begin, a collection fails, the context is cancelled, and one more tick is taken.
abbrev rounds : List (Event Text Text)
rounds =
    smart_goes (ok disks)
    ∷ zfs_goes
    ∷ files_goes (ok (codes "tree"))
    ∷ calls (receives 0)
    ∷ smart_goes (err (codes "gone"))
    ∷ cancels
    ∷ smart_ends
    ∷ smart_goes (ok [])
    ∷ zfs_goes
    ∷ calls (receives 0)
    ∷ []

cfg-Ticks :
    Ticks Text JournalTests.journal (λ c. c) (λ s. s.table) encode cfg same_order RangesAll-self
unfolding seconds ◌*ℤ◌ wrap64
cfg-Ticks = (omega arith, omega arith, omega arith)

calls_along-rounds : calls_along encode rounds start ≡ (
    broadcasts smart_message
    ∷ broadcasts files_message
    ∷ receives 0
    ∷ broadcasts zfs_message
    ∷ receives 0
    ∷ [])
unfolding calls_along
calls_along-rounds = refl

run-Does_example :
    Does Text JournalTests.journal
      (λ c. c)
      (λ s. s.table)
      encode
      cfg
      same_order
      (calls_along encode rounds start)
      disks
      (some (codes "tree"))
      poller
      (run (store_database JournalTests.journal (λ c. c)) encode cfg same_order rounds start poller)
unfolding last_smart last_files
run-Does_example =
    run-Does Text JournalTests.journal (λ c. c) (λ s. s.table) encode cfg same_order RangesAll-self
      rounds start poller cfg-Ticks new-IsValid

run-Hears_example :
    (p' : Poller Journal Text) × (replies : List Reply) × (run
        (store_database JournalTests.journal (λ c. c))
        encode
        cfg
        same_order
        (calls registers ∷ rounds)
        start
        poller
      ≡ Broker.ok p')
    × (Broker.Calls.run same_order (registers ∷ calls_along encode rounds start) Broker.new
        ≡ Broker.ok (p'.broker, granted 0 ∷ replies))
    × Hears 0 (calls_along encode rounds start) 1 p'.broker replies
unfolding calls_along backlog
run-Hears_example =
    run-Hears Text JournalTests.journal (λ c. c) (λ s. s.table) encode cfg same_order RangesAll-self
      rounds start poller 1 cfg-Ticks new-IsValid (omega arith) refl
