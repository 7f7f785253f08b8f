-- ===== src/Poller/Tests.antt =====
-- A round of the poller with two clients, and settings of the history.
use zfs_nas_dashboard.Prelude.{
  ℕ, zero, suc, ◌≡◌, refl, false, Option, none, some, List, [], ◌∷◌, ◌++◌, arith, ℤ, pos,
}
use zfs_nas_dashboard.Prelude.Result.{Result, ok, err}
use zfs_nas_dashboard.Go.Strings.{Text, codes}
use zfs_nas_dashboard.Broker
use zfs_nas_dashboard.Broker.{Broker}
use zfs_nas_dashboard.Broker.Members.{member, distinct, is_snapshot}
use zfs_nas_dashboard.Broker.Invariant.{ClosedIn, IsLinked, IsValid, chan_at}
use zfs_nas_dashboard.Config.{Config}
use zfs_nas_dashboard.Config.Errors.{described}
use zfs_nas_dashboard.Collector.Smart.{DiskInfo, blank}
use zfs_nas_dashboard.Poller.{Database, Poller, latest_smart, latest_files, collect_smart}
use zfs_nas_dashboard.Store.JournalTests
use zfs_nas_dashboard.Store.JournalTests.{Journal, at_noon}
use zfs_nas_dashboard.Broker.{register, Outcome}
use zfs_nas_dashboard.Poller.Loops.{Wake, ticks, others, cancelled}
use zfs_nas_dashboard.Poller.Rounds.{Published, readings, insert_all, collect_smart-Publishes}

-- The configuration with this history and defaults elsewhere.
abbrev keeping : ℕ → Config
keeping n = record (described (λ name. [])) { temp_history_hours = pos n }

-- A database that is the list of its readings, and never prunes.
abbrev journal : Database (List (Text × ℤ))
journal = record { insert = λ by_id c s. s ++ (by_id, c) ∷ []; prune_older = λ d s. s }

abbrev one_client : Broker
one_client = record {
  chans = record { buf = []; closed = false } ∷ [];
  clients = 0 ∷ [];
  count = pos 1;
}

one_client-open : (c : ℕ) → ClosedIn (member c one_client.clients) (chan_at one_client c)
unfolding member
one_client-open zero = (refl, omega arith)
one_client-open (suc c) = ground arith

one_client-IsLinked : IsLinked one_client
unfolding distinct
one_client-IsLinked = record { keys = refl; open_in_map = one_client-open }

one_client-IsValid : IsValid one_client
one_client-IsValid = record { linked = one_client-IsLinked; counted = refl; capped = omega arith }

abbrev poller : Poller (List (Text × ℤ)) Text
poller = record { store = []; broker = one_client; smart = []; files = none }

abbrev disks : List DiskInfo
disks = record (blank (codes "a")) { celsius = some (pos 31) } ∷ blank (codes "b") ∷ []

abbrev encode : List DiskInfo → Option Text
encode ds = some (codes "smart")

abbrev collected : Result Text (List DiskInfo)
collected = ok disks

collect_smart-Publishes_example :
    (p' : Poller (List (Text × ℤ)) Text) × (collect_smart journal encode
        (keeping 6)
        collected
        (0 ∷ [])
        poller
      ≡ Broker.ok p')
    × (latest_smart p' ≡ disks)
    × (latest_files p' ≡ none)
    × (p'.store ≡ insert_all journal (readings disks) [])
    × Published (encode disks) one_client p'.broker
unfolding is_snapshot
collect_smart-Publishes_example =
    collect_smart-Publishes journal encode (keeping 6) collected disks (0 ∷ []) poller refl refl
      one_client-IsValid

abbrev on_disk : Poller Journal Text
on_disk = record { store = at_noon; broker = one_client; smart = []; files = none }

-- A client connects.
abbrev connects : Poller Journal Text → Outcome (Poller Journal Text)
connects p = Broker.ok (record p { broker = (register p.broker).0 })

abbrev a_day : List (Wake (Poller Journal Text) (Result Text (List DiskInfo)))
a_day = ticks collected ∷ others connects ∷ ticks (err (codes "no disk")) ∷ cancelled ∷ []
