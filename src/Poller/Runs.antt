-- ===== src/Poller/Runs.antt =====
-- What the goroutine of the SMART data does over its whole life.
use zfs_nas_dashboard.Prelude.{◌≡◌, Bool, true, false, List, [], ◌∷◌, ℤ}
use zfs_nas_dashboard.Prelude.Result.{Result, ok, err}
use zfs_nas_dashboard.Broker
use zfs_nas_dashboard.Broker.{Broker, Outcome, panic}
use zfs_nas_dashboard.Broker.Invariant.{IsValid}
use zfs_nas_dashboard.Config.{Config}
use zfs_nas_dashboard.Collector.Smart.{DiskInfo}
use zfs_nas_dashboard.Store.Rows.{TempRow, Sql}
use zfs_nas_dashboard.Store.History.{Reach}
use zfs_nas_dashboard.Poller.{Database, store_database, Poller, history_length, latest_smart}
use zfs_nas_dashboard.Poller.Rounds.{readings, insert_all}
use zfs_nas_dashboard.Poller.Loops.{Wake, ticks, others, cancelled}

module _ {D C E : Type 0} (F : Type 0) (sql : Sql D C E) (float : ℤ → C)
    (rows : D → List (TempRow C)) (cfg : Config) where
  -- No panic: the broker is valid, and the store has gone through steps with the configured history.
  abbrev pub Keeps : Poller D F → Outcome (Poller D F) → Type 0
  Keeps p o =
      (p' : Poller D F) × (o ≡ Broker.ok p')
      × IsValid p'.broker
      × Reach sql rows (history_length cfg) p.store p'.store

  -- What the rest of the program does meanwhile keeps a valid server valid.
  abbrev pub AllKeep : {A : Type 0} → List (Wake (Poller D F) A) → Type 0
  AllKeep [] = Unit
  AllKeep (cancelled ∷ wakes) = Unit
  AllKeep (ticks a ∷ wakes) = AllKeep wakes
  AllKeep (others f ∷ wakes) = ((p : Poller D F) → IsValid p.broker → Keeps p (f p)) × AllKeep wakes

-- What the first round leaves: the disks in the cache, and in the table their readings without what
-- is older than the history; or everything as it was, if the collection failed.
abbrev pub FirstRound :
    {D F G : Type 0}
    → Database D
    → Config
    → Result G (List DiskInfo)
    → Poller D F
    → Poller D F
    → Type 0
FirstRound db cfg (ok disks) p q =
    (latest_smart q ≡ disks)
    × (q.store ≡ db.prune_older (history_length cfg) (insert_all db (readings disks) p.store))
FirstRound db cfg (err e) p q = q ≡ p

-- The goroutine's whole life: with a poll interval that is not positive it panics; with any other
-- it makes its first round, and then never panics.
abbrev pub Lives :
    {D C E G : Type 0} (F : Type 0)
    → Sql D C E
    → (ℤ → C)
    → (D → List (TempRow C))
    → Config
    → Result G (List DiskInfo)
    → Bool
    → Poller D F
    → Outcome (Poller D F)
    → Type 0
Lives {D = D} F sql float rows cfg first true p o =
    (q : Poller D F) × FirstRound (store_database sql float) cfg first p q
    × Keeps F sql float rows cfg q o
Lives F sql float rows cfg first false p o = o ≡ panic
