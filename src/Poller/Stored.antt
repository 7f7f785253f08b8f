-- ===== src/Poller/Stored.antt =====
-- internal/poller/poller.go and internal/store/store.go: what a round does to the table of readings.
use zfs_nas_dashboard.Prelude.{ℕ, ◌≡◌, sym, subst, true, Option, none, some, List, [], ◌∷◌, ℤ}
use zfs_nas_dashboard.Prelude.Result.{Result, ok}
use zfs_nas_dashboard.Go.Strings.{Text}
use zfs_nas_dashboard.Broker
use zfs_nas_dashboard.Broker.{Broker, Outcome}
use zfs_nas_dashboard.Broker.Members.{is_snapshot}
use zfs_nas_dashboard.Broker.Invariant.{IsValid}
use zfs_nas_dashboard.Config.{Config}
use zfs_nas_dashboard.Collector.Smart.{DiskInfo}
use zfs_nas_dashboard.Store.Rows.{TempRow, Sql, insert}
use zfs_nas_dashboard.Store.History.{inserts, prunes, Reach, here, next}
use zfs_nas_dashboard.Poller.{store_database, Poller, history_length, collect_smart}
use zfs_nas_dashboard.Poller.Rounds.{Published, readings, insert_all, collect_smart-Publishes}

module _ {D C E : Type 0} (sql : Sql D C E) (float : ℤ → C) (rows : D → List (TempRow C))
    (d : ℤ) where
  pub Reach-Reach : (s t u : D) → Reach sql rows d s t → Reach sql rows d t u → Reach sql rows d s u
  Reach-Reach s t u p here = p
  Reach-Reach s t u p (next {t = v} q st) = next (Reach-Reach s t v p q) st

  pub insert_all-Reach :
      (rs : List (Text × ℤ)) (s : D)
      → Reach sql rows d s (insert_all (store_database sql float) rs s)
  unfolding insert_all
  insert_all-Reach [] s = here
  insert_all-Reach ((by_id, c) ∷ rs) s =
      Reach-Reach s _ _ (next here (inserts by_id (float c) s))
        (insert_all-Reach rs (insert sql by_id (float c) s).0)

Published-IsValid :
    (msg : Option Text) (b b' : Broker) → IsValid b → Published msg b b' → IsValid b'
Published-IsValid none b b' v e = subst IsValid (sym e) v
Published-IsValid (some msg) b b' v d = d.valid

-- A successful round in a valid broker is, for the table, insertions and a prune with the
-- configured history; the broker stays valid.
pub collect_smart-Reach :
    {D C E F G : Type 0} (sql : Sql D C E) (float : ℤ → C) (rows : D → List (TempRow C))
    (encode : List DiskInfo → Option Text) (cfg : Config) (collected : Result G (List DiskInfo))
    (disks : List DiskInfo) (snapshot : List ℕ) (p : Poller D F)
    → collected ≡ ok disks
    → is_snapshot snapshot p.broker.clients ≡ true
    → IsValid p.broker
    → (p' : Poller D F) × (collect_smart (store_database sql float) encode cfg collected snapshot p
        ≡ Broker.ok p')
      × IsValid p'.broker
      × Reach sql rows (history_length cfg) p.store p'.store
collect_smart-Reach sql float rows encode cfg collected disks snapshot p h s v =
    let (p', e, cached, files, stored, published) =
      collect_smart-Publishes (store_database sql float) encode cfg collected disks snapshot p h s
        v in
    (
      p',
      e,
      Published-IsValid (encode disks) p.broker p'.broker v published,
      subst (Reach sql rows (history_length cfg) p.store) (sym stored) (
          next (insert_all-Reach sql float rows (history_length cfg) (readings disks) p.store)
            (prunes _)),
    )
