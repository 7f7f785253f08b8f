-- ===== src/Poller/Rounds.antt =====
-- internal/poller/poller.go: what a round leaves in the caches, the database and the clients.
use zfs_nas_dashboard.Prelude.{
  ℕ, ◌≡◌, refl, ap, inl, inr, true, Option, none, some, List, [], ◌∷◌, Option-cases, ℤ,
}
use zfs_nas_dashboard.Prelude.Result.{Result, ok}
use zfs_nas_dashboard.Go.Strings.{Text}
use zfs_nas_dashboard.Broker
use zfs_nas_dashboard.Broker.{Broker, Outcome, broadcast, ◌>>=◌}
use zfs_nas_dashboard.Broker.Invariant.{IsValid}
use zfs_nas_dashboard.Broker.Delivery.{Delivers, broadcast-Delivers}
use zfs_nas_dashboard.Broker.Members.{is_snapshot}
use zfs_nas_dashboard.Config.{Config}
use zfs_nas_dashboard.Collector.Smart.{DiskInfo}
use zfs_nas_dashboard.Poller.{
  Database, Poller, latest_smart, latest_files, publish, persist, history_length, publish_encoded,
  collect_smart,
}

-- The disks that reported a temperature, in order, with what they reported.
abbrev pub add_reading : Text → Option ℤ → List (Text × ℤ) → List (Text × ℤ)
add_reading by_id none rs = rs
add_reading by_id (some c) rs = (by_id, c) ∷ rs

unfoldable pub readings : List DiskInfo → List (Text × ℤ)
readings [] = []
readings (d ∷ ds) = add_reading d.by_id d.celsius (readings ds)

unfoldable pub insert_all : {D : Type 0} → Database D → List (Text × ℤ) → D → D
insert_all db [] s = s
insert_all db ((by_id, c) ∷ rs) s = insert_all db rs (db.insert by_id c s)

pub persist_lem :
    {D : Type 0} (db : Database D) (disks : List DiskInfo) (s : D)
    → persist db disks s ≡ insert_all db (readings disks) s
unfolding persist readings insert_all
persist_lem db [] s = refl
persist_lem db (d ∷ ds) s = elim (Option-cases d.celsius) [
  | inl e ↦ rw e (persist_lem db ds s)
  | inr (c, e) ↦ rw e (persist_lem db ds (db.insert d.by_id c s))
]

-- What a message does to the clients, or nothing at all without one.
abbrev pub Published : Option Text → Broker → Broker → Type 0
Published none b b' = b' ≡ b
Published (some msg) b b' = Delivers msg b b'

publish_encoded-Published :
    {D F : Type 0} (msg : Option Text) (snapshot : List ℕ) (p : Poller D F)
    → is_snapshot snapshot p.broker.clients ≡ true
    → IsValid p.broker
    → (b : Broker) × (publish_encoded msg snapshot p ≡ Broker.ok (record p { broker = b }))
      × Published msg p.broker b
unfolding publish_encoded publish
publish_encoded-Published none snapshot p s v = (p.broker, refl, refl)
publish_encoded-Published (some msg) snapshot p s v =
    let (b, e, d) = broadcast-Delivers msg snapshot p.broker s v in (b, rw e refl, d)

-- A successful round of SMART data, while nobody else touches the broker, never panics in a valid
-- broker: the cache and the clients get the same disks, the database exactly the readings of the
-- disks that have a temperature, in order, and then loses what is older than the configured
-- history, and the files cache stays. Without an encoding of the event no client gets anything.
pub collect_smart-Publishes :
    {D F E : Type 0} (db : Database D) (encode : List DiskInfo → Option Text) (cfg : Config)
    (collected : Result E (List DiskInfo)) (disks : List DiskInfo) (snapshot : List ℕ)
    (p : Poller D F)
    → collected ≡ ok disks
    → is_snapshot snapshot p.broker.clients ≡ true
    → IsValid p.broker
    → (p' : Poller D F) × (collect_smart db encode cfg collected snapshot p ≡ Broker.ok p')
      × (latest_smart p' ≡ disks)
      × (latest_files p' ≡ latest_files p)
      × (p'.store ≡ db.prune_older (history_length cfg) (insert_all db (readings disks) p.store))
      × Published (encode disks) p.broker p'.broker
unfolding collect_smart
collect_smart-Publishes db encode cfg collected disks snapshot p h s v =
    let pruned = db.prune_older (history_length cfg) (persist db disks p.store) in
    let q = record p { smart = disks; store = pruned } in
    let (b, e, d) = publish_encoded-Published (encode disks) snapshot q s v in
    (
      record q { broker = b },
      rw h e,
      refl,
      refl,
      ap (db.prune_older (history_length cfg)) (persist_lem db disks p.store),
      d,
    )
