-- ===== src/Poller/Start/Steps.antt =====
-- What one step of the running poller does.
use zfs_nas_dashboard.Prelude.{
  ℕ, ◌≡◌, refl, sym, subst, Option, none, some, List, [], ◌∷◌, arith, ℤ, pos, ◌<ℤ◌,
}
use zfs_nas_dashboard.Prelude.Result.{Result, ok, err}
use zfs_nas_dashboard.Go.Strings.{Text}
use zfs_nas_dashboard.Broker
use zfs_nas_dashboard.Broker.{Broker, Outcome, panic, ◌>>=◌, broadcast}
use zfs_nas_dashboard.Broker.Members.{RangesAll}
use zfs_nas_dashboard.Broker.Invariant.{IsValid}
use zfs_nas_dashboard.Broker.Calls.{Call, broadcasts, Reply, silent}
use zfs_nas_dashboard.Broker.Calls
use zfs_nas_dashboard.Broker.Hub.Simulates.{call_refines}
use zfs_nas_dashboard.Config.{Config}
use zfs_nas_dashboard.Collector.Smart.{DiskInfo}
use zfs_nas_dashboard.Store.Rows.{TempRow, Sql}
use zfs_nas_dashboard.Store.History.{Reach, here, next, prunes}
use zfs_nas_dashboard.Poller.{
  store_database, Poller, publish, publish_encoded, persist, history_length, collect_smart,
  collect_files,
}
use zfs_nas_dashboard.Poller.Rounds.{readings, persist_lem}
use zfs_nas_dashboard.Poller.Stored.{Reach-Reach, insert_all-Reach}
use zfs_nas_dashboard.Poller.Loops.{with_ticker, smart_round, files_round, zfs_round}
use zfs_nas_dashboard.Poller.Start.{
  Phase, starting, looping, stopped, Phases, Event, smart_goes, files_goes, zfs_goes, smart_ends,
  files_ends, zfs_ends, cancels, calls, by_phase, act,
}
use zfs_nas_dashboard.Poller.Start.News.{
  told, news, files_message, zfs_message, unless_stopped, if_looping, calls_of, newer, if_runs,
  smart_after, files_after,
}

module _ {D C E : Type 0} (F : Type 0) (sql : Sql D C E) (float : ℤ → C)
    (rows : D → List (TempRow C)) (encode : List DiskInfo → Option Text) (cfg : Config)
    (range : List ℕ → List ℕ) where
  -- A step that does not panic: it makes these calls of the broker, leaves these caches, and
  -- changes the table by insertions and prunes with the configured history alone.
  abbrev pub Does :
      List Call → List DiskInfo → Option F → Poller D F → Outcome (Poller D F) → Type 0
  Does ops smart files p o =
      (p' : Poller D F) × (o ≡ Broker.ok p')
      × IsValid p'.broker
      × ((replies : List Reply) × (Broker.Calls.run range ops p.broker
            ≡ Broker.ok (p'.broker, replies)))
      × (p'.smart ≡ smart)
      × (p'.files ≡ files)
      × Reach sql rows (history_length cfg) p.store p'.store

  module _ (ranges : RangesAll range) where
    call-ran :
        (op : Call) (b : Broker)
        → IsValid b
        → (b' : Broker) × (Broker.Calls.call range op b ≡ Broker.ok b')
          × IsValid b'
          × (Broker.Calls.run range (op ∷ []) b ≡ Broker.ok (b', Broker.Calls.reply op b ∷ []))
    unfolding Broker.Calls.run
    call-ran op b v =
        let (b', ran, v', same) = call_refines range ranges op b v in (b', ran, v', rw ran refl)

    publish-Does :
        (msg : Text) (p : Poller D F)
        → IsValid p.broker
        → Does (broadcasts msg ∷ []) p.smart p.files p (publish msg (range p.broker.clients) p)
    unfolding publish Broker.Calls.call
    publish-Does msg p v =
        let (b, e, v', ran) = call-ran (broadcasts msg) p.broker v in
        (record p { broker = b }, rw e refl, v', (_, ran), refl, refl, here)

    publish_encoded-Does :
        (msg : Option Text) (p : Poller D F)
        → IsValid p.broker
        → Does (told msg) p.smart p.files p (publish_encoded msg (range p.broker.clients) p)
    unfolding publish_encoded Broker.Calls.run
    publish_encoded-Does none p v = (p, refl, v, ([], refl), refl, refl, here)
    publish_encoded-Does (some msg) p v = publish-Does msg p v

    persist-Reach :
        (disks : List DiskInfo) (s : D)
        → let db = store_database sql float in
          Reach sql rows
            (history_length cfg)
            s
            (db.prune_older (history_length cfg) (persist db disks s))
    persist-Reach disks s =
        subst
          (λ t.
            Reach sql rows (history_length cfg) s
              ((store_database sql float).prune_older (history_length cfg) t))
          (sym (persist_lem (store_database sql float) disks s))
          (next (insert_all-Reach sql float rows (history_length cfg) (readings disks) s)
            (prunes _))

    smart_round-Does :
        {G : Type 0} (r : Result G (List DiskInfo)) (p : Poller D F)
        → IsValid p.broker
        → Does
            (news encode r)
            (newer (λ ds. ds) r p.smart)
            p.files
            p
            (smart_round (store_database sql float) encode cfg range r p)
    unfolding smart_round collect_smart Broker.Calls.run
    smart_round-Does (err e) p v = (p, refl, v, ([], refl), refl, refl, here)
    smart_round-Does (ok disks) p v =
        let db = store_database sql float in
        let q : Poller D F = record p {
          smart = disks;
          store = db.prune_older (history_length cfg) (persist db disks p.store);
        } in
        let (p', e, v', ran, smart, files, r) = publish_encoded-Does (encode disks) q v in
        (
          p',
          e,
          v',
          ran,
          smart,
          files,
          Reach-Reach sql float rows (history_length cfg) p.store q.store p'.store
              (persist-Reach disks p.store) r,
        )

    files_round-Does :
        {G : Type 0} (r : Result G F) (p : Poller D F)
        → IsValid p.broker
        → Does
            (news (λ f. some files_message) r)
            p.smart
            (newer some r p.files)
            p
            (files_round cfg range r p)
    unfolding files_round collect_files Broker.Calls.run
    files_round-Does (err e) p v = (p, refl, v, ([], refl), refl, refl, here)
    files_round-Does (ok f) p v = publish-Does files_message (record p { files = some f }) v

    -- The first part of a goroutine, with a ticker that is made.
    with_ticker-Does :
        (ops : List Call) (smart : List DiskInfo) (files : Option F) (d : ℤ) (p : Poller D F)
        (o : Outcome (Poller D F))
        → pos 0 <ℤ d
        → Does ops smart files p o
        → Does ops smart files p (o >>= λ q. with_ticker d (Broker.ok q))
    unfolding with_ticker
    with_ticker-Does ops smart files d p o h (q, e, v, ran, a, b, r) =
        (q, rw e (ground (arith, h)), v, ran, a, b, r)

    idle-Does : (p : Poller D F) → IsValid p.broker → Does [] p.smart p.files p (Broker.ok p)
    unfolding Broker.Calls.run
    idle-Does p v = (p, refl, v, ([], refl), refl, refl, here)

    call-Does :
        (op : Call) (p : Poller D F)
        → IsValid p.broker
        → Does
            (op ∷ [])
            p.smart
            p.files
            p
            (Broker.Calls.call range op p.broker >>= λ b. Broker.ok (record p { broker = b }))
    call-Does op p v =
        let (b, e, v', ran) = call-ran op p.broker v in
        (record p { broker = b }, rw e refl, v', (_, ran), refl, refl, here)

    -- The three intervals are positive.
    abbrev pub Ticks : Type 0
    Ticks =
        (pos 0 <ℤ cfg.smart_poll_interval)
        × (pos 0 <ℤ cfg.files_refresh_interval)
        × (pos 0 <ℤ cfg.zfs_refresh_interval)

    goes-Does :
        (ph : Phase) (ops : List Call) (smart : List DiskInfo) (files : Option F) (d : ℤ)
        (p : Poller D F) (o : Outcome (Poller D F))
        → pos 0 <ℤ d
        → IsValid p.broker
        → Does ops smart files p o
        → Does
            (unless_stopped ph ops)
            (if_runs ph smart p.smart)
            (if_runs ph files p.files)
            p
            (by_phase ph (o >>= λ q. with_ticker d (Broker.ok q)) o (Broker.ok p))
    goes-Does starting ops smart files d p o h v does =
        with_ticker-Does ops smart files d p o h does
    goes-Does looping ops smart files d p o h v does = does
    goes-Does stopped ops smart files d p o h v does = idle-Does p v

    zfs-Does :
        (ph : Phase) (p : Poller D F)
        → pos 0 <ℤ cfg.zfs_refresh_interval
        → IsValid p.broker
        → Does (if_looping ph (broadcasts zfs_message ∷ [])) p.smart p.files p (
            by_phase ph
              (with_ticker cfg.zfs_refresh_interval (Broker.ok p))
              (zfs_round cfg range tt p)
              (Broker.ok p))
    unfolding zfs_round
    zfs-Does starting p h v = with_ticker-Does [] p.smart p.files _ p _ h (idle-Does p v)
    zfs-Does looping p h v = publish-Does zfs_message p v
    zfs-Does stopped p h v = idle-Does p v

    if_runs-same : {A : Type 0} (ph : Phase) (a : A) → if_runs ph a a ≡ a
    if_runs-same starting a = refl
    if_runs-same looping a = refl
    if_runs-same stopped a = refl

    pub act-Does :
        {G : Type 0} (e : Event F G) (ph : Phases) (p : Poller D F)
        → Ticks
        → IsValid p.broker
        → Does
            (calls_of encode e ph)
            (smart_after e ph p.smart)
            (files_after e ph p.files)
            p
            (act (store_database sql float) encode cfg range e ph p)
    unfolding act zfs_round
    act-Does (smart_goes r) ph p t v =
        subst
          (λ f.
            Does (unless_stopped ph.smart (news encode r))
              (if_runs ph.smart (newer (λ (ds : List DiskInfo). ds) r p.smart) p.smart) f p
              (act (store_database sql float) encode cfg range (smart_goes r) ph p))
          (if_runs-same ph.smart p.files)
          (goes-Does ph.smart _ _ p.files cfg.smart_poll_interval p _ t.0 v
            (smart_round-Does r p v))
    act-Does (files_goes r) ph p t v =
        subst
          (λ l.
            Does (unless_stopped ph.files (news {A = F} (λ f. some files_message) r)) l
              (if_runs ph.files (newer {A = F} some r p.files) p.files) p
              (act (store_database sql float) encode cfg range (files_goes r) ph p))
          (if_runs-same ph.files p.smart)
          (goes-Does ph.files _ p.smart _ cfg.files_refresh_interval p _ t.1 v
            (files_round-Does r p v))
    act-Does zfs_goes ph p t v = zfs-Does ph.zfs p t.2 v
    act-Does (calls op) ph p t v = call-Does op p v
    act-Does smart_ends ph p t v = idle-Does p v
    act-Does files_ends ph p t v = idle-Does p v
    act-Does zfs_ends ph p t v = idle-Does p v
    act-Does cancels ph p t v = idle-Does p v
