-- ===== src/Poller/Start/Listeners.antt =====
-- What the clients of the running poller are told.
use zfs_nas_dashboard.Prelude.{
  ℕ, ◌<◌, ◌≡◌, refl, ap, subst, ◌∙◌, Option, some, List, [], ◌∷◌, ◌++◌, arith, length, ℤ,
}
use zfs_nas_dashboard.Go.Strings.{Text}
use zfs_nas_dashboard.Broker
use zfs_nas_dashboard.Broker.{Broker, Outcome, panic, ◌>>=◌, max_clients}
use zfs_nas_dashboard.Broker.Members.{RangesAll}
use zfs_nas_dashboard.Broker.Invariant.{IsValid}
use zfs_nas_dashboard.Broker.Calls.{Call, registers, Reply, granted, bind-ok}
use zfs_nas_dashboard.Broker.Calls
use zfs_nas_dashboard.Broker.Hub.Backlog.{backlog}
use zfs_nas_dashboard.Broker.Hub.Mailboxes.{Hears, granted-gets_all}
use zfs_nas_dashboard.Config.{Config}
use zfs_nas_dashboard.Collector.Smart.{DiskInfo}
use zfs_nas_dashboard.Store.Rows.{TempRow, Sql}
use zfs_nas_dashboard.Store.History.{here}
use zfs_nas_dashboard.Poller.{store_database, Poller, latest_smart, latest_files, history_length}
use zfs_nas_dashboard.Poller.Stored.{Reach-Reach}
use zfs_nas_dashboard.Poller.Start.{Phases, Event, calls, advance, run}
use zfs_nas_dashboard.Poller.Start.News.{calls_of, smart_after, files_after}
use zfs_nas_dashboard.Poller.Start.Steps.{Does, Ticks, act-Does}

-- The calls of the broker along a run.
unfoldable pub calls_along :
    {F E : Type 0} → (List DiskInfo → Option Text) → List (Event F E) → Phases → List Call
calls_along encode [] ph = []
calls_along encode (e ∷ es) ph = calls_of encode e ph ++ calls_along encode es (advance e ph)

-- The disks of the last collection along a run that succeeded, and the same for the files.
unfoldable pub last_smart :
    {F E : Type 0} → List (Event F E) → Phases → List DiskInfo → List DiskInfo
last_smart [] ph old = old
last_smart (e ∷ es) ph old = last_smart es (advance e ph) (smart_after e ph old)

unfoldable pub last_files : {F E : Type 0} → List (Event F E) → Phases → Option F → Option F
last_files [] ph old = old
last_files (e ∷ es) ph old = last_files es (advance e ph) (files_after e ph old)

run-append :
    (range : List ℕ → List ℕ) (ops ops' : List Call) (b b' b'' : Broker) (rs rs' : List Reply)
    → Broker.Calls.run range ops b ≡ Broker.ok (b', rs)
    → Broker.Calls.run range ops' b' ≡ Broker.ok (b'', rs')
    → Broker.Calls.run range (ops ++ ops') b ≡ Broker.ok (b'', rs ++ rs')
unfolding Broker.Calls.run
run-append range [] ops' b b' b'' rs rs' e f = ground (arith, e, f)
run-append range (op ∷ ops) ops' b b' b'' rs rs' e f =
    let (c, called, e') = bind-ok (Broker.Calls.call range op b) _ (b', rs) e in
    let ((d, rs₁), ran, e'') = bind-ok (Broker.Calls.run range ops c) _ (b', rs) e' in
    let f' : Broker.Calls.run range ops' d ≡ Broker.ok (b'', rs') = ground (arith, e'', f) in
    rw (called, run-append range ops ops' c d b'' rs₁ rs' ran f') (ground (arith, e''))

module _ {D C E : Type 0} (F : Type 0) (sql : Sql D C E) (float : ℤ → C)
    (rows : D → List (TempRow C)) (encode : List DiskInfo → Option Text) (cfg : Config)
    (range : List ℕ → List ℕ) (ranges : RangesAll range) where
  -- With positive intervals no interleaving of whole rounds, of cancellation and of the
  -- clients' calls panics. The broker stays valid and has been called exactly as the successful
  -- rounds and the clients did, in their order; the caches hold the last successful collections;
  -- and the table has changed by insertions and prunes with the configured history alone.
  pub run-Does :
      {G : Type 0} (es : List (Event F G)) (ph : Phases) (p : Poller D F)
      → Ticks F sql float rows encode cfg range ranges
      → IsValid p.broker
      → Does F sql float rows encode cfg range
          (calls_along encode es ph)
          (last_smart es ph (latest_smart p))
          (last_files es ph (latest_files p))
          p
          (run (store_database sql float) encode cfg range es ph p)
  unfolding run calls_along last_smart last_files Broker.Calls.run
  run-Does [] ph p t v = (p, refl, v, ([], refl), refl, refl, here)
  run-Does (e ∷ es) ph p t v =
      let (q, ran, v', (rs, called), smart, files, r) =
        act-Does F sql float rows encode cfg range ranges e ph p t v in
      let (q', ran', v'', (rs', called'), smart', files', r') = run-Does es (advance e ph) q t v' in
      (
        q',
        rw ran ran',
        v'',
        (
          rs ++ rs',
          run-append range (calls_of encode e ph) _ p.broker q.broker q'.broker rs rs' called
              called',
        ),
        smart' ∙ ap (last_smart es (advance e ph)) smart,
        files' ∙ ap (last_files es (advance e ph)) files,
        Reach-Reach sql float rows (history_length cfg) p.store q.store q'.store r r',
      )

  -- End to end: a client that connects while there is room, does not disconnect and reads in step, so
  -- that never more than eight messages wait for it, is told of every successful SMART and files
  -- collection and every ZFS tick of a goroutine that has not returned, once, and in the order in
  -- which they happened, but for the last ones that still wait for it, where whole rounds interleave with
  -- the other clients and with cancellation. The three intervals must be positive.
  pub run-Hears :
      {G : Type 0} (es : List (Event F G)) (ph : Phases) (p : Poller D F) (n : ℕ)
      → Ticks F sql float rows encode cfg range ranges
      → IsValid p.broker
      → length p.broker.clients < max_clients
      → backlog (length p.broker.chans) (calls_along encode es ph) 0 ≡ some n
      → (p' : Poller D F) × (replies : List Reply) × (run
            (store_database sql float)
            encode
            cfg
            range
            (calls registers ∷ es)
            ph
            p
          ≡ Broker.ok p')
        × (Broker.Calls.run range (registers ∷ calls_along encode es ph) p.broker
            ≡ Broker.ok (p'.broker, granted (length p.broker.chans) ∷ replies))
        × Hears (length p.broker.chans) (calls_along encode es ph) n p'.broker replies
  unfolding calls_along
  run-Hears es ph p n t v room h =
      let (p', ran, v', (rs, called), smart, files, r) = run-Does (calls registers ∷ es) ph p t v in
      let (b', replies, granted_c, v'', hears) =
        granted-gets_all range ranges (calls_along encode es ph) p.broker n v room h in
      let same : b' ≡ p'.broker = ground (arith, called, granted_c) in
      (
        p',
        replies,
        ran,
        granted_c ∙ ap (λ x. Broker.ok (x, granted (length p.broker.chans) ∷ replies)) same,
        subst (λ x. Hears (length p.broker.chans) (calls_along encode es ph) n x replies) same
            hears,
      )
