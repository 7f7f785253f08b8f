-- ===== src/Poller/Loops.antt =====
-- internal/poller/poller.go: the three goroutines.
--
-- A goroutine is a function of what its `select` meets: a tick, with what the collection then gives,
-- the end of the context, or a change that the rest of the program makes meanwhile.
use zfs_nas_dashboard.Prelude.{ℕ, Option, List, [], ◌∷◌, if◌then◌else◌, pos, ltb_ℤ}
use zfs_nas_dashboard.Prelude.Result.{Result}
use zfs_nas_dashboard.Go.Strings.{Text, codes}
use zfs_nas_dashboard.Go.Time.{Duration}
use zfs_nas_dashboard.Broker
use zfs_nas_dashboard.Broker.{Broker, Outcome, panic, ◌>>=◌}
use zfs_nas_dashboard.Config.{Config}
use zfs_nas_dashboard.Collector.Smart.{DiskInfo}
use zfs_nas_dashboard.Poller.{Database, Poller, collect_smart, collect_files, publish}

pub data Wake (S A : Type 0) : Type 0 where
  ticks : A → Wake S A
  others : (S → Outcome S) → Wake S A
  cancelled : Wake S A

-- The loop over the ticker.
unfoldable pub loop : {S A : Type 0} → (A → S → Outcome S) → List (Wake S A) → S → Outcome S
loop round [] s = Broker.ok s
loop round (cancelled ∷ wakes) s = Broker.ok s
loop round (ticks a ∷ wakes) s = do s' ← round a s; loop round wakes s'
loop round (others f ∷ wakes) s = do s' ← f s; loop round wakes s'

-- `time.NewTicker(d)`, which panics unless d is positive.
unfoldable pub with_ticker : {S : Type 0} → Duration → Outcome S → Outcome S
with_ticker d rest = if ltb_ℤ (pos 0) d then rest else panic

module _ {D F E : Type 0} (db : Database D) (encode : List DiskInfo → Option Text) (cfg : Config)
    (range : List ℕ → List ℕ) where
  unfoldable pub smart_round : Result E (List DiskInfo) → Poller D F → Outcome (Poller D F)
  smart_round collected p = collect_smart db encode cfg collected (range p.broker.clients) p

  -- `runSmart`.
  unfoldable pub run_smart :
      Result E (List DiskInfo)
      → List (Wake (Poller D F) (Result E (List DiskInfo)))
      → Poller D F
      → Outcome (Poller D F)
  run_smart first wakes p = do
    p' ← smart_round first p
    with_ticker cfg.smart_poll_interval (loop smart_round wakes p')

module _ {D F E : Type 0} (cfg : Config) (range : List ℕ → List ℕ) where
  unfoldable pub files_round : Result E F → Poller D F → Outcome (Poller D F)
  files_round collected p = collect_files collected (range p.broker.clients) p

  -- `runFiles`.
  unfoldable pub run_files :
      Result E F → List (Wake (Poller D F) (Result E F)) → Poller D F → Outcome (Poller D F)
  run_files first wakes p = do
    p' ← files_round first p
    with_ticker cfg.files_refresh_interval (loop files_round wakes p')

module _ {D F : Type 0} (cfg : Config) (range : List ℕ → List ℕ) where
  unfoldable pub zfs_round : Unit {0} → Poller D F → Outcome (Poller D F)
  zfs_round _ p = publish (codes "{\"type\":\"zfs\"}") (range p.broker.clients) p

  -- `runZFS`.
  unfoldable pub run_zfs : List (Wake (Poller D F) (Unit {0})) → Poller D F → Outcome (Poller D F)
  run_zfs wakes p = with_ticker cfg.zfs_refresh_interval (loop zfs_round wakes p)
