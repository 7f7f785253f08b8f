-- ===== src/Main/Shutdown/Tests.antt =====
-- A signal, and what follows.
use zfs_nas_dashboard.Prelude.{◌≡◌, refl, Bool, true, false, not, Option, none, some, List, [], ◌∷◌}
use zfs_nas_dashboard.Go.Strings.{Text, codes}
use zfs_nas_dashboard.Broker
use zfs_nas_dashboard.Config.{Config}
use zfs_nas_dashboard.Config.Errors.{described}
use zfs_nas_dashboard.Collector.Smart.{DiskInfo}
use zfs_nas_dashboard.Store.JournalTests
use zfs_nas_dashboard.Store.JournalTests.{Journal, at_noon}
use zfs_nas_dashboard.Poller.{Database, store_database, Poller, new}
use zfs_nas_dashboard.Main.Shutdown.{
  Watch, waiting, in_shutdown, over, returning, Process, Event, signals, shuts_down, listen_returns,
  main_goes, listening, run, step,
}
use zfs_nas_dashboard.Main.Shutdown.Moves.{IsOrdered, ServesUntilShutdown}
use zfs_nas_dashboard.Main.Shutdown.Order.{run-listening-IsOrdered}

-- A server whose error is true when it is http.ErrServerClosed.
abbrev may_return : Watch → Option Bool → Bool
may_return w none = false
may_return waiting (some e) = not e
may_return in_shutdown (some e) = true
may_return over (some e) = true

not-true : (e : Bool) → not e ≡ true → e ≡ false
not-true true h = cc h
not-true false h = refl

may_return-ServesUntilShutdown : ServesUntilShutdown (λ e. e) may_return
may_return-ServesUntilShutdown = record { closed-after = not-true; never-nil = λ w. refl }

abbrev journal_db : Database Journal
journal_db = store_database JournalTests.journal (λ c. c)

-- A journal that may be closed, and then takes nothing.
abbrev Books : Type 0
Books = Bool × Journal

abbrev if_open : (Journal → Journal) → Books → Books
if_open f (true, j) = (true, f j)
if_open f (false, j) = (false, j)

abbrev db : Database Books
db = record {
  insert = λ disk c. if_open (journal_db.insert disk c);
  prune_older = λ d. if_open (journal_db.prune_older d);
}

abbrev close_db : Books → Books
close_db (_, j) = (false, j)

abbrev encode : List DiskInfo → Option Text
encode ds = some (codes "smart")

abbrev cfg : Config
cfg = described (λ name. [])

abbrev poller : Poller Books Text
poller = new (true, at_noon) Broker.new

abbrev on_signal : List (Event Text Text Bool)
on_signal = signals ∷ shuts_down ∷ listen_returns (some true) ∷ main_goes ∷ main_goes ∷ []

abbrev at_end : Process Books Text
at_end = record (listening poller) {
  main = returning;
  watch = in_shutdown;
  phases = record ((listening poller).phases) { cancelled = true };
  store_closed = true;
  poller = record poller { store = (false, at_noon) };
}

run-listening-IsOrdered_example : IsOrdered at_end
unfolding run step
run-listening-IsOrdered_example =
    run-listening-IsOrdered db close_db encode cfg (λ cs. cs) (λ e. e) may_return
      may_return-ServesUntilShutdown on_signal poller at_end refl
