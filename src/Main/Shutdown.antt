-- ===== src/Main/Shutdown.antt =====
-- cmd/zfs-nas-dashboard/main.go: the end of the program, as main, the goroutine that waits for a
-- signal and the goroutines of the poller interleave.
--
-- The server is the argument `may_return`: what ListenAndServe may return, before and after Shutdown
-- is called. Requests are no part of this model.
pub mod Moves
pub mod Order
mod Tests
use zfs_nas_dashboard.Prelude.{
  ℕ, zero, suc, ◌+◌, ◌-◌, ◌*◌, ◌/◌, ◌%◌, ◌^◌, ◌≤◌, ◌<◌, ◌≡◌, refl, sym, ap, subst, ◌∙◌, ◌≢◌, ◌↔◌,
  ◌⊎◌, inl, inr, Bool, true, false, not, ◌&&◌, ◌||◌, Option, none, some, List, [], ◌∷◌, ◌++◌, map,
  reverse, arith, dec_lt, ℕ_discrete, ltb, leb, ◌==◌, if◌then◌else◌, ==_iff, Bool-cases,
  Option-cases, length, get_elem?, get_elem?-lt, get_elem?-append_left, get_elem?-append_self,
  get_elem?-set_self, get_elem?-set_ne, length-append, set, take, drop, In, In-append, either, both,
  All, ℤ, pos, negsuc, ◌+ℤ◌, ◌*ℤ◌, ◌≤ℤ◌, ◌<ℤ◌, ltb_ℤ, leb_ℤ, eqb_ℤ, eqb_ℤ_iff, pos_part, neg_part,
  IsInt64, wrap64, sub_ℕ,
}
use zfs_nas_dashboard.Go.Strings.{Text}
use zfs_nas_dashboard.Broker
use zfs_nas_dashboard.Broker.{Outcome, ◌>>=◌}
use zfs_nas_dashboard.Config.{Config}
use zfs_nas_dashboard.Collector.Smart.{DiskInfo}
use zfs_nas_dashboard.Poller.{Database, Poller}
use zfs_nas_dashboard.Poller.Start
use zfs_nas_dashboard.Poller.Start.{Phases, act, advance}

-- Where main is: in ListenAndServe, before its deferred cancel, before its deferred Close, behind
-- both, and at the end of the process, by return or by log.Fatal.
pub data Progress : Type 0 where
  serving : Progress
  cancelling : Progress
  closing : Progress
  returning : Progress
  exited : Progress

-- Where the goroutine is that waits for the end of the context.
pub data Watch : Type 0 where
  waiting : Watch
  in_shutdown : Watch
  over : Watch

pub record Process (D F : Type 0) : Type 0 where
  pub main : Progress
  pub watch : Watch
  pub phases : Phases
  pub poller : Poller D F
  pub store_closed : Bool

-- A signal; Shutdown is called, and returns; ListenAndServe returns; main goes on; a goroutine of the
-- poller or a client goes on.
pub data Event (F E V : Type 0) : Type 0 where
  signals : Event F E V
  shuts_down : Event F E V
  shutdown_returns : Event F E V
  listen_returns : Option V → Event F E V
  main_goes : Event F E V
  others : Start.Event F E → Event F E V

abbrev pub is_waiting : Watch → Bool
is_waiting waiting = true
is_waiting in_shutdown = false
is_waiting over = false

abbrev pub after_watch : Bool → Watch → Watch
after_watch true waiting = in_shutdown
after_watch false waiting = waiting
after_watch _ in_shutdown = in_shutdown
after_watch _ over = over

abbrev pub after_shutdown : Watch → Watch
after_shutdown waiting = waiting
after_shutdown in_shutdown = over
after_shutdown over = over

-- `err != nil && err != http.ErrServerClosed` is fatal.
abbrev pub after_serve : {V : Type 0} → (V → Bool) → Option V → Progress
after_serve is_server_closed none = cancelling
after_serve is_server_closed (some e) = if is_server_closed e then cancelling else exited

abbrev pub returned : {V : Type 0} → (V → Bool) → Option V → Progress → Progress
returned is_server_closed e serving = after_serve is_server_closed e
returned is_server_closed e cancelling = cancelling
returned is_server_closed e closing = closing
returned is_server_closed e returning = returning
returned is_server_closed e exited = exited

-- The deferred calls, the last first, and the end of the process. `close_db` is what `st.Close` makes
-- of the store's database; `store_closed` only records that it was called.
abbrev pub go_main : {D F : Type 0} → (D → D) → Process D F → Progress → Process D F
go_main close_db s serving = s
go_main close_db s cancelling = record s {
  main = closing;
  phases = record (s.phases) { cancelled = true };
}
go_main close_db s closing = record s {
  main = returning;
  store_closed = true;
  poller = record (s.poller) { store = close_db s.poller.store };
}
go_main close_db s returning = record s { main = exited }
go_main close_db s exited = s

-- Nothing happens in a process that has ended.
abbrev pub unless_exited :
    {D F : Type 0} → Progress → Process D F → Outcome (Process D F) → Outcome (Process D F)
unless_exited exited s o = Broker.ok s
unless_exited serving s o = o
unless_exited cancelling s o = o
unless_exited closing s o = o
unless_exited returning s o = o

module _ {D F E V : Type 0} (db : Database D) (close_db : D → D)
    (encode : List DiskInfo → Option Text) (cfg : Config) (range : List ℕ → List ℕ)
    (is_server_closed : V → Bool) (may_return : Watch → Option V → Bool) where
  unfoldable pub step : Event F E V → Process D F → Outcome (Process D F)
  step signals s = Broker.ok (record s { phases = record (s.phases) { cancelled = true } })
  step shuts_down s = Broker.ok (record s { watch = after_watch s.phases.cancelled s.watch })
  step shutdown_returns s = Broker.ok (record s { watch = after_shutdown s.watch })
  step (listen_returns e) s =
      Broker.ok
        (if may_return s.watch e then record s { main = returned is_server_closed e s.main } else s)
  step main_goes s = Broker.ok (go_main close_db s s.main)
  step (others e) s = do
    p ← act db encode cfg range e s.phases s.poller
    Broker.ok (record s { poller = p; phases = advance e s.phases })

  unfoldable pub run : List (Event F E V) → Process D F → Outcome (Process D F)
  run [] s = Broker.ok s
  run (e ∷ es) s = do t ← unless_exited s.main s (step e s); run es t

-- The process when ListenAndServe is called.
abbrev pub listening : {D F : Type 0} → Poller D F → Process D F
listening p = record {
  main = serving;
  watch = waiting;
  phases = Start.start;
  poller = p;
  store_closed = false;
}
