-- ===== src/Main/Shutdown/Moves.antt =====
-- cmd/zfs-nas-dashboard/main.go: what holds at every point of the end, and what each part of it keeps.
use zfs_nas_dashboard.Prelude.{
  ◌≡◌, refl, ◌⊎◌, inl, inr, Bool, true, false, Option, none, some, arith,
}
use zfs_nas_dashboard.Poller.{Poller}
use zfs_nas_dashboard.Poller.Start
use zfs_nas_dashboard.Poller.Start.{
  Phase, looping, Phases, smart_goes, files_goes, zfs_goes, smart_ends, files_ends, zfs_ends,
  cancels, calls, act, advance,
}
use zfs_nas_dashboard.Main.Shutdown.{
  Progress, serving, cancelling, closing, returning, exited, Watch, waiting, in_shutdown, over,
  Process, is_waiting, after_watch, after_shutdown, go_main,
}

-- Main is on its way out without an error.
abbrev pub is_leaving : Progress → Bool
is_leaving serving = false
is_leaving cancelling = true
is_leaving closing = true
is_leaving returning = true
is_leaving exited = false

abbrev pub ClosedAt : Progress → Bool → Type 0
ClosedAt serving closed = closed ≡ false
ClosedAt cancelling closed = closed ≡ false
ClosedAt closing closed = closed ≡ false
ClosedAt returning closed = closed ≡ true
ClosedAt exited closed = Unit

-- Shutdown is called only once the context has ended; main leaves without an error only when
-- Shutdown has been called, and so the store is closed only then, by main's last step.
pub record IsOrdered {D F : Type 0} (s : Process D F) : Type 0 where
  pub shutdown_after_cancel : is_waiting s.watch ≡ false → s.phases.cancelled ≡ true
  pub leaving_after_shutdown : is_leaving s.main ≡ true → is_waiting s.watch ≡ false
  pub closed_after_shutdown : s.store_closed ≡ true → is_waiting s.watch ≡ false
  pub closed_at : ClosedAt s.main s.store_closed

-- What net/http says of ListenAndServe: it returns ErrServerClosed only after Shutdown, and always
-- an error.
pub record ServesUntilShutdown {V : Type 0} (is_server_closed : V → Bool)
    (may_return : Watch → Option V → Bool) : Type 0 where
  pub closed-after : (e : V) → may_return waiting (some e) ≡ true → is_server_closed e ≡ false
  pub never-nil : (w : Watch) → may_return w none ≡ false

pub advance-cancelled :
    {F E : Type 0} (e : Start.Event F E) (ph : Phases)
    → ph.cancelled ≡ true
    → (advance e ph).cancelled ≡ true
advance-cancelled (smart_goes r) ph h = h
advance-cancelled (files_goes r) ph h = h
advance-cancelled zfs_goes ph h = h
advance-cancelled smart_ends ph h = h
advance-cancelled files_ends ph h = h
advance-cancelled zfs_ends ph h = h
advance-cancelled cancels ph h = refl
advance-cancelled (calls op) ph h = h

pub go_main-IsOrdered :
    {D F : Type 0} (close_db : D → D) (s : Process D F)
    → IsOrdered s
    → IsOrdered (go_main close_db s s.main)
go_main-IsOrdered close_db s v = go s.main refl
  where
    go : (m : Progress) → s.main ≡ m → IsOrdered (go_main close_db s m)
    go serving e = v
    go cancelling e = record {
      shutdown_after_cancel = λ h. refl;
      leaving_after_shutdown = λ h. v.leaving_after_shutdown (rw e refl);
      closed_after_shutdown = v.closed_after_shutdown;
      closed_at = ground (arith, v.closed_at, e);
    }
    go closing e = record {
      shutdown_after_cancel = v.shutdown_after_cancel;
      leaving_after_shutdown = λ h. v.leaving_after_shutdown (rw e refl);
      closed_after_shutdown = λ h. v.leaving_after_shutdown (rw e refl);
      closed_at = refl;
    }
    go returning e = record {
      shutdown_after_cancel = v.shutdown_after_cancel;
      leaving_after_shutdown = λ h. absurd (cc h);
      closed_after_shutdown = v.closed_after_shutdown;
      closed_at = tt;
    }
    go exited e = v

pub after_watch-called :
    (b : Bool) (w : Watch)
    → (is_waiting w ≡ false → is_waiting (after_watch b w) ≡ false)
      × (is_waiting (after_watch b w) ≡ false → (b ≡ true) ⊎ (is_waiting w ≡ false))
after_watch-called true waiting = ((λ h. refl), (λ h. inl refl))
after_watch-called false waiting = ((λ h. h), (λ h. inr h))
after_watch-called true in_shutdown = ((λ h. refl), (λ h. inr refl))
after_watch-called false in_shutdown = ((λ h. refl), (λ h. inr refl))
after_watch-called true over = ((λ h. refl), (λ h. inr refl))
after_watch-called false over = ((λ h. refl), (λ h. inr refl))

pub after_shutdown-waiting : (w : Watch) → is_waiting (after_shutdown w) ≡ is_waiting w
after_shutdown-waiting waiting = refl
after_shutdown-waiting in_shutdown = refl
after_shutdown-waiting over = refl

-- The other goroutine goes on, where Shutdown stays called.
pub watch-IsOrdered :
    {D F : Type 0} (s : Process D F) (w : Watch)
    → IsOrdered s
    → (is_waiting s.watch ≡ false → is_waiting w ≡ false)
    → (is_waiting w ≡ false → s.phases.cancelled ≡ true)
    → IsOrdered (record s { watch = w })
watch-IsOrdered s w v stays called = record {
  shutdown_after_cancel = called;
  leaving_after_shutdown = λ h. stays (v.leaving_after_shutdown h);
  closed_after_shutdown = λ h. stays (v.closed_after_shutdown h);
  closed_at = v.closed_at;
}

-- The context stays cancelled; the caches, the broker and the table are of no matter.
pub phases-IsOrdered :
    {D F : Type 0} (s : Process D F) (p : Poller D F) (ph : Phases)
    → IsOrdered s
    → (s.phases.cancelled ≡ true → ph.cancelled ≡ true)
    → IsOrdered (record s { poller = p; phases = ph })
phases-IsOrdered s p ph v h = record {
  shutdown_after_cancel = λ w. h (v.shutdown_after_cancel w);
  leaving_after_shutdown = v.leaving_after_shutdown;
  closed_after_shutdown = v.closed_after_shutdown;
  closed_at = v.closed_at;
}

pub main-IsOrdered :
    {D F : Type 0} (s : Process D F) (m : Progress)
    → IsOrdered s
    → (is_leaving m ≡ true → is_waiting s.watch ≡ false)
    → ClosedAt m s.store_closed
    → IsOrdered (record s { main = m })
main-IsOrdered s m v h c = record {
  shutdown_after_cancel = v.shutdown_after_cancel;
  leaving_after_shutdown = h;
  closed_after_shutdown = v.closed_after_shutdown;
  closed_at = c;
}
