-- ===== src/Main/Shutdown/Order.antt =====
-- What is over, and what is not, when the store is closed.
use zfs_nas_dashboard.Prelude.{
  ℕ, ◌≡◌, refl, sym, subst, ◌∙◌, inl, inr, Bool, true, false, Option, none, some, List, [], ◌∷◌,
  arith, Bool-cases,
}
use zfs_nas_dashboard.Go.Strings.{Text}
use zfs_nas_dashboard.Broker
use zfs_nas_dashboard.Broker.{Outcome, panic, ◌>>=◌}
use zfs_nas_dashboard.Config.{Config}
use zfs_nas_dashboard.Collector.Smart.{DiskInfo}
use zfs_nas_dashboard.Poller.{Database, Poller}
use zfs_nas_dashboard.Poller.Start
use zfs_nas_dashboard.Poller.Start.{
  Phase, looping, Phases, smart_goes, files_goes, zfs_goes, smart_ends, files_ends, zfs_ends,
  cancels, calls, act, advance,
}
use zfs_nas_dashboard.Main.Shutdown.{
  Progress, serving, cancelling, closing, returning, exited, Watch, waiting, in_shutdown, over,
  Process, Event, signals, shuts_down, shutdown_returns, listen_returns, main_goes, others,
  is_waiting, after_serve, returned, step, unless_exited, run, listening,
}
use zfs_nas_dashboard.Main.Shutdown.Moves.{
  is_leaving, ClosedAt, IsOrdered, ServesUntilShutdown, advance-cancelled, go_main-IsOrdered,
  after_watch-called, after_shutdown-waiting, watch-IsOrdered, phases-IsOrdered, main-IsOrdered,
}

module _ {V : Type 0} (is_server_closed : V → Bool) (may_return : Watch → Option V → Bool)
    (serves : ServesUntilShutdown is_server_closed may_return) where
  after_serve-Leaves :
      (w : Watch) (e : Option V) (closed : Bool)
      → may_return w e ≡ true
      → closed ≡ false
      → (is_leaving (after_serve is_server_closed e) ≡ true → is_waiting w ≡ false)
        × ClosedAt (after_serve is_server_closed e) closed
  after_serve-Leaves w none closed h c = absurd (cc (h, serves.never-nil w))
  after_serve-Leaves waiting (some e) closed h c = ground (arith, c, serves.closed-after e h)
  after_serve-Leaves in_shutdown (some e) closed h c = ground (arith, c)
  after_serve-Leaves over (some e) closed h c = ground (arith, c)

  returned-IsOrdered :
      {D F : Type 0} (s : Process D F) (e : Option V)
      → IsOrdered s
      → may_return s.watch e ≡ true
      → IsOrdered (record s { main = returned is_server_closed e s.main })
  returned-IsOrdered s e v h = go s.main refl
    where
      go :
          (m : Progress)
          → s.main ≡ m
          → IsOrdered (record s { main = returned is_server_closed e m })
      go serving f =
          let (leaves, closed) =
            after_serve-Leaves s.watch e s.store_closed h (ground (arith, v.closed_at, f)) in
          main-IsOrdered s (after_serve is_server_closed e) v leaves closed
      go cancelling f = subst (λ m. IsOrdered (record s { main = m })) f v
      go closing f = subst (λ m. IsOrdered (record s { main = m })) f v
      go returning f = subst (λ m. IsOrdered (record s { main = m })) f v
      go exited f = subst (λ m. IsOrdered (record s { main = m })) f v

-- A step that does not panic keeps the order.
abbrev Keeps : {D F : Type 0} → Outcome (Process D F) → Type 0
Keeps (Broker.ok s) = IsOrdered s
Keeps panic = Unit

bind-Keeps :
    {D F : Type 0} (o : Outcome (Process D F)) (k : Process D F → Outcome (Process D F))
    → Keeps o
    → ((s : Process D F) → IsOrdered s → Keeps (k s))
    → Keeps (o >>= k)
bind-Keeps (Broker.ok s) k h f = f s h
bind-Keeps panic k h f = tt

unless_exited-Keeps :
    {D F : Type 0} (m : Progress) (s : Process D F) (o : Outcome (Process D F))
    → IsOrdered s
    → Keeps o
    → Keeps (unless_exited m s o)
unless_exited-Keeps serving s o v h = h
unless_exited-Keeps cancelling s o v h = h
unless_exited-Keeps closing s o v h = h
unless_exited-Keeps returning s o v h = h
unless_exited-Keeps exited s o v h = v

module _ {D F E V : Type 0} (db : Database D) (close_db : D → D)
    (encode : List DiskInfo → Option Text) (cfg : Config) (range : List ℕ → List ℕ)
    (is_server_closed : V → Bool) (may_return : Watch → Option V → Bool)
    (serves : ServesUntilShutdown is_server_closed may_return) where
  others-Keeps :
      (s : Process D F) (e : Start.Event F E) (o : Outcome (Poller D F))
      → IsOrdered s
      → Keeps (o >>= λ p. Broker.ok (record s { poller = p; phases = advance e s.phases }))
  others-Keeps s e (Broker.ok p) v =
      phases-IsOrdered s p (advance e s.phases) v (advance-cancelled e s.phases)
  others-Keeps s e panic v = tt

  step-Keeps :
      (e : Event F E V) (s : Process D F)
      → IsOrdered s
      → Keeps (step db close_db encode cfg range is_server_closed may_return e s)
  unfolding step
  step-Keeps signals s v =
      phases-IsOrdered s s.poller (record (s.phases) { cancelled = true }) v (λ h. refl)
  step-Keeps shuts_down s v =
      let (stays, called) = after_watch-called s.phases.cancelled s.watch in
      watch-IsOrdered s _ v stays
        (λ h. elim (called h) [ inl c ↦ c | inr w ↦ v.shutdown_after_cancel w ])
  step-Keeps shutdown_returns s v =
      let same = after_shutdown-waiting s.watch in
      watch-IsOrdered s _ v (λ h. same ∙ h) (λ h. v.shutdown_after_cancel (sym same ∙ h))
  step-Keeps (listen_returns e) s v = elim (Bool-cases (may_return s.watch e)) [
    | inl h ↦ rw h (returned-IsOrdered is_server_closed may_return serves s e v h)
    | inr h ↦ rw h v
  ]
  step-Keeps main_goes s v = go_main-IsOrdered close_db s v
  step-Keeps (others e) s v = others-Keeps s e (act db encode cfg range e s.phases s.poller) v

  run-Keeps :
      (es : List (Event F E V)) (s : Process D F)
      → IsOrdered s
      → Keeps (run db close_db encode cfg range is_server_closed may_return es s)
  unfolding run
  run-Keeps [] s v = v
  run-Keeps (e ∷ es) s v =
      bind-Keeps _ (run db close_db encode cfg range is_server_closed may_return es)
        (unless_exited-Keeps s.main s _ v (step-Keeps e s v)) (run-Keeps es)

  -- From the call of ListenAndServe on, under every interleaving without a panic: Shutdown is called
  -- only once the context has ended; main leaves without an error, and the store is closed, only
  -- when Shutdown has been called; and the store is closed by the last deferred call, not before.
  -- ListenAndServe must return ErrServerClosed only after Shutdown, and never nil.
  pub run-listening-IsOrdered :
      (es : List (Event F E V)) (p : Poller D F) (s : Process D F)
      → run db close_db encode cfg range is_server_closed may_return es (listening p) ≡ Broker.ok s
      → IsOrdered s
  run-listening-IsOrdered es p s h = subst Keeps h (
      run-Keeps es (listening p) (record {
        shutdown_after_cancel = λ w. absurd (cc w);
        leaving_after_shutdown = λ w. absurd (cc w);
        closed_after_shutdown = λ w. absurd (cc w);
        closed_at = refl;
      }))
