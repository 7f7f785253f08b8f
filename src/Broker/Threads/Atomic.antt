-- ===== src/Broker/Threads/Atomic.antt =====
-- The calls of the broker as uninterrupted runs of the atomic steps.
use zfs_nas_dashboard.Prelude.{
  ℕ, ◌+◌, ◌≡◌, refl, sym, ap, ◌∙◌, inl, inr, true, List, [], ◌∷◌, ◌++◌, arith, if◌then◌else◌,
  Bool-cases, length, pos, negsuc,
}
use zfs_nas_dashboard.Go.Strings.{Text}
use zfs_nas_dashboard.Broker.Members.{is_snapshot, RangesAll}
use zfs_nas_dashboard.Broker.Invariant.{IsValid}
use zfs_nas_dashboard.Broker.{
  Broker, ok, add_count, over_cap, enter, register, unregister, send_all, drop_all, broadcast,
  receive,
}
use zfs_nas_dashboard.Broker.Calls.{
  Call, registers, unregisters, broadcasts, receives, call, bind-ok,
}
use zfs_nas_dashboard.Broker.Hub.Simulates.{call_refines}
use zfs_nas_dashboard.Broker.Threads.ClosedSend.{run-step}
use zfs_nas_dashboard.Broker.Threads.{
  Cast, System, raises, enters, refuses, lowers, leaves, snapshots, receives as receive_event, step,
  run,
}
use zfs_nas_dashboard.Broker.Threads.Schedules.{
  Schedules, casting, cast, Schedules-trans, sends-Schedules, drops-Schedules, leave-detach,
  leave-none, unregister-parts, step-lowers, record_self,
}

-- What a call leaves: its broker, and a finished broadcast more or none.
abbrev pub left_by : System → Broker → List Cast → System
left_by s b ks = record s { broker = b; casts = s.casts ++ ks }

step-raises :
    (s : System)
    → let raised = add_count (pos 1) s.broker in
      step raises s
      ≡ ok (
          if over_cap raised
          then record s { broker = raised; refusing = s.refusing + 1 }
          else record s { broker = raised; adding = s.adding + 1 })
unfolding step
step-raises s = refl

step-refuses :
    (t : System)
    → step refuses (record t { refusing = t.refusing + 1 })
      ≡ ok (record t { broker = add_count (negsuc 0) t.broker })
unfolding step
step-refuses t = ground arith

step-enters :
    (t : System)
    → step enters (record t { adding = t.adding + 1 }) ≡ ok (record t { broker = enter t.broker })
unfolding step
step-enters t = ground arith

register-Schedules :
    (s : System) → Schedules registers (length s.casts) s (left_by s (register s.broker).0 [])
unfolding register run
register-Schedules s =
    let raised = add_count (pos 1) s.broker in
    let t = record s { broker = raised } in
    elim (Bool-cases (over_cap raised)) [
      | inl o ↦ (
        raises ∷ refuses ∷ [],
        (tt, (tt, tt)),
        run-step raises (refuses ∷ []) s _ (step-raises s ∙ rw o refl)
            ∙ run-step refuses [] _ _ (step-refuses t)
            ∙ rw o (ap ok (sym (record_self _))),
      )
      | inr o ↦ (
        raises ∷ enters ∷ [],
        (tt, (tt, tt)),
        run-step raises (enters ∷ []) s _ (step-raises s ∙ rw o refl)
            ∙ run-step enters [] _ _ (step-enters t)
            ∙ rw o (ap ok (sym (record_self _))),
      )
    ]

unregister-Schedules :
    (c : ℕ) (s : System) (b' : Broker)
    → unregister c s.broker ≡ ok b'
    → Schedules (unregisters c) (length s.casts) s (left_by s b' [])
unfolding run
unregister-Schedules c s b' e = elim (unregister-parts c s.broker b' e) [
  | inl (d, m, f, g) ↦ (
    leaves c ∷ lowers ∷ [],
    (refl, (tt, tt)),
    run-step (leaves c) (lowers ∷ []) s (record s { broker = d; leaving = s.leaving + 1 })
          (unfold step in leave-detach s c d m f)
        ∙ run-step lowers [] _ _ (step-lowers (record s { broker = d }))
        ∙ ap ok (ap (λ x. record s { broker = x }) (sym g) ∙ sym (record_self _)),
  )
  | inr (m, g) ↦ (
    leaves c ∷ [],
    (refl, tt),
    run-step (leaves c) [] s s (unfold step in leave-none s c m)
        ∙ ap ok (ap (λ x. record s { broker = x }) (sym g) ∙ sym (record_self _)),
  )
]

broadcast-Schedules :
    (msg : Text) (snapshot : List ℕ) (s : System) (b' : Broker)
    → is_snapshot snapshot s.broker.clients ≡ true
    → broadcast msg snapshot s.broker ≡ ok b'
    → Schedules (broadcasts msg) (length s.casts) s (left_by s b' (cast msg [] [] ∷ []))
unfolding broadcast run
broadcast-Schedules msg snapshot s b' h e =
    let (r, sent, dropped) =
      bind-ok (send_all msg snapshot s.broker []) (λ r. drop_all r.1 r.0) b' e in
    let begun : step (snapshots msg snapshot) s ≡ ok (casting s s.broker (cast msg snapshot [])) =
      unfold step in ground (arith, h) in
    Schedules-trans (broadcasts msg) (length s.casts) s _ _
      (snapshots msg snapshot ∷ [], (refl, tt), run-step _ [] _ _ begun)
      (Schedules-trans (broadcasts msg) (length s.casts) _ (casting s r.0 (cast msg [] r.1)) _
        (sends-Schedules msg s snapshot [] r.1 s.broker r.0 sent)
        (drops-Schedules msg s r.1 r.0 b' dropped))

-- The broadcast that a call leaves behind, finished.
abbrev pub finished : Call → List Cast
finished registers = []
finished (unregisters c) = []
finished (broadcasts msg) = cast msg [] [] ∷ []
finished (receives c) = []

-- Every call of a valid broker that nobody interrupts, whatever else is under way, is a schedule of
-- atomic steps of its own: these alone bring it to its end without a panic, so it waits for no
-- client, and they leave the broker that the call as a whole leaves, and of a broadcast one more that
-- has nothing left to do.
pub call-Schedules :
    (range : List ℕ → List ℕ)
    → RangesAll range
    → (op : Call) (s : System) → IsValid s.broker
    → (b' : Broker) × (call range op s.broker ≡ ok b')
      × Schedules op (length s.casts) s (left_by s b' (finished op))
unfolding call
call-Schedules range ranges registers s v = ((register s.broker).0, refl, register-Schedules s)
call-Schedules range ranges (unregisters c) s v =
    let (b', e, v', same) = call_refines range ranges (unregisters c) s.broker v in
    (b', e, unregister-Schedules c s b' e)
call-Schedules range ranges (broadcasts msg) s v =
    let (b', e, v', same) = call_refines range ranges (broadcasts msg) s.broker v in
    (
      b',
      e,
      broadcast-Schedules msg (range s.broker.clients) s b' (ranges s.broker.clients v.linked.keys)
          e,
    )
call-Schedules range ranges (receives c) s v = (
  receive c s.broker,
  refl,
  (
    receive_event c ∷ [],
    (refl, tt),
    run-step (receive_event c) [] s (record s { broker = receive c s.broker }) (unfold step in refl)
        ∙ unfold run in ap ok (sym (record_self _)),
  ),
)
