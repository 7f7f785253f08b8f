-- ===== src/Broker/Hub/Simulates.antt =====
-- Every run of the broker of internal/broker/broker.go against what it promises.
use zfs_nas_dashboard.Prelude.{ℕ, ◌≡◌, refl, ap, ◌∙◌, List, [], ◌∷◌, arith}
use zfs_nas_dashboard.Broker
use zfs_nas_dashboard.Broker.{
  Broker, Chan, Outcome, ok, panic, ◌>>=◌, channel_buf, max_clients, register, unregister,
  broadcast, receive, receive_at, take_oldest, enter, add_count,
}
use zfs_nas_dashboard.Broker.Members.{member, RangesAll}
use zfs_nas_dashboard.Broker.Invariant.{chan_at, IsValid, register-IsValid}
use zfs_nas_dashboard.Broker.Threads.Cap.{receive-IsValid}
use zfs_nas_dashboard.Broker.Drops.{unregister-Drops}
use zfs_nas_dashboard.Broker.Delivery.{broadcast-Delivers}
use zfs_nas_dashboard.Broker.Calls
use zfs_nas_dashboard.Broker.Calls.{
  Call, registers, unregisters, broadcasts, receives, Reply, silent, reply, head_reply, chan_reply,
}
use zfs_nas_dashboard.Broker.Hub.{call, run}
use zfs_nas_dashboard.Broker.Hub.Refines.{
  view, mailbox, get_elem?-map, register_refines, unregister-view, broadcast-view, receive-view,
  chan_reply-shown,
}

-- A call of the broker ends well, with the mailboxes and the reply that the hub has.
abbrev pub CallRefines : (List ℕ → List ℕ) → Call → Broker → Type 0
CallRefines range op b =
    (b' : Broker) × (Broker.Calls.call range op b ≡ ok b')
    × IsValid b'
    × ((view b', reply op b) ≡ call op (view b))

module _ (range : List ℕ → List ℕ) (ranges : RangesAll range) where
  pub call_refines : (op : Call) (b : Broker) → IsValid b → CallRefines range op b
  unfolding Broker.Calls.call call reply
  call_refines registers b v = ((register b).0, refl, register-IsValid b v, register_refines b v)
  call_refines (unregisters c) b v =
      let (b', ran, v', d, again) = unregister-Drops b c v in
      (
        b',
        ran,
        v',
        ap (λ h. (h, silent))
            (unregister-view b b' c v.linked
              (λ j. unfold member in d.chans_closed j ∙ ground arith)),
      )
  call_refines (broadcasts msg) b v =
      let (b', ran, d) =
        broadcast-Delivers msg (range b.clients) b (ranges b.clients v.linked.keys) v in
      (b', ran, d.valid, ap (λ h. (h, silent)) (broadcast-view msg b b' v.linked d.chans_after))
  call_refines (receives c) b v = (
    receive c b,
    refl,
    receive-IsValid b c v,
    rw (receive-view c b, chan_reply-shown (chan_at b c), get_elem?-map mailbox b.chans c) refl,
  )

  -- No sequence of calls tells a valid broker from the hub of its mailboxes: it never panics, and
  -- whatever the order in which broadcasts range over the map, every `Register` is granted or
  -- refused as the hub does, with the same number, and every receive gives the same message, end or
  -- wait. The broker stays valid.
  pub run_refines :
      (ops : List Call) (b : Broker)
      → IsValid b
      → (b' : Broker) × (replies : List Reply) × (Broker.Calls.run range ops b ≡ ok (b', replies))
        × IsValid b'
        × ((view b', replies) ≡ run ops (view b))
  unfolding Broker.Calls.run run
  run_refines [] b v = (b, [], refl, v, refl)
  run_refines (op ∷ ops) b v =
      let (b', ran, v', same) = call_refines op b v in
      let (b'', replies, rest_ran, v'', rest_same) = run_refines ops b' v' in
      (b'', reply op b ∷ replies, rw (ran, rest_ran) refl, v'', rw (← same, ← rest_same) refl)
